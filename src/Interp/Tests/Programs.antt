-- ===== src/Interp/Tests/Programs.antt =====
-- A compiled program that catches an exception of its own.
use cc_implementation.Prelude.{◌≡◌, refl, arith, [], ◌∷◌, ◌++◌}
use cc_implementation.Interp.Machine.{Machine, ok, next}
use cc_implementation.Interp.Step.{run, start}
use cc_implementation.Interp.Programs.{
  Expr, const, var, prim, let_in, if_else, raise_exn, try_with, Prim, value, eval, compile,
  IsProgram,
}
use cc_implementation.Interp.Programs.Layout.{At-after}
use cc_implementation.Interp.Programs.Compiled.{run-compile}
use cc_implementation.Interp.Programs.Whole.{Executes}
use cc_implementation.Interp.Tests.{quiet, idle, idle_fiber}
use cc_implementation.Profile.Start.{first_profile, first_profile-IsCounting}

-- try (let x = 5 in if x < 7 then raise (x * 3) else 1) with y -> y + 2
abbrev pub program : Expr
program =
    try_with
      (let_in (const 5) (
        if_else (prim Prim.less (var 0) (const 7)) (raise_exn (prim Prim.mul (var 0) (const 3)))
          (const 1)))
      (prim Prim.add (var 0) (const 2))

program_value : eval program [] ≡ value 17
unfolding eval
program_value = refl

pub program-IsProgram : IsProgram 0 program
program-IsProgram = (
  (omega arith, ((omega arith, omega arith), (omega arith, omega arith), omega arith)),
  (omega arith, omega arith),
)

-- With a word of other code in front.
abbrev loaded : Machine
loaded = record idle { code = 143 ∷ (compile program [] ++ 143 ∷ []) }

run-compile_example :
    Executes
      (run quiet)
      loaded
      (ok (next (start 1 4096 (first_profile 0) loaded)))
      (eval program [])
unfolding compile
run-compile_example =
    run-compile quiet loaded idle_fiber program 1 4096 (first_profile 0) (λ r. refl)
      program-IsProgram (At-after (143 ∷ []) (compile program [] ++ 143 ∷ [])) (omega arith)
      (omega arith) (omega arith) (omega arith) (omega arith) refl (first_profile-IsCounting 0)
