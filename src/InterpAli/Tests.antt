-- ===== src/InterpAli/Tests.antt =====
-- A compiled program on the interpreter of interp-ali.c, under a trap of its caller.
use cc_implementation.Prelude.{◌≡◌, refl, arith, [], ◌∷◌, ◌++◌}
use cc_implementation.Interp.Machine.{word, ptr, code, atom, Machine, ok, next}
use cc_implementation.Word.{val_long}
use cc_implementation.Profile.Start.{first_profile, first_profile-IsCounting}
use cc_implementation.Interp.Control.{check_signals}
use cc_implementation.InterpAli.Control.{check_stacks}
use cc_implementation.InterpAli.Apply.{apply_to}
use cc_implementation.InterpAli.Alike.{Call, on_interp, on_ali, on_interp-on_ali}
use cc_implementation.InterpAli.Alike.Frames.{Alike}
use cc_implementation.Interp.Programs.{eval, compile}
use cc_implementation.Interp.Programs.Layout.{At-after}
use cc_implementation.Interp.Programs.Whole.{Executes}
use cc_implementation.Interp.Tests.{quiet, idle, idle_fiber}
use cc_implementation.Interp.Tests.Programs.{program, program-IsProgram}
use cc_implementation.InterpAli.Step.{run, start}
use cc_implementation.InterpAli.Programs.{run_ali-compile}

-- Two words of the caller are on the stack, and its trap is at `stack_high`.
abbrev loaded_ali : Machine
loaded_ali = record idle {
  stack = word 7 ∷ word 9 ∷ [];
  trap_sp_off = 0;
  trap_barrier_off = 1;
  code = 143 ∷ (compile program [] ++ 143 ∷ []);
}

run_ali-compile_example :
    Executes (run quiet) loaded_ali (ok (next (start 1 4096 loaded_ali))) (eval program [])
unfolding compile
run_ali-compile_example =
    run_ali-compile quiet loaded_ali program 1 4096 (λ r. refl) program-IsProgram
      (At-after (143 ∷ []) (compile program [] ++ 143 ∷ [])) (omega arith) (omega arith)
      (idle_fiber, refl, omega arith) (omega arith) refl refl (omega arith)

-- A call with two arguments of the closure in the accumulator, whose code is at 5.
abbrev calling : Machine
calling = record idle {
  pc = 3;
  accu = ptr 0 0;
  stack = word 7 ∷ word 9 ∷ [];
  extra_args = 2;
  heap = record { tag = 247; fields = code 5 ∷ word 5 ∷ [] } ∷ [];
  profile = first_profile 4096;
}

abbrev in_callee : Machine
in_callee = record calling {
  pc = 5;
  stack = word 7 ∷ word 9 ∷ code 3 ∷ atom 0 ∷ word 5 ∷ [];
  env = ptr 0 0;
  extra_args = 1;
}

called_plainly : on_ali quiet (Call.apply_args 2) calling ≡ ok in_callee
unfolding apply_to check_stacks check_signals val_long
called_plainly = refl

on_interp-on_ali_example : Alike (on_interp quiet (Call.apply_args 2) calling) in_callee
on_interp-on_ali_example =
    on_interp-on_ali quiet (Call.apply_args 2) calling in_callee
      (λ x. record { no_signal = refl; roomy = refl }) (λ x. (refl, refl))
      (first_profile-IsCounting 4096) (λ e. absurd (omega (arith, e))) (omega arith) called_plainly
