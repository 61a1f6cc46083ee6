-- ===== src/Interp/Tests/Traps.antt =====
-- A trap that is pushed, raised to, and popped.
use cc_implementation.Prelude.{◌≡◌, refl, arith, [], ◌∷◌}
use cc_implementation.Word.{val_long}
use cc_implementation.Interp.Machine.{word, atom, code, Machine, ok, next}
use cc_implementation.Interp.Control.{pushtrap, raise_notrace, poptrap, offset_of}
use cc_implementation.Interp.Control.Traps.{raise_notrace-pushtrap, poptrap-pushtrap}
use cc_implementation.Interp.Step.{run}
use cc_implementation.Interp.Step.Exceptions.{run-pushtrap}
use cc_implementation.Interp.Machine.{raised}
use cc_implementation.Interp.Tests.{quiet, idle}

-- A machine at the operand of PUSHTRAP, with a word on its stack.
abbrev pub before : Machine
before = record idle {
  pc = 1;
  stack = word 7 ∷ [];
  extra_args = 2;
  trap_sp_off = 0;
  code = 89 ∷ 5 ∷ [];
}

abbrev pub with_trap : Machine
with_trap = record before {
  pc = 2;
  stack = code 6 ∷ word 1 ∷ atom 0 ∷ word 5 ∷ word 7 ∷ [];
  trap_sp_off = offset_of 5;
}

-- The same, after more words were pushed and the registers changed.
abbrev pub deeper : Machine
deeper = record with_trap {
  pc = 40;
  stack = word 9 ∷ word 11 ∷ with_trap.stack;
  accu = word 99;
  env = word 3;
  extra_args = 8;
}

pub pushed_trap : pushtrap before ≡ ok with_trap
unfolding pushtrap val_long
pushed_trap = refl

raise_notrace-pushtrap_example :
    raise_notrace quiet deeper
    ≡ ok (
        next (record deeper {
          pc = 6;
          stack = word 7 ∷ [];
          trap_sp_off = 0;
          env = atom 0;
          extra_args = 2;
        }))
raise_notrace-pushtrap_example =
    raise_notrace-pushtrap quiet before with_trap deeper 5 (word 9 ∷ word 11 ∷ []) refl pushed_trap
      refl refl (omega arith) (omega arith) (omega arith)

poptrap-pushtrap_example :
    poptrap quiet (record deeper { stack = with_trap.stack })
    ≡ ok (record deeper { stack = word 7 ∷ []; trap_sp_off = 0 })
poptrap-pushtrap_example =
    poptrap-pushtrap quiet before with_trap (record deeper { stack = with_trap.stack }) 5 refl
      pushed_trap refl refl (omega arith)

-- A C function raises the exception 77.
run-pushtrap_example :
    run quiet 5 (raised (word 77) deeper)
    ≡ run quiet 4 (
        ok (
          next (record deeper {
            accu = word 77;
            pc = 6;
            stack = word 7 ∷ [];
            trap_sp_off = 0;
            env = atom 0;
            extra_args = 2;
          })))
run-pushtrap_example =
    run-pushtrap quiet 4 (word 77) before with_trap deeper 5 (word 9 ∷ word 11 ∷ []) refl
      pushed_trap refl refl (omega arith) (omega arith) (omega arith) refl refl
