-- ===== src/Interp/Tests/Leaving.antt =====
-- Exceptions that leave the interpreter, and a division by zero under a trap.
use cc_implementation.Prelude.{◌≡◌, refl, arith, [], ◌∷◌, none}
use cc_implementation.Word.{sdiv64}
use cc_implementation.Interp.Machine.{word, Machine, ok, next, uncaught, ◌>>=◌}
use cc_implementation.Interp.Memory.{val_int}
use cc_implementation.Interp.Control.{raise_notrace}
use cc_implementation.Interp.Ints.{divide_by}
use cc_implementation.Interp.Step.{run, start}
use cc_implementation.Interp.Step.Leaving.{left, raise_notrace-left, run-divide_by}
use cc_implementation.Interp.Tests.{quiet, idle, idle_profile}
use cc_implementation.Interp.Tests.Traps.{before, with_trap, deeper, pushed_trap}

-- A machine that enters the interpreter from a callback, and later raises with two words more.
abbrev caller : Machine
caller = record idle { stack = word 7 ∷ word 9 ∷ []; trap_sp_off = 12; external_raise = 800 }

abbrev inside : Machine
inside = record idle {
  pc = 33;
  stack = word 1 ∷ word 3 ∷ word 7 ∷ word 9 ∷ [];
  accu = word 5;
  external_raise = 900;
  initial_trap_sp_off = 12;
  initial_stack_words = 2;
  initial_external_raise = 800;
}

raise_notrace-left_example :
    raise_notrace quiet inside ≡ ok (uncaught (word 5) (left caller inside))
unfolding start
raise_notrace-left_example =
    raise_notrace-left quiet caller inside
      (record {
        words = 1024;
        saved = [];
        parent = none;
        handle_value = word 1;
        handle_exn = word 1;
        handle_effect = word 1;
      })
      4 900 idle_profile (word 1 ∷ word 3 ∷ []) refl refl refl refl refl refl (omega arith)

-- 49 divided by 0, under the trap.
abbrev dividing : Machine
dividing = record deeper { stack = val_int 0 ∷ word 9 ∷ word 11 ∷ with_trap.stack }

run-divide_by_example :
    run quiet 5 (divide_by quiet sdiv64 dividing >>= λ m'. ok (next m'))
    ≡ run quiet 4 (
        ok (
          next (record dividing {
            accu = word 1;
            pc = 6;
            stack = word 7 ∷ [];
            trap_sp_off = 0;
            env = before.env;
            extra_args = 2;
          })))
run-divide_by_example =
    run-divide_by quiet 4 sdiv64 before with_trap dividing 5 99 (word 9 ∷ word 11 ∷ []) refl
      pushed_trap refl refl refl (omega arith) (omega arith) (omega arith) refl refl
