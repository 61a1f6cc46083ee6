-- ===== src/Interp/Apply/Calls.antt =====
-- Calls, returns and partial applications.
use cc_implementation.Prelude.{◌≡◌, false, List, ◌∷◌, ◌++◌, length}
use cc_implementation.Word.Laws.{Fits63, long_val-val_long}
use cc_implementation.Profile.{leave}
use cc_implementation.Interp.Machine.{Value, code, Machine, ok}
use cc_implementation.Interp.Memory.{val_int, operand}
use cc_implementation.Interp.Memory.Laws.{drop-append}
use cc_implementation.Interp.Runtime.{Runtime}
use cc_implementation.Interp.Control.{check_stacks}
use cc_implementation.Interp.Apply.{return_instr}

-- A runtime that has nothing to do at a machine: no signal, and room on the stack.
pub record IsQuiet (rt : Runtime) (m : Machine) : Type 0 where
  pub no_signal : rt.is_pending m ≡ false
  pub roomy : rt.below_threshold m ≡ false

pub check_stacks-quiet : (rt : Runtime) (m : Machine) → IsQuiet rt m → check_stacks rt m ≡ ok m
unfolding check_stacks
check_stacks-quiet rt m q = rw (q.roomy, q.no_signal)

-- RETURN with no extra argument, in a machine `r` that still has the return frame of the caller `m`
-- under as many words as it pops, whatever else has happened since the call, gives the caller its
-- code pointer, environment, extra arguments and the rest of its stack back. The result stays in
-- the accumulator, the heap stays, and the counters leave the function.
pub return_instr-called :
    (rt : Runtime) (m r : Machine) (locals rest : List Value)
    → r.stack ≡ locals ++ (code m.pc ∷ (m.env ∷ (val_int m.extra_args ∷ rest)))
    → operand r ≡ ok (length locals)
    → r.extra_args ≡ 0
    → Fits63 m.extra_args
    → return_instr rt r
      ≡ ok (record r {
        pc = m.pc;
        stack = rest;
        env = m.env;
        extra_args = m.extra_args;
        profile = leave r.profile;
      })
unfolding return_instr
return_instr-called rt m r locals rest hs ho he fits = rw (
  ho,
  hs,
  drop-append locals (code m.pc ∷ (m.env ∷ (val_int m.extra_args ∷ rest))),
  he,
  long_val-val_long m.extra_args fits,
)
