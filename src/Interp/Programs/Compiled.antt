-- ===== src/Interp/Programs/Compiled.antt =====
-- Compiled programs on the interpreter of interp.c, with its counters.
use cc_implementation.Prelude.{
  ℕ, suc, ◌+◌, ◌^◌, ◌<◌, ◌≤◌, leb, ◌≡◌, ◌∙◌, ap, refl, arith, true, false, List, [], ◌∷◌, ◌++◌,
  none, some, get_elem?, length,
}
use cc_implementation.Word.{add64, slt64}
use cc_implementation.Word.Laws.{Fits63}
use cc_implementation.Profile.{Profile, first_unimplemented_op}
use cc_implementation.Profile.Laws.{IsCounting}
use cc_implementation.Profile.Counts.{count_opcode-Counted}
use cc_implementation.Interp.Machine.{
  Value, Fiber, Machine, Exec, ok, Signal, next, returned, uncaught,
}
use cc_implementation.Interp.Memory.{skip, operand}
use cc_implementation.Interp.Runtime.{Runtime}
use cc_implementation.Interp.Opcodes.{Opcode, decode}
use cc_implementation.Interp.Control.{
  check_base, put_fiber, pushtrap, raise_notrace, raise_notrace_instr,
}
use cc_implementation.Interp.Control.Traps.{poptrap-pushtrap, raise_notrace-pushtrap}
use cc_implementation.Interp.Effects.{save_stack}
use cc_implementation.Interp.Step.{run, start, step, instruction, dispatch, execute, stop}
use cc_implementation.Interp.Step.Exceptions.{check_trap_barrier_beyond}
use cc_implementation.Interp.Step.Leaving.{raise_notrace-left, left}
use cc_implementation.Interp.Programs.{Expr, eval, compile, IsProgram, depth}
use cc_implementation.Interp.Programs.Instructions.{small_operand}
use cc_implementation.Interp.Programs.Engine.{Engine}
use cc_implementation.Interp.Programs.Steps.{reaching, raising}
use cc_implementation.Interp.Programs.Layout.{At, Ready, HasRoom, IsNear, trapped}
use cc_implementation.Interp.Programs.Whole.{Executes, entered}

-- PUSHTRAP saves the offset of the enclosing trap.
abbrev after_trap : Machine → ℕ → Machine
after_trap m n = trapped m.trap_sp_off m n

near_fits : (off : ℕ) → IsNear off → Fits63 off
near_fits off h = ground arith

module _ (rt : Runtime) where
  stepped :
      (m : Machine) (n : ℕ) (op : Opcode) (r : Profile → Exec Signal)
      → get_elem? m.code m.pc ≡ some n
      → decode n ≡ some op
      → n < first_unimplemented_op
      → HasRoom m (length m.stack)
      → IsCounting m.profile
      → ((q : Profile) → instruction rt op (skip (record m { profile = q })) ≡ r q)
      → (q : Profile) × IsCounting q × (step rt m ≡ r q)
  unfolding step check_base
  stepped m n op r at known valid (f, running, fits) c does =
      let above_base : leb (length m.stack) f.words ≡ true = ground arith in
      let (q, counted, k) = count_opcode-Counted m.profile n c valid in
      (q, k.counting, rw (running, above_base, at, counted, known) (does q))

  instruction-raise :
      (m : Machine)
      → slt64 m.trap_sp_off m.trap_barrier_off ≡ true
      → instruction rt Opcode.raise_notrace m ≡ raise_notrace rt m
  unfolding instruction dispatch raise_notrace_instr
  instruction-raise m beyond = ap (raise_notrace rt) (check_trap_barrier_beyond rt m beyond)

  instruction-pushtrap :
      (m : Machine) (n : ℕ)
      → get_elem? m.code m.pc ≡ some n
      → n < 2 ^ 31
      → instruction rt Opcode.pushtrap m ≡ ok (next (after_trap m n))
  unfolding instruction dispatch execute pushtrap
  instruction-pushtrap m n at h = rw (at, small_operand n h)

  pushed : (m : Machine) (n : ℕ) → operand m ≡ ok n → pushtrap m ≡ ok (after_trap m n)
  unfolding pushtrap
  pushed m n h = rw h

  instruction-poptrap :
      (m r : Machine) (n : ℕ)
      → get_elem? m.code m.pc ≡ some n
      → n < 2 ^ 31
      → Ready m 4
      → rt.is_pending r ≡ false
      → r.stack ≡ (after_trap m n).stack
      → instruction rt Opcode.poptrap r
        ≡ ok (next (record r { stack = m.stack; trap_sp_off = m.trap_sp_off }))
  unfolding instruction dispatch execute
  instruction-poptrap m r n at h ready quiet hs =
      let reads : operand m ≡ ok n = rw (at, small_operand n h) in
      rw (
        poptrap-pushtrap rt m (after_trap m n) r n reads (pushed m n reads) quiet hs
          (near_fits m.trap_sp_off ready.near))

  caught :
      (m r : Machine) (n : ℕ) (above : List Value)
      → get_elem? m.code m.pc ≡ some n
      → m.pc + n < 2 ^ 31
      → Ready m 4
      → r.stack ≡ above ++ (after_trap m n).stack
      → r.trap_sp_off ≡ (after_trap m n).trap_sp_off
      → r.initial_stack_words ≡ m.initial_stack_words
      → raise_notrace rt r
        ≡ ok (
            next (record r {
              pc = m.pc + n;
              stack = m.stack;
              trap_sp_off = m.trap_sp_off;
              env = m.env;
              extra_args = m.extra_args;
            }))
  caught m r n above at h ready hs ho same =
      let reads : operand m ≡ ok n = rw (at, small_operand n (omega arith)) in
      let target : add64 m.pc n ≡ m.pc + n = omega arith in
      raise_notrace-pushtrap rt m (after_trap m n) r n above reads (pushed m n reads) hs ho
        (omega (arith, ready.space)) (near_fits m.trap_sp_off ready.near) ready.fits_args
      ∙ ap
          (λ pc. ok (
            next (record r {
              pc = pc;
              stack = m.stack;
              trap_sp_off = m.trap_sp_off;
              env = m.env;
              extra_args = m.extra_args;
            })))
          target

  run_next : (fuel : ℕ) (m : Machine) → run rt (suc fuel) (ok (next m)) ≡ run rt fuel (step rt m)
  unfolding run
  run_next fuel m = refl

  run_returned :
      (fuel : ℕ) (v : Value) (m : Machine)
      → run rt (suc fuel) (ok (returned v m)) ≡ ok (returned v m)
  unfolding run
  run_returned fuel v m = refl

  run_uncaught :
      (fuel : ℕ) (v : Value) (m : Machine)
      → run rt (suc fuel) (ok (uncaught v m)) ≡ ok (uncaught v m)
  unfolding run
  run_uncaught fuel v m = refl

  abbrev engine : Engine
  engine = record {
    rt = rt;
    Kept = IsCounting;
    run = run rt;
    step = step rt;
    instruction = instruction rt;
    raise_notrace = raise_notrace rt;
    link = λ m. m.trap_sp_off;
    run_next = run_next;
    run_returned = run_returned;
    run_uncaught = run_uncaught;
    stepped = stepped;
    plain = λ p m. refl;
    raising_op = instruction-raise;
    pushing = instruction-pushtrap;
    popping = instruction-poptrap;
    catching = caught;
  }

  -- The machine at the end of STOP.
  abbrev stopped : Machine → Fiber → Machine
  stopped r f = record (put_fiber r.current_stack (record f { saved = r.stack }) r) {
    external_raise = r.initial_external_raise;
    trap_sp_off = r.initial_trap_sp_off;
  }

  instruction-stop :
      (r : Machine) (f : Fiber)
      → get_elem? r.fibers r.current_stack ≡ some (some f)
      → instruction rt Opcode.stop r ≡ ok (returned r.accu (stopped r f))
  unfolding instruction dispatch stop save_stack
  instruction-stop r f self = rw self

-- The interpreter of interp.c runs compiled programs as they are meant: on the code of a closed
-- expression and STOP, with any counters of a run, the dispatch loop ends, and with more fuel it ends in
-- the same way. A program with a value ends by returning this integer, one with an exception by
-- returning this exception; in both cases the stack, the heap, the current stack, the trap offset and
-- the exception context are those of before the entry. The entry stands on a stack with no parent, which
-- has room for as many more words as the code of the expression may push; no signal is pending, jumps
-- and stack offsets fit in an operand, and the debugger's barrier lies above 1.
pub run-compile :
    (rt : Runtime) (m : Machine) (f : Fiber) (e : Expr) (prog context : ℕ) (p : Profile)
    → ((r : Machine) → rt.is_pending r ≡ false)
    → IsProgram 0 e
    → At m.code prog (compile e [] ++ 143 ∷ [])
    → prog + length (compile e []) < 2 ^ 31
    → length m.stack + depth e < 2 ^ 31
    → length m.stack + depth e ≤ f.words
    → 1 < m.trap_barrier_off
    → m.trap_barrier_off < 2 ^ 63
    → get_elem? m.fibers m.current_stack ≡ some (some (record f { parent = none }))
    → IsCounting p
    → Executes (run rt) m (ok (next (start prog context p m))) (eval e [])
unfolding start
run-compile rt m f e prog context p idle closed at fits space room low high orphan c =
    let s = start prog context p m in
    let g = record f { parent = none } in
    entered (engine rt) m s
      (λ pc v q.
        let r = skip (reaching s pc v q) in
        (
          stopped rt r g,
          instruction-stop rt r g orphan,
          record {
            stack = refl;
            trap_sp_off = refl;
            external_raise = refl;
            heap = refl;
            current_stack = refl;
          },
        ))
      (λ above at w q.
        let r = raising s above at w q in
        (
          left m r,
          raise_notrace-left rt m r f prog context p above refl refl refl refl refl orphan
              (omega arith),
          record {
            stack = refl;
            trap_sp_off = refl;
            external_raise = refl;
            heap = refl;
            current_stack = refl;
          },
        ))
      e idle closed at fits refl
      (record {
        space = space;
        room_left = (g, orphan, room);
        based = ground arith;
        near = omega arith;
        fits_args = omega arith;
        barrier = high;
        beyond = ground arith;
      })
      c
