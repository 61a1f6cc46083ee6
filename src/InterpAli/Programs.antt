-- ===== src/InterpAli/Programs.antt =====
-- Compiled programs on the interpreter of interp-ali.c.
use cc_implementation.Prelude.{
  ℕ, suc, ◌+◌, ◌^◌, ◌<◌, leb, ◌≡◌, ap, refl, arith, true, false, List, [], ◌∷◌, ◌++◌, some,
  get_elem?, length,
}
use cc_implementation.Word.{add64, sub64, slt64}
use cc_implementation.Word.Laws.{Fits63, long_val-val_long}
use cc_implementation.Profile.{Profile, first_unimplemented_op}
use cc_implementation.Interp.Machine.{Value, Machine, Exec, ok, Signal, next, returned, uncaught}
use cc_implementation.Interp.Memory.{skip}
use cc_implementation.Interp.Runtime.{Runtime}
use cc_implementation.Interp.Opcodes.{Opcode, decode}
use cc_implementation.Interp.Control.{offset_of, check_base}
use cc_implementation.Interp.Control.Traps.{stack_at-append}
use cc_implementation.Interp.Step as Shared
use cc_implementation.Interp.Step.Exceptions.{check_trap_barrier_beyond}
use cc_implementation.Interp.Programs.{Prim, Expr, eval, compile, IsProgram, depth}
use cc_implementation.Interp.Programs.Instructions.{small_operand}
use cc_implementation.Interp.Programs.Engine.{Engine, Plain, op_of}
use cc_implementation.Interp.Programs.Steps.{reaching, raising}
use cc_implementation.Interp.Programs.Layout.{At, Ready, HasRoom, IsNear, trapped}
use cc_implementation.Interp.Programs.Whole.{Executes, entered}
use cc_implementation.InterpAli.Control.{
  pushtrap, leave_trap, poptrap, to_handler, raise_notrace, raise_notrace_instr,
}
use cc_implementation.InterpAli.Step.{run, start, step, instruction, dispatch, execute, stop}

-- PUSHTRAP saves the distance to the enclosing trap.
abbrev link_of : Machine → ℕ
link_of m = sub64 m.trap_sp_off (offset_of (length m.stack + 4))

abbrev after_trap : Machine → ℕ → Machine
after_trap m n = trapped (link_of m) m n

link_fits : (m : Machine) → Ready m 4 → Fits63 (link_of m)
link_fits m ready = ground (arith, ready.near, ready.space)

link_back :
    (m : Machine)
    → Ready m 4
    → add64 (offset_of (suc (suc (suc (suc (length m.stack)))))) (link_of m) ≡ m.trap_sp_off
link_back m ready = ground (arith, ready.near, ready.space)

four_more : (n : ℕ) → n + 4 ≡ suc (suc (suc (suc n)))
four_more n = omega arith

module _ (rt : Runtime) where
  stepped :
      (m : Machine) (n : ℕ) (op : Opcode) (r : Profile → Exec Signal)
      → get_elem? m.code m.pc ≡ some n
      → decode n ≡ some op
      → n < first_unimplemented_op
      → HasRoom m (length m.stack)
      → Unit {0}
      → ((q : Profile) → instruction rt op (skip (record m { profile = q })) ≡ r q)
      → (q : Profile) × Unit {0} × (step rt m ≡ r q)
  unfolding step check_base
  stepped m n op r at known valid (f, running, fits) c does =
      let above_base : leb (length m.stack) f.words ≡ true = ground arith in
      (m.profile, tt, rw (running, above_base, at, known) (does m.profile))

  plain : (p : Plain) (m : Machine) → instruction rt (op_of p) m ≡ Shared.instruction rt (op_of p) m
  unfolding instruction dispatch execute Shared.instruction Shared.dispatch
  plain Plain.constint m = refl
  plain Plain.acc m = refl
  plain Plain.push m = refl
  plain Plain.pop m = refl
  plain Plain.branch m = refl
  plain Plain.branchifnot m = refl
  plain (Plain.prim_of Prim.add) m = refl
  plain (Plain.prim_of Prim.sub) m = refl
  plain (Plain.prim_of Prim.mul) m = refl
  plain (Plain.prim_of Prim.less) m = refl
  plain (Plain.prim_of Prim.equal) m = refl

  instruction-raise :
      (m : Machine)
      → slt64 m.trap_sp_off m.trap_barrier_off ≡ true
      → instruction rt Opcode.raise_notrace m ≡ raise_notrace rt m
  unfolding instruction dispatch raise_notrace_instr
  instruction-raise m beyond = ap (raise_notrace rt) (check_trap_barrier_beyond rt m beyond)

  instruction-pushtrap :
      (m : Machine) (n : ℕ)
      → get_elem? m.code m.pc ≡ some n
      → n < 2 ^ 31
      → instruction rt Opcode.pushtrap m ≡ ok (next (after_trap m n))
  unfolding instruction dispatch execute pushtrap
  instruction-pushtrap m n at h = rw (at, small_operand n h, four_more)

  instruction-poptrap :
      (m r : Machine) (n : ℕ)
      → get_elem? m.code m.pc ≡ some n
      → n < 2 ^ 31
      → Ready m 4
      → rt.is_pending r ≡ false
      → r.stack ≡ (after_trap m n).stack
      → instruction rt Opcode.poptrap r
        ≡ ok (next (record r { stack = m.stack; trap_sp_off = m.trap_sp_off }))
  unfolding instruction dispatch execute poptrap leave_trap
  instruction-poptrap m r n at h ready quiet hs =
      rw (quiet, hs, long_val-val_long (link_of m) (link_fits m ready), link_back m ready)

  caught :
      (m r : Machine) (n : ℕ) (above : List Value)
      → get_elem? m.code m.pc ≡ some n
      → m.pc + n < 2 ^ 31
      → Ready m 4
      → r.stack ≡ above ++ (after_trap m n).stack
      → r.trap_sp_off ≡ (after_trap m n).trap_sp_off
      → r.initial_stack_words ≡ m.initial_stack_words
      → raise_notrace rt r
        ≡ ok (
            next (record r {
              pc = m.pc + n;
              stack = m.stack;
              trap_sp_off = m.trap_sp_off;
              env = m.env;
              extra_args = m.extra_args;
            }))
  unfolding raise_notrace to_handler
  caught m r n above at h ready hs ho same =
      let target : add64 m.pc n ≡ m.pc + n = omega arith in
      let t = after_trap m n in
      let inside : slt64 t.trap_sp_off (offset_of m.initial_stack_words) ≡ true =
        ground (arith, ready.space, ready.based) in
      rw (
        hs,
        ho,
        same,
        inside,
        stack_at-append above t.stack (omega (arith, ready.space)),
        long_val-val_long (link_of m) (link_fits m ready),
        long_val-val_long m.extra_args ready.fits_args,
        link_back m ready,
        target,
      )

  run_next : (fuel : ℕ) (m : Machine) → run rt (suc fuel) (ok (next m)) ≡ run rt fuel (step rt m)
  unfolding run
  run_next fuel m = refl

  run_returned :
      (fuel : ℕ) (v : Value) (m : Machine)
      → run rt (suc fuel) (ok (returned v m)) ≡ ok (returned v m)
  unfolding run
  run_returned fuel v m = refl

  run_uncaught :
      (fuel : ℕ) (v : Value) (m : Machine)
      → run rt (suc fuel) (ok (uncaught v m)) ≡ ok (uncaught v m)
  unfolding run
  run_uncaught fuel v m = refl

  abbrev engine : Engine
  engine = record {
    rt = rt;
    Kept = λ q. Unit {0};
    run = run rt;
    step = step rt;
    instruction = instruction rt;
    raise_notrace = raise_notrace rt;
    link = link_of;
    run_next = run_next;
    run_returned = run_returned;
    run_uncaught = run_uncaught;
    stepped = stepped;
    plain = plain;
    raising_op = instruction-raise;
    pushing = instruction-pushtrap;
    popping = instruction-poptrap;
    catching = caught;
  }

  instruction-stop :
      (r : Machine)
      → instruction rt Opcode.stop r
        ≡ ok (returned r.accu (record r { external_raise = r.initial_external_raise }))
  unfolding instruction dispatch stop
  instruction-stop r = refl

-- The interpreter of interp-ali.c runs compiled programs as they are meant, like that of interp.c: on
-- the code of a closed expression and STOP, the dispatch loop ends, and with more fuel it ends in the
-- same way. A program with a value ends by returning this integer, one with an exception by returning
-- this exception; in both cases the stack, the heap, the trap and the exception context are those of
-- before the entry. The trap of the entry is that of a caller, near the top of the stack and beyond the
-- debugger's barrier; the stack has room for as many more words as the code of the expression may push; no
-- action is pending; jumps and stack offsets fit in an operand.
pub run_ali-compile :
    (rt : Runtime) (m : Machine) (e : Expr) (prog context : ℕ)
    → ((r : Machine) → rt.is_pending r ≡ false)
    → IsProgram 0 e
    → At m.code prog (compile e [] ++ 143 ∷ [])
    → prog + length (compile e []) < 2 ^ 31
    → length m.stack + depth e < 2 ^ 31
    → HasRoom m (length m.stack + depth e)
    → IsNear m.trap_sp_off
    → slt64 m.trap_sp_off (offset_of (length m.stack)) ≡ false
    → slt64 m.trap_sp_off m.trap_barrier_off ≡ true
    → m.trap_barrier_off < 2 ^ 63
    → Executes (run rt) m (ok (next (start prog context m))) (eval e [])
unfolding start raise_notrace
run_ali-compile rt m e prog context idle closed at fits space room near outside beyond high =
    let s = start prog context m in
    entered (engine rt) m s
      (λ pc v q.
        let r = skip (reaching s pc v q) in
        (
          record r { external_raise = r.initial_external_raise },
          instruction-stop rt r,
          record {
            stack = refl;
            trap_sp_off = refl;
            external_raise = refl;
            heap = refl;
            current_stack = refl;
          },
        ))
      (λ above at w q.
        let r = raising s above at w q in
        (
          record r { stack = m.stack; external_raise = m.external_raise },
          rw (outside, stack_at-append above m.stack (omega arith)),
          record {
            stack = refl;
            trap_sp_off = refl;
            external_raise = refl;
            heap = refl;
            current_stack = refl;
          },
        ))
      e idle closed at fits refl
      (record {
        space = space;
        room_left = room;
        based = omega arith;
        near = near;
        fits_args = omega arith;
        barrier = high;
        beyond = beyond;
      })
      tt
