-- ===== src/Interp/Programs/Engine.antt =====
-- What the two interpreters, of interp.c and of interp-ali.c, have in common for programs.
use cc_implementation.Prelude.{
  ℕ, suc, ◌+◌, ◌^◌, ◌<◌, ◌≡◌, ◌∙◌, true, false, ◌∷◌, ◌++◌, some, get_elem?, ◌==◌, List, length,
}
use cc_implementation.Word.{slt64}
use cc_implementation.Profile.{Profile, first_unimplemented_op}
use cc_implementation.Interp.Machine.{Value, Machine, Exec, ok, Signal, next, returned, uncaught}
use cc_implementation.Interp.Memory.{val_int, skip}
use cc_implementation.Interp.Runtime.{Runtime}
use cc_implementation.Interp.Opcodes.{Opcode, decode}
use cc_implementation.Interp.Step as Shared
use cc_implementation.Interp.Ints.Laws.{with_ints, with_int}
use cc_implementation.Interp.Programs.{Prim, apply_prim, int_range}
use cc_implementation.Interp.Programs.Layout.{Ready, HasRoom, trapped}
use cc_implementation.Interp.Programs.Instructions.{
  prim_op, constint_lem, acc_lem, push_lem, pop_lem, branch_lem, branchifnot-zero,
  branchifnot-other, prim_lem,
}

-- The instructions that are the same in both.
pub data Plain : Type 0 where
  constint acc push pop branch branchifnot : Plain
  prim_of : Prim → Plain

abbrev pub op_of : Plain → Opcode
op_of Plain.constint = Opcode.constint
op_of Plain.acc = Opcode.acc
op_of Plain.push = Opcode.push
op_of Plain.pop = Opcode.pop
op_of Plain.branch = Opcode.branch
op_of Plain.branchifnot = Opcode.branchifnot
op_of (Plain.prim_of p) = prim_op p

-- An interpreter: its loop, its instructions, `raise_notrace`, the link that its PUSHTRAP saves, and what
-- holds of the counters throughout a run. A round of valid code, with the words of the stack inside it,
-- is the bookkeeping and the instruction; traps bring back what PUSHTRAP saw.
pub record Engine : Type 1 where
  pub rt : Runtime
  pub Kept : Profile → Type 0
  pub run : ℕ → Exec Signal → Exec Signal
  pub step : Machine → Exec Signal
  pub instruction : Opcode → Machine → Exec Signal
  pub raise_notrace : Machine → Exec Signal
  pub link : Machine → ℕ
  pub run_next : (fuel : ℕ) (m : Machine) → run (suc fuel) (ok (next m)) ≡ run fuel (step m)
  pub run_returned :
      (fuel : ℕ) (v : Value) (m : Machine) → run (suc fuel) (ok (returned v m)) ≡ ok (returned v m)
  pub run_uncaught :
      (fuel : ℕ) (v : Value) (m : Machine) → run (suc fuel) (ok (uncaught v m)) ≡ ok (uncaught v m)
  pub stepped :
      (m : Machine) (n : ℕ) (op : Opcode) (r : Profile → Exec Signal)
      → get_elem? m.code m.pc ≡ some n
      → decode n ≡ some op
      → n < first_unimplemented_op
      → HasRoom m (length m.stack)
      → Kept m.profile
      → ((q : Profile) → instruction op (skip (record m { profile = q })) ≡ r q)
      → (q : Profile) × Kept q × (step m ≡ r q)
  pub plain :
      (p : Plain) (m : Machine) → instruction (op_of p) m ≡ Shared.instruction rt (op_of p) m
  pub raising_op :
      (m : Machine)
      → slt64 m.trap_sp_off m.trap_barrier_off ≡ true
      → instruction Opcode.raise_notrace m ≡ raise_notrace m
  pub pushing :
      (m : Machine) (n : ℕ)
      → get_elem? m.code m.pc ≡ some n
      → n < 2 ^ 31
      → instruction Opcode.pushtrap m ≡ ok (next (trapped (link m) m n))
  pub popping :
      (m r : Machine) (n : ℕ)
      → get_elem? m.code m.pc ≡ some n
      → n < 2 ^ 31
      → Ready m 4
      → rt.is_pending r ≡ false
      → r.stack ≡ (trapped (link m) m n).stack
      → instruction Opcode.poptrap r
        ≡ ok (next (record r { stack = m.stack; trap_sp_off = m.trap_sp_off }))
  pub catching :
      (m r : Machine) (n : ℕ) (above : List Value)
      → get_elem? m.code m.pc ≡ some n
      → m.pc + n < 2 ^ 31
      → Ready m 4
      → r.stack ≡ above ++ (trapped (link m) m n).stack
      → r.trap_sp_off ≡ (trapped (link m) m n).trap_sp_off
      → r.initial_stack_words ≡ m.initial_stack_words
      → raise_notrace r
        ≡ ok (
            next (record r {
              pc = m.pc + n;
              stack = m.stack;
              trap_sp_off = m.trap_sp_off;
              env = m.env;
              extra_args = m.extra_args;
            }))

module _ (en : Engine) where
  pub constint_runs :
      (m : Machine) (n : ℕ)
      → get_elem? m.code m.pc ≡ some n
      → n < 2 ^ 31
      → en.instruction Opcode.constint m ≡ ok (next (record m { pc = m.pc + 1; accu = val_int n }))
  constint_runs m n at h = en.plain Plain.constint m ∙ constint_lem en.rt m n at h

  pub acc_runs :
      (m : Machine) (n : ℕ) (v : Value)
      → get_elem? m.code m.pc ≡ some n
      → n < 2 ^ 31
      → get_elem? m.stack n ≡ some v
      → en.instruction Opcode.acc m ≡ ok (next (record m { pc = m.pc + 1; accu = v }))
  acc_runs m n v at h found = en.plain Plain.acc m ∙ acc_lem en.rt m n v at h found

  pub push_runs :
      (m : Machine)
      → en.instruction Opcode.push m ≡ ok (next (record m { stack = m.accu ∷ m.stack }))
  push_runs m = en.plain Plain.push m ∙ push_lem en.rt m

  pub pop_runs :
      (m : Machine) (v : Value)
      → get_elem? m.code m.pc ≡ some 1
      → en.instruction Opcode.pop (record m { stack = v ∷ m.stack })
        ≡ ok (next (record m { pc = m.pc + 1 }))
  pop_runs m v at = en.plain Plain.pop (record m { stack = v ∷ m.stack }) ∙ pop_lem en.rt m v at

  pub branch_runs :
      (m : Machine) (n : ℕ)
      → get_elem? m.code m.pc ≡ some n
      → m.pc + n < 2 ^ 31
      → en.instruction Opcode.branch m ≡ ok (next (record m { pc = m.pc + n }))
  branch_runs m n at h = en.plain Plain.branch m ∙ branch_lem en.rt m n at h

  pub branchifnot_runs-zero :
      (m : Machine) (n v : ℕ)
      → get_elem? m.code m.pc ≡ some n
      → m.pc + n < 2 ^ 31
      → v < int_range
      → (v == 0) ≡ true
      → en.instruction Opcode.branchifnot (record m { accu = val_int v })
        ≡ ok (next (record m { pc = m.pc + n; accu = val_int v }))
  branchifnot_runs-zero m n v at h fits z =
      en.plain Plain.branchifnot (record m { accu = val_int v })
      ∙ branchifnot-zero en.rt m n v at h fits z

  pub branchifnot_runs-other :
      (m : Machine) (v : ℕ)
      → v < int_range
      → (v == 0) ≡ false
      → en.instruction Opcode.branchifnot (record m { accu = val_int v })
        ≡ ok (next (record m { pc = m.pc + 1; accu = val_int v }))
  branchifnot_runs-other m v fits z =
      en.plain Plain.branchifnot (record m { accu = val_int v })
      ∙ branchifnot-other en.rt m v fits z

  pub prim_runs :
      (m : Machine) (p : Prim) (a b : ℕ)
      → a < int_range
      → b < int_range
      → en.instruction (prim_op p) (with_ints m a b) ≡ ok (next (with_int m (apply_prim p a b)))
  prim_runs m p a b ha hb =
      en.plain (Plain.prim_of p) (with_ints m a b) ∙ prim_lem en.rt m p a b ha hb
