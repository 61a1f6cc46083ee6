-- ===== src/Interp/Programs/Instructions.antt =====
-- The instructions of a program, each at its operand.
use cc_implementation.Prelude.{
  ℕ, ◌+◌, ◌^◌, ◌<◌, ◌≡◌, refl, arith, Bool, true, false, ◌∷◌, some, get_elem?, if◌then◌else◌, ◌==◌,
}
use cc_implementation.Word.{sext32, val_long, add64}
use cc_implementation.Profile.{first_unimplemented_op}
use cc_implementation.Interp.Machine.{Value, Machine, ok, next}
use cc_implementation.Interp.Memory.{val_int}
use cc_implementation.Interp.Runtime.{Runtime}
use cc_implementation.Interp.Opcodes.{Opcode, decode}
use cc_implementation.Interp.Step.{instruction, dispatch, execute}
use cc_implementation.Interp.Basic.{
  constint, acc, acc_at, push_accu, pop_instr, branch, branchifnot, is_false,
}
use cc_implementation.Interp.Ints.{addint, subint, mulint, eq_instr, compare_by, same, val_bool}
use cc_implementation.Interp.Ints.Laws.{with_ints, with_int}
use cc_implementation.Interp.Programs.Words.{
  add_words, sub_words, mul_words, less_words, equal_words,
}
use cc_implementation.Interp.Programs.{Prim, signed_less, apply_prim, prim_code, int_range}

pub small_operand : (n : ℕ) → n < 2 ^ 31 → sext32 n ≡ n
small_operand n h = ground arith

pub small_target : (pc n : ℕ) → pc + n < 2 ^ 31 → add64 pc (sext32 n) ≡ pc + n
small_target pc n h = ground arith

abbrev pub prim_op : Prim → Opcode
prim_op Prim.add = Opcode.addint
prim_op Prim.sub = Opcode.subint
prim_op Prim.mul = Opcode.mulint
prim_op Prim.less = Opcode.ltint
prim_op Prim.equal = Opcode.eq

pub decode-prim_code : (p : Prim) → decode (prim_code p) ≡ some (prim_op p)
unfolding decode
decode-prim_code Prim.add = refl
decode-prim_code Prim.sub = refl
decode-prim_code Prim.mul = refl
decode-prim_code Prim.less = refl
decode-prim_code Prim.equal = refl

pub prim_code-lt : (p : Prim) → prim_code p < first_unimplemented_op
prim_code-lt Prim.add = omega arith
prim_code-lt Prim.sub = omega arith
prim_code-lt Prim.mul = omega arith
prim_code-lt Prim.less = omega arith
prim_code-lt Prim.equal = omega arith

bit-lt : (b : Bool) → (if b then 1 else 0) < int_range
bit-lt true = omega arith
bit-lt false = omega arith

pub apply_prim-lt : (p : Prim) (a b : ℕ) → apply_prim p a b < int_range
apply_prim-lt Prim.add a b = omega arith
apply_prim-lt Prim.sub a b = omega arith
apply_prim-lt Prim.mul a b = omega arith
apply_prim-lt Prim.less a b = bit-lt (signed_less a b)
apply_prim-lt Prim.equal a b = bit-lt (a == b)

val_bool-int : (b : Bool) → val_bool b ≡ val_int (if b then 1 else 0)
unfolding val_long
val_bool-int true = refl
val_bool-int false = refl

is_false-val_int : (v : ℕ) → v < int_range → is_false (val_int v) ≡ (v == 0)
unfolding is_false val_long
is_false-val_int v h = ground arith

module _ (rt : Runtime) where
  pub constint_lem :
      (m : Machine) (n : ℕ)
      → get_elem? m.code m.pc ≡ some n
      → n < 2 ^ 31
      → instruction rt Opcode.constint m ≡ ok (next (record m { pc = m.pc + 1; accu = val_int n }))
  unfolding instruction dispatch execute constint
  constint_lem m n at h = rw (at, small_operand n h)

  pub acc_lem :
      (m : Machine) (n : ℕ) (v : Value)
      → get_elem? m.code m.pc ≡ some n
      → n < 2 ^ 31
      → get_elem? m.stack n ≡ some v
      → instruction rt Opcode.acc m ≡ ok (next (record m { pc = m.pc + 1; accu = v }))
  unfolding instruction dispatch execute acc acc_at
  acc_lem m n v at h found = rw (at, small_operand n h, found)

  pub push_lem :
      (m : Machine)
      → instruction rt Opcode.push m ≡ ok (next (record m { stack = m.accu ∷ m.stack }))
  unfolding instruction dispatch execute push_accu
  push_lem m = refl

  pub pop_lem :
      (m : Machine) (v : Value)
      → get_elem? m.code m.pc ≡ some 1
      → instruction rt Opcode.pop (record m { stack = v ∷ m.stack })
        ≡ ok (next (record m { pc = m.pc + 1 }))
  unfolding instruction dispatch execute pop_instr
  pop_lem m v at = rw at

  pub branch_lem :
      (m : Machine) (n : ℕ)
      → get_elem? m.code m.pc ≡ some n
      → m.pc + n < 2 ^ 31
      → instruction rt Opcode.branch m ≡ ok (next (record m { pc = m.pc + n }))
  unfolding instruction dispatch execute branch
  branch_lem m n at h = rw (at, small_target m.pc n h)

  pub branchifnot-zero :
      (m : Machine) (n v : ℕ)
      → get_elem? m.code m.pc ≡ some n
      → m.pc + n < 2 ^ 31
      → v < int_range
      → (v == 0) ≡ true
      → instruction rt Opcode.branchifnot (record m { accu = val_int v })
        ≡ ok (next (record m { pc = m.pc + n; accu = val_int v }))
  unfolding instruction dispatch execute branchifnot branch
  branchifnot-zero m n v at h fits z = rw (at, small_target m.pc n h, is_false-val_int v fits, z)

  pub branchifnot-other :
      (m : Machine) (v : ℕ)
      → v < int_range
      → (v == 0) ≡ false
      → instruction rt Opcode.branchifnot (record m { accu = val_int v })
        ≡ ok (next (record m { pc = m.pc + 1; accu = val_int v }))
  unfolding instruction dispatch execute branchifnot branch
  branchifnot-other m v fits z = rw (is_false-val_int v fits, z)

  -- The arithmetic of tagged words.
  pub prim_lem :
      (m : Machine) (p : Prim) (a b : ℕ)
      → a < int_range
      → b < int_range
      → instruction rt (prim_op p) (with_ints m a b) ≡ ok (next (with_int m (apply_prim p a b)))
  unfolding instruction dispatch execute addint subint mulint compare_by eq_instr same
  prim_lem m Prim.add a b ha hb = rw add_words
  prim_lem m Prim.sub a b ha hb = rw (sub_words a b ha hb)
  prim_lem m Prim.mul a b ha hb = rw (mul_words a b ha hb)
  prim_lem m Prim.less a b ha hb = rw (less_words a b ha hb, val_bool-int)
  prim_lem m Prim.equal a b ha hb = rw (equal_words a b ha hb, val_bool-int)
