-- ===== src/Interp/Ints.antt =====
-- Integer arithmetic and comparisons on tagged words.
pub mod Laws
use cc_implementation.Prelude.{
  ℕ, ◌*◌, ◌/◌, ◌%◌, ◌^◌, bit_and, bit_or, bit_xor, Bool, true, false, ltb, leb, ◌==◌, ◌&&◌, not,
  if◌then◌else◌, get_elem?,
}
use cc_implementation.Word.{
  add64, sub64, mul64, shl64, asr64, slt64, sdiv64, smod64, sext32, val_long, long_val,
}
use cc_implementation.Interp.Machine.{
  Value, word, ptr, atom, code, fiber, Machine, Exec, ok, raised, fault, ◌>>=◌,
}
use cc_implementation.Interp.Memory.{
  of_option, val_int, val_unit, as_long, as_word, pop, skip, fetch, load, store,
}
use cc_implementation.Interp.Basic.{branch}
use cc_implementation.Interp.Runtime.{Runtime}
use cc_implementation.Interp.Control.{setup_for_c_call}

-- An instruction that combines the words of the accumulator and of `*sp++`.
unfoldable pub binary : (ℕ → ℕ → ℕ) → Machine → Exec Machine
binary f m = do
  a ← as_word m.accu
  (v, m₁) ← pop m
  b ← as_word v
  ok (record m₁ { accu = word (f a b) })

-- NEGINT
unfoldable pub negint : Machine → Exec Machine
negint m = as_word m.accu >>= λ a. ok (record m { accu = word (sub64 2 a) })

-- ADDINT
unfoldable pub addint : Machine → Exec Machine
unfolding binary
addint = binary (λ a b. sub64 (add64 a b) 1)

-- SUBINT
unfoldable pub subint : Machine → Exec Machine
unfolding binary
subint = binary (λ a b. add64 (sub64 a b) 1)

-- MULINT
unfoldable pub mulint : Machine → Exec Machine
unfolding binary
mulint = binary (λ a b. val_long (mul64 (long_val a) (long_val b)))

-- ANDINT
unfoldable pub andint : Machine → Exec Machine
unfolding binary
andint = binary bit_and

-- ORINT
unfoldable pub orint : Machine → Exec Machine
unfolding binary
orint = binary bit_or

-- XORINT
unfoldable pub xorint : Machine → Exec Machine
unfolding binary
xorint = binary (λ a b. bit_or (bit_xor a b) 1)

-- A shift by the integer at the top; C leaves a count of 64 or more undefined.
unfoldable pub shift : (ℕ → ℕ → ℕ) → Machine → Exec Machine
shift f m = do
  a ← as_word m.accu
  (v, m₁) ← pop m
  n ← as_long v
  if ltb n 64 then ok (record m₁ { accu = word (f a n) }) else fault

-- LSLINT
unfoldable pub lslint : Machine → Exec Machine
unfolding shift
lslint = shift (λ a n. add64 (shl64 (sub64 a 1) n) 1)

-- LSRINT
unfoldable pub lsrint : Machine → Exec Machine
unfolding shift
lsrint = shift (λ a n. bit_or (a / 2 ^ n) 1)

-- ASRINT
unfoldable pub asrint : Machine → Exec Machine
unfolding shift
asrint = shift (λ a n. bit_or (asr64 a n) 1)

-- `Val_int` of a test
abbrev pub val_bool : Bool → Value
val_bool true = word 3
val_bool false = word 1

-- Whether two values are the same word. Blocks are the same if their pointers are.
unfoldable pub same : Value → Value → Bool
same (word a) (word b) = a == b
same (ptr a i) (ptr b j) = (a == b) && (i == j)
same (atom a) (atom b) = a == b
same (code a) (code b) = a == b
same (fiber a) (fiber b) = a == b
same _ _ = false

-- EQ
unfoldable pub eq_instr : Machine → Exec Machine
unfolding same
eq_instr m = pop m >>= λ (v, m₁). ok (record m₁ { accu = val_bool (same m.accu v) })

-- NEQ
unfoldable pub neq_instr : Machine → Exec Machine
unfolding same
neq_instr m = pop m >>= λ (v, m₁). ok (record m₁ { accu = val_bool (not (same m.accu v)) })

-- `Integer_comparison`, for a test on two words
unfoldable pub compare_by : (ℕ → ℕ → Bool) → Machine → Exec Machine
compare_by test m = do
  a ← as_word m.accu
  (v, m₁) ← pop m
  b ← as_word v
  ok (record m₁ { accu = val_bool (test a b) })

-- The tests of LTINT, LEINT, GTINT, GEINT, ULTINT and UGEINT, and of the branches alike.
abbrev pub lt_test : ℕ → ℕ → Bool
lt_test a b = slt64 a b

abbrev pub le_test : ℕ → ℕ → Bool
le_test a b = not (slt64 b a)

abbrev pub gt_test : ℕ → ℕ → Bool
gt_test a b = slt64 b a

abbrev pub ge_test : ℕ → ℕ → Bool
ge_test a b = not (slt64 a b)

abbrev pub ult_test : ℕ → ℕ → Bool
ult_test a b = ltb a b

abbrev pub uge_test : ℕ → ℕ → Bool
uge_test a b = leb b a

abbrev pub eq_test : ℕ → ℕ → Bool
eq_test a b = a == b

abbrev pub neq_test : ℕ → ℕ → Bool
neq_test a b = not (a == b)

-- `Integer_branch_comparison`: the operand stands left of the test.
unfoldable pub branch_by : (ℕ → ℕ → Bool) → Machine → Exec Machine
unfolding branch
branch_by test m = do
  (n, m₁) ← fetch m
  a ← as_long m₁.accu
  if test n a then branch m₁ else ok (skip m₁)

-- `*pc << 1`, on 32 bits
unfoldable pub doubled_operand : Machine → Exec ℕ
doubled_operand m = of_option (get_elem? m.code m.pc) >>= λ w. ok (sext32 ((w * 2) % 2 ^ 32))

-- OFFSETINT
unfoldable pub offsetint : Machine → Exec Machine
unfolding doubled_operand
offsetint m = do
  n ← doubled_operand m
  a ← as_word m.accu
  ok (record (skip m) { accu = word (add64 a n) })

-- OFFSETREF
unfoldable pub offsetref : Machine → Exec Machine
unfolding doubled_operand
offsetref m = do
  n ← doubled_operand m
  v ← load m m.accu 0
  a ← as_word v
  m₁ ← store m m.accu 0 (word (add64 a n))
  ok (record (skip m₁) { accu = val_unit })

-- The lowest bit of a word: pointers are even, and `Val_ptr` sets it.
unfoldable pub low_bit : Value → ℕ
low_bit (word w) = w % 2
low_bit (fiber i) = 1
low_bit _ = 0

-- ISINT
unfoldable pub isint : Machine → Exec Machine
unfolding low_bit
isint m = ok (record m { accu = val_int (low_bit m.accu) })

module _ (rt : Runtime) where
  -- DIVINT and MODINT, for C's `/` and `%`
  unfoldable pub divide_by : (ℕ → ℕ → ℕ) → Machine → Exec Machine
  divide_by f m = do
    (v, m₁) ← pop m
    divisor ← as_long v
    a ← as_long m₁.accu
    if divisor == 0
        then (let m₂ = setup_for_c_call m₁ in raised (rt.zero_divide m₂) m₂)
        else ok (record m₁ { accu = val_int (f a divisor) })

  -- DIVINT
  unfoldable pub divint : Machine → Exec Machine
  unfolding divide_by
  divint = divide_by sdiv64

  -- MODINT
  unfoldable pub modint : Machine → Exec Machine
  unfolding divide_by
  modint = divide_by smod64
