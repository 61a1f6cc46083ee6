-- ===== src/Interp/Ints/Laws.antt =====
-- The integer instructions compute on tagged words what C computes on the integers under the tags.
use cc_implementation.Prelude.{ℕ, ◌<◌, ◌≡◌, arith, not, ◌∷◌, ap}
use cc_implementation.Word.{word_mod, add64, sub64, mul64, slt64, val_long}
use cc_implementation.Word.Laws.{Fits63, long_val-val_long}
use cc_implementation.Interp.Machine.{word, Machine, ok}
use cc_implementation.Interp.Memory.{val_int}
use cc_implementation.Interp.Ints.{
  negint, addint, subint, mulint, compare_by, lt_test, le_test, gt_test, ge_test, val_bool,
}

-- A machine whose accumulator is the integer `a` and whose stack begins with the integer `b`.
abbrev pub with_ints : Machine → ℕ → ℕ → Machine
with_ints m a b = record m { accu = val_int a; stack = val_int b ∷ m.stack }

-- A machine with the integer `r` in the accumulator.
abbrev pub with_int : Machine → ℕ → Machine
with_int m r = record m { accu = val_int r }

add_tagged : (a b : ℕ) → sub64 (add64 (val_long a) (val_long b)) 1 ≡ val_long (add64 a b)
unfolding val_long
add_tagged a b = omega arith

sub_tagged :
    (a b : ℕ) → b < word_mod → add64 (sub64 (val_long a) (val_long b)) 1 ≡ val_long (sub64 a b)
unfolding val_long
sub_tagged a b hb = omega arith

neg_tagged : (a : ℕ) → a < word_mod → sub64 2 (val_long a) ≡ val_long (sub64 0 a)
unfolding val_long
neg_tagged a ha = omega arith

-- ADDINT, SUBINT, MULINT and NEGINT leave the tagged sum, difference, product and opposite, modulo
-- 2^63 as tagging drops the highest bit, of the integers in the accumulator and at the top of the
-- stack; the first three pop one word. MULINT wants its operands within 63 bits.
pub int_arithmetic :
    (m : Machine) (a b : ℕ)
    → Fits63 a
    → Fits63 b
    → (addint (with_ints m a b) ≡ ok (with_int m (add64 a b)))
      × (subint (with_ints m a b) ≡ ok (with_int m (sub64 a b)))
      × (mulint (with_ints m a b) ≡ ok (with_int m (mul64 a b)))
      × (negint (with_int m a) ≡ ok (with_int m (sub64 0 a)))
unfolding addint subint mulint negint
int_arithmetic m a b ha hb = (
  ap (λ r. ok (record m { accu = word r })) (add_tagged a b),
  ap (λ r. ok (record m { accu = word r })) (sub_tagged a b (ground arith)),
  rw (long_val-val_long a ha, long_val-val_long b hb),
  ap (λ r. ok (record m { accu = word r })) (neg_tagged a (ground arith)),
)

slt_tagged : (a b : ℕ) → Fits63 a → Fits63 b → slt64 (val_long a) (val_long b) ≡ slt64 a b
unfolding val_long
slt_tagged a b ha hb = ground arith

-- LTINT, LEINT, GTINT and GEINT compare 63-bit integers by comparing their tagged words: the result
-- is the Boolean of the signed comparison of the integers, and one word is popped.
pub int_comparison :
    (m : Machine) (a b : ℕ)
    → Fits63 a
    → Fits63 b
    → (compare_by lt_test (with_ints m a b) ≡ ok (record m { accu = val_bool (slt64 a b) }))
      × (compare_by le_test (with_ints m a b) ≡ ok (record m { accu = val_bool (not (slt64 b a)) }))
      × (compare_by gt_test (with_ints m a b) ≡ ok (record m { accu = val_bool (slt64 b a) }))
      × (compare_by ge_test (with_ints m a b) ≡ ok (record m { accu = val_bool (not (slt64 a b)) }))
unfolding compare_by
int_comparison m a b ha hb = (
  rw (slt_tagged a b ha hb),
  rw (slt_tagged b a hb ha),
  rw (slt_tagged b a hb ha),
  rw (slt_tagged a b ha hb),
)
