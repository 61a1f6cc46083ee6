-- ===== src/Interp/Tests/Values.antt =====
-- Integer instructions, and the search of a method.
use native.Mathlib.Decide.{ℕ_discrete}
use cc_implementation.Prelude.{ℕ, ◌%◌, ◌≤◌, ◌≡◌, refl, arith, not, [], ◌∷◌, if◌then◌else◌, ◌==◌}
use cc_implementation.Word.{add64, sub64, mul64, slt64}
use cc_implementation.Interp.Machine.{word, ptr, Machine, ok}
use cc_implementation.Interp.Ints.{
  negint, addint, subint, mulint, compare_by, lt_test, le_test, gt_test, ge_test, val_bool,
}
use cc_implementation.Interp.Ints.Laws.{with_ints, with_int, int_arithmetic, int_comparison}
use cc_implementation.Interp.Objects.{getdynmet, tag_field}
use cc_implementation.Interp.Objects.Search.{IsSorted, getdynmet-found}
use cc_implementation.Interp.Objects.Cache.{Looks, getpubmet-found}
use cc_implementation.Word.{val_long}
use cc_implementation.Interp.Tests.{idle}

int_arithmetic_example :
    (addint (with_ints idle 5 9) ≡ ok (with_int idle (add64 5 9)))
    × (subint (with_ints idle 5 9) ≡ ok (with_int idle (sub64 5 9)))
    × (mulint (with_ints idle 5 9) ≡ ok (with_int idle (mul64 5 9)))
    × (negint (with_int idle 5) ≡ ok (with_int idle (sub64 0 5)))
int_arithmetic_example = int_arithmetic idle 5 9 (omega arith) (omega arith)

int_comparison_example :
    (compare_by lt_test (with_ints idle 5 9) ≡ ok (record idle { accu = val_bool (slt64 5 9) }))
    × (compare_by le_test (with_ints idle 5 9)
        ≡ ok (record idle { accu = val_bool (not (slt64 9 5)) }))
    × (compare_by gt_test (with_ints idle 5 9) ≡ ok (record idle { accu = val_bool (slt64 9 5) }))
    × (compare_by ge_test (with_ints idle 5 9)
        ≡ ok (record idle { accu = val_bool (not (slt64 5 9)) }))
int_comparison_example = int_comparison idle 5 9 (omega arith) (omega arith)

-- An object with a table of two methods, 70 under the tag 11 and 80 under the tag 13.
abbrev with_object : Machine
with_object = record idle {
  accu = word 13;
  stack = ptr 0 0 ∷ [];
  heap =
      record { tag = 248; fields = ptr 1 0 ∷ [] }
      ∷ record { tag = 0; fields = word 5 ∷ word 31 ∷ word 70 ∷ word 11 ∷ word 80 ∷ word 13 ∷ [] }
      ∷ [];
}

abbrev tags : ℕ → ℕ
tags i = if i == 3 then 11 else 13

tags-IsSorted : IsSorted tags 5
tags-IsSorted = record {
  odd = refl;
  bound = omega arith;
  ascending = λ i j hi hij hj oi oj ne. ground arith;
}

tags_there : (i : ℕ) → 3 ≤ i → i ≤ 5 → i % 2 ≡ 1 → tag_field with_object (ptr 1 0) i ≡ ok (tags i)
tags_there i low high odd = elim (ℕ_discrete i 3) [
  | yes e ↦ rw e
  | no ne ↦ let e : i ≡ 5 = omega arith in rw e
]

getdynmet-found_example : getdynmet with_object ≡ ok (record with_object { accu = word 80 })
getdynmet-found_example =
    getdynmet-found with_object (ptr 0 0) (ptr 1 0) (word 80) tags 5 5 refl refl refl tags-IsSorted
      tags_there (omega arith) (omega arith) refl refl refl

-- GETPUBMET for the tag 13, with a cache that names the tag 11.
abbrev with_cache : Machine
with_cache = record with_object { accu = ptr 0 0; stack = []; code = 6 ∷ 0 ∷ [] }

getpubmet-found_example : Looks with_cache (word 80) 5
unfolding val_long
getpubmet-found_example =
    getpubmet-found with_cache (ptr 1 0) (word 80) tags 5 5 0 6 0 31 refl refl refl refl refl refl
      refl (omega arith) refl tags-IsSorted tags_there (omega arith) (omega arith) refl refl
