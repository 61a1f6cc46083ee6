-- ===== src/Interp/Objects/Search.antt =====
-- The binary search of GETPUBMET and GETDYNMET ends, and finds every method of the table.
use native.Mathlib.Decide.{ℕ_discrete, dec_lt}
use cc_implementation.Prelude.{
  ℕ, zero, suc, ◌+◌, ◌-◌, ◌%◌, ◌^◌, ◌<◌, ◌≤◌, ◌≡◌, ◌≢◌, refl, arith, true, false, ltb, ap,
}
use cc_implementation.Word.{slt64}
use cc_implementation.Interp.Machine.{Value, word, Machine, Exec, ok}
use cc_implementation.Interp.Memory.{slot, load, as_word}
use cc_implementation.Interp.Objects.{
  middle, find_tag, tag_field, search_method, getdynmet, int_bound,
}

-- The tags stand in the odd fields from 3 to `hi`, in ascending order (as signed
-- words), and `2 * hi` is an `int`.
pub record IsSorted (tags : ℕ → ℕ) (hi : ℕ) : Type 0 where
  pub odd : hi % 2 ≡ 1
  pub bound : hi < 2 ^ 30
  pub ascending :
      (i j : ℕ)
      → 3 ≤ i
      → i ≤ j
      → j ≤ hi
      → i % 2 ≡ 1
      → j % 2 ≡ 1
      → i ≢ j
      → slt64 (tags i) (tags j) ≡ true

middle_bounds :
    (li hi : ℕ)
    → li < hi
    → li % 2 ≡ 1
    → hi % 2 ≡ 1
    → (li < middle li hi) × (middle li hi ≤ hi) × (middle li hi % 2 ≡ 1)
unfolding middle
middle_bounds li hi h ol oh = (omega arith, omega arith, omega arith)

slt64_irrefl : (a : ℕ) → slt64 a a ≡ false
slt64_irrefl a = ground arith

slt64_asymm : (a b : ℕ) → slt64 a b ≡ true → slt64 b a ≡ false
slt64_asymm a b h = ground arith

not_below :
    (tags : ℕ → ℕ) (top i k : ℕ)
    → IsSorted tags top
    → 3 ≤ i
    → i ≤ k
    → k ≤ top
    → i % 2 ≡ 1
    → k % 2 ≡ 1
    → slt64 (tags k) (tags i) ≡ false
not_below tags top i k s h3 hik hk oi ok' = elim (ℕ_discrete i k) [
  | yes e ↦ rw e (slt64_irrefl (tags k))
  | no ne ↦ slt64_asymm (tags i) (tags k) (s.ascending i k h3 hik hk oi ok' ne)
]

module _ (tag_at : ℕ → Exec ℕ) (tags : ℕ → ℕ) (top : ℕ) (s : IsSorted tags top)
    (at : (i : ℕ) → 3 ≤ i → i ≤ top → i % 2 ≡ 1 → tag_at i ≡ ok (tags i)) where
  -- With the tag in an odd field between the bounds, and enough fuel, the search ends there.
  find_tag-found :
      (fuel li hi k : ℕ)
      → hi < li + fuel
      → 3 ≤ li
      → hi ≤ top
      → li ≤ k
      → k ≤ hi
      → li % 2 ≡ 1
      → hi % 2 ≡ 1
      → k % 2 ≡ 1
      → find_tag fuel tag_at (tags k) li hi ≡ ok k
  unfolding find_tag
  find_tag-found zero li hi k hf h3 ht hl hk ol oh odd_k = absurd (omega arith)
  find_tag-found (suc fuel) li hi k hf h3 ht hl hk ol oh odd_k = elim (dec_lt li hi) [
    | no p ↦
        let test : ltb li hi ≡ false = ground arith in
        let same : li ≡ k = omega arith in rw (test, same)
    | yes p ↦
        let mi = middle li hi in
        let (above, below, odd_mi) = middle_bounds li hi p ol oh in
        let test : ltb li hi ≡ true = ground arith in
        let small : ltb (li + hi) (2 ^ 31) ≡ true = ground (arith, s.bound) in
        let read = at mi (omega arith) (omega arith) odd_mi in
        elim (dec_lt k mi) [
          | yes q ↦
              let less =
                s.ascending k mi (omega arith) (omega arith) (omega arith) odd_k odd_mi
                  (omega arith) in
              rw (test, small, read, less)
                (find_tag-found fuel li (mi - 2) k (omega arith) h3 (omega arith) hl (omega arith)
                  ol (omega arith) odd_k)
          | no q ↦
              let more =
                not_below tags top mi k s (omega arith) (omega arith) (omega arith) odd_mi odd_k in
              rw (test, small, read, more)
                (find_tag-found fuel mi hi k (omega arith) (omega arith) ht (omega arith) hk odd_mi
                  oh odd_k)
        ]
  ]

-- The search for the tag in field `k` ends there.
pub search_method-found :
    (m : Machine) (meths : Value) (tags : ℕ → ℕ) (top k : ℕ)
    → tag_field m meths 0 ≡ ok top
    → IsSorted tags top
    → ((i : ℕ) → 3 ≤ i → i ≤ top → i % 2 ≡ 1 → tag_field m meths i ≡ ok (tags i))
    → 3 ≤ k
    → k ≤ top
    → k % 2 ≡ 1
    → search_method m meths (tags k) ≡ ok k
unfolding search_method
search_method-found m meths tags top k ht s at h3 hk odd_k =
    let found =
      find_tag-found (tag_field m meths) tags top s at (suc top) 3 top k (omega arith) (omega arith)
        (omega arith) h3 hk refl s.odd odd_k in
    let bound : int_bound top ≡ top = ground (arith, s.bound) in rw (ht, bound, found)

-- GETDYNMET finds every method: in a table of methods with ascending tags that ends below the field
-- 2^30, the search for the tag in field `k` ends, and the accumulator becomes the method of that
-- tag, the field before it. Nothing else changes.
pub getdynmet-found :
    (m : Machine) (obj meths v : Value) (tags : ℕ → ℕ) (top k : ℕ)
    → slot m 0 ≡ ok obj
    → load m obj 0 ≡ ok meths
    → tag_field m meths 0 ≡ ok top
    → IsSorted tags top
    → ((i : ℕ) → 3 ≤ i → i ≤ top → i % 2 ≡ 1 → tag_field m meths i ≡ ok (tags i))
    → 3 ≤ k
    → k ≤ top
    → k % 2 ≡ 1
    → m.accu ≡ word (tags k)
    → load m meths (k - 1) ≡ ok v
    → getdynmet m ≡ ok (record m { accu = v })
unfolding getdynmet
getdynmet-found m obj meths v tags top k ho hm ht s at h3 hk odd_k ha hv =
    let tag : as_word m.accu ≡ ok (tags k) = ap as_word ha in
    rw (ho, hm, tag, search_method-found m meths tags top k ht s at h3 hk odd_k, hv)
