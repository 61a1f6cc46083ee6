-- ===== src/Interp/Objects/Cache.antt =====
-- GETPUBMET and its cache.
use native.Mathlib.Decide.{ℕ_discrete, dec_lt}
use cc_implementation.Prelude.{
  ℕ, zero, suc, [], ◌+◌, ◌-◌, ◌*◌, ◌/◌, ◌%◌, ◌^◌, ◌≤◌, ◌≡◌, ◌∙◌, ◌⊎◌, inl, inr, refl, sym, arith,
  true, List, ◌∷◌, some, get_elem?, bit_and, ap, ◌==◌, Bool-cases, ==→eq,
}
use cc_implementation.Word.{sext32, val_long}
use cc_implementation.Interp.Machine.{Value, word, ptr, atom, code, fiber, Machine, Exec, ok, ◌>>=◌}
use cc_implementation.Interp.Memory.{as_word, load, write}
use cc_implementation.Interp.Objects.{tag_field, getpubmet}
use cc_implementation.Interp.Objects.Search.{IsSorted, search_method-found}

pub load-heap : (m r : Machine) (v : Value) (i : ℕ) → r.heap ≡ m.heap → load r v i ≡ load m v i
load-heap m r (word w) i h = refl
load-heap m r (ptr b o) i h = rw h refl
load-heap m r (atom t) i h = refl
load-heap m r (code c) i h = refl
load-heap m r (fiber f) i h = refl

-- The machine after GETPUBMET: the object is pushed, the method is in the accumulator, and of the code
-- at most the cache has changed, to the place of the field `k`.
abbrev pub Looks : Machine → Value → ℕ → Type 0
Looks m v k =
    (c : List ℕ) × (getpubmet m
      ≡ ok (record m { pc = m.pc + 1 + 1; stack = m.accu ∷ m.stack; accu = v; code = c }))
    × ((c ≡ m.code) ⊎ (write m.code (m.pc + 1) (((k - 3) * 8) % 2 ^ 32) ≡ ok c))

-- Two odd fields of a table with the same tag are the same.
same_field :
    (tags : ℕ → ℕ) (top i k : ℕ)
    → IsSorted tags top
    → 3 ≤ i
    → i ≤ top
    → i % 2 ≡ 1
    → 3 ≤ k
    → k ≤ top
    → k % 2 ≡ 1
    → tags i ≡ tags k
    → i ≡ k
same_field tags top i k s hi ti oi hk tk ok' same = elim (ℕ_discrete i k) [
  | yes e ↦ e
  | no ne ↦ elim (dec_lt i k) [
    | yes lt ↦
        let less = s.ascending i k hi (omega arith) tk oi ok' ne in
        absurd (ground (arith, less, same))
    | no ge ↦
        let less = s.ascending k i hk (omega arith) ti ok' oi (λ e. ne (sym e)) in
        absurd (ground (arith, less, same))
  ]
]

write-some :
    (xs : List ℕ) (i a v : ℕ) → get_elem? xs i ≡ some a → (ys : List ℕ) × (write xs i v ≡ ok ys)
write-some [] i a v h = cc
write-some (x ∷ xs) zero a v h = (v ∷ xs, refl)
write-some (x ∷ xs) (suc i) a v h = let (ys, e) = write-some xs i a v h in (x ∷ ys, rw e refl)

-- GETPUBMET finds every method, whatever its cache holds. In a table of methods with ascending tags that
-- ends below the field 2^30, let the operand be the tag of field `k`, and let the cache, under the mask
-- of the table, be the place of any tag of the table. Then the object is pushed, the accumulator becomes
-- the method of the operand's tag, and of the code at most the cache changes, to the place of that tag.
pub getpubmet-found :
    (m : Machine) (meths v : Value) (tags : ℕ → ℕ) (top k i n cache mask : ℕ)
    → load m m.accu 0 ≡ ok meths
    → get_elem? m.code m.pc ≡ some n
    → val_long (sext32 n) ≡ tags k
    → get_elem? m.code (m.pc + 1) ≡ some cache
    → tag_field m meths 1 ≡ ok mask
    → bit_and (sext32 cache) mask ≡ i * 8
    → i % 2 ≡ 0
    → i + 3 ≤ top
    → tag_field m meths 0 ≡ ok top
    → IsSorted tags top
    → ((i : ℕ) → 3 ≤ i → i ≤ top → i % 2 ≡ 1 → tag_field m meths i ≡ ok (tags i))
    → 3 ≤ k
    → k ≤ top
    → k % 2 ≡ 1
    → load m meths (k - 1) ≡ ok v
    → Looks m v k
unfolding getpubmet
getpubmet-found m meths v tags top k i n cache mask hm hn tag hc hmask hofs even place ht s at h3 hk
      odd_k hv =
    let r = record m { pc = m.pc + 1; stack = m.accu ∷ m.stack } in
    let field : (j : ℕ) → tag_field r meths j ≡ tag_field m meths j =
      λ j. ap (λ (x : Exec Value). x >>= as_word) (load-heap m r meths j refl) in
    let read : tag_field r meths (3 + i) ≡ ok (tags (3 + i)) =
      field (3 + i) ∙ at (3 + i) (omega arith) (omega arith) (omega arith) in
    let whole : (i * 8 % 8 == 0) ≡ true = ground arith in
    let index : i * 8 / 8 ≡ i = omega arith in
    let mask_read = field 1 ∙ hmask in
    elim (Bool-cases (tags (3 + i) == tags k)) [
      | inl hit ↦
          let same =
            same_field tags top (3 + i) k s (omega arith) (omega arith) (omega arith) h3 hk odd_k
              (==→eq (tags (3 + i)) (tags k) hit) in
          let before : 2 + i ≡ k - 1 = omega arith in
          (
            m.code,
            rw (
              hm,
              hn,
              tag,
              hc,
              mask_read,
              hofs,
              whole,
              index,
              read,
              hit,
              before,
              load-heap m r meths (k - 1) refl,
              hv,
            ),
            inl refl,
          )
      | inr miss ↦
          let (c, written) = write-some m.code (m.pc + 1) cache (((k - 3) * 8) % 2 ^ 32) hc in
          let search =
            search_method-found r meths tags top k (field 0 ∙ ht) s
              (λ j h3 hj oj. field j ∙ at j h3 hj oj) h3 hk odd_k in
          (
            c,
            rw (
              hm,
              hn,
              tag,
              hc,
              mask_read,
              hofs,
              whole,
              index,
              read,
              miss,
              search,
              load-heap m r meths (k - 1) refl,
              hv,
              written,
            ),
            inr written,
          )
    ]
