-- ===== src/HashTable/Slots.antt =====
-- What an array of slots holds, read without hashing: the value under a key by a scan from the
-- left, the number of slots with a key, and the number of slots in use.
use cc_implementation.Prelude.{
  ℕ, zero, suc, ◌+◌, ◌≤◌, ◌<◌, ◌≡◌, ◌≢◌, ◌⊎◌, refl, arith, ap, List, [], ◌∷◌, if◌then◌else◌, length,
  set, replicate, ◌==◌, Bool, true, false, Bool-cases, inl, inr, get_or-set_self,
}
use cc_implementation.HashTable.{Entry, null_entry, key_at, value_at}

abbrev pub one_if : Bool → ℕ
one_if true = 1
one_if false = 0

unfoldable pub find : ℕ → List Entry → ℕ
find q [] = 0
find q (e ∷ es) = if e.key == q then e.value else find q es

unfoldable pub count : ℕ → List Entry → ℕ
count q [] = 0
count q (e ∷ es) = one_if (e.key == q) + count q es

unfoldable pub used : List Entry → ℕ
used [] = 0
used (e ∷ es) = (if e.key == 0 then 0 else 1) + used es

pub count-set :
    (q : ℕ) (es : List Entry) (i : ℕ) (e : Entry)
    → i < length es
    → count q (set es i e) + one_if (key_at es i == q) ≡ count q es + one_if (e.key == q)
unfolding count
count-set q [] i e h = absurd (omega arith)
count-set q (x ∷ es) zero e h = omega arith
count-set q (x ∷ es) (suc i) e h = omega (arith, count-set q es i e (omega arith))

pub used-set :
    (es : List Entry) (i : ℕ) (e : Entry)
    → i < length es
    → e.key ≢ 0
    → used (set es i e) ≡ used es + one_if (key_at es i == 0)
unfolding used
used-set [] i e h ne = absurd (omega arith)
used-set (x ∷ es) zero e h ne = ground arith
used-set (x ∷ es) (suc i) e h ne = omega (arith, used-set es i e (omega arith) ne)

pub count_pos : (q : ℕ) (es : List Entry) (j : ℕ) → q ≢ 0 → key_at es j ≡ q → 0 < count q es
unfolding count
count_pos q [] j ne h = absurd (ground arith)
count_pos q (x ∷ es) zero ne h = ground arith
count_pos q (x ∷ es) (suc j) ne h = omega (arith, count_pos q es j ne h)

pub count_at :
    (q : ℕ) (es : List Entry) → 0 < count q es → (j : ℕ) × (j < length es) × (key_at es j ≡ q)
unfolding count
count_at q [] h = absurd (omega arith)
count_at q (x ∷ es) h = elim (Bool-cases (x.key == q)) [
  | inl e ↦ (0, omega arith, ground arith)
  | inr e ↦ let (j, lt, k) = count_at q es (ground arith) in (suc j, omega arith, k)
]

pub find-eq_zero : (q : ℕ) (es : List Entry) → count q es ≡ 0 → find q es ≡ 0
unfolding find count
find-eq_zero q [] h = refl
find-eq_zero q (x ∷ es) h = ground (arith, find-eq_zero q es)

pub find-value_at :
    (q : ℕ) (es : List Entry) (j : ℕ)
    → q ≢ 0
    → count q es ≤ 1
    → key_at es j ≡ q
    → find q es ≡ value_at es j
unfolding find count
find-value_at q [] j ne u h = refl
find-value_at q (x ∷ es) zero ne u h = ground arith
find-value_at q (x ∷ es) (suc j) ne u h = ground (arith, find-value_at q es j, count_pos q es j)

-- A free slot, while fewer slots are in use than there are.
pub free_slot :
    (es : List Entry) → used es < length es → (j : ℕ) × (j < length es) × (key_at es j ≡ 0)
unfolding used
free_slot [] h = absurd (omega arith)
free_slot (x ∷ es) h = elim (Bool-cases (x.key == 0)) [
  | inl e ↦ (0, omega arith, ground arith)
  | inr e ↦ let (j, lt, k) = free_slot es (ground arith) in (suc j, omega arith, k)
]

pub find-set :
    (q k v : ℕ) (es : List Entry) (i : ℕ)
    → i < length es
    → q ≢ 0
    → k ≢ 0
    → (key_at es i ≡ 0) ⊎ (key_at es i ≡ k)
    → count k (set es i (record { key = k; value = v })) ≤ 1
    → find q (set es i (record { key = k; value = v })) ≡ (if k == q then v else find q es)
unfolding find count
find-set q k v [] i h ne kn s u = absurd (omega arith)
find-set q k v (x ∷ es) zero h ne kn s u = ground arith
find-set q k v (x ∷ es) (suc i) h ne kn s u =
    let e : Entry = record { key = k; value = v } in
    let there : key_at (set es i e) i ≡ k =
      ap (λ (t : Entry). t.key) (get_or-set_self es i e null_entry (omega arith)) in
    let pos = count_pos k (set es i e) i kn there in
    let other : x.key ≢ k = ground arith in
    rw (find-set q k v es i (omega arith) ne kn s (omega arith)) (ground arith)

pub count-replicate : (q n : ℕ) → q ≢ 0 → count q (replicate n null_entry) ≡ 0
unfolding count
count-replicate q zero ne = refl
count-replicate q (suc n) ne = ground (arith, count-replicate q n)

pub used-replicate : (n : ℕ) → used (replicate n null_entry) ≡ 0
unfolding used
used-replicate zero = refl
used-replicate (suc n) = ground (arith, used-replicate n)
