-- ===== src/HashTable/Laws.antt =====
-- The table against an abstract map: the invariant, `ht_create`, `ht_get`, `ht_set`.
use mathlib.Core.Path.{subst}
use cc_implementation.Prelude.{done-injective}
use mathlib.Core.Option.{some-injective}
use cc_implementation.Prelude.{
  ℕ, suc, ◌+◌, ◌*◌, ◌/◌, ◌%◌, ◌^◌, ◌≤◌, ◌<◌, ◌≡◌, ◌≢◌, ◌⊎◌, inl, inr, refl, arith, Bool, true,
  false, leb, if◌then◌else◌, ◌==◌, done, Returns, some, ap, ◌∙◌, sym, ne→==,
}
use native.Mathlib.Decide.{dec_lt}
use native.Mathlib.Nat.{pow-suc}
use cc_implementation.HashTable.{
  Table, word_mod, initial_capacity, ht_create, ht_get, ht_set, ht_expand, store, new_table,
}
use cc_implementation.HashTable.Slots.{
  one_if, find, count, used, count-replicate, used-replicate, find-eq_zero,
}
use cc_implementation.HashTable.Placed.{Placed, ht_set_entry-Wrote, ht_get-find-Placed}
use cc_implementation.HashTable.Expand.{
  replicate-Placed, Doubled, ht_expand-Doubled, ht_expand-failed,
}

-- Every key is where its search ends, `length` counts the slots in use, at most half of the slots
-- are in use, and the capacity is a power of two that a `size_t` holds.
pub record IsValid (t : Table) : Type 0 where
  pub placed : Placed t.capacity t.entries
  pub counted : used t.entries ≡ t.length
  pub load : t.length ≤ t.capacity / 2
  pub roomy : 2 ≤ t.capacity
  pub small : t.capacity < word_mod
  pub binary : (k : ℕ) × (t.capacity ≡ 2 ^ k)

-- The value that a table holds under a key, 0 for none: a scan of all its slots.
abbrev pub view : Table → ℕ → ℕ
view t q = find q t.entries

-- A valid table that holds nothing.
abbrev pub IsFresh : Table → Type 0
IsFresh t = IsValid t × (t.length ≡ 0) × ((q : ℕ) → q ≢ 0 → view t q ≡ 0)

pub new_table-IsFresh : IsFresh new_table
new_table-IsFresh = (
  record {
    placed = replicate-Placed initial_capacity;
    counted = used-replicate initial_capacity;
    load = omega arith;
    roomy = omega arith;
    small = omega arith;
    binary = (4, omega arith);
  },
  refl,
  λ q ne. find-eq_zero q _ (count-replicate q initial_capacity ne),
)

-- The table that `ht_create` returns, if it returns one, is valid and holds nothing.
pub ht_create-IsFresh :
    (got_table got_entries : Bool) (t : Table)
    → ht_create got_table got_entries ≡ some t
    → IsFresh t
unfolding ht_create
ht_create-IsFresh true true t h = subst IsFresh (some-injective _ _ h) new_table-IsFresh
ht_create-IsFresh true false t h = cc
ht_create-IsFresh false got t h = cc

pub one_if-le : (b : Bool) → one_if b ≤ 1
one_if-le true = omega arith
one_if-le false = omega arith

-- On a valid table the search of `ht_get` ends, and returns for every key but NULL the value that
-- a scan of all slots finds: it misses no stored key and finds no other.
pub ht_get-view : (t : Table) (q : ℕ) → IsValid t → q ≢ 0 → ht_get t q ≡ done (view t q)
ht_get-view t q v ne = ht_get-find-Placed t q v.placed (omega (arith, v)) ne

-- What a successful `ht_set` does.
pub record Updated (t : Table) (k v : ℕ) (r : Table) : Type 0 where
  pub valid : IsValid r
  pub reads : (q : ℕ) → q ≢ 0 → view r q ≡ (if k == q then v else view t q)
  pub grows : r.length ≡ t.length + one_if (count k t.entries == 0)
  pub size :
      (r.capacity ≡ t.capacity) ⊎ ((r.capacity ≡ t.capacity * 2) × (t.capacity / 2 ≤ t.length))

module _ (t : Table) (k v : ℕ) (kn : k ≢ 0) where
  store-Updated :
      IsValid t
      → t.length < t.capacity / 2
      → (r : Table) × (store t k v ≡ done (k, r)) × Updated t k v r
  unfolding store
  store-Updated valid room =
      let (w, run, wrote) =
        ht_set_entry-Wrote t.capacity t.entries k v valid.placed (omega (arith, valid)) kn in
      let n : ℕ = if w.1 then (t.length + 1) % word_mod else t.length in
      let counts : n ≡ t.length + one_if (count k t.entries == 0) =
        ground (arith, wrote.fresh, valid.small) in
      (
        record t { entries = w.0; length = n },
        rw run,
        record {
          valid = record {
            placed = wrote.placed;
            counted = ground (arith, wrote.occupied, wrote.fresh, valid.counted);
            load = omega (arith, one_if-le (count k t.entries == 0), counts);
            roomy = valid.roomy;
            small = valid.small;
            binary = valid.binary;
          };
          reads = wrote.reads;
          grows = counts;
          size = inl refl;
        },
      )

-- `ht_set` returns NULL: the table was half full and could not be doubled, and is unchanged.
pub record Refused (granted : Bool) (t r : Table) : Type 0 where
  pub unchanged : r ≡ t
  pub half_full : t.capacity / 2 ≤ t.length
  pub no_room : (granted ≡ false) ⊎ (word_mod ≤ t.capacity * 2)

-- The two ways in which `ht_set` returns.
abbrev pub SetResult : Bool → Table → ℕ → ℕ → ℕ × Table → Type 0
SetResult granted t k v r = ((r.0 ≡ k) × Updated t k v r.1) ⊎ ((r.0 ≡ 0) × Refused granted t r.1)

Doubled-IsValid : (t r : Table) → IsValid t → t.capacity * 2 < word_mod → Doubled t r → IsValid r
Doubled-IsValid t r valid fits d =
    let (n, e) = valid.binary in
    record {
      placed = d.placed;
      counted = d.occupied ∙ valid.counted ∙ sym d.length;
      load = omega (arith, d.length, d.capacity, valid.load);
      roomy = omega (arith, d.capacity, valid.roomy);
      small = omega (arith, d.capacity);
      binary = (suc n, d.capacity ∙ ap (λ (c : ℕ). c * 2) e ∙ sym (pow-suc 2 n));
    }

Updated-Doubled :
    (t d r : Table) (k v : ℕ)
    → k ≢ 0
    → t.capacity / 2 ≤ t.length
    → d.length < d.capacity / 2
    → Doubled t d
    → Updated d k v r
    → Updated t k v r
Updated-Doubled t d r k v kn full room doubled u = record {
  valid = u.valid;
  reads = λ q ne. ground (arith, u.reads q ne, doubled.reads q ne);
  grows = ground (arith, u.grows, doubled.length, doubled.counts k kn);
  size = elim u.size [
    | inl e ↦ inr (e ∙ doubled.capacity, full)
    | inr (_, over) ↦ absurd (omega arith)
  ];
}

module _ (t : Table) (k v : ℕ) (kn : k ≢ 0) (vn : v ≢ 0) where
  ht_set-roomy : (granted : Bool) → t.length < t.capacity / 2 → ht_set granted t k v ≡ store t k v
  unfolding ht_set
  ht_set-roomy granted room =
      let test : leb (t.capacity / 2) t.length ≡ false = ground arith in
      rw (ne→== v 0 vn, ne→== k 0 kn, test)

  ht_set-full :
      (granted expanded : Bool) (d : Table)
      → t.capacity / 2 ≤ t.length
      → ht_expand granted t ≡ done (expanded, d)
      → ht_set granted t k v ≡ (if expanded then store d k v else done (0, d))
  unfolding ht_set
  ht_set-full granted expanded d full run =
      let test : leb (t.capacity / 2) t.length ≡ true = ground arith in
      rw (ne→== v 0 vn, ne→== k 0 kn, test, run)

  set-refused :
      (granted : Bool)
      → IsValid t
      → t.capacity / 2 ≤ t.length
      → (granted ≡ false) ⊎ (word_mod ≤ t.capacity * 2)
      → Returns (ht_set granted t k v) (SetResult granted t k v)
  set-refused granted valid full no_room = (
    (0, t),
    ht_set-full granted false t full (ht_expand-failed granted t valid.small no_room),
    inr (refl, record { unchanged = refl; half_full = full; no_room = no_room }),
  )

  set-expanded :
      IsValid t
      → t.capacity / 2 ≤ t.length
      → t.capacity * 2 < word_mod
      → Returns (ht_set true t k v) (SetResult true t k v)
  set-expanded valid full fits =
      let (d, run₁, doubled) = ht_expand-Doubled t valid.placed (omega (arith, valid)) fits in
      let room : d.length < d.capacity / 2 =
        omega (arith, doubled.length, doubled.capacity, valid) in
      let (r, run₂, u) = store-Updated d k v kn (Doubled-IsValid t d valid fits doubled) room in
      (
        (k, r),
        ht_set-full true true d full run₁ ∙ run₂,
        inl (refl, Updated-Doubled t d r k v kn full room doubled u),
      )

  set_full :
      (granted : Bool)
      → IsValid t
      → t.capacity / 2 ≤ t.length
      → Returns (ht_set granted t k v) (SetResult granted t k v)
  set_full false valid full = set-refused false valid full (inl refl)
  set_full true valid full = elim (dec_lt (t.capacity * 2) word_mod) [
    | yes fits ↦ set-expanded valid full fits
    | no over ↦ set-refused true valid full (inr (omega arith))
  ]

-- On a valid table `ht_set` with a key and a value that are not NULL returns. Either it returns
-- the key, the table stays valid, exactly this key changed, to the value, `length` grew by one if
-- the key was new, and the capacity is the old one, or its double if the table was half full; or it returns NULL and changes nothing, and then the table was half full and
-- either `calloc` failed or the doubled capacity exceeds 64 bits.
pub ht_set-SetResult :
    (granted : Bool) (t : Table) (k v : ℕ)
    → IsValid t
    → k ≢ 0
    → v ≢ 0
    → Returns (ht_set granted t k v) (SetResult granted t k v)
ht_set-SetResult granted t k v valid kn vn = elim (dec_lt t.length (t.capacity / 2)) [
  | yes room ↦
      let (r, run, u) = store-Updated t k v kn valid room in
      ((k, r), ht_set-roomy t k v kn vn granted room ∙ run, inl (refl, u))
  | no full ↦ set_full t k v kn vn granted valid (omega arith)
]

accepted-Updated :
    (granted : Bool) (t r : Table) (k v : ℕ) (out : ℕ × Table)
    → k ≢ 0
    → out ≡ (k, r)
    → SetResult granted t k v out
    → Updated t k v r
accepted-Updated granted t r k v out kn e (inl (_, u)) =
    subst (λ (p : ℕ × Table). Updated t k v p.1) e u
accepted-Updated granted t r k v out kn e (inr (z, _)) =
    absurd (kn (sym (ap (λ (p : ℕ × Table). p.0) e) ∙ z))

-- A write that returns the key is an update.
pub ht_set-Updated :
    (granted : Bool) (t r : Table) (k v : ℕ)
    → IsValid t
    → k ≢ 0
    → v ≢ 0
    → ht_set granted t k v ≡ done (k, r)
    → Updated t k v r
ht_set-Updated granted t r k v valid kn vn h =
    let (out, run, result) = ht_set-SetResult granted t k v valid kn vn in
    accepted-Updated granted t r k v out kn (done-injective (sym run ∙ h)) result

-- A read after an accepted write sees the written value at the key, and at every other key what a
-- read before the write saw.
pub ht_get-ht_set :
    (granted : Bool) (t r : Table) (k v q : ℕ)
    → IsValid t
    → k ≢ 0
    → v ≢ 0
    → q ≢ 0
    → ht_set granted t k v ≡ done (k, r)
    → ht_get r q ≡ (if k == q then done v else ht_get t q)
ht_get-ht_set granted t r k v q valid kn vn qn h =
    let u = ht_set-Updated granted t r k v valid kn vn h in
    rw (ht_get-view r q u.valid qn, ht_get-view t q valid qn, u.reads q qn) (ground arith)
