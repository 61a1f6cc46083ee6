-- ===== src/HashTable/Placed.antt =====
-- Arrays in which every key is where its search ends, and the write of one entry into them.
use native.Mathlib.Decide.{ℕ_discrete}
use cc_implementation.Prelude.{
  ℕ, ◌+◌, ◌≤◌, ◌<◌, ◌≡◌, ◌≢◌, ◌⊎◌, sym, ◌∙◌, ap, inl, inr, arith, List, length, set,
  get_or-set_self, get_or-set_ne, length-set, if◌then◌else◌, Bool, ◌==◌, done, Returns, ne→==,
  done-injective,
}
use cc_implementation.HashTable.{
  Entry, Table, null_entry, key_at, value_at, home, probe, ht_get, ht_set_entry,
}
use cc_implementation.HashTable.Hash.{home-lt}
use cc_implementation.HashTable.Probe.{probe_total, probe-set_free, probe_congr, probe-set_here}
use cc_implementation.HashTable.Slots.{
  one_if, find, count, used, count-set, used-set, count_pos, count_at, find-eq_zero, find-value_at,
  free_slot, find-set,
}

pub record Placed (capacity : ℕ) (es : List Entry) : Type 0 where
  pub size : length es ≡ capacity
  pub unique : (q : ℕ) → q ≢ 0 → count q es ≤ 1
  pub reach :
      (q j : ℕ) → q ≢ 0 → key_at es j ≡ q → probe capacity es capacity q (home q capacity) ≡ done j

-- What the search for a key finds: the slot that holds it, or a free one where the key is absent.
record Found (capacity : ℕ) (es : List Entry) (q j : ℕ) : Type 0 where
  inside : j < capacity
  stops : (key_at es j ≡ 0) ⊎ (key_at es j ≡ q)
  counts : count q es ≡ one_if (key_at es j == q)

module _ (capacity : ℕ) (es : List Entry) (p : Placed capacity es) where
  -- A search that ends at a free slot shows that the key is nowhere in the array.
  count-eq_zero :
      (q j : ℕ)
      → q ≢ 0
      → probe capacity es capacity q (home q capacity) ≡ done j
      → key_at es j ≡ 0
      → count q es ≡ 0
  count-eq_zero q j ne run free = elim (ℕ_discrete (count q es) 0) [
    | yes z ↦ z
    | no nz ↦
        let (i, lt, k) = count_at q es (omega arith) in
        let same : i ≡ j = done-injective (sym (p.reach q i ne k) ∙ run) in
        absurd (ne (sym k ∙ ap (key_at es) same ∙ free))
  ]

  count-search :
      (q j : ℕ)
      → q ≢ 0
      → probe capacity es capacity q (home q capacity) ≡ done j
      → (key_at es j ≡ 0) ⊎ (key_at es j ≡ q)
      → count q es ≡ one_if (key_at es j == q)
  count-search q j ne run (inl free) = ground (arith, count-eq_zero q j ne run free)
  count-search q j ne run (inr at_key) = ground (arith, p.unique q ne, count_pos q es j ne at_key)

  search :
      used es < capacity
      → (q : ℕ) → q ≢ 0
      → Returns (probe capacity es capacity q (home q capacity)) (Found capacity es q)
  search room q ne =
      let (f, lt, free) = free_slot es (rw p.size room) in
      let (j, run, (inside, stops)) =
        probe_total es capacity q f (rw (← p.size) lt) free (home q capacity)
          (home-lt q capacity (omega arith)) in
      (j, run, record { inside = inside; stops = stops; counts = count-search q j ne run stops })

  -- What `ht_get` returns at such an array.
  find-search :
      (q j : ℕ)
      → q ≢ 0
      → Found capacity es q j
      → (if key_at es j == 0 then 0 else value_at es j) ≡ find q es
  find-search q j ne f = ground (arith, f, p.unique q ne, find-value_at q es j, find-eq_zero q es)

  module _ (k v i : ℕ) (kn : k ≢ 0) (f : Found capacity es k i) where
    abbrev entry : Entry
    entry = record { key = k; value = v }

    inside_es : i < length es
    inside_es = rw p.size f.inside

    key_at-set : (j : ℕ) → key_at es i ≡ k → key_at (set es i entry) j ≡ key_at es j
    key_at-set j e = elim (ℕ_discrete i j) [
      | yes same ↦
          rw (← same)
            (ap (λ (t : Entry). t.key) (get_or-set_self es i entry null_entry inside_es) ∙ sym e)
      | no other ↦ ap (λ (t : Entry). t.key) (get_or-set_ne es i j entry null_entry other)
    ]

    count-set-entry :
        (q : ℕ) → q ≢ 0 → count q (set es i entry) ≡ (if k == q then 1 else count q es)
    count-set-entry q ne = ground (arith, f, count-set q es i entry inside_es)

    module _ (run : probe capacity es capacity k (home k capacity) ≡ done i) where
      reach_key :
          (j : ℕ)
          → key_at es i ≡ 0
          → key_at (set es i entry) j ≡ k
          → probe capacity (set es i entry) capacity k (home k capacity) ≡ done j
      reach_key j free h = elim (ℕ_discrete i j) [
        | yes same ↦ rw (← same) (probe-set_here capacity es capacity k v _ i inside_es run)
        | no other ↦
            let moved : key_at (set es i entry) j ≡ key_at es j =
              ap (λ (t : Entry). t.key) (get_or-set_ne es i j entry null_entry other) in
            absurd
              (omega (arith, count_pos k es j kn (sym moved ∙ h), count-eq_zero k i kn run free))
      ]

      reach_other :
          (q j : ℕ)
          → q ≢ 0
          → k ≢ q
          → key_at es i ≡ 0
          → key_at (set es i entry) j ≡ q
          → probe capacity (set es i entry) capacity q (home q capacity) ≡ done j
      reach_other q j ne kq free h = elim (ℕ_discrete i j) [
        | yes same ↦
            let there : key_at (set es i entry) i ≡ k =
              ap (λ (t : Entry). t.key) (get_or-set_self es i entry null_entry inside_es) in
            absurd (kq (sym there ∙ ap (key_at (set es i entry)) same ∙ h))
        | no other ↦
            let moved : key_at (set es i entry) j ≡ key_at es j =
              ap (λ (t : Entry). t.key) (get_or-set_ne es i j entry null_entry other) in
            probe-set_free capacity es capacity q _ i j entry free (λ e. other (sym e))
              (p.reach q j ne (sym moved ∙ h))
      ]

      reach-set-entry :
          (q j : ℕ)
          → q ≢ 0
          → key_at (set es i entry) j ≡ q
          → (key_at es i ≡ 0) ⊎ (key_at es i ≡ k)
          → probe capacity (set es i entry) capacity q (home q capacity) ≡ done j
      reach-set-entry q j ne h (inr old) =
          probe_congr capacity es (set es i entry) capacity q _ (λ n. key_at-set n old)
          ∙ p.reach q j ne (sym (key_at-set j old) ∙ h)
      reach-set-entry q j ne h (inl free) = elim (ℕ_discrete k q) [
        | yes same ↦ rw (← same) (reach_key j free (h ∙ sym same))
        | no other ↦ reach_other q j ne other free h
      ]

      set-entry-Placed : Placed capacity (set es i entry)
      set-entry-Placed = record {
        size = length-set es i entry ∙ p.size;
        unique = λ q ne. ground (arith, count-set-entry q ne, p.unique q ne);
        reach = λ q j ne h. reach-set-entry q j ne h f.stops;
      }

-- An array after a write of `v` under `k`, and whether `(*plength)++` ran.
pub record Wrote (capacity : ℕ) (es : List Entry) (k v : ℕ) (r : List Entry × Bool) : Type 0 where
  pub placed : Placed capacity r.0
  pub reads : (q : ℕ) → q ≢ 0 → find q r.0 ≡ (if k == q then v else find q es)
  pub counts : (q : ℕ) → q ≢ 0 → count q r.0 ≡ (if k == q then 1 else count q es)
  pub fresh : r.1 ≡ (count k es == 0)
  pub occupied : used r.0 ≡ used es + one_if r.1

-- `ht_set_entry` returns on an array with a free slot; it writes the one entry, keeps the others
-- and every search, and reports a new key exactly when the key was absent.
pub ht_set_entry-Wrote :
    (capacity : ℕ) (es : List Entry) (k v : ℕ)
    → Placed capacity es
    → used es < capacity
    → k ≢ 0
    → Returns (ht_set_entry es capacity k v) (Wrote capacity es k v)
unfolding ht_set_entry
ht_set_entry-Wrote capacity es k v p room kn =
    let (i, run, f) = search capacity es p room k kn in
    let e : Entry = record { key = k; value = v } in
    let inside = inside_es capacity es p k v i kn f in
    (
      (set es i e, key_at es i == 0),
      rw (ne→== k 0 kn, run),
      record {
        placed = set-entry-Placed capacity es p k v i kn f run;
        reads = λ q ne.
            find-set q k v es i inside ne kn f.stops
              (ground (arith, count-set-entry capacity es p k v i kn f k kn));
        counts = count-set-entry capacity es p k v i kn f;
        fresh = ground (arith, f);
        occupied = used-set es i e inside kn;
      },
    )

-- `ht_get` returns what a scan of the whole array finds.
pub ht_get-find-Placed :
    (t : Table) (q : ℕ)
    → Placed t.capacity t.entries
    → used t.entries < t.capacity
    → q ≢ 0
    → ht_get t q ≡ done (find q t.entries)
unfolding ht_get
ht_get-find-Placed t q p room ne =
    let (j, run, f) = search t.capacity t.entries p room q ne in
    rw run (ap done (find-search t.capacity t.entries p q j ne f))
