-- ===== src/HashTable/Probe.antt =====
-- The probe loop: where it stops, that it stops, and what a write does to it.
use native.Mathlib.Decide.{ℕ_discrete}
use cc_implementation.Prelude.{
  ℕ, zero, suc, ◌+◌, ◌-◌, ◌<◌, ◌≡◌, ◌≢◌, ◌⊎◌, refl, arith, List, leb, if◌then◌else◌, set,
  get_or-set_ne, get_or-set_self, done, Returns, inl, inr, ap, Bool-cases, ◌==◌, length, get_or,
}
use cc_implementation.HashTable.{Entry, null_entry, key_at, next_index, probe}
use cc_implementation.HashTable.Hash.{next_index-lt}

-- The rounds that the loop makes from `index` to `free`, going round at the capacity.
abbrev pub distance : ℕ → ℕ → ℕ → ℕ
distance capacity index free = if leb index free then free - index else capacity - index + free

distance-next_index :
    (capacity index free : ℕ)
    → index < capacity
    → free < capacity
    → index ≢ free
    → suc (distance capacity (next_index capacity index) free) ≡ distance capacity index free
unfolding next_index
distance-next_index capacity index free hi hf ne = ground arith

distance-lt :
    (capacity index free : ℕ)
    → index < capacity
    → free < capacity
    → distance capacity index free < capacity
distance-lt capacity index free hi hf = ground arith

-- Where the loop stops: inside the table, at a free slot or at the key.
abbrev pub Stops : List Entry → ℕ → ℕ → ℕ → Type 0
Stops es capacity key j = (j < capacity) × ((key_at es j ≡ 0) ⊎ (key_at es j ≡ key))

module _ (es : List Entry) (capacity key free : ℕ) (in_table : free < capacity)
    (is_free : key_at es free ≡ 0) where
  probe_fuel :
      (fuel index : ℕ)
      → index < capacity
      → distance capacity index free < fuel
      → Returns (probe fuel es capacity key index) (Stops es capacity key)
  unfolding probe
  probe_fuel zero index hi hd = absurd (omega arith)
  probe_fuel (suc fuel) index hi hd = elim (Bool-cases (key_at es index == 0)) [
    | inl e ↦ (index, rw e, (hi, inl (ground arith)))
    | inr e ↦ elim (Bool-cases (key_at es index == key)) [
      | inl f ↦ (index, rw (e, f), (hi, inr (ground arith)))
      | inr f ↦
          let ne : index ≢ free = λ p. ground (arith, ap (key_at es) p) in
          let (j, run, s) =
            probe_fuel fuel (next_index capacity index) (next_index-lt capacity index (omega arith))
              (omega (arith, distance-next_index capacity index free hi in_table ne)) in
          (j, rw (e, f) run, s)
    ]
  ]

  -- A table with a free slot is searched in at most `capacity` rounds.
  pub probe_total :
      (index : ℕ)
      → index < capacity
      → Returns (probe capacity es capacity key index) (Stops es capacity key)
  probe_total index hi = probe_fuel capacity index hi (distance-lt capacity index free hi in_table)

-- A write to a slot that was free does not change where the search for another key stops, unless
-- it stopped there.
pub probe-set_free :
    (fuel : ℕ) (es : List Entry) (capacity q index i j : ℕ) (e : Entry)
    → key_at es i ≡ 0
    → j ≢ i
    → probe fuel es capacity q index ≡ done j
    → probe fuel (set es i e) capacity q index ≡ done j
unfolding probe
probe-set_free zero es capacity q index i j e hi ne h = cc
probe-set_free (suc fuel) es capacity q index i j e hi ne h = elim (ℕ_discrete i index) [
  | yes p ↦ absurd (ground (arith, ap (key_at es) p))
  | no p ↦ ground (
    arith,
    get_or-set_ne es i index e null_entry p,
    probe-set_free fuel es capacity q (next_index capacity index) i j e,
  )
]

-- A search sees nothing of a table but its keys.
pub probe_congr :
    (fuel : ℕ) (es fs : List Entry) (capacity q index : ℕ)
    → ((p : ℕ) → key_at fs p ≡ key_at es p)
    → probe fuel fs capacity q index ≡ probe fuel es capacity q index
unfolding probe
probe_congr zero es fs capacity q index h = refl
probe_congr (suc fuel) es fs capacity q index h =
    rw (h index, probe_congr fuel es fs capacity q (next_index capacity index) h)

-- The loop stops at a free slot or at the key.
pub probe-stop :
    (fuel : ℕ) (es : List Entry) (capacity q index j : ℕ)
    → probe fuel es capacity q index ≡ done j
    → (key_at es j ≡ 0) ⊎ (key_at es j ≡ q)
unfolding probe
probe-stop zero es capacity q index j h = cc
probe-stop (suc fuel) es capacity q index j h =
    ground (arith, probe-stop fuel es capacity q (next_index capacity index) j)

-- After the key is written to the slot where its search stopped, the search stops there again.
pub probe-set_here :
    (fuel : ℕ) (es : List Entry) (capacity key value index i : ℕ)
    → i < length es
    → probe fuel es capacity key index ≡ done i
    → probe fuel (set es i (record { key = key; value = value })) capacity key index ≡ done i
unfolding probe
probe-set_here zero es capacity key value index i hi h = cc
probe-set_here (suc fuel) es capacity key value index i hi h =
    let e : Entry = record { key = key; value = value } in
    elim (ℕ_discrete i index) [
      | yes p ↦
          let there : get_or (set es i e) index null_entry ≡ e =
            rw (← p) (get_or-set_self es i e null_entry hi) in
          ground (arith, there)
      | no p ↦ ground (
        arith,
        get_or-set_ne es i index e null_entry p,
        probe-set_here fuel es capacity key value (next_index capacity index) i,
      )
    ]
