-- ===== src/HashTable/Expand.antt =====
-- `ht_expand`: the rehash into an array of twice the size keeps every lookup.
use native.Mathlib.Decide.{ℕ_discrete}
use cc_implementation.Prelude.{ltb}
use cc_implementation.Prelude.{
  ℕ, ◌+◌, ◌*◌, ◌%◌, ◌≤◌, ◌<◌, ◌≡◌, ◌≢◌, refl, arith, List, [], ◌∷◌, replicate, if◌then◌else◌, Bool,
  ◌==◌, done, Returns, true, false, length-replicate, get_or-replicate, sym, ◌∙◌, ap, eq→==, ne→==,
  ◌⊎◌,
}
use cc_implementation.HashTable.{
  Entry, Table, null_entry, word_mod, ht_expand, rehash, ht_set_entry,
}
use cc_implementation.HashTable.Slots.{
  find, count, used, count-replicate, used-replicate, find-eq_zero,
}
use cc_implementation.HashTable.Placed.{Placed, Wrote, ht_set_entry-Wrote}

-- A zeroed array holds nothing, and every key is where its search ends.
pub replicate-Placed : (capacity : ℕ) → Placed capacity (replicate capacity null_entry)
replicate-Placed capacity = record {
  size = length-replicate capacity null_entry;
  unique = λ q ne. omega (arith, count-replicate q capacity ne);
  reach = λ q j ne h.
      absurd (ne (sym h ∙ ap (λ (t : Entry). t.key) (get_or-replicate capacity j null_entry)));
}

-- The new array, after the entries of `es` were written into `new`.
record Rehashed (capacity : ℕ) (es new r : List Entry) : Type 0 where
  placed : Placed capacity r
  reads : (q : ℕ) → q ≢ 0 → find q r ≡ (if count q es == 0 then find q new else find q es)
  occupied : used r ≡ used new + used es
  counts : (q : ℕ) → q ≢ 0 → count q r ≡ count q new + count q es

rehash-skip :
    (capacity : ℕ) (e : Entry) (es new : List Entry)
    → e.key ≡ 0
    → rehash (e ∷ es) capacity new ≡ rehash es capacity new
unfolding rehash
rehash-skip capacity e es new z = rw (eq→== e.key 0 z)

rehash-write :
    (capacity : ℕ) (e : Entry) (es new new' : List Entry) (fresh : Bool)
    → e.key ≢ 0
    → ht_set_entry new capacity e.key e.value ≡ done (new', fresh)
    → rehash (e ∷ es) capacity new ≡ rehash es capacity new'
unfolding rehash
rehash-write capacity e es new new' fresh nz run = rw (ne→== e.key 0 nz, run)

Rehashed-skip :
    {capacity : ℕ} (e : Entry) (es new r : List Entry)
    → e.key ≡ 0
    → Rehashed capacity es new r
    → Rehashed capacity (e ∷ es) new r
unfolding find count used
Rehashed-skip e es new r z f = record {
  placed = f.placed;
  reads = λ q ne. ground (arith, f.reads q ne);
  occupied = ground (arith, f.occupied);
  counts = λ q ne. ground (arith, f.counts q ne);
}

Rehashed-write :
    {capacity : ℕ} (e : Entry) (es new r : List Entry) (w : List Entry × Bool)
    → e.key ≢ 0
    → ((q : ℕ) → q ≢ 0 → count q (e ∷ es) + count q new ≤ 1)
    → Wrote capacity new e.key e.value w
    → Rehashed capacity es w.0 r
    → Rehashed capacity (e ∷ es) new r
unfolding find count used
Rehashed-write e es new r w kn once wrote f = record {
  placed = f.placed;
  reads = λ q ne. ground (arith, f.reads q ne, wrote.reads q ne, once q ne, find-eq_zero q es);
  occupied = ground (arith, f.occupied, wrote.occupied, wrote.fresh, once e.key kn);
  counts = λ q ne. ground (arith, f.counts q ne, wrote.counts q ne, once q ne);
}

once-write :
    {capacity : ℕ} (e : Entry) (es new : List Entry) (w : List Entry × Bool)
    → e.key ≢ 0
    → ((q : ℕ) → q ≢ 0 → count q (e ∷ es) + count q new ≤ 1)
    → Wrote capacity new e.key e.value w
    → (q : ℕ) → q ≢ 0
    → count q es + count q w.0 ≤ 1
unfolding count
once-write e es new w kn once wrote q ne =
    ground (arith, wrote.counts q ne, once q ne, once e.key kn)

room-write :
    {capacity : ℕ} (e : Entry) (es new : List Entry) (w : List Entry × Bool)
    → e.key ≢ 0
    → used new + used (e ∷ es) < capacity
    → Wrote capacity new e.key e.value w
    → used w.0 + used es < capacity
unfolding used
room-write e es new w kn room wrote = ground (arith, wrote.occupied)

rehash-Rehashed :
    (capacity : ℕ) (es new : List Entry)
    → Placed capacity new
    → used new + used es < capacity
    → ((q : ℕ) → q ≢ 0 → count q es + count q new ≤ 1)
    → Returns (rehash es capacity new) (Rehashed capacity es new)
unfolding rehash find count used
rehash-Rehashed capacity [] new p room once = (
  new,
  refl,
  record { placed = p; reads = λ q ne. refl; occupied = omega arith; counts = λ q ne. omega arith },
)
rehash-Rehashed capacity (e ∷ es) new p room once = elim (ℕ_discrete e.key 0) [
  | yes z ↦
      let (r, run, f) =
        rehash-Rehashed capacity es new p (omega arith) (λ q ne. omega (arith, once q ne)) in
      (r, rehash-skip capacity e es new z ∙ run, Rehashed-skip e es new r z f)
  | no kn ↦
      let (w, run₁, wrote) = ht_set_entry-Wrote capacity new e.key e.value p (omega arith) kn in
      let (r, run₂, f) =
        rehash-Rehashed capacity es w.0 wrote.placed (room-write e es new w kn room wrote)
          (once-write e es new w kn once wrote) in
      (
        r,
        rehash-write capacity e es new w.0 w.1 kn run₁ ∙ run₂,
        Rehashed-write e es new r w kn once wrote f,
      )
]

ht_expand-run :
    (t : Table) (n : ℕ) (r : List Entry)
    → (t.capacity * 2) % word_mod ≡ n
    → t.capacity ≤ n
    → rehash t.entries n (replicate n null_entry) ≡ done r
    → ht_expand true t ≡ done (true, record t { entries = r; capacity = n })
unfolding ht_expand
ht_expand-run t n r e le run =
    let grows : ltb n t.capacity ≡ false = ground arith in rw (e, grows, run)

-- A table after its array was replaced by one of twice the size.
pub record Doubled (t r : Table) : Type 0 where
  pub placed : Placed r.capacity r.entries
  pub capacity : r.capacity ≡ t.capacity * 2
  pub length : r.length ≡ t.length
  pub occupied : used r.entries ≡ used t.entries
  pub reads : (q : ℕ) → q ≢ 0 → find q r.entries ≡ find q t.entries
  pub counts : (q : ℕ) → q ≢ 0 → count q r.entries ≡ count q t.entries

-- On a table with a free slot whose size doubles within 64 bits, `ht_expand` succeeds if `calloc`
-- does: the array doubles, and every key keeps its value.
pub ht_expand-Doubled :
    (t : Table)
    → Placed t.capacity t.entries
    → used t.entries < t.capacity
    → t.capacity * 2 < word_mod
    → (r : Table) × (ht_expand true t ≡ done (true, r)) × Doubled t r
unfolding ht_expand
ht_expand-Doubled t p room fits =
    let new_capacity = t.capacity * 2 in
    let zeroed = replicate new_capacity null_entry in
    let same : (t.capacity * 2) % word_mod ≡ new_capacity = omega arith in
    let (r, run, f) =
      rehash-Rehashed new_capacity t.entries zeroed (replicate-Placed new_capacity)
        (omega (arith, used-replicate new_capacity))
        (λ q ne. omega (arith, p.unique q ne, count-replicate q new_capacity ne)) in
    (
      record t { entries = r; capacity = new_capacity },
      ht_expand-run t new_capacity r same (omega arith) run,
      record {
        placed = f.placed;
        capacity = refl;
        length = refl;
        occupied = omega (arith, f.occupied, used-replicate new_capacity);
        reads = λ q ne. ground (
          arith,
          f.reads q ne,
          find-eq_zero q t.entries,
          find-eq_zero q zeroed,
          count-replicate q new_capacity ne,
        );
        counts = λ q ne. omega (arith, f.counts q ne, count-replicate q new_capacity ne);
      },
    )

-- Where the size would not double within 64 bits, or `calloc` fails, `ht_expand` changes nothing.
pub ht_expand-failed :
    (granted : Bool) (t : Table)
    → t.capacity < word_mod
    → (granted ≡ false) ⊎ (word_mod ≤ t.capacity * 2)
    → ht_expand granted t ≡ done (false, t)
unfolding ht_expand
ht_expand-failed granted t small h = ground arith
