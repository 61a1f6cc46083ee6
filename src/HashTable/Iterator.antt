-- ===== src/HashTable/Iterator.antt =====
-- The iterator of interp.c (`hti`, `ht_iterator`, `ht_next`): it yields the slots in use, in order.
use native.Mathlib.Numerals.{add-one}
use cc_implementation.Prelude.{
  ℕ, zero, suc, ◌+◌, ◌-◌, ◌≤◌, ◌<◌, ◌≡◌, refl, arith, List, [], ◌∷◌, Option, none, some, length,
  get_or, if◌then◌else◌, ◌==◌, Bool-cases, inl, inr, true, false, ap, ◌∙◌, sym,
}
use cc_implementation.HashTable.{Entry, Table, null_entry}
use cc_implementation.HashTable.Slots.{used}
use cc_implementation.HashTable.Laws.{IsValid}

-- `hti`; the fields `key` and `value` are the entry that `ht_next` returns.
pub record Iterator : Type 0 where
  pub table : Table
  pub index : ℕ

unfoldable pub ht_iterator : Table → Iterator
ht_iterator t = record { table = t; index = 0 }

-- The loop of `ht_next`, on the number of slots from the index on: the entry that it stops at, if it
-- returns true, and the index after it.
unfoldable pub scan : List Entry → ℕ → ℕ → Option Entry × ℕ
scan es zero index = (none, index)
scan es (suc rest) index =
    let e = get_or es index null_entry in
    let later = scan es rest (index + 1) in if e.key == 0 then later else (some e, index + 1)

-- `ht_next`: the next entry, or `none` for false.
unfoldable pub ht_next : Iterator → Option Entry × Iterator
unfolding scan
ht_next it =
    let (e, index) = scan it.table.entries (it.table.capacity - it.index) it.index in
    (e, record it { index = index })

-- The loop `while (ht_next(&it))`, at most `fuel` rounds: the entries that it sees.
unfoldable pub collect : ℕ → Iterator → List Entry
unfolding ht_next
collect zero it = []
collect (suc fuel) it =
    let (found, it') = ht_next it in elim found [ none ↦ [] | some e ↦ e ∷ collect fuel it' ]

-- The slots in use.
pub entries_of : List Entry → List Entry
entries_of [] = []
entries_of (e ∷ es) = if e.key == 0 then entries_of es else e ∷ entries_of es

-- The list from an index on.
abbrev pub from : List Entry → ℕ → List Entry
from es zero = es
from [] (suc i) = []
from (e ∷ es) (suc i) = from es i

from-step :
    (es : List Entry) (i : ℕ) → i < length es → from es i ≡ get_or es i null_entry ∷ from es (suc i)
from-step [] i h = absurd (omega arith)
from-step (e ∷ es) zero h = refl
from-step (e ∷ es) (suc i) h = from-step es i (omega arith)

from-end : (es : List Entry) (i : ℕ) → length es ≤ i → from es i ≡ []
from-end [] zero h = refl
from-end [] (suc i) h = refl
from-end (e ∷ es) zero h = absurd (omega arith)
from-end (e ∷ es) (suc i) h = from-end es i (omega arith)

-- What a call of `scan` tells of the entries from an index on.
abbrev Scanned : List Entry → ℕ → Option Entry × ℕ → Type 0
Scanned es index (none, next) = entries_of (from es index) ≡ []
Scanned es index (some x, next) =
    (entries_of (from es index) ≡ x ∷ entries_of (from es next))
    × (index < next)
    × (next ≤ length es)

entries_of-used :
    (e : Entry) (es : List Entry) → (e.key == 0) ≡ false → entries_of (e ∷ es) ≡ e ∷ entries_of es
unfolding entries_of
entries_of-used e es h = rw h

entries_of-free :
    (e : Entry) (es : List Entry) → (e.key == 0) ≡ true → entries_of (e ∷ es) ≡ entries_of es
unfolding entries_of
entries_of-free e es h = rw h

Scanned-skip :
    (es : List Entry) (index : ℕ) (r : Option Entry × ℕ)
    → entries_of (from es index) ≡ entries_of (from es (suc index))
    → Scanned es (suc index) r
    → Scanned es index r
Scanned-skip es index (none, next) e h = e ∙ h
Scanned-skip es index (some x, next) e (h, lt, le) = (e ∙ h, omega arith, le)

scan-Scanned :
    (es : List Entry) (rest index : ℕ)
    → index + rest ≡ length es
    → Scanned es index (scan es rest index)
unfolding scan
scan-Scanned es zero index h =
    ap entries_of (from-end es index (omega arith)) ∙ unfold entries_of in refl
scan-Scanned es (suc rest) index h =
    let e = get_or es index null_entry in
    let split = ap entries_of (from-step es index (omega arith)) in
    let tail : Scanned es (suc index) (scan es rest (index + 1)) =
      rw add-one (scan-Scanned es rest (suc index) (omega arith)) in
    elim (Bool-cases (e.key == 0)) [
      | inl free ↦ rw free (
          Scanned-skip es index (scan es rest (index + 1))
            (split ∙ entries_of-free e (from es (suc index)) free) tail)
      | inr taken ↦
          rw (taken, add-one)
            (split ∙ entries_of-used e (from es (suc index)) taken, omega arith, omega arith)
    ]

collect-step :
    (fuel : ℕ) (it : Iterator) (r : Option Entry × ℕ)
    → scan it.table.entries (it.table.capacity - it.index) it.index ≡ r
    → collect (suc fuel) it ≡ elim r.0 as (λ _. List Entry) [
      | none ↦ []
      | some e ↦ e ∷ collect fuel (record it { index = r.1 })
    ]
unfolding collect
collect-step fuel it r h =
    ap
      (λ (p : Option Entry × ℕ). elim p.0 as (λ _. List Entry) [
        | none ↦ []
        | some e ↦ e ∷ collect fuel (record it { index = p.1 })
      ])
      h

-- The entries that a loop over the iterator sees are those in use, from the index on.
collect-from :
    (fuel : ℕ) (t : Table) (index : ℕ)
    → length t.entries ≡ t.capacity
    → index ≤ t.capacity
    → t.capacity < index + fuel
    → collect fuel (record { table = t; index = index }) ≡ entries_of (from t.entries index)
collect-from zero t index size le lt = absurd (omega arith)
collect-from (suc fuel) t index size le lt =
    round (scan t.entries (t.capacity - index) index) refl
      (scan-Scanned t.entries (t.capacity - index) index (omega arith))
      (λ next above within. collect-from fuel t next size (omega arith) (omega arith))
  where
    round :
        (r : Option Entry × ℕ)
        → scan t.entries (t.capacity - index) index ≡ r
        → Scanned t.entries index r
        → ((next : ℕ)
            → index < next
            → next ≤ length t.entries
            → collect fuel (record { table = t; index = next }) ≡ entries_of (from t.entries next))
        → collect (suc fuel) (record { table = t; index = index })
          ≡ entries_of (from t.entries index)
    round (none, next) e s ih = collect-step fuel _ (none, next) e ∙ sym s
    round (some x, next) e (s, above, within) ih =
        collect-step fuel _ (some x, next) e ∙ ap (λ es. x ∷ es) (ih next above within) ∙ sym s

length-entries_of : (es : List Entry) → length (entries_of es) ≡ used es
unfolding entries_of used
length-entries_of [] = refl
length-entries_of (e ∷ es) = ground (arith, length-entries_of es)

-- On a valid table a loop over `ht_next` ends after as many rounds as the table's `length`, and sees
-- exactly the entries in use, each once, in the order of their slots.
pub collect-entries_of :
    (t : Table)
    → IsValid t
    → (collect (suc t.capacity) (ht_iterator t) ≡ entries_of t.entries)
      × (length (entries_of t.entries) ≡ t.length)
unfolding ht_iterator
collect-entries_of t v = (
  collect-from (suc t.capacity) t 0 v.placed.size (omega arith) (omega arith),
  length-entries_of t.entries ∙ v.counted,
)
