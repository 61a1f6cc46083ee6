-- ===== src/HashTable/Tests.antt =====
-- Small tables, and runs of the hash table functions on them.
use cc_implementation.Prelude.{
  ◌*◌, ◌%◌, ◌<◌, ◌≡◌, ◌≢◌, refl, arith, true, List, [], ◌∷◌, some, done, Returns, length,
  if◌then◌else◌, ◌==◌, replicate,
}
use cc_implementation.HashTable.{
  Table, null_entry, new_table, ht_create, hash_key, home, next_index, probe, ht_get, ht_set_entry,
  store, ht_set, ht_expand, rehash, word_mod,
}
use cc_implementation.HashTable.Slots.{used}
use cc_implementation.HashTable.Hash.{golden, hash_key-eq-mul, hash_key-ne}
use cc_implementation.HashTable.Placed.{Wrote, ht_set_entry-Wrote}
use cc_implementation.HashTable.Expand.{Doubled, replicate-Placed, ht_expand-Doubled}
use cc_implementation.HashTable.Laws.{
  IsValid, view, SetResult, ht_set-Updated, ht_get-view, ht_set-SetResult, ht_get-ht_set,
}
use cc_implementation.HashTable.Refine.{TableOp, run_table, recall, run_table-recall}
use cc_implementation.HashTable.Iterator.{ht_iterator, collect, entries_of, collect-entries_of}

-- A table of two slots, empty, and with one entry: it is half full.
abbrev two_slots : Table
two_slots = record { entries = replicate 2 null_entry; capacity = 2; length = 0 }

abbrev half_full_table : Table
half_full_table = record {
  entries = null_entry ∷ record { key = 5; value = 7 } ∷ [];
  capacity = 2;
  length = 1;
}

-- Its double, with a second entry.
abbrev doubled_table : Table
doubled_table = record {
  entries =
      null_entry ∷ record { key = 5; value = 7 } ∷ record { key = 9; value = 8 } ∷ null_entry ∷ [];
  capacity = 4;
  length = 2;
}

two_slots-IsValid : IsValid two_slots
unfolding used
two_slots-IsValid = record {
  placed = replicate-Placed 2;
  counted = refl;
  load = omega arith;
  roomy = omega arith;
  small = omega arith;
  binary = (1, omega arith);
}

set_first : ht_set true two_slots 5 7 ≡ done (5, half_full_table)
unfolding ht_set store ht_set_entry probe home hash_key next_index
set_first = refl

half_full_table-IsValid : IsValid half_full_table
half_full_table-IsValid =
    (ht_set-Updated true two_slots half_full_table 5 7 two_slots-IsValid (omega arith) (omega arith)
      set_first).valid

set_second : ht_set true half_full_table 9 8 ≡ done (9, doubled_table)
unfolding ht_set ht_expand rehash store ht_set_entry probe home hash_key next_index
set_second = refl

ht_set-SetResult_example :
    Returns (ht_set true half_full_table 9 8) (SetResult true half_full_table 9 8)
ht_set-SetResult_example =
    ht_set-SetResult true half_full_table 9 8 half_full_table-IsValid (omega arith) (omega arith)

ht_get-view_example : ht_get half_full_table 5 ≡ done (view half_full_table 5)
ht_get-view_example = ht_get-view half_full_table 5 half_full_table-IsValid (omega arith)

ht_get-ht_set_example :
    ht_get doubled_table 5 ≡ (if 9 == 5 then done 8 else ht_get half_full_table 5)
ht_get-ht_set_example =
    ht_get-ht_set true half_full_table doubled_table 9 8 5 half_full_table-IsValid (omega arith)
      (omega arith) (omega arith) set_second

half_full_table-used : used half_full_table.entries < half_full_table.capacity
unfolding used
half_full_table-used = omega arith

ht_expand-Doubled_example :
    (r : Table) × (ht_expand true half_full_table ≡ done (true, r)) × Doubled half_full_table r
ht_expand-Doubled_example =
    ht_expand-Doubled half_full_table half_full_table-IsValid.placed half_full_table-used
      (omega arith)

ht_set_entry-Wrote_example :
    Returns (ht_set_entry half_full_table.entries 2 9 8) (Wrote 2 half_full_table.entries 9 8)
ht_set_entry-Wrote_example =
    ht_set_entry-Wrote 2 half_full_table.entries 9 8 half_full_table-IsValid.placed
      half_full_table-used (omega arith)

created : ht_create true true ≡ some new_table
unfolding ht_create
created = refl

collect-entries_of_example :
    (collect 3 (ht_iterator half_full_table) ≡ entries_of half_full_table.entries)
    × (length (entries_of half_full_table.entries) ≡ 1)
collect-entries_of_example = collect-entries_of half_full_table half_full_table-IsValid

hash_key-eq-mul_example : hash_key 4096 ≡ (4096 * golden) % word_mod
hash_key-eq-mul_example = hash_key-eq-mul 4096 (omega arith)

hash_key-ne_example : hash_key 4096 ≢ hash_key 4128
hash_key-ne_example = hash_key-ne 4096 4128 (omega arith) (omega arith) (omega arith)

-- Two keys, one of them written twice.
abbrev requests : List TableOp
requests =
    TableOp.put 64 5 ∷ TableOp.put 72 6 ∷ TableOp.put 64 7 ∷ TableOp.get 64 ∷ TableOp.get 80 ∷ []

remembered : recall [] requests ≡ 64 ∷ 72 ∷ 64 ∷ 7 ∷ 0 ∷ []
unfolding recall
remembered = refl

run_table-recall_example : run_table new_table requests ≡ done (recall [] requests)
run_table-recall_example =
    run_table-recall requests
      (
        omega arith,
        omega arith,
        (omega arith, omega arith, (omega arith, omega arith, (omega arith, (omega arith, tt)))),
      )
      (omega arith)
