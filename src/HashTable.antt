-- ===== src/HashTable.antt =====
-- The open-addressing hash table of interp.c (`ht`, `ht_entry` and the `ht_*` functions), which
-- the profiler keeps from function addresses to arrays of opcode counts.
-- A pointer is its 64-bit address, and 0 is NULL. `calloc` is a parameter: the flag `granted`.
pub mod Hash
pub mod Probe
pub mod Slots
pub mod Placed
pub mod Expand
pub mod Laws
pub mod Iterator
pub mod Refine
pub mod Tests
pub use cc_implementation.Word.{word_mod, add64, sub64, shl64}
use cc_implementation.Prelude.{
  ℕ, zero, suc, ◌+◌, ◌-◌, ◌*◌, ◌/◌, ◌%◌, ◌^◌, ◌<◌, bit_and, Bool, true, false, List, [], ◌∷◌, ltb,
  leb, ◌==◌, if◌then◌else◌, length, get_or, set, replicate, Run, done, died, hangs, ◌>>=◌, Option,
  none, some,
}

pub record Entry : Type 0 where
  pub key : ℕ
  pub value : ℕ

-- What `calloc` leaves in a slot.
abbrev pub null_entry : Entry
null_entry = record { key = 0; value = 0 }

pub record Table : Type 0 where
  pub entries : List Entry
  pub capacity : ℕ
  pub length : ℕ

abbrev pub key_at : List Entry → ℕ → ℕ
key_at es i = (get_or es i null_entry).key

abbrev pub value_at : List Entry → ℕ → ℕ
value_at es i = (get_or es i null_entry).value

abbrev pub initial_capacity : ℕ
initial_capacity = 16

-- The table that `ht_create` fills in.
abbrev pub new_table : Table
new_table = record {
  entries = replicate initial_capacity null_entry;
  capacity = initial_capacity;
  length = 0;
}

-- `ht_create`; the two flags are the successes of `malloc` and `calloc`, and `none` is NULL.
unfoldable pub ht_create : Bool → Bool → Option Table
ht_create true true = some new_table
ht_create _ _ = none

unfoldable pub hash_key : ℕ → ℕ
hash_key key =
    let n₁ = shl64 key 18 in
    let h₁ = sub64 key n₁ in
    let n₂ = shl64 n₁ 33 in
    let h₂ = sub64 h₁ n₂ in
    let n₃ = shl64 n₂ 3 in
    let h₃ = add64 h₂ n₃ in
    let n₄ = shl64 n₃ 3 in
    let h₄ = sub64 h₃ n₄ in
    let n₅ = shl64 n₄ 4 in let h₅ = add64 h₄ n₅ in let n₆ = shl64 n₅ 2 in add64 h₅ n₆

-- `hash & (uint64_t)(capacity - 1)`
unfoldable pub home : ℕ → ℕ → ℕ
home key capacity = bit_and (hash_key key) (capacity - 1)

-- `index++; if (index >= capacity) index = 0;`
unfoldable pub next_index : ℕ → ℕ → ℕ
next_index capacity index = if leb capacity (index + 1) then 0 else index + 1

-- The loop `while (entries[index].key != NULL)` of `ht_get` and of `ht_set_entry`: the index at
-- which it stops, at a free slot or at the key. Fuel that runs out is a loop that goes on.
unfoldable pub probe : ℕ → List Entry → ℕ → ℕ → ℕ → Run ℕ
probe zero es capacity key index = hangs
probe (suc fuel) es capacity key index =
    let rest = probe fuel es capacity key (next_index capacity index) in
    if key_at es index == 0 then done index else if key_at es index == key then done index else rest

-- The pointer that `ht_get` returns; NULL is 0.
unfoldable pub ht_get : Table → ℕ → Run ℕ
ht_get t key = do
  index ← probe t.capacity t.entries t.capacity key (home key t.capacity)
  done (if key_at t.entries index == 0 then 0 else value_at t.entries index)

-- `ht_set_entry`: the array after the write, and whether `(*plength)++` is reached.
unfoldable pub ht_set_entry : List Entry → ℕ → ℕ → ℕ → Run (List Entry × Bool)
ht_set_entry es capacity key value = if key == 0 then died else (do
  index ← probe capacity es capacity key (home key capacity)
  let fresh = key_at es index == 0
  done (set es index (record { key = key; value = value }), fresh))

-- The loop of `ht_expand` over the old entries.
unfoldable pub rehash : List Entry → ℕ → List Entry → Run (List Entry)
rehash [] capacity new_entries = done new_entries
rehash (e ∷ es) capacity new_entries =
    if e.key == 0
    then rehash es capacity new_entries
    else (ht_set_entry new_entries capacity e.key e.value >>= λ r. rehash es capacity r.0)

-- `ht_expand`: its result, and the table after it.
unfoldable pub ht_expand : Bool → Table → Run (Bool × Table)
ht_expand granted t =
    let new_capacity = (t.capacity * 2) % word_mod in
    if ltb new_capacity t.capacity
    then done (false, t)
    else (if granted
        then (do
          new_entries ← rehash t.entries new_capacity (replicate new_capacity null_entry)
          done (true, record t { entries = new_entries; capacity = new_capacity }))
        else done (false, t))

-- `ht_set` from the call of `ht_set_entry` on.
unfoldable pub store : Table → ℕ → ℕ → Run (ℕ × Table)
store t key value = do
  r ← ht_set_entry t.entries t.capacity key value
  done (
    key,
    record t { entries = r.0; length = if r.1 then (t.length + 1) % word_mod else t.length },
  )

-- `ht_set`: the returned key (0 for NULL) and the table. The `assert` rules a NULL value out.
unfoldable pub ht_set : Bool → Table → ℕ → ℕ → Run (ℕ × Table)
ht_set granted t key value =
    if value == 0
    then died
    else (if key == 0
        then died
        else (if leb (t.capacity / 2) t.length
            then (ht_expand granted t >>= λ r. if r.0 then store r.1 key value else done (0, r.1))
            else store t key value))

unfoldable pub ht_length : Table → ℕ
ht_length t = t.length
