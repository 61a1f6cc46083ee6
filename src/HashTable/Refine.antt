-- ===== src/HashTable/Refine.antt =====
-- The hash table against the history of its writes.
use cc_implementation.Prelude.{
  ℕ, ◌+◌, ◌*◌, ◌^◌, ◌≤◌, ◌<◌, ◌≡◌, ◌≢◌, ◌∙◌, inl, inr, refl, ap, arith, true, List, [], ◌∷◌, ◌==◌,
  if◌then◌else◌, length, Run, done, ◌>>=◌,
}
use cc_implementation.HashTable.{Table, ht_get, ht_set, new_table}
use cc_implementation.HashTable.Slots.{count}
use cc_implementation.HashTable.Laws.{
  IsValid, view, Updated, ht_get-view, ht_set-SetResult, new_table-IsFresh, one_if-le,
}

-- What a caller asks of a table.
pub data TableOp : Type 0 where
  put : ℕ → ℕ → TableOp
  get : ℕ → TableOp

-- The answers of the table, while `calloc` succeeds.
unfoldable pub run_table : Table → List TableOp → Run (List ℕ)
run_table t [] = done []
run_table t (put k v ∷ ops) =
    ht_set true t k v >>= λ r. run_table r.1 ops >>= λ out. done (r.0 ∷ out)
run_table t (get k ∷ ops) = ht_get t k >>= λ v. run_table t ops >>= λ out. done (v ∷ out)

-- The value that was written last under a key, or 0.
abbrev pub latest : List (ℕ × ℕ) → ℕ → ℕ
latest [] q = 0
latest ((k, v) ∷ writes) q = if k == q then v else latest writes q

-- The answers from the history alone: a write returns its key, a read the latest value.
unfoldable pub recall : List (ℕ × ℕ) → List TableOp → List ℕ
recall writes [] = []
recall writes (put k v ∷ ops) = k ∷ recall ((k, v) ∷ writes) ops
recall writes (get k ∷ ops) = latest writes k ∷ recall writes ops

-- No key and no value is NULL.
abbrev pub IsUsable : List TableOp → Type 0
IsUsable [] = Unit {0}
IsUsable (put k v ∷ ops) = (k ≢ 0) × (v ≢ 0) × IsUsable ops
IsUsable (get k ∷ ops) = (k ≢ 0) × IsUsable ops

-- A table that holds the latest values, and has not grown beyond what its entries need.
record Recalls (t : Table) (writes : List (ℕ × ℕ)) : Type 0 where
  valid : IsValid t
  reads : (q : ℕ) → q ≢ 0 → view t q ≡ latest writes q
  lean : t.capacity ≤ 16 + t.length * 4

Updated-Recalls :
    (t r : Table) (k v : ℕ) (writes : List (ℕ × ℕ))
    → Recalls t writes
    → Updated t k v r
    → Recalls r ((k, v) ∷ writes)
Updated-Recalls t r k v writes c u = record {
  valid = u.valid;
  reads = λ q ne. u.reads q ne ∙ ap (λ x. if k == q then v else x) (c.reads q ne);
  lean = elim u.size [
    | inl e ↦ omega (arith, e, c.lean, u.grows)
    | inr (e, full) ↦ omega (arith, e, full, u.grows)
  ];
}

put-Recalls :
    (t : Table) (k v : ℕ) (writes : List (ℕ × ℕ))
    → Recalls t writes
    → k ≢ 0
    → v ≢ 0
    → t.length < 2 ^ 60
    → (r : Table) × (ht_set true t k v ≡ done (k, r))
      × Recalls r ((k, v) ∷ writes)
      × (r.length ≤ t.length + 1)
put-Recalls t k v writes c kn vn small =
    let (out, run, result) = ht_set-SetResult true t k v c.valid kn vn in
    elim result [
      | inl (e, u) ↦ (
        out.1,
        run ∙ ap (λ a. done (a, out.1)) e,
        Updated-Recalls t out.1 k v writes c u,
        omega (arith, u.grows, one_if-le (count k t.entries == 0)),
      )
      | inr (e, refused) ↦
          absurd (elim refused.no_room [ inl denied ↦ cc | inr over ↦ omega (arith, over, c.lean) ])
    ]

run_table-Recalls :
    (ops : List TableOp) (t : Table) (writes : List (ℕ × ℕ))
    → Recalls t writes
    → IsUsable ops
    → t.length + length ops < 2 ^ 60
    → run_table t ops ≡ done (recall writes ops)
unfolding run_table recall
run_table-Recalls [] t writes c usable small = refl
run_table-Recalls (put k v ∷ ops) t writes c (kn, vn, usable) small =
    let (r, run, d, grown) = put-Recalls t k v writes c kn vn (omega arith) in
    rw (run, run_table-Recalls ops r ((k, v) ∷ writes) d usable (omega (arith, grown)))
run_table-Recalls (get k ∷ ops) t writes c (kn, usable) small = rw (
  ht_get-view t k c.valid kn,
  c.reads k kn,
  run_table-Recalls ops t writes c usable (omega arith),
)

-- No sequence of writes and reads, from the new table on, tells the hash table from the history of its
-- writes: every write returns its key and every read the value that was written last under its key, or
-- NULL if there is none, through all the expansions of the table. Keys and values are not NULL, `calloc`
-- succeeds, and there are less than 2^60 operations.
pub run_table-recall :
    (ops : List TableOp)
    → IsUsable ops
    → length ops < 2 ^ 60
    → run_table new_table ops ≡ done (recall [] ops)
run_table-recall ops usable small =
    let (valid, empty, nothing) = new_table-IsFresh in
    run_table-Recalls ops new_table []
      (record { valid = valid; reads = nothing; lean = omega arith }) usable (omega arith)
