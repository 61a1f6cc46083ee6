-- ===== src/Interp/Sound/Store.antt =====
-- Writes and new blocks keep every word live.
use cc_implementation.Prelude.{
  ◌≤◌, ◌≡◌, length-set, ℕ, ◌+◌, List, [], ◌∷◌, ◌++◌, Option, set, length, arith, length-append,
}
use cc_implementation.Profile.{Profile}
use cc_implementation.Interp.Machine.{Fiber, Value, word, ptr, atom, code, fiber, Machine, Block}
use cc_implementation.Interp.Memory.{store, new_block}
use cc_implementation.Interp.Sound.{
  StoreIsLive, Live-later, AllLive-later, Live, Post, returns, faults, bind, Kept, AllLive,
  All-mono,
}
use cc_implementation.Interp.Sound.Access.{
  get_elem?-Post, write-Post, All-set, All-append, SlotIsLive-later,
}

module _ {h n : ℕ} {p : Profile → Type 0} (m : Machine) (k : Kept h n p m) where
  -- A store with new contents.
  pub with_store :
      (heap : List Block) (fibers : List (Option Fiber))
      → StoreIsLive heap fibers
      → length m.heap ≤ length heap
      → length m.fibers ≤ length fibers
      → Kept h n p (record m { heap = heap; fibers = fibers })
  with_store heap fibers c hk nj =
      let r = record m { heap = heap; fibers = fibers } in
      (
        (
          c,
          AllLive-later m r m.stack hk nj k.0.1,
          Live-later m r m.accu hk nj k.0.2,
          Live-later m r m.env hk nj k.0.3,
          (
            Live-later m r m.global_data hk nj k.0.4.0,
            Live-later m r m.raise_unhandled hk nj k.0.4.1,
            omega arith,
          ),
        ),
        omega arith,
        omega arith,
        k.3,
      )

  overwritten :
      (b : ℕ) (block : Block)
      → AllLive m block.fields
      → Kept h n p (record m { heap = set m.heap b block })
  overwritten b block l =
      let same : length (set m.heap b block) ≡ length m.heap = length-set m.heap b block in
      with_store (set m.heap b block) m.fibers
        (rw same (All-set (λ (x : Block). AllLive m x.fields) m.heap b block l k.0.0.0, k.0.0.1))
        (omega arith) (omega arith)

  -- A write of a live word into a field.
  pub store-Post :
      (v : Value) (i : ℕ) (w : Value) → Live m w → Post h n p (Kept h n p) (store m v i w)
  store-Post (ptr b o) i w l = bind (get_elem?-Post m.heap b k.0.0.0) (λ block lb.
      bind (write-Post block.fields (o + i) w l lb)
        (λ fields lf. returns _ (overwritten b (record block { fields = fields }) lf)))
  store-Post (word c) i w l = faults
  store-Post (atom tag) i w l = faults
  store-Post (code pc) i w l = faults
  store-Post (fiber j) i w l = faults

  -- A new block of live words.
  pub new_block-Kept :
      (tag : ℕ) (fields : List Value) → AllLive m fields → Kept h n p (new_block m tag fields).1
  new_block-Kept tag fields l =
      let block : Block = record { tag = tag; fields = fields } in
      let heap = m.heap ++ block ∷ [] in
      let r = record m { heap = heap } in
      let more : length heap ≡ length m.heap + 1 = length-append m.heap (block ∷ []) in
      let grows : length m.heap ≤ length heap = omega arith in
      with_store heap m.fibers
        (
          All-append (λ (b : Block). AllLive r b.fields) m.heap (block ∷ [])
              (All-mono m.heap (λ b lb. AllLive-later m r b.fields grows (omega arith) lb) k.0.0.0)
              (AllLive-later m r fields grows (omega arith) l, tt),
          All-mono m.fibers (λ f lf. SlotIsLive-later m r f grows (omega arith) lf) k.0.0.1,
        )
        grows (omega arith)

  pub new_block-Live :
      (tag : ℕ) (fields : List Value) → Live (new_block m tag fields).1 (new_block m tag fields).0
  new_block-Live tag fields =
      omega (arith, length-append m.heap (record { tag = tag; fields = fields } ∷ []))
