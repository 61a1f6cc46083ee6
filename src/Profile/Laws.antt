-- ===== src/Profile/Laws.antt =====
-- The counters while the interpreter runs: every active function has its array.
use native.Mathlib.Decide.{ℕ_discrete}
use cc_implementation.Prelude.{
  ℕ, suc, ◌-◌, ◌≤◌, ◌<◌, ◌≡◌, ◌≢◌, ◌⊎◌, inl, inr, refl, arith, false, length, get_or,
  get_or-set_self, get_or-set_ne, ◌==◌, ne→==, eq→==, [],
}
use cc_implementation.Word.{add64, sub64}
use cc_implementation.HashTable.Laws.{
  view, ht_get-view, ht_set-SetResult, SetResult, Updated, Refused,
}
use cc_implementation.FuncStack.{FuncStack, is_empty, is_full, peek, func_stack_push}
use cc_implementation.FuncStack.Laws.{push-IsValid, pop-IsValid}
use cc_implementation.FuncStack.Laws as StackLaws
use cc_implementation.HashTable.Laws as TableLaws
use cc_implementation.Profile.{Profile, first_unimplemented_op}

-- The function at a position of the function stack.
abbrev pub active : FuncStack → ℕ → ℕ
active s i = get_or s.stack_data i 0

-- The function stack and the table are valid, every function on the stack has an array, every
-- pointer in the table is one of the arrays, no two functions share one, and an array has a count
-- for each opcode.
pub record IsCounting (p : Profile) : Type 0 where
  pub stack : StackLaws.IsValid p.func_stack
  pub table : TableLaws.IsValid p.table
  pub room : 0 < p.func_stack.max_items
  pub named : (i : ℕ) → i < p.func_stack.top → active p.func_stack i ≢ 0
  pub known : (i : ℕ) → i < p.func_stack.top → view p.table (active p.func_stack i) ≢ 0
  pub stored : (q : ℕ) → q ≢ 0 → view p.table q ≤ length p.arrays
  pub distinct :
      (f g : ℕ) → f ≢ 0 → g ≢ 0 → view p.table f ≢ 0 → view p.table f ≡ view p.table g → f ≡ g
  pub sized : (j : ℕ) → j < length p.arrays → length (get_or p.arrays j []) ≡ first_unimplemented_op

-- The newest function of the stack.
pub peek-active : (s : FuncStack) → StackLaws.IsValid s → 0 < s.top → peek s ≡ active s (s.top - 1)
unfolding peek is_empty
peek-active s v h =
    let test : (s.nr_items == 0) ≡ false = ground (arith, v.items) in
    let before : sub64 s.top 1 ≡ s.top - 1 = omega (arith, v.within, v.small) in rw (test, before)

-- What an accepted push does to the entries.
record Pushed (s : FuncStack) (a : ℕ) (r : FuncStack) : Type 0 where
  top : r.top ≡ suc s.top
  max_items : r.max_items ≡ s.max_items
  new : active r s.top ≡ a
  old : (i : ℕ) → i < s.top → active r i ≡ active s i

push-Pushed :
    (s : FuncStack) (a : ℕ)
    → StackLaws.IsValid s
    → s.top ≢ s.max_items
    → Pushed s a (func_stack_push s a).1
unfolding func_stack_push is_full
push-Pushed s a v room =
    let next : add64 s.top 1 ≡ suc s.top = omega (arith, v.within, v.small) in
    let inside : s.top < length s.stack_data = omega (arith, v.within, v.storage) in
    rw (ne→== s.top s.max_items room) (record {
      top = next;
      max_items = refl;
      new = get_or-set_self s.stack_data s.top a 0 inside;
      old = λ i lt. get_or-set_ne s.stack_data s.top i a 0 (omega arith);
    })

push_full : (s : FuncStack) (a : ℕ) → s.top ≡ s.max_items → (func_stack_push s a).1 ≡ s
unfolding func_stack_push is_full
push_full s a full = rw (eq→== s.top s.max_items full)

-- Counters in which only the top function may still lack its array.
pub record IsEntering (p : Profile) : Type 0 where
  pub stack : StackLaws.IsValid p.func_stack
  pub table : TableLaws.IsValid p.table
  pub room : 0 < p.func_stack.max_items
  pub some_function : 0 < p.func_stack.top
  pub named : (i : ℕ) → i < p.func_stack.top → active p.func_stack i ≢ 0
  pub known :
      (i : ℕ)
      → i < p.func_stack.top
      → (active p.func_stack i ≡ active p.func_stack (p.func_stack.top - 1))
        ⊎ (view p.table (active p.func_stack i) ≢ 0)
  pub stored : (q : ℕ) → q ≢ 0 → view p.table q ≤ length p.arrays
  pub distinct :
      (f g : ℕ) → f ≢ 0 → g ≢ 0 → view p.table f ≢ 0 → view p.table f ≡ view p.table g → f ≡ g
  pub sized : (j : ℕ) → j < length p.arrays → length (get_or p.arrays j []) ≡ first_unimplemented_op

pub push_full-IsEntering :
    (p : Profile) (a : ℕ)
    → IsCounting p
    → p.func_stack.top ≡ p.func_stack.max_items
    → IsEntering (record p { func_stack = (func_stack_push p.func_stack a).1 })
push_full-IsEntering p a c full = rw (push_full p.func_stack a full) (record {
  stack = c.stack;
  table = c.table;
  room = c.room;
  some_function = omega (arith, c.room);
  named = c.named;
  known = λ i lt. inr (c.known i lt);
  stored = c.stored;
  distinct = c.distinct;
  sized = c.sized;
})

pub push_room-IsEntering :
    (p : Profile) (a : ℕ)
    → IsCounting p
    → a ≢ 0
    → p.func_stack.top ≢ p.func_stack.max_items
    → IsEntering (record p { func_stack = (func_stack_push p.func_stack a).1 })
push_room-IsEntering p a c nz room =
    let s = p.func_stack in
    let r = (func_stack_push s a).1 in
    let u = push-Pushed s a c.stack room in
    let last : r.top - 1 ≡ s.top = omega (arith, u.top) in
    record {
      stack = push-IsValid s a c.stack;
      table = c.table;
      room = omega (arith, c.room, u.max_items);
      some_function = omega (arith, u.top);
      named = λ i lt. elim (ℕ_discrete i s.top) [
        | yes e ↦ rw (e, u.new) nz
        | no ne ↦
            let before : i < s.top = omega (arith, u.top) in rw (u.old i before) (c.named i before)
      ];
      known = λ i lt. elim (ℕ_discrete i s.top) [
        | yes e ↦ inl (rw (e, last))
        | no ne ↦
            let before : i < s.top = omega (arith, u.top) in
            inr (rw (u.old i before) (c.known i before))
      ];
      stored = c.stored;
      distinct = c.distinct;
      sized = c.sized;
    }
