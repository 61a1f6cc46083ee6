-- ===== src/Profile/History/Counting.antt =====
-- What one event changes in the counts and in the function stack.
use native.Mathlib.Decide.{ℕ_discrete}
use cc_implementation.Prelude.{
  ◌-◌, ℕ, ◌+◌, ◌^◌, ◌<◌, ◌≤◌, ◌≡◌, ◌≢◌, refl, ◌∙◌, ap, arith, true, List, [], ◌∷◌, length, ◌==◌,
  if◌then◌else◌, ◌&&◌, sym, ne→==, eq→==,
}
use cc_implementation.Profile.{Profile}
use cc_implementation.Profile.Laws.{IsCounting, peek-active}
use cc_implementation.FuncStack.{
  FuncStack, func_stack_push, func_stack_pop, is_full, is_empty, peek,
}
use cc_implementation.HashTable.Laws.{view}
use cc_implementation.Profile.Counts.{counted, tally, Counted}
use cc_implementation.Profile.History.{
  Event, call_event, return_event, opcode_event, opcodes, times, times_in,
}

pub opcodes-le : (es : List Event) → opcodes es ≤ length es
opcodes-le [] = omega arith
opcodes-le (opcode_event o ∷ es) = omega (arith, opcodes-le es)
opcodes-le (call_event _ _ _ ∷ es) = omega (arith, opcodes-le es)
opcodes-le (return_event ∷ es) = omega (arith, opcodes-le es)

pub times-le : (q : ℕ) (es : List Event) → times q es ≤ length es
times-le q [] = omega arith
times-le q (opcode_event o ∷ es) = ground (arith, times-le q es)
times-le q (call_event _ _ _ ∷ es) = omega (arith, times-le q es)
times-le q (return_event ∷ es) = omega (arith, times-le q es)

pub times_in-le : (base f q : ℕ) (es : List Event) → times_in base f q es ≤ length es
times_in-le base f q [] = omega arith
times_in-le base f q (opcode_event o ∷ es) = ground (arith, times_in-le base f q es)
times_in-le base f q (call_event _ _ _ ∷ es) = omega (arith, times_in-le base f q es)
times_in-le base f q (return_event ∷ es) = omega (arith, times_in-le base f q es)

peek_idle : (p : Profile) → IsCounting p → p.func_stack.top ≡ 0 → peek p.func_stack ≡ 0
unfolding peek is_empty
peek_idle p c idle =
    let test : (p.func_stack.nr_items == 0) ≡ true = ground (arith, c.stack.items) in rw test

-- A function without an array does not run.
not_running :
    (p : Profile) (f : ℕ) → IsCounting p → f ≢ 0 → view p.table f ≡ 0 → f ≢ peek p.func_stack
not_running p f c ne z e = elim (ℕ_discrete p.func_stack.top 0) [
  | yes idle ↦ ne (e ∙ peek_idle p c idle)
  | no some_active ↦
      let here = e ∙ peek-active p.func_stack c.stack (omega arith) in
      c.known (p.func_stack.top - 1) (omega arith) (sym (ap (view p.table) here) ∙ z)
]

-- The count of one opcode in the function that runs, and no other count of a function, grows by one.
pub tally-Counted :
    (p r : Profile) (q : ℕ)
    → IsCounting p
    → Counted p q r
    → (f o : ℕ) → f ≢ 0
    → tally p f o < 2 ^ 60
    → tally r f o ≡ (if f == peek p.func_stack && o == q then 1 else 0) + tally p f o
tally-Counted p r q cp c f o ne small =
    let same : view r.table f ≡ view p.table f = ap (λ t. view t f) c.same_table in
    elim (ℕ_discrete (view p.table f) 0) [
      | yes z ↦ rw (same, z, ne→== f (peek p.func_stack) (not_running p f cp ne z)) refl
      | no there ↦ elim (ℕ_discrete p.func_stack.top 0) [
        | yes idle ↦
            rw
              (
                c.counts f o ne there,
                same,
                eq→== p.func_stack.top 0 idle,
                peek_idle p cp idle,
                ne→== f 0 ne,
                ne→== (view p.table f) 0 there,
              )
              (omega arith)
        | no some_active ↦
            let few : counted p f o < 2 ^ 60 = rw (ne→== (view p.table f) 0 there) at small in
            rw
              (
                c.counts f o ne there,
                same,
                ne→== p.func_stack.top 0 some_active,
                peek-active p.func_stack cp.stack (omega arith),
                ne→== (view p.table f) 0 there,
              )
              (ground arith)
      ]
    ]

pub push-max_items : (s : FuncStack) (a : ℕ) → (func_stack_push s a).1.max_items ≡ s.max_items
unfolding func_stack_push is_full
push-max_items s a = elim (ℕ_discrete s.top s.max_items) [
  | yes full ↦ rw (eq→== s.top s.max_items full) refl
  | no room ↦ rw (ne→== s.top s.max_items room) refl
]

pub pop-max_items : (s : FuncStack) → (func_stack_pop s).1.max_items ≡ s.max_items
unfolding func_stack_pop is_empty
pop-max_items s = elim (ℕ_discrete s.nr_items 0) [
  | yes empty ↦ rw (eq→== s.nr_items 0 empty) refl
  | no more ↦ rw (ne→== s.nr_items 0 more) refl
]
