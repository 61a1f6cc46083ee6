-- ===== src/FuncStack/Refine.antt =====
-- The function stack against a bounded last-in first-out list.
use native.Mathlib.Decide.{ℕ_discrete}
use cc_implementation.Prelude.{
  ℕ, zero, suc, ◌-◌, ◌≤◌, ◌<◌, ◌≡◌, ◌≢◌, refl, ap, arith, List, [], ◌∷◌, length, get_or, set, Bool,
  true, false, ◌==◌, if◌then◌else◌, get_or-set_self, get_or-set_ne, eq→==, ne→==,
}
use cc_implementation.FuncStack.{FuncStack, func_stack_push, func_stack_pop, peek, add64}
use cc_implementation.FuncStack.Laws.{IsValid, push-IsValid, pop-IsValid}

-- The first `n` entries, the last one first.
abbrev pub items : List ℕ → ℕ → List ℕ
items xs zero = []
items xs (suc n) = get_or xs n 0 ∷ items xs n

abbrev pub contents : FuncStack → List ℕ
contents s = items s.stack_data s.top

-- What a caller asks of the stack, and what it is answered: a status, and an address.
pub data Op : Type 0 where
  push : ℕ → Op
  pop look : Op

abbrev pub Reply : Type 0
Reply = Bool × ℕ

unfoldable pub run : FuncStack → List Op → List Reply
run s [] = []
run s (push pc ∷ ops) = let (r, s') = func_stack_push s pc in (r, 0) ∷ run s' ops
run s (pop ∷ ops) = let (pc, s') = func_stack_pop s in (true, pc) ∷ run s' ops
run s (look ∷ ops) = (true, peek s) ∷ run s ops

-- The operations on a list of at most `n` addresses, the newest first.
unfoldable pub list_push : ℕ → List ℕ → ℕ → Bool × List ℕ
list_push n xs pc = if length xs == n then (false, xs) else (true, pc ∷ xs)

unfoldable pub list_pop : List ℕ → ℕ × List ℕ
list_pop [] = (0, [])
list_pop (x ∷ xs) = (x, xs)

unfoldable pub lifo : ℕ → List ℕ → List Op → List Reply
lifo n xs [] = []
lifo n xs (push pc ∷ ops) = let (r, ys) = list_push n xs pc in (r, 0) ∷ lifo n ys ops
lifo n xs (pop ∷ ops) = let (pc, ys) = list_pop xs in (true, pc) ∷ lifo n ys ops
lifo n xs (look ∷ ops) = (true, (list_pop xs).0) ∷ lifo n xs ops

length-items : (xs : List ℕ) (n : ℕ) → length (items xs n) ≡ n
length-items xs zero = refl
length-items xs (suc n) = ap suc (length-items xs n)

items-set : (xs : List ℕ) (n i v : ℕ) → n ≤ i → items (set xs i v) n ≡ items xs n
items-set xs zero i v h = refl
items-set xs (suc n) i v h =
    ground (arith, items-set xs n i v, get_or-set_ne xs i n v 0 (omega arith))

-- `items` matches on `suc`, the code tests for 0 and subtracts 1.
items-pred : (xs : List ℕ) (n : ℕ) → n ≢ 0 → items xs n ≡ get_or xs (n - 1) 0 ∷ items xs (n - 1)
items-pred xs zero h = absurd (h refl)
items-pred xs (suc n) h = ap (λ k. get_or xs k 0 ∷ items xs k) (omega arith)

push-accepted :
    (s : FuncStack) (pc : ℕ)
    → IsValid s
    → s.top ≢ s.max_items
    → items (set s.stack_data s.top pc) (add64 s.top 1) ≡ pc ∷ contents s
push-accepted s pc v ne =
    let next : add64 s.top 1 ≡ suc s.top = omega (arith, v.within, v.small) in
    let room : s.top < length s.stack_data = omega (arith, v.within, v.storage) in
    rw (next, get_or-set_self s.stack_data s.top pc 0 room)
      (ap (λ t. pc ∷ t) (items-set s.stack_data s.top s.top pc (omega arith)))

pub push-list_push :
    (s : FuncStack) (pc : ℕ)
    → IsValid s
    → let (r, s') = func_stack_push s pc in (r, contents s') ≡ list_push s.max_items (contents s) pc
unfolding func_stack_push list_push
push-list_push s pc v = elim (ℕ_discrete s.top s.max_items) [
  | yes full ↦ rw (length-items, eq→== s.top s.max_items full)
  | no room ↦
      rw (length-items, ne→== s.top s.max_items room)
        (ap (λ t. (true, t)) (push-accepted s pc v room))
]

pub pop-list_pop :
    (s : FuncStack)
    → IsValid s
    → let (pc, s') = func_stack_pop s in (pc, contents s') ≡ list_pop (contents s)
unfolding func_stack_pop list_pop
pop-list_pop s v = ground (arith, items-pred s.stack_data s.top)

pub peek-list_pop : (s : FuncStack) → IsValid s → peek s ≡ (list_pop (contents s)).0
unfolding peek list_pop
peek-list_pop s v = ground (arith, items-pred s.stack_data s.top)

max_items-push : (s : FuncStack) (pc : ℕ) → (func_stack_push s pc).1.max_items ≡ s.max_items
unfolding func_stack_push
max_items-push s pc = ground arith

max_items-pop : (s : FuncStack) → (func_stack_pop s).1.max_items ≡ s.max_items
unfolding func_stack_pop
max_items-pop s = ground arith

-- No sequence of calls tells a valid function stack from the bounded list of its entries: pushes
-- are accepted exactly below the capacity, and pop and peek give the newest entry, or 0 if there
-- is none.
pub run-lifo :
    (ops : List Op) (s : FuncStack) → IsValid s → run s ops ≡ lifo s.max_items (contents s) ops
unfolding run lifo
run-lifo [] s v = refl
run-lifo (push pc ∷ ops) s v = rw (
  run-lifo ops (func_stack_push s pc).1 (push-IsValid s pc v),
  max_items-push,
  ← push-list_push s pc v,
)
run-lifo (pop ∷ ops) s v =
    rw (run-lifo ops (func_stack_pop s).1 (pop-IsValid s v), max_items-pop, ← pop-list_pop s v)
run-lifo (look ∷ ops) s v = rw (run-lifo ops s v, peek-list_pop s v)
