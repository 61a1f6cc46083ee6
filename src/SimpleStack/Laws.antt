-- ===== src/SimpleStack/Laws.antt =====
-- simple-stack.c against a list of integers, the top one first.
use native.Mathlib.Decide.{dec_lt}
use native.Mathlib.Numerals.{add-one}
use cc_implementation.Prelude.{◌⊎◌, inl, inr}
use cc_implementation.Prelude.{
  ℕ, zero, suc, ◌+◌, ◌-◌, ◌*◌, ◌%◌, ◌<◌, ◌≤◌, ◌≡◌, refl, arith, true, List, [], ◌∷◌, Option, none,
  some, get_elem?, get_or, set, length, length-set, ap, ◌∙◌, ltb, get_or-set_self, get_or-set_ne,
  ne→==,
}
use cc_implementation.SimpleStack.{State, stack_size, int_mod, push, pop, add, mult, dup, ◌>>=◌}

-- The first `n` words, the last one first.
abbrev pub words : List ℕ → ℕ → List ℕ
words xs zero = []
words xs (suc n) = get_or xs n 0 ∷ words xs n

abbrev pub contents : State → List ℕ
contents s = words s.size s.depth

pub record IsValid (s : State) : Type 0 where
  pub storage : length s.size ≡ stack_size
  pub within : s.depth ≤ stack_size

get_elem?-eq : (xs : List ℕ) (i : ℕ) → i < length xs → get_elem? xs i ≡ some (get_or xs i 0)
get_elem?-eq [] i h = absurd (omega arith)
get_elem?-eq (x ∷ xs) zero h = refl
get_elem?-eq (x ∷ xs) (suc i) h = get_elem?-eq xs i (omega arith)

words-set : (xs : List ℕ) (n i v : ℕ) → n ≤ i → words (set xs i v) n ≡ words xs n
words-set xs zero i v h = refl
words-set xs (suc n) i v h =
    ground (arith, words-set xs n i v, get_or-set_ne xs i n v 0 (omega arith))

-- A state that a command ends in: valid, with these integers on its stack.
abbrev pub Leaves : Option State → List ℕ → Type 0
Leaves o xs = (r : State) × (o ≡ some r) × IsValid r × (contents r ≡ xs)

push-Leaves :
    (x : ℕ) (s : State) → IsValid s → s.depth < stack_size → Leaves (push x s) (x ∷ contents s)
unfolding push
push-Leaves x s v h =
    let room : s.depth < length s.size = omega (arith, v.storage) in
    let test : ltb s.depth (length s.size) ≡ true = ground arith in
    let top : get_or (set s.size s.depth x) s.depth 0 ≡ x =
      get_or-set_self s.size s.depth x 0 room in
    (
      record s { size = set s.size s.depth x; depth = s.depth + 1 },
      rw test,
      record { storage = length-set s.size s.depth x ∙ v.storage; within = omega arith },
      rw (add-one, top) (ap (λ t. x ∷ t) (words-set s.size s.depth s.depth x (omega arith))),
    )

push-overflow : (x : ℕ) (s : State) → IsValid s → s.depth ≡ stack_size → push x s ≡ none
unfolding push
push-overflow x s v h = ground (arith, v.storage)

words-suc : (xs : List ℕ) (n : ℕ) → 0 < n → words xs n ≡ get_or xs (n - 1) 0 ∷ words xs (n - 1)
words-suc xs zero h = absurd (omega arith)
words-suc xs (suc n) h = ap (λ k. get_or xs k 0 ∷ words xs k) (omega arith)

pop_lem :
    (s : State)
    → IsValid s
    → 0 < s.depth
    → pop s ≡ some (get_or s.size (s.depth - 1) 0, record s { depth = s.depth - 1 })
unfolding pop
pop_lem s v h =
    rw (ne→== s.depth 0 (omega arith), get_elem?-eq s.size (s.depth - 1) (omega (arith, v.storage)))

-- `dup` pushes the oldest integer of the stack, not the newest: on a valid state that is neither
-- empty nor full it leaves the word at index 0 on top of the old contents. So it duplicates the top
-- of the stack exactly when the top equals the bottom.
pub dup-bottom :
    (s : State)
    → IsValid s
    → 0 < s.depth
    → s.depth < stack_size
    → Leaves (dup s) (get_or s.size 0 0 ∷ contents s)
unfolding dup
dup-bottom s v h room =
    rw (get_elem?-eq s.size 0 (omega (arith, v.storage))) (push-Leaves (get_or s.size 0 0) s v room)

binary-Leaves :
    (f : ℕ → ℕ → ℕ) (s : State)
    → IsValid s
    → 2 ≤ s.depth
    → Leaves (pop s >>= λ p. pop p.1 >>= λ q. push (f p.0 q.0) q.1) (
        f (get_or s.size (s.depth - 1) 0) (get_or s.size (s.depth - 2) 0)
        ∷ words s.size (s.depth - 2))
binary-Leaves f s v h =
    let s₁ = record s { depth = s.depth - 1 } in
    let v₁ : IsValid s₁ = record { storage = v.storage; within = omega arith } in
    let less : s.depth - 1 - 1 ≡ s.depth - 2 = omega arith in
    let s₂ = record s { depth = s.depth - 2 } in
    let v₂ : IsValid s₂ = record { storage = v.storage; within = omega arith } in
    rw (pop_lem s v (omega arith), pop_lem s₁ v₁ (omega arith), less)
      (push-Leaves (f (get_or s.size (s.depth - 1) 0) (get_or s.size (s.depth - 2) 0)) s₂ v₂
        (omega arith))

-- On a valid state `push` adds the integer on top and keeps the state valid, unless 32 integers are
-- there: then it writes outside the array, as it makes no check.
pub push-contents :
    (x : ℕ) (s : State)
    → IsValid s
    → ((s.depth < stack_size) × Leaves (push x s) (x ∷ contents s))
      ⊎ ((s.depth ≡ stack_size) × (push x s ≡ none))
push-contents x s v = elim (dec_lt s.depth stack_size) [
  | yes h ↦ inl (h, push-Leaves x s v h)
  | no h ↦
      let full : s.depth ≡ stack_size = omega (arith, v.within) in
      inr (full, push-overflow x s v full)
]

-- What two integers on top say of the representation.
record TopTwo (xs : List ℕ) (n a b : ℕ) (rest : List ℕ) : Type 0 where
  deep : 2 ≤ n
  first : get_or xs (n - 1) 0 ≡ a
  second : get_or xs (n - 2) 0 ≡ b
  others : words xs (n - 2) ≡ rest

top_two :
    (xs : List ℕ) (n a b : ℕ) (rest : List ℕ) → words xs n ≡ a ∷ (b ∷ rest) → TopTwo xs n a b rest
top_two xs zero a b rest h = cc
top_two xs (suc zero) a b rest h = cc
top_two xs (suc (suc n)) a b rest h =
    let one : suc (suc n) - 1 ≡ suc n = omega arith in
    let two : suc (suc n) - 2 ≡ n = omega arith in
    record { deep = omega arith; first = rw one (cc); second = rw two (cc); others = rw two (cc) }

-- On a valid state with two integers on top, `add` and `mult` replace them by their sum and their
-- product modulo 2^32, keep the rest, and keep the state valid.
pub arithmetic-contents :
    (s : State) (a b : ℕ) (rest : List ℕ)
    → IsValid s
    → contents s ≡ a ∷ (b ∷ rest)
    → Leaves (add s) ((a + b) % int_mod ∷ rest) × Leaves (mult s) ((a * b) % int_mod ∷ rest)
unfolding add mult
arithmetic-contents s a b rest v h =
    let t = top_two s.size s.depth a b rest h in
    (
      rw (t.first, t.second, t.others) at (binary-Leaves (λ x y. (x + y) % int_mod) s v t.deep),
      rw (t.first, t.second, t.others) at (binary-Leaves (λ x y. (x * y) % int_mod) s v t.deep),
    )
