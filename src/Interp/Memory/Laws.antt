-- ===== src/Interp/Memory/Laws.antt =====
-- Reading what was written: stacks, blocks and fields.
use native.Mathlib.Nat.{zero-add}
use cc_implementation.Prelude.{ℕ, ◌≡◌, refl, List, [], ◌∷◌, ◌++◌, length, some, get_elem?}
use cc_implementation.Interp.Machine.{Value, ptr, Block, Machine, Exec, ok, raised, fault, ◌>>=◌}
use cc_implementation.Interp.Memory.{drop, take, load}

pub drop-append {ℓ} : {A : Type ℓ} (xs ys : List A) → drop (length xs) (xs ++ ys) ≡ ok ys
drop-append [] ys = refl
drop-append (x ∷ xs) ys = drop-append xs ys

pub take-append {ℓ} : {A : Type ℓ} (xs ys : List A) → take (length xs) (xs ++ ys) ≡ ok xs
take-append [] ys = refl
take-append (x ∷ xs) ys = rw (take-append xs ys)

pub get_elem?-append_length {ℓ} :
    {A : Type ℓ} (xs : List A) (a : A) (ys : List A) → get_elem? (xs ++ a ∷ ys) (length xs) ≡ some a
get_elem?-append_length [] a ys = refl
get_elem?-append_length (x ∷ xs) a ys = get_elem?-append_length xs a ys

-- The field after `before`, in a block of the heap.
pub load-block :
    (m : Machine) (b i : ℕ) (block : Block) (before : List Value) (v : Value) (rest : List Value)
    → get_elem? m.heap b ≡ some block
    → block.fields ≡ before ++ v ∷ rest
    → i ≡ length before
    → load m (ptr b 0) i ≡ ok v
load-block m b i block before v rest hb hf hi =
    rw (hb, hf, hi, zero-add, get_elem?-append_length before v rest)

-- What comes before and what comes after, where both end well.
pub split {ℓ κ μ} :
    {A : Type ℓ} {B : Type κ} {C : Type μ} (e : Exec A) (f : A → Exec B) (b : B)
    → (e >>= f) ≡ ok b
    → ((a : A) → e ≡ ok a → f a ≡ ok b → C)
    → C
split (ok a) f b h k = k a refl h
split (raised v m) f b h k = cc
split fault f b h k = cc
