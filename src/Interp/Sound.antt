-- ===== src/Interp/Sound.antt =====
-- The state invariant of the interpreter: no word in the machine points outside its heap or names a
-- stack that does not exist. What an operation may change, and what it may raise.
pub mod Access
pub mod Store
pub mod Basic
pub mod Runtime
pub mod Frames
pub mod Control
pub mod Apply
pub mod Ints
pub mod Blocks
pub mod Alloc
pub mod Objects
pub mod Effects
pub mod Perform
pub mod Dispatch
pub mod Step
pub mod Runs
pub mod Counters
use cc_implementation.Prelude.{
  ℕ, ◌≤◌, ◌<◌, ◌≡◌, refl, sym, ◌∙◌, arith, List, [], ◌∷◌, ◌++◌, Option, none, some, length,
}
use cc_implementation.Profile.{Profile}
use cc_implementation.Interp.Machine.{
  Value, word, ptr, atom, code, fiber, Block, Fiber, Machine, Exec, ok, raised, fault, ◌>>=◌,
}

-- A word, in a store of `h` blocks and `n` stacks.
abbrev pub IsLive : ℕ → ℕ → Value → Type 0
IsLive h n (word w) = Unit
IsLive h n (ptr b o) = b < h
IsLive h n (atom tag) = Unit
IsLive h n (code pc) = Unit
IsLive h n (fiber i) = i < n

abbrev pub All {ℓ κ} : {A : Type ℓ} → (A → Type κ) → List A → Type κ
All P [] = Unit
All P (x ∷ xs) = P x × All P xs

abbrev pub ParentIsLive : ℕ → Option ℕ → Type 0
ParentIsLive n none = Unit
ParentIsLive n (some i) = i < n

-- A stack that is not freed.
pub record FiberIsLive (h n : ℕ) (f : Fiber) : Type 0 where
  pub saved : All (IsLive h n) f.saved
  pub parent : ParentIsLive n f.parent
  pub handle_value : IsLive h n f.handle_value
  pub handle_exn : IsLive h n f.handle_exn
  pub handle_effect : IsLive h n f.handle_effect

abbrev pub SlotIsLive : ℕ → ℕ → Option Fiber → Type 0
SlotIsLive h n none = Unit
SlotIsLive h n (some f) = FiberIsLive h n f

-- The blocks and the stacks.
abbrev pub StoreIsLive : List Block → List (Option Fiber) → Type 0
StoreIsLive heap fibers =
    All (λ (b : Block). All (IsLive (length heap) (length fibers)) b.fields) heap
    × All (SlotIsLive (length heap) (length fibers)) fibers

-- A word, in the store of a machine.
abbrev pub Live : Machine → Value → Type 0
Live m v = IsLive (length m.heap) (length m.fibers) v

abbrev pub AllLive : Machine → List Value → Type 0
AllLive m vs = All (IsLive (length m.heap) (length m.fibers)) vs

-- Every word of the machine is live: in the blocks and the stacks, on the stack that runs, in the
-- registers, and in the roots; and the stack that runs is one of the stacks.
abbrev pub IsClosed : Machine → Type 0
IsClosed m =
    StoreIsLive m.heap m.fibers
    × AllLive m m.stack
    × Live m m.accu
    × Live m m.env
    × (Live m m.global_data × Live m m.raise_unhandled × (m.current_stack < length m.fibers))

-- What is kept of the counters.
pub record Holds (p : Profile → Type 0) (q : Profile) : Type 0 where
  pub holds : p q

-- What an operation leaves that began with `h` blocks and `n` stacks: a closed machine with at
-- least as many blocks and stacks, and counters that satisfy `p`.
abbrev pub Kept : ℕ → ℕ → (Profile → Type 0) → Machine → Type 0
Kept h n p r = IsClosed r × (h ≤ length r.heap) × (n ≤ length r.fibers) × Holds p r.profile

-- The outcome of such an operation: its result satisfies `P`, or it raises a live word in a machine
-- that it has kept, or it is a fault.
pub data Post {ℓ κ} {A : Type ℓ} (h n : ℕ) (p : Profile → Type 0) (P : A → Type κ)
    : Exec A → Type (ℓ ⊔ κ) where
  returns : (a : A) → P a → Post h n p P (ok a)
  raises : (v : Value) (r : Machine) → Live r v → Kept h n p r → Post h n p P (raised v r)
  faults : Post h n p P fault

-- An operation on a machine keeps it.
abbrev pub Keeps : (Profile → Type 0) → Machine → Exec Machine → Type 0
Keeps p m e = Post (length m.heap) (length m.fibers) p (Kept (length m.heap) (length m.fibers) p) e

module _ {h n : ℕ} {p : Profile → Type 0} where
  pub bind {ℓ κ μ ν} :
      {A : Type ℓ} {B : Type κ} {P : A → Type μ} {Q : B → Type ν} {e : Exec A} {f : A → Exec B}
      → Post h n p P e
      → ((a : A) → P a → Post h n p Q (f a))
      → Post h n p Q (e >>= f)
  bind (returns a l) next = next a l
  bind (raises v r l k) next = raises v r l k
  bind faults next = faults

IsLive-mono : (h n k j : ℕ) (v : Value) → h ≤ k → n ≤ j → IsLive h n v → IsLive k j v
IsLive-mono h n k j (word w) hk nj l = tt
IsLive-mono h n k j (ptr b o) hk nj l = omega arith
IsLive-mono h n k j (atom tag) hk nj l = tt
IsLive-mono h n k j (code pc) hk nj l = tt
IsLive-mono h n k j (fiber i) hk nj l = omega arith

pub All-mono {ℓ κ μ} :
    {A : Type ℓ} {P : A → Type κ} {Q : A → Type μ} (xs : List A)
    → ((a : A) → P a → Q a)
    → All P xs
    → All Q xs
All-mono [] h p = tt
All-mono (x ∷ xs) h p = (h x p.0, All-mono xs h p.1)

-- What was live stays live.
pub Live-later :
    (m r : Machine) (v : Value)
    → length m.heap ≤ length r.heap
    → length m.fibers ≤ length r.fibers
    → Live m v
    → Live r v
Live-later m r v hk nj l = IsLive-mono _ _ _ _ v hk nj l

pub AllLive-later :
    (m r : Machine) (vs : List Value)
    → length m.heap ≤ length r.heap
    → length m.fibers ≤ length r.fibers
    → AllLive m vs
    → AllLive r vs
AllLive-later m r vs hk nj l = All-mono vs (λ v. Live-later m r v hk nj) l

module _ {h n : ℕ} {p : Profile → Type 0} where
  pub Kept-refl : (m : Machine) → Kept h n p m → Kept (length m.heap) (length m.fibers) p m
  Kept-refl m k = (k.0, omega arith, omega arith, k.3)

  pub Kept-trans :
      (m r : Machine) → Kept h n p m → Kept (length m.heap) (length m.fibers) p r → Kept h n p r
  Kept-trans m r k s = (s.0, omega arith, omega arith, s.3)

  -- An operation on a machine that was kept.
  pub Keeps-Post {ℓ κ} :
      {A : Type ℓ} {P Q : A → Type κ} (m : Machine) {e : Exec A}
      → Kept h n p m
      → Post (length m.heap) (length m.fibers) p P e
      → ((a : A) → P a → Q a)
      → Post h n p Q e
  Keeps-Post m k (returns a l) f = returns a (f a l)
  Keeps-Post m k (raises v r l s) f = raises v r l (Kept-trans m r k s)
  Keeps-Post m k faults f = faults

  -- It may count from this machine what it keeps.
  pub own :
      (m : Machine) {e : Exec Machine} → Kept h n p m → Keeps p m e → Post h n p (Kept h n p) e
  own m k l = Keeps-Post m k l (λ r kr. Kept-trans m r k kr)
