-- ===== src/Interp/Sound/Runtime.antt =====
-- What the runtime system, the C primitives and the counters keep.
use cc_implementation.Prelude.{ℕ, Bool, List, ◌≡◌, done}
use cc_implementation.Profile.{Profile, enter, leave}
use cc_implementation.Interp.Machine.{Value, Machine, Signal, next, returned, uncaught}
use cc_implementation.Interp.Runtime.{Runtime}
use cc_implementation.Interp.Sound.{IsClosed, Live, AllLive, Kept, Post}

-- A word and the machine that it comes with.
abbrev pub KeptWith : ℕ → ℕ → (Profile → Type 0) → Value × Machine → Type 0
KeptWith h n p q = Live q.1 q.0 × Kept h n p q.1

-- The end of an instruction: whatever it returns is live.
abbrev pub Ends : ℕ → ℕ → (Profile → Type 0) → Signal → Type 0
Ends h n p (next m) = Kept h n p m
Ends h n p (returned v m) = Live m v × Kept h n p m
Ends h n p (uncaught v m) = Live m v × Kept h n p m

-- The runtime system and the primitives hold no word that points outside the heap, never take away
-- a block or the record of a stack, and leave the counters alone. They may raise, and primitives may
-- change all blocks, stacks and registers.
pub record IsSound (rt : Runtime) (p : Profile → Type 0) : Type 0 where
  pub primitive :
      (h n i : ℕ) (args : List Value) (m : Machine)
      → Kept h n p m
      → AllLive m args
      → Post h n p (KeptWith h n p) (rt.primitive i args m)
  pub process_pending_actions :
      (h n : ℕ) (m : Machine)
      → Kept h n p m
      → Post h n p (Kept h n p) (rt.process_pending_actions m)
  pub stash_backtrace :
      (h n : ℕ) (reraise : Bool) (m : Machine)
      → Kept h n p m
      → Kept h n p (rt.stash_backtrace reraise m)
  pub debugger : (h n event : ℕ) (m : Machine) → Kept h n p m → Kept h n p (rt.debugger event m)
  pub continuation_use :
      (h n : ℕ) (v : Value) (m : Machine)
      → Kept h n p m
      → Live m v
      → Post h n p (KeptWith h n p) (rt.continuation_use v m)
  pub stack_overflow : (m : Machine) → IsClosed m → Live m (rt.stack_overflow m)
  pub zero_divide : (m : Machine) → IsClosed m → Live m (rt.zero_divide m)

-- The bookkeeping of calls and of returns keeps `p`.
pub record IsKept (rt : Runtime) (p : Profile → Type 0) : Type 0 where
  pub enters :
      (m : Machine) (q : Profile) (pc : ℕ) (r : Profile)
      → p q
      → enter (rt.malloc_granted m) (rt.calloc_granted m) q pc ≡ done r
      → p r
  pub leaves : (q : Profile) → p q → p (leave q)
