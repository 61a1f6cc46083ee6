-- ===== src/Interp/Programs/Layout.antt =====
-- Where the code of a program and its variables stand in a machine, and the machines that have room
-- for it.
use cc_implementation.Word.{word_mod, add64}
use cc_implementation.Interp.Control.{offset_of}
use cc_implementation.Prelude.{
  ◌-◌, ◌⊎◌, ◌^◌, ◌∙◌, ℕ, zero, suc, ◌+◌, ◌<◌, ◌≤◌, length-append, ◌≡◌, arith, true, List, [], ◌∷◌,
  ◌++◌, some, get_elem?, get_or, length,
}
use native.Mathlib.Nat.{zero-add, suc-add}
use mathlib.Core.List.{append_assoc}
use mathlib.Core.Path.{subst}
use cc_implementation.Word.{slt64}
use cc_implementation.Word.Laws.{Fits63}
use cc_implementation.Profile.{Profile}
use cc_implementation.Interp.Machine.{Value, code, Fiber, Machine}
use cc_implementation.Interp.Memory.{val_int}
use cc_implementation.Interp.Memory.Laws.{get_elem?-append_length}
use cc_implementation.Interp.Programs.{deeper, int_range}

-- The words of `c` stand in the code from `pc` on.
abbrev pub At : List ℕ → ℕ → List ℕ → Type 0
At whole pc [] = Unit
At whole pc (w ∷ c) = (get_elem? whole pc ≡ some w) × At whole (pc + 1) c

pub At-pc : (whole c : List ℕ) {pc to : ℕ} → pc ≡ to → At whole pc c → At whole to c
At-pc whole c e a = subst (λ pc. At whole pc c) e a

pub At-append :
    (whole : List ℕ) (pc : ℕ) (c d : List ℕ)
    → At whole pc (c ++ d)
    → At whole pc c × At whole (pc + length c) d
At-append whole pc [] d a = (tt, At-pc whole d (omega arith) a)
At-append whole pc (w ∷ c) d (here, a) =
    let (left, right) = At-append whole (pc + 1) c d a in
    ((here, left), At-pc whole d (omega arith) right)

-- What stands after some code is there.
pub At-after : (before c : List ℕ) → At (before ++ c) (length before) c
At-after before [] = tt
At-after before (w ∷ c) = (
  get_elem?-append_length before w c,
  subst (λ whole. At whole (length before + 1) c) (append_assoc before (w ∷ []) c)
      (At-pc ((before ++ w ∷ []) ++ c) c (length-append before (w ∷ []))
        (At-after (before ++ w ∷ []) c)),
)

-- The variables have these values at these places of the stack.
abbrev pub Holds : List Value → List ℕ → List ℕ → Type 0
Holds s [] [] = Unit
Holds s [] (v ∷ vs) = ⊥
Holds s (o ∷ os) [] = ⊥
Holds s (o ∷ os) (v ∷ vs) = (get_elem? s o ≡ some (val_int v)) × (v < int_range) × Holds s os vs

get_elem?-under :
    (more s : List Value) (o : ℕ) → get_elem? (more ++ s) (length more + o) ≡ get_elem? s o
get_elem?-under [] s o = rw zero-add
get_elem?-under (x ∷ more) s o = rw suc-add (get_elem?-under more s o)

pub Holds-deeper :
    (more s : List Value) (os vs : List ℕ)
    → Holds s os vs
    → Holds (more ++ s) (deeper (length more) os) vs
Holds-deeper more s [] [] h = tt
Holds-deeper more s [] (v ∷ vs) h = absurd h
Holds-deeper more s (o ∷ os) [] h = absurd h
Holds-deeper more s (o ∷ os) (v ∷ vs) (there, lt, h) =
    (get_elem?-under more s o ∙ there, lt, Holds-deeper more s os vs h)

pub Holds-var :
    (s : List Value) (os vs : List ℕ) (i : ℕ)
    → Holds s os vs
    → i < length vs
    → (get_elem? s (get_or os i 0) ≡ some (val_int (get_or vs i 0))) × (get_or vs i 0 < int_range)
Holds-var s os [] i h lt = absurd (omega arith)
Holds-var s [] (v ∷ vs) i h lt = absurd h
Holds-var s (o ∷ os) (v ∷ vs) zero (there, fits, h) lt = (there, fits)
Holds-var s (o ∷ os) (v ∷ vs) (suc i) (there, fits, h) lt = Holds-var s os vs i h (omega arith)

pub found-lt : (s : List Value) (i : ℕ) (v : Value) → get_elem? s i ≡ some v → i < length s
found-lt [] i v h = cc
found-lt (x ∷ s) zero v h = omega arith
found-lt (x ∷ s) (suc i) v h = omega (arith, found-lt s i v h)

-- The words that PUSHTRAP pushes, with the link to the enclosing trap, and the machine that it leaves.
abbrev pub trap_words : ℕ → Machine → ℕ → List Value
trap_words link m n = code (add64 m.pc n) ∷ val_int link ∷ m.env ∷ val_int m.extra_args ∷ []

abbrev pub trapped : ℕ → Machine → ℕ → Machine
trapped link m n = record m {
  pc = m.pc + 1;
  stack = trap_words link m n ++ m.stack;
  trap_sp_off = offset_of (length (trap_words link m n ++ m.stack));
}

-- Offsets of a small stack, and its first words above.
abbrev pub IsNear : ℕ → Type 0
IsNear off = (off < 2 ^ 32) ⊎ ((word_mod - 2 ^ 32 ≤ off) × (off < word_mod))

-- The stack that runs has so many words at least.
abbrev pub HasRoom : Machine → ℕ → Type 0
HasRoom m n = (f : Fiber) × (get_elem? m.fibers m.current_stack ≡ some (some f)) × (n ≤ f.words)

-- Room for so many words on the stack, no less of them than at the entry of `caml_interprete`, and a
-- trap beyond the debugger's barrier.
pub record Ready (m : Machine) (room : ℕ) : Type 0 where
  pub space : length m.stack + room < 2 ^ 31
  pub room_left : HasRoom m (length m.stack + room)
  pub based : m.initial_stack_words ≤ length m.stack
  pub near : IsNear m.trap_sp_off
  pub fits_args : Fits63 m.extra_args
  pub barrier : m.trap_barrier_off < 2 ^ 63
  pub beyond : slt64 m.trap_sp_off m.trap_barrier_off ≡ true

-- Room under more words.
pub HasRoom-less : (m : Machine) (n k : ℕ) → HasRoom m n → k ≤ n → HasRoom m k
HasRoom-less m n k (f, running, fits) h = (f, running, omega arith)

-- It is enough for the machine with some of these words pushed, at the start of an instruction.
pub Ready-room :
    (m : Machine) (more : List Value) (room : ℕ)
    → Ready m room
    → length more ≤ room
    → HasRoom m (length (more ++ m.stack))
Ready-room m more room r h =
    HasRoom-less m (length m.stack + room) (length (more ++ m.stack)) r.room_left
      (omega (arith, length-append more m.stack))

pub Ready-later :
    (m : Machine) (more : List Value) (room less pc : ℕ) (a : Value) (q : Profile)
    → Ready m room
    → length more + less ≤ room
    → Ready (record m { pc = pc; accu = a; stack = more ++ m.stack; profile = q }) less
Ready-later m more room less pc a q r h = record {
  space = omega (arith, r.space, length-append more m.stack);
  room_left =
      HasRoom-less m (length m.stack + room) (length (more ++ m.stack) + less) r.room_left
        (omega (arith, length-append more m.stack));
  based = omega (arith, r.based, length-append more m.stack);
  near = r.near;
  fits_args = r.fits_args;
  barrier = r.barrier;
  beyond = r.beyond;
}

pub Ready-at :
    (m : Machine) (room less pc : ℕ) (a : Value) (q : Profile)
    → Ready m room
    → less ≤ room
    → Ready (record m { pc = pc; accu = a; profile = q }) less
Ready-at m room less pc a q r h = Ready-later m [] room less pc a q r (omega arith)

-- The machine that PUSHTRAP leaves has room for the code that it protects.
pub Ready-trapped :
    (link : ℕ) (m : Machine) (n room less : ℕ) (q : Profile)
    → Ready m room
    → less + 4 ≤ room
    → Ready (record (trapped link m n) { profile = q }) less
Ready-trapped link m n room less q r h = record {
  space = omega (arith, r.space);
  room_left =
      HasRoom-less m (length m.stack + room) (length (trap_words link m n ++ m.stack) + less)
        r.room_left (omega arith);
  based = omega (arith, r.based);
  near = ground (arith, r.space);
  fits_args = r.fits_args;
  barrier = r.barrier;
  beyond = ground (arith, r.space, r.barrier);
}
