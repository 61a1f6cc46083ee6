-- ===== src/Interp/Programs/Steps.antt =====
-- What a piece of code comes to, and how the pieces of a program are put together.
use mathlib.Core.Path.{subst}
use mathlib.Core.List.{append_assoc}
use cc_implementation.Prelude.{
  ℕ, Bool, if◌then◌else◌, ◌<◌, ◌≡◌, sym, List, ◌++◌, some, get_elem?, length,
}
use cc_implementation.Profile.{Profile, first_unimplemented_op}
use cc_implementation.Interp.Machine.{Value, Machine, Exec, ok, Signal, next}
use cc_implementation.Interp.Memory.{val_int, skip}
use cc_implementation.Interp.Opcodes.{Opcode, decode}
use cc_implementation.Interp.Programs.Engine.{Engine}
use cc_implementation.Interp.Programs.Layout.{HasRoom}
use cc_implementation.Interp.Programs.{Outcome, value, exn, int_range, ◌>>=◌, handle}

-- The machine `m` further on, with the integer `v` in the accumulator.
abbrev pub reaching : Machine → ℕ → ℕ → Profile → Machine
reaching m pc v q = record m { pc = pc; accu = val_int v; profile = q }

-- The machine `m` at `raise_notrace`, with more words on the stack and the exception `w`.
abbrev pub raising : Machine → List Value → ℕ → ℕ → Profile → Machine
raising m above pc w q = record m {
  pc = pc;
  accu = val_int w;
  stack = above ++ m.stack;
  profile = q;
}

-- Whole rounds: from one machine to the next by an instruction.
pub data Steps (step : Machine → Exec Signal) : Exec Signal → Exec Signal → Type 0 where
  here : {e : Exec Signal} → Steps step e e
  round : {m : Machine} {e : Exec Signal} → Steps step (step m) e → Steps step (ok (next m)) e

-- The rounds from `e` come to an outcome: with a value to `m` at `pc`, with an exception to `m` at
-- `raise_notrace`.
abbrev pub Leads : Engine → Exec Signal → Machine → ℕ → Outcome → Type 0
Leads en e m pc (value v) =
    (q : Profile) × (v < int_range) × en.Kept q × Steps en.step e (ok (next (reaching m pc v q)))
Leads en e m pc (exn w) =
    (q : Profile) × (at : ℕ) × (above : List Value) × (w < int_range)
    × en.Kept q
    × Steps en.step e (en.raise_notrace (raising m above at w q))

module _ (en : Engine) where
  Steps-trans : {a b c : Exec Signal} → Steps en.step a b → Steps en.step b c → Steps en.step a c
  Steps-trans here r = r
  Steps-trans (round l) r = round (Steps-trans l r)

  pub Leads-first :
      (a b : Exec Signal) (m : Machine) (pc : ℕ) (o : Outcome)
      → Steps en.step a b
      → Leads en b m pc o
      → Leads en a m pc o
  Leads-first a b m pc (value v) l (q, lt, c, r) = (q, lt, c, Steps-trans l r)
  Leads-first a b m pc (exn w) l (q, at, above, lt, c, r) = (q, at, above, lt, c, Steps-trans l r)

  -- A part that runs with more words on the stack, and then the rest of a piece of code.
  pub Leads-bind :
      (e : Exec Signal) (m : Machine) (more : List Value) (pc end : ℕ) (o : Outcome)
      (f : ℕ → Outcome)
      → Leads en e (record m { stack = more ++ m.stack }) pc o
      → ((v : ℕ) (q : Profile)
          → v < int_range
          → en.Kept q
          → Leads en
              (ok (next (reaching (record m { stack = more ++ m.stack }) pc v q)))
              m
              end
              (f v))
      → Leads en e m end (o >>= f)
  Leads-bind e m more pc end (value v) f (q, lt, c, r) rest =
      Leads-first e (ok (next (reaching (record m { stack = more ++ m.stack }) pc v q))) m end (f v)
        r (rest v q lt c)
  Leads-bind e m more pc end (exn w) f (q, at, above, lt, c, r) rest = (
    q,
    at,
    above ++ more,
    lt,
    c,
    subst
        (λ s.
          Steps en.step e
            (en.raise_notrace (record m { pc = at; accu = val_int w; stack = s; profile = q })))
        (sym (append_assoc above more m.stack)) r,
  )

  -- One round of valid code.
  pub fire :
      (m : Machine) (n : ℕ) (op : Opcode) (r : Profile → Exec Signal) (to : Machine) (pc : ℕ)
      (o : Outcome)
      → get_elem? m.code m.pc ≡ some n
      → decode n ≡ some op
      → n < first_unimplemented_op
      → HasRoom m (length m.stack)
      → en.Kept m.profile
      → ((q : Profile) → en.instruction op (skip (record m { profile = q })) ≡ r q)
      → ((q : Profile) → en.Kept q → Leads en (r q) to pc o)
      → Leads en (ok (next m)) to pc o
  fire m n op r to pc o at known valid inside c does rest =
      let (q, k, e) = en.stepped m n op r at known valid inside c does in
      Leads-first (ok (next m)) (r q) to pc o (round (subst (Steps en.step (en.step m)) e here))
        (rest q k)

  -- The program counter, the accumulator and the counters of `m` do not matter.
  pub Leads-reset :
      (e : Exec Signal) (m : Machine) (at : ℕ) (a : Value) (q : Profile) (pc : ℕ) (o : Outcome)
      → Leads en e (record m { pc = at; accu = a; profile = q }) pc o
      → Leads en e m pc o
  Leads-reset e m at a q pc (value v) l = l
  Leads-reset e m at a q pc (exn w) l = l

  pub Leads-pc :
      (e : Exec Signal) (m : Machine) (o : Outcome) {pc to : ℕ}
      → pc ≡ to
      → Leads en e m pc o
      → Leads en e m to o
  Leads-pc e m o same l = subst (λ pc. Leads en e m pc o) same l

  -- A value that has been reached.
  pub arrived :
      (m : Machine) (pc v : ℕ) (q : Profile)
      → v < int_range
      → en.Kept q
      → Leads en (ok (next (reaching m pc v q))) m pc (value v)
  arrived m pc v q fits c = (q, fits, c, here)

  pub Leads-from :
      {a b : Exec Signal} (m : Machine) (pc : ℕ) (o : Outcome)
      → a ≡ b
      → Leads en b m pc o
      → Leads en a m pc o
  Leads-from m pc o same l = subst (λ e. Leads en e m pc o) (sym same) l

  -- The last part of a piece of code that works with more words on the stack.
  pub Leads-last :
      (e : Exec Signal) (m : Machine) (more : List Value) (pc end : ℕ) (o : Outcome)
      → Leads en e (record m { stack = more ++ m.stack }) pc o
      → ((v : ℕ) (q : Profile)
          → v < int_range
          → en.Kept q
          → Leads en
              (ok (next (reaching (record m { stack = more ++ m.stack }) pc v q)))
              m
              end
              (value v))
      → Leads en e m end o
  Leads-last e m more pc end (value v) l rest = Leads-bind e m more pc end (value v) value l rest
  Leads-last e m more pc end (exn w) l rest = Leads-bind e m more pc end (exn w) value l rest

  -- A part that runs in the machine `t`, under a trap.
  pub Leads-handle :
      (e : Exec Signal) (m t : Machine) (pc end : ℕ) (o : Outcome) (h : ℕ → Outcome)
      → Leads en e t pc o
      → ((v : ℕ) (q : Profile)
          → v < int_range
          → en.Kept q
          → Leads en (ok (next (reaching t pc v q))) m end (value v))
      → ((w at : ℕ) (q : Profile) (above : List Value)
          → w < int_range
          → en.Kept q
          → Leads en (en.raise_notrace (raising t above at w q)) m end (h w))
      → Leads en e m end (handle o h)
  Leads-handle e m t pc end (value v) h (q, lt, c, r) normal caught =
      Leads-first e (ok (next (reaching t pc v q))) m end (value v) r (normal v q lt c)
  Leads-handle e m t pc end (exn w) h (q, at, above, lt, c, r) normal caught =
      Leads-first e (en.raise_notrace (raising t above at w q)) m end (h w) r
        (caught w at q above lt c)

  pub Leads-choice :
      (e : Exec Signal) (m : Machine) (pc : ℕ) (a b : Outcome) (test side : Bool)
      → test ≡ side
      → Leads en e m pc (if side then a else b)
      → Leads en e m pc (if test then a else b)
  Leads-choice e m pc a b test side same l =
      subst (λ t. Leads en e m pc (if t then a else b)) (sym same) l
