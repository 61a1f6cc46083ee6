-- ===== src/Interp/Sound/Runs.antt =====
-- Whole runs of the interpreter: every word stays live, and the counters have a history.
use cc_implementation.Prelude.{ℕ, zero, suc, ◌≡◌, ◌≢◌, ◌<◌, List, [], ◌∷◌, done, arith, ltb, false}
use mathlib.Core.Path.{subst}
use cc_implementation.Profile.{Profile, count_opcode, first_unimplemented_op}
use cc_implementation.Profile.History.{Event, after, dispatches, valid}
use cc_implementation.Interp.Machine.{
  Value, Machine, Exec, ok, raised, fault, Signal, next, returned, uncaught,
}
use cc_implementation.Interp.Runtime.{Runtime}
use cc_implementation.Interp.Step.{run, step}
use cc_implementation.Interp.Control.{landing}
use cc_implementation.Interp.Sound.{Post, returns, raises}
use cc_implementation.Interp.Sound.Runtime.{Ends, IsSound, IsKept}
use cc_implementation.Interp.Sound.Step.{step-Post, fetched}
use cc_implementation.Interp.Sound.Control.{landing-Post}

-- Counters that a history of calls, returns and dispatches leads to, in which these opcodes were
-- dispatched, as far as they are valid.
pub record Reached (p : Profile) (os : List ℕ) (q : Profile) : Type 0 where
  pub events : List Event
  pub leads : after events p ≡ done q
  pub same : dispatches events ≡ valid os

-- An opcode that is not valid is not counted.
pub ignored :
    (o : ℕ) (q r : Profile)
    → ¬ (o < first_unimplemented_op)
    → count_opcode q o ≡ done r
    → done q ≡ done r
unfolding count_opcode
ignored o q r over e =
    let test : ltb o first_unimplemented_op ≡ false = ground arith in rw test at e

fault≢ok : {s : Signal} → fault ≢ ok s
fault≢ok e = cc

-- What the dispatch loop comes to from `e`, by whole rounds, with the opcodes that they fetched, the
-- newest first: from one machine to the next by an instruction, and from an exception that C code
-- raises by its landing at the `sigsetjmp`.
pub data Rounds (rt : Runtime) (e : Exec Signal) : List ℕ → Exec Signal → Type 0 where
  here : Rounds rt e [] e
  round :
      {os : List ℕ} {m : Machine}
      → Rounds rt e os (ok (next m))
      → Rounds rt e (fetched m ∷ os) (step rt m)
  land :
      {os : List ℕ} {v : Value} {m : Machine}
      → Rounds rt e os (raised v m)
      → Rounds rt e os (landing rt v m)

-- A predicate of the counters that goes along with the opcodes holds after the rounds.
module _ {h n : ℕ} {e : Exec Signal} (P : List ℕ → Profile → Type 0) (rt : Runtime)
    (sound : (os : List ℕ) → IsSound rt (P os)) (books : (os : List ℕ) → IsKept rt (P os))
    (counts : (os : List ℕ) (q : Profile) (o : ℕ) (r : Profile)
      → P os q
      → count_opcode q o ≡ done r
      → P (o ∷ os) r)
    (first : Post h n (P []) (Ends h n (P [])) e) where
  round-Post :
      (os : List ℕ) (m : Machine)
      → Post h n (P os) (Ends h n (P os)) (ok (next m))
      → Post h n (P (fetched m ∷ os)) (Ends h n (P (fetched m ∷ os))) (step rt m)
  round-Post os _ (returns (next m) k) =
      step-Post rt (sound (fetched m ∷ os)) (books (fetched m ∷ os)) m k
        (λ r c. counts os m.profile (fetched m) r k.3.holds c)

  land-Post :
      (os : List ℕ) (v : Value) (m : Machine)
      → Post h n (P os) (Ends h n (P os)) (raised v m)
      → Post h n (P os) (Ends h n (P os)) (landing rt v m)
  land-Post os _ _ (raises v m l k) = landing-Post rt (sound os) m k v l

  pub Rounds-Post :
      {os : List ℕ} {r : Exec Signal} → Rounds rt e os r → Post h n (P os) (Ends h n (P os)) r
  Rounds-Post here = first
  Rounds-Post (round {os} {m} before) = round-Post os m (Rounds-Post before)
  Rounds-Post (land {os} {v} {m} before) = land-Post os v m (Rounds-Post before)

-- The loop on fuel does nothing else.
pub run-Rounds :
    (rt : Runtime) (fuel : ℕ) (a e : Exec Signal) (s : Signal) (os : List ℕ)
    → Rounds rt a os e
    → run rt fuel e ≡ ok s
    → (all : List ℕ) × Rounds rt a all (ok s)
unfolding run
run-Rounds rt zero a e s os before h = absurd (fault≢ok h)
run-Rounds rt (suc fuel) a (ok (next m)) s os before h =
    run-Rounds rt fuel a (step rt m) s (fetched m ∷ os) (round before) h
run-Rounds rt (suc fuel) a (ok (returned v m)) s os before h = (os, subst (Rounds rt a os) h before)
run-Rounds rt (suc fuel) a (ok (uncaught v m)) s os before h = (os, subst (Rounds rt a os) h before)
run-Rounds rt (suc fuel) a (raised v m) s os before h =
    run-Rounds rt fuel a (landing rt v m) s os (land before) h
run-Rounds rt (suc fuel) a fault s os before h = absurd (fault≢ok h)
