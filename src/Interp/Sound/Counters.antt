-- ===== src/Interp/Sound/Counters.antt =====
-- The counters over whole runs of the interpreter.
use cc_implementation.Prelude.{◌≤◌, ◌^◌, ℕ, ◌≡◌, List, length, done}
use cc_implementation.Profile.{Profile}
use cc_implementation.Profile.History.{Event, after, AllGranted, IsExact, dispatches, valid}
use cc_implementation.Interp.Machine.{Machine, Signal, next, returned, uncaught}
use cc_implementation.Interp.Runtime.{Runtime}
use cc_implementation.Profile.Start.{first_profile}

-- Counters that such a history leads to, with every allocation granted and only valid opcodes.
pub record Granted (p : Profile) (os : List ℕ) (q : Profile) : Type 0 where
  pub events : List Event
  pub granted : AllGranted events
  pub leads : after events p ≡ done q
  pub same : dispatches events ≡ valid os

-- The counters at the end of a run.
abbrev pub profile_of : Signal → Profile
profile_of (next m) = m.profile
profile_of (returned v m) = m.profile
profile_of (uncaught v m) = m.profile

-- Counters that are exact for a history of calls, returns and these dispatches.
abbrev ExactFor : ℕ → List ℕ → Profile → Type 0
ExactFor base os q =
    (es : List Event) × (after es (first_profile base) ≡ done q)
    × (dispatches es ≡ valid os)
    × (length es ≤ 2 ^ 60 → IsExact base es q)
