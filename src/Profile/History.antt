-- ===== src/Profile/History.antt =====
-- The bookkeeping of a whole run: the calls, returns and dispatches of the interpreter in order.
pub mod Counting
pub mod Runs
use native.Mathlib.Decide.{ℕ_discrete}
use cc_implementation.Prelude.{
  ◌-◌, get_or-replicate, ℕ, suc, ◌+◌, ◌*◌, ◌^◌, ◌<◌, ◌≤◌, ◌≡◌, ◌≢◌, refl, ◌∙◌, ap, arith, Bool,
  true, List, [], ◌∷◌, length, length-set, ltb, ◌==◌, if◌then◌else◌, get_or, Run, done, ◌>>=◌,
  Returns, ◌&&◌, sym, ne→==, eq→==,
}
use cc_implementation.Word.{word_mod}
use cc_implementation.Profile.{
  Profile, enter, leave, count_opcode, new_profile, address, first_unimplemented_op,
}
use cc_implementation.Profile.Laws.{IsCounting, peek-active}
use cc_implementation.FuncStack.{
  FuncStack, func_stack_push, func_stack_pop, is_full, is_empty, peek,
}
use cc_implementation.FuncStack.Refine.{
  contents, list_push, list_pop, push-list_push, pop-list_pop, peek-list_pop,
}
use cc_implementation.HashTable.Laws.{new_table-IsFresh, view}
use cc_implementation.Profile.Calls.{IsRoomy, enter-Entered, leave-IsCounting}
use cc_implementation.Profile.Counts.{count_opcode-Counted, get-bump, counted, tally, Counted}
use cc_implementation.Profile.Start.{first_profile, first_profile-IsCounting, new_profile-first}

-- What the interpreter reports to the counters: a call of the code at a position, with the successes
-- of the two allocations that it may need; a return; and the dispatch of an opcode.
pub data Event : Type 0 where
  call_event : Bool → Bool → ℕ → Event
  return_event : Event
  opcode_event : ℕ → Event

abbrev pub record_event : Event → Profile → Run Profile
record_event (call_event got_array granted pc) p = enter got_array granted p pc
record_event return_event p = done (leave p)
record_event (opcode_event opcode) p = count_opcode p opcode

-- The counters after a history, whose newest event comes first.
abbrev pub after : List Event → Profile → Run Profile
after [] p = done p
after (e ∷ es) p = after es p >>= record_event e

-- Every allocation succeeded.
abbrev pub Granted : Event → Type 0
Granted (call_event got_array granted pc) = (got_array ≡ true) × (granted ≡ true)
Granted return_event = Unit
Granted (opcode_event opcode) = opcode < first_unimplemented_op

abbrev pub AllGranted : List Event → Type 0
AllGranted [] = Unit
AllGranted (e ∷ es) = Granted e × AllGranted es

-- The opcodes that a history dispatches, the newest first.
abbrev pub dispatches : List Event → List ℕ
dispatches [] = []
dispatches (opcode_event o ∷ es) = o ∷ dispatches es
dispatches (call_event _ _ _ ∷ es) = dispatches es
dispatches (return_event ∷ es) = dispatches es

-- The opcodes below `FIRST_UNIMPLEMENTED_OP`, which alone are counted.
abbrev pub valid : List ℕ → List ℕ
valid [] = []
valid (o ∷ os) = if ltb o first_unimplemented_op then o ∷ valid os else valid os

-- How many opcodes a history dispatches, and how often one of them.
abbrev pub opcodes : List Event → ℕ
opcodes [] = 0
opcodes (opcode_event o ∷ es) = suc (opcodes es)
opcodes (call_event _ _ _ ∷ es) = opcodes es
opcodes (return_event ∷ es) = opcodes es

abbrev pub times : ℕ → List Event → ℕ
times q [] = 0
times q (opcode_event o ∷ es) = (if o == q then 1 else 0) + times q es
times q (call_event _ _ _ ∷ es) = times q es
times q (return_event ∷ es) = times q es

-- The functions that run, the newest first, by their addresses: a call is dropped if 1024 run.
abbrev pub running : ℕ → List Event → List ℕ
running base [] = []
running base (call_event _ _ pc ∷ es) = (list_push 1024 (running base es) (base + 4 * pc)).1
running base (return_event ∷ es) = (list_pop (running base es)).1
running base (opcode_event o ∷ es) = running base es

-- How often a history dispatches the opcode `q` while the function at `f` is the newest.
abbrev pub times_in : ℕ → ℕ → ℕ → List Event → ℕ
times_in base f q [] = 0
times_in base f q (opcode_event o ∷ es) =
    (if f == (list_pop (running base es)).0 && q == o then 1 else 0) + times_in base f q es
times_in base f q (call_event _ _ _ ∷ es) = times_in base f q es
times_in base f q (return_event ∷ es) = times_in base f q es

-- The counters are in order, and their totals are those of a history.
pub record IsExact (base : ℕ) (es : List Event) (p : Profile) : Type 0 where
  pub counting : IsCounting p
  pub same_base : p.code_base ≡ base
  pub filled : p.table.length ≤ length es
  pub roomy : IsRoomy p.table
  pub limit : p.func_stack.max_items ≡ 1024
  pub stack : contents p.func_stack ≡ running base es
  pub tallies : (f o : ℕ) → f ≢ 0 → tally p f o ≡ times_in base f o es
  pub sized : length p.op_counts ≡ first_unimplemented_op
  pub total : p.total_op_count ≡ opcodes es
  pub counts : (o : ℕ) → o < first_unimplemented_op → get_or p.op_counts o 0 ≡ times o es
