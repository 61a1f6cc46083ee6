-- ===== src/Profile/Tests.antt =====
-- Counters with one active function.
use mathlib.Core.Path.{subst}
use cc_implementation.Prelude.{
  List, ◌>>=◌, sym, ◌∙◌, done-injective, ◌≡◌, refl, arith, true, [], ◌∷◌, ◌++◌, replicate, done,
  Returns,
}
use cc_implementation.HashTable.{
  new_table, null_entry, probe, home, hash_key, next_index, ht_get, ht_set, store, ht_set_entry,
}
use cc_implementation.HashTable.Laws.{new_table-IsFresh}
use cc_implementation.FuncStack.{func_stack_push, peek, is_empty, is_full}
use cc_implementation.Profile.{
  Profile, first_unimplemented_op, enter, array_alloc_op_counts, count_opcode, new_profile,
}
use cc_implementation.Profile.Laws.{IsCounting}
use cc_implementation.Profile.Calls.{Entered, enter-Entered, enter-IsCounting}
use cc_implementation.Profile.Counts.{Counted, count_opcode-Counted}
use cc_implementation.Profile.History.{
  Event, call_event, return_event, opcode_event, after, IsExact,
}
use cc_implementation.Profile.History.Runs.{new_profile-after}
use cc_implementation.Profile.Start.{idle-IsCounting}

abbrev idle_counters : Profile
idle_counters = record {
  op_counts = replicate first_unimplemented_op 0;
  total_op_count = 0;
  func_stack = record {
    stack_data = 0 ∷ 0 ∷ [];
    nr_items = 0;
    max_items = 2;
    cur_size_bytes = 0;
    top = 0;
  };
  table = new_table;
  arrays = [];
  code_base = 4096;
}

idle_counters-IsCounting : IsCounting idle_counters
idle_counters-IsCounting =
    idle-IsCounting idle_counters
      (record {
        storage = refl;
        items = refl;
        bytes = refl;
        within = omega arith;
        small = omega arith;
      })
      refl (omega arith) new_table-IsFresh refl

enter-Entered_example :
    Returns
      (enter true true idle_counters 3)
      (Entered idle_counters (func_stack_push idle_counters.func_stack 4108).1)
enter-Entered_example =
    enter-Entered idle_counters 3 idle_counters-IsCounting (omega arith) (omega arith)

-- The counters in the function at 3.
abbrev entered : Profile
entered = record idle_counters {
  func_stack = record {
    stack_data = 4108 ∷ 0 ∷ [];
    nr_items = 1;
    max_items = 2;
    cur_size_bytes = 8;
    top = 1;
  };
  table = record {
    entries = replicate 12 null_entry ++ record { key = 4108; value = 1 } ∷ replicate 3 null_entry;
    capacity = 16;
    length = 1;
  };
  arrays = replicate first_unimplemented_op 0 ∷ [];
}

enters : enter true true idle_counters 3 ≡ done entered
unfolding enter array_alloc_op_counts func_stack_push peek is_empty is_full ht_get ht_set store
    ht_set_entry probe home hash_key next_index
enters = refl

entered-IsCounting : IsCounting entered
entered-IsCounting =
    let (p, run, c) =
      enter-IsCounting idle_counters 3 idle_counters-IsCounting (omega arith) (omega arith) in
    subst IsCounting (done-injective (sym run ∙ enters)) c

count_opcode-Counted_example : Returns (count_opcode entered 11) (Counted entered 11)
count_opcode-Counted_example = count_opcode-Counted entered 11 entered-IsCounting (omega arith)

-- Two calls, an opcode in the second, a return, and an opcode in the first.
abbrev calls : List Event
calls =
    opcode_event 4
    ∷ return_event
    ∷ opcode_event 9
    ∷ call_event true true 40
    ∷ call_event true true 20
    ∷ []

new_profile-after_example :
    Returns (new_profile true true true true true 4096 >>= after calls) (IsExact 4096 calls)
new_profile-after_example =
    new_profile-after 4096 calls (omega arith)
      (omega arith, (tt, (omega arith, ((refl, refl), ((refl, refl), tt))))) (omega arith)
