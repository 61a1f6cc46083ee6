-- ===== src/Interp/Tests.antt =====
-- A runtime that has no pending action, no full heap and no primitive, an idle machine, and runs.
pub mod Traps
pub mod Calls
pub mod Values
pub mod Effects
pub mod Blocks
pub mod Sound
pub mod Leaving
pub mod Programs
use cc_implementation.Prelude.{true, false, [], ◌∷◌, none, some, ◌≡◌, refl}
use cc_implementation.Profile.{Profile, count_opcode}
use cc_implementation.FuncStack.{FuncStack, is_empty}
use cc_implementation.HashTable.{new_table}
use cc_implementation.Interp.Machine.{
  Value, word, atom, Fiber, Machine, Exec, ok, fault, Signal, next, returned,
}
use cc_implementation.Interp.Runtime.{Runtime}
use cc_implementation.Profile.{count_opcode}
use cc_implementation.Word.{val_long}
use cc_implementation.FuncStack.{is_empty}
use cc_implementation.Interp.Basic.{const_of, pushconst_of}
use cc_implementation.Interp.Ints.{addint}
use cc_implementation.Interp.Step.{run, start, stop}

abbrev pub quiet : Runtime
quiet = record {
  primitive = λ n args m. fault;
  is_pending = λ m. false;
  process_pending_actions = λ m. ok m;
  minor_heap_full = λ m. false;
  below_threshold = λ m. false;
  try_realloc_stack = λ m. none;
  stack_overflow = λ m. word 1;
  zero_divide = λ m. word 1;
  stash_backtrace = λ r m. m;
  debugger = λ e m. m;
  event_elapsed = λ m. false;
  saved_instruction = λ m pc. 0;
  continuation_use = λ v m. ok (v, m);
  malloc_granted = λ m. true;
  calloc_granted = λ m. true;
}

abbrev pub no_functions : FuncStack
no_functions = record {
  stack_data = 0 ∷ 0 ∷ [];
  nr_items = 0;
  max_items = 2;
  cur_size_bytes = 0;
  top = 0;
}

abbrev pub idle_profile : Profile
idle_profile = record {
  op_counts = [];
  total_op_count = 0;
  func_stack = no_functions;
  table = new_table;
  arrays = [];
  code_base = 4096;
}

abbrev pub idle_fiber : Fiber
idle_fiber = record {
  words = 1024;
  saved = [];
  parent = none;
  handle_value = word 1;
  handle_exn = word 1;
  handle_effect = word 1;
}

abbrev pub idle : Machine
idle = record {
  pc = 0;
  stack = [];
  accu = word 1;
  env = atom 0;
  extra_args = 0;
  trap_sp_off = 1;
  trap_barrier_off = 2;
  backtrace_active = false;
  external_raise = 0;
  current_stack = 0;
  fibers = some idle_fiber ∷ [];
  heap = [];
  global_data = word 1;
  raise_unhandled = word 1;
  code = [];
  initial_trap_sp_off = 1;
  initial_stack_words = 0;
  initial_external_raise = 0;
  profile = idle_profile;
}

abbrev result : Exec Signal → Exec Value
result (ok (returned v m)) = ok v
result _ = fault

-- CONST2; PUSHCONST3; ADDINT; STOP
sum_runs :
    result (
      run quiet 9
        (ok (next (start 0 0 idle_profile (record idle { code = 101 ∷ 107 ∷ 110 ∷ 143 ∷ [] })))))
    ≡ ok (word 11)
unfolding run start count_opcode is_empty const_of pushconst_of addint stop val_long
sum_runs = refl
