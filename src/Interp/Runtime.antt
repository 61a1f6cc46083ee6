-- ===== src/Interp/Runtime.antt =====
-- What the interpreter calls and does not implement: the runtime system and the C primitives.
-- A value of `Runtime` is a parameter of every handler that makes such a call.
use cc_implementation.Prelude.{ℕ, Bool, List, Option}
use cc_implementation.Interp.Machine.{Value, Machine, Exec}

pub record Runtime : Type 0 where
  -- `Primitive(n)(args…)`
  pub primitive : ℕ → List Value → Machine → Exec (Value × Machine)
  -- `Caml_check_gc_interrupt(…) || caml_check_for_pending_signals()`
  pub is_pending : Machine → Bool
  -- `caml_process_pending_actions()`
  pub process_pending_actions : Machine → Exec Machine
  -- `Alloc_small` finds no room in the minor heap, and calls `Enter_gc`.
  pub minor_heap_full : Machine → Bool
  -- `sp < Stack_threshold_ptr(…)`
  pub below_threshold : Machine → Bool
  -- `caml_try_realloc_stack(…)`: if it succeeds, the stack that runs has so many words from then on,
  -- and those on it stay as they are.
  pub try_realloc_stack : Machine → Option ℕ
  -- The exceptions that `caml_raise_stack_overflow` and `caml_raise_zero_divide` raise.
  pub stack_overflow : Machine → Value
  pub zero_divide : Machine → Value
  -- `caml_stash_backtrace(accu, sp, reraise)`
  pub stash_backtrace : Bool → Machine → Machine
  -- `caml_debugger(event, Val_unit)`, with 0 for TRAP_BARRIER, 1 for EVENT_COUNT, 2 for BREAKPOINT
  pub debugger : ℕ → Machine → Machine
  -- `--caml_event_count == 0`
  pub event_elapsed : Machine → Bool
  -- `caml_debugger_saved_instruction(pc)`
  pub saved_instruction : Machine → ℕ → ℕ
  -- `caml_continuation_use(cont)`
  pub continuation_use : Value → Machine → Exec (Value × Machine)
  -- The successes of the `malloc` and `calloc` calls of the opcode counters.
  pub malloc_granted : Machine → Bool
  pub calloc_granted : Machine → Bool
