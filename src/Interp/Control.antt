-- ===== src/Interp/Control.antt =====
-- Traps and exceptions, signals, stack checks, the GC interface, and calls of C functions.
pub mod Traps
use cc_implementation.Prelude.{
  ℕ, ◌+◌, ◌-◌, ◌%◌, Bool, true, false, List, ◌∷◌, Option, none, some, ltb, leb, if◌then◌else◌,
  length, get_elem?, set,
}
use cc_implementation.Word.{word_mod, sign_bit, add64, sub64, is_negative}
use cc_implementation.Interp.Machine.{
  Value, code, Fiber, Machine, Exec, ok, raised, fault, ◌>>=◌, Signal, next, uncaught,
}
use cc_implementation.Interp.Memory.{
  of_option, val_unit, val_int, as_long, as_code, drop, take, slot, push, pop_words, operand, skip,
  fetch, code_val,
}
use cc_implementation.Interp.Runtime.{Runtime}

-- `sp - Stack_high(…)` for a stack of `n` words
abbrev pub offset_of : ℕ → ℕ
offset_of n = sub64 0 n

-- `(intnat) n > 0`
abbrev pub is_positive : ℕ → Bool
is_positive n = if is_negative n then false else ltb 0 n

-- The words from `Stack_high + offset` up.
abbrev pub stack_at : ℕ → List Value → Exec (List Value)
stack_at offset s =
    let n = sub64 0 offset in if leb n (length s) then drop (length s - n) s else fault

-- PUSHTRAP
unfoldable pub pushtrap : Machine → Exec Machine
pushtrap m = do
  n ← operand m
  let s = code (add64 m.pc n) ∷ val_int m.trap_sp_off ∷ m.env ∷ val_int m.extra_args ∷ m.stack
  ok (record (skip m) { stack = s; trap_sp_off = offset_of (length s) })

-- The part of POPTRAP after the check for signals.
unfoldable pub leave_trap : Machine → Exec Machine
leave_trap m = do link ← slot m 1; off ← as_long link; pop_words 4 (record m { trap_sp_off = off })

-- The record of the stack that runs, and of another one.
abbrev pub fiber_at : Machine → ℕ → Exec Fiber
fiber_at m i = of_option (get_elem? m.fibers i) >>= of_option

abbrev pub put_fiber : ℕ → Fiber → Machine → Machine
put_fiber i f m = record m { fibers = set m.fibers i (some f) }

-- The stack that runs after `caml_try_realloc_stack` has moved it to one of `words` words.
unfoldable pub grow_stack : ℕ → Machine → Exec Machine
grow_stack words m = fiber_at m m.current_stack >>= λ f.
    ok (put_fiber m.current_stack (record f { words = words }) m)

-- `CAMLassert(Stack_base(current_stack) <= sp)`
unfoldable pub check_base : Machine → Exec Machine
check_base m =
    fiber_at m m.current_stack >>= λ f. if leb (length m.stack) f.words then ok m else fault

-- `raise_notrace` with a trap on this stack: to the handler.
unfoldable pub to_handler : Machine → Exec Machine
to_handler m = do
  s ← stack_at m.trap_sp_off m.stack
  let at_trap = record m { stack = s }
  target ← slot at_trap 0
  pc ← as_code target
  link ← slot at_trap 1
  off ← as_long link
  env ← slot at_trap 2
  args ← slot at_trap 3
  extra ← as_long args
  pop_words 4 (record at_trap { pc = pc; trap_sp_off = off; env = env; extra_args = extra })

-- `caml_free_stack`
abbrev pub free_stack : ℕ → Machine → Machine
free_stack i m = record m { fibers = set m.fibers i none }

-- The switch from a stack that has ended to its parent, whose saved words begin with the trap
-- offset and the extra arguments: the value takes the place of the second, and `handler` is run.
unfoldable pub to_parent : Machine → ℕ → Value → Exec Machine
to_parent m parent handler = do
  p ← fiber_at m parent
  let there = record (free_stack m.current_stack m) { stack = p.saved; current_stack = parent }
  trap ← slot there 0
  off ← as_long trap
  args ← slot there 1
  extra ← as_long args
  s ← drop 2 there.stack
  pc ← code_val there handler
  ok (record there {
    trap_sp_off = off;
    extra_args = extra;
    stack = m.accu ∷ s;
    accu = handler;
    pc = pc;
    env = handler;
  })

-- `Setup_for_c_call`
abbrev pub setup_for_c_call : Machine → Machine
setup_for_c_call m = record m { stack = m.env ∷ code (m.pc + 1) ∷ m.stack }

-- `Restore_after_c_call`
abbrev pub restore_after_c_call : Machine → Exec Machine
restore_after_c_call m = slot m 0 >>= λ env. pop_words 2 (record m { env = env })

module _ (rt : Runtime) where
  -- `process_signal`: the registers are saved on the stack around the call.
  unfoldable pub process_signal : Machine → Exec Machine
  process_signal m = do
    let frame = m.accu ∷ val_unit ∷ val_unit ∷ code m.pc ∷ m.env ∷ val_int m.extra_args ∷ m.stack
    m₁ ← rt.process_pending_actions (record m { stack = frame })
    a ← slot m₁ 0
    target ← slot m₁ 3
    pc ← as_code target
    env ← slot m₁ 4
    args ← slot m₁ 5
    extra ← as_long args
    pop_words 6 (record m₁ { accu = a; pc = pc; env = env; extra_args = extra })

  -- CHECK_SIGNALS
  unfoldable pub check_signals : Machine → Exec Machine
  unfolding process_signal
  check_signals m = if rt.is_pending m then process_signal m else ok m

  -- The stack has been moved to one of so many words, or it cannot grow.
  unfoldable pub after_realloc : Option ℕ → Machine → Exec Machine
  unfolding check_signals grow_stack
  after_realloc (some words) m = grow_stack words m >>= check_signals
  after_realloc none m = raised (rt.stack_overflow m) (setup_for_c_call m)

  -- `check_stacks`, which falls through to CHECK_SIGNALS
  unfoldable pub check_stacks : Machine → Exec Machine
  unfolding check_signals after_realloc
  check_stacks m =
      if rt.below_threshold m then after_realloc (rt.try_realloc_stack m) m else check_signals m

  -- `Enter_gc`, if the minor heap has no room for an allocation
  unfoldable pub poll_gc : Machine → Exec Machine
  poll_gc m =
      if rt.minor_heap_full m
      then (do
        m₁ ← rt.process_pending_actions (record m { stack = m.accu ∷ m.env ∷ code m.pc ∷ m.stack })
        a ← slot m₁ 0
        env ← slot m₁ 1
        pop_words 3 (record m₁ { pc = m.pc; extra_args = m.extra_args; accu = a; env = env }))
      else ok m

  -- POPTRAP
  unfoldable pub poptrap : Machine → Exec Machine
  unfolding leave_trap process_signal
  poptrap m = if rt.is_pending m then process_signal (record m { pc = m.pc - 1 }) else leave_trap m

  -- `Check_trap_barrier`: both offsets are compared as `intnat`.
  unfoldable pub check_trap_barrier : Machine → Machine
  check_trap_barrier m =
      if leb ((m.trap_barrier_off + sign_bit) % word_mod) ((m.trap_sp_off + sign_bit) % word_mod)
      then rt.debugger 0 m
      else m

  -- `raise_notrace`
  unfoldable pub raise_notrace : Machine → Exec Signal
  unfolding to_handler to_parent check_stacks
  raise_notrace m =
      if is_positive m.trap_sp_off
      then (fiber_at m m.current_stack >>= λ self. elim self.parent [
        | none ↦ stack_at (offset_of m.initial_stack_words) m.stack >>= λ s. ok (
            uncaught m.accu (record m {
              stack = s;
              external_raise = m.initial_external_raise;
              trap_sp_off = m.initial_trap_sp_off;
            }))
        | some parent ↦ to_parent m parent self.handle_exn >>= check_stacks >>= λ m'. ok (next m')
      ])
      else (to_handler m >>= λ m'. ok (next m'))

  -- The push of `pc - 1` and `caml_stash_backtrace`, if backtraces are active.
  unfoldable pub stash : Bool → Machine → Machine
  stash reraise m =
      if m.backtrace_active then rt.stash_backtrace reraise (push (code (m.pc - 1)) m) else m

  -- RAISE_NOTRACE
  unfoldable pub raise_notrace_instr : Machine → Exec Signal
  unfolding raise_notrace check_trap_barrier
  raise_notrace_instr m = raise_notrace (check_trap_barrier m)

  -- RERAISE
  unfoldable pub reraise_instr : Machine → Exec Signal
  unfolding raise_notrace check_trap_barrier stash
  reraise_instr m = raise_notrace (stash true (check_trap_barrier m))

  -- RAISE
  unfoldable pub raise_instr : Machine → Exec Signal
  unfolding raise_notrace check_trap_barrier stash
  raise_instr m = raise_notrace (stash false (check_trap_barrier m))

  -- The landing of the `sigsetjmp`: a C function has raised, and the stack is the one that it was
  -- called with. `pc` has already been pushed.
  unfoldable pub landing : Value → Machine → Exec Signal
  unfolding raise_notrace check_trap_barrier
  landing exn m =
      let m₁ = check_trap_barrier (record m { accu = exn }) in
      raise_notrace (if m₁.backtrace_active then rt.stash_backtrace false m₁ else m₁)

  -- C_CALL1 to C_CALL5, with the number of arguments on the stack
  unfoldable pub c_call : ℕ → Machine → Exec Machine
  c_call n m = do
    prim ← operand m
    args ← take n m.stack
    (v, m₁) ← rt.primitive prim (m.accu ∷ args) (setup_for_c_call m)
    m₂ ← restore_after_c_call m₁
    m₃ ← pop_words n m₂
    ok (record m₃ { pc = m.pc + 1; extra_args = m.extra_args; accu = v })

  -- C_CALLN
  unfoldable pub c_calln : Machine → Exec Machine
  c_calln m = do
    (nargs, m₁) ← fetch m
    let m₂ = push m₁.accu m₁
    prim ← operand m₂
    args ← take nargs m₂.stack
    (v, m₃) ← rt.primitive prim args (setup_for_c_call m₂)
    m₄ ← restore_after_c_call m₃
    m₅ ← pop_words nargs m₄
    ok (record m₅ { pc = m₂.pc + 1; extra_args = m.extra_args; accu = v })
