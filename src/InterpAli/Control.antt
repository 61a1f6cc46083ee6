-- ===== src/InterpAli/Control.antt =====
-- Traps, exceptions and stack checks. A trap holds the distance to the trap that encloses it.
use cc_implementation.Prelude.{
  ℕ, Option, ◌+◌, ◌-◌, true, false, ◌∷◌, none, some, if◌then◌else◌, length,
}
use cc_implementation.Word.{add64, sub64, slt64}
use cc_implementation.Interp.Machine.{
  Value, code, Machine, Exec, ok, raised, ◌>>=◌, Signal, next, uncaught,
}
use cc_implementation.Interp.Memory.{val_int, as_long, as_code, slot, pop_words, operand, skip}
use cc_implementation.Interp.Runtime.{Runtime}
use cc_implementation.Interp.Control.{
  offset_of, stack_at, grow_stack, check_signals, check_trap_barrier, process_signal, stash,
}

-- PUSHTRAP: the link is `trapsp - sp`, with the new `sp`.
unfoldable pub pushtrap : Machine → Exec Machine
pushtrap m = do
  n ← operand m
  let sp = offset_of (length m.stack + 4)
  let link = sub64 m.trap_sp_off sp
  let s = code (add64 m.pc n) ∷ val_int link ∷ m.env ∷ val_int m.extra_args ∷ m.stack
  ok (record (skip m) { stack = s; trap_sp_off = sp })

-- The part of POPTRAP after the check for actions.
unfoldable pub leave_trap : Machine → Exec Machine
leave_trap m = do
  link ← slot m 1
  distance ← as_long link
  pop_words 4 (record m { trap_sp_off = add64 (offset_of (length m.stack)) distance })

-- `raise_notrace` with a trap of this call of `caml_interprete`: to the handler.
unfoldable pub to_handler : Machine → Exec Machine
to_handler m = do
  s ← stack_at m.trap_sp_off m.stack
  let at_trap = record m { stack = s }
  target ← slot at_trap 0
  pc ← as_code target
  link ← slot at_trap 1
  distance ← as_long link
  env ← slot at_trap 2
  args ← slot at_trap 3
  extra ← as_long args
  pop_words 4 (record at_trap {
    pc = pc;
    trap_sp_off = add64 m.trap_sp_off distance;
    env = env;
    extra_args = extra;
  })

module _ (rt : Runtime) where
  -- The stack has been moved to one of so many words, or it cannot grow.
  unfoldable pub after_realloc : Option ℕ → Machine → Exec Machine
  unfolding check_signals grow_stack
  after_realloc (some words) m = grow_stack words m >>= check_signals rt
  after_realloc none m = raised (rt.stack_overflow m) m

  -- `check_stacks`, which falls through to CHECK_SIGNALS. `caml_realloc_stack` raises when the stack
  -- would be too large.
  unfoldable pub check_stacks : Machine → Exec Machine
  unfolding check_signals after_realloc
  check_stacks m =
      if rt.below_threshold m then after_realloc (rt.try_realloc_stack m) m else check_signals rt m

  -- POPTRAP
  unfoldable pub poptrap : Machine → Exec Machine
  unfolding leave_trap process_signal
  poptrap m =
      if rt.is_pending m then process_signal rt (record m { pc = m.pc - 1 }) else leave_trap m

  -- `raise_notrace`: a trap at or above `stack_high - initial_sp_offset` belongs to a caller of
  -- `caml_interprete`.
  unfoldable pub raise_notrace : Machine → Exec Signal
  unfolding to_handler
  raise_notrace m =
      let initial = offset_of m.initial_stack_words in
      if slt64 m.trap_sp_off initial
      then (to_handler m >>= λ m'. ok (next m'))
      else (stack_at initial m.stack >>= λ s.
          ok (uncaught m.accu (record m { stack = s; external_raise = m.initial_external_raise })))

  -- RAISE_NOTRACE
  unfoldable pub raise_notrace_instr : Machine → Exec Signal
  unfolding raise_notrace check_trap_barrier
  raise_notrace_instr m = raise_notrace (check_trap_barrier rt m)

  -- RERAISE
  unfoldable pub reraise_instr : Machine → Exec Signal
  unfolding raise_notrace check_trap_barrier stash
  reraise_instr m = raise_notrace (stash rt true (check_trap_barrier rt m))

  -- RAISE
  unfoldable pub raise_instr : Machine → Exec Signal
  unfolding raise_notrace check_trap_barrier stash
  raise_instr m = raise_notrace (stash rt false (check_trap_barrier rt m))

  -- The landing of the `sigsetjmp`. `pc` has already been pushed.
  unfoldable pub landing : Value → Machine → Exec Signal
  unfolding raise_notrace check_trap_barrier
  landing exn m =
      let m₁ = check_trap_barrier rt (record m { accu = exn }) in
      raise_notrace (if m₁.backtrace_active then rt.stash_backtrace false m₁ else m₁)
