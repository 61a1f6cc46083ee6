-- ===== src/InterpAli/Step.antt =====
-- The dispatch loop of interp-ali.c. Its operation counter stands before the first label of the
-- `switch`, where it is never executed.
use cc_implementation.Prelude.{ℕ, zero, suc, ◌-◌, get_elem?, length, if◌then◌else◌}
use cc_implementation.Interp.Machine.{
  atom, Machine, Exec, ok, raised, fault, ◌>>=◌, Signal, next, returned, uncaught,
}
use cc_implementation.Interp.Memory.{of_option, val_int, skip}
use cc_implementation.Interp.Runtime.{Runtime}
use cc_implementation.Interp.Opcodes.{Opcode, decode}
use cc_implementation.Interp.Step as Shared
use cc_implementation.Interp.Control.{check_base}
use cc_implementation.InterpAli.Control.{
  pushtrap, poptrap, raise_instr, reraise_instr, raise_notrace_instr, landing,
}
use cc_implementation.InterpAli.Apply.{apply, apply_to, appterm, appterm_of, return_instr, grab}

-- STOP
unfoldable pub stop : Machine → Exec Signal
stop m = ok (returned m.accu (record m { external_raise = m.initial_external_raise }))

module _ (rt : Runtime) where
  -- The instructions that end by `Next` or by an exception: calls, returns and traps are those of this
  -- file, and the others have the text of interp.c.
  unfoldable pub execute : Opcode → Machine → Exec Machine
  execute Opcode.apply m = apply rt m
  execute Opcode.apply1 m = apply_to rt 1 m
  execute Opcode.apply2 m = apply_to rt 2 m
  execute Opcode.apply3 m = apply_to rt 3 m
  execute Opcode.appterm m = appterm rt m
  execute Opcode.appterm1 m = appterm_of rt 1 m
  execute Opcode.appterm2 m = appterm_of rt 2 m
  execute Opcode.appterm3 m = appterm_of rt 3 m
  execute Opcode.return m = return_instr m
  execute Opcode.grab m = grab rt m
  execute Opcode.pushtrap m = pushtrap m
  execute Opcode.poptrap m = poptrap rt m
  execute op m = Shared.execute rt op m

  -- Every instruction but EVENT and BREAK. The opcodes of effects are no instructions here.
  unfoldable pub dispatch : Opcode → Machine → Exec Signal
  unfolding execute
  dispatch Opcode.raise m = raise_instr rt m
  dispatch Opcode.reraise m = reraise_instr rt m
  dispatch Opcode.raise_notrace m = raise_notrace_instr rt m
  dispatch Opcode.stop m = stop m
  dispatch op m = execute op m >>= λ m'. ok (next m')

  -- `Restart_curr_instr`
  unfoldable pub restart_instr : Machine → Exec Signal
  unfolding dispatch
  restart_instr m = of_option (decode (rt.saved_instruction m (m.pc - 1))) >>= λ op. dispatch op m

  -- One instruction, with its debugger events.
  unfoldable pub instruction : Opcode → Machine → Exec Signal
  unfolding dispatch restart_instr
  instruction Opcode.event m =
      (if rt.event_elapsed m then Shared.debug rt 1 m else ok m) >>= restart_instr
  instruction Opcode.break m = Shared.debug rt 2 m >>= restart_instr
  instruction op m = dispatch op m

  -- One round of the loop: the assertion on the stack pointer, the fetch, and the instruction.
  unfoldable pub step : Machine → Exec Signal
  unfolding instruction decode check_base
  step m₀ = do
    m ← check_base m₀
    n ← of_option (get_elem? m.code m.pc)
    op ← of_option (decode n)
    instruction op (skip m)

  -- The loop, on fuel, from the end of a round.
  unfoldable pub run : ℕ → Exec Signal → Exec Signal
  unfolding step landing
  run zero e = fault
  run (suc fuel) (ok (next m)) = run fuel (step m)
  run (suc fuel) (ok (returned v m)) = ok (returned v m)
  run (suc fuel) (ok (uncaught v m)) = ok (uncaught v m)
  run (suc fuel) (raised exn m) = run fuel (landing rt exn m)
  run (suc fuel) fault = fault

-- The entry of `caml_interprete` for code at `prog`, with the address of its exception context.
unfoldable pub start : ℕ → ℕ → Machine → Machine
start prog context m = record m {
  initial_stack_words = length m.stack;
  initial_external_raise = m.external_raise;
  external_raise = context;
  pc = prog;
  extra_args = 0;
  env = atom 0;
  accu = val_int 0;
}
