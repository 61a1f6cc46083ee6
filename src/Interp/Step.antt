-- ===== src/Interp/Step.antt =====
-- The dispatch loop: one clause for each opcode, the landing of exceptions, and runs.
pub mod Exceptions
pub mod Leaving
use cc_implementation.Prelude.{
  ℕ, zero, suc, ◌-◌, ◌^◌, ◌%◌, ◌&&◌, ◌∷◌, if◌then◌else◌, get_elem?, length,
}
use cc_implementation.Word.{sext32}
use cc_implementation.Profile.{count_opcode, Profile}
use cc_implementation.Interp.Machine.{
  code, Machine, Exec, ok, raised, fault, ◌>>=◌, Signal, next, returned, uncaught, atom,
}
use cc_implementation.Interp.Memory.{of_option, val_int, pop_words, skip, slot, same_value}
use cc_implementation.Interp.Runtime.{Runtime}
use cc_implementation.Interp.Opcodes.{Opcode, decode}
use cc_implementation.Interp.Basic.{
  acc, acc_at, assign, atom_instr, atom_of, boolnot, branch, branchif, branchifnot, const_of,
  constint, envacc, envacc_at, getglobal, getglobalfield, pop_instr, push_accu, pushacc, pushacc_at,
  pushatom, pushatom0, pushconst_of, pushconstint, pushenvacc, pushenvacc_at, pushgetglobal,
  pushgetglobalfield, setglobal, switch,
}
use cc_implementation.Interp.Control.{
  c_call, c_calln, check_base, check_signals, landing, poptrap, pushtrap, raise_instr,
  raise_notrace_instr, reraise_instr,
}
use cc_implementation.Interp.Apply.{
  apply, apply_to, appterm, appterm_of, grab, of_run, push_retaddr, restart, return_instr,
}
use cc_implementation.Interp.Blocks.{
  closure, closurerec, getbyteschar, getfield, getfield_at, getfloatfield, getvectitem, makeblock,
  makeblock_at, makefloatblock, offsetclosure, offsetclosure_by, pushoffsetclosure,
  pushoffsetclosure_by, setbyteschar, setfield, setfield_at, setfloatfield, setvectitem, vectlength,
}
use cc_implementation.Interp.Ints.{
  addint, andint, asrint, branch_by, compare_by, divint, eq_instr, eq_test, ge_test, gt_test, isint,
  le_test, lslint, lsrint, lt_test, modint, mulint, negint, neq_instr, neq_test, offsetint,
  offsetref, orint, subint, uge_test, ult_test, xorint,
}
use cc_implementation.Interp.Objects.{getdynmet, getmethod, getpubmet}
use cc_implementation.Interp.Effects.{perform, reperformterm, resume, resumeterm, save_stack}

-- `-3`, as a word
abbrev pub minus_three : ℕ
minus_three = 2 ^ 64 - 3

-- STOP
unfoldable pub stop : Machine → Exec Signal
unfolding save_stack
stop m = save_stack m >>= λ m₁. ok (
    returned m.accu (record m₁ {
      external_raise = m.initial_external_raise;
      trap_sp_off = m.initial_trap_sp_off;
    }))

module _ (rt : Runtime) where
  -- The instructions that end by `Next` or by an exception.
  unfoldable pub execute : Opcode → Machine → Exec Machine
  execute Opcode.acc0 m = acc_at 0 m
  execute Opcode.acc1 m = acc_at 1 m
  execute Opcode.acc2 m = acc_at 2 m
  execute Opcode.acc3 m = acc_at 3 m
  execute Opcode.acc4 m = acc_at 4 m
  execute Opcode.acc5 m = acc_at 5 m
  execute Opcode.acc6 m = acc_at 6 m
  execute Opcode.acc7 m = acc_at 7 m
  execute Opcode.acc m = acc m
  execute Opcode.push m = push_accu m
  execute Opcode.pushacc0 m = push_accu m
  execute Opcode.pushacc1 m = pushacc_at 1 m
  execute Opcode.pushacc2 m = pushacc_at 2 m
  execute Opcode.pushacc3 m = pushacc_at 3 m
  execute Opcode.pushacc4 m = pushacc_at 4 m
  execute Opcode.pushacc5 m = pushacc_at 5 m
  execute Opcode.pushacc6 m = pushacc_at 6 m
  execute Opcode.pushacc7 m = pushacc_at 7 m
  execute Opcode.pushacc m = pushacc m
  execute Opcode.pop m = pop_instr m
  execute Opcode.assign m = assign m
  execute Opcode.envacc1 m = envacc_at 1 m
  execute Opcode.envacc2 m = envacc_at 2 m
  execute Opcode.envacc3 m = envacc_at 3 m
  execute Opcode.envacc4 m = envacc_at 4 m
  execute Opcode.envacc m = envacc m
  execute Opcode.pushenvacc1 m = pushenvacc_at 1 m
  execute Opcode.pushenvacc2 m = pushenvacc_at 2 m
  execute Opcode.pushenvacc3 m = pushenvacc_at 3 m
  execute Opcode.pushenvacc4 m = pushenvacc_at 4 m
  execute Opcode.pushenvacc m = pushenvacc m
  execute Opcode.push_retaddr m = push_retaddr m
  execute Opcode.apply m = apply rt m
  execute Opcode.apply1 m = apply_to rt 1 m
  execute Opcode.apply2 m = apply_to rt 2 m
  execute Opcode.apply3 m = apply_to rt 3 m
  execute Opcode.appterm m = appterm rt m
  execute Opcode.appterm1 m = appterm_of rt 1 m
  execute Opcode.appterm2 m = appterm_of rt 2 m
  execute Opcode.appterm3 m = appterm_of rt 3 m
  execute Opcode.return m = return_instr rt m
  execute Opcode.restart m = restart m
  execute Opcode.grab m = grab rt m
  execute Opcode.closure m = closure rt m
  execute Opcode.closurerec m = closurerec rt m
  execute Opcode.offsetclosurem3 m = offsetclosure_by minus_three m
  execute Opcode.offsetclosure0 m = offsetclosure_by 0 m
  execute Opcode.offsetclosure3 m = offsetclosure_by 3 m
  execute Opcode.offsetclosure m = offsetclosure m
  execute Opcode.pushoffsetclosurem3 m = pushoffsetclosure_by minus_three m
  execute Opcode.pushoffsetclosure0 m = pushoffsetclosure_by 0 m
  execute Opcode.pushoffsetclosure3 m = pushoffsetclosure_by 3 m
  execute Opcode.pushoffsetclosure m = pushoffsetclosure m
  execute Opcode.getglobal m = getglobal m
  execute Opcode.pushgetglobal m = pushgetglobal m
  execute Opcode.getglobalfield m = getglobalfield m
  execute Opcode.pushgetglobalfield m = pushgetglobalfield m
  execute Opcode.setglobal m = setglobal m
  execute Opcode.atom0 m = atom_of 0 m
  execute Opcode.atom m = atom_instr m
  execute Opcode.pushatom0 m = pushatom0 m
  execute Opcode.pushatom m = pushatom m
  execute Opcode.makeblock m = makeblock rt m
  execute Opcode.makeblock1 m = makeblock_at rt 0 m
  execute Opcode.makeblock2 m = makeblock_at rt 1 m
  execute Opcode.makeblock3 m = makeblock_at rt 2 m
  execute Opcode.makefloatblock m = makefloatblock rt m
  execute Opcode.getfield0 m = getfield_at 0 m
  execute Opcode.getfield1 m = getfield_at 1 m
  execute Opcode.getfield2 m = getfield_at 2 m
  execute Opcode.getfield3 m = getfield_at 3 m
  execute Opcode.getfield m = getfield m
  execute Opcode.getfloatfield m = getfloatfield rt m
  execute Opcode.setfield0 m = setfield_at 0 m
  execute Opcode.setfield1 m = setfield_at 1 m
  execute Opcode.setfield2 m = setfield_at 2 m
  execute Opcode.setfield3 m = setfield_at 3 m
  execute Opcode.setfield m = setfield m
  execute Opcode.setfloatfield m = setfloatfield m
  execute Opcode.vectlength m = vectlength m
  execute Opcode.getvectitem m = getvectitem m
  execute Opcode.setvectitem m = setvectitem m
  execute Opcode.getbyteschar m = getbyteschar m
  execute Opcode.setbyteschar m = setbyteschar m
  execute Opcode.branch m = branch m
  execute Opcode.branchif m = branchif m
  execute Opcode.branchifnot m = branchifnot m
  execute Opcode.switch m = switch m
  execute Opcode.boolnot m = boolnot m
  execute Opcode.pushtrap m = pushtrap m
  execute Opcode.poptrap m = poptrap rt m
  execute Opcode.check_signals m = check_signals rt m
  execute Opcode.c_call1 m = c_call rt 0 m
  execute Opcode.c_call2 m = c_call rt 1 m
  execute Opcode.c_call3 m = c_call rt 2 m
  execute Opcode.c_call4 m = c_call rt 3 m
  execute Opcode.c_call5 m = c_call rt 4 m
  execute Opcode.c_calln m = c_calln rt m
  execute Opcode.const0 m = const_of 0 m
  execute Opcode.const1 m = const_of 1 m
  execute Opcode.const2 m = const_of 2 m
  execute Opcode.const3 m = const_of 3 m
  execute Opcode.constint m = constint m
  execute Opcode.pushconst0 m = pushconst_of 0 m
  execute Opcode.pushconst1 m = pushconst_of 1 m
  execute Opcode.pushconst2 m = pushconst_of 2 m
  execute Opcode.pushconst3 m = pushconst_of 3 m
  execute Opcode.pushconstint m = pushconstint m
  execute Opcode.negint m = negint m
  execute Opcode.addint m = addint m
  execute Opcode.subint m = subint m
  execute Opcode.mulint m = mulint m
  execute Opcode.divint m = divint rt m
  execute Opcode.modint m = modint rt m
  execute Opcode.andint m = andint m
  execute Opcode.orint m = orint m
  execute Opcode.xorint m = xorint m
  execute Opcode.lslint m = lslint m
  execute Opcode.lsrint m = lsrint m
  execute Opcode.asrint m = asrint m
  execute Opcode.eq m = eq_instr m
  execute Opcode.neq m = neq_instr m
  execute Opcode.ltint m = compare_by lt_test m
  execute Opcode.leint m = compare_by le_test m
  execute Opcode.gtint m = compare_by gt_test m
  execute Opcode.geint m = compare_by ge_test m
  execute Opcode.offsetint m = offsetint m
  execute Opcode.offsetref m = offsetref m
  execute Opcode.isint m = isint m
  execute Opcode.getmethod m = getmethod m
  execute Opcode.beq m = branch_by eq_test m
  execute Opcode.bneq m = branch_by neq_test m
  execute Opcode.bltint m = branch_by lt_test m
  execute Opcode.bleint m = branch_by le_test m
  execute Opcode.bgtint m = branch_by gt_test m
  execute Opcode.bgeint m = branch_by ge_test m
  execute Opcode.ultint m = compare_by ult_test m
  execute Opcode.ugeint m = compare_by uge_test m
  execute Opcode.bultint m = branch_by ult_test m
  execute Opcode.bugeint m = branch_by uge_test m
  execute Opcode.getpubmet m = getpubmet m
  execute Opcode.getdynmet m = getdynmet m
  execute Opcode.getstringchar m = getbyteschar m
  execute _ m = fault

  -- Every instruction but EVENT and BREAK.
  unfoldable pub dispatch : Opcode → Machine → Exec Signal
  unfolding execute
  dispatch Opcode.raise m = raise_instr rt m
  dispatch Opcode.reraise m = reraise_instr rt m
  dispatch Opcode.raise_notrace m = raise_notrace_instr rt m
  dispatch Opcode.perform m = perform rt m
  dispatch Opcode.resume m = resume rt m
  dispatch Opcode.resumeterm m = resumeterm rt m
  dispatch Opcode.reperformterm m = reperformterm rt m
  dispatch Opcode.stop m = stop m
  dispatch op m = execute op m >>= λ m'. ok (next m')

  -- The call of the debugger in EVENT and BREAK, with the registers saved on the stack, and the
  -- assertions that they are as they were saved.
  unfoldable pub debug : ℕ → Machine → Exec Machine
  debug event m = do
    let frame = m.accu ∷ code (m.pc - 1) ∷ m.env ∷ val_int m.extra_args ∷ m.stack
    let r = rt.debugger event (record m { stack = frame })
    a ← slot r 0
    e ← slot r 2
    if same_value a r.accu && same_value e r.env then pop_words 4 r else fault

  -- `Restart_curr_instr`: the instruction that the debugger had replaced. A replaced instruction is
  -- not itself an EVENT or a BREAK.
  unfoldable pub restart_instr : Machine → Exec Signal
  unfolding dispatch
  restart_instr m = of_option (decode (rt.saved_instruction m (m.pc - 1))) >>= λ op. dispatch op m

  -- One instruction, with its debugger events.
  unfoldable pub instruction : Opcode → Machine → Exec Signal
  unfolding dispatch restart_instr debug
  instruction Opcode.event m = (if rt.event_elapsed m then debug 1 m else ok m) >>= restart_instr
  instruction Opcode.break m = debug 2 m >>= restart_instr
  instruction op m = dispatch op m

  -- One round of the loop: the assertion on the stack pointer, the counters, the fetch, and the
  -- instruction.
  unfoldable pub step : Machine → Exec Signal
  unfolding instruction decode check_base
  step m₀ = do
    m ← check_base m₀
    n ← of_option (get_elem? m.code m.pc)
    m₁ ← of_run m (count_opcode m.profile n)
    op ← of_option (decode n)
    instruction op (skip m₁)

  -- The loop, on fuel, from the end of a round: what C code raises is caught by the `sigsetjmp` of
  -- `caml_interprete`, any number of times.
  unfoldable pub run : ℕ → Exec Signal → Exec Signal
  unfolding step landing
  run zero e = fault
  run (suc fuel) (ok (next m)) = run fuel (step m)
  run (suc fuel) (ok (returned v m)) = ok (returned v m)
  run (suc fuel) (ok (uncaught v m)) = ok (uncaught v m)
  run (suc fuel) (raised exn m) = run fuel (landing rt exn m)
  run (suc fuel) fault = fault

-- The entry of `caml_interprete` for code at `prog`, with the counters and the address of its
-- exception context. `initial_stack_words` is an `int`.
unfoldable pub start : ℕ → ℕ → Profile → Machine → Machine
start prog context profile m = record m {
  initial_trap_sp_off = m.trap_sp_off;
  initial_stack_words = sext32 (length m.stack % 2 ^ 32);
  initial_external_raise = m.external_raise;
  external_raise = context;
  trap_sp_off = 1;
  pc = prog;
  extra_args = 0;
  env = atom 0;
  accu = val_int 0;
  profile = profile;
}
