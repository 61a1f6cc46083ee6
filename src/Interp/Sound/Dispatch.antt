-- ===== src/Interp/Sound/Dispatch.antt =====
-- Every instruction keeps every word live: one clause for each opcode.
use cc_implementation.Prelude.{ℕ}
use cc_implementation.Profile.{Profile}
use cc_implementation.Interp.Machine.{Machine, Exec, ok, ◌>>=◌, next}
use cc_implementation.Interp.Runtime.{Runtime}
use cc_implementation.Interp.Opcodes.{Opcode}
use cc_implementation.Interp.Ints.{
  lt_test, le_test, gt_test, ge_test, ult_test, uge_test, eq_test, neq_test,
}
use cc_implementation.Interp.Step.{dispatch, stop, minus_three}
use cc_implementation.Interp.Sound.{Kept, Kept-refl, Live-later, Post, returns, faults, bind}
use cc_implementation.Interp.Sound.Runtime.{Ends, IsSound, IsKept}
use cc_implementation.Interp.Sound.Alloc.{
  closure-Post, closurerec-Post, getfloatfield-Post, makeblock-Post, makeblock_at-Post,
  makefloatblock-Post,
}
use cc_implementation.Interp.Sound.Apply.{
  apply-Post, apply_to-Post, appterm-Post, appterm_of-Post, grab-Post, push_retaddr-Post,
  restart-Post, return_instr-Post,
}
use cc_implementation.Interp.Sound.Basic.{
  acc-Post, acc_at-Post, assign-Post, atom_instr-Post, atom_of-Post, boolnot-Post, branch-Post,
  branchif-Post, branchifnot-Post, const_of-Post, constint-Post, envacc-Post, envacc_at-Post,
  getglobal-Post, getglobalfield-Post, pop_instr-Post, push_accu-Post, pushacc-Post,
  pushacc_at-Post, pushatom-Post, pushatom0-Post, pushconst_of-Post, pushconstint-Post,
  pushenvacc-Post, pushenvacc_at-Post, pushgetglobal-Post, pushgetglobalfield-Post, setglobal-Post,
  switch-Post,
}
use cc_implementation.Interp.Sound.Blocks.{
  getbyteschar-Post, getfield-Post, getfield_at-Post, getvectitem-Post, offsetclosure-Post,
  offsetclosure_by-Post, pushoffsetclosure-Post, pushoffsetclosure_by-Post, setbyteschar-Post,
  setfield-Post, setfield_at-Post, setfloatfield-Post, setvectitem-Post, vectlength-Post,
}
use cc_implementation.Interp.Sound.Control.{
  c_call-Post, c_calln-Post, check_signals-Post, poptrap-Post, raise_instr-Post,
  raise_notrace_instr-Post, reraise_instr-Post,
}
use cc_implementation.Interp.Sound.Effects.{resume-Post, resumeterm-Post, save_stack-Post}
use cc_implementation.Interp.Sound.Frames.{pushtrap-Post}
use cc_implementation.Interp.Sound.Ints.{
  addint-Post, andint-Post, asrint-Post, branch_by-Post, compare_by-Post, divint-Post,
  eq_instr-Post, isint-Post, lslint-Post, lsrint-Post, modint-Post, mulint-Post, negint-Post,
  neq_instr-Post, offsetint-Post, offsetref-Post, orint-Post, subint-Post, xorint-Post,
}
use cc_implementation.Interp.Sound.Objects.{getdynmet-Post, getmethod-Post, getpubmet-Post}
use cc_implementation.Interp.Sound.Perform.{own_Ends, perform-Post, reperformterm-Post}

module _ {h n : ℕ} {p : Profile → Type 0} where
  next-Post :
      {e : Exec Machine}
      → Post h n p (Kept h n p) e
      → Post h n p (Ends h n p) (e >>= λ m. ok (next m))
  next-Post l = bind l (λ r k. returns (next r) k)

  stop-Post : (m : Machine) → Kept h n p m → Post h n p (Ends h n p) (stop m)
  unfolding stop
  stop-Post m k = own_Ends m k (
      bind (save_stack-Post m (Kept-refl m k))
        (λ r kr. returns _ (Live-later m r m.accu kr.1 kr.2 k.0.2, kr)))

  module _ (rt : Runtime) (sound : IsSound rt p) (books : IsKept rt p) (m : Machine)
      (k : Kept h n p m) where
    pub dispatch-Post : (op : Opcode) → Post h n p (Ends h n p) (dispatch rt op m)
    unfolding dispatch
    dispatch-Post Opcode.acc0 = next-Post (acc_at-Post m k 0)
    dispatch-Post Opcode.acc1 = next-Post (acc_at-Post m k 1)
    dispatch-Post Opcode.acc2 = next-Post (acc_at-Post m k 2)
    dispatch-Post Opcode.acc3 = next-Post (acc_at-Post m k 3)
    dispatch-Post Opcode.acc4 = next-Post (acc_at-Post m k 4)
    dispatch-Post Opcode.acc5 = next-Post (acc_at-Post m k 5)
    dispatch-Post Opcode.acc6 = next-Post (acc_at-Post m k 6)
    dispatch-Post Opcode.acc7 = next-Post (acc_at-Post m k 7)
    dispatch-Post Opcode.acc = next-Post (acc-Post m k)
    dispatch-Post Opcode.push = next-Post (push_accu-Post m k)
    dispatch-Post Opcode.pushacc0 = next-Post (push_accu-Post m k)
    dispatch-Post Opcode.pushacc1 = next-Post (pushacc_at-Post m k 1)
    dispatch-Post Opcode.pushacc2 = next-Post (pushacc_at-Post m k 2)
    dispatch-Post Opcode.pushacc3 = next-Post (pushacc_at-Post m k 3)
    dispatch-Post Opcode.pushacc4 = next-Post (pushacc_at-Post m k 4)
    dispatch-Post Opcode.pushacc5 = next-Post (pushacc_at-Post m k 5)
    dispatch-Post Opcode.pushacc6 = next-Post (pushacc_at-Post m k 6)
    dispatch-Post Opcode.pushacc7 = next-Post (pushacc_at-Post m k 7)
    dispatch-Post Opcode.pushacc = next-Post (pushacc-Post m k)
    dispatch-Post Opcode.pop = next-Post (pop_instr-Post m k)
    dispatch-Post Opcode.assign = next-Post (assign-Post m k)
    dispatch-Post Opcode.envacc1 = next-Post (envacc_at-Post m k 1)
    dispatch-Post Opcode.envacc2 = next-Post (envacc_at-Post m k 2)
    dispatch-Post Opcode.envacc3 = next-Post (envacc_at-Post m k 3)
    dispatch-Post Opcode.envacc4 = next-Post (envacc_at-Post m k 4)
    dispatch-Post Opcode.envacc = next-Post (envacc-Post m k)
    dispatch-Post Opcode.pushenvacc1 = next-Post (pushenvacc_at-Post m k 1)
    dispatch-Post Opcode.pushenvacc2 = next-Post (pushenvacc_at-Post m k 2)
    dispatch-Post Opcode.pushenvacc3 = next-Post (pushenvacc_at-Post m k 3)
    dispatch-Post Opcode.pushenvacc4 = next-Post (pushenvacc_at-Post m k 4)
    dispatch-Post Opcode.pushenvacc = next-Post (pushenvacc-Post m k)
    dispatch-Post Opcode.push_retaddr = next-Post (push_retaddr-Post m k)
    dispatch-Post Opcode.apply = next-Post (apply-Post rt sound m k books)
    dispatch-Post Opcode.apply1 = next-Post (apply_to-Post rt sound m k books 1)
    dispatch-Post Opcode.apply2 = next-Post (apply_to-Post rt sound m k books 2)
    dispatch-Post Opcode.apply3 = next-Post (apply_to-Post rt sound m k books 3)
    dispatch-Post Opcode.appterm = next-Post (appterm-Post rt sound m k)
    dispatch-Post Opcode.appterm1 = next-Post (appterm_of-Post rt sound m k 1)
    dispatch-Post Opcode.appterm2 = next-Post (appterm_of-Post rt sound m k 2)
    dispatch-Post Opcode.appterm3 = next-Post (appterm_of-Post rt sound m k 3)
    dispatch-Post Opcode.return = next-Post (return_instr-Post rt sound m k books)
    dispatch-Post Opcode.restart = next-Post (restart-Post m k)
    dispatch-Post Opcode.grab = next-Post (grab-Post rt sound m k)
    dispatch-Post Opcode.closure = next-Post (closure-Post rt sound m k)
    dispatch-Post Opcode.closurerec = next-Post (closurerec-Post rt sound m k)
    dispatch-Post Opcode.offsetclosurem3 = next-Post (offsetclosure_by-Post m k minus_three)
    dispatch-Post Opcode.offsetclosure0 = next-Post (offsetclosure_by-Post m k 0)
    dispatch-Post Opcode.offsetclosure3 = next-Post (offsetclosure_by-Post m k 3)
    dispatch-Post Opcode.offsetclosure = next-Post (offsetclosure-Post m k)
    dispatch-Post Opcode.pushoffsetclosurem3 = next-Post (pushoffsetclosure_by-Post m k minus_three)
    dispatch-Post Opcode.pushoffsetclosure0 = next-Post (pushoffsetclosure_by-Post m k 0)
    dispatch-Post Opcode.pushoffsetclosure3 = next-Post (pushoffsetclosure_by-Post m k 3)
    dispatch-Post Opcode.pushoffsetclosure = next-Post (pushoffsetclosure-Post m k)
    dispatch-Post Opcode.getglobal = next-Post (getglobal-Post m k)
    dispatch-Post Opcode.pushgetglobal = next-Post (pushgetglobal-Post m k)
    dispatch-Post Opcode.getglobalfield = next-Post (getglobalfield-Post m k)
    dispatch-Post Opcode.pushgetglobalfield = next-Post (pushgetglobalfield-Post m k)
    dispatch-Post Opcode.setglobal = next-Post (setglobal-Post m k)
    dispatch-Post Opcode.atom0 = next-Post (atom_of-Post m k 0)
    dispatch-Post Opcode.atom = next-Post (atom_instr-Post m k)
    dispatch-Post Opcode.pushatom0 = next-Post (pushatom0-Post m k)
    dispatch-Post Opcode.pushatom = next-Post (pushatom-Post m k)
    dispatch-Post Opcode.makeblock = next-Post (makeblock-Post rt sound m k)
    dispatch-Post Opcode.makeblock1 = next-Post (makeblock_at-Post rt sound 0 m k)
    dispatch-Post Opcode.makeblock2 = next-Post (makeblock_at-Post rt sound 1 m k)
    dispatch-Post Opcode.makeblock3 = next-Post (makeblock_at-Post rt sound 2 m k)
    dispatch-Post Opcode.makefloatblock = next-Post (makefloatblock-Post rt sound m k)
    dispatch-Post Opcode.getfield0 = next-Post (getfield_at-Post m k 0)
    dispatch-Post Opcode.getfield1 = next-Post (getfield_at-Post m k 1)
    dispatch-Post Opcode.getfield2 = next-Post (getfield_at-Post m k 2)
    dispatch-Post Opcode.getfield3 = next-Post (getfield_at-Post m k 3)
    dispatch-Post Opcode.getfield = next-Post (getfield-Post m k)
    dispatch-Post Opcode.getfloatfield = next-Post (getfloatfield-Post rt sound m k)
    dispatch-Post Opcode.setfield0 = next-Post (setfield_at-Post m k 0)
    dispatch-Post Opcode.setfield1 = next-Post (setfield_at-Post m k 1)
    dispatch-Post Opcode.setfield2 = next-Post (setfield_at-Post m k 2)
    dispatch-Post Opcode.setfield3 = next-Post (setfield_at-Post m k 3)
    dispatch-Post Opcode.setfield = next-Post (setfield-Post m k)
    dispatch-Post Opcode.setfloatfield = next-Post (setfloatfield-Post m k)
    dispatch-Post Opcode.vectlength = next-Post (vectlength-Post m k)
    dispatch-Post Opcode.getvectitem = next-Post (getvectitem-Post m k)
    dispatch-Post Opcode.setvectitem = next-Post (setvectitem-Post m k)
    dispatch-Post Opcode.getbyteschar = next-Post (getbyteschar-Post m k)
    dispatch-Post Opcode.setbyteschar = next-Post (setbyteschar-Post m k)
    dispatch-Post Opcode.branch = next-Post (branch-Post m k)
    dispatch-Post Opcode.branchif = next-Post (branchif-Post m k)
    dispatch-Post Opcode.branchifnot = next-Post (branchifnot-Post m k)
    dispatch-Post Opcode.switch = next-Post (switch-Post m k)
    dispatch-Post Opcode.boolnot = next-Post (boolnot-Post m k)
    dispatch-Post Opcode.pushtrap = next-Post (pushtrap-Post m k)
    dispatch-Post Opcode.poptrap = next-Post (poptrap-Post rt sound m k)
    dispatch-Post Opcode.raise = raise_instr-Post rt sound m k
    dispatch-Post Opcode.check_signals = next-Post (check_signals-Post rt sound m k)
    dispatch-Post Opcode.c_call1 = next-Post (c_call-Post rt sound m k 0)
    dispatch-Post Opcode.c_call2 = next-Post (c_call-Post rt sound m k 1)
    dispatch-Post Opcode.c_call3 = next-Post (c_call-Post rt sound m k 2)
    dispatch-Post Opcode.c_call4 = next-Post (c_call-Post rt sound m k 3)
    dispatch-Post Opcode.c_call5 = next-Post (c_call-Post rt sound m k 4)
    dispatch-Post Opcode.c_calln = next-Post (c_calln-Post rt sound m k)
    dispatch-Post Opcode.const0 = next-Post (const_of-Post m k 0)
    dispatch-Post Opcode.const1 = next-Post (const_of-Post m k 1)
    dispatch-Post Opcode.const2 = next-Post (const_of-Post m k 2)
    dispatch-Post Opcode.const3 = next-Post (const_of-Post m k 3)
    dispatch-Post Opcode.constint = next-Post (constint-Post m k)
    dispatch-Post Opcode.pushconst0 = next-Post (pushconst_of-Post m k 0)
    dispatch-Post Opcode.pushconst1 = next-Post (pushconst_of-Post m k 1)
    dispatch-Post Opcode.pushconst2 = next-Post (pushconst_of-Post m k 2)
    dispatch-Post Opcode.pushconst3 = next-Post (pushconst_of-Post m k 3)
    dispatch-Post Opcode.pushconstint = next-Post (pushconstint-Post m k)
    dispatch-Post Opcode.negint = next-Post (negint-Post m k)
    dispatch-Post Opcode.addint = next-Post (addint-Post m k)
    dispatch-Post Opcode.subint = next-Post (subint-Post m k)
    dispatch-Post Opcode.mulint = next-Post (mulint-Post m k)
    dispatch-Post Opcode.divint = next-Post (divint-Post m k rt sound)
    dispatch-Post Opcode.modint = next-Post (modint-Post m k rt sound)
    dispatch-Post Opcode.andint = next-Post (andint-Post m k)
    dispatch-Post Opcode.orint = next-Post (orint-Post m k)
    dispatch-Post Opcode.xorint = next-Post (xorint-Post m k)
    dispatch-Post Opcode.lslint = next-Post (lslint-Post m k)
    dispatch-Post Opcode.lsrint = next-Post (lsrint-Post m k)
    dispatch-Post Opcode.asrint = next-Post (asrint-Post m k)
    dispatch-Post Opcode.eq = next-Post (eq_instr-Post m k)
    dispatch-Post Opcode.neq = next-Post (neq_instr-Post m k)
    dispatch-Post Opcode.ltint = next-Post (compare_by-Post m k lt_test)
    dispatch-Post Opcode.leint = next-Post (compare_by-Post m k le_test)
    dispatch-Post Opcode.gtint = next-Post (compare_by-Post m k gt_test)
    dispatch-Post Opcode.geint = next-Post (compare_by-Post m k ge_test)
    dispatch-Post Opcode.offsetint = next-Post (offsetint-Post m k)
    dispatch-Post Opcode.offsetref = next-Post (offsetref-Post m k)
    dispatch-Post Opcode.isint = next-Post (isint-Post m k)
    dispatch-Post Opcode.getmethod = next-Post (getmethod-Post m k)
    dispatch-Post Opcode.beq = next-Post (branch_by-Post m k eq_test)
    dispatch-Post Opcode.bneq = next-Post (branch_by-Post m k neq_test)
    dispatch-Post Opcode.bltint = next-Post (branch_by-Post m k lt_test)
    dispatch-Post Opcode.bleint = next-Post (branch_by-Post m k le_test)
    dispatch-Post Opcode.bgtint = next-Post (branch_by-Post m k gt_test)
    dispatch-Post Opcode.bgeint = next-Post (branch_by-Post m k ge_test)
    dispatch-Post Opcode.ultint = next-Post (compare_by-Post m k ult_test)
    dispatch-Post Opcode.ugeint = next-Post (compare_by-Post m k uge_test)
    dispatch-Post Opcode.bultint = next-Post (branch_by-Post m k ult_test)
    dispatch-Post Opcode.bugeint = next-Post (branch_by-Post m k uge_test)
    dispatch-Post Opcode.getpubmet = next-Post (getpubmet-Post m k)
    dispatch-Post Opcode.getdynmet = next-Post (getdynmet-Post m k)
    dispatch-Post Opcode.stop = stop-Post m k
    dispatch-Post Opcode.event = faults
    dispatch-Post Opcode.break = faults
    dispatch-Post Opcode.reraise = reraise_instr-Post rt sound m k
    dispatch-Post Opcode.raise_notrace = raise_notrace_instr-Post rt sound m k
    dispatch-Post Opcode.getstringchar = next-Post (getbyteschar-Post m k)
    dispatch-Post Opcode.perform = perform-Post rt sound m k
    dispatch-Post Opcode.resume = resume-Post rt sound m k
    dispatch-Post Opcode.resumeterm = resumeterm-Post rt sound m k
    dispatch-Post Opcode.reperformterm = reperformterm-Post rt sound m k
