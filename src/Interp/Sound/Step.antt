-- ===== src/Interp/Sound/Step.antt =====
-- One round of the loop, the landing of exceptions, and runs keep every word live.
use cc_implementation.Prelude.{
  ℕ, ◌-◌, ◌&&◌, ◌∷◌, get_elem?, get_or, leb, length, zero, suc, List, [], ◌≡◌, refl, Run, done,
  died, hangs,
}
use cc_implementation.Profile.{Profile, count_opcode}
use cc_implementation.Interp.Machine.{code, Machine}
use cc_implementation.Interp.Memory.{of_option, val_int, skip, same_value}
use cc_implementation.Interp.Runtime.{Runtime}
use cc_implementation.Interp.Opcodes.{Opcode, decode}
use cc_implementation.Interp.Apply.{of_run}
use cc_implementation.Interp.Control.{check_base}
use cc_implementation.Interp.Step.{debug, restart_instr, instruction, step}
use cc_implementation.Interp.Sound.{Kept, Post, returns, faults, bind}
use cc_implementation.Interp.Sound.Access.{of_option-Post, pop_words-Post, slot-Post}
use cc_implementation.Interp.Sound.Basic.{if_both}
use cc_implementation.Interp.Sound.Runtime.{Ends, IsSound, IsKept}
use cc_implementation.Interp.Sound.Frames.{with_stack}
use cc_implementation.Interp.Sound.Dispatch.{dispatch-Post}

module _ {h n : ℕ} {p : Profile → Type 0} (rt : Runtime) (sound : IsSound rt p)
    (books : IsKept rt p) where
  debug-Post : (event : ℕ) (m : Machine) → Kept h n p m → Post h n p (Kept h n p) (debug rt event m)
  unfolding debug
  debug-Post event m k =
      let s = m.accu ∷ code (m.pc - 1) ∷ m.env ∷ val_int m.extra_args ∷ m.stack in
      let r = rt.debugger event (record m { stack = s }) in
      let kr =
        sound.debugger h n event (record m { stack = s })
          (with_stack m k s (k.0.2, (tt, (k.0.3, (tt, k.0.1))))) in
      bind (slot-Post r kr 0) (λ a _. bind (slot-Post r kr 2) (λ e _.
        if_both (Post h n p (Kept h n p)) (same_value a r.accu && same_value e r.env)
          (pop_words-Post r kr 4) faults))

  restart_instr-Post : (m : Machine) → Kept h n p m → Post h n p (Ends h n p) (restart_instr rt m)
  unfolding restart_instr
  restart_instr-Post m k =
      bind (of_option-Post (decode (rt.saved_instruction m (m.pc - 1))))
        (λ op _. dispatch-Post rt sound books m k op)

  instruction-Post :
      (op : Opcode) (m : Machine) → Kept h n p m → Post h n p (Ends h n p) (instruction rt op m)
  unfolding instruction
  instruction-Post Opcode.event m k =
      bind (if_both (Post h n p (Kept h n p)) (rt.event_elapsed m) (debug-Post 1 m k) (returns _ k))
        restart_instr-Post
  instruction-Post Opcode.break m k = bind (debug-Post 2 m k) restart_instr-Post
  instruction-Post Opcode.acc0 m k = dispatch-Post rt sound books m k Opcode.acc0
  instruction-Post Opcode.acc1 m k = dispatch-Post rt sound books m k Opcode.acc1
  instruction-Post Opcode.acc2 m k = dispatch-Post rt sound books m k Opcode.acc2
  instruction-Post Opcode.acc3 m k = dispatch-Post rt sound books m k Opcode.acc3
  instruction-Post Opcode.acc4 m k = dispatch-Post rt sound books m k Opcode.acc4
  instruction-Post Opcode.acc5 m k = dispatch-Post rt sound books m k Opcode.acc5
  instruction-Post Opcode.acc6 m k = dispatch-Post rt sound books m k Opcode.acc6
  instruction-Post Opcode.acc7 m k = dispatch-Post rt sound books m k Opcode.acc7
  instruction-Post Opcode.acc m k = dispatch-Post rt sound books m k Opcode.acc
  instruction-Post Opcode.push m k = dispatch-Post rt sound books m k Opcode.push
  instruction-Post Opcode.pushacc0 m k = dispatch-Post rt sound books m k Opcode.pushacc0
  instruction-Post Opcode.pushacc1 m k = dispatch-Post rt sound books m k Opcode.pushacc1
  instruction-Post Opcode.pushacc2 m k = dispatch-Post rt sound books m k Opcode.pushacc2
  instruction-Post Opcode.pushacc3 m k = dispatch-Post rt sound books m k Opcode.pushacc3
  instruction-Post Opcode.pushacc4 m k = dispatch-Post rt sound books m k Opcode.pushacc4
  instruction-Post Opcode.pushacc5 m k = dispatch-Post rt sound books m k Opcode.pushacc5
  instruction-Post Opcode.pushacc6 m k = dispatch-Post rt sound books m k Opcode.pushacc6
  instruction-Post Opcode.pushacc7 m k = dispatch-Post rt sound books m k Opcode.pushacc7
  instruction-Post Opcode.pushacc m k = dispatch-Post rt sound books m k Opcode.pushacc
  instruction-Post Opcode.pop m k = dispatch-Post rt sound books m k Opcode.pop
  instruction-Post Opcode.assign m k = dispatch-Post rt sound books m k Opcode.assign
  instruction-Post Opcode.envacc1 m k = dispatch-Post rt sound books m k Opcode.envacc1
  instruction-Post Opcode.envacc2 m k = dispatch-Post rt sound books m k Opcode.envacc2
  instruction-Post Opcode.envacc3 m k = dispatch-Post rt sound books m k Opcode.envacc3
  instruction-Post Opcode.envacc4 m k = dispatch-Post rt sound books m k Opcode.envacc4
  instruction-Post Opcode.envacc m k = dispatch-Post rt sound books m k Opcode.envacc
  instruction-Post Opcode.pushenvacc1 m k = dispatch-Post rt sound books m k Opcode.pushenvacc1
  instruction-Post Opcode.pushenvacc2 m k = dispatch-Post rt sound books m k Opcode.pushenvacc2
  instruction-Post Opcode.pushenvacc3 m k = dispatch-Post rt sound books m k Opcode.pushenvacc3
  instruction-Post Opcode.pushenvacc4 m k = dispatch-Post rt sound books m k Opcode.pushenvacc4
  instruction-Post Opcode.pushenvacc m k = dispatch-Post rt sound books m k Opcode.pushenvacc
  instruction-Post Opcode.push_retaddr m k = dispatch-Post rt sound books m k Opcode.push_retaddr
  instruction-Post Opcode.apply m k = dispatch-Post rt sound books m k Opcode.apply
  instruction-Post Opcode.apply1 m k = dispatch-Post rt sound books m k Opcode.apply1
  instruction-Post Opcode.apply2 m k = dispatch-Post rt sound books m k Opcode.apply2
  instruction-Post Opcode.apply3 m k = dispatch-Post rt sound books m k Opcode.apply3
  instruction-Post Opcode.appterm m k = dispatch-Post rt sound books m k Opcode.appterm
  instruction-Post Opcode.appterm1 m k = dispatch-Post rt sound books m k Opcode.appterm1
  instruction-Post Opcode.appterm2 m k = dispatch-Post rt sound books m k Opcode.appterm2
  instruction-Post Opcode.appterm3 m k = dispatch-Post rt sound books m k Opcode.appterm3
  instruction-Post Opcode.return m k = dispatch-Post rt sound books m k Opcode.return
  instruction-Post Opcode.restart m k = dispatch-Post rt sound books m k Opcode.restart
  instruction-Post Opcode.grab m k = dispatch-Post rt sound books m k Opcode.grab
  instruction-Post Opcode.closure m k = dispatch-Post rt sound books m k Opcode.closure
  instruction-Post Opcode.closurerec m k = dispatch-Post rt sound books m k Opcode.closurerec
  instruction-Post Opcode.offsetclosurem3 m k =
      dispatch-Post rt sound books m k Opcode.offsetclosurem3
  instruction-Post Opcode.offsetclosure0 m k =
      dispatch-Post rt sound books m k Opcode.offsetclosure0
  instruction-Post Opcode.offsetclosure3 m k =
      dispatch-Post rt sound books m k Opcode.offsetclosure3
  instruction-Post Opcode.offsetclosure m k = dispatch-Post rt sound books m k Opcode.offsetclosure
  instruction-Post Opcode.pushoffsetclosurem3 m k =
      dispatch-Post rt sound books m k Opcode.pushoffsetclosurem3
  instruction-Post Opcode.pushoffsetclosure0 m k =
      dispatch-Post rt sound books m k Opcode.pushoffsetclosure0
  instruction-Post Opcode.pushoffsetclosure3 m k =
      dispatch-Post rt sound books m k Opcode.pushoffsetclosure3
  instruction-Post Opcode.pushoffsetclosure m k =
      dispatch-Post rt sound books m k Opcode.pushoffsetclosure
  instruction-Post Opcode.getglobal m k = dispatch-Post rt sound books m k Opcode.getglobal
  instruction-Post Opcode.pushgetglobal m k = dispatch-Post rt sound books m k Opcode.pushgetglobal
  instruction-Post Opcode.getglobalfield m k =
      dispatch-Post rt sound books m k Opcode.getglobalfield
  instruction-Post Opcode.pushgetglobalfield m k =
      dispatch-Post rt sound books m k Opcode.pushgetglobalfield
  instruction-Post Opcode.setglobal m k = dispatch-Post rt sound books m k Opcode.setglobal
  instruction-Post Opcode.atom0 m k = dispatch-Post rt sound books m k Opcode.atom0
  instruction-Post Opcode.atom m k = dispatch-Post rt sound books m k Opcode.atom
  instruction-Post Opcode.pushatom0 m k = dispatch-Post rt sound books m k Opcode.pushatom0
  instruction-Post Opcode.pushatom m k = dispatch-Post rt sound books m k Opcode.pushatom
  instruction-Post Opcode.makeblock m k = dispatch-Post rt sound books m k Opcode.makeblock
  instruction-Post Opcode.makeblock1 m k = dispatch-Post rt sound books m k Opcode.makeblock1
  instruction-Post Opcode.makeblock2 m k = dispatch-Post rt sound books m k Opcode.makeblock2
  instruction-Post Opcode.makeblock3 m k = dispatch-Post rt sound books m k Opcode.makeblock3
  instruction-Post Opcode.makefloatblock m k =
      dispatch-Post rt sound books m k Opcode.makefloatblock
  instruction-Post Opcode.getfield0 m k = dispatch-Post rt sound books m k Opcode.getfield0
  instruction-Post Opcode.getfield1 m k = dispatch-Post rt sound books m k Opcode.getfield1
  instruction-Post Opcode.getfield2 m k = dispatch-Post rt sound books m k Opcode.getfield2
  instruction-Post Opcode.getfield3 m k = dispatch-Post rt sound books m k Opcode.getfield3
  instruction-Post Opcode.getfield m k = dispatch-Post rt sound books m k Opcode.getfield
  instruction-Post Opcode.getfloatfield m k = dispatch-Post rt sound books m k Opcode.getfloatfield
  instruction-Post Opcode.setfield0 m k = dispatch-Post rt sound books m k Opcode.setfield0
  instruction-Post Opcode.setfield1 m k = dispatch-Post rt sound books m k Opcode.setfield1
  instruction-Post Opcode.setfield2 m k = dispatch-Post rt sound books m k Opcode.setfield2
  instruction-Post Opcode.setfield3 m k = dispatch-Post rt sound books m k Opcode.setfield3
  instruction-Post Opcode.setfield m k = dispatch-Post rt sound books m k Opcode.setfield
  instruction-Post Opcode.setfloatfield m k = dispatch-Post rt sound books m k Opcode.setfloatfield
  instruction-Post Opcode.vectlength m k = dispatch-Post rt sound books m k Opcode.vectlength
  instruction-Post Opcode.getvectitem m k = dispatch-Post rt sound books m k Opcode.getvectitem
  instruction-Post Opcode.setvectitem m k = dispatch-Post rt sound books m k Opcode.setvectitem
  instruction-Post Opcode.getbyteschar m k = dispatch-Post rt sound books m k Opcode.getbyteschar
  instruction-Post Opcode.setbyteschar m k = dispatch-Post rt sound books m k Opcode.setbyteschar
  instruction-Post Opcode.branch m k = dispatch-Post rt sound books m k Opcode.branch
  instruction-Post Opcode.branchif m k = dispatch-Post rt sound books m k Opcode.branchif
  instruction-Post Opcode.branchifnot m k = dispatch-Post rt sound books m k Opcode.branchifnot
  instruction-Post Opcode.switch m k = dispatch-Post rt sound books m k Opcode.switch
  instruction-Post Opcode.boolnot m k = dispatch-Post rt sound books m k Opcode.boolnot
  instruction-Post Opcode.pushtrap m k = dispatch-Post rt sound books m k Opcode.pushtrap
  instruction-Post Opcode.poptrap m k = dispatch-Post rt sound books m k Opcode.poptrap
  instruction-Post Opcode.raise m k = dispatch-Post rt sound books m k Opcode.raise
  instruction-Post Opcode.check_signals m k = dispatch-Post rt sound books m k Opcode.check_signals
  instruction-Post Opcode.c_call1 m k = dispatch-Post rt sound books m k Opcode.c_call1
  instruction-Post Opcode.c_call2 m k = dispatch-Post rt sound books m k Opcode.c_call2
  instruction-Post Opcode.c_call3 m k = dispatch-Post rt sound books m k Opcode.c_call3
  instruction-Post Opcode.c_call4 m k = dispatch-Post rt sound books m k Opcode.c_call4
  instruction-Post Opcode.c_call5 m k = dispatch-Post rt sound books m k Opcode.c_call5
  instruction-Post Opcode.c_calln m k = dispatch-Post rt sound books m k Opcode.c_calln
  instruction-Post Opcode.const0 m k = dispatch-Post rt sound books m k Opcode.const0
  instruction-Post Opcode.const1 m k = dispatch-Post rt sound books m k Opcode.const1
  instruction-Post Opcode.const2 m k = dispatch-Post rt sound books m k Opcode.const2
  instruction-Post Opcode.const3 m k = dispatch-Post rt sound books m k Opcode.const3
  instruction-Post Opcode.constint m k = dispatch-Post rt sound books m k Opcode.constint
  instruction-Post Opcode.pushconst0 m k = dispatch-Post rt sound books m k Opcode.pushconst0
  instruction-Post Opcode.pushconst1 m k = dispatch-Post rt sound books m k Opcode.pushconst1
  instruction-Post Opcode.pushconst2 m k = dispatch-Post rt sound books m k Opcode.pushconst2
  instruction-Post Opcode.pushconst3 m k = dispatch-Post rt sound books m k Opcode.pushconst3
  instruction-Post Opcode.pushconstint m k = dispatch-Post rt sound books m k Opcode.pushconstint
  instruction-Post Opcode.negint m k = dispatch-Post rt sound books m k Opcode.negint
  instruction-Post Opcode.addint m k = dispatch-Post rt sound books m k Opcode.addint
  instruction-Post Opcode.subint m k = dispatch-Post rt sound books m k Opcode.subint
  instruction-Post Opcode.mulint m k = dispatch-Post rt sound books m k Opcode.mulint
  instruction-Post Opcode.divint m k = dispatch-Post rt sound books m k Opcode.divint
  instruction-Post Opcode.modint m k = dispatch-Post rt sound books m k Opcode.modint
  instruction-Post Opcode.andint m k = dispatch-Post rt sound books m k Opcode.andint
  instruction-Post Opcode.orint m k = dispatch-Post rt sound books m k Opcode.orint
  instruction-Post Opcode.xorint m k = dispatch-Post rt sound books m k Opcode.xorint
  instruction-Post Opcode.lslint m k = dispatch-Post rt sound books m k Opcode.lslint
  instruction-Post Opcode.lsrint m k = dispatch-Post rt sound books m k Opcode.lsrint
  instruction-Post Opcode.asrint m k = dispatch-Post rt sound books m k Opcode.asrint
  instruction-Post Opcode.eq m k = dispatch-Post rt sound books m k Opcode.eq
  instruction-Post Opcode.neq m k = dispatch-Post rt sound books m k Opcode.neq
  instruction-Post Opcode.ltint m k = dispatch-Post rt sound books m k Opcode.ltint
  instruction-Post Opcode.leint m k = dispatch-Post rt sound books m k Opcode.leint
  instruction-Post Opcode.gtint m k = dispatch-Post rt sound books m k Opcode.gtint
  instruction-Post Opcode.geint m k = dispatch-Post rt sound books m k Opcode.geint
  instruction-Post Opcode.offsetint m k = dispatch-Post rt sound books m k Opcode.offsetint
  instruction-Post Opcode.offsetref m k = dispatch-Post rt sound books m k Opcode.offsetref
  instruction-Post Opcode.isint m k = dispatch-Post rt sound books m k Opcode.isint
  instruction-Post Opcode.getmethod m k = dispatch-Post rt sound books m k Opcode.getmethod
  instruction-Post Opcode.beq m k = dispatch-Post rt sound books m k Opcode.beq
  instruction-Post Opcode.bneq m k = dispatch-Post rt sound books m k Opcode.bneq
  instruction-Post Opcode.bltint m k = dispatch-Post rt sound books m k Opcode.bltint
  instruction-Post Opcode.bleint m k = dispatch-Post rt sound books m k Opcode.bleint
  instruction-Post Opcode.bgtint m k = dispatch-Post rt sound books m k Opcode.bgtint
  instruction-Post Opcode.bgeint m k = dispatch-Post rt sound books m k Opcode.bgeint
  instruction-Post Opcode.ultint m k = dispatch-Post rt sound books m k Opcode.ultint
  instruction-Post Opcode.ugeint m k = dispatch-Post rt sound books m k Opcode.ugeint
  instruction-Post Opcode.bultint m k = dispatch-Post rt sound books m k Opcode.bultint
  instruction-Post Opcode.bugeint m k = dispatch-Post rt sound books m k Opcode.bugeint
  instruction-Post Opcode.getpubmet m k = dispatch-Post rt sound books m k Opcode.getpubmet
  instruction-Post Opcode.getdynmet m k = dispatch-Post rt sound books m k Opcode.getdynmet
  instruction-Post Opcode.stop m k = dispatch-Post rt sound books m k Opcode.stop
  instruction-Post Opcode.reraise m k = dispatch-Post rt sound books m k Opcode.reraise
  instruction-Post Opcode.raise_notrace m k = dispatch-Post rt sound books m k Opcode.raise_notrace
  instruction-Post Opcode.getstringchar m k = dispatch-Post rt sound books m k Opcode.getstringchar
  instruction-Post Opcode.perform m k = dispatch-Post rt sound books m k Opcode.perform
  instruction-Post Opcode.resume m k = dispatch-Post rt sound books m k Opcode.resume
  instruction-Post Opcode.resumeterm m k = dispatch-Post rt sound books m k Opcode.resumeterm
  instruction-Post Opcode.reperformterm m k = dispatch-Post rt sound books m k Opcode.reperformterm

module _ {h n : ℕ} {p : Profile → Type 0} where
  -- The assertion on the stack pointer changes nothing.
  check_base-Post {ℓ} : (P : Machine → Type ℓ) (m : Machine) → P m → Post h n p P (check_base m)
  unfolding check_base
  check_base-Post P m l =
      bind
        (bind (of_option-Post (get_elem? m.fibers m.current_stack)) (λ slot _. of_option-Post slot))
        (λ f _. if_both (Post h n p P) (leb (length m.stack) f.words) (returns _ l) faults)

  -- The opcode at `pc`.
  found-Post :
      (ns : List ℕ) (i : ℕ) → Post h n p (λ o. get_or ns i 0 ≡ o) (of_option (get_elem? ns i))
  found-Post [] i = faults
  found-Post (o ∷ ns) zero = returns o refl
  found-Post (o ∷ ns) (suc i) = found-Post ns i

-- What the fetch at `pc` finds.
abbrev pub fetched : Machine → ℕ
fetched m = get_or m.code m.pc 0

-- One round, whose count of the fetched opcode leads to counters that satisfy `p`.
pub step-Post :
    {h n : ℕ} {p q : Profile → Type 0} (rt : Runtime)
    → IsSound rt p
    → IsKept rt p
    → (m : Machine) → Kept h n q m
    → ((r : Profile) → count_opcode m.profile (fetched m) ≡ done r → p r)
    → Post h n p (Ends h n p) (step rt m)
unfolding step
step-Post {h} {n} {p} {q} rt sound books m₀ k₀ counts₀ =
    let counted : Machine → Type 0 =
      λ m. Kept h n q m × ((r : Profile) → count_opcode m.profile (fetched m) ≡ done r → p r) in
    bind (check_base-Post counted m₀ (k₀, counts₀)) (λ m (k, counts).
      bind (found-Post m.code m.pc) (λ o at.
        bind (counted-Post m k (count_opcode m.profile o) (λ r e. counts r (rw at e))) (λ r kr.
          bind (of_option-Post (decode o))
            (λ op _. instruction-Post rt sound books op (skip r) kr))))
  where
    counted-Post :
        (m : Machine)
        → Kept h n q m
        → (e : Run Profile) → ((r : Profile) → e ≡ done r → p r)
        → Post h n p (Kept h n p) (of_run m e)
    counted-Post m k (done r) holds = returns _ (k.0, k.1, k.2, record { holds = holds r refl })
    counted-Post m k died holds = faults
    counted-Post m k hangs holds = faults
