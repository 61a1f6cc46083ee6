-- ===== src/Interp/Sound/Perform.antt =====
-- PERFORM and REPERFORMTERM keep every word live.
use cc_implementation.Prelude.{ℕ, ◌<◌, arith, [], ◌∷◌, Option, none, some, length}
use cc_implementation.Profile.{Profile}
use cc_implementation.Interp.Machine.{
  Value, word, ptr, atom, code, fiber, Fiber, Machine, Exec, ok, fault, ◌>>=◌, Signal, next,
}
use cc_implementation.Interp.Memory.{val_int, load, new_block, cont_tag}
use cc_implementation.Interp.Runtime.{Runtime}
use cc_implementation.Interp.Control.{check_stacks, poll_gc}
use cc_implementation.Interp.Effects.{
  unhandled_exn, check_orphan, set_parent, save_stack, handle_on, raise_global, do_resume, perform,
  reperformterm,
}
use cc_implementation.Interp.Sound.{
  own, FiberIsLive, Kept, Kept-refl, Kept-trans, Keeps-Post, Live-later, Live, AllLive, Post,
  returns, faults, bind,
}
use cc_implementation.Interp.Sound.Access.{with_accu, operand-Post, slot-Post, drop-Post, load-Post}
use cc_implementation.Interp.Sound.Store.{new_block-Kept, new_block-Live}
use cc_implementation.Interp.Sound.Runtime.{Ends, IsSound}
use cc_implementation.Interp.Sound.Frames.{with_stack, fiber_at-Post}
use cc_implementation.Interp.Sound.Control.{check_stacks-Post, poll_gc-Post}
use cc_implementation.Interp.Sound.Effects.{
  check_orphan-Post, set_parent-Post, save_stack-Post, handle_on-Post, checked-Post,
  raise_global-Post, do_resume-Post,
}
use cc_implementation.Interp.Machine.{returned, uncaught}

-- An instruction may count from its own machine what it keeps.
pub own_Ends :
    {h n : ℕ} {p : Profile → Type 0} (m : Machine) {e : Exec Signal}
    → Kept h n p m
    → Post (length m.heap) (length m.fibers) p (Ends (length m.heap) (length m.fibers) p) e
    → Post h n p (Ends h n p) e
own_Ends {h} {n} {p} m k l = Keeps-Post m k l ends
  where
    ends : (s : Signal) → Ends (length m.heap) (length m.fibers) p s → Ends h n p s
    ends (next r) kr = Kept-trans m r k kr
    ends (returned v r) kr = (kr.0, Kept-trans m r k kr.1)
    ends (uncaught v r) kr = (kr.0, Kept-trans m r k kr.1)

module _ {h n : ℕ} {p : Profile → Type 0} where
  -- The last stack of the continuation is linked to the performing one.
  unlinked-Post :
      (m : Machine) (self last : ℕ)
      → Kept h n p m
      → self < length m.fibers
      → Post h n p
          (Kept h n p)
          (check_orphan last m >>= set_parent self none >>= set_parent last (some self))
  unlinked-Post m self last k ls = own m k (
      bind
        (bind (check_orphan-Post m (Kept-refl m k) last)
          (λ r kr. set_parent-Post r kr self none tt))
        (λ r kr. set_parent-Post r kr last (some self) (omega (arith, kr.2, ls))))

module _ {h n : ℕ} {p : Profile → Type 0} (rt : Runtime) (sound : IsSound rt p) where
  -- The switch of PERFORM to the parent.
  performed-Post :
      (m : Machine) (self parent : ℕ) (handler : Value)
      → Kept h n p m
      → self < length m.fibers
      → Live m handler
      → Post h n p (Ends h n p) (
          poll_gc rt m >>= λ m₁.
          save_stack (record m₁ {
            stack = val_int m₁.trap_sp_off ∷ code m₁.pc ∷ m₁.env ∷ val_int m₁.extra_args ∷ m₁.stack;
          })
          >>= λ m₂. set_parent self none m₂ >>= λ m₃.
              handle_on self parent handler
                (new_block m₃ cont_tag (fiber self ∷ [])).1.accu
                (new_block m₃ cont_tag (fiber self ∷ [])).0
                (new_block m₃ cont_tag (fiber self ∷ [])).1
              >>= λ m₅. check_stacks rt m₅ >>= λ m₆. ok (next m₆))
  performed-Post m self parent handler k ls lh = own_Ends m k (
      bind (poll_gc-Post rt sound m (Kept-refl m k)) (λ m₁ k₁.
        let s = val_int m₁.trap_sp_off ∷ code m₁.pc ∷ m₁.env ∷ val_int m₁.extra_args ∷ m₁.stack in
        bind
          (save_stack-Post (record m₁ { stack = s })
            (with_stack m₁ k₁ s (tt, (tt, (k₁.0.3, (tt, k₁.0.1))))))
          (λ m₂ k₂. bind (set_parent-Post m₂ k₂ self none tt) (λ m₃ k₃.
            let fields = fiber self ∷ [] in
            let m₄ = (new_block m₃ cont_tag fields).1 in
            let l₃ : AllLive m₃ fields = (omega (arith, k₃.2, ls), tt) in
            let k₄ = Kept-trans m₃ m₄ k₃ (new_block-Kept m₃ (Kept-refl m₃ k₃) cont_tag fields l₃) in
            bind
              (handle_on-Post m₄ k₄ self parent handler m₄.accu (new_block m₃ cont_tag fields).0
                (omega (arith, k₄.2, ls)) (Live-later m m₄ handler k₄.1 k₄.2 lh) k₄.0.2
                (new_block-Live m₃ k₃ cont_tag fields))
              (λ m₅ k₅. bind (check_stacks-Post rt sound m₅ k₅) (λ m₆ k₆. returns (next m₆) k₆))))))

  pub perform-Post : (m : Machine) → Kept h n p m → Post h n p (Ends h n p) (perform rt m)
  unfolding perform
  perform-Post m k = bind (fiber_at-Post m k m.current_stack) (λ f lf. to f lf.0 f.parent)
    where
      to :
          (f : Fiber)
          → FiberIsLive (length m.heap) (length m.fibers) f
          → (parent : Option ℕ)
          → Post h n p (Ends h n p) (elim parent [
            | none ↦ raise_global rt unhandled_exn m
            | some i ↦ poll_gc rt m >>= λ m₁.
                save_stack (record m₁ {
                  stack =
                      val_int m₁.trap_sp_off
                      ∷ code m₁.pc
                      ∷ m₁.env
                      ∷ val_int m₁.extra_args
                      ∷ m₁.stack;
                })
                >>= λ m₂. set_parent m.current_stack none m₂ >>= λ m₃.
                    handle_on m.current_stack i f.handle_effect
                      (new_block m₃ cont_tag (fiber m.current_stack ∷ [])).1.accu
                      (new_block m₃ cont_tag (fiber m.current_stack ∷ [])).0
                      (new_block m₃ cont_tag (fiber m.current_stack ∷ [])).1
                    >>= λ m₅. check_stacks rt m₅ >>= λ m₆. ok (next m₆)
          ])
      to f l none = raise_global-Post rt sound unhandled_exn m k
      to f l (some i) = performed-Post m m.current_stack i f.handle_effect k k.0.4.2 l.handle_effect

  -- The switch of REPERFORMTERM: the continuation grows by the stack that runs.
  reperformed-Post :
      (m : Machine) (self parent : ℕ) (tail handler eff cont : Value)
      → Kept h n p m
      → self < length m.fibers
      → Live m handler
      → Live m eff
      → Live m cont
      → Post h n p (Ends h n p) (elim tail [
        | fiber last ↦
            check_orphan last m
            >>= set_parent self none
            >>= set_parent last (some self)
            >>= handle_on self parent handler eff cont
            >>= check_stacks rt
            >>= λ m₃. ok (next m₃)
        | _ ↦ fault
      ])
  reperformed-Post m self parent (fiber last) handler eff cont k ls lh le lc = own_Ends m k (
      checked-Post rt sound (
        bind (unlinked-Post m self last (Kept-refl m k) ls) (λ r kr.
          handle_on-Post r kr self parent handler eff cont (omega (arith, kr.2, ls))
            (Live-later m r handler kr.1 kr.2 lh) (Live-later m r eff kr.1 kr.2 le)
            (Live-later m r cont kr.1 kr.2 lc))))
  reperformed-Post m self parent (word w) handler eff cont k ls lh le lc = faults
  reperformed-Post m self parent (ptr b o) handler eff cont k ls lh le lc = faults
  reperformed-Post m self parent (atom tag) handler eff cont k ls lh le lc = faults
  reperformed-Post m self parent (code pc) handler eff cont k ls lh le lc = faults

module _ {h n : ℕ} {p : Profile → Type 0} (rt : Runtime) (sound : IsSound rt p) where
  -- REPERFORMTERM, with the frame taken off: the parent handles the effect, or there is none.
  onward-Post :
      (m : Machine) (f : Fiber) (tail eff cont : Value)
      → Kept h n p m
      → FiberIsLive (length m.heap) (length m.fibers) f
      → Live m eff
      → Live m cont
      → (parent : Option ℕ)
      → Post h n p (Ends h n p) (elim parent [
        | none ↦ rt.continuation_use cont m >>= λ q.
            (load q.1 q.1.global_data unhandled_exn >>= λ exn.
            do_resume rt q.1.raise_unhandled exn (record q.1 { accu = q.0 }))
        | some i ↦ save_stack m >>= λ m₂. elim tail [
          | fiber last ↦
              check_orphan last m₂
              >>= set_parent m.current_stack none
              >>= set_parent last (some m.current_stack)
              >>= handle_on m.current_stack i f.handle_effect eff cont
              >>= check_stacks rt
              >>= λ m₃. ok (next m₃)
          | _ ↦ fault
        ]
      ])
  onward-Post m f tail eff cont k l le lc none =
      bind (sound.continuation_use h n cont m k lc) (λ q kq.
        bind (load-Post q.1 kq.1 q.1.global_data unhandled_exn) (λ exn lx.
          do_resume-Post rt sound q.1.raise_unhandled exn (record q.1 { accu = q.0 })
            (with_accu q.1 kq.1 q.0 kq.0) kq.1.0.4.1 lx))
  onward-Post m f tail eff cont k l le lc (some i) = own_Ends m k (
      bind (save_stack-Post m (Kept-refl m k)) (λ r kr.
        reperformed-Post rt sound r m.current_stack i tail f.handle_effect eff cont kr
          (omega (arith, kr.2, k.0.4.2)) (Live-later m r f.handle_effect kr.1 kr.2 l.handle_effect)
          (Live-later m r eff kr.1 kr.2 le) (Live-later m r cont kr.1 kr.2 lc)))

  pub reperformterm-Post :
      (m : Machine) → Kept h n p m → Post h n p (Ends h n p) (reperformterm rt m)
  unfolding reperformterm
  reperformterm-Post m k = bind (slot-Post m k 0) (λ cont lc. bind (slot-Post m k 1) (λ tail _.
      bind (operand-Post m) (λ i _. bind (drop-Post i m.stack k.0.1) (λ rest lr.
        let s = val_int m.trap_sp_off ∷ val_int m.extra_args ∷ rest in
        let m₁ = record m { stack = s } in
        let k₁ = with_stack m k s (tt, (tt, lr)) in
        bind (fiber_at-Post m₁ k₁ m.current_stack)
          (λ f lf. onward-Post m₁ f tail m.accu cont k₁ lf.0 k.0.2 lc f.parent)))))
