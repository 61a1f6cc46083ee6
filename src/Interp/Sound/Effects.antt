-- ===== src/Interp/Sound/Effects.antt =====
-- Context switching keeps every word live.
use cc_implementation.Prelude.{
  ℕ, zero, suc, ◌<◌, ◌∷◌, Option, none, some, ◌==◌, if◌then◌else◌, length,
}
use cc_implementation.Profile.{Profile}
use cc_implementation.Word.{add64}
use cc_implementation.Interp.Machine.{
  Value, word, ptr, atom, code, fiber, Machine, Exec, ok, fault, ◌>>=◌, next,
}
use cc_implementation.Interp.Memory.{val_int}
use cc_implementation.Interp.Runtime.{Runtime}
use cc_implementation.Interp.Control.{check_stacks}
use cc_implementation.Interp.Effects.{
  continuation_already_taken_exn, check_orphan, set_parent, save_stack, last_parent, resume_on,
  handle_on, raise_global, do_resume, resume, resumeterm,
}
use cc_implementation.Interp.Sound.{
  ParentIsLive, Kept, Kept-refl, own, Live-later, Live, Post, returns, faults, bind,
}
use cc_implementation.Interp.Sound.Access.{
  with_accu, registers, operand-Post, slot-Post, drop-Post, load-Post, as_long-Post, code_val-Post,
}
use cc_implementation.Interp.Sound.Basic.{if_both}
use cc_implementation.Interp.Sound.Runtime.{Ends, IsSound}
use cc_implementation.Interp.Sound.Frames.{with_stack, fiber_at-Post, put_fiber-Kept, on_stack}
use cc_implementation.Interp.Sound.Control.{check_stacks-Post, raise_instr-Post}

module _ {h n : ℕ} {p : Profile → Type 0} (m : Machine) (k : Kept h n p m) where
  pub set_parent-Post :
      (i : ℕ) (parent : Option ℕ)
      → ParentIsLive (length m.fibers) parent
      → Post h n p (Kept h n p) (set_parent i parent m)
  unfolding set_parent
  set_parent-Post i parent l = bind (fiber_at-Post m k i) (λ f lf. returns _ (
      put_fiber-Kept m k i (record f { parent = parent })
        (record {
          saved = lf.0.saved;
          parent = l;
          handle_value = lf.0.handle_value;
          handle_exn = lf.0.handle_exn;
          handle_effect = lf.0.handle_effect;
        })))

  pub save_stack-Post : Post h n p (Kept h n p) (save_stack m)
  unfolding save_stack
  save_stack-Post = bind (fiber_at-Post m k m.current_stack) (λ f lf. returns _ (
      put_fiber-Kept m k m.current_stack (record f { saved = m.stack })
        (record {
          saved = k.0.1;
          parent = lf.0.parent;
          handle_value = lf.0.handle_value;
          handle_exn = lf.0.handle_exn;
          handle_effect = lf.0.handle_effect;
        })))

  pub check_orphan-Post : (i : ℕ) → Post h n p (Kept h n p) (check_orphan i m)
  unfolding check_orphan
  check_orphan-Post i = bind (fiber_at-Post m k i) (λ f _. alone f.parent)
    where
      alone :
          (parent : Option ℕ)
          → Post h n p (Kept h n p) (elim parent [ none ↦ ok m | some _ ↦ fault ])
      alone none = returns _ k
      alone (some _) = faults

  -- The chain of parents ends at one of the stacks.
  pub last_parent-Post : (fuel i : ℕ) → Post h n p (λ (_ : ℕ). Unit {0}) (last_parent fuel m i)
  unfolding last_parent
  last_parent-Post zero i = faults
  last_parent-Post (suc fuel) i =
      bind (fiber_at-Post m k i) (λ f _. up f.parent (last_parent-Post fuel))
    where
      up :
          (parent : Option ℕ)
          → ((j : ℕ) → Post h n p (λ (_ : ℕ). Unit {0}) (last_parent fuel m j))
          → Post h n p
              (λ (_ : ℕ). Unit {0})
              (elim parent [ none ↦ ok i | some j ↦ last_parent fuel m j ])
      up none more = returns i tt
      up (some j) more = more j

module _ {h n : ℕ} {p : Profile → Type 0} (m : Machine) (k : Kept h n p m) where
  pub handle_on-Post :
      (self parent : ℕ) (handler eff cont : Value)
      → self < length m.fibers
      → Live m handler
      → Live m eff
      → Live m cont
      → Post h n p (Kept h n p) (handle_on self parent handler eff cont m)
  unfolding handle_on
  handle_on-Post self parent handler eff cont ls lh le lc = bind (fiber_at-Post m k parent) (λ f lf.
      let there = record m { stack = f.saved; current_stack = parent } in
      let kt = on_stack m k parent f.saved lf.1 lf.0.saved in
      bind (slot-Post there kt 0) (λ trap _. bind (as_long-Post trap) (λ off _.
        bind (slot-Post there kt 1) (λ args _. bind (as_long-Post args) (λ extra _.
          bind (drop-Post 2 f.saved kt.0.1) (λ rest lr. bind (code_val-Post m k handler) (λ pc _.
            returns _ (
              registers (record there { trap_sp_off = off; extra_args = add64 extra 2; pc = pc }) kt
                (eff ∷ (cont ∷ (fiber self ∷ rest))) handler handler (le, (lc, (ls, lr))) lh
                lh))))))))

  pub resume_on-Post :
      (i : ℕ) (fn arg : Value)
      → Live m fn
      → Live m arg
      → Post h n p (Kept h n p) (resume_on i fn arg m)
  unfolding resume_on
  resume_on-Post i fn arg lf la = own m k (
      bind (last_parent-Post m (Kept-refl m k) (suc (length m.fibers)) i) (λ last _.
        bind (set_parent-Post m (Kept-refl m k) last (some m.current_stack) k.0.4.2) (λ m₁ k₁.
          bind (save_stack-Post m₁ k₁) (λ m₂ k₂. bind (fiber_at-Post m₂ k₂ i) (λ f ls.
            bind (slot-Post (record m₂ { stack = f.saved }) (with_stack m₂ k₂ f.saved ls.0.saved) 0)
              (λ trap _. bind (as_long-Post trap) (λ off _.
                bind (drop-Post 1 f.saved ls.0.saved) (λ rest lr.
                  bind (code_val-Post m₂ k₂ fn) (λ pc _. returns _ (
                    registers
                      (record m₂ { current_stack = i; trap_sp_off = off; pc = pc; extra_args = 0 })
                      (on_stack m₂ k₂ i m₂.stack ls.1 k₂.0.1) (arg ∷ rest) fn fn
                      (Live-later m m₂ arg k₂.1 k₂.2 la, lr) (Live-later m m₂ fn k₂.1 k₂.2 lf)
                      (Live-later m m₂ fn k₂.1 k₂.2 lf)))))))))))

module _ {h n : ℕ} {p : Profile → Type 0} (rt : Runtime) (sound : IsSound rt p) where
  -- An operation that ends by `Next`, with the stack check.
  pub checked-Post :
      {e : Exec Machine}
      → Post h n p (Kept h n p) e
      → Post h n p (Ends h n p) (e >>= check_stacks rt >>= λ m'. ok (next m'))
  checked-Post l =
      bind (bind l (λ r kr. check_stacks-Post rt sound r kr)) (λ r kr. returns (next r) kr)

  pub raise_global-Post :
      (i : ℕ) (m : Machine) → Kept h n p m → Post h n p (Ends h n p) (raise_global rt i m)
  unfolding raise_global
  raise_global-Post i m k =
      bind (load-Post m k m.global_data i)
        (λ exn l. raise_instr-Post rt sound (record m { accu = exn }) (with_accu m k exn l))

  pub do_resume-Post :
      (fn arg : Value) (m : Machine)
      → Kept h n p m
      → Live m fn
      → Live m arg
      → Post h n p (Ends h n p) (do_resume rt fn arg m)
  unfolding do_resume
  do_resume-Post fn arg m k lf la = taken m.accu
    where
      taken :
          (v : Value)
          → Post h n p (Ends h n p) (elim v [
            | fiber i ↦ resume_on i fn arg m >>= check_stacks rt >>= λ m'. ok (next m')
            | word w ↦ if w == 1 then raise_global rt continuation_already_taken_exn m else fault
            | _ ↦ fault
          ])
      taken (fiber i) = checked-Post (resume_on-Post m k i fn arg lf la)
      taken (word w) =
          if_both (Post h n p (Ends h n p)) (w == 1)
            (raise_global-Post continuation_already_taken_exn m k) faults
      taken (ptr b o) = faults
      taken (atom tag) = faults
      taken (code pc) = faults

  pub resume-Post : (m : Machine) → Kept h n p m → Post h n p (Ends h n p) (resume rt m)
  unfolding resume
  resume-Post m k = bind (slot-Post m k 0) (λ fn lf. bind (slot-Post m k 1) (λ arg la.
      bind (drop-Post 2 m.stack k.0.1) (λ rest lr.
        let s =
          val_int m.trap_sp_off ∷ val_int 0 ∷ code m.pc ∷ m.env ∷ val_int m.extra_args ∷ rest in
        do_resume-Post fn arg (record m { stack = s })
          (with_stack m k s (tt, (tt, (tt, (k.0.3, (tt, lr)))))) lf la)))

  pub resumeterm-Post : (m : Machine) → Kept h n p m → Post h n p (Ends h n p) (resumeterm rt m)
  unfolding resumeterm
  resumeterm-Post m k = bind (slot-Post m k 0) (λ fn lf. bind (slot-Post m k 1) (λ arg la.
      bind (operand-Post m) (λ i _. bind (drop-Post i m.stack k.0.1) (λ rest lr.
        let s = val_int m.trap_sp_off ∷ val_int m.extra_args ∷ rest in
        do_resume-Post fn arg (record m { stack = s }) (with_stack m k s (tt, (tt, lr))) lf la))))
