-- ===== src/Interp/Effects/Continuations.antt =====
-- Continuations: what PERFORM captures, `do_resume` gives back.
use mathlib.Core.Path.{subst}
use cc_implementation.Prelude.{
  ℕ, suc, ◌≡◌, ◌≢◌, refl, sym, ap, ◌∙◌, false, List, [], ◌∷◌, ◌++◌, none, some, get_elem?, set,
  length, get_elem?-set_ne, get_elem?-set_self, Option,
}
use cc_implementation.Word.{add64}
use cc_implementation.Word.Laws.{Fits63, long_val-val_long}
use cc_implementation.Interp.Machine.{
  Value, code, fiber, ptr, Block, Fiber, Machine, ok, next, ◌>>=◌,
}
use cc_implementation.Interp.Memory.{val_int, code_val, cont_tag}
use cc_implementation.Interp.Runtime.{Runtime}
use cc_implementation.Interp.Control.{check_stacks, poll_gc}
use cc_implementation.Interp.Apply.Calls.{IsQuiet, check_stacks-quiet}
use cc_implementation.Interp.Effects.{
  perform, do_resume, resume_on, handle_on, save_stack, set_parent, last_parent, put_fiber,
}

-- A stack that performed an effect in the machine `m`: a return frame to the instruction after
-- PERFORM, under the trap offset, and no parent.
abbrev pub suspended : Machine → Fiber → Fiber
suspended m f = record f {
  saved = val_int m.trap_sp_off ∷ (code m.pc ∷ (m.env ∷ (val_int m.extra_args ∷ m.stack)));
  parent = none;
}

-- The machine after `do_resume` has switched from `r` to the suspended stack `self`.
abbrev pub resumed : Machine → Machine → Fiber → Fiber → ℕ → ℕ → Value → Value → Machine
resumed m r f g self pc fn arg = record r {
  fibers =
      set (set r.fibers self (some (record (suspended m f) { parent = some r.current_stack })))
        r.current_stack (some (record g { saved = r.stack }));
  stack = arg ∷ (code m.pc ∷ (m.env ∷ (val_int m.extra_args ∷ m.stack)));
  current_stack = self;
  trap_sp_off = m.trap_sp_off;
  accu = fn;
  pc = pc;
  env = fn;
  extra_args = 0;
}

set_parent_there :
    (i : ℕ) (parent : Option ℕ) (m : Machine) (f : Fiber)
    → get_elem? m.fibers i ≡ some (some f)
    → set_parent i parent m ≡ ok (put_fiber i (record f { parent = parent }) m)
unfolding set_parent
set_parent_there i parent m f h = rw h

save_stack_there :
    (m : Machine) (f : Fiber)
    → get_elem? m.fibers m.current_stack ≡ some (some f)
    → save_stack m ≡ ok (put_fiber m.current_stack (record f { saved = m.stack }) m)
unfolding save_stack
save_stack_there m f h = rw h

last_parent-orphan :
    (n : ℕ) (m : Machine) (i : ℕ) (f : Fiber)
    → get_elem? m.fibers i ≡ some (some f)
    → f.parent ≡ none
    → last_parent (suc n) m i ≡ ok i
unfolding last_parent
last_parent-orphan n m i f h no_parent = rw (h, no_parent)

do_resume-fiber :
    (rt : Runtime) (fn arg : Value) (r : Machine) (i : ℕ)
    → r.accu ≡ fiber i
    → do_resume rt fn arg r ≡ (resume_on i fn arg r >>= check_stacks rt >>= λ m'. ok (next m'))
unfolding do_resume
do_resume-fiber rt fn arg r i h =
    subst
      (λ (x : Machine).
        do_resume rt fn arg x ≡ (resume_on i fn arg x >>= check_stacks rt >>= λ m'. ok (next m')))
      (sym (ap (λ v. record r { accu = v }) h)) refl

module _ (m r : Machine) (f g : Fiber) (self pc : ℕ) (fn arg : Value)
    (there : get_elem? r.fibers self ≡ some (some (suspended m f)))
    (running : get_elem? r.fibers r.current_stack ≡ some (some g)) (other : self ≢ r.current_stack)
    (entry : code_val r fn ≡ ok pc) (fits : Fits63 m.trap_sp_off) where
  resume_on-suspended : resume_on self fn arg r ≡ ok (resumed m r f g self pc fn arg)
  unfolding resume_on last_parent set_parent save_stack
  resume_on-suspended =
      let waiting = some (record (suspended m f) { parent = some r.current_stack }) in
      let saved = some (record g { saved = r.stack }) in
      let at_current : get_elem? (set r.fibers self waiting) r.current_stack ≡ some (some g) =
        get_elem?-set_ne r.fibers self r.current_stack waiting other ∙ running in
      let at_self : get_elem? (set (set r.fibers self waiting) r.current_stack saved) self
          ≡ some waiting =
        get_elem?-set_ne (set r.fibers self waiting) r.current_stack self saved (λ e. other (sym e))
        ∙ get_elem?-set_self r.fibers self waiting _ there in
      let r₁ = put_fiber self (record (suspended m f) { parent = some r.current_stack }) r in
      let r₂ = put_fiber r.current_stack (record g { saved = r.stack }) r₁ in
      rw (
        last_parent-orphan (length r.fibers) r self (suspended m f) there refl,
        set_parent_there self (some r.current_stack) r (suspended m f) there,
        save_stack_there r₁ g at_current,
        at_self,
        entry,
        long_val-val_long m.trap_sp_off fits,
      )

  -- Resuming the stack `self` that an effect in `m` has suspended, from another stack in a machine `r`,
  -- whatever `r` has changed since: `fn` runs on `arg` on the words that `m` had, above a return frame
  -- to the instruction after PERFORM with the environment and the extra arguments of `m`, and with
  -- the traps of `m`. The stack of `r` is saved and becomes the parent. The heap stays.
  pub do_resume-suspended :
      (rt : Runtime)
      → r.accu ≡ fiber self
      → IsQuiet rt (resumed m r f g self pc fn arg)
      → do_resume rt fn arg r ≡ ok (next (resumed m r f g self pc fn arg))
  do_resume-suspended rt ha quiet = rw (
    do_resume-fiber rt fn arg r self ha,
    resume_on-suspended,
    check_stacks-quiet rt (resumed m r f g self pc fn arg) quiet,
  )

-- The words of a stack that waits for the stack that it is the parent of: the trap offset and the
-- extra arguments stand on top.
abbrev pub waiting_words : ℕ → ℕ → List Value → List Value
waiting_words off extra rest = val_int off ∷ (val_int extra ∷ rest)

-- The heap with the continuation that PERFORM makes.
abbrev pub with_continuation : Machine → List Block
with_continuation m = m.heap ++ record { tag = cont_tag; fields = fiber m.current_stack ∷ [] } ∷ []

-- The machine after PERFORM: the handler of the stack that performed runs in its parent.
abbrev pub performed : Machine → Fiber → ℕ → ℕ → ℕ → ℕ → List Value → Machine
performed m f parent pc off extra rest = record m {
  fibers =
      set (set m.fibers m.current_stack (some (record (suspended m f) { parent = some parent })))
        m.current_stack (some (suspended m f));
  heap = with_continuation m;
  stack = m.accu ∷ (ptr (length m.heap) 0 ∷ (fiber m.current_stack ∷ rest));
  current_stack = parent;
  trap_sp_off = off;
  extra_args = add64 extra 2;
  accu = f.handle_effect;
  pc = pc;
  env = f.handle_effect;
}

module _ (rt : Runtime) (m : Machine) (f p : Fiber) (parent pc off extra : ℕ) (rest : List Value)
    (self : get_elem? m.fibers m.current_stack ≡ some (some (record f { parent = some parent })))
    (above : get_elem? m.fibers parent ≡ some (some p)) (other : m.current_stack ≢ parent)
    (words : p.saved ≡ waiting_words off extra rest)
    (entry : code_val (record m { heap = with_continuation m }) f.handle_effect ≡ ok pc)
    (off_fits : Fits63 off) (extra_fits : Fits63 extra) (room : rt.minor_heap_full m ≡ false)
    (quiet : IsQuiet rt (performed m f parent pc off extra rest)) where
  perform-performed : perform rt m ≡ ok (next (performed m f parent pc off extra rest))
  unfolding perform poll_gc save_stack set_parent handle_on
  perform-performed =
      let saved = some (record (suspended m f) { parent = some parent }) in
      let at_self : get_elem? (set m.fibers m.current_stack saved) m.current_stack ≡ some saved =
        get_elem?-set_self m.fibers m.current_stack saved _ self in
      let at_parent : get_elem? (performed m f parent pc off extra rest).fibers parent
          ≡ some (some p) =
        get_elem?-set_ne (set m.fibers m.current_stack saved) m.current_stack parent
          (some (suspended m f)) other
        ∙ get_elem?-set_ne m.fibers m.current_stack parent saved other
        ∙ above in
      let at_mine : Machine = record m { stack = (suspended m f).saved } in
      let m₂ =
        put_fiber m.current_stack (record (suspended m f) { parent = some parent }) at_mine in
      rw (
        self,
        room,
        save_stack_there at_mine (record f { parent = some parent }) self,
        set_parent_there m.current_stack none m₂ (record (suspended m f) { parent = some parent })
            at_self,
        at_parent,
        words,
        entry,
        long_val-val_long off off_fits,
        long_val-val_long extra extra_fits,
        check_stacks-quiet rt (performed m f parent pc off extra rest) quiet,
      )

  -- PERFORM on the stack of `m`, which has a parent that waits, and with room in the minor heap:
  -- the parent's words, trap offset and extra arguments come back, and the effect handler of the
  -- stack runs there on the effect, a new continuation that holds the stack, and the stack. The stack
  -- is suspended: without a parent, with the trap offset and a return frame of `m` on top of its words.
  pub perform-suspended :
      (perform rt m ≡ ok (next (performed m f parent pc off extra rest)))
      × (get_elem? (performed m f parent pc off extra rest).fibers m.current_stack
          ≡ some (some (suspended m f)))
  perform-suspended =
      let saved = some (record (suspended m f) { parent = some parent }) in
      (
        perform-performed,
        get_elem?-set_self (set m.fibers m.current_stack saved) m.current_stack
            (some (suspended m f)) saved (get_elem?-set_self m.fibers m.current_stack saved _ self),
      )
