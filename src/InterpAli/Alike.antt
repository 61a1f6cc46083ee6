-- ===== src/InterpAli/Alike.antt =====
-- Calls and returns in interp.c, with its counters, beside those of interp-ali.c.
pub mod Frames
use cc_implementation.Prelude.{
  ℕ, ◌+◌, ◌-◌, ◌++◌, ◌*◌, ◌<◌, ◌≡◌, ◌≢◌, ◌∙◌, refl, ap, sym, true, false, List, [], ◌∷◌, Bool-cases,
  inl, inr, Bool, if◌then◌else◌,
}
use mathlib.Core.Path.{subst}
use cc_implementation.Word.{word_mod, add64, sub64, slt64}
use cc_implementation.Profile.{Profile, address, leave}
use cc_implementation.Profile.Laws.{IsCounting}
use cc_implementation.Profile.Calls.{enter-IsCounting}
use cc_implementation.Interp.Machine.{Value, word, code, Machine, Exec, ok, raised, fault, ◌>>=◌}
use cc_implementation.Interp.Memory.{
  slot, as_code, as_long, pop_words, operand, fetch, take, drop, code_val, val_int, new_block,
  closure_tag, make_closinfo,
}
use cc_implementation.Interp.Memory.Laws.{split}
use cc_implementation.Interp.Runtime.{Runtime}
use cc_implementation.Interp.Control.{poll_gc}
use cc_implementation.Interp.Apply.Calls.{IsQuiet, check_stacks-quiet}
use cc_implementation.Interp.Objects.Cache.{load-heap}
use cc_implementation.Interp.Control as Shared
use cc_implementation.Interp.Apply as Counted
use cc_implementation.InterpAli.Apply as Plain
use cc_implementation.InterpAli.Control.{check_stacks}
use cc_implementation.InterpAli.Alike.Frames.{
  Alike, ok-injective, if_side, check_stacks-idle, do_return-frame, return-Alike,
}

module _ (rt : Runtime) (quiet : (m : Machine) → IsQuiet rt m) where
  -- The end of a call: the counters of interp.c, and the checks of the stack.
  entered-Alike :
      (m r : Machine)
      → m ≡ r
      → rt.malloc_granted m ≡ true
      → rt.calloc_granted m ≡ true
      → IsCounting m.profile
      → address m.profile r.pc ≢ 0
      → m.profile.table.capacity * 2 < word_mod
      → Alike (Counted.count_call rt m >>= Shared.check_stacks rt) r
  unfolding Counted.count_call
  entered-Alike m r same gm gc c nz fits =
      let entry : address m.profile m.pc ≢ 0 =
        subst (λ (x : Machine). address m.profile x.pc ≢ 0) (sym same) nz in
      let (q, e, _) = enter-IsCounting m.profile m.pc c entry fits in
      let m₁ = record m { profile = q } in
      (
        q,
        rw (gm, gc, e)
            (check_stacks-quiet rt m₁ (quiet m₁)
              ∙ ap (λ (x : Machine). ok (record x { profile = q })) same),
      )

  -- The end of a tail call.
  checked-Alike : (m r : Machine) → check_stacks rt m ≡ ok r → Alike (Shared.check_stacks rt m) r
  checked-Alike m r h =
      (r.profile, check_stacks-quiet rt m (quiet m) ∙ sym (check_stacks-idle rt quiet m) ∙ h)

  module _ (granted : (m : Machine) → (rt.malloc_granted m ≡ true) × (rt.calloc_granted m ≡ true))
      (m r : Machine) (c : IsCounting m.profile) (nz : address m.profile r.pc ≢ 0)
      (fits : m.profile.table.capacity * 2 < word_mod) where
    apply-Alike : Plain.apply rt m ≡ ok r → Alike (Counted.apply rt m) r
    unfolding Plain.apply Counted.apply
    apply-Alike h = split (operand m) _ r h (λ n h₁ k₁.
        split (code_val m m.accu) _ r k₁ (λ pc h₂ k₂.
          let x = record m { extra_args = sub64 n 1; pc = pc; env = m.accu } in
          let same = ok-injective (sym (check_stacks-idle rt quiet x) ∙ k₂) in
          rw (h₁, h₂) (entered-Alike x r same (granted x).0 (granted x).1 c nz fits)))

    apply_to-Alike : (n : ℕ) → Plain.apply_to rt n m ≡ ok r → Alike (Counted.apply_to rt n m) r
    unfolding Plain.apply_to Counted.apply_to
    apply_to-Alike n h = split (take n m.stack) _ r h (λ args h₁ k₁.
        split (drop n m.stack) _ r k₁ (λ rest h₂ k₂. split (code_val m m.accu) _ r k₂ (λ pc h₃ k₃.
          let x = record m {
            stack = args ++ (code m.pc ∷ m.env ∷ val_int m.extra_args ∷ rest);
            pc = pc;
            env = m.accu;
            extra_args = n - 1;
          } in
          let same = ok-injective (sym (check_stacks-idle rt quiet x) ∙ k₃) in
          rw (h₁, h₂, h₃) (entered-Alike x r same (granted x).0 (granted x).1 c nz fits))))

  appterm-Alike : (m r : Machine) → Plain.appterm rt m ≡ ok r → Alike (Counted.appterm rt m) r
  unfolding Plain.appterm Counted.appterm
  appterm-Alike m r h = split (fetch m) _ r h (λ (nargs, m₁) h₁ k₁.
      split (operand m₁) _ r k₁ (λ slotsize h₂ k₂. split (take nargs m₁.stack) _ r k₂ (λ args h₃ k₃.
        let extra = add64 m₁.extra_args (sub64 nargs 1) in
        split (Counted.slide (Counted.copied slotsize args) slotsize extra m₁) _ r k₃
          (λ m₂ h₄ k₄. rw (h₁, h₂, h₃, h₄) (checked-Alike m₂ r k₄)))))

  appterm_of-Alike :
      (n : ℕ) (m r : Machine) → Plain.appterm_of rt n m ≡ ok r → Alike (Counted.appterm_of rt n m) r
  unfolding Plain.appterm_of Counted.appterm_of
  appterm_of-Alike n m r h = split (operand m) _ r h (λ slotsize h₁ k₁.
      split (take n m.stack) _ r k₁ (λ args h₂ k₂.
        split (Counted.slide args slotsize (add64 m.extra_args (n - 1)) m) _ r k₂
          (λ m₂ h₃ k₃. rw (h₁, h₂, h₃) (checked-Alike m₂ r k₃))))

  grab-Alike : (m r : Machine) → Plain.grab rt m ≡ ok r → Alike (Counted.grab rt m) r
  unfolding Plain.grab Counted.grab
  grab-Alike m r h = split (fetch m) _ r h (λ (required, m₁) h₁ k₁.
      elim (Bool-cases (slt64 m₁.extra_args required)) [
        | inl few ↦
            split (poll_gc rt m₁) _ r
              (if_side (slt64 m₁.extra_args required) true _ _ (ok r) few k₁)
              (λ m₂ h₂ k₂. split (take (1 + m₂.extra_args) m₂.stack) _ r k₂ (λ args h₃ k₃.
                split (drop (1 + m₂.extra_args) m₂.stack) _ r k₃ (λ rest h₄ k₄.
                  let fields = code (m₂.pc - 3) ∷ word (make_closinfo 0 2) ∷ m₂.env ∷ args in
                  let (v, m₃) = new_block m₂ closure_tag fields in
                  (
                    r.profile,
                    rw (h₁, few, h₂, h₃, h₄)
                        (do_return-frame rt quiet (record m₃ { accu = v; stack = rest }) r rest k₄),
                  ))))
        | inr enough ↦ (
          r.profile,
          rw (h₁, enough) (if_side (slt64 m₁.extra_args required) false _ _ (ok r) enough k₁),
        )
      ])

-- The instructions that call and return: APPLY, APPLY1 to APPLY3, APPTERM, APPTERM1 to APPTERM3, RETURN
-- and GRAB.
pub data Call : Type 0 where
  apply appterm return_call grab : Call
  apply_args appterm_args : ℕ → Call

abbrev pub on_interp : Runtime → Call → Machine → Exec Machine
on_interp rt Call.apply m = Counted.apply rt m
on_interp rt (Call.apply_args n) m = Counted.apply_to rt n m
on_interp rt Call.appterm m = Counted.appterm rt m
on_interp rt (Call.appterm_args n) m = Counted.appterm_of rt n m
on_interp rt Call.return_call m = Counted.return_instr rt m
on_interp rt Call.grab m = Counted.grab rt m

abbrev pub on_ali : Runtime → Call → Machine → Exec Machine
on_ali rt Call.apply m = Plain.apply rt m
on_ali rt (Call.apply_args n) m = Plain.apply_to rt n m
on_ali rt Call.appterm m = Plain.appterm rt m
on_ali rt (Call.appterm_args n) m = Plain.appterm_of rt n m
on_ali rt Call.return_call m = Plain.return_instr m
on_ali rt Call.grab m = Plain.grab rt m

-- The opcode counters of interp.c do not disturb its calls: where an instruction that calls or returns
-- ends well in interp-ali.c, which has no counters, it leaves in interp.c the same machine but for the
-- counters. The counters are those of a run, their allocations succeed, the table can double, the
-- address of the function that is entered is not NULL, and the runtime has nothing to do.
pub on_interp-on_ali :
    (rt : Runtime) (k : Call) (m r : Machine)
    → ((x : Machine) → IsQuiet rt x)
    → ((x : Machine) → (rt.malloc_granted x ≡ true) × (rt.calloc_granted x ≡ true))
    → IsCounting m.profile
    → address m.profile r.pc ≢ 0
    → m.profile.table.capacity * 2 < word_mod
    → on_ali rt k m ≡ ok r
    → Alike (on_interp rt k m) r
on_interp-on_ali rt Call.apply m r quiet granted c nz fits h =
    apply-Alike rt quiet granted m r c nz fits h
on_interp-on_ali rt (Call.apply_args n) m r quiet granted c nz fits h =
    apply_to-Alike rt quiet granted m r c nz fits n h
on_interp-on_ali rt Call.appterm m r quiet granted c nz fits h = appterm-Alike rt quiet m r h
on_interp-on_ali rt (Call.appterm_args n) m r quiet granted c nz fits h =
    appterm_of-Alike rt quiet n m r h
on_interp-on_ali rt Call.return_call m r quiet granted c nz fits h = return-Alike rt quiet m r h
on_interp-on_ali rt Call.grab m r quiet granted c nz fits h = grab-Alike rt quiet m r h
