-- ===== src/InterpAli/Alike/Frames.antt =====
-- Sequences that end well, and return frames, for the comparison of calls.
use cc_implementation.Prelude.{
  ◌≡◌, ◌∙◌, refl, ap, true, false, List, [], ◌∷◌, Bool-cases, inl, inr, Bool, if◌then◌else◌,
}
use mathlib.Core.Path.{subst}
use cc_implementation.Word.{slt64}
use cc_implementation.Profile.{Profile, leave}
use cc_implementation.Interp.Machine.{Value, Machine, Exec, ok, ◌>>=◌}
use cc_implementation.Interp.Memory.{slot, as_code, as_long, pop_words, fetch, drop, code_val}
use cc_implementation.Interp.Memory.Laws.{split}
use cc_implementation.Interp.Runtime.{Runtime}
use cc_implementation.Interp.Apply.Calls.{IsQuiet}
use cc_implementation.Interp.Objects.Cache.{load-heap}
use cc_implementation.Interp.Apply as Counted
use cc_implementation.InterpAli.Apply as Plain
use cc_implementation.InterpAli.Control.{check_stacks}

pub ok-injective {ℓ} : {A : Type ℓ} {a b : A} → ok a ≡ ok b → a ≡ b
ok-injective e = cc

pub if_side {ℓ} :
    {A : Type ℓ} (b side : Bool) (x y z : A)
    → b ≡ side
    → (if b then x else y) ≡ z
    → (if side then x else y) ≡ z
if_side b side x y z same h = subst (λ t. (if t then x else y) ≡ z) same h

-- Other counters in what comes next.
with_profile :
    {e : Exec Machine} {r : Machine} (q : Profile)
    → e ≡ ok r
    → (e >>= λ y. ok (record y { profile = q })) ≡ ok (record r { profile = q })
with_profile q h = ap (λ (x : Exec Machine). x >>= λ y. ok (record y { profile = q })) h

-- The machine of the one interpreter, with other counters, is that of the other.
abbrev pub Alike : Exec Machine → Machine → Type 0
Alike e m = (q : Profile) × (e ≡ ok (record m { profile = q }))

pop_frame-profile :
    (m r : Machine) (q : Profile)
    → Plain.pop_frame m ≡ ok r
    → Plain.pop_frame (record m { profile = q }) ≡ ok (record r { profile = q })
unfolding Plain.pop_frame
pop_frame-profile m r q h = split (slot m 0) _ r h (λ target h₁ k₁.
    split (as_code target) _ r k₁ (λ pc h₂ k₂. split (slot m 1) _ r k₂ (λ env h₃ k₃.
      split (slot m 2) _ r k₃ (λ args h₄ k₄. split (as_long args) _ r k₄ (λ extra h₅ k₅.
        split (drop 3 m.stack) _ r k₅
          (λ s h₆ k₆. rw (h₁, h₂, h₃, h₄, h₅, h₆) (with_profile q k₆)))))))

module _ (rt : Runtime) (quiet : (m : Machine) → IsQuiet rt m) where
  pub check_stacks-idle : (m : Machine) → check_stacks rt m ≡ ok m
  unfolding check_stacks
  check_stacks-idle m = rw ((quiet m).roomy, (quiet m).no_signal)

  pub do_return-frame :
      (m r : Machine) (s : List Value)
      → Plain.pop_frame (record m { stack = s }) ≡ ok r
      → Counted.do_return rt (record m { stack = s }) ≡ ok r
  unfolding Counted.do_return Plain.pop_frame
  do_return-frame m r [] h = cc
  do_return-frame m r (v ∷ s) h = h

  pub return-Alike :
      (m r : Machine) → Plain.return_instr m ≡ ok r → Alike (Counted.return_instr rt m) r
  unfolding Plain.return_instr Counted.return_instr
  return-Alike m r h = split (fetch m) _ r h (λ (n, m₁) h₁ k₁.
      split (pop_words n m₁) _ r k₁ (λ m₂ h₂ k₂. elim (Bool-cases (slt64 0 m₂.extra_args)) [
        | inl more ↦
            let m₃ = record m₂ { profile = leave m₂.profile } in
            split (code_val m₂ m₂.accu) _ r
              (if_side (slt64 0 m₂.extra_args) true _ _ (ok r) more k₂)
              (λ pc h₃ k₃.
                let again : code_val m₃ m₂.accu ≡ ok pc =
                  ap (λ (x : Exec Value). x >>= as_code) (load-heap m₂ m₃ m₂.accu 0 refl) ∙ h₃ in
                (leave m₂.profile, rw (h₁, h₂, more, again) (with_profile (leave m₂.profile) k₃)))
        | inr last ↦
            let frame = if_side (slt64 0 m₂.extra_args) false _ _ (ok r) last k₂ in
            (
              leave m₂.profile,
              rw (h₁, h₂, last)
                  (do_return-frame (record m₂ { profile = leave m₂.profile })
                    (record r { profile = leave m₂.profile }) m₂.stack
                    (pop_frame-profile m₂ r (leave m₂.profile) frame)),
            )
      ]))
