-- ===== src/Interp/Apply/Returns.antt =====
-- A call and the return from it.
use mathlib.Core.List.{append_assoc}
use mathlib.Core.Path.{subst}
use cc_implementation.Prelude.{
  ℕ, ◌+◌, ◌-◌, ◌≡◌, refl, true, ◌∙◌, sym, ap, List, ◌∷◌, ◌++◌, length, length-append, Run, done,
  died, hangs,
}
use cc_implementation.Word.Laws.{Fits63}
use cc_implementation.Profile.{Profile, enter, leave}
use cc_implementation.Interp.Machine.{Value, code, Machine, ok, ◌>>=◌}
use cc_implementation.Interp.Memory.{val_int, operand, code_val}
use cc_implementation.Interp.Memory.Laws.{drop-append, take-append, split}
use cc_implementation.Interp.Runtime.{Runtime}
use cc_implementation.Interp.Control.{check_stacks}
use cc_implementation.Interp.Apply.{apply_to, count_call, of_run, return_instr}
use cc_implementation.Interp.Apply.Calls.{IsQuiet, check_stacks-quiet, return_instr-called}

machine-injective : {a b : Machine} → ok a ≡ ok b → a ≡ b
machine-injective e = cc

-- What a call leaves: the frame under the arguments, and counters that have entered the function.
record Called (m t : Machine) (args rest : List Value) : Type 0 where
  stack : t.stack ≡ args ++ (code m.pc ∷ (m.env ∷ (val_int m.extra_args ∷ rest)))
  counts : enter true true m.profile t.pc ≡ done t.profile

of_run-Called :
    (m x t : Machine) (args rest : List Value) (e : Run Profile)
    → x.stack ≡ args ++ (code m.pc ∷ (m.env ∷ (val_int m.extra_args ∷ rest)))
    → enter true true m.profile x.pc ≡ e
    → of_run x e ≡ ok t
    → Called m t args rest
of_run-Called m x t args rest (done p) hs he h =
    subst (λ (t : Machine). Called m t args rest) (machine-injective h)
      (record { stack = hs; counts = he })
of_run-Called m x t args rest died hs he h = cc
of_run-Called m x t args rest hangs hs he h = cc

module _ (rt : Runtime) (quiet : (m : Machine) → IsQuiet rt m)
    (granted : (m : Machine) → (rt.malloc_granted m ≡ true) × (rt.calloc_granted m ≡ true)) where
  -- APPLY1, APPLY2 and APPLY3.
  apply_to-Called :
      (m t : Machine) (args rest : List Value)
      → m.stack ≡ args ++ rest
      → apply_to rt (length args) m ≡ ok t
      → Called m t args rest
  unfolding apply_to count_call
  apply_to-Called m t args rest hs h =
      let x : ℕ → Machine = λ pc. record m {
        stack = args ++ (code m.pc ∷ (m.env ∷ (val_int m.extra_args ∷ rest)));
        pc = pc;
        env = m.accu;
        extra_args = length args - 1;
      } in
      let entered : (code_val m m.accu >>= λ pc. count_call rt (x pc) >>= check_stacks rt) ≡ ok t =
        rw (hs, take-append args rest, drop-append args rest) at h in
      split (code_val m m.accu) _ t entered (λ pc _ h₁.
        split (count_call rt (x pc)) _ t h₁ (λ y h₂ h₃.
          subst (λ (t : Machine). Called m t args rest)
            (machine-injective (sym (check_stacks-quiet rt y (quiet y)) ∙ h₃))
            (of_run-Called m (x pc) y args rest _ refl
              (rw ((granted (x pc)).0, (granted (x pc)).1) refl) h₂)))

-- A call comes back. If APPLY1, APPLY2 or APPLY3 in `m` leads to `t`, then RETURN in any later machine
-- `r` that has any words on top of those of `t`, pops them and the arguments, and has no extra argument
-- gives the caller its code pointer, environment and extra arguments back, and the stack of `m` without
-- the arguments. The result stays in the accumulator, and the heap stays. The counters have entered the
-- function at the call, and leave it at the return. The counters' allocations succeed, the runtime has
-- nothing to do, and the extra arguments of `m` fit in 63 bits.
pub return_instr-apply_to :
    (rt : Runtime) (m t r : Machine) (args rest locals : List Value)
    → ((x : Machine) → IsQuiet rt x)
    → ((x : Machine) → (rt.malloc_granted x ≡ true) × (rt.calloc_granted x ≡ true))
    → m.stack ≡ args ++ rest
    → apply_to rt (length args) m ≡ ok t
    → Fits63 m.extra_args
    → r.stack ≡ locals ++ t.stack
    → operand r ≡ ok (length locals + length args)
    → r.extra_args ≡ 0
    → (enter true true m.profile t.pc ≡ done t.profile)
      × (return_instr rt r
          ≡ ok (record r {
            pc = m.pc;
            stack = rest;
            env = m.env;
            extra_args = m.extra_args;
            profile = leave r.profile;
          }))
return_instr-apply_to rt m t r args rest locals quiet granted hs called fits hr ho he =
    let frame = code m.pc ∷ (m.env ∷ (val_int m.extra_args ∷ rest)) in
    let c = apply_to-Called rt quiet granted m t args rest hs called in
    (
      c.counts,
      return_instr-called rt m r (locals ++ args) rest
          (hr ∙ ap (λ s. locals ++ s) c.stack ∙ sym (append_assoc locals args frame))
          (rw (length-append locals args) ho) he fits,
    )
