-- ===== src/Interp/Programs/Choices.antt =====
-- The code of `if` and of `try`.
use cc_implementation.Prelude.{
  ℕ, ◌+◌, ◌^◌, ◌<◌, ◌≤◌, ◌≡◌, refl, arith, true, false, [], ◌∷◌, ◌++◌, length, length-append,
  get_elem?, some, ◌==◌, if◌then◌else◌, Bool-cases, inl, inr,
}
use cc_implementation.Interp.Machine.{Machine, ok, next}
use cc_implementation.Interp.Memory.{val_int}
use cc_implementation.Interp.Opcodes.{Opcode, decode}
use cc_implementation.Profile.{Profile}
use cc_implementation.Interp.Programs.{
  Prim, Expr, if_else, try_with, value, Outcome, eval, compile, deeper, depth, int_range,
}
use cc_implementation.Interp.Programs.Pieces.{Works, bound-Works, branch-Leads}
use cc_implementation.Interp.Programs.Steps.{
  raising, Leads, Leads-bind, Leads-reset, Leads-choice, Leads-last, Leads-handle, Leads-from,
  Leads-pc, fire, reaching,
}
use cc_implementation.Interp.Programs.Layout.{
  Ready-trapped, trapped, trap_words, At-append, At-pc, Holds-deeper, Ready, HasRoom, Ready-room,
  Ready-at,
}
use cc_implementation.Interp.Programs.Engine.{Engine, branchifnot_runs-zero, branchifnot_runs-other}

module _ (en : Engine) where
  -- Either branch of a test that has computed `v`.
  test-Leads :
      (m : Machine) (pc v n end : ℕ) (q : Profile) (on_true on_false : Outcome)
      → get_elem? m.code pc ≡ some 86
      → get_elem? m.code (pc + 1) ≡ some n
      → pc + 1 + n < 2 ^ 31
      → v < int_range
      → HasRoom m (length m.stack)
      → en.Kept q
      → ((q : Profile)
          → en.Kept q
          → Leads en (ok (next (reaching m (pc + 1 + n) v q))) m end on_false)
      → ((q : Profile)
          → en.Kept q
          → Leads en (ok (next (reaching m (pc + 1 + 1) v q))) m end on_true)
      → Leads en (ok (next (reaching m pc v q))) m end (if v == 0 then on_false else on_true)
  unfolding decode
  test-Leads m pc v n end q on_true on_false at at_n small fits inside c if_no if_yes =
      elim (Bool-cases (v == 0)) [
        | inl z ↦
            fire en (reaching m pc v q) 86 Opcode.branchifnot
              (λ q. ok (next (reaching m (pc + 1 + n) v q))) m end
              (if v == 0 then on_false else on_true) at refl (omega arith) inside c
              (λ q.
                branchifnot_runs-zero en (record m { pc = pc + 1; profile = q }) n v at_n small fits
                  z)
              (λ q c.
                Leads-choice en (ok (next (reaching m (pc + 1 + n) v q))) m end on_false on_true
                  (v == 0) true z (if_no q c))
        | inr z ↦
            fire en (reaching m pc v q) 86 Opcode.branchifnot
              (λ q. ok (next (reaching m (pc + 1 + 1) v q))) m end
              (if v == 0 then on_false else on_true) at refl (omega arith) inside c
              (λ q. branchifnot_runs-other en (record m { pc = pc + 1; profile = q }) v fits z)
              (λ q c.
                Leads-choice en (ok (next (reaching m (pc + 1 + 1) v q))) m end on_false on_true
                  (v == 0) false z (if_yes q c))
      ]

  pub if-Works : (c t f : Expr) → Works en c → Works en t → Works en f → Works en (if_else c t f)
  unfolding compile eval
  if-Works c t f works_c works_t works_f os vs m at holds (bound_c, bound_t, bound_f) fits ready
        kept =
      let cc_ = compile c os in
      let ct = compile t os in
      let cf = compile f os in
      let over = 84 ∷ (length cf + 1) ∷ cf in
      let branches = 86 ∷ (length ct + 3) ∷ (ct ++ over) in
      let (at_c, (at_test, (at_target, at_branches))) = At-append m.code m.pc cc_ branches at in
      let mid = m.pc + length cc_ in
      let (at_t, (at_over, (at_end, at_f))) = At-append m.code (mid + 1 + 1) ct over at_branches in
      let len_t : length (ct ++ over) ≡ length ct + (length cf + 2) =
        omega (arith, length-append ct over) in
      let len : length (cc_ ++ branches) ≡ length cc_ + (length ct + length cf + 4) =
        omega (arith, len_t, length-append cc_ branches) in
      let join = mid + 1 + 1 + length ct in
      let end = join + 1 + (length cf + 1) in
      let else_pc = mid + 1 + (length ct + 3) in
      let on_true = eval t vs in
      let on_false = eval f vs in
      let later : (less pc v : ℕ) (q : Profile)
          → less ≤ depth (if_else c t f)
          → Ready (reaching m pc v q) less =
        λ less pc v q h. Ready-at m (depth (if_else c t f)) less pc (val_int v) q ready h in
      Leads-pc en (ok (next m)) m (eval (if_else c t f) vs) (omega arith) (
        Leads-bind en (ok (next m)) m [] mid end (eval c vs)
          (λ v. if v == 0 then on_false else on_true)
          (works_c os vs m at_c holds bound_c (omega arith)
            (Ready-at m _ _ m.pc m.accu m.profile ready (omega arith)) kept)
          (λ v q fits_v k.
            test-Leads m mid v (length ct + 3) end q on_true on_false at_test at_target
              (omega arith) fits_v (Ready-room m [] _ ready (omega arith)) k
              (λ q k. Leads-pc en (ok (next (reaching m else_pc v q))) m on_false (omega arith) (
                Leads-reset en (ok (next (reaching m else_pc v q))) m else_pc (val_int v) q
                  (else_pc + length cf) on_false
                  (works_f os vs (reaching m else_pc v q) (At-pc m.code cf (omega arith) at_f) holds
                    bound_f (omega arith) (later (depth f) else_pc v q (omega arith)) k)))
              (λ q k.
                Leads-last en (ok (next (reaching m (mid + 1 + 1) v q))) m [] join end on_true
                  (Leads-reset en (ok (next (reaching m (mid + 1 + 1) v q))) m (mid + 1 + 1)
                    (val_int v) q join on_true
                    (works_t os vs (reaching m (mid + 1 + 1) v q) at_t holds bound_t (omega arith)
                      (later (depth t) (mid + 1 + 1) v q (omega arith)) k))
                  (λ u q fits_u k.
                    branch-Leads en m join (length cf + 1) u q at_over at_end (omega arith) fits_u
                      (Ready-room m [] _ ready (omega arith)) k))))

  pub try-Works :
      ((m : Machine) → en.rt.is_pending m ≡ false)
      → (e h : Expr) → Works en e
      → Works en h
      → Works en (try_with e h)
  unfolding compile eval decode
  try-Works idle e h works_e works_h os vs m (at_push, (at_n, at)) holds (bound_e, bound_h) fits
        ready kept =
      let ce = compile e (deeper 4 os) in
      let cf = compile h (0 ∷ deeper 1 os) in
      let ch = 9 ∷ (cf ++ 19 ∷ 1 ∷ []) in
      let over = 90 ∷ 84 ∷ (length ch + 1) ∷ ch in
      let n = length ce + 4 in
      let body = m.pc + 1 + 1 in
      let (at_e, (at_pop, (at_over, (at_end, at_h)))) = At-append m.code body ce over at in
      let len_h : length ch ≡ length cf + 3 = omega (arith, length-append cf (19 ∷ 1 ∷ [])) in
      let len : length (ce ++ over) ≡ length ce + (length ch + 3) =
        omega (arith, length-append ce over) in
      let after = body + length ce in
      let end = after + 1 + 1 + (length ch + 1) in
      let target = m.pc + 1 + n in
      let out = eval e vs in
      let hout = λ (w : ℕ). eval h (w ∷ vs) in
      Leads-pc en (ok (next m)) m (eval (try_with e h) vs) (omega arith) (
        fire en m 89 Opcode.pushtrap
          (λ q.
            let p = record m { pc = m.pc + 1; profile = q } in ok (next (trapped (en.link p) p n)))
          m end (eval (try_with e h) vs) at_push refl (omega arith)
          (Ready-room m [] _ ready (omega arith)) kept
          (λ q. en.pushing (record m { pc = m.pc + 1; profile = q }) n at_n (omega arith))
          (λ q c.
            let p = record m { pc = m.pc + 1; profile = q } in
            let t = trapped (en.link p) p n in
            Leads-handle en (ok (next t)) m t after end out hout
              (works_e (deeper 4 os) vs t at_e
                (Holds-deeper (trap_words (en.link p) p n) m.stack os vs holds) bound_e
                (omega arith)
                (Ready-trapped (en.link p) p n (depth (try_with e h)) (depth e) q
                  (Ready-at m _ _ (m.pc + 1) m.accu q ready (omega arith)) (omega arith))
                c)
              (λ v q fits_v c.
                let r = reaching t after v q in
                fire en r 90 Opcode.poptrap (λ q. ok (next (reaching m (after + 1) v q))) m end
                  (value v) at_pop refl (omega arith)
                  (Ready-room m (trap_words (en.link p) p n) _ ready (omega arith)) c
                  (λ q.
                    en.popping p (reaching t (after + 1) v q) n at_n (omega arith)
                      (Ready-at m _ _ (m.pc + 1) m.accu p.profile ready (omega arith))
                      (idle (reaching t (after + 1) v q)) refl)
                  (λ q c.
                    branch-Leads en m (after + 1) (length ch + 1) v q at_over at_end (omega arith)
                      fits_v (Ready-room m [] _ ready (omega arith)) c))
              (λ w at_raise q above fits_w c.
                Leads-from en m end (hout w)
                  (en.catching p (raising t above at_raise w q) n above at_n (omega arith)
                    (Ready-at m _ _ (m.pc + 1) m.accu p.profile ready (omega arith)) refl refl refl)
                  (Leads-pc en (ok (next (reaching m target w q))) m (hout w) (omega arith) (
                    bound-Works en h works_h os vs m target w q (At-pc m.code ch (omega arith) at_h)
                      holds bound_h (omega arith)
                      (Ready-at m _ _ m.pc m.accu m.profile ready (omega arith)) fits_w c)))))
