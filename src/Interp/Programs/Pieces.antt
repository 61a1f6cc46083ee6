-- ===== src/Interp/Programs/Pieces.antt =====
-- The code of constants, variables, primitives, `let` and `raise`.
use cc_implementation.Prelude.{
  ℕ, suc, ◌+◌, ◌^◌, ◌<◌, ◌≡◌, refl, arith, List, [], ◌∷◌, ◌++◌, length, length-append, get_elem?,
  some, get_or,
}
use cc_implementation.Interp.Machine.{Machine, ok, next}
use cc_implementation.Interp.Memory.{val_int, skip}
use cc_implementation.Interp.Opcodes.{Opcode, decode}
use cc_implementation.Profile.{Profile}
use cc_implementation.Interp.Programs.{
  Prim, Expr, const, var, prim, let_in, raise_exn, value, exn, eval, compile, deeper, IsProgram,
  depth, int_range, apply_prim, prim_code, ◌>>=◌,
}
use cc_implementation.Interp.Programs.Steps.{
  here, Leads, Leads-bind, Leads-reset, Leads-last, Leads-pc, arrived, fire, reaching,
}
use cc_implementation.Interp.Programs.Layout.{
  At, At-append, Holds, Holds-deeper, Holds-var, found-lt, Ready, HasRoom, Ready-room, Ready-later,
  Ready-at,
}
use cc_implementation.Interp.Programs.Instructions.{
  prim_op, decode-prim_code, prim_code-lt, apply_prim-lt,
}
use cc_implementation.Interp.Programs.Engine.{
  Engine, constint_runs, acc_runs, push_runs, pop_runs, branch_runs, prim_runs,
}

-- The code of `e`, anywhere in a program, with any variables on the stack, comes to the outcome of
-- `e`: behind the code with the value, or at `raise_notrace` with the exception.
abbrev pub Works : Engine → Expr → Type 0
Works en e =
    (os vs : List ℕ) (m : Machine)
    → At m.code m.pc (compile e os)
    → Holds m.stack os vs
    → IsProgram (length vs) e
    → m.pc + length (compile e os) < 2 ^ 31
    → Ready m (depth e)
    → en.Kept m.profile
    → Leads en (ok (next m)) m (m.pc + length (compile e os)) (eval e vs)

module _ (en : Engine) where
  pub const-Works : (n : ℕ) → Works en (const n)
  unfolding compile eval decode
  const-Works n os vs m (at, (at_n, _)) holds small fits ready kept =
      Leads-pc en (ok (next m)) m (value n) (omega arith) (
        fire en m 103 Opcode.constint (λ q. ok (next (reaching m (m.pc + 1 + 1) n q))) m
          (m.pc + 1 + 1) (value n) at refl (omega arith) (Ready-room m [] _ ready (omega arith))
          kept (λ q. constint_runs en (skip (record m { profile = q })) n at_n small)
          (λ q c. arrived en m (m.pc + 1 + 1) n q (omega arith) c))

  pub var-Works : (i : ℕ) → Works en (var i)
  unfolding compile eval decode
  var-Works i os vs m (at, (at_n, _)) holds bound fits ready kept =
      let o = get_or os i 0 in
      let v = get_or vs i 0 in
      let (there, fits_v) = Holds-var m.stack os vs i holds bound in
      let small : o < 2 ^ 31 = omega (arith, found-lt m.stack o (val_int v) there, ready.space) in
      Leads-pc en (ok (next m)) m (value v) (omega arith) (
        fire en m 8 Opcode.acc (λ q. ok (next (reaching m (m.pc + 1 + 1) v q))) m (m.pc + 1 + 1)
          (value v) at refl (omega arith) (Ready-room m [] _ ready (omega arith)) kept
          (λ q. acc_runs en (skip (record m { profile = q })) o (val_int v) at_n small there)
          (λ q c. arrived en m (m.pc + 1 + 1) v q fits_v c))

  pub raise-Works : (e : Expr) → Works en e → Works en (raise_exn e)
  unfolding compile eval decode
  raise-Works e works os vs m at holds bound fits ready kept =
      let c = compile e os in
      let (at_e, (at_raise, _)) = At-append m.code m.pc c (147 ∷ []) at in
      let len : length (c ++ 147 ∷ []) ≡ length c + 1 = length-append c (147 ∷ []) in
      let end = m.pc + length (c ++ 147 ∷ []) in
      Leads-bind en (ok (next m)) m [] (m.pc + length c) end (eval e vs) (λ v. exn v)
        (works os vs m at_e holds bound (omega arith) ready kept)
        (λ v q fits_v cq.
          let m₁ = reaching m (m.pc + length c) v q in
          fire en m₁ 147 Opcode.raise_notrace
            (λ q. en.raise_notrace (record m₁ { pc = m₁.pc + 1; profile = q })) m end (exn v)
            at_raise refl (omega arith) (Ready-room m [] _ ready (omega arith)) cq
            (λ q. en.raising_op (skip (record m₁ { profile = q })) ready.beyond)
            (λ q cq. (q, m₁.pc + 1, [], fits_v, cq, here)))

  pub prim-Works : (p : Prim) (l r : Expr) → Works en l → Works en r → Works en (prim p l r)
  unfolding compile eval decode
  prim-Works p l r works_l works_r os vs m at holds (bound_l, bound_r) fits ready kept =
      let cr = compile r os in
      let cl = compile l (deeper 1 os) in
      let (at_r, (at_push, at_more)) = At-append m.code m.pc cr (9 ∷ (cl ++ prim_code p ∷ [])) at in
      let (at_l, (at_prim, _)) =
        At-append m.code (m.pc + length cr + 1) cl (prim_code p ∷ []) at_more in
      let len_l : length (cl ++ prim_code p ∷ []) ≡ length cl + 1 =
        length-append cl (prim_code p ∷ []) in
      let len : length (cr ++ 9 ∷ (cl ++ prim_code p ∷ [])) ≡ length cr + (length cl + 2) =
        omega (arith, len_l, length-append cr (9 ∷ (cl ++ prim_code p ∷ []))) in
      let mid = m.pc + length cr in
      let end = mid + 1 + length cl + 1 in
      Leads-pc en (ok (next m)) m (eval (prim p l r) vs) (omega arith) (
        Leads-bind en (ok (next m)) m [] mid end (eval r vs)
          (λ b. eval l vs >>= λ a. value (apply_prim p a b))
          (works_r os vs m at_r holds bound_r (omega arith)
            (Ready-at m _ _ m.pc m.accu m.profile ready (omega arith)) kept)
          (λ b q fits_b cq.
            let m₁ = reaching m mid b q in
            let m₂ : Profile → Machine = λ q. record m {
              pc = mid + 1;
              accu = val_int b;
              stack = val_int b ∷ m.stack;
              profile = q;
            } in
            fire en m₁ 9 Opcode.push (λ q. ok (next (m₂ q))) m end
              (eval l vs >>= λ a. value (apply_prim p a b)) at_push refl (omega arith)
              (Ready-room m [] _ ready (omega arith)) cq
              (λ q. push_runs en (skip (record m₁ { profile = q })))
              (λ q cq.
                Leads-bind en (ok (next (m₂ q))) m (val_int b ∷ []) (mid + 1 + length cl) end
                  (eval l vs) (λ a. value (apply_prim p a b))
                  (Leads-reset en (ok (next (m₂ q))) (record m { stack = val_int b ∷ m.stack })
                    (mid + 1) (val_int b) q (mid + 1 + length cl) (eval l vs)
                    (works_l (deeper 1 os) vs (m₂ q) at_l
                      (Holds-deeper (val_int b ∷ []) m.stack os vs holds) bound_l (omega arith)
                      (Ready-later m (val_int b ∷ []) _ _ (mid + 1) (val_int b) q ready
                        (omega arith))
                      cq))
                  (λ a q fits_a cq.
                    let m₃ =
                      reaching (record m { stack = val_int b ∷ m.stack }) (mid + 1 + length cl) a
                        q in
                    fire en m₃ (prim_code p) (prim_op p)
                      (λ q. ok (next (reaching m end (apply_prim p a b) q))) m end
                      (value (apply_prim p a b)) at_prim (decode-prim_code p) (prim_code-lt p)
                      (Ready-room m (val_int b ∷ []) _ ready (omega arith)) cq
                      (λ q. prim_runs en (record m { pc = end; profile = q }) p a b fits_a fits_b)
                      (λ q cq. arrived en m end (apply_prim p a b) q (apply_prim-lt p a b) cq)))))

  -- The code that pushes a value, works with it, and pops it: a bound variable.
  pub bound-Works :
      (f : Expr)
      → Works en f
      → (os vs : List ℕ) (m : Machine) (pc v : ℕ) (q : Profile)
      → At m.code pc (9 ∷ (compile f (0 ∷ deeper 1 os) ++ 19 ∷ 1 ∷ []))
      → Holds m.stack os vs
      → IsProgram (suc (length vs)) f
      → pc + length (compile f (0 ∷ deeper 1 os)) + 3 < 2 ^ 31
      → Ready m (depth f + 1)
      → v < int_range
      → en.Kept q
      → Leads en
          (ok (next (reaching m pc v q)))
          m
          (pc + length (compile f (0 ∷ deeper 1 os)) + 3)
          (eval f (v ∷ vs))
  unfolding decode
  bound-Works f works os vs m pc v q (at_push, at_more) holds bound fits ready fits_v c =
      let cf = compile f (0 ∷ deeper 1 os) in
      let (at_f, (at_pop, (at_one, _))) = At-append m.code (pc + 1) cf (19 ∷ 1 ∷ []) at_more in
      let end = pc + length cf + 3 in
      let after = pc + 1 + length cf in
      let m₁ = reaching m pc v q in
      let m₂ : Profile → Machine =
        λ q. record m { pc = pc + 1; accu = val_int v; stack = val_int v ∷ m.stack; profile = q } in
      let out = eval f (v ∷ vs) in
      fire en m₁ 9 Opcode.push (λ q. ok (next (m₂ q))) m end out at_push refl (omega arith)
        (Ready-room m [] _ ready (omega arith)) c
        (λ q. push_runs en (skip (record m₁ { profile = q })))
        (λ q c.
          Leads-last en (ok (next (m₂ q))) m (val_int v ∷ []) after end out
            (Leads-reset en (ok (next (m₂ q))) (record m { stack = val_int v ∷ m.stack }) (pc + 1)
              (val_int v) q after out
              (works (0 ∷ deeper 1 os) (v ∷ vs) (m₂ q) at_f
                (refl, fits_v, Holds-deeper (val_int v ∷ []) m.stack os vs holds) bound
                (omega arith)
                (Ready-later m (val_int v ∷ []) _ _ (pc + 1) (val_int v) q ready (omega arith)) c))
            (λ u q fits_u c.
              let m₃ = reaching (record m { stack = val_int v ∷ m.stack }) after u q in
              Leads-pc en (ok (next m₃)) m (value u) (omega arith) (
                fire en m₃ 19 Opcode.pop (λ q. ok (next (reaching m (after + 1 + 1) u q))) m
                  (after + 1 + 1) (value u) at_pop refl (omega arith)
                  (Ready-room m (val_int v ∷ []) _ ready (omega arith)) c
                  (λ q.
                    pop_runs en (record m { pc = after + 1; accu = val_int u; profile = q })
                      (val_int v) at_one)
                  (λ q c. arrived en m (after + 1 + 1) u q fits_u c))))

  pub let-Works : (e f : Expr) → Works en e → Works en f → Works en (let_in e f)
  unfolding compile eval
  let-Works e f works_e works_f os vs m at holds (bound_e, bound_f) fits ready kept =
      let ce = compile e os in
      let cf = compile f (0 ∷ deeper 1 os) in
      let tail = 9 ∷ (cf ++ 19 ∷ 1 ∷ []) in
      let (at_e, at_f) = At-append m.code m.pc ce tail at in
      let len_f : length (cf ++ 19 ∷ 1 ∷ []) ≡ length cf + 2 = length-append cf (19 ∷ 1 ∷ []) in
      let len : length (ce ++ tail) ≡ length ce + (length cf + 3) =
        omega (arith, len_f, length-append ce tail) in
      let mid = m.pc + length ce in
      let end = mid + length cf + 3 in
      Leads-pc en (ok (next m)) m (eval (let_in e f) vs) (omega arith) (
        Leads-bind en (ok (next m)) m [] mid end (eval e vs) (λ v. eval f (v ∷ vs))
          (works_e os vs m at_e holds bound_e (omega arith)
            (Ready-at m _ _ m.pc m.accu m.profile ready (omega arith)) kept)
          (λ v q fits_v c.
            bound-Works f works_f os vs m mid v q at_f holds bound_f (omega arith)
              (Ready-at m _ _ m.pc m.accu m.profile ready (omega arith)) fits_v c))

  -- A jump over the rest of a piece of code.
  pub branch-Leads :
      (m : Machine) (pc n v : ℕ) (q : Profile)
      → get_elem? m.code pc ≡ some 84
      → get_elem? m.code (pc + 1) ≡ some n
      → pc + 1 + n < 2 ^ 31
      → v < int_range
      → HasRoom m (length m.stack)
      → en.Kept q
      → Leads en (ok (next (reaching m pc v q))) m (pc + 1 + n) (value v)
  unfolding decode
  branch-Leads m pc n v q at at_n small fits inside c =
      fire en (reaching m pc v q) 84 Opcode.branch (λ q. ok (next (reaching m (pc + 1 + n) v q))) m
        (pc + 1 + n) (value v) at refl (omega arith) inside c
        (λ q. branch_runs en (reaching m (pc + 1) v q) n at_n small)
        (λ q c. arrived en m (pc + 1 + n) v q fits c)
