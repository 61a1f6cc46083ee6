-- ===== src/Interp/Programs/Whole.antt =====
-- Compiled programs, from the entry of an interpreter to its end.
use native.Mathlib.Nat.{zero-add, suc-add}
use cc_implementation.Prelude.{
  ℕ, suc, ◌+◌, ◌^◌, ◌<◌, ◌≡◌, refl, arith, false, List, [], ◌∷◌, ◌++◌, some, get_elem?, length,
}
use cc_implementation.Profile.{Profile}
use cc_implementation.Interp.Machine.{Value, Machine, Exec, ok, Signal, next, returned, uncaught}
use cc_implementation.Interp.Memory.{val_int, skip}
use cc_implementation.Interp.Opcodes.{Opcode, decode}
use cc_implementation.Interp.Programs.{
  Expr, const, var, prim, let_in, if_else, raise_exn, try_with, Outcome, value, exn, eval, compile,
  IsProgram, depth,
}
use cc_implementation.Interp.Programs.Engine.{Engine}
use cc_implementation.Interp.Programs.Steps.{Leads, Steps, here, round, reaching, raising}
use cc_implementation.Interp.Programs.Layout.{At, At-append, Ready, HasRoom, Ready-room}
use cc_implementation.Interp.Programs.Pieces.{
  Works, const-Works, var-Works, prim-Works, let-Works, raise-Works,
}
use cc_implementation.Interp.Programs.Choices.{if-Works, try-Works}

-- What `caml_interprete` gives back as it found it.
pub record Restored (m r : Machine) : Type 0 where
  pub stack : r.stack ≡ m.stack
  pub trap_sp_off : r.trap_sp_off ≡ m.trap_sp_off
  pub external_raise : r.external_raise ≡ m.external_raise
  pub heap : r.heap ≡ m.heap
  pub current_stack : r.current_stack ≡ m.current_stack

-- The outcome of a program as the result of `caml_interprete`.
abbrev pub Finishes : Machine → Outcome → Signal → Type 0
Finishes m (value v) s = (r : Machine) × (s ≡ returned (val_int v) r) × Restored m r
Finishes m (exn w) s = (r : Machine) × (s ≡ uncaught (val_int w) r) × Restored m r

-- The loop comes to this end, with enough fuel and with any more.
abbrev pub RunsTo : (ℕ → Exec Signal → Exec Signal) → Exec Signal → Signal → Type 0
RunsTo run e s = (enough : ℕ) × ((more : ℕ) → run (enough + more) e ≡ ok s)

-- The loop comes to this outcome, entered from the machine `m`.
abbrev pub Executes : (ℕ → Exec Signal → Exec Signal) → Machine → Exec Signal → Outcome → Type 0
Executes run m e o = (s : Signal) × RunsTo run e s × Finishes m o s

module _ (en : Engine) where
  -- Every expression, by induction.
  pub compile-Works : ((m : Machine) → en.rt.is_pending m ≡ false) → (e : Expr) → Works en e
  compile-Works idle (const n) = const-Works en n
  compile-Works idle (var i) = var-Works en i
  compile-Works idle (prim p l r) =
      prim-Works en p l r (compile-Works idle l) (compile-Works idle r)
  compile-Works idle (let_in e f) = let-Works en e f (compile-Works idle e) (compile-Works idle f)
  compile-Works idle (if_else c t f) =
      if-Works en c t f (compile-Works idle c) (compile-Works idle t) (compile-Works idle f)
  compile-Works idle (raise_exn e) = raise-Works en e (compile-Works idle e)
  compile-Works idle (try_with e h) =
      try-Works en idle e h (compile-Works idle e) (compile-Works idle h)

  run-next :
      (m : Machine) (s : Signal) (enough : ℕ)
      → ((more : ℕ) → en.run (enough + more) (en.step m) ≡ ok s)
      → (more : ℕ) → en.run (suc enough + more) (ok (next m)) ≡ ok s
  run-next m s enough runs more = rw (suc-add, en.run_next (enough + more) m) (runs more)

  -- Whole rounds, and then the end.
  RunsTo-Steps :
      {a b : Exec Signal} (s : Signal) → Steps en.step a b → RunsTo en.run b s → RunsTo en.run a s
  RunsTo-Steps s here l = l
  RunsTo-Steps s (round {m} rest) l =
      let (enough, runs) = RunsTo-Steps s rest l in (suc enough, run-next m s enough runs)

  module _ (m start : Machine)
      (stops : (pc v : ℕ) (q : Profile)
        → (t : Machine) × (en.instruction Opcode.stop (skip (reaching start pc v q))
            ≡ ok (returned (val_int v) t))
          × Restored m t)
      (leaves : (above : List Value) (at w : ℕ) (q : Profile)
        → (t : Machine) × (en.raise_notrace (raising start above at w q)
            ≡ ok (uncaught (val_int w) t))
          × Restored m t) where
    finish :
        (pc : ℕ) (o : Outcome)
        → get_elem? m.code pc ≡ some 143
        → start.code ≡ m.code
        → HasRoom start (length start.stack)
        → Leads en (ok (next start)) start pc o
        → Executes en.run m (ok (next start)) o
    unfolding decode
    finish pc (value v) at same inside (q, fits, c, steps) =
        let r = reaching start pc v q in
        let e₁ : Profile → Exec Signal = λ q. ok (returned (val_int v) (stops pc v q).0) in
        let (q₁, k, e) =
          en.stepped r 143 Opcode.stop e₁ (rw same at) refl (omega arith) inside c
            (λ q. (stops pc v q).1) in
        let (t, _, restored) = stops pc v q₁ in
        let ends : (more : ℕ) → en.run (1 + more) (en.step r) ≡ ok (returned (val_int v) t) =
          λ more. rw (suc-add, zero-add, e) (en.run_returned more (val_int v) t) in
        (
          returned (val_int v) t,
          RunsTo-Steps (returned (val_int v) t) steps
              (2, run-next r (returned (val_int v) t) 1 ends),
          (t, refl, restored),
        )
    finish pc (exn w) at same inside (q, at_raise, above, fits, c, steps) =
        let r = raising start above at_raise w q in
        let (t, e, restored) = leaves above at_raise w q in
        let s = uncaught (val_int w) t in
        let ends : (more : ℕ) → en.run (1 + more) (en.raise_notrace r) ≡ ok s =
          λ more. rw (suc-add, zero-add, e) (en.run_uncaught more (val_int w) t) in
        (s, RunsTo-Steps s steps (1, ends), (t, refl, restored))

    -- The code of a closed expression, and STOP.
    pub entered :
        (e : Expr)
        → ((r : Machine) → en.rt.is_pending r ≡ false)
        → IsProgram 0 e
        → At m.code start.pc (compile e [] ++ 143 ∷ [])
        → start.pc + length (compile e []) < 2 ^ 31
        → start.code ≡ m.code
        → Ready start (depth e)
        → en.Kept start.profile
        → Executes en.run m (ok (next start)) (eval e [])
    entered e idle closed at fits same ready kept =
        let (at_e, (at_stop, _)) = At-append m.code start.pc (compile e []) (143 ∷ []) at in
        finish (start.pc + length (compile e [])) (eval e []) at_stop same
          (Ready-room start [] _ ready (omega arith))
          (compile-Works idle e [] [] start (rw same at_e) tt closed fits ready kept)
