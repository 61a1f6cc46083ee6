-- ===== src/Interp/Programs.antt =====
-- Programs of integers, `let`, `if`, `raise` and `try`: what they mean, and the bytecode for them, in
-- the shape that the OCaml compiler gives to these constructs. What the interpreter does with this
-- code stands in the modules below.
pub mod Steps
pub mod Words
pub mod Layout
pub mod Instructions
pub mod Engine
pub mod Pieces
pub mod Choices
pub mod Whole
pub mod Compiled
use cc_implementation.Prelude.{
  ℕ, suc, ◌+◌, ◌-◌, ◌*◌, ◌%◌, ◌^◌, ◌<◌, Bool, List, [], ◌∷◌, ◌++◌, ltb, ◌==◌, if◌then◌else◌, get_or,
  length,
}

-- The integers of OCaml are those modulo 2^63.
abbrev pub int_range : ℕ
int_range = 2 ^ 63

pub data Prim : Type 0 where
  add sub mul less equal : Prim

-- A variable is the number of binders between its use and its binder. `raise` has an integer as its
-- exception, and `try` binds it.
pub data Expr : Type 0 where
  const var : ℕ → Expr
  prim : Prim → Expr → Expr → Expr
  let_in try_with : Expr → Expr → Expr
  if_else : Expr → Expr → Expr → Expr
  raise_exn : Expr → Expr

pub data Outcome : Type 0 where
  value exn : ℕ → Outcome

infixl 5 ◌>>=◌
abbrev pub ◌>>=◌ : Outcome → (ℕ → Outcome) → Outcome
value v >>= f = f v
exn w >>= f = exn w

abbrev pub handle : Outcome → (ℕ → Outcome) → Outcome
handle (value v) h = value v
handle (exn w) h = h w

-- A signed comparison.
abbrev pub signed_less : ℕ → ℕ → Bool
signed_less a b = ltb ((a + 2 ^ 62) % int_range) ((b + 2 ^ 62) % int_range)

abbrev pub apply_prim : Prim → ℕ → ℕ → ℕ
apply_prim Prim.add a b = (a + b) % int_range
apply_prim Prim.sub a b = (a + int_range - b) % int_range
apply_prim Prim.mul a b = (a * b) % int_range
apply_prim Prim.less a b = if signed_less a b then 1 else 0
apply_prim Prim.equal a b = if a == b then 1 else 0

-- The value or the exception of an expression, with the values of its variables; the right operand
-- of a primitive is evaluated first.
unfoldable pub eval : Expr → List ℕ → Outcome
eval (const n) vs = value n
eval (var i) vs = value (get_or vs i 0)
eval (prim p l r) vs = eval r vs >>= λ b. eval l vs >>= λ a. value (apply_prim p a b)
eval (let_in e f) vs = eval e vs >>= λ v. eval f (v ∷ vs)
eval (if_else c t f) vs =
    let on_true = eval t vs in
    let on_false = eval f vs in eval c vs >>= λ v. if v == 0 then on_false else on_true
eval (raise_exn e) vs = eval e vs >>= λ v. exn v
eval (try_with e h) vs = handle (eval e vs) (λ w. eval h (w ∷ vs))

-- ADDINT, SUBINT, MULINT, LTINT, EQ
abbrev pub prim_code : Prim → ℕ
prim_code Prim.add = 110
prim_code Prim.sub = 111
prim_code Prim.mul = 112
prim_code Prim.less = 123
prim_code Prim.equal = 121

-- Where variables stand on the stack, after `k` more words were pushed.
abbrev pub deeper : ℕ → List ℕ → List ℕ
deeper k [] = []
deeper k (o ∷ os) = (k + o) ∷ deeper k os

-- The code of an expression, with the places of its variables on the stack: it leaves the value in
-- the accumulator and the stack as it was. CONSTINT; ACC; PUSH and the primitive; PUSH and POP 1;
-- BRANCHIFNOT and BRANCH; RAISE_NOTRACE; PUSHTRAP, POPTRAP and BRANCH, and a handler that pushes
-- the exception. It never makes the stack larger, as `caml_ensure_stack_capacity` does.
unfoldable pub compile : Expr → List ℕ → List ℕ
compile (const n) os = 103 ∷ n ∷ []
compile (var i) os = 8 ∷ get_or os i 0 ∷ []
compile (prim p l r) os = compile r os ++ 9 ∷ (compile l (deeper 1 os) ++ prim_code p ∷ [])
compile (let_in e f) os = compile e os ++ 9 ∷ (compile f (0 ∷ deeper 1 os) ++ 19 ∷ 1 ∷ [])
compile (if_else c t f) os =
    let ct = compile t os in
    let cf = compile f os in
    compile c os ++ 86 ∷ (length ct + 3) ∷ (ct ++ 84 ∷ (length cf + 1) ∷ cf)
compile (raise_exn e) os = compile e os ++ 147 ∷ []
compile (try_with e h) os =
    let ce = compile e (deeper 4 os) in
    let ch = 9 ∷ (compile h (0 ∷ deeper 1 os) ++ 19 ∷ 1 ∷ []) in
    89 ∷ (length ce + 4) ∷ (ce ++ 90 ∷ 84 ∷ (length ch + 1) ∷ ch)

-- Constants that fit in an operand, and variables that are bound.
abbrev pub IsProgram : ℕ → Expr → Type 0
IsProgram n (const k) = k < 2 ^ 31
IsProgram n (var i) = i < n
IsProgram n (prim p l r) = IsProgram n l × IsProgram n r
IsProgram n (let_in e f) = IsProgram n e × IsProgram (suc n) f
IsProgram n (if_else c t f) = IsProgram n c × IsProgram n t × IsProgram n f
IsProgram n (raise_exn e) = IsProgram n e
IsProgram n (try_with e h) = IsProgram n e × IsProgram (suc n) h

-- More words than the code of an expression ever has on the stack at once.
abbrev pub depth : Expr → ℕ
depth (const n) = 0
depth (var i) = 0
depth (prim p l r) = depth l + depth r + 1
depth (let_in e f) = depth e + depth f + 1
depth (if_else c t f) = depth c + depth t + depth f
depth (raise_exn e) = depth e
depth (try_with e h) = depth e + depth h + 4
