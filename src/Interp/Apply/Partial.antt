-- ===== src/Interp/Apply/Partial.antt =====
-- Partial applications: what GRAB keeps, RESTART gives back.
use mathlib.Core.List.{append_assoc}
use cc_implementation.Prelude.{
  ℕ, ◌+◌, ◌-◌, ◌≡◌, refl, sym, arith, true, false, List, [], ◌∷◌, ◌++◌, length, length-append, some,
  get_elem?, ap, ◌∙◌,
}
use cc_implementation.Word.{add64, sub64, slt64}
use cc_implementation.Interp.Machine.{Value, word, code, ptr, Block, Machine, ok}
use cc_implementation.Interp.Memory.{operand, load, code_val, closure_tag, make_closinfo, skip}
use cc_implementation.Interp.Memory.Laws.{
  drop-append, take-append, get_elem?-append_length, load-block,
}
use cc_implementation.Interp.Runtime.{Runtime}
use cc_implementation.Interp.Control.{poll_gc}
use cc_implementation.Interp.Apply.{do_return, restart, grab, fields_from, wosize_val}

-- The block of a partial application: where its code is, and what it keeps.
abbrev pub partial_block : ℕ → Value → List Value → Block
partial_block pc env args = record {
  tag = closure_tag;
  fields = code pc ∷ (word (make_closinfo 0 2) ∷ (env ∷ args));
}

-- `fields_from` reads the end of a block.
fields_from-block :
    (m : Machine) (b i : ℕ) (block : Block) (before args : List Value)
    → m.env ≡ ptr b 0
    → get_elem? m.heap b ≡ some block
    → block.fields ≡ before ++ args
    → i ≡ length before
    → fields_from i (length args) m ≡ ok args
unfolding fields_from
fields_from-block m b i block before [] he hb hf hi = refl
fields_from-block m b i block before (a ∷ args) he hb hf hi =
    let next =
      fields_from-block m b (i + 1) block (before ++ a ∷ []) args he hb
        (hf ∙ sym (append_assoc before (a ∷ []) args))
        (omega (arith, length-append before (a ∷ []))) in
    let here : load m m.env i ≡ ok a =
      ap (λ v. load m v i) he ∙ load-block m b i block before a args hb hf hi in
    rw (here, next)

-- RESTART in the closure of a partial application pushes the arguments that it keeps in order,
-- restores the environment of the function, and counts the arguments as extra ones.
pub restart-partial :
    (m : Machine) (b pc : ℕ) (env : Value) (args : List Value)
    → m.env ≡ ptr b 0
    → get_elem? m.heap b ≡ some (partial_block pc env args)
    → restart m
      ≡ ok (record m {
        stack = args ++ m.stack;
        env = env;
        extra_args = add64 m.extra_args (length args);
      })
unfolding restart
restart-partial m b pc env args he hb =
    let block = partial_block pc env args in
    let header = code pc ∷ (word (make_closinfo 0 2) ∷ []) in
    let size : wosize_val m m.env ≡ ok (length block.fields) =
      ap (λ v. wosize_val m v) he ∙ rw hb in
    let count : length block.fields - 3 ≡ length args = omega arith in
    let old_env : load m m.env 2 ≡ ok env =
      ap (λ v. load m v 2) he ∙ load-block m b 2 block header env args hb refl refl in
    let found = fields_from-block m b 3 block (header ++ env ∷ []) args he hb refl refl in
    let none_off : 3 - length block.fields ≡ 0 = omega arith in
    let counted : add64 m.extra_args (sub64 (length block.fields) 3)
        ≡ add64 m.extra_args (length args) =
      omega arith in
    rw (size, count, found, none_off, old_env, counted)

-- The machine in which GRAB builds its closure.
abbrev pub kept : Machine → List Value → List Value → Machine
kept m args rest = record m {
  pc = m.pc + 1;
  accu = ptr (length m.heap) 0;
  heap = m.heap ++ partial_block (m.pc + 1 - 3) m.env args ∷ [];
  stack = rest;
}

-- GRAB with fewer arguments than it requires returns to the caller with a closure over them.
pub grab-kept :
    (rt : Runtime) (m : Machine) (required : ℕ) (args rest : List Value)
    → operand m ≡ ok required
    → m.stack ≡ args ++ rest
    → length args ≡ 1 + m.extra_args
    → slt64 m.extra_args required ≡ true
    → rt.minor_heap_full (skip m) ≡ false
    → grab rt m ≡ do_return rt (kept m args rest)
unfolding grab poll_gc
grab-kept rt m required args rest ho hs hl few room =
    rw (ho, few, room, ← hl, hs, take-append args rest, drop-append args rest)

-- A partial application loses nothing. With fewer arguments than required, and room for the closure,
-- GRAB ends as `do_return` does after it has taken the arguments off the stack and made a closure
-- whose code is the RESTART two words before GRAB's opcode. And in any machine `r` that has the heap
-- of that moment and runs this closure, RESTART puts exactly those arguments on the stack, above the
-- new ones, restores GRAB's environment, and adds their number to the extra arguments.
pub grab-restart :
    (rt : Runtime) (m r : Machine) (required : ℕ) (args rest : List Value)
    → operand m ≡ ok required
    → m.stack ≡ args ++ rest
    → length args ≡ 1 + m.extra_args
    → slt64 m.extra_args required ≡ true
    → rt.minor_heap_full (skip m) ≡ false
    → r.heap ≡ (kept m args rest).heap
    → r.env ≡ (kept m args rest).accu
    → (grab rt m ≡ do_return rt (kept m args rest))
      × (code_val r r.env ≡ ok (m.pc + 1 - 3))
      × (restart r
          ≡ ok (record r {
            stack = args ++ r.stack;
            env = m.env;
            extra_args = add64 r.extra_args (length args);
          }))
grab-restart rt m r required args rest ho hs hl few room hh he =
    let block = partial_block (m.pc + 1 - 3) m.env args in
    let there : get_elem? r.heap (length m.heap) ≡ some block =
      ap (λ h. get_elem? h (length m.heap)) hh ∙ get_elem?-append_length m.heap block [] in
    (
      grab-kept rt m required args rest ho hs hl few room,
      ap (λ v. code_val r v) he ∙ rw there,
      restart-partial r (length m.heap) (m.pc + 1 - 3) m.env args he there,
    )
