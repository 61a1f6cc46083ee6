-- ===== src/Interp/Apply.antt =====
-- Function application and return. APPLY and its variants also record the call in the counters.
pub mod Calls
pub mod Returns
pub mod Partial
use cc_implementation.Prelude.{
  ℕ, zero, suc, ◌+◌, ◌-◌, List, [], ◌∷◌, ◌++◌, if◌then◌else◌, Run, done, died, hangs, ltb, get_or,
  length,
}
use cc_implementation.Word.{add64, sub64, slt64}
use cc_implementation.Profile.{Profile, enter, leave}
use cc_implementation.Interp.Machine.{Value, word, code, Machine, Exec, ok, fault, ◌>>=◌}
use cc_implementation.Interp.Memory.{
  of_option, val_int, as_long, as_code, drop, take, slot, pop_words, operand, skip, fetch, load,
  code_val, new_block, wosize_val, closure_tag, make_closinfo,
}
use cc_implementation.Interp.Runtime.{Runtime}
use cc_implementation.Interp.Control.{to_parent, fiber_at, check_stacks, poll_gc}

-- A failed assertion of the counters, or a search that never ends, is no further step.
abbrev pub of_run : Machine → Run Profile → Exec Machine
of_run m (done p) = ok (record m { profile = p })
of_run m died = fault
of_run m hangs = fault

-- PUSH_RETADDR
unfoldable pub push_retaddr : Machine → Exec Machine
push_retaddr m = do
  n ← operand m
  ok (record (skip m) { stack = code (add64 m.pc n) ∷ m.env ∷ val_int m.extra_args ∷ m.stack })

-- What the copy of `xs` from its last word down leaves, `d` words further down: a word that another
-- one has overwritten by then is copied as that one.
unfoldable pub overlap : ℕ → List Value → List Value
overlap d [] = []
overlap d (x ∷ xs) = let moved = overlap d xs in get_or moved (d - 1) x ∷ moved

-- The loop of APPTERM over the arguments `xs`, to the end of a frame of `slotsize` words. It is the
-- plain copy unless the frame is smaller than they are.
unfoldable pub copied : ℕ → List Value → List Value
unfolding overlap
copied slotsize xs = let n = length xs in if ltb slotsize n then overlap (n - slotsize) xs else xs

-- The end of APPTERM, APPTERM1, APPTERM2 and APPTERM3 but for the stack check: `args` take the place
-- of a frame of `slotsize` words, and the closure in the accumulator is entered.
unfoldable pub slide : List Value → ℕ → ℕ → Machine → Exec Machine
slide args slotsize extra m = do
  rest ← drop slotsize m.stack
  pc ← code_val m m.accu
  ok (record m { stack = args ++ rest; pc = pc; env = m.accu; extra_args = extra })

-- The fields of the environment from the fourth on, which RESTART pushes.
unfoldable pub fields_from : ℕ → ℕ → Machine → Exec (List Value)
fields_from i zero m = ok []
fields_from i (suc n) m = load m m.env i >>= λ v. fields_from (i + 1) n m >>= λ vs. ok (v ∷ vs)

-- RESTART: the arguments kept by the closure of a partial application go back on the stack. Their
-- number is signed: a smaller block takes words off.
unfoldable pub restart : Machine → Exec Machine
unfolding fields_from
restart m = do
  size ← wosize_val m m.env
  kept ← fields_from 3 (size - 3) m
  s ← drop (3 - size) m.stack
  env ← load m m.env 2
  ok (record m { stack = kept ++ s; env = env; extra_args = add64 m.extra_args (sub64 size 3) })

module _ (rt : Runtime) where
  -- The calls of the counters in APPLY, APPLY1, APPLY2 and APPLY3.
  unfoldable pub count_call : Machine → Exec Machine
  count_call m = of_run m (enter (rt.malloc_granted m) (rt.calloc_granted m) m.profile m.pc)

  -- APPLY
  unfoldable pub apply : Machine → Exec Machine
  unfolding count_call
  apply m = do
    n ← operand m
    pc ← code_val m m.accu
    m₁ ← count_call (record m { extra_args = sub64 n 1; pc = pc; env = m.accu })
    check_stacks rt m₁

  -- APPLY1, APPLY2 and APPLY3, with the number of arguments: a return frame goes under them.
  unfoldable pub apply_to : ℕ → Machine → Exec Machine
  unfolding count_call
  apply_to n m = do
    args ← take n m.stack
    rest ← drop n m.stack
    pc ← code_val m m.accu
    let s = args ++ (code m.pc ∷ m.env ∷ val_int m.extra_args ∷ rest)
    m₁ ← count_call (record m { stack = s; pc = pc; env = m.accu; extra_args = n - 1 })
    check_stacks rt m₁

  -- APPTERM
  unfoldable pub appterm : Machine → Exec Machine
  unfolding slide copied
  appterm m = do
    (nargs, m₁) ← fetch m
    slotsize ← operand m₁
    args ← take nargs m₁.stack
    m₂ ← slide (copied slotsize args) slotsize (add64 m₁.extra_args (sub64 nargs 1)) m₁
    check_stacks rt m₂

  -- APPTERM1, APPTERM2 and APPTERM3, with the number of arguments
  unfoldable pub appterm_of : ℕ → Machine → Exec Machine
  unfolding slide
  appterm_of nargs m = do
    slotsize ← operand m
    args ← take nargs m.stack
    m₁ ← slide args slotsize (add64 m.extra_args (nargs - 1)) m
    check_stacks rt m₁

  -- `do_return`
  unfoldable pub do_return : Machine → Exec Machine
  do_return m = elim m.stack [
    | [] ↦ fiber_at m m.current_stack >>= λ self.
        of_option self.parent >>= λ parent. to_parent m parent self.handle_value >>= check_stacks rt
    | v ∷ s ↦ do
      pc ← as_code v
      env ← slot m 1
      args ← slot m 2
      extra ← as_long args
      pop_words 3 (record m { pc = pc; env = env; extra_args = extra })
  ]

  -- RETURN
  unfoldable pub return_instr : Machine → Exec Machine
  unfolding do_return
  return_instr m = do
    (n, m₁) ← fetch m
    m₂ ← pop_words n m₁
    let m₃ = record m₂ { profile = leave m₂.profile }
    if slt64 0 m₃.extra_args
        then (code_val m₃ m₃.accu >>= λ pc.
            ok (record m₃ { extra_args = sub64 m₃.extra_args 1; pc = pc; env = m₃.accu }))
        else do_return m₃

  -- GRAB
  unfoldable pub grab : Machine → Exec Machine
  unfolding do_return
  grab m = do
    (required, m₁) ← fetch m
    if slt64 m₁.extra_args required
        then (do
          m₂ ← poll_gc rt m₁
          args ← take (1 + m₂.extra_args) m₂.stack
          rest ← drop (1 + m₂.extra_args) m₂.stack
          let fields = code (m₂.pc - 3) ∷ word (make_closinfo 0 2) ∷ m₂.env ∷ args
          let (v, m₃) = new_block m₂ closure_tag fields
          do_return (record m₃ { accu = v; stack = rest }))
        else ok (record m₁ { extra_args = sub64 m₁.extra_args required })
