-- ===== src/InterpAli/Apply.antt =====
-- Function application and return, without counters.
use cc_implementation.Prelude.{ℕ, ◌+◌, ◌-◌, ◌∷◌, ◌++◌, if◌then◌else◌}
use cc_implementation.Word.{add64, sub64, slt64}
use cc_implementation.Interp.Machine.{word, code, Machine, Exec, ok, ◌>>=◌}
use cc_implementation.Interp.Memory.{
  val_int, as_long, as_code, drop, take, slot, pop_words, operand, fetch, code_val, new_block,
  closure_tag, make_closinfo,
}
use cc_implementation.Interp.Runtime.{Runtime}
use cc_implementation.Interp.Control.{poll_gc}
use cc_implementation.Interp.Apply.{slide, copied}
use cc_implementation.InterpAli.Control.{check_stacks}

-- The frame that RETURN and GRAB take off the stack.
unfoldable pub pop_frame : Machine → Exec Machine
pop_frame m = do
  target ← slot m 0
  pc ← as_code target
  env ← slot m 1
  args ← slot m 2
  extra ← as_long args
  pop_words 3 (record m { pc = pc; env = env; extra_args = extra })

-- RETURN
unfoldable pub return_instr : Machine → Exec Machine
unfolding pop_frame
return_instr m = do
  (n, m₁) ← fetch m
  m₂ ← pop_words n m₁
  if slt64 0 m₂.extra_args
      then (code_val m₂ m₂.accu >>= λ pc.
          ok (record m₂ { extra_args = sub64 m₂.extra_args 1; pc = pc; env = m₂.accu }))
      else pop_frame m₂

module _ (rt : Runtime) where
  -- APPLY
  unfoldable pub apply : Machine → Exec Machine
  unfolding check_stacks
  apply m = do
    n ← operand m
    pc ← code_val m m.accu
    check_stacks rt (record m { extra_args = sub64 n 1; pc = pc; env = m.accu })

  -- APPLY1, APPLY2 and APPLY3, with the number of arguments: a return frame goes under them.
  unfoldable pub apply_to : ℕ → Machine → Exec Machine
  unfolding check_stacks
  apply_to n m = do
    args ← take n m.stack
    rest ← drop n m.stack
    pc ← code_val m m.accu
    let s = args ++ (code m.pc ∷ m.env ∷ val_int m.extra_args ∷ rest)
    check_stacks rt (record m { stack = s; pc = pc; env = m.accu; extra_args = n - 1 })

  -- APPTERM
  unfoldable pub appterm : Machine → Exec Machine
  unfolding slide copied check_stacks
  appterm m = do
    (nargs, m₁) ← fetch m
    slotsize ← operand m₁
    args ← take nargs m₁.stack
    m₂ ← slide (copied slotsize args) slotsize (add64 m₁.extra_args (sub64 nargs 1)) m₁
    check_stacks rt m₂

  -- APPTERM1, APPTERM2 and APPTERM3, with the number of arguments
  unfoldable pub appterm_of : ℕ → Machine → Exec Machine
  unfolding slide check_stacks
  appterm_of nargs m = do
    slotsize ← operand m
    args ← take nargs m.stack
    m₁ ← slide args slotsize (add64 m.extra_args (nargs - 1)) m
    check_stacks rt m₁

  -- GRAB
  unfoldable pub grab : Machine → Exec Machine
  unfolding pop_frame
  grab m = do
    (required, m₁) ← fetch m
    if slt64 m₁.extra_args required
        then (do
          m₂ ← poll_gc rt m₁
          args ← take (1 + m₂.extra_args) m₂.stack
          rest ← drop (1 + m₂.extra_args) m₂.stack
          let fields = code (m₂.pc - 3) ∷ word (make_closinfo 0 2) ∷ m₂.env ∷ args
          let (v, m₃) = new_block m₂ closure_tag fields
          pop_frame (record m₃ { accu = v; stack = rest }))
        else ok (record m₁ { extra_args = sub64 m₁.extra_args required })
