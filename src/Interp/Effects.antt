-- ===== src/Interp/Effects.antt =====
-- Context switching: continuations are chains of stacks, linked by their parents.
pub mod Continuations
use cc_implementation.Prelude.{
  ℕ, zero, suc, [], ◌∷◌, Option, none, some, ◌==◌, if◌then◌else◌, length, set,
}
use cc_implementation.Word.{add64}
use cc_implementation.Interp.Machine.{
  Value, word, code, fiber, Fiber, Machine, Exec, ok, fault, ◌>>=◌, Signal, next,
}
use cc_implementation.Interp.Memory.{
  val_int, as_long, drop, slot, operand, load, code_val, new_block, cont_tag,
}
use cc_implementation.Interp.Runtime.{Runtime}
use cc_implementation.Interp.Control.{fiber_at, put_fiber, check_stacks, poll_gc, raise_instr}

abbrev pub unhandled_exn : ℕ
unhandled_exn = 12

abbrev pub continuation_already_taken_exn : ℕ
continuation_already_taken_exn = 13

-- `Stack_parent(stk) = parent`
unfoldable pub set_parent : ℕ → Option ℕ → Machine → Exec Machine
set_parent i parent m = fiber_at m i >>= λ f. ok (put_fiber i (record f { parent = parent }) m)

-- `current_stack->sp = sp`
unfoldable pub save_stack : Machine → Exec Machine
save_stack m = fiber_at m m.current_stack >>= λ f.
    ok (put_fiber m.current_stack (record f { saved = m.stack }) m)

-- `CAMLassert(Stack_parent(stk) == NULL)`
unfoldable pub check_orphan : ℕ → Machine → Exec Machine
check_orphan i m = fiber_at m i >>= λ f. elim f.parent [ none ↦ ok m | some _ ↦ fault ]

-- `while (Stack_parent(stk) != NULL) stk = Stack_parent(stk);`, on fuel: a chain with no cycle is
-- no longer than there are stacks.
unfoldable pub last_parent : ℕ → Machine → ℕ → Exec ℕ
last_parent zero m i = fault
last_parent (suc fuel) m i =
    fiber_at m i >>= λ f. elim f.parent [ none ↦ ok i | some j ↦ last_parent fuel m j ]

-- The switch of `do_resume` to the stack `i`, which runs `fn` on `arg`.
unfoldable pub resume_on : ℕ → Value → Value → Machine → Exec Machine
unfolding last_parent set_parent save_stack
resume_on i fn arg m = do
  last ← last_parent (suc (length m.fibers)) m i
  m₁ ← set_parent last (some m.current_stack) m
  m₂ ← save_stack m₁
  f ← fiber_at m₂ i
  trap ← slot (record m₂ { stack = f.saved }) 0
  off ← as_long trap
  rest ← drop 1 f.saved
  pc ← code_val m₂ fn
  ok (record m₂ {
    stack = arg ∷ rest;
    current_stack = i;
    trap_sp_off = off;
    accu = fn;
    pc = pc;
    env = fn;
    extra_args = 0;
  })

-- The switch from the stack `self` to its parent, whose saved words begin with the trap offset and
-- the extra arguments: the effect handler of `self` runs on the effect, the continuation and `self`.
unfoldable pub handle_on : ℕ → ℕ → Value → Value → Value → Machine → Exec Machine
handle_on self parent handler eff cont m = do
  p ← fiber_at m parent
  let there = record m { stack = p.saved; current_stack = parent }
  trap ← slot there 0
  off ← as_long trap
  args ← slot there 1
  extra ← as_long args
  rest ← drop 2 p.saved
  pc ← code_val m handler
  ok (record there {
    stack = eff ∷ (cont ∷ (fiber self ∷ rest));
    trap_sp_off = off;
    extra_args = add64 extra 2;
    accu = handler;
    pc = pc;
    env = handler;
  })

module _ (rt : Runtime) where
  -- `goto raise_exception` with an exception of the runtime's table
  unfoldable pub raise_global : ℕ → Machine → Exec Signal
  unfolding raise_instr
  raise_global n m = load m m.global_data n >>= λ exn. raise_instr rt (record m { accu = exn })

  -- `do_resume`; the accumulator is the continuation's first stack, or `Val_ptr(NULL)`.
  unfoldable pub do_resume : Value → Value → Machine → Exec Signal
  unfolding raise_global resume_on
  do_resume fn arg m = elim m.accu [
    | fiber i ↦ resume_on i fn arg m >>= check_stacks rt >>= λ m'. ok (next m')
    | word w ↦ if w == 1 then raise_global continuation_already_taken_exn m else fault
    | _ ↦ fault
  ]

  -- RESUME
  unfoldable pub resume : Machine → Exec Signal
  unfolding do_resume
  resume m = do
    fn ← slot m 0
    arg ← slot m 1
    rest ← drop 2 m.stack
    let s = val_int m.trap_sp_off ∷ val_int 0 ∷ code m.pc ∷ m.env ∷ val_int m.extra_args ∷ rest
    do_resume fn arg (record m { stack = s })

  -- RESUMETERM: `*pc - 2` words of the frame go, and two words take the place of the rest.
  unfoldable pub resumeterm : Machine → Exec Signal
  unfolding do_resume
  resumeterm m = do
    fn ← slot m 0
    arg ← slot m 1
    n ← operand m
    rest ← drop n m.stack
    do_resume fn arg (record m { stack = val_int m.trap_sp_off ∷ val_int m.extra_args ∷ rest })

  -- PERFORM
  unfoldable pub perform : Machine → Exec Signal
  unfolding raise_global save_stack set_parent handle_on
  perform m = fiber_at m m.current_stack >>= λ f. elim f.parent [
    | none ↦ raise_global unhandled_exn m
    | some parent ↦ do
      let self = m.current_stack
      m₁ ← poll_gc rt m
      let s = val_int m₁.trap_sp_off ∷ code m₁.pc ∷ m₁.env ∷ val_int m₁.extra_args ∷ m₁.stack
      m₂ ← save_stack (record m₁ { stack = s })
      m₃ ← set_parent self none m₂
      let (cont, m₄) = new_block m₃ cont_tag (fiber self ∷ [])
      m₅ ← handle_on self parent f.handle_effect m₄.accu cont m₄
      m₆ ← check_stacks rt m₅
      ok (next m₆)
  ]

  -- REPERFORMTERM
  unfoldable pub reperformterm : Machine → Exec Signal
  unfolding do_resume save_stack set_parent check_orphan handle_on
  reperformterm m = do
    let eff = m.accu
    cont ← slot m 0
    tail ← slot m 1
    n ← operand m
    rest ← drop n m.stack
    let self = m.current_stack
    let m₁ = record m { stack = val_int m.trap_sp_off ∷ val_int m.extra_args ∷ rest }
    f ← fiber_at m₁ self
    elim f.parent [
      | none ↦ rt.continuation_use cont m₁ >>= λ (stk, m₂).
          load m₂ m₂.global_data unhandled_exn >>= λ exn.
          do_resume m₂.raise_unhandled exn (record m₂ { accu = stk })
      | some parent ↦ save_stack m₁ >>= λ m₂. elim tail [
        | fiber last ↦
            check_orphan last m₂
            >>= set_parent self none
            >>= set_parent last (some self)
            >>= handle_on self parent f.handle_effect eff cont
            >>= check_stacks rt
            >>= λ m₃. ok (next m₃)
        | _ ↦ fault
      ]
    ]
