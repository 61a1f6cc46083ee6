-- ===== src/FuncStack/Laws.antt =====
-- The representation invariant of the function stack, and what keeps it.
use cc_implementation.Prelude.{
  ℕ, zero, ◌*◌, ◌≤◌, ◌<◌, ◌≡◌, arith, length, Bool, true, false, some, done, length-set,
  length-replicate,
}
use cc_implementation.Word.{word_mod}
use cc_implementation.FuncStack.{
  FuncStack, create_func_stack, is_empty, func_stack_push, func_stack_pop,
}

pub record IsValid (s : FuncStack) : Type 0 where
  pub storage : length s.stack_data ≡ s.max_items
  pub items : s.nr_items ≡ s.top
  pub bytes : s.cur_size_bytes ≡ s.top * 8
  pub within : s.top ≤ s.max_items
  pub small : s.max_items * 8 < word_mod

-- The stack that `create_func_stack` returns is valid and empty, with the capacity asked for.
pub create_func_stack-IsValid :
    (n : ℕ) (got_data got_stack : Bool) (s : FuncStack)
    → n * 8 < word_mod
    → create_func_stack n got_data got_stack ≡ done (some s)
    → IsValid s × (s.max_items ≡ n) × (is_empty s ≡ true)
unfolding create_func_stack is_empty
create_func_stack-IsValid n false got_stack s h e = cc
create_func_stack-IsValid n true false s h e = cc
create_func_stack-IsValid n true true s h e = ground (arith, length-replicate n zero)

pub push-IsValid : (s : FuncStack) (pc : ℕ) → IsValid s → IsValid (func_stack_push s pc).1
unfolding func_stack_push
push-IsValid s pc v = ground (arith, length-set s.stack_data s.top pc)

pub pop-IsValid : (s : FuncStack) → IsValid s → IsValid (func_stack_pop s).1
unfolding func_stack_pop
pop-IsValid s v = ground arith
