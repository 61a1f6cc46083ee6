-- ===== src/FuncStack.antt =====
-- The bounded stack of function addresses of interp.c (`function_stack_t` and its functions).
-- A code pointer is its 64-bit address, and 0 is NULL. The messages that the functions print are
-- left out. The arguments of `create_func_stack` after the first are the successes of `malloc`.
pub mod Laws
pub mod Refine
pub mod Tests
use cc_implementation.Prelude.{
  ℕ, ◌+◌, ◌-◌, ◌%◌, Bool, true, false, List, Option, none, some, ◌==◌, if◌then◌else◌, get_or, set,
  replicate, Run, done, died, not,
}
use cc_implementation.Word.{add64, sub64}

pub record FuncStack : Type 0 where
  pub stack_data : List ℕ
  pub nr_items : ℕ
  pub max_items : ℕ
  pub cur_size_bytes : ℕ
  pub top : ℕ

-- `sizeof(code_t)`
abbrev pub code_size : ℕ
code_size = 8

-- `none` is NULL; a failure of the second `malloc` ends the process.
unfoldable pub create_func_stack : ℕ → Bool → Bool → Run (Option FuncStack)
create_func_stack max_items false got_stack = done none
create_func_stack max_items true false = died
create_func_stack max_items true true = done (
    some (record {
      stack_data = replicate max_items 0;
      nr_items = 0;
      max_items = max_items;
      cur_size_bytes = 0;
      top = 0;
    }))

unfoldable pub is_empty : FuncStack → Bool
is_empty s = s.nr_items == 0

unfoldable pub is_full : FuncStack → Bool
is_full s = s.top == s.max_items

-- The top entry, or 0 if the stack is empty.
unfoldable pub peek : FuncStack → ℕ
unfolding is_empty
peek s = if is_empty s then 0 else get_or s.stack_data (sub64 s.top 1) 0

-- The result is `true` for 0, success, and `false` for -1.
unfoldable pub func_stack_push : FuncStack → ℕ → Bool × FuncStack
unfolding is_full
func_stack_push s pc = if is_full s then (false, s) else (
  true,
  record s {
    stack_data = set s.stack_data s.top pc;
    top = add64 s.top 1;
    nr_items = add64 s.nr_items 1;
    cur_size_bytes = add64 s.cur_size_bytes code_size;
  },
)

unfoldable pub func_stack_pop : FuncStack → ℕ × FuncStack
unfolding is_empty
func_stack_pop s = if is_empty s then (0, s) else (
  get_or s.stack_data (sub64 s.top 1) 0,
  record s {
    nr_items = sub64 s.nr_items 1;
    cur_size_bytes = sub64 s.cur_size_bytes code_size;
    top = sub64 s.top 1;
  },
)
