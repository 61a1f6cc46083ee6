-- ===== src/FuncStack/Tests.antt =====
-- A function stack of two entries, and runs of it.
use cc_implementation.Prelude.{◌≡◌, refl, arith, true, false, [], ◌∷◌, some, done, replicate, List}
use cc_implementation.FuncStack.{FuncStack, create_func_stack, is_empty}
use cc_implementation.FuncStack.Laws.{IsValid, create_func_stack-IsValid}
use cc_implementation.FuncStack.Refine.{list_push, list_pop, run, lifo, Op, run-lifo}

abbrev two_entries : FuncStack
two_entries = record {
  stack_data = replicate 2 0;
  nr_items = 0;
  max_items = 2;
  cur_size_bytes = 0;
  top = 0;
}

two_entries_created : create_func_stack 2 true true ≡ done (some two_entries)
unfolding create_func_stack
two_entries_created = refl

two_entries-IsValid :
    IsValid two_entries × (two_entries.max_items ≡ 2) × (is_empty two_entries ≡ true)
two_entries-IsValid =
    create_func_stack-IsValid 2 true true two_entries (omega arith) two_entries_created

-- Three pushes, of which the last is refused, and three pops.
abbrev calls : List Op
calls = Op.push 64 ∷ Op.push 72 ∷ Op.push 80 ∷ Op.look ∷ Op.pop ∷ Op.pop ∷ Op.pop ∷ []

replies :
    lifo 2 [] calls
    ≡ (true, 0) ∷ (true, 0) ∷ (false, 0) ∷ (true, 72) ∷ (true, 72) ∷ (true, 64) ∷ (true, 0) ∷ []
unfolding lifo list_push list_pop
replies = refl

run-lifo_example : run two_entries calls ≡ lifo 2 [] calls
run-lifo_example = run-lifo calls two_entries two_entries-IsValid.0
