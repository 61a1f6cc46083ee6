-- ===== src/SimpleStack/Tests.antt =====
-- Two integers on the stack of simple-stack.c.
use cc_implementation.Prelude.{
  ℕ, List, some, ◌+◌, ◌*◌, ◌%◌, ◌<◌, ◌≡◌, ◌⊎◌, refl, arith, [], ◌∷◌, none, replicate,
}
use cc_implementation.SimpleStack.{
  run_lines, State, stack_size, int_mod, push, add, mult, dup, execute, pop, jmp,
}
use cc_implementation.SimpleStack.Lines.{
  run_file, read_lines, run_texts, parse, split, command_of, atoi, initial, digits_value, same_text,
}
use cc_implementation.SimpleStack.Lines.Text.{Line, push_line, jmp_line, add_line, print, meanings}
use cc_implementation.SimpleStack.Lines.Roundtrip.{run_file-print}
use cc_implementation.SimpleStack.Laws.{
  IsValid, Leaves, push-contents, arithmetic-contents, dup-bottom,
}

abbrev two_integers : State
two_integers = record { size = 4 ∷ 6 ∷ replicate 30 0; depth = 2; current_address = 0 }

two_integers-IsValid : IsValid two_integers
two_integers-IsValid = record { storage = refl; within = omega arith }

push-contents_example :
    ((2 < stack_size) × Leaves (push 9 two_integers) (9 ∷ 6 ∷ 4 ∷ []))
    ⊎ ((2 ≡ stack_size) × (push 9 two_integers ≡ none))
push-contents_example = push-contents 9 two_integers two_integers-IsValid

arithmetic-contents_example :
    Leaves (add two_integers) ((6 + 4) % int_mod ∷ [])
    × Leaves (mult two_integers) ((6 * 4) % int_mod ∷ [])
arithmetic-contents_example = arithmetic-contents two_integers 6 4 [] two_integers-IsValid refl

dup-bottom_example : Leaves (dup two_integers) (4 ∷ 6 ∷ 4 ∷ [])
dup-bottom_example = dup-bottom two_integers two_integers-IsValid (omega arith) (omega arith)

-- "push 12", "push 3", "add", and "jmp 7".
abbrev program : List Line
program = push_line (1 ∷ 2 ∷ []) ∷ push_line (3 ∷ []) ∷ add_line ∷ jmp_line (7 ∷ []) ∷ []

run_file-print_example :
    run_file (print program) ≡ run_lines (λ (n : ℕ). n) (meanings program) initial
run_file-print_example = run_file-print program (
  ((omega arith, (omega arith, tt)), omega arith, omega arith),
  (
    ((omega arith, tt), omega arith, omega arith),
    (tt, (((omega arith, tt), omega arith, omega arith), tt)),
  ),
)

program_sum :
    run_file (print program)
    ≡ some (record { size = 15 ∷ 3 ∷ replicate 30 0; depth = 1; current_address = 7 })
unfolding run_file read_lines run_texts parse split command_of atoi digits_value same_text execute
    push pop add jmp
program_sum = refl

-- The last line has no newline, and `execute` does not know its word.
last_line : run_file (100 ∷ 117 ∷ 112 ∷ []) ≡ some (record initial { current_address = 1 })
unfolding run_file read_lines run_texts parse split command_of same_text execute
last_line = refl
