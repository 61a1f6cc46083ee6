-- ===== src/SimpleStack/Lines.antt =====
-- The text of simple-stack.c: the lines of the file as `fgets` gives them, their words as `strtok`
-- does, the comparisons of `execute`, and `atoi`. A character is its code.
pub mod Text
pub mod Roundtrip
use cc_implementation.Prelude.{
  ℕ, zero, suc, ◌+◌, ◌-◌, ◌*◌, ◌%◌, ◌^◌, Bool, true, false, List, [], ◌∷◌, Option, none, some, ltb,
  leb, ◌==◌, ◌&&◌, ◌||◌, if◌then◌else◌, replicate,
}
use cc_implementation.SimpleStack.{Command, State, stack_size, int_mod, execute, run_lines, ◌>>=◌}

abbrev pub newline : ℕ
newline = 10

abbrev pub space : ℕ
space = 32

-- A word or a line in front of others, if it is not empty.
abbrev pub cons_word : List ℕ → List (List ℕ) → List (List ℕ)
cons_word [] ws = ws
cons_word (c ∷ w) ws = (c ∷ w) ∷ ws

-- The characters up to the first space, and the words after it.
unfoldable pub words_from : List ℕ → List ℕ × List (List ℕ)
words_from [] = ([], [])
words_from (c ∷ cs) =
    let (w, ws) = words_from cs in if c == space then ([], cons_word w ws) else (c ∷ w, ws)

-- `strtok(cmd, " ")` until it returns NULL: the array `spl`.
unfoldable pub split : List ℕ → List (List ℕ)
unfolding words_from
split cs = let (w, ws) = words_from cs in cons_word w ws

-- The rest of the line that `fgets` reads, at most `room` characters and up to a newline, and the
-- lines of its next calls, with a buffer of 16.
unfoldable pub lines_from : ℕ → List ℕ → List ℕ × List (List ℕ)
lines_from room [] = ([], [])
lines_from room (c ∷ cs) =
    let (l, ls) = lines_from 15 cs in
    let (m, ms) = lines_from (room - 1) cs in
    if c == newline || room == 1 then (c ∷ [], cons_word l ls) else (c ∷ m, ms)

-- The lines that `fgets(str, 16, srcfile)` reads.
unfoldable pub read_lines : List ℕ → List (List ℕ)
unfolding lines_from
read_lines cs = let (l, ls) = lines_from 15 cs in cons_word l ls

-- `strcmp(…) == 0`
unfoldable pub same_text : List ℕ → List ℕ → Bool
same_text [] [] = true
same_text (a ∷ xs) (b ∷ ys) = a == b && same_text xs ys
same_text _ _ = false

abbrev pub push_text : List ℕ
push_text = 112 ∷ 117 ∷ 115 ∷ 104 ∷ []

abbrev pub jmp_text : List ℕ
jmp_text = 106 ∷ 109 ∷ 112 ∷ []

abbrev pub pop_text : List ℕ
pop_text = 112 ∷ 111 ∷ 112 ∷ 10 ∷ []

abbrev pub peek_text : List ℕ
peek_text = 112 ∷ 101 ∷ 101 ∷ 107 ∷ 10 ∷ []

abbrev pub add_text : List ℕ
add_text = 97 ∷ 100 ∷ 100 ∷ 10 ∷ []

abbrev pub mult_text : List ℕ
mult_text = 109 ∷ 117 ∷ 108 ∷ 116 ∷ 10 ∷ []

abbrev pub dup_text : List ℕ
dup_text = 100 ∷ 117 ∷ 112 ∷ 10 ∷ []

abbrev pub disp_text : List ℕ
disp_text = 100 ∷ 105 ∷ 115 ∷ 112 ∷ 10 ∷ []

abbrev pub comment_text : List ℕ
comment_text = 35 ∷ []

-- The comparisons of `execute`, in order.
unfoldable pub command_of : List ℕ → Command
unfolding same_text
command_of w =
    if same_text w push_text
    then Command.push_cmd
    else if same_text w jmp_text
    then Command.jmp_cmd
    else if same_text w pop_text
    then Command.pop_cmd
    else if same_text w peek_text
    then Command.peek_cmd
    else if same_text w add_text
    then Command.add_cmd
    else if same_text w mult_text
    then Command.mult_cmd
    else if same_text w dup_text
    then Command.dup_cmd
    else if same_text w disp_text
    then Command.disp_cmd
    else if same_text w comment_text
    then Command.comment
    else Command.unknown

-- `isdigit`
abbrev pub is_digit : ℕ → Bool
is_digit c = leb 48 c && leb c 57

-- The digits of `atoi`, up to another character.
unfoldable pub digits_value : ℕ → List ℕ → ℕ
digits_value acc [] = acc
digits_value acc (c ∷ cs) =
    let more = digits_value (acc * 10 + (c - 48)) cs in if is_digit c then more else acc

-- `atoi` of a word that `strtok` returns, which has no space: other white space, a sign, and digits.
-- A number that is no `int` is undefined.
unfoldable pub signed_value : List ℕ → Option ℕ
unfolding digits_value
signed_value [] = some 0
signed_value (c ∷ cs) =
    if c == 45
    then (let n = digits_value 0 cs in
        if leb n (2 ^ 31) then some ((int_mod - n) % int_mod) else none)
    else (let n = (if c == 43 then digits_value 0 cs else digits_value 0 (c ∷ cs)) in
        if ltb n (2 ^ 31) then some n else none)

unfoldable pub atoi : List ℕ → Option ℕ
unfolding signed_value
atoi [] = some 0
atoi (c ∷ cs) = let rest = atoi cs in if leb 9 c && leb c 13 then rest else signed_value (c ∷ cs)

-- The command and the argument of a line, from its words. `strcmp` of no word is undefined.
unfoldable pub read_command : List (List ℕ) → Option (Command × Option ℕ)
unfolding command_of atoi
read_command [] = none
read_command (w ∷ []) = some (command_of w, none)
read_command (w ∷ v ∷ ws) = some (command_of w, atoi v)

unfoldable pub parse : List ℕ → Option (Command × Option ℕ)
unfolding split read_command
parse line = read_command (split line)

-- The rounds of the loop of `main`, from the lines that `fgets` reads.
unfoldable pub run_texts : List (List ℕ) → State → Option State
unfolding parse execute
run_texts [] s = some s
run_texts (line ∷ lines) s = parse line >>= λ (c, arg). execute (λ n. n) c arg s >>= λ s₁.
    run_texts lines (record s₁ { current_address = (s₁.current_address + 1) % int_mod })

-- `stack` and `current_address` after the first statement of `main`.
abbrev pub initial : State
initial = record { size = replicate stack_size 0; depth = 0; current_address = 0 }

-- `main`, for the contents of the file.
unfoldable pub run_file : List ℕ → Option State
unfolding read_lines run_texts
run_file cs = run_texts (read_lines cs) initial
