-- ===== src/SimpleStack/Lines/Roundtrip.antt =====
-- A program that is printed is read back.
use cc_implementation.Prelude.{
  ℕ, suc, ◌+◌, ◌-◌, ◌*◌, ◌^◌, ◌<◌, ◌≤◌, ◌≡◌, refl, ap, ◌∙◌, sym, arith, true, false, List, [], ◌∷◌,
  ◌++◌, Option, none, some, length, ltb, leb, ◌==◌, ◌&&◌, ne→==,
}
use native.Mathlib.Nat.{pow-suc, pow-le-pow_right, mul-le-mul_right, mul_assoc, mul_comm}
use cc_implementation.SimpleStack.{Command, State, execute, run_lines, ◌>>=◌}
use cc_implementation.SimpleStack.Lines.{
  newline, space, cons_word, words_from, split, read_command, lines_from, read_lines, same_text,
  push_text, jmp_text, command_of, digits_value, signed_value, atoi, parse, run_texts, run_file,
  initial,
}
use cc_implementation.SimpleStack.Lines.Text.{
  Line, push_line, jmp_line, pop_line, peek_line, add_line, mult_line, dup_line, disp_line,
  AllDigits, IsNumeral, IsLine, value_from, value, digit_chars, body, print, meaning, meanings,
  AllLines,
}

-- No newline.
abbrev Plain : List ℕ → Type 0
Plain [] = Unit
Plain (c ∷ cs) = ((c == newline) ≡ false) × Plain cs

lines_from-line :
    (room : ℕ) (w rest : List ℕ)
    → Plain w
    → length w < room
    → lines_from room (w ++ (newline ∷ rest)) ≡ (w ++ (newline ∷ []), read_lines rest)
unfolding lines_from read_lines
lines_from-line room [] rest p h = refl
lines_from-line room (c ∷ w) rest p h =
    rw (p.0, ne→== room 1 (omega arith), lines_from-line (room - 1) w rest p.1 (omega arith)) refl

cons_word-line :
    (w : List ℕ) (ls : List (List ℕ))
    → cons_word (w ++ (newline ∷ [])) ls ≡ (w ++ (newline ∷ [])) ∷ ls
cons_word-line [] ls = refl
cons_word-line (c ∷ w) ls = refl

read_lines-line :
    (w rest : List ℕ)
    → Plain w
    → length w < 15
    → read_lines (w ++ (newline ∷ rest)) ≡ (w ++ (newline ∷ [])) ∷ read_lines rest
unfolding read_lines
read_lines-line w rest p h = rw (lines_from-line 15 w rest p h) (cons_word-line w (read_lines rest))

digit_chars-Plain : (ds : List ℕ) → Plain (digit_chars ds)
digit_chars-Plain [] = tt
digit_chars-Plain (d ∷ ds) = (ne→== (48 + d) newline (λ e. omega arith), digit_chars-Plain ds)

length-digit_chars : (ds : List ℕ) → length (digit_chars ds) ≡ length ds
length-digit_chars [] = refl
length-digit_chars (d ∷ ds) = ap suc (length-digit_chars ds)

-- The last word of a line.
words_from-digits :
    (ds : List ℕ)
    → words_from (digit_chars ds ++ (newline ∷ [])) ≡ (digit_chars ds ++ (newline ∷ []), [])
unfolding words_from
words_from-digits [] = refl
words_from-digits (d ∷ ds) = rw (words_from-digits ds, ne→== (48 + d) space (λ e. omega arith)) refl

digits_value-digits :
    (acc : ℕ) (ds : List ℕ)
    → AllDigits ds
    → digits_value acc (digit_chars ds ++ (newline ∷ [])) ≡ value_from acc ds
unfolding digits_value
digits_value-digits acc [] a = refl
digits_value-digits acc (d ∷ ds) a =
    let test : (leb 48 (48 + d) && leb (48 + d) 57) ≡ true = ground (arith, a.0) in
    let digit : acc * 10 + (48 + d - 48) ≡ acc * 10 + d = omega arith in
    rw (test, digit) (digits_value-digits (acc * 10 + d) ds a.1)

value_from-lt :
    (acc : ℕ) (ds : List ℕ) → AllDigits ds → value_from acc ds < (acc + 1) * 10 ^ length ds
value_from-lt acc [] a = omega arith
value_from-lt acc (d ∷ ds) a =
    let p = 10 ^ length ds in
    let step : acc * 10 + d + 1 ≤ (acc + 1) * 10 = omega (arith, a.0) in
    let grown : (acc * 10 + d + 1) * p ≤ (acc + 1) * 10 * p = mul-le-mul_right p step in
    let same : (acc + 1) * 10 * p ≡ (acc + 1) * 10 ^ suc (length ds) =
      mul_assoc (acc + 1) 10 p
      ∙ ap (λ (q : ℕ). (acc + 1) * q) (mul_comm 10 p ∙ sym (pow-suc 10 (length ds))) in
    omega (arith, value_from-lt (acc * 10 + d) ds a.1, same)

value-lt : (ds : List ℕ) → IsNumeral ds → value ds < 2 ^ 31
value-lt ds a =
    let nine : 10 ^ length ds ≤ 10 ^ 9 = pow-le-pow_right (omega arith) a.2 in
    omega (arith, value_from-lt 0 ds a.0)

atoi-digits :
    (ds : List ℕ) → IsNumeral ds → atoi (digit_chars ds ++ (newline ∷ [])) ≡ some (value ds)
unfolding atoi signed_value
atoi-digits [] a = absurd (omega (arith, a.1))
atoi-digits (d ∷ ds) a =
    let blank : (leb 9 (48 + d) && leb (48 + d) 13) ≡ false = ground arith in
    let fits : ltb (value (d ∷ ds)) (2 ^ 31) ≡ true = ground (arith, value-lt (d ∷ ds) a) in
    rw
      (
        blank,
        ne→== (48 + d) 45 (λ e. omega arith),
        ne→== (48 + d) 43 (λ e. omega arith),
        digits_value-digits 0 (d ∷ ds) a.0,
        fits,
      )
      refl

split-push :
    (ds : List ℕ)
    → split (body (push_line ds) ++ (newline ∷ []))
      ≡ push_text ∷ (digit_chars ds ++ (newline ∷ [])) ∷ []
unfolding split words_from
split-push ds =
    rw (words_from-digits ds) (ap (λ ws. push_text ∷ ws) (cons_word-line (digit_chars ds) []))

split-jmp :
    (ds : List ℕ)
    → split (body (jmp_line ds) ++ (newline ∷ []))
      ≡ jmp_text ∷ (digit_chars ds ++ (newline ∷ [])) ∷ []
unfolding split words_from
split-jmp ds =
    rw (words_from-digits ds) (ap (λ ws. jmp_text ∷ ws) (cons_word-line (digit_chars ds) []))

parse-body : (l : Line) → IsLine l → parse (body l ++ (newline ∷ [])) ≡ some (meaning l)
unfolding parse read_command command_of same_text split words_from
parse-body (push_line ds) a =
    ap read_command (split-push ds) ∙ ap (λ v. some (Command.push_cmd, v)) (atoi-digits ds a)
parse-body (jmp_line ds) a =
    ap read_command (split-jmp ds) ∙ ap (λ v. some (Command.jmp_cmd, v)) (atoi-digits ds a)
parse-body pop_line a = refl
parse-body peek_line a = refl
parse-body add_line a = refl
parse-body mult_line a = refl
parse-body dup_line a = refl
parse-body disp_line a = refl

body-Plain : (l : Line) → Plain (body l)
body-Plain (push_line ds) = (refl, (refl, (refl, (refl, (refl, digit_chars-Plain ds)))))
body-Plain (jmp_line ds) = (refl, (refl, (refl, (refl, digit_chars-Plain ds))))
body-Plain pop_line = (refl, (refl, (refl, tt)))
body-Plain peek_line = (refl, (refl, (refl, (refl, tt))))
body-Plain add_line = (refl, (refl, (refl, tt)))
body-Plain mult_line = (refl, (refl, (refl, (refl, tt))))
body-Plain dup_line = (refl, (refl, (refl, tt)))
body-Plain disp_line = (refl, (refl, (refl, (refl, tt))))

length-body : (l : Line) → IsLine l → length (body l) < 15
length-body (push_line ds) a = omega (arith, length-digit_chars ds, a.2)
length-body (jmp_line ds) a = omega (arith, length-digit_chars ds, a.2)
length-body pop_line a = omega arith
length-body peek_line a = omega arith
length-body add_line a = omega arith
length-body mult_line a = omega arith
length-body dup_line a = omega arith
length-body disp_line a = omega arith

both :
    {f g : State → Option State} (o : Option State)
    → ((s : State) → f s ≡ g s)
    → (o >>= f) ≡ (o >>= g)
both none e = refl
both (some s) e = e s

read_lines-empty : read_lines [] ≡ []
unfolding read_lines lines_from
read_lines-empty = refl

run_texts-print :
    (ls : List Line) (s : State)
    → AllLines ls
    → run_texts (read_lines (print ls)) s ≡ run_lines (λ (n : ℕ). n) (meanings ls) s
unfolding run_texts run_lines
run_texts-print [] s a = rw read_lines-empty refl
run_texts-print (l ∷ ls) s a =
    rw (read_lines-line (body l) (print ls) (body-Plain l) (length-body l a.0), parse-body l a.0)
      (both (execute (λ (n : ℕ). n) (meaning l).0 (meaning l).1 s) (λ s₁. run_texts-print ls _ a.1))

-- A program that is written one command a line, with numerals of one to nine digits, is read back
-- by `fgets`, `strtok`, `strcmp` and `atoi` as it was meant: `main` runs exactly its commands, with
-- the numbers that the numerals stand for, whether they run or go wrong.
pub run_file-print :
    (ls : List Line)
    → AllLines ls
    → run_file (print ls) ≡ run_lines (λ (n : ℕ). n) (meanings ls) initial
unfolding run_file
run_file-print ls a = run_texts-print ls initial a
