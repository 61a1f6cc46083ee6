-- ===== src/SimpleStack/Lines/Text.antt =====
-- Programs as texts, and what they mean.
use cc_implementation.Prelude.{
  ℕ, ◌+◌, ◌*◌, ◌<◌, ◌≤◌, List, [], ◌∷◌, ◌++◌, Option, none, some, length,
}
use cc_implementation.SimpleStack.{Command}
use cc_implementation.SimpleStack.Lines.{newline, space}

-- A line of a program. The argument of `push` and `jmp` is a decimal numeral of one to nine digits,
-- the first digit first.
pub data Line : Type 0 where
  push_line jmp_line : (ds : List ℕ) → Line
  pop_line peek_line add_line mult_line dup_line disp_line : Line

abbrev pub AllDigits : List ℕ → Type 0
AllDigits [] = Unit
AllDigits (d ∷ ds) = (d < 10) × AllDigits ds

abbrev pub IsNumeral : List ℕ → Type 0
IsNumeral ds = AllDigits ds × (0 < length ds) × (length ds ≤ 9)

abbrev pub IsLine : Line → Type 0
IsLine (push_line ds) = IsNumeral ds
IsLine (jmp_line ds) = IsNumeral ds
IsLine pop_line = Unit
IsLine peek_line = Unit
IsLine add_line = Unit
IsLine mult_line = Unit
IsLine dup_line = Unit
IsLine disp_line = Unit

abbrev pub value_from : ℕ → List ℕ → ℕ
value_from acc [] = acc
value_from acc (d ∷ ds) = value_from (acc * 10 + d) ds

-- The number of a numeral.
abbrev pub value : List ℕ → ℕ
value ds = value_from 0 ds

abbrev pub digit_chars : List ℕ → List ℕ
digit_chars [] = []
digit_chars (d ∷ ds) = (48 + d) ∷ digit_chars ds

-- A line without its newline, and the lines of a file.
abbrev pub body : Line → List ℕ
body (push_line ds) = 112 ∷ 117 ∷ 115 ∷ 104 ∷ space ∷ digit_chars ds
body (jmp_line ds) = 106 ∷ 109 ∷ 112 ∷ space ∷ digit_chars ds
body pop_line = 112 ∷ 111 ∷ 112 ∷ []
body peek_line = 112 ∷ 101 ∷ 101 ∷ 107 ∷ []
body add_line = 97 ∷ 100 ∷ 100 ∷ []
body mult_line = 109 ∷ 117 ∷ 108 ∷ 116 ∷ []
body dup_line = 100 ∷ 117 ∷ 112 ∷ []
body disp_line = 100 ∷ 105 ∷ 115 ∷ 112 ∷ []

abbrev pub print : List Line → List ℕ
print [] = []
print (l ∷ ls) = body l ++ (newline ∷ print ls)

-- The command and the argument that a line stands for.
abbrev pub meaning : Line → Command × Option ℕ
meaning (push_line ds) = (Command.push_cmd, some (value ds))
meaning (jmp_line ds) = (Command.jmp_cmd, some (value ds))
meaning pop_line = (Command.pop_cmd, none)
meaning peek_line = (Command.peek_cmd, none)
meaning add_line = (Command.add_cmd, none)
meaning mult_line = (Command.mult_cmd, none)
meaning dup_line = (Command.dup_cmd, none)
meaning disp_line = (Command.disp_cmd, none)

abbrev pub meanings : List Line → List (Command × Option ℕ)
meanings [] = []
meanings (l ∷ ls) = meaning l ∷ meanings ls

abbrev pub AllLines : List Line → Type 0
AllLines [] = Unit
AllLines (l ∷ ls) = IsLine l × AllLines ls
