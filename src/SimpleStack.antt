-- ===== src/SimpleStack.antt =====
-- The stack machine of simple-stack.c. The stack is the global `stack`; `depth` is `top + 1`, so a
-- `top` of -1 is 0. An `int` is its 32-bit pattern, and sums and products wrap. An access outside
-- the array is `none`: C gives it no meaning. What the program prints is left out. `execute` and the
-- loop stand here for commands and words, with the reading of a number as a parameter, and in
-- `Lines` for the characters of the file.
pub mod Laws
pub mod Tests
pub mod Lines
use cc_implementation.Prelude.{
  ℕ, zero, suc, ◌+◌, ◌-◌, ◌*◌, ◌%◌, ◌^◌, ◌<◌, Bool, true, false, List, [], ◌∷◌, Option, none, some,
  ltb, leb, ◌==◌, if◌then◌else◌, get_elem?, set, length,
}

abbrev pub stack_size : ℕ
stack_size = 32

abbrev pub int_mod : ℕ
int_mod = 2 ^ 32

-- `stack` and `current_address`
pub record State : Type 0 where
  pub size : List ℕ
  pub depth : ℕ
  pub current_address : ℕ

infixl 5 ◌>>=◌
abbrev pub ◌>>=◌ {ℓ κ} : {A : Type ℓ} {B : Type κ} → Option A → (A → Option B) → Option B
none >>= f = none
some a >>= f = f a

-- `top >= stack_size - 1`
unfoldable pub stack_full : State → Bool
stack_full s = leb stack_size s.depth

-- `push` makes no check of its own.
unfoldable pub push : ℕ → State → Option State
push x s =
    if ltb s.depth (length s.size)
    then some (record s { size = set s.size s.depth x; depth = s.depth + 1 })
    else none

unfoldable pub stack_empty : State → Bool
stack_empty s = s.depth == 0

unfoldable pub pop : State → Option (ℕ × State)
pop s =
    if s.depth == 0
    then none
    else (get_elem? s.size (s.depth - 1) >>= λ x. some (x, record s { depth = s.depth - 1 }))

unfoldable pub peek : State → Option ℕ
peek s = if s.depth == 0 then none else get_elem? s.size (s.depth - 1)

unfoldable pub add : State → Option State
unfolding push pop
add s = do (a, s₁) ← pop s; (b, s₂) ← pop s₁; push ((a + b) % int_mod) s₂

unfoldable pub mult : State → Option State
unfolding push pop
mult s = do (a, s₁) ← pop s; (b, s₂) ← pop s₁; push ((a * b) % int_mod) s₂

-- `dup` pushes `stack.size[0]`.
unfoldable pub dup : State → Option State
unfolding push
dup s = get_elem? s.size 0 >>= λ x. push x s

unfoldable pub jmp : ℕ → State → State
jmp address s = record s { current_address = (address + int_mod - 1) % int_mod }

-- `ifeq` compares with `stack.size[0]`.
unfoldable pub ifeq : ℕ → ℕ → State → Option State
unfolding jmp
ifeq value address s = get_elem? s.size 0 >>= λ x. some (if x == value then jmp address s else s)

-- The commands that `execute` tells apart by the first word of the line; any other word is reported.
pub data Command : Type 0 where
  push_cmd jmp_cmd pop_cmd peek_cmd add_cmd mult_cmd dup_cmd disp_cmd comment unknown : Command

-- `execute` after the splitting: the command, and its second word where it has one.
module _ {Word : Type 0} (atoi : Word → ℕ) where
  unfoldable pub execute : Command → Option Word → State → Option State
  unfolding push pop peek add mult dup jmp
  execute Command.push_cmd arg s = arg >>= λ w. push (atoi w) s
  execute Command.jmp_cmd arg s = arg >>= λ w. some (jmp (atoi w) s)
  execute Command.pop_cmd arg s = pop s >>= λ r. some r.1
  execute Command.peek_cmd arg s = peek s >>= λ x. some s
  execute Command.add_cmd arg s = add s
  execute Command.mult_cmd arg s = mult s
  execute Command.dup_cmd arg s = dup s
  execute Command.disp_cmd arg s = some s
  execute Command.comment arg s = some s
  execute Command.unknown arg s = some s

  -- The loop of `main` over the lines of the file: `jmp` moves only the printed address.
  unfoldable pub run_lines : List (Command × Option Word) → State → Option State
  unfolding execute
  run_lines [] s = some s
  run_lines ((c, arg) ∷ lines) s = execute c arg s >>= λ s₁.
      run_lines lines (record s₁ { current_address = (s₁.current_address + 1) % int_mod })
