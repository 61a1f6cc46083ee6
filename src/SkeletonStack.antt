-- ===== src/SkeletonStack.antt =====
-- The bounded stack of stack-skeleton.c: `stack[256]`, `MAXSIZE` and `top`; `depth` is `top + 1`.
-- An access outside the array is `none`. A `push` onto a full stack and a `pop` of an empty one
-- print a message, and `pop` then returns no value.
pub mod Laws
pub mod Tests
use cc_implementation.Prelude.{
  ℕ, zero, suc, ◌+◌, ◌-◌, ◌<◌, Bool, true, false, List, Option, none, some, ltb, ◌==◌,
  if◌then◌else◌, get_elem?, set, length,
}

abbrev pub max_size : ℕ
max_size = 256

pub record State : Type 0 where
  pub stack : List ℕ
  pub depth : ℕ

-- `top == -1`
unfoldable pub isempty : State → Bool
isempty s = s.depth == 0

-- `top == MAXSIZE`
unfoldable pub isfull : State → Bool
isfull s = s.depth == max_size + 1

unfoldable pub peek : State → Option ℕ
peek s = if s.depth == 0 then none else get_elem? s.stack (s.depth - 1)

-- The returned value, if there is one, and the state; the outer option is the access.
unfoldable pub pop : State → Option (Option ℕ × State)
unfolding isempty
pop s = if isempty s then some (none, s) else (elim (get_elem? s.stack (s.depth - 1)) [
  | none ↦ none
  | some x ↦ some (some x, record s { depth = s.depth - 1 })
])

unfoldable pub push : ℕ → State → Option State
unfolding isfull
push x s =
    if isfull s
    then some s
    else (if ltb s.depth (length s.stack)
        then some (record s { stack = set s.stack s.depth x; depth = s.depth + 1 })
        else none)
