-- ===== src/SkeletonStack/Laws.antt =====
-- The guards of stack-skeleton.c: `pop` is safe, `push` is not.
use cc_implementation.Prelude.{ℕ, ◌≤◌, ◌≡◌, ◌↔◌, arith, false, none, length}
use cc_implementation.SkeletonStack.{State, max_size, isfull, push}

pub record IsValid (s : State) : Type 0 where
  pub storage : length s.stack ≡ max_size
  pub within : s.depth ≤ max_size

-- On a valid stack, `push` leaves the array exactly when the stack holds 256 integers: the test of
-- `isfull` is off by one, and never holds.
pub push-overflows :
    (x : ℕ) (s : State)
    → IsValid s
    → (isfull s ≡ false) × ((push x s ≡ none) ↔ (s.depth ≡ max_size))
unfolding isfull push
push-overflows x s v = (ground arith, (λ h. ground arith, λ h. ground arith))
