-- ===== src/Prelude/Outcome.antt =====
-- The result of a C function that may end the process or never return.
use mathlib.Core.Path.{◌≡◌}

-- `died` stands for `exit`, `abort` and a failed `assert`; `hangs` for a loop that never ends.
pub data Run {ℓ} (A : Type ℓ) : Type ℓ where
  done : A → Run A
  died : Run A
  hangs : Run A

infixl 5 ◌>>=◌
abbrev pub ◌>>=◌ {ℓ κ} : {A : Type ℓ} {B : Type κ} → Run A → (A → Run B) → Run B
done a >>= f = f a
died >>= f = died
hangs >>= f = hangs

-- The run ends normally, in a value that satisfies `P`.
abbrev pub Returns {ℓ κ} : {A : Type ℓ} → Run A → (A → Type κ) → Type (ℓ ⊔ κ)
Returns {A} r P = (a : A) × (r ≡ done a) × P a

pub done-injective {ℓ} : {A : Type ℓ} {a b : A} → done a ≡ done b → a ≡ b
done-injective e = cc
