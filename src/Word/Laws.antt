-- ===== src/Word/Laws.antt =====
-- Tagging and untagging.
use cc_implementation.Prelude.{ℕ, ◌-◌, ◌^◌, ◌<◌, ◌≤◌, ◌≡◌, ◌⊎◌, arith}
use cc_implementation.Word.{word_mod, val_long, long_val}

-- The integers that fit in 63 bits: those that survive tagging.
abbrev pub Fits63 : ℕ → Type 0
Fits63 n = (n < 2 ^ 62) ⊎ ((word_mod - 2 ^ 62 ≤ n) × (n < word_mod))

pub long_val-val_long : (n : ℕ) → Fits63 n → long_val (val_long n) ≡ n
unfolding val_long long_val
long_val-val_long n h = ground arith

pub val_long-lt : (n : ℕ) → val_long n < word_mod
unfolding val_long
val_long-lt n = omega arith
