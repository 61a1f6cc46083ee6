-- ===== src/Word.antt =====
-- 64-bit machine words, as the numbers below 2^64: `unsigned long`, `size_t`, `uint64_t`,
-- `intnat` (by its two's complement pattern) and the tagged words of caml/mlvalues.h.
pub mod Laws
use cc_implementation.Prelude.{ℕ, ◌+◌, ◌-◌, ◌*◌, ◌/◌, ◌%◌, ◌^◌, Bool, ltb, if◌then◌else◌}

abbrev pub word_mod : ℕ
word_mod = 2 ^ 64

-- The patterns from here on are negative.
abbrev pub sign_bit : ℕ
sign_bit = 2 ^ 63

abbrev pub add64 : ℕ → ℕ → ℕ
add64 a b = (a + b) % word_mod

abbrev pub sub64 : ℕ → ℕ → ℕ
sub64 a b = (a + word_mod - b) % word_mod

abbrev pub mul64 : ℕ → ℕ → ℕ
mul64 a b = (a * b) % word_mod

-- `n << s`
abbrev pub shl64 : ℕ → ℕ → ℕ
shl64 n s = (n * 2 ^ s) % word_mod

-- `(intnat) n >> s`: the sign fills the high bits.
abbrev pub asr64 : ℕ → ℕ → ℕ
asr64 n s = if ltb n sign_bit then n / 2 ^ s else word_mod - 1 - (word_mod - 1 - n) / 2 ^ s

abbrev pub is_negative : ℕ → Bool
is_negative n = if ltb n sign_bit then Bool.false else Bool.true

-- `(intnat) a < (intnat) b`
abbrev pub slt64 : ℕ → ℕ → Bool
slt64 a b = ltb ((a + sign_bit) % word_mod) ((b + sign_bit) % word_mod)

abbrev pub magnitude : ℕ → ℕ
magnitude n = if ltb n sign_bit then n else word_mod - n

abbrev pub with_sign : Bool → ℕ → ℕ
with_sign negative n = if negative then (word_mod - n) % word_mod else n

-- C's `/` and `%` on `intnat`: the quotient is rounded towards 0, and the remainder has the
-- dividend's sign.
unfoldable pub sdiv64 : ℕ → ℕ → ℕ
sdiv64 a b =
    let q = magnitude a / magnitude b in
    if is_negative a
    then with_sign (if is_negative b then Bool.false else Bool.true) q
    else with_sign (is_negative b) q

unfoldable pub smod64 : ℕ → ℕ → ℕ
smod64 a b = with_sign (is_negative a) (magnitude a % magnitude b)

-- An `opcode_t` (`int32_t`) read as an `intnat`.
abbrev pub sext32 : ℕ → ℕ
sext32 n = if ltb n (2 ^ 31) then n else n + (2 ^ 64 - 2 ^ 32)

-- `Val_long`: the tagged word of an integer.
unfoldable pub val_long : ℕ → ℕ
val_long n = (n * 2 + 1) % word_mod

-- `Long_val`
unfoldable pub long_val : ℕ → ℕ
long_val w = asr64 w 1
