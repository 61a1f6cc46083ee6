-- ===== src/HashTable/Hash.antt =====
-- `hash_key` and the start index: what they compute, and that the index lies in the table.
use Prim.Native.Nat.{digits, bit_and-bitwise}
use native.Mathlib.Nat.{
  mod-lt, div-add-mod', add-mul-mod_self_right, mod-eq_of_lt, one-le-pow, pow-suc,
}
use cc_implementation.Prelude.{
  ℕ, zero, suc, ◌+◌, ◌-◌, ◌*◌, ◌/◌, ◌%◌, ◌^◌, ◌≤◌, ◌<◌, bit_and, min, ◌≡◌, ◌≢◌, arith, ◌∙◌, ap, sym,
}
use cc_implementation.HashTable.{word_mod, hash_key, home, next_index}

-- The multiplier that the chain of shifts, subtractions and additions stands for.
abbrev pub golden : ℕ
golden = 0x9e37_ffff_fffc_0001

-- For every 64-bit address the shifts, subtractions and additions of `hash_key` amount to one
-- multiplication by a constant modulo 2^64.
pub hash_key-eq-mul : (key : ℕ) → key < word_mod → hash_key key ≡ (key * golden) % word_mod
unfolding hash_key
hash_key-eq-mul key h = omega arith

-- The inverse of the multiplier modulo 2^64.
abbrev pub golden_inverse : ℕ
golden_inverse = 0x6208001000040001

unhash :
    (key : ℕ) → key < word_mod → (((key * golden) % word_mod) * golden_inverse) % word_mod ≡ key
unhash key h = omega arith

-- Two different 64-bit addresses never have the same hash.
pub hash_key-ne : (a b : ℕ) → a < word_mod → b < word_mod → a ≢ b → hash_key a ≢ hash_key b
hash_key-ne a b ha hb ne e = ne (
    sym (unhash a ha)
    ∙ ap (λ h. (h * golden_inverse) % word_mod)
        (sym (hash_key-eq-mul a ha) ∙ e ∙ hash_key-eq-mul b hb)
    ∙ unhash b hb)

digits-le : (n a b : ℕ) → digits (λ b. zero) min n a b ≤ b
digits-le zero a b = omega arith
digits-le (suc n) zero b = omega arith
digits-le (suc n) (suc a) b = omega (arith, digits-le n (suc a / 2) (b / 2))

pub bit_and-le : (a b : ℕ) → bit_and a b ≤ b
bit_and-le a b = rw bit_and-bitwise (digits-le a a b)

-- The start index lies in the table.
pub home-lt : (key capacity : ℕ) → 0 < capacity → home key capacity < capacity
unfolding home
home-lt key capacity h = omega (arith, bit_and-le (hash_key key) (capacity - 1))

pub next_index-lt : (capacity index : ℕ) → 0 < capacity → next_index capacity index < capacity
unfolding next_index
next_index-lt capacity index h = ground arith

-- The remainder by an even number, from the lowest digit and the others.
mod_twice : (a m : ℕ) → 0 < m → a % (m * 2) ≡ ((a / 2) % m) * 2 + a % 2
mod_twice a m h =
    let x = ((a / 2) % m) * 2 + a % 2 in
    let small : x < m * 2 = omega (arith, mod-lt (a / 2) h) in
    let split : a ≡ x + (a / 2 / m) * (m * 2) = omega (arith, div-add-mod' (a / 2) m) in
    ap (λ t. t % (m * 2)) split ∙ add-mul-mod_self_right x (a / 2 / m) (m * 2) ∙ mod-eq_of_lt small

-- The digits of a mask of `k` ones select the remainder.
digits_mask : (k n a : ℕ) → a ≤ n → digits (λ b. zero) min n a (2 ^ k - 1) ≡ a % 2 ^ k
digits_mask zero n a h = omega (arith, digits-le n a 0)
digits_mask (suc k) zero a h = ground arith
digits_mask (suc k) (suc n) zero h = ground arith
digits_mask (suc k) (suc n) (suc a) h =
    let m = 2 ^ k in
    let pos : 0 < m = one-le-pow k 2 (omega arith) in
    let twice : 2 ^ suc k ≡ m * 2 = pow-suc 2 k in
    let half : (2 ^ suc k - 1) / 2 ≡ m - 1 = omega arith in
    let odd : (2 ^ suc k - 1) % 2 ≡ 1 = omega arith in
    rw (half, odd, digits_mask k n (suc a / 2) (omega arith))
      (omega (arith, mod_twice (suc a) m pos, ap (λ t. suc a % t) twice))

-- At a capacity that is a power of two, which the table's always is, the start index is the
-- remainder of the key's product with the constant.
pub home-eq-mod :
    (key k : ℕ) → key < word_mod → home key (2 ^ k) ≡ ((key * golden) % word_mod) % 2 ^ k
unfolding home
home-eq-mod key k h = rw (hash_key-eq-mul key h, bit_and-bitwise) (digits_mask k _ _ (omega arith))
