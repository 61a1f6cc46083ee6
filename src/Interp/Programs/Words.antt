-- ===== src/Interp/Programs/Words.antt =====
-- The machine words of the integers modulo 2^63.
use native.Mathlib.Nat.{add-mul, mul_assoc, mul_comm, add-mul-mod_self_left}
use cc_implementation.Prelude.{ℕ, ◌+◌, ◌-◌, ◌*◌, ◌%◌, ◌^◌, ◌<◌, ◌≡◌, ◌∙◌, ap, arith, ◌==◌, sym, ◌/◌}
use cc_implementation.Word.{val_long, long_val, add64, sub64, mul64, slt64}
use cc_implementation.Interp.Programs.{int_range, signed_less}

pub val_long-mod : (n : ℕ) → val_long (n % int_range) ≡ val_long n
unfolding val_long
val_long-mod n = omega arith

val_long-same : (m n : ℕ) → m % int_range ≡ n % int_range → val_long m ≡ val_long n
unfolding val_long
val_long-same m n h = omega arith

pub add_words :
    (a b : ℕ) → sub64 (add64 (val_long a) (val_long b)) 1 ≡ val_long ((a + b) % int_range)
unfolding val_long
add_words a b = omega arith

pub sub_words :
    (a b : ℕ)
    → a < int_range
    → b < int_range
    → add64 (sub64 (val_long a) (val_long b)) 1 ≡ val_long ((a + int_range - b) % int_range)
unfolding val_long
sub_words a b ha hb = omega arith

long_val-mod : (a : ℕ) → a < int_range → long_val (val_long a) % int_range ≡ a
unfolding val_long long_val
long_val-mod a h = ground arith

pub less_words :
    (a b : ℕ) → a < int_range → b < int_range → slt64 (val_long a) (val_long b) ≡ signed_less a b
unfolding val_long
less_words a b ha hb = ground arith

pub equal_words : (a b : ℕ) → a < int_range → b < int_range → (val_long a == val_long b) ≡ (a == b)
unfolding val_long
equal_words a b ha hb = ground arith

-- A product modulo 2^63 is that of the numbers modulo 2^63.
mul-mod_left : (a b : ℕ) → (a * b) % int_range ≡ (a % int_range * b) % int_range
mul-mod_left a b =
    let r = a % int_range in
    let k = a / int_range in
    let split : a ≡ r + int_range * k = omega arith in
    let spread : a * b ≡ r * b + int_range * (k * b) =
      ap (λ x. x * b) split
      ∙ add-mul r (int_range * k) b
      ∙ ap (λ x. r * b + x) (mul_assoc int_range k b) in
    ap (λ x. x % int_range) spread ∙ add-mul-mod_self_left (r * b) int_range (k * b)

mul-mod : (a b : ℕ) → (a * b) % int_range ≡ (a % int_range * (b % int_range)) % int_range
mul-mod a b =
    mul-mod_left a b
    ∙ ap (λ x. x % int_range) (mul_comm (a % int_range) b)
    ∙ mul-mod_left b (a % int_range)
    ∙ ap (λ x. x % int_range) (mul_comm (b % int_range) (a % int_range))

narrow : (n : ℕ) → n % 2 ^ 64 % int_range ≡ n % int_range
narrow n = omega arith

pub mul_words :
    (a b : ℕ)
    → a < int_range
    → b < int_range
    → val_long (mul64 (long_val (val_long a)) (long_val (val_long b)))
      ≡ val_long ((a * b) % int_range)
mul_words a b ha hb =
    let x = long_val (val_long a) in
    let y = long_val (val_long b) in
    let same : mul64 x y % int_range ≡ (a * b) % int_range =
      narrow (x * y) ∙ mul-mod x y ∙ rw (long_val-mod a ha, long_val-mod b hb) in
    val_long-same (mul64 x y) (a * b) same ∙ sym (val_long-mod (a * b))
