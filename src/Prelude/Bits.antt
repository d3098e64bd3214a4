-- ===== src/Prelude/Bits.antt =====
-- Binary digits of words: `&`, `|` and `^` digit by digit, low masks, and powers of two.
use Prim.Native.Nat.{
  ℕ, zero, suc, ◌+◌, ◌-◌, ◌*◌, ◌/◌, ◌%◌, ◌^◌, ◌≤◌, ◌<◌, ◌∣◌, min, max, bit_and, bit_or, bit_xor,
  digits, differ, bit_and-bitwise, bit_or-bitwise, bit_xor-bitwise,
}
use mathlib.Core.Path.{◌≡◌, refl, sym, ap, ◌∙◌, subst}
use native.Mathlib.Nat.{
  pow-suc, add-mul-mod_self_left, mod-eq_of_lt, mod-lt, div-add-mod, add-zero, dvd_refl,
  dvd-mul_right_of_dvd,
}
use native.Mathlib.Omega.{arith}

-- the digit of weight `2 ^ i`
abbrev pub bit : ℕ → ℕ → ℕ
bit a zero = a % 2
bit a (suc i) = bit (a / 2) i

-- An operation on words that works digit by digit: `f` on digits, `z` where the first word has no
-- digit left.
module _ (z : ℕ → ℕ) (f : ℕ → ℕ → ℕ) (small : (x y : ℕ) → x < 2 → y < 2 → f x y < 2)
    (rest : (b : ℕ) → z b / 2 ≡ z (b / 2)) (last : (b : ℕ) → z b % 2 ≡ f 0 (b % 2)) where
  digits-zero : (n b : ℕ) → digits z f n 0 b ≡ z b
  digits-zero zero b = refl
  digits-zero (suc n) b = refl

  digits_low : (n a b : ℕ) → a ≤ n → digits z f n a b % 2 ≡ f (a % 2) (b % 2)
  digits_low n zero b h = rw (digits-zero n b) (last b)
  digits_low zero (suc a) b h = absurd (omega arith)
  digits_low (suc n) (suc a) b h =
      omega (arith, small (suc a % 2) (b % 2) (omega arith) (omega arith))

  bit-digits : (i n a b : ℕ) → a ≤ n → bit (digits z f n a b) i ≡ f (bit a i) (bit b i)
  bit-digits zero n a b h = digits_low n a b h
  bit-digits (suc i) n zero b h =
      rw (digits-zero n b, rest b, ← digits-zero n (b / 2)) (bit-digits i n 0 (b / 2) h)
  bit-digits (suc i) zero (suc a) b h = absurd (omega arith)
  bit-digits (suc i) (suc n) (suc a) b h =
      let half : digits z f (suc n) (suc a) b / 2 ≡ digits z f n (suc a / 2) (b / 2) =
        omega (arith, small (suc a % 2) (b % 2) (omega arith) (omega arith)) in
      ap (λ t. bit t i) half ∙ bit-digits i n (suc a / 2) (b / 2) (omega arith)

min_small : (x y : ℕ) → x < 2 → y < 2 → min x y < 2
min_small x y p q = omega arith

max_small : (x y : ℕ) → x < 2 → y < 2 → max x y < 2
max_small x y p q = omega arith

pub bit-bit_and : (a b i : ℕ) → bit (bit_and a b) i ≡ min (bit a i) (bit b i)
bit-bit_and a b i =
    ap (λ t. bit t i) (bit_and-bitwise a b)
    ∙ bit-digits (λ y. 0) min min_small (λ y. refl) (λ y. omega arith) i a a b (omega arith)

pub bit-bit_or : (a b i : ℕ) → bit (bit_or a b) i ≡ max (bit a i) (bit b i)
bit-bit_or a b i =
    ap (λ t. bit t i) (bit_or-bitwise a b)
    ∙ bit-digits (λ y. y) max max_small (λ y. refl) (λ y. omega arith) i a a b (omega arith)

differ_small : (x y : ℕ) → x < 2 → y < 2 → differ x y < 2
differ_small zero zero p q = omega arith
differ_small zero (suc zero) p q = omega arith
differ_small zero (suc (suc y)) p q = absurd (omega arith)
differ_small (suc zero) zero p q = omega arith
differ_small (suc zero) (suc zero) p q = omega arith
differ_small (suc zero) (suc (suc y)) p q = absurd (omega arith)
differ_small (suc (suc x)) y p q = absurd (omega arith)

pub bit-lt : (a i : ℕ) → bit a i < 2
bit-lt a zero = omega arith
bit-lt a (suc i) = bit-lt (a / 2) i

-- A number is determined by its digits.
bit_ext_below : (n a b : ℕ) → a ≤ n → b ≤ n → ((i : ℕ) → bit a i ≡ bit b i) → a ≡ b
bit_ext_below zero a b p q h = omega arith
bit_ext_below (suc n) a b p q h =
    omega (arith, h 0, bit_ext_below n (a / 2) (b / 2) (omega arith) (omega arith) (λ i. h (suc i)))

pub bit_ext : (a b : ℕ) → ((i : ℕ) → bit a i ≡ bit b i) → a ≡ b
bit_ext a b h = bit_ext_below (a + b) a b (omega arith) (omega arith) h

pub bit-bit_xor : (a b i : ℕ) → bit (bit_xor a b) i ≡ differ (bit a i) (bit b i)
bit-bit_xor a b i =
    ap (λ t. bit t i) (bit_xor-bitwise a b)
    ∙ bit-digits (λ y. y) differ differ_small (λ y. refl) (λ y. omega arith) i a a b (omega arith)

pub pow-pos : (k : ℕ) → 0 < 2 ^ k
pow-pos zero = omega arith
pow-pos (suc k) = omega (arith, pow-pos k, pow-suc 2 k)

-- The digits above the lowest, under a modulus that doubles.
pub mod_double : (p a : ℕ) → 0 < p → a % (p * 2) ≡ a / 2 % p * 2 + a % 2
mod_double p a h =
    let r : ℕ = a / 2 % p * 2 + a % 2 in
    let e : a ≡ r + p * 2 * (a / 2 / p) = omega (arith, div-add-mod (a / 2) p) in
    ap (λ t. t % (p * 2)) e
    ∙ add-mul-mod_self_left r (p * 2) (a / 2 / p)
    ∙ mod-eq_of_lt (omega (arith, mod-lt (a / 2) h))

mask_half : (k : ℕ) → (2 ^ suc k - 1) / 2 ≡ 2 ^ k - 1
mask_half k = omega (arith, pow-suc 2 k)

pub bit-zero : (i : ℕ) → bit 0 i ≡ 0
bit-zero zero = refl
bit-zero (suc i) = bit-zero i

bit-mod : (k a i : ℕ) → bit (a % 2 ^ k) i ≡ min (bit a i) (bit (2 ^ k - 1) i)
bit-mod zero a i = let gone : a % 2 ^ 0 ≡ 0 = omega arith in rw (gone, bit-zero i) (omega arith)
bit-mod (suc k) a zero =
    omega (
      arith,
      ap (λ t. a % t) (pow-suc 2 k),
      mod_double (2 ^ k) a (pow-pos k),
      pow-suc 2 k,
      pow-pos k,
    )
bit-mod (suc k) a (suc i) =
    let half : a % 2 ^ suc k / 2 ≡ a / 2 % 2 ^ k =
      omega (arith, ap (λ t. a % t) (pow-suc 2 k), mod_double (2 ^ k) a (pow-pos k)) in
    rw (half, mask_half k) (bit-mod k (a / 2) i)

-- `x & (2 ^ k - 1)` keeps the `k` low digits.
pub bit_and_mask : (k a : ℕ) → bit_and a (2 ^ k - 1) ≡ a % 2 ^ k
bit_and_mask k a =
    bit_ext (bit_and a (2 ^ k - 1)) (a % 2 ^ k)
      (λ i. bit-bit_and a (2 ^ k - 1) i ∙ sym (bit-mod k a i))

pow-dvd-add : (k d : ℕ) → 2 ^ k ∣ 2 ^ (k + d)
pow-dvd-add k zero = rw add-zero (dvd_refl (2 ^ k))
pow-dvd-add k (suc d) =
    let e : k + suc d ≡ suc (k + d) = omega arith in
    rw (e, pow-suc 2 (k + d)) (dvd-mul_right_of_dvd (2 ^ k) (pow-dvd-add k d) 2)

-- A power of two divides a greater one.
pub pow-dvd-pow : (k n : ℕ) → k ≤ n → 2 ^ k ∣ 2 ^ n
pow-dvd-pow k n h =
    let e : k + (n - k) ≡ n = omega arith in subst (λ t. 2 ^ k ∣ 2 ^ t) e (pow-dvd-add k (n - k))
