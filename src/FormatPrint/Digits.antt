-- ===== src/FormatPrint/Digits.antt =====
-- The digits of a number, and how many they are.
use native.Mathlib.Nat.{pow-suc, pow-zero}
use x.Prelude.{
  ℕ, zero, suc, ◌*◌, ◌/◌, ◌%◌, ◌^◌, ◌<◌, ◌≤◌, ◌≡◌, refl, sym, ap, subst, ◌∙◌, ◌⊎◌, inl, inr, Bool,
  false, [], ◌∷◌, ◌==◌, if◌then◌else◌, Bool-cases, Option-cases, length, arith,
}
use x.Prelude.Bits.{bit_and_mask}
use x.FormatPrint.{
  Conversion, low_digit, shifted, digit_char, convert, reversed_digits, max_num_size,
}

abbrev pub IsBase : ℕ → Type 0
IsBase base = (base ≡ 8) ⊎ (base ≡ 10) ⊎ (base ≡ 16)

low_digit_lem : (base n : ℕ) → IsBase base → low_digit base n ≡ n % base
low_digit_lem base n (inl e) = subst (λ b. low_digit b n ≡ n % b) (sym e) (bit_and_mask 3 n)
low_digit_lem base n (inr (inl e)) = subst (λ b. low_digit b n ≡ n % b) (sym e) refl
low_digit_lem base n (inr (inr e)) = subst (λ b. low_digit b n ≡ n % b) (sym e) (bit_and_mask 4 n)

shifted_lem : (base n : ℕ) → IsBase base → shifted base n ≡ n / base
shifted_lem base n (inl e) = subst (λ b. shifted b n ≡ n / b) (sym e) refl
shifted_lem base n (inr (inl e)) = subst (λ b. shifted b n ≡ n / b) (sym e) refl
shifted_lem base n (inr (inr e)) = subst (λ b. shifted b n ≡ n / b) (sym e) refl

pub convert-none : (base n : ℕ) (lower : Bool) → convert 0 base lower n ≡ []
unfolding convert
convert-none base n lower = refl

-- The loops take a digit and go on while something is left.
pub convert-last :
    (fuel base n : ℕ) (lower : Bool)
    → IsBase base
    → n < base
    → convert (suc fuel) base lower n ≡ digit_char (if base == 10 then false else lower) n ∷ []
unfolding convert
convert-last fuel base n lower b h =
    let gone : shifted base n ≡ 0 = shifted_lem base n b ∙ quotient b h in
    let whole : low_digit base n ≡ n = low_digit_lem base n b ∙ rest b h in
    rw (convert, gone, whole)
  where
    quotient : IsBase base → n < base → n / base ≡ 0
    quotient (inl e) h = rw e (omega (arith, e, h))
    quotient (inr (inl e)) h = rw e (omega (arith, e, h))
    quotient (inr (inr e)) h = rw e (omega (arith, e, h))

    rest : IsBase base → n < base → n % base ≡ n
    rest (inl e) h = rw e (omega (arith, e, h))
    rest (inr (inl e)) h = rw e (omega (arith, e, h))
    rest (inr (inr e)) h = rw e (omega (arith, e, h))

positive : (a : ℕ) → 0 < a → (a == 0) ≡ false
positive a l = ground arith

pub convert-more :
    (fuel base n : ℕ) (lower : Bool)
    → IsBase base
    → base ≤ n
    → convert (suc fuel) base lower n
      ≡ digit_char (if base == 10 then false else lower) (n % base)
        ∷ convert fuel base lower (n / base)
unfolding convert
convert-more fuel base n lower b h =
    let left : (shifted base n == 0) ≡ false =
      ap (λ t. t == 0) (shifted_lem base n b) ∙ some_left b h in
    rw (convert, left, low_digit_lem base n b, shifted_lem base n b)
  where
    some_left : IsBase base → base ≤ n → (n / base == 0) ≡ false
    some_left (inl e) h = rw e (positive (n / 8) (omega (arith, e, h)))
    some_left (inr (inl e)) h = rw e (positive (n / 10) (omega (arith, e, h)))
    some_left (inr (inr e)) h = rw e (positive (n / 16) (omega (arith, e, h)))

-- What dividing leaves.
pub quotient-lt : (base n m : ℕ) → IsBase base → n < m * base → n / base < m
quotient-lt base n m (inl e) h = rw e (omega (arith, subst (λ b. n < m * b) e h))
quotient-lt base n m (inr (inl e)) h = rw e (omega (arith, subst (λ b. n < m * b) e h))
quotient-lt base n m (inr (inr e)) h = rw e (omega (arith, subst (λ b. n < m * b) e h))

pub lt_or_le : (n m : ℕ) → (n < m) ⊎ (m ≤ n)
lt_or_le n m = omega arith

pub convert-length :
    (fuel k base n : ℕ) (lower : Bool)
    → IsBase base
    → n < base ^ suc k
    → length (convert fuel base lower n) ≤ suc k
unfolding convert
convert-length zero k base n lower b h = omega arith
convert-length (suc fuel) zero base n lower b h =
    let small : n < base = omega (arith, h, pow-suc base 0, ap (λ t. t * base) (pow-zero base)) in
    omega (arith, ap length (convert-last fuel base n lower b small))
convert-length (suc fuel) (suc k) base n lower b h = elim (lt_or_le n base) [
  | inl l ↦ omega (arith, ap length (convert-last fuel base n lower b l))
  | inr l ↦
      let rest : n / base < base ^ suc k =
        quotient-lt base n (base ^ suc k) b (subst (λ p. n < p) (pow-suc base (suc k)) h) in
      omega (
        arith,
        ap length (convert-more fuel base n lower b l),
        convert-length fuel k base (n / base) lower b rest,
      )
]

-- The digits of a number of 64 bits fit in the buffer for them, in each base.
reversed_digits_lem :
    (f : Conversion) (n : ℕ)
    → IsBase f.base
    → n < 2 ^ 64
    → length (reversed_digits f n) ≤ max_num_size
reversed_digits_lem f n b h = elim (Bool-cases (n == 0)) [
  | inr e ↦ rw e (convert-length 64 21 f.base n f.lower b (enough b))
  | inl e ↦ rw e (elim (Option-cases (f.precision)) [
    | inl g ↦ rw g (omega arith)
    | inr (p, g) ↦
        rw g
          (elim (Bool-cases (p == 0)) [ inl i ↦ rw i (omega arith) | inr i ↦ rw i (omega arith) ])
  ])
]
  where
    enough : IsBase f.base → n < f.base ^ 22
    enough (inl e) = rw e (omega (arith, h))
    enough (inr (inl e)) = rw e (omega (arith, h))
    enough (inr (inr e)) = rw e (omega (arith, h))
