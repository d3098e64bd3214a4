-- ===== src/FormatScan/Characters.antt =====
-- The characters of digits, and what reading them gives.
use x.Prelude.{
  ℕ, zero, suc, ◌<◌, ◌≡◌, ◌≢◌, refl, sym, ap, subst, ◌∙◌, ◌⊎◌, inl, inr, Bool, true, false, not,
  ◌&&◌, ◌||◌, ◌==◌, if◌then◌else◌, arith,
}
use x.FormatPrint.{digit_char}
use x.FormatPrint.Digits.{IsBase}
use x.FormatScan.{atoi, is_base_digit, is_space}

-- the digits of a base, where those of base 10 have one case
abbrev pub digit_of : ℕ → Bool → ℕ → ℕ
digit_of base lower r = digit_char (if base == 10 then false else lower) r

-- What reading needs to know of a character.
abbrev pub reads_as : ℕ → ℕ → ℕ → Bool
reads_as base c r =
    is_base_digit base c
    && atoi c == r
    && not (c == 0)
    && not (c == b'-')
    && not (is_space c)
    && (r == 0 || not (c == b'0'))

abbrev all_below : ℕ → (ℕ → Bool) → Bool
all_below zero p = true
all_below (suc n) p = p n && all_below n p

and-true : (a b : Bool) → (a && b) ≡ true → (a ≡ true) × (b ≡ true)
and-true true b e = (refl, e)
and-true false b e = absurd (cc e)

below : (n : ℕ) (p : ℕ → Bool) (r : ℕ) → all_below n p ≡ true → r < n → p r ≡ true
below zero p r e h = absurd (omega arith)
below (suc n) p r e h =
    let (a, b) = and-true (p n) (all_below n p) e in
    elim (eq_or_lt r n h) [ inl same ↦ ap p same ∙ a | inr l ↦ below n p r b l ]
  where
    eq_or_lt : (r n : ℕ) → r < suc n → (r ≡ n) ⊎ (r < n)
    eq_or_lt r n h = omega arith

pub digit-reads :
    (base : ℕ) (lower : Bool) (r : ℕ)
    → IsBase base
    → r < base
    → reads_as base (digit_of base lower r) r ≡ true
digit-reads base lower r (inl e) h =
    subst (λ b. r < b → reads_as b (digit_of b lower r) r ≡ true) (sym e)
      (λ l. below 8 (λ r. reads_as 8 (digit_of 8 lower r) r) r (octal lower) l) h
  where
    octal : (lower : Bool) → all_below 8 (λ r. reads_as 8 (digit_of 8 lower r) r) ≡ true
    octal true = refl
    octal false = refl
digit-reads base lower r (inr (inl e)) h =
    subst (λ b. r < b → reads_as b (digit_of b lower r) r ≡ true) (sym e)
      (λ l. below 10 (λ r. reads_as 10 (digit_of 10 lower r) r) r refl l) h
digit-reads base lower r (inr (inr e)) h =
    subst (λ b. r < b → reads_as b (digit_of b lower r) r ≡ true) (sym e)
      (λ l. below 16 (λ r. reads_as 16 (digit_of 16 lower r) r) r (hex lower) l) h
  where
    hex : (lower : Bool) → all_below 16 (λ r. reads_as 16 (digit_of 16 lower r) r) ≡ true
    hex true = refl
    hex false = refl

-- What the test of a digit says.
pub record Reads (base c r : ℕ) : Type 0 where
  pub in_base : is_base_digit base c ≡ true
  pub value : atoi c ≡ r
  pub no_null : (c == 0) ≡ false
  pub no_minus : (c == b'-') ≡ false
  pub no_space : is_space c ≡ false
  pub no_zero : r ≢ 0 → (c == b'0') ≡ false

not-true : (b : Bool) → not b ≡ true → b ≡ false
not-true true e = absurd (cc e)
not-true false e = refl

same : (a b : ℕ) → (a == b) ≡ true → a ≡ b
same a b e = ground arith

pub reads : (base c r : ℕ) → reads_as base c r ≡ true → Reads base c r
reads base c r e =
    let (f₅, e₆) =
      and-true
        (is_base_digit base c && atoi c == r && not (c == 0) && not (c == b'-') && not (is_space c))
        (r == 0 || not (c == b'0')) e in
    let (f₄, e₅) =
      and-true (is_base_digit base c && atoi c == r && not (c == 0) && not (c == b'-'))
        (not (is_space c)) f₅ in
    let (f₃, e₄) =
      and-true (is_base_digit base c && atoi c == r && not (c == 0)) (not (c == b'-')) f₄ in
    let (f₂, e₃) = and-true (is_base_digit base c && atoi c == r) (not (c == 0)) f₃ in
    let (e₁, e₂) = and-true (is_base_digit base c) (atoi c == r) f₂ in
    record {
      in_base = e₁;
      value = same (atoi c) r e₂;
      no_null = not-true (c == 0) e₃;
      no_minus = not-true (c == b'-') e₄;
      no_space = not-true (is_space c) e₅;
      no_zero = λ n. leading r (c == b'0') n e₆;
    }
  where
    leading : (r : ℕ) (b : Bool) → r ≢ 0 → (r == 0 || not b) ≡ true → b ≡ false
    leading r true n e = absurd (ground arith)
    leading r false n e = refl
