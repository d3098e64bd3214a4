-- ===== src/FormatScan/Auto.antt =====
-- Reading in base 0, which is to find the base in the prefix of the number.
use mathlib.Core.List.{reverse}
use x.Prelude.{
  ℕ, ◌+◌, ◌*◌, ◌%◌, ◌<◌, ◌≡◌, refl, ap, ◌∙◌, false, List, [], ◌∷◌, ◌++◌, some, ltb, lt→ltb, nlt→ltb,
  ◌==◌, length, arith,
}
use x.Prelude.Words.{size_mod}
use x.FormatScan.{atoi, add_digits, scanned, scan_int, number_of}
use x.FormatScan.Characters.{Reads, reads}
use x.FormatScan.Loop.{AllDigits}
use x.FormatScan.RoundTrip.{source, digits_lem}

-- Digits of weight 0 add nothing.
weightless :
    (digits : List ℕ) (n : ℕ)
    → n < size_mod
    → add_digits 0 false digits n 0 ≡ record { number = n; negative = false }
unfolding add_digits
weightless [] n h = refl
weightless (c ∷ digits) n h =
    let none_added : (n + atoi c * 0) % size_mod ≡ n = omega (arith, h) in
    let no_wrap : ltb n n ≡ false = nlt→ltb n n (λ l. absurd (omega (arith, l))) in
    rw (add_digits, none_added, no_wrap, none_added) (weightless digits n h)

last_counts :
    (d r : ℕ) (more : List ℕ)
    → atoi d ≡ r
    → r < size_mod
    → add_digits 0 false (d ∷ more) 0 1 ≡ record { number = r; negative = false }
unfolding add_digits
last_counts d r more e h =
    let added : (0 + atoi d * 1) % size_mod ≡ r = omega (arith, e, h) in
    let no_wrap : ltb r 0 ≡ false = nlt→ltb r 0 (λ l. absurd (omega (arith, l))) in
    rw (add_digits, added, no_wrap, added) (weightless more r h)

-- In base 0, a string of less than 22 digits of which the first is not 0 is read as its last digit: the
-- base is not set to 10, and the other digits get the weight 0.
pub auto_base_last_digit :
    (c d r : ℕ) (cs more rest : List ℕ)
    → AllDigits 0 (c ∷ cs)
    → (c == b'0') ≡ false
    → length (c ∷ cs) < 22
    → reverse (c ∷ cs) ≡ d ∷ more
    → atoi d ≡ r
    → r < 10
    → scan_int false 0 (source (c ∷ (cs ++ (0 ∷ rest)))) ≡ some (scanned r (0 ∷ rest))
unfolding scan_int
auto_base_last_digit c d r cs more rest ((v, e), a) no_zero short last value small =
    let first : Reads 0 c v = reads 0 c v e in
    let number : number_of 0 false (c ∷ cs) ≡ r =
      rw
        (lt→ltb (length (c ∷ cs)) 22 short, last, last_counts d r more value (omega (arith, small)))
        refl in
    rw (first.no_space, first.no_minus, no_zero)
      (digits_lem 0 c cs rest (c ∷ (cs ++ (0 ∷ rest))) ((v, e), a)
        ∙ ap (λ t. some (scanned t (0 ∷ rest))) number)
