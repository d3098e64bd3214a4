-- ===== src/FormatScan/RoundTrip.antt =====
-- Numbers that are printed and read again.
use mathlib.Core.List.{append_assoc, reverse, reverse-reverse}
use x.Prelude.{
  ℕ, zero, suc, ◌^◌, ◌<◌, ◌≡◌, refl, ap, ◌∙◌, ◌⊎◌, inl, inr, Bool, false, List, [], ◌∷◌, ◌++◌, none,
  some, lt→ltb, ne→==, ◌==◌, if◌then◌else◌, length, length-append, length-reverse, replicate, arith,
}
use x.FormatPrint.{convert, produce_int}
use x.FormatPrint.Plain.{plain, produce-plain}
use x.FormatPrint.Digits.{IsBase, convert-length}
use x.FormatScan.{Source, skip, is_space, scanned, scan_digits, scan_int, number_of, add_digits}
use x.FormatScan.Characters.{digit_of, Reads, reads, digit-reads}
use x.FormatScan.Loop.{Leads, lead, AllDigits, convert-Leads, add_lem, collect_lem}

abbrev pub source : List ℕ → Source
source text = record { text = text; width = none }

skip-spaces :
    (w c : ℕ) (t : List ℕ) → is_space c ≡ false → skip (replicate w b' ' ++ (c ∷ t)) ≡ c ∷ t
skip-spaces zero c t e = rw e
skip-spaces (suc w) c t e = skip-spaces w c t e

positive : (n : ℕ) → (suc n == 0) ≡ false
positive n = ne→== (suc n) 0 (λ e. absurd (omega (arith, e)))

pub digits_lem :
    (base c : ℕ) (cs rest before : List ℕ)
    → AllDigits base (c ∷ cs)
    → scan_digits false base false
        (record { char = c; left = source (cs ++ (0 ∷ rest)); before = before })
      ≡ some (scanned (number_of base false (c ∷ cs)) (0 ∷ rest))
digits_lem base c cs rest before a = rw (
  collect_lem (suc (length (cs ++ (0 ∷ rest)))) base c cs rest before a
      (omega (arith, length-append cs (0 ∷ rest))),
  positive (length cs),
)

from_digits :
    (base n w : ℕ) (lower : Bool) (ds rest : List ℕ)
    → IsBase base
    → Leads base lower ds
    → AllDigits base ds
    → number_of base false ds ≡ n
    → scan_int false base (source (replicate w b' ' ++ (ds ++ (0 ∷ rest))))
      ≡ some (scanned n (0 ∷ rest))
unfolding scan_int
from_digits base n w lower ds rest b (lead r cs h nz) a e =
    let c : ℕ = digit_of base lower r in
    let d : Reads base c r = reads base c r (digit-reads base lower r b h) in
    rw (skip-spaces w c (cs ++ (0 ∷ rest)) d.no_space, d.no_minus, d.no_zero nz)
      (digits_lem base c cs rest (c ∷ (cs ++ (0 ∷ rest))) a
        ∙ ap (λ t. some (scanned t (0 ∷ rest))) e)

from_zero :
    (base w : ℕ) (rest : List ℕ)
    → ((base ≡ 10) ⊎ (base ≡ 16))
    → scan_int false base (source (replicate w b' ' ++ (b'0' ∷ 0 ∷ rest)))
      ≡ some (scanned 0 (0 ∷ rest))
unfolding scan_int add_digits
from_zero base w rest (inl e) =
    rw (e, skip-spaces w b'0' (0 ∷ rest) refl)
      (digits_lem 10 b'0' [] rest (b'0' ∷ 0 ∷ rest) ((0, refl), tt))
from_zero base w rest (inr e) =
    rw (e, skip-spaces w b'0' (0 ∷ rest) refl)
      (digits_lem 16 b'0' [] rest (b'0' ∷ 0 ∷ rest) ((0, refl), tt))

-- What the digits of a number read as.
number_of_digits :
    (base n : ℕ) (lower : Bool)
    → IsBase base
    → n < 2 ^ 64
    → length (reverse (convert 64 base lower n)) < 22
    → number_of base false (reverse (convert 64 base lower n)) ≡ n
number_of_digits base n lower b h fits =
    rw
      (
        lt→ltb (length (reverse (convert 64 base lower n))) 22 fits,
        reverse-reverse (convert 64 base lower n),
        add_lem 64 base n lower false 0 1 b h (omega (arith, h)),
      )
      (omega arith)

read_back :
    (base n w : ℕ) (lower : Bool) (rest : List ℕ)
    → ((base ≡ 10) ⊎ (base ≡ 16))
    → n < 2 ^ 64
    → scan_int false base (
        source (
          replicate w b' '
          ++ (reverse (if n == 0 then b'0' ∷ [] else convert 64 base lower n) ++ (0 ∷ rest))))
      ≡ some (scanned n (0 ∷ rest))
read_back base n w lower rest two h = elim (zero_or_more n) [
  | inl z ↦ rw z (from_zero base w rest two)
  | inr p ↦
      let (a, d) = convert-Leads 64 base n lower (inr two) h p in
      let count : length (convert 64 base lower n) < 22 = digits two in
      let fits : length (reverse (convert 64 base lower n)) < 22 =
        omega (arith, length-reverse (convert 64 base lower n), count) in
      rw (ne→== n 0 (λ f. absurd (omega (arith, f, p)))) (
        from_digits base n w lower (reverse (convert 64 base lower n)) rest (inr two) a d
          (number_of_digits base n lower (inr two) h fits))
]
  where
    zero_or_more : (n : ℕ) → (n ≡ 0) ⊎ (0 < n)
    zero_or_more n = omega arith

    digits : ((base ≡ 10) ⊎ (base ≡ 16)) → length (convert 64 base lower n) < 22
    digits (inl e) =
        omega (arith, convert-length 64 19 base n lower (inr (inl e)) (rw e (omega (arith, h))))
    digits (inr e) =
        omega (arith, convert-length 64 15 base n lower (inr (inr e)) (rw e (omega (arith, h))))

-- A number of 64 bits that is printed in base 10 or 16, in capital or small digits and with any width,
-- and then read in that base is read as itself, up to the null byte.
pub print_scan_round_trip :
    (base n width : ℕ) (lower : Bool) (rest : List ℕ)
    → ((base ≡ 10) ⊎ (base ≡ 16))
    → n < 2 ^ 64
    → scan_int false base (source (produce_int (plain base lower width) n ++ (0 ∷ rest)))
      ≡ some (scanned n (0 ∷ rest))
print_scan_round_trip base n width lower rest two h =
    let (w, e) = produce-plain base n width lower in
    let digits : List ℕ = reverse (if n == 0 then b'0' ∷ [] else convert 64 base lower n) in
    ap (λ t. scan_int false base (source (t ++ (0 ∷ rest)))) e
    ∙ ap (λ t. scan_int false base (source t)) (append_assoc (replicate w b' ') digits (0 ∷ rest))
    ∙ read_back base n w lower rest two h
