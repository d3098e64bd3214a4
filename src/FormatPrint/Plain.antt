-- ===== src/FormatPrint/Plain.antt =====
-- Numbers printed without flags.
use mathlib.Core.List.{append-nil, reverse}
use x.Prelude.{
  ℕ, ◌-◌, ◌≡◌, ap, ◌∙◌, Bool, false, List, [], ◌∷◌, ◌++◌, none, ◌==◌, if◌then◌else◌, length,
  replicate, arith,
}
use x.FormatPrint.{Conversion, convert, produce_int}

-- `%u` and `%x`, with any width
abbrev pub plain : ℕ → Bool → ℕ → Conversion
plain base lower width = record {
  alt_form = false;
  zero_pad = false;
  left_justify = false;
  blank = false;
  sign = false;
  lower = lower;
  conv_signed = false;
  width = width;
  precision = none;
  base = base;
}

pub produce-plain :
    (base n width : ℕ) (lower : Bool)
    → (w : ℕ) × (produce_int (plain base lower width) n
        ≡ replicate w b' ' ++ reverse (if n == 0 then b'0' ∷ [] else convert 64 base lower n))
unfolding produce_int
produce-plain base n width lower =
    let ds : List ℕ = if n == 0 then b'0' ∷ [] else convert 64 base lower n in
    let none_left : length ds - length ds ≡ 0 = omega arith in
    (
      width - 0 - length ds,
      ap (λ k. replicate (width - 0 - length ds) b' ' ++ (replicate k b'0' ++ (reverse ds ++ [])))
            none_left
          ∙ ap (λ t. replicate (width - 0 - length ds) b' ' ++ t) (append-nil (reverse ds)),
    )
