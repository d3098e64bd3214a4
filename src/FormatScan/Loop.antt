-- ===== src/FormatScan/Loop.antt =====
-- Digits as they are printed, read and added.
use mathlib.Core.List.{reverse}
use native.Mathlib.Nat.{div-add-mod, pow-suc}
use x.Prelude.{
  ℕ, zero, suc, ◌+◌, ◌-◌, ◌*◌, ◌/◌, ◌%◌, ◌^◌, ◌<◌, ◌≤◌, ◌≡◌, ◌≢◌, sym, ap, subst, ◌∙◌, inl, inr,
  Bool, true, false, List, [], ◌∷◌, ◌++◌, none, some, ltb, nlt→ltb, length, reverse-cons, arith,
}
use x.Prelude.Words.{size_mod}
use x.FormatPrint.{convert}
use x.FormatPrint.Digits.{IsBase, convert-none, convert-last, convert-more, quotient-lt, lt_or_le}
use x.FormatScan.{atoi, collect, add_digits}
use x.FormatScan.Characters.{digit_of, reads_as, digit-reads, Reads, reads}

-- The reversed digits of a number end with one that is not 0.
pub data Leads (base : ℕ) (lower : Bool) : List ℕ → Type 0 where
  lead : (r : ℕ) (cs : List ℕ) → r < base → r ≢ 0 → Leads base lower (digit_of base lower r ∷ cs)

-- All characters are digits.
abbrev pub AllDigits : ℕ → List ℕ → Type 0
AllDigits base [] = Unit {0}
AllDigits base (c ∷ cs) = ((r : ℕ) × (reads_as base c r ≡ true)) × AllDigits base cs

all-append :
    (base : ℕ) (xs ys : List ℕ) → AllDigits base xs → AllDigits base ys → AllDigits base (xs ++ ys)
all-append base [] ys a b = b
all-append base (x ∷ xs) ys (h, a) b = (h, all-append base xs ys a b)

snoc-Leads :
    (base : ℕ) (lower : Bool) (xs : List ℕ) (c : ℕ)
    → Leads base lower xs
    → Leads base lower (xs ++ (c ∷ []))
snoc-Leads base lower xs c (lead r cs h n) = lead r (cs ++ (c ∷ [])) h n

rest-lt : (base n : ℕ) → IsBase base → n % base < base
rest-lt base n (inl e) = rw e (omega arith)
rest-lt base n (inr (inl e)) = rw e (omega arith)
rest-lt base n (inr (inr e)) = rw e (omega arith)

halved : (base n m : ℕ) → IsBase base → n < m * 2 → base ≤ n → n / base < m
halved base n m b h l = quotient-lt base n m b (omega (arith, h, times b))
  where
    times : IsBase base → m * 2 ≤ m * base
    times (inl e) = rw e (omega arith)
    times (inr (inl e)) = rw e (omega arith)
    times (inr (inr e)) = rw e (omega arith)

some_left : (base n : ℕ) → IsBase base → base ≤ n → 0 < n / base
some_left base n (inl e) h = rw e (omega (arith, h, e))
some_left base n (inr (inl e)) h = rw e (omega (arith, h, e))
some_left base n (inr (inr e)) h = rw e (omega (arith, h, e))

-- The digits of a number other than 0, with enough fuel, from the first.
pub convert-Leads :
    (fuel base n : ℕ) (lower : Bool)
    → IsBase base
    → n < 2 ^ fuel
    → 0 < n
    → Leads base lower (reverse (convert fuel base lower n))
      × AllDigits base (reverse (convert fuel base lower n))
convert-Leads zero base n lower b h p = absurd (omega (arith, h, p))
convert-Leads (suc fuel) base n lower b h p = elim (lt_or_le n base) [
  | inl l ↦
      subst (λ cs. Leads base lower (reverse cs) × AllDigits base (reverse cs))
        (sym (convert-last fuel base n lower b l))
        (lead n [] l (λ e. absurd (omega (arith, e, p))), ((n, digit-reads base lower n b l), tt))
  | inr l ↦
      let (a, d) =
        convert-Leads fuel base (n / base) lower b
          (halved base n (2 ^ fuel) b (omega (arith, h, pow-suc 2 fuel)) l)
          (some_left base n b l) in
      let c : ℕ = digit_of base lower (n % base) in
      let more : List ℕ = convert fuel base lower (n / base) in
      subst (λ cs. Leads base lower (reverse cs) × AllDigits base (reverse cs))
        (sym (convert-more fuel base n lower b l))
        (subst (λ cs. Leads base lower cs × AllDigits base cs) (sym (reverse-cons c more))
          (
            snoc-Leads base lower (reverse more) c a,
            all-append base (reverse more) (c ∷ []) d
                ((n % base, digit-reads base lower (n % base) b (rest-lt base n b)), tt),
          ))
]

add_one :
    (base : ℕ) (negative : Bool) (c : ℕ) (digits : List ℕ) (n m r : ℕ)
    → atoi c ≡ r
    → n + m * r < size_mod
    → add_digits base negative (c ∷ digits) n m
      ≡ add_digits base negative digits (n + m * r) (m * base % size_mod)
unfolding add_digits
add_one base negative c digits n m r e h =
    let sum : (n + atoi c * m) % size_mod ≡ n + m * r =
      ap (λ a. (n + a * m) % size_mod) e ∙ omega (arith, h) in
    let no_wrap : ltb (n + m * r) n ≡ false =
      nlt→ltb (n + m * r) n (λ l. absurd (omega (arith, l))) in
    rw (add_digits, sum, no_wrap, sum)

-- Adding the digits of a number gives it, when it does not overflow.
pub add_lem :
    (fuel base n : ℕ) (lower negative : Bool) (sum m : ℕ)
    → IsBase base
    → n < 2 ^ fuel
    → sum + m * n < size_mod
    → add_digits base negative (convert fuel base lower n) sum m
      ≡ record { number = sum + m * n; negative = negative }
unfolding add_digits
add_lem zero base n lower negative sum m b h l =
    ap (λ cs. add_digits base negative cs sum m) (convert-none base n lower)
    ∙ ap (λ t. record { number = t; negative = negative }) (zero_more n h)
  where
    zero_more : (n : ℕ) → n < 1 → sum ≡ sum + m * n
    zero_more zero h = omega arith
    zero_more (suc n) h = absurd (omega (arith, h))
add_lem (suc fuel) base n lower negative sum m b h l = elim (lt_or_le n base) [
  | inl small ↦
      ap (λ cs. add_digits base negative cs sum m) (convert-last fuel base n lower b small)
      ∙ add_one base negative (digit_of base lower n) [] sum m n
          ((reads base (digit_of base lower n) n (digit-reads base lower n b small)).value) l
  | inr large ↦
      let q : ℕ = n / base in
      let d : ℕ = n % base in
      let whole : m * n ≡ m * base * q + m * d =
        ap (λ t. m * t) (sym (div-add-mod n base)) ∙ distribute base q d in
      let more : m * base * q ≡ m * base + m * base * (q - 1) =
        ap (λ t. m * base * t) (first q (some_left base n b large))
        ∙ distribute_one (m * base) (q - 1) in
      let value : atoi (digit_of base lower d) ≡ d =
        (reads base (digit_of base lower d) d
          (digit-reads base lower d b (rest-lt base n b))).value in
      let step : m * base % size_mod ≡ m * base = omega (arith, whole, more, l) in
      ap (λ cs. add_digits base negative cs sum m) (convert-more fuel base n lower b large)
      ∙ add_one base negative (digit_of base lower d) (convert fuel base lower q) sum m d value
          (omega (arith, whole, more, l))
      ∙ ap (λ t. add_digits base negative (convert fuel base lower q) (sum + m * d) t) step
      ∙ add_lem fuel base q lower negative (sum + m * d) (m * base) b
          (halved base n (2 ^ fuel) b (omega (arith, h, pow-suc 2 fuel)) large)
          (omega (arith, whole, l))
      ∙ ap (λ t. record { number = t; negative = negative }) (omega (arith, whole))
]
  where
    distribute : (base q d : ℕ) → m * (base * q + d) ≡ m * base * q + m * d
    distribute base q d = omega arith

    distribute_one : (a q : ℕ) → a * (1 + q) ≡ a + a * q
    distribute_one a q = omega arith

    first : (q : ℕ) → 0 < q → q ≡ 1 + (q - 1)
    first q h = omega (arith, h)

-- The loop reads digits up to the null byte, with more fuel than characters.
pub collect_lem :
    (fuel base c : ℕ) (cs rest before : List ℕ)
    → AllDigits base (c ∷ cs)
    → length cs + 1 < fuel
    → collect fuel base (record {
      char = c;
      left = record { text = cs ++ (0 ∷ rest); width = none };
      before = before;
    })
      ≡ some (record {
        digits = c ∷ cs;
        last = record { char = 0; left = record { text = rest; width = none }; before = 0 ∷ rest };
      })
unfolding collect
collect_lem zero base c cs rest before a h = absurd (omega (arith, h))
collect_lem (suc zero) base c cs rest before a h = absurd (omega (arith, h))
collect_lem (suc (suc fuel)) base c [] rest before ((r, e), a) h =
    let d : Reads base c r = reads base c r e in rw (d.no_null, d.in_base, collect)
collect_lem (suc (suc fuel)) base c (c' ∷ cs) rest before ((r, e), a) h =
    let d : Reads base c r = reads base c r e in
    rw (
      d.no_null,
      d.in_base,
      collect_lem (suc fuel) base c' cs rest (c' ∷ (cs ++ (0 ∷ rest))) a (omega (arith, h)),
      collect,
    )
