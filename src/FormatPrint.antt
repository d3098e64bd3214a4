-- ===== src/FormatPrint.antt =====
-- kern/fmt.c, formatted output: the buffer of `fmt_vsnprintf` and the conversion of integers. Characters
-- are numbers. A width is only compared with 0, so a negative one is 0 here; a precision of -1 is `none`.
pub mod Buffer
pub mod Digits
pub mod Plain
mod Tests
use x.Prelude.{
  ℕ, zero, suc, ◌+◌, ◌-◌, ◌*◌, ◌/◌, ◌%◌, ◌^◌, ◌≤◌, bit_and, bit_or, Bool, true, false, not, ◌&&◌,
  ◌||◌, List, [], ◌∷◌, ◌++◌, Option, none, some, ltb, leb, ◌==◌, if◌then◌else◌, get_or, set,
  replicate, length,
}
use x.Prelude.Words.{size_mod}
use mathlib.Core.List.{reverse}

-- `str`, `start` and `end` of `struct fmt_sprintf_state`: the characters up to `end`, how many were
-- produced, and where they end, or nowhere for a buffer of no bytes
pub record Output : Type 0 where
  pub buffer : List ℕ
  pub produced : ℕ
  pub end : Option ℕ

-- `FMT_NOLIMIT`
abbrev pub no_limit : ℕ
no_limit = 2 ^ 64 - 1

-- The end is counted from the start of the buffer. That without limit is the last address, and it is
-- counted from the lowest start, address 1.
pub output_init : List ℕ → ℕ → Output
output_init buffer size = record {
  buffer = buffer;
  produced = 0;
  end =
      if size == 0 then none else if size == no_limit then some (no_limit - 1) else some (size - 1);
}

abbrev pub before_end : Output → Bool
before_end o = elim (o.end) [ none ↦ false | some end ↦ ltb o.produced end ]

-- `fmt_vsnprintf_produce`
pub produce : Output → ℕ → Output
produce o c = record o {
  buffer = if before_end o then set o.buffer o.produced c else o.buffer;
  produced = o.produced + 1;
}

pub produce_all : Output → List ℕ → Output
produce_all o [] = o
produce_all o (c ∷ cs) = produce_all (produce o c) cs

-- `fmt_sprintf_state_finalize`
pub finalize : Output → Output
finalize o =
    if before_end o
    then record o { buffer = set o.buffer o.produced 0 }
    else record o { buffer = elim (o.end) [ none ↦ o.buffer | some end ↦ set o.buffer end 0 ] }

pub record Conversion : Type 0 where
  pub alt_form : Bool
  pub zero_pad : Bool
  pub left_justify : Bool
  pub blank : Bool
  pub sign : Bool
  pub lower : Bool
  pub conv_signed : Bool
  pub width : ℕ
  pub precision : Option ℕ
  pub base : ℕ

-- `fmt_digits`
abbrev pub fmt_digits : List ℕ
fmt_digits =
    b'0' ∷ b'1' ∷ b'2' ∷ b'3' ∷ b'4' ∷ b'5' ∷ b'6' ∷ b'7' ∷ b'8' ∷ b'9' ∷ b'A' ∷ b'B' ∷ b'C' ∷ b'D'
    ∷ b'E' ∷ b'F' ∷ []

abbrev pub lower_bit : Bool → ℕ
lower_bit lower = if lower then 32 else 0

abbrev pub digit_char : Bool → ℕ → ℕ
digit_char lower r = bit_or (get_or fmt_digits r 0) (lower_bit lower)

-- the digit that a turn of the loops takes, and what is left of the number
abbrev pub low_digit : ℕ → ℕ → ℕ
low_digit base n = if base == 10 then n % 10 else bit_and n (base - 1)

abbrev pub shifted : ℕ → ℕ → ℕ
shifted base n = if base == 10 then n / 10 else n / 2 ^ (if base == 8 then 3 else 4)

-- `tmp`, where the least digit is first, on fuel
pub convert : ℕ → ℕ → Bool → ℕ → List ℕ
convert zero base lower n = []
convert (suc fuel) base lower n =
    digit_char (if base == 10 then false else lower) (low_digit base n)
    ∷ elim (shifted base n == 0) [ true ↦ [] | false ↦ convert fuel base lower (shifted base n) ]

-- `FMT_MAX_NUM_SIZE`
abbrev pub max_num_size : ℕ
max_num_size = 22

abbrev pub reversed_digits : Conversion → ℕ → List ℕ
reversed_digits f n =
    if n == 0
    then (elim (f.precision) [ none ↦ b'0' ∷ [] | some p ↦ if p == 0 then [] else b'0' ∷ [] ])
    else convert 64 f.base f.lower n

-- `(long long)n < 0`
abbrev pub is_negative : ℕ → Bool
is_negative n = leb (2 ^ 63) n

-- The sign, where 0 is none
abbrev pub sign_char : Conversion → ℕ → ℕ
sign_char f n =
    if f.alt_form || not f.conv_signed
    then 0
    else if is_negative n
    then b'-'
    else if f.sign
    then b'+'
    else if f.blank
    then b' '
    else 0

abbrev pub magnitude : Conversion → ℕ → ℕ
magnitude f n =
    if f.alt_form || not f.conv_signed || not (is_negative n) then n else (size_mod - n) % size_mod

abbrev pub prefix : Conversion → ℕ → List ℕ
prefix f n =
    if f.alt_form
    then b'0' ∷ (if f.base == 16 then bit_or b'X' (lower_bit f.lower) ∷ [] else [])
    else if sign_char f n == 0
    then []
    else sign_char f n ∷ []

abbrev pub padded_zero : Conversion → Bool
padded_zero f =
    f.zero_pad && not f.left_justify && (elim (f.precision) [ none ↦ true | some p ↦ false ])

-- the digits at least, where `i` are there
abbrev pub digit_count : Conversion → ℕ → ℕ
digit_count f i = elim (f.precision) [ none ↦ i | some p ↦ if ltb p i then i else p ]

-- The characters that `fmt_sprintf_state_produce_int` produces for a number of 64 bits.
pub produce_int : Conversion → ℕ → List ℕ
produce_int f n =
    let digits = reversed_digits f (magnitude f n) in
    let precision = digit_count f (length digits) in
    let width = f.width - length (prefix f n) - precision in
    (if f.left_justify || padded_zero f then [] else replicate width b' ')
    ++ (prefix f n
        ++ ((if padded_zero f then replicate width b'0' else [])
            ++ (replicate (precision - length digits) b'0'
                ++ (reverse digits ++ (if f.left_justify then replicate width b' ' else [])))))
