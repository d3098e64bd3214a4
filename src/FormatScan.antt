-- ===== src/FormatScan.antt =====
-- kern/fmt.c, formatted input: the conversion of integers by `fmt_sscanf_state_produce_int`, up to the
-- store of the number through its pointer. A string is the list of its characters with its null byte,
-- and a read past them is `none`.
pub mod Characters
pub mod Loop
pub mod RoundTrip
pub mod Auto
mod Tests
use x.Prelude.{
  ℕ, zero, suc, ◌+◌, ◌-◌, ◌*◌, ◌%◌, ◌^◌, Bool, true, false, not, ◌&&◌, ◌||◌, List, [], ◌∷◌, Option,
  none, some, ltb, leb, ◌==◌, if◌then◌else◌, length, ◌>>=◌,
}
use x.Prelude.Words.{size_mod}
use mathlib.Core.List.{reverse}

-- the string that is left, and the width that is, where it is checked
pub record Source : Type 0 where
  pub text : List ℕ
  pub width : Option ℕ

-- a character that was consumed, the source after it, and the string before it
pub record Taken : Type 0 where
  pub char : ℕ
  pub left : Source
  pub before : List ℕ

-- `(char)EOF`
abbrev pub eof : ℕ
eof = 255

abbrev pub consume_char : List ℕ → ℕ → List ℕ → Option ℕ → Taken
consume_char before c text none = record {
  char = c;
  left = record { text = text; width = none };
  before = before;
}
consume_char before c text (some zero) = record {
  char = eof;
  left = record { text = text; width = some 0 };
  before = before;
}
consume_char before c text (some (suc width)) = record {
  char = c;
  left = record { text = text; width = some width };
  before = before;
}

abbrev pub consume_from : List ℕ → Option ℕ → Option Taken
consume_from [] width = none
consume_from (c ∷ text) width = some (consume_char (c ∷ text) c text width)

-- `fmt_sscanf_state_consume_string` and `fmt_sscanf_state_restore_string`
abbrev pub consume : Source → Option Taken
consume s = consume_from s.text s.width

abbrev pub restore : Taken → Source
restore t = record t.left { text = t.before }

abbrev pub is_digit : ℕ → Bool
is_digit c = leb b'0' c && leb c b'9'

abbrev pub is_xdigit : ℕ → Bool
is_xdigit c = is_digit c || (leb b'a' c && leb c b'f') || (leb b'A' c && leb c b'F')

abbrev pub atoi : ℕ → ℕ
atoi c =
    if is_digit c
    then c - b'0'
    else if leb b'a' c && leb c b'f'
    then 10 + (c - b'a')
    else 10 + (c - b'A')

abbrev pub is_space : ℕ → Bool
is_space c = c == b' ' || (leb 9 c && leb c 12)

abbrev pub skip : List ℕ → List ℕ
skip [] = []
skip (c ∷ text) = if is_space c then skip text else c ∷ text

abbrev pub is_base_digit : ℕ → ℕ → Bool
is_base_digit base c =
    if base == 8 then leb b'0' c && leb c b'7' else if base == 16 then is_xdigit c else is_digit c

pub record Collected : Type 0 where
  pub digits : List ℕ
  pub last : Taken

-- the loop over the digits, on fuel
pub collect : ℕ → ℕ → Taken → Option Collected
collect zero base t = none
collect (suc fuel) base t = elim (not (t.char == 0) && is_base_digit base t.char) [
  | true ↦
      consume t.left >>= collect fuel base >>= λ c. some (record c { digits = t.char ∷ c.digits })
  | false ↦ some (record { digits = []; last = t })
]

pub record Value : Type 0 where
  pub number : ℕ
  pub negative : Bool

-- the loop that adds the digits, from the last on
pub add_digits : ℕ → Bool → List ℕ → ℕ → ℕ → Value
add_digits base negative [] n m = record { number = n; negative = negative }
add_digits base negative (c ∷ digits) n m =
    let tmp = (n + atoi c * m) % size_mod in
    elim (ltb tmp n) [
      | true ↦ record { number = 1; negative = true }
      | false ↦ add_digits base negative digits tmp (m * base % size_mod)
    ]

pub data Scanned : Type 0 where
  discarded : List ℕ → Scanned
  refused : List ℕ → Scanned
  scanned : ℕ → List ℕ → Scanned

-- `ARRAY_SIZE(buf)`
abbrev pub max_num_size : ℕ
max_num_size = 22

abbrev pub signed_number : Value → ℕ
signed_number v = if v.negative then (size_mod - v.number) % size_mod else v.number

-- the number of the digits in `buf`, where too many are replaced by a one of negative sign
abbrev pub number_of : ℕ → Bool → List ℕ → ℕ
number_of base negative digits = signed_number (
    if ltb (length digits) max_num_size
    then add_digits base negative (reverse digits) 0 1
    else add_digits base true (b'1' ∷ []) 0 1)

-- what follows the loop over the digits
abbrev pub finish : Bool → ℕ → Bool → Collected → Scanned
finish discard base negative c =
    let text = (restore c.last).text in
    if discard
    then discarded text
    else if length c.digits == 0
    then (if c.last.char == 0
        then refused text
        else scanned (number_of base negative (b'0' ∷ [])) text)
    else scanned (number_of base negative c.digits) text

abbrev pub scan_digits : Bool → ℕ → Bool → Taken → Option Scanned
scan_digits discard base negative t =
    collect (suc (length t.left.text)) base t >>= λ c. some (finish discard base negative c)

-- Back at the character after a zero, which counts as the first digit
abbrev pub back : Taken → Taken
back t = record { char = b'0'; left = restore t; before = b'0' ∷ t.before }

abbrev pub after_zero : Bool → ℕ → Bool → Taken → Option Scanned
after_zero discard base negative t =
    if t.char == b'x' || t.char == b'X'
    then (if base == 0 || base == 16
        then consume t.left >>= scan_digits discard 16 negative
        else scan_digits discard base negative (back t))
    else if base == 0 || base == 8
    then scan_digits discard 8 negative t
    else scan_digits discard base negative (back t)

abbrev pub after_sign : Bool → ℕ → Bool → Taken → Option Scanned
after_sign discard base negative t =
    if t.char == b'0'
    then consume t.left >>= after_zero discard base negative
    else scan_digits discard base negative t

abbrev pub after_space : Bool → ℕ → Taken → Option Scanned
after_space discard base t =
    if t.char == b'-'
    then consume t.left >>= after_sign discard base true
    else after_sign discard base false t

pub scan_int : Bool → ℕ → Source → Option Scanned
scan_int discard base s = consume (record s { text = skip s.text }) >>= after_space discard base
