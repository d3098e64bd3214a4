-- ===== src/CString.antt =====
-- kern/string.c: memory is a function from addresses to bytes. A loop that ends at a null byte is on
-- fuel, `none` when it finds no end.
pub mod Copy
pub mod Text
mod Tests
use x.Prelude.{
  ℕ, zero, suc, ◌+◌, ◌-◌, ◌%◌, Bool, true, false, not, ◌&&◌, Option, none, some, ltb, leb, ◌==◌,
  if◌then◌else◌, update, ◌>>=◌,
}

abbrev pub copy_up : ℕ → (ℕ → ℕ) → ℕ → ℕ → ℕ → ℕ
copy_up zero mem dest src = mem
copy_up (suc n) mem dest src = copy_up n (update mem dest (mem src)) (dest + 1) (src + 1)

abbrev pub copy_down : ℕ → (ℕ → ℕ) → ℕ → ℕ → ℕ → ℕ
copy_down zero mem dest src = mem
copy_down (suc n) mem dest src = copy_down n (update mem dest (mem src)) (dest - 1) (src - 1)

pub memcpy : (ℕ → ℕ) → ℕ → ℕ → ℕ → ℕ → ℕ
memcpy mem dest src n = copy_up n mem dest src

pub memmove : (ℕ → ℕ) → ℕ → ℕ → ℕ → ℕ → ℕ
memmove mem dest src n =
    if leb dest src then copy_up n mem dest src else copy_down n mem (dest + n - 1) (src + n - 1)

abbrev pub set_up : ℕ → (ℕ → ℕ) → ℕ → ℕ → ℕ → ℕ
set_up zero mem s c = mem
set_up (suc n) mem s c = set_up n (update mem s c) (s + 1) c

pub memset : (ℕ → ℕ) → ℕ → ℕ → ℕ → ℕ → ℕ
memset mem s c n = set_up n mem s (c % 256)

-- The result of a comparison: 0, or the difference of two bytes that differ
pub data Compared : Type 0 where
  equal : Compared
  difference : ℕ → ℕ → Compared

pub memcmp : (ℕ → ℕ) → ℕ → ℕ → ℕ → Compared
memcmp mem s1 s2 zero = equal
memcmp mem s1 s2 (suc n) = elim (mem s1 == mem s2) [
  | true ↦ memcmp mem (s1 + 1) (s2 + 1) n
  | false ↦ difference (mem s1) (mem s2)
]

pub strlen : ℕ → (ℕ → ℕ) → ℕ → Option ℕ
strlen zero mem s = none
strlen (suc fuel) mem s = elim (mem s == 0) [
  | true ↦ some 0
  | false ↦ strlen fuel mem (s + 1) >>= λ n. some (n + 1)
]

pub strcpy : ℕ → (ℕ → ℕ) → ℕ → ℕ → Option (ℕ → ℕ)
strcpy zero mem dest src = none
strcpy (suc fuel) mem dest src = elim (mem src == 0) [
  | true ↦ some (update mem dest (mem src))
  | false ↦ strcpy fuel (update mem dest (mem src)) (dest + 1) (src + 1)
]

pub record Copied : Type 0 where
  pub mem : ℕ → ℕ
  pub len : ℕ

abbrev pub kept_size : ℕ → ℕ → ℕ
kept_size len n = if ltb len n then len else n - 1

pub strlcpy : ℕ → (ℕ → ℕ) → ℕ → ℕ → ℕ → Option Copied
strlcpy fuel mem dest src n = strlen fuel mem src >>= λ len. some (record {
  mem =
      if n == 0
      then mem
      else update (memcpy mem dest src (kept_size len n)) (dest + kept_size len n) 0;
  len = len;
})

pub strcmp : ℕ → (ℕ → ℕ) → ℕ → ℕ → Option Compared
strcmp zero mem s1 s2 = none
strcmp (suc fuel) mem s1 s2 = elim (mem s1 == mem s2) [
  | true ↦ elim (mem s1 == 0) [ true ↦ some equal | false ↦ strcmp fuel mem (s1 + 1) (s2 + 1) ]
  | false ↦ some (difference (mem s1) (mem s2))
]

-- The loop ends at `n` with two characters that are the same, or before the first for `n` of 0.
pub strncmp : (ℕ → ℕ) → ℕ → ℕ → ℕ → Compared
strncmp mem s1 s2 zero = equal
strncmp mem s1 s2 (suc n) = elim (mem s1 == mem s2) [
  | true ↦ elim (mem s1 == 0) [ true ↦ equal | false ↦ strncmp mem (s1 + 1) (s2 + 1) n ]
  | false ↦ difference (mem s1) (mem s2)
]

-- `*s == c`, where a character of 128 and more is negative and `c` is not
abbrev pub same_char : ℕ → ℕ → Bool
same_char char c = ltb char 128 && char == c

pub strchr : ℕ → (ℕ → ℕ) → ℕ → ℕ → Option (Option ℕ)
strchr zero mem s c = none
strchr (suc fuel) mem s c = elim (same_char (mem s) c) [
  | true ↦ some (some s)
  | false ↦ elim (mem s == 0) [ true ↦ some none | false ↦ strchr fuel mem (s + 1) c ]
]
