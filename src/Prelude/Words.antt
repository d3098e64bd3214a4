-- ===== src/Prelude/Words.antt =====
-- `size_t`, `unsigned long` and pointers of the 64-bit kernel: native numbers below 2 ^ 64, with
-- the wrap-around of `+` and `-` written out.
use Prim.Native.Nat.{ℕ, ◌+◌, ◌-◌, ◌%◌, ◌^◌}

-- `LONG_BIT` (include/limits.h)
abbrev pub long_bit : ℕ
long_bit = 64

abbrev pub size_mod : ℕ
size_mod = 2 ^ 64

abbrev pub size_add : ℕ → ℕ → ℕ
size_add a b = (a + b) % size_mod

abbrev pub size_sub : ℕ → ℕ → ℕ
size_sub a b = (a + size_mod - b) % size_mod
