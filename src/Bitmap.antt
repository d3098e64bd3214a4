-- ===== src/Bitmap.antt =====
-- kern/bitmap.h and kern/bitmap_i.h: arrays of bits in words of 64 bits. A bitmap is the list of its
-- words; a bit past them is an access out of bounds, `none`. The atomic variants compute the same.
pub mod Bits
pub mod Update
mod Tests
use x.Prelude.{
  ℕ, zero, suc, ◌+◌, ◌-◌, ◌*◌, ◌/◌, ◌^◌, Bool, not, Option, none, some, List, [], ◌∷◌, leb, ◌==◌,
  if◌then◌else◌, bit_and, bit_or, bit_xor, set, get_elem?, replicate, ◌>>=◌,
}
use x.Prelude.Words.{long_bit, size_mod}

-- `BITMAP_LONGS`, by `DIV_CEIL`
abbrev pub longs : ℕ → ℕ
longs nr_bits = (nr_bits + long_bit - 1) / long_bit

-- `bitmap_lookup`, which is used for a bit past the first word: the word of a bit, and the bit in it
abbrev pub word_of : ℕ → ℕ
word_of bit = if leb long_bit bit then longs (bit + 1) - 1 else 0

abbrev pub bit_in_word : ℕ → ℕ
bit_in_word bit = bit - word_of bit * long_bit

abbrev pub mask : ℕ → ℕ
mask bit = 2 ^ bit

-- `~x` on words
abbrev pub complement : ℕ → ℕ
complement x = size_mod - 1 - x

abbrev pub store : List ℕ → ℕ → ℕ → Option (List ℕ)
store bm i w = some (set bm i w)

pub set_bit : List ℕ → ℕ → Option (List ℕ)
set_bit bm bit =
    get_elem? bm (word_of bit) >>= λ w. store bm (word_of bit) (bit_or w (mask (bit_in_word bit)))

pub clear_bit : List ℕ → ℕ → Option (List ℕ)
clear_bit bm bit = get_elem? bm (word_of bit) >>= λ w.
    store bm (word_of bit) (bit_and w (complement (mask (bit_in_word bit))))

abbrev pub test_word : ℕ → ℕ → Option Bool
test_word bit w = some (not (bit_and w (mask bit) == 0))

pub test_bit : List ℕ → ℕ → Option Bool
test_bit bm bit = get_elem? bm (word_of bit) >>= test_word (bit_in_word bit)

-- the loops of `bitmap_and`, `bitmap_or` and `bitmap_xor`, over the first `n` words
abbrev pub combine : (ℕ → ℕ → ℕ) → ℕ → List ℕ → List ℕ → Option (List ℕ)
combine op zero a b = some a
combine op (suc n) (x ∷ a) (y ∷ b) = combine op n a b >>= λ r. some (op x y ∷ r)
combine op (suc n) a b = none

pub and_bits : List ℕ → List ℕ → ℕ → Option (List ℕ)
and_bits a b nr_bits = combine bit_and (longs nr_bits) a b

pub or_bits : List ℕ → List ℕ → ℕ → Option (List ℕ)
or_bits a b nr_bits = combine bit_or (longs nr_bits) a b

pub xor_bits : List ℕ → List ℕ → ℕ → Option (List ℕ)
xor_bits a b nr_bits = combine bit_xor (longs nr_bits) a b
