-- ===== src/Bitmap/Bits.antt =====
-- The bits of a bitmap, one by one.
use native.Mathlib.Decide.{ℕ_discrete}
use native.Mathlib.Nat.{pow-suc}
use x.Prelude.{
  ℕ, zero, suc, ◌-◌, ◌*◌, ◌/◌, ◌%◌, ◌^◌, ◌<◌, ◌≤◌, ◌≡◌, ◌≢◌, refl, sym, ap, ◌∙◌, some, List, [],
  ◌∷◌, ◌==◌, if◌then◌else◌, set, get_elem?, get_or, length, eq→==, ne→==, arith,
}
use x.Prelude.Words.{long_bit}
use x.Prelude.Bits.{bit}
use x.Bitmap.{word_of}

-- The bit `i` of a bitmap, as a number.
abbrev pub bit_at : List ℕ → ℕ → ℕ
bit_at bm i = bit (get_or bm (i / 64) 0) (i % 64)

pub word_of_lem : (i : ℕ) → word_of i ≡ i / 64
word_of_lem i = ground arith

pub low_digits : (i : ℕ) → i - i / 64 * long_bit ≡ i % 64
low_digits i = omega arith

pub bit-zero : (i : ℕ) → bit 0 i ≡ 0
bit-zero zero = refl
bit-zero (suc i) = bit-zero i

pub bit-pow_self : (k : ℕ) → bit (2 ^ k) k ≡ 1
bit-pow_self zero = refl
bit-pow_self (suc k) =
    let half : 2 ^ suc k / 2 ≡ 2 ^ k = omega (arith, pow-suc 2 k) in
    ap (λ a. bit a k) half ∙ bit-pow_self k

pub bit-pow_ne : (k i : ℕ) → k ≢ i → bit (2 ^ k) i ≡ 0
bit-pow_ne zero zero n = absurd (n refl)
bit-pow_ne zero (suc i) n =
    let gone : 2 ^ 0 / 2 ≡ 0 = omega arith in ap (λ a. bit a i) gone ∙ bit-zero i
bit-pow_ne (suc k) zero n = omega (arith, pow-suc 2 k)
bit-pow_ne (suc k) (suc i) n =
    let half : 2 ^ suc k / 2 ≡ 2 ^ k = omega (arith, pow-suc 2 k) in
    ap (λ a. bit a i) half ∙ bit-pow_ne k i (λ e. n (ap suc e))

-- The digits of `2 ^ n - 1 - x` are those of `x` turned over.
pub bit-complement : (n x i : ℕ) → x < 2 ^ n → i < n → bit (2 ^ n - 1 - x) i ≡ 1 - bit x i
bit-complement zero x i h l = absurd (omega arith)
bit-complement (suc n) x zero h l = omega (arith, pow-suc 2 n)
bit-complement (suc n) x (suc i) h l =
    let half : (2 ^ suc n - 1 - x) / 2 ≡ 2 ^ n - 1 - x / 2 = omega (arith, pow-suc 2 n, h) in
    ap (λ a. bit a i) half ∙ bit-complement n (x / 2) i (omega (arith, pow-suc 2 n)) (omega arith)

pub get_or-some : (bm : List ℕ) (i : ℕ) → i < length bm → get_elem? bm i ≡ some (get_or bm i 0)
get_or-some [] i h = absurd (omega arith)
get_or-some (x ∷ bm) zero h = refl
get_or-some (x ∷ bm) (suc i) h = get_or-some bm i (omega arith)

get_or-set_self : (bm : List ℕ) (i w : ℕ) → i < length bm → get_or (set bm i w) i 0 ≡ w
get_or-set_self [] i w h = absurd (omega arith)
get_or-set_self (x ∷ bm) zero w h = refl
get_or-set_self (x ∷ bm) (suc i) w h = get_or-set_self bm i w (omega arith)

get_or-set_ne : (bm : List ℕ) (i j w : ℕ) → i ≢ j → get_or (set bm i w) j 0 ≡ get_or bm j 0
get_or-set_ne [] i j w n = refl
get_or-set_ne (x ∷ bm) zero zero w n = absurd (n refl)
get_or-set_ne (x ∷ bm) zero (suc j) w n = refl
get_or-set_ne (x ∷ bm) (suc i) zero w n = refl
get_or-set_ne (x ∷ bm) (suc i) (suc j) w n = get_or-set_ne bm i j w (λ e. n (ap suc e))

-- Storing a word changes the bits of that word only.
pub store-bit :
    (bm : List ℕ) (b i w : ℕ)
    → b / 64 < length bm
    → bit_at (set bm (b / 64) w) i ≡ (if i / 64 == b / 64 then bit w (i % 64) else bit_at bm i)
store-bit bm b i w h = elim (ℕ_discrete (b / 64) (i / 64)) [
  | yes e ↦ rw (eq→== (i / 64) (b / 64) (sym e)) (
      ap (λ a. bit a (i % 64))
        (ap (λ j. get_or (set bm (b / 64) w) j 0) (sym e) ∙ get_or-set_self bm (b / 64) w h))
  | no n ↦
      rw (ne→== (i / 64) (b / 64) (λ e. n (sym e)))
        (ap (λ a. bit a (i % 64)) (get_or-set_ne bm (b / 64) (i / 64) w n))
]

pow-le : (k n : ℕ) → k ≤ n → 2 ^ k ≤ 2 ^ n
pow-le k zero h = let z : k ≡ 0 = omega arith in rw z (omega arith)
pow-le k (suc n) h = elim (ℕ_discrete k (suc n)) [
  | yes e ↦ rw e (omega arith)
  | no apart ↦ omega (arith, pow-le k n (omega arith), pow-suc 2 n)
]

pub pow-lt : (k : ℕ) → k < 64 → 2 ^ k < 2 ^ 64
pow-lt k h = omega (arith, pow-le k 63 (omega arith))
