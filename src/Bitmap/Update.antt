-- ===== src/Bitmap/Update.antt =====
-- Setting, clearing, testing and combining the bits of a bitmap.
use native.Mathlib.Decide.{ℕ_discrete}
use x.Prelude.{
  ℕ, zero, suc, ◌*◌, ◌/◌, ◌%◌, ◌^◌, ◌<◌, ◌≤◌, ◌≡◌, ◌≢◌, refl, sym, ap, subst, ◌∙◌, not, some, List,
  [], ◌∷◌, ◌==◌, bit_and, bit_or, min, max, set, get_or, length, length-set, eq→==, ne→==, arith,
}
use x.Prelude.Bits.{bit, bit-bit_and, bit-bit_or, bit-lt, bit_ext}
use x.Bitmap.{longs, complement, set_bit, clear_bit, test_bit, combine, and_bits, or_bits}
use x.Bitmap.Bits.{
  bit_at, word_of_lem, low_digits, bit-pow_self, bit-pow_ne, bit-complement, get_or-some, store-bit,
  bit-zero, pow-lt,
}

-- The bitmap `bm'` is `bm` with the bit `b` equal to `v`.
pub record Becomes (bm : List ℕ) (b v : ℕ) (bm' : List ℕ) : Type 0 where
  pub size : length bm' ≡ length bm
  pub here : bit_at bm' b ≡ v
  pub elsewhere : (i : ℕ) → b ≢ i → bit_at bm' i ≡ bit_at bm i

becomes :
    (bm : List ℕ) (b v w : ℕ)
    → b / 64 < length bm
    → bit w (b % 64) ≡ v
    → ((i : ℕ) → i < 64 → b % 64 ≢ i → bit w i ≡ bit (get_or bm (b / 64) 0) i)
    → Becomes bm b v (set bm (b / 64) w)
becomes bm b v w h e others = record {
  size = length-set bm (b / 64) w;
  here = store-bit bm b b w h ∙ rw (eq→== (b / 64) (b / 64) refl) e;
  elsewhere = λ i n. elim (ℕ_discrete (i / 64) (b / 64)) [
    | yes same ↦
        store-bit bm b i w h
        ∙ rw (eq→== (i / 64) (b / 64) same) (
            others (i % 64) (omega arith) (λ r. n (omega (arith, r, same)))
            ∙ ap (λ j. bit (get_or bm j 0) (i % 64)) (sym same))
    | no apart ↦ store-bit bm b i w h ∙ rw (ne→== (i / 64) (b / 64) apart)
  ];
}

-- Setting a bit within a bitmap succeeds, makes it one, and changes no other.
pub set_bit_lem :
    (bm : List ℕ) (b : ℕ)
    → b < 64 * length bm
    → (bm' : List ℕ) × (set_bit bm b ≡ some bm') × Becomes bm b 1 bm'
unfolding set_bit
set_bit_lem bm b h =
    let within : b / 64 < length bm = omega arith in
    let word : ℕ = get_or bm (b / 64) 0 in
    let w : ℕ = bit_or word (2 ^ (b % 64)) in
    (
      set bm (b / 64) w,
      rw (word_of_lem b, low_digits b, get_or-some bm (b / 64) within),
      becomes bm b 1 w within
          (omega (
            arith,
            bit-bit_or word (2 ^ (b % 64)) (b % 64),
            bit-pow_self (b % 64),
            bit-lt word (b % 64),
          ))
          (λ i l n. omega (arith, bit-bit_or word (2 ^ (b % 64)) i, bit-pow_ne (b % 64) i n)),
    )

-- Clearing a bit within a bitmap succeeds, makes it zero, and changes no other.
pub clear_bit_lem :
    (bm : List ℕ) (b : ℕ)
    → b < 64 * length bm
    → (bm' : List ℕ) × (clear_bit bm b ≡ some bm') × Becomes bm b 0 bm'
unfolding clear_bit
clear_bit_lem bm b h =
    let within : b / 64 < length bm = omega arith in
    let word : ℕ = get_or bm (b / 64) 0 in
    let turned : ℕ = complement (2 ^ (b % 64)) in
    let w : ℕ = bit_and word turned in
    let small : 2 ^ (b % 64) < 2 ^ 64 = pow-lt (b % 64) (omega arith) in
    (
      set bm (b / 64) w,
      rw (word_of_lem b, low_digits b, get_or-some bm (b / 64) within),
      becomes bm b 0 w within
          (omega (
            arith,
            bit-bit_and word turned (b % 64),
            bit-complement 64 (2 ^ (b % 64)) (b % 64) small (omega arith),
            bit-pow_self (b % 64),
          ))
          (λ i l n. omega (
            arith,
            bit-bit_and word turned i,
            bit-complement 64 (2 ^ (b % 64)) i small l,
            bit-pow_ne (b % 64) i n,
            bit-lt word i,
          )),
    )

-- Testing a bit within a bitmap succeeds, and says whether the bit is one.
pub test_bit_lem :
    (bm : List ℕ) (b : ℕ) → b < 64 * length bm → test_bit bm b ≡ some (bit_at bm b == 1)
unfolding test_bit
test_bit_lem bm b h =
    let within : b / 64 < length bm = omega arith in
    let word : ℕ = get_or bm (b / 64) 0 in
    rw (word_of_lem b, low_digits b, get_or-some bm (b / 64) within)
      (ap some (tested word (b % 64)))
  where
    and_zero : (x k : ℕ) → bit x k ≡ 0 → bit_and x (2 ^ k) ≡ 0
    and_zero x k e = bit_ext (bit_and x (2 ^ k)) 0 (λ i. elim (ℕ_discrete k i) [
      | yes same ↦
          subst (λ j. bit (bit_and x (2 ^ k)) j ≡ bit 0 j) same
            (omega (arith, bit-bit_and x (2 ^ k) k, e, bit-zero k))
      | no apart ↦ omega (arith, bit-bit_and x (2 ^ k) i, bit-pow_ne k i apart, bit-zero i)
    ])

    tested : (x k : ℕ) → not (bit_and x (2 ^ k) == 0) ≡ (bit x k == 1)
    tested x k = elim (ℕ_discrete (bit x k) 0) [
      | yes e ↦ rw (eq→== (bit_and x (2 ^ k)) 0 (and_zero x k e), e)
      | no n ↦
          let one : bit x k ≡ 1 = omega (arith, bit-lt x k) in
          let there : bit_and x (2 ^ k) ≢ 0 = λ z. omega (
            arith,
            bit-bit_and x (2 ^ k) k,
            bit-pow_self k,
            one,
            ap (λ a. bit a k) z,
            bit-zero k,
          ) in
          rw (ne→== (bit_and x (2 ^ k)) 0 there, one)
    ]

-- Combining two bitmaps that have the words of `nr_bits` bits succeeds; each word of the result is
-- that of the two, up to the last of these words, and the others stay.
combine_lem :
    (op : ℕ → ℕ → ℕ) (n : ℕ) (a b : List ℕ)
    → n ≤ length a
    → n ≤ length b
    → (r : List ℕ) × (combine op n a b ≡ some r)
      × (length r ≡ length a)
      × ((i : ℕ) → i < n → get_or r i 0 ≡ op (get_or a i 0) (get_or b i 0))
      × ((i : ℕ) → n ≤ i → get_or r i 0 ≡ get_or a i 0)
combine_lem op zero a b h k = (a, refl, refl, (λ i l. absurd (omega arith)), λ i l. refl)
combine_lem op (suc n) [] b h k = absurd (omega arith)
combine_lem op (suc n) (x ∷ a) [] h k = absurd (omega arith)
combine_lem op (suc n) (x ∷ a) (y ∷ b) h k =
    let (r, e, size, low, high) = combine_lem op n a b (omega arith) (omega arith) in
    (op x y ∷ r, rw e, ap suc size, below r low, above r high)
  where
    below :
        (r : List ℕ)
        → ((i : ℕ) → i < n → get_or r i 0 ≡ op (get_or a i 0) (get_or b i 0))
        → (i : ℕ) → i < suc n
        → get_or (op x y ∷ r) i 0 ≡ op (get_or (x ∷ a) i 0) (get_or (y ∷ b) i 0)
    below r low zero l = refl
    below r low (suc i) l = low i (omega arith)

    above :
        (r : List ℕ)
        → ((i : ℕ) → n ≤ i → get_or r i 0 ≡ get_or a i 0)
        → (i : ℕ) → suc n ≤ i
        → get_or (op x y ∷ r) i 0 ≡ get_or (x ∷ a) i 0
    above r high zero l = absurd (omega arith)
    above r high (suc i) l = high i (omega arith)

-- The bits below `nr_bits` of the conjunction of two bitmaps of that many bits are the least of the
-- two bits, and the bitmap keeps its size.
pub and_bits_lem :
    (a b : List ℕ) (nr_bits : ℕ)
    → longs nr_bits ≤ length a
    → longs nr_bits ≤ length b
    → (r : List ℕ) × (and_bits a b nr_bits ≡ some r)
      × (length r ≡ length a)
      × ((i : ℕ) → i < nr_bits → bit_at r i ≡ min (bit_at a i) (bit_at b i))
unfolding and_bits
and_bits_lem a b nr_bits h k =
    let (r, e, size, low, high) = combine_lem bit_and (longs nr_bits) a b h k in
    (
      r,
      e,
      size,
      λ i l.
          ap (λ w. bit w (i % 64)) (low (i / 64) (omega arith))
          ∙ bit-bit_and (get_or a (i / 64) 0) (get_or b (i / 64) 0) (i % 64),
    )

-- The bits below `nr_bits` of the disjunction of two bitmaps of that many bits are the greatest of
-- the two bits, and the bitmap keeps its size.
pub or_bits_lem :
    (a b : List ℕ) (nr_bits : ℕ)
    → longs nr_bits ≤ length a
    → longs nr_bits ≤ length b
    → (r : List ℕ) × (or_bits a b nr_bits ≡ some r)
      × (length r ≡ length a)
      × ((i : ℕ) → i < nr_bits → bit_at r i ≡ max (bit_at a i) (bit_at b i))
unfolding or_bits
or_bits_lem a b nr_bits h k =
    let (r, e, size, low, high) = combine_lem bit_or (longs nr_bits) a b h k in
    (
      r,
      e,
      size,
      λ i l.
          ap (λ w. bit w (i % 64)) (low (i / 64) (omega arith))
          ∙ bit-bit_or (get_or a (i / 64) 0) (get_or b (i / 64) 0) (i % 64),
    )
