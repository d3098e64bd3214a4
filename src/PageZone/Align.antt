-- ===== src/PageZone/Align.antt =====
-- The buddy of an aligned block, by the exclusive or of its address, and the block of both.
use native.Mathlib.Nat.{pow-suc, mul-add-mod_self_left, mul-mod_right, mod-eq_of_lt}
use native.Mathlib.Decide.{ℕ_discrete}
use x.Prelude.{
  ℕ, zero, suc, ◌+◌, ◌*◌, ◌/◌, ◌%◌, ◌^◌, ◌<◌, ◌≡◌, refl, sym, ap, subst, ◌∙◌, ◌⊎◌, inl, inr,
  bit_xor, differ, arith,
}
use x.Prelude.Bits.{bit, bit_ext, bit-bit_xor, bit-zero, pow-pos}
use x.PageZone.{ptob, block_start, buddy_pa}

bit-double : (a : ℕ) → (i : ℕ) → bit (2 * a) (suc i) ≡ bit a i
bit-double a i = let e : 2 * a / 2 ≡ a = omega arith in rw e

xor_double : (a b : ℕ) → bit_xor (2 * a) (2 * b) ≡ 2 * bit_xor a b
xor_double a b = bit_ext (bit_xor (2 * a) (2 * b)) (2 * bit_xor a b) same
  where
    same : (i : ℕ) → bit (bit_xor (2 * a) (2 * b)) i ≡ bit (2 * bit_xor a b) i
    same zero =
        let e : 2 * a % 2 ≡ 0 = omega arith in
        let f : 2 * b % 2 ≡ 0 = omega arith in
        let g : 2 * bit_xor a b % 2 ≡ 0 = omega arith in
        bit-bit_xor (2 * a) (2 * b) 0 ∙ rw (e, f, g)
    same (suc i) =
        bit-bit_xor (2 * a) (2 * b) (suc i)
        ∙ rw (bit-double a i, bit-double b i, bit-double (bit_xor a b) i) (sym (bit-bit_xor a b i))

differ-zero : (x : ℕ) → differ x 0 ≡ x
differ-zero zero = refl
differ-zero (suc x) = refl

xor-one_even : (u : ℕ) → bit_xor (2 * u) 1 ≡ 2 * u + 1
xor-one_even u = bit_ext (bit_xor (2 * u) 1) (2 * u + 1) same
  where
    same : (i : ℕ) → bit (bit_xor (2 * u) 1) i ≡ bit (2 * u + 1) i
    same zero =
        let e : 2 * u % 2 ≡ 0 = omega arith in
        let f : (2 * u + 1) % 2 ≡ 1 = omega arith in bit-bit_xor (2 * u) 1 0 ∙ rw (e, f)
    same (suc i) =
        let e : 2 * u / 2 ≡ u = omega arith in
        let f : (2 * u + 1) / 2 ≡ u = omega arith in
        bit-bit_xor (2 * u) 1 (suc i) ∙ rw (e, f, bit-zero i) (differ-zero (bit u i))

xor-one_odd : (u : ℕ) → bit_xor (2 * u + 1) 1 ≡ 2 * u
xor-one_odd u = bit_ext (bit_xor (2 * u + 1) 1) (2 * u) same
  where
    same : (i : ℕ) → bit (bit_xor (2 * u + 1) 1) i ≡ bit (2 * u) i
    same zero =
        let e : 2 * u % 2 ≡ 0 = omega arith in
        let f : (2 * u + 1) % 2 ≡ 1 = omega arith in bit-bit_xor (2 * u + 1) 1 0 ∙ rw (e, f)
    same (suc i) =
        let e : 2 * u / 2 ≡ u = omega arith in
        let f : (2 * u + 1) / 2 ≡ u = omega arith in
        bit-bit_xor (2 * u + 1) 1 (suc i) ∙ rw (e, f, bit-zero i) (differ-zero (bit u i))

xor-pow : (n t : ℕ) → bit_xor (2 ^ n * t) (2 ^ n) ≡ 2 ^ n * bit_xor t 1
xor-pow zero t =
    let e : 2 ^ 0 * t ≡ t = omega arith in
    let f : 2 ^ 0 * bit_xor t 1 ≡ bit_xor t 1 = omega arith in rw (e, f)
xor-pow (suc n) t =
    let p : 2 ^ suc n ≡ 2 * 2 ^ n = omega (arith, pow-suc 2 n) in
    let e : 2 * 2 ^ n * t ≡ 2 * (2 ^ n * t) = omega arith in
    let f : 2 * 2 ^ n * bit_xor t 1 ≡ 2 * (2 ^ n * bit_xor t 1) = omega arith in
    rw (p, e, f, xor_double (2 ^ n * t) (2 ^ n), xor-pow n t)

pow_page : (k : ℕ) → ptob (2 ^ k) ≡ 2 ^ (k + 12)
pow_page zero = refl
pow_page (suc k) =
    let e : suc k + 12 ≡ suc (k + 12) = omega arith in
    rw (e, pow-suc 2 k, pow-suc 2 (k + 12)) (omega (arith, pow_page k))

xor-ptob : (k t : ℕ) → bit_xor (ptob (2 ^ k) * t) (ptob (2 ^ k)) ≡ ptob (2 ^ k) * bit_xor t 1
xor-ptob k t = rw (pow_page k) (xor-pow (k + 12) t)

module _ (order u : ℕ) where
  abbrev m : ℕ
  m = ptob (2 ^ order)

  abbrev first : ℕ
  first = ptob (2 ^ suc order) * u

  twice : ptob (2 ^ suc order) ≡ 2 * m
  twice = omega (arith, pow-suc 2 order)

  m-pos : 0 < m
  m-pos = omega (arith, pow-pos order)

  first_lem : first ≡ m * (2 * u)
  first_lem = rw twice (omega arith)

  second_lem : first + m ≡ m * (2 * u + 1)
  second_lem = rw twice (omega arith)

  buddy_of_first : buddy_pa first order ≡ first + m
  buddy_of_first =
      ap (λ a. bit_xor a m) first_lem
      ∙ xor-ptob order (2 * u)
      ∙ ap (λ t. m * t) (xor-one_even u)
      ∙ sym second_lem

  buddy_of_second : buddy_pa (first + m) order ≡ first
  buddy_of_second =
      ap (λ a. bit_xor a m) second_lem
      ∙ xor-ptob order (2 * u + 1)
      ∙ ap (λ t. m * t) (xor-one_odd u)
      ∙ sym first_lem

  start_of_first : block_start first (suc order) ≡ first
  start_of_first = rw (mul-mod_right (ptob (2 ^ suc order)) u) (omega arith)

  start_of_second : block_start (first + m) (suc order) ≡ first
  start_of_second =
      let rest : (first + m) % ptob (2 ^ suc order) ≡ m =
        mul-add-mod_self_left (ptob (2 ^ suc order)) u m
        ∙ mod-eq_of_lt (omega (arith, twice, m-pos)) in
      rw rest (omega arith)

-- An aligned block and its buddy are the halves of the aligned block of the next order, one or the
-- other way round.
pub data Pair (pa order : ℕ) : Type 0 where
  first_half :
      (u : ℕ)
      → pa ≡ ptob (2 ^ suc order) * u
      → buddy_pa pa order ≡ pa + ptob (2 ^ order)
      → block_start pa (suc order) ≡ pa
      → Pair pa order
  second_half :
      (u : ℕ)
      → pa ≡ ptob (2 ^ suc order) * u + ptob (2 ^ order)
      → buddy_pa pa order ≡ ptob (2 ^ suc order) * u
      → block_start pa (suc order) ≡ ptob (2 ^ suc order) * u
      → Pair pa order

pub pair : (pa order t : ℕ) → pa ≡ ptob (2 ^ order) * t → Pair pa order
pair pa order t e = elim (parity t) [
  | inl (u, f) ↦
      subst (λ a. Pair a order)
        (sym (e ∙ ap (λ v. ptob (2 ^ order) * v) f ∙ sym (first_lem order u)))
        (first_half u refl (buddy_of_first order u) (start_of_first order u))
  | inr (u, f) ↦
      subst (λ a. Pair a order)
        (sym (e ∙ ap (λ v. ptob (2 ^ order) * v) f ∙ sym (second_lem order u)))
        (second_half u refl (buddy_of_second order u) (start_of_second order u))
]
  where
    parity : (t : ℕ) → ((u : ℕ) × (t ≡ 2 * u)) ⊎ ((u : ℕ) × (t ≡ 2 * u + 1))
    parity t = elim (ℕ_discrete (t % 2) 0) [
      | yes e ↦ inl (t / 2, omega arith)
      | no n ↦ inr (t / 2, omega arith)
    ]
