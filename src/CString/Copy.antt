-- ===== src/CString/Copy.antt =====
-- Copies of ranges of memory.
use native.Mathlib.Decide.{ℕ_discrete}
use x.Prelude.{
  ℕ, zero, suc, ◌+◌, ◌-◌, ◌<◌, ◌≤◌, ◌≡◌, ◌≢◌, refl, sym, ap, ◌∙◌, ◌⊎◌, inl, inr, false, leb, leb→le,
  Bool-cases, update, update_self, update_ne, arith,
}
use x.CString.{copy_up, copy_down, memcpy, memmove}

-- The bytes from `dest` on are those that were from `src` on, and the others are as before.
abbrev pub IsCopy : (ℕ → ℕ) → (ℕ → ℕ) → ℕ → ℕ → ℕ → Type 0
IsCopy mem mem' dest src n =
    ((i : ℕ) → i < n → mem' (dest + i) ≡ mem (src + i))
    × ((a : ℕ) → (a < dest) ⊎ (dest + n ≤ a) → mem' a ≡ mem a)

-- What was written is not written again.
above : (n : ℕ) (mem : ℕ → ℕ) (dest src a : ℕ) → a < dest → copy_up n mem dest src a ≡ mem a
above zero mem dest src a h = refl
above (suc n) mem dest src a h =
    above n (update mem dest (mem src)) (dest + 1) (src + 1) a (omega arith)
    ∙ update_ne mem dest a (mem src) (λ e. absurd (omega (arith, e, h)))

past : (n : ℕ) (mem : ℕ → ℕ) (dest src a : ℕ) → dest + n ≤ a → copy_up n mem dest src a ≡ mem a
past zero mem dest src a h = refl
past (suc n) mem dest src a h =
    past n (update mem dest (mem src)) (dest + 1) (src + 1) a (omega arith)
    ∙ update_ne mem dest a (mem src) (λ e. absurd (omega (arith, e, h)))

-- Upwards, where the source is not before the destination or starts after its end.
copied_up :
    (n : ℕ) (mem : ℕ → ℕ) (dest src i : ℕ)
    → (dest ≤ src) ⊎ (src + n ≤ dest)
    → i < n
    → copy_up n mem dest src (dest + i) ≡ mem (src + i)
copied_up zero mem dest src i h l = absurd (omega arith)
copied_up (suc n) mem dest src zero h l =
    let e : dest + 0 ≡ dest = omega arith in
    let f : src + 0 ≡ src = omega arith in
    rw (e, f)
      (above n (update mem dest (mem src)) (dest + 1) (src + 1) dest (omega arith)
        ∙ update_self mem dest (mem src))
copied_up (suc n) mem dest src (suc i) h l =
    let e : dest + suc i ≡ dest + 1 + i = omega arith in
    let f : src + suc i ≡ src + 1 + i = omega arith in
    let next : (dest + 1 ≤ src + 1) ⊎ (src + 1 + n ≤ dest + 1) = omega (arith, h) in
    rw (e, f)
      (copied_up n (update mem dest (mem src)) (dest + 1) (src + 1) i next (omega arith) ∙ ahead h)
  where
    ahead :
        (dest ≤ src) ⊎ (src + suc n ≤ dest)
        → update mem dest (mem src) (src + 1 + i) ≡ mem (src + 1 + i)
    ahead (inl h) = update_ne mem dest (src + 1 + i) (mem src) (λ e. absurd (omega (arith, e, h)))
    ahead (inr h) =
        update_ne mem dest (src + 1 + i) (mem src) (λ e. absurd (omega (arith, e, h, l)))

pub memcpy_lem :
    (mem : ℕ → ℕ) (dest src n : ℕ)
    → (dest ≤ src) ⊎ (src + n ≤ dest)
    → IsCopy mem (memcpy mem dest src n) dest src n
unfolding memcpy
memcpy_lem mem dest src n h = (
  λ i l. copied_up n mem dest src i h l,
  λ a o. elim o [ inl l ↦ above n mem dest src a l | inr l ↦ past n mem dest src a l ],
)

-- Downwards from the last of `n` bytes.
outside_down :
    (n : ℕ) (mem : ℕ → ℕ) (dest src a : ℕ)
    → (a < dest) ⊎ (dest + n ≤ a)
    → copy_down n mem (dest + n - 1) (src + n - 1) a ≡ mem a
outside_down zero mem dest src a h = refl
outside_down (suc n) mem dest src a h =
    let e : dest + suc n - 1 ≡ dest + n = omega arith in
    let f : src + suc n - 1 ≡ src + n = omega arith in
    let less : (a < dest) ⊎ (dest + n ≤ a) = omega (arith, h) in
    rw (e, f)
      (outside_down n (update mem (dest + n) (mem (src + n))) dest src a less
        ∙ update_ne mem (dest + n) a (mem (src + n)) (last h))
  where
    last : (a < dest) ⊎ (dest + suc n ≤ a) → dest + n ≢ a
    last (inl l) e = absurd (omega (arith, e, l))
    last (inr l) e = absurd (omega (arith, e, l))

copied_down :
    (n : ℕ) (mem : ℕ → ℕ) (dest src i : ℕ)
    → src < dest
    → i < n
    → copy_down n mem (dest + n - 1) (src + n - 1) (dest + i) ≡ mem (src + i)
copied_down zero mem dest src i h l = absurd (omega arith)
copied_down (suc n) mem dest src i h l =
    let e : dest + suc n - 1 ≡ dest + n = omega arith in
    let f : src + suc n - 1 ≡ src + n = omega arith in
    rw (e, f)
      (elim (ℕ_discrete i n) [
        | yes same ↦
            outside_down n (update mem (dest + n) (mem (src + n))) dest src (dest + i)
              (inr (omega (arith, same)))
            ∙ ap (λ k. update mem (dest + n) (mem (src + n)) (dest + k)) same
            ∙ update_self mem (dest + n) (mem (src + n))
            ∙ ap (λ k. mem (src + k)) (sym same)
        | no differ ↦
            copied_down n (update mem (dest + n) (mem (src + n))) dest src i h
              (omega (arith, l, differ))
            ∙ update_ne mem (dest + n) (src + i) (mem (src + n))
                (λ g. absurd (omega (arith, g, l, h)))
      ])

-- Moving bytes copies them as they were, whether the ranges overlap or not, and changes no others.
pub memmove_lem : (mem : ℕ → ℕ) (dest src n : ℕ) → IsCopy mem (memmove mem dest src n) dest src n
unfolding memmove memcpy
memmove_lem mem dest src n = elim (Bool-cases (leb dest src)) [
  | inl e ↦ rw e (memcpy_lem mem dest src n (inl (leb→le dest src e)))
  | inr e ↦
      let below : src < dest = not_above dest src e in
      rw e (λ i l. copied_down n mem dest src i below l, λ a o. outside_down n mem dest src a o)
]
  where
    not_above : (a b : ℕ) → leb a b ≡ false → b < a
    not_above a b e = ground arith
