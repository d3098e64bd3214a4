-- ===== src/Cbuf/Fill.antt =====
-- Writing byte after byte at consecutive absolute indexes, and the block copies of `cbuf_write` that
-- come to the same storage.
use native.Mathlib.Nat.{mod-lt}
use x.Prelude.{
  ℕ, zero, suc, ◌+◌, ◌-◌, ◌%◌, ◌≤◌, ◌<◌, ◌≡◌, ◌≢◌, refl, ap, ◌∙◌, ◌⊎◌, List, [], ◌∷◌, ◌++◌, length,
  length-set, set, take, drop, arith,
}
use x.Prelude.Words.{size_mod, size_add}
use x.Cbuf.{poke}
use x.Cbuf.Inv.{IsModulus, next_slot}

abbrev pub fill : ℕ → List ℕ → ℕ → List ℕ → List ℕ
fill cap mem i [] = mem
fill cap mem i (x ∷ xs) = fill cap (set mem (i % cap) x) (size_add i 1) xs

module _ {cap : ℕ} (m : IsModulus cap) where
  -- up to the end of the storage
  pub poke-fill :
      (mem : List ℕ) (p i : ℕ) (xs : List ℕ)
      → p ≡ i % cap
      → p + length xs ≤ cap
      → poke mem p xs ≡ fill cap mem i xs
  poke-fill mem p i [] e h = refl
  poke-fill mem p i (x ∷ []) e h = ap (λ t. set mem t x) e
  poke-fill mem p i (x ∷ y ∷ ys) e h =
      poke-fill (set mem p x) (p + 1) (size_add i 1) (y ∷ ys) (ground (arith, next_slot m i))
        (omega arith)
      ∙ ap (λ t. fill cap (set mem t x) (size_add i 1) (y ∷ ys)) e

  -- across the end of the storage, in two parts
  pub poke-poke-fill :
      (mem : List ℕ) (s p i : ℕ) (xs : List ℕ)
      → p ≡ i % cap
      → p + s ≡ cap
      → 0 < s
      → s ≤ length xs
      → length xs ≤ cap
      → poke (poke mem p (take s xs)) 0 (drop s xs) ≡ fill cap mem i xs
  poke-poke-fill mem zero p i xs e h pos le small = absurd (omega arith)
  poke-poke-fill mem (suc s) p i [] e h pos le small = absurd (omega arith)
  poke-poke-fill mem (suc zero) p i (x ∷ xs) e h pos le small =
      poke-fill (set mem p x) 0 (size_add i 1) xs (ground (arith, next_slot m i)) (omega arith)
      ∙ ap (λ t. fill cap (set mem t x) (size_add i 1) xs) e
  poke-poke-fill mem (suc (suc s)) p i (x ∷ xs) e h pos le small =
      poke-poke-fill (set mem p x) (suc s) (p + 1) (size_add i 1) xs (ground (arith, next_slot m i))
        (omega arith) (omega arith) (omega arith) (omega arith)
      ∙ ap (λ t. fill cap (set mem t x) (size_add i 1) xs) e

set-set {ℓ} : {A : Type ℓ} (mem : List A) (p : ℕ) (a b : A) → set (set mem p a) p b ≡ set mem p b
set-set [] p a b = refl
set-set (x ∷ mem) zero a b = refl
set-set (x ∷ mem) (suc p) a b = ap (λ t. x ∷ t) (set-set mem p a b)

set_comm {ℓ} :
    {A : Type ℓ} (mem : List A) (p q : ℕ) (a b : A)
    → p ≢ q
    → set (set mem p a) q b ≡ set (set mem q b) p a
set_comm [] p q a b h = refl
set_comm (x ∷ mem) zero zero a b h = absurd (h refl)
set_comm (x ∷ mem) zero (suc q) a b h = refl
set_comm (x ∷ mem) (suc p) zero a b h = refl
set_comm (x ∷ mem) (suc p) (suc q) a b h =
    ap (λ t. x ∷ t) (set_comm mem p q a b (λ e. h (ap suc e)))

-- `p` is the slot `d` steps after the slot `q`.
abbrev pub Ahead : ℕ → ℕ → ℕ → ℕ → Type 0
Ahead cap q d p = (q + d ≡ p) ⊎ (q + d ≡ p + cap)

module _ {cap : ℕ} (m : IsModulus cap) where
  -- a byte that the writing overwrites leaves no trace
  fill-set :
      (mem : List ℕ) (i d p a : ℕ) (xs : List ℕ)
      → p < cap
      → d < cap
      → Ahead cap (i % cap) d p
      → d < length xs
      → fill cap (set mem p a) i xs ≡ fill cap mem i xs
  fill-set mem i d p a [] hp hd w h = absurd (omega arith)
  fill-set mem i zero p a (x ∷ xs) hp hd w h =
      let e : p ≡ i % cap = omega (arith, mod-lt i m.positive) in
      ap (λ t. fill cap t (size_add i 1) xs) (rw (← e) (set-set mem p a x))
  fill-set mem i (suc d) p a (x ∷ xs) hp hd w h =
      ap (λ t. fill cap t (size_add i 1) xs)
        (set_comm mem p (i % cap) a x (omega (arith, mod-lt i m.positive)))
      ∙ fill-set (set mem (i % cap) x) (size_add i 1) d p a xs hp (omega arith)
          (ground (arith, next_slot m i, mod-lt i m.positive)) (omega arith)

  -- Bytes that the same call erases again need not be written.
  pub fill_skip :
      (mem : List ℕ) (i s : ℕ) (xs : List ℕ)
      → i < size_mod
      → s + cap ≤ length xs
      → fill cap mem i xs ≡ fill cap mem ((i + s) % size_mod) (drop s xs)
  fill_skip mem i zero xs w h = ap (λ t. fill cap mem t xs) (omega arith)
  fill_skip mem i (suc s) [] w h = absurd (omega arith)
  fill_skip mem i (suc s) (x ∷ xs) w h =
      fill-set mem (size_add i 1) (cap - 1) (i % cap) x xs (mod-lt i m.positive) (omega arith)
        (ground (arith, next_slot m i, mod-lt i m.positive)) (omega arith)
      ∙ fill_skip mem (size_add i 1) s xs (omega arith) (omega arith)
      ∙ ap (λ t. fill cap mem t (drop s xs)) (omega arith)

pub length-fill :
    (cap : ℕ) (mem : List ℕ) (i : ℕ) (xs : List ℕ) → length (fill cap mem i xs) ≡ length mem
length-fill cap mem i [] = refl
length-fill cap mem i (x ∷ xs) =
    length-fill cap (set mem (i % cap) x) (size_add i 1) xs ∙ length-set mem (i % cap) x

pub fill-append :
    (cap : ℕ) (mem : List ℕ) (i : ℕ) (xs ys : List ℕ)
    → i < size_mod
    → fill cap mem i (xs ++ ys) ≡ fill cap (fill cap mem i xs) ((i + length xs) % size_mod) ys
fill-append cap mem i [] ys h = ap (λ t. fill cap mem t ys) (omega arith)
fill-append cap mem i (x ∷ xs) ys h =
    fill-append cap (set mem (i % cap) x) (size_add i 1) xs ys (omega arith)
    ∙ ap (λ t. fill cap (fill cap (set mem (i % cap) x) (size_add i 1) xs) t ys) (omega arith)
