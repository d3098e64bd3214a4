-- ===== src/PageZone/Weight.antt =====
-- The sum of a weight over the pages of the free blocks.
use native.Mathlib.Nat.{pow-suc}
use x.Prelude.{
  ℕ, zero, suc, ◌+◌, ◌^◌, ◌<◌, ◌≡◌, ◌≢◌, refl, sym, ap, subst, inl, inr, List, [], ◌∷◌, Mem,
  without, update, update_self, update_ne, eq→==, ne→==, arith,
}
use native.Mathlib.Decide.{ℕ_discrete}

-- over `n` pages from one on
abbrev pub run : (ℕ → ℕ) → ℕ → ℕ → ℕ
run w page zero = 0
run w page (suc n) = w page + run w (suc page) n

-- over a block, over the blocks of a list, and over the lists of the first `n` orders
abbrev pub block : (ℕ → ℕ) → ℕ → ℕ → ℕ
block w order page = run w page (2 ^ order)

abbrev pub list : (ℕ → ℕ) → ℕ → List ℕ → ℕ
list w order [] = 0
list w order (page ∷ pages) = block w order page + list w order pages

abbrev pub lists : (ℕ → ℕ) → (ℕ → List ℕ) → ℕ → ℕ
lists w blocks zero = 0
lists w blocks (suc n) = lists w blocks n + list w n (blocks n)

pub run-add : (w : ℕ → ℕ) (page m n : ℕ) → run w page (m + n) ≡ run w page m + run w (page + m) n
run-add w page zero n =
    let e : page + 0 ≡ page = omega arith in
    let f : 0 + n ≡ n = omega arith in rw (e, f) (omega arith)
run-add w page (suc m) n =
    let e : suc m + n ≡ suc (m + n) = omega arith in
    let f : page + suc m ≡ suc page + m = omega arith in
    rw (e, f) (omega (arith, run-add w (suc page) m n))

-- A block is its two halves.
pub halves :
    (w : ℕ → ℕ) (order page : ℕ)
    → block w (suc order) page ≡ block w order page + block w order (page + 2 ^ order)
halves w order page =
    let e : 2 ^ suc order ≡ 2 ^ order + 2 ^ order = omega (arith, pow-suc 2 order) in
    rw e (run-add w page (2 ^ order) (2 ^ order))

pub list-without :
    (w : ℕ → ℕ) (order page : ℕ) (pages : List ℕ)
    → Mem page pages
    → block w order page + list w order (without page pages) ≡ list w order pages
list-without w order page [] m = absurd m
list-without w order page (p ∷ pages) m = elim (ℕ_discrete p page) [
  | yes e ↦ rw (eq→== p page e) (ap (λ t. block w order t + list w order pages) (sym e))
  | no n ↦ rw (ne→== p page n) (
      omega
        (arith, list-without w order page pages (elim m [ inl e ↦ absurd (n e) | inr m' ↦ m' ])))
]

lists-above :
    (w : ℕ → ℕ) (blocks : ℕ → List ℕ) (i : ℕ) (pages : List ℕ) (n : ℕ)
    → n < suc i
    → lists w (update blocks i pages) n ≡ lists w blocks n
lists-above w blocks i pages zero h = refl
lists-above w blocks i pages (suc n) h =
    let differ : i ≢ n = λ e. absurd (omega (arith, e)) in
    rw (lists-above w blocks i pages n (omega arith), update_ne blocks i n pages differ)

-- Changing one list changes the sum by the change of that list's.
pub lists-update :
    (w : ℕ → ℕ) (blocks : ℕ → List ℕ) (i : ℕ) (pages : List ℕ) (n : ℕ)
    → i < n
    → lists w (update blocks i pages) n + list w i (blocks i) ≡ lists w blocks n + list w i pages
lists-update w blocks i pages zero h = absurd (omega arith)
lists-update w blocks i pages (suc n) h = elim (ℕ_discrete i n) [
  | yes e ↦
      subst
        (λ k.
          lists w (update blocks i pages) (suc k) + list w i (blocks i)
          ≡ lists w blocks (suc k) + list w i pages)
        e
        (rw (lists-above w blocks i pages i (omega arith), update_self blocks i pages)
          (omega arith))
  | no differ ↦
      rw (update_ne blocks i n pages differ)
        (omega (arith, lists-update w blocks i pages n (omega arith)))
]
