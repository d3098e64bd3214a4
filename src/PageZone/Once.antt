-- ===== src/PageZone/Once.antt =====
-- How often a page is in a run of pages, in a block and in lists of blocks.
use native.Mathlib.Decide.{ℕ_discrete}
use x.Prelude.{
  ℕ, zero, suc, ◌+◌, ◌^◌, ◌<◌, ◌≤◌, ◌≡◌, ◌≢◌, refl, ap, subst, ◌∙◌, inl, inr, List, [], ◌∷◌, Mem,
  ◌==◌, if◌then◌else◌, eq→==, ne→==, arith,
}
use x.Prelude.Bits.{pow-pos}
use x.PageZone.Weight.{run, block, list, lists}

-- the weight that counts one page
abbrev pub once : ℕ → ℕ → ℕ
once u page = if page == u then 1 else 0

once_self : (u : ℕ) → once u u ≡ 1
once_self u = rw (eq→== u u refl)

once_other : (u page : ℕ) → page ≢ u → once u page ≡ 0
once_other u page n = rw (ne→== page u n)

pub run-once_before : (u page n : ℕ) → u < page → run (once u) page n ≡ 0
run-once_before u page zero h = refl
run-once_before u page (suc n) h = omega (
  arith,
  once_other u page (λ e. absurd (omega (arith, e, h))),
  run-once_before u (suc page) n (omega (arith, h)),
)

pub run-once_after : (u page n : ℕ) → page + n ≤ u → run (once u) page n ≡ 0
run-once_after u page zero h = refl
run-once_after u page (suc n) h = omega (
  arith,
  once_other u page (λ e. absurd (omega (arith, e, h))),
  run-once_after u (suc page) n (omega (arith, h)),
)

pub run-once : (u page n : ℕ) → page ≤ u → u < page + n → run (once u) page n ≡ 1
run-once u page zero h h' = absurd (omega (arith, h, h'))
run-once u page (suc n) h h' = elim (ℕ_discrete page u) [
  | yes e ↦
      omega (arith, ap (once u) e ∙ once_self u, run-once_before u (suc page) n (omega (arith, e)))
  | no m ↦ omega (
    arith,
    once_other u page m,
    run-once u (suc page) n (omega (arith, h, m)) (omega (arith, h')),
  )
]

pub block-once : (u order : ℕ) → block (once u) order u ≡ 1
block-once u order = run-once u u (2 ^ order) (omega arith) (omega (arith, pow-pos order))

list-once : (u order : ℕ) (pages : List ℕ) → Mem u pages → 1 ≤ list (once u) order pages
list-once u order [] m = absurd m
list-once u order (p ∷ pages) (inl e) =
    omega (arith, ap (block (once u) order) e, block-once u order)
list-once u order (p ∷ pages) (inr m) = omega (arith, list-once u order pages m)

-- A block in a list is counted.
pub lists-once :
    (u order : ℕ) (blocks : ℕ → List ℕ) (n : ℕ)
    → order < n
    → Mem u (blocks order)
    → 1 ≤ lists (once u) blocks n
lists-once u order blocks zero h m = absurd (omega arith)
lists-once u order blocks (suc n) h m = elim (ℕ_discrete order n) [
  | yes e ↦ omega (arith, list-once u n (blocks n) (subst (λ k. Mem u (blocks k)) e m))
  | no f ↦ omega (arith, lists-once u order blocks n (omega (arith, h, f)) m)
]
