-- ===== src/Init/Count.antt =====
-- How often operations depend on one another.
use native.Mathlib.Decide.{ℕ_discrete}
use x.Prelude.{
  ℕ, ◌+◌, ◌%◌, ◌<◌, ◌≤◌, ◌≡◌, ◌≢◌, refl, sym, ap, subst, ◌∙◌, inl, inr, Bool, List, [], ◌∷◌, some,
  ◌==◌, if◌then◌else◌, eq→==, ne→==, Mem, without, update, update_self, update_ne, arith,
}
use x.Init.{Dep, add_parents, bootstrap}

abbrev pub one_if : Bool → ℕ
one_if b = if b then 1 else 0

-- how often an operation is among dependencies, and among those of a list of operations
abbrev pub times : ℕ → List Dep → ℕ
times d [] = 0
times d (dep ∷ deps) = one_if (dep.op == d) + times d deps

abbrev pub parents : (ℕ → List Dep) → List ℕ → ℕ → ℕ
parents deps [] d = 0
parents deps (p ∷ ps) d = times d (deps p) + parents deps ps d

pub parents-without :
    (deps : ℕ → List Dep) (x d : ℕ) (ps : List ℕ)
    → Mem x ps
    → parents deps ps d ≡ times d (deps x) + parents deps (without x ps) d
parents-without deps x d [] m = absurd m
parents-without deps x d (p ∷ ps) m = elim (ℕ_discrete p x) [
  | yes e ↦ rw (eq→== p x e) (ap (λ t. times d (deps t) + parents deps ps d) e)
  | no n ↦
      rw (ne→== p x n)
        (omega (arith, parents-without deps x d ps (elim m [ inl e ↦ absurd (n e) | inr m' ↦ m' ])))
]

-- A parent counts.
pub parent-counts :
    (deps : ℕ → List Dep) (p d : ℕ) (ps : List ℕ) → Mem p ps → times d (deps p) ≤ parents deps ps d
parent-counts deps p d [] m = absurd m
parent-counts deps p d (q ∷ ps) (inl e) = omega (arith, ap (λ t. times d (deps t)) e)
parent-counts deps p d (q ∷ ps) (inr m) = omega (arith, parent-counts deps p d ps m)

pub some_parent :
    (deps : ℕ → List Dep) (d : ℕ) (ps : List ℕ)
    → parents deps ps d ≢ 0
    → (p : ℕ) × Mem p ps × (times d (deps p) ≢ 0)
some_parent deps d [] n = absurd (n refl)
some_parent deps d (p ∷ ps) n = elim (ℕ_discrete (times d (deps p)) 0) [
  | no f ↦ (p, inl refl, f)
  | yes e ↦ let (q, m, f) = some_parent deps d ps (λ g. n (omega (arith, e, g))) in (q, inr m, f)
]

-- Incrementing and decrementing a count at one operation.
pub times-head :
    (d : ℕ) (dep : Dep) (deps : List Dep) → dep.op ≡ d → times d (dep ∷ deps) ≡ 1 + times d deps
times-head d dep deps e = rw (eq→== (dep.op) d e)

pub times-other :
    (d : ℕ) (dep : Dep) (deps : List Dep) → dep.op ≢ d → times d (dep ∷ deps) ≡ times d deps
times-other d dep deps n = rw (ne→== (dep.op) d n) (omega arith)

-- The counts of an operation's dependencies go up by how often each is among them, when they fit.
add_parents_lem :
    (l : List Dep) (nr : ℕ → ℕ)
    → ((d : ℕ) → nr d + times d l < 256)
    → (nr' : ℕ → ℕ) × (add_parents l nr ≡ some nr') × ((d : ℕ) → nr' d ≡ nr d + times d l)
unfolding add_parents
add_parents_lem [] nr h = (nr, refl, λ d. omega arith)
add_parents_lem (dep ∷ l) nr h =
    let n : ℕ = (nr dep.op + 1) % 256 in
    let here : nr dep.op + (1 + times dep.op l) < 256 =
      subst (λ t. nr dep.op + t < 256) (times-head dep.op dep l refl) (h dep.op) in
    let up : n ≡ nr dep.op + 1 = omega (arith, here) in
    let nr₁ : ℕ → ℕ = update nr dep.op n in
    let step : (d : ℕ) → nr₁ d + times d l ≡ nr d + times d (dep ∷ l) = λ d.
      elim (ℕ_discrete (dep.op) d) [
        | yes e ↦
            omega
              (arith, ap nr₁ (sym e) ∙ update_self nr dep.op n, up, ap nr e, times-head d dep l e)
        | no f ↦ omega (arith, update_ne nr dep.op d n f, times-other d dep l f)
      ] in
    let (nr', e, f) = add_parents_lem l nr₁ (λ d. omega (arith, step d, h d)) in
    (nr', rw (e, ne→== n 0 (λ z. absurd (omega (arith, z, up)))), λ d. f d ∙ step d)

-- Starting from no parents, each operation gets as many as operations depend on it, when these are less
-- than 256.
bootstrap_from :
    (deps : ℕ → List Dep) (section : List ℕ) (nr : ℕ → ℕ)
    → ((d : ℕ) → nr d + parents deps section d < 256)
    → (nr' : ℕ → ℕ) × (bootstrap deps section nr ≡ some nr')
      × ((d : ℕ) → nr' d ≡ nr d + parents deps section d)
unfolding bootstrap
bootstrap_from deps [] nr h = (nr, refl, λ d. omega arith)
bootstrap_from deps (op ∷ section) nr h =
    let (nr₁, e, f) = add_parents_lem (deps op) nr (λ d. omega (arith, h d)) in
    let (nr', g, i) = bootstrap_from deps section nr₁ (λ d. omega (arith, h d, f d)) in
    (nr', rw (e, g, bootstrap), λ d. omega (arith, i d, f d))

pub bootstrap_lem :
    (deps : ℕ → List Dep) (section : List ℕ)
    → ((d : ℕ) → parents deps section d < 256)
    → (nr' : ℕ → ℕ) × (bootstrap deps section (λ op. 0) ≡ some nr')
      × ((d : ℕ) → nr' d ≡ parents deps section d)
bootstrap_lem deps section h =
    let (nr', e, f) = bootstrap_from deps section (λ op. 0) (λ d. omega (arith, h d)) in
    (nr', e, λ d. omega (arith, f d))
