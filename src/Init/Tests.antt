-- ===== src/Init/Tests.antt =====
-- Two operations, of which the first requires the second.
use x.Prelude.{
  ℕ, ◌+◌, ◌<◌, ◌≤◌, ◌≡◌, ◌≢◌, refl, sym, subst, inl, inr, true, Bool-cases, List, [], ◌∷◌, some,
  ◌>>=◌, ◌==◌, if◌then◌else◌, Mem, Distinct, arith,
}
use x.Init.{
  Dep, complete, Ran, setup, bootstrap, add_parents, scan_ops, scan, scan_roots, add_pending_op,
  visit, run_ops, run_op, ready, initial_error,
}
use x.Init.Count.{times, parents, one_if}
use x.Init.Run.{outcome}
use x.Init.Setup.{setup_lem}

abbrev deps : ℕ → List Dep
deps op = if op == 1 then record { op = 2; required = true } ∷ [] else []

abbrev section_ops : List ℕ
section_ops = 1 ∷ 2 ∷ []

distinct : Distinct section_ops
distinct = ((λ m. elim m [ inl e ↦ omega (arith, e) | inr bad ↦ bad ]), ((λ bad. bad), tt))

second : (d : ℕ) → one_if (2 == d) + 0 ≢ 0 → 2 ≡ d
second d n = elim (Bool-cases (2 == d)) [
  | inl e ↦ same 2 d e
  | inr e ↦ absurd (n (subst (λ b. one_if b + 0 ≡ 0) (sym e) refl))
]
  where
    same : (a b : ℕ) → (a == b) ≡ true → a ≡ b
    same a b e = ground arith

dep_of : (p d : ℕ) → Mem p section_ops → times d (deps p) ≢ 0 → (1 ≡ p) × (2 ≡ d)
dep_of p d (inl e) n = (e, second d (subst (λ k. times d (deps k) ≢ 0) (sym e) n))
dep_of p d (inr (inl e)) n = absurd (subst (λ k. times d (deps k) ≢ 0) (sym e) n refl)
dep_of p d (inr (inr bad)) n = absurd bad

few : (d : ℕ) → parents deps section_ops d < 256
few d = elim (Bool-cases (2 == d)) [
  | inl e ↦ subst (λ b. one_if b + 0 + (0 + 0) < 256) (sym e) (omega arith)
  | inr e ↦ subst (λ b. one_if b + 0 + (0 + 0) < 256) (sym e) (omega arith)
]

abbrev fails : ℕ → ℕ
fails op = op + 3

-- The second operation fails, so the first keeps the error that it has from the start.
first_waits : (setup deps fails section_ops >>= λ r. some (r.errors 1)) ≡ some initial_error
unfolding setup bootstrap add_parents scan_ops scan scan_roots add_pending_op visit run_ops run_op
    ready
first_waits = refl

setup_lem_example :
    (r : Ran) × (setup deps fails section_ops ≡ some r)
    × ((x : ℕ)
        → Mem x section_ops
        → (r.states x ≡ complete) × (r.errors x ≡ outcome deps fails r.errors x))
setup_lem_example = setup_lem deps section_ops distinct closed rank 1 bounded lower fails few
  where
    rank : ℕ → ℕ
    rank op = if op == 1 then 1 else 0

    closed : (p d : ℕ) → Mem p section_ops → times d (deps p) ≢ 0 → Mem d section_ops
    closed p d m n = inr (inl ((dep_of p d m n).1))

    bounded : (x : ℕ) → Mem x section_ops → rank x ≤ 1
    bounded x m = elim (Bool-cases (x == 1)) [
      | inl e ↦ subst (λ b. (if b then 1 else 0) ≤ 1) (sym e) (omega arith)
      | inr e ↦ subst (λ b. (if b then 1 else 0) ≤ 1) (sym e) (omega arith)
    ]

    lower : (p d : ℕ) → Mem p section_ops → times d (deps p) ≢ 0 → rank d < rank p
    lower p d m n =
        let (e, f) = dep_of p d m n in
        subst (λ k. rank k < rank p) f (subst (λ k. 0 < rank k) e (omega arith))
