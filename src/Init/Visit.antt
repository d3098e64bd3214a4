-- ===== src/Init/Visit.antt =====
-- Visiting an operation: its dependencies lose a parent.
use native.Mathlib.Decide.{ℕ_discrete}
use x.Prelude.{
  ℕ, ◌+◌, ◌-◌, ◌≡◌, ◌≢◌, refl, sym, ap, subst, ◌∙◌, inl, inr, true, false, List, [], ◌∷◌, some,
  ◌==◌, ne→==, Bool-cases, Mem, Distinct, update_self, update_ne, arith,
}
use x.Init.{Dep, Sort, visit, drop_parent}
use x.Init.Count.{times, times-head, times-other}

-- The parents that are left are those of a function of operations and the dependencies yet to visit,
-- and the stack has the operations of a list that have none.
pub record IsVisiting (others : ℕ → ℕ) (left : List Dep) (unvisited : List ℕ) (s : Sort)
    : Type 0 where
  pub counts : (d : ℕ) → s.nr_parents d ≡ others d + times d left
  pub distinct : Distinct s.stack
  pub orphans : (d : ℕ) → Mem d s.stack → Mem d unvisited × (s.nr_parents d ≡ 0)
  pub complete : (d : ℕ) → Mem d unvisited → s.nr_parents d ≡ 0 → Mem d s.stack

-- What a visit leaves alone
abbrev pub SameLists : Sort → Sort → Type 0
SameLists s s' = (s'.states ≡ s.states) × (s'.ops ≡ s.ops) × (s'.size ≡ s.size)

module _ (others : ℕ → ℕ) (unvisited : List ℕ) (dep : Dep) (left : List Dep) (s : Sort)
    (r : IsVisiting others (dep ∷ left) unvisited s) (there : Mem dep.op unvisited) where
  abbrev d₀ : ℕ
  d₀ = dep.op

  abbrev s' : Sort
  s' = drop_parent s d₀

  some_left : s.nr_parents d₀ ≢ 0
  some_left e = absurd (omega (arith, e, r.counts d₀, times-head d₀ dep left refl))

  here-count : s'.nr_parents d₀ ≡ s.nr_parents d₀ - 1
  here-count = update_self s.nr_parents d₀ (s.nr_parents d₀ - 1)

  other-count : (d : ℕ) → d₀ ≢ d → s'.nr_parents d ≡ s.nr_parents d
  other-count d n = update_ne s.nr_parents d₀ d (s.nr_parents d₀ - 1) n

  new-counts : (d : ℕ) → s'.nr_parents d ≡ others d + times d left
  new-counts d = elim (ℕ_discrete d₀ d) [
    | yes e ↦
        subst (λ k. s'.nr_parents k ≡ others k + times k left) e
          (omega (arith, here-count, r.counts d₀, times-head d₀ dep left refl))
    | no n ↦ omega (arith, other-count d n, r.counts d, times-other d dep left n)
  ]

  drop-IsVisiting : IsVisiting others left unvisited s'
  drop-IsVisiting = elim (Bool-cases (s.nr_parents d₀ - 1 == 0)) [
    | inl e ↦
        let gone : s'.nr_parents d₀ ≡ 0 = here-count ∙ zero_of (s.nr_parents d₀ - 1) e in
        let stack : s'.stack ≡ d₀ ∷ s.stack = rw e in
        record {
          counts = new-counts;
          distinct =
              subst (λ l. Distinct l) (sym stack)
                ((λ m. some_left ((r.orphans d₀ m).1)), r.distinct);
          orphans = λ d m. elim (subst (λ l. Mem d l) stack m) [
            | inl same ↦ (
              subst (λ k. Mem k unvisited) same there,
              subst (λ k. s'.nr_parents k ≡ 0) same gone,
            )
            | inr m' ↦ kept d m'
          ];
          complete = λ d m z.
              subst (λ l. Mem d l) (sym stack)
                (elim (ℕ_discrete d₀ d) [
                  | yes same ↦ inl same
                  | no n ↦ inr (r.complete d m (sym (other-count d n) ∙ z))
                ]);
        }
    | inr e ↦
        let stack : s'.stack ≡ s.stack = rw e in
        record {
          counts = new-counts;
          distinct = subst (λ l. Distinct l) (sym stack) r.distinct;
          orphans = λ d m. kept d (subst (λ l. Mem d l) stack m);
          complete = λ d m z.
              subst (λ l. Mem d l) (sym stack)
                (elim (ℕ_discrete d₀ d) [
                  | yes same ↦ absurd (
                      not_zero (s.nr_parents d₀ - 1) e
                        (sym here-count ∙ ap (λ k. s'.nr_parents k) same ∙ z))
                  | no n ↦ r.complete d m (sym (other-count d n) ∙ z)
                ]);
        }
  ]
    where
      zero_of : (a : ℕ) → (a == 0) ≡ true → a ≡ 0
      zero_of a e = ground arith

      not_zero : (a : ℕ) → (a == 0) ≡ false → a ≢ 0
      not_zero a e f = ground arith

      kept : (d : ℕ) → Mem d s.stack → Mem d unvisited × (s'.nr_parents d ≡ 0)
      kept d m =
          let (u, z) = r.orphans d m in
          (u, other-count d (λ e. some_left (ap (λ k. s.nr_parents k) e ∙ z)) ∙ z)

-- No assertion fails in a visit of dependencies that are in the list.
pub visit_lem :
    (others : ℕ → ℕ) (unvisited : List ℕ) (left : List Dep) (s : Sort)
    → IsVisiting others left unvisited s
    → ((d : ℕ) → times d left ≢ 0 → Mem d unvisited)
    → (s' : Sort) × (visit left s ≡ some s') × IsVisiting others [] unvisited s' × SameLists s s'
unfolding visit
visit_lem others unvisited [] s r inside = (s, refl, r, (refl, refl, refl))
visit_lem others unvisited (dep ∷ left) s r inside =
    let there : Mem dep.op unvisited =
      inside dep.op (λ e. absurd (omega (arith, e, times-head dep.op dep left refl))) in
    let (s', e, r', k) =
      visit_lem others unvisited left (drop_parent s dep.op)
        (drop-IsVisiting others unvisited dep left s r there)
        (λ d n. inside d (λ z. n (more d z))) in
    (
      s',
      rw (ne→== (s.nr_parents dep.op) 0 (some_left others unvisited dep left s r there)) e,
      r',
      k,
    )
  where
    more : (d : ℕ) → times d (dep ∷ left) ≡ 0 → times d left ≡ 0
    more d z = omega (arith, z)
