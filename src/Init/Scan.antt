-- ===== src/Init/Scan.antt =====
-- The sort of the operations.
use native.Mathlib.Decide.{ℕ_discrete}
use x.Prelude.{
  ℕ, zero, suc, ◌+◌, ◌<◌, ◌≡◌, ◌≢◌, refl, sym, ap, subst, ◌∙◌, ◌⊎◌, inl, inr, List, [], ◌∷◌, some,
  length, Mem, Distinct, without, Mem-without, without-Mem, without-gone, without-Distinct,
  length-without, update, update_self, update_ne, arith,
}
use x.Init.{Dep, unlinked, pending, Sort, add_pending_op, scan}
use x.Init.Count.{times, parents, parents-without, parent-counts}
use x.Init.Visit.{IsVisiting, SameLists, visit_lem}

-- In the list, all operations that depend on one come after it.
abbrev pub Ordered : (ℕ → List Dep) → List ℕ → List ℕ → Type 0
Ordered deps section [] = Unit {0}
Ordered deps section (x ∷ ops) =
    ((p : ℕ) → Mem p section → times x (deps p) ≢ 0 → Mem p ops) × Ordered deps section ops

module _ (deps : ℕ → List Dep) (section : List ℕ)
    (closed : (p d : ℕ) → Mem p section → times d (deps p) ≢ 0 → Mem d section) where
  -- The operations of the section are to be visited yet or in the list, and those of the list have no
  -- parent that is to be visited.
  pub record IsScanning (unvisited : List ℕ) (s : Sort) : Type 0 where
    pub members : (x : ℕ) → Mem x section → Mem x unvisited ⊎ Mem x s.ops
    pub in_section : (x : ℕ) → Mem x unvisited ⊎ Mem x s.ops → Mem x section
    pub lengths : length unvisited + length s.ops ≡ length section
    pub distinct : Distinct unvisited
    pub distinct_ops : Distinct s.ops
    pub apart : (x : ℕ) → Mem x unvisited → ¬ Mem x s.ops
    pub visiting : IsVisiting (parents deps unvisited) [] unvisited s
    pub unlinked_states : (x : ℕ) → Mem x unvisited → s.states x ≡ unlinked
    pub pending_states : (x : ℕ) → Mem x s.ops → s.states x ≡ pending
    pub ordered : Ordered deps section s.ops
    pub childless : (x : ℕ) → Mem x s.ops → parents deps unvisited x ≡ 0
    pub size : s.size ≡ length s.ops

  module _ (unvisited : List ℕ) (s : Sort) (r : IsScanning unvisited s) (x : ℕ) (stack : List ℕ)
      (e : s.stack ≡ x ∷ stack) where
    x_unvisited : Mem x unvisited
    x_unvisited = (r.visiting.orphans x (subst (λ l. Mem x l) (sym e) (inl refl))).0

    x_orphan : parents deps unvisited x ≡ 0
    x_orphan = omega (
      arith,
      r.visiting.counts x,
      (r.visiting.orphans x (subst (λ l. Mem x l) (sym e) (inl refl))).1,
    )

    abbrev rest : List ℕ
    rest = without x unvisited

    fewer : (d : ℕ) → parents deps unvisited d ≡ times d (deps x) + parents deps rest d
    fewer d = parents-without deps x d unvisited x_unvisited

    abbrev s₁ : Sort
    s₁ = record s {
      stack = stack;
      states = update s.states x pending;
      ops = x ∷ s.ops;
      size = s.size + 1;
    }

    added : add_pending_op (record s { stack = stack }) x ≡ some s₁
    unfolding add_pending_op
    added = rw (r.unlinked_states x x_unvisited)

    stack-Distinct : Distinct (x ∷ stack)
    stack-Distinct = subst (λ l. Distinct l) e r.visiting.distinct

    start-IsVisiting : IsVisiting (parents deps rest) (deps x) rest s₁
    start-IsVisiting = record {
      counts = λ d. omega (arith, r.visiting.counts d, fewer d);
      distinct = stack-Distinct.1;
      orphans = λ d m.
          let (u, z) = r.visiting.orphans d (subst (λ l. Mem d l) (sym e) (inr m)) in
          (
            without-Mem x d unvisited (λ f. stack-Distinct.0 (subst (λ k. Mem k stack) (sym f) m))
                u,
            z,
          );
      complete = λ d m z.
          elim (subst (λ l. Mem d l) e (r.visiting.complete d (Mem-without x d unvisited m) z)) [
            | inl same ↦
                absurd (without-gone x unvisited r.distinct (subst (λ k. Mem k rest) (sym same) m))
            | inr m' ↦ m'
          ];
    }

    inside : (d : ℕ) → times d (deps x) ≢ 0 → Mem d rest
    inside d n = elim (r.members d (closed x d (r.in_section x (inl x_unvisited)) n)) [
      | inr m ↦
          absurd (n (omega (arith, r.childless d m, parent-counts deps x d unvisited x_unvisited)))
      | inl m ↦
          without-Mem x d unvisited
            (λ f. n (
              omega (
                arith,
                parent-counts deps x d unvisited x_unvisited,
                ap (λ k. parents deps unvisited k) (sym f),
                x_orphan,
              )))
            m
    ]

    x_fresh : ¬ Mem x s.ops
    x_fresh = r.apart x x_unvisited

    step-IsScanning :
        (s' : Sort)
        → IsVisiting (parents deps rest) [] rest s'
        → SameLists s₁ s'
        → IsScanning rest s'
    step-IsScanning s' v (states, ops, size) = record {
      members = λ y m. elim (r.members y m) [
        | inr o ↦ inr (subst (λ l. Mem y l) (sym ops) (inr o))
        | inl u ↦ elim (ℕ_discrete x y) [
          | yes same ↦ inr (subst (λ l. Mem y l) (sym ops) (inl same))
          | no n ↦ inl (without-Mem x y unvisited n u)
        ]
      ];
      in_section = λ y m. elim m [
        | inl u ↦ r.in_section y (inl (Mem-without x y unvisited u))
        | inr o ↦ elim (subst (λ l. Mem y l) ops o) [
          | inl same ↦ r.in_section y (inl (subst (λ k. Mem k unvisited) same x_unvisited))
          | inr o' ↦ r.in_section y (inr o')
        ]
      ];
      lengths = omega (arith, r.lengths, length-without x unvisited x_unvisited, ap length ops);
      distinct = without-Distinct x unvisited r.distinct;
      distinct_ops = subst (λ l. Distinct l) (sym ops) (x_fresh, r.distinct_ops);
      apart = λ y u o. elim (subst (λ l. Mem y l) ops o) [
        | inl same ↦ without-gone x unvisited r.distinct (subst (λ k. Mem k rest) (sym same) u)
        | inr o' ↦ r.apart y (Mem-without x y unvisited u) o'
      ];
      visiting = v;
      unlinked_states = λ y u.
          ap (λ f. f y) states
          ∙ update_ne s.states x y pending
              (λ f. without-gone x unvisited r.distinct (subst (λ k. Mem k rest) (sym f) u))
          ∙ r.unlinked_states y (Mem-without x y unvisited u);
      pending_states = λ y o. ap (λ f. f y) states ∙ elim (subst (λ l. Mem y l) ops o) [
        | inl same ↦ ap (update s.states x pending) (sym same) ∙ update_self s.states x pending
        | inr o' ↦
            update_ne s.states x y pending (λ f. x_fresh (subst (λ k. Mem k s.ops) (sym f) o'))
            ∙ r.pending_states y o'
      ];
      ordered =
          subst (λ l. Ordered deps section l) (sym ops)
            (
              (λ p m n. elim (r.members p m) [
                | inr o ↦ o
                | inl u ↦ absurd (n (omega (arith, parent-counts deps p x unvisited u, x_orphan)))
              ]),
              r.ordered,
            );
      childless = λ y o. elim (subst (λ l. Mem y l) ops o) [
        | inl same ↦ omega (arith, ap (λ k. parents deps rest k) (sym same), fewer x, x_orphan)
        | inr o' ↦ omega (arith, fewer y, r.childless y o')
      ];
      size = omega (arith, size, r.size, ap length ops);
    }

  -- With more fuel than operations to visit, the loop ends, and no assertion in it fails.
  pub scan_loop :
      (fuel : ℕ) (unvisited : List ℕ) (s : Sort)
      → IsScanning unvisited s
      → length unvisited < fuel
      → (left : List ℕ) × (s' : Sort) × (scan deps fuel s ≡ some s')
        × IsScanning left s'
        × (s'.stack ≡ [])
  unfolding scan
  scan_loop zero unvisited s r h = absurd (omega arith)
  scan_loop (suc fuel) unvisited s r h = elim (cases (s.stack)) [
    | inl e ↦ (unvisited, s, simp (e, scan), r, e)
    | inr (x, stack, e) ↦
        let (s', f, v, k) =
          visit_lem (parents deps (without x unvisited)) (without x unvisited) (deps x)
            (s₁ unvisited s r x stack e) (start-IsVisiting unvisited s r x stack e)
            (inside unvisited s r x stack e) in
        let next : IsScanning (without x unvisited) s' =
          step-IsScanning unvisited s r x stack e s' v k in
        let short : length (without x unvisited) < fuel =
          omega (arith, h, length-without x unvisited (x_unvisited unvisited s r x stack e)) in
        let (left, s'', g, r', done) = scan_loop fuel (without x unvisited) s' next short in
        (left, s'', rw (e, added unvisited s r x stack e, f, g, scan), r', done)
  ]
    where
      cases : (l : List ℕ) → (l ≡ []) ⊎ ((x : ℕ) × (xs : List ℕ) × (l ≡ x ∷ xs))
      cases [] = inl refl
      cases (x ∷ xs) = inr (x, xs, refl)
