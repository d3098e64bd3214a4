-- ===== src/Init/Run.antt =====
-- Running the sorted operations.
use native.Mathlib.Decide.{ℕ_discrete}
use x.Prelude.{
  ℕ, ◌≡◌, ◌≢◌, refl, sym, ap, ap₂, subst, ◌∙◌, inl, inr, Bool, true, false, not, ◌&&◌, List, [],
  ◌∷◌, some, ◌==◌, if◌then◌else◌, Bool-cases, Mem, Distinct, update, update_self, update_ne, arith,
}
use x.Init.{Dep, OpState, pending, complete, ready, Ran, run_op, run_ops, initial_error}
use x.Init.Count.{times, times-head}
use x.Init.Scan.{Ordered}

-- No required dependency has an error.
abbrev pub allowed : (ℕ → ℕ) → List Dep → Bool
allowed errors [] = true
allowed errors (dep ∷ deps) =
    if dep.required && not (errors dep.op == 0) then false else allowed errors deps

-- The error of an operation: that of its function, or the first one where it may not run.
abbrev pub outcome : (ℕ → List Dep) → (ℕ → ℕ) → (ℕ → ℕ) → ℕ → ℕ
outcome deps fn errors op = if allowed errors (deps op) then fn op else initial_error

later : (dep : Dep) (l : List Dep) (d : ℕ) → times d l ≢ 0 → times d (dep ∷ l) ≢ 0
later dep l d n e = n (omega (arith, e))

itself : (dep : Dep) (l : List Dep) → times dep.op (dep ∷ l) ≢ 0
itself dep l e = absurd (omega (arith, e, times-head dep.op dep l refl))

ready-allowed :
    (states : ℕ → OpState) (errors : ℕ → ℕ) (l : List Dep)
    → ((d : ℕ) → times d l ≢ 0 → states d ≡ complete)
    → ready states errors l ≡ allowed errors l
unfolding ready
ready-allowed states errors [] h = refl
ready-allowed states errors (dep ∷ l) h =
    let done : states dep.op ≡ complete = h dep.op (itself dep l) in
    rw done (
      ap (λ t. if dep.required && not (errors dep.op == 0) then false else t)
        (ready-allowed states errors l (λ d n. h d (later dep l d n))))

allowed-frame :
    (e e' : ℕ → ℕ) (l : List Dep)
    → ((d : ℕ) → times d l ≢ 0 → e' d ≡ e d)
    → allowed e' l ≡ allowed e l
allowed-frame e e' [] h = refl
allowed-frame e e' (dep ∷ l) h =
    ap₂ (λ a t. if dep.required && not (a == 0) then false else t) (h dep.op (itself dep l))
      (allowed-frame e e' l (λ d n. h d (later dep l d n)))

module _ (deps : ℕ → List Dep) (fn : ℕ → ℕ) (section : List ℕ)
    (closed : (p d : ℕ) → Mem p section → times d (deps p) ≢ 0 → Mem d section) where
  -- Those of `ops` are to be run, and the others are complete, with their dependencies.
  pub record IsRunning (ops : List ℕ) (r : Ran) : Type 0 where
    pub in_section : (y : ℕ) → Mem y ops → Mem y section
    pub ordered : Ordered deps section ops
    pub distinct : Distinct ops
    pub waiting : (y : ℕ) → Mem y ops → (r.states y ≡ pending) × (r.errors y ≡ initial_error)
    pub done :
        (y : ℕ)
        → Mem y section
        → (¬ Mem y ops)
        → (r.states y ≡ complete)
          × (r.errors y ≡ outcome deps fn r.errors y)
          × ((d : ℕ) → times d (deps y) ≢ 0 → ¬ Mem d ops)

  -- A dependency of the first is not among the operations to be run.
  before_first :
      (x : ℕ) (ops : List ℕ)
      → Ordered deps section ops
      → Mem x section
      → (¬ Mem x ops)
      → (d : ℕ) → times d (deps x) ≢ 0
      → ¬ Mem d ops
  before_first x [] o i fresh d n m = m
  before_first x (y ∷ ops) (after, o) i fresh d n (inl same) =
      fresh (inr (after x i (subst (λ k. times k (deps x) ≢ 0) (sym same) n)))
  before_first x (y ∷ ops) (after, o) i fresh d n (inr m) =
      before_first x ops o i (λ k. fresh (inr k)) d n m

  -- Running the first.
  module _ (x : ℕ) (ops : List ℕ) (r : Ran) (k : IsRunning (x ∷ ops) r) where
    x_in : Mem x section
    x_in = k.in_section x (inl refl)

    not_before : (d : ℕ) → times d (deps x) ≢ 0 → ¬ Mem d (x ∷ ops)
    not_before d n (inl same) =
        k.distinct.0 (k.ordered.0 x x_in (subst (λ j. times j (deps x) ≢ 0) (sym same) n))
    not_before d n (inr m) = before_first x ops (k.ordered.1) x_in (k.distinct.0) d n m

    dep_done : (d : ℕ) → times d (deps x) ≢ 0 → r.states d ≡ complete
    dep_done d n = (k.done d (closed x d x_in n) (not_before d n)).0

    abbrev r' : Ran
    r' = record {
      states = update r.states x complete;
      errors = if ready r.states r.errors (deps x) then update r.errors x (fn x) else r.errors;
    }

    ran : run_op deps fn r x ≡ some r'
    unfolding run_op
    ran = rw ((k.waiting x (inl refl)).0)

    error-other : (y : ℕ) → x ≢ y → r'.errors y ≡ r.errors y
    error-other y n = elim (Bool-cases (ready r.states r.errors (deps x))) [
      | inl e ↦ rw e (update_ne r.errors x y (fn x) n)
      | inr e ↦ rw e
    ]

    same_allowed :
        (y : ℕ)
        → ((d : ℕ) → times d (deps y) ≢ 0 → ¬ Mem d (x ∷ ops))
        → allowed r'.errors (deps y) ≡ allowed r.errors (deps y)
    same_allowed y h =
        allowed-frame r.errors r'.errors (deps y) (λ d n. error-other d (λ e. h d n (inl e)))

    error-first : r'.errors x ≡ outcome deps fn r'.errors x
    error-first =
        by_ready (ready r.states r.errors (deps x))
          (ready-allowed r.states r.errors (deps x) dep_done)
        ∙ ap (λ b. if b then fn x else initial_error) (sym (same_allowed x not_before))
      where
        by_ready :
            (b : Bool)
            → b ≡ allowed r.errors (deps x)
            → (if b then update r.errors x (fn x) else r.errors) x
              ≡ (if allowed r.errors (deps x) then fn x else initial_error)
        by_ready true e =
            update_self r.errors x (fn x) ∙ ap (λ b. if b then fn x else initial_error) e
        by_ready false e =
            (k.waiting x (inl refl)).1 ∙ ap (λ b. if b then fn x else initial_error) e

    run-IsRunning : IsRunning ops r'
    run-IsRunning = record {
      in_section = λ y m. k.in_section y (inr m);
      ordered = k.ordered.1;
      distinct = k.distinct.1;
      waiting = λ y m.
          let other : x ≢ y = λ e. k.distinct.0 (subst (λ j. Mem j ops) (sym e) m) in
          let (s, z) = k.waiting y (inr m) in
          (update_ne r.states x y complete other ∙ s, error-other y other ∙ z);
      done = λ y i out. elim (ℕ_discrete x y) [
        | yes same ↦
            subst
              (λ j.
                (r'.states j ≡ complete)
                × (r'.errors j ≡ outcome deps fn r'.errors j)
                × ((d : ℕ) → times d (deps j) ≢ 0 → ¬ Mem d ops))
              same (update_self r.states x complete, error-first, λ d n m. not_before d n (inr m))
        | no other ↦
            let (s, e, apart) = k.done y i (λ m. elim m [ inl f ↦ other f | inr m' ↦ out m' ]) in
            (
              update_ne r.states x y complete other ∙ s,
              error-other y other
                  ∙ e
                  ∙ ap (λ b. if b then fn y else initial_error) (sym (same_allowed y apart)),
              λ d n m. apart d n (inr m),
            )
      ];
    }

  pub run_loop :
      (ops : List ℕ) (r : Ran)
      → IsRunning ops r
      → (r' : Ran) × (run_ops deps fn ops r ≡ some r') × IsRunning [] r'
  unfolding run_ops
  run_loop [] r k = (r, refl, k)
  run_loop (x ∷ ops) r k =
      let (r₂, e, i) = run_loop ops (r' x ops r k) (run-IsRunning x ops r k) in
      (r₂, rw (ran x ops r k) e, i)
