-- ===== src/Init/Setup.antt =====
-- The whole initialisation.
use x.Prelude.{
  ℕ, zero, suc, ◌+◌, ◌<◌, ◌≤◌, ◌≡◌, ◌≢◌, refl, sym, ap, subst, ◌∙◌, ◌⊎◌, inl, inr, true, false,
  List, [], ◌∷◌, some, ◌==◌, if◌then◌else◌, eq→==, Bool-cases, length, Mem, Distinct, arith,
}
use x.Init.{Dep, unlinked, complete, Sort, scan_roots, scan_ops, Ran, setup, initial_error}
use x.Init.Count.{times, parents, some_parent, bootstrap_lem}
use x.Init.Scan.{IsScanning, scan_loop}
use x.Init.Run.{outcome, run_loop}

zero_of : (a : ℕ) → (a == 0) ≡ true → a ≡ 0
zero_of a e = ground arith

not_zero : (a : ℕ) → (a == 0) ≡ false → a ≢ 0
not_zero a e f = ground arith

-- The roots are the operations without parents, once each.
roots-Mem :
    (nr : ℕ → ℕ) (l stack : List ℕ) (d : ℕ)
    → Mem d (scan_roots nr l stack)
    → Mem d stack ⊎ (Mem d l × (nr d ≡ 0))
unfolding scan_roots
roots-Mem nr [] stack d m = inl m
roots-Mem nr (x ∷ l) stack d m = elim (Bool-cases (nr x == 0)) [
  | inl e ↦
      elim (roots-Mem nr l (x ∷ stack) d
        (subst (λ b. Mem d (scan_roots nr l (if b then x ∷ stack else stack))) e m)) [
          | inl (inl same) ↦ inr (inl same, ap nr (sym same) ∙ zero_of (nr x) e)
          | inl (inr m') ↦ inl m'
          | inr (m', z) ↦ inr (inr m', z)
        ]
  | inr e ↦
      elim (roots-Mem nr l stack d
        (subst (λ b. Mem d (scan_roots nr l (if b then x ∷ stack else stack))) e m)) [
          | inl m' ↦ inl m'
          | inr (m', z) ↦ inr (inr m', z)
        ]
]

roots_keep :
    (nr : ℕ → ℕ) (l stack : List ℕ) (d : ℕ)
    → Mem d stack ⊎ (Mem d l × (nr d ≡ 0))
    → Mem d (scan_roots nr l stack)
unfolding scan_roots
roots_keep nr [] stack d (inl m) = m
roots_keep nr [] stack d (inr (m, z)) = absurd m
roots_keep nr (x ∷ l) stack d m = elim (Bool-cases (nr x == 0)) [
  | inl e ↦
      subst (λ b. Mem d (scan_roots nr l (if b then x ∷ stack else stack))) (sym e)
        (roots_keep nr l (x ∷ stack) d (elim m [
          | inl m' ↦ inl (inr m')
          | inr (m', z) ↦ elim m' [ inl same ↦ inl (inl same) | inr m'' ↦ inr (m'', z) ]
        ]))
  | inr e ↦
      subst (λ b. Mem d (scan_roots nr l (if b then x ∷ stack else stack))) (sym e)
        (roots_keep nr l stack d (elim m [
          | inl m' ↦ inl m'
          | inr (m', z) ↦ elim m' [
            | inl same ↦ absurd (not_zero (nr x) e (ap nr same ∙ z))
            | inr m'' ↦ inr (m'', z)
          ]
        ]))
]

roots-Distinct :
    (nr : ℕ → ℕ) (l stack : List ℕ)
    → Distinct l
    → Distinct stack
    → ((d : ℕ) → Mem d l → ¬ Mem d stack)
    → Distinct (scan_roots nr l stack)
unfolding scan_roots
roots-Distinct nr [] stack p q apart = q
roots-Distinct nr (x ∷ l) stack (fresh, p) q apart = elim (Bool-cases (nr x == 0)) [
  | inl e ↦ rw e (
      roots-Distinct nr l (x ∷ stack) p (apart x (inl refl), q)
        (λ d m n. elim n [
          | inl same ↦ fresh (subst (λ k. Mem k l) (sym same) m)
          | inr n' ↦ apart d (inr m) n'
        ]))
  | inr e ↦ rw e (roots-Distinct nr l stack p q (λ d m. apart d (inr m)))
]

module _ (deps : ℕ → List Dep) (section : List ℕ) (distinct : Distinct section)
    (closed : (p d : ℕ) → Mem p section → times d (deps p) ≢ 0 → Mem d section) where
  module _ (nr : ℕ → ℕ) (counts : (d : ℕ) → nr d ≡ parents deps section d) where
    abbrev first : Sort
    first = record {
      nr_parents = nr;
      states = λ op. unlinked;
      stack = scan_roots nr section [];
      ops = [];
      size = 0;
    }

    first-IsScanning : IsScanning deps section closed section first
    first-IsScanning = record {
      members = λ x m. inl m;
      in_section = λ x m. elim m [ inl u ↦ u | inr o ↦ absurd o ];
      lengths = omega arith;
      distinct = distinct;
      distinct_ops = tt;
      apart = λ x m o. o;
      visiting = record {
        counts = λ d. omega (arith, counts d);
        distinct = roots-Distinct nr section [] distinct tt (λ d m n. n);
        orphans = λ d m. elim (roots-Mem nr section [] d m) [ inl n ↦ absurd n | inr o ↦ o ];
        complete = λ d m z. roots_keep nr section [] d (inr (m, z));
      };
      unlinked_states = λ x m. refl;
      pending_states = λ x o. absurd o;
      ordered = tt;
      childless = λ x o. absurd o;
      size = refl;
    }

  -- Where dependencies have a lower rank, the operations that are left when the stack is empty are none.
  module _ (rank : ℕ → ℕ) (bound : ℕ) (bounded : (x : ℕ) → Mem x section → rank x ≤ bound)
      (lower : (p d : ℕ) → Mem p section → times d (deps p) ≢ 0 → rank d < rank p) where
    none_left :
        (k : ℕ) (left : List ℕ) (s : Sort)
        → IsScanning deps section closed left s
        → s.stack ≡ []
        → (x : ℕ) → bound < rank x + k
        → ¬ Mem x left
    none_left zero left s r e x h m = absurd (omega (arith, h, bounded x (r.in_section x (inl m))))
    none_left (suc k) left s r e x h m =
        let has_parent : parents deps left x ≢ 0 = λ z.
          subst (λ l. Mem x l) e
            (r.visiting.complete x m (omega (arith, r.visiting.counts x, z))) in
        let (p, i, n) = some_parent deps x left has_parent in
        none_left k left s r e p (omega (arith, h, lower p x (r.in_section p (inl i)) n)) i

    all_sorted :
        (left : List ℕ) (s : Sort)
        → IsScanning deps section closed left s
        → s.stack ≡ []
        → (length s.ops ≡ length section) × ((x : ℕ) → Mem x section → Mem x s.ops)
    all_sorted left s r e =
        let none_in : (x : ℕ) → ¬ Mem x left =
          λ x. none_left (suc bound) left s r e x (omega arith) in
        (
          omega (arith, r.lengths, empty left none_in),
          λ x m. elim (r.members x m) [ inl u ↦ absurd (none_in x u) | inr o ↦ o ],
        )
      where
        empty : (l : List ℕ) → ((x : ℕ) → ¬ Mem x l) → length l ≡ 0
        empty [] h = refl
        empty (x ∷ l) h = absurd (h x (inl refl))

    -- Where the operations of the section stand in it once, depend only on operations of the section of
    -- a lower rank, and are depended on less than 256 times each, the initialisation ends without a
    -- failed assertion and without a halt. Each operation is complete then, and its error is that of its
    -- function if no dependency that it requires has an error, and
    -- EAGAIN otherwise.
    pub setup_lem :
        (fn : ℕ → ℕ)
        → ((d : ℕ) → parents deps section d < 256)
        → (r : Ran) × (setup deps fn section ≡ some r)
          × ((x : ℕ)
              → Mem x section
              → (r.states x ≡ complete) × (r.errors x ≡ outcome deps fn r.errors x))
    unfolding setup scan_ops
    setup_lem fn few =
        let (nr, e, counts) = bootstrap_lem deps section few in
        let (left, s, f, r, done) =
          scan_loop deps section closed (length section + 1) section (first nr counts)
            (first-IsScanning nr counts) (omega arith) in
        let (sorted, all) = all_sorted left s r done in
        let (ran, g, k) =
          run_loop deps fn section closed s.ops
            (record { states = s.states; errors = λ op. initial_error })
            (record {
              in_section = λ y m. r.in_section y (inr m);
              ordered = r.ordered;
              distinct = r.distinct_ops;
              waiting = λ y m. (r.pending_states y m, refl);
              done = λ y i out. absurd (out (all y i));
            }) in
        (
          ran,
          rw (e, f, eq→== (s.size) (length section) (r.size ∙ sorted), g),
          λ x m. let (c, o, apart) = k.done x m (λ n. n) in (c, o),
        )
