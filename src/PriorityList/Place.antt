-- ===== src/PriorityList/Place.antt =====
-- The place of a node in a sorted sequence.
use x.Prelude.{
  ℕ, zero, suc, ◌<◌, ◌≤◌, ◌≡◌, ◌≢◌, refl, sym, subst, ◌∙◌, ◌⊎◌, inl, inr, true, false, some, List,
  [], ◌∷◌, ◌++◌, ltb, ltb→lt, if◌then◌else◌, Mem, length, Bool-cases, eq→==, ne→==, arith,
}
use x.LinkedList.Chain.{IsList, Linked, first_or}
use x.PriorityList.{Plists, search}

-- The nodes up to the first of a priority above `pr`, and those from it on.
abbrev pub front : (ℕ → ℕ) → ℕ → List ℕ → List ℕ
front priority pr [] = []
front priority pr (x ∷ xs) = if ltb pr (priority x) then [] else x ∷ front priority pr xs

abbrev pub back : (ℕ → ℕ) → ℕ → List ℕ → List ℕ
back priority pr [] = []
back priority pr (x ∷ xs) = if ltb pr (priority x) then x ∷ xs else back priority pr xs

abbrev pub Sorted : (ℕ → ℕ) → List ℕ → Type 0
Sorted priority [] = Unit {0}
Sorted priority (x ∷ xs) = ((u : ℕ) → Mem u xs → priority x ≤ priority u) × Sorted priority xs

pub front-append-back :
    (priority : ℕ → ℕ) (pr : ℕ) (xs : List ℕ) → front priority pr xs ++ back priority pr xs ≡ xs
front-append-back priority pr [] = refl
front-append-back priority pr (x ∷ xs) = elim (Bool-cases (ltb pr (priority x))) [
  | inl e ↦ rw e
  | inr e ↦ rw (e, front-append-back priority pr xs)
]

Mem-placed :
    (priority : ℕ → ℕ) (pr n u : ℕ) (xs : List ℕ)
    → Mem u (front priority pr xs ++ (n ∷ back priority pr xs))
    → (n ≡ u) ⊎ Mem u xs
Mem-placed priority pr n u [] (inl e) = inl e
Mem-placed priority pr n u [] (inr m) = inr m
Mem-placed priority pr n u (x ∷ xs) m = elim (Bool-cases (ltb pr (priority x))) [
  | inl e ↦
      subst
        (λ b.
          Mem u (
            (if b then [] else x ∷ front priority pr xs)
            ++ (n ∷ (if b then x ∷ xs else back priority pr xs)))
          → (n ≡ u) ⊎ Mem u (x ∷ xs))
        (sym e) (λ m'. m') m
  | inr e ↦
      subst
        (λ b.
          Mem u (
            (if b then [] else x ∷ front priority pr xs)
            ++ (n ∷ (if b then x ∷ xs else back priority pr xs)))
          → (n ≡ u) ⊎ Mem u (x ∷ xs))
        (sym e)
        (λ m'. elim m' [
          | inl same ↦ inr (inl same)
          | inr m'' ↦ elim (Mem-placed priority pr n u xs m'') [
            | inl same ↦ inl same
            | inr i ↦ inr (inr i)
          ]
        ])
        m
]

pub placed-Sorted :
    (priority : ℕ → ℕ) (n : ℕ) (xs : List ℕ)
    → Sorted priority xs
    → Sorted priority (front priority (priority n) xs ++ (n ∷ back priority (priority n) xs))
placed-Sorted priority n [] s = ((λ u m. absurd m), tt)
placed-Sorted priority n (x ∷ xs) (least, s) = elim (Bool-cases (ltb (priority n) (priority x))) [
  | inl e ↦
      let above : priority n < priority x = ltb→lt (priority n) (priority x) e in
      rw e (
        λ u m. elim m [
          | inl same ↦ subst (λ v. priority n ≤ priority v) same (omega arith)
          | inr i ↦ omega (arith, least u i)
        ],
        (least, s),
      )
  | inr e ↦
      let below : priority x ≤ priority n = not_above (priority n) (priority x) e in
      rw e (
        λ u m. elim (Mem-placed priority (priority n) n u xs m) [
          | inl same ↦ subst (λ v. priority x ≤ priority v) same below
          | inr i ↦ least u i
        ],
        placed-Sorted priority n xs s,
      )
]
  where
    not_above : (a b : ℕ) → ltb a b ≡ false → b ≤ a
    not_above a b e = ground arith

search-end : (k : ℕ) (s : Plists) (h pr : ℕ) → search (suc k) s h pr h ≡ some h
unfolding search
search-end k s h pr = rw (eq→== h h refl, search)

search-hit :
    (k : ℕ) (s : Plists) (h pr x : ℕ)
    → h ≢ x
    → ltb pr (s.priority x) ≡ true
    → search (suc k) s h pr x ≡ some x
unfolding search
search-hit k s h pr x n e = rw (ne→== h x n, search, e)

search-miss :
    (k : ℕ) (s : Plists) (h pr x : ℕ)
    → h ≢ x
    → ltb pr (s.priority x) ≡ false
    → search (suc k) s h pr x ≡ search k s h pr (s.prio_nodes.next x)
unfolding search
search-miss k s h pr x n e = rw (ne→== h x n, search, e)

-- With more fuel than nodes, the loop ends at the first node of a higher priority, or at the end.
search_from :
    (k : ℕ) (s : Plists) (h pr a : ℕ) (xs : List ℕ)
    → Linked s.prio_nodes a xs h
    → (¬ Mem h xs)
    → length xs < k
    → search k s h pr (s.prio_nodes.next a) ≡ some (first_or (back s.priority pr xs) h)
search_from zero s h pr a xs c fresh fuel = absurd (omega arith)
search_from (suc k) s h pr a [] (e, e') fresh fuel = rw e (search-end k s h pr)
search_from (suc k) s h pr a (x ∷ xs) ((e, e'), c) fresh fuel =
    let n : h ≢ x = λ f. fresh (inl (sym f)) in
    elim (Bool-cases (ltb pr (s.priority x))) [
      | inl b ↦ rw (e, b) (search-hit k s h pr x n b)
      | inr b ↦
          rw (e, b)
            (search-miss k s h pr x n b
              ∙ search_from k s h pr x xs c (λ m. fresh (inr m)) (omega arith))
    ]

pub search_lem :
    (k : ℕ) (s : Plists) (h pr : ℕ) (xs : List ℕ)
    → IsList s.prio_nodes h xs
    → length xs < k
    → search k s h pr (s.prio_nodes.next h) ≡ some (first_or (back s.priority pr xs) h)
search_lem k s h pr xs r fuel = search_from k s h pr h xs r.linked r.fresh fuel
