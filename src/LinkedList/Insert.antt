-- ===== src/LinkedList/Insert.antt =====
-- Adding a node to a list, and removing one.
use x.Prelude.{
  ℕ, ◌≡◌, ◌≢◌, refl, sym, subst, ap, ◌∙◌, inl, inr, List, [], ◌∷◌, ◌++◌, Mem, Distinct, right_of,
  back-Distinct, halves_apart, Mem-widen, middle-Distinct, update, update_self, update_ne,
}
use mathlib.Core.List.{append-nil, append_assoc}
use x.LinkedList.{Links, add, insert_head, insert_tail, insert_before, insert_after, remove}
use x.LinkedList.Chain.{
  Open, Linked, last_or, first_or, IsList, parts, whole, last_or-Mem, rehead, around, to_first,
  to_last,
}
use x.LinkedList.Gap.{
  add-Linked, first_or-Mem, front_kept, grown-Distinct, grown-fresh, h_ys, p_ys, q_xs,
}

-- Adding a node that is not in a list between two neighbours puts it there in the sequence.
pub add_lem :
    (l : Links) (h n : ℕ) (xs ys : List ℕ)
    → IsList l h (xs ++ ys)
    → (¬ Mem n (h ∷ (xs ++ ys)))
    → IsList (add l (last_or h xs) (first_or ys h) n) h (xs ++ (n ∷ ys))
add_lem l h n xs ys r out = record {
  linked = add-Linked h xs ys r.fresh r.distinct l n out r.linked;
  fresh = grown-fresh h xs ys r.fresh r.distinct l n out r.linked;
  distinct = grown-Distinct h xs ys r.fresh r.distinct l n out r.linked;
}

-- What is left of `list_remove` of `x` when its links are known.
pub remove-shape :
    (l : Links) (x p q : ℕ)
    → l.prev x ≡ p
    → l.next x ≡ q
    → p ≢ x
    → remove l x ≡ record { prev = update l.prev q p; next = update l.next p q }
unfolding remove
remove-shape l x p q e f n =
    let stays : update l.next p q x ≡ q = update_ne l.next p x q n ∙ f in
    ap
      (λ v. record {
        prev = update l.prev (update l.next v (l.next x) x) v;
        next = update l.next v (l.next x);
      })
      e
    ∙ ap (λ v. record { prev = update l.prev (update l.next p v x) p; next = update l.next p v }) f
    ∙ ap (λ v. record { prev = update l.prev v p; next = update l.next p q }) stays

pub last_or-ne :
    (l : Links) (h x : ℕ) (xs ys : List ℕ) → IsList l h (xs ++ (x ∷ ys)) → last_or h xs ≢ x
last_or-ne l h x xs ys r e = elim (last_or-Mem h xs) [
  | inl same ↦ r.fresh (right_of h xs (x ∷ ys) (inl (sym (same ∙ e))))
  | inr m ↦ halves_apart xs (x ∷ ys) r.distinct x (subst (λ v. Mem v xs) e m) (inl refl)
]

pub first_or-ne :
    (l : Links) (h x : ℕ) (xs ys : List ℕ) → IsList l h (xs ++ (x ∷ ys)) → first_or ys h ≢ x
first_or-ne l h x xs ys r e = elim (first_or-Mem ys h) [
  | inr same ↦ r.fresh (right_of h xs (x ∷ ys) (inl (sym e ∙ same)))
  | inl m ↦ (back-Distinct xs (x ∷ ys) r.distinct).0 (subst (λ v. Mem v ys) e m)
]

-- Removing a node of a list takes it out of the sequence, and leaves the links of all but its two
-- neighbours alone, also its own.
pub remove_lem :
    (l : Links) (h x : ℕ) (xs ys : List ℕ)
    → IsList l h (xs ++ (x ∷ ys))
    → IsList (remove l x) h (xs ++ ys)
      × ((u : ℕ) → last_or h xs ≢ u → (remove l x).next u ≡ l.next u)
      × ((u : ℕ) → first_or ys h ≢ u → (remove l x).prev u ≡ l.prev u)
remove_lem l h x xs ys r =
    let fresh : ¬ Mem h (xs ++ ys) = λ m. r.fresh (Mem-widen h x xs ys m) in
    let d : Distinct (xs ++ ys) = middle-Distinct x xs ys r.distinct in
    let before : ℕ = last_or h xs in
    let after : ℕ = first_or ys h in
    let (e, f) = around l h x xs ys h r.linked in
    let p_x : before ≢ x = last_or-ne l h x xs ys r in
    let l' : Links = record {
      prev = update l.prev after before;
      next = update l.next before after;
    } in
    let shape : remove l x ≡ l' = remove-shape l x before after e f p_x in
    let (o, (edge, t)) = parts l h xs (x ∷ ys) h r.linked in
    let kept : (u : ℕ) → before ≢ u → l'.next u ≡ l.next u =
      λ u n. update_ne l.next before u after n in
    let kept' : (u : ℕ) → after ≢ u → l'.prev u ≡ l.prev u =
      λ u n. update_ne l.prev after u before n in
    let front : Open l' h xs =
      front_kept h xs ys fresh d l l' (λ u m n. kept u n)
        (λ u m. kept' u (q_xs h xs ys fresh d u m)) o in
    let back : Linked l' before ys h =
      rehead l l' x before ys h (update_self l.next before after, update_self l.prev after before)
        (λ u m. kept u (p_ys h xs ys fresh d u m)) (λ u m n. kept' u n) (λ n. kept' h n)
        (h_ys h xs ys fresh d) (back-Distinct xs ys d) t in
    let result : IsList l' h (xs ++ ys) = record {
      linked = whole l' h xs ys h front back;
      fresh = fresh;
      distinct = d;
    } in
    (
      subst (λ k. IsList k h (xs ++ ys)) (sym shape) result,
      (λ u n. ap (λ k. k.next u) shape ∙ kept u n),
      λ u n. ap (λ k. k.prev u) shape ∙ kept' u n,
    )

pub insert_head_lem :
    (l : Links) (h n : ℕ) (xs : List ℕ)
    → IsList l h xs
    → (¬ Mem n (h ∷ xs))
    → IsList (insert_head l h n) h (n ∷ xs)
unfolding insert_head
insert_head_lem l h n xs r out =
    subst (λ q. IsList (add l h q n) h (n ∷ xs)) (sym (to_first l h xs h r.linked))
      (add_lem l h n [] xs r out)

-- Appending to a list with the new node last in its sequence, and after or before a given node.
pub insert_tail_lem :
    (l : Links) (h n : ℕ) (xs : List ℕ)
    → IsList l h xs
    → (¬ Mem n (h ∷ xs))
    → IsList (insert_tail l h n) h (xs ++ (n ∷ []))
unfolding insert_tail
insert_tail_lem l h n xs r out =
    let all : xs ≡ xs ++ [] = sym (append-nil xs) in
    subst (λ p. IsList (add l p h n) h (xs ++ (n ∷ []))) (sym (to_last l h xs h r.linked))
      (add_lem l h n xs [] (subst (λ k. IsList l h k) all r) (subst (λ k. ¬ Mem n (h ∷ k)) all out))

pub insert_before_lem :
    (l : Links) (h n x : ℕ) (xs ys : List ℕ)
    → IsList l h (xs ++ (x ∷ ys))
    → (¬ Mem n (h ∷ (xs ++ (x ∷ ys))))
    → IsList (insert_before l n x) h (xs ++ (n ∷ x ∷ ys))
unfolding insert_before
insert_before_lem l h n x xs ys r out =
    let (e, f) = around l h x xs ys h r.linked in
    subst (λ p. IsList (add l p x n) h (xs ++ (n ∷ x ∷ ys))) (sym e)
      (add_lem l h n xs (x ∷ ys) r out)

last_or-snoc : (a x : ℕ) (xs : List ℕ) → last_or a (xs ++ (x ∷ [])) ≡ x
last_or-snoc a x [] = refl
last_or-snoc a x (v ∷ xs) = last_or-snoc v x xs

pub insert_after_lem :
    (l : Links) (h n x : ℕ) (xs ys : List ℕ)
    → IsList l h (xs ++ (x ∷ ys))
    → (¬ Mem n (h ∷ (xs ++ (x ∷ ys))))
    → IsList (insert_after l n x) h (xs ++ (x ∷ n ∷ ys))
unfolding insert_after
insert_after_lem l h n x xs ys r out =
    let (e, f) = around l h x xs ys h r.linked in
    let split : xs ++ (x ∷ ys) ≡ (xs ++ (x ∷ [])) ++ ys = sym (append_assoc xs (x ∷ []) ys) in
    let result : IsList (add l (last_or h (xs ++ (x ∷ []))) (first_or ys h) n) h
        ((xs ++ (x ∷ [])) ++ (n ∷ ys)) =
      add_lem l h n (xs ++ (x ∷ [])) ys (subst (λ k. IsList l h k) split r)
        (subst (λ k. ¬ Mem n (h ∷ k)) split out) in
    subst (λ k. IsList (add l x (l.next x) n) h k) (append_assoc xs (x ∷ []) (n ∷ ys))
      (subst (λ q. IsList (add l x q n) h ((xs ++ (x ∷ [])) ++ (n ∷ ys))) (sym f)
        (subst (λ p. IsList (add l p (first_or ys h) n) h ((xs ++ (x ∷ [])) ++ (n ∷ ys)))
          (last_or-snoc h x xs) result))

-- Before the first node after a gap, or before the head, is in the gap.
pub insert_before_gap :
    (l : Links) (h n : ℕ) (xs ys : List ℕ)
    → IsList l h (xs ++ ys)
    → (¬ Mem n (h ∷ (xs ++ ys)))
    → IsList (insert_before l n (first_or ys h)) h (xs ++ (n ∷ ys))
unfolding insert_before
insert_before_gap l h n xs ys r out =
    let (o, c) = parts l h xs ys h r.linked in
    subst (λ p. IsList (add l p (first_or ys h) n) h (xs ++ (n ∷ ys))) (sym (entered ys c))
      (add_lem l h n xs ys r out)
  where
    entered : (zs : List ℕ) → Linked l (last_or h xs) zs h → l.prev (first_or zs h) ≡ last_or h xs
    entered [] (e, e') = e'
    entered (z ∷ zs) ((e, e'), c) = e'
