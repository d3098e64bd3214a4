-- ===== src/LinkedList/Gap.antt =====
-- The gap between two neighbours in a list, and a node that is put there.
use x.Prelude.{
  ℕ, ◌≡◌, ◌≢◌, refl, sym, subst, ◌∙◌, ◌⊎◌, inl, inr, List, [], ◌∷◌, ◌++◌, Mem, Distinct, Mem-append,
  Distinct-append, left_of, right_of, front-Distinct, back-Distinct, halves_apart, update,
  update_self, update_ne,
}
use x.LinkedList.{Links, add}
use x.LinkedList.Chain.{
  Edge, Open, Linked, last_or, first_or, parts, whole, Open-frame, Before-Mem, last_or-Mem,
  Before-last, rehead,
}

pub first_or-Mem : (ys : List ℕ) (b : ℕ) → Mem (first_or ys b) ys ⊎ (first_or ys b ≡ b)
first_or-Mem [] b = inr refl
first_or-Mem (y ∷ ys) b = inl (inl refl)

-- The places around the gap between `xs` and `ys` in a list of head `h`.
module _ (h : ℕ) (xs ys : List ℕ) (fresh : ¬ Mem h (xs ++ ys)) (d : Distinct (xs ++ ys)) where
  abbrev p : ℕ
  p = last_or h xs

  abbrev q : ℕ
  q = first_or ys h

  h_xs : ¬ Mem h xs
  h_xs m = fresh (left_of h xs ys m)

  pub h_ys : ¬ Mem h ys
  h_ys m = fresh (right_of h xs ys m)

  head-Distinct : Distinct (h ∷ xs)
  head-Distinct = (h_xs, front-Distinct xs ys d)

  -- the node before the gap is not after it, and the node after it is not before
  pub p_ys : (u : ℕ) → Mem u ys → p ≢ u
  p_ys u m e = elim (last_or-Mem h xs) [
    | inl same ↦ h_ys (subst (λ v. Mem v ys) (sym (same ∙ e)) m)
    | inr m' ↦ halves_apart xs ys d p m' (subst (λ v. Mem v ys) (sym e) m)
  ]

  pub q_xs : (u : ℕ) → Mem u xs → q ≢ u
  q_xs u m e = elim (first_or-Mem ys h) [
    | inl m' ↦ halves_apart xs ys d u m (subst (λ v. Mem v ys) e m')
    | inr same ↦ h_xs (subst (λ v. Mem v xs) (sym e ∙ same) m)
  ]

  -- The part before the gap, where the links change at the gap and at a node that is not in the list.
  pub front_kept :
      (l l' : Links)
      → ((u : ℕ) → Mem u (h ∷ xs) → p ≢ u → l'.next u ≡ l.next u)
      → ((u : ℕ) → Mem u xs → l'.prev u ≡ l.prev u)
      → Open l h xs
      → Open l' h xs
  front_kept l l' n k o =
      Open-frame l l' h xs (λ u m. n u (Before-Mem u h xs m) (Before-last u h xs head-Distinct m)) k
        o

  module _ (l : Links) (n : ℕ) (out : ¬ Mem n (h ∷ (xs ++ ys))) (c : Linked l h (xs ++ ys) h) where
    abbrev l' : Links
    l' = add l p q n

    n_h : n ≢ h
    n_h e = out (inl (sym e))

    n_xs : (u : ℕ) → Mem u xs → n ≢ u
    n_xs u m e = out (inr (left_of n xs ys (subst (λ v. Mem v xs) (sym e) m)))

    n_ys : (u : ℕ) → Mem u ys → n ≢ u
    n_ys u m e = out (inr (right_of n xs ys (subst (λ v. Mem v ys) (sym e) m)))

    n_p : n ≢ p
    n_p e = elim (last_or-Mem h xs) [ inl same ↦ n_h (e ∙ sym same) | inr m ↦ n_xs p m e ]

    n_q : n ≢ q
    n_q e = elim (first_or-Mem ys h) [ inl m ↦ n_ys q m e | inr same ↦ n_h (e ∙ same) ]

    add-next : (u : ℕ) → p ≢ u → n ≢ u → l'.next u ≡ l.next u
    unfolding add
    add-next u a b = update_ne (update l.next n q) p u n a ∙ update_ne l.next n u q b

    add-prev : (u : ℕ) → q ≢ u → n ≢ u → l'.prev u ≡ l.prev u
    unfolding add
    add-prev u a b = update_ne (update l.prev q n) n u p b ∙ update_ne l.prev q u n a

    into : Edge l' p n
    unfolding add
    into = (update_self (update l.next n q) p n, update_self (update l.prev q n) n p)

    onto : Edge l' n q
    unfolding add
    onto = (
      update_ne (update l.next n q) p n n (λ e. n_p (sym e)) ∙ update_self l.next n q,
      update_ne (update l.prev q n) n q p n_q ∙ update_self l.prev q n,
    )

    pub add-Linked : Linked l' h (xs ++ (n ∷ ys)) h
    add-Linked =
        let (o, t) = parts l h xs ys h c in
        let front : Open l' h xs =
          front_kept l l'
            (λ u m a. add-next u a (elim m [ inl e ↦ (λ f. n_h (f ∙ sym e)) | inr m' ↦ n_xs u m' ]))
            (λ u m. add-prev u (q_xs u m) (n_xs u m)) o in
        let back : Linked l' n ys h =
          rehead l l' p n ys h onto (λ u m. add-next u (p_ys u m) (n_ys u m))
            (λ u m a. add-prev u a (n_ys u m)) (λ a. add-prev h a n_h) h_ys (back-Distinct xs ys d)
            t in
        whole l' h xs (n ∷ ys) h front (into, back)

    pub grown-Distinct : Distinct (xs ++ (n ∷ ys))
    grown-Distinct =
        Distinct-append xs (n ∷ ys) (front-Distinct xs ys d)
          ((λ m. n_ys n m refl), back-Distinct xs ys d)
          (λ u m m'. elim m' [ inl e ↦ n_xs u m e | inr m'' ↦ halves_apart xs ys d u m m'' ])

    pub grown-fresh : ¬ Mem h (xs ++ (n ∷ ys))
    grown-fresh m = elim (Mem-append h xs (n ∷ ys) m) [
      | inl a ↦ h_xs a
      | inr (inl e) ↦ n_h e
      | inr (inr a) ↦ h_ys a
    ]
