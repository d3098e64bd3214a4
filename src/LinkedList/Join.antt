-- ===== src/LinkedList/Join.antt =====
-- Whole lists: made, concatenated, split, and moved to another head.
use mathlib.Core.List.{append-nil}
use x.Prelude.{
  ℕ, ◌≡◌, ◌≢◌, refl, sym, subst, ap, ◌∙◌, inl, inr, true, false, List, [], ◌∷◌, ◌++◌, Mem, Distinct,
  Mem-append, Distinct-append, update, update_self, update_ne, eq→==, ne→==,
}
use x.LinkedList.{Links, init, empty, concat, append, set_head, take_over}
use x.LinkedList.Chain.{
  Edge, Open, last_or, IsList, whole, close, unclose, Open-frame, Before-Mem, last_or-Mem,
  Before-last, to_first, to_last,
}

-- An initialised head is an empty list.
pub init-IsList : (l : Links) (h : ℕ) → IsList (init l h) h []
unfolding init
init-IsList l h = record {
  linked = (update_self l.next h h, update_self l.prev h h);
  fresh = λ m. m;
  distinct = tt;
}

pub empty-nil : (l : Links) (h : ℕ) → IsList l h [] → empty l h ≡ true
empty-nil l h r = eq→== h (l.next h) (sym (r.linked).0)

pub empty-cons : (l : Links) (h x : ℕ) (xs : List ℕ) → IsList l h (x ∷ xs) → empty l h ≡ false
empty-cons l h x xs r =
    ne→== h (l.next h) (λ e. r.fresh (inl (sym (e ∙ to_first l h (x ∷ xs) h r.linked))))

-- The chain of a list from its first node on, when only links around it change.
inside :
    (l l' : Links) (h x : ℕ) (xs : List ℕ)
    → IsList l h (x ∷ xs)
    → ((u : ℕ) → Mem u (x ∷ xs) → last_or x xs ≢ u → l'.next u ≡ l.next u)
    → ((u : ℕ) → Mem u xs → l'.prev u ≡ l.prev u)
    → Open l' x xs
inside l l' h x xs r n p =
    let ((e, o), f) = unclose l h (x ∷ xs) h r.linked in
    Open-frame l l' x xs (λ u m. n u (Before-Mem u x xs m) (Before-last u x xs r.distinct m)) p o

-- Concatenating two lists that share no node, nor their heads, puts the nodes of the second after
-- those of the first.
pub concat-IsList :
    (l : Links) (a b : ℕ) (xs ys : List ℕ)
    → IsList l a xs
    → IsList l b ys
    → ((u : ℕ) → Mem u (a ∷ xs) → ¬ Mem u (b ∷ ys))
    → IsList (concat l a b) a (xs ++ ys)
unfolding concat
concat-IsList l a b xs [] r s apart =
    rw (empty-nil l b s) (subst (λ k. IsList l a k) (sym (append-nil xs)) r)
concat-IsList l a b xs (y ∷ ys) r s apart =
    let p : ℕ = last_or a xs in
    let z : ℕ = last_or y ys in
    let l' : Links = append l a p y z in
    let p_in : Mem p (a ∷ xs) = last_or-Mem a xs in
    let z_in : Mem z (b ∷ y ∷ ys) = inr (last_or-Mem y ys) in
    let far : (u v : ℕ) → Mem u (a ∷ xs) → Mem v (b ∷ y ∷ ys) → v ≢ u =
      λ u v m m' e. apart u m (subst (λ w. Mem w (b ∷ y ∷ ys)) e m') in
    let (o, e) = unclose l a xs a r.linked in
    let head_d : Distinct (a ∷ xs) = (r.fresh, r.distinct) in
    let front : Open l' a xs =
      Open-frame l l' a xs
        (λ u m.
          update_ne (update l.next p y) z u a (far u z (Before-Mem u a xs m) z_in)
          ∙ update_ne l.next p u y (Before-last u a xs head_d m))
        (λ u m.
          update_ne (update l.prev y p) a u z (λ h. r.fresh (subst (λ w. Mem w xs) (sym h) m))
          ∙ update_ne l.prev y u p (far u y (inr m) (inr (inl refl))))
        o in
    let middle : Edge l' p y = (
      update_ne (update l.next p y) z p a (far p z p_in z_in) ∙ update_self l.next p y,
      update_ne (update l.prev y p) a y z (λ h. far a y (inl refl) (inr (inl refl)) (sym h))
          ∙ update_self l.prev y p,
    ) in
    let back : Open l' y ys =
      inside l l' b y ys s
        (λ u m n.
          update_ne (update l.next p y) z u a n
          ∙ update_ne l.next p u y (λ h. far p u p_in (inr m) (sym h)))
        (λ u m.
          update_ne (update l.prev y p) a u z (λ h. far a u (inl refl) (inr (inr m)) (sym h))
          ∙ update_ne l.prev y u p (λ h. (s.distinct).0 (subst (λ w. Mem w ys) (sym h) m))) in
    let end : Edge l' z a =
      (update_self (update l.next p y) z a, update_self (update l.prev y p) a z) in
    let shape : append l a (l.prev a) (l.next b) (l.prev b) ≡ l' =
      ap (λ v. append l a v (l.next b) (l.prev b)) (to_last l a xs a r.linked)
      ∙ ap (λ v. append l a p v (l.prev b)) (to_first l b (y ∷ ys) b s.linked)
      ∙ ap (λ v. append l a p y v) (to_last l b (y ∷ ys) b s.linked) in
    let result : IsList l' a (xs ++ (y ∷ ys)) = record {
      linked = whole l' a xs (y ∷ ys) a front (middle, close l' y ys a back end);
      fresh = λ m. elim (Mem-append a xs (y ∷ ys) m) [
        | inl i ↦ r.fresh i
        | inr i ↦ apart a (inl refl) (inr i)
      ];
      distinct =
          Distinct-append xs (y ∷ ys) r.distinct s.distinct (λ u m m'. apart u (inr m) (inr m'));
    } in
    rw (empty-cons l b y ys s) (subst (λ k. IsList k a (xs ++ (y ∷ ys))) (sym shape) result)

-- Moving a list to another head, which is not in it, keeps its nodes in order.
pub set_head_lem :
    (l : Links) (a b : ℕ) (xs : List ℕ)
    → IsList l b xs
    → (¬ Mem a (b ∷ xs))
    → IsList (set_head l a b) a xs
unfolding set_head
set_head_lem l a b [] r out = rw (empty-nil l b r) (init-IsList l a)
set_head_lem l a b (x ∷ xs) r out =
    let z : ℕ = last_or x xs in
    let l' : Links = record {
      next = update (update l.next a x) z a;
      prev = update (update l.prev a z) x a;
    } in
    let a_in : (u : ℕ) → Mem u (x ∷ xs) → a ≢ u =
      λ u m e. out (inr (subst (λ w. Mem w (x ∷ xs)) (sym e) m)) in
    let first : l.next b ≡ x = to_first l b (x ∷ xs) b r.linked in
    let last : l.prev b ≡ z = to_last l b (x ∷ xs) b r.linked in
    let z_a : update (update l.prev a z) x a a ≡ z =
      update_ne (update l.prev a z) x a a (λ e. a_in x (inl refl) (sym e))
      ∙ update_self l.prev a z in
    let x_a : update l.next a x a ≡ x = update_self l.next a x in
    let shape : take_over l a b ≡ l' =
      ap
        (λ v.
          let l₁ : Links = record { prev = update l.prev a v; next = update l.next a (l.next b) } in
          let l₂ : Links = record l₁ { prev = update l₁.prev (l₁.next a) a } in
          record l₂ { next = update l₂.next (l₂.prev a) a })
        last
      ∙ ap
          (λ v.
            let l₁ : Links = record { prev = update l.prev a z; next = update l.next a v } in
            let l₂ : Links = record l₁ { prev = update l₁.prev (l₁.next a) a } in
            record l₂ { next = update l₂.next (l₂.prev a) a })
          first
      ∙ ap
          (λ v.
            let l₂ : Links = record {
              prev = update (update l.prev a z) v a;
              next = update l.next a x;
            } in
            record l₂ { next = update l₂.next (l₂.prev a) a })
          x_a
      ∙ ap
          (λ v. record {
            prev = update (update l.prev a z) x a;
            next = update (update l.next a x) v a;
          })
          z_a in
    let z_in : Mem z (x ∷ xs) = last_or-Mem x xs in
    let start : Edge l' a x = (
      update_ne (update l.next a x) z a a (λ e. a_in z z_in (sym e)) ∙ x_a,
      update_self (update l.prev a z) x a,
    ) in
    let middle : Open l' x xs =
      inside l l' b x xs r
        (λ u m n. update_ne (update l.next a x) z u a n ∙ update_ne l.next a u x (a_in u m))
        (λ u m.
          update_ne (update l.prev a z) x u a
            (λ h. (r.distinct).0 (subst (λ w. Mem w xs) (sym h) m))
          ∙ update_ne l.prev a u z (a_in u (inr m))) in
    let end : Edge l' z a = (update_self (update l.next a x) z a, z_a) in
    let result : IsList l' a (x ∷ xs) = record {
      linked = (start, close l' x xs a middle end);
      fresh = λ m. a_in a m refl;
      distinct = r.distinct;
    } in
    rw (empty-cons l b x xs r) (subst (λ k. IsList k a (x ∷ xs)) (sym shape) result)
