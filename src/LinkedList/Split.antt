-- ===== src/LinkedList/Split.antt =====
-- Splitting a list at a node.
use x.Prelude.{
  ℕ, ◌≡◌, ◌≢◌, refl, sym, subst, ap, ◌∙◌, inl, inr, List, [], ◌∷◌, ◌++◌, Mem, Distinct, left_of,
  right_of, front-Distinct, back-Distinct, halves_apart, update, update_self, update_ne, eq→==,
  ne→==,
}
use x.LinkedList.{Links, init, split, move_front}
use x.LinkedList.Chain.{
  Edge, Open, Linked, last_or, IsList, parts, close, Open-frame, Linked-frame, Before-Mem,
  last_or-Mem, Before-last, around, to_first,
}
use x.LinkedList.Join.{init-IsList, empty-cons}

-- The links after `list_split` when the first node `x`, the last node `p` before the given one `y`,
-- and the heads are known.
abbrev shape : Links → ℕ → ℕ → ℕ → ℕ → ℕ → Links
shape l a b x p y = record {
  next = update (update (update l.next a x) p a) b y;
  prev = update (update (update l.prev x a) a p) y b;
}

move_front-shape :
    (l : Links) (a b x p y : ℕ)
    → l.next b ≡ x
    → l.prev y ≡ p
    → x ≢ y
    → a ≢ y
    → move_front l a b y ≡ shape l a b x p y
move_front-shape l a b x p y first before x_y a_y =
    let x_a : update l.next a x a ≡ x = update_self l.next a x in
    let at_y : update l.prev x a y ≡ p = update_ne l.prev x y a x_y ∙ before in
    let still : update (update l.prev x a) a p y ≡ p =
      update_ne (update l.prev x a) a y p a_y ∙ at_y in
    ap
      (λ v.
        let l₁ : Links = record l { next = update l.next a v } in
        let l₂ : Links = record l₁ { prev = update l₁.prev (l₁.next a) a } in
        let l₃ : Links = record l₂ { prev = update l₂.prev a (l₂.prev y) } in
        record { next = update (update l₃.next (l₃.prev y) a) b y; prev = update l₃.prev y b })
      first
    ∙ ap
        (λ v.
          let l₂ : Links = record { next = update l.next a x; prev = update l.prev v a } in
          let l₃ : Links = record l₂ { prev = update l₂.prev a (l₂.prev y) } in
          record { next = update (update l₃.next (l₃.prev y) a) b y; prev = update l₃.prev y b })
        x_a
    ∙ ap
        (λ v.
          let l₃ : Links = record {
            next = update l.next a x;
            prev = update (update l.prev x a) a v;
          } in
          record { next = update (update l₃.next (l₃.prev y) a) b y; prev = update l₃.prev y b })
        at_y
    ∙ ap
        (λ v. record {
          next = update (update (update l.next a x) v a) b y;
          prev = update (update (update l.prev x a) a p) y b;
        })
        still

module _ (l : Links) (a b x y : ℕ) (xs ys : List ℕ) (r : IsList l b (x ∷ (xs ++ (y ∷ ys))))
    (out : ¬ Mem a (b ∷ x ∷ (xs ++ (y ∷ ys)))) where
  abbrev p : ℕ
  p = last_or x xs

  abbrev l' : Links
  l' = shape l a b x p y

  front_d : Distinct (x ∷ xs)
  front_d = front-Distinct (x ∷ xs) (y ∷ ys) r.distinct

  back_d : Distinct (y ∷ ys)
  back_d = back-Distinct (x ∷ xs) (y ∷ ys) r.distinct

  -- nodes before the given one, from it on, and the heads are apart
  sides : (u v : ℕ) → Mem u (x ∷ xs) → Mem v (y ∷ ys) → u ≢ v
  sides u v m m' e =
      halves_apart (x ∷ xs) (y ∷ ys) r.distinct u m (subst (λ w. Mem w (y ∷ ys)) (sym e) m')

  a_front : (u : ℕ) → Mem u (x ∷ xs) → a ≢ u
  a_front u m e = out (inr (left_of a (x ∷ xs) (y ∷ ys) (subst (λ w. Mem w (x ∷ xs)) (sym e) m)))

  a_back : (u : ℕ) → Mem u (y ∷ ys) → a ≢ u
  a_back u m e = out (inr (right_of a (x ∷ xs) (y ∷ ys) (subst (λ w. Mem w (y ∷ ys)) (sym e) m)))

  b_front : (u : ℕ) → Mem u (x ∷ xs) → b ≢ u
  b_front u m e = r.fresh (left_of b (x ∷ xs) (y ∷ ys) (subst (λ w. Mem w (x ∷ xs)) (sym e) m))

  b_back : (u : ℕ) → Mem u (y ∷ ys) → b ≢ u
  b_back u m e = r.fresh (right_of b (x ∷ xs) (y ∷ ys) (subst (λ w. Mem w (y ∷ ys)) (sym e) m))

  a_b : a ≢ b
  a_b e = out (inl (sym e))

  p_in : Mem p (x ∷ xs)
  p_in = last_or-Mem x xs

  split-next : (u : ℕ) → a ≢ u → p ≢ u → b ≢ u → l'.next u ≡ l.next u
  split-next u n m k =
      update_ne (update (update l.next a x) p a) b u y k
      ∙ update_ne (update l.next a x) p u a m
      ∙ update_ne l.next a u x n

  split-prev : (u : ℕ) → x ≢ u → a ≢ u → y ≢ u → l'.prev u ≡ l.prev u
  split-prev u n m k =
      update_ne (update (update l.prev x a) a p) y u b k
      ∙ update_ne (update l.prev x a) a u p m
      ∙ update_ne l.prev x u a n

  y_in : Mem y (y ∷ ys)
  y_in = inl refl

  x_in : Mem x (x ∷ xs)
  x_in = inl refl

  front-IsList : IsList l' a (x ∷ xs)
  front-IsList =
      let (o, t) = parts l b (x ∷ xs) (y ∷ ys) b r.linked in
      let start : Edge l' a x = (
        update_ne (update (update l.next a x) p a) b a y (λ e. a_b (sym e))
            ∙ update_ne (update l.next a x) p a a (λ e. a_front p p_in (sym e))
            ∙ update_self l.next a x,
        update_ne (update (update l.prev x a) a p) y x b (λ e. sides x y x_in y_in (sym e))
            ∙ update_ne (update l.prev x a) a x p (a_front x x_in)
            ∙ update_self l.prev x a,
      ) in
      let end : Edge l' p a = (
        update_ne (update (update l.next a x) p a) b p y (b_front p p_in)
            ∙ update_self (update l.next a x) p a,
        update_ne (update (update l.prev x a) a p) y a b (λ e. a_back y y_in (sym e))
            ∙ update_self (update l.prev x a) a p,
      ) in
      let middle : Open l' x xs =
        Open-frame l l' x xs
          (λ u m.
            split-next u (a_front u (Before-Mem u x xs m)) (Before-last u x xs front_d m)
              (b_front u (Before-Mem u x xs m)))
          (λ u m.
            split-prev u (λ e. front_d.0 (subst (λ w. Mem w xs) (sym e) m)) (a_front u (inr m))
              (λ e. sides u y (inr m) y_in (sym e)))
          o.1 in
      record {
        linked = (start, close l' x xs a middle end);
        fresh = λ m. a_front a m refl;
        distinct = front_d;
      }

  back-IsList : IsList l' b (y ∷ ys)
  back-IsList =
      let (o, t) = parts l b (x ∷ xs) (y ∷ ys) b r.linked in
      let start : Edge l' b y = (
        update_self (update (update l.next a x) p a) b y,
        update_self (update (update l.prev x a) a p) y b,
      ) in
      let rest : Linked l' y ys b =
        Linked-frame l l' y ys b (λ u m. split-next u (a_back u m) (sides p u p_in m) (b_back u m))
          (λ u m.
            split-prev u (sides x u x_in (inr m)) (a_back u (inr m))
              (λ e. back_d.0 (subst (λ w. Mem w ys) (sym e) m)))
          (split-prev b (λ e. b_front x x_in (sym e)) a_b (λ e. b_back y y_in (sym e))) t.1 in
      record { linked = (start, rest); fresh = λ m. b_back b m refl; distinct = back_d }

-- Splitting a list at one of its nodes leaves the nodes before it, in order, in the first list, whose
-- head was not in the second, and the others in the second.
pub split_lem :
    (l : Links) (a b y : ℕ) (xs ys : List ℕ)
    → IsList l b (xs ++ (y ∷ ys))
    → (¬ Mem a (b ∷ (xs ++ (y ∷ ys))))
    → IsList (split l a b y) a xs × IsList (split l a b y) b (y ∷ ys)
unfolding split init
split_lem l a b y [] ys r out =
    let first : l.next b ≡ y = to_first l b (y ∷ ys) b r.linked in
    let a_b : a ≢ b = λ e. out (inl (sym e)) in
    let a_in : (u : ℕ) → Mem u (y ∷ ys) → a ≢ u =
      λ u m e. out (inr (subst (λ w. Mem w (y ∷ ys)) (sym e) m)) in
    rw (empty-cons l b y ys r, eq→== (l.next b) y first)
      (
        init-IsList l a,
        record {
          linked =
              Linked-frame l (init l a) b (y ∷ ys) b
                (λ u m.
                  update_ne l.next a u a
                    (elim m [ inl e ↦ (λ f. a_b (f ∙ sym e)) | inr m' ↦ a_in u m' ]))
                (λ u m. update_ne l.prev a u a (a_in u m)) (update_ne l.prev a b a a_b) r.linked;
          fresh = r.fresh;
          distinct = r.distinct;
        },
      )
split_lem l a b y (x ∷ xs) ys r out =
    let first : l.next b ≡ x = to_first l b (x ∷ (xs ++ (y ∷ ys))) b r.linked in
    let x_y : x ≢ y = sides l a b x y xs ys r out x y (inl refl) (inl refl) in
    let b_y : b ≢ y = b_back l a b x y xs ys r out y (inl refl) in
    let a_y : a ≢ y = a_back l a b x y xs ys r out y (inl refl) in
    let (before, after) = around l b y (x ∷ xs) ys b r.linked in
    let changed : move_front l a b y ≡ shape l a b x (last_or x xs) y =
      move_front-shape l a b x (last_or x xs) y first before x_y a_y in
    rw
      (
        empty-cons l b x (xs ++ (y ∷ ys)) r,
        ne→== (l.next b) y (λ e. x_y (sym first ∙ e)),
        ne→== b y b_y,
      )
      (
        subst (λ k. IsList k a (x ∷ xs)) (sym changed) (front-IsList l a b x y xs ys r out),
        subst (λ k. IsList k b (y ∷ ys)) (sym changed) (back-IsList l a b x y xs ys r out),
      )
