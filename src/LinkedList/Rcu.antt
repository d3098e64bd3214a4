-- ===== src/LinkedList/Rcu.antt =====
-- Readers that follow the `next` links of a list while a node is added to it or removed from it.
use native.Mathlib.Decide.{ℕ_discrete}
use x.Prelude.{
  ℕ, ◌≡◌, ◌≢◌, refl, sym, subst, ap, ◌∙◌, inl, inr, List, [], ◌∷◌, ◌++◌, Mem, Mem-widen, right_of,
  middle-Distinct, update, update_self, update_ne,
}
use x.LinkedList.{Links, add, rcu_add, rcu_remove, set_next, set_prev}
use x.LinkedList.Chain.{Linked, Linked-frame, last_or, first_or, IsList, around}
use x.LinkedList.Gap.{p_ys, first_or-Mem}
use x.LinkedList.Insert.{add_lem, remove_lem, remove-shape, last_or-ne, first_or-ne}

-- A reader that starts at `a` sees the nodes of `xs`, in order, then `b`.
abbrev pub Reads : Links → ℕ → List ℕ → ℕ → Type 0
Reads l a [] b = l.next a ≡ b
Reads l a (x ∷ xs) b = (l.next a ≡ x) × Reads l x xs b

reads : (l : Links) (a : ℕ) (xs : List ℕ) (b : ℕ) → Linked l a xs b → Reads l a xs b
reads l a [] b (e, e') = e
reads l a (x ∷ xs) b ((e, e'), c) = (e, reads l x xs b c)

Reads-frame :
    (l l' : Links) (a : ℕ) (xs : List ℕ) (b : ℕ)
    → ((u : ℕ) → Mem u (a ∷ xs) → l'.next u ≡ l.next u)
    → Reads l a xs b
    → Reads l' a xs b
Reads-frame l l' a [] b n e = n a (inl refl) ∙ e
Reads-frame l l' a (x ∷ xs) b n (e, c) =
    (n a (inl refl) ∙ e, Reads-frame l l' x xs b (λ u m. n u (inr m)) c)

IsList-same :
    (l l' : Links) (h : ℕ) (xs : List ℕ)
    → ((u : ℕ) → l'.next u ≡ l.next u)
    → ((u : ℕ) → l'.prev u ≡ l.prev u)
    → IsList l h xs
    → IsList l' h xs
IsList-same l l' h xs n p r = record {
  linked = Linked-frame l l' h xs h (λ u m. n u) (λ u m. p u) (p h) r.linked;
  fresh = r.fresh;
  distinct = r.distinct;
}

swap_updates :
    (f : ℕ → ℕ) (a b v w u : ℕ) → a ≢ b → update (update f a v) b w u ≡ update (update f b w) a v u
swap_updates f a b v w u n = elim (ℕ_discrete a u) [
  | yes e ↦
      update_ne (update f a v) b u w (λ h. n (e ∙ sym h))
      ∙ subst (λ k. update f a v k ≡ update (update f b w) a v k) e
          (update_self f a v ∙ sym (update_self (update f b w) a v))
  | no m ↦ elim (ℕ_discrete b u) [
    | yes e ↦
        subst (λ k. update (update f a v) b w k ≡ update f b w k) e
          (update_self (update f a v) b w ∙ sym (update_self f b w))
        ∙ sym (update_ne (update f b w) a u v m)
    | no k ↦
        update_ne (update f a v) b u w k
        ∙ update_ne f a u v m
        ∙ sym (update_ne (update f b w) a u v m ∙ update_ne f b u w k)
  ]
]

-- While `list_rcu_add` adds a node to a list between two neighbours, a reader sees the old sequence
-- after its first two assignments and the new one after the third; after the fourth the node is in
-- the list, both ways.
pub rcu_add_lem :
    (l : Links) (h n : ℕ) (xs ys : List ℕ)
    → IsList l h (xs ++ ys)
    → (¬ Mem n (h ∷ (xs ++ ys)))
    → (l₁ l₂ l₃ l₄ : Links) × (rcu_add l (last_or h xs) (first_or ys h) n ≡ l₁ ∷ l₂ ∷ l₃ ∷ l₄ ∷ [])
      × Reads l₁ h (xs ++ ys) h
      × Reads l₂ h (xs ++ ys) h
      × Reads l₃ h (xs ++ (n ∷ ys)) h
      × Reads l₄ h (xs ++ (n ∷ ys)) h
      × IsList l₄ h (xs ++ (n ∷ ys))
unfolding rcu_add add
rcu_add_lem l h n xs ys r out =
    let p : ℕ = last_or h xs in
    let q : ℕ = first_or ys h in
    let l₁ : Links = set_next l n q in
    let l₂ : Links = set_prev l₁ n p in
    let l₃ : Links = set_next l₂ p n in
    let l₄ : Links = set_prev l₃ q n in
    let off : (u : ℕ) → Mem u (h ∷ (xs ++ ys)) → n ≢ u =
      λ u m e. out (subst (λ v. Mem v (h ∷ (xs ++ ys))) (sym e) m) in
    let q_in : Mem q (h ∷ (xs ++ ys)) = elim (first_or-Mem ys h) [
      | inl m ↦ inr (right_of q xs ys m)
      | inr e ↦ inl (sym e)
    ] in
    let old : Reads l h (xs ++ ys) h = reads l h (xs ++ ys) h r.linked in
    let still : Reads l₁ h (xs ++ ys) h =
      Reads-frame l l₁ h (xs ++ ys) h (λ u m. update_ne l.next n u q (off u m)) old in
    let done : IsList l₄ h (xs ++ (n ∷ ys)) =
      IsList-same (add l p q n) l₄ h (xs ++ (n ∷ ys)) (λ u. refl)
        (λ u. swap_updates l.prev n q p n u (off q q_in)) (add_lem l h n xs ys r out) in
    let new : Reads l₄ h (xs ++ (n ∷ ys)) h = reads l₄ h (xs ++ (n ∷ ys)) h done.linked in
    (
      l₁,
      l₂,
      l₃,
      l₄,
      refl,
      still,
      Reads-frame l₁ l₂ h (xs ++ ys) h (λ u m. refl) still,
      Reads-frame l₄ l₃ h (xs ++ (n ∷ ys)) h (λ u m. refl) new,
      new,
      done,
    )

tail_of :
    (l : Links) (a x : ℕ) (xs ys : List ℕ) (b : ℕ) → Reads l a (xs ++ (x ∷ ys)) b → Reads l x ys b
tail_of l a x [] ys b (e, c) = c
tail_of l a x (v ∷ xs) ys b (e, c) = tail_of l v x xs ys b c

-- While `list_rcu_remove` removes a node, a reader sees the old sequence after the first assignment and
-- the new one after the second, when the node is out of the list; a reader that has reached the
-- node goes on from it to the nodes that followed it.
pub rcu_remove_lem :
    (l : Links) (h x : ℕ) (xs ys : List ℕ)
    → IsList l h (xs ++ (x ∷ ys))
    → (l₁ l₂ : Links) × (rcu_remove l x ≡ l₁ ∷ l₂ ∷ [])
      × Reads l₁ h (xs ++ (x ∷ ys)) h
      × Reads l₂ h (xs ++ ys) h
      × Reads l₂ x ys h
      × IsList l₂ h (xs ++ ys)
unfolding rcu_remove
rcu_remove_lem l h x xs ys r =
    let p : ℕ = last_or h xs in
    let q : ℕ = first_or ys h in
    let l₁ : Links = set_prev l (l.next x) (l.prev x) in
    let l₂ : Links = set_next l₁ (l₁.prev x) (l₁.next x) in
    let (e, f) = around l h x xs ys h r.linked in
    let p_x : p ≢ x = last_or-ne l h x xs ys r in
    let q_x : q ≢ x = first_or-ne l h x xs ys r in
    let final : Links = record { prev = update l.prev q p; next = update l.next p q } in
    let back : update l.prev q p x ≡ p = update_ne l.prev q x p q_x ∙ e in
    let shape : l₂ ≡ final =
      ap (λ v. set_next (set_prev l (l.next x) v) (update l.prev (l.next x) v x) (l.next x)) e
      ∙ ap (λ v. set_next (set_prev l v p) (update l.prev v p x) v) f
      ∙ ap (λ v. set_next (set_prev l q p) v q) back in
    let (gone, kept, kept') = remove_lem l h x xs ys r in
    let result : IsList final h (xs ++ ys) =
      subst (λ k. IsList k h (xs ++ ys)) (remove-shape l x p q e f p_x) gone in
    let old : Reads l h (xs ++ (x ∷ ys)) h = reads l h (xs ++ (x ∷ ys)) h r.linked in
    let onward : Reads final x ys h =
      Reads-frame l final x ys h
        (λ u m. update_ne l.next p u q (elim m [
          | inl same ↦ (λ g. p_x (g ∙ sym same))
          | inr i ↦ (λ g.
              p_ys h xs ys (λ k. r.fresh (Mem-widen h x xs ys k))
                (middle-Distinct x xs ys r.distinct) u i g)
        ]))
        (tail_of l h x xs ys h old) in
    (
      l₁,
      l₂,
      refl,
      Reads-frame l l₁ h (xs ++ (x ∷ ys)) h (λ u m. refl) old,
      subst (λ k. Reads k h (xs ++ ys) h) (sym shape) (reads final h (xs ++ ys) h result.linked),
      subst (λ k. Reads k x ys h) (sym shape) onward,
      subst (λ k. IsList k h (xs ++ ys)) (sym shape) result,
    )
