-- ===== src/LinkedList/Walk.antt =====
-- `list_for_each` and `list_for_each_reverse` end, and visit the nodes of a list in order.
use mathlib.Core.List.{reverse}
use x.Prelude.{
  ℕ, zero, suc, ◌<◌, ◌≡◌, ◌≢◌, refl, sym, subst, ◌∙◌, inl, inr, some, List, [], ◌∷◌, ◌==◌, Mem,
  Mem-reverse, reverse-cons, length-reverse, length, Bool-cases, eq→==, ne→==, arith,
}
use x.LinkedList.{Links, walk, walk_back}
use x.LinkedList.Chain.{Linked, IsList, unclose, whole}

walk-end : (fuel : ℕ) (l : Links) (h : ℕ) → walk (suc fuel) l h h ≡ some []
unfolding walk
walk-end fuel l h = rw (eq→== h h refl, walk)

walk-node :
    (fuel : ℕ) (l : Links) (h x : ℕ) (xs : List ℕ)
    → h ≢ x
    → walk fuel l h (l.next x) ≡ some xs
    → walk (suc fuel) l h x ≡ some (x ∷ xs)
unfolding walk
walk-node fuel l h x xs n e = rw (ne→== h x n, walk, e)

walk_from :
    (k : ℕ) (l : Links) (h a : ℕ) (xs : List ℕ)
    → Linked l a xs h
    → (¬ Mem h xs)
    → length xs < k
    → walk k l h (l.next a) ≡ some xs
walk_from zero l h a xs c fresh fuel = absurd (omega arith)
walk_from (suc k) l h a [] (e, e') fresh fuel = rw e (walk-end k l h)
walk_from (suc k) l h a (x ∷ xs) ((e, e'), c) fresh fuel = rw e (
    walk-node k l h x xs (λ f. fresh (inl (sym f)))
      (walk_from k l h x xs c (λ m. fresh (inr m)) (omega arith)))

-- With more fuel than nodes, the loop over a list ends and has visited each node once, in order.
pub walk_lem :
    (k : ℕ) (l : Links) (h : ℕ) (xs : List ℕ)
    → IsList l h xs
    → length xs < k
    → walk k l h (l.next h) ≡ some xs
walk_lem k l h xs r fuel = walk_from k l h h xs r.linked r.fresh fuel

abbrev turned : Links → Links
turned l = record { prev = l.next; next = l.prev }

turned-Linked :
    (l : Links) (a : ℕ) (xs : List ℕ) (b : ℕ) → Linked l a xs b → Linked (turned l) b (reverse xs) a
turned-Linked l a [] b (e, e') = (e', e)
turned-Linked l a (x ∷ xs) b ((e, e'), c) =
    let (o, f) = unclose (turned l) b (reverse xs) x (turned-Linked l x xs b c) in
    subst (λ k. Linked (turned l) b k a) (sym (reverse-cons x xs))
      (whole (turned l) b (reverse xs) (x ∷ []) a o (f, (e', e)))

walk_back-walk : (k : ℕ) (l : Links) (h a : ℕ) → walk_back k l h a ≡ walk k (turned l) h a
unfolding walk walk_back
walk_back-walk zero l h a = refl
walk_back-walk (suc k) l h a = elim (Bool-cases (h == a)) [
  | inl e ↦ rw (e, walk, walk_back)
  | inr e ↦ rw (e, walk, walk_back, walk_back-walk k l h (l.prev a))
]

-- With more fuel than nodes, the loop over a list from its end does too, in reverse order.
pub walk_back_lem :
    (k : ℕ) (l : Links) (h : ℕ) (xs : List ℕ)
    → IsList l h xs
    → length xs < k
    → walk_back k l h (l.prev h) ≡ some (reverse xs)
walk_back_lem k l h xs r fuel =
    walk_back-walk k l h (l.prev h)
    ∙ walk_from k (turned l) h h (reverse xs) (turned-Linked l h xs h r.linked)
        (λ m. r.fresh (Mem-reverse h xs m)) (rw (length-reverse xs) fuel)
