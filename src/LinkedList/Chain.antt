-- ===== src/LinkedList/Chain.antt =====
-- The nodes of a list as a sequence: open and closed chains of links.
use x.Prelude.{
  ℕ, ◌≡◌, ◌≢◌, refl, sym, subst, ◌∙◌, ◌⊎◌, inl, inr, List, [], ◌∷◌, ◌++◌, Mem, Distinct,
}
use x.LinkedList.{Links}

abbrev pub Edge : Links → ℕ → ℕ → Type 0
Edge l a b = (l.next a ≡ b) × (l.prev b ≡ a)

-- From `a` the links lead through the nodes of `xs`, both ways.
abbrev pub Open : Links → ℕ → List ℕ → Type 0
Open l a [] = Unit {0}
Open l a (x ∷ xs) = Edge l a x × Open l x xs

-- and from the last of them to `b`
abbrev pub Linked : Links → ℕ → List ℕ → ℕ → Type 0
Linked l a [] b = Edge l a b
Linked l a (x ∷ xs) b = Edge l a x × Linked l x xs b

abbrev pub last_or : ℕ → List ℕ → ℕ
last_or a [] = a
last_or a (x ∷ xs) = last_or x xs

abbrev pub first_or : List ℕ → ℕ → ℕ
first_or [] b = b
first_or (x ∷ xs) b = x

-- The list of head `h` has the nodes of `xs`, in order.
pub record IsList (l : Links) (h : ℕ) (xs : List ℕ) : Type 0 where
  pub linked : Linked l h xs h
  pub fresh : ¬ Mem h xs
  pub distinct : Distinct xs

pub parts :
    (l : Links) (a : ℕ) (xs ys : List ℕ) (b : ℕ)
    → Linked l a (xs ++ ys) b
    → Open l a xs × Linked l (last_or a xs) ys b
parts l a [] ys b c = (tt, c)
parts l a (x ∷ xs) ys b (e, c) = let (o, d) = parts l x xs ys b c in ((e, o), d)

pub whole :
    (l : Links) (a : ℕ) (xs ys : List ℕ) (b : ℕ)
    → Open l a xs
    → Linked l (last_or a xs) ys b
    → Linked l a (xs ++ ys) b
whole l a [] ys b o c = c
whole l a (x ∷ xs) ys b (e, o) c = (e, whole l x xs ys b o c)

pub close :
    (l : Links) (a : ℕ) (xs : List ℕ) (b : ℕ)
    → Open l a xs
    → Edge l (last_or a xs) b
    → Linked l a xs b
close l a [] b o e = e
close l a (x ∷ xs) b (e, o) e' = (e, close l x xs b o e')

pub unclose :
    (l : Links) (a : ℕ) (xs : List ℕ) (b : ℕ)
    → Linked l a xs b
    → Open l a xs × Edge l (last_or a xs) b
unclose l a [] b e = (tt, e)
unclose l a (x ∷ xs) b (e, c) = let (o, e') = unclose l x xs b c in ((e, o), e')

-- `u` is `a` or a node of `xs`, but not the last of these.
abbrev pub Before : ℕ → ℕ → List ℕ → Type 0
Before u a [] = ⊥
Before u a (x ∷ xs) = (u ≡ a) ⊎ Before u x xs

pub Open-frame :
    (l l' : Links) (a : ℕ) (xs : List ℕ)
    → ((u : ℕ) → Before u a xs → l'.next u ≡ l.next u)
    → ((u : ℕ) → Mem u xs → l'.prev u ≡ l.prev u)
    → Open l a xs
    → Open l' a xs
Open-frame l l' a [] n p o = o
Open-frame l l' a (x ∷ xs) n p ((e, e'), o) = (
  (n a (inl refl) ∙ e, p x (inl refl) ∙ e'),
  Open-frame l l' x xs (λ u m. n u (inr m)) (λ u m. p u (inr m)) o,
)

pub Linked-frame :
    (l l' : Links) (a : ℕ) (xs : List ℕ) (b : ℕ)
    → ((u : ℕ) → Mem u (a ∷ xs) → l'.next u ≡ l.next u)
    → ((u : ℕ) → Mem u xs → l'.prev u ≡ l.prev u)
    → l'.prev b ≡ l.prev b
    → Linked l a xs b
    → Linked l' a xs b
Linked-frame l l' a [] b n p q (e, e') = (n a (inl refl) ∙ e, q ∙ e')
Linked-frame l l' a (x ∷ xs) b n p q ((e, e'), c) = (
  (n a (inl refl) ∙ e, p x (inl refl) ∙ e'),
  Linked-frame l l' x xs b (λ u m. n u (inr m)) (λ u m. p u (inr m)) q c,
)

pub Before-Mem : (u a : ℕ) (xs : List ℕ) → Before u a xs → Mem u (a ∷ xs)
Before-Mem u a [] m = absurd m
Before-Mem u a (x ∷ xs) (inl e) = inl (sym e)
Before-Mem u a (x ∷ xs) (inr m) = inr (Before-Mem u x xs m)

pub last_or-Mem : (a : ℕ) (xs : List ℕ) → Mem (last_or a xs) (a ∷ xs)
last_or-Mem a [] = inl refl
last_or-Mem a (x ∷ xs) = inr (last_or-Mem x xs)

pub Before-last : (u a : ℕ) (xs : List ℕ) → Distinct (a ∷ xs) → Before u a xs → last_or a xs ≢ u
Before-last u a [] d m e = m
Before-last u a (x ∷ xs) (fresh, d) (inl same) e =
    fresh (subst (λ v. Mem v (x ∷ xs)) (e ∙ same) (last_or-Mem x xs))
Before-last u a (x ∷ xs) (fresh, d) (inr m) e = Before-last u x xs d m e

-- A closed chain whose first link comes from elsewhere.
pub rehead :
    (l l' : Links) (p n : ℕ) (ys : List ℕ) (b : ℕ)
    → Edge l' n (first_or ys b)
    → ((u : ℕ) → Mem u ys → l'.next u ≡ l.next u)
    → ((u : ℕ) → Mem u ys → first_or ys b ≢ u → l'.prev u ≡ l.prev u)
    → (first_or ys b ≢ b → l'.prev b ≡ l.prev b)
    → (¬ Mem b ys)
    → Distinct ys
    → Linked l p ys b
    → Linked l' n ys b
rehead l l' p n [] b e f g k fresh d c = e
rehead l l' p n (y ∷ ys) b e f g k fresh d (e', c) = (
  e,
  Linked-frame l l' y ys b f (λ u m. g u (inr m) (λ h. d.0 (subst (λ v. Mem v ys) (sym h) m)))
      (k (λ h. fresh (inl h))) c,
)

-- What the links of a node in a list are.
pub around :
    (l : Links) (a x : ℕ) (xs ys : List ℕ) (b : ℕ)
    → Linked l a (xs ++ (x ∷ ys)) b
    → (l.prev x ≡ last_or a xs) × (l.next x ≡ first_or ys b)
around l a x xs ys b c = let (o, (e, d)) = parts l a xs (x ∷ ys) b c in (e.1, onward ys d)
  where
    onward : (zs : List ℕ) → Linked l x zs b → l.next x ≡ first_or zs b
    onward [] (f, f') = f
    onward (z ∷ zs) ((f, f'), rest) = f

pub to_first :
    (l : Links) (a : ℕ) (xs : List ℕ) (b : ℕ) → Linked l a xs b → l.next a ≡ first_or xs b
to_first l a [] b (e, e') = e
to_first l a (x ∷ xs) b ((e, e'), c) = e

pub to_last : (l : Links) (a : ℕ) (xs : List ℕ) (b : ℕ) → Linked l a xs b → l.prev b ≡ last_or a xs
to_last l a [] b (e, e') = e'
to_last l a (x ∷ xs) b (e, c) = to_last l x xs b c
