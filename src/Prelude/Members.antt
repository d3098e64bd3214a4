-- ===== src/Prelude/Members.antt =====
-- Members of lists of numbers, and functions changed at one number.
use Prim.Native.Nat.{ℕ, suc}
use native.Mathlib.Decide.{ℕ_discrete}
use mathlib.Core.Path.{◌≡◌, ◌∙◌, refl, sym, subst, ap}
use mathlib.Core.Logic.{◌≢◌, ◌⊎◌, inl, inr}
use mathlib.Core.List.{List, [], ◌∷◌, ◌++◌, reverse, reverse_aux, append_assoc}
use native.Mathlib.Omega.{arith}
use x.Prelude.Lists.{length, length-append}
use x.Prelude.Tests.{◌==◌, if◌then◌else◌, eq→==, ne→==}

abbrev pub update {ℓ} : {A : Type ℓ} → (ℕ → A) → ℕ → A → ℕ → A
update f k v j = if j == k then v else f j

pub update_self {ℓ} : {A : Type ℓ} (f : ℕ → A) (t : ℕ) (v : A) → update f t v t ≡ v
update_self f t v = rw (eq→== t t refl)

pub update_ne {ℓ} : {A : Type ℓ} (f : ℕ → A) (t u : ℕ) (v : A) → t ≢ u → update f t v u ≡ f u
update_ne f t u v h = rw (ne→== u t (λ e. h (sym e)))

-- A property of the values of a changed function, by the place of the change and the others.
pub update_elim {ℓ} :
    {A : Type ℓ} (f : ℕ → A) (t u : ℕ) (v : A) (P : ℕ → A → Type 0)
    → P t v
    → (t ≢ u → P u (f u))
    → P u (update f t v u)
update_elim f t u v P hit miss = elim (ℕ_discrete t u) [
  | yes e ↦ subst (λ k. P k (update f t v k)) e (subst (P t) (sym (update_self f t v)) hit)
  | no n ↦ subst (P u) (sym (update_ne f t u v n)) (miss n)
]

abbrev pub Mem : ℕ → List ℕ → Type 0
Mem t [] = ⊥
Mem t (u ∷ us) = (u ≡ t) ⊎ Mem t us

abbrev pub Distinct : List ℕ → Type 0
Distinct [] = Unit {0}
Distinct (u ∷ us) = (¬ Mem u us) × Distinct us

pub Mem-cases : (u : ℕ) (ts : List ℕ) → Mem u ts ⊎ (¬ Mem u ts)
Mem-cases u [] = inr (λ m. m)
Mem-cases u (t ∷ ts) = elim (ℕ_discrete t u) [
  | yes e ↦ inl (inl e)
  | no n ↦ elim (Mem-cases u ts) [
    | inl m ↦ inl (inr m)
    | inr h ↦ inr (λ m. elim m [ inl e ↦ n e | inr m' ↦ h m' ])
  ]
]

pub Mem-ne : {t u : ℕ} (ts : List ℕ) → (¬ Mem t ts) → Mem u ts → t ≢ u
Mem-ne {t} ts no_t m e = no_t (subst (λ x. Mem x ts) (sym e) m)

pub Mem-append : (u : ℕ) (xs ys : List ℕ) → Mem u (xs ++ ys) → Mem u xs ⊎ Mem u ys
Mem-append u [] ys m = inr m
Mem-append u (x ∷ xs) ys (inl e) = inl (inl e)
Mem-append u (x ∷ xs) ys (inr m) = elim (Mem-append u xs ys m) [
  | inl p ↦ inl (inr p)
  | inr q ↦ inr q
]

pub Distinct-append :
    (xs ys : List ℕ)
    → Distinct xs
    → Distinct ys
    → ((u : ℕ) → Mem u xs → ¬ Mem u ys)
    → Distinct (xs ++ ys)
Distinct-append [] ys p q apart = q
Distinct-append (x ∷ xs) ys (fresh, p) q apart = (
  λ m. elim (Mem-append x xs ys m) [ inl m' ↦ fresh m' | inr m' ↦ apart x (inl refl) m' ],
  Distinct-append xs ys p q (λ u m. apart u (inr m)),
)

-- A list less the first place of a number.
abbrev pub without : ℕ → List ℕ → List ℕ
without u [] = []
without u (v ∷ vs) = if v == u then vs else v ∷ without u vs

pub Mem-without : (v u : ℕ) (xs : List ℕ) → Mem u (without v xs) → Mem u xs
Mem-without v u [] m = m
Mem-without v u (x ∷ xs) m = elim (ℕ_discrete x v) [
  | yes e ↦ inr (subst (λ b. Mem u (if b then xs else x ∷ without v xs)) (eq→== x v e) m)
  | no n ↦ elim (subst (λ b. Mem u (if b then xs else x ∷ without v xs)) (ne→== x v n) m) [
    | inl same ↦ inl same
    | inr m' ↦ inr (Mem-without v u xs m')
  ]
]

pub without-Mem : (v u : ℕ) (xs : List ℕ) → v ≢ u → Mem u xs → Mem u (without v xs)
without-Mem v u [] h m = m
without-Mem v u (x ∷ xs) h m = elim (ℕ_discrete x v) [
  | yes e ↦ rw (eq→== x v e) (elim m [ inl same ↦ absurd (h (sym e ∙ same)) | inr m' ↦ m' ])
  | no n ↦
      rw (ne→== x v n) (elim m [ inl same ↦ inl same | inr m' ↦ inr (without-Mem v u xs h m') ])
]

pub without-gone : (v : ℕ) (xs : List ℕ) → Distinct xs → ¬ Mem v (without v xs)
without-gone v [] d m = m
without-gone v (x ∷ xs) (fresh, d) m = elim (ℕ_discrete x v) [
  | yes e ↦ fresh (
      subst (λ y. Mem y xs) (sym e)
        (subst (λ b. Mem v (if b then xs else x ∷ without v xs)) (eq→== x v e) m))
  | no n ↦ elim (subst (λ b. Mem v (if b then xs else x ∷ without v xs)) (ne→== x v n) m) [
    | inl same ↦ n same
    | inr m' ↦ without-gone v xs d m'
  ]
]

pub without-Distinct : (v : ℕ) (xs : List ℕ) → Distinct xs → Distinct (without v xs)
without-Distinct v [] d = d
without-Distinct v (x ∷ xs) (fresh, d) = elim (ℕ_discrete x v) [
  | yes e ↦ rw (eq→== x v e) d
  | no n ↦ rw (ne→== x v n) (λ m. fresh (Mem-without v x xs m), without-Distinct v xs d)
]

pub length-without : (v : ℕ) (xs : List ℕ) → Mem v xs → suc (length (without v xs)) ≡ length xs
length-without v [] m = absurd m
length-without v (x ∷ xs) m = elim (ℕ_discrete x v) [
  | yes e ↦ rw (eq→== x v e)
  | no n ↦
      rw (ne→== x v n)
        (ap suc (length-without v xs (elim m [ inl e ↦ absurd (n e) | inr m' ↦ m' ])))
]

pub left_of : (u : ℕ) (xs ys : List ℕ) → Mem u xs → Mem u (xs ++ ys)
left_of u [] ys m = absurd m
left_of u (x ∷ xs) ys (inl e) = inl e
left_of u (x ∷ xs) ys (inr m) = inr (left_of u xs ys m)

pub right_of : (u : ℕ) (xs ys : List ℕ) → Mem u ys → Mem u (xs ++ ys)
right_of u [] ys m = m
right_of u (x ∷ xs) ys m = inr (right_of u xs ys m)

pub front-Distinct : (xs ys : List ℕ) → Distinct (xs ++ ys) → Distinct xs
front-Distinct [] ys d = tt
front-Distinct (x ∷ xs) ys (fresh, d) = ((λ m. fresh (left_of x xs ys m)), front-Distinct xs ys d)

pub back-Distinct : (xs ys : List ℕ) → Distinct (xs ++ ys) → Distinct ys
back-Distinct [] ys d = d
back-Distinct (x ∷ xs) ys (fresh, d) = back-Distinct xs ys d

pub halves_apart : (xs ys : List ℕ) → Distinct (xs ++ ys) → (u : ℕ) → Mem u xs → ¬ Mem u ys
halves_apart [] ys d u m m' = m
halves_apart (x ∷ xs) ys (fresh, d) u (inl e) m' =
    fresh (right_of x xs ys (subst (λ v. Mem v ys) (sym e) m'))
halves_apart (x ∷ xs) ys (fresh, d) u (inr m) m' = halves_apart xs ys d u m m'

pub Mem-apart : {u v : ℕ} (xs : List ℕ) → Mem u xs → (¬ Mem v xs) → u ≢ v
Mem-apart xs m n e = n (subst (λ w. Mem w xs) e m)

-- A sequence less one of its members.
pub Mem-widen : (u x : ℕ) (xs ys : List ℕ) → Mem u (xs ++ ys) → Mem u (xs ++ (x ∷ ys))
Mem-widen u x [] ys m = inr m
Mem-widen u x (v ∷ xs) ys (inl e) = inl e
Mem-widen u x (v ∷ xs) ys (inr m) = inr (Mem-widen u x xs ys m)

pub middle-Distinct : (x : ℕ) (xs ys : List ℕ) → Distinct (xs ++ (x ∷ ys)) → Distinct (xs ++ ys)
middle-Distinct x [] ys (fresh, d) = d
middle-Distinct x (v ∷ xs) ys (fresh, d) =
    ((λ m. fresh (Mem-widen v x xs ys m)), middle-Distinct x xs ys d)

pub middle-out : (x : ℕ) (xs ys : List ℕ) → Distinct (xs ++ (x ∷ ys)) → ¬ Mem x (xs ++ ys)
middle-out x [] ys (fresh, d) m = fresh m
middle-out x (v ∷ xs) ys (fresh, d) (inl e) =
    fresh (subst (λ w. Mem w (xs ++ (x ∷ ys))) (sym e) (right_of x xs (x ∷ ys) (inl refl)))
middle-out x (v ∷ xs) ys (fresh, d) (inr m) = middle-out x xs ys d m

reverse_aux-append : (xs ys : List ℕ) → reverse_aux xs ys ≡ reverse xs ++ ys
reverse_aux-append [] ys = refl
reverse_aux-append (x ∷ xs) ys =
    reverse_aux-append xs (x ∷ ys)
    ∙ sym (append_assoc (reverse xs) (x ∷ []) ys)
    ∙ ap (λ k. k ++ ys) (sym (reverse_aux-append xs (x ∷ [])))

pub reverse-cons : (x : ℕ) (xs : List ℕ) → reverse (x ∷ xs) ≡ reverse xs ++ (x ∷ [])
reverse-cons x xs = reverse_aux-append xs (x ∷ [])

pub Mem-reverse : (u : ℕ) (xs : List ℕ) → Mem u (reverse xs) → Mem u xs
Mem-reverse u [] m = m
Mem-reverse u (x ∷ xs) m =
    elim (Mem-append u (reverse xs) (x ∷ []) (subst (λ k. Mem u k) (reverse-cons x xs) m)) [
      | inl a ↦ inr (Mem-reverse u xs a)
      | inr (inl e) ↦ inl e
      | inr (inr bad) ↦ absurd bad
    ]

pub length-reverse : (xs : List ℕ) → length (reverse xs) ≡ length xs
length-reverse [] = refl
length-reverse (x ∷ xs) =
    ap length (reverse-cons x xs)
    ∙ omega (arith, length-append (reverse xs) (x ∷ []), length-reverse xs)
