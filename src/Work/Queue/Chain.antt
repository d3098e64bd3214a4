-- ===== src/Work/Queue/Chain.antt =====
-- The queues of works are the sequences that their links chain.
use x.Prelude.{
  ℕ, ◌<◌, ◌≡◌, ◌≢◌, refl, subst, sym, inl, inr, Option, none, some, List, [], ◌∷◌, ◌++◌, Mem,
  Distinct, length,
}
use x.Work.Queue.{Queue, uint_mod}

-- The links from `p` lead through the works of a list and end there.
abbrev pub Follows : (ℕ → Option ℕ) → Option ℕ → List ℕ → Type 0
Follows next p [] = p ≡ none
Follows next p (w ∷ ws) = (p ≡ some w) × Follows next (next w) ws

abbrev pub last_of : List ℕ → Option ℕ
last_of [] = none
last_of (w ∷ []) = some w
last_of (w ∷ v ∷ vs) = last_of (v ∷ vs)

-- The queue `q` holds the works of `ws`, in order.
pub record IsQueue (next : ℕ → Option ℕ) (q : Queue) (ws : List ℕ) : Type 0 where
  pub chain : Follows next q.first ws
  pub last : q.last ≡ last_of ws
  pub count : q.nr_works ≡ length ws
  pub distinct : Distinct ws
  pub small : length ws < uint_mod

pub last_of-Mem : (z : ℕ) (ws : List ℕ) → last_of ws ≡ some z → Mem z ws
last_of-Mem z [] e = absurd (cc e)
last_of-Mem z (w ∷ []) e = inl (cc e)
last_of-Mem z (w ∷ v ∷ vs) e = inr (last_of-Mem z (v ∷ vs) e)

pub last_of-cons : (w : ℕ) (ws : List ℕ) → (z : ℕ) × (last_of (w ∷ ws) ≡ some z)
last_of-cons w [] = (w, refl)
last_of-cons w (v ∷ vs) = last_of-cons v vs

pub last_of-append :
    (xs : List ℕ) (v : ℕ) (vs : List ℕ) → last_of (xs ++ (v ∷ vs)) ≡ last_of (v ∷ vs)
last_of-append [] v vs = refl
last_of-append (x ∷ []) v vs = refl
last_of-append (x ∷ y ∷ ys) v vs = last_of-append (y ∷ ys) v vs

pub Follows-frame :
    (next next' : ℕ → Option ℕ) (p : Option ℕ) (ws : List ℕ)
    → ((u : ℕ) → Mem u ws → next' u ≡ next u)
    → Follows next p ws
    → Follows next' p ws
Follows-frame next next' p [] same f = f
Follows-frame next next' p (w ∷ ws) same (e, f) =
    (e, rw (same w (inl refl)) (Follows-frame next next' (next w) ws (λ u m. same u (inr m)) f))

-- A queue is not disturbed by the links of the works of others.
pub IsQueue-frame :
    (next next' : ℕ → Option ℕ) (q : Queue) (ws : List ℕ)
    → ((u : ℕ) → Mem u ws → next' u ≡ next u)
    → IsQueue next q ws
    → IsQueue next' q ws
IsQueue-frame next next' q ws same r = record {
  chain = Follows-frame next next' q.first ws same r.chain;
  last = r.last;
  count = r.count;
  distinct = r.distinct;
  small = r.small;
}

-- A chain goes on from its last work, whose link alone has changed.
pub splice :
    (next next' : ℕ → Option ℕ) (p : Option ℕ) (z : ℕ) (xs ys : List ℕ)
    → Follows next p xs
    → last_of xs ≡ some z
    → Distinct xs
    → ((u : ℕ) → Mem u xs → z ≢ u → next' u ≡ next u)
    → Follows next' (next' z) ys
    → Follows next' p (xs ++ ys)
splice next next' p z [] ys f e d same g = absurd (cc e)
splice next next' p z (x ∷ []) ys (e₁, f) e d same g =
    let at : x ≡ z = cc e in (e₁, subst (λ u. Follows next' (next' u) ys) (sym at) g)
splice next next' p z (x ∷ y ∷ xs) ys (e₁, f) e (fresh, d) same g =
    let n : z ≢ x = λ h. fresh (subst (λ u. Mem u (y ∷ xs)) h (last_of-Mem z (y ∷ xs) e)) in
    (
      e₁,
      rw (same x (inl refl) n)
          (splice next next' (next x) z (y ∷ xs) ys f e d (λ u m. same u (inr m)) g),
    )
