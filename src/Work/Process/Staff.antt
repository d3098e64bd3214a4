-- ===== src/Work/Process/Staff.antt =====
-- The manager and the lists of threads of a pool agree with where its workers stand.
use native.Mathlib.Decide.{ℕ_discrete}
use x.Prelude.{
  left_of, right_of, without, Mem-without, without-Mem, without-gone, without-Distinct, ℕ, ◌≡◌, ◌≢◌,
  subst, sym, ap, ◌∙◌, inl, inr, Bool, true, false, Option, none, some, List, [], ◌∷◌, ◌++◌, Mem,
  Distinct, Mem-append, Distinct-append, length,
}
use x.Work.Pool.{Pool}
use x.Work.Process.{
  Place, absent, entering, spare, managing, finished, destroying, creating, running,
}

-- The list `xs` is of the workers that stand at `x`, each once.
pub record Role (x : Place) (xs : List ℕ) (at : ℕ → Place) : Type 0 where
  pub stands : (u : ℕ) → Mem u xs → at u ≡ x
  pub listed : (u : ℕ) → at u ≡ x → Mem u xs
  pub once : Distinct xs

abbrev pub as_list : Option ℕ → List ℕ
as_list none = []
as_list (some m) = m ∷ []

pub record Staffed (p : Pool) (at : ℕ → Place) : Type 0 where
  pub manager : Role managing (as_list p.manager) at
  pub available : Role spare p.available_threads at
  pub dead : Role finished p.dead_threads at
  pub count : p.nr_available_threads ≡ length p.available_threads

-- The places that the pool does not record.
abbrev pub busy : Place → Bool
busy absent = true
busy entering = true
busy spare = false
busy managing = false
busy finished = false
busy (destroying i) = true
busy (creating i w) = true
busy (running w) = true

pub busy-ne : {x : Place} (y : Place) → busy x ≡ true → busy y ≡ false → x ≢ y
busy-ne y b b' e = cc (b, b', ap busy e)

-- One worker, `self`, goes from `at self` to `to self`.
module _ (at to : ℕ → Place) (self : ℕ) (others : (u : ℕ) → self ≢ u → to u ≡ at u) where
  keeps :
      (x : Place) (xs : List ℕ)
      → ((u : ℕ) → Mem u xs → at u ≡ x)
      → (u : ℕ) → self ≢ u
      → Mem u xs
      → to u ≡ x
  keeps x xs h u n m = others u n ∙ h u m

  pub stay : (x : Place) (xs : List ℕ) → at self ≢ x → to self ≢ x → Role x xs at → Role x xs to
  stay x xs n n' r = record {
    stands = λ u m. keeps x xs r.stands u (λ e. n (ap at e ∙ r.stands u m)) m;
    listed = λ u e. r.listed u (sym (others u (λ h. n' (ap to h ∙ e))) ∙ e);
    once = r.once;
  }

  pub join :
      (x : Place) (xs : List ℕ)
      → at self ≢ x
      → to self ≡ x
      → Role x xs at
      → Role x (xs ++ (self ∷ [])) to
  join x xs n e r = record {
    stands = λ u m. elim (Mem-append u xs (self ∷ []) m) [
      | inl m' ↦ keeps x xs r.stands u (λ h. n (ap at h ∙ r.stands u m')) m'
      | inr (inl h) ↦ sym (ap to h) ∙ e
      | inr (inr bad) ↦ absurd bad
    ];
    listed = λ u h. elim (ℕ_discrete self u) [
      | yes same ↦ right_of u xs (self ∷ []) (inl same)
      | no apart ↦ left_of u xs (self ∷ []) (r.listed u (sym (others u apart) ∙ h))
    ];
    once =
        Distinct-append xs (self ∷ []) r.once ((λ m. m), tt)
          (λ u m m'. elim m' [ inl h ↦ n (ap at h ∙ r.stands u m) | inr bad ↦ bad ]);
  }

module _ (at to : ℕ → Place) (self : ℕ) (others : (u : ℕ) → self ≢ u → to u ≡ at u) where
  pub leave : (x : Place) (xs : List ℕ) → to self ≢ x → Role x xs at → Role x (without self xs) to
  leave x xs n r = record {
    stands = λ u m.
        others u (λ h. without-gone self xs r.once (subst (λ y. Mem y (without self xs)) (sym h) m))
        ∙ r.stands u (Mem-without self u xs m);
    listed = λ u e.
        let apart : self ≢ u = λ h. n (ap to h ∙ e) in
        without-Mem self u xs apart (r.listed u (sym (others u apart) ∙ e));
    once = without-Distinct self xs r.once;
  }
