-- ===== src/PageZone/Split.antt =====
-- Taking a block from the buddy system.
use native.Mathlib.Nat.{pow-suc}
use x.Prelude.{
  ℕ, zero, suc, ◌+◌, ◌*◌, ◌^◌, ◌<◌, ◌≤◌, ◌≡◌, ◌≢◌, refl, ap, some, subst, ◌∙◌, ◌⊎◌, inl, inr, true,
  false, none, some, ◌==◌, Bool-cases, arith,
}
use x.PageZone.{Zone, ptob, nr_free_lists, first_list, split}
use x.PageZone.Once.{once}
use x.PageZone.Weight.{block, halves}
use x.PageZone.Shape.{
  IsBlock, IsListed, IsApart, free, enlisted, apart-unlisted, enlist_lem, free-enlist,
}
use x.PageZone.Moved.{enlist-IsListed}

-- The halves of a block are blocks.
first_half-IsBlock : (z : Zone) (order page : ℕ) → IsBlock z (suc order) page → IsBlock z order page
first_half-IsBlock z order page (t, e, inside) =
    (2 * t, e ∙ rw (pow-suc 2 order) (omega arith), omega (arith, inside, pow-suc 2 order))

second_half-IsBlock :
    (z : Zone) (order page : ℕ) → IsBlock z (suc order) page → IsBlock z order (page + 2 ^ order)
second_half-IsBlock z order page (t, e, inside) =
    let f : z.start + ptob page ≡ 2 * (ptob (2 ^ order) * t) =
      e ∙ rw (pow-suc 2 order) (omega arith) in
    (2 * t + 1, omega (arith, f), omega (arith, inside, pow-suc 2 order))

-- What the loop that splits a block of `d` orders more leaves: the lists get all of it but the block
-- of the order that is asked for.
pub record Cut (z z' : Zone) (order d page : ℕ) : Type 0 where
  pub lists : IsListed z'
  pub weights : (w : ℕ → ℕ) → block w order page + free w z' ≡ block w (order + d) page + free w z
  pub aligned : IsBlock z' order page
  pub start : z'.start ≡ z.start
  pub end : z'.end ≡ z.end
  pub count : z'.nr_free_pages ≡ z.nr_free_pages
  pub phys_addr : z'.phys_addr ≡ z.phys_addr
  pub types : z'.types ≡ z.types

-- No assertion fails where no page of the block is free.
pub split_lem :
    (d : ℕ) (z : Zone) (order page : ℕ)
    → order + d < nr_free_lists
    → IsBlock z (order + d) page
    → IsApart z (order + d) page
    → IsListed z
    → (z' : Zone) × (split d z order page ≡ some z') × Cut z z' order d page
unfolding split
split_lem zero z order page h a alone r =
    let same : order + 0 ≡ order = omega arith in
    (
      z,
      refl,
      record {
        lists = r;
        weights = λ w. rw same;
        aligned = subst (λ k. IsBlock z k page) same a;
        start = refl;
        end = refl;
        count = refl;
        phys_addr = refl;
        types = refl;
      },
    )
split_lem (suc d) z order page h a alone r =
    let k : ℕ = order + d in
    let next : order + suc d ≡ suc k = omega arith in
    let a' : IsBlock z (suc k) page = subst (λ j. IsBlock z j page) next a in
    let alone' : IsApart z (suc k) page = subst (λ j. IsApart z j page) next alone in
    let buddy : ℕ = page + 2 ^ k in
    let b : IsBlock z k buddy = second_half-IsBlock z k page a' in
    let alone_buddy : IsApart z k buddy = λ u. omega (arith, alone' u, halves (once u) k page) in
    let z₁ : Zone = enlisted z k buddy in
    let (z', e, cut) =
      split_lem d z₁ order page (omega arith) (first_half-IsBlock z k page a')
        (λ u.
          omega
            (arith, alone' u, halves (once u) k page, free-enlist (once u) z k buddy (omega arith)))
        (enlist-IsListed z k buddy (omega arith) b alone_buddy r) in
    (
      z',
      rw (enlist_lem z k buddy (apart-unlisted z k buddy b r alone_buddy)) e,
      record {
        lists = cut.lists;
        weights = λ w. omega (
          arith,
          ap (λ j. block w j page) next,
          cut.weights w,
          halves w k page,
          free-enlist w z k buddy (omega arith),
        );
        aligned = cut.aligned;
        start = cut.start;
        end = cut.end;
        count = cut.count;
        phys_addr = cut.phys_addr;
        types = cut.types;
      },
    )

-- Either no list from an order on has a block, or the first that has one is found.
pub first_list_lem :
    (n : ℕ) (z : Zone) (i : ℕ)
    → ((first_list n z i ≡ none) × ((k : ℕ) → i ≤ k → k < i + n → z.sizes k ≡ 0))
      ⊎ ((k : ℕ) × (first_list n z i ≡ some k) × (i ≤ k) × (k < i + n) × (z.sizes k ≢ 0))
unfolding first_list
first_list_lem zero z i = inl (refl, λ k h h'. absurd (omega arith))
first_list_lem (suc n) z i = elim (Bool-cases (z.sizes i == 0)) [
  | inr e ↦ inr (i, rw (e, first_list), omega arith, omega arith, filled (z.sizes i) e)
  | inl e ↦
      rw (e, first_list)
        (elim (first_list_lem n z (suc i)) [
          | inl (f, g) ↦ inl (
            f,
            λ k h h'. elim (split_le i k h) [
              | inl same ↦ subst (λ j. z.sizes j ≡ 0) same (zero_size (z.sizes i) e)
              | inr l ↦ g k l (omega arith)
            ],
          )
          | inr (k, f, g, g', g'') ↦ inr (k, f, omega arith, omega arith, g'')
        ])
]
  where
    filled : (a : ℕ) → (a == 0) ≡ false → a ≢ 0
    filled a e f = ground arith

    zero_size : (a : ℕ) → (a == 0) ≡ true → a ≡ 0
    zero_size a e = ground arith

    split_le : (i k : ℕ) → i ≤ k → (i ≡ k) ⊎ (suc i ≤ k)
    split_le i k h = omega arith
