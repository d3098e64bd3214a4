-- ===== src/PageZone/Tests.antt =====
-- A zone of four pages, of which two are given back.
use x.Prelude.{
  ℕ, ◌+◌, ◌<◌, ◌≤◌, ◌≡◌, refl, sym, subst, ◌∙◌, ◌⊎◌, inr, Bool, true, false, [], ◌∷◌, none, some,
  ◌==◌, if◌then◌else◌, ◌>>=◌, arith,
}
use x.PageZone.{
  Zone, ptob, order_unlisted, nr_free_lists, exhausted, allocated, alloc_from_buddy, free_to_buddy,
  merge,
}
use x.PageZone.Weight.{block}
use x.PageZone.Shape.{InPlace, IsApart, free, enlisted}
use x.PageZone.Pages.{IsZone, IsTaken, free_lem, alloc_lem}

abbrev used : Zone
used = record {
  start = ptob 8;
  end = ptob 12;
  sizes = λ k. 0;
  blocks = λ k. [];
  nr_free_pages = 0;
  orders = λ page. order_unlisted;
  types = λ page. 6;
  phys_addr = λ page. ptob 8 + ptob page;
}

used-IsZone : IsZone used
used-IsZone = record {
  first_page = 8;
  last_page = 12;
  start = refl;
  end = refl;
  phys_addr = λ page h. refl;
  lists = record {
    ranged = λ q l. inr refl;
    listed = λ k q h l e. absurd (omega (arith, e, h));
    ordered = λ k q h m. absurd m;
    aligned = λ k q h m. absurd m;
    apart = λ u. omega arith;
    counted = λ k. refl;
  };
  count = refl;
}

used-IsApart : IsApart used 1 0
used-IsApart u = two (0 == u) (1 == u) (λ e f. absurd (omega (arith, same 0 u e, same 1 u f)))
  where
    same : (a b : ℕ) → (a == b) ≡ true → a ≡ b
    same a b e = ground arith

    two :
        (b c : Bool)
        → (b ≡ true → c ≡ true → (if b then 1 else 0) + ((if c then 1 else 0) + 0) + 0 ≤ 1)
        → (if b then 1 else 0) + ((if c then 1 else 0) + 0) + 0 ≤ 1
    two true true h = h refl refl
    two true false h = omega arith
    two false true h = omega arith
    two false false h = omega arith

abbrev front_given : Zone
front_given = record (enlisted used 1 0) { nr_free_pages = 2 }

front_given_lem : free_to_buddy used 0 1 ≡ some front_given
unfolding free_to_buddy merge
front_given_lem = refl

-- the other half of the zone joins it
all_given :
    (free_to_buddy used 0 1 >>= λ z. free_to_buddy z 2 1 >>= λ z'. some (z'.blocks 2))
    ≡ some (0 ∷ [])
unfolding free_to_buddy merge
all_given = refl

given_twice : free_to_buddy front_given 0 1 ≡ none
unfolding free_to_buddy
given_twice = refl

free_lem_example :
    (z' : Zone) × (free_to_buddy used 0 1 ≡ some z')
    × IsZone z'
    × InPlace used z'
    × (z'.types ≡ used.types)
    × ((w : ℕ → ℕ) → free w z' ≡ block w 1 0 + free w used)
free_lem_example = free_lem used 0 1 used-IsZone (omega arith) (4, refl, omega arith) used-IsApart

front_given-IsZone : IsZone front_given
front_given-IsZone =
    let (z', e, k, place, types, sum) =
      free_lem used 0 1 used-IsZone (omega arith) (4, refl, omega arith) used-IsApart in
    let same : some z' ≡ some front_given = sym e ∙ front_given_lem in
    let same' : z' ≡ front_given = cc same in subst (λ z. IsZone z) same' k

alloc_lem_example :
    ((alloc_from_buddy front_given 0 ≡ exhausted)
      × ((k : ℕ) → 0 ≤ k → k < nr_free_lists → front_given.sizes k ≡ 0))
    ⊎ ((page : ℕ) × (z' : Zone) × (alloc_from_buddy front_given 0 ≡ allocated page z')
        × IsTaken front_given z' 0 page)
alloc_lem_example = alloc_lem front_given 0 front_given-IsZone (omega arith)
