-- ===== src/PageZone/Pages.antt =====
-- The free pages of a zone, across allocations and frees.
use native.Mathlib.Nat.{pow-le-pow_right}
use x.Prelude.{
  ℕ, zero, suc, ◌+◌, ◌-◌, ◌%◌, ◌^◌, ◌<◌, ◌≤◌, ◌≡◌, ◌≢◌, refl, sym, ap, subst, ◌∙◌, ◌⊎◌, inl, inr,
  List, [], ◌∷◌, length, Mem, some, ◌>>=◌, lt→ltb, arith,
}
use x.Prelude.Words.{size_mod, size_add, size_sub}
use x.PageZone.{
  Zone, btop, ptob, nr_free_lists, detach, split, exhausted, allocated, without_block, take_block,
  take_from, alloc_from_buddy, free_to_buddy,
}
use x.PageZone.Weight.{run, block, lists}
use x.PageZone.Once.{once}
use x.PageZone.Shape.{
  IsBlock, InPlace, page_count, IsListed, IsApart, free, detached, apart-unlisted, first-inside,
  detach_lem, free-detach,
}
use x.PageZone.Moved.{detach-IsApart, detach-IsListed}
use x.PageZone.Split.{split_lem, first_list_lem}
use x.PageZone.Merge.{merge_lem}

-- The zone is a range of pages, whose addresses follow each other, its lists are kept, and it counts
-- its free pages.
pub record IsZone (z : Zone) : Type 0 where
  pub first_page : ℕ
  pub last_page : ℕ
  pub start : z.start ≡ ptob first_page
  pub end : z.end ≡ ptob last_page
  pub phys_addr : (page : ℕ) → page < page_count z → z.phys_addr page ≡ z.start + ptob page
  pub lists : IsListed z
  pub count : z.nr_free_pages ≡ free (λ page. 1) z % size_mod

-- Such a zone after an operation that keeps its bounds and addresses.
pub kept-IsZone :
    (z z' : Zone)
    → IsZone z
    → z'.start ≡ z.start
    → z'.end ≡ z.end
    → z'.phys_addr ≡ z.phys_addr
    → IsListed z'
    → z'.nr_free_pages ≡ free (λ page. 1) z' % size_mod
    → IsZone z'
kept-IsZone z z' r e f g lists count = record {
  first_page = r.first_page;
  last_page = r.last_page;
  start = e ∙ r.start;
  end = f ∙ r.end;
  phys_addr = λ p h.
      ap (λ k. k p) g
      ∙ r.phys_addr p
          (subst (λ s. p < btop (z.end - s)) e (subst (λ t. p < btop (t - z'.start)) f h))
      ∙ ap (λ s. s + ptob p) (sym e);
  lists = lists;
  count = count;
}

run-one : (n page : ℕ) → run (λ p. 1) page n ≡ n
run-one zero page = refl
run-one (suc n) page = omega (arith, run-one n (suc page))

small-pow : (order : ℕ) → order < nr_free_lists → 2 ^ order ≤ 1024
small-pow order h = pow-le-pow_right {n = 2} (omega arith) {i = order} {j = 10} (omega arith)

-- The same lists in a zone that counts its free pages in another way, and with other types.
counted-IsListed :
    (z : Zone) (n : ℕ) (types : ℕ → ℕ)
    → IsListed z
    → IsListed (record z { nr_free_pages = n; types = types })
counted-IsListed z n types r = record {
  ranged = r.ranged;
  listed = r.listed;
  ordered = r.ordered;
  aligned = r.aligned;
  apart = r.apart;
  counted = r.counted;
}

-- Giving a block of a well-formed zone (IsZone) back of which no page is free does not fail an
-- assertion. It keeps the
-- zone with its bounds and types, and the free blocks have the pages of that block more than before,
-- and no others: for any weight of the pages, the sum over the free blocks grows by the sum over the
-- block.
pub free_lem :
    (z : Zone) (page order : ℕ)
    → IsZone z
    → order < nr_free_lists
    → IsBlock z order page
    → IsApart z order page
    → (z' : Zone) × (free_to_buddy z page order ≡ some z')
      × IsZone z'
      × InPlace z z'
      × (z'.types ≡ z.types)
      × ((w : ℕ → ℕ) → free w z' ≡ block w order page + free w z)
unfolding free_to_buddy
free_lem z page order r h a alone =
    let inside : page < page_count z = first-inside z order page (a.2) in
    let (z₁, e, given) =
      merge_lem (nr_free_lists - 1 - order) z r.first_page r.last_page order page r.start r.end
        (omega arith) a alone r.lists in
    let z₂ : Zone = record z₁ { nr_free_pages = size_add z₁.nr_free_pages (2 ^ order) } in
    (
      z₂,
      rw (
        lt→ltb page (page_count z) inside,
        apart-unlisted z order page a r.lists alone,
        lt→ltb order nr_free_lists h,
        r.phys_addr page inside,
        e,
      ),
      kept-IsZone z z₂ r given.start given.end given.phys_addr
          (counted-IsListed z₁ (size_add z₁.nr_free_pages (2 ^ order)) z₁.types given.lists)
          (ap (λ n. size_add n (2 ^ order)) (given.count ∙ r.count)
            ∙ omega (arith, given.weights (λ p. 1), run-one (2 ^ order) page)),
      (given.start, given.end),
      given.types,
      given.weights,
    )

-- What an allocation of a block leaves.
pub record IsTaken (z z' : Zone) (order page : ℕ) : Type 0 where
  pub keeps : IsZone z'
  pub is_block : IsBlock z' order page
  pub apart : IsApart z' order page
  pub in_place : InPlace z z'
  pub types : z'.types ≡ z.types
  pub weights : (w : ℕ → ℕ) → free w z ≡ block w order page + free w z'

taken :
    (z : Zone) (order i page : ℕ) (pages : List ℕ)
    → IsZone z
    → order ≤ i
    → i < nr_free_lists
    → z.blocks i ≡ page ∷ pages
    → (z' : Zone) × (take_block z order i (z.blocks i) ≡ allocated page z')
      × IsTaken z z' order page
taken z order i page pages r l h e =
    let there : Mem page (z.blocks i) = subst (λ k. Mem page k) (sym e) (inl refl) in
    let z₁ : Zone = detached z i page in
    let whole : order + (i - order) ≡ i = omega arith in
    let (z₂, f, cut) =
      split_lem (i - order) z₁ order page (omega arith)
        (subst (λ k. IsBlock z₁ k page) (sym whole) (r.lists.aligned i page h there))
        (subst (λ k. IsApart z₁ k page) (sym whole) (detach-IsApart z i page h there r.lists))
        (detach-IsListed z i page h there r.lists) in
    let weights : (w : ℕ → ℕ) → free w z ≡ block w order page + free w z₂ = λ w.
      omega
        (arith, cut.weights w, ap (λ k. block w k page) whole, free-detach w z i page h there) in
    let z₃ : Zone = record z₂ { nr_free_pages = size_sub z₂.nr_free_pages (2 ^ order) } in
    let without : (detach z i page >>= λ z'. split (i - order) z' order page) ≡ some z₂ =
      rw (detach_lem z i page h (r.lists.ordered i page h there)) f in
    (
      z₃,
      ap (take_block z order i) e ∙ ap (without_block order page) without,
      record {
        keeps =
            kept-IsZone z z₃ r cut.start cut.end cut.phys_addr
              (counted-IsListed z₂ (size_sub z₂.nr_free_pages (2 ^ order)) z₂.types cut.lists)
              (ap (λ n. size_sub n (2 ^ order)) (cut.count ∙ r.count)
                ∙ omega (
                  arith,
                  weights (λ p. 1),
                  run-one (2 ^ order) page,
                  small-pow order (omega arith),
                ));
        is_block = cut.aligned;
        apart = λ u. omega (arith, weights (once u), r.lists.apart u);
        in_place = (cut.start, cut.end);
        types = cut.types;
        weights = weights;
      },
    )

has_first :
    (a : ℕ) (xs : List ℕ)
    → a ≢ 0
    → a ≡ length xs % size_mod
    → (x : ℕ) × (ys : List ℕ) × (xs ≡ x ∷ ys)
has_first a [] n e = absurd (n e)
has_first a (x ∷ xs) n e = (x, xs, refl)

-- Allocating from the buddy system of a well-formed zone (IsZone) does not fail an assertion. It finds
-- nothing when no list of the order or a higher one has a block. Otherwise it gives a block of the zone of that order of which no
-- page is free any more, keeps the zone with its bounds and types, and the free blocks have all pages
-- that they had but those of the block: for any weight of the pages, the sum over the free blocks is
-- the sum over the block and that over the free blocks which are left.
pub alloc_lem :
    (z : Zone) (order : ℕ)
    → IsZone z
    → order < nr_free_lists
    → ((alloc_from_buddy z order ≡ exhausted)
        × ((k : ℕ) → order ≤ k → k < nr_free_lists → z.sizes k ≡ 0))
      ⊎ ((page : ℕ) × (z' : Zone) × (alloc_from_buddy z order ≡ allocated page z')
          × IsTaken z z' order page)
unfolding alloc_from_buddy
alloc_lem z order r h =
    rw (lt→ltb order nr_free_lists h) (elim (first_list_lem (nr_free_lists - order) z order) [
      | inl (e, f) ↦ inl (ap (take_from z order) e, λ k l l'. f k l (omega arith))
      | inr (i, e, l, l', n) ↦
          let (page, pages, f) = has_first (z.sizes i) (z.blocks i) n (r.lists.counted i) in
          let (z', g, k) = taken z order i page pages r l (omega arith) f in
          inr (page, z', ap (take_from z order) e ∙ g, k)
    ])

-- The types of the pages do not matter.
pub typed-IsZone : (z : Zone) (types : ℕ → ℕ) → IsZone z → IsZone (record z { types = types })
typed-IsZone z types r =
    kept-IsZone z (record z { types = types }) r refl refl refl
      (counted-IsListed z z.nr_free_pages types r.lists) r.count
