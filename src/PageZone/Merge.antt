-- ===== src/PageZone/Merge.antt =====
-- Giving a block back to the buddy system.
use native.Mathlib.Nat.{pow-suc}
use x.Prelude.{
  ℕ, zero, suc, ◌+◌, ◌-◌, ◌*◌, ◌^◌, ◌<◌, ◌≤◌, ◌≡◌, refl, sym, ap, subst, ◌∙◌, inl, inr, Bool, true,
  false, some, not, ◌||◌, Mem, ltb, leb, ◌==◌, Bool-cases, arith,
}
use x.PageZone.{Zone, ptob, page_at, block_start, buddy_pa, nr_free_lists, enlist, merge}
use x.PageZone.Once.{once}
use x.PageZone.Weight.{block, halves}
use x.PageZone.Align.{first_half, second_half, pair}
use x.PageZone.Shape.{
  IsBlock, page_count, IsListed, IsApart, free, enlisted, detached, apart-unlisted, enlist_lem,
  detach_lem, free-enlist, free-detach,
}
use x.PageZone.Moved.{enlist-IsListed, detach-IsListed}

-- The block that a block and its buddy make.
record Merged (z : Zone) (order page buddy : ℕ) (pa : ℕ) : Type 0 where
  page' : ℕ
  place : page_at z pa ≡ page'
  address : pa ≡ z.start + ptob page'
  both : IsBlock z (suc order) page'
  sum : (w : ℕ → ℕ) → block w (suc order) page' ≡ block w order page + block w order buddy

merged :
    (z : Zone) (s order page : ℕ)
    → z.start ≡ ptob s
    → IsBlock z order page
    → z.start ≤ buddy_pa (z.start + ptob page) order
    → page_at z (buddy_pa (z.start + ptob page) order) + 2 ^ order ≤ page_count z
    → Merged z order page
        (page_at z (buddy_pa (z.start + ptob page) order))
        (block_start (z.start + ptob page) (suc order))
merged z s order page e (t, a, inside) h inside' = elim (pair (z.start + ptob page) order t a) [
  | first_half u f g i ↦
      let there : page_at z (z.start + ptob page + ptob (2 ^ order)) ≡ page + 2 ^ order =
        omega (arith, e) in
      let here : page_at z (z.start + ptob page) ≡ page = omega (arith, e) in
      rw (g, i, there)
        (record {
          page' = page;
          place = here;
          address = refl;
          both = (
            u,
            f,
            omega (
              arith,
              subst (λ b. page_at z b + 2 ^ order ≤ page_count z) g inside',
              there,
              pow-suc 2 order,
            ),
          );
          sum = λ w. halves w order page;
        })
  | second_half u f g i ↦
      let pa : ℕ = ptob (2 ^ suc order) * u in
      let low : z.start ≤ pa = subst (λ b. z.start ≤ b) g h in
      let page' : ℕ = page - 2 ^ order in
      let enough : 2 ^ order ≤ page = omega (arith, low, f, e) in
      let address : pa ≡ z.start + ptob page' = omega (arith, f, enough) in
      let here : page_at z pa ≡ page' = omega (arith, address, e) in
      let back : page' + 2 ^ order ≡ page = omega (arith, enough) in
      rw (g, i, here)
        (record {
          page' = page';
          place = here;
          address = address;
          both = (u, sym address, omega (arith, inside, enough, pow-suc 2 order));
          sum = λ w.
              halves w order page'
              ∙ ap (λ p. block w order page' + block w order p) back
              ∙ omega arith;
        })
]

outer-false : (a b c : Bool) → (a || b || c) ≡ false → (a ≡ false) × (b ≡ false) × (c ≡ false)
outer-false false false false e = (refl, refl, refl)
outer-false false false true e = absurd (cc e)
outer-false false true c e = absurd (cc e)
outer-false true b c e = absurd (cc e)

not_below : (a b : ℕ) → ltb a b ≡ false → b ≤ a
not_below a b e = ground arith

not_above : (a b : ℕ) → leb b a ≡ false → a < b
not_above a b e = ground arith

same_order : (a b : ℕ) → not (a == b) ≡ false → a ≡ b
same_order a b e = ground arith

-- The loop lists exactly the pages of the block more than before, and touches nothing else.
pub record Given (z z' : Zone) (order page : ℕ) : Type 0 where
  pub lists : IsListed z'
  pub weights : (w : ℕ → ℕ) → free w z' ≡ block w order page + free w z
  pub start : z'.start ≡ z.start
  pub end : z'.end ≡ z.end
  pub count : z'.nr_free_pages ≡ z.nr_free_pages
  pub phys_addr : z'.phys_addr ≡ z.phys_addr
  pub types : z'.types ≡ z.types

last_step :
    (z : Zone) (order page : ℕ)
    → order < nr_free_lists
    → IsBlock z order page
    → IsApart z order page
    → IsListed z
    → (z' : Zone) × (enlist z order page ≡ some z') × Given z z' order page
last_step z order page h a alone r = (
  enlisted z order page,
  enlist_lem z order page (apart-unlisted z order page a r alone),
  record {
    lists = enlist-IsListed z order page h a alone r;
    weights = λ w. free-enlist w z order page h;
    start = refl;
    end = refl;
    count = refl;
    phys_addr = refl;
    types = refl;
  },
)

-- No assertion fails where no page of the block is free.
pub merge_lem :
    (n : ℕ) (z : Zone) (s t order page : ℕ)
    → z.start ≡ ptob s
    → z.end ≡ ptob t
    → order + n < nr_free_lists
    → IsBlock z order page
    → IsApart z order page
    → IsListed z
    → (z' : Zone) × (merge n z (z.start + ptob page) order page ≡ some z') × Given z z' order page
unfolding merge
merge_lem zero z s t order page e e' h a alone r = last_step z order page (omega arith) a alone r
merge_lem (suc n) z s t order page e e' h a alone r =
    let pa : ℕ = z.start + ptob page in
    let buddy : ℕ = page_at z (buddy_pa pa order) in
    let outside : Bool = ltb (buddy_pa pa order) z.start in
    elim (Bool-cases (outside || leb z.end (buddy_pa pa order) || not (z.orders buddy == order))) [
      | inl stop ↦
          let (z', f, given) = last_step z order page (omega arith) a alone r in
          (z', rw (stop, merge) f, given)
      | inr go ↦
          let (inside, below, same) =
            outer-false outside (leb z.end (buddy_pa pa order)) (not (z.orders buddy == order))
              go in
          let low : z.start ≤ buddy_pa pa order = not_below (buddy_pa pa order) z.start inside in
          let high : buddy_pa pa order < z.end = not_above (buddy_pa pa order) z.end below in
          let listed_as : z.orders buddy ≡ order = same_order (z.orders buddy) order same in
          let there : Mem buddy (z.blocks order) =
            r.listed order buddy (omega arith) (omega (arith, low, high, e, e')) listed_as in
          let (t', f, inside') = r.aligned order buddy (omega arith) there in
          let m : Merged z order page buddy (block_start pa (suc order)) =
            merged z s order page e a low inside' in
          let z₁ : Zone = detached z order buddy in
          let (z', g, given) =
            merge_lem n z₁ s t (suc order) m.page' e e' (omega arith) m.both
              (λ u. omega (
                arith,
                alone u,
                m.sum (once u),
                free-detach (once u) z order buddy (omega arith) there,
              ))
              (detach-IsListed z order buddy (omega arith) there r) in
          (
            z',
            rw (go, detach_lem z order buddy (omega arith) listed_as, m.place, m.address, merge) g,
            record {
              lists = given.lists;
              weights = λ w. omega (
                arith,
                given.weights w,
                m.sum w,
                free-detach w z order buddy (omega arith) there,
              );
              start = given.start;
              end = given.end;
              count = given.count;
              phys_addr = given.phys_addr;
              types = given.types;
            },
          )
    ]
