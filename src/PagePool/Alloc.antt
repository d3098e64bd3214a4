-- ===== src/PagePool/Alloc.antt =====
-- What an allocation of pages leaves, by the way that it takes.
use x.Prelude.{
  ℕ, zero, suc, ◌+◌, ◌^◌, ◌<◌, ◌≤◌, ◌≡◌, ◌≢◌, refl, sym, ap, ◌∙◌, ◌⊎◌, inl, inr, false, none, some,
  ne→==, eq→==, ◌==◌, ◌>>=◌, arith,
}
use native.Mathlib.Decide.{ℕ_discrete}
use x.PageZone.{Zone, nr_free_lists, alloc_from_buddy}
use x.PageZone.Weight.{block, list}
use x.PageZone.Shape.{IsBlock, InPlace, moved-IsBlock}
use x.PageZone.Pages.{IsZone, typed-IsZone, alloc_lem}
use x.PagePool.{
  CpuPool, pop, fill, Served, serve, after_fill, from_buddy, alloc_with, set_type, set_types,
}
use x.PagePool.Fill.{IsPool, moved-IsPool, held, pop_lem, Shared, fill_loop_lem}
use x.PagePool.Held.{IsTyped, set_type-IsTyped, IsHeld, Shared-IsHeld, hand_out_lem}

pub positive : (order : ℕ) → (suc order == 0) ≡ false
positive order = ne→== (suc order) 0 (λ e. absurd (omega (arith, e)))

-- What an allocation leaves: either there was no block, and nothing is lost, or the pages of a block
-- are gone from the pool and the zone, and have the type that was asked for.
pub record IsServed (pool : CpuPool) (z : Zone) (order type : ℕ) (s : Served) : Type 0 where
  pub keeps_pool : IsPool s.pool s.zone
  pub keeps_zone : IsZone s.zone
  pub keeps_held : IsHeld s.pool s.zone
  pub in_place : InPlace z s.zone
  pub result :
      ((s.page ≡ none)
        × ((k : ℕ) → order ≤ k → k < nr_free_lists → s.zone.sizes k ≡ 0)
        × (s.zone.types ≡ z.types)
        × ((w : ℕ → ℕ) → held w s.pool s.zone ≡ held w pool z))
      ⊎ ((page : ℕ) × (s.page ≡ some page)
          × IsBlock z order page
          × IsTyped z s.zone order page type
          × ((w : ℕ → ℕ) → held w pool z ≡ block w order page + held w s.pool s.zone))

-- The page that is popped is served.
served :
    (type : ℕ) (pool : CpuPool) (z : Zone) (pool₁ : CpuPool) (z₁ : Zone)
    → IsHeld pool z
    → Shared pool z pool₁ z₁
    → pool₁.nr_pages ≢ 0
    → (s : Served) × ((pop pool₁ >>= serve type z₁) ≡ some s) × IsServed pool z 0 type s
served type pool z pool₁ z₁ o h n =
    let (popped, e, g) = pop_lem pool₁ z₁ h.keeps_pool n in
    let z₂ : Zone = set_type z₁ popped.page 0 type in
    let sum : (w : ℕ → ℕ) → held w pool z ≡ block w 0 popped.page + held w popped.pool z₁ =
      λ w. omega (arith, h.weights w, ap (λ l. list w 0 l) g.pages) in
    let (f, o₂) = hand_out_lem pool z popped.pool z₁ 0 type popped.page o h.types sum in
    (
      record { page = some popped.page; pool = popped.pool; zone = z₂ },
      ap (λ m. m >>= serve type z₁) e ∙ f,
      record {
        keeps_pool = moved-IsPool popped.pool z₁ z₂ (refl, refl) g.keeps;
        keeps_zone = typed-IsZone z₁ (set_types z₁.types popped.page 1 type) h.keeps_zone;
        keeps_held = o₂;
        in_place = h.in_place;
        result = inr (
          popped.page,
          refl,
          moved-IsBlock z₁ z 0 popped.page (sym h.in_place.0, sym h.in_place.1) g.in_zone,
          set_type-IsTyped z z₁ z₂ 0 popped.page type h.types refl,
          sum,
        );
      },
    )

module _ (pool : CpuPool) (z : Zone) (p : IsPool pool z) (r : IsZone z) where
  pub same_pool : Shared pool z pool z
  same_pool = record {
    keeps_pool = p;
    keeps_zone = r;
    in_place = (refl, refl);
    size = refl;
    types = refl;
    weights = λ w. refl;
  }

  module _ (o : IsHeld pool z) where
    from_empty :
        (type : ℕ)
        → pool.nr_pages ≡ 0
        → (s : Served) × ((fill pool z >>= after_fill type) ≡ some s) × IsServed pool z 0 type s
    unfolding fill
    from_empty type e =
        let (filled, f, h, c, done) =
          fill_loop_lem pool.transfer_size 0 pool z p r
            (omega (arith, e, p.transfer, p.some_size)) in
        elim (ℕ_discrete filled.count 0) [
          | yes g ↦ (
            record { page = none; pool = filled.pool; zone = filled.zone },
            rw (eq→== pool.nr_pages 0 e, f, eq→== filled.count 0 g),
            record {
              keeps_pool = h.keeps_pool;
              keeps_zone = h.keeps_zone;
              keeps_held = Shared-IsHeld pool z filled.pool filled.zone h o;
              in_place = h.in_place;
              result = inl (
                refl,
                (λ k l l'. elim done [
                  | inl d ↦ absurd (omega (arith, d, g, p.transfer, p.some_size))
                  | inr empty ↦ empty k l'
                ]),
                h.types,
                h.weights,
              );
            },
          )
          | no n ↦
              let (s, g, i) =
                served type pool z filled.pool filled.zone o h (λ k. n (omega (arith, c, e, k))) in
              (s, rw (eq→== pool.nr_pages 0 e, f, ne→== filled.count 0 n) g, i)
        ]

    from_lists :
        (order type : ℕ)
        → order < nr_free_lists
        → (s : Served) × (from_buddy pool z order type (alloc_from_buddy z order) ≡ some s)
          × IsServed pool z order type s
    from_lists order type l = elim (alloc_lem z order r l) [
      | inl (e, empty) ↦ (
        record { page = none; pool = pool; zone = z },
        ap (from_buddy pool z order type) e,
        record {
          keeps_pool = p;
          keeps_zone = r;
          keeps_held = o;
          in_place = (refl, refl);
          result = inl (refl, empty, refl, λ w. refl);
        },
      )
      | inr (page, z₁, e, t) ↦
          let z₂ : Zone = set_type z₁ page order type in
          let sum : (w : ℕ → ℕ) → held w pool z ≡ block w order page + held w pool z₁ =
            λ w. omega (arith, t.weights w) in
          let (f, o₂) = hand_out_lem pool z pool z₁ order type page o t.types sum in
          (
            record { page = some page; pool = pool; zone = z₂ },
            ap (from_buddy pool z order type) e ∙ f,
            record {
              keeps_pool = moved-IsPool pool z z₂ t.in_place p;
              keeps_zone = typed-IsZone z₁ (set_types z₁.types page (2 ^ order) type) t.keeps;
              keeps_held = o₂;
              in_place = t.in_place;
              result = inr (
                page,
                refl,
                moved-IsBlock z₁ z order page (sym t.in_place.0, sym t.in_place.1) t.is_block,
                set_type-IsTyped z z₁ z₂ order page type t.types refl,
                sum,
              );
            },
          )
    ]

    pub alloc_with_lem :
        (order type : ℕ)
        → order < nr_free_lists
        → (s : Served) × (alloc_with pool z order type ≡ some s) × IsServed pool z order type s
    alloc_with_lem zero type l = elim (ℕ_discrete pool.nr_pages 0) [
      | yes e ↦ let (s, f, i) = from_empty type e in (s, rw (eq→== pool.nr_pages 0 e) f, i)
      | no n ↦
          let (s, f, i) = served type pool z pool z o same_pool n in
          (s, rw (ne→== pool.nr_pages 0 n) f, i)
    ]
    alloc_with_lem (suc order) type l =
        let (s, f, i) = from_lists (suc order) type l in (s, rw (positive order) f, i)
