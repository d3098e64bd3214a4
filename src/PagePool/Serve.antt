-- ===== src/PagePool/Serve.antt =====
-- Allocating pages from a zone and freeing them, through the pool of the processor.
use x.Prelude.{
  ℕ, zero, suc, ◌+◌, ◌^◌, ◌<◌, ◌≤◌, ◌≡◌, ◌≢◌, refl, ap, none, some, ne→==, eq→==, lt→ltb, arith,
}
use native.Mathlib.Decide.{ℕ_discrete}
use x.Prelude.Bits.{pow-pos}
use x.PageZone.{Zone, nr_free_lists}
use x.PageZone.Weight.{block, list}
use x.PageZone.Once.{once}
use x.PageZone.Shape.{IsBlock, InPlace, moved-IsBlock}
use x.PageZone.Pages.{IsZone, typed-IsZone, free_lem}
use x.PagePool.{
  CpuPool, Drained, drain, Served, zone_alloc, free_with, zone_free, set_type, set_types, put,
  page_free,
}
use x.PagePool.Fill.{IsPool, moved-IsPool, held, push_lem, Shared, drain_loop_lem}
use x.PagePool.Held.{Inside, IsTyped, set_type-IsTyped, IsHeld, not_held, given-IsHeld}
use x.PagePool.Alloc.{positive, IsServed, same_pool, alloc_with_lem}

-- Allocating 2 ^ order pages from a well-formed zone (IsZone) through the well-formed pool of the
-- processor (IsPool) never fails an assertion, where no page is held twice by the pool and the free blocks and those that are held have the type of
-- free pages. It keeps all that. It either finds no block of the order or a higher one in the zone, and
-- neither the pool nor the zone loses a page, or it gives a block of the zone of that order, whose pages,
-- and no others, leave the pool and the zone and get the type that was asked for: for any weight of the
-- pages, the sums over the pool and the free blocks say so.
pub zone_alloc_lem :
    (pool : CpuPool) (z : Zone) (order type : ℕ)
    → IsPool pool z
    → IsZone z
    → IsHeld pool z
    → order < nr_free_lists
    → (s : Served) × (zone_alloc pool z order type ≡ some s) × IsServed pool z order type s
unfolding zone_alloc
zone_alloc_lem pool z order type p r o l =
    let (s, f, i) = alloc_with_lem pool z p r o order type l in
    (s, rw (lt→ltb order nr_free_lists l) f, i)

pub record IsFreed (pool : CpuPool) (z : Zone) (page order : ℕ) (d : Drained) : Type 0 where
  pub keeps_pool : IsPool d.pool d.zone
  pub keeps_zone : IsZone d.zone
  pub keeps_held : IsHeld d.pool d.zone
  pub in_place : InPlace z d.zone
  pub typed : IsTyped z d.zone order page page_free
  pub weights : (w : ℕ → ℕ) → held w d.pool d.zone ≡ block w order page + held w pool z

module _ (pool : CpuPool) (z : Zone) (page order : ℕ) (o : IsHeld pool z)
    (used : (u : ℕ) → Inside u page (2 ^ order) → z.types u ≢ page_free) where
  abbrev z₁ : Zone
  z₁ = set_type z page order page_free

  freed :
      (d : Drained)
      → IsPool d.pool d.zone
      → IsZone d.zone
      → InPlace z d.zone
      → d.zone.types ≡ z₁.types
      → ((w : ℕ → ℕ) → held w d.pool d.zone ≡ block w order page + held w pool z)
      → IsFreed pool z page order d
  freed d p r m e sum =
      let t : IsTyped z d.zone order page page_free =
        set_type-IsTyped z z d.zone order page page_free refl e in
      record {
        keeps_pool = p;
        keeps_zone = r;
        keeps_held = given-IsHeld pool z d.pool d.zone order page o used t sum;
        in_place = m;
        typed = t;
        weights = sum;
      }

-- The page that is freed goes to a pool that has room.
given :
    (pool : CpuPool) (z : Zone) (pool₁ : CpuPool) (z₁ : Zone) (page : ℕ)
    → Shared pool z pool₁ z₁
    → pool₁.nr_pages < pool₁.size
    → IsBlock z 0 page
    → (pool₂ : CpuPool) × (put page (record { pool = pool₁; zone = z₁ })
        ≡ some (record { pool = pool₂; zone = z₁ }))
      × IsPool pool₂ z₁
      × ((w : ℕ → ℕ) → held w pool₂ z₁ ≡ block w 0 page + held w pool z)
given pool z pool₁ z₁ page h l a =
    let (pool₂, e, p, pages, more, size) =
      push_lem pool₁ z₁ page h.keeps_pool l (moved-IsBlock z z₁ 0 page h.in_place a) in
    (pool₂, rw e, p, λ w. omega (arith, h.weights w, ap (λ l. list w 0 l) pages))

free_with_lem :
    (pool : CpuPool) (z : Zone) (page order : ℕ)
    → IsPool pool z
    → IsZone z
    → order < nr_free_lists
    → IsBlock z order page
    → ((u : ℕ) → block (once u) order page + held (once u) pool z ≤ 1)
    → (d : Drained) × (free_with pool z page order ≡ some d)
      × IsPool d.pool d.zone
      × IsZone d.zone
      × InPlace z d.zone
      × (d.zone.types ≡ z.types)
      × ((w : ℕ → ℕ) → held w d.pool d.zone ≡ block w order page + held w pool z)
unfolding drain
free_with_lem pool z page zero p r l a alone = elim (ℕ_discrete pool.nr_pages pool.size) [
  | no n ↦
      let (pool₂, e, p₂, sum) =
        given pool z pool z page (same_pool pool z p r) (omega (arith, p.bounded, n)) a in
      (
        record { pool = pool₂; zone = z },
        rw (ne→== pool.nr_pages pool.size n) e,
        p₂,
        r,
        (refl, refl),
        refl,
        sum,
      )
  | yes f ↦
      let (drained, g, h, c) =
        drain_loop_lem pool.transfer_size pool z p r (λ u. omega (arith, alone u))
          (omega (arith, f, p.transfer, p.some_size)) in
      let (pool₂, e, p₂, sum) =
        given pool z drained.pool drained.zone page h
          (omega (arith, c, h.size, f, p.transfer, p.some_size)) a in
      (
        record { pool = pool₂; zone = drained.zone },
        rw (eq→== pool.nr_pages pool.size f, g) e,
        p₂,
        h.keeps_zone,
        h.in_place,
        h.types,
        sum,
      )
]
free_with_lem pool z page (suc order) p r l a alone =
    let (z', e, r', m, types, v) =
      free_lem z page (suc order) r l a (λ u. omega (arith, alone u)) in
    (
      record { pool = pool; zone = z' },
      rw (positive order, e),
      moved-IsPool pool z z' m p,
      r',
      m,
      types,
      λ w. omega (arith, v w),
    )

free_again :
    (d : Drained) (page order : ℕ)
    → d.zone.types page ≡ page_free
    → zone_free d.pool d.zone page order ≡ none
unfolding zone_free
free_again d page order e = rw (eq→== (d.zone.types page) page_free e)

-- Freeing a block of a well-formed zone (IsZone), of which no page has the type of a free one, through
-- the well-formed pool of the processor (IsPool) never fails an assertion, where no page is held twice by the pool and the free blocks and
-- those that are held have the type of free pages. It keeps all that, and the pages of the block, and no
-- others, come to the pool and the zone and get that type. Freeing the block once more then fails an
-- assertion.
pub zone_free_lem :
    (pool : CpuPool) (z : Zone) (page order : ℕ)
    → IsPool pool z
    → IsZone z
    → IsHeld pool z
    → order < nr_free_lists
    → IsBlock z order page
    → ((u : ℕ) → Inside u page (2 ^ order) → z.types u ≢ page_free)
    → (d : Drained) × (zone_free pool z page order ≡ some d)
      × IsFreed pool z page order d
      × (zone_free d.pool d.zone page order ≡ none)
unfolding zone_free
zone_free_lem pool z page order p r o l a used =
    let z₁ : Zone = set_type z page order page_free in
    let own : z.types page ≢ page_free = used page (omega arith, omega (arith, pow-pos order)) in
    let (d, e, p', r', m, types, sum) =
      free_with_lem pool z₁ page order (moved-IsPool pool z z₁ (refl, refl) p)
        (typed-IsZone z (set_types z.types page (2 ^ order) page_free) r) l a
        (not_held pool z order page o used) in
    let k : IsFreed pool z page order d = freed pool z page order o used d p' r' m types sum in
    let free_now : d.zone.types page ≡ page_free =
      k.typed.inside page (omega arith, omega (arith, pow-pos order)) in
    (
      d,
      rw (ne→== (z.types page) page_free own, lt→ltb order nr_free_lists l) e,
      k,
      free_again d page order free_now,
    )
