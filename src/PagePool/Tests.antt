-- ===== src/PagePool/Tests.antt =====
-- A zone of four pages, with the pool of a processor.
use x.Prelude.{ℕ, ◌<◌, ◌≡◌, ◌≢◌, refl, sym, subst, ◌∙◌, ◌⊎◌, inl, inr, [], none, some, ◌>>=◌, arith}
use x.PageZone.{alloc_from_buddy, first_list, split, free_to_buddy, merge}
use x.PageZone.{Zone, ptob}
use x.PageZone.Shape.{free, enlisted}
use x.PageZone.Pages.{IsZone}
use x.PagePool.{
  CpuPool, cpu_pool_init, compute_pool_size, zone_init, Served, zone_alloc, Drained, zone_free,
  init_pages, page_free, set_type, fill, fill_loop, push, pop,
}
use x.PagePool.Start.{zone_init_lem, cpu_pool_init-IsPool, cpu_pool_init-IsHeld}
use x.PagePool.Alloc.{IsServed}
use x.PagePool.Serve.{IsFreed, zone_alloc_lem, zone_free_lem}
use x.PagePool.Fill.{IsPool}
use x.PagePool.Held.{Inside, IsHeld}

abbrev blank : Zone
blank = record {
  start = 0;
  end = 0;
  sizes = λ k. 0;
  blocks = λ k. [];
  nr_free_pages = 0;
  orders = λ page. 0;
  types = λ page. 0;
  phys_addr = λ page. 0;
}

abbrev fresh : Zone
fresh = zone_init blank (ptob 8) (ptob 12)

abbrev pool : CpuPool
pool = cpu_pool_init (compute_pool_size fresh)

pool-IsPool : IsPool pool fresh
pool-IsPool = cpu_pool_init-IsPool fresh fresh

zone_init_lem_example : IsZone fresh × ((w : ℕ → ℕ) → free w fresh ≡ 0)
zone_init_lem_example = zone_init_lem blank 8 12 (omega arith)

fresh-IsHeld : IsHeld pool fresh
fresh-IsHeld = cpu_pool_init-IsHeld fresh fresh ((zone_init_lem blank 8 12 (omega arith)).1)

reserved : (u : ℕ) → Inside u 0 2 → fresh.types u ≢ page_free
unfolding zone_init init_pages
reserved u (h, h') = elim (either u h') [
  | inl e ↦ subst (λ v. fresh.types v ≢ page_free) e (λ f. absurd (omega (arith, f)))
  | inr e ↦ subst (λ v. fresh.types v ≢ page_free) e (λ f. absurd (omega (arith, f)))
]
  where
    either : (u : ℕ) → u < 2 → (0 ≡ u) ⊎ (1 ≡ u)
    either u h = omega arith

zone_free_lem_example :
    (d : Drained) × (zone_free pool fresh 0 1 ≡ some d)
    × IsFreed pool fresh 0 1 d
    × (zone_free d.pool d.zone 0 1 ≡ none)
unfolding zone_init init_pages
zone_free_lem_example =
    zone_free_lem pool fresh 0 1 pool-IsPool ((zone_init_lem blank 8 12 (omega arith)).0)
      fresh-IsHeld (omega arith) (4, refl, omega arith) reserved

abbrev stocked : Zone
stocked = record (enlisted (set_type fresh 0 1 page_free) 1 0) { nr_free_pages = 2 }

stocked_lem : zone_free pool fresh 0 1 ≡ some (record { pool = pool; zone = stocked })
unfolding zone_init init_pages zone_free free_to_buddy merge
stocked_lem = refl

freed_twice : zone_free pool stocked 0 1 ≡ none
unfolding zone_free zone_init init_pages
freed_twice = refl

stocked-IsFreed : IsFreed pool fresh 0 1 (record { pool = pool; zone = stocked })
stocked-IsFreed =
    let (d, e, k, again) = zone_free_lem_example in
    let same : some d ≡ some (record { pool = pool; zone = stocked }) = sym e ∙ stocked_lem in
    let same' : d ≡ record { pool = pool; zone = stocked } = cc same in
    subst (λ d. IsFreed pool fresh 0 1 d) same' k

-- The pool is filled from the block, and gives its first page.
page_given : (zone_alloc pool stocked 0 6 >>= λ s. s.page) ≡ some 0
unfolding zone_alloc fill fill_loop alloc_from_buddy first_list split push pop cpu_pool_init
    compute_pool_size zone_init init_pages
page_given = refl

zone_alloc_lem_example :
    (s : Served) × (zone_alloc pool stocked 0 6 ≡ some s) × IsServed pool stocked 0 6 s
zone_alloc_lem_example =
    zone_alloc_lem pool stocked 0 6 stocked-IsFreed.keeps_pool stocked-IsFreed.keeps_zone
      stocked-IsFreed.keeps_held (omega arith)
