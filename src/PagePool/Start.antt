-- ===== src/PagePool/Start.antt =====
-- Zones and pools at boot.
use native.Mathlib.Decide.{ℕ_discrete}
use x.Prelude.{
  ℕ, zero, suc, ◌+◌, ◌-◌, ◌/◌, ◌<◌, ◌≤◌, ◌≡◌, ◌≢◌, refl, sym, ap, subst, ◌∙◌, inr, [], Mem, update,
  update_self, update_ne, ltb, length, ◌%◌, ◌==◌, if◌then◌else◌, arith,
}
use x.Prelude.Words.{size_mod}
use x.PageZone.{Zone, ptob, btop, page_size, nr_free_lists, order_unlisted}
use x.PageZone.Weight.{lists}
use x.PageZone.Once.{once}
use x.PageZone.Shape.{free, page_count}
use x.PageZone.Pages.{IsZone}
use x.PagePool.{
  cpu_pool_init, compute_pool_size, pool_max_size, init_pages, zone_init, page_reserved,
}
use x.PagePool.Fill.{IsPool}
use x.PagePool.Held.{IsHeld}

-- What the loop over the pages of a zone keeps, and what it leaves of each page.
record Written (n : ℕ) (z : Zone) (page pa : ℕ) (z' : Zone) : Type 0 where
  start : z'.start ≡ z.start
  end : z'.end ≡ z.end
  sizes : z'.sizes ≡ z.sizes
  blocks : z'.blocks ≡ z.blocks
  count : z'.nr_free_pages ≡ z.nr_free_pages
  before : (q : ℕ) → q < page → (z'.orders q ≡ z.orders q) × (z'.phys_addr q ≡ z.phys_addr q)
  after :
      (q : ℕ)
      → page ≤ q
      → q < page + n
      → (z'.orders q ≡ order_unlisted) × (z'.phys_addr q ≡ pa + ptob (q - page))

init_pages_lem : (n : ℕ) (z : Zone) (page pa : ℕ) → Written n z page pa (init_pages n z page pa)
unfolding init_pages
init_pages_lem zero z page pa = record {
  start = refl;
  end = refl;
  sizes = refl;
  blocks = refl;
  count = refl;
  before = λ q h. (refl, refl);
  after = λ q h h'. absurd (omega (arith, h, h'));
}
init_pages_lem (suc n) z page pa =
    let z₁ : Zone = record z {
      types = update z.types page page_reserved;
      orders = update z.orders page order_unlisted;
      phys_addr = update z.phys_addr page pa;
    } in
    let rest : Written n z₁ (suc page) (pa + page_size)
        (init_pages n z₁ (suc page) (pa + page_size)) =
      init_pages_lem n z₁ (suc page) (pa + page_size) in
    record {
      start = rest.start;
      end = rest.end;
      sizes = rest.sizes;
      blocks = rest.blocks;
      count = rest.count;
      before = λ q h.
          let other : page ≢ q = λ e. absurd (omega (arith, e, h)) in
          let (e, f) = rest.before q (omega (arith, h)) in
          (
            e ∙ update_ne z.orders page q order_unlisted other,
            f ∙ update_ne z.phys_addr page q pa other,
          );
      after = λ q h h'. elim (ℕ_discrete page q) [
        | yes same ↦
            let (e, f) = rest.before q (omega (arith, same)) in
            (
              e
                  ∙ ap (update z.orders page order_unlisted) (sym same)
                  ∙ update_self z.orders page order_unlisted,
              f
                  ∙ ap (update z.phys_addr page pa) (sym same)
                  ∙ update_self z.phys_addr page pa
                  ∙ omega (arith, same),
            )
        | no n' ↦
            let (e, f) = rest.after q (omega (arith, h, n')) (omega (arith, h')) in
            (e, f ∙ omega (arith, h, n'))
      ];
    }

lists-empty : (w : ℕ → ℕ) (n : ℕ) → lists w (λ i. []) n ≡ 0
lists-empty w zero = refl
lists-empty w (suc n) = omega (arith, lists-empty w n)

-- A zone of whole pages is kept when it is initialised, whatever its members were, and has no free
-- page.
pub zone_init_lem :
    (z : Zone) (first last : ℕ)
    → first ≤ last
    → IsZone (zone_init z (ptob first) (ptob last))
      × ((w : ℕ → ℕ) → free w (zone_init z (ptob first) (ptob last)) ≡ 0)
unfolding zone_init
zone_init_lem z first last h =
    let z₀ : Zone = record z {
      start = ptob first;
      end = ptob last;
      sizes = λ i. 0;
      blocks = λ i. [];
      nr_free_pages = 0;
    } in
    let pages : ℕ = (ptob last - ptob first + page_size - 1) / page_size in
    let z' : Zone = init_pages pages z₀ 0 (ptob first) in
    let done : Written pages z₀ 0 (ptob first) z' = init_pages_lem pages z₀ 0 (ptob first) in
    let none_free : (w : ℕ → ℕ) → free w z' ≡ 0 =
      λ w. ap (λ b. lists w b nr_free_lists) done.blocks ∙ lists-empty w nr_free_lists in
    let in_range : (q : ℕ) → q < page_count z' → q < 0 + pages = λ q l. omega (
      arith,
      h,
      subst (λ s. q < btop (ptob last - s)) done.start
          (subst (λ t. q < btop (t - z'.start)) done.end l),
    ) in
    (
      record {
        first_page = first;
        last_page = last;
        start = done.start;
        end = done.end;
        phys_addr = λ q l. omega (arith, (done.after q (omega arith) (in_range q l)).1, done.start);
        lists = record {
          ranged = λ q l. inr ((done.after q (omega arith) (in_range q l)).0);
          listed = λ k q l l' e.
              absurd (omega (arith, (done.after q (omega arith) (in_range q l')).0, e, l));
          ordered = λ k q l m. absurd (subst (λ b. Mem q (b k)) done.blocks m);
          aligned = λ k q l m. absurd (subst (λ b. Mem q (b k)) done.blocks m);
          apart = λ u. omega (arith, none_free (once u));
          counted =
              λ k. ap (λ s. s k) done.sizes ∙ ap (λ b. length (b k) % size_mod) (sym done.blocks);
        };
        count = done.count ∙ ap (λ n. n % size_mod) (sym (none_free (λ p. 1)));
      },
      none_free,
    )

-- The size of a pool is between one page and the greatest size.
compute_pool_size_lem :
    (z : Zone) → (0 < compute_pool_size z) × (compute_pool_size z ≤ pool_max_size)
unfolding compute_pool_size
compute_pool_size_lem z = bounds (btop (z.end - z.start) / 1024)
  where
    bounds :
        (size : ℕ)
        → (0 < (if size == 0 then 1 else if ltb pool_max_size size then pool_max_size else size))
          × ((if size == 0 then 1 else if ltb pool_max_size size then pool_max_size else size)
              ≤ pool_max_size)
    bounds size = (ground arith, ground arith)

-- A new pool is empty and has room.
pub cpu_pool_init-IsPool : (z z' : Zone) → IsPool (cpu_pool_init (compute_pool_size z)) z'
unfolding cpu_pool_init
cpu_pool_init-IsPool z z' = record {
  count = refl;
  bounded = omega arith;
  in_zone = λ page m. absurd m;
  some_size = (compute_pool_size_lem z).0;
  transfer = ap (λ n. n / 2) (omega arith);
}

-- It holds no page, and neither does a zone without free blocks.
pub cpu_pool_init-IsHeld :
    (z z' : Zone) → ((w : ℕ → ℕ) → free w z' ≡ 0) → IsHeld (cpu_pool_init (compute_pool_size z)) z'
unfolding cpu_pool_init
cpu_pool_init-IsHeld z z' h = record {
  apart = λ u. omega (arith, h (once u));
  free_types = λ u l. absurd (omega (arith, h (once u), l));
}
