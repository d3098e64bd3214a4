-- ===== src/PagePool/Fill.antt =====
-- Filling the pool of a processor from its zone, and draining it.
use x.Prelude.{
  ℕ, zero, suc, ◌+◌, ◌-◌, ◌/◌, ◌<◌, ◌≤◌, ◌≡◌, ◌≢◌, refl, sym, ap, subst, ◌∙◌, ◌⊎◌, inl, inr, List,
  [], ◌∷◌, length, Mem, some, lt→ltb, ne→==, arith,
}
use x.PageZone.{Zone, nr_free_lists}
use x.PageZone.Weight.{block, list}
use x.PageZone.Once.{once}
use x.PageZone.Shape.{IsBlock, InPlace, moved-IsBlock, free}
use x.PageZone.Pages.{IsZone, alloc_lem, free_lem}
use x.PagePool.{CpuPool, Popped, pop, push, Filled, fill_loop, Drained, drain_loop}

-- A pool counts its pages, they are pages of the zone, and it has room for what is transferred.
pub record IsPool (pool : CpuPool) (z : Zone) : Type 0 where
  pub count : pool.nr_pages ≡ length pool.pages
  pub bounded : pool.nr_pages ≤ pool.size
  pub in_zone : (page : ℕ) → Mem page pool.pages → IsBlock z 0 page
  pub some_size : 0 < pool.size
  pub transfer : pool.transfer_size ≡ (pool.size + 1) / 2

pub moved-IsPool : (pool : CpuPool) (z z' : Zone) → InPlace z z' → IsPool pool z → IsPool pool z'
moved-IsPool pool z z' m r = record {
  count = r.count;
  bounded = r.bounded;
  in_zone = λ p i. moved-IsBlock z z' 0 p m (r.in_zone p i);
  some_size = r.some_size;
  transfer = r.transfer;
}

-- the weight of the pages of a pool and of the free blocks of its zone
abbrev pub held : (ℕ → ℕ) → CpuPool → Zone → ℕ
held w pool z = list w 0 pool.pages + free w z

pub push_lem :
    (pool : CpuPool) (z : Zone) (page : ℕ)
    → IsPool pool z
    → pool.nr_pages < pool.size
    → IsBlock z 0 page
    → (pool' : CpuPool) × (push pool page ≡ some pool')
      × IsPool pool' z
      × (pool'.pages ≡ page ∷ pool.pages)
      × (pool'.nr_pages ≡ pool.nr_pages + 1)
      × (pool'.size ≡ pool.size)
unfolding push
push_lem pool z page r h a = (
  record pool { nr_pages = pool.nr_pages + 1; pages = page ∷ pool.pages },
  rw (lt→ltb pool.nr_pages pool.size h),
  record {
    count = omega (arith, r.count);
    bounded = omega arith;
    in_zone = λ p i. elim i [ inl e ↦ subst (λ q. IsBlock z 0 q) e a | inr j ↦ r.in_zone p j ];
    some_size = r.some_size;
    transfer = r.transfer;
  },
  refl,
  refl,
  refl,
)

-- The first page of a pool is given, and the pool has the others.
pub record Gave (pool : CpuPool) (z : Zone) (popped : Popped) : Type 0 where
  pub keeps : IsPool popped.pool z
  pub in_zone : IsBlock z 0 popped.page
  pub pages : pool.pages ≡ popped.page ∷ popped.pool.pages
  pub fewer : pool.nr_pages ≡ popped.pool.nr_pages + 1
  pub size : popped.pool.size ≡ pool.size

pub pop_lem :
    (pool : CpuPool) (z : Zone)
    → IsPool pool z
    → pool.nr_pages ≢ 0
    → (popped : Popped) × (pop pool ≡ some popped) × Gave pool z popped
unfolding pop
pop_lem pool z r n = taken pool.pages refl
  where
    taken :
        (pages : List ℕ)
        → pool.pages ≡ pages
        → (popped : Popped) × (pop pool ≡ some popped) × Gave pool z popped
    taken [] e = absurd (n (r.count ∙ ap length e))
    taken (page ∷ pages) e = (
      record { page = page; pool = record pool { nr_pages = pool.nr_pages - 1; pages = pages } },
      rw (ne→== pool.nr_pages 0 n, e),
      record {
        keeps = record {
          count = omega (arith, r.count, ap length e);
          bounded = omega (arith, r.bounded);
          in_zone = λ p i. r.in_zone p (subst (λ l. Mem p l) (sym e) (inr i));
          some_size = r.some_size;
          transfer = r.transfer;
        };
        in_zone = r.in_zone page (subst (λ l. Mem page l) (sym e) (inl refl));
        pages = e;
        fewer = omega (arith, n);
        size = refl;
      },
    )

-- The pool and its zone keep their pages, as often as each was in them.
pub record Shared (pool : CpuPool) (z : Zone) (pool' : CpuPool) (z' : Zone) : Type 0 where
  pub keeps_pool : IsPool pool' z'
  pub keeps_zone : IsZone z'
  pub in_place : InPlace z z'
  pub size : pool'.size ≡ pool.size
  pub types : z'.types ≡ z.types
  pub weights : (w : ℕ → ℕ) → held w pool' z' ≡ held w pool z

-- What was done before is added.
Shared-after :
    (pool : CpuPool) (z : Zone) (pool₁ : CpuPool) (z₁ : Zone) (pool' : CpuPool) (z' : Zone)
    → InPlace z z₁
    → pool₁.size ≡ pool.size
    → z₁.types ≡ z.types
    → ((w : ℕ → ℕ) → held w pool₁ z₁ ≡ held w pool z)
    → Shared pool₁ z₁ pool' z'
    → Shared pool z pool' z'
Shared-after pool z pool₁ z₁ pool' z' m size types sum s = record {
  keeps_pool = s.keeps_pool;
  keeps_zone = s.keeps_zone;
  in_place = (s.in_place.0 ∙ m.0, s.in_place.1 ∙ m.1);
  size = s.size ∙ size;
  types = s.types ∙ types;
  weights = λ w. s.weights w ∙ sum w;
}

-- Filling puts as many pages in the pool as it counts, and stops early only when the zone has no block.
pub fill_loop_lem :
    (n i : ℕ) (pool : CpuPool) (z : Zone)
    → IsPool pool z
    → IsZone z
    → pool.nr_pages + n ≤ pool.size
    → (filled : Filled) × (fill_loop n i pool z ≡ some filled)
      × Shared pool z filled.pool filled.zone
      × (filled.count + pool.nr_pages ≡ i + filled.pool.nr_pages)
      × ((filled.count ≡ i + n) ⊎ ((k : ℕ) → k < nr_free_lists → filled.zone.sizes k ≡ 0))
unfolding fill_loop
fill_loop_lem zero i pool z p r h = (
  record { count = i; pool = pool; zone = z },
  refl,
  record {
    keeps_pool = p;
    keeps_zone = r;
    in_place = (refl, refl);
    size = refl;
    types = refl;
    weights = λ w. refl;
  },
  refl,
  inl (omega arith),
)
fill_loop_lem (suc n) i pool z p r h = elim (alloc_lem z 0 r (omega arith)) [
  | inl (e, empty) ↦ (
    record { count = i; pool = pool; zone = z },
    rw (e, fill_loop),
    record {
      keeps_pool = p;
      keeps_zone = r;
      in_place = (refl, refl);
      size = refl;
      types = refl;
      weights = λ w. refl;
    },
    refl,
    inr (λ k l. empty k (omega arith) l),
  )
  | inr (page, z₁, e, t) ↦
      let (pool₁, f, p₁, pages, more, size) =
        push_lem pool z₁ page (moved-IsPool pool z z₁ t.in_place p) (omega (arith, h)) t.is_block in
      let (filled, g, s, c, done) =
        fill_loop_lem n (suc i) pool₁ z₁ p₁ t.keeps (omega (arith, h, more, size)) in
      (
        filled,
        rw (e, f, g, fill_loop),
        Shared-after pool z pool₁ z₁ filled.pool filled.zone t.in_place size t.types
            (λ w. omega (arith, t.weights w, ap (λ l. list w 0 l) pages)) s,
        omega (arith, c, more),
        elim done [ inl d ↦ inl (omega (arith, d)) | inr d ↦ inr d ],
      )
]

-- Draining moves the pages to the zone, where no page of the pool is free and none is in it twice.
pub drain_loop_lem :
    (n : ℕ) (pool : CpuPool) (z : Zone)
    → IsPool pool z
    → IsZone z
    → ((u : ℕ) → held (once u) pool z ≤ 1)
    → n ≤ pool.nr_pages
    → (drained : Drained) × (drain_loop n pool z ≡ some drained)
      × Shared pool z drained.pool drained.zone
      × (drained.pool.nr_pages + n ≡ pool.nr_pages)
unfolding drain_loop
drain_loop_lem zero pool z p r alone h = (
  record { pool = pool; zone = z },
  refl,
  record {
    keeps_pool = p;
    keeps_zone = r;
    in_place = (refl, refl);
    size = refl;
    types = refl;
    weights = λ w. refl;
  },
  omega arith,
)
drain_loop_lem (suc n) pool z p r alone h =
    let (popped, e, g) = pop_lem pool z p (λ f. absurd (omega (arith, f, h))) in
    let sum : (w : ℕ → ℕ)
        → list w 0 pool.pages ≡ block w 0 popped.page + list w 0 popped.pool.pages =
      λ w. ap (λ l. list w 0 l) g.pages in
    let (z₁, d, r₁, m, types, v) =
      free_lem z popped.page 0 r (omega arith) g.in_zone
        (λ u. omega (arith, alone u, sum (once u))) in
    let (drained, f, s, c) =
      drain_loop_lem n popped.pool z₁ (moved-IsPool popped.pool z z₁ m g.keeps) r₁
        (λ u. omega (arith, alone u, sum (once u), v (once u))) (omega (arith, g.fewer, h)) in
    (
      drained,
      rw (e, d, f, drain_loop),
      Shared-after pool z popped.pool z₁ drained.pool drained.zone m g.size types
          (λ w. omega (arith, v w, sum w)) s,
      omega (arith, c, g.fewer),
    )
