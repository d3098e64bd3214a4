-- ===== src/PagePool.antt =====
-- vm/vm_page.c: the pools of pages of the processors and the allocation of pages from a zone through
-- them. The state has the pool of the processor at hand only. A section under the locks of a pool and
-- a zone is one step of a pinned thread. An operation whose assertion fails, or that takes a page from
-- a list of none, is `none`.
pub mod Fill
pub mod Held
pub mod Alloc
pub mod Serve
pub mod Start
mod Tests
use x.Prelude.{
  ℕ, zero, suc, ◌+◌, ◌-◌, ◌*◌, ◌/◌, ◌^◌, ◌<◌, ◌≡◌, Bool, true, false, not, ◌&&◌, List, [], ◌∷◌,
  Option, none, some, ltb, ◌==◌, if◌then◌else◌, update, ◌>>=◌,
}
use x.PageZone.{
  Zone, Allocated, exhausted, broken, allocated, btop, page_size, order_unlisted, nr_free_lists,
  alloc_from_buddy, free_to_buddy,
}

abbrev pub pool_ratio : ℕ
pool_ratio = 1024

abbrev pub pool_max_size : ℕ
pool_max_size = 128

abbrev pub transfer_ratio : ℕ
transfer_ratio = 2

pub record CpuPool : Type 0 where
  pub size : ℕ
  pub transfer_size : ℕ
  pub nr_pages : ℕ
  pub pages : List ℕ

pub cpu_pool_init : ℕ → CpuPool
cpu_pool_init size = record {
  size = size;
  transfer_size = (size + transfer_ratio - 1) / transfer_ratio;
  nr_pages = 0;
  pages = [];
}

pub compute_pool_size : Zone → ℕ
compute_pool_size z =
    let size = btop (z.end - z.start) / pool_ratio in
    if size == 0 then 1 else if ltb pool_max_size size then pool_max_size else size

abbrev pub page_free : ℕ
page_free = 0

abbrev pub page_reserved : ℕ
page_reserved = 1

-- the loop of `vm_page_set_type`, where `n` pages are left
abbrev pub set_types : (ℕ → ℕ) → ℕ → ℕ → ℕ → ℕ → ℕ
set_types types page zero type = types
set_types types page (suc n) type = set_types (update types page type) (suc page) n type

abbrev pub set_type : Zone → ℕ → ℕ → ℕ → Zone
set_type z page order type = record z { types = set_types z.types page (2 ^ order) type }

-- The pages of a zone as `vm_page_init` leaves them, `n` pages from one on.
pub init_pages : ℕ → Zone → ℕ → ℕ → Zone
init_pages zero z page pa = z
init_pages (suc n) z page pa =
    init_pages n
      (record z {
        types = update z.types page page_reserved;
        orders = update z.orders page order_unlisted;
        phys_addr = update z.phys_addr page pa;
      })
      (suc page) (pa + page_size)

-- `vm_page_zone_init` of the members of the zone, for pages whose members have any values
pub zone_init : Zone → ℕ → ℕ → Zone
zone_init z start end =
    init_pages ((end - start + page_size - 1) / page_size)
      (record z { start = start; end = end; sizes = λ i. 0; blocks = λ i. []; nr_free_pages = 0 }) 0
      start

pub record Popped : Type 0 where
  pub page : ℕ
  pub pool : CpuPool

abbrev pub pop_from : CpuPool → List ℕ → Option Popped
pop_from pool [] = none
pop_from pool (page ∷ pages) =
    some
      (record { page = page; pool = record pool { nr_pages = pool.nr_pages - 1; pages = pages } })

pub pop : CpuPool → Option Popped
pop pool = if pool.nr_pages == 0 then none else pop_from pool pool.pages

pub push : CpuPool → ℕ → Option CpuPool
push pool page =
    if ltb pool.nr_pages pool.size
    then some (record pool { nr_pages = pool.nr_pages + 1; pages = page ∷ pool.pages })
    else none

pub record Filled : Type 0 where
  pub count : ℕ
  pub pool : CpuPool
  pub zone : Zone

-- The loop of `vm_page_cpu_pool_fill` from `i` on, where `n` pages are wanted yet.
pub fill_loop : ℕ → ℕ → CpuPool → Zone → Option Filled
fill_loop zero i pool z = some (record { count = i; pool = pool; zone = z })
fill_loop (suc n) i pool z = elim (alloc_from_buddy z 0) [
  | exhausted ↦ some (record { count = i; pool = pool; zone = z })
  | broken ↦ none
  | allocated page z' ↦ push pool page >>= λ pool'. fill_loop n (suc i) pool' z'
]

pub fill : CpuPool → Zone → Option Filled
fill pool z = if pool.nr_pages == 0 then fill_loop pool.transfer_size 0 pool z else none

pub record Drained : Type 0 where
  pub pool : CpuPool
  pub zone : Zone

pub drain_loop : ℕ → CpuPool → Zone → Option Drained
drain_loop zero pool z = some (record { pool = pool; zone = z })
drain_loop (suc n) pool z =
    pop pool >>= λ popped. free_to_buddy z popped.page 0 >>= λ z'. drain_loop n popped.pool z'

pub drain : CpuPool → Zone → Option Drained
drain pool z = if pool.nr_pages == pool.size then drain_loop pool.transfer_size pool z else none

pub record Served : Type 0 where
  pub page : Option ℕ
  pub pool : CpuPool
  pub zone : Zone

-- what follows the choice of a page in `vm_page_zone_alloc`
abbrev pub hand_out : ℕ → ℕ → ℕ → CpuPool → Zone → Option Served
hand_out order type page pool z =
    if z.types page == page_free
    then some (record { page = some page; pool = pool; zone = set_type z page order type })
    else none

abbrev pub serve : ℕ → Zone → Popped → Option Served
serve type z popped = hand_out 0 type popped.page popped.pool z

abbrev pub after_fill : ℕ → Filled → Option Served
after_fill type filled =
    if filled.count == 0
    then some (record { page = none; pool = filled.pool; zone = filled.zone })
    else (pop filled.pool >>= serve type filled.zone)

abbrev pub from_buddy : CpuPool → Zone → ℕ → ℕ → Allocated → Option Served
from_buddy pool z order type exhausted = some (record { page = none; pool = pool; zone = z })
from_buddy pool z order type broken = none
from_buddy pool z order type (allocated page z') = hand_out order type page pool z'

-- the two ways of `vm_page_zone_alloc`, and the whole, with the pool of the processor
abbrev pub alloc_with : CpuPool → Zone → ℕ → ℕ → Option Served
alloc_with pool z order type =
    if order == 0
    then (if pool.nr_pages == 0
        then (fill pool z >>= after_fill type)
        else (pop pool >>= serve type z))
    else from_buddy pool z order type (alloc_from_buddy z order)

pub zone_alloc : CpuPool → Zone → ℕ → ℕ → Option Served
zone_alloc pool z order type =
    if ltb order nr_free_lists then alloc_with pool z order type else none

abbrev pub put : ℕ → Drained → Option Drained
put page drained = push drained.pool page >>= λ pool. some (record drained { pool = pool })

-- what follows the assertions of `vm_page_zone_free`, when the type is set, and the whole
abbrev pub free_with : CpuPool → Zone → ℕ → ℕ → Option Drained
free_with pool z page order =
    if order == 0
    then ((if pool.nr_pages == pool.size
          then drain pool z
          else some (record { pool = pool; zone = z }))
        >>= put page)
    else (free_to_buddy z page order >>= λ z'. some (record { pool = pool; zone = z' }))

pub zone_free : CpuPool → Zone → ℕ → ℕ → Option Drained
zone_free pool z page order =
    if not (z.types page == page_free) && ltb order nr_free_lists
    then free_with pool (set_type z page order page_free) page order
    else none
