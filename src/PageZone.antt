-- ===== src/PageZone.antt =====
-- vm/vm_page.c: a zone of pages, and its buddy system. A page is its index in
-- `pages`, the members of the pages are functions of it, and a list of blocks or pages is the sequence
-- of its nodes. A failed assertion is `none`.
pub mod Weight
pub mod Align
pub mod Once
pub mod Shape
pub mod Moved
pub mod Split
pub mod Merge
pub mod Pages
mod Tests
use x.Prelude.{
  ℕ, zero, suc, ◌+◌, ◌-◌, ◌*◌, ◌/◌, ◌%◌, ◌^◌, bit_xor, Bool, true, false, not, ◌||◌, ◌&&◌, List, [],
  ◌∷◌, Option, none, some, ltb, leb, ◌==◌, if◌then◌else◌, update, without, ◌>>=◌,
}
use x.Prelude.Words.{size_add, size_sub}

abbrev pub page_size : ℕ
page_size = 4096

-- `vm_page_btop` and `vm_page_ptob`
abbrev pub btop : ℕ → ℕ
btop bytes = bytes / page_size

abbrev pub ptob : ℕ → ℕ
ptob pages = pages * page_size

abbrev pub nr_free_lists : ℕ
nr_free_lists = 11

-- `VM_PAGE_ORDER_UNLISTED`
abbrev pub order_unlisted : ℕ
order_unlisted = 2 ^ 16 - 1

pub record Zone : Type 0 where
  pub start : ℕ
  pub end : ℕ
  pub sizes : ℕ → ℕ
  pub blocks : ℕ → List ℕ
  pub nr_free_pages : ℕ
  pub orders : ℕ → ℕ
  pub types : ℕ → ℕ
  pub phys_addr : ℕ → ℕ

abbrev pub set_order : Zone → ℕ → ℕ → Zone
set_order z page order = record z { orders = update z.orders page order }

-- `vm_page_free_list_insert` and `vm_page_free_list_remove` on the list of an order
abbrev pub insert : Zone → ℕ → ℕ → Option Zone
insert z i page =
    if z.orders page == order_unlisted
    then some (record z {
      sizes = update z.sizes i (size_add (z.sizes i) 1);
      blocks = update z.blocks i (page ∷ z.blocks i);
    })
    else none

abbrev pub remove : Zone → ℕ → ℕ → Option Zone
remove z i page =
    if z.orders page == order_unlisted
    then none
    else some (record z {
      sizes = update z.sizes i (size_sub (z.sizes i) 1);
      blocks = update z.blocks i (without page (z.blocks i));
    })

-- a block enters a list, or leaves it, and its order says so
abbrev pub enlist : Zone → ℕ → ℕ → Option Zone
enlist z order page = insert z order page >>= λ z'. some (set_order z' page order)

abbrev pub detach : Zone → ℕ → ℕ → Option Zone
detach z order page = remove z order page >>= λ z'. some (set_order z' page order_unlisted)

-- The order of the first list that has a block, from `i` on, where `n` lists are left.
unfoldable pub first_list : ℕ → Zone → ℕ → Option ℕ
first_list zero z i = none
first_list (suc n) z i = elim (z.sizes i == 0) [ true ↦ first_list n z (suc i) | false ↦ some i ]

-- The loop that gives the upper halves of a block back, `d` orders above `order`.
unfoldable pub split : ℕ → Zone → ℕ → ℕ → Option Zone
split zero z order page = some z
split (suc d) z order page =
    let buddy = page + 2 ^ (order + d) in enlist z (order + d) buddy >>= λ z'. split d z' order page

-- `broken` is a failed assertion, or a list with a size and no block.
pub data Allocated : Type 0 where
  exhausted : Allocated
  broken : Allocated
  allocated : ℕ → Zone → Allocated

abbrev pub without_block : ℕ → ℕ → Option Zone → Allocated
without_block order page none = broken
without_block order page (some z) =
    allocated page (record z { nr_free_pages = size_sub z.nr_free_pages (2 ^ order) })

abbrev pub take_block : Zone → ℕ → ℕ → List ℕ → Allocated
take_block z order i [] = broken
take_block z order i (page ∷ pages) =
    without_block order page (detach z i page >>= λ z'. split (i - order) z' order page)

abbrev pub take_from : Zone → ℕ → Option ℕ → Allocated
take_from z order none = exhausted
take_from z order (some i) = take_block z order i (z.blocks i)

unfoldable pub alloc_from_buddy : Zone → ℕ → Allocated
alloc_from_buddy z order =
    if ltb order nr_free_lists
    then take_from z order (first_list (nr_free_lists - order) z order)
    else broken

-- `pa & -vm_page_ptob(1 << order)`
abbrev pub block_start : ℕ → ℕ → ℕ
block_start pa order = pa - pa % ptob (2 ^ order)

abbrev pub buddy_pa : ℕ → ℕ → ℕ
buddy_pa pa order = bit_xor pa (ptob (2 ^ order))

abbrev pub page_at : Zone → ℕ → ℕ
page_at z pa = btop (pa - z.start)

-- the loop, where `n` orders are left, and what follows it
unfoldable pub merge : ℕ → Zone → ℕ → ℕ → ℕ → Option Zone
merge zero z pa order page = enlist z order page
merge (suc n) z pa order page =
    let buddy = page_at z (buddy_pa pa order) in
    let merged = block_start pa (suc order) in
    elim (ltb (buddy_pa pa order) z.start
      || leb z.end (buddy_pa pa order)
      || not (z.orders buddy == order)) [
        | true ↦ enlist z order page
        | false ↦ detach z order buddy >>= λ z'. merge n z' merged (suc order) (page_at z merged)
      ]

-- The assertions of `vm_page_zone_free_to_buddy`; `pages_end` is the number of pages of the zone.
abbrev pub may_free : Zone → ℕ → ℕ → Bool
may_free z page order =
    ltb page (btop (z.end - z.start)) && z.orders page == order_unlisted && ltb order nr_free_lists

unfoldable pub free_to_buddy : Zone → ℕ → ℕ → Option Zone
free_to_buddy z page order =
    if may_free z page order
    then (merge (nr_free_lists - 1 - order) z (z.phys_addr page) order page >>= λ z'.
        some (record z' { nr_free_pages = size_add z'.nr_free_pages (2 ^ order) }))
    else none
