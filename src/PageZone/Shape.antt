-- ===== src/PageZone/Shape.antt =====
-- What holds of the free lists of a zone, and what a block that enters one or leaves it makes of them.
use x.Prelude.{
  ℕ, ◌+◌, ◌-◌, ◌*◌, ◌%◌, ◌^◌, ◌<◌, ◌≤◌, ◌≡◌, ap, ◌∙◌, ◌⊎◌, inl, inr, ◌∷◌, Mem, some, eq→==, ne→==,
  without, length, update, refl, arith,
}
use x.Prelude.Words.{size_mod, size_add, size_sub}
use x.Prelude.Bits.{pow-pos}
use x.PageZone.{Zone, btop, ptob, nr_free_lists, order_unlisted, set_order, enlist, detach}
use x.PageZone.Once.{once, block-once, lists-once}
use x.PageZone.Weight.{block, lists, list-without, lists-update}

abbrev pub page_count : Zone → ℕ
page_count z = btop (z.end - z.start)

abbrev pub InPlace : Zone → Zone → Type 0
InPlace z z' = (z'.start ≡ z.start) × (z'.end ≡ z.end)

-- The 2 ^ order pages from a page on are in the zone, and their address is a multiple of their size.
abbrev pub IsBlock : Zone → ℕ → ℕ → Type 0
IsBlock z order page =
    (t : ℕ) × (z.start + ptob page ≡ ptob (2 ^ order) * t) × (page + 2 ^ order ≤ page_count z)

-- the weight of all free blocks
abbrev pub free : (ℕ → ℕ) → Zone → ℕ
free w z = lists w z.blocks nr_free_lists

-- A page has the order of the list that it is in, and is in no list otherwise. The members of a list
-- are blocks of the zone, no page is in two free blocks, and the size of a list is kept.
pub record IsListed (z : Zone) : Type 0 where
  pub ranged :
      (q : ℕ) → q < page_count z → (z.orders q < nr_free_lists) ⊎ (z.orders q ≡ order_unlisted)
  pub listed :
      (k q : ℕ) → k < nr_free_lists → q < page_count z → z.orders q ≡ k → Mem q (z.blocks k)
  pub ordered : (k q : ℕ) → k < nr_free_lists → Mem q (z.blocks k) → z.orders q ≡ k
  pub aligned : (k q : ℕ) → k < nr_free_lists → Mem q (z.blocks k) → IsBlock z k q
  pub apart : (u : ℕ) → free (once u) z ≤ 1
  pub counted : (k : ℕ) → z.sizes k ≡ length (z.blocks k) % size_mod

-- No page of the block is in a free block.
abbrev pub IsApart : Zone → ℕ → ℕ → Type 0
IsApart z order page = (u : ℕ) → block (once u) order page + free (once u) z ≤ 1

pub first-inside :
    (z : Zone) (order page : ℕ) → page + 2 ^ order ≤ page_count z → page < page_count z
first-inside z order page h = omega (arith, h, pow-pos order)

-- The first page of such a block is in no list.
pub apart-unlisted :
    (z : Zone) (order page : ℕ)
    → IsBlock z order page
    → IsListed z
    → IsApart z order page
    → z.orders page ≡ order_unlisted
apart-unlisted z order page (t, a, inside) r h =
    elim (r.ranged page (first-inside z order page inside)) [
      | inr e ↦ e
      | inl l ↦ absurd (
          omega (
            arith,
            h page,
            block-once page order,
            lists-once page (z.orders page) z.blocks nr_free_lists l
                (r.listed (z.orders page) page l (first-inside z order page inside) refl),
          ))
    ]

-- What entering a list and leaving it make of a zone.
abbrev pub enlisted : Zone → ℕ → ℕ → Zone
enlisted z order page =
    set_order
      (record z {
        sizes = update z.sizes order (size_add (z.sizes order) 1);
        blocks = update z.blocks order (page ∷ z.blocks order);
      })
      page order

abbrev pub detached : Zone → ℕ → ℕ → Zone
detached z order page =
    set_order
      (record z {
        sizes = update z.sizes order (size_sub (z.sizes order) 1);
        blocks = update z.blocks order (without page (z.blocks order));
      })
      page order_unlisted

pub free-enlist :
    (w : ℕ → ℕ) (z : Zone) (order page : ℕ)
    → order < nr_free_lists
    → free w (enlisted z order page) ≡ block w order page + free w z
free-enlist w z order page h =
    omega (arith, lists-update w z.blocks order (page ∷ z.blocks order) nr_free_lists h)

pub free-detach :
    (w : ℕ → ℕ) (z : Zone) (order page : ℕ)
    → order < nr_free_lists
    → Mem page (z.blocks order)
    → free w z ≡ block w order page + free w (detached z order page)
free-detach w z order page h m = omega (
  arith,
  lists-update w z.blocks order (without page (z.blocks order)) nr_free_lists h,
  list-without w order page (z.blocks order) m,
)

pub moved-IsBlock :
    (z z' : Zone) (order page : ℕ) → InPlace z z' → IsBlock z order page → IsBlock z' order page
moved-IsBlock z z' order page (e, f) (t, a, inside) =
    (t, ap (λ s. s + ptob page) e ∙ a, rw (e, f) inside)

pub enlist_lem :
    (z : Zone) (order page : ℕ)
    → z.orders page ≡ order_unlisted
    → enlist z order page ≡ some (enlisted z order page)
enlist_lem z order page e = rw (eq→== (z.orders page) order_unlisted e)

pub detach_lem :
    (z : Zone) (order page : ℕ)
    → order < nr_free_lists
    → z.orders page ≡ order
    → detach z order page ≡ some (detached z order page)
detach_lem z order page h e =
    rw (ne→== (z.orders page) order_unlisted (λ f. absurd (omega (arith, e, f, h))))
