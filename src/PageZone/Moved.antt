-- ===== src/PageZone/Moved.antt =====
-- What holds of the free lists of a zone is kept when a block enters one and when it leaves.
use x.Prelude.{
  ℕ, ◌%◌, ◌<◌, ◌≡◌, sym, subst, ◌∙◌, ◌⊎◌, inl, inr, ◌∷◌, Mem, without, without-Mem, Mem-without,
  length, length-without, update, List, refl, update_self, update_ne, update_elim, arith,
}
use x.Prelude.Words.{size_mod, size_add, size_sub}
use x.PageZone.{Zone, nr_free_lists, order_unlisted}
use x.PageZone.Once.{once, block-once, lists-once}
use x.PageZone.Shape.{
  IsBlock, page_count, IsListed, IsApart, enlisted, detached, free-enlist, free-detach,
}

pub enlist-IsListed :
    (z : Zone) (order page : ℕ)
    → order < nr_free_lists
    → IsBlock z order page
    → IsApart z order page
    → IsListed z
    → IsListed (enlisted z order page)
enlist-IsListed z order page small a alone r =
    let more : List ℕ = page ∷ z.blocks order in
    let nowhere : (k : ℕ) → k < nr_free_lists → ¬ Mem page (z.blocks k) = λ k h m. absurd (
      omega
        (arith, alone page, block-once page order, lists-once page k z.blocks nr_free_lists h m)) in
    record {
      ranged = λ q in_zone.
          update_elim z.orders page q order
            (λ q o. q < page_count z → (o < nr_free_lists) ⊎ (o ≡ order_unlisted)) (λ i. inl small)
            (λ n i. r.ranged q i) in_zone;
      listed = λ k q h in_zone e.
          update_elim z.orders page q order
            (λ q o. q < page_count z → o ≡ k → Mem q (update z.blocks order more k))
            (λ i e.
              update_elim z.blocks order k more (λ j l. order ≡ j → Mem page l) (λ e. inl refl)
                (λ n e. absurd (n e)) e)
            (λ n i e.
              update_elim z.blocks order k more (λ j l. Mem q (z.blocks j) → Mem q l) (λ m. inr m)
                (λ n m. m) (r.listed k q h i e))
            in_zone e;
      ordered = λ k q h m.
          update_elim z.blocks order k more
            (λ j l. j < nr_free_lists → Mem q l → update z.orders page order q ≡ j)
            (λ h m. elim m [
              | inl same ↦
                  subst (λ p. update z.orders page order p ≡ order) same
                    (update_self z.orders page order)
              | inr m' ↦
                  update_ne z.orders page q order
                    (λ e. nowhere order h (subst (λ p. Mem p (z.blocks order)) (sym e) m'))
                  ∙ r.ordered order q h m'
            ])
            (λ n h m.
              update_ne z.orders page q order
                (λ e. nowhere k h (subst (λ p. Mem p (z.blocks k)) (sym e) m))
              ∙ r.ordered k q h m)
            h m;
      aligned = λ k q h m.
          update_elim z.blocks order k more (λ j l. j < nr_free_lists → Mem q l → IsBlock z j q)
            (λ h m. elim m [
              | inl same ↦ subst (λ p. IsBlock z order p) same a
              | inr m' ↦ r.aligned order q h m'
            ])
            (λ n h m. r.aligned k q h m) h m;
      apart = λ u. omega (arith, alone u, free-enlist (once u) z order page small);
      counted = λ k.
          update_elim z.sizes order k (size_add (z.sizes order) 1)
            (λ j size. size ≡ length (update z.blocks order more j) % size_mod)
            (rw (update_self z.blocks order more) (omega (arith, r.counted order)))
            (λ n. rw (update_ne z.blocks order k more n) (r.counted k));
    }

-- A block that left is apart.
pub detach-IsApart :
    (z : Zone) (order page : ℕ)
    → order < nr_free_lists
    → Mem page (z.blocks order)
    → IsListed z
    → IsApart (detached z order page) order page
detach-IsApart z order page h m r u =
    omega (arith, r.apart u, free-detach (once u) z order page h m)

pub detach-IsListed :
    (z : Zone) (order page : ℕ)
    → order < nr_free_lists
    → Mem page (z.blocks order)
    → IsListed z
    → IsListed (detached z order page)
detach-IsListed z order page small there r =
    let fewer : List ℕ = without page (z.blocks order) in
    let nowhere : (k : ℕ) → k < nr_free_lists → ¬ Mem page (update z.blocks order fewer k) =
      λ k h m. absurd (
        omega (
          arith,
          detach-IsApart z order page small there r page,
          block-once page order,
          lists-once page k (update z.blocks order fewer) nr_free_lists h m,
        )) in
    record {
      ranged = λ q in_zone.
          update_elim z.orders page q order_unlisted
            (λ q o. q < page_count z → (o < nr_free_lists) ⊎ (o ≡ order_unlisted)) (λ i. inr refl)
            (λ n i. r.ranged q i) in_zone;
      listed = λ k q h in_zone e.
          update_elim z.orders page q order_unlisted
            (λ q o. q < page_count z → o ≡ k → Mem q (update z.blocks order fewer k))
            (λ i e. absurd (omega (arith, e, h)))
            (λ n i e.
              update_elim z.blocks order k fewer (λ j l. Mem q (z.blocks j) → Mem q l)
                (λ m. without-Mem page q (z.blocks order) n m) (λ n m. m) (r.listed k q h i e))
            in_zone e;
      ordered = λ k q h m.
          update_ne z.orders page q order_unlisted
            (λ e. nowhere k h (subst (λ p. Mem p (update z.blocks order fewer k)) (sym e) m))
          ∙ update_elim z.blocks order k fewer (λ j l. j < nr_free_lists → Mem q l → z.orders q ≡ j)
              (λ h m. r.ordered order q h (Mem-without page q (z.blocks order) m))
              (λ n h m. r.ordered k q h m) h m;
      aligned = λ k q h m.
          update_elim z.blocks order k fewer (λ j l. j < nr_free_lists → Mem q l → IsBlock z j q)
            (λ h m. r.aligned order q h (Mem-without page q (z.blocks order) m))
            (λ n h m. r.aligned k q h m) h m;
      apart = λ u. omega (arith, r.apart u, free-detach (once u) z order page small there);
      counted = λ k.
          update_elim z.sizes order k (size_sub (z.sizes order) 1)
            (λ j size. size ≡ length (update z.blocks order fewer j) % size_mod)
            (rw (update_self z.blocks order fewer)
              (omega (arith, r.counted order, length-without page (z.blocks order) there)))
            (λ n. rw (update_ne z.blocks order k fewer n) (r.counted k));
    }
