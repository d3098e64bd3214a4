-- ===== src/PagePool/Held.antt =====
-- The types of the pages that a pool and its zone hold.
use native.Mathlib.Decide.{ℕ_discrete}
use x.Prelude.{
  ℕ, zero, suc, ◌+◌, ◌^◌, ◌<◌, ◌≤◌, ◌≡◌, ◌≢◌, refl, ap, subst, ◌∙◌, ◌⊎◌, inl, inr, some, update,
  update_self, update_ne, eq→==, arith,
}
use x.PageZone.{Zone}
use x.PageZone.Weight.{block}
use x.PageZone.Once.{once, run-once, run-once_before, run-once_after, block-once}
use x.PagePool.{CpuPool, page_free, set_types, set_type, hand_out}
use x.PagePool.Fill.{held, Shared}

-- Where a page is, seen from a run of pages.
abbrev pub Inside : ℕ → ℕ → ℕ → Type 0
Inside u page n = (page ≤ u) × (u < page + n)

abbrev pub Outside : ℕ → ℕ → ℕ → Type 0
Outside u page n = (u < page) ⊎ (page + n ≤ u)

side : (u page n : ℕ) → Inside u page n ⊎ Outside u page n
side u page n = omega arith

run-Outside : (u page order : ℕ) → Outside u page (2 ^ order) → block (once u) order page ≡ 0
run-Outside u page order (inl h) = run-once_before u page (2 ^ order) h
run-Outside u page order (inr h) = run-once_after u page (2 ^ order) h

set_types-Outside :
    (types : ℕ → ℕ) (page n type u : ℕ) → Outside u page n → set_types types page n type u ≡ types u
set_types-Outside types page zero type u h = refl
set_types-Outside types page (suc n) type u h =
    set_types-Outside (update types page type) (suc page) n type u (omega arith)
    ∙ update_ne types page u type (λ e. absurd (omega (arith, e)))

set_types-Inside :
    (types : ℕ → ℕ) (page n type u : ℕ) → Inside u page n → set_types types page n type u ≡ type
set_types-Inside types page zero type u (h, h') = absurd (omega (arith, h, h'))
set_types-Inside types page (suc n) type u (h, h') = elim (ℕ_discrete page u) [
  | yes e ↦
      set_types-Outside (update types page type) (suc page) n type u (inl (omega (arith, e)))
      ∙ subst (λ v. update types page type v ≡ type) e (update_self types page type)
  | no m ↦
      set_types-Inside (update types page type) (suc page) n type u
        (omega (arith, h, m), omega (arith, h'))
]

-- The pages of a block have a type, and all others the type that they had.
pub record IsTyped (z z' : Zone) (order page type : ℕ) : Type 0 where
  pub inside : (u : ℕ) → Inside u page (2 ^ order) → z'.types u ≡ type
  pub outside : (u : ℕ) → Outside u page (2 ^ order) → z'.types u ≡ z.types u

pub set_type-IsTyped :
    (z z₁ z' : Zone) (order page type : ℕ)
    → z₁.types ≡ z.types
    → z'.types ≡ (set_type z₁ page order type).types
    → IsTyped z z' order page type
set_type-IsTyped z z₁ z' order page type e f = record {
  inside = λ u h. ap (λ t. t u) f ∙ set_types-Inside z₁.types page (2 ^ order) type u h;
  outside = λ u h.
      ap (λ t. t u) f ∙ set_types-Outside z₁.types page (2 ^ order) type u h ∙ ap (λ t. t u) e;
}

-- No page is held twice by a pool and the free blocks of its zone, and those that are held have the
-- type of free pages.
pub record IsHeld (pool : CpuPool) (z : Zone) : Type 0 where
  pub apart : (u : ℕ) → held (once u) pool z ≤ 1
  pub free_types : (u : ℕ) → 1 ≤ held (once u) pool z → z.types u ≡ page_free

pub Shared-IsHeld :
    (pool : CpuPool) (z : Zone) (pool' : CpuPool) (z' : Zone)
    → Shared pool z pool' z'
    → IsHeld pool z
    → IsHeld pool' z'
Shared-IsHeld pool z pool' z' s h = record {
  apart = λ u. omega (arith, h.apart u, s.weights (once u));
  free_types = λ u l. ap (λ t. t u) s.types ∙ h.free_types u (omega (arith, l, s.weights (once u)));
}

-- A page whose block left the pool and the zone is free, and can be handed out.
pub hand_out_lem :
    (pool : CpuPool) (z : Zone) (pool' : CpuPool) (z' : Zone) (order type page : ℕ)
    → IsHeld pool z
    → z'.types ≡ z.types
    → ((w : ℕ → ℕ) → held w pool z ≡ block w order page + held w pool' z')
    → (hand_out order type page pool' z'
        ≡ some (record { page = some page; pool = pool'; zone = set_type z' page order type }))
      × IsHeld pool' (set_type z' page order type)
hand_out_lem pool z pool' z' order type page h e sum =
    let was_free : z'.types page ≡ page_free =
      ap (λ t. t page) e
      ∙ h.free_types page (omega (arith, sum (once page), block-once page order)) in
    (
      rw (eq→== (z'.types page) page_free was_free),
      record {
        apart = λ u. omega (arith, h.apart u, sum (once u));
        free_types = λ u l. elim (side u page (2 ^ order)) [
          | inl (i, i') ↦
              absurd (omega (arith, h.apart u, sum (once u), run-once u page (2 ^ order) i i', l))
          | inr o ↦
              set_types-Outside z'.types page (2 ^ order) type u o
              ∙ ap (λ t. t u) e
              ∙ h.free_types u (omega (arith, sum (once u), l))
        ];
      },
    )

-- A block whose pages are not of the type of free pages is not held.
pub not_held :
    (pool : CpuPool) (z : Zone) (order page : ℕ)
    → IsHeld pool z
    → ((u : ℕ) → Inside u page (2 ^ order) → z.types u ≢ page_free)
    → (u : ℕ) → block (once u) order page + held (once u) pool z ≤ 1
not_held pool z order page h used u = elim (side u page (2 ^ order)) [
  | inr o ↦ omega (arith, run-Outside u page order o, h.apart u)
  | inl (i, i') ↦ elim (ℕ_discrete (held (once u) pool z) 0) [
    | yes e ↦ omega (arith, run-once u page (2 ^ order) i i', e)
    | no n ↦ absurd (used u (i, i') (h.free_types u (omega (arith, n))))
  ]
]

-- It is, once it is given back.
pub given-IsHeld :
    (pool : CpuPool) (z : Zone) (pool' : CpuPool) (z' : Zone) (order page : ℕ)
    → IsHeld pool z
    → ((u : ℕ) → Inside u page (2 ^ order) → z.types u ≢ page_free)
    → IsTyped z z' order page page_free
    → ((w : ℕ → ℕ) → held w pool' z' ≡ block w order page + held w pool z)
    → IsHeld pool' z'
given-IsHeld pool z pool' z' order page h used t sum = record {
  apart = λ u. omega (arith, not_held pool z order page h used u, sum (once u));
  free_types = λ u l. elim (side u page (2 ^ order)) [
    | inl i ↦ t.inside u i
    | inr o ↦
        t.outside u o ∙ h.free_types u (omega (arith, sum (once u), run-Outside u page order o, l))
  ];
}
