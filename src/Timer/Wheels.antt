-- ===== src/Timer/Wheels.antt =====
-- The buckets of a wheel: what they hold, and what the sweep of one of them leaves.
use x.Prelude.{
  Mem, Distinct, ℕ, ◌<◌, ◌≡◌, subst, sym, ◌⊎◌, inl, inr, true, false, List, [], ◌∷◌, if◌then◌else◌,
  Bool-cases,
}
use x.Prelude.Words.{size_mod}
use x.Clock.{time_occurred}
use x.Timer.{Timer, scheduled, bucket}
use x.Timer.Sweep.{pending, expired}

-- Each bucket holds scheduled timers, each once, whose times hash to it.
pub record IsWheel (htable : ℕ → List ℕ) (tm : ℕ → Timer) : Type 0 where
  pub state : (b u : ℕ) → Mem u (htable b) → (tm u).state ≡ scheduled
  pub hash : (b u : ℕ) → Mem u (htable b) → bucket (tm u).ticks ≡ b
  pub once : (b : ℕ) → Distinct (htable b)
  pub word : (b u : ℕ) → Mem u (htable b) → (tm u).ticks < size_mod

pub Mem-pending :
    (ticks : ℕ → ℕ) (now u : ℕ) (ts : List ℕ)
    → Mem u (pending ticks now ts)
    → Mem u ts × (time_occurred (ticks u) now ≡ false)
Mem-pending ticks now u [] m = absurd m
Mem-pending ticks now u (t ∷ ts) m = elim (Bool-cases (time_occurred (ticks t) now)) [
  | inl e ↦
      let (p, q) =
        Mem-pending ticks now u ts
          (subst (λ b. Mem u (if b then pending ticks now ts else t ∷ pending ticks now ts)) e m) in
      (inr p, q)
  | inr e ↦
      elim (subst (λ b. Mem u (if b then pending ticks now ts else t ∷ pending ticks now ts)) e m) [
        | inl same ↦ (inl same, subst (λ x. time_occurred (ticks x) now ≡ false) same e)
        | inr m' ↦ let (p, q) = Mem-pending ticks now u ts m' in (inr p, q)
      ]
]

pub pending-Mem :
    (ticks : ℕ → ℕ) (now u : ℕ) (ts : List ℕ)
    → Mem u ts
    → time_occurred (ticks u) now ≡ false
    → Mem u (pending ticks now ts)
pending-Mem ticks now u [] m e = absurd m
pending-Mem ticks now u (t ∷ ts) (inl same) e =
    rw (subst (λ x. time_occurred (ticks x) now ≡ false) (sym same) e) (inl same)
pending-Mem ticks now u (t ∷ ts) (inr m) e = elim (Bool-cases (time_occurred (ticks t) now)) [
  | inl o ↦ rw o (pending-Mem ticks now u ts m e)
  | inr o ↦ rw o (inr (pending-Mem ticks now u ts m e))
]

pub pending-Distinct :
    (ticks : ℕ → ℕ) (now : ℕ) (ts : List ℕ) → Distinct ts → Distinct (pending ticks now ts)
pending-Distinct ticks now [] d = d
pending-Distinct ticks now (t ∷ ts) (fresh, d) = elim (Bool-cases (time_occurred (ticks t) now)) [
  | inl o ↦ rw o (pending-Distinct ticks now ts d)
  | inr o ↦ rw o (λ m. fresh ((Mem-pending ticks now t ts m).0), pending-Distinct ticks now ts d)
]

pub expired-grows :
    (ticks : ℕ → ℕ) (now u : ℕ) (ts out : List ℕ) → Mem u out → Mem u (expired ticks now ts out)
expired-grows ticks now u [] out m = m
expired-grows ticks now u (t ∷ ts) out m = elim (Bool-cases (time_occurred (ticks t) now)) [
  | inl o ↦ rw o (expired-grows ticks now u ts (t ∷ out) (inr m))
  | inr o ↦ rw o (expired-grows ticks now u ts out m)
]

pub expired-Mem :
    (ticks : ℕ → ℕ) (now u : ℕ) (ts out : List ℕ)
    → Mem u ts
    → time_occurred (ticks u) now ≡ true
    → Mem u (expired ticks now ts out)
expired-Mem ticks now u [] out m e = absurd m
expired-Mem ticks now u (t ∷ ts) out (inl same) e =
    rw (subst (λ x. time_occurred (ticks x) now ≡ true) (sym same) e)
      (expired-grows ticks now u ts (t ∷ out) (inl same))
expired-Mem ticks now u (t ∷ ts) out (inr m) e =
    expired-Mem ticks now u ts (if time_occurred (ticks t) now then t ∷ out else out) m e

pub Mem-expired :
    (ticks : ℕ → ℕ) (now u : ℕ) (ts out : List ℕ)
    → Mem u (expired ticks now ts out)
    → Mem u out ⊎ (Mem u ts × (time_occurred (ticks u) now ≡ true))
Mem-expired ticks now u [] out m = inl m
Mem-expired ticks now u (t ∷ ts) out m = elim (Bool-cases (time_occurred (ticks t) now)) [
  | inl o ↦
      elim (Mem-expired ticks now u ts (t ∷ out)
        (subst (λ b. Mem u (expired ticks now ts (if b then t ∷ out else out))) o m)) [
          | inl (inl same) ↦ inr (inl same, subst (λ x. time_occurred (ticks x) now ≡ true) same o)
          | inl (inr m') ↦ inl m'
          | inr (p, q) ↦ inr (inr p, q)
        ]
  | inr o ↦
      elim (Mem-expired ticks now u ts out
        (subst (λ b. Mem u (expired ticks now ts (if b then t ∷ out else out))) o m)) [
          | inl m' ↦ inl m'
          | inr (p, q) ↦ inr (inr p, q)
        ]
]
