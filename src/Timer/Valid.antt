-- ===== src/Timer/Valid.antt =====
-- The well-formed states of the timers and wheels: a timer is on a wheel exactly when it is scheduled.
use native.Mathlib.Decide.{ℕ_discrete}
use x.Prelude.{
  update, update_self, update_ne, Mem, Distinct, ℕ, ◌<◌, ◌≡◌, ◌≢◌, refl, subst, sym, ◌⊎◌, inl, inr,
  some, List, eq→==, ne→==,
}
use x.Prelude.Words.{size_mod}
use x.Timer.{Timer, scheduled, System, CpuData, bucket, set_timer}

pub record Valid (s : System) : Type 0 where
  pub own : (c : ℕ) → (s.cpus c).cpu ≡ c
  pub state : (c b u : ℕ) → Mem u ((s.cpus c).htable b) → (s.timers u).state ≡ scheduled
  pub place : (c b u : ℕ) → Mem u ((s.cpus c).htable b) → (s.timers u).cpu ≡ some c
  pub hash : (c b u : ℕ) → Mem u ((s.cpus c).htable b) → bucket (s.timers u).ticks ≡ b
  pub word : (c b u : ℕ) → Mem u ((s.cpus c).htable b) → (s.timers u).ticks < size_mod
  pub once : (c b : ℕ) → Distinct ((s.cpus c).htable b)
  pub queued :
      (u : ℕ)
      → (s.timers u).state ≡ scheduled
      → (c : ℕ) × ((s.timers u).cpu ≡ some c)
        × Mem u ((s.cpus c).htable (bucket (s.timers u).ticks))

-- A timer that is not scheduled, before and after, may change in any other way.
pub set_timer-Valid :
    (s : System) (t : ℕ) (v : Timer)
    → Valid s
    → (s.timers t).state ≢ scheduled
    → v.state ≢ scheduled
    → Valid (set_timer s t v)
set_timer-Valid s t v ok before after = record {
  own = ok.own;
  state = λ c b u m. rw (same c b u m) (ok.state c b u m);
  place = λ c b u m. rw (same c b u m) (ok.place c b u m);
  hash = λ c b u m. rw (same c b u m) (ok.hash c b u m);
  word = λ c b u m. rw (same c b u m) (ok.word c b u m);
  once = ok.once;
  queued = queued;
}
  where
    same : (c b u : ℕ) → Mem u ((s.cpus c).htable b) → update s.timers t v u ≡ s.timers u
    same c b u m =
        update_ne s.timers t u v
          (λ e. before (subst (λ x. (s.timers x).state ≡ scheduled) (sym e) (ok.state c b u m)))

    queued :
        (u : ℕ)
        → (update s.timers t v u).state ≡ scheduled
        → (c : ℕ) × ((update s.timers t v u).cpu ≡ some c)
          × Mem u ((s.cpus c).htable (bucket (update s.timers t v u).ticks))
    queued u h = elim (ℕ_discrete t u) [
      | yes e ↦ absurd (
          after (
            subst (λ x. (x).state ≡ scheduled) (update_self s.timers t v)
              (subst (λ x. (update s.timers t v x).state ≡ scheduled) (sym e) h)))
      | no n ↦
          let same' = update_ne s.timers t u v n in
          rw same' (ok.queued u (subst (λ x. x.state ≡ scheduled) same' h))
    ]

-- The wheels after one bucket has changed.
abbrev pub set_bucket : (ℕ → CpuData) → ℕ → ℕ → List ℕ → ℕ → CpuData
set_bucket cpus c b ts =
    update cpus (cpus c).cpu (record (cpus c) { htable = update (cpus c).htable b ts })

module _ (cpus : ℕ → CpuData) (own : (c : ℕ) → (cpus c).cpu ≡ c) (c b : ℕ) (ts : List ℕ) where
  pub set_bucket-own : (k : ℕ) → (set_bucket cpus c b ts k).cpu ≡ k
  set_bucket-own k = elim (ℕ_discrete c k) [
    | yes e ↦ rw (← e, own c, eq→== c c refl)
    | no n ↦ rw (own c, ne→== k c (λ e. n (sym e))) (own k)
  ]

  pub set_bucket_self : (set_bucket cpus c b ts c).htable b ≡ ts
  set_bucket_self = rw (own c, eq→== c c refl, eq→== b b refl)

  pub set_bucket_ne :
      (k a : ℕ) → (c ≡ k → b ≢ a) → (set_bucket cpus c b ts k).htable a ≡ (cpus k).htable a
  set_bucket_ne k a h = elim (ℕ_discrete c k) [
    | yes e ↦
        subst (λ x. (set_bucket cpus c b ts x).htable a ≡ (cpus x).htable a) e
          (rw (own c, eq→== c c refl, ne→== a b (λ e'. h e (sym e'))))
    | no n ↦ rw (own c, ne→== k c (λ e. n (sym e)))
  ]

  pub set_bucket-cases :
      (k a : ℕ)
      → ((c ≡ k) × (b ≡ a) × ((set_bucket cpus c b ts k).htable a ≡ ts))
        ⊎ ((c ≡ k → b ≢ a) × ((set_bucket cpus c b ts k).htable a ≡ (cpus k).htable a))
  set_bucket-cases k a = elim (ℕ_discrete c k) [
    | yes e ↦ elim (ℕ_discrete b a) [
      | yes e' ↦ inl (
        e,
        e',
        subst (λ x. (set_bucket cpus c b ts x).htable a ≡ ts) e
            (subst (λ y. (set_bucket cpus c b ts c).htable y ≡ ts) e' set_bucket_self),
      )
      | no n ↦ inr (λ p. n, set_bucket_ne k a (λ p. n))
    ]
    | no n ↦ inr (λ p. absurd (n p), set_bucket_ne k a (λ p. absurd (n p)))
  ]
