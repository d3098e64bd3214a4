-- ===== src/Timer/Cancel.antt =====
-- `timer_cancel` of a scheduled timer: the timer leaves its wheel.
use native.Mathlib.Decide.{ℕ_discrete}
use x.Prelude.{
  without, Mem-without, without-Mem, without-gone, without-Distinct, update, update_self, update_ne,
  Mem, Distinct, ℕ, ◌≡◌, ◌≢◌, subst, sym, ◌∙◌, inl, inr, true, false, none, some, List,
}
use x.Timer.{Timer, ready, scheduled, System, bucket, remove, returned, cancel, is_scheduled}
use x.Timer.Valid.{Valid, set_bucket, set_bucket-own, set_bucket-cases}

-- The timer `t` has left the wheel of the processor `c`, canceled.
pub record Withdraws (s : System) (c t : ℕ) (s' : System) : Type 0 where
  pub valid : Valid s'
  pub timer : s'.timers t ≡ record (s.timers t) { canceled = true; state = ready }
  pub gone : (k a : ℕ) → ¬ Mem t ((s'.cpus k).htable a)
  pub stays : (k a u : ℕ) → t ≢ u → Mem u ((s.cpus k).htable a) → Mem u ((s'.cpus k).htable a)
  pub fewer : (k a u : ℕ) → Mem u ((s'.cpus k).htable a) → Mem u ((s.cpus k).htable a)
  pub others : (u : ℕ) → t ≢ u → s'.timers u ≡ s.timers u

module _ (s : System) (c t : ℕ) (ok : Valid s) (on : (s.timers t).cpu ≡ some c) where
  abbrev b : ℕ
  b = bucket (s.timers t).ticks

  abbrev left : List ℕ
  left = without t ((s.cpus c).htable b)

  abbrev v' : Timer
  v' = record (s.timers t) { canceled = true; state = ready }

  abbrev s' : System
  s' = record s { timers = update s.timers t v'; cpus = set_bucket s.cpus c b left }

  cancel-fewer : (k a u : ℕ) → Mem u ((s'.cpus k).htable a) → Mem u ((s.cpus k).htable a)
  cancel-fewer k a u m = elim (set_bucket-cases s.cpus ok.own c b left k a) [
    | inr (h, e) ↦ subst (λ ts. Mem u ts) e m
    | inl (ek, ea, e) ↦
        subst (λ x. Mem u ((s.cpus x).htable a)) ek
          (subst (λ x. Mem u ((s.cpus c).htable x)) ea
            (Mem-without t u ((s.cpus c).htable b) (subst (λ ts. Mem u ts) e m)))
  ]

  cancel-stays : (k a u : ℕ) → t ≢ u → Mem u ((s.cpus k).htable a) → Mem u ((s'.cpus k).htable a)
  cancel-stays k a u n m = elim (set_bucket-cases s.cpus ok.own c b left k a) [
    | inr (h, e) ↦ subst (λ ts. Mem u ts) (sym e) m
    | inl (ek, ea, e) ↦
        subst (λ ts. Mem u ts) (sym e)
          (without-Mem t u ((s.cpus c).htable b) n (
            subst (λ x. Mem u ((s.cpus x).htable b)) (sym ek)
              (subst (λ x. Mem u ((s.cpus k).htable x)) (sym ea) m)))
  ]

  -- A timer is on the wheel of its processor only.
  cancel-gone : (k a : ℕ) → ¬ Mem t ((s'.cpus k).htable a)
  cancel-gone k a m = elim (set_bucket-cases s.cpus ok.own c b left k a) [
    | inl (ek, ea, e) ↦
        without-gone t ((s.cpus c).htable b) (ok.once c b) (subst (λ ts. Mem t ts) e m)
    | inr (h, e) ↦
        let m₀ = subst (λ ts. Mem t ts) e m in
        let same : some c ≡ some k = sym on ∙ ok.place k a t m₀ in h (cc same) (ok.hash k a t m₀)
  ]

  cancel-apart : (k a u : ℕ) → Mem u ((s'.cpus k).htable a) → t ≢ u
  cancel-apart k a u m e = cancel-gone k a (subst (λ x. Mem x ((s'.cpus k).htable a)) (sym e) m)

  cancel-same : (k a u : ℕ) → Mem u ((s'.cpus k).htable a) → s'.timers u ≡ s.timers u
  cancel-same k a u m = update_ne s.timers t u v' (cancel-apart k a u m)

  cancel-once : (k a : ℕ) → Distinct ((s'.cpus k).htable a)
  cancel-once k a = elim (set_bucket-cases s.cpus ok.own c b left k a) [
    | inr (h, e) ↦ subst Distinct (sym e) (ok.once k a)
    | inl (ek, ea, e) ↦
        subst Distinct (sym e) (without-Distinct t ((s.cpus c).htable b) (ok.once c b))
  ]

  cancel-queued :
      (u : ℕ)
      → (s'.timers u).state ≡ scheduled
      → (k : ℕ) × ((s'.timers u).cpu ≡ some k)
        × Mem u ((s'.cpus k).htable (bucket (s'.timers u).ticks))
  cancel-queued u h = elim (ℕ_discrete t u) [
    | yes e ↦
        let now : v'.state ≡ scheduled =
          subst (λ x. x.state ≡ scheduled) (update_self s.timers t v')
            (subst (λ x. (s'.timers x).state ≡ scheduled) (sym e) h) in
        absurd (cc now)
    | no n ↦
        let same = update_ne s.timers t u v' n in
        let (k, p, m) = ok.queued u (subst (λ x. x.state ≡ scheduled) same h) in
        (
          k,
          subst (λ x. x.cpu ≡ some k) (sym same) p,
          cancel-stays k (bucket (s'.timers u).ticks) u n
              (subst (λ x. Mem u ((s.cpus k).htable (bucket x.ticks))) (sym same) m),
        )
  ]

  cancel-Valid : Valid s'
  cancel-Valid = record {
    own = set_bucket-own s.cpus ok.own c b left;
    state = λ k a u m. rw (cancel-same k a u m) (ok.state k a u (cancel-fewer k a u m));
    place = λ k a u m. rw (cancel-same k a u m) (ok.place k a u (cancel-fewer k a u m));
    hash = λ k a u m. rw (cancel-same k a u m) (ok.hash k a u (cancel-fewer k a u m));
    word = λ k a u m. rw (cancel-same k a u m) (ok.word k a u (cancel-fewer k a u m));
    once = cancel-once;
    queued = cancel-queued;
  }

  cancel-step :
      (self : ℕ)
      → (s.timers t).state ≡ scheduled
      → (s.timers t).joiner ≡ none
      → (s.timers t).detached ≡ false
      → cancel s self t ≡ some (returned s')
  unfolding cancel remove
  cancel-step self h j d = simp (on, cancel, remove, j, d, h, is_scheduled)

-- In a well-formed state, `timer_cancel` of a scheduled timer that is not detached returns at once;
-- the timer is on no wheel any more, is ready and canceled, and every other timer stays as it was.
pub cancel_lem :
    (s : System) (self c t : ℕ)
    → Valid s
    → (s.timers t).cpu ≡ some c
    → (s.timers t).state ≡ scheduled
    → (s.timers t).joiner ≡ none
    → (s.timers t).detached ≡ false
    → (r : System) × (cancel s self t ≡ some (returned r)) × Withdraws s c t r
cancel_lem s self c t ok on h j d = (
  s' s c t ok on,
  cancel-step s c t ok on self h j d,
  record {
    valid = cancel-Valid s c t ok on;
    timer = update_self s.timers t (v' s c t ok on);
    gone = cancel-gone s c t ok on;
    stays = cancel-stays s c t ok on;
    fewer = cancel-fewer s c t ok on;
    others = λ u n. update_ne s.timers t u (v' s c t ok on) n;
  },
)
