-- ===== src/Timer/Schedule.antt =====
-- `timer_schedule`: where it puts the timer, and that the wheels stay well-formed.
use x.Prelude.{
  update_self, update_ne, ℕ, ◌<◌, ◌≡◌, ◌≢◌, refl, sym, ap, ap₂, ◌∙◌, ◌⊎◌, inl, inr, false, none,
  some, ◌∷◌,
}
use x.Prelude.Words.{size_mod}
use x.Timer.{
  Timer, TimerState, ready, scheduled, running, completed, System, bucket, set_timer, add, restart,
  schedule, is_running, is_done,
}
use x.Timer.Valid.{Valid, set_timer-Valid, set_bucket_self, set_bucket_ne}
use x.Timer.Preserve.{added, add_lem, added-Valid}

pub ready-not_scheduled : ready ≢ scheduled
ready-not_scheduled h = cc h

-- The state `s'` is `s` with the timer `t` put first in its bucket of the processor `c`, for the
-- time `ticks`.
pub record Places (s : System) (c t ticks : ℕ) (s' : System) : Type 0 where
  pub valid : Valid s'
  pub timer : s'.timers t ≡ record (s.timers t) { ticks = ticks; cpu = some c; state = scheduled }
  pub head : (s'.cpus c).htable (bucket ticks) ≡ t ∷ (s.cpus c).htable (bucket ticks)
  pub tables : (k a : ℕ) → (c ≡ k → bucket ticks ≢ a) → (s'.cpus k).htable a ≡ (s.cpus k).htable a
  pub others : (u : ℕ) → t ≢ u → s'.timers u ≡ s.timers u

-- `timer_schedule` may be called for a timer that was never scheduled, which goes to the caller's
-- processor, and for one that runs or is done and is not canceled, which stays on its own.
abbrev pub May : System → ℕ → ℕ → ℕ → Type 0
May s self t c =
    (((s.timers t).cpu ≡ none) × ((s.timers t).state ≡ ready) × (self ≡ c))
    ⊎ (((s.timers t).cpu ≡ some c)
        × ((s.timers t).canceled ≡ false)
        × ((s.timers t).state ≢ scheduled))

restart-ready : (v : Timer) → v.state ≢ scheduled → (restart v).state ≡ ready
unfolding restart
restart-ready v h = go v.state refl
  where
    go : (x : TimerState) → v.state ≡ x → (restart v).state ≡ ready
    go ready e = rw (e, is_running, is_done)
    go scheduled e = absurd (h e)
    go running e = rw (e, is_running)
    go completed e = rw (e, is_running, is_done)

restart-rest :
    (v : Timer) (ticks c : ℕ)
    → record (restart v) { ticks = ticks; cpu = some c; state = scheduled }
      ≡ record v { ticks = ticks; cpu = some c; state = scheduled }
unfolding restart
restart-rest v ticks c = go v.state refl
  where
    go :
        (x : TimerState)
        → v.state ≡ x
        → record (restart v) { ticks = ticks; cpu = some c; state = scheduled }
          ≡ record v { ticks = ticks; cpu = some c; state = scheduled }
    go ready e = rw (e, is_running, is_done)
    go scheduled e = rw (e, is_running, is_done)
    go running e = rw (e, is_running)
    go completed e = rw (e, is_running, is_done)

-- The timer changes to a ready one with the new time, and is added.
place :
    (s : System) (c t ticks : ℕ) (v : Timer)
    → Valid s
    → ticks < size_mod
    → (s.timers t).state ≢ scheduled
    → v.state ≡ ready
    → v.ticks ≡ ticks
    → record v { ticks = ticks; cpu = some c; state = scheduled }
      ≡ record (s.timers t) { ticks = ticks; cpu = some c; state = scheduled }
    → (s' : System) × (add (set_timer s t v) (s.cpus c) t ≡ some s') × Places s c t ticks s'
place s c t ticks v ok word fresh r e same =
    let s₀ : System = set_timer s t v in
    let self : s₀.timers t ≡ v = update_self s.timers t v in
    let not_v : v.state ≢ scheduled = λ h. ready-not_scheduled (sym r ∙ h) in
    let ok₀ : Valid s₀ = set_timer-Valid s t v ok fresh not_v in
    let own = ok.own in
    let hash : (s₀.timers t).ticks ≡ ticks = ap (λ x. x.ticks) self ∙ e in
    (
      added s₀ c t,
      add_lem s₀ c t (ap (λ x. x.state) self ∙ r),
      record {
        valid =
            added-Valid s₀ c t ok₀ (rw hash word) (λ h. not_v (ap (λ x. x.state) (sym self) ∙ h));
        timer =
            update_self s₀.timers t
              (record (s₀.timers t) { cpu = some (s.cpus c).cpu; state = scheduled })
            ∙ ap₂ {A = Timer} (λ x y. record x { cpu = some y; state = scheduled }) self (own c)
            ∙ ap (λ x. record v { ticks = x; cpu = some c; state = scheduled }) e
            ∙ same;
        head =
            rw (hash)
              (set_bucket_self s.cpus own c (bucket ticks) (t ∷ (s.cpus c).htable (bucket ticks)));
        tables = λ k a h. rw hash (
            set_bucket_ne s.cpus own c (bucket ticks) (t ∷ (s.cpus c).htable (bucket ticks)) k a h);
        others = λ u n.
            update_ne s₀.timers t u
              (record (s₀.timers t) { cpu = some (s.cpus c).cpu; state = scheduled }) n
            ∙ update_ne s.timers t u v n;
      },
    )

schedule-first :
    (s : System) (self t ticks : ℕ)
    → (s.timers t).cpu ≡ none
    → schedule s self t ticks
      ≡ add (set_timer s t (record (s.timers t) { ticks = ticks })) (s.cpus self) t
unfolding schedule
schedule-first s self t ticks e = simp (e, schedule)

schedule-again :
    (s : System) (self t ticks c : ℕ)
    → (s.timers t).cpu ≡ some c
    → (s.timers t).canceled ≡ false
    → schedule s self t ticks
      ≡ add (set_timer s t (record (restart (s.timers t)) { ticks = ticks })) (s.cpus c) t
unfolding schedule
schedule-again s self t ticks c e live = simp (e, schedule, live)

-- In a well-formed state, `timer_schedule` of a timer that may be scheduled does not fail; it puts
-- the timer first in the bucket of the given time, on the caller's processor or on the one that the
-- timer already has, leaves every other bucket and timer alone, and keeps the state well-formed.
pub schedule_lem :
    (s : System) (self t ticks c : ℕ)
    → Valid s
    → ticks < size_mod
    → May s self t c
    → (s' : System) × (schedule s self t ticks ≡ some s') × Places s c t ticks s'
schedule_lem s self t ticks c ok word (inl (no_cpu, fresh, here)) =
    let v : Timer = record (s.timers t) { ticks = ticks } in
    let (s', e, p) =
      place s c t ticks v ok word (λ h. ready-not_scheduled (sym fresh ∙ h)) fresh refl refl in
    (s', schedule-first s self t ticks no_cpu ∙ rw here e, p)
schedule_lem s self t ticks c ok word (inr (on, live, fresh)) =
    let v : Timer = record (restart (s.timers t)) { ticks = ticks } in
    let (s', e, p) =
      place s c t ticks v ok word fresh (restart-ready (s.timers t) fresh) refl
        (restart-rest (s.timers t) ticks c) in
    (s', schedule-again s self t ticks c on live ∙ e, p)
