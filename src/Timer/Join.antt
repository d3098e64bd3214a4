-- ===== src/Timer/Join.antt =====
-- `timer_cancel` of a running timer, which waits for the end of `timer_run`.
use x.Prelude.{update_self, ℕ, ◌≡◌, refl, ap, ◌∙◌, true, false, none, some, ◌∷◌, eq→==}
use x.Timer.{
  Timer, ready, running, completed, System, set_timer, returned, waiting, cancel, await, finish_run,
  is_scheduled, is_running, is_done,
}

-- The timer that a canceling thread waits for.
abbrev joined : System → ℕ → ℕ → System
joined s self t = set_timer s t (record (s.timers t) { canceled = true; joiner = some self })

cancel-running :
    (s : System) (self c t : ℕ)
    → (s.timers t).cpu ≡ some c
    → (s.timers t).state ≡ running
    → (s.timers t).joiner ≡ none
    → (s.timers t).detached ≡ false
    → cancel s self t ≡ some (waiting (joined s self t))
unfolding cancel await
cancel-running s self c t on h j d =
    simp (on, cancel, j, d, h, is_scheduled, is_done, eq→== t t refl)

finish_run-running :
    (s : System) (c t : ℕ)
    → (s.timers t).cpu ≡ some c
    → (s.timers t).state ≡ running
    → (s.timers t).detached ≡ false
    → finish_run s t
      ≡ some (record (set_timer s t (record (s.timers t) { state = completed })) {
        wakeups = (s.timers t).joiner ∷ s.wakeups;
      })
unfolding finish_run
finish_run-running s c t on h d = simp (finish_run, on, d, h, is_running)

await-done :
    (s : System) (t : ℕ)
    → (s.timers t).state ≡ completed
    → await s t ≡ returned (set_timer s t (record (s.timers t) { joiner = none; state = ready }))
unfolding await
await-done s t h = simp (await, h, is_done)

-- A timer that runs, is not detached and was scheduled on `c` is waited for by `timer_cancel`. When
-- its handler has left it running, the end of `timer_run` wakes the waiting thread up and makes
-- the test of the waiting loop succeed: `timer_cancel` returns, with the timer ready and canceled and
-- no other thread joining it.
pub join_lem :
    (s : System) (self c t : ℕ)
    → (s.timers t).cpu ≡ some c
    → (s.timers t).state ≡ running
    → (s.timers t).joiner ≡ none
    → (s.timers t).detached ≡ false
    → (s₁ s₂ s₃ : System) × (cancel s self t ≡ some (waiting s₁))
      × (finish_run s₁ t ≡ some s₂)
      × (s₂.wakeups ≡ some self ∷ s.wakeups)
      × (await s₂ t ≡ returned s₃)
      × (s₃.timers t ≡ record (s.timers t) { canceled = true; joiner = none; state = ready })
join_lem s self c t on h j d =
    let s₁ : System = joined s self t in
    let v : Timer = record (s.timers t) { canceled = true; joiner = some self } in
    let e₁ : s₁.timers t ≡ v = update_self s.timers t v in
    let s₂ : System = record (set_timer s₁ t (record (s₁.timers t) { state = completed })) {
      wakeups = (s₁.timers t).joiner ∷ s.wakeups;
    } in
    let e₂ : s₂.timers t ≡ record v { state = completed } =
      update_self s₁.timers t (record (s₁.timers t) { state = completed })
      ∙ ap {A = Timer} (λ x. record x { state = completed }) e₁ in
    let s₃ : System = set_timer s₂ t (record (s₂.timers t) { joiner = none; state = ready }) in
    (
      s₁,
      s₂,
      s₃,
      cancel-running s self c t on h j d,
      finish_run-running s₁ c t (ap (λ x. x.cpu) e₁ ∙ on) (ap (λ x. x.state) e₁ ∙ h)
          (ap (λ x. x.detached) e₁ ∙ d),
      ap (λ x. x.joiner ∷ s.wakeups) e₁,
      await-done s₂ t (ap (λ x. x.state) e₂),
      update_self s₂.timers t (record (s₂.timers t) { joiner = none; state = ready })
          ∙ ap {A = Timer} (λ x. record x { joiner = none; state = ready }) e₂,
    )
