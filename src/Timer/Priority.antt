-- ===== src/Timer/Priority.antt =====
-- The flags with which `timer_process` defers the handler of a timer to a work.
use x.Prelude.{ℕ, ◌≡◌, refl, inl, inr, false, Option, some, ◌∷◌, Bool-cases}
use x.Timer.{System, process}
use x.Work.Pool.{is_highprio}

-- A timer that does not run in interrupt context is deferred to one work, and whatever its own
-- priority the flags of that work do not ask for a worker of high priority.
pub process_lem :
    (handler : ℕ → System → Option System) (s : System) (t : ℕ)
    → (s.timers t).intr ≡ false
    → (flags : ℕ) × (process handler s t ≡ some (record s { works = (t, flags) ∷ s.works }))
      × (is_highprio flags ≡ false)
unfolding process
process_lem handler s t i = elim (Bool-cases (s.timers t).high_prio) [
  | inl h ↦ (4, simp (process, i, h), refl)
  | inr h ↦ (0, simp (process, i, h), refl)
]
