-- ===== src/Timer/Tests.antt =====
-- Runs of the timers on small states.
use x.Prelude.{
  ℕ, ◌≡◌, refl, sym, subst, ap, inl, true, false, Option, none, some, List, [], ◌∷◌, arith,
}
use x.Clock.{time_occurred}
use x.Timer.{
  Timer, ready, scheduled, running, System, schedule, add, cancel, await, finish_run, returned,
  waiting, set_timer, process_all, report_periodic_event,
}
use x.Timer.Valid.{Valid}
use x.Timer.Schedule.{Places, schedule_lem, ready-not_scheduled}
use x.Timer.Cancel.{Withdraws, cancel_lem}
use x.Timer.Event.{Fires, report_lem, late_lem}
use x.Timer.{process}
use x.Timer.Join.{join_lem}
use x.Timer.Priority.{process_lem}
use x.Work.Pool.{is_highprio}

abbrev fresh : Timer
fresh = record {
  ticks = 0;
  cpu = none;
  state = ready;
  detached = false;
  intr = false;
  high_prio = false;
  canceled = false;
  joiner = none;
}

-- No timer is scheduled, and the last event of each processor was at 100.
abbrev quiet : System
quiet = record {
  timers = λ t. fresh;
  cpus = λ c. record { cpu = c; last_time = 100; htable = λ b. [] };
  works = [];
  wakeups = [];
}

quiet-Valid : Valid quiet
quiet-Valid = record {
  own = λ c. refl;
  state = λ c b u m. absurd m;
  place = λ c b u m. absurd m;
  hash = λ c b u m. absurd m;
  word = λ c b u m. absurd m;
  once = λ c b. tt;
  queued = λ u h. absurd (ready-not_scheduled h);
}

-- What a call leaves, and `quiet` where it fails.
abbrev left : Option System → System
left none = quiet
left (some s) = s

-- the timer 7 of processor 0, for the time 103
abbrev one : System
one = left (schedule quiet 0 7 103)

one-Valid : Valid one
one-Valid =
    let (s', e, p) =
      schedule_lem quiet 0 7 103 0 quiet-Valid (omega arith) (inl (refl, refl, refl)) in
    subst Valid (ap left (sym e)) p.valid

schedule_lem_example : (s' : System) × (schedule quiet 0 7 103 ≡ some s') × Places quiet 0 7 103 s'
schedule_lem_example =
    schedule_lem quiet 0 7 103 0 quiet-Valid (omega arith) (inl (refl, refl, refl))

one-timer : one.timers 7 ≡ record fresh { ticks = 103; cpu = some 0; state = scheduled }
unfolding schedule add
one-timer = refl

cancel_lem_example : (r : System) × (cancel one 3 7 ≡ some (returned r)) × Withdraws one 0 7 r
cancel_lem_example =
    cancel_lem one 3 0 7 one-Valid (ap (λ v. v.cpu) one-timer) (ap (λ v. v.state) one-timer)
      (ap (λ v. v.joiner) one-timer) (ap (λ v. v.detached) one-timer)

one-last : (one.cpus 0).last_time ≡ 100
unfolding schedule add
one-last = refl

keep : ℕ → System → Option System
keep t s = some s

report_lem_example :
    (s' : System) × (out : List ℕ) × (report_periodic_event keep one 0 105
      ≡ process_all keep s' out)
    × Fires one 0 105 s' out
report_lem_example =
    report_lem keep one 0 105 one-Valid (rw one-last (omega arith)) (omega arith)
      (rw one-last (omega arith))

-- The timer 7 of processor 0, for the time 98, which is before the last event.
abbrev past : System
past = left (schedule quiet 0 7 98)

past-Valid : Valid past
past-Valid =
    let (s', e, p) =
      schedule_lem quiet 0 7 98 0 quiet-Valid (omega arith) (inl (refl, refl, refl)) in
    subst Valid (ap left (sym e)) p.valid

past-timer : past.timers 7 ≡ record fresh { ticks = 98; cpu = some 0; state = scheduled }
unfolding schedule add
past-timer = refl

past-last : (past.cpus 0).last_time ≡ 100
unfolding schedule add
past-last = refl

past_occurred : time_occurred (past.timers 7).ticks (past.cpus 0).last_time ≡ true
unfolding schedule add
past_occurred = refl

late_lem_example :
    (s' : System) × (out : List ℕ) × (report_periodic_event keep past 0 101
      ≡ process_all keep s' out)
    × (s'.timers 7 ≡ past.timers 7)
late_lem_example =
    late_lem keep past 0 101 7 past-Valid (rw past-last (omega arith)) (rw past-last refl)
      (ap (λ v. v.state) past-timer) (ap (λ v. v.cpu) past-timer) (rw past-timer (omega arith))

abbrev runs : System
runs = set_timer quiet 7 (record fresh { ticks = 98; cpu = some 0; state = running })

join_lem_example :
    (s₁ s₂ s₃ : System) × (cancel runs 3 7 ≡ some (waiting s₁))
    × (finish_run s₁ 7 ≡ some s₂)
    × (s₂.wakeups ≡ some 3 ∷ [])
    × (await s₂ 7 ≡ returned s₃)
    × (s₃.timers 7 ≡ record (runs.timers 7) { canceled = true; joiner = none; state = ready })
join_lem_example = join_lem runs 3 0 7 refl refl refl refl

-- a timer of high priority
abbrev urgent : System
urgent = set_timer quiet 7 (record fresh { high_prio = true; state = running })

process_lem_example :
    (flags : ℕ) × (process keep urgent 7 ≡ some (record urgent { works = (7, flags) ∷ [] }))
    × (is_highprio flags ≡ false)
process_lem_example = process_lem keep urgent 7 refl
