-- ===== src/Timer/Event.antt =====
-- `timer_report_periodic_event`: which timers it takes out of the wheel of its processor.
use native.Mathlib.Decide.{ℕ_discrete}
use x.Prelude.{
  update, Mem, Distinct, ℕ, ◌^◌, ◌<◌, ◌≤◌, ◌≡◌, ◌≢◌, refl, subst, sym, ap, ◌∙◌, inl, inr, true,
  false, Option, some, List, [], eq→==, ne→==, arith,
}
use x.Prelude.Words.{size_mod, size_add, size_sub}
use x.Clock.{time_occurred}
use x.Timer.{scheduled, running, System, CpuData, bucket, Wheel, process_all, report_periodic_event}
use x.Timer.Wheels.{IsWheel}
use x.Timer.Collect.{Collects, collect_lem}
use x.Timer.Valid.{Valid}

-- The state `s'` with the list `out` of the timers to process, once the loop has run on `s`.
pub record Fires (s : System) (self now : ℕ) (s' : System) (out : List ℕ) : Type 0 where
  pub valid : Valid s'
  pub last_time : (s'.cpus self).last_time ≡ now
  pub due :
      (u : ℕ)
      → (s.timers u).state ≡ scheduled
      → (s.timers u).cpu ≡ some self
      → size_sub now (s.timers u).ticks < size_sub now (s.cpus self).last_time
      → (s'.timers u ≡ record (s.timers u) { state = running }) × Mem u out
  pub skips :
      (u : ℕ)
      → (s.timers u).state ≡ scheduled
      → (s.timers u).cpu ≡ some self
      → ((i : ℕ)
          → i < size_sub now (s.cpus self).last_time
          → bucket (size_sub now i) ≢ bucket (s.timers u).ticks)
      → s'.timers u ≡ s.timers u
  pub later : (u : ℕ) → time_occurred (s.timers u).ticks now ≡ false → s'.timers u ≡ s.timers u
  pub taken :
      (u : ℕ)
      → Mem u out
      → ((s.timers u).state ≡ scheduled)
        × ((s.timers u).cpu ≡ some self)
        × (time_occurred (s.timers u).ticks now ≡ true)

module _ (s : System) (self now n : ℕ) (ok : Valid s) (w' : Wheel)
    (done : Collects now n
      (record { htable = (s.cpus self).htable; timers = s.timers; out = [] })
      w') where
  abbrev d' : CpuData
  d' = record (s.cpus self) { htable = w'.htable; last_time = now }

  abbrev s' : System
  s' = record s { timers = w'.timers; cpus = update s.cpus (s.cpus self).cpu d' }

  here : s'.cpus self ≡ d'
  here = rw (eq→== self (s.cpus self).cpu (sym (ok.own self)))

  there : (k : ℕ) → self ≢ k → s'.cpus k ≡ s.cpus k
  there k n = rw (ne→== k (s.cpus self).cpu (λ e. n (sym (ok.own self) ∙ sym e)))

  event-fewer : (k a u : ℕ) → Mem u ((s'.cpus k).htable a) → Mem u ((s.cpus k).htable a)
  event-fewer k a u m = elim (ℕ_discrete self k) [
    | yes e ↦
        subst (λ x. Mem u ((s.cpus x).htable a)) e
          (done.fewer a u (
            subst (λ d. Mem u (d.htable a)) here
              (subst (λ x. Mem u ((s'.cpus x).htable a)) (sym e) m)))
    | no n ↦ subst (λ d. Mem u (d.htable a)) (there k n) m
  ]

  -- A timer of another processor is not on this wheel.
  event-away : (k a u : ℕ) → self ≢ k → Mem u ((s.cpus k).htable a) → w'.timers u ≡ s.timers u
  event-away k a u n m = done.others u (λ b m'.
      let same : some self ≡ some k = sym (ok.place self b u m') ∙ ok.place k a u m in n (cc same))

  event-same : (k a u : ℕ) → Mem u ((s'.cpus k).htable a) → w'.timers u ≡ s.timers u
  event-same k a u m = elim (ℕ_discrete self k) [
    | yes e ↦
        done.same a u (
          subst (λ d. Mem u (d.htable a)) here
            (subst (λ x. Mem u ((s'.cpus x).htable a)) (sym e) m))
    | no n ↦ event-away k a u n (event-fewer k a u m)
  ]

  event-once : (k a : ℕ) → Distinct ((s'.cpus k).htable a)
  event-once k a = elim (ℕ_discrete self k) [
    | yes e ↦
        subst (λ x. Distinct ((s'.cpus x).htable a)) e
          (subst (λ d. Distinct (d.htable a)) (sym here) (done.wheel.once a))
    | no n ↦ subst (λ d. Distinct (d.htable a)) (sym (there k n)) (ok.once k a)
  ]

  event-own : (k : ℕ) → (s'.cpus k).cpu ≡ k
  event-own k = elim (ℕ_discrete self k) [
    | yes e ↦ subst (λ x. (s'.cpus x).cpu ≡ x) e (ap (λ d. d.cpu) here ∙ ok.own self)
    | no n ↦ ap (λ d. d.cpu) (there k n) ∙ ok.own k
  ]

  event-queued :
      (u : ℕ)
      → (w'.timers u).state ≡ scheduled
      → (k : ℕ) × ((w'.timers u).cpu ≡ some k)
        × Mem u ((s'.cpus k).htable (bucket (w'.timers u).ticks))
  event-queued u h = elim (done.settled u) [
    | inr run ↦ absurd (cc (run, h))
    | inl (e, keep) ↦
        let (k, p, m) = ok.queued u (subst (λ v. v.state ≡ scheduled) e h) in
        let stays : Mem u ((s'.cpus k).htable (bucket (s.timers u).ticks)) =
          elim (ℕ_discrete self k) [
            | yes e' ↦
                subst (λ x. Mem u ((s'.cpus x).htable (bucket (s.timers u).ticks))) e'
                  (subst (λ d. Mem u (d.htable (bucket (s.timers u).ticks))) (sym here)
                    (keep (bucket (s.timers u).ticks) (
                      subst (λ x. Mem u ((s.cpus x).htable (bucket (s.timers u).ticks))) (sym e')
                        m)))
            | no n ↦ subst (λ d. Mem u (d.htable (bucket (s.timers u).ticks))) (sym (there k n)) m
          ] in
        (
          k,
          subst (λ v. v.cpu ≡ some k) (sym e) p,
          subst (λ v. Mem u ((s'.cpus k).htable (bucket v.ticks))) (sym e) stays,
        )
  ]

  event-Valid : Valid s'
  event-Valid = record {
    own = event-own;
    state = λ k a u m. rw (event-same k a u m) (ok.state k a u (event-fewer k a u m));
    place = λ k a u m. rw (event-same k a u m) (ok.place k a u (event-fewer k a u m));
    hash = λ k a u m. rw (event-same k a u m) (ok.hash k a u (event-fewer k a u m));
    word = λ k a u m. rw (event-same k a u m) (ok.word k a u (event-fewer k a u m));
    once = event-once;
    queued = event-queued;
  }

  on_wheel :
      (u : ℕ)
      → (s.timers u).state ≡ scheduled
      → (s.timers u).cpu ≡ some self
      → Mem u ((s.cpus self).htable (bucket (s.timers u).ticks))
  on_wheel u h on =
      let (k, p, m) = ok.queued u h in
      let same : some k ≡ some self = sym p ∙ on in
      subst (λ x. Mem u ((s.cpus x).htable (bucket (s.timers u).ticks))) (cc same) m

  fires : n ≡ size_sub now (s.cpus self).last_time → Fires s self now s' w'.out
  fires len = record {
    valid = event-Valid;
    last_time = ap (λ d. d.last_time) here;
    due = λ u h on l.
        let (run, out, gone) =
          done.due (bucket (s.timers u).ticks) u (on_wheel u h on) (rw len l) in
        (run, out);
    skips = λ u h on apart.
        (done.skips (bucket (s.timers u).ticks) u (on_wheel u h on)
          (λ i l. apart i (omega arith))).0;
    later = done.later;
    taken = λ u m. elim (done.taken u m) [
      | inl m' ↦ absurd m'
      | inr (b, m', o) ↦ (ok.state self b u m', ok.place self b u m', o)
    ];
  }

-- In a well-formed state whose last event is at most 2^60 ticks old, the loop of an event at the
-- time `now` ends; the event then processes a list of timers in a well-formed state whose last event
-- is `now`. Every timer scheduled on this processor for a time after the last event and up to `now`
-- is in the list and set running; the list has only timers scheduled on this processor whose times
-- have occurred; and a timer whose time has not occurred is unchanged.
pub report_lem :
    (handler : ℕ → System → Option System) (s : System) (self now : ℕ)
    → Valid s
    → (s.cpus self).last_time < size_mod
    → now < size_mod
    → size_sub now (s.cpus self).last_time ≤ 2 ^ 60
    → (s' : System) × (out : List ℕ) × (report_periodic_event handler s self now
        ≡ process_all handler s' out)
      × Fires s self now s' out
unfolding report_periodic_event
report_lem handler s self now ok last_word now_word recent =
    let d : CpuData = s.cpus self in
    let n : ℕ = size_sub now d.last_time in
    let w : Wheel = record { htable = d.htable; timers = s.timers; out = [] } in
    let wheel : IsWheel d.htable s.timers = record {
      state = ok.state self;
      hash = ok.hash self;
      once = ok.once self;
      word = ok.word self;
    } in
    let (w', runs, done) =
      collect_lem n (size_add d.last_time 1) now w (omega arith) now_word recent (omega arith)
        wheel in
    (
      s' s self now n ok w' done,
      w'.out,
      simp (report_periodic_event, runs),
      fires s self now n ok w' done refl,
    )

-- A timer scheduled on this processor whose time does not hash to the bucket of `now` is unchanged,
-- so still scheduled, when an event at `now` begins to process its timers one tick after the last
-- event, even where the time of the timer has occurred.
pub late_lem :
    (handler : ℕ → System → Option System) (s : System) (self now t : ℕ)
    → Valid s
    → (s.cpus self).last_time < size_mod
    → now ≡ size_add (s.cpus self).last_time 1
    → (s.timers t).state ≡ scheduled
    → (s.timers t).cpu ≡ some self
    → bucket (s.timers t).ticks ≢ bucket now
    → (s' : System) × (out : List ℕ) × (report_periodic_event handler s self now
        ≡ process_all handler s' out)
      × (s'.timers t ≡ s.timers t)
late_lem handler s self now t ok last_word next h on apart =
    let (s', out, runs, f) =
      report_lem handler s self now ok last_word (omega arith) (omega arith) in
    let only : (i : ℕ)
        → i < size_sub now (s.cpus self).last_time
        → bucket (size_sub now i) ≢ bucket (s.timers t).ticks =
      λ i l e. let first : size_sub now i ≡ now = omega arith in apart (sym e ∙ ap bucket first) in
    (s', out, runs, f.skips t h on only)
