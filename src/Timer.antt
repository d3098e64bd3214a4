-- ===== src/Timer.antt =====
-- kern/timer.{h,c}: timers on per-processor hashed wheels. An operation runs under the lock of the
-- wheel, so it is one step; `none` is a failed assertion or the use of a null `cpu_data`. Timers,
-- processors and threads are numbers. A list of timers (`struct hlist`) is its sequence of members.
pub mod Sweep
pub mod Wheels
pub mod Collect
pub mod Valid
pub mod Preserve
pub mod Schedule
pub mod Cancel
pub mod Event
pub mod Join
pub mod Priority
mod Tests
use x.Prelude.{
  without, update, ℕ, zero, suc, ◌+◌, ◌-◌, Bool, true, false, not, Option, none, some, List, [],
  ◌∷◌, ◌++◌, ◌==◌, ◌||◌, ◌&&◌, if◌then◌else◌, bit_and, ◌>>=◌,
}
use x.Prelude.Words.{size_add, size_sub}
use x.Clock.{time_occurred}

pub data TimerState : Type 0 where
  ready scheduled running completed : TimerState

pub record Timer : Type 0 where
  pub ticks : ℕ
  pub cpu : Option ℕ
  pub state : TimerState
  pub detached : Bool
  pub intr : Bool
  pub high_prio : Bool
  pub canceled : Bool
  pub joiner : Option ℕ

-- `htable` is `TIMER_HTABLE_SIZE` buckets; the head of a bucket comes first.
pub record CpuData : Type 0 where
  pub cpu : ℕ
  pub last_time : ℕ
  pub htable : ℕ → List ℕ

-- `works` are the calls of `work_schedule` with their flags, and `wakeups` those of `thread_wakeup`,
-- the last one first.
pub record System : Type 0 where
  pub timers : ℕ → Timer
  pub cpus : ℕ → CpuData
  pub works : List (ℕ × ℕ)
  pub wakeups : List (Option ℕ)

abbrev pub htable_mask : ℕ
htable_mask = 2047

abbrev pub is_scheduled : Timer → Bool
is_scheduled t = elim t.state [ scheduled ↦ true | _ ↦ false ]

abbrev pub is_running : Timer → Bool
is_running t = elim t.state [ running ↦ true | _ ↦ false ]

abbrev pub is_done : Timer → Bool
is_done t = elim t.state [ completed ↦ true | _ ↦ false ]

abbrev pub is_ready : Timer → Bool
is_ready t = elim t.state [ ready ↦ true | _ ↦ false ]

-- `timer_hash` and the index computed by `timer_cpu_data_get_bucket`
abbrev pub bucket : ℕ → ℕ
bucket ticks = bit_and ticks htable_mask

abbrev pub set_timer : System → ℕ → Timer → System
set_timer s t v = record s { timers = update s.timers t v }

-- `TIMER_DETACHED`, `TIMER_INTR` and `TIMER_HIGH_PRIO` of the flags given to `timer_init`
pub init : System → ℕ → Bool → Bool → Bool → System
init s t detached intr high_prio = set_timer s t (record {
  ticks = (s.timers t).ticks;
  cpu = none;
  state = ready;
  detached = detached;
  intr = intr;
  high_prio = not intr && high_prio;
  canceled = false;
  joiner = none;
})

-- `timer_cpu_data_add`, then `timer_set_scheduled`
pub add : System → CpuData → ℕ → Option System
add s d t =
    let v : Timer = s.timers t in
    let b : ℕ = bucket v.ticks in
    if is_ready v
    then some (record s {
      timers = update s.timers t (record v { cpu = some d.cpu; state = scheduled });
      cpus = update s.cpus d.cpu (record d { htable = update d.htable b (t ∷ d.htable b) });
    })
    else none

-- A running timer reschedules itself, and a completed one may be scheduled again.
pub restart : Timer → Timer
restart v = if is_running v || is_done v then record v { state = ready } else v

-- `timer_schedule` on the processor `self`. The assignment `ticks = cpu_data->last_time + 1` of the
-- source is to a parameter that is not read again.
pub schedule : System → ℕ → ℕ → ℕ → Option System
schedule s self t ticks = elim (s.timers t).cpu [
  | none ↦ add (set_timer s t (record (s.timers t) { ticks = ticks })) (s.cpus self) t
  | some c ↦
      if (s.timers t).canceled
      then some s
      else add (set_timer s t (record (restart (s.timers t)) { ticks = ticks })) (s.cpus c) t
]

-- `timer_cpu_data_remove`, with `timer_bucket_remove`
pub remove : System → CpuData → ℕ → System
remove s d t =
    let b : ℕ = bucket (s.timers t).ticks in
    record s {
      cpus = update s.cpus d.cpu (record d { htable = update d.htable b (without t (d.htable b)) });
    }

-- What a call of `timer_cancel` comes to: it returns, or it waits for the timer to be done.
pub data Outcome : Type 0 where
  returned : System → Outcome
  waiting : System → Outcome

-- the test of the waiting loop, and the end of the function
pub await : System → ℕ → Outcome
await s t =
    if is_done (s.timers t)
    then returned (set_timer s t (record (s.timers t) { joiner = none; state = ready }))
    else waiting s

-- `timer_cancel` by the thread `self`, up to its first sleep
pub cancel : System → ℕ → ℕ → Option Outcome
cancel s self t =
    let v : Timer = s.timers t in
    let v' : Timer = record v { canceled = true } in
    elim v.cpu [
      | none ↦ none
      | some c ↦ elim v.joiner [
        | some j ↦ none
        | none ↦
            if v.detached
            then none
            else (if is_scheduled v
                then some
                    (returned (set_timer (remove s (s.cpus c) t) t (record v' { state = ready })))
                else some (await (set_timer s t (record v' { joiner = some self })) t))
      ]
    ]

-- `timer_bucket_filter`: what stays in the bucket, the timers, and the list of those to process.
pub record Swept : Type 0 where
  pub kept : List ℕ
  pub timers : ℕ → Timer
  pub out : List ℕ

abbrev pub keep_first : ℕ → Swept → Option Swept
keep_first t r = some (record r { kept = t ∷ r.kept })

pub sweep : ℕ → List ℕ → (ℕ → Timer) → List ℕ → Option Swept
sweep now [] tm out = some (record { kept = []; timers = tm; out = out })
sweep now (t ∷ ts) tm out = elim (is_scheduled (tm t)) [
  | false ↦ none
  | true ↦ elim (time_occurred (tm t).ticks now) [
    | true ↦ sweep now ts (update tm t (record (tm t) { state = running })) (t ∷ out)
    | false ↦ sweep now ts tm out >>= keep_first t
  ]
]

-- The loop of `timer_report_periodic_event` over the ticks since the last event, on fuel.
pub record Wheel : Type 0 where
  pub htable : ℕ → List ℕ
  pub timers : ℕ → Timer
  pub out : List ℕ

abbrev pub put_back : Wheel → ℕ → Swept → Wheel
put_back w b r = record { htable = update w.htable b r.kept; timers = r.timers; out = r.out }

pub collect : ℕ → ℕ → ℕ → Wheel → Option Wheel
collect zero ticks now w = none
collect (suc fuel) ticks now w = elim (time_occurred ticks now) [
  | false ↦ some w
  | true ↦ sweep now (w.htable (bucket ticks)) w.timers w.out >>= λ r.
      collect fuel (size_add ticks 1) now (put_back w (bucket ticks) r)
]

-- `timer_run`, once its handler has returned in the state `s`
pub finish_run : System → ℕ → Option System
finish_run s t =
    let v : Timer = s.timers t in
    if v.detached then some s else elim v.cpu [
      | none ↦ none
      | some c ↦
          if is_running v
          then some (record (set_timer s t (record v { state = completed })) {
            wakeups = v.joiner ∷ s.wakeups;
          })
          else some s
    ]

-- The handlers of timers may call any function: what they do to the system is a parameter.
module _ (handler : ℕ → System → Option System) where
  pub run : System → ℕ → Option System
  run s t = if is_running (s.timers t) then (handler t s >>= λ s'. finish_run s' t) else none

  -- `work_flags` is `TIMER_TF_HIGH_PRIO`, 4, for a timer of high priority.
  pub process : System → ℕ → Option System
  process s t =
      if (s.timers t).intr
      then run s t
      else some (record s { works = (t, (if (s.timers t).high_prio then 4 else 0)) ∷ s.works })

  pub process_all : System → List ℕ → Option System
  process_all s [] = some s
  process_all s (t ∷ ts) = process s t >>= λ s'. process_all s' ts

  -- `timer_report_periodic_event` on the processor `self` at the time `now`
  pub report_periodic_event : System → ℕ → ℕ → Option System
  report_periodic_event s self now =
      let d : CpuData = s.cpus self in
      collect (suc (size_sub now d.last_time)) (size_add d.last_time 1) now
        (record { htable = d.htable; timers = s.timers; out = [] })
      >>= λ w.
          process_all
            (record s {
              timers = w.timers;
              cpus = update s.cpus d.cpu (record d { htable = w.htable; last_time = now });
            })
            w.out
