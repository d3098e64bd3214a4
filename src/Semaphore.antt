-- ===== src/Semaphore.antt =====
-- kern/semaphore.{h,c} and kern/semaphore_i.h: a counter, and the threads that wait for it on a sleep
-- queue. The counter changes by atomic operations; a thread tests it and goes to sleep, and another
-- signals the queue, under the lock of the queue. The queue wakes its oldest waiter up.
pub mod Runs
mod Tests
use x.Prelude.{
  ℕ, zero, suc, ◌+◌, ◌-◌, Bool, Option, none, some, List, [], ◌∷◌, ◌++◌, ◌==◌, leb, if◌then◌else◌,
  update, ◌>>=◌, ◌≡◌,
}
use x.Errno.{Errno, success, eagain}

abbrev pub value_max : ℕ
value_max = 32768

-- Where a thread stands: outside, in the loop of `semaphore_wait_slow_common` before the test,
-- asleep in it, or about to signal in `semaphore_post_slow`.
pub data Stage : Type 0 where
  outside testing asleep signaling : Stage

-- `queue` is the sleep queue, the oldest waiter first.
pub record Semaphore : Type 0 where
  pub value : ℕ
  pub queue : List ℕ
  pub stages : ℕ → Stage

-- `semaphore_init`; `none` is a failed assertion
pub init : ℕ → Option Semaphore
init value =
    if leb value value_max
    then some (record { value = value; queue = []; stages = λ t. outside })
    else none

abbrev pub go : Semaphore → ℕ → Stage → Semaphore
go s t x = record s { stages = update s.stages t x }

-- `semaphore_dec` that finds a unit
abbrev pub take : Semaphore → Semaphore
take s = record s { value = s.value - 1 }

-- `semaphore_inc`
abbrev pub inc : Semaphore → Option Semaphore
inc s = if s.value == value_max then none else some (record s { value = s.value + 1 })

-- `semaphore_trywait`
pub try_wait : Semaphore → Errno × Semaphore
try_wait s = if s.value == 0 then (eagain, s) else (success, take s)

-- `semaphore_wait`, up to the slow path
pub wait : Semaphore → ℕ → Semaphore
wait s t = if s.value == 0 then go s t testing else go (take s) t outside

-- a turn of the loop of `semaphore_wait_slow_common`: the thread leaves with a unit, or sleeps
pub wait_slow : Semaphore → ℕ → Semaphore
wait_slow s t =
    if s.value == 0
    then record (go s t asleep) { queue = s.queue ++ (t ∷ []) }
    else go (take s) t outside

-- `semaphore_post`, up to the slow path
pub post : Semaphore → ℕ → Option Semaphore
post s t = inc s >>= λ s'. some (go s' t (if s.value == 0 then signaling else outside))

-- `semaphore_post_slow`: `sleepq_signal`, when there is a queue
pub post_slow : Semaphore → ℕ → Semaphore
post_slow s t = elim s.queue [
  | [] ↦ go s t outside
  | u ∷ us ↦ record (go (go s t outside) u testing) { queue = us }
]

-- The steps of threads, in any order.
pub data Step : Semaphore → Semaphore → Type 0 where
  waits : {s : Semaphore} (t : ℕ) → s.stages t ≡ outside → Step s (wait s t)
  tries : {s : Semaphore} (t : ℕ) → s.stages t ≡ outside → Step s ((try_wait s).1)
  tests : {s : Semaphore} (t : ℕ) → s.stages t ≡ testing → Step s (wait_slow s t)
  posts : {s s' : Semaphore} (t : ℕ) → s.stages t ≡ outside → post s t ≡ some s' → Step s s'
  signals : {s : Semaphore} (t : ℕ) → s.stages t ≡ signaling → Step s (post_slow s t)

pub data Steps : Semaphore → Semaphore → Type 0 where
  stop : {s : Semaphore} → Steps s s
  then_step : {s s' s'' : Semaphore} → Step s s' → Steps s' s'' → Steps s s''
