-- ===== src/Work/Pool.antt =====
-- The pools of kern/work.c: pending works, worker threads and their identifiers. A pool is used
-- under its lock, or with preemption and interrupts disabled, so each operation is one step.
pub mod Holds
pub mod Fifo
pub mod Report
pub mod Bounds
pub mod Schedule
pub mod Rest
mod Tests
use x.Prelude.{
  ℕ, zero, suc, ◌+◌, ◌-◌, ◌*◌, ◌%◌, Bool, true, false, not, Option, none, some, List, [], ◌∷◌, ◌==◌,
  ltb, if◌then◌else◌, bit_and, update, ◌>>=◌,
}
use x.Work.Queue.{Queue, Linked, Popped, uint_mod, empty_queue, push, pop, concat}

-- `global` and `high_priority` are `WORK_PF_GLOBAL` and `WORK_PF_HIGHPRIO`, `transfers` is the counter
-- `sc_transfers`. Workers are numbers, and a bitmap is a function from identifiers.
pub record Pool : Type 0 where
  pub global : Bool
  pub high_priority : Bool
  pub queue0 : Queue
  pub queue1 : Queue
  pub manager : Option ℕ
  pub transfers : ℕ
  pub cpu : Option ℕ
  pub max_threads : ℕ
  pub nr_threads : ℕ
  pub nr_available_threads : ℕ
  pub available_threads : List ℕ
  pub dead_threads : List ℕ
  pub bitmap : ℕ → Bool

abbrev pub threads_ratio : ℕ
threads_ratio = 4

abbrev pub threads_threshold : ℕ
threads_threshold = 512

-- The loop of `work_pool_compute_max_threads`, from a ratio on.
abbrev pub shrink : ℕ → ℕ → ℕ
shrink nr_cpus zero = 0
shrink nr_cpus (suc zero) = nr_cpus % uint_mod
shrink nr_cpus (suc (suc ratio)) =
    let smaller = shrink nr_cpus (suc ratio) in
    if ltb threads_threshold (nr_cpus * (ratio + 2) % uint_mod)
    then smaller
    else nr_cpus * (ratio + 2) % uint_mod

pub compute_max_threads : ℕ → ℕ
compute_max_threads nr_cpus = shrink nr_cpus threads_ratio

-- `bitmap_find_first_zero`: the least clear bit from `i` on, among `n` of them.
abbrev pub first_zero : (ℕ → Bool) → ℕ → ℕ → Option ℕ
first_zero bitmap zero i = none
first_zero bitmap (suc n) i =
    let rest = first_zero bitmap n (suc i) in if bitmap i then rest else some i

pub record Allocated : Type 0 where
  pub id : ℕ
  pub pool : Pool

abbrev take_id : Pool → ℕ → Option Allocated
take_id p i = some (record {
  id = i;
  pool = record p { nr_threads = p.nr_threads + 1; bitmap = update p.bitmap i true };
})

-- `none` is a failed assertion.
pub alloc_id : Pool → Option Allocated
alloc_id p =
    if ltb p.nr_threads p.max_threads
    then first_zero p.bitmap p.max_threads 0 >>= take_id p
    else none

pub free_id : Pool → ℕ → Option Pool
free_id p id =
    if p.nr_threads == 0
    then none
    else some (record p { nr_threads = p.nr_threads - 1; bitmap = update p.bitmap id false })

-- `work_pool_nr_works`
pub nr_works : Pool → ℕ
nr_works p = (p.queue0.nr_works + p.queue1.nr_works) % uint_mod

pub record Taken : Type 0 where
  pub work : ℕ
  pub pool : Pool

abbrev pub leave0 : Pool → Popped → Option Taken
leave0 p r = some (record { work = r.work; pool = record p { queue0 = r.rest } })

abbrev pub leave1 : Pool → Popped → Option Taken
leave1 p r = some (record { work = r.work; pool = record p { queue1 = r.rest } })

-- `work_pool_pop_work`
pub pop_work : (ℕ → Option ℕ) → Pool → Option Taken
pop_work next p =
    if p.global
    then pop next p.queue0 >>= leave0 p
    else (if p.queue1.nr_works == 0
        then pop next p.queue0 >>= leave0 p
        else pop next p.queue1 >>= leave1 p)

-- `work_pool_wakeup_manager`: the worker woken up
pub wakeup_manager : Pool → Option ℕ
wakeup_manager p = if nr_works p == 0 then none else p.manager

-- The store of links, a pool, and the worker that was woken up.
pub record Pushed : Type 0 where
  pub next : ℕ → Option ℕ
  pub pool : Pool
  pub woken : Option ℕ

abbrev pub pushed : Pool → Linked → Pushed
pushed p l =
    let p' : Pool = record p { queue0 = l.queue } in
    record { next = l.next; pool = p'; woken = wakeup_manager p' }

-- `work_pool_push_work`
pub push_work : (ℕ → Option ℕ) → Pool → ℕ → Pushed
push_work next p w = pushed p (push next p.queue0 w)

-- `work_pool_concat_queue`
pub concat_queue : (ℕ → Option ℕ) → Pool → Queue → Option Pushed
concat_queue next p q = concat next p.queue0 q >>= λ l. some (pushed p l)

pub record Shifted : Type 0 where
  pub old_queue : Queue
  pub pool : Pool

-- `work_pool_shift_queues`
pub shift_queues : Pool → Option Shifted
shift_queues p =
    if p.global
    then none
    else some (record {
      old_queue = p.queue1;
      pool = record p {
        queue1 = p.queue0;
        queue0 = empty_queue;
        transfers = if p.queue1.nr_works == 0 then p.transfers else p.transfers + 1;
      };
    })

-- All the pools of the system and their works.
pub record Pools : Type 0 where
  pub next : ℕ → Option ℕ
  pub cpu_main : ℕ → Pool
  pub cpu_highprio : ℕ → Pool
  pub main : Pool
  pub highprio : Pool
  pub wakeups : List (Option ℕ)

-- `flags & WORK_HIGHPRIO`
abbrev pub is_highprio : ℕ → Bool
is_highprio flags = not (bit_and flags 1 == 0)

-- `work_pool_cpu_select` on the processor `self`
pub cpu_select : Pools → ℕ → ℕ → Pool
cpu_select s self flags = if is_highprio flags then s.cpu_highprio self else s.cpu_main self

abbrev pub store : Pools → ℕ → ℕ → Pushed → Pools
store s self flags r = record s {
  next = r.next;
  cpu_main = if is_highprio flags then s.cpu_main else update s.cpu_main self r.pool;
  cpu_highprio = if is_highprio flags then update s.cpu_highprio self r.pool else s.cpu_highprio;
  wakeups = r.woken ∷ s.wakeups;
}

-- `work_schedule` on the processor `self`
pub schedule : Pools → ℕ → ℕ → ℕ → Pools
schedule s self w flags = store s self flags (push_work s.next (cpu_select s self flags) w)

-- `work_queue_schedule`
pub queue_schedule : Pools → ℕ → Queue → ℕ → Option Pools
queue_schedule s self q flags =
    concat_queue s.next (cpu_select s self flags) q >>= λ r. some (store s self flags r)

-- a queue of works that waited for a whole period, to its global pool
pub transfer : (ℕ → Option ℕ) → Pool → Queue → Option Pushed
transfer next p q =
    if q.nr_works == 0
    then some (record { next = next; pool = p; woken = none })
    else concat_queue next p q

-- `work_report_periodic_event` on the processor `self`
pub report_periodic_event : Pools → ℕ → Option Pools
report_periodic_event s self = shift_queues (s.cpu_main self) >>= λ a.
    shift_queues (s.cpu_highprio self) >>= λ b. transfer s.next s.main a.old_queue >>= λ c.
    transfer c.next s.highprio b.old_queue >>= λ d. some (record {
      next = d.next;
      cpu_main = update s.cpu_main self a.pool;
      cpu_highprio = update s.cpu_highprio self b.pool;
      main = c.pool;
      highprio = d.pool;
      wakeups = d.woken ∷ c.woken ∷ s.wakeups;
    })
