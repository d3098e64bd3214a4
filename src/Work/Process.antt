-- ===== src/Work/Process.antt =====
-- The worker threads of a pool: `work_process` of kern/work.c, as the steps that a thread takes
-- from one release of the pool, or one sleep, to the next.
pub mod Staff
pub mod Steps
pub mod Loop
pub mod Turns
mod Tests
use x.Prelude.{
  ℕ, suc, ◌+◌, ◌-◌, Bool, true, false, Option, none, some, List, [], ◌∷◌, ◌++◌, ◌==◌, ltb,
  if◌then◌else◌, update, without, ◌>>=◌, ◌≡◌,
}
use x.Work.Pool.{Pool, Allocated, Taken, alloc_id, free_id, nr_works, pop_work}

-- Where a worker stands: before the loop or at its head; asleep in the list of available threads;
-- asleep as the manager; freeing a dead worker whose identifier it has; creating a worker with an
-- identifier, with a work to run after; running a work; in the list of dead threads. A number that is
-- no worker is absent.
pub data Place : Type 0 where
  absent entering spare managing finished : Place
  destroying : ℕ → Place
  creating : ℕ → ℕ → Place
  running : ℕ → Place

-- `ids` is the member `id` of the workers; `wakeups` are the calls of `thread_wakeup`, the last first.
pub record Crew : Type 0 where
  pub next : ℕ → Option ℕ
  pub pool : Pool
  pub places : ℕ → Place
  pub ids : ℕ → ℕ
  pub wakeups : List ℕ

abbrev pub threads_spare : ℕ
threads_spare = 4

abbrev pub stand : Crew → ℕ → Pool → Place → Crew
stand s self p x = record s { pool = p; places = update s.places self x }

-- Other works are pending: an available thread is woken up, or a thread is to be created.
pub delegate : Crew → ℕ → ℕ → Pool → Option Crew
delegate s self work p =
    if nr_works p == 0
    then some (stand s self p (running work))
    else (if p.nr_available_threads == 0
        then (if ltb p.nr_threads p.max_threads
            then (alloc_id p >>= λ a. some (stand s self a.pool (creating a.id work)))
            else some (stand s self p (running work)))
        else elim p.available_threads [
          | [] ↦ none
          | v ∷ vs ↦ some (record (stand s self p (running work)) { wakeups = v ∷ s.wakeups })
        ])

-- from `work = work_pool_pop_work(pool)` on
pub take_work : Crew → ℕ → Pool → Option Crew
take_work s self p = pop_work s.next p >>= λ t. delegate s self t.work t.pool

-- from the test of the pending works on
pub idle : Crew → ℕ → Option Crew
idle s self =
    let p : Pool = s.pool in
    if nr_works p == 0
    then (if ltb threads_spare p.nr_threads
        then some
            (stand s self (record p { dead_threads = p.dead_threads ++ (self ∷ []) }) finished)
        else some (stand s self (record p { manager = some self }) managing))
    else take_work s self p

-- from the test of the dead threads on; the dead thread that is joined is absent from then on
pub reap : Crew → ℕ → Option Crew
reap s self = elim (s.pool).dead_threads [
  | [] ↦ idle s self
  | v ∷ vs ↦ some (record s {
    pool = record (s.pool) { dead_threads = vs };
    places = update (update s.places v absent) self (destroying (s.ids v));
  })
]

-- the head of the loop
pub enter : Crew → ℕ → Option Crew
enter s self =
    let p : Pool = s.pool in
    elim p.manager [
      | none ↦ reap s self
      | some m ↦ some (
          stand s self
            (record p {
              available_threads = p.available_threads ++ (self ∷ []);
              nr_available_threads = p.nr_available_threads + 1;
            })
            spare)
    ]

abbrev pub leave_spare : Pool → ℕ → Pool
leave_spare p self = record p {
  available_threads = without self p.available_threads;
  nr_available_threads = p.nr_available_threads - 1;
}

-- after a sleep in the list of available threads
pub wake_spare : Crew → ℕ → Option Crew
wake_spare s self =
    let p : Pool = s.pool in
    elim p.manager [
      | some m ↦ some s
      | none ↦ reap (stand s self (leave_spare p self) entering) self
    ]

-- after a sleep as the manager
pub wake_manager : Crew → ℕ → Option Crew
wake_manager s self =
    if nr_works s.pool == 0 then some s else take_work s self (record (s.pool) { manager = none })

-- after `work_thread_destroy`: `work_pool_free_id`, and the loop goes on
pub destroyed : Crew → ℕ → ℕ → Option Crew
destroyed s self id = free_id s.pool id >>= λ p. some (stand s self p entering)

-- after `work_thread_create`, which has made the worker `v`, or has failed
pub created : Crew → ℕ → ℕ → ℕ → Option ℕ → Option Crew
created s self id work none = free_id s.pool id >>= λ p. some (stand s self p (running work))
created s self id work (some v) = some (record s {
  places = update (update s.places v entering) self (running work);
  ids = update s.ids v id;
})

-- A worker goes on from where it stands: from a sleep, or from the head of the loop, also after its
-- work has run. What it does after a thread was destroyed or created is `destroyed` and `created`.
pub resume : Crew → ℕ → Place → Option Crew
resume s self entering = enter s self
resume s self (running w) = enter s self
resume s self spare = wake_spare s self
resume s self managing = wake_manager s self
resume s self absent = some s
resume s self finished = some s
resume s self (destroying i) = some s
resume s self (creating i w) = some s
