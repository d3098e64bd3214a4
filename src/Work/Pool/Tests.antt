-- ===== src/Work/Pool/Tests.antt =====
-- Runs of the queues and pools of works on small states.
use x.Prelude.{
  ℕ, ◌*◌, ◌<◌, ◌≤◌, ◌≡◌, ◌≢◌, refl, inl, inr, Bool, true, false, Option, none, some, [], ◌∷◌, Mem,
  max, update, arith,
}
use x.Work.Queue.{Queue, empty_queue}
use x.Work.Queue.Chain.{IsQueue}
use x.Work.Queue.Sequence.{empty_queue-IsQueue}
use x.Work.Pool.{
  Pool, Pools, Allocated, push_work, pop_work, compute_max_threads, alloc_id, schedule, cpu_select,
  is_highprio, report_periodic_event,
}
use x.Work.Pool.Holds.{Holds, IsPool}
use x.Work.Pool.Fifo.{push_work_lem, pop_work_lem}
use x.Work.Pool.Report.{State, report-State}
use x.Work.Pool.Bounds.{Counts, compute_max_threads_lem, alloc_id_lem}
use x.Work.Pool.Schedule.{schedule-IsPool}

abbrev no_links : ℕ → Option ℕ
no_links w = none

-- a queue of one work
abbrev alone : ℕ → Queue
alone w = record { first = some w; last = some w; nr_works = 1 }

alone-IsQueue : (w : ℕ) → IsQueue no_links (alone w) (w ∷ [])
alone-IsQueue w = record {
  chain = (refl, refl);
  last = refl;
  count = refl;
  distinct = ((λ m. m), tt);
  small = omega arith;
}

-- A pool of processor 0 with the work 1 in its second queue and the work 2 in its first.
abbrev two_works : Pool
two_works = record {
  global = false;
  high_priority = false;
  queue0 = alone 2;
  queue1 = alone 1;
  manager = some 9;
  transfers = 0;
  cpu = some 0;
  max_threads = 4;
  nr_threads = 1;
  nr_available_threads = 0;
  available_threads = [];
  dead_threads = [];
  bitmap = update (λ i. false) 0 true;
}

two_works-Holds : Holds no_links two_works (1 ∷ []) (2 ∷ [])
two_works-Holds = record {
  first = alone-IsQueue 2;
  second = alone-IsQueue 1;
  apart = λ u m m'. elim m [
    | inl e ↦ elim m' [ inl e' ↦ omega (arith, e, e') | inr bad ↦ bad ]
    | inr bad ↦ bad
  ];
  room = omega arith;
  whole = λ e. absurd (cc e);
}

pop_work_lem_example :
    (p' : Pool) × (pop_work no_links two_works ≡ some (record { work = 1; pool = p' }))
    × IsPool no_links p' (2 ∷ [])
pop_work_lem_example =
    pop_work_lem no_links two_works 1 (2 ∷ []) (1 ∷ [], 2 ∷ [], two_works-Holds, refl)

not_three : ¬ Mem 3 (1 ∷ 2 ∷ [])
not_three m = elim m [
  | inl e ↦ omega (arith, e)
  | inr m' ↦ elim m' [ inl e ↦ omega (arith, e) | inr bad ↦ bad ]
]

push_work_lem_example :
    IsPool
      (push_work no_links two_works 3).next
      (push_work no_links two_works 3).pool
      (1 ∷ 2 ∷ 3 ∷ [])
    × ((push_work no_links two_works 3).woken ≡ some 9)
    × ((u : ℕ)
        → 3 ≢ u
        → (¬ Mem u (1 ∷ 2 ∷ []))
        → (push_work no_links two_works 3).next u ≡ no_links u)
push_work_lem_example =
    push_work_lem no_links two_works (1 ∷ 2 ∷ []) 3 (1 ∷ [], 2 ∷ [], two_works-Holds, refl)
      not_three (omega arith)

abbrev no_works : Bool → Pool
no_works g = record two_works { global = g; queue0 = empty_queue; queue1 = empty_queue }

abbrev pools : Pools
pools = record {
  next = no_links;
  cpu_main = λ c. two_works;
  cpu_highprio = λ c. no_works false;
  main = no_works true;
  highprio = no_works true;
  wakeups = [];
}

schedule-IsPool_example :
    IsPool (schedule pools 0 3 0).next (cpu_select (schedule pools 0 3 0) 0 0) (1 ∷ 2 ∷ 3 ∷ [])
    × ((schedule pools 0 3 0).wakeups ≡ (cpu_select pools 0 0).manager ∷ [])
    × ((c other : ℕ)
        → (0 ≡ c → is_highprio 0 ≢ is_highprio other)
        → cpu_select (schedule pools 0 3 0) c other ≡ cpu_select pools c other)
    × ((schedule pools 0 3 0).main ≡ pools.main)
    × ((schedule pools 0 3 0).highprio ≡ pools.highprio)
unfolding cpu_select
schedule-IsPool_example =
    schedule-IsPool pools 0 3 0 (1 ∷ 2 ∷ []) (1 ∷ [], 2 ∷ [], two_works-Holds, refl) not_three
      (omega arith)

no_works-Holds : (g : Bool) → Holds no_links (no_works g) [] []
no_works-Holds g = record {
  first = empty_queue-IsQueue no_links;
  second = empty_queue-IsQueue no_links;
  apart = λ u m m'. m;
  room = omega arith;
  whole = λ e. refl;
}

report-State_example :
    (s' : Pools) × (report_periodic_event pools 0 ≡ some s')
    × State s' 0 (2 ∷ []) [] [] [] (1 ∷ []) []
report-State_example =
    report-State pools 0 (1 ∷ []) (2 ∷ []) [] [] [] []
      (record {
        cpu_main = two_works-Holds;
        cpu_highprio = no_works-Holds false;
        main = no_works-Holds true;
        highprio = no_works-Holds true;
      })
      (record {
        main_old = λ u m m'. m;
        main_new = λ u m m'. m;
        main_old_high = λ u m m'. m;
        main_new_high = λ u m m'. m;
        main_high = λ u m m'. m;
        high_old = λ u m m'. m;
        high_new = λ u m m'. m;
        high_old_high = λ u m m'. m;
        high_new_high = λ u m m'. m;
      })
      refl refl (omega arith) (omega arith)

compute_max_threads_lem_example :
    (200 ≤ compute_max_threads 200)
    × (compute_max_threads 200 ≤ 4 * 200)
    × (compute_max_threads 200 ≤ max 200 512)
compute_max_threads_lem_example = compute_max_threads_lem 200 (omega arith) (omega arith)

two_works-Counts : Counts two_works
two_works-Counts = record { number = refl; most = omega arith }

alloc_id_lem_example :
    (r : Allocated) × (alloc_id two_works ≡ some r)
    × (two_works.bitmap r.id ≡ false)
    × (r.id < 4)
    × (r.pool ≡ record two_works { nr_threads = 2; bitmap = update two_works.bitmap r.id true })
    × Counts r.pool
alloc_id_lem_example = alloc_id_lem two_works two_works-Counts (omega arith)
