-- ===== src/Work/Process/Tests.antt =====
-- Steps of the workers of a small pool.
use x.Prelude.{ℕ, ◌≢◌, refl, true, false, none, some, [], ◌∷◌, update, update_ne, arith}
use x.Work.Queue.{empty_queue}
use x.Work.Queue.Sequence.{empty_queue-IsQueue}
use x.Work.Pool.{Pool}
use x.Work.Process.{Place, Crew, absent, managing, spare, finished, destroying, creating, resume}
use x.Work.Process.Staff.{Role, Staffed, stay, join}
use x.Work.Process.Steps.{Fit, Goes, move}
use x.Work.Process.Turns.{resume_lem}

-- three identifiers of four are in use, and the work 2 is pending
abbrev three : Pool
three = record {
  global = true;
  high_priority = false;
  queue0 = record { first = some 2; last = some 2; nr_works = 1 };
  queue1 = empty_queue;
  manager = none;
  transfers = 0;
  cpu = none;
  max_threads = 4;
  nr_threads = 3;
  nr_available_threads = 0;
  available_threads = [];
  dead_threads = [];
  bitmap = update (λ i. true) 3 false;
}

abbrev none_in : ℕ → Place
none_in u = absent

nobody : (x : Place) → absent ≢ x → Role x [] none_in
nobody x n = record { stands = λ u m. absurd m; listed = λ u e. n e; once = tt }

-- 5 frees the thread of identifier 1, 6 creates one of identifier 2, and 9 is the manager.
abbrev at : ℕ → Place
at = update (update none_in 5 (destroying 1)) 6 (creating 2 7)

abbrev crew : Crew
crew = record {
  next = λ w. none;
  pool = record three { manager = some 9 };
  places = update at 9 managing;
  ids = λ u. 0;
  wakeups = [];
}

at-Staffed : Staffed three at
at-Staffed =
    move three (update none_in 5 (destroying 1)) at 6
      (λ u n. update_ne (update none_in 5 (destroying 1)) 6 u (creating 2 7) n) refl refl
      (move three none_in (update none_in 5 (destroying 1)) 5
        (λ u n. update_ne none_in 5 u (destroying 1) n) refl refl
        (record {
          manager = nobody managing (λ e. cc e);
          available = nobody spare (λ e. cc e);
          dead = nobody finished (λ e. cc e);
          count = refl;
        }))

crew-Fit : Fit crew.next crew.pool crew.places
crew-Fit = record {
  works = (
    2 ∷ [],
    (
      [],
      2 ∷ [],
      record {
        first = record {
          chain = (refl, refl);
          last = refl;
          count = refl;
          distinct = ((λ m. m), tt);
          small = omega arith;
        };
        second = empty_queue-IsQueue crew.next;
        apart = λ u m m'. m;
        room = omega arith;
        whole = λ e. refl;
      },
      refl,
    ),
  );
  counts = record { number = refl; most = omega arith };
  staffed = record {
    manager =
        join at crew.places 9 (λ u n. update_ne at 9 u managing n) managing [] (λ e. cc e) refl
          at-Staffed.manager;
    available =
        stay at crew.places 9 (λ u n. update_ne at 9 u managing n) spare [] (λ e. cc e) (λ e. cc e)
          at-Staffed.available;
    dead =
        stay at crew.places 9 (λ u n. update_ne at 9 u managing n) finished [] (λ e. cc e)
          (λ e. cc e) at-Staffed.dead;
    count = refl;
  };
}

resume_lem_example : Goes crew (resume crew 9 (crew.places 9))
resume_lem_example = resume_lem crew 9 crew-Fit
