-- ===== src/Work/Pool/Report.antt =====
-- `work_report_periodic_event`: works that waited for a whole period move to the global pools.
use x.Prelude.{
  ℕ, ◌+◌, ◌<◌, ◌≡◌, ◌≢◌, refl, subst, sym, ◌∙◌, inl, inr, false, Option, none, some, List, [], ◌∷◌,
  ◌++◌, ◌==◌, if◌then◌else◌, update, update_self, Mem, Mem-append, length, length-append, eq→==,
  ne→==, arith,
}
use mathlib.Core.List.{append-nil}
use x.Work.Queue.{Queue, uint_mod, empty_queue}
use x.Work.Queue.Chain.{IsQueue, IsQueue-frame}
use x.Work.Queue.Sequence.{concat_lem, empty_queue-IsQueue}
use x.Work.Pool.{
  Pool, Pools, Pushed, Shifted, pushed, concat_queue, shift_queues, transfer, report_periodic_event,
}
use x.Work.Pool.Holds.{Apart, Holds, Holds-frame}

-- After a shift, the works of the first queue are in the second, and those of the second are out.
shift_queues_lem :
    (next : ℕ → Option ℕ) (p : Pool) (old new : List ℕ)
    → Holds next p old new
    → p.global ≡ false
    → (s : Shifted) × (shift_queues p ≡ some s)
      × Holds next s.pool new []
      × IsQueue next s.old_queue old
unfolding shift_queues
shift_queues_lem next p old new h g = (
  record {
    old_queue = p.queue1;
    pool = record p {
      queue1 = p.queue0;
      queue0 = empty_queue;
      transfers = if p.queue1.nr_works == 0 then p.transfers else p.transfers + 1;
    };
  },
  simp (shift_queues, g),
  record {
    first = empty_queue-IsQueue next;
    second = h.first;
    apart = λ u m m'. m';
    room = omega (arith, h.room);
    whole = λ t. absurd (cc (t, g));
  },
  h.second,
)

-- The works of a queue go last in a global pool.
transfer_lem :
    (next : ℕ → Option ℕ) (p : Pool) (q : Queue) (ws old : List ℕ)
    → Holds next p [] ws
    → IsQueue next q old
    → Apart ws old
    → length ws + length old < uint_mod
    → (r : Pushed) × (transfer next p q ≡ some r)
      × Holds r.next r.pool [] (ws ++ old)
      × ((u : ℕ) → (¬ Mem u ws) → r.next u ≡ next u)
unfolding transfer concat_queue
transfer_lem next p q ws [] h t apart room = (
  record { next = next; pool = p; woken = none },
  simp (transfer, eq→== q.nr_works 0 t.count),
  subst (λ l. Holds next p [] l) (sym (append-nil ws)) h,
  λ u m. refl,
)
transfer_lem next p q ws (v ∷ old) h t apart room =
    let (l, e, queue, frame) = concat_lem next p.queue0 q ws (v ∷ old) h.first t apart room in
    let there : q.nr_works ≢ 0 = λ z. omega (arith, t.count) in
    (
      pushed p l,
      simp (transfer, concat_queue, ne→== q.nr_works 0 there, e),
      record {
        first = queue;
        second = IsQueue-frame next l.next p.queue1 [] (λ u m. absurd m) h.second;
        apart = λ u m. absurd m;
        room = omega (arith, length-append ws (v ∷ old));
        whole = λ g. refl;
      },
      frame,
    )

-- What the four pools that an event on the processor `self` uses hold: the works that waited since
-- before the last event, the others, and those of the global pools.
pub record State (s : Pools) (self : ℕ) (old new old_high new_high shared shared_high : List ℕ)
    : Type 0 where
  pub cpu_main : Holds s.next (s.cpu_main self) old new
  pub cpu_highprio : Holds s.next (s.cpu_highprio self) old_high new_high
  pub main : Holds s.next s.main [] shared
  pub highprio : Holds s.next s.highprio [] shared_high

pub record Separate (old new old_high new_high main high : List ℕ) : Type 0 where
  pub main_old : Apart main old
  pub main_new : Apart main new
  pub main_old_high : Apart main old_high
  pub main_new_high : Apart main new_high
  pub main_high : Apart main high
  pub high_old : Apart high old
  pub high_new : Apart high new
  pub high_old_high : Apart high old_high
  pub high_new_high : Apart high new_high

flip : (xs ys : List ℕ) → Apart xs ys → Apart ys xs
flip xs ys h u m m' = h u m' m

off :
    (next next' : ℕ → Option ℕ) (xs ys : List ℕ)
    → ((u : ℕ) → (¬ Mem u xs) → next' u ≡ next u)
    → Apart xs ys
    → (u : ℕ) → Mem u ys
    → next' u ≡ next u
off next next' xs ys frame apart u m = frame u (λ m'. apart u m' m)

-- When no two of the pools have a work in common, an event fails nowhere; the works that were
-- pending since before the last event go last in the global pool of their priority, those that
-- came after it are the ones to go at the next event, and none is lost or doubled.
pub report-State :
    (s : Pools) (self : ℕ) (old new old_high new_high main high : List ℕ)
    → State s self old new old_high new_high main high
    → Separate old new old_high new_high main high
    → (s.cpu_main self).global ≡ false
    → (s.cpu_highprio self).global ≡ false
    → length main + length old < uint_mod
    → length high + length old_high < uint_mod
    → (s' : Pools) × (report_periodic_event s self ≡ some s')
      × State s' self new [] new_high [] (main ++ old) (high ++ old_high)
unfolding report_periodic_event
report-State s self old new old_high new_high main high h d g g' room room' =
    let (a, run_a, pool_a, queue_a) =
      shift_queues_lem s.next (s.cpu_main self) old new h.cpu_main g in
    let (b, run_b, pool_b, queue_b) =
      shift_queues_lem s.next (s.cpu_highprio self) old_high new_high h.cpu_highprio g' in
    let (c, run_c, main_c, frame_c) =
      transfer_lem s.next s.main a.old_queue main old h.main queue_a d.main_old room in
    let queue_b' : IsQueue c.next b.old_queue old_high =
      IsQueue-frame s.next c.next b.old_queue old_high
        (off s.next c.next main old_high frame_c d.main_old_high) queue_b in
    let high_c : Holds c.next s.highprio [] high =
      Holds-frame s.next c.next s.highprio [] high (λ u m. absurd m)
        (off s.next c.next main high frame_c d.main_high) h.highprio in
    let (e, run_e, high_e, frame_e) =
      transfer_lem c.next s.highprio b.old_queue high old_high high_c queue_b' d.high_old_high
        room' in
    let both : (ys : List ℕ)
        → Apart main ys
        → Apart high ys
        → (u : ℕ) → Mem u ys
        → e.next u ≡ s.next u =
      λ ys p q u m.
        off c.next e.next high ys frame_e q u m ∙ off s.next c.next main ys frame_c p u m in
    let high_main : Apart high (main ++ old) = λ u m m'. elim (Mem-append u main old m') [
      | inl n ↦ d.main_high u n m
      | inr n ↦ d.high_old u m n
    ] in
    (
      record {
        next = e.next;
        cpu_main = update s.cpu_main self a.pool;
        cpu_highprio = update s.cpu_highprio self b.pool;
        main = c.pool;
        highprio = e.pool;
        wakeups = e.woken ∷ c.woken ∷ s.wakeups;
      },
      simp (report_periodic_event, run_a, run_b, run_c, run_e),
      record {
        cpu_main =
            subst (λ p. Holds e.next p new []) (sym (update_self s.cpu_main self a.pool))
              (Holds-frame s.next e.next a.pool new [] (both new d.main_new d.high_new)
                (λ u m. absurd m) pool_a);
        cpu_highprio =
            subst (λ p. Holds e.next p new_high []) (sym (update_self s.cpu_highprio self b.pool))
              (Holds-frame s.next e.next b.pool new_high []
                (both new_high d.main_new_high d.high_new_high) (λ u m. absurd m) pool_b);
        main =
            Holds-frame c.next e.next c.pool [] (main ++ old) (λ u m. absurd m)
              (off c.next e.next high (main ++ old) frame_e high_main) main_c;
        highprio = high_e;
      },
    )
