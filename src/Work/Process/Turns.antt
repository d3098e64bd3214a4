-- ===== src/Work/Process/Turns.antt =====
-- A worker that goes on from a sleep or from the head of the loop, and the end of a creation.
use x.Prelude.{
  without, length-without, ℕ, ◌+◌, ◌-◌, ◌<◌, ◌≡◌, ◌≢◌, refl, subst, sym, ap, ◌∙◌, inl, inr, true,
  false, Option, none, some, List, [], ◌∷◌, ◌++◌, ◌==◌, update, update_self, update_ne, Mem,
  length-append, eq→==, Bool-cases, Option-cases, ◌>>=◌, arith,
}
use x.Work.Pool.{Pool, free_id, nr_works}
use x.Work.Pool.Holds.{IsPool}
use x.Work.Pool.Rest.{nr_works-no_manager}
use x.Work.Pool.Bounds.{free_id_lem}
use x.Work.Process.{
  Place, Crew, absent, entering, spare, managing, finished, destroying, creating, running, stand,
  reap, enter, leave_spare, wake_spare, wake_manager, destroyed, created, resume,
}
use x.Work.Process.Staff.{Role, Staffed, as_list, busy, busy-ne, stay, join, leave}
use x.Work.Process.Steps.{Fit, Goes, move, restaff, take_work_lem}
use x.Work.Process.Loop.{refill, recount, reap_lem, turned_ne}

enter_lem :
    (s : Crew) (self : ℕ)
    → Fit s.next s.pool s.places
    → busy (s.places self) ≡ true
    → Goes s (enter s self)
unfolding enter
enter_lem s self f b = elim (Option-cases (s.pool).manager) [
  | inl m ↦ rw (m, enter) (reap_lem s self f b m)
  | inr (m, e) ↦
      let p : Pool = record (s.pool) {
        available_threads = (s.pool).available_threads ++ (self ∷ []);
        nr_available_threads = (s.pool).nr_available_threads + 1;
      } in
      let to : ℕ → Place = update s.places self spare in
      let turn : (u : ℕ) → self ≢ u → to u ≡ s.places u =
        λ u n. update_ne s.places self u spare n in
      (
        stand s self p spare,
        simp (e, enter),
        record {
          works = refill s.next s.pool p refl refl refl f.works;
          counts = recount s.pool p refl refl refl f.counts;
          staffed = record {
            manager =
                stay s.places to self turn managing (as_list (s.pool).manager)
                  (busy-ne managing b refl) (turned_ne s self spare managing (λ h. cc h))
                  (f.staffed).manager;
            available =
                join s.places to self turn spare (s.pool).available_threads (busy-ne spare b refl)
                  (update_self s.places self spare) (f.staffed).available;
            dead =
                stay s.places to self turn finished (s.pool).dead_threads (busy-ne finished b refl)
                  (turned_ne s self spare finished (λ h. cc h)) (f.staffed).dead;
            count =
                omega
                  (arith, (f.staffed).count, length-append (s.pool).available_threads (self ∷ []));
          };
        },
      )
]

wake_spare-reap :
    (s : Crew) (self : ℕ)
    → (s.pool).manager ≡ none
    → wake_spare s self ≡ reap (stand s self (leave_spare s.pool self) entering) self
unfolding wake_spare
wake_spare-reap s self m =
    ap
      (λ o. elim o [
        | some v ↦ some s
        | none ↦ reap (stand s self (leave_spare s.pool self) entering) self
      ])
      m

wake_spare_lem :
    (s : Crew) (self : ℕ)
    → Fit s.next s.pool s.places
    → s.places self ≡ spare
    → Goes s (wake_spare s self)
unfolding wake_spare
wake_spare_lem s self f here = elim (Option-cases (s.pool).manager) [
  | inr (m, e) ↦ (s, simp (e, wake_spare), f)
  | inl m ↦
      let p : Pool = leave_spare s.pool self in
      let to : ℕ → Place = update s.places self entering in
      let turn : (u : ℕ) → self ≢ u → to u ≡ s.places u =
        λ u n. update_ne s.places self u entering n in
      let out : Fit s.next p to = record {
        works = refill s.next s.pool p refl refl refl f.works;
        counts = recount s.pool p refl refl refl f.counts;
        staffed = record {
          manager =
              stay s.places to self turn managing (as_list (s.pool).manager)
                (λ h. cc (sym here ∙ h)) (turned_ne s self entering managing (λ h. cc h))
                (f.staffed).manager;
          available =
              leave s.places to self turn spare (s.pool).available_threads
                (turned_ne s self entering spare (λ h. cc h)) (f.staffed).available;
          dead =
              stay s.places to self turn finished (s.pool).dead_threads (λ h. cc (sym here ∙ h))
                (turned_ne s self entering finished (λ h. cc h)) (f.staffed).dead;
          count = omega (
            arith,
            (f.staffed).count,
            length-without self (s.pool).available_threads
                (((f.staffed).available).listed self here),
          );
        };
      } in
      let (s', e, f') =
        reap_lem (stand s self p entering) self out (ap busy (update_self s.places self entering))
          m in
      (s', wake_spare-reap s self m ∙ e, f')
]

only : (u : ℕ) (o : Option ℕ) → Mem u (as_list o) → without u (as_list o) ≡ []
only u none m = absurd m
only u (some v) (inl e) = rw (eq→== v u e)
only u (some v) (inr bad) = absurd bad

wake_manager_lem :
    (s : Crew) (self : ℕ)
    → Fit s.next s.pool s.places
    → s.places self ≡ managing
    → Goes s (wake_manager s self)
unfolding wake_manager
wake_manager_lem s self f here = elim (Bool-cases (nr_works s.pool == 0)) [
  | inl z ↦ (s, rw z, f)
  | inr z ↦
      let p : Pool = record (s.pool) { manager = none } in
      let to : ℕ → Place = update s.places self entering in
      let turn : (u : ℕ) → self ≢ u → to u ≡ s.places u =
        λ u n. update_ne s.places self u entering n in
      let left : Role managing (without self (as_list (s.pool).manager)) to =
        leave s.places to self turn managing (as_list (s.pool).manager)
          (turned_ne s self entering managing (λ h. cc h)) (f.staffed).manager in
      let empty : without self (as_list (s.pool).manager) ≡ [] =
        only self (s.pool).manager (((f.staffed).manager).listed self here) in
      let out : Fit s.next p to = record {
        works = refill s.next s.pool p refl refl refl f.works;
        counts = recount s.pool p refl refl refl f.counts;
        staffed = record {
          manager = subst (λ l. Role managing l to) empty left;
          available =
              stay s.places to self turn spare (s.pool).available_threads (λ h. cc (sym here ∙ h))
                (turned_ne s self entering spare (λ h. cc h)) (f.staffed).available;
          dead =
              stay s.places to self turn finished (s.pool).dead_threads (λ h. cc (sym here ∙ h))
                (turned_ne s self entering finished (λ h. cc h)) (f.staffed).dead;
          count = (f.staffed).count;
        };
      } in
      let some_work : nr_works p ≢ 0 =
        λ n. cc (z, ap (λ k. k == 0) (nr_works-no_manager s.pool ∙ n)) in
      rw z (
        take_work_lem s self to (λ u n. sym (turn u n))
          (ap busy (update_self s.places self entering)) p out some_work)
]

-- When a pool, its works, the count of its threads and the places of its workers agree, a worker that
-- goes on from where it stands does not fail, and they agree afterwards: the manager is the one
-- worker asleep as such, the lists of available and of dead threads are of the workers that stand
-- there, each once, the number of available threads is the length of their list, and the number of
-- threads is that of the identifiers in use, at most the maximum.
pub resume_lem :
    (s : Crew) (self : ℕ) → Fit s.next s.pool s.places → Goes s (resume s self (s.places self))
unfolding resume
resume_lem s self f = go (s.places self) refl
  where
    go : (x : Place) → s.places self ≡ x → Goes s (resume s self x)
    go entering e = enter_lem s self f (ap busy e)
    go (running w) e = enter_lem s self f (ap busy e)
    go spare e = wake_spare_lem s self f e
    go managing e = wake_manager_lem s self f e
    go absent e = (s, refl, f)
    go finished e = (s, refl, f)
    go (destroying i) e = (s, refl, f)
    go (creating i w) e = (s, refl, f)

-- A number of a thread that is given back was in use.
frees :
    (s : Crew) (self id : ℕ) (x : Place)
    → Fit s.next s.pool s.places
    → busy (s.places self) ≡ true
    → busy x ≡ true
    → id < (s.pool).max_threads
    → (s.pool).bitmap id ≡ true
    → Goes s (free_id s.pool id >>= λ p. some (stand s self p x))
frees s self id x f b b' small used =
    let (q, e, change, less, counts) = free_id_lem s.pool id f.counts small used in
    let r : Pool = record (s.pool) {
      nr_threads = (s.pool).nr_threads - 1;
      bitmap = update (s.pool).bitmap id false;
    } in
    let to : ℕ → Place = update s.places self x in
    let staff : Staffed r to =
      move r s.places to self (λ u n. update_ne s.places self u x n) b
        (ap busy (update_self s.places self x) ∙ b')
        (restaff s.pool r s.places refl refl refl refl f.staffed) in
    (
      stand s self q x,
      rw e,
      record {
        works =
            subst (λ p. (ws : List ℕ) × IsPool s.next p ws) (sym change)
              (refill s.next s.pool r refl refl refl f.works);
        counts = counts;
        staffed = subst (λ p. Staffed p to) (sym change) staff;
      },
    )

-- After a dead thread was destroyed, its identifier, which is in use, is given back, and the pool,
-- its works, its count of threads and its staff still agree.
pub destroyed_lem :
    (s : Crew) (self id : ℕ)
    → Fit s.next s.pool s.places
    → s.places self ≡ destroying id
    → id < (s.pool).max_threads
    → (s.pool).bitmap id ≡ true
    → Goes s (destroyed s self id)
unfolding destroyed
destroyed_lem s self id f here small used =
    frees s self id entering f (ap busy here) refl small used

-- After the creation of a thread, whether it has failed, so that its identifier is given back, or
-- has made a new worker that enters the loop, the pool, its works, its count of threads and its staff
-- still agree.
pub created_lem :
    (s : Crew) (self id work : ℕ) (made : Option ℕ)
    → Fit s.next s.pool s.places
    → s.places self ≡ creating id work
    → id < (s.pool).max_threads
    → (s.pool).bitmap id ≡ true
    → ((v : ℕ) → made ≡ some v → s.places v ≡ absent)
    → Goes s (created s self id work made)
unfolding created
created_lem s self id work none f here small used fresh =
    frees s self id (running work) f (ap busy here) refl small used
created_lem s self id work (some v) f here small used fresh =
    let new : s.places v ≡ absent = fresh v refl in
    let at : ℕ → Place = update s.places v entering in
    let to : ℕ → Place = update at self (running work) in
    let apart : v ≢ self = λ h. cc (new, here, ap s.places h) in
    let self_at : at self ≡ creating id work = update_ne s.places v self entering apart ∙ here in
    let first : Staffed s.pool at =
      move s.pool s.places at v (λ u n. update_ne s.places v u entering n) (ap busy new)
        (ap busy (update_self s.places v entering)) f.staffed in
    (
      record s { places = to; ids = update s.ids v id },
      refl,
      record {
        works = f.works;
        counts = f.counts;
        staffed =
            move s.pool at to self (λ u n. update_ne at self u (running work) n) (ap busy self_at)
              (ap busy (update_self at self (running work))) first;
      },
    )
