-- ===== src/Work/Process/Steps.antt =====
-- Each step of a worker succeeds and keeps the pool, its works and its staff well-formed.
use x.Prelude.{
  ℕ, ◌+◌, ◌<◌, ◌≡◌, ◌≢◌, refl, subst, sym, ap, ◌∙◌, inl, inr, true, Option, none, some, List, [],
  ◌∷◌, ◌==◌, ltb, update, update_self, update_ne, length, ltb→lt, Bool-cases, ◌>>=◌,
}
use x.Work.Pool.{Pool, alloc_id, nr_works}
use x.Work.Pool.Holds.{Holds, IsPool}
use x.Work.Pool.Fifo.{pop_work_lem, holds_work}
use x.Work.Pool.Rest.{pop_work-rest}
use x.Work.Pool.Bounds.{Counts, alloc_id_lem}
use x.Work.Process.{
  Place, Crew, spare, managing, finished, creating, running, stand, delegate, take_work,
}
use x.Work.Process.Staff.{Role, Staffed, as_list, busy, busy-ne, stay}

-- A pool with a sequence of works, a count of its threads and a staff that agree.
pub record Fit (next : ℕ → Option ℕ) (p : Pool) (at : ℕ → Place) : Type 0 where
  pub works : (ws : List ℕ) × IsPool next p ws
  pub counts : Counts p
  pub staffed : Staffed p at

-- The state after a step that changes no link.
abbrev pub Goes : Crew → Option Crew → Type 0
Goes s r = (s' : Crew) × (r ≡ some s') × Fit s'.next s'.pool s'.places

module _ (p : Pool) (at to : ℕ → Place) (self : ℕ) (others : (u : ℕ) → self ≢ u → to u ≡ at u)
    (b : busy (at self) ≡ true) (b' : busy (to self) ≡ true) where
  pub move : Staffed p at → Staffed p to
  move s = record {
    manager =
        stay at to self others managing (as_list p.manager) (busy-ne managing b refl)
          (busy-ne managing b' refl) s.manager;
    available =
        stay at to self others spare p.available_threads (busy-ne spare b refl)
          (busy-ne spare b' refl) s.available;
    dead =
        stay at to self others finished p.dead_threads (busy-ne finished b refl)
          (busy-ne finished b' refl) s.dead;
    count = s.count;
  }

pub restaff :
    (p q : Pool) (at : ℕ → Place)
    → p.manager ≡ q.manager
    → p.available_threads ≡ q.available_threads
    → p.nr_available_threads ≡ q.nr_available_threads
    → p.dead_threads ≡ q.dead_threads
    → Staffed p at
    → Staffed q at
restaff p q at m a n d s = record {
  manager = subst (λ o. Role managing (as_list o) at) m s.manager;
  available = subst (λ l. Role spare l at) a s.available;
  dead = subst (λ l. Role finished l at) d s.dead;
  count = sym n ∙ s.count ∙ ap length a;
}

first_of : (xs : List ℕ) → length xs ≢ 0 → (v : ℕ) × (vs : List ℕ) × (xs ≡ v ∷ vs)
first_of [] n = absurd (n refl)
first_of (v ∷ vs) n = (v, vs, refl)

-- The worker `self` leaves the head of the loop: the others stand where they stood.
module _ (s : Crew) (self : ℕ) (at : ℕ → Place) (others : (u : ℕ) → self ≢ u → s.places u ≡ at u)
    (b : busy (at self) ≡ true) where
  to_others : (x : Place) (u : ℕ) → self ≢ u → update s.places self x u ≡ at u
  to_others x u n = update_ne s.places self u x n ∙ others u n

  to_self : (x : Place) → update s.places self x self ≡ x
  to_self x = update_self s.places self x

  to_busy : (x : Place) → busy x ≡ true → busy (update s.places self x self) ≡ true
  to_busy x e = ap busy (to_self x) ∙ e

  stand_busy :
      (p : Pool) (x : Place)
      → busy x ≡ true
      → Fit s.next p at
      → Fit s.next p (update s.places self x)
  stand_busy p x e f = record {
    works = f.works;
    counts = f.counts;
    staffed = move p at (update s.places self x) self (to_others x) b (to_busy x e) f.staffed;
  }

  creates :
      (p : Pool) (work : ℕ)
      → Fit s.next p at
      → p.nr_threads < p.max_threads
      → Goes s (alloc_id p >>= λ a. some (stand s self a.pool (creating a.id work)))
  creates p work f room =
      let (a, e, free, low, change, counts) = alloc_id_lem p f.counts room in
      let place : Place = creating a.id work in
      let works : (ws : List ℕ) × IsPool s.next a.pool ws =
        let (ws, pool) = f.works in
        let (old, new, h, order) = pool in
        (
          ws,
          (
            old,
            new,
            subst (λ q. Holds s.next q old new) (sym change)
                (record {
                  first = h.first;
                  second = h.second;
                  apart = h.apart;
                  room = h.room;
                  whole = h.whole;
                }),
            order,
          ),
        ) in
      let staff : Staffed a.pool at =
        subst (λ q. Staffed q at) (sym change)
          (restaff p
            (record p { nr_threads = p.nr_threads + 1; bitmap = update p.bitmap a.id true }) at refl
            refl refl refl f.staffed) in
      (
        stand s self a.pool place,
        rw e,
        record {
          works = works;
          counts = counts;
          staffed =
              move a.pool at (update s.places self place) self (to_others place) b
                (to_busy place refl) staff;
        },
      )

  wakes :
      (p : Pool) (work v : ℕ) (vs : List ℕ)
      → p.available_threads ≡ v ∷ vs
      → Fit s.next p at
      → Goes s (elim p.available_threads [
        | [] ↦ none
        | v ∷ vs ↦ some (record (stand s self p (running work)) { wakeups = v ∷ s.wakeups })
      ])
  wakes p work v vs e f = (
    record (stand s self p (running work)) { wakeups = v ∷ s.wakeups },
    simp e,
    stand_busy p (running work) refl f,
  )

  pub delegate_lem : (work : ℕ) (p : Pool) → Fit s.next p at → Goes s (delegate s self work p)
  unfolding delegate
  delegate_lem work p f = elim (Bool-cases (nr_works p == 0)) [
    | inl z ↦ (stand s self p (running work), rw z, stand_busy p (running work) refl f)
    | inr z ↦ elim (Bool-cases (p.nr_available_threads == 0)) [
      | inl y ↦ elim (Bool-cases (ltb p.nr_threads p.max_threads)) [
        | inl x ↦ rw (z, y, x) (creates p work f (ltb→lt p.nr_threads p.max_threads x))
        | inr x ↦ (stand s self p (running work), rw (z, y, x), stand_busy p (running work) refl f)
      ]
      | inr y ↦
          let (v, vs, e) =
            first_of p.available_threads (λ n. cc (y, ap (λ k. k == 0) (f.staffed.count ∙ n))) in
          rw (z, y) (wakes p work v vs e f)
    ]
  ]

  pub take_work_lem : (p : Pool) → Fit s.next p at → nr_works p ≢ 0 → Goes s (take_work s self p)
  unfolding take_work
  take_work_lem p f some_work =
      let (ws, pool) = f.works in
      let (w, rest, e) = holds_work s.next p ws pool some_work in
      let (q, runs, left) = pop_work_lem s.next p w rest (subst (λ l. IsPool s.next p l) e pool) in
      let change = pop_work-rest s.next p (record { work = w; pool = q }) runs in
      let kept : Pool = record p { queue0 = q.queue0; queue1 = q.queue1 } in
      let counts : Counts q =
        subst Counts (sym change) (record { number = f.counts.number; most = f.counts.most }) in
      let staff : Staffed q at =
        subst (λ x. Staffed x at) (sym change) (restaff p kept at refl refl refl refl f.staffed) in
      rw runs (delegate_lem w q (record { works = (rest, left); counts = counts; staffed = staff }))
