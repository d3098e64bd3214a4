-- ===== src/Work/Process/Loop.antt =====
-- The loop of a worker, one step after another.
use x.Prelude.{
  without, ℕ, ◌≡◌, ◌≢◌, refl, subst, sym, ap, ◌∙◌, inl, inr, ◌⊎◌, true, Option, none, some, List,
  [], ◌∷◌, ◌++◌, ◌==◌, ltb, if◌then◌else◌, update, update_self, update_ne, eq→==, Bool-cases,
}
use x.Work.Pool.{Pool, nr_works}
use x.Work.Pool.Holds.{IsPool}
use x.Work.Pool.Bounds.{Counts}
use x.Work.Process.{
  Place, Crew, absent, spare, managing, finished, destroying, stand, threads_spare, idle, reap,
}
use x.Work.Process.Staff.{Role, Staffed, as_list, busy, busy-ne, stay, join, leave}
use x.Work.Process.Steps.{Fit, Goes, move, take_work_lem}

pub refill :
    (next : ℕ → Option ℕ) (p q : Pool)
    → p.queue0 ≡ q.queue0
    → p.queue1 ≡ q.queue1
    → p.global ≡ q.global
    → (ws : List ℕ) × IsPool next p ws
    → (ws : List ℕ) × IsPool next q ws
refill next p q e₀ e₁ g (ws, (old, new, h, order)) = (
  ws,
  (
    old,
    new,
    record {
      first = rw (sym e₀) h.first;
      second = rw (sym e₁) h.second;
      apart = h.apart;
      room = h.room;
      whole = λ t. h.whole (g ∙ t);
    },
    order,
  ),
)

pub recount :
    (p q : Pool)
    → p.nr_threads ≡ q.nr_threads
    → p.max_threads ≡ q.max_threads
    → p.bitmap ≡ q.bitmap
    → Counts p
    → Counts q
recount p q e m b c = record {
  number = rw (sym e, sym b, sym m) c.number;
  most = rw (sym e, sym m) c.most;
}

list_cases : (xs : List ℕ) → (xs ≡ []) ⊎ ((v : ℕ) × (vs : List ℕ) × (xs ≡ v ∷ vs))
list_cases [] = inl refl
list_cases (v ∷ vs) = inr (v, vs, refl)

module _ (s : Crew) (self : ℕ) where
  turn : (x : Place) (u : ℕ) → self ≢ u → update s.places self x u ≡ s.places u
  turn x u n = update_ne s.places self u x n

  turned : (x : Place) → update s.places self x self ≡ x
  turned x = update_self s.places self x

  pub turned_ne : (x y : Place) → x ≢ y → update s.places self x self ≢ y
  turned_ne x y n e = n (sym (turned x) ∙ e)

  idle_lem :
      Fit s.next s.pool s.places
      → busy (s.places self) ≡ true
      → (s.pool).manager ≡ none
      → Goes s (idle s self)
  unfolding idle
  idle_lem f b m = elim (Bool-cases (nr_works s.pool == 0)) [
    | inr z ↦
        rw z
          (take_work_lem s self s.places (λ u n. refl) b s.pool f (λ n. cc (z, ap (λ k. k == 0) n)))
    | inl z ↦ elim (Bool-cases (ltb threads_spare (s.pool).nr_threads)) [
      | inl y ↦
          let p : Pool = record (s.pool) { dead_threads = (s.pool).dead_threads ++ (self ∷ []) } in
          let to : ℕ → Place = update s.places self finished in
          (
            stand s self p finished,
            rw (z, y),
            record {
              works = refill s.next s.pool p refl refl refl f.works;
              counts = recount s.pool p refl refl refl f.counts;
              staffed = record {
                manager =
                    stay s.places to self (turn finished) managing (as_list (s.pool).manager)
                      (busy-ne managing b refl) (turned_ne finished managing (λ e. cc e))
                      (f.staffed).manager;
                available =
                    stay s.places to self (turn finished) spare (s.pool).available_threads
                      (busy-ne spare b refl) (turned_ne finished spare (λ e. cc e))
                      (f.staffed).available;
                dead =
                    join s.places to self (turn finished) finished (s.pool).dead_threads
                      (busy-ne finished b refl) (turned finished) (f.staffed).dead;
                count = (f.staffed).count;
              };
            },
          )
      | inr y ↦
          let p : Pool = record (s.pool) { manager = some self } in
          let to : ℕ → Place = update s.places self managing in
          let before : Role managing [] s.places =
            subst (λ o. Role managing (as_list o) s.places) m (f.staffed).manager in
          (
            stand s self p managing,
            rw (z, y),
            record {
              works = refill s.next s.pool p refl refl refl f.works;
              counts = recount s.pool p refl refl refl f.counts;
              staffed = record {
                manager =
                    join s.places to self (turn managing) managing [] (busy-ne managing b refl)
                      (turned managing) before;
                available =
                    stay s.places to self (turn managing) spare (s.pool).available_threads
                      (busy-ne spare b refl) (turned_ne managing spare (λ e. cc e))
                      (f.staffed).available;
                dead =
                    stay s.places to self (turn managing) finished (s.pool).dead_threads
                      (busy-ne finished b refl) (turned_ne managing finished (λ e. cc e))
                      (f.staffed).dead;
                count = (f.staffed).count;
              };
            },
          )
    ]
  ]

  joins :
      (v : ℕ) (vs : List ℕ)
      → (s.pool).dead_threads ≡ v ∷ vs
      → Fit s.next s.pool s.places
      → busy (s.places self) ≡ true
      → Fit s.next
          (record (s.pool) { dead_threads = vs })
          (update (update s.places v absent) self (destroying (s.ids v)))
  joins v vs e f b =
      let p : Pool = record (s.pool) { dead_threads = vs } in
      let gone : ℕ → Place = update s.places v absent in
      let was : s.places v ≡ finished = ((f.staffed).dead).stands v (rw e (inl refl)) in
      let off : (u : ℕ) → v ≢ u → gone u ≡ s.places u = λ u n. update_ne s.places v u absent n in
      let at_v : gone v ≡ absent = update_self s.places v absent in
      let apart : v ≢ self = λ h. cc (b, ap busy was, ap (λ u. busy (s.places u)) h) in
      let left : Role finished (without v (v ∷ vs)) gone =
        leave s.places gone v off finished (v ∷ vs) (λ h. cc (sym at_v ∙ h))
          (subst (λ l. Role finished l s.places) e (f.staffed).dead) in
      let first : Staffed p gone = record {
        manager =
            stay s.places gone v off managing (as_list (s.pool).manager) (λ h. cc (sym was ∙ h))
              (λ h. cc (sym at_v ∙ h)) (f.staffed).manager;
        available =
            stay s.places gone v off spare (s.pool).available_threads (λ h. cc (sym was ∙ h))
              (λ h. cc (sym at_v ∙ h)) (f.staffed).available;
        dead =
            subst (λ b'. Role finished (if b' then vs else v ∷ without v vs) gone) (eq→== v v refl)
              left;
        count = (f.staffed).count;
      } in
      let to : ℕ → Place = update gone self (destroying (s.ids v)) in
      record {
        works = refill s.next s.pool p refl refl refl f.works;
        counts = recount s.pool p refl refl refl f.counts;
        staffed =
            move p gone to self (λ u n. update_ne gone self u (destroying (s.ids v)) n)
              (ap busy (off self apart) ∙ b)
              (ap busy (update_self gone self (destroying (s.ids v)))) first;
      }

  pub reap_lem :
      Fit s.next s.pool s.places
      → busy (s.places self) ≡ true
      → (s.pool).manager ≡ none
      → Goes s (reap s self)
  unfolding reap
  reap_lem f b m = elim (list_cases (s.pool).dead_threads) [
    | inl e ↦ rw (e, reap) (idle_lem f b m)
    | inr (v, vs, e) ↦ (
      record s {
        pool = record (s.pool) { dead_threads = vs };
        places = update (update s.places v absent) self (destroying (s.ids v));
      },
      simp (e, reap),
      joins v vs e f b,
    )
  ]
