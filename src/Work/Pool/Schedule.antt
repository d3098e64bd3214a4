-- ===== src/Work/Pool/Schedule.antt =====
-- `work_schedule` on the pools of a processor.
use x.Prelude.{
  ℕ, suc, ◌<◌, ◌≡◌, ◌≢◌, refl, subst, sym, ap, ◌∙◌, inl, inr, List, [], ◌∷◌, ◌++◌, update_self,
  update_ne, Mem, length, Bool-cases,
}
use x.Work.Queue.{uint_mod}
use x.Work.Pool.{Pool, Pools, Pushed, is_highprio, cpu_select, store, push_work, schedule}
use x.Work.Pool.Holds.{IsPool}
use x.Work.Pool.Fifo.{push_work_lem}

cpu_select-store :
    (s : Pools) (self flags : ℕ) (r : Pushed)
    → cpu_select (store s self flags r) self flags ≡ r.pool
unfolding cpu_select
cpu_select-store s self flags r = elim (Bool-cases (is_highprio flags)) [
  | inl e ↦ simp (cpu_select, e, update_self s.cpu_highprio self r.pool)
  | inr e ↦ simp (cpu_select, e, update_self s.cpu_main self r.pool)
]

other_select :
    (s : Pools) (self c flags other : ℕ) (r : Pushed)
    → (self ≡ c → is_highprio flags ≢ is_highprio other)
    → cpu_select (store s self flags r) c other ≡ cpu_select s c other
unfolding cpu_select
other_select s self c flags other r apart = elim (Bool-cases (is_highprio flags)) [
  | inl e ↦ elim (Bool-cases (is_highprio other)) [
    | inl o ↦
        simp (cpu_select, e, o, update_ne s.cpu_highprio self c r.pool (λ h. apart h (e ∙ sym o)))
    | inr o ↦ simp (cpu_select, e, o)
  ]
  | inr e ↦ elim (Bool-cases (is_highprio other)) [
    | inl o ↦ simp (cpu_select, e, o)
    | inr o ↦ simp (cpu_select, e, o, update_ne s.cpu_main self c r.pool (λ h. apart h (e ∙ sym o)))
  ]
]

-- A scheduled work, which the pool of its priority on this processor does not hold yet, is the last
-- that this pool will hand out; the manager of the pool is woken up, and the pools of the other
-- priority and of other processors and the global ones are unchanged.
pub schedule-IsPool :
    (s : Pools) (self w flags : ℕ) (ws : List ℕ)
    → IsPool s.next (cpu_select s self flags) ws
    → (¬ Mem w ws)
    → suc (length ws) < uint_mod
    → IsPool
        (schedule s self w flags).next
        (cpu_select (schedule s self w flags) self flags)
        (ws ++ (w ∷ []))
      × ((schedule s self w flags).wakeups ≡ (cpu_select s self flags).manager ∷ s.wakeups)
      × ((c other : ℕ)
          → (self ≡ c → is_highprio flags ≢ is_highprio other)
          → cpu_select (schedule s self w flags) c other ≡ cpu_select s c other)
      × ((schedule s self w flags).main ≡ s.main)
      × ((schedule s self w flags).highprio ≡ s.highprio)
unfolding schedule
schedule-IsPool s self w flags ws h fresh room =
    let p : Pool = cpu_select s self flags in
    let r : Pushed = push_work s.next p w in
    let (holds, woken, frame) = push_work_lem s.next p ws w h fresh room in
    (
      subst (λ q. IsPool r.next q (ws ++ (w ∷ []))) (sym (cpu_select-store s self flags r)) holds,
      ap (λ m. m ∷ s.wakeups) woken,
      λ c other apart. other_select s self c flags other r apart,
      refl,
      refl,
    )
