-- ===== src/Work/Pool/Rest.antt =====
-- What `work_pool_pop_work` leaves alone.
use x.Prelude.{
  ℕ, ◌≡◌, refl, subst, inl, inr, Option, none, some, if◌then◌else◌, ◌==◌, Bool-cases, Option-cases,
  ◌>>=◌,
}
use x.Work.Queue.{pop}
use x.Work.Pool.{Pool, Taken, nr_works, pop_work, leave0, leave1}

-- Popping a work changes the queues of a pool only.
pub pop_work-rest :
    (next : ℕ → Option ℕ) (p : Pool) (t : Taken)
    → pop_work next p ≡ some t
    → t.pool ≡ record p { queue0 = (t.pool).queue0; queue1 = (t.pool).queue1 }
unfolding pop_work
pop_work-rest next p t e = elim (Bool-cases p.global) [
  | inl g ↦ first (
      subst
        (λ x.
          (if x
            then pop next p.queue0 >>= leave0 p
            else (if p.queue1.nr_works == 0
                then pop next p.queue0 >>= leave0 p
                else pop next p.queue1 >>= leave1 p))
          ≡ some t)
        g e)
  | inr g ↦
      let e' =
        subst
          (λ x.
            (if x
              then pop next p.queue0 >>= leave0 p
              else (if p.queue1.nr_works == 0
                  then pop next p.queue0 >>= leave0 p
                  else pop next p.queue1 >>= leave1 p))
            ≡ some t)
          g e in
      elim (Bool-cases (p.queue1.nr_works == 0)) [
        | inl z ↦ first (
            subst
              (λ x.
                (if x then pop next p.queue0 >>= leave0 p else pop next p.queue1 >>= leave1 p)
                ≡ some t)
              z e')
        | inr z ↦ second (
            subst
              (λ x.
                (if x then pop next p.queue0 >>= leave0 p else pop next p.queue1 >>= leave1 p)
                ≡ some t)
              z e')
      ]
]
  where
    same : (a b : Taken) → some a ≡ some b → a ≡ b
    same a b h = cc h

    first :
        (pop next p.queue0 >>= leave0 p) ≡ some t
        → t.pool ≡ record p { queue0 = (t.pool).queue0; queue1 = (t.pool).queue1 }
    first h = elim (Option-cases (pop next p.queue0)) [
      | inl n ↦ absurd (cc (subst (λ o. (o >>= leave0 p) ≡ some t) n h))
      | inr (r, n) ↦
          subst (λ x. x.pool ≡ record p { queue0 = (x.pool).queue0; queue1 = (x.pool).queue1 })
            (same (record { work = r.work; pool = record p { queue0 = r.rest } }) t
              (subst (λ o. (o >>= leave0 p) ≡ some t) n h))
            refl
    ]

    second :
        (pop next p.queue1 >>= leave1 p) ≡ some t
        → t.pool ≡ record p { queue0 = (t.pool).queue0; queue1 = (t.pool).queue1 }
    second h = elim (Option-cases (pop next p.queue1)) [
      | inl n ↦ absurd (cc (subst (λ o. (o >>= leave1 p) ≡ some t) n h))
      | inr (r, n) ↦
          subst (λ x. x.pool ≡ record p { queue0 = (x.pool).queue0; queue1 = (x.pool).queue1 })
            (same (record { work = r.work; pool = record p { queue1 = r.rest } }) t
              (subst (λ o. (o >>= leave1 p) ≡ some t) n h))
            refl
    ]

pub nr_works-no_manager : (p : Pool) → nr_works p ≡ nr_works (record p { manager = none })
unfolding nr_works
nr_works-no_manager p = refl
