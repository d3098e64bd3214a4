-- ===== src/Timer/Collect.antt =====
-- The loop of `timer_report_periodic_event` over the buckets of the ticks since the last event.
use native.Mathlib.Decide.{ℕ_discrete}
use x.Prelude.{
  update, Mem, Distinct, Mem-cases, ℕ, zero, suc, ◌^◌, ◌<◌, ◌≤◌, ◌≡◌, ◌≢◌, refl, subst, sym, ap,
  ◌∙◌, ◌⊎◌, inl, inr, true, false, some, List, eq→==, ne→==, Bool-cases, arith, lt→ltb, nlt→ltb,
}
use x.Prelude.Words.{size_mod, size_add, size_sub}
use x.Clock.{time_occurred, expire_threshold}
use x.Timer.{Timer, running, bucket, Swept, sweep, Wheel, put_back, collect}
use x.Timer.Sweep.{pending, expired, Runs, sweep_lem}
use x.Timer.Wheels.{
  IsWheel, Mem-pending, pending-Mem, pending-Distinct, expired-grows, expired-Mem, Mem-expired,
}

-- What the loop does to a wheel on its way to `now`, `n` ticks long.
pub record Collects (now n : ℕ) (w w' : Wheel) : Type 0 where
  pub due :
      (b u : ℕ)
      → Mem u (w.htable b)
      → size_sub now (w.timers u).ticks < n
      → (w'.timers u ≡ record (w.timers u) { state = running })
        × Mem u w'.out
        × (¬ Mem u (w'.htable b))
  pub later : (u : ℕ) → time_occurred (w.timers u).ticks now ≡ false → w'.timers u ≡ w.timers u
  pub stays :
      (b u : ℕ)
      → Mem u (w.htable b)
      → time_occurred (w.timers u).ticks now ≡ false
      → Mem u (w'.htable b)
  pub fewer : (b u : ℕ) → Mem u (w'.htable b) → Mem u (w.htable b)
  pub same : (b u : ℕ) → Mem u (w'.htable b) → w'.timers u ≡ w.timers u
  pub settled :
      (u : ℕ)
      → ((w'.timers u ≡ w.timers u) × ((b : ℕ) → Mem u (w.htable b) → Mem u (w'.htable b)))
        ⊎ ((w'.timers u).state ≡ running)
  pub skips :
      (b u : ℕ)
      → Mem u (w.htable b)
      → ((i : ℕ) → i < n → bucket (size_sub now i) ≢ b)
      → (w'.timers u ≡ w.timers u) × Mem u (w'.htable b)
  pub others : (u : ℕ) → ((b : ℕ) → ¬ Mem u (w.htable b)) → w'.timers u ≡ w.timers u
  pub grows : (u : ℕ) → Mem u w.out → Mem u w'.out
  pub taken :
      (u : ℕ)
      → Mem u w'.out
      → Mem u w.out ⊎ ((b : ℕ) × Mem u (w.htable b) × (time_occurred (w.timers u).ticks now ≡ true))
  pub wheel : IsWheel w'.htable w'.timers

recent-occurred :
    (t now : ℕ)
    → t < size_mod
    → now < size_mod
    → size_sub now t < 2 ^ 60
    → time_occurred t now ≡ true
recent-occurred t now p q h = elim (ℕ_discrete t now) [
  | yes e ↦ rw (eq→== t now e)
  | no n ↦ rw (ne→== t now n, lt→ltb expire_threshold (size_sub t now) (omega arith))
]

next-not_occurred : (now : ℕ) → now < size_mod → time_occurred (size_add now 1) now ≡ false
next-not_occurred now q = rw (
  ne→== (size_add now 1) now (omega arith),
  nlt→ltb expire_threshold (size_sub (size_add now 1) now) (omega arith),
)

-- The sweep of the bucket of one tick.
module _ (now : ℕ) (w : Wheel) (b : ℕ) (r : Swept) (wheel : IsWheel w.htable w.timers)
    (kept : r.kept ≡ pending (λ u. (w.timers u).ticks) now (w.htable b))
    (outs : r.out ≡ expired (λ u. (w.timers u).ticks) now (w.htable b) w.out)
    (eff : Runs now (w.htable b) w.timers r.timers) where
  abbrev next : Wheel
  next = put_back w b r

  at_self : (htable : ℕ → List ℕ) → update htable b r.kept b ≡ r.kept
  at_self htable = rw (eq→== b b refl)

  at_other : (c : ℕ) → b ≢ c → next.htable c ≡ w.htable c
  at_other c h = rw (ne→== c b (λ e. h (sym e)))

  elsewhere : (c u : ℕ) → b ≢ c → Mem u (w.htable c) → r.timers u ≡ w.timers u
  elsewhere c u h m = eff.other u (λ m'. h (sym (wheel.hash b u m') ∙ wheel.hash c u m))

  put_back-fewer : (c u : ℕ) → Mem u (next.htable c) → Mem u (w.htable c)
  put_back-fewer c u m = elim (ℕ_discrete b c) [
    | yes e ↦
        subst (λ x. Mem u (w.htable x)) e
          ((Mem-pending (λ v. (w.timers v).ticks) now u (w.htable b)
            (subst (λ ts. Mem u ts) kept
              (subst (λ ts. Mem u ts) (at_self w.htable)
                (subst (λ x. Mem u (next.htable x)) (sym e) m)))).0)
    | no n ↦ subst (λ ts. Mem u ts) (at_other c n) m
  ]

  put_back-pending : (c u : ℕ) → Mem u (next.htable c) → r.timers u ≡ w.timers u
  put_back-pending c u m = elim (ℕ_discrete b c) [
    | yes e ↦ eff.miss u (
        (Mem-pending (λ v. (w.timers v).ticks) now u (w.htable b)
          (subst (λ ts. Mem u ts) kept
            (subst (λ ts. Mem u ts) (at_self w.htable)
              (subst (λ x. Mem u (next.htable x)) (sym e) m)))).1)
    | no n ↦ elsewhere c u n (put_back-fewer c u m)
  ]

  put_back-stays :
      (c u : ℕ)
      → Mem u (w.htable c)
      → time_occurred (w.timers u).ticks now ≡ false
      → Mem u (next.htable c)
  put_back-stays c u m o = elim (ℕ_discrete b c) [
    | yes e ↦
        subst (λ x. Mem u (next.htable x)) e
          (rw (at_self w.htable, kept)
            (pending-Mem (λ v. (w.timers v).ticks) now u (w.htable b)
              (subst (λ x. Mem u (w.htable x)) (sym e) m) o))
    | no n ↦ subst (λ ts. Mem u ts) (sym (at_other c n)) m
  ]

  put_back-IsWheel : IsWheel next.htable next.timers
  put_back-IsWheel = record {
    state = λ c u m. rw (put_back-pending c u m) (wheel.state c u (put_back-fewer c u m));
    hash = λ c u m. rw (put_back-pending c u m) (wheel.hash c u (put_back-fewer c u m));
    once = λ c. elim (ℕ_discrete b c) [
      | yes e ↦
          subst (λ x. Distinct (next.htable x)) e
            (rw (at_self w.htable, kept)
              (pending-Distinct (λ v. (w.timers v).ticks) now (w.htable b) (wheel.once b)))
      | no n ↦ subst Distinct (sym (at_other c n)) (wheel.once c)
    ];
    word = λ c u m. rw (put_back-pending c u m) (wheel.word c u (put_back-fewer c u m));
  }

  -- What the rest of the loop does, after the sweep of the bucket of the tick `n` before the last.
  module _ (n t : ℕ) (in_bucket : bucket t ≡ b) (n_ticks : size_sub now t ≡ n)
      (t_word : t < size_mod) (small : n < 2 ^ 60) (now_word : now < size_mod) (w' : Wheel)
      (rest : Collects now n next w') where
    swept-due :
        (u : ℕ)
        → Mem u (w.htable b)
        → time_occurred (w.timers u).ticks now ≡ true
        → (w'.timers u ≡ record (w.timers u) { state = running })
          × Mem u w'.out
          × (¬ Mem u (w'.htable b))
    swept-due u m o =
        let gone : (c : ℕ) → ¬ Mem u (next.htable c) = λ c m'.
          let e : b ≡ c = sym (wheel.hash b u m) ∙ wheel.hash c u (put_back-fewer c u m') in
          let p =
            (Mem-pending (λ v. (w.timers v).ticks) now u (w.htable b)
              (subst (λ ts. Mem u ts) kept
                (subst (λ ts. Mem u ts) (at_self w.htable)
                  (subst (λ x. Mem u (next.htable x)) (sym e) m')))).1 in
          cc (p, o) in
        (
          rest.others u gone ∙ eff.hit u m o,
          rest.grows u
              (rw outs (expired-Mem (λ v. (w.timers v).ticks) now u (w.htable b) w.out m o)),
          λ m'. gone b (rest.fewer b u m'),
        )

    ahead-due :
        (c u : ℕ)
        → b ≢ c
        → Mem u (w.htable c)
        → size_sub now (w.timers u).ticks < suc n
        → (w'.timers u ≡ record (w.timers u) { state = running })
          × Mem u w'.out
          × (¬ Mem u (w'.htable c))
    ahead-due c u apart m h =
        let same = elsewhere c u apart m in
        let away : (w.timers u).ticks ≢ t =
          λ e. apart (sym in_bucket ∙ sym (ap bucket e) ∙ wheel.hash c u m) in
        let less : size_sub now (w.timers u).ticks < n = omega (arith, away, wheel.word c u m) in
        let (run, out, gone) =
          rest.due c u (subst (λ ts. Mem u ts) (sym (at_other c apart)) m) (rw same less) in
        (run ∙ ap {A = Timer} (λ v. record v { state = running }) same, out, gone)

    taken_all :
        (u : ℕ)
        → Mem u w'.out
        → Mem u w.out
          ⊎ ((c : ℕ) × Mem u (w.htable c) × (time_occurred (w.timers u).ticks now ≡ true))
    taken_all u m = elim (rest.taken u m) [
      | inl m' ↦
          elim (Mem-expired (λ v. (w.timers v).ticks) now u (w.htable b) w.out
            (subst (λ ts. Mem u ts) outs m')) [ inl old ↦ inl old | inr (p, q) ↦ inr (b, p, q) ]
      | inr (c, m', o) ↦ inr (
        c,
        put_back-fewer c u m',
        subst (λ v. time_occurred v.ticks now ≡ true) (put_back-pending c u m') o,
      )
    ]

    settled_step :
        (u : ℕ)
        → ((w'.timers u ≡ w.timers u) × ((c : ℕ) → Mem u (w.htable c) → Mem u (w'.htable c)))
          ⊎ ((w'.timers u).state ≡ running)
    settled_step u = elim (Mem-cases u (w.htable b)) [
      | inr absent ↦ elim (rest.settled u) [
        | inr run ↦ inr run
        | inl (e, k) ↦ inl (
          e ∙ eff.other u absent,
          λ c m. k c (
              subst (λ ts. Mem u ts)
                (sym (at_other c (λ p. absent (subst (λ x. Mem u (w.htable x)) (sym p) m)))) m),
        )
      ]
      | inl m ↦ elim (Bool-cases (time_occurred (w.timers u).ticks now)) [
        | inl o ↦ inr (ap (λ v. v.state) (swept-due u m o).0)
        | inr o ↦ elim (rest.settled u) [
          | inr run ↦ inr run
          | inl (e, k) ↦ inl (e ∙ eff.miss u o, λ c m'. k c (put_back-stays c u m' o))
        ]
      ]
    ]

    more_ticks : Collects now (suc n) w w'
    more_ticks = record {
      due = λ c u m h. elim (ℕ_discrete b c) [
        | yes e ↦
            let m' = subst (λ x. Mem u (w.htable x)) (sym e) m in
            let o : time_occurred (w.timers u).ticks now ≡ true =
              recent-occurred (w.timers u).ticks now (wheel.word b u m') now_word (omega arith) in
            let (run, out, gone) = swept-due u m' o in
            (run, out, λ m'. gone (subst (λ x. Mem u (w'.htable x)) (sym e) m'))
        | no apart ↦ ahead-due c u apart m h
      ];
      later = λ u o. rest.later u (rw (eff.miss u o) o) ∙ eff.miss u o;
      stays = λ c u m o. rest.stays c u (put_back-stays c u m o) (rw (eff.miss u o) o);
      fewer = λ c u m. put_back-fewer c u (rest.fewer c u m);
      same = λ c u m. rest.same c u m ∙ put_back-pending c u (rest.fewer c u m);
      settled = settled_step;
      skips = λ c u m h.
          let tick : size_sub now n ≡ t = omega arith in
          let apart : b ≢ c = λ e. h n (omega arith) (ap bucket tick ∙ in_bucket ∙ e) in
          let (e, m') =
            rest.skips c u (subst (λ ts. Mem u ts) (sym (at_other c apart)) m)
              (λ i l. h i (omega arith)) in
          (e ∙ elsewhere c u apart m, m');
      others = λ u h. rest.others u (λ c m. h c (put_back-fewer c u m)) ∙ eff.other u (h b);
      grows = λ u m.
          rest.grows u
            (rw outs (expired-grows (λ v. (w.timers v).ticks) now u (w.htable b) w.out m));
      taken = taken_all;
      wheel = rest.wheel;
    }

collect-stop :
    (now ticks k : ℕ) (w : Wheel)
    → time_occurred ticks now ≡ false
    → collect (suc k) ticks now w ≡ some w
unfolding collect
collect-stop now ticks k w e = rw (e, collect)

collect-step :
    (now ticks k : ℕ) (w : Wheel) (r : Swept)
    → time_occurred ticks now ≡ true
    → sweep now (w.htable (bucket ticks)) w.timers w.out ≡ some r
    → collect (suc k) ticks now w ≡ collect k (size_add ticks 1) now (put_back w (bucket ticks) r)
unfolding collect
collect-step now ticks k w r e s = rw (e, collect, s)

pub collect_lem :
    (n ticks now : ℕ) (w : Wheel)
    → ticks < size_mod
    → now < size_mod
    → n ≤ 2 ^ 60
    → size_add ticks n ≡ size_add now 1
    → IsWheel w.htable w.timers
    → (w' : Wheel) × (collect (suc n) ticks now w ≡ some w') × Collects now n w w'
collect_lem zero ticks now w p q small e wheel =
    let last : ticks ≡ size_add now 1 = omega arith in
    (
      w,
      collect-stop now ticks 0 w (rw last (next-not_occurred now q)),
      record {
        due = λ b u m h. absurd (omega arith);
        later = λ u o. refl;
        stays = λ b u m o. m;
        fewer = λ b u m. m;
        same = λ b u m. refl;
        settled = λ u. inl (refl, λ b m. m);
        skips = λ b u m h. (refl, m);
        others = λ u h. refl;
        grows = λ u m. m;
        taken = λ u m. inl m;
        wheel = wheel;
      },
    )
collect_lem (suc n) ticks now w p q small e wheel =
    let b : ℕ = bucket ticks in
    let before : size_sub now ticks ≡ n = omega arith in
    let (r, runs, kept, outs, eff) =
      sweep_lem now (w.htable b) w.timers w.out (λ u. (w.timers u).ticks) (λ u. refl)
        (wheel.state b) (wheel.once b) in
    let (w', loops, rest) =
      collect_lem n (size_add ticks 1) now (put_back w b r) (omega arith) q (omega arith)
        (omega arith) (put_back-IsWheel now w b r wheel kept outs eff) in
    (
      w',
      collect-step now ticks (suc n) w r (recent-occurred ticks now p q (omega arith)) runs ∙ loops,
      more_ticks now w b r wheel kept outs eff n ticks refl before p (omega arith) q w' rest,
    )
