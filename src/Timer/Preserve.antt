-- ===== src/Timer/Preserve.antt =====
-- `timer_cpu_data_add` keeps the wheels well-formed.
use native.Mathlib.Decide.{ℕ_discrete}
use x.Prelude.{
  update, update_self, update_ne, Mem, Distinct, Mem-ne, ℕ, ◌<◌, ◌≡◌, ◌≢◌, refl, subst, sym, ap,
  inl, inr, some, ◌∷◌,
}
use x.Prelude.Words.{size_mod}
use x.Timer.{Timer, ready, scheduled, System, bucket, add, is_ready}
use x.Timer.Valid.{Valid, set_bucket, set_bucket-own, set_bucket_self, set_bucket-cases}

-- The state after `timer_cpu_data_add` of the timer `t` on the processor `c`.
abbrev pub added : System → ℕ → ℕ → System
added s c t = record s {
  timers = update s.timers t (record (s.timers t) { cpu = some (s.cpus c).cpu; state = scheduled });
  cpus =
      set_bucket s.cpus c (bucket (s.timers t).ticks)
        (t ∷ (s.cpus c).htable (bucket (s.timers t).ticks));
}

pub add_lem :
    (s : System) (c t : ℕ) → (s.timers t).state ≡ ready → add s (s.cpus c) t ≡ some (added s c t)
unfolding add
add_lem s c t e = rw (e, is_ready)

module _ (s : System) (c t : ℕ) (ok : Valid s) (word : (s.timers t).ticks < size_mod)
    (fresh : (s.timers t).state ≢ scheduled) where
  abbrev t_bucket : ℕ
  t_bucket = bucket (s.timers t).ticks

  abbrev s_added : System
  s_added = added s c t

  not_in : (k a : ℕ) → ¬ Mem t ((s.cpus k).htable a)
  not_in k a m = fresh (ok.state k a t m)

  in-timers : (k a u : ℕ) → Mem u ((s.cpus k).htable a) → s_added.timers u ≡ s.timers u
  in-timers k a u m =
      update_ne s.timers t u (record (s.timers t) { cpu = some (s.cpus c).cpu; state = scheduled })
        (Mem-ne ((s.cpus k).htable a) (not_in k a) m)

  -- A property of the members of a bucket holds after, when it holds of the new one and of the old ones.
  members :
      (P : ℕ → ℕ → ℕ → Timer → Type 0)
      → P c t_bucket t (record (s.timers t) { cpu = some c; state = scheduled })
      → ((k a u : ℕ) → Mem u ((s.cpus k).htable a) → P k a u (s.timers u))
      → (k a u : ℕ) → Mem u ((s_added.cpus k).htable a)
      → P k a u (s_added.timers u)
  members P new old k a u m =
      elim (set_bucket-cases s.cpus ok.own c t_bucket (t ∷ (s.cpus c).htable t_bucket) k a) [
        | inr (h, e) ↦ let m' = subst (λ ts. Mem u ts) e m in rw (in-timers k a u m') (old k a u m')
        | inl (ek, ea, e) ↦ elim (subst (λ ts. Mem u ts) e m) [
          | inl same ↦
              subst (λ x. P k a x (s_added.timers x)) same
                (subst (λ x. P x a t (s_added.timers t)) ek
                  (subst (λ x. P c x t (s_added.timers t)) ea
                    (rw
                      (
                        update_self s.timers t
                            (record (s.timers t) { cpu = some (s.cpus c).cpu; state = scheduled }),
                        ok.own c,
                      )
                      new)))
          | inr m' ↦
              let m'' =
                subst (λ x. Mem u ((s.cpus x).htable a)) ek
                  (subst (λ x. Mem u ((s.cpus c).htable x)) ea m') in
              rw (in-timers k a u m'') (old k a u m'')
        ]
      ]

  keeps : (k a u : ℕ) → Mem u ((s.cpus k).htable a) → Mem u ((s_added.cpus k).htable a)
  keeps k a u m =
      elim (set_bucket-cases s.cpus ok.own c t_bucket (t ∷ (s.cpus c).htable t_bucket) k a) [
        | inr (h, e) ↦ subst (λ ts. Mem u ts) (sym e) m
        | inl (ek, ea, e) ↦
            subst (λ ts. Mem u ts) (sym e)
              (inr (
                subst (λ x. Mem u ((s.cpus x).htable t_bucket)) (sym ek)
                  (subst (λ x. Mem u ((s.cpus k).htable x)) (sym ea) m)))
      ]

  added-once : (k a : ℕ) → Distinct ((s_added.cpus k).htable a)
  added-once k a =
      elim (set_bucket-cases s.cpus ok.own c t_bucket (t ∷ (s.cpus c).htable t_bucket) k a) [
        | inr (h, e) ↦ subst Distinct (sym e) (ok.once k a)
        | inl (ek, ea, e) ↦ subst Distinct (sym e) (not_in c t_bucket, ok.once c t_bucket)
      ]

  added-queued :
      (u : ℕ)
      → (s_added.timers u).state ≡ scheduled
      → (k : ℕ) × ((s_added.timers u).cpu ≡ some k)
        × Mem u ((s_added.cpus k).htable (bucket (s_added.timers u).ticks))
  added-queued u h = elim (ℕ_discrete t u) [
    | yes e ↦
        subst
          (λ x.
            (k : ℕ) × ((s_added.timers x).cpu ≡ some k)
            × Mem x ((s_added.cpus k).htable (bucket (s_added.timers x).ticks)))
          e
          (rw
            (update_self s.timers t
              (record (s.timers t) { cpu = some (s.cpus c).cpu; state = scheduled }))
            (
              c,
              ap some (ok.own c),
              rw (set_bucket_self s.cpus ok.own c t_bucket (t ∷ (s.cpus c).htable t_bucket))
                  (inl refl),
            ))
    | no n ↦
        let same =
          update_ne s.timers t u
            (record (s.timers t) { cpu = some (s.cpus c).cpu; state = scheduled }) n in
        let (k, p, m) = ok.queued u (subst (λ x. x.state ≡ scheduled) same h) in
        (
          k,
          subst (λ x. x.cpu ≡ some k) (sym same) p,
          keeps k (bucket (s_added.timers u).ticks) u
              (subst (λ x. Mem u ((s.cpus k).htable (bucket x.ticks))) (sym same) m),
        )
  ]

  pub added-Valid : Valid s_added
  added-Valid = record {
    own = set_bucket-own s.cpus ok.own c t_bucket (t ∷ (s.cpus c).htable t_bucket);
    state = members (λ k a u v. v.state ≡ scheduled) refl ok.state;
    place = members (λ k a u v. v.cpu ≡ some k) refl ok.place;
    hash = members (λ k a u v. bucket v.ticks ≡ a) refl ok.hash;
    word = members (λ k a u v. v.ticks < size_mod) word ok.word;
    once = added-once;
    queued = added-queued;
  }
