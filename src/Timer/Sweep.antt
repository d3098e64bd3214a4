-- ===== src/Timer/Sweep.antt =====
-- `timer_bucket_filter` on a bucket whose timers are scheduled and distinct.
use native.Mathlib.Decide.{ℕ_discrete}
use x.Prelude.{
  update, Mem, Distinct, Mem-ne, ℕ, ◌≡◌, ◌≢◌, refl, subst, sym, ap, ◌∙◌, inl, inr, true, false,
  some, List, [], ◌∷◌, eq→==, ne→==, if◌then◌else◌, Bool-cases, ◌>>=◌,
}
use x.Clock.{time_occurred}
use x.Timer.{Timer, scheduled, running, is_scheduled, Swept, sweep, keep_first}

-- The timers of a list that have not expired at `now`, in order, and those that have, the last first.
abbrev pub pending : (ℕ → ℕ) → ℕ → List ℕ → List ℕ
pending ticks now [] = []
pending ticks now (t ∷ ts) =
    if time_occurred (ticks t) now then pending ticks now ts else t ∷ pending ticks now ts

abbrev pub expired : (ℕ → ℕ) → ℕ → List ℕ → List ℕ → List ℕ
expired ticks now [] out = out
expired ticks now (t ∷ ts) out =
    expired ticks now ts (if time_occurred (ticks t) now then t ∷ out else out)

-- `tm'` has the timers of `tm`, those of `ts` that have expired set running.
pub record Runs (now : ℕ) (ts : List ℕ) (tm tm' : ℕ → Timer) : Type 0 where
  pub hit :
      (u : ℕ)
      → Mem u ts
      → time_occurred (tm u).ticks now ≡ true
      → tm' u ≡ record (tm u) { state = running }
  pub miss : (u : ℕ) → time_occurred (tm u).ticks now ≡ false → tm' u ≡ tm u
  pub other : (u : ℕ) → (¬ Mem u ts) → tm' u ≡ tm u

abbrev pub AllScheduled : (ℕ → Timer) → List ℕ → Type 0
AllScheduled tm ts = (u : ℕ) → Mem u ts → (tm u).state ≡ scheduled

abbrev pub Sweeps : ℕ → List ℕ → (ℕ → Timer) → List ℕ → (ℕ → ℕ) → Type 0
Sweeps now ts tm out ticks =
    (r : Swept) × (sweep now ts tm out ≡ some r)
    × (r.kept ≡ pending ticks now ts)
    × (r.out ≡ expired ticks now ts out)
    × Runs now ts tm r.timers

abbrev set_run : (ℕ → Timer) → ℕ → ℕ → Timer
set_run tm t = update tm t (record (tm t) { state = running })

set_run_ne : (tm : ℕ → Timer) (t u : ℕ) → t ≢ u → set_run tm t u ≡ tm u
set_run_ne tm t u h = rw (ne→== u t (λ e. h (sym e)))

set_run_self : (tm : ℕ → Timer) (t : ℕ) → set_run tm t t ≡ record (tm t) { state = running }
set_run_self tm t = rw (eq→== t t refl)

set_run-ticks : (tm : ℕ → Timer) (t u : ℕ) → (set_run tm t u).ticks ≡ (tm u).ticks
set_run-ticks tm t u = elim (ℕ_discrete t u) [
  | yes e ↦ rw (← e, set_run_self tm t)
  | no n ↦ rw (set_run_ne tm t u n)
]

Runs-hit :
    (now t : ℕ) (ts : List ℕ) (tm tm' : ℕ → Timer)
    → time_occurred (tm t).ticks now ≡ true
    → (¬ Mem t ts)
    → Runs now ts (set_run tm t) tm'
    → Runs now (t ∷ ts) tm tm'
Runs-hit now t ts tm tm' e fresh r = record { hit = hit; miss = miss; other = other }
  where
    hit :
        (u : ℕ)
        → Mem u (t ∷ ts)
        → time_occurred (tm u).ticks now ≡ true
        → tm' u ≡ record (tm u) { state = running }
    hit u (inl same) o =
        subst (λ x. tm' x ≡ record (tm x) { state = running }) same
          (r.other t fresh ∙ set_run_self tm t)
    hit u (inr m) o =
        r.hit u m (rw (set_run-ticks tm t u) o)
        ∙ ap {A = Timer} (λ v. record v { state = running }) (set_run_ne tm t u (Mem-ne ts fresh m))

    apart : (u : ℕ) → time_occurred (tm u).ticks now ≡ false → t ≢ u
    apart u o same = cc (e, o, ap (λ x. time_occurred (tm x).ticks now) same)

    miss : (u : ℕ) → time_occurred (tm u).ticks now ≡ false → tm' u ≡ tm u
    miss u o = r.miss u (rw (set_run-ticks tm t u) o) ∙ set_run_ne tm t u (apart u o)

    other : (u : ℕ) → (¬ Mem u (t ∷ ts)) → tm' u ≡ tm u
    other u h = r.other u (λ m. h (inr m)) ∙ set_run_ne tm t u (λ same. h (inl same))

Runs-miss :
    (now t : ℕ) (ts : List ℕ) (tm tm' : ℕ → Timer)
    → time_occurred (tm t).ticks now ≡ false
    → Runs now ts tm tm'
    → Runs now (t ∷ ts) tm tm'
Runs-miss now t ts tm tm' e r = record {
  hit = hit;
  miss = r.miss;
  other = λ u h. r.other u (λ m. h (inr m));
}
  where
    hit :
        (u : ℕ)
        → Mem u (t ∷ ts)
        → time_occurred (tm u).ticks now ≡ true
        → tm' u ≡ record (tm u) { state = running }
    hit u (inl same) o = absurd (cc (e, o, ap (λ x. time_occurred (tm x).ticks now) same))
    hit u (inr m) o = r.hit u m o

sweep-hit :
    (now t : ℕ) (ts : List ℕ) (tm : ℕ → Timer) (out : List ℕ)
    → (tm t).state ≡ scheduled
    → time_occurred (tm t).ticks now ≡ true
    → sweep now (t ∷ ts) tm out ≡ sweep now ts (set_run tm t) (t ∷ out)
unfolding sweep
sweep-hit now t ts tm out p e = rw (p, e, sweep, is_scheduled)

sweep-miss :
    (now t : ℕ) (ts : List ℕ) (tm : ℕ → Timer) (out : List ℕ)
    → (tm t).state ≡ scheduled
    → time_occurred (tm t).ticks now ≡ false
    → sweep now (t ∷ ts) tm out ≡ (sweep now ts tm out >>= keep_first t)
unfolding sweep
sweep-miss now t ts tm out p e = rw (p, e, sweep, is_scheduled)

pub sweep_lem :
    (now : ℕ) (ts : List ℕ) (tm : ℕ → Timer) (out : List ℕ) (ticks : ℕ → ℕ)
    → ((u : ℕ) → (tm u).ticks ≡ ticks u)
    → AllScheduled tm ts
    → Distinct ts
    → Sweeps now ts tm out ticks
unfolding sweep
sweep_lem now [] tm out ticks same all d = (
  record { kept = []; timers = tm; out = out },
  refl,
  refl,
  refl,
  record { hit = λ u m. absurd m; miss = λ u e. refl; other = λ u m. refl },
)
sweep_lem now (t ∷ ts) tm out ticks same all d =
    let first : (tm t).state ≡ scheduled = all t (inl refl) in
    elim (Bool-cases (time_occurred (ticks t) now)) [
      | inl e ↦
          let (r, runs, kept, outs, eff) =
            sweep_lem now ts (set_run tm t) (t ∷ out) ticks (λ u. set_run-ticks tm t u ∙ same u)
              (λ u m. rw (set_run_ne tm t u (Mem-ne ts d.0 m)) (all u (inr m))) d.1 in
          (
            r,
            sweep-hit now t ts tm out first (rw (same t) e) ∙ runs,
            rw e kept,
            rw e outs,
            Runs-hit now t ts tm r.timers (rw (same t) e) d.0 eff,
          )
      | inr e ↦
          let (r, runs, kept, outs, eff) =
            sweep_lem now ts tm out ticks same (λ u m. all u (inr m)) d.1 in
          (
            record r { kept = t ∷ r.kept },
            rw (sweep-miss now t ts tm out first (rw (same t) e), runs),
            rw e (ap (λ k. t ∷ k) kept),
            rw e outs,
            Runs-miss now t ts tm r.timers (rw (same t) e) eff,
          )
    ]
