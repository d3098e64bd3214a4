-- ===== src/Work/Pool/Fifo.antt =====
-- A pool hands its works out first in, first out, across its two queues.
use mathlib.Core.List.{append_assoc}
use x.Prelude.{
  left_of, right_of, ℕ, suc, ◌+◌, ◌<◌, ◌≡◌, ◌≢◌, refl, subst, sym, ap, ◌∙◌, inl, inr, Option, some,
  List, [], ◌∷◌, ◌++◌, Mem, Mem-ne, Mem-append, length, length-append, eq→==, ne→==, Bool-cases,
  arith,
}
use x.Work.Queue.{Linked, uint_mod, push}
use x.Work.Queue.Chain.{IsQueue-frame}
use x.Work.Queue.Sequence.{push_lem, pop_lem}
use x.Work.Pool.{Pool, nr_works, wakeup_manager, push_work, pop_work}
use x.Work.Pool.Holds.{Holds, IsPool}

-- A pool that holds a work wakes its manager up.
pub wakeup_manager_lem :
    (next : ℕ → Option ℕ) (p : Pool) (old new : List ℕ)
    → Holds next p old new
    → 0 < length old + length new
    → wakeup_manager p ≡ p.manager
unfolding wakeup_manager nr_works
wakeup_manager_lem next p old new h pos =
    let some_work : nr_works p ≢ 0 = λ e. omega (arith, h.first.count, h.second.count, h.room, e) in
    rw (ne→== (nr_works p) 0 some_work)

-- A pool with pending works holds a first one.
pub holds_work :
    (next : ℕ → Option ℕ) (p : Pool) (ws : List ℕ)
    → IsPool next p ws
    → nr_works p ≢ 0
    → (w : ℕ) × (rest : List ℕ) × (ws ≡ w ∷ rest)
unfolding nr_works
holds_work next p ws ([], [], h, e) some_work =
    absurd (some_work (omega (arith, h.first.count, h.second.count)))
holds_work next p ws ([], w ∷ new, h, e) some_work = (w, new, e)
holds_work next p ws (w ∷ old, new, h, e) some_work = (w, old ++ new, e)

-- A work that the pool does not hold is put last, the pool's manager is woken up, and the links of
-- works that the pool does not hold are unchanged.
pub push_work_lem :
    (next : ℕ → Option ℕ) (p : Pool) (ws : List ℕ) (w : ℕ)
    → IsPool next p ws
    → (¬ Mem w ws)
    → suc (length ws) < uint_mod
    → IsPool (push_work next p w).next (push_work next p w).pool (ws ++ (w ∷ []))
      × ((push_work next p w).woken ≡ p.manager)
      × ((u : ℕ) → w ≢ u → (¬ Mem u ws) → (push_work next p w).next u ≡ next u)
unfolding push_work
push_work_lem next p ws w (old, new, h, e) fresh room =
    let l : Linked = push next p.queue0 w in
    let p' : Pool = record p { queue0 = l.queue } in
    let lengths : length ws ≡ length old + length new = ap length e ∙ length-append old new in
    let not_old : ¬ Mem w old = λ m. fresh (subst (λ x. Mem w x) (sym e) (left_of w old new m)) in
    let not_new : ¬ Mem w new = λ m. fresh (subst (λ x. Mem w x) (sym e) (right_of w old new m)) in
    let (queue, frame) = push_lem next p.queue0 new w h.first not_new (omega (arith, lengths)) in
    let old_same : (u : ℕ) → Mem u old → l.next u ≡ next u =
      λ u m. frame u (Mem-ne old not_old m) (h.apart u m) in
    let holds : Holds l.next p' old (new ++ (w ∷ [])) = record {
      first = queue;
      second = IsQueue-frame next l.next p.queue1 old old_same h.second;
      apart = λ u m m'. elim (Mem-append u new (w ∷ []) m') [
        | inl n ↦ h.apart u m n
        | inr (inl same) ↦ not_old (subst (λ x. Mem x old) (sym same) m)
        | inr (inr bad) ↦ bad
      ];
      room = omega (arith, lengths, length-append new (w ∷ []));
      whole = h.whole;
    } in
    (
      (old, new ++ (w ∷ []), holds, ap (λ x. x ++ (w ∷ [])) e ∙ append_assoc old new (w ∷ [])),
      wakeup_manager_lem l.next p' old (new ++ (w ∷ [])) holds
          (omega (arith, length-append new (w ∷ []))),
      λ u n m. frame u n (λ m'. m (subst (λ x. Mem u x) (sym e) (right_of u old new m'))),
    )

Hands : (ℕ → Option ℕ) → Pool → ℕ → List ℕ → Type 0
Hands next p w ws =
    (p' : Pool) × (pop_work next p ≡ some (record { work = w; pool = p' })) × IsPool next p' ws

pop_new :
    (next : ℕ → Option ℕ) (p : Pool) (w : ℕ) (new : List ℕ)
    → Holds next p [] (w ∷ new)
    → Hands next p w new
unfolding pop_work Hands
pop_new next p w new h =
    let (q, e, r) = pop_lem next p.queue0 w new h.first in
    let p' : Pool = record p { queue0 = q } in
    let none_old : p.queue1.nr_works ≡ 0 = h.second.count in
    let run : pop_work next p ≡ some (record { work = w; pool = p' }) = elim (Bool-cases p.global) [
      | inl g ↦ simp (pop_work, g, e)
      | inr g ↦ simp (pop_work, g, e, eq→== p.queue1.nr_works 0 none_old)
    ] in
    (
      p',
      run,
      (
        [],
        new,
        record {
          first = r;
          second = h.second;
          apart = λ u m. absurd m;
          room = omega (arith, h.room);
          whole = h.whole;
        },
        refl,
      ),
    )

pop_old :
    (next : ℕ → Option ℕ) (p : Pool) (w : ℕ) (old new : List ℕ)
    → Holds next p (w ∷ old) new
    → Hands next p w (old ++ new)
unfolding pop_work Hands
pop_old next p w old new h =
    let (q, e, r) = pop_lem next p.queue1 w old h.second in
    let p' : Pool = record p { queue1 = q } in
    let some_old : p.queue1.nr_works ≢ 0 = λ z. omega (arith, h.second.count) in
    elim (Bool-cases p.global) [
      | inl g ↦ absurd (cc (h.whole g))
      | inr g ↦ (
        p',
        simp (pop_work, g, e, ne→== p.queue1.nr_works 0 some_old),
        (
          old,
          new,
          record {
            first = h.first;
            second = r;
            apart = λ u m. h.apart u (inr m);
            room = omega (arith, h.room);
            whole = λ t. absurd (cc (t, g));
          },
          refl,
        ),
      )
    ]

-- A pool that holds works hands the first of them out, and holds the others.
pub pop_work_lem :
    (next : ℕ → Option ℕ) (p : Pool) (w : ℕ) (ws : List ℕ)
    → IsPool next p (w ∷ ws)
    → (p' : Pool) × (pop_work next p ≡ some (record { work = w; pool = p' })) × IsPool next p' ws
unfolding Hands
pop_work_lem next p w ws ([], [], h, e) = absurd (cc e)
pop_work_lem next p w ws ([], v ∷ new, h, e) =
    let at : w ≡ v = cc e in let tail : ws ≡ new = cc e in rw (at, tail) (pop_new next p v new h)
pop_work_lem next p w ws (v ∷ old, new, h, e) =
    let at : w ≡ v = cc e in
    let tail : ws ≡ old ++ new = cc e in rw (at, tail) (pop_old next p v old new h)
