-- ===== src/Work/Queue/Sequence.antt =====
-- The operations on queues of works, on the sequences that the queues hold.
use x.Prelude.{
  ℕ, suc, ◌+◌, ◌-◌, ◌%◌, ◌<◌, ◌≡◌, ◌≢◌, refl, subst, sym, ◌∙◌, inl, inr, Option, none, some, List,
  [], ◌∷◌, ◌++◌, if◌then◌else◌, update, update_self, update_ne, Mem, Mem-ne, Distinct-append,
  length, length-append, eq→==, ne→==, arith,
}
use mathlib.Core.List.{append-nil}
use x.Work.Queue.{Queue, Linked, uint_mod, empty_queue, points_to, push, pop, concat}
use x.Work.Queue.Chain.{
  Follows, last_of, IsQueue, last_of-Mem, last_of-cons, last_of-append, Follows-frame, splice,
}

pub empty_queue-IsQueue : (next : ℕ → Option ℕ) → IsQueue next empty_queue []
empty_queue-IsQueue next = record {
  chain = refl;
  last = refl;
  count = refl;
  distinct = tt;
  small = omega arith;
}

single_apart : (w : ℕ) (ws : List ℕ) → (¬ Mem w ws) → (u : ℕ) → Mem u ws → ¬ Mem u (w ∷ [])
single_apart w ws fresh u m (inl e) = fresh (subst (λ x. Mem x ws) (sym e) m)
single_apart w ws fresh u m (inr m') = m'

-- A push puts a work that the queue does not hold last, and changes the links of that work and of
-- the works of the queue only.
pub push_lem :
    (next : ℕ → Option ℕ) (q : Queue) (ws : List ℕ) (w : ℕ)
    → IsQueue next q ws
    → (¬ Mem w ws)
    → suc (length ws) < uint_mod
    → IsQueue (push next q w).next (push next q w).queue (ws ++ (w ∷ []))
      × ((u : ℕ) → w ≢ u → (¬ Mem u ws) → (push next q w).next u ≡ next u)
unfolding push
push_lem next q [] w r fresh room = rw r.last (
  record {
    chain = (refl, update_self next w none);
    last = refl;
    count = rw r.count refl;
    distinct = ((λ m. m), tt);
    small = omega arith;
  },
  λ u n h. update_ne next w u none n,
)
push_lem next q (v ∷ vs) w r fresh room =
    let ws : List ℕ = v ∷ vs in
    let (z, e) = last_of-cons v vs in
    let last : q.last ≡ some z = r.last ∙ e in
    let in_z : Mem z ws = last_of-Mem z ws e in
    let next₁ : ℕ → Option ℕ = update next w none in
    let next₂ : ℕ → Option ℕ = update next₁ z (some w) in
    let apart : z ≢ w = λ h. fresh (subst (λ u. Mem u ws) h in_z) in
    let at_w : next₂ w ≡ none = update_ne next₁ z w (some w) apart ∙ update_self next w none in
    let same : (u : ℕ) → Mem u ws → z ≢ u → next₂ u ≡ next u =
      λ u m n. update_ne next₁ z u (some w) n ∙ update_ne next w u none (Mem-ne ws fresh m) in
    let chain : Follows next₂ q.first (ws ++ (w ∷ [])) =
      splice next next₂ q.first z ws (w ∷ []) r.chain e r.distinct same
        (update_self next₁ z (some w), at_w) in
    let others : (u : ℕ) → w ≢ u → (¬ Mem u ws) → next₂ u ≡ next u = λ u n h.
      update_ne next₁ z u (some w) (λ p. h (subst (λ x. Mem x ws) p in_z))
      ∙ update_ne next w u none n in
    rw last (
      record {
        chain = chain;
        last = sym (last_of-append ws w []);
        count = omega (arith, r.count, length-append ws (w ∷ []));
        distinct = Distinct-append ws (w ∷ []) r.distinct ((λ m. m), tt) (single_apart w ws fresh);
        small = omega (arith, length-append ws (w ∷ []));
      },
      others,
    )

pop_last :
    (next : ℕ → Option ℕ) (q : Queue) (w : ℕ) (ws : List ℕ)
    → IsQueue next q (w ∷ ws)
    → (if points_to q.last w then none else q.last) ≡ last_of ws
pop_last next q w [] r = rw (r.last, eq→== w w refl)
pop_last next q w (v ∷ vs) r =
    let (z, e) = last_of-cons v vs in
    let apart : z ≢ w =
      λ h. r.distinct.0 (subst (λ u. Mem u (v ∷ vs)) h (last_of-Mem z (v ∷ vs) e)) in
    let last : q.last ≡ some z = r.last ∙ e in rw (last, ne→== z w apart) (sym e)

-- A pop takes the first work of a queue that has one.
pub pop_lem :
    (next : ℕ → Option ℕ) (q : Queue) (w : ℕ) (ws : List ℕ)
    → IsQueue next q (w ∷ ws)
    → (q' : Queue) × (pop next q ≡ some (record { work = w; rest = q' })) × IsQueue next q' ws
unfolding pop
pop_lem next q w ws r =
    let q' : Queue = record {
      first = next w;
      last = if points_to q.last w then none else q.last;
      nr_works = (q.nr_works + uint_mod - 1) % uint_mod;
    } in
    let first : q.first ≡ some w = r.chain.0 in
    (
      q',
      rw first,
      record {
        chain = r.chain.1;
        last = pop_last next q w ws r;
        count = omega (arith, r.count, r.small);
        distinct = r.distinct.1;
        small = omega (arith, r.small);
      },
    )

-- Concatenating two queues that have no work in common fails nowhere, gives a queue of the works of
-- both, the first's before the second's, and changes the links of the works of the first only.
pub concat_lem :
    (next : ℕ → Option ℕ) (q r : Queue) (xs ys : List ℕ)
    → IsQueue next q xs
    → IsQueue next r ys
    → ((u : ℕ) → Mem u xs → ¬ Mem u ys)
    → length xs + length ys < uint_mod
    → (s : Linked) × (concat next q r ≡ some s)
      × IsQueue s.next s.queue (xs ++ ys)
      × ((u : ℕ) → (¬ Mem u xs) → s.next u ≡ next u)
unfolding concat
concat_lem next q r xs [] p t apart room =
    let none_left : r.nr_works ≡ 0 = t.count in
    (
      record { next = next; queue = q },
      rw (eq→== r.nr_works 0 none_left),
      subst (λ l. IsQueue next q l) (sym (append-nil xs)) p,
      λ u h. refl,
    )
concat_lem next q r [] (y ∷ ys) p t apart room = (
  record { next = next; queue = r },
  rw (ne→== r.nr_works 0 (omega (arith, t.count)), eq→== q.nr_works 0 p.count),
  t,
  λ u h. refl,
)
concat_lem next q r (x ∷ xs') (y ∷ ys') p t apart room =
    let xs : List ℕ = x ∷ xs' in
    let ys : List ℕ = y ∷ ys' in
    let (z, e) = last_of-cons x xs' in
    let last : q.last ≡ some z = p.last ∙ e in
    let in_z : Mem z xs = last_of-Mem z xs e in
    let next' : ℕ → Option ℕ = update next z r.first in
    let after : Follows next' (next' z) ys = rw (update_self next z r.first) (
      Follows-frame next next' r.first ys
        (λ u m. update_ne next z u r.first (λ h. apart z in_z (subst (λ v. Mem v ys) (sym h) m)))
        t.chain) in
    let chain : Follows next' q.first (xs ++ ys) =
      splice next next' q.first z xs ys p.chain e p.distinct (λ u m n. update_ne next z u r.first n)
        after in
    (
      record {
        next = next';
        queue = record {
          first = q.first;
          last = r.last;
          nr_works = (q.nr_works + r.nr_works) % uint_mod;
        };
      },
      rw (
        ne→== r.nr_works 0 (omega (arith, t.count)),
        ne→== q.nr_works 0 (omega (arith, p.count)),
        last,
      ),
      record {
        chain = chain;
        last = t.last ∙ sym (last_of-append xs y ys');
        count = omega (arith, p.count, t.count, length-append xs ys);
        distinct = Distinct-append xs ys p.distinct t.distinct apart;
        small = omega (arith, length-append xs ys);
      },
      λ u h. update_ne next z u r.first (λ n. h (subst (λ v. Mem v xs) n in_z)),
    )
