-- ===== src/Work/Pool/Bounds.antt =====
-- The number of worker threads of a pool, and their identifiers.
use native.Mathlib.Decide.{ℕ_discrete}
use x.Prelude.{
  ℕ, zero, suc, ◌+◌, ◌-◌, ◌*◌, ◌≤◌, ◌<◌, ◌≡◌, ◌≢◌, refl, subst, sym, inl, inr, Bool, true, false,
  none, some, if◌then◌else◌, update, update_ne, eq→==, ne→==, lt→ltb, max, Bool-cases, Option-cases,
  arith,
}
use x.Work.Pool.{Pool, Allocated, compute_max_threads, first_zero, alloc_id, free_id}

-- For at least one processor and at most 2^30, so that no product overflows, the number of threads
-- of a pool is at least that of the processors, at most four times as many, and at most the greater
-- of the number of processors and 512: the assertions of the code hold.
pub compute_max_threads_lem :
    (nr_cpus : ℕ)
    → 0 < nr_cpus
    → nr_cpus < 1073741824
    → (nr_cpus ≤ compute_max_threads nr_cpus)
      × (compute_max_threads nr_cpus ≤ 4 * nr_cpus)
      × (compute_max_threads nr_cpus ≤ max nr_cpus 512)
unfolding compute_max_threads
compute_max_threads_lem nr_cpus pos small = (ground arith, ground arith, ground arith)

-- The number of bits set below `n`.
abbrev pub bits_set : (ℕ → Bool) → ℕ → ℕ
bits_set bitmap zero = 0
bits_set bitmap (suc n) = let rest = bits_set bitmap n in if bitmap n then suc rest else rest

-- A pool counts its threads by the bits of its bitmap.
pub record Counts (p : Pool) : Type 0 where
  pub number : p.nr_threads ≡ bits_set p.bitmap p.max_threads
  pub most : p.nr_threads ≤ p.max_threads

bits_set_same :
    (f g : ℕ → Bool) (n : ℕ) → ((i : ℕ) → i < n → f i ≡ g i) → bits_set f n ≡ bits_set g n
bits_set_same f g zero h = refl
bits_set_same f g (suc n) h = rw (h n (omega arith), bits_set_same f g n (λ i l. h i (omega arith)))

bits_set_one :
    (f : ℕ → Bool) (i n : ℕ)
    → i < n
    → f i ≡ false
    → bits_set (update f i true) n ≡ suc (bits_set f n)
bits_set_one f i zero l e = absurd (omega arith)
bits_set_one f i (suc n) l e = elim (ℕ_discrete i n) [
  | yes same ↦
      let low : bits_set (update f i true) n ≡ bits_set f n =
        bits_set_same (update f i true) f n (λ j k. update_ne f i j true (omega arith)) in
      let before : f n ≡ false = subst (λ x. f x ≡ false) same e in
      rw (eq→== n i (sym same), before, low)
  | no apart ↦
      let rest = bits_set_one f i n (omega arith) e in
      let top : update f i true n ≡ f n = update_ne f i n true apart in
      elim (Bool-cases (f n)) [ inl b ↦ rw (top, b, rest) | inr b ↦ rw (top, b, rest) ]
]

bits_set_clear :
    (f : ℕ → Bool) (i n : ℕ)
    → i < n
    → f i ≡ true
    → suc (bits_set (update f i false) n) ≡ bits_set f n
bits_set_clear f i zero l e = absurd (omega arith)
bits_set_clear f i (suc n) l e = elim (ℕ_discrete i n) [
  | yes same ↦
      let low : bits_set (update f i false) n ≡ bits_set f n =
        bits_set_same (update f i false) f n (λ j k. update_ne f i j false (omega arith)) in
      let before : f n ≡ true = subst (λ x. f x ≡ true) same e in
      rw (eq→== n i (sym same), before, low)
  | no apart ↦
      let rest = bits_set_clear f i n (omega arith) e in
      let top : update f i false n ≡ f n = update_ne f i n false apart in
      elim (Bool-cases (f n)) [ inl b ↦ rw (top, b, rest) | inr b ↦ rw (top, b, rest) ]
]

bits_set_le : (f : ℕ → Bool) (n : ℕ) → bits_set f n ≤ n
bits_set_le f zero = omega arith
bits_set_le f (suc n) = elim (Bool-cases (f n)) [
  | inl b ↦ rw b (omega (arith, bits_set_le f n))
  | inr b ↦ rw b (omega (arith, bits_set_le f n))
]

bits_set_full : (f : ℕ → Bool) (n : ℕ) → ((i : ℕ) → i < n → f i ≡ true) → bits_set f n ≡ n
bits_set_full f zero h = refl
bits_set_full f (suc n) h = rw (h n (omega arith), bits_set_full f n (λ i l. h i (omega arith)))

first_zero-found :
    (f : ℕ → Bool) (n i j : ℕ) → first_zero f n i ≡ some j → (f j ≡ false) × (j < i + n)
first_zero-found f zero i j e = absurd (cc e)
first_zero-found f (suc n) i j e = elim (Bool-cases (f i)) [
  | inl b ↦
      let (p, q) =
        first_zero-found f n (suc i) j
          (subst (λ x. (if x then first_zero f n (suc i) else some i) ≡ some j) b e) in
      (p, omega arith)
  | inr b ↦
      let same : i ≡ j =
        cc (subst (λ x. (if x then first_zero f n (suc i) else some i) ≡ some j) b e) in
      (subst (λ x. f x ≡ false) same b, omega arith)
]

first_zero-full :
    (f : ℕ → Bool) (n i : ℕ) → first_zero f n i ≡ none → (j : ℕ) → i ≤ j → j < i + n → f j ≡ true
first_zero-full f zero i e j l h = absurd (omega arith)
first_zero-full f (suc n) i e j l h = elim (Bool-cases (f i)) [
  | inr b ↦ absurd (cc (subst (λ x. (if x then first_zero f n (suc i) else some i) ≡ none) b e))
  | inl b ↦ elim (ℕ_discrete i j) [
    | yes same ↦ subst (λ x. f x ≡ true) same b
    | no apart ↦
        first_zero-full f n (suc i)
          (subst (λ x. (if x then first_zero f n (suc i) else some i) ≡ none) b e) j (omega arith)
          (omega arith)
  ]
]

-- A pool whose bitmap counts its threads and that may have one more gives out an identifier below
-- its maximum that was free, and counts one thread more.
pub alloc_id_lem :
    (p : Pool)
    → Counts p
    → p.nr_threads < p.max_threads
    → (r : Allocated) × (alloc_id p ≡ some r)
      × (p.bitmap r.id ≡ false)
      × (r.id < p.max_threads)
      × (r.pool ≡ record p { nr_threads = p.nr_threads + 1; bitmap = update p.bitmap r.id true })
      × Counts r.pool
unfolding alloc_id
alloc_id_lem p c room = elim (Option-cases (first_zero p.bitmap p.max_threads 0)) [
  | inl e ↦
      let full : bits_set p.bitmap p.max_threads ≡ p.max_threads =
        bits_set_full p.bitmap p.max_threads
          (λ i l. first_zero-full p.bitmap p.max_threads 0 e i (omega arith) (omega arith)) in
      absurd (omega (arith, full, c.number))
  | inr (i, e) ↦
      let (free, low) = first_zero-found p.bitmap p.max_threads 0 i e in
      let small : i < p.max_threads = omega arith in
      (
        record {
          id = i;
          pool = record p { nr_threads = p.nr_threads + 1; bitmap = update p.bitmap i true };
        },
        simp (alloc_id, lt→ltb p.nr_threads p.max_threads room, e),
        free,
        small,
        refl,
        record {
          number = omega (arith, bits_set_one p.bitmap i p.max_threads small free, c.number);
          most = omega arith;
        },
      )
]

-- Giving an identifier in use back frees it and counts one thread less.
pub free_id_lem :
    (p : Pool) (id : ℕ)
    → Counts p
    → id < p.max_threads
    → p.bitmap id ≡ true
    → (q : Pool) × (free_id p id ≡ some q)
      × (q ≡ record p { nr_threads = p.nr_threads - 1; bitmap = update p.bitmap id false })
      × (q.nr_threads + 1 ≡ p.nr_threads)
      × Counts q
unfolding free_id
free_id_lem p id c small used =
    let step = bits_set_clear p.bitmap id p.max_threads small used in
    let pos : p.nr_threads ≢ 0 = λ z. omega (arith, step, c.number) in
    (
      record p { nr_threads = p.nr_threads - 1; bitmap = update p.bitmap id false },
      simp (free_id, ne→== p.nr_threads 0 pos),
      refl,
      omega (arith, pos),
      record { number = omega (arith, step, c.number); most = omega (arith, c.most) },
    )
