-- ===== src/Semaphore/Runs.antt =====
-- What holds of a semaphore after any steps of its threads, and a run that leaves a waiter asleep.
use x.Prelude.{
  ℕ, ◌+◌, ◌≡◌, ◌≢◌, refl, sym, ap, subst, ◌∙◌, inl, inr, true, none, some, List, [], ◌∷◌, ◌==◌,
  if◌then◌else◌, update, update_self, update_ne, eq→==, ne→==, Bool-cases, arith,
}
use x.Errno.{Errno, success}
use x.Semaphore.{
  Stage, outside, testing, asleep, signaling, Semaphore, value_max, go, take, wait, wait_slow, post,
  post_slow, try_wait, Step, waits, tries, tests, posts, signals, Steps, stop, then_step,
}

-- One if the thread is outside.
abbrev pub out_once : Stage → ℕ
out_once outside = 1
out_once testing = 0
out_once asleep = 0
out_once signaling = 0

-- One if the operation succeeded.
abbrev pub done_once : Errno → ℕ
done_once success = 1
done_once e = 0

-- The waits that returned in a run: the steps of a wait that leave their thread outside, and the tries
-- that succeed.
abbrev pub returned : {s s' : Semaphore} → Steps s s' → ℕ
returned stop = 0
returned (then_step {s = s} (waits t e) rest) = out_once ((wait s t).stages t) + returned rest
returned (then_step {s = s} (tries t e) rest) = done_once ((try_wait s).0) + returned rest
returned (then_step {s = s} (tests t e) rest) = out_once ((wait_slow s t).stages t) + returned rest
returned (then_step (posts t e p) rest) = returned rest
returned (then_step (signals t e) rest) = returned rest

-- The posts of a run.
abbrev pub posted : {s s' : Semaphore} → Steps s s' → ℕ
posted stop = 0
posted (then_step (waits t e) rest) = posted rest
posted (then_step (tries t e) rest) = posted rest
posted (then_step (tests t e) rest) = posted rest
posted (then_step (posts t e p) rest) = 1 + posted rest
posted (then_step (signals t e) rest) = posted rest

wait-value : (s : Semaphore) (t : ℕ) → (wait s t).value + out_once ((wait s t).stages t) ≡ s.value
unfolding wait
wait-value s t = elim (Bool-cases (s.value == 0)) [
  | inl e ↦ rw (e, update_self s.stages t testing) (omega arith)
  | inr e ↦
      let pos : s.value ≢ 0 = λ z. cc (e, eq→== s.value 0 z) in
      rw (e, update_self s.stages t outside) (omega (arith, pos))
]

try_wait-value : (s : Semaphore) → ((try_wait s).1).value + done_once ((try_wait s).0) ≡ s.value
unfolding try_wait
try_wait-value s = elim (Bool-cases (s.value == 0)) [
  | inl e ↦ rw e (omega arith)
  | inr e ↦ let pos : s.value ≢ 0 = λ z. cc (e, eq→== s.value 0 z) in rw e (omega (arith, pos))
]

wait_slow-value :
    (s : Semaphore) (t : ℕ) → (wait_slow s t).value + out_once ((wait_slow s t).stages t) ≡ s.value
unfolding wait_slow
wait_slow-value s t = elim (Bool-cases (s.value == 0)) [
  | inl e ↦ rw (e, update_self s.stages t asleep) (omega arith)
  | inr e ↦
      let pos : s.value ≢ 0 = λ z. cc (e, eq→== s.value 0 z) in
      rw (e, update_self s.stages t outside) (omega (arith, pos))
]

post-given :
    (s : Semaphore) (t : ℕ)
    → s.value ≢ value_max
    → post s t
      ≡ some (go (record s { value = s.value + 1 }) t (if s.value == 0 then signaling else outside))
unfolding post
post-given s t n = rw (ne→== s.value value_max n)

post-full : (s : Semaphore) (t : ℕ) → (s.value == value_max) ≡ true → post s t ≡ none
unfolding post
post-full s t e = rw e

post-value : (s s' : Semaphore) (t : ℕ) → post s t ≡ some s' → s'.value ≡ s.value + 1
post-value s s' t e = elim (Bool-cases (s.value == value_max)) [
  | inl b ↦ absurd (cc (sym (post-full s t b) ∙ e))
  | inr b ↦
      let given : Semaphore =
        go (record s { value = s.value + 1 }) t (if s.value == 0 then signaling else outside) in
      let same : some given ≡ some s' =
        sym (post-given s t (λ z. cc (b, eq→== s.value value_max z))) ∙ e in
      let same' : given ≡ s' = cc same in subst (λ x. x.value ≡ s.value + 1) same' refl
]

post_slow-value : (s : Semaphore) (t : ℕ) → (post_slow s t).value ≡ s.value
unfolding post_slow
post_slow-value s t = cases s.queue refl
  where
    cases : (q : List ℕ) → s.queue ≡ q → (post_slow s t).value ≡ s.value
    cases [] e = rw (e, post_slow)
    cases (u ∷ us) e = rw (e, post_slow)

-- Whatever steps threads take, in any order, no unit is lost or made up: the value after a run and the
-- number of waits that returned and of tries that succeeded in it are together the value before the
-- run and the number of posts in it.
pub Steps-value :
    (s s' : Semaphore) (run : Steps s s') → s'.value + returned run ≡ s.value + posted run
Steps-value s s' stop = refl
Steps-value s s' (then_step (waits t e) rest) =
    omega (arith, wait-value s t, Steps-value (wait s t) s' rest)
Steps-value s s' (then_step (tries t e) rest) =
    omega (arith, try_wait-value s, Steps-value ((try_wait s).1) s' rest)
Steps-value s s' (then_step (tests t e) rest) =
    omega (arith, wait_slow-value s t, Steps-value (wait_slow s t) s' rest)
Steps-value s s' (then_step {s' = m} (posts t e p) rest) =
    omega (arith, post-value s m t p, Steps-value m s' rest)
Steps-value s s' (then_step (signals t e) rest) =
    omega (arith, post_slow-value s t, Steps-value (post_slow s t) s' rest)

post_slow-wakes :
    (s : Semaphore) (t u : ℕ) (us : List ℕ)
    → s.queue ≡ u ∷ us
    → post_slow s t ≡ record (go (go s t outside) u testing) { queue = us }
unfolding post_slow
post_slow-wakes s t u us e = simp (e, post_slow)

wait_slow-takes : (s : Semaphore) (t : ℕ) → s.value ≢ 0 → wait_slow s t ≡ go (take s) t outside
unfolding wait_slow
wait_slow-takes s t n = rw (ne→== s.value 0 n)

-- From a state in which two threads or more are asleep and the value is zero, two posts by one thread,
-- with the first waiter woken up by the first post but not yet run, lead to a state in which the
-- value is one, the second waiter is still asleep in the queue, the poster and the first waiter are
-- outside, and no other thread has moved: the second post signals nobody.
pub lost_wakeup_lem :
    (s : Semaphore) (p a b : ℕ) (rest : List ℕ)
    → s.value ≡ 0
    → s.queue ≡ a ∷ b ∷ rest
    → s.stages p ≡ outside
    → s.stages a ≡ asleep
    → s.stages b ≡ asleep
    → a ≢ b
    → (s' : Semaphore) × Steps s s'
      × (s'.value ≡ 1)
      × (s'.queue ≡ b ∷ rest)
      × (s'.stages b ≡ asleep)
      × (s'.stages p ≡ outside)
      × (s'.stages a ≡ outside)
      × ((u : ℕ) → p ≢ u → a ≢ u → s'.stages u ≡ s.stages u)
lost_wakeup_lem s p a b rest zero_value waiters out asleep_a asleep_b apart =
    let pa : p ≢ a = λ e. cc (out, asleep_a, ap (λ x. s.stages x) e) in
    let pb : p ≢ b = λ e. cc (out, asleep_b, ap (λ x. s.stages x) e) in
    let s₁ : Semaphore =
      go (record s { value = s.value + 1 }) p (if s.value == 0 then signaling else outside) in
    let at₁ : s₁.stages p ≡ signaling =
      update_self s.stages p (if s.value == 0 then signaling else outside)
      ∙ rw (eq→== s.value 0 zero_value) in
    let s₂ : Semaphore = record (go (go s₁ p outside) a testing) { queue = b ∷ rest } in
    let p₂ : s₂.stages p ≡ outside =
      update_ne (update s₁.stages p outside) a p testing (λ e. pa (sym e))
      ∙ update_self s₁.stages p outside in
    let s₃ : Semaphore =
      go (record s₂ { value = s₂.value + 1 }) p (if s₂.value == 0 then signaling else outside) in
    let a₃ : s₃.stages a ≡ testing =
      update_ne s₂.stages p a (if s₂.value == 0 then signaling else outside) pa
      ∙ update_self (update s₁.stages p outside) a testing in
    let p₃ : s₃.stages p ≡ outside =
      update_self s₂.stages p (if s₂.value == 0 then signaling else outside)
      ∙ rw (ne→== s₂.value 0 (omega (arith, zero_value))) in
    let s₄ : Semaphore = go (take s₃) a outside in
    let moves : Steps s s₄ = then_step (posts p out (post-given s p (omega (arith, zero_value)))) (
      then_step (subst (λ x. Step s₁ x) (post_slow-wakes s₁ p a (b ∷ rest) waiters) (signals p at₁))
        (then_step (posts p p₂ (post-given s₂ p (omega (arith, zero_value)))) (
          then_step
            (subst (λ x. Step s₃ x) (wait_slow-takes s₃ a (omega (arith, zero_value))) (tests a a₃))
            stop))) in
    let others : (u : ℕ) → p ≢ u → a ≢ u → s₄.stages u ≡ s.stages u = λ u n m.
      update_ne s₃.stages a u outside m
      ∙ update_ne s₂.stages p u (if s₂.value == 0 then signaling else outside) n
      ∙ update_ne (update s₁.stages p outside) a u testing m
      ∙ update_ne s₁.stages p u outside n
      ∙ update_ne s.stages p u (if s.value == 0 then signaling else outside) n in
    (
      s₄,
      moves,
      omega (arith, zero_value),
      refl,
      others b pb apart ∙ asleep_b,
      update_ne s₃.stages a p outside (λ e. pa (sym e)) ∙ p₃,
      update_self s₃.stages a outside,
      others,
    )
