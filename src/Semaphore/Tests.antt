-- ===== src/Semaphore/Tests.antt =====
-- Semaphores with two waiters.
use x.Prelude.{ℕ, ◌+◌, ◌≡◌, ◌≢◌, refl, [], ◌∷◌, update, some, arith}
use x.Semaphore.{
  outside, asleep, signaling, Semaphore, init, go, wait, wait_slow, post, post_slow, waits, tests,
  posts, signals, Steps, stop, then_step,
}
use x.Semaphore.Runs.{returned, posted, Steps-value, lost_wakeup_lem}

abbrev two_asleep : Semaphore
two_asleep = record {
  value = 0;
  queue = 1 ∷ 2 ∷ [];
  stages = update (update (λ t. outside) 1 asleep) 2 asleep;
}

abbrev empty : Semaphore
empty = record { value = 0; queue = []; stages = λ t. outside }

starts_empty : init 0 ≡ some empty
unfolding init
starts_empty = refl

abbrev given : Semaphore
given = go (record (wait_slow (wait empty 2) 2) { value = 1 }) 1 signaling

abbrev ended : Semaphore
ended = wait_slow (post_slow given 1) 2

-- Thread 2 goes to sleep, thread 1 posts and signals, and thread 2 leaves with the unit.
waited : Steps empty ended
unfolding wait wait_slow post post_slow
waited = then_step (waits 2 refl) (
    then_step (tests 2 refl)
      (then_step (posts 1 refl refl) (then_step (signals 1 refl) (then_step (tests 2 refl) stop))))

Steps-value_example : ended.value + returned waited ≡ 0 + posted waited
Steps-value_example = Steps-value empty ended waited

one_returned : returned waited ≡ 1
unfolding waited wait wait_slow post post_slow
one_returned = refl

lost_wakeup_lem_example :
    (s' : Semaphore) × Steps two_asleep s'
    × (s'.value ≡ 1)
    × (s'.queue ≡ 2 ∷ [])
    × (s'.stages 2 ≡ asleep)
    × (s'.stages 3 ≡ outside)
    × (s'.stages 1 ≡ outside)
    × ((u : ℕ) → 3 ≢ u → 1 ≢ u → s'.stages u ≡ two_asleep.stages u)
lost_wakeup_lem_example = lost_wakeup_lem two_asleep 3 1 2 [] refl refl refl refl refl (omega arith)
