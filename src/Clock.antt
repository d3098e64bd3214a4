-- ===== src/Clock.antt =====
-- kern/clock.h: times are 64-bit counts of ticks that wrap around, compared by their difference.
use x.Prelude.{ℕ, ◌-◌, ◌^◌, Bool, ◌||◌, ltb, ◌==◌}
use x.Prelude.Words.{size_mod, size_sub}

-- `CLOCK_EXPIRE_THRESHOLD`, `-(1ULL << 60)`
abbrev pub expire_threshold : ℕ
expire_threshold = size_mod - 2 ^ 60

abbrev pub time_expired : ℕ → ℕ → Bool
time_expired t ref = ltb expire_threshold (size_sub t ref)

abbrev pub time_occurred : ℕ → ℕ → Bool
time_occurred t ref = t == ref || time_expired t ref
