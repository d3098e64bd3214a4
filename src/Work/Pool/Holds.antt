-- ===== src/Work/Pool/Holds.antt =====
-- The works that a pool holds, in the order in which the pool hands them out.
use x.Prelude.{ℕ, ◌+◌, ◌<◌, ◌≡◌, true, Option, List, [], ◌++◌, Mem, length}
use x.Work.Queue.{uint_mod}
use x.Work.Queue.Chain.{IsQueue, IsQueue-frame}
use x.Work.Pool.{Pool}

abbrev pub Apart : List ℕ → List ℕ → Type 0
Apart xs ys = (u : ℕ) → Mem u xs → ¬ Mem u ys

-- The pool `p` holds `old` in its second queue, which a global pool does not use, and `new` in its first.
pub record Holds (next : ℕ → Option ℕ) (p : Pool) (old new : List ℕ) : Type 0 where
  pub first : IsQueue next p.queue0 new
  pub second : IsQueue next p.queue1 old
  pub apart : Apart old new
  pub room : length old + length new < uint_mod
  pub whole : p.global ≡ true → old ≡ []

-- Abstractly, a pool holds a sequence.
abbrev pub IsPool : (ℕ → Option ℕ) → Pool → List ℕ → Type 0
IsPool next p ws = (old new : List ℕ) × Holds next p old new × (ws ≡ old ++ new)

pub Holds-frame :
    (next next' : ℕ → Option ℕ) (p : Pool) (old new : List ℕ)
    → ((u : ℕ) → Mem u old → next' u ≡ next u)
    → ((u : ℕ) → Mem u new → next' u ≡ next u)
    → Holds next p old new
    → Holds next' p old new
Holds-frame next next' p old new same same' h = record {
  first = IsQueue-frame next next' p.queue0 new same' h.first;
  second = IsQueue-frame next next' p.queue1 old same h.second;
  apart = h.apart;
  room = h.room;
  whole = h.whole;
}
