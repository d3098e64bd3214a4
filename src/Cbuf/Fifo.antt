-- ===== src/Cbuf/Fifo.antt =====
-- The abstract view of a circular buffer: a queue of at most `cap` bytes, oldest first, that refuses
-- what does not fit or, where it may erase, forgets its oldest bytes.
use x.Prelude.{
  ℕ, ◌<◌, ◌≡◌, refl, arith, ◌-◌, Bool, not, ◌&&◌, List, [], ◌∷◌, ◌++◌, ltb, if◌then◌else◌, length,
  take, drop,
}
use x.Errno.{Errno, success, eagain}

abbrev pub keep_last : ℕ → List ℕ → List ℕ
keep_last cap q = drop (length q - cap) q

unfoldable pub push : ℕ → List ℕ → List ℕ → Bool → Errno × List ℕ
push cap q src erase =
    if not erase && ltb (cap - length q) (length src)
    then (eagain, q)
    else (success, keep_last cap (q ++ src))

unfoldable pub pop : List ℕ → ℕ → Errno × List ℕ × List ℕ
pop [] n = (eagain, [], [])
pop (x ∷ q) n = (success, take n (x ∷ q), drop n (x ∷ q))

pub pop_lem : (q : List ℕ) (n : ℕ) → 0 < length q → pop q n ≡ (success, take n q, drop n q)
unfolding pop
pop_lem [] n h = absurd (omega arith)
pop_lem (x ∷ q) n h = refl

pub pop-nil : (q : List ℕ) (n : ℕ) → length q ≡ 0 → pop q n ≡ (eagain, [], q)
unfolding pop
pop-nil [] n h = refl
pop-nil (x ∷ q) n h = absurd (omega arith)
