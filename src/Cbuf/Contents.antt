-- ===== src/Cbuf/Contents.antt =====
-- The bytes that a circular buffer holds, oldest first, and what `cbuf_read` copies out of them.
use native.Mathlib.Nat.{mod-lt}
use native.Mathlib.Decide.{dec_lt}
use x.Prelude.{
  ℕ, zero, suc, ◌+◌, ◌-◌, ◌%◌, ◌≤◌, ◌<◌, ◌≡◌, refl, ap, ap₂, ◌∙◌, List, [], ◌∷◌, ◌++◌, length,
  get_or, take, drop, arith, some, ◌>>=◌, lt→ltb, nlt→ltb,
}
use x.Prelude.Words.{size_add, size_sub}
use x.Cbuf.{Cbuf, slot, size, copy_out, load}
use x.Cbuf.Inv.{
  IsModulus, HasStorage, next_slot, capacity-IsModulus, capacity-le, slot_lem, buf_end_lem,
  wraps_lem,
}

-- the `n` bytes from the absolute index `i` on
abbrev pub window : ℕ → List ℕ → ℕ → ℕ → List ℕ
window cap mem i zero = []
window cap mem i (suc n) = get_or mem (i % cap) 0 ∷ window cap mem (size_add i 1) n

abbrev pub contents : Cbuf → List ℕ
contents c = window c.capacity c.mem c.start (size c)

pub length-window : (cap : ℕ) (mem : List ℕ) (i n : ℕ) → length (window cap mem i n) ≡ n
length-window cap mem i zero = refl
length-window cap mem i (suc n) = ap suc (length-window cap mem (size_add i 1) n)

drop-cons : (p : ℕ) (mem : List ℕ) → p < length mem → drop p mem ≡ get_or mem p 0 ∷ drop (p + 1) mem
drop-cons p [] h = absurd (omega arith)
drop-cons zero (x ∷ mem) h = refl
drop-cons (suc p) (x ∷ mem) h =
    let e : suc (p + 1) ≡ suc p + 1 = omega arith in
    drop-cons p mem (omega arith) ∙ ap (λ t. get_or mem p 0 ∷ drop t (x ∷ mem)) e

module _ {cap : ℕ} (m : IsModulus cap) (mem : List ℕ) (full : length mem ≡ cap) where
  slice-window : (p i n : ℕ) → p ≡ i % cap → p + n ≤ cap → take n (drop p mem) ≡ window cap mem i n
  slice-window p i zero e h = refl
  slice-window p i (suc zero) e h =
      rw (drop-cons p mem (omega arith)) (ap (λ t. get_or mem t 0 ∷ []) e)
  slice-window p i (suc (suc n)) e h = rw (drop-cons p mem (omega arith)) (
      ap₂ ◌∷◌ (ap (λ t. get_or mem t 0) e)
        (slice-window (p + 1) (size_add i 1) (suc n) (ground (arith, next_slot m i)) (omega arith)))

  slices-window :
      (s p i n : ℕ)
      → p ≡ i % cap
      → p + s ≡ cap
      → 0 < s
      → s ≤ n
      → n - s ≤ cap
      → take s (drop p mem) ++ take (n - s) mem ≡ window cap mem i n
  slices-window zero p i n e h pos le small = absurd (omega arith)
  slices-window (suc s) p i zero e h pos le small = absurd (omega arith)
  slices-window (suc zero) p i (suc n) e h pos le small =
      let last : n ≡ suc n - 1 = omega arith in
      rw (drop-cons p mem (omega arith), ← last)
        (ap₂ ◌∷◌ (ap (λ t. get_or mem t 0) e)
          (slice-window 0 (size_add i 1) n (ground (arith, next_slot m i)) (omega arith)))
  slices-window (suc (suc s)) p i (suc n) e h pos le small =
      let less : suc n - suc (suc s) ≡ n - suc s = omega arith in
      rw (drop-cons p mem (omega arith), less)
        (ap₂ ◌∷◌ (ap (λ t. get_or mem t 0) e) (
          slices-window (suc s) (p + 1) (size_add i 1) n (ground (arith, next_slot m i))
            (omega arith) (omega arith) (omega arith) (omega arith)))

copy_out_lem :
    (c : Cbuf) (p n room : ℕ)
    → p + n ≤ length c.mem
    → n ≤ room
    → copy_out c (c.buf + p) n room ≡ some (take n (drop p c.mem))
unfolding copy_out
copy_out_lem c p n room h k = let e : c.buf + p - c.buf ≡ p = omega arith in rw e (ground arith)

copy_out_first :
    (c : Cbuf) (n room : ℕ)
    → n ≤ length c.mem
    → n ≤ room
    → copy_out c c.buf n room ≡ some (take n c.mem)
copy_out_first c n room h k =
    let z : c.buf ≡ c.buf + 0 = omega arith in
    ap (λ t. copy_out c t n room) z ∙ copy_out_lem c 0 n room (omega arith) k

-- The one or two copies of `cbuf_read` give the bytes from the index on.
pub load_lem :
    (c : Cbuf) (i n room : ℕ)
    → HasStorage c
    → 0 < n
    → n ≤ c.capacity
    → n ≤ room
    → load c i n room ≡ some (window c.capacity c.mem i n)
unfolding load
load_lem c i n room v pos le fit = elim (dec_lt c.capacity (i % c.capacity + n)) [
  | yes h ↦
      rw (wraps_lem c i n v pos le, lt→ltb _ _ h, slot_lem c v i, buf_end_lem c v) (two_parts h)
  | no h ↦ rw (wraps_lem c i n v pos le, nlt→ltb _ _ h, slot_lem c v i) (one_part h)
]
  where
    m : IsModulus c.capacity
    m = capacity-IsModulus c v

    p : ℕ
    p = i % c.capacity

    s : ℕ
    s = c.capacity - p

    part : size_sub (c.buf + c.capacity) (c.buf + p) ≡ s
    part = omega (arith, mod-lt i m.positive)

    two_parts :
        c.capacity < p + n
        → (copy_out c (c.buf + p) (size_sub (c.buf + c.capacity) (c.buf + p)) room >>= λ front.
            copy_out c c.buf
              (size_sub n (size_sub (c.buf + c.capacity) (c.buf + p)))
              (room - size_sub (c.buf + c.capacity) (c.buf + p))
            >>= λ back. some (front ++ back))
          ≡ some (window c.capacity c.mem i n)
    two_parts h =
        let rest : size_sub n s ≡ n - s = omega (arith, capacity-le c v) in
        rw
          (
            part,
            rest,
            copy_out_lem c p s room (omega (arith, mod-lt i m.positive)) (omega arith),
            copy_out_first c (n - s) (room - s) (omega arith) (omega arith),
          )
          (ap (λ t. some t)
            (slices-window m c.mem v.filled s p i n refl (omega (arith, mod-lt i m.positive))
              (omega (arith, mod-lt i m.positive)) (omega arith) (omega arith)))

    one_part :
        ¬ (c.capacity < p + n) → copy_out c (c.buf + p) n room ≡ some (window c.capacity c.mem i n)
    one_part h =
        copy_out_lem c p n room (omega arith) fit
        ∙ ap (λ t. some t) (slice-window m c.mem v.filled p i n refl (omega arith))

-- a copy that does not pass the end of the storage
pub copy_out-slot :
    (c : Cbuf) (i n : ℕ)
    → HasStorage c
    → i % c.capacity + n ≤ c.capacity
    → copy_out c (slot c i) n n ≡ some (window c.capacity c.mem i n)
copy_out-slot c i n v h = rw (slot_lem c v i) (
    copy_out_lem c (i % c.capacity) n n (omega (arith, v.filled)) (omega arith)
    ∙ ap (λ t. some t)
        (slice-window (capacity-IsModulus c v) c.mem v.filled (i % c.capacity) i n refl h))
