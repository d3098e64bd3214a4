-- ===== src/Cbuf/Pop.antt =====
-- `cbuf_read`, `cbuf_pop`, `cbuf_popb` and `cbuf_clear` on the queue of the contents.
use native.Mathlib.Nat.{mod-lt}
use native.Mathlib.Decide.{ℕ_discrete}
use x.Prelude.{
  ℕ, zero, suc, ◌-◌, ◌≤◌, ◌<◌, min, ◌≡◌, refl, sym, ap, ◌∙◌, List, [], ◌∷◌, length, take, drop,
  arith, some, ◌==◌, if◌then◌else◌, eq→==, ne→==, ◌>>=◌, true,
}
use x.Prelude.Words.{size_mod, size_add, size_sub}
use x.Errno.{Errno, success, einval}
use x.Cbuf.{Cbuf, size, slot, copy_out, clear, range_valid, read, pop, popb, consume}
use x.Cbuf.Inv.{IsValid, capacity-IsModulus, capacity-le}
use x.Cbuf.Contents.{window, contents, load_lem, copy_out-slot}
use x.Cbuf.Window.{window-drop, window-take}
use x.Cbuf.Refine.{length-contents, drop-nil}
use x.Cbuf.Fifo
use x.Cbuf.Fifo.{pop_lem, pop-nil}

drop-min : (n : ℕ) (xs : List ℕ) → drop (min n (length xs)) xs ≡ drop n xs
drop-min n [] = drop-nil (min n 0) ∙ sym (drop-nil n)
drop-min zero (x ∷ xs) =
    let e : min 0 (suc (length xs)) ≡ 0 = omega arith in ap (λ t. drop t (x ∷ xs)) e
drop-min (suc n) (x ∷ xs) =
    let e : min (suc n) (suc (length xs)) ≡ suc (min n (length xs)) = omega arith in
    ap (λ t. drop t (x ∷ xs)) e ∙ drop-min n xs

-- the state after the `n` oldest bytes are dropped
abbrev advance : Cbuf → ℕ → Cbuf
advance c n = record c { start = size_add c.start n }

advance-IsValid : (c : Cbuf) (n : ℕ) → IsValid c → n ≤ size c → IsValid (advance c n)
advance-IsValid c n v h = record {
  storage = v.storage;
  start_word = omega arith;
  end_word = v.end_word;
  fits = omega (arith, v.fits, v.start_word, v.end_word);
}

contents-advance :
    (c : Cbuf) (n : ℕ) → IsValid c → n ≤ size c → contents (advance c n) ≡ drop n (contents c)
contents-advance c n v h =
    let left : size (advance c n) ≡ size c - n = omega (arith, v.start_word, v.end_word) in
    ap (λ t. window c.capacity c.mem (size_add c.start n) t) left
    ∙ window-drop c.capacity c.mem c.start n (size c) v.start_word

-- `cbuf_popb` takes the oldest byte, or answers EAGAIN when there is none.
pub popb_refines :
    (c : Cbuf)
    → IsValid c
    → (c' : Cbuf) × (popb c ≡ some ((Fifo.pop (contents c) 1).0, (Fifo.pop (contents c) 1).1, c'))
      × IsValid c'
      × (contents c' ≡ (Fifo.pop (contents c) 1).2)
unfolding popb
popb_refines c v = elim (ℕ_discrete (size c) 0) [
  | yes e ↦ rw (eq→== _ _ e, pop-nil (contents c) 1 (length-contents c ∙ e)) (c, refl, v, refl)
  | no n ↦
      rw (ne→== _ _ n, pop_lem (contents c) 1 (omega (arith, length-contents c)))
        (
          advance c 1,
          first n,
          advance-IsValid c 1 v (omega arith),
          contents-advance c 1 v (omega arith),
        )
]
  where
    first :
        ¬ (size c ≡ 0)
        → ◌>>=◌ {B = Errno × List ℕ × Cbuf}
            (copy_out c (slot c c.start) 1 1)
            (λ out. some (success, out, advance c 1))
          ≡ some (success, take 1 (contents c), advance c 1)
    first n =
        let one : min 1 (size c) ≡ 1 = omega arith in
        rw
          (copy_out-slot c c.start 1 v.storage
            (omega (arith, mod-lt c.start (capacity-IsModulus c v.storage).positive)))
          (ap (λ t. some (success, t, advance c 1))
            (ap (λ t. window c.capacity c.mem c.start t) (sym one)
              ∙ window-take c.capacity c.mem c.start 1 (size c)))

-- `cbuf_read` at an index of the buffer, other than its end, and with room in the output for at least
-- one byte copies out the bytes from there on, as many as there are and as fit.
pub read_lem :
    (c : Cbuf) (i sizep : ℕ)
    → IsValid c
    → i < size_mod
    → size_sub i c.start < size c
    → 0 < sizep
    → read c i sizep
      ≡ some (
        success,
        min sizep (size c - size_sub i c.start),
        take sizep (drop (size_sub i c.start) (contents c)),
      )
unfolding read range_valid
read_lem c i sizep v w h pos =
    let ahead : size_sub c.end i ≡ size c - size_sub i c.start =
      omega (arith, v.start_word, v.end_word) in
    rw
      (
        in_range,
        ahead,
        load_lem c i (min sizep (size c - size_sub i c.start)) sizep v.storage (omega arith)
            (omega (arith, v.fits)) (omega arith),
      )
      (ap (λ t. some (success, min sizep (size c - size_sub i c.start), t))
        (window-take c.capacity c.mem i sizep (size c - size_sub i c.start)
          ∙ ap (take sizep) (
              ap (λ t. window c.capacity c.mem t (size c - size_sub i c.start)) here
              ∙ window-drop c.capacity c.mem c.start (size_sub i c.start) (size c) v.start_word)))
  where
    here : i ≡ size_add c.start (size_sub i c.start)
    here = omega (arith, v.start_word)

    in_range : range_valid c i (size_add i 1) ≡ true
    in_range = ground (arith, capacity-le c v.storage)

-- An index outside the buffer, or at its end, is refused with EINVAL and nothing is copied.
pub read_invalid :
    (c : Cbuf) (i sizep : ℕ)
    → IsValid c
    → i < size_mod
    → size c ≤ size_sub i c.start
    → read c i sizep ≡ some (einval, sizep, [])
unfolding read range_valid
read_invalid c i sizep v w h = ground (arith, capacity-le c v.storage)

-- what `cbuf_pop` leaves in `*sizep`
abbrev pub popped : Cbuf → ℕ → ℕ
popped c sizep = if size c == 0 then sizep else min sizep (size c)

-- `cbuf_pop` with room for at least one byte answers as the queue of the contents does, reports how
-- many bytes it took, and keeps the invariant.
pub pop_refines :
    (c : Cbuf) (sizep : ℕ)
    → IsValid c
    → 0 < sizep
    → (c' : Cbuf) × (pop c sizep
        ≡ some
            ((Fifo.pop (contents c) sizep).0, popped c sizep, (Fifo.pop (contents c) sizep).1, c'))
      × IsValid c'
      × (contents c' ≡ (Fifo.pop (contents c) sizep).2)
unfolding pop consume
pop_refines c sizep v pos = elim (ℕ_discrete (size c) 0) [
  | yes e ↦ rw (eq→== _ _ e, pop-nil (contents c) sizep (length-contents c ∙ e)) (c, refl, v, refl)
  | no n ↦
      rw (ne→== _ _ n, pop_lem (contents c) sizep (omega (arith, length-contents c)))
        (
          advance c (min sizep (size c)),
          taken n,
          advance-IsValid c (min sizep (size c)) v (omega arith),
          left,
        )
]
  where
    taken :
        ¬ (size c ≡ 0)
        → (read c c.start sizep >>= consume c)
          ≡ some
              (success, min sizep (size c), take sizep (contents c), advance c (min sizep (size c)))
    taken n =
        let z : size_sub c.start c.start ≡ 0 = omega (arith, v.start_word) in
        let all : min sizep (size c - 0) ≡ min sizep (size c) = omega arith in
        rw (read_lem c c.start sizep v v.start_word (omega (arith, z)) pos, z)
          (ap (λ t. some (success, t, take sizep (contents c), advance c t)) all)

    left : contents (advance c (min sizep (size c))) ≡ drop sizep (contents c)
    left =
        contents-advance c (min sizep (size c)) v (omega arith)
        ∙ ap (λ t. drop (min sizep t) (contents c)) (sym (length-contents c))
        ∙ drop-min sizep (contents c)

-- `cbuf_clear` leaves a valid buffer with no byte.
pub clear-IsValid : (c : Cbuf) → IsValid c → IsValid (clear c) × (contents (clear c) ≡ [])
unfolding clear
clear-IsValid c v =
    let none_left : size (clear c) ≡ 0 = omega (arith, v.end_word) in
    (
      record {
        storage = v.storage;
        start_word = v.end_word;
        end_word = v.end_word;
        fits = omega (arith, none_left);
      },
      ap (λ t. window c.capacity c.mem c.end t) none_left,
    )
