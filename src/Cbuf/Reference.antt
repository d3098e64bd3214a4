-- ===== src/Cbuf/Reference.antt =====
-- `cbuf_write` and `cbuf_push` against a reference that stores one byte after the other.
use native.Mathlib.Decide.{ℕ_discrete}
use x.Prelude.{
  ℕ, ◌%◌, ◌^◌, ◌≤◌, ◌<◌, suc, ◌≡◌, refl, sym, ap, ◌∙◌, List, [], ◌∷◌, length, some, arith, ◌==◌,
  eq→==, ne→==, if◌then◌else◌, set,
}
use x.Prelude.Words.{size_mod, size_add, size_sub}
use x.Errno.{success}
use x.Cbuf.{Cbuf, size, index, update_start, write}
use x.Cbuf.Inv.{IsValid, capacity-le, index-mod}
use x.Cbuf.Fill.{fill, length-fill}
use x.Cbuf.Closed.{written, update_start_lem, Cbuf_path, offset, here, write_lem}

-- One byte at the index `i`: at the end it lengthens the buffer, which then drops the oldest byte if
-- it is too long.
unfoldable pub put : Cbuf → ℕ → ℕ → Cbuf
put c i x =
    let c' : Cbuf = record c { mem = set c.mem (index c i) x } in
    if i == c.end then update_start (record c' { end = size_add c.end 1 }) else c'

unfoldable pub put_all : Cbuf → ℕ → List ℕ → Cbuf
put_all c i [] = c
put_all c i (x ∷ xs) = put_all (put c i x) (size_add i 1) xs

pub put_all-cons :
    (c : Cbuf) (i x : ℕ) (xs : List ℕ)
    → put_all c i (x ∷ xs) ≡ put_all (put c i x) (size_add i 1) xs
unfolding put_all
put_all-cons c i x xs = refl

pub put_end :
    (c : Cbuf) (x : ℕ)
    → put c c.end x
      ≡ update_start (record c { mem = set c.mem (index c c.end) x; end = size_add c.end 1 })
unfolding put
put_end c x = rw (eq→== c.end c.end refl)

pub put_all-nil : (c : Cbuf) (i : ℕ) → put_all c i [] ≡ c
unfolding put_all
put_all-nil c i = refl

pub written-IsValid :
    (c : Cbuf) (k : ℕ) (src : List ℕ)
    → IsValid c
    → k ≤ size c
    → length src < 2 ^ 63
    → IsValid (written c k src)
written-IsValid c k src v h small = record {
  storage = record {
    order = v.storage.order;
    power = v.storage.power;
    small = v.storage.small;
    filled = length-fill c.capacity c.mem (size_add c.start k) src ∙ v.storage.filled;
    not_null = v.storage.not_null;
    in_space = v.storage.in_space;
  };
  start_word = omega arith;
  end_word = omega arith;
  fits = omega (arith, capacity-le c v.storage);
}

pub put-written :
    (c : Cbuf) (i x : ℕ)
    → (v : IsValid c) → (w : i < size_mod) → offset c i ≤ size c
    → put c i x ≡ written c (offset c i) (x ∷ [])
unfolding put
put-written c i x v w h = elim (ℕ_discrete i c.end) [
  | yes e ↦ rw (eq→== _ _ e) (
      update_start_lem c (set c.mem (index c i) x) (size_add c.end 1)
      ∙ Cbuf_path c mem (ground arith) (omega arith))
  | no n ↦ rw (ne→== _ _ n) (Cbuf_path c mem (omega arith) (omega arith))
]
  where
    mem : set c.mem (index c i) x ≡ fill c.capacity c.mem (size_add c.start (offset c i)) (x ∷ [])
    mem =
        ap (λ t. set c.mem t x) (index-mod c v.storage i)
        ∙ ap (λ t. fill c.capacity c.mem t (x ∷ [])) (sym (here c v i w))

written-cons :
    (c : Cbuf) (k x : ℕ) (xs : List ℕ)
    → (v : IsValid c) → k ≤ size c
    → suc (length xs) < 2 ^ 63
    → written
        (written c k (x ∷ []))
        (offset (written c k (x ∷ [])) (size_add (size_add c.start k) 1))
        xs
      ≡ written c k (x ∷ xs)
written-cons c k x xs v h small =
    Cbuf_path c
      (ap (λ t. fill c.capacity (set c.mem (size_add c.start k % c.capacity) x) t xs)
        (omega (arith, capacity-le c v.storage)))
      (omega (arith, capacity-le c v.storage)) (omega (arith, capacity-le c v.storage))

put_all-written :
    (c : Cbuf) (i : ℕ) (src : List ℕ)
    → (v : IsValid c) → (w : i < size_mod) → offset c i ≤ size c
    → 0 < length src
    → length src < 2 ^ 63
    → put_all c i src ≡ written c (offset c i) src
unfolding put_all
put_all-written c i [] v w h pos small = absurd (omega arith)
put_all-written c i (x ∷ []) v w h pos small = put-written c i x v w h
put_all-written c i (x ∷ y ∷ ys) v w h pos small = rw (put-written c i x v w h) (
    put_all-written (written c (offset c i) (x ∷ [])) (size_add i 1) (y ∷ ys)
      (written-IsValid c (offset c i) (x ∷ []) v h (omega arith)) (omega arith)
      (omega (arith, capacity-le c v.storage)) (omega arith) (omega arith)
    ∙ ap
        (λ t.
          written (written c (offset c i) (x ∷ [])) (offset (written c (offset c i) (x ∷ [])) t)
            (y ∷ ys))
        again
    ∙ written-cons c (offset c i) x (y ∷ ys) v h small)
  where
    again : size_add i 1 ≡ size_add (size_add c.start (offset c i)) 1
    again = ap (λ t. size_add t 1) (sym (here c v i w))

-- A write of 1 to 2 ^ 63 - 1 bytes at an index of the buffer succeeds, with the effect of storing its
-- bytes one after the other, and keeps the invariant.
pub write-eq-put_all :
    (c : Cbuf) (i : ℕ) (src : List ℕ)
    → IsValid c
    → i < size_mod
    → size_sub i c.start ≤ size c
    → 0 < length src
    → length src < 2 ^ 63
    → (write c i src (length src) ≡ some (success, put_all c i src)) × IsValid (put_all c i src)
write-eq-put_all c i src v w h pos small =
    let e : put_all c i src ≡ written c (offset c i) src =
      put_all-written c i src v w h pos small in
    (
      write_lem c v i w src h pos small ∙ ap (λ t. some (success, t)) (sym e),
      rw e (written-IsValid c (offset c i) src v h small),
    )
