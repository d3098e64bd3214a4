-- ===== src/Cbuf/Refine.antt =====
-- `cbuf_push` and `cbuf_pushb` refine the queue of the contents.
use x.Prelude.{
  Bool, not, ◌&&◌, ◌==◌, ltb, Bool-cases, inl, inr, ℕ, zero, suc, ◌+◌, ◌-◌, ◌%◌, ◌^◌, ◌≤◌, ◌<◌, ◌≡◌,
  refl, sym, ap, ap₂, ◌∙◌, List, [], ◌∷◌, ◌++◌, length, length-append, length-drop, get_or, set,
  drop, arith, some,
}
use x.Prelude.Words.{size_add}
use x.Errno.{success}
use x.Cbuf.{Cbuf, size, copy_in, slot, index, avail_size, push, pushb}
use x.Cbuf.Inv.{IsModulus, IsValid, capacity-IsModulus, capacity-le, slot_lem, index-mod}
use x.Cbuf.Closed.{written}
use x.Cbuf.Reference.{
  put-written, put_all, put_all-cons, put_all-nil, put_end, write-eq-put_all, written-IsValid,
}
use x.Cbuf.Contents.{window, contents, length-window}
use x.Cbuf.Window.{get_or-set_self, slot-Ahead, window-set, window-snoc, window-drop}
use native.Mathlib.Nat.{mod-lt}
use mathlib.Core.List.{append_assoc, append-nil}
use x.Cbuf.Write.{copy_in_lem}
use x.Cbuf.Fifo
use x.Cbuf.Fifo.{keep_last}

drop-append : (n : ℕ) (xs ys : List ℕ) → n ≤ length xs → drop n (xs ++ ys) ≡ drop n xs ++ ys
drop-append zero xs ys h = refl
drop-append (suc n) [] ys h = absurd (omega arith)
drop-append (suc n) (x ∷ xs) ys h = drop-append n xs ys (omega arith)

pub length-contents : (c : Cbuf) → length (contents c) ≡ size c
length-contents c = length-window c.capacity c.mem c.start (size c)

-- one byte stored at the end
contents-written :
    (c : Cbuf) (x : ℕ)
    → IsValid c
    → contents (written c (size c) (x ∷ [])) ≡ keep_last c.capacity (contents c ++ (x ∷ []))
contents-written c x v =
    ap₂ (λ t u. window cap mem' t u) begin more
    ∙ window-snoc cap mem' start' n (omega arith)
    ∙ ap₂ (λ t u. t ++ (u ∷ [])) kept stored
    ∙ sym (
        drop-append over (contents c) (x ∷ [])
          (omega (arith, length-contents c, (capacity-IsModulus c v.storage).positive, v.fits)))
    ∙ ap (λ t. drop t (contents c ++ (x ∷ [])))
        (omega (arith, length-append (contents c) (x ∷ []), length-contents c))
  where
    cap : ℕ
    cap = c.capacity

    m : IsModulus cap
    m = capacity-IsModulus c v.storage

    over : ℕ
    over = size c + 1 - cap

    start' : ℕ
    start' = size_add c.start over

    mem' : List ℕ
    mem' = set c.mem (size_add c.start (size c) % cap) x

    n : ℕ
    n = size c - over

    begin : (written c (size c) (x ∷ [])).start ≡ start'
    begin = ap (λ t. size_add c.start (t - cap)) (omega arith)

    more : size (written c (size c) (x ∷ [])) ≡ suc n
    more = omega (arith, capacity-le c v.storage, m.positive)

    at : size_add start' n ≡ size_add c.start (size c)
    at = omega (arith, capacity-le c v.storage, m.positive)

    stored : get_or mem' (size_add start' n % cap) 0 ≡ x
    stored = rw at (
        get_or-set_self c.mem (size_add c.start (size c) % cap) x 0
          (omega (arith, mod-lt (size_add c.start (size c)) m.positive)))

    kept : window cap mem' start' n ≡ drop over (contents c)
    kept =
        rw (← at) (
          window-set m c.mem start' n n (size_add start' n % cap) x
            (slot-Ahead m start' n (omega (arith, m.positive, v.fits))) (omega arith)
            (omega (arith, m.positive, v.fits)) (mod-lt (size_add start' n) m.positive))
        ∙ window-drop cap c.mem c.start over (size c) v.start_word

pub drop-nil : (n : ℕ) → drop {A = ℕ} n [] ≡ []
drop-nil zero = refl
drop-nil (suc n) = refl

drop-drop : (n k : ℕ) (xs : List ℕ) → drop n (drop k xs) ≡ drop (k + n) xs
drop-drop n zero xs = ap (λ t. drop t xs) (omega arith)
drop-drop n (suc k) [] = drop-nil n ∙ sym (drop-nil (suc k + n))
drop-drop n (suc k) (x ∷ xs) =
    let e : suc (k + n) ≡ suc k + n = omega arith in drop-drop n k xs ∙ ap (λ t. drop t (x ∷ xs)) e

-- a queue keeps the same bytes whether its length is cut at once or step by step
keep_last-keep_last :
    (cap : ℕ) (q xs : List ℕ) → keep_last cap (keep_last cap q ++ xs) ≡ keep_last cap (q ++ xs)
keep_last-keep_last cap q xs =
    let k : ℕ = length q - cap in
    rw (← drop-append k q xs (omega arith)) (
      drop-drop (length (drop k (q ++ xs)) - cap) k (q ++ xs)
      ∙ ap (λ t. drop t (q ++ xs)) (omega (arith, length-drop k (q ++ xs), length-append q xs)))

contents-put_all :
    (c : Cbuf) (src : List ℕ)
    → IsValid c
    → length src < 2 ^ 63
    → contents (put_all c c.end src) ≡ keep_last c.capacity (contents c ++ src)
contents-put_all c [] v small =
    let whole : length (contents c) - c.capacity ≡ 0 = omega (arith, length-contents c, v.fits) in
    rw (put_all-nil, append-nil, whole)
contents-put_all c (x ∷ xs) v small =
    let end' : size_add c.end 1 ≡ (written c (size c) (x ∷ [])).end = omega arith in
    ap contents (
      put_all-cons c c.end x xs
      ∙ ap₂ (λ t u. put_all t u xs) (put-written c c.end x v v.end_word (omega arith)) end')
    ∙ contents-put_all (written c (size c) (x ∷ [])) xs
        (written-IsValid c (size c) (x ∷ []) v (omega arith) (omega arith)) (omega arith)
    ∙ ap (λ t. keep_last c.capacity (t ++ xs)) (contents-written c x v)
    ∙ keep_last-keep_last c.capacity (contents c ++ (x ∷ [])) xs
    ∙ ap (keep_last c.capacity) (append_assoc (contents c) (x ∷ []) xs)

room : (c : Cbuf) → IsValid c → avail_size c ≡ c.capacity - length (contents c)
room c v = omega (arith, length-contents c, v.fits, capacity-le c v.storage)

-- `cbuf_push` of 1 to 2 ^ 63 - 1 bytes answers as the queue of the contents does and leaves the
-- buffer valid, holding what that queue holds.
pub push_refines :
    (c : Cbuf) (src : List ℕ) (erase : Bool)
    → IsValid c
    → 0 < length src
    → length src < 2 ^ 63
    → (c' : Cbuf) × (push c src (length src) erase
        ≡ some ((Fifo.push c.capacity (contents c) src erase).0, c'))
      × IsValid c'
      × (contents c' ≡ (Fifo.push c.capacity (contents c) src erase).1)
unfolding push Fifo.push
push_refines c src erase v pos small =
    rw (room c v)
      (elim (Bool-cases (not erase && ltb (c.capacity - length (contents c)) (length src))) [
        | inl t ↦ rw t (c, refl, v, refl)
        | inr t ↦ rw t (
          put_all c c.end src,
          (write-eq-put_all c c.end src v v.end_word (omega arith) pos small).0,
          (write-eq-put_all c c.end src v v.end_word (omega arith) pos small).1,
          contents-put_all c src v small,
        )
      ])

store_byte :
    (c : Cbuf) (x : ℕ)
    → IsValid c
    → copy_in c (slot c c.end) (x ∷ []) 1 ≡ some (record c { mem = set c.mem (index c c.end) x })
store_byte c x v =
    rw (slot_lem c v.storage c.end, index-mod c v.storage c.end)
      (copy_in_lem c (c.end % c.capacity) (x ∷ []) 1
        (omega (arith, mod-lt c.end (capacity-IsModulus c v.storage).positive)) (omega arith))

-- `cbuf_pushb` answers as the queue of the contents does for one byte, and keeps the invariant.
pub pushb_refines :
    (c : Cbuf) (x : ℕ) (erase : Bool)
    → IsValid c
    → (c' : Cbuf) × (pushb c x erase
        ≡ some ((Fifo.push c.capacity (contents c) (x ∷ []) erase).0, c'))
      × IsValid c'
      × (contents c' ≡ (Fifo.push c.capacity (contents c) (x ∷ []) erase).1)
unfolding pushb Fifo.push
pushb_refines c x erase v =
    let same : ltb (avail_size c) 1 ≡ (avail_size c == 0) = ground arith in
    rw (← room c v, same)
      (elim (Bool-cases (not erase && avail_size c == 0)) [
        | inl t ↦ rw t (c, refl, v, refl)
        | inr t ↦ rw t (
          written c (size c) (x ∷ []),
          rw (store_byte c x v) (
              ap (λ d. some (success, d))
                (sym (put_end c x) ∙ put-written c c.end x v v.end_word (omega arith))),
          written-IsValid c (size c) (x ∷ []) v (omega arith) (omega arith),
          contents-written c x v,
        )
      ])
