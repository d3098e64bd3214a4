-- ===== src/Cbuf/Write.antt =====
-- `cbuf_write`: where it stores, how it moves `start` and `end`, and when it faults.
use native.Mathlib.Nat.{mod-lt}
use native.Mathlib.Decide.{dec_lt}
use x.Prelude.{
  ℕ, zero, suc, ◌+◌, ◌-◌, ◌%◌, ◌≤◌, ◌<◌, ◌≡◌, refl, ap, ◌∙◌, List, [], ◌∷◌, length, length-drop,
  length-set, set, ◌>>=◌, lt→ltb, nlt→ltb, some, take, drop, arith,
}
use x.Prelude.Words.{size_sub}
use x.Cbuf.{Cbuf, Job, poke, copy_in, store}
use x.Cbuf.Inv.{
  IsModulus, HasStorage, capacity-IsModulus, capacity-le, slot_lem, buf_end_lem, wraps_lem,
}
use x.Cbuf.Fill.{fill, poke-fill, poke-poke-fill}

pub copy_in_lem :
    (c : Cbuf) (p : ℕ) (src : List ℕ) (n : ℕ)
    → p + n ≤ length c.mem
    → n ≤ length src
    → copy_in c (c.buf + p) src n ≡ some (record c { mem = poke c.mem p (take n src) })
unfolding copy_in
copy_in_lem c p src n h k = let e : c.buf + p - c.buf ≡ p = omega arith in rw e (ground arith)

take_all : (n : ℕ) (xs : List ℕ) → n ≡ length xs → take n xs ≡ xs
take_all zero [] h = refl
take_all zero (x ∷ xs) h = absurd (omega arith)
take_all (suc n) [] h = absurd (omega arith)
take_all (suc n) (x ∷ xs) h = ap (λ t. x ∷ t) (take_all n xs (omega arith))

length-poke : (mem : List ℕ) (p : ℕ) (xs : List ℕ) → length (poke mem p xs) ≡ length mem
length-poke mem p [] = refl
length-poke mem p (x ∷ xs) = length-poke (set mem p x) (p + 1) xs ∙ length-set mem p x

copy_in_first :
    (c : Cbuf) (src : List ℕ) (n : ℕ)
    → n ≤ length c.mem
    → n ≡ length src
    → copy_in c c.buf src n ≡ some (record c { mem = poke c.mem 0 src })
copy_in_first c src n h e =
    let z : c.buf ≡ c.buf + 0 = omega arith in
    ap (λ t. copy_in c t src n) z
    ∙ copy_in_lem c 0 src n (omega arith) (omega arith)
    ∙ ap (λ t. some (record c { mem = poke c.mem 0 t })) (take_all n src e)

copy_in_twice :
    (c : Cbuf) (p s r : ℕ) (src : List ℕ)
    → p + s ≤ length c.mem
    → s + r ≡ length src
    → r ≤ length c.mem
    → (copy_in c (c.buf + p) src s >>= λ c'. copy_in c' c.buf (drop s src) r)
      ≡ some (record c { mem = poke (poke c.mem p (take s src)) 0 (drop s src) })
copy_in_twice c p s r src h e k = rw (copy_in_lem c p src s h (omega arith)) (
    copy_in_first (record c { mem = poke c.mem p (take s src) }) (drop s src) r
      (omega (arith, length-poke c.mem p (take s src))) (omega (arith, length-drop s src)))

pub store_lem :
    (c : Cbuf) (j : Job)
    → HasStorage c
    → 0 < j.count
    → j.count ≤ c.capacity
    → j.count ≡ length j.src
    → store c j ≡ some (record c { mem = fill c.capacity c.mem j.at j.src })
unfolding store
store_lem c j v pos le len = elim (dec_lt c.capacity (j.at % c.capacity + j.count)) [
  | yes h ↦
      rw (wraps_lem c j.at j.count v pos le, lt→ltb _ _ h, slot_lem c v j.at, buf_end_lem c v)
        (two_parts h)
  | no h ↦ rw (wraps_lem c j.at j.count v pos le, nlt→ltb _ _ h, slot_lem c v j.at) (one_part h)
]
  where
    m : IsModulus c.capacity
    m = capacity-IsModulus c v

    p : ℕ
    p = j.at % c.capacity

    in_range : p < c.capacity
    in_range = mod-lt j.at m.positive

    s : ℕ
    s = size_sub (c.buf + c.capacity) (c.buf + p)

    whole : p + s ≡ c.capacity
    whole = omega (arith, in_range)

    two_parts :
        c.capacity < p + j.count
        → (copy_in c (c.buf + p) j.src s >>= λ c'.
            copy_in c' c.buf (drop s j.src) (size_sub j.count s))
          ≡ some (record c { mem = fill c.capacity c.mem j.at j.src })
    two_parts h =
        copy_in_twice c p s (size_sub j.count s) j.src (omega (arith, whole, capacity-le c v))
          (omega (arith, whole, capacity-le c v)) (omega (arith, whole, capacity-le c v))
        ∙ ap (λ t. some (record c { mem = t }))
            (poke-poke-fill m c.mem s p j.at j.src refl whole (omega (arith, whole, in_range))
              (omega (arith, whole)) (omega arith))

    one_part :
        ¬ (c.capacity < p + j.count)
        → copy_in c (c.buf + p) j.src j.count
          ≡ some (record c { mem = fill c.capacity c.mem j.at j.src })
    one_part h =
        copy_in_lem c p j.src j.count (omega arith) (omega arith)
        ∙ ap (λ t. some (record c { mem = t }))
            (ap (poke c.mem p) (take_all j.count j.src len)
              ∙ poke-fill m c.mem p j.at j.src refl (omega arith))
