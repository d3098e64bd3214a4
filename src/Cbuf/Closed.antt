-- ===== src/Cbuf/Closed.antt =====
-- `cbuf_write` in closed form: the storage, `start` and `end` that it leaves.
use native.Mathlib.Decide.{dec_lt, dec_le}
use x.Prelude.{
  ℕ, ◌+◌, ◌-◌, ◌^◌, ◌≤◌, ◌<◌, max, ◌≡◌, refl, ap, ◌∙◌, List, length, some, drop, arith, true, false,
  leb, ltb, lt→ltb, nlt→ltb, le→leb, nle→leb, Bool-cases, inl, inr, sym, length-drop, if◌then◌else◌,
}
use x.Prelude.Words.{size_mod, size_add, size_sub}
use x.Errno.{success}
use x.Cbuf.{Cbuf, size, range_valid, update_start, trim, store, finish, write}
use x.Cbuf.Inv.{IsValid, capacity-IsModulus, capacity-le}
use x.Cbuf.Fill.{fill, fill_skip}
use x.Cbuf.Write.{store_lem}

-- How far the content reaches from the old start when `n` bytes are written `k` bytes after it.
abbrev pub reach : Cbuf → ℕ → ℕ → ℕ
reach c k n = max (size c) (k + n)

abbrev pub written : Cbuf → ℕ → List ℕ → Cbuf
written c k src = record c {
  mem = fill c.capacity c.mem (size_add c.start k) src;
  start = size_add c.start (reach c k (length src) - c.capacity);
  end = size_add c.start (reach c k (length src));
}

-- where `start` is after the update
abbrev pub start_after : Cbuf → ℕ → ℕ
start_after c e = if ltb c.capacity (size_sub e c.start) then size_sub e c.capacity else c.start

pub update_start_lem :
    (c : Cbuf) (m : List ℕ) (e : ℕ)
    → update_start (record c { mem = m; end = e })
      ≡ record c { mem = m; start = start_after c e; end = e }
unfolding update_start
update_start_lem c m e = elim (Bool-cases (ltb c.capacity (size_sub e c.start))) [
  | inl t ↦ rw t
  | inr t ↦ rw t
]

pub Cbuf_path :
    (c : Cbuf) {m m' : List ℕ} {s s' e e' : ℕ}
    → m ≡ m'
    → s ≡ s'
    → e ≡ e'
    → ◌≡◌ {A = Cbuf}
        (record c { mem = m; start = s; end = e })
        (record c { mem = m'; start = s'; end = e' })
Cbuf_path c p q r = λ i. record c { mem = p i; start = q i; end = r i }

-- the distance of an absolute index from the start
abbrev pub offset : Cbuf → ℕ → ℕ
offset c i = size_sub i c.start

module _ (c : Cbuf) (v : IsValid c) (i : ℕ) (word : i < size_mod) where
  pub valid_end : offset c i ≤ size c → range_valid c i c.end ≡ true
  unfolding range_valid
  valid_end h = ground arith

  -- an index outside the buffer is refused
  pub invalid : size c < offset c i → range_valid c i c.end ≡ false
  unfolding range_valid
  invalid h = ground arith

  pub valid_start :
      (n : ℕ)
      → offset c i ≤ size c
      → n < 2 ^ 63
      → range_valid c c.start (size_add i n) ≡ leb (offset c i + n) (size c)
  unfolding range_valid
  valid_start n h k = elim (dec_le (offset c i + n) (size c)) [
    | yes p ↦ ground (arith, capacity-le c v.storage)
    | no p ↦ ground (arith, capacity-le c v.storage)
  ]

  pub here : size_add c.start (offset c i) ≡ i
  here = omega (arith, v.start_word)

  settle :
      (m : List ℕ) (e : ℕ) (src : List ℕ)
      → m ≡ fill c.capacity c.mem i src
      → e ≡ size_add c.start (reach c (offset c i) (length src))
      → reach c (offset c i) (length src) < size_mod
      → finish (some (record c { mem = m; end = e })) ≡ some (success, written c (offset c i) src)
  unfolding finish
  settle m e src hm he small =
      ap (λ d. some (success, d))
        (update_start_lem c m e
          ∙ Cbuf_path c (hm ∙ ap (λ t. fill c.capacity c.mem t src) (sym here)) begin he)
    where
      begin : start_after c e ≡ size_add c.start (reach c (offset c i) (length src) - c.capacity)
      begin = ground (arith, capacity-le c v.storage)

  inside :
      (src : List ℕ)
      → offset c i + length src ≤ size c
      → 0 < length src
      → finish (store c (record { at = i; src = src; count = length src }))
        ≡ some (success, written c (offset c i) src)
  inside src h pos =
      rw
        (store_lem c (record { at = i; src = src; count = length src }) v.storage pos
          (omega (arith, v.fits)) refl)
        (settle (fill c.capacity c.mem i src) c.end src refl (omega arith) (omega arith))

  module _ (src : List ℕ) (h : offset c i ≤ size c) (over : size c < offset c i + length src)
      (small : length src < 2 ^ 63) where
    direct :
        length src ≤ c.capacity
        → finish (
            store
              (record c { end = size_add i (length src) })
              (record { at = i; src = src; count = length src }))
          ≡ some (success, written c (offset c i) src)
    direct le =
        rw
          (store_lem (record c { end = size_add i (length src) })
            (record { at = i; src = src; count = length src }) v.storage (omega arith) le refl)
          (settle (fill c.capacity c.mem i src) (size_add i (length src)) src refl (omega arith)
            (omega (arith, capacity-le c v.storage)))

    skipped :
        (s : ℕ)
        → s + c.capacity ≡ length src
        → finish (
            store
              (record c { end = size_add i (length src) })
              (record { at = size_add i s; src = drop s src; count = c.capacity }))
          ≡ some (success, written c (offset c i) src)
    skipped s e =
        rw
          (store_lem (record c { end = size_add i (length src) })
            (record { at = size_add i s; src = drop s src; count = c.capacity }) v.storage
            (capacity-IsModulus c v.storage).positive (omega arith)
            (omega (arith, length-drop s src)))
          (settle (fill c.capacity c.mem (size_add i s) (drop s src)) (size_add i (length src)) src
            (sym (fill_skip (capacity-IsModulus c v.storage) c.mem i s src word (omega arith)))
            (omega arith) (omega (arith, capacity-le c v.storage)))

    outside :
        finish (
          store
            (record c { end = size_add i (length src) })
            (trim c (record { at = i; src = src; count = length src })))
        ≡ some (success, written c (offset c i) src)
    unfolding trim
    outside = elim (dec_lt c.capacity (length src)) [
      | yes p ↦ rw (lt→ltb _ _ p) (skipped (size_sub (length src) c.capacity) (omega arith))
      | no p ↦ rw (nlt→ltb _ _ p) (direct (omega arith))
    ]

  pub write_lem :
      (src : List ℕ)
      → offset c i ≤ size c
      → 0 < length src
      → length src < 2 ^ 63
      → write c i src (length src) ≡ some (success, written c (offset c i) src)
  unfolding write
  write_lem src h pos small = elim (dec_le (offset c i + length src) (size c)) [
    | yes p ↦ rw (valid_end h, valid_start (length src) h small, le→leb _ _ p) (inside src p pos)
    | no p ↦
        rw (valid_end h, valid_start (length src) h small, nle→leb _ _ p)
          (outside src h (omega arith) small)
  ]
