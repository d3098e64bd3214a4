-- ===== src/Cbuf/Inv.antt =====
-- The representation invariant of `struct cbuf`, and what the pointer and index arithmetic of
-- kern/cbuf.c comes to under it.
use native.Mathlib.Nat.{
  mod-mod_of_dvd, mod-add-mod, mod-lt, mod-eq_of_lt, mod_self, pow-le-pow_right,
}
use Prim.Native.Nat.{◌∣◌}
use native.Mathlib.Decide.{dec_lt}
use x.Prelude.{
  ℕ, ◌+◌, ◌%◌, ◌^◌, ◌≤◌, ◌<◌, ◌≡◌, refl, sym, ◌∙◌, ap, ltb, leb, List, length, arith, if◌then◌else◌,
  ◌==◌, ◌||◌,
}
use x.Prelude.Bits.{bit_and_mask, pow-pos, pow-dvd-pow}
use x.Prelude.Words.{size_mod, size_add}
use x.Cbuf.{Cbuf, size, index, slot, buf_end, wraps, init}

-- The storage of a buffer: a power of two of bytes that do not reach the end of the address space.
pub record IsStorage (buf : ℕ) (mem : List ℕ) (capacity : ℕ) : Type 0 where
  pub order : ℕ
  pub power : capacity ≡ 2 ^ order
  pub small : order ≤ 63
  pub filled : length mem ≡ capacity
  pub not_null : 0 < buf
  pub in_space : buf + capacity < size_mod

abbrev pub HasStorage : Cbuf → Type 0
HasStorage c = IsStorage c.buf c.mem c.capacity

pub record IsValid (c : Cbuf) : Type 0 where
  pub storage : HasStorage c
  pub start_word : c.start < size_mod
  pub end_word : c.end < size_mod
  pub fits : size c ≤ c.capacity

-- A divisor of 2 ^ 64, such as a capacity.
pub record IsModulus (cap : ℕ) : Type 0 where
  pub positive : 0 < cap
  pub divides : cap ∣ size_mod

pub capacity-IsModulus : (c : Cbuf) → HasStorage c → IsModulus c.capacity
capacity-IsModulus c v = record {
  positive = rw v.power (pow-pos v.order);
  divides = rw v.power (pow-dvd-pow v.order 64 (omega (arith, v.small)));
}

pub capacity-le : (c : Cbuf) → HasStorage c → c.capacity ≤ 2 ^ 63
capacity-le c v = rw v.power (omega (arith, pow-le-pow_right {n = 2} (omega arith) v.small))

pub index-mod : (c : Cbuf) → HasStorage c → (i : ℕ) → index c i ≡ i % c.capacity
index-mod c v i = rw v.power (bit_and_mask v.order i)

pub index-lt : (c : Cbuf) → HasStorage c → (i : ℕ) → index c i < c.capacity
index-lt c v i = rw (index-mod c v i) (mod-lt i (capacity-IsModulus c v).positive)

-- The next absolute index has the next slot, or the first one after the last.
pub next_slot :
    {cap : ℕ}
    → IsModulus cap
    → (i : ℕ) → size_add i 1 % cap ≡ (if i % cap + 1 == cap then 0 else i % cap + 1)
next_slot {cap} m i = elim (dec_lt (i % cap + 1) cap) [
  | yes h ↦ ground (arith, reduce, mod-eq_of_lt h)
  | no h ↦ ground (arith, reduce, wrap (omega (arith, mod-lt i m.positive)))
]
  where
    reduce : size_add i 1 % cap ≡ (i % cap + 1) % cap
    reduce = mod-mod_of_dvd cap (i + 1) m.divides ∙ sym (mod-add-mod i cap 1)

    wrap : i % cap + 1 ≡ cap → (i % cap + 1) % cap ≡ 0
    wrap e = rw e (mod_self cap)

-- A slot lies in the storage, at its index.
pub slot_lem : (c : Cbuf) → HasStorage c → (i : ℕ) → slot c i ≡ c.buf + i % c.capacity
slot_lem c v i = omega (
  arith,
  ap (λ t. size_add c.buf t) (index-mod c v i),
  mod-lt i (capacity-IsModulus c v).positive,
)

pub buf_end_lem : (c : Cbuf) → HasStorage c → buf_end c ≡ c.buf + c.capacity
buf_end_lem c v = mod-eq_of_lt v.in_space

passes_end :
    (buf cap p n : ℕ)
    → 0 < buf
    → buf + cap < size_mod
    → cap ≤ 2 ^ 63
    → p < cap
    → 0 < n
    → n ≤ cap
    → (leb (size_add (buf + p) n) buf || ltb (buf + cap) (size_add (buf + p) n)) ≡ ltb cap (p + n)
passes_end buf cap p n hb hs hc hp hn hl = elim (dec_lt cap (p + n)) [
  | yes h ↦ ground arith
  | no h ↦ ground (arith, mod-eq_of_lt {n = buf + p + n} {m = size_mod} (omega arith))
]

-- The pointer test of `cbuf_write` and `cbuf_read` says that a non-empty block of at most `capacity`
-- bytes passes the end of the storage, also where the end pointer itself wraps around.
pub wraps_lem :
    (c : Cbuf) (i n : ℕ)
    → HasStorage c
    → 0 < n
    → n ≤ c.capacity
    → wraps c (size_add (slot c i) n) ≡ ltb c.capacity (i % c.capacity + n)
wraps_lem c i n v pos le =
    rw (slot_lem c v i, buf_end_lem c v)
      (passes_end c.buf c.capacity (i % c.capacity) n v.not_null v.in_space (capacity-le c v)
        (mod-lt i (capacity-IsModulus c v).positive) pos le)

-- `cbuf_init` gives a valid, empty buffer.
pub init-IsValid :
    (buf order : ℕ) (mem : List ℕ)
    → order ≤ 63
    → length mem ≡ 2 ^ order
    → 0 < buf
    → buf + 2 ^ order < size_mod
    → IsValid (init buf mem (2 ^ order)) × (size (init buf mem (2 ^ order)) ≡ 0)
unfolding init
init-IsValid buf order mem small storage not_null space = (
  record {
    storage = record {
      order = order;
      power = refl;
      small = small;
      filled = storage;
      not_null = not_null;
      in_space = space;
    };
    start_word = omega arith;
    end_word = omega arith;
    fits = omega arith;
  },
  refl,
)
