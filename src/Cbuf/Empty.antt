-- ===== src/Cbuf/Empty.antt =====
-- `cbuf_write` and `cbuf_read` of no byte at all. At the first slot of the storage the pointer test
-- takes the empty block for one that wraps around.
use x.Prelude.{ℕ, min, ◌+◌, ◌%◌, ◌≤◌, ◌<◌, ◌≡◌, true, none, [], arith, le→leb}
use x.Prelude.Words.{size_mod, size_add, size_sub}
use x.Cbuf.{
  Cbuf, size, slot, buf_end, wraps, copy_in, copy_out, load, store, finish, range_valid, write,
  read,
}
use x.Cbuf.Inv.{HasStorage, IsValid, capacity-IsModulus, capacity-le, slot_lem, buf_end_lem}
use x.Cbuf.Closed.{valid_end, valid_start}

-- an empty block at the first slot is taken for one that passes the end
wraps_first :
    (c : Cbuf) (i : ℕ) → HasStorage c → i % c.capacity ≡ 0 → wraps c (size_add (slot c i) 0) ≡ true
wraps_first c i v e = rw (slot_lem c v i, e) (ground arith)

copy_in_empty : (c : Cbuf) (dest n : ℕ) → 0 < n → copy_in c dest [] n ≡ none
unfolding copy_in
copy_in_empty c dest n h = ground arith

part_pos :
    (c : Cbuf) (i : ℕ) → HasStorage c → i % c.capacity ≡ 0 → 0 < size_sub (buf_end c) (slot c i)
part_pos c i v e =
    rw (slot_lem c v i, buf_end_lem c v, e)
      (omega (arith, (capacity-IsModulus c v).positive, capacity-le c v))

store_empty :
    (c : Cbuf) (i : ℕ)
    → HasStorage c
    → i % c.capacity ≡ 0
    → store c (record { at = i; src = []; count = 0 }) ≡ none
unfolding store
store_empty c i v e = rw (
  wraps_first c i v e,
  copy_in_empty c (slot c i) (size_sub (buf_end c) (slot c i)) (part_pos c i v e),
)

-- `cbuf_write` of no byte at an index of the buffer that maps to the first slot of the storage copies a
-- whole storage out of the empty source: it faults.
pub write_empty_faults :
    (c : Cbuf) (i : ℕ)
    → IsValid c
    → i < size_mod
    → size_sub i c.start ≤ size c
    → i % c.capacity ≡ 0
    → write c i [] 0 ≡ none
unfolding write finish
write_empty_faults c i v w h e = rw (
  valid_end c v i w h,
  valid_start c v i w 0 h (omega arith),
  le→leb (size_sub i c.start + 0) (size c) (omega (arith, h)),
  store_empty c i v.storage e,
)

copy_out_no_room : (c : Cbuf) (src n : ℕ) → 0 < n → copy_out c src n 0 ≡ none
unfolding copy_out
copy_out_no_room c src n h = ground arith

load_empty : (c : Cbuf) (i : ℕ) → HasStorage c → i % c.capacity ≡ 0 → load c i 0 0 ≡ none
unfolding load
load_empty c i v e = rw (
  wraps_first c i v e,
  copy_out_no_room c (slot c i) (size_sub (buf_end c) (slot c i)) (part_pos c i v e),
)

-- `cbuf_read` into an output of no byte, at an index of a buffer that maps to the first slot of
-- the storage, copies a whole storage into it: it faults.
pub read_empty_faults :
    (c : Cbuf) (i : ℕ)
    → IsValid c
    → i < size_mod
    → size_sub i c.start < size c
    → i % c.capacity ≡ 0
    → read c i 0 ≡ none
unfolding read range_valid
read_empty_faults c i v w h e =
    let nothing : min 0 (size_sub c.end i) ≡ 0 = omega arith in
    rw (in_range, nothing, load_empty c i v.storage e)
  where
    in_range : range_valid c i (size_add i 1) ≡ true
    in_range = ground (arith, capacity-le c v.storage)
