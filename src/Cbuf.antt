-- ===== src/Cbuf.antt =====
-- kern/cbuf.{h,c}: a circular byte buffer whose indexes are absolute and wrap around at 2 ^ 64.
-- `buf` is the address of the storage and `mem` its bytes, so that the pointer tests of the code can
-- be evaluated; `none` is a `memcpy` that leaves the storage.
pub mod Inv
pub mod Fill
pub mod Write
pub mod Closed
pub mod Reference
pub mod Contents
pub mod Window
pub mod Fifo
pub mod Refine
pub mod Pop
pub mod Empty
mod Tests
use mathlib.Core.Option
use x.Prelude.{
  ℕ, ◌+◌, ◌-◌, min, Bool, not, ◌&&◌, ◌||◌, Option, none, some, List, [], ◌∷◌, ◌++◌, ltb, leb, ◌==◌,
  if◌then◌else◌, length, set, take, drop, bit_and, ◌>>=◌,
}
use x.Prelude.Words.{size_add, size_sub}
use x.Errno.{Errno, success, eagain, einval}

pub record Cbuf : Type 0 where
  pub buf : ℕ
  pub mem : List ℕ
  pub capacity : ℕ
  pub start : ℕ
  pub end : ℕ

-- `CBUF_INIT_INDEX`, `(size_t)-500`
abbrev pub init_index : ℕ
init_index = size_sub 0 500

pub init : ℕ → List ℕ → ℕ → Cbuf
init buf mem capacity = record {
  buf = buf;
  mem = mem;
  capacity = capacity;
  start = init_index;
  end = init_index;
}

abbrev pub size : Cbuf → ℕ
size c = size_sub c.end c.start

abbrev pub avail_size : Cbuf → ℕ
avail_size c = size_sub c.capacity (size c)

pub clear : Cbuf → Cbuf
clear c = record c { start = c.end }

pub range_valid : Cbuf → ℕ → ℕ → Bool
range_valid c start end =
    leb (size_sub end start) (size c)
    && leb (size_sub start c.start) (size c)
    && leb (size_sub c.end end) (size c)

abbrev pub index : Cbuf → ℕ → ℕ
index c abs_index = bit_and abs_index (c.capacity - 1)

pub update_start : Cbuf → Cbuf
update_start c =
    if ltb c.capacity (size c) then record c { start = size_sub c.end c.capacity } else c

-- `memcpy` of the bytes `src` to the storage of `c`, from the address `dest` on.
abbrev pub poke : List ℕ → ℕ → List ℕ → List ℕ
poke mem i [] = mem
poke mem i (x ∷ xs) = poke (set mem i x) (i + 1) xs

-- the `n` bytes at the address `ptr` belong to the storage
abbrev pub in_storage : Cbuf → ℕ → ℕ → Bool
in_storage c ptr n = leb c.buf ptr && leb (ptr + n) (c.buf + length c.mem)

-- `memcpy(dest, src, n)` into the storage; it may read no more than `src` holds.
pub copy_in : Cbuf → ℕ → List ℕ → ℕ → Option Cbuf
copy_in c dest src n =
    if in_storage c dest n && leb n (length src)
    then some (record c { mem = poke c.mem (dest - c.buf) (take n src) })
    else none

-- `memcpy(_, src, n)` out of the storage, into an output that has `room` bytes left
pub copy_out : Cbuf → ℕ → ℕ → ℕ → Option (List ℕ)
copy_out c src n room =
    if in_storage c src n && leb n room then some (take n (drop (src - c.buf) c.mem)) else none

-- `&cbuf->buf[cbuf_index(cbuf, index)]`
abbrev pub slot : Cbuf → ℕ → ℕ
slot c i = size_add c.buf (index c i)

abbrev pub buf_end : Cbuf → ℕ
buf_end c = size_add c.buf c.capacity

-- `(end <= cbuf->buf) || (end > buf_end)`
abbrev pub wraps : Cbuf → ℕ → Bool
wraps c ptr = leb ptr c.buf || ltb (buf_end c) ptr

-- What is left to write once the bytes that would be erased at once are skipped.
pub record Job : Type 0 where
  pub at : ℕ
  pub src : List ℕ
  pub count : ℕ

-- the block under `!cbuf_range_valid(cbuf, cbuf->start, new_end)`
pub trim : Cbuf → Job → Job
trim c j =
    let skip = size_sub j.count c.capacity in
    if ltb c.capacity j.count
    then record { at = size_add j.at skip; src = drop skip j.src; count = c.capacity }
    else j

-- the copy, in one or two parts
pub store : Cbuf → Job → Option Cbuf
store c j =
    let skip = size_sub (buf_end c) (slot c j.at) in
    if wraps c (size_add (slot c j.at) j.count)
    then (copy_in c (slot c j.at) j.src skip >>= λ c'.
        copy_in c' c.buf (drop skip j.src) (size_sub j.count skip))
    else copy_in c (slot c j.at) j.src j.count

-- the copy, then `cbuf_update_start`
pub finish : Option Cbuf → Option (Errno × Cbuf)
finish = Option.map (λ c. (success, update_start c))

pub write : Cbuf → ℕ → List ℕ → ℕ → Option (Errno × Cbuf)
write c i src n =
    let new_end = size_add i n in
    let job : Job = record { at = i; src = src; count = n } in
    if range_valid c i c.end
    then (if range_valid c c.start new_end
        then finish (store c job)
        else finish (store (record c { end = new_end }) (trim c job)))
    else some (einval, c)

pub push : Cbuf → List ℕ → ℕ → Bool → Option (Errno × Cbuf)
push c src n erase =
    if not erase && ltb (avail_size c) n then some (eagain, c) else write c c.end src n

pub pushb : Cbuf → ℕ → Bool → Option (Errno × Cbuf)
pushb c byte erase =
    if not erase && avail_size c == 0
    then some (eagain, c)
    else (copy_in c (slot c c.end) (byte ∷ []) 1 >>= λ c'.
        some (success, update_start (record c' { end = size_add c.end 1 })))

-- the two parts of the copy in `cbuf_read`
pub load : Cbuf → ℕ → ℕ → ℕ → Option (List ℕ)
load c i n room =
    let part = size_sub (buf_end c) (slot c i) in
    if wraps c (size_add (slot c i) n)
    then (copy_out c (slot c i) part room >>= λ front.
        copy_out c c.buf (size_sub n part) (room - part) >>= λ back. some (front ++ back))
    else copy_out c (slot c i) n room

-- The list is what arrives in the output buffer; its length is the new `*sizep`.
pub read : Cbuf → ℕ → ℕ → Option (Errno × ℕ × List ℕ)
read c i sizep =
    let n = min sizep (size_sub c.end i) in
    if range_valid c i (size_add i 1)
    then (load c i n sizep >>= λ out. some (success, n, out))
    else some (einval, sizep, [])

-- `none` is also the failure of `assert(!error)`.
pub consume : Cbuf → Errno × ℕ × List ℕ → Option (Errno × ℕ × List ℕ × Cbuf)
consume c (success, n, out) = some (success, n, out, record c { start = size_add c.start n })
consume c _ = none

pub pop : Cbuf → ℕ → Option (Errno × ℕ × List ℕ × Cbuf)
pop c sizep =
    if size c == 0 then some (eagain, sizep, [], c) else (read c c.start sizep >>= consume c)

pub popb : Cbuf → Option (Errno × List ℕ × Cbuf)
popb c =
    if size c == 0
    then some (eagain, [], c)
    else (copy_out c (slot c c.start) 1 1 >>= λ out.
        some (success, out, record c { start = size_add c.start 1 }))
