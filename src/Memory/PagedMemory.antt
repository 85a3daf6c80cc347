-- ===== src/Memory/PagedMemory.antt =====
-- crates/tinywasm/src/store/memory/paged.rs: the memory in chunks that are allocated on demand.
-- An index past the end of `chunks` panics in Rust; a valid memory has no such access
-- (PagedMemory/Models).
pub mod Flat
pub mod Models
mod Access
mod Zeroing
mod Loops
mod Growth
mod Ranges
mod Moving
pub mod Contract
pub mod Creation
mod Tests
use tinywasm.Prelude.{
  ℕ, zero, suc, ◌+◌, ◌-◌, ◌*◌, ◌/◌, ◌%◌, ◌^◌, min, bit_and, Bool, true, false, Option, none, some,
  List, [], ◌∷◌, ltb, leb, ◌==◌, ◌||◌, ◌&&◌, not, if◌then◌else◌, length, take, get_or, set,
  replicate, overwrite, slice, fill_range, move_within, resize,
}
use tinywasm.Prelude.Word.{shr, shl, wrapping_add, wrapping_sub}
use tinywasm.Host.{Host, try_reserve_bytes}
use tinywasm.Trap.{Result, ok, err, ◌>>=◌, out_of_memory, memory_out_of_bounds}
use tinywasm.Memory.Interface
use tinywasm.Memory.Interface.{LinearMemory, memory_oob, range_fits, copy_overlapping}

pub record PagedMemory : Type 0 where
  pub len : ℕ
  pub chunk_size : ℕ
  pub chunk_shift : ℕ
  pub chunk_mask : ℕ
  pub chunks : List (Option (List ℕ))

-- `usize::trailing_zeros` and `usize::is_power_of_two`
unfoldable pub trailing_zeros : ℕ → ℕ → ℕ
trailing_zeros zero n = 0
trailing_zeros (suc f) n =
    let more = suc (trailing_zeros f (n / 2)) in if n % 2 == 0 then more else 0

unfoldable pub is_power_of_two : ℕ → Bool
unfolding trailing_zeros
is_power_of_two n = n == 2 ^ trailing_zeros 64 n

-- `usize::div_ceil`
unfoldable pub div_ceil : ℕ → ℕ → ℕ
div_ceil a b = if a % b == 0 then a / b else a / b + 1

unfoldable pub chunk_count : ℕ → ℕ → ℕ
unfolding div_ceil
chunk_count n chunk_size = if n == 0 then 0 else div_ceil n chunk_size

unfoldable pub grow_to : Host → PagedMemory → ℕ → Result (Unit {0}) × PagedMemory
grow_to host m new_len =
    let count : ℕ = chunk_count new_len m.chunk_size in
    if ltb new_len m.len
    then (err (memory_out_of_bounds new_len 0 m.len), m)
    else (if ltb (length m.chunks) count
        then (if host.reserves_chunks count
            then (ok tt, record m { chunks = resize m.chunks count none; len = new_len })
            else (err out_of_memory, m))
        else (ok tt, record m { chunks = take count m.chunks; len = new_len }))

-- `none` is the failed assertion.
unfoldable pub try_new : Host → ℕ → ℕ → Option (Result PagedMemory)
unfolding is_power_of_two grow_to
try_new host n chunk_size =
    let empty : PagedMemory = record {
      len = 0;
      chunk_size = chunk_size;
      chunk_shift = trailing_zeros 64 chunk_size;
      chunk_mask = chunk_size - 1;
      chunks = [];
    } in
    let (grown, m) = grow_to host empty n in
    if is_power_of_two chunk_size then some (grown >>= λ _. ok m) else none

unfoldable pub chunk_idx : PagedMemory → ℕ → ℕ
chunk_idx m addr = shr addr m.chunk_shift

unfoldable pub chunk_offset : PagedMemory → ℕ → ℕ
chunk_offset m addr = bit_and addr m.chunk_mask

unfoldable allocate_chunk : Host → PagedMemory → Result (List ℕ)
allocate_chunk host m =
    if try_reserve_bytes host m.chunk_size then ok (replicate m.chunk_size 0) else err out_of_memory

unfoldable pub chunk_slice : PagedMemory → ℕ → Option (List ℕ)
chunk_slice m idx = get_or m.chunks idx none

-- The contents of a chunk that is about to be written, allocated if it is not there. The caller
-- puts the new contents back by `put_chunk`.
unfoldable pub chunk_mut : Host → PagedMemory → ℕ → Result (List ℕ)
unfolding allocate_chunk chunk_slice
chunk_mut host m idx = elim (chunk_slice m idx) [
  | none ↦ allocate_chunk host m
  | some chunk ↦ ok chunk
]

unfoldable pub put_chunk : PagedMemory → ℕ → Option (List ℕ) → PagedMemory
put_chunk m idx chunk = record m { chunks = set m.chunks idx chunk }

unfoldable pub read : PagedMemory → ℕ → List ℕ → ℕ × List ℕ
read m addr dst =
    let idx : ℕ = chunk_idx m addr in
    let chunk_end : ℕ = min (shl (idx + 1) m.chunk_shift) m.len in
    let read_len : ℕ = min (wrapping_sub chunk_end addr) (length dst) in
    if leb m.len addr || (length dst == 0) then (0, dst) else elim (chunk_slice m idx) [
      | some chunk ↦ (read_len, overwrite dst 0 (slice chunk (chunk_offset m addr) read_len))
      | none ↦ (read_len, fill_range dst 0 read_len 0)
    ]

unfoldable pub write : Host → PagedMemory → ℕ → List ℕ → ℕ × PagedMemory
write host m addr src =
    let idx : ℕ = chunk_idx m addr in
    let offset : ℕ = chunk_offset m addr in
    let write_len : ℕ = min (min (m.chunk_size - offset) (m.len - addr)) (length src) in
    if leb m.len addr || (length src == 0) then (0, m) else elim (chunk_mut host m idx) [
      | err e ↦ (0, m)
      | ok chunk ↦ (write_len, put_chunk m idx (some (overwrite chunk offset (take write_len src))))
    ]

-- `while pos < end`; every round advances `pos`, so `end - pos` rounds and the last test are enough.
unfoldable pub write_all_loop : Host → ℕ → PagedMemory → ℕ → ℕ → List ℕ → ℕ → Bool × PagedMemory
write_all_loop host zero m pos end src src_offset = (false, m)
write_all_loop host (suc f) m pos end src src_offset = elim (ltb pos end) [
  | false ↦ (true, m)
  | true ↦
      let idx : ℕ = chunk_idx m pos in
      let offset : ℕ = chunk_offset m pos in
      let copy_len : ℕ = min (m.chunk_size - offset) (end - pos) in
      elim (chunk_mut host m idx) [
        | err e ↦ (false, m)
        | ok chunk ↦
            write_all_loop host f
              (put_chunk m idx (some (overwrite chunk offset (slice src src_offset copy_len))))
              (pos + copy_len) end src (src_offset + copy_len)
      ]
]

unfoldable pub write_all : Host → PagedMemory → ℕ → List ℕ → Bool × PagedMemory
write_all host m addr src =
    if range_fits m.len addr (length src)
    then write_all_loop host (suc (length src)) m addr (addr + length src) src 0
    else (false, m)

-- `min(chunk_start + self.chunk_size, end)`
unfoldable pub fill_end : PagedMemory → ℕ → ℕ → ℕ
fill_end m pos end = min (wrapping_add (shl (chunk_idx m pos) m.chunk_shift) m.chunk_size) end

-- Zeroes for `n` bytes from `pos`: a chunk that becomes all zero is freed, and one that is not
-- there needs nothing.
unfoldable pub zero_chunk : PagedMemory → ℕ → ℕ → PagedMemory
zero_chunk m pos n =
    let idx : ℕ = chunk_idx m pos in
    let offset : ℕ = chunk_offset m pos in
    let chunk_full_len : ℕ = min m.chunk_size (wrapping_sub m.len (shl idx m.chunk_shift)) in
    if offset == 0 && (n == chunk_full_len)
    then put_chunk m idx none
    else elim (chunk_slice m idx) [
      | some chunk ↦ put_chunk m idx (some (fill_range chunk offset n 0))
      | none ↦ m
    ]

-- One round of `fill`: `n` bytes from `pos`, in the chunk that holds `pos`.
unfoldable pub fill_round : Host → PagedMemory → ℕ → ℕ → ℕ → Result PagedMemory
fill_round host m pos n val =
    if val == 0
    then ok (zero_chunk m pos n)
    else (chunk_mut host m (chunk_idx m pos) >>= λ chunk.
        ok (put_chunk m (chunk_idx m pos) (some (fill_range chunk (chunk_offset m pos) n val))))

unfoldable pub fill_loop : Host → ℕ → PagedMemory → ℕ → ℕ → ℕ → Bool × PagedMemory
fill_loop host zero m pos end val = (false, m)
fill_loop host (suc f) m pos end val = elim (ltb pos end) [
  | false ↦ (true, m)
  | true ↦ elim (fill_round host m pos (wrapping_sub (fill_end m pos end) pos) val) [
    | err e ↦ (false, m)
    | ok m' ↦ fill_loop host f m' (fill_end m pos end) end val
  ]
]

unfoldable pub fill : Host → PagedMemory → ℕ → ℕ → ℕ → Bool × PagedMemory
fill host m addr n val =
    if range_fits m.len addr n then fill_loop host (suc n) m addr (addr + n) val else (false, m)

unfoldable pub copy_within_single_chunk : PagedMemory → ℕ → ℕ → ℕ → Bool × PagedMemory
copy_within_single_chunk m dst src n =
    let src_idx : ℕ = chunk_idx m src in
    let dst_idx : ℕ = chunk_idx m dst in
    let src_offset : ℕ = chunk_offset m src in
    let dst_offset : ℕ = chunk_offset m dst in
    if n == 0
    then (true, m)
    else (if not (range_fits m.len src n) || not (range_fits m.len dst n)
        then (false, m)
        else (if not (src_idx == dst_idx)
            then (false, m)
            else (if ltb m.chunk_size (src_offset + n) || ltb m.chunk_size (dst_offset + n)
                then (false, m)
                else elim (chunk_slice m src_idx) [
                  | some chunk ↦
                      (true, put_chunk m src_idx (some (move_within chunk src_offset n dst_offset)))
                  | none ↦ (true, m)
                ])))

-- `read_exact` is the trait's.
unfoldable pub read_exact : PagedMemory → ℕ → List ℕ → Bool × List ℕ
read_exact = Interface.read_exact (λ m. m.len) read

unfoldable pub copy_within : Host → PagedMemory → ℕ → ℕ → ℕ → Bool × PagedMemory
copy_within host m dst src n =
    if range_fits m.len src n
    then (if range_fits m.len dst n
        then (if n == 0 || (dst == src)
            then (true, m)
            else (let (done, m') = copy_within_single_chunk m dst src n in
                if done
                then (true, m')
                else copy_overlapping read_exact (write_all host) 256 m' dst src n))
        else (false, m))
    else (false, m)

unfoldable pub read_8 : PagedMemory → ℕ → Result (List ℕ)
read_8 m addr =
    if leb m.len addr
    then err (memory_oob addr 1 m.len)
    else elim (chunk_slice m (chunk_idx m addr)) [
      | some chunk ↦ ok (get_or chunk (chunk_offset m addr) 0 ∷ [])
      | none ↦ ok (0 ∷ [])
    ]

unfoldable pub write_8 : Host → PagedMemory → ℕ → List ℕ → Result (Unit {0}) × PagedMemory
write_8 host m addr src =
    if leb m.len addr
    then (err (memory_oob addr 1 m.len), m)
    else elim (chunk_mut host m (chunk_idx m addr)) [
      | err e ↦ (err e, m)
      | ok chunk ↦ (
        ok tt,
        put_chunk m (chunk_idx m addr) (some (set chunk (chunk_offset m addr) (get_or src 0 0))),
      )
    ]

-- `impl LinearMemory for PagedMemory`; what is not overridden is the trait's.
abbrev pub paged_memory : Host → LinearMemory PagedMemory
paged_memory host = record {
  len = λ m. m.len;
  grow_to = grow_to host;
  read = read;
  write = write host;
  write_all = write_all host;
  fill = fill host;
  copy_within = copy_within host;
  read_exact = read_exact;
  read_vec = Interface.read_vec (λ m. m.len) read_exact;
  read_fixed = λ n m addr.
      if n == 1 then read_8 m addr else Interface.read_fixed (λ m. m.len) read_exact n m addr;
  write_fixed = λ n m addr src.
      if n == 1
      then write_8 host m addr src
      else Interface.write_fixed (λ m. m.len) (write_all host) n m addr src;
}
