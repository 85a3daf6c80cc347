-- ===== src/Memory/VecMemory.antt =====
-- crates/tinywasm/src/store/memory/vec.rs: the memory in one contiguous vector.
pub mod Contract
use tinywasm.Prelude.{
  ℕ, ◌+◌, ◌-◌, min, Bool, true, false, Option, none, some, List, [], ◌∷◌, ltb, leb, ◌==◌, ◌||◌,
  if◌then◌else◌, length, take, get_or, set, replicate, overwrite, slice, fill_range, move_within,
  resize,
}
use tinywasm.Host.{Host, try_reserve_bytes}
use tinywasm.Trap.{Result, ok, err, ◌>>◌, out_of_memory, memory_out_of_bounds}
use tinywasm.Memory.Interface.{LinearMemory, memory_oob, range_fits}

pub record VecMemory : Type 0 where
  pub bytes : List ℕ

unfoldable pub try_new : Host → ℕ → Result VecMemory
unfolding try_reserve_bytes
try_new host n =
    if try_reserve_bytes host n then ok (record { bytes = replicate n 0 }) else err out_of_memory

unfoldable pub len : VecMemory → ℕ
len m = length m.bytes

unfoldable pub check_fixed_addr : ℕ → VecMemory → ℕ → Result (Unit {0})
unfolding memory_oob
check_fixed_addr n m addr =
    if ltb (length m.bytes) n || ltb (length m.bytes - n) addr
    then err (memory_oob addr n (length m.bytes))
    else ok tt

unfoldable pub grow_to : Host → VecMemory → ℕ → Result (Unit {0}) × VecMemory
grow_to host m new_len =
    if ltb new_len (length m.bytes)
    then (err (memory_out_of_bounds new_len 0 (length m.bytes)), m)
    else (if try_reserve_bytes host new_len
        then (ok tt, record { bytes = resize m.bytes new_len 0 })
        else (err out_of_memory, m))

unfoldable pub read : VecMemory → ℕ → List ℕ → ℕ × List ℕ
read m addr dst =
    let read_len : ℕ = min (length dst) (length m.bytes - addr) in
    if leb (length m.bytes) addr
    then (0, dst)
    else (read_len, overwrite dst 0 (slice m.bytes addr read_len))

unfoldable pub read_exact : VecMemory → ℕ → List ℕ → Bool × List ℕ
read_exact m addr dst =
    if range_fits (length m.bytes) addr (length dst)
    then (true, slice m.bytes addr (length dst))
    else (false, dst)

unfoldable pub read_vec : VecMemory → ℕ → ℕ → Option (List ℕ)
read_vec m addr n = if range_fits (length m.bytes) addr n then some (slice m.bytes addr n) else none

unfoldable pub write : VecMemory → ℕ → List ℕ → ℕ × VecMemory
write m addr src =
    let write_len : ℕ = min (length src) (length m.bytes - addr) in
    if leb (length m.bytes) addr
    then (0, m)
    else (write_len, record { bytes = overwrite m.bytes addr (take write_len src) })

unfoldable pub write_all : VecMemory → ℕ → List ℕ → Bool × VecMemory
write_all m addr src =
    if range_fits (length m.bytes) addr (length src)
    then (true, record { bytes = overwrite m.bytes addr src })
    else (false, m)

unfoldable pub fill : VecMemory → ℕ → ℕ → ℕ → Bool × VecMemory
fill m addr n val =
    if range_fits (length m.bytes) addr n
    then (true, record { bytes = fill_range m.bytes addr n val })
    else (false, m)

unfoldable pub copy_within : VecMemory → ℕ → ℕ → ℕ → Bool × VecMemory
copy_within m dst src n =
    if range_fits (length m.bytes) src n
    then (if range_fits (length m.bytes) dst n
        then (true, record { bytes = move_within m.bytes src n dst })
        else (false, m))
    else (false, m)

-- `read_8`, which indexes, and `read_fixed`, which all the other widths share
unfoldable pub read_8 : VecMemory → ℕ → Result (List ℕ)
read_8 m addr = do check_fixed_addr 1 m addr; ok (get_or m.bytes addr 0 ∷ [])

unfoldable pub read_fixed : ℕ → VecMemory → ℕ → Result (List ℕ)
read_fixed n m addr = do check_fixed_addr n m addr; ok (slice m.bytes addr n)

unfoldable pub write_8 : VecMemory → ℕ → List ℕ → Result (Unit {0}) × VecMemory
write_8 m addr src = elim (check_fixed_addr 1 m addr) [
  | ok u ↦ (ok u, record { bytes = set m.bytes addr (get_or src 0 0) })
  | err e ↦ (err e, m)
]

-- `write_16` to `write_128`
unfoldable pub write_fixed : ℕ → VecMemory → ℕ → List ℕ → Result (Unit {0}) × VecMemory
write_fixed n m addr src = elim (check_fixed_addr n m addr) [
  | ok u ↦ (ok u, record { bytes = overwrite m.bytes addr src })
  | err e ↦ (err e, m)
]

-- `impl LinearMemory for VecMemory`
abbrev pub vec_memory : Host → LinearMemory VecMemory
vec_memory host = record {
  len = len;
  grow_to = grow_to host;
  read = read;
  write = write;
  write_all = write_all;
  fill = fill;
  copy_within = copy_within;
  read_exact = read_exact;
  read_vec = read_vec;
  read_fixed = λ n m addr. if n == 1 then read_8 m addr else read_fixed n m addr;
  write_fixed = λ n m addr src. if n == 1 then write_8 m addr src else write_fixed n m addr src;
}
