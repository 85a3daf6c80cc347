-- ===== src/Memory/PagedMemory/Tests.antt =====
-- Runs of the paged memory, and instances of its theorems, on a memory of two chunks.
use tinywasm.Prelude.{ℕ, ◌≡◌, refl, true, none, some, List, [], ◌∷◌, replicate, move_within, arith}
use tinywasm.Host.{try_reserve_bytes, generous}
use tinywasm.Trap.{err, memory_out_of_bounds}
use tinywasm.Memory.Interface.{memory_oob}
use tinywasm.Memory.Laws.{Updates}
use tinywasm.Memory.PagedMemory.{
  PagedMemory, trailing_zeros, is_power_of_two, try_new, chunk_idx, chunk_offset, chunk_slice, read,
  zero_chunk, copy_within, read_8,
}
use tinywasm.Memory.MemValue.{load_at, store_at, load_at-store_at}
use tinywasm.Memory.PagedMemory.{paged_memory}
use tinywasm.Trap.{ok}
use tinywasm.Memory.PagedMemory.Models.{Models}
use tinywasm.Memory.PagedMemory.Zeroing.{zero_chunk_lem}
use tinywasm.Memory.PagedMemory.Contract.{paged_memory-Laws}
use tinywasm.Memory.PagedMemory.Creation.{Created, try_new_lem}

-- Seven bytes in chunks of four, the second of which has not been written.
abbrev two_chunks : PagedMemory
two_chunks = record {
  len = 7;
  chunk_size = 4;
  chunk_shift = 2;
  chunk_mask = 3;
  chunks = some (1 ∷ 2 ∷ 3 ∷ 4 ∷ []) ∷ none ∷ [];
}

abbrev seven : List ℕ
seven = 1 ∷ 2 ∷ 3 ∷ 4 ∷ 0 ∷ 0 ∷ 0 ∷ []

two_chunks-Models : Models generous two_chunks seven
unfolding try_reserve_bytes
two_chunks-Models = record {
  shape = refl;
  mask = refl;
  room = refl;
  small = omega arith;
  lens = refl;
  bounded = omega arith;
  tight = omega arith;
  full = (refl, (refl, tt));
  spare = 1;
  holds = refl;
}

-- A read stops at the end of its chunk, and a copy goes over it.
read-two_chunks : read two_chunks 2 (9 ∷ 9 ∷ 9 ∷ []) ≡ (2, 3 ∷ 4 ∷ 9 ∷ [])
unfolding read chunk_idx chunk_offset chunk_slice
read-two_chunks = refl

read_8-two_chunks : read_8 two_chunks 7 ≡ err (memory_out_of_bounds 7 1 7)
unfolding read_8 memory_oob
read_8-two_chunks = refl

paged_memory-Laws_example :
    Updates
      (Models generous)
      seven
      true
      (move_within seven 0 4 2)
      (copy_within generous two_chunks 2 0 4)
paged_memory-Laws_example =
    (paged_memory-Laws generous).copies two_chunks seven 2 0 4 two_chunks-Models

zero_chunk_lem_example : Models generous (zero_chunk two_chunks 0 4) (replicate 7 0)
unfolding chunk_offset
zero_chunk_lem_example =
    zero_chunk_lem two_chunks-Models 0 4 (omega arith) (omega arith) (omega arith)

try_new_lem_example : Created (Models generous) 7 true (try_new generous 7 4)
unfolding is_power_of_two trailing_zeros try_reserve_bytes
try_new_lem_example = try_new_lem generous 7 4 refl refl (omega arith)

-- Four bytes over the border of the two chunks.
load_at-store_at_example :
    ((store_at (paged_memory generous) 4 305419896 two_chunks 2).0 ≡ ok tt)
    × (load_at
          (paged_memory generous)
          4
          (store_at (paged_memory generous) 4 305419896 two_chunks 2).1
          2
        ≡ ok 305419896)
load_at-store_at_example =
    load_at-store_at (paged_memory generous) (Models generous) (paged_memory-Laws generous)
      two_chunks seven 4 305419896 2 two_chunks-Models (omega arith) (omega arith) refl
