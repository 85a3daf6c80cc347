-- ===== src/Memory/Tests.antt =====
-- Runs of the vector memory and of memory instances, and instances of the theorems on memories.
use tinywasm.Prelude.{
  ℕ, ◌≡◌, refl, true, false, none, some, List, [], ◌∷◌, overwrite, move_within, pos, arith,
}
use tinywasm.Host.{generous, try_reserve_bytes}
use tinywasm.Trap.{ok, err}
use tinywasm.MemoryType.{MemoryType, i_32, page_size, page_count_max, max_size}
use tinywasm.Memory.Interface
use tinywasm.Memory.Interface.{memory_oob}
use tinywasm.Memory.Laws.{Updates}
use tinywasm.Memory.Defaults.{read_exact_lem, write_all_lem}
use tinywasm.Memory.Derived.{fill_lem}
use tinywasm.Prelude.{fill_range}
use tinywasm.Memory.Copying.{copy_within_lem, copy_overlapping_lem}
use tinywasm.Memory.VecMemory.{VecMemory, vec_memory, len, read, write, read_exact, write_all, fill}
use tinywasm.Memory.VecMemory.Contract.{Models, vec_memory-Laws}
use tinywasm.Memory.MemoryInstance.{MemoryInstance, copy_within, copy_from_memory, grow}
use tinywasm.Memory.MemoryInstance.Growing.{Valid, Growth, grow_lem}
use tinywasm.Memory.MemoryInstance.Copies.{copy_inside_lem, copy_from_memory_lem}

abbrev bytes : List ℕ
bytes = 1 ∷ 2 ∷ 3 ∷ 4 ∷ 5 ∷ []

abbrev memory : VecMemory
memory = record { bytes = bytes }

memory-Models : Models memory bytes
memory-Models = (refl, omega arith)

-- Three of at most five pages of two bytes.
abbrev kind : MemoryType
kind = record {
  arch = i_32;
  page_count_initial = 3;
  declared_max = some 5;
  declared_page_size = some 2;
}

abbrev pages : List ℕ
pages = 7 ∷ 8 ∷ 9 ∷ 0 ∷ 1 ∷ 2 ∷ []

abbrev paged : MemoryInstance VecMemory
paged = record { kind = kind; inner = record { bytes = pages }; page_count = 3 }

pages-Valid : Valid Models paged pages
unfolding page_size page_count_max
pages-Valid = record {
  holds = (refl, omega arith);
  whole = refl;
  most = omega arith;
  paged = omega arith;
  fits = omega arith;
}

-- A page more, five pages more (too many), and the bytes after the first.
grow-paged :
    (grow (vec_memory generous) paged (pos 1) false ≡ (
      ok (some (pos 3)),
      record {
        kind = kind;
        inner = record { bytes = 7 ∷ 8 ∷ 9 ∷ 0 ∷ 1 ∷ 2 ∷ 0 ∷ 0 ∷ [] };
        page_count = 4;
      },
    ))
    × (grow (vec_memory generous) paged (pos 5) false ≡ (ok none, paged))
unfolding grow page_size page_count_max max_size len try_reserve_bytes
    tinywasm.Memory.VecMemory.grow_to
grow-paged = (refl, refl)

vec_memory-Laws_example :
    Updates Models bytes true
      (move_within bytes 0 3 1)
      ((vec_memory generous).copy_within memory 1 0 3)
vec_memory-Laws_example = (vec_memory-Laws generous).copies memory bytes 1 0 3 memory-Models

read_exact_lem_example : Interface.read_exact len read memory 3 (0 ∷ 0 ∷ []) ≡ (true, 4 ∷ 5 ∷ [])
unfolding len
read_exact_lem_example =
    read_exact_lem Models len read (vec_memory-Laws generous).reads memory bytes 3 (0 ∷ 0 ∷ [])
      memory-Models refl (omega arith)

write_all_lem_example :
    Updates Models bytes false
      (overwrite bytes 4 (9 ∷ 9 ∷ []))
      (Interface.write_all len write memory 4 (9 ∷ 9 ∷ []))
unfolding len
write_all_lem_example =
    write_all_lem Models len write (vec_memory-Laws generous).writes memory bytes 4 (9 ∷ 9 ∷ [])
      memory-Models refl (omega arith)

fill_lem_example :
    Updates Models bytes true (fill_range bytes 1 3 9) (Interface.fill len write_all memory 1 3 9)
fill_lem_example =
    fill_lem Models len (vec_memory-Laws generous).models_len (vec_memory-Laws generous).bounded
      write_all (vec_memory-Laws generous).writes_all memory bytes 1 3 9 memory-Models

copy_overlapping_lem_example :
    let out = Interface.copy_overlapping read_exact write_all 2 memory 1 0 4 in
    (out.0 ≡ true) × Models out.1 (1 ∷ 1 ∷ 2 ∷ 3 ∷ 4 ∷ [])
copy_overlapping_lem_example =
    copy_overlapping_lem Models read_exact (vec_memory-Laws generous).reads_exact write_all
      (vec_memory-Laws generous).writes_all 2 (omega arith) memory bytes 1 0 4 memory-Models
      (omega arith) (omega arith)

copy_within_lem_example :
    Updates Models bytes true
      (move_within bytes 1 4 0)
      (Interface.copy_within read_exact write_all len memory 0 1 4)
copy_within_lem_example =
    copy_within_lem Models read_exact (vec_memory-Laws generous).reads_exact write_all
      (vec_memory-Laws generous).writes_all len (vec_memory-Laws generous).models_len
      (vec_memory-Laws generous).bounded memory bytes 0 1 4 memory-Models

grow_lem_example : Growth Models paged pages 2 true (grow (vec_memory generous) paged (pos 2) true)
grow_lem_example =
    grow_lem (vec_memory generous) Models (vec_memory-Laws generous) paged pages 2 true pages-Valid

copy_inside_lem_example :
    ((copy_within (vec_memory generous) paged 4 0 3).0 ≡ err (memory_oob 4 3 6))
    × (Models (copy_within (vec_memory generous) paged 4 0 3).1.inner pages
        × ((copy_within (vec_memory generous) paged 4 0 3).1.page_count ≡ 3))
copy_inside_lem_example =
    copy_inside_lem (vec_memory generous) Models (vec_memory-Laws generous) paged pages 4 0 3
      pages-Valid.holds

copy_from_memory_lem_example :
    let out =
      copy_from_memory
        (vec_memory generous)
        (vec_memory generous)
        paged
        1
        (record paged { inner = memory })
        2
        3 in
    (out.0 ≡ ok tt) × (Models out.1.inner (7 ∷ 3 ∷ 4 ∷ 5 ∷ 1 ∷ 2 ∷ []) × (out.1.page_count ≡ 3))
copy_from_memory_lem_example =
    copy_from_memory_lem (vec_memory generous) Models (vec_memory-Laws generous)
      (vec_memory generous) Models (vec_memory-Laws generous) paged pages 1
      (record paged { inner = memory }) bytes 2 3 pages-Valid.holds memory-Models
