-- ===== src/Memory/LazyMemory/Tests.antt =====
-- A lazy memory over the vector memory, and an instance of its theorem.
use tinywasm.Prelude.{
  ℕ, Option, none, some, true, List, [], ◌∷◌, replicate, overwrite, fill_range, move_within, refl,
  arith,
}
use tinywasm.Host
use tinywasm.Host.{generous}
use tinywasm.Trap.{Result}
use tinywasm.Memory.Laws.{Updates}
use tinywasm.Memory.VecMemory
use tinywasm.Memory.VecMemory.{VecMemory, vec_memory}
use tinywasm.Memory.VecMemory.Contract.{Models, vec_memory-Laws}
use tinywasm.Memory.LazyMemory.{LazyLinearMemory, write_all, fill, copy_within}
use tinywasm.Memory.LazyMemory.Contract.{Given, LazyModels, Creates, lazy_memory_lem}

-- Five bytes without storage, which a vector would give.
abbrev lazy : LazyLinearMemory VecMemory
lazy = record { initial_len = 5; inner = none }

abbrev backend : ℕ → Option (Result VecMemory)
backend n = some (VecMemory.try_new generous n)

backend-Creates : Creates (vec_memory generous) backend Models (vec_memory-Laws generous) 5
unfolding VecMemory.try_new Host.try_reserve_bytes
backend-Creates = (record { bytes = replicate 5 0 }, refl, (refl, omega arith))

abbrev Bytes : LazyLinearMemory VecMemory → List ℕ → Type 0
Bytes = LazyModels (vec_memory generous) backend Models (vec_memory-Laws generous)

abbrev zeroes : List ℕ
zeroes = replicate 5 0

lazy_memory_lem_example :
    Given
      (Updates Bytes zeroes true (overwrite zeroes 3 (7 ∷ 8 ∷ [])))
      (write_all (vec_memory generous) backend lazy 3 (7 ∷ 8 ∷ []))
    × Given
        (Updates Bytes zeroes true (fill_range zeroes 3 2 9))
        (fill (vec_memory generous) backend lazy 3 2 9)
    × Given
        (Updates Bytes zeroes true (move_within zeroes 3 2 0))
        (copy_within (vec_memory generous) backend lazy 0 3 2)
lazy_memory_lem_example =
    lazy_memory_lem (vec_memory generous) backend Models (vec_memory-Laws generous) lazy zeroes
      (7 ∷ 8 ∷ []) 3 0 2 9 backend-Creates (refl, omega arith)
