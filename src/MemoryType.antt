-- ===== src/MemoryType.antt =====
-- crates/types/src/lib.rs: the type of a memory, and the limits of its size.
use tinywasm.Prelude.{ℕ, ◌*◌, ◌/◌, ◌%◌, Option, none, some}
use tinywasm.Prelude.Word.{usize_mod}

-- `MEM_PAGE_SIZE` and `MAX_MEMORY_SIZE`
abbrev mem_page_size : ℕ
mem_page_size = 65536

abbrev max_memory_size : ℕ
max_memory_size = 4294967296

abbrev max_page_count : ℕ → ℕ
max_page_count page_size = max_memory_size / page_size

pub data MemoryArch : Type 0 where
  i_32 : MemoryArch
  i_64 : MemoryArch

pub record MemoryType : Type 0 where
  pub arch : MemoryArch
  pub page_count_initial : ℕ
  pub declared_max : Option ℕ
  pub declared_page_size : Option ℕ

unfoldable pub page_size : MemoryType → ℕ
page_size t = elim t.declared_page_size [ some n ↦ n | none ↦ mem_page_size ]

unfoldable pub page_count_max : MemoryType → ℕ
unfolding page_size
page_count_max t = elim t.declared_max [ some n ↦ n | none ↦ max_page_count (page_size t) ]

-- The products are those of a release build, which wrap.
unfoldable pub initial_size : MemoryType → ℕ
unfolding page_size
initial_size t = (t.page_count_initial * page_size t) % usize_mod

unfoldable pub max_size : MemoryType → ℕ
unfolding page_size page_count_max
max_size t = (page_count_max t * page_size t) % usize_mod
