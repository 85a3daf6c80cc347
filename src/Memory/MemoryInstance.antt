-- ===== src/Memory/MemoryInstance.antt =====
-- crates/tinywasm/src/store/memory/instance.rs: a memory of a module, over any linear memory.
pub mod Growing
pub mod Copies
use tinywasm.Prelude.{
  ℕ, zero, suc, ◌+◌, ◌-◌, ◌*◌, min, Bool, true, false, Option, none, some, List, ltb, leb, ◌==◌,
  ◌||◌, if◌then◌else◌, length, take, replicate, overwrite, ℤ, pos, negsuc,
}
use tinywasm.Prelude.Word.{isize_max, checked_add, checked_mul}
use tinywasm.Trap.{Result, ok, err, ◌>>=◌, ◌>>◌, ok_or}
use tinywasm.MemoryType.{MemoryType, page_size, page_count_max, max_size}
use tinywasm.Memory.Interface.{LinearMemory, memory_oob}

pub record MemoryInstance (M : Type 0) : Type 0 where
  pub kind : MemoryType
  pub inner : M
  pub page_count : ℕ

abbrev pub copy_chunk_size : ℕ
copy_chunk_size = 4096

-- `i64::try_from(n).ok()`
unfoldable pub to_i64 : ℕ → Option ℤ
to_i64 n = if leb n isize_max then some (pos n) else none

module _ {M : Type 0} (ops : LinearMemory M) where
  -- The sum of two 32-bit numbers does not wrap on a 64-bit host.
  unfoldable effective_addr_32 : MemoryInstance M → ℕ → ℕ → Result ℕ
  effective_addr_32 self base offset = ok (base + offset)

  unfoldable effective_addr_64 : ℕ → MemoryInstance M → ℕ → ℕ → Result ℕ
  unfolding memory_oob
  effective_addr_64 n self base offset =
      ok_or (checked_add base offset) (memory_oob base n (ops.len self.inner))

  unfoldable pub check_range : M → ℕ → ℕ → Result (Unit {0})
  unfolding memory_oob
  check_range mem addr n = elim (checked_add addr n) [
    | none ↦ err (memory_oob addr n (ops.len mem))
    | some end ↦
        if ltb (ops.len mem) end || ltb end addr
        then err (memory_oob addr n (ops.len mem))
        else ok tt
  ]

  unfoldable pub copy_within : MemoryInstance M → ℕ → ℕ → ℕ → Result (Unit {0}) × MemoryInstance M
  unfolding memory_oob
  copy_within self dst src n =
      let (done, inner) = ops.copy_within self.inner dst src n in
      (
        if done then ok tt else err (memory_oob dst n (ops.len inner)),
        record self { inner = inner },
      )

  -- The growth to `new_size` bytes that all the tests before have let through.
  unfoldable pub grow_inner : MemoryInstance M → ℕ → ℕ → Bool → Result (Option ℤ) × MemoryInstance M
  unfolding to_i64
  grow_inner self new_pages new_size trap_on_oom =
      let (grown, inner) = ops.grow_to self.inner new_size in
      if new_size == ops.len self.inner then (ok (to_i64 self.page_count), self) else elim grown [
        | ok u ↦
            (ok (to_i64 self.page_count), record self { inner = inner; page_count = new_pages })
        | err e ↦ (if trap_on_oom then err e else ok none, record self { inner = inner })
      ]

  unfoldable pub grow : MemoryInstance M → ℤ → Bool → Result (Option ℤ) × MemoryInstance M
  unfolding grow_inner page_size page_count_max max_size
  grow self (negsuc d) trap_on_oom = (ok none, self)
  grow self (pos d) trap_on_oom = elim (checked_add self.page_count d) [
    | none ↦ (ok none, self)
    | some new_pages ↦
        if ltb (page_count_max self.kind) new_pages
        then (ok none, self)
        else elim (checked_mul new_pages (page_size self.kind)) [
          | none ↦ (ok none, self)
          | some new_size ↦
              if ltb (max_size self.kind) new_size
              then (ok none, self)
              else grow_inner self new_pages new_size trap_on_oom
        ]
  ]

-- `copy_from_memory`: `self` and the source may have different storage.
module _ {M N : Type 0} (ops : LinearMemory M) (from : LinearMemory N) where
  -- One round: `chunk_len` bytes through the front of the buffer, which is handed back.
  unfoldable pub copy_from_round : M → ℕ → N → ℕ → ℕ → List ℕ → (Result (Unit {0}) × M) × List ℕ
  unfolding memory_oob
  copy_from_round m dst source src chunk_len buf =
      let (got, chunk) = from.read_exact source src (take chunk_len buf) in
      let (put, m') = ops.write_all m dst chunk in
      elim got [
        | false ↦ ((err (memory_oob src chunk_len (from.len source)), m), overwrite buf 0 chunk)
        | true ↦ (
          (if put then ok tt else err (memory_oob dst chunk_len (ops.len m')), m'),
          overwrite buf 0 chunk,
        )
      ]

  -- `while copied < len`: a round copies at least one byte, so `len` rounds and the last test are
  -- enough.
  unfoldable pub copy_from_loop : ℕ → M → ℕ → N → ℕ → ℕ → ℕ → List ℕ → Result (Unit {0}) × M
  unfolding copy_from_round
  copy_from_loop zero m dst source src n copied buf = (ok tt, m)
  copy_from_loop (suc f) m dst source src n copied buf = elim (ltb copied n) [
    | false ↦ (ok tt, m)
    | true ↦
        let chunk_len : ℕ = min (length buf) (n - copied) in
        let ((done, m'), buf') =
          copy_from_round m (dst + copied) source (src + copied) chunk_len buf in
        elim done [
          | err e ↦ (err e, m')
          | ok u ↦ copy_from_loop f m' dst source src n (copied + chunk_len) buf'
        ]
  ]

  unfoldable pub copy_from_memory :
      MemoryInstance M → ℕ → MemoryInstance N → ℕ → ℕ → Result (Unit {0}) × MemoryInstance M
  unfolding check_range copy_from_loop
  copy_from_memory self dst src_memory src n =
      let (copied, inner) =
        copy_from_loop (suc n) self.inner dst src_memory.inner src n 0
          (replicate copy_chunk_size 0) in
      elim (check_range from src_memory.inner src n >> check_range ops self.inner dst n) [
        | err e ↦ (err e, self)
        | ok u ↦ if n == 0 then (ok tt, self) else (copied, record self { inner = inner })
      ]
