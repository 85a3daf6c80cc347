-- ===== src/Memory/PagedMemory/Creation.antt =====
-- PagedMemory::try_new: a paged memory as it is created.
use native.Mathlib.Nat.{one-le-pow}
use tinywasm.Prelude.{
  ℕ, ◌^◌, ap, ◌≤◌, ◌≡◌, refl, true, Option, some, List, [], replicate, resize, take_all, arith, ◌-◌,
  leb, leb→le, Bool-cases, ◌<◌, ◌*◌, ltb, ltb→le, inl, inr, Bool, false, ◌==◌, ◌||◌, ◌∙◌,
}
use tinywasm.Prelude.Word.{isize_max}
use tinywasm.Host.{Host, try_reserve_bytes}
use tinywasm.Trap.{Result, ok, err, out_of_memory}
use tinywasm.Memory.PagedMemory.{PagedMemory, trailing_zeros, is_power_of_two, chunk_count, try_new}
use tinywasm.Memory.PagedMemory.Models.{Models, chunk_size-pos}
use tinywasm.Memory.PagedMemory.Growth.{chunk_count_lem, granted, grow_to_lem}

-- What the creation of a memory of `n` bytes returns: `n` zeroes when the host grants the table of
-- the chunks, and otherwise the error of an allocation.
pub data Created {M : Type 0} (Models : M → List ℕ → Type 0) (n : ℕ) (granted : Bool)
    (out : Option (Result M)) : Type 0 where
  created :
      (m : M)
      → granted ≡ true
      → out ≡ some (ok m)
      → Models m (replicate n 0)
      → Created Models n granted out
  not_created : granted ≡ false → out ≡ some (err out_of_memory) → Created Models n granted out

module _ (host : Host) (n chunk_size : ℕ) where
  abbrev empty : PagedMemory
  empty = record {
    len = 0;
    chunk_size = chunk_size;
    chunk_shift = trailing_zeros 64 chunk_size;
    chunk_mask = chunk_size - 1;
    chunks = [];
  }

  reserved : try_reserve_bytes host chunk_size ≡ true → chunk_size ≤ isize_max
  unfolding try_reserve_bytes
  reserved room = elim (Bool-cases (leb chunk_size isize_max)) [
    | inl le ↦ leb→le _ _ le
    | inr gt ↦ absurd (ground (arith, room, gt))
  ]

  empty-Models :
      is_power_of_two chunk_size ≡ true
      → try_reserve_bytes host chunk_size ≡ true
      → Models host empty []
  unfolding is_power_of_two
  empty-Models p room =
      let shape : chunk_size ≡ 2 ^ trailing_zeros 64 chunk_size = ground (arith, p) in
      let positive : 1 ≤ chunk_size =
        rw shape (one-le-pow (trailing_zeros 64 chunk_size) 2 (omega arith)) in
      record {
        shape = shape;
        mask = refl;
        room = room;
        small = reserved room;
        lens = refl;
        bounded = omega arith;
        tight = omega (arith, positive);
        full = tt;
        spare = 0;
        holds = refl;
      }

  resize_empty : resize {A = ℕ} [] n 0 ≡ replicate n 0
  resize_empty =
      rw (take_all {A = ℕ} [] n (omega arith))
        (ap (λ (t : ℕ). replicate {A = ℕ} t 0) {x = n - 0} {y = n} (omega arith))

  -- The number of chunks is zero just for no bytes.
  chunk_count_zero : (n == 0) ≡ true → chunk_count n chunk_size ≡ 0
  unfolding chunk_count
  chunk_count_zero e = rw e refl

  chunk_count_pos : 0 < chunk_size → (n == 0) ≡ false → ltb 0 (chunk_count n chunk_size) ≡ true
  chunk_count_pos positive e = elim (Bool-cases (ltb 0 (chunk_count n chunk_size))) [
    | inl there ↦ there
    | inr not_there ↦
        let no_chunks : chunk_count n chunk_size ≡ 0 = omega (arith, ltb→le _ _ not_there) in
        let covers : n ≤ 0 * chunk_size =
          rw no_chunks at (chunk_count_lem n chunk_size positive).0 in
        absurd (ground (arith, covers, e))
  ]

  empty-granted :
      (p : is_power_of_two chunk_size ≡ true) (room : try_reserve_bytes host chunk_size ≡ true)
      → granted (empty-Models p room) n
        ≡ (n == 0 || host.reserves_chunks (chunk_count n chunk_size))
  empty-granted p room = elim (Bool-cases (n == 0)) [
    | inl none_needed ↦ rw (chunk_count_zero none_needed, none_needed) refl
    | inr some_needed ↦
        rw (chunk_count_pos (chunk_size-pos (empty-Models p room)) some_needed, some_needed) refl
  ]

  -- For a power of two that the host can allocate as a chunk and a length of at most `isize::MAX`,
  -- the assertion holds. The new memory holds `n` zeroes when `n` is zero or the host grants a table
  -- of as many chunks as `n` bytes need; when it refuses the table, the error is `OutOfMemory`.
  pub try_new_lem :
      is_power_of_two chunk_size ≡ true
      → try_reserve_bytes host chunk_size ≡ true
      → n ≤ isize_max
      → Created
          (Models host)
          n
          (n == 0 || host.reserves_chunks (chunk_count n chunk_size))
          (try_new host n chunk_size)
  unfolding try_new
  try_new_lem p room k =
      let out = grow_to_lem (empty-Models p room) n (omega arith) k in
      let same = empty-granted p room in
      rw p (elim (Bool-cases (n == 0 || host.reserves_chunks (chunk_count n chunk_size))) [
        | inl e ↦
            let g : granted (empty-Models p room) n ≡ true = same ∙ e in
            rw (rw g at out.0) (created _ e refl (rw resize_empty at (rw g at out.1)))
        | inr e ↦
            let g : granted (empty-Models p room) n ≡ false = same ∙ e in
            rw (rw g at out.0) (not_created e refl)
      ])
