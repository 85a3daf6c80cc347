-- ===== src/Memory/PagedMemory/Access.antt =====
-- One access of the paged memory, within a chunk: `read` and `write`.
use tinywasm.Prelude.{
  ℕ, ◌+◌, ◌-◌, ◌*◌, ◌≤◌, ◌<◌, ◌≡◌, refl, ◌∙◌, min, false, none, some, List, length, get_or, take,
  replicate, slice, arith, slice-replicate, take-length, leb, ◌||◌, ◌==◌,
}
use tinywasm.Prelude.Word.{shl, wrapping_sub}
use tinywasm.Host.{Host}
use tinywasm.Memory.Laws.{ReadsSome, WritesSome}
use tinywasm.Memory.PagedMemory.{
  PagedMemory, chunk_idx, chunk_offset, chunk_slice, read, write, fill_end,
}
use tinywasm.Memory.PagedMemory.Flat.{chunk_bytes}
use tinywasm.Memory.PagedMemory.Models.{
  Models, chunk_offset-lt, split, slice_chunk, chunk_mut_lem, put_chunk-Models,
}

module _ {host : Host} {m : PagedMemory} {bs : List ℕ} (v : Models host m bs) where
  -- The shifts do not wrap: the chunk of `a` begins at `a - offset`.
  chunk_start : (a : ℕ) → chunk_idx m a * m.chunk_size ≡ a - chunk_offset m a
  chunk_start a = omega (arith, split v a)

  pub shl-chunk_idx :
      (a : ℕ) → a < length bs → shl (chunk_idx m a) m.chunk_shift ≡ a - chunk_offset m a
  shl-chunk_idx a h = rw (← v.shape) (omega (arith, chunk_start a, v.bounded))

  shl-next :
      (a : ℕ)
      → a < length bs
      → shl (chunk_idx m a + 1) m.chunk_shift ≡ a - chunk_offset m a + m.chunk_size
  shl-next a h = rw (← v.shape) (omega (arith, chunk_start a, v.bounded, v.small))

  -- The bytes from `a` to the end of its chunk or of the memory.
  read_len_lem :
      (a : ℕ)
      → a < length bs
      → wrapping_sub (min (shl (chunk_idx m a + 1) m.chunk_shift) m.len) a
        ≡ min (m.chunk_size - chunk_offset m a) (length bs - a)
  read_len_lem a h =
      rw (shl-next a h) (omega (arith, v.bounded, v.small, v.lens, split v a, chunk_offset-lt v a))

  pub fill_end_lem :
      (a end : ℕ)
      → a < end
      → end ≤ length bs
      → fill_end m a end ≡ min (a - chunk_offset m a + m.chunk_size) end
  unfolding fill_end
  fill_end_lem a end h k =
      rw (shl-chunk_idx a (omega arith)) (omega (arith, v.bounded, v.small, chunk_offset-lt v a))

  -- An absent chunk reads as zeroes.
  chunk_slice_lem :
      (a n : ℕ)
      → chunk_offset m a + n ≤ m.chunk_size
      → (elim (chunk_slice m (chunk_idx m a)) [
        | some chunk ↦ slice chunk (chunk_offset m a) n
        | none ↦ replicate n 0
      ])
        ≡ slice
            (chunk_bytes m.chunk_size (get_or m.chunks (chunk_idx m a) none))
            (chunk_offset m a)
            n
  unfolding chunk_slice
  chunk_slice_lem a n h =
      ground (arith, slice-replicate {A = ℕ} 0 m.chunk_size (chunk_offset m a) n)

  pub reads :
      (a : ℕ) (dst : List ℕ) → a < length bs → 0 < length dst → ReadsSome bs a dst (read m a dst)
  unfolding read
  reads a dst h k =
      let n : ℕ = min (min (m.chunk_size - chunk_offset m a) (length bs - a)) (length dst) in
      let off : chunk_offset m a < m.chunk_size = chunk_offset-lt v a in
      let got : (elim (chunk_slice m (chunk_idx m a)) [
        | some chunk ↦ slice chunk (chunk_offset m a) n
        | none ↦ replicate n 0
      ])
          ≡ slice bs a n =
        chunk_slice_lem a n (omega arith) ∙ slice_chunk v a n h (omega arith) (omega arith) in
      ground (arith, got, read_len_lem a h, v.lens)

  pub writes :
      (a : ℕ) (src : List ℕ)
      → a < length bs
      → 0 < length src
      → WritesSome (Models host) bs a src (write host m a src)
  unfolding write
  writes a src h k =
      let n : ℕ = min (min (m.chunk_size - chunk_offset m a) (m.len - a)) (length src) in
      let off : chunk_offset m a < m.chunk_size = chunk_offset-lt v a in
      let inside : (leb m.len a || (length src == 0)) ≡ false = ground (arith, v.lens) in
      let size : length (take n src) ≡ n = take-length n src (omega arith) in
      rw (inside, chunk_mut_lem v (chunk_idx m a))
        (record {
          some_written = omega (arith, v.lens);
          in_source = omega arith;
          in_memory = omega (arith, v.lens);
          after =
              put_chunk-Models v a (take n src) _ h (omega (arith, v.lens, size))
                (omega (arith, size)) refl;
        })
