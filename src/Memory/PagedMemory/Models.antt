-- ===== src/Memory/PagedMemory/Models.antt =====
-- What it means for a paged memory to hold the bytes `bs`, and where an address lies in its chunks.
use native.Mathlib.Nat.{div-add-mod', mod-lt, one-le-pow, div-lt_iff_lt-mul}
use tinywasm.Prelude.{
  ℕ, ◌+◌, ◌-◌, ◌*◌, ◌/◌, ◌%◌, ◌^◌, ◌≤◌, ◌<◌, ◌≡◌, sym, ap, ◌∙◌, true, Option, none, List, ◌++◌,
  length, get_or, replicate, overwrite, slice, arith, length-append, length-replicate,
  length-overwrite, length-set, overwrite-append_left, slice-append_left,
}
use tinywasm.Prelude.Word.{isize_max, bit_and-low_ones}
use tinywasm.Host.{Host, try_reserve_bytes}
use tinywasm.Trap.{ok}
use tinywasm.Memory.Interface.{range_fits}
use tinywasm.Memory.Laws.{within}
use tinywasm.Memory.Defaults.{range_fits-within}
use tinywasm.Memory.PagedMemory.{PagedMemory, chunk_idx, chunk_offset, chunk_mut, put_chunk}
use tinywasm.Memory.PagedMemory.Flat.{
  chunk_bytes, flat, AllFull, length-flat, AllFull-at, AllFull-set, slice-flat, flat-set,
}

-- The bytes of the chunks past the memory's length are zero, so that growth within the last chunk
-- uncovers zeroes. A power of two that fits `isize::MAX` bytes is at most `2 ^ 62`.
pub record Models (host : Host) (m : PagedMemory) (bs : List ℕ) : Type 0 where
  pub shape : m.chunk_size ≡ 2 ^ m.chunk_shift
  pub mask : m.chunk_mask ≡ m.chunk_size - 1
  pub room : try_reserve_bytes host m.chunk_size ≡ true
  pub small : m.chunk_size ≤ isize_max
  pub lens : m.len ≡ length bs
  pub bounded : length bs ≤ isize_max
  pub tight : length m.chunks * m.chunk_size < m.len + m.chunk_size
  pub full : AllFull m.chunk_size m.chunks
  pub spare : ℕ
  pub holds : flat m.chunk_size m.chunks ≡ bs ++ replicate spare 0

module _ {host : Host} {m : PagedMemory} {bs : List ℕ} (v : Models host m bs) where
  pub chunk_size-pos : 0 < m.chunk_size
  chunk_size-pos = rw v.shape (one-le-pow m.chunk_shift 2 (omega arith))

  -- The code's range test is the contract's.
  pub fits-within : (a n : ℕ) → range_fits m.len a n ≡ within bs a n
  fits-within a n = rw v.lens (range_fits-within bs a n v.bounded)

  -- An address is split by shift and mask as by division.
  chunk_idx_lem : (a : ℕ) → chunk_idx m a ≡ a / m.chunk_size
  unfolding chunk_idx
  chunk_idx_lem a = ap (λ (t : ℕ). a / t) (sym v.shape)

  chunk_offset_lem : (a : ℕ) → chunk_offset m a ≡ a % m.chunk_size
  unfolding chunk_offset
  chunk_offset_lem a = rw (v.mask, v.shape) (bit_and-low_ones m.chunk_shift a)

  pub split : (a : ℕ) → chunk_idx m a * m.chunk_size + chunk_offset m a ≡ a
  split a = rw (chunk_idx_lem a, chunk_offset_lem a) (div-add-mod' a m.chunk_size)

  pub chunk_offset-lt : (a : ℕ) → chunk_offset m a < m.chunk_size
  chunk_offset-lt a = rw (chunk_offset_lem a) (mod-lt a chunk_size-pos)

  pub length-all : length m.chunks * m.chunk_size ≡ length bs + v.spare
  length-all =
      sym (length-flat m.chunk_size m.chunks v.full)
      ∙ ap length v.holds
      ∙ length-append bs (replicate v.spare 0)
      ∙ ap (λ (t : ℕ). length bs + t) (length-replicate v.spare 0)

  -- An address in the memory lies in a chunk that is in the table.
  pub chunk_idx-lt : (a : ℕ) → a < length bs → chunk_idx m a < length m.chunks
  chunk_idx-lt a h =
      rw (chunk_idx_lem a) ((div-lt_iff_lt-mul chunk_size-pos).1 (omega (arith, length-all)))

  -- A read inside one chunk.
  pub slice_chunk :
      (a n : ℕ)
      → a < length bs
      → a + n ≤ length bs
      → chunk_offset m a + n ≤ m.chunk_size
      → slice (chunk_bytes m.chunk_size (get_or m.chunks (chunk_idx m a) none)) (chunk_offset m a) n
        ≡ slice bs a n
  slice_chunk a n h k e =
      sym (
        slice-flat m.chunk_size m.chunks (chunk_idx m a) (chunk_offset m a) n v.full
          (chunk_idx-lt a h) e)
      ∙ ap (λ (t : ℕ). slice (flat m.chunk_size m.chunks) t n) (split a)
      ∙ ap (λ t. slice t a n) v.holds
      ∙ slice-append_left bs (replicate v.spare 0) a n k

  -- The chunk that is handed out for writing holds the bytes of its range.
  pub chunk_mut_lem :
      (q : ℕ) → chunk_mut host m q ≡ ok (chunk_bytes m.chunk_size (get_or m.chunks q none))
  unfolding chunk_mut
  chunk_mut_lem q = ground (arith, v.room)

  -- A write inside one chunk.
  pub put_chunk-Models :
      (a : ℕ) (xs : List ℕ) (c : Option (List ℕ))
      → a < length bs
      → a + length xs ≤ length bs
      → chunk_offset m a + length xs ≤ m.chunk_size
      → chunk_bytes m.chunk_size c
        ≡ overwrite
            (chunk_bytes m.chunk_size (get_or m.chunks (chunk_idx m a) none))
            (chunk_offset m a)
            xs
      → Models host (put_chunk m (chunk_idx m a) c) (overwrite bs a xs)
  unfolding put_chunk
  put_chunk-Models a xs c h k e w =
      let q : ℕ = chunk_idx m a in
      let old : List ℕ = chunk_bytes m.chunk_size (get_or m.chunks q none) in
      let q_in : q < length m.chunks = chunk_idx-lt a h in
      let size : length (chunk_bytes m.chunk_size c) ≡ m.chunk_size =
        ap length w
        ∙ length-overwrite old (chunk_offset m a) xs
        ∙ AllFull-at m.chunk_size m.chunks q v.full q_in in
      record {
        shape = v.shape;
        mask = v.mask;
        room = v.room;
        small = v.small;
        lens = v.lens ∙ sym (length-overwrite bs a xs);
        bounded = rw (length-overwrite bs a xs) v.bounded;
        tight = rw (length-set m.chunks q c) v.tight;
        full = AllFull-set m.chunk_size m.chunks q c v.full size;
        spare = v.spare;
        holds =
            flat-set m.chunk_size m.chunks q (chunk_offset m a) xs c v.full q_in e w
            ∙ ap (λ (t : ℕ). overwrite (flat m.chunk_size m.chunks) t xs) (split a)
            ∙ ap (λ t. overwrite t a xs) v.holds
            ∙ overwrite-append_left bs (replicate v.spare 0) a xs k;
      }
