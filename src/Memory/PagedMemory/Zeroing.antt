-- ===== src/Memory/PagedMemory/Zeroing.antt =====
-- `fill` with zero: writing zeroes, freeing the chunk and leaving it absent come to the same bytes.
use native.Mathlib.Nat.{mul-le-mul_right}
use tinywasm.Prelude.{
  ℕ, suc, ◌+◌, ◌-◌, ◌*◌, ◌≤◌, ◌<◌, ◌≡◌, sym, ap, ◌∙◌, min, none, List, ◌++◌, length, get_or, drop,
  replicate, overwrite, slice, arith, inl, inr, ◌⊎◌, Option-cases, Bool-cases, fill_range, leb,
  leb→le, leb→lt, ◌&&◌, ◌==◌, drop_all, take_all, length-drop, length-replicate, replicate-nil,
  slice-append_right, slice-replicate, overwrite_front, replicate-append, overwrite-slice_self,
}
use tinywasm.Prelude.Word.{wrapping_sub, shl}
use tinywasm.Host.{Host}
use tinywasm.Memory.PagedMemory.{PagedMemory, chunk_idx, chunk_offset, chunk_slice, zero_chunk}
use tinywasm.Memory.PagedMemory.Flat.{chunk_bytes, flat, AllFull-at, slice-flat}
use tinywasm.Memory.PagedMemory.Models.{
  Models, split, slice_chunk, put_chunk-Models, chunk_idx-lt, length-all,
}
use tinywasm.Memory.PagedMemory.Access.{shl-chunk_idx}

module _ {host : Host} {m : PagedMemory} {bs : List ℕ} (v : Models host m bs) (pos n : ℕ) where
  chunk : List ℕ
  chunk = chunk_bytes m.chunk_size (get_or m.chunks (chunk_idx m pos) none)

  length-chunk : pos < length bs → length chunk ≡ m.chunk_size
  unfolding chunk
  length-chunk h = AllFull-at m.chunk_size m.chunks (chunk_idx m pos) v.full (chunk_idx-lt v pos h)

  -- The last chunk's bytes behind the end of the memory are zero.
  spare_zero :
      pos < length bs
      → chunk_offset m pos ≡ 0
      → n ≤ m.chunk_size
      → pos + n ≡ length bs
      → slice chunk n (m.chunk_size - n) ≡ replicate (m.chunk_size - n) 0
  unfolding chunk
  spare_zero h e k last =
      let q : ℕ = chunk_idx m pos in
      let cs : ℕ = m.chunk_size in
      let here : q * cs + n ≡ length bs + 0 = omega (arith, split v pos) in
      let inside : suc q * cs ≤ length m.chunks * cs = mul-le-mul_right cs (chunk_idx-lt v pos h) in
      sym (slice-flat cs m.chunks q n (cs - n) v.full (chunk_idx-lt v pos h) (omega arith))
      ∙ ap (λ (t : ℕ). slice (flat cs m.chunks) t (cs - n)) here
      ∙ ap (λ t. slice t (length bs + 0) (cs - n)) v.holds
      ∙ slice-append_right bs (replicate v.spare 0) 0 (cs - n)
      ∙ slice-replicate 0 v.spare 0 (cs - n) (omega (arith, length-all v))

  rest_zero :
      pos < length bs
      → chunk_offset m pos ≡ 0
      → n ≤ m.chunk_size
      → (n ≡ m.chunk_size) ⊎ (pos + n ≡ length bs)
      → drop n chunk ≡ replicate (m.chunk_size - n) 0
  rest_zero h e k (inl whole) =
      drop_all chunk n (omega (arith, length-chunk h))
      ∙ sym (replicate-nil 0 (m.chunk_size - n) (omega arith))
  rest_zero h e k (inr last) =
      sym (
        take_all (drop n chunk) (m.chunk_size - n)
          (omega (arith, length-drop n chunk, length-chunk h)))
      ∙ spare_zero h e k last

  -- A freed chunk reads as the chunk with zeroes in front.
  freed :
      pos < length bs
      → chunk_offset m pos ≡ 0
      → n ≤ m.chunk_size
      → (n ≡ m.chunk_size) ⊎ (pos + n ≡ length bs)
      → replicate m.chunk_size 0 ≡ overwrite chunk 0 (replicate n 0)
  freed h e k c =
      ap (λ (t : ℕ). replicate t 0) {x = m.chunk_size} {y = n + (m.chunk_size - n)} (omega arith)
      ∙ sym (replicate-append n (m.chunk_size - n) 0)
      ∙ ap (λ t. replicate n 0 ++ t) (sym (rest_zero h e k c))
      ∙ ap (λ (t : ℕ). replicate n 0 ++ drop t chunk) (sym (length-replicate n 0))
      ∙ sym (
          overwrite_front chunk (replicate n 0)
            (omega (arith, length-chunk h, length-replicate {A = ℕ} n 0)))

  full_len : ℕ
  full_len = min m.chunk_size (wrapping_sub m.len (shl (chunk_idx m pos) m.chunk_shift))

  full_len_lem :
      pos < length bs → chunk_offset m pos ≡ 0 → full_len ≡ min m.chunk_size (length bs - pos)
  unfolding full_len
  full_len_lem h e = rw (shl-chunk_idx v pos h) (omega (arith, v.lens, v.bounded))

  -- Where the chunk is absent, the bytes are zero already.
  absent :
      pos < length bs
      → pos + n ≤ length bs
      → chunk_offset m pos + n ≤ m.chunk_size
      → get_or m.chunks (chunk_idx m pos) none ≡ none
      → fill_range bs pos n 0 ≡ bs
  absent h k e a =
      let zeroes : slice bs pos n ≡ replicate n 0 =
        sym (slice_chunk v pos n h k e)
        ∙ ap (λ t. slice (chunk_bytes m.chunk_size t) (chunk_offset m pos) n) a
        ∙ slice-replicate 0 m.chunk_size (chunk_offset m pos) n e in
      ap (λ t. overwrite bs pos t) (sym zeroes) ∙ overwrite-slice_self bs pos n

  -- The freed range reaches the end of its chunk, or of the memory.
  ends :
      pos < length bs
      → chunk_offset m pos ≡ 0
      → n ≡ full_len
      → (n ≡ m.chunk_size) ⊎ (pos + n ≡ length bs)
  ends h e len = elim (Bool-cases (leb m.chunk_size (length bs - pos))) [
    | inl whole ↦ inl (omega (arith, full_len_lem h e, leb→le _ _ whole))
    | inr last ↦ inr (omega (arith, full_len_lem h e, leb→lt _ _ last))
  ]

  -- To zero a range that is not empty and lies in one chunk and in the memory makes these bytes
  -- zero and no others, whether the chunk is freed, overwritten or was never there.
  pub zero_chunk_lem :
      0 < n
      → pos + n ≤ length bs
      → chunk_offset m pos + n ≤ m.chunk_size
      → Models host (zero_chunk m pos n) (fill_range bs pos n 0)
  unfolding zero_chunk chunk_slice full_len chunk
  zero_chunk_lem p k e =
      let h : pos < length bs = omega arith in
      let size : length (replicate {A = ℕ} n 0) ≡ n = length-replicate {A = ℕ} n 0 in
      elim (Bool-cases (chunk_offset m pos == 0 && (n == full_len))) [
        | inl all ↦
            let front : chunk_offset m pos ≡ 0 = ground arith in
            let len : n ≡ full_len = ground arith in
            rw all (
              put_chunk-Models v pos (replicate n 0) none h (omega arith) (omega arith)
                (rw front (freed h front (omega arith) (ends h front len))))
        | inr part ↦ rw part (elim (Option-cases (get_or m.chunks (chunk_idx m pos) none)) [
          | inl a ↦ rw (a, absent h k e a) v
          | inr (c, there) ↦
              rw there
                (put_chunk-Models v pos (replicate n 0) _ h (omega arith) (omega arith) (rw there))
        ])
      ]
