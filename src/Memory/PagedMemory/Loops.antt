-- ===== src/Memory/PagedMemory/Loops.antt =====
-- The loops of `write_all` and `fill`, which go from chunk to chunk.
use tinywasm.Prelude.{
  ℕ, zero, suc, ◌+◌, ◌-◌, ◌≤◌, ◌<◌, ◌≡◌, refl, sym, ap, ◌∙◌, min, true, none, some, List, length,
  get_or, drop, replicate, overwrite, slice, arith, inl, inr, length-overwrite, Bool-cases,
  fill_range, ltb, ◌==◌, length-slice, drop_all, overwrite-cut, overwrite-nil, ltb→lt, ltb→le,
  length-replicate, overwrite-replicates, replicate-nil,
}
use tinywasm.Prelude.Word.{wrapping_sub}
use tinywasm.Host.{Host}
use tinywasm.Trap.{ok}
use tinywasm.Memory.PagedMemory.{
  PagedMemory, chunk_idx, chunk_offset, put_chunk, write_all_loop, fill_end, fill_round, zero_chunk,
  fill_loop,
}
use tinywasm.Memory.PagedMemory.Flat.{chunk_bytes}
use tinywasm.Memory.PagedMemory.Models.{
  Models, chunk_offset-lt, split, chunk_mut_lem, put_chunk-Models,
}
use tinywasm.Memory.PagedMemory.Zeroing.{zero_chunk_lem}
use tinywasm.Memory.PagedMemory.Access.{fill_end_lem}

module _ (host : Host) where
  pub write_all_loop_lem :
      (f : ℕ) (m : PagedMemory) (bs : List ℕ) (pos end : ℕ) (src : List ℕ) (o : ℕ)
      → Models host m bs
      → end ≤ length bs
      → pos + length src ≡ end + o
      → o ≤ length src
      → end < pos + f
      → let out = write_all_loop host f m pos end src o in
        (out.0 ≡ true) × Models host out.1 (overwrite bs pos (drop o src))
  unfolding write_all_loop
  write_all_loop_lem zero m bs pos end src o v h e p q = absurd (omega arith)
  write_all_loop_lem (suc f) m bs pos end src o v h e p q = elim (Bool-cases (ltb pos end)) [
    | inl more ↦
        let lt : pos < end = ltb→lt pos end more in
        let n : ℕ = min (m.chunk_size - chunk_offset m pos) (end - pos) in
        let off : chunk_offset m pos < m.chunk_size = chunk_offset-lt v pos in
        let size : length (slice src o n) ≡ n = length-slice src o n (omega arith) in
        let m' : PagedMemory = put_chunk m (chunk_idx m pos) (
          some (
            overwrite (chunk_bytes m.chunk_size (get_or m.chunks (chunk_idx m pos) none))
              (chunk_offset m pos) (slice src o n))) in
        let v' : Models host m' (overwrite bs pos (slice src o n)) =
          put_chunk-Models v pos (slice src o n) _ (omega arith) (omega (arith, size))
            (omega (arith, size)) refl in
        let ih =
          write_all_loop_lem f m' (overwrite bs pos (slice src o n)) (pos + n) end src (o + n) v'
            (omega (arith, length-overwrite bs pos (slice src o n))) (omega arith) (omega arith)
            (omega arith) in
        rw (more, write_all_loop, chunk_mut_lem v (chunk_idx m pos))
          (ih.0, rw (overwrite-cut bs pos src o n (omega arith)) at ih.1)
    | inr stop ↦
        rw
          (
            stop,
            write_all_loop,
            drop_all src o (omega (arith, ltb→le pos end stop)),
            overwrite-nil bs pos,
          )
          (refl, v)
  ]

  fill_round_lem :
      (m : PagedMemory) (bs : List ℕ) (pos n val : ℕ)
      → Models host m bs
      → 0 < n
      → pos + n ≤ length bs
      → chunk_offset m pos + n ≤ m.chunk_size
      → (m' : PagedMemory) × (fill_round host m pos n val ≡ ok m')
        × Models host m' (fill_range bs pos n val)
  unfolding fill_round
  fill_round_lem m bs pos n val v p h k = elim (Bool-cases (val == 0)) [
    | inl zeroes ↦
        let e : val ≡ 0 = ground arith in
        (zero_chunk m pos n, rw zeroes, rw e (zero_chunk_lem v pos n p h k))
    | inr other ↦ (
      put_chunk m (chunk_idx m pos) (
          some (
            fill_range (chunk_bytes m.chunk_size (get_or m.chunks (chunk_idx m pos) none))
              (chunk_offset m pos) n val)),
      rw (other, chunk_mut_lem v (chunk_idx m pos)),
      put_chunk-Models v pos (replicate n val) _ (omega arith)
          (omega (arith, length-replicate n val)) (omega (arith, length-replicate n val)) refl,
    )
  ]

  pub fill_loop_lem :
      (f : ℕ) (m : PagedMemory) (bs : List ℕ) (pos end val : ℕ)
      → Models host m bs
      → pos ≤ end
      → end ≤ length bs
      → end < pos + f
      → let out = fill_loop host f m pos end val in
        (out.0 ≡ true) × Models host out.1 (fill_range bs pos (end - pos) val)
  unfolding fill_loop
  fill_loop_lem zero m bs pos end val v l h q = absurd (omega arith)
  fill_loop_lem (suc f) m bs pos end val v l h q = elim (Bool-cases (ltb pos end)) [
    | inl more ↦
        let lt : pos < end = ltb→lt pos end more in
        let off : chunk_offset m pos < m.chunk_size = chunk_offset-lt v pos in
        let stop : fill_end m pos end ≡ min (pos - chunk_offset m pos + m.chunk_size) end =
          fill_end_lem v pos end lt h in
        let below : chunk_offset m pos ≤ pos = omega (arith, split v pos) in
        let n : ℕ = wrapping_sub (fill_end m pos end) pos in
        let n_lem : pos + n ≡ fill_end m pos end = omega (arith, v.bounded) in
        let round =
          fill_round_lem m bs pos n val v (omega (arith, stop)) (omega (arith, stop))
            (omega (arith, stop)) in
        let ih =
          fill_loop_lem f round.0 (fill_range bs pos n val) (fill_end m pos end) end val round.2
            (omega arith) (omega (arith, length-overwrite bs pos (replicate n val)))
            (omega (arith, stop)) in
        let left : ℕ = end - fill_end m pos end in
        let e : n + left ≡ end - pos = omega arith in
        let joined : overwrite (fill_range bs pos n val) (fill_end m pos end) (replicate left val)
            ≡ fill_range bs pos (end - pos) val =
          ap (λ (t : ℕ). overwrite (fill_range bs pos n val) t (replicate left val)) (sym n_lem)
          ∙ overwrite-replicates bs pos n left val
          ∙ ap (λ (t : ℕ). overwrite bs pos (replicate t val)) e in
        rw (more, fill_loop, round.1) (ih.0, rw joined at ih.1)
    | inr done ↦
        rw
          (
            done,
            fill_loop,
            replicate-nil val (end - pos) (omega (arith, ltb→le pos end done)),
            overwrite-nil bs pos,
          )
          (refl, v)
  ]
