-- ===== src/Memory/PagedMemory/Moving.antt =====
-- `copy_within` of the paged memory, and its shortcut within one chunk.
use tinywasm.Prelude.{
  ℕ, ◌+◌, ◌≤◌, ◌<◌, ◌≡◌, refl, sym, ap, ◌∙◌, Bool, true, false, none, some, List, length, get_or,
  replicate, overwrite, slice, arith, inl, inr, move_within, Bool-cases, Option-cases, ltb, leb→le,
  le→leb, ne→==, if◌then◌else◌, ◌==◌, ◌||◌, length-slice, slice-replicate, overwrite-slice_self,
  move_within_still,
}
use tinywasm.Host.{Host}
use tinywasm.Memory.Interface.{range_fits, copy_overlapping}
use tinywasm.Memory.Laws.{within, Updates}
use tinywasm.Memory.PagedMemory.Ranges.{reads_exact, writes_all}
use tinywasm.Memory.Copying.{copy_overlapping_lem}
use tinywasm.Memory.PagedMemory.{
  PagedMemory, chunk_idx, chunk_offset, chunk_slice, put_chunk, copy_within_single_chunk,
  copy_within, read_exact, write_all,
}
use tinywasm.Memory.PagedMemory.Flat.{chunk_bytes}
use tinywasm.Memory.PagedMemory.Models.{Models, slice_chunk, put_chunk-Models, fits-within}

module _ {host : Host} {m : PagedMemory} {bs : List ℕ} (v : Models host m bs) (dst src n : ℕ) where
  module _ (pos : 0 < n) (hs : src + n ≤ length bs) (hd : dst + n ≤ length bs)
      (same : chunk_idx m src ≡ chunk_idx m dst) (ks : chunk_offset m src + n ≤ m.chunk_size)
      (kd : chunk_offset m dst + n ≤ m.chunk_size) where
    moved :
        (c : List ℕ)
        → get_or m.chunks (chunk_idx m src) none ≡ some c
        → Models host
            (put_chunk m
              (chunk_idx m src)
              (some (move_within c (chunk_offset m src) n (chunk_offset m dst))))
            (move_within bs src n dst)
    moved c there =
        let read : slice c (chunk_offset m src) n ≡ slice bs src n =
          rw there at (slice_chunk v src n (omega arith) hs ks) in
        let size : length (slice bs src n) ≡ n = length-slice bs src n hs in
        rw (read, same)
          (put_chunk-Models v dst (slice bs src n) _ (omega arith) (omega arith) (omega arith)
            (rw (← same, there)))

    -- Zeroes move onto zeroes.
    absent : get_or m.chunks (chunk_idx m src) none ≡ none → move_within bs src n dst ≡ bs
    absent gone =
        let from : slice bs src n ≡ replicate n 0 =
          sym (slice_chunk v src n (omega arith) hs ks)
          ∙ ap (λ t. slice (chunk_bytes m.chunk_size t) (chunk_offset m src) n) gone
          ∙ slice-replicate 0 m.chunk_size (chunk_offset m src) n ks in
        let to : slice bs dst n ≡ replicate n 0 =
          sym (slice_chunk v dst n (omega arith) hd kd)
          ∙ ap (λ t. slice (chunk_bytes m.chunk_size t) (chunk_offset m dst) n)
              (ap (λ (t : ℕ). get_or m.chunks t none) (sym same) ∙ gone)
          ∙ slice-replicate 0 m.chunk_size (chunk_offset m dst) n kd in
        ap (λ t. overwrite bs dst t) (from ∙ sym to) ∙ overwrite-slice_self bs dst n

  -- The shortcut either declines and leaves the memory, or does the move.
  single_chunk_lem :
      0 < n
      → src + n ≤ length bs
      → dst + n ≤ length bs
      → let out = copy_within_single_chunk m dst src n in
        Models host out.1 (if out.0 then move_within bs src n dst else bs)
  unfolding copy_within_single_chunk chunk_slice
  single_chunk_lem pos hs hd =
      let in_src : range_fits m.len src n ≡ true = fits-within v src n ∙ le→leb _ _ hs in
      let in_dst : range_fits m.len dst n ≡ true = fits-within v dst n ∙ le→leb _ _ hd in
      rw (ne→== n 0 (omega arith), in_src, in_dst)
        (elim (Bool-cases (chunk_idx m src == chunk_idx m dst)) [
          | inr apart ↦ rw apart v
          | inl one ↦
              rw one
                (elim (Bool-cases (
                  ltb m.chunk_size (chunk_offset m src + n)
                  || ltb m.chunk_size (chunk_offset m dst + n))) [
                    | inl crosses ↦ rw crosses v
                    | inr fits ↦
                        rw fits (elim (Option-cases (get_or m.chunks (chunk_idx m src) none)) [
                          | inl gone ↦
                              rw
                                (
                                  gone,
                                  absent pos hs hd (ground arith) (ground arith) (ground arith)
                                      gone,
                                )
                                v
                          | inr (c, there) ↦
                              rw there (
                                moved pos hs hd (ground arith) (ground arith) (ground arith) c
                                  there)
                        ])
                  ])
        ])

  copy_within_inside :
      src + n ≤ length bs
      → dst + n ≤ length bs
      → let shortcut : Bool × PagedMemory = copy_within_single_chunk m dst src n in
        let out : Bool × PagedMemory =
          if n == 0 || (dst == src)
          then (true, m)
          else (if shortcut.0
              then (true, shortcut.1)
              else copy_overlapping read_exact (write_all host) 256 shortcut.1 dst src n) in
        Updates (Models host) bs true (move_within bs src n dst) out
  copy_within_inside hs hd = elim (Bool-cases (n == 0 || (dst == src))) [
    | inl still ↦
        rw still
          (record { done = refl; after = rw (move_within_still bs src n dst (ground arith)) v })
    | inr moves ↦
        let short = single_chunk_lem (ground arith) hs hd in
        rw moves (elim (Bool-cases (copy_within_single_chunk m dst src n).0) [
          | inl done ↦ rw done (record { done = refl; after = rw done at short })
          | inr declined ↦
              let w =
                copy_overlapping_lem (Models host) read_exact (reads_exact host) (write_all host)
                  (writes_all host) 256 (omega arith) _ bs dst src n (rw declined at short) hs hd in
              rw declined (record { done = w.0; after = w.1 })
        ])
  ]

  pub copies :
      Updates
        (Models host)
        bs
        (if within bs src n then within bs dst n else false)
        (move_within bs src n dst)
        (copy_within host m dst src n)
  unfolding copy_within
  copies =
      rw (fits-within v src n, fits-within v dst n)
        (elim (Bool-cases (within bs src n)) [
          | inr outside ↦ rw outside (record { done = refl; after = v })
          | inl from ↦ elim (Bool-cases (within bs dst n)) [
            | inr outside ↦ rw (from, outside) (record { done = refl; after = v })
            | inl to ↦ rw (from, to) (copy_within_inside (leb→le _ _ from) (leb→le _ _ to))
          ]
        ])
