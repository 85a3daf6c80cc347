-- ===== src/Memory/PagedMemory/Contract.antt =====
-- The paged memory keeps the contract of `LinearMemory`, as the vector memory does.
use tinywasm.Prelude.{
  ℕ, ◌<◌, ◌≡◌, refl, sym, ap, ◌∙◌, true, false, Option, none, some, List, [], ◌∷◌, length, get_or,
  overwrite, slice, arith, inl, inr, Bool-cases, leb, le→leb, lt→leb, leb→le, leb→lt, ◌==◌,
  if◌then◌else◌,
}
use tinywasm.Host.{Host}
use tinywasm.Trap.{Result, ok, err}
use tinywasm.Memory.Interface.{memory_oob}
use tinywasm.Memory.Laws.{within, Laws}
use tinywasm.Memory.Derived.{read_vec_lem, read_fixed_lem, write_fixed_lem}
use tinywasm.Memory.PagedMemory.{
  PagedMemory, chunk_idx, chunk_offset, chunk_slice, read_8, write_8, read_exact, write_all,
  paged_memory,
}
use tinywasm.Memory.PagedMemory.Flat.{chunk_bytes, AllFull-at}
use tinywasm.Memory.PagedMemory.Models.{
  Models, chunk_offset-lt, slice_chunk, chunk_mut_lem, put_chunk-Models, chunk_idx-lt,
}
use tinywasm.Memory.PagedMemory.Access.{reads, writes}
use tinywasm.Memory.PagedMemory.Growth.{grows}
use tinywasm.Memory.PagedMemory.Ranges.{reads_exact, writes_all, fills}
use tinywasm.Memory.PagedMemory.Moving.{copies}
use tinywasm.Prelude.{set-overwrite, slice_one, slice-replicate}

module _ (host : Host) where
  -- One byte of a chunk, which is zero when the chunk is not there.
  byte_at :
      (cs o : ℕ) (c : Option (List ℕ))
      → length (chunk_bytes cs c) ≡ cs
      → o < cs
      → (elim c as (λ w. Result (List ℕ)) [
        | some chunk ↦ ok (get_or chunk o 0 ∷ [])
        | none ↦ ok (0 ∷ [])
      ])
        ≡ ok (slice (chunk_bytes cs c) o 1)
  byte_at cs o none h p = ap ok (sym (slice-replicate 0 cs o 1 (omega arith)))
  byte_at cs o (some chunk) h p = ap ok (sym (slice_one chunk o 0 (omega (arith, h))))

  read_8_lem :
      (m : PagedMemory) (bs : List ℕ) (a : ℕ)
      → Models host m bs
      → read_8 m a ≡ (if within bs a 1 then ok (slice bs a 1) else err (memory_oob a 1 (length bs)))
  unfolding read_8 chunk_slice
  read_8_lem m bs a v = elim (Bool-cases (within bs a 1)) [
    | inl inside ↦
        let h : a < length bs = omega (arith, leb→le _ _ inside) in
        let here : leb m.len a ≡ false = lt→leb m.len a (omega (arith, v.lens)) in
        let room : chunk_offset m a < m.chunk_size = chunk_offset-lt v a in
        rw (inside, here)
          (byte_at m.chunk_size (chunk_offset m a) (get_or m.chunks (chunk_idx m a) none)
              (AllFull-at m.chunk_size m.chunks (chunk_idx m a) v.full (chunk_idx-lt v a h)) room
            ∙ ap ok (slice_chunk v a 1 h (omega arith) (omega arith)))
    | inr outside ↦
        let past : leb m.len a ≡ true =
          le→leb m.len a (omega (arith, v.lens, leb→lt _ _ outside)) in
        rw (outside, past) (ap (λ (t : ℕ). err (memory_oob a 1 t)) v.lens)
  ]

  write_8_lem :
      (m : PagedMemory) (bs : List ℕ) (a : ℕ) (src : List ℕ)
      → Models host m bs
      → length src ≡ 1
      → ((write_8 host m a src).0
          ≡ (if within bs a 1 then ok tt else err (memory_oob a 1 (length bs))))
        × Models host (write_8 host m a src).1 (if within bs a 1 then overwrite bs a src else bs)
  unfolding write_8
  write_8_lem m bs a src v e = elim (Bool-cases (within bs a 1)) [
    | inl inside ↦
        let h : a < length bs = omega (arith, leb→le _ _ inside) in
        let here : leb m.len a ≡ false = lt→leb m.len a (omega (arith, v.lens)) in
        let room : chunk_offset m a < m.chunk_size = chunk_offset-lt v a in
        rw (inside, here, chunk_mut_lem v (chunk_idx m a))
          (
            refl,
            put_chunk-Models v a src _ h (omega (arith, leb→le _ _ inside)) (omega arith)
                (set-overwrite _ (chunk_offset m a) src 0 e),
          )
    | inr outside ↦
        let past : leb m.len a ≡ true =
          le→leb m.len a (omega (arith, v.lens, leb→lt _ _ outside)) in
        rw (outside, past) (ap (λ (t : ℕ). err (memory_oob a 1 t)) v.lens, v)
  ]

  reads_fixed :
      (m : PagedMemory) (bs : List ℕ) (n a : ℕ)
      → Models host m bs
      → 0 < n
      → (paged_memory host).read_fixed n m a
        ≡ (if within bs a n then ok (slice bs a n) else err (memory_oob a n (length bs)))
  reads_fixed m bs n a v p = elim (Bool-cases (n == 1)) [
    | inl one ↦ let e : n ≡ 1 = ground arith in rw e (read_8_lem m bs a v)
    | inr more ↦ rw more (
        read_fixed_lem (Models host) (λ k. k.len) (λ k cs w. w.lens) (λ k cs w. w.bounded)
          read_exact (reads_exact host) m bs n a v)
  ]

  writes_fixed :
      (m : PagedMemory) (bs : List ℕ) (n a : ℕ) (src : List ℕ)
      → Models host m bs
      → 0 < n
      → length src ≡ n
      → (((paged_memory host).write_fixed n m a src).0
          ≡ (if within bs a n then ok tt else err (memory_oob a n (length bs))))
        × Models host
            ((paged_memory host).write_fixed n m a src).1
            (if within bs a n then overwrite bs a src else bs)
  writes_fixed m bs n a src v p size = elim (Bool-cases (n == 1)) [
    | inl one ↦ let e : n ≡ 1 = ground arith in rw e (write_8_lem m bs a src v (omega arith))
    | inr more ↦ rw more (
        write_fixed_lem (Models host) (λ k. k.len) (λ k cs w. w.lens) (λ k cs w. w.bounded)
          (write_all host) (writes_all host) m bs n a src v size)
  ]

  -- For every host, a paged memory that stands for a flat list of bytes, with chunks of a size that
  -- the host can allocate at any time, keeps the contract of `LinearMemory`: every access, fill and
  -- copy reads or changes the bytes of its range, an access out of bounds changes nothing and
  -- fails, with the error of its range where it has one, and growth adds zeroes or fails for want
  -- of memory.
  pub paged_memory-Laws : Laws (paged_memory host) (Models host)
  paged_memory-Laws = record {
    models_len = λ m bs v. v.lens;
    bounded = λ m bs v. v.bounded;
    reads = λ m bs a dst v. reads v a dst;
    writes = λ m bs a src v. writes v a src;
    grows = λ m bs n v. grows v n;
    reads_exact = reads_exact host;
    reads_vec =
        read_vec_lem (Models host) (λ k. k.len) (λ k cs w. w.lens) (λ k cs w. w.bounded) read_exact
          (reads_exact host);
    writes_all = writes_all host;
    fills = fills host;
    copies = λ m bs dst src n v. copies v dst src n;
    reads_fixed = reads_fixed;
    writes_fixed = writes_fixed;
  }
