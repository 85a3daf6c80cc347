-- ===== src/Memory/VecMemory/Contract.antt =====
-- The vector memory keeps the contract of `LinearMemory`: it is the flat list of its bytes.
use tinywasm.Prelude.{
  ℕ, ◌-◌, ◌≤◌, ◌<◌, ◌≡◌, refl, ap, inl, inr, min, true, false, none, some, List, ◌==◌,
  if◌then◌else◌, length, take, replicate, overwrite, slice, fill_range, move_within, arith,
  Bool-cases, length-resize, set-overwrite, slice_one, length-overwrite, le→ltb,
}
use tinywasm.Prelude.Word.{isize_max}
use tinywasm.Host.{Host, try_reserve_bytes}
use tinywasm.Trap.{ok, err}
use tinywasm.Memory.Interface.{memory_oob}
use tinywasm.Memory.Laws.{within, ReadsSome, WritesSome, Updates, Grows, grown, refused, Laws}
use tinywasm.Memory.Defaults.{range_fits-within}
use tinywasm.Memory.VecMemory.{
  VecMemory, len, grow_to, read, write, write_all, fill, copy_within, read_exact, read_vec, read_8,
  read_fixed, write_8, write_fixed, vec_memory, check_fixed_addr,
}

abbrev pub Models : VecMemory → List ℕ → Type 0
Models m bs = (m.bytes ≡ bs) × (length bs ≤ isize_max)

check_fixed_addr_lem :
    (n : ℕ) (m : VecMemory) (a : ℕ)
    → check_fixed_addr n m a
      ≡ (if within m.bytes a n then ok tt else err (memory_oob a n (length m.bytes)))
unfolding check_fixed_addr
check_fixed_addr_lem n m a = ground arith

module _ (host : Host) where
  reads :
      (m : VecMemory) (bs : List ℕ) (a : ℕ) (dst : List ℕ)
      → Models m bs
      → a < length bs
      → 0 < length dst
      → ReadsSome bs a dst (read m a dst)
  unfolding read
  reads m bs a dst v h k = rw v.0 (ground arith)

  writes :
      (m : VecMemory) (bs : List ℕ) (a : ℕ) (src : List ℕ)
      → Models m bs
      → a < length bs
      → 0 < length src
      → WritesSome Models bs a src (write m a src)
  unfolding write
  writes m bs a src v h k =
      rw v.0 (ground (arith, length-overwrite bs a (take (min (length src) (length bs - a)) src)))

  grows :
      (m : VecMemory) (bs : List ℕ) (n : ℕ)
      → Models m bs
      → length bs ≤ n
      → n ≤ isize_max
      → Grows Models bs n (grow_to host m n)
  unfolding grow_to
  grows m bs n v h k =
      rw (v.0, le→ltb n (length bs) h)
        (elim (Bool-cases (try_reserve_bytes host n)) [
          | inl room ↦ rw room (grown refl (refl, rw (length-resize bs n 0 h) k))
          | inr full ↦ rw full (refused refl (refl, v.1))
        ])

  reads_exact :
      (m : VecMemory) (bs : List ℕ) (a : ℕ) (dst : List ℕ)
      → Models m bs
      → read_exact m a dst
        ≡ (if within bs a (length dst) then (true, slice bs a (length dst)) else (false, dst))
  unfolding read_exact
  reads_exact m bs a dst v = rw (v.0, range_fits-within bs a (length dst) v.1)

  reads_vec :
      (m : VecMemory) (bs : List ℕ) (a n : ℕ)
      → Models m bs
      → read_vec m a n ≡ (if within bs a n then some (slice bs a n) else none)
  unfolding read_vec
  reads_vec m bs a n v = rw (v.0, range_fits-within bs a n v.1)

  writes_all :
      (m : VecMemory) (bs : List ℕ) (a : ℕ) (src : List ℕ)
      → Models m bs
      → Updates Models bs (within bs a (length src)) (overwrite bs a src) (write_all m a src)
  unfolding write_all
  writes_all m bs a src v =
      rw (v.0, range_fits-within bs a (length src) v.1) (ground (arith, length-overwrite bs a src))

  fills :
      (m : VecMemory) (bs : List ℕ) (a n val : ℕ)
      → Models m bs
      → Updates Models bs (within bs a n) (fill_range bs a n val) (fill m a n val)
  unfolding fill
  fills m bs a n val v =
      rw (v.0, range_fits-within bs a n v.1)
        (ground (arith, length-overwrite bs a (replicate n val)))

  copies :
      (m : VecMemory) (bs : List ℕ) (dst src n : ℕ)
      → Models m bs
      → Updates Models bs
          (if within bs src n then within bs dst n else false)
          (move_within bs src n dst)
          (copy_within m dst src n)
  unfolding copy_within
  copies m bs dst src n v =
      rw (v.0, range_fits-within bs src n v.1, range_fits-within bs dst n v.1)
        (ground (arith, length-overwrite bs dst (slice bs src n)))

  reads_fixed :
      (m : VecMemory) (bs : List ℕ) (n a : ℕ)
      → Models m bs
      → 0 < n
      → (if n == 1 then read_8 m a else read_fixed n m a)
        ≡ (if within bs a n then ok (slice bs a n) else err (memory_oob a n (length bs)))
  unfolding read_8 read_fixed
  reads_fixed m bs n a v h = elim (Bool-cases (n == 1)) [
    | inl one ↦
        let e : n ≡ 1 = ground arith in
        rw (e, check_fixed_addr_lem 1 m a, v.0) (ground (arith, slice_one bs a 0))
    | inr more ↦ rw (more, check_fixed_addr_lem n m a, v.0) (ground arith)
  ]

  writes_fixed :
      (m : VecMemory) (bs : List ℕ) (n a : ℕ) (src : List ℕ)
      → Models m bs
      → 0 < n
      → length src ≡ n
      → let out = if n == 1 then write_8 m a src else write_fixed n m a src in
        (out.0 ≡ (if within bs a n then ok tt else err (memory_oob a n (length bs))))
        × Models out.1 (if within bs a n then overwrite bs a src else bs)
  unfolding write_8 write_fixed
  writes_fixed m bs n a src v h e = elim (Bool-cases (n == 1)) [
    | inl one ↦
        let e1 : n ≡ 1 = ground arith in
        ground (
          arith,
          e1,
          check_fixed_addr_lem 1 m a,
          set-overwrite bs a src 0,
          length-overwrite bs a src,
        )
    | inr more ↦ ground (arith, check_fixed_addr_lem n m a, length-overwrite bs a src)
  ]

  -- For every host, the vector memory keeps the contract of `LinearMemory` for the list of its
  -- bytes, if they are at most `isize::MAX`.
  pub vec_memory-Laws : Laws (vec_memory host) Models
  unfolding len
  vec_memory-Laws = record {
    models_len = λ m bs v. ap length v.0;
    bounded = λ m bs v. v.1;
    reads = reads;
    writes = writes;
    grows = grows;
    reads_exact = reads_exact;
    reads_vec = reads_vec;
    writes_all = writes_all;
    fills = fills;
    copies = copies;
    reads_fixed = reads_fixed;
    writes_fixed = writes_fixed;
  }
