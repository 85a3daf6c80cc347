-- ===== src/Memory/MemoryInstance/Copies.antt =====
-- MemoryInstance::copy_from_memory and copy_within: bytes from one memory to another, or within one.
use tinywasm.Prelude.{
  ℕ, zero, suc, ◌+◌, ◌-◌, ◌≤◌, ◌<◌, ◌≡◌, refl, ap, ap₂, ◌∙◌, inl, inr, Bool, true, false, min, List,
  ltb, ◌==◌, if◌then◌else◌, length, take, replicate, overwrite, slice, move_within, Bool-cases,
  arith, ltb→lt, ltb→le, leb→le, le→leb, length-overwrite, length-replicate, length-slice,
  overwrite-nil, slice-nil, overwrite-slices, take-length,
}
use tinywasm.Prelude.Word.{isize_max}
use tinywasm.Trap.{ok, err}
use tinywasm.Memory.Interface.{LinearMemory, memory_oob}
use tinywasm.Memory.Laws.{within, Updates, Laws}
use tinywasm.Memory.MemoryInstance.{
  MemoryInstance, copy_chunk_size, check_range, copy_within, copy_from_round, copy_from_loop,
  copy_from_memory,
}

module _ {M : Type 0} (ops : LinearMemory M) (Models : M → List ℕ → Type 0)
    (laws : Laws ops Models) where
  -- The test of a range says where the range lies, and its error names the range.
  check_range_lem :
      (m : M) (bs : List ℕ) (a n : ℕ)
      → Models m bs
      → check_range ops m a n ≡ (if within bs a n then ok tt else err (memory_oob a n (length bs)))
  unfolding check_range
  check_range_lem m bs a n v =
      let limit : length bs ≤ isize_max = laws.bounded m bs v in
      let same : ops.len m ≡ length bs = laws.models_len m bs v in grind (arith, limit, same)

  -- `copy_within` of an instance whose storage keeps the contract moves the range when both ranges
  -- lie in the memory, and otherwise changes nothing and traps with the destination; the number of
  -- pages stays.
  pub copy_inside_lem :
      (self : MemoryInstance M) (bs : List ℕ) (dst src n : ℕ)
      → Models self.inner bs
      → let inside = if within bs src n then within bs dst n else false in
        ((copy_within ops self dst src n).0
          ≡ (if inside then ok tt else err (memory_oob dst n (length bs))))
        × (Models
              (copy_within ops self dst src n).1.inner
              (if inside then move_within bs src n dst else bs)
            × ((copy_within ops self dst src n).1.page_count ≡ self.page_count))
  unfolding copy_within
  copy_inside_lem self bs dst src n v =
      let inside : Bool = if within bs src n then within bs dst n else false in
      let moved = laws.copies self.inner bs dst src n v in
      let size : length (if inside then move_within bs src n dst else bs) ≡ length bs =
        elim (Bool-cases inside) [
          | inl e ↦ rw e (length-overwrite bs dst (slice bs src n))
          | inr e ↦ rw e refl
        ] in
      let after : ops.len (ops.copy_within self.inner dst src n).1 ≡ length bs =
        laws.models_len _ _ moved.after ∙ size in
      (
        ap₂ (λ t l. if t then ok tt else err (memory_oob dst n l)) moved.done after,
        (moved.after, refl),
      )

module _ {M N : Type 0} (ops : LinearMemory M) (Models : M → List ℕ → Type 0)
    (laws : Laws ops Models) (from : LinearMemory N) (Stands : N → List ℕ → Type 0)
    (from_laws : Laws from Stands) where
  -- A round inside both memories copies its bytes, and keeps the size of the buffer.
  copy_from_round_lem :
      (m : M) (bs : List ℕ) (dst : ℕ) (source : N) (cs : List ℕ) (src n : ℕ) (buf : List ℕ)
      → Models m bs
      → Stands source cs
      → src + n ≤ length cs
      → dst + n ≤ length bs
      → n ≤ length buf
      → let out = copy_from_round ops from m dst source src n buf in
        (out.0.0 ≡ ok tt)
        × (Models out.0.1 (overwrite bs dst (slice cs src n)) × (length out.1 ≡ length buf))
  unfolding copy_from_round
  copy_from_round_lem m bs dst source cs src n buf v w hs hd room =
      let size : length (take n buf) ≡ n = take-length n buf room in
      let inside : within cs src n ≡ true = le→leb _ _ hs in
      let got : from.read_exact source src (take n buf) ≡ (true, slice cs src n) =
        rw (size, inside) at (from_laws.reads_exact source cs src (take n buf) w) in
      let to : within bs dst n ≡ true = le→leb _ _ hd in
      let put : Updates Models bs true (overwrite bs dst (slice cs src n))
          (ops.write_all m dst (slice cs src n)) =
        rw (length-slice cs src n hs, to) at (laws.writes_all m bs dst (slice cs src n) v) in
      rw (copy_from_round, ap (λ t. t.0) got, ap (λ t. t.1) got, put.done)
        (refl, (put.after, length-overwrite buf 0 (slice cs src n)))

  copy_from_loop_lem :
      (f : ℕ) (m : M) (bs : List ℕ) (dst : ℕ) (source : N) (cs : List ℕ) (src n o : ℕ)
      (buf : List ℕ)
      → Models m (overwrite bs dst (slice cs src o))
      → Stands source cs
      → src + n ≤ length cs
      → dst + n ≤ length bs
      → 0 < length buf
      → o ≤ n
      → n < o + f
      → let out = copy_from_loop ops from f m dst source src n o buf in
        (out.0 ≡ ok tt) × Models out.1 (overwrite bs dst (slice cs src n))
  unfolding copy_from_loop
  copy_from_loop_lem zero m bs dst source cs src n o buf v w hs hd room p q = absurd (omega arith)
  copy_from_loop_lem (suc f) m bs dst source cs src n o buf v w hs hd room p q =
      elim (Bool-cases (ltb o n)) [
        | inl more ↦
            let lt : o < n = ltb→lt o n more in
            let c : ℕ = min (length buf) (n - o) in
            let cur : List ℕ = overwrite bs dst (slice cs src o) in
            let long : length cur ≡ length bs = length-overwrite bs dst (slice cs src o) in
            let out = copy_from_round ops from m (dst + o) source (src + o) c buf in
            let round =
              copy_from_round_lem m cur (dst + o) source cs (src + o) c buf v w (omega arith)
                (omega arith) (omega arith) in
            let joined : overwrite cur (dst + o) (slice cs (src + o) c)
                ≡ overwrite bs dst (slice cs src (o + c)) =
              overwrite-slices bs dst cs src o c (omega arith) in
            let ih =
              copy_from_loop_lem f out.0.1 bs dst source cs src n (o + c) out.1
                (rw joined at round.1.0) w hs hd (omega (arith, round.1.1)) (omega arith)
                (omega arith) in
            rw (more, copy_from_loop, round.0) ih
        | inr stop ↦
            let e : o ≡ n = omega (arith, ltb→le o n stop) in
            rw (stop, copy_from_loop) (refl, rw e at v)
      ]

  -- Between two memories whose storages keep the contract, the bytes go from one to the other when
  -- both ranges fit; the first range that does not fit is reported, the source's before the
  -- destination's, and then nothing is written. The number of pages stays.
  pub copy_from_memory_lem :
      (self : MemoryInstance M) (bs : List ℕ) (dst : ℕ) (source : MemoryInstance N) (cs : List ℕ)
      (src n : ℕ)
      → Models self.inner bs
      → Stands source.inner cs
      → let out = copy_from_memory ops from self dst source src n in
        let inside = if within cs src n then within bs dst n else false in
        (out.0 ≡ (
          if within cs src n
          then (if within bs dst n then ok tt else err (memory_oob dst n (length bs)))
          else err (memory_oob src n (length cs))))
        × (Models out.1.inner (if inside then overwrite bs dst (slice cs src n) else bs)
            × (out.1.page_count ≡ self.page_count))
  unfolding copy_from_memory
  copy_from_memory_lem self bs dst source cs src n v w =
      let rs = check_range_lem from Stands from_laws source.inner cs src n w in
      let rd = check_range_lem ops Models laws self.inner bs dst n v in
      elim (Bool-cases (within cs src n)) [
        | inr out ↦ rw (copy_from_memory, rs, out) (refl, (v, refl))
        | inl hs ↦ elim (Bool-cases (within bs dst n)) [
          | inr out ↦ rw (copy_from_memory, rs, rd, hs, out) (refl, (v, refl))
          | inl hd ↦ elim (Bool-cases (n == 0)) [
            | inl nothing ↦
                let e : n ≡ 0 = ground (arith, nothing) in
                rw
                  (
                    copy_from_memory,
                    rs,
                    rd,
                    hs,
                    hd,
                    nothing,
                    slice-nil cs src n e,
                    overwrite-nil bs dst,
                  )
                  (refl, (v, refl))
            | inr more ↦
                let start : Models self.inner (overwrite bs dst (slice cs src 0)) =
                  rw (slice-nil cs src 0 refl, overwrite-nil bs dst) v in
                let done =
                  copy_from_loop_lem (suc n) self.inner bs dst source.inner cs src n 0
                    (replicate copy_chunk_size 0) start w (leb→le _ _ hs) (leb→le _ _ hd)
                    (omega (arith, length-replicate {A = ℕ} copy_chunk_size 0)) (omega arith)
                    (omega arith) in
                rw (copy_from_memory, rs, rd, hs, hd, more) (done.0, (done.1, refl))
          ]
        ]
      ]
