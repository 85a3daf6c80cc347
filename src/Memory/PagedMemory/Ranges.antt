-- ===== src/Memory/PagedMemory/Ranges.antt =====
-- `read_exact`, `write_all` and `fill` of the paged memory on whole ranges.
use tinywasm.Prelude.{
  ℕ, suc, ◌+◌, ◌-◌, ◌≡◌, refl, true, false, List, length, overwrite, slice, arith, inl, inr,
  fill_range, Bool-cases, leb→le, if◌then◌else◌,
}
use tinywasm.Host.{Host}
use tinywasm.Memory.Laws.{within, Updates}
use tinywasm.Memory.Defaults.{read_exact_lem}
use tinywasm.Memory.PagedMemory.{PagedMemory, read, read_exact, write_all, fill}
use tinywasm.Memory.PagedMemory.Models.{Models, fits-within}
use tinywasm.Memory.PagedMemory.Access.{reads}
use tinywasm.Memory.PagedMemory.Loops.{write_all_loop_lem, fill_loop_lem}

module _ (host : Host) where
  pub reads_exact :
      (m : PagedMemory) (bs : List ℕ) (a : ℕ) (dst : List ℕ)
      → Models host m bs
      → read_exact m a dst
        ≡ (if within bs a (length dst) then (true, slice bs a (length dst)) else (false, dst))
  unfolding read_exact
  reads_exact m bs a dst v =
      read_exact_lem (Models host) (λ k. k.len) read (λ k cs b d w. reads w b d) m bs a dst v v.lens
        v.bounded

  pub writes_all :
      (m : PagedMemory) (bs : List ℕ) (a : ℕ) (src : List ℕ)
      → Models host m bs
      → Updates
          (Models host)
          bs
          (within bs a (length src))
          (overwrite bs a src)
          (write_all host m a src)
  unfolding write_all
  writes_all m bs a src v = elim (Bool-cases (within bs a (length src))) [
    | inl inside ↦
        let w =
          write_all_loop_lem host (suc (length src)) m bs a (a + length src) src 0 v
            (leb→le _ _ inside) (omega arith) (omega arith) (omega arith) in
        rw (fits-within v a (length src), inside) (record { done = w.0; after = w.1 })
    | inr outside ↦ rw (fits-within v a (length src), outside) (record { done = refl; after = v })
  ]

  pub fills :
      (m : PagedMemory) (bs : List ℕ) (a n val : ℕ)
      → Models host m bs
      → Updates (Models host) bs (within bs a n) (fill_range bs a n val) (fill host m a n val)
  unfolding fill
  fills m bs a n val v = elim (Bool-cases (within bs a n)) [
    | inl inside ↦
        let w =
          fill_loop_lem host (suc n) m bs a (a + n) val v (omega arith) (leb→le _ _ inside)
            (omega arith) in
        let e : a + n - a ≡ n = omega arith in
        rw (fits-within v a n, inside) (record { done = w.0; after = rw e at w.1 })
    | inr outside ↦ rw (fits-within v a n, outside) (record { done = refl; after = v })
  ]
