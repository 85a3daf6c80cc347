-- ===== src/Memory/Derived.antt =====
-- The default methods that go through `read_exact` and `write_all`: `fill`, `read_vec` and the
-- accesses of a fixed width.
use tinywasm.Prelude.{
  ℕ, zero, suc, ◌+◌, ◌-◌, ◌≤◌, ◌<◌, ◌≡◌, refl, ap, inl, inr, Bool, true, false, min, none, some,
  List, ltb, if◌then◌else◌, length, replicate, overwrite, slice, Bool-cases, arith, ltb→lt, ltb→le,
  leb→le, le→leb, length-overwrite, fill_range, length-replicate, overwrite-replicates,
  overwrite-nil, replicate-nil,
}
use tinywasm.Prelude.Word.{isize_max}
use native.Mathlib.Nat.{add-zero, sub-zero}
use tinywasm.Trap.{ok, err}
use tinywasm.Memory.Interface.{fill_loop, fill, write_fixed, read_vec, read_fixed, memory_oob}
use tinywasm.Memory.Laws.{within, Updates}
use tinywasm.Memory.Defaults.{range_fits-within}

module _ {M : Type 0} (Models : M → List ℕ → Type 0) (len : M → ℕ)
    (models_len : (m : M) (bs : List ℕ) → Models m bs → len m ≡ length bs)
    (bounded : (m : M) (bs : List ℕ) → Models m bs → length bs ≤ isize_max) where
  module _ (read_exact : M → ℕ → List ℕ → Bool × List ℕ)
      (reads_exact : (m : M) (bs : List ℕ) (a : ℕ) (dst : List ℕ)
        → Models m bs
        → read_exact m a dst ≡ (
            if within bs a (length dst)
            then (true, slice bs a (length dst))
            else (false, dst))) where
    reads_fresh :
        (m : M) (bs : List ℕ) (a n : ℕ)
        → Models m bs
        → read_exact m a (replicate n 0)
          ≡ (if within bs a n then (true, slice bs a n) else (false, replicate n 0))
    reads_fresh m bs a n v =
        rw (length-replicate {A = ℕ} n 0) at (reads_exact m bs a (replicate n 0) v)

    pub read_vec_lem :
        (m : M) (bs : List ℕ) (a n : ℕ)
        → Models m bs
        → read_vec len read_exact m a n ≡ (if within bs a n then some (slice bs a n) else none)
    unfolding read_vec
    read_vec_lem m bs a n v =
        rw (models_len m bs v, range_fits-within bs a n (bounded m bs v), reads_fresh m bs a n v)
          (ground arith)

    pub read_fixed_lem :
        (m : M) (bs : List ℕ) (n a : ℕ)
        → Models m bs
        → read_fixed len read_exact n m a
          ≡ (if within bs a n then ok (slice bs a n) else err (memory_oob a n (length bs)))
    unfolding read_fixed
    read_fixed_lem m bs n a v = rw (models_len m bs v, reads_fresh m bs a n v) (ground arith)

  module _ (write_all : M → ℕ → List ℕ → Bool × M)
      (writes_all : (m : M) (bs : List ℕ) (a : ℕ) (src : List ℕ)
        → Models m bs
        → Updates Models bs
            (within bs a (length src))
            (overwrite bs a src)
            (write_all m a src)) where
    fill_loop_lem :
        (f : ℕ) (m : M) (bs : List ℕ) (a n val o : ℕ)
        → Models m bs
        → a + n ≤ length bs
        → o ≤ n
        → n < o + f
        → let out = fill_loop len write_all f m a n val o in
          (out.0 ≡ true) × Models out.1 (overwrite bs (a + o) (replicate (n - o) val))
    unfolding fill_loop
    fill_loop_lem zero m bs a n val o v h p q = absurd (omega arith)
    fill_loop_lem (suc f) m bs a n val o v h p q = elim (Bool-cases (ltb o n)) [
      | inl more ↦
          let lt : o < n = ltb→lt o n more in
          let c : ℕ = min (n - o) 1024 in
          let out : Bool × M = write_all m (a + o) (replicate c val) in
          let size : length (replicate c val) ≡ c = length-replicate c val in
          let w : Updates Models bs (within bs (a + o) c) (overwrite bs (a + o) (replicate c val))
              out =
            rw size at (writes_all m bs (a + o) (replicate c val) v) in
          let inside : within bs (a + o) c ≡ true = le→leb _ _ (omega arith) in
          let bs' : List ℕ = overwrite bs (a + o) (replicate c val) in
          let ih =
            fill_loop_lem f out.1 bs' a n val (o + c) (rw inside at w.after)
              (omega (arith, length-overwrite bs (a + o) (replicate c val))) (omega arith)
              (omega arith) in
          let e1 : a + (o + c) ≡ a + o + c = omega arith in
          let e2 : c + (n - (o + c)) ≡ n - o = omega arith in
          rw (more, fill_loop, w.done, inside)
            (ih.0, rw (e1, overwrite-replicates bs (a + o) c (n - (o + c)) val, e2) at ih.1)
      | inr stop ↦
          rw
            (
              stop,
              fill_loop,
              replicate-nil val (n - o) (omega (arith, ltb→le o n stop)),
              overwrite-nil bs (a + o),
            )
            (refl, v)
    ]

    -- The default `fill` sets every byte of a range inside the memory, and otherwise fails and
    -- changes nothing, if the storage writes ranges exactly.
    pub fill_lem :
        (m : M) (bs : List ℕ) (a n val : ℕ)
        → Models m bs
        → Updates Models bs (within bs a n) (fill_range bs a n val) (fill len write_all m a n val)
    unfolding fill
    fill_lem m bs a n val v = elim (Bool-cases (within bs a n)) [
      | inl inside ↦
          let done =
            fill_loop_lem (suc n) m bs a n val 0 v (leb→le _ _ inside) (omega arith)
              (omega arith) in
          rw (models_len m bs v, range_fits-within bs a n (bounded m bs v), inside)
            (record { done = done.0; after = rw (add-zero a, sub-zero n) at done.1 })
      | inr outside ↦
          rw (models_len m bs v, range_fits-within bs a n (bounded m bs v), outside)
            (record { done = refl; after = v })
    ]

    pub write_fixed_lem :
        (m : M) (bs : List ℕ) (n a : ℕ) (bytes : List ℕ)
        → Models m bs
        → length bytes ≡ n
        → ((write_fixed len write_all n m a bytes).0
            ≡ (if within bs a n then ok tt else err (memory_oob a n (length bs))))
          × Models
              (write_fixed len write_all n m a bytes).1
              (if within bs a n then overwrite bs a bytes else bs)
    unfolding write_fixed
    write_fixed_lem m bs n a bytes v e =
        let w : Updates Models bs (within bs a n) (overwrite bs a bytes) (write_all m a bytes) =
          rw e at (writes_all m bs a bytes v) in
        elim (Bool-cases (within bs a n)) [
          | inl inside ↦ rw (w.done, inside) (refl, rw inside at w.after)
          | inr outside ↦
              rw (w.done, outside)
                (
                  ap (λ (t : ℕ). err (memory_oob a n t)) (models_len _ bs (rw outside at w.after)),
                  rw outside at w.after,
                )
        ]
