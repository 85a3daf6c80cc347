-- ===== src/Memory/Defaults.antt =====
-- The default methods of `LinearMemory` do what the contract says, over any `read` and `write` that
-- move at least one byte at a time.
use tinywasm.Prelude.{
  ℕ, zero, suc, ◌+◌, ◌-◌, ◌≤◌, ◌<◌, ◌≡◌, refl, sym, ◌∙◌, inl, inr, true, false, List, ltb,
  if◌then◌else◌, length, drop, overwrite, slice, Bool-cases, arith, ltb→lt, ltb→le, leb→le,
  drop_all, overwrite_whole, ne→==, length-overwrite, overwrite-overwrite, overwrite-slices,
  overwrite-cut, length-slice, overwrite-nil, slice-nil, length-drop,
}
use tinywasm.Memory.Interface.{range_fits, read_exact_loop, write_all_loop, read_exact, write_all}
use tinywasm.Memory.Laws.{within, ReadsSome, WritesSome, Updates}
use tinywasm.Prelude.Word.{isize_max}
use native.Mathlib.Nat.{add-zero}

pub range_fits-within :
    (bs : List ℕ) (a n : ℕ) → length bs ≤ isize_max → range_fits (length bs) a n ≡ within bs a n
unfolding range_fits
range_fits-within bs a n h = ground arith

module _ {M : Type 0} (Models : M → List ℕ → Type 0) (len : M → ℕ) where
  module _ (read : M → ℕ → List ℕ → ℕ × List ℕ)
      (reads : (m : M) (bs : List ℕ) (a : ℕ) (dst : List ℕ)
        → Models m bs
        → a < length bs
        → 0 < length dst
        → ReadsSome bs a dst (read m a dst)) where
    read_loop :
        (f : ℕ) (m : M) (bs : List ℕ) (a : ℕ) (dst : List ℕ) (o k : ℕ)
        → Models m bs
        → a + length dst ≤ length bs
        → length dst ≡ o + k
        → k < f
        → read_exact_loop len read f m a dst o ≡ (true, overwrite dst o (slice bs (a + o) k))
    unfolding read_exact_loop
    read_loop zero m bs a dst o k v h p q = absurd (omega arith)
    read_loop (suc f) m bs a dst o k v h p q = elim (Bool-cases (ltb o (length dst))) [
      | inl more ↦
          let out : ℕ × List ℕ = read m (a + o) (drop o dst) in
          let lt : o < length dst = ltb→lt o (length dst) more in
          let r : ReadsSome bs (a + o) (drop o dst) out =
            reads m bs (a + o) (drop o dst) v (omega arith) (omega (arith, length-drop o dst)) in
          let n : ℕ = out.0 in
          let fits : n ≤ k = omega (arith, r.in_buffer, length-drop o dst) in
          let wrote : overwrite dst o out.1 ≡ overwrite dst o (slice bs (a + o) n) =
            rw r.bytes (overwrite-overwrite dst o (slice bs (a + o) n)) in
          let len' : length (overwrite dst o out.1) ≡ length dst = length-overwrite dst o out.1 in
          let ih : read_exact_loop len read f m a (overwrite dst o out.1) (o + n)
              ≡ (true, overwrite (overwrite dst o out.1) (o + n) (slice bs (a + (o + n)) (k - n))) =
            read_loop f m bs a (overwrite dst o out.1) (o + n) (k - n) v (omega arith) (omega arith)
              (omega (arith, r.some_read)) in
          let joined : overwrite (overwrite dst o (slice bs (a + o) n)) (o + n)
                (slice bs (a + o + n) (k - n))
              ≡ overwrite dst o (slice bs (a + o) (n + (k - n))) =
            overwrite-slices dst o bs (a + o) n (k - n) r.in_memory in
          let e1 : a + (o + n) ≡ a + o + n = omega arith in
          let e2 : n + (k - n) ≡ k = omega arith in
          ground (arith, ih, wrote, joined, e1, e2, r.some_read)
      | inr stop ↦
          let none_left : k ≡ 0 = omega (arith, ltb→le o (length dst) stop) in
          rw (stop, read_exact_loop, slice-nil bs (a + o) k none_left, overwrite-nil dst o)
    ]

    -- The default `read_exact` returns the bytes of a range inside the memory, and otherwise fails
    -- and leaves the buffer, if the storage's `read` makes progress and the memory is at most
    -- `isize::MAX` bytes.
    pub read_exact_lem :
        (m : M) (bs : List ℕ) (a : ℕ) (dst : List ℕ)
        → Models m bs
        → len m ≡ length bs
        → length bs ≤ isize_max
        → read_exact len read m a dst
          ≡ (if within bs a (length dst) then (true, slice bs a (length dst)) else (false, dst))
    unfolding read_exact
    read_exact_lem m bs a dst v e h = elim (Bool-cases (within bs a (length dst))) [
      | inl inside ↦
          rw (e, range_fits-within bs a (length dst) h, inside)
            (read_loop (suc (length dst)) m bs a dst 0 (length dst) v (leb→le _ _ inside)
                (omega arith) (omega arith)
              ∙ rw (
                add-zero a,
                overwrite_whole dst (slice bs a (length dst))
                    (sym (length-slice bs a (length dst) (leb→le _ _ inside))),
              ))
      | inr outside ↦ rw (e, range_fits-within bs a (length dst) h, outside)
    ]

  module _ (write : M → ℕ → List ℕ → ℕ × M)
      (writes : (m : M) (bs : List ℕ) (a : ℕ) (src : List ℕ)
        → Models m bs
        → a < length bs
        → 0 < length src
        → WritesSome Models bs a src (write m a src)) where
    write_loop :
        (f : ℕ) (m : M) (bs : List ℕ) (a : ℕ) (src : List ℕ) (o : ℕ)
        → Models m bs
        → a + length src ≤ length bs
        → o ≤ length src
        → length src < o + f
        → let out = write_all_loop len write f m a src o in
          (out.0 ≡ true) × Models out.1 (overwrite bs (a + o) (drop o src))
    unfolding write_all_loop
    write_loop zero m bs a src o v h p q = absurd (omega arith)
    write_loop (suc f) m bs a src o v h p q = elim (Bool-cases (ltb o (length src))) [
      | inl more ↦
          let out : ℕ × M = write m (a + o) (drop o src) in
          let lt : o < length src = ltb→lt o (length src) more in
          let w : WritesSome Models bs (a + o) (drop o src) out =
            writes m bs (a + o) (drop o src) v (omega arith) (omega (arith, length-drop o src)) in
          let n : ℕ = out.0 in
          let fits : o + n ≤ length src = omega (arith, w.in_source, length-drop o src) in
          let bs' : List ℕ = overwrite bs (a + o) (slice src o n) in
          let ih =
            write_loop f out.1 bs' a src (o + n) w.after
              (omega (arith, length-overwrite bs (a + o) (slice src o n))) fits
              (omega (arith, w.some_written)) in
          let e1 : a + (o + n) ≡ a + o + n = omega arith in
          rw (more, write_all_loop, ne→== n 0 (omega (arith, w.some_written)))
            (ih.0, rw (e1, overwrite-cut bs (a + o) src o n fits) at ih.1)
      | inr stop ↦
          rw
            (
              stop,
              write_all_loop,
              drop_all src o (ltb→le o (length src) stop),
              overwrite-nil bs (a + o),
            )
            (refl, v)
    ]

    -- The default `write_all` writes every byte to a range inside the memory, and otherwise fails
    -- and changes nothing, if the storage's `write` makes progress and the memory is at most
    -- `isize::MAX` bytes.
    pub write_all_lem :
        (m : M) (bs : List ℕ) (a : ℕ) (src : List ℕ)
        → Models m bs
        → len m ≡ length bs
        → length bs ≤ isize_max
        → Updates Models bs
            (within bs a (length src))
            (overwrite bs a src)
            (write_all len write m a src)
    unfolding write_all
    write_all_lem m bs a src v e h = elim (Bool-cases (within bs a (length src))) [
      | inl inside ↦
          let done =
            write_loop (suc (length src)) m bs a src 0 v (leb→le _ _ inside) (omega arith)
              (omega arith) in
          rw (e, range_fits-within bs a (length src) h, inside)
            (record { done = done.0; after = rw (add-zero a) at done.1 })
      | inr outside ↦
          rw (e, range_fits-within bs a (length src) h, outside) (record { done = refl; after = v })
    ]
