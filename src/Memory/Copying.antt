-- ===== src/Memory/Copying.antt =====
-- The default `copy_within` moves a range as `memmove` does, overlaps included.
use tinywasm.Prelude.{
  ℕ, zero, suc, ◌+◌, ◌-◌, ◌≤◌, ◌<◌, ◌≡◌, refl, inl, inr, Bool, true, false, min, List, ltb, leb,
  ◌==◌, if◌then◌else◌, length, replicate, overwrite, slice, ◌⊎◌, ◌||◌, Bool-cases, arith, ltb→lt,
  ltb→le, leb→le, le→leb, length-overwrite, move_within, length-replicate, length-slice,
  overwrite-nil, slice-nil, overwrite-slices, overwrite-slices_before, slice-overwrite_before,
  slice-overwrite_past, move_within_still, [],
}
use tinywasm.Prelude.Word.{isize_max}
use native.Mathlib.Nat.{add-zero, sub-zero}
use tinywasm.Memory.Interface.{
  copy_round, copy_forward, copy_backward, copy_within, copy_overlapping,
}
use tinywasm.Memory.Laws.{within, Updates}
use tinywasm.Memory.Defaults.{range_fits-within}

module _ {M : Type 0} (Models : M → List ℕ → Type 0) (read_exact : M → ℕ → List ℕ → Bool × List ℕ)
    (reads_exact : (m : M) (bs : List ℕ) (a : ℕ) (dst : List ℕ)
      → Models m bs
      → read_exact m a dst
        ≡ (if within bs a (length dst) then (true, slice bs a (length dst)) else (false, dst)))
    (write_all : M → ℕ → List ℕ → Bool × M)
    (writes_all : (m : M) (bs : List ℕ) (a : ℕ) (src : List ℕ)
      → Models m bs
      → Updates Models bs (within bs a (length src)) (overwrite bs a src) (write_all m a src)) where
  copy_round_lem :
      (m : M) (bs : List ℕ) (dst src n : ℕ)
      → Models m bs
      → src + n ≤ length bs
      → dst + n ≤ length bs
      → ((copy_round read_exact write_all m dst src n).0 ≡ true)
        × Models (copy_round read_exact write_all m dst src n).1 (overwrite bs dst (slice bs src n))
  unfolding copy_round
  copy_round_lem m bs dst src n v hs hd =
      let from : within bs src n ≡ true = le→leb _ _ hs in
      let to : within bs dst n ≡ true = le→leb _ _ hd in
      let r : read_exact m src (replicate n 0) ≡ (true, slice bs src n) =
        rw (length-replicate {A = ℕ} n 0, from) at (reads_exact m bs src (replicate n 0) v) in
      let w : Updates Models bs true (overwrite bs dst (slice bs src n))
          (write_all m dst (slice bs src n)) =
        rw (length-slice bs src n hs, to) at (writes_all m bs dst (slice bs src n) v) in
      rw r (w.done, w.after)

  module _ (size : ℕ) (pos : 0 < size) where
    -- Forwards: the bytes still to be copied have not been written yet.
    copy_forward_lem :
        (f : ℕ) (m : M) (bs : List ℕ) (dst src n o : ℕ)
        → Models m (overwrite bs dst (slice bs src o))
        → src + n ≤ length bs
        → dst + n ≤ length bs
        → (dst < src) ⊎ (src + n ≤ dst)
        → o ≤ n
        → n < o + f
        → let out = copy_forward read_exact write_all size f m dst src n o in
          (out.0 ≡ true) × Models out.1 (overwrite bs dst (slice bs src n))
    unfolding copy_forward
    copy_forward_lem zero m bs dst src n o v hs hd apart p q = absurd (omega arith)
    copy_forward_lem (suc f) m bs dst src n o v hs hd apart p q = elim (Bool-cases (ltb o n)) [
      | inl more ↦
          let lt : o < n = ltb→lt o n more in
          let c : ℕ = min (n - o) size in
          let cur : List ℕ = overwrite bs dst (slice bs src o) in
          let len' : length cur ≡ length bs = length-overwrite bs dst (slice bs src o) in
          let same : slice cur (src + o) c ≡ slice bs (src + o) c = unread apart in
          let out : Bool × M = copy_round read_exact write_all m (dst + o) (src + o) c in
          let w = copy_round_lem m cur (dst + o) (src + o) c v (omega arith) (omega arith) in
          let joined : overwrite cur (dst + o) (slice bs (src + o) c)
              ≡ overwrite bs dst (slice bs src (o + c)) =
            overwrite-slices bs dst bs src o c (omega arith) in
          let ih =
            copy_forward_lem f out.1 bs dst src n (o + c) (rw (same, joined) at w.1) hs hd apart
              (omega arith) (omega arith) in
          rw (more, copy_forward, w.0) ih
      | inr stop ↦
          let e : o ≡ n = omega (arith, ltb→le o n stop) in
          rw (stop, copy_forward) (refl, rw e at v)
    ]
      where
        unread :
            (dst < src) ⊎ (src + n ≤ dst)
            → slice (overwrite bs dst (slice bs src o)) (src + o) (min (n - o) size)
              ≡ slice bs (src + o) (min (n - o) size)
        unread (inl below) =
            slice-overwrite_past bs dst (slice bs src o) (src + o) (min (n - o) size)
              (omega (arith, length-slice bs src o (omega arith)))
        unread (inr above) =
            slice-overwrite_before bs dst (slice bs src o) (src + o) (min (n - o) size)
              (omega arith)

    -- Backwards: `r` bytes at the front are still to be copied.
    copy_backward_lem :
        (f : ℕ) (m : M) (bs : List ℕ) (dst src n r : ℕ)
        → Models m (overwrite bs (dst + r) (slice bs (src + r) (n - r)))
        → src + n ≤ length bs
        → dst + n ≤ length bs
        → src ≤ dst
        → r ≤ n
        → r < f
        → let out = copy_backward read_exact write_all size f m dst src r in
          (out.0 ≡ true) × Models out.1 (overwrite bs dst (slice bs src n))
    unfolding copy_backward
    copy_backward_lem zero m bs dst src n r v hs hd above p q = absurd (omega arith)
    copy_backward_lem (suc f) m bs dst src n r v hs hd above p q = elim (Bool-cases (ltb 0 r)) [
      | inl more ↦
          let lt : 0 < r = ltb→lt 0 r more in
          let c : ℕ = min r size in
          let s : ℕ = r - c in
          let cur : List ℕ = overwrite bs (dst + r) (slice bs (src + r) (n - r)) in
          let len' : length cur ≡ length bs =
            length-overwrite bs (dst + r) (slice bs (src + r) (n - r)) in
          let same : slice cur (src + s) c ≡ slice bs (src + s) c =
            slice-overwrite_before bs (dst + r) (slice bs (src + r) (n - r)) (src + s) c
              (omega arith) in
          let out : Bool × M = copy_round read_exact write_all m (dst + s) (src + s) c in
          let w : (out.0 ≡ true) × Models out.1 (overwrite cur (dst + s) (slice cur (src + s) c)) =
            copy_round_lem m cur (dst + s) (src + s) c v (omega arith) (omega arith) in
          let e1 : dst + r ≡ dst + s + c = omega arith in
          let e2 : src + r ≡ src + s + c = omega arith in
          let e3 : c + (n - r) ≡ n - s = omega arith in
          let joined : overwrite cur (dst + s) (slice bs (src + s) c)
              ≡ overwrite bs (dst + s) (slice bs (src + s) (n - s)) =
            rw (e1, e2, ← e3)
              (overwrite-slices_before bs (dst + s) bs (src + s) c (n - r) (omega arith)) in
          let ih =
            copy_backward_lem f out.1 bs dst src n s (rw (same, joined) at w.1) hs hd above
              (omega arith) (omega arith) in
          rw (more, copy_backward, w.0) ih
      | inr stop ↦
          let e : r ≡ 0 = omega (arith, ltb→le 0 r stop) in
          rw (stop, copy_backward) (refl, rw (e, add-zero dst, add-zero src, sub-zero n) at v)
    ]

    -- The copying loop, with a buffer of any size but none, moves a range inside the memory as
    -- `memmove` does, whichever way the ranges overlap, if the storage reads and writes ranges
    -- exactly.
    pub copy_overlapping_lem :
        (m : M) (bs : List ℕ) (dst src n : ℕ)
        → Models m bs
        → src + n ≤ length bs
        → dst + n ≤ length bs
        → let out = copy_overlapping read_exact write_all size m dst src n in
          (out.0 ≡ true) × Models out.1 (move_within bs src n dst)
    unfolding copy_overlapping
    copy_overlapping_lem m bs dst src n v hs hd =
        let start : Models m (overwrite bs dst []) = rw (overwrite-nil bs dst) v in
        let end : Models m (overwrite bs (dst + n) (slice bs (src + n) (n - n))) =
          rw (slice-nil bs (src + n) (n - n) (omega arith), overwrite-nil bs (dst + n)) v in
        elim (Bool-cases (ltb dst src || leb (src + n) dst)) [
          | inl apart ↦ rw apart (
              copy_forward_lem (suc n) m bs dst src n 0 start hs hd (ground arith) (omega arith)
                (omega arith))
          | inr above ↦ rw above (
              copy_backward_lem (suc n) m bs dst src n n end hs hd (ground arith) (omega arith)
                (omega arith))
        ]

  module _ (len : M → ℕ) (models_len : (m : M) (bs : List ℕ) → Models m bs → len m ≡ length bs)
      (bounded : (m : M) (bs : List ℕ) → Models m bs → length bs ≤ isize_max) where
    copy_within_inside :
        (m : M) (bs : List ℕ) (dst src n : ℕ)
        → Models m bs
        → src + n ≤ length bs
        → dst + n ≤ length bs
        → let out : Bool × M =
            if n == 0 || (dst == src)
            then (true, m)
            else copy_overlapping read_exact write_all 1024 m dst src n in
          Updates Models bs true (move_within bs src n dst) out
    copy_within_inside m bs dst src n v hs hd = elim (Bool-cases (n == 0 || (dst == src))) [
      | inl still ↦
          rw still
            (record { done = refl; after = rw (move_within_still bs src n dst (ground arith)) v })
      | inr moves ↦
          let w = copy_overlapping_lem 1024 (omega arith) m bs dst src n v hs hd in
          rw moves (record { done = w.0; after = w.1 })
    ]

    -- The default `copy_within` moves a range as `memmove` does when both ranges lie in the memory,
    -- and otherwise fails and changes nothing, if the storage reads and writes ranges exactly.
    pub copy_within_lem :
        (m : M) (bs : List ℕ) (dst src n : ℕ)
        → Models m bs
        → Updates Models bs
            (if within bs src n then within bs dst n else false)
            (move_within bs src n dst)
            (copy_within read_exact write_all len m dst src n)
    unfolding copy_within
    copy_within_lem m bs dst src n v =
        rw
          (
            models_len m bs v,
            range_fits-within bs src n (bounded m bs v),
            range_fits-within bs dst n (bounded m bs v),
          )
          (elim (Bool-cases (within bs src n)) [
            | inr outside ↦ rw outside (record { done = refl; after = v })
            | inl from ↦ elim (Bool-cases (within bs dst n)) [
              | inr outside ↦ rw (from, outside) (record { done = refl; after = v })
              | inl to ↦
                  rw (from, to)
                    (copy_within_inside m bs dst src n v (leb→le _ _ from) (leb→le _ _ to))
            ]
          ])
