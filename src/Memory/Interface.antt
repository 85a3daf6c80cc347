-- ===== src/Memory/Interface.antt =====
-- crates/tinywasm/src/store/memory/mod.rs: the trait `LinearMemory` and its default methods.
-- A method with `&mut self` returns the new memory; `Option<()>` is a Boolean beside it, since a
-- method that gives up may have changed the memory. A buffer `dst` is passed in and handed back.
use tinywasm.Prelude.{
  ℕ, zero, suc, ◌+◌, ◌-◌, min, Bool, true, false, Option, none, some, List, ltb, leb, ◌==◌, ◌||◌,
  if◌then◌else◌, length, drop, replicate, overwrite,
}
use tinywasm.Prelude.Word.{checked_add}
use tinywasm.Trap.{Trap, memory_out_of_bounds, Result, ok, err}

pub record LinearMemory (M : Type 0) : Type 0 where
  pub len : M → ℕ
  pub grow_to : M → ℕ → Result (Unit {0}) × M
  pub read : M → ℕ → List ℕ → ℕ × List ℕ
  pub write : M → ℕ → List ℕ → ℕ × M
  pub write_all : M → ℕ → List ℕ → Bool × M
  pub fill : M → ℕ → ℕ → ℕ → Bool × M
  pub copy_within : M → ℕ → ℕ → ℕ → Bool × M
  pub read_exact : M → ℕ → List ℕ → Bool × List ℕ
  pub read_vec : M → ℕ → ℕ → Option (List ℕ)
  -- `read_8` to `read_128` and `write_8` to `write_128`, by the width in bytes
  pub read_fixed : ℕ → M → ℕ → Result (List ℕ)
  pub write_fixed : ℕ → M → ℕ → List ℕ → Result (Unit {0}) × M

unfoldable pub memory_oob : ℕ → ℕ → ℕ → Trap
memory_oob offset len max = memory_out_of_bounds offset len max

-- the end of the range `[addr, addr + n)`, if it lies in a memory of length `len`
unfoldable pub range_fits : ℕ → ℕ → ℕ → Bool
range_fits len addr n = elim (checked_add addr n) [ none ↦ false | some end ↦ leb end len ]

-- The default methods, over the methods of `self` that they call.
module _ {M : Type 0} (len : M → ℕ) where
  module _ (read : M → ℕ → List ℕ → ℕ × List ℕ) where
    -- `while offset < dst.len()`. A read of no bytes ends the loop, and any other one advances it,
    -- so `dst.len()` rounds and the last test are enough. `read` gets the rest of the buffer.
    unfoldable pub read_exact_loop : ℕ → M → ℕ → List ℕ → ℕ → Bool × List ℕ
    read_exact_loop zero m addr dst offset = (false, dst)
    read_exact_loop (suc f) m addr dst offset = elim (ltb offset (length dst)) [
      | false ↦ (true, dst)
      | true ↦
          let (n, rest) = read m (addr + offset) (drop offset dst) in
          let dst' : List ℕ = overwrite dst offset rest in
          elim (n == 0) [
            | true ↦ (false, dst')
            | false ↦ read_exact_loop f m addr dst' (offset + n)
          ]
    ]

    unfoldable pub read_exact : M → ℕ → List ℕ → Bool × List ℕ
    unfolding range_fits read_exact_loop
    read_exact m addr dst =
        if range_fits (len m) addr (length dst)
        then read_exact_loop (suc (length dst)) m addr dst 0
        else (false, dst)

  module _ (write : M → ℕ → List ℕ → ℕ × M) where
    unfoldable pub write_all_loop : ℕ → M → ℕ → List ℕ → ℕ → Bool × M
    write_all_loop zero m addr src offset = (false, m)
    write_all_loop (suc f) m addr src offset = elim (ltb offset (length src)) [
      | false ↦ (true, m)
      | true ↦
          let (n, m') = write m (addr + offset) (drop offset src) in
          elim (n == 0) [ true ↦ (false, m') | false ↦ write_all_loop f m' addr src (offset + n) ]
    ]

    unfoldable pub write_all : M → ℕ → List ℕ → Bool × M
    unfolding range_fits write_all_loop
    write_all m addr src =
        if range_fits (len m) addr (length src)
        then write_all_loop (suc (length src)) m addr src 0
        else (false, m)

  module _ (write_all : M → ℕ → List ℕ → Bool × M) where
    unfoldable pub fill_loop : ℕ → M → ℕ → ℕ → ℕ → ℕ → Bool × M
    fill_loop zero m addr n val offset = (false, m)
    fill_loop (suc f) m addr n val offset = elim (ltb offset n) [
      | false ↦ (true, m)
      | true ↦
          let chunk_len : ℕ = min (n - offset) 1024 in
          let (done, m') = write_all m (addr + offset) (replicate chunk_len val) in
          elim done [ true ↦ fill_loop f m' addr n val (offset + chunk_len) | false ↦ (false, m') ]
    ]

    unfoldable pub fill : M → ℕ → ℕ → ℕ → Bool × M
    unfolding range_fits fill_loop
    fill m addr n val =
        if range_fits (len m) addr n then fill_loop (suc n) m addr n val 0 else (false, m)

    unfoldable pub write_fixed : ℕ → M → ℕ → List ℕ → Result (Unit {0}) × M
    unfolding memory_oob
    write_fixed n m addr bytes =
        let (done, m') = write_all m addr bytes in
        (if done then ok tt else err (memory_oob addr n (len m')), m')

  module _ (read_exact : M → ℕ → List ℕ → Bool × List ℕ) where
    unfoldable pub read_vec : M → ℕ → ℕ → Option (List ℕ)
    unfolding range_fits
    read_vec m addr n =
        let (done, bytes) = read_exact m addr (replicate n 0) in
        if range_fits (len m) addr n then (if done then some bytes else none) else none

    unfoldable pub read_fixed : ℕ → M → ℕ → Result (List ℕ)
    unfolding memory_oob
    read_fixed n m addr =
        let (done, bytes) = read_exact m addr (replicate n 0) in
        if done then ok bytes else err (memory_oob addr n (len m))

-- One round of a copying loop: `read_exact` into a fresh buffer of `n` zeroes, then `write_all`.
module _ {M : Type 0} (read_exact : M → ℕ → List ℕ → Bool × List ℕ)
    (write_all : M → ℕ → List ℕ → Bool × M) where
  unfoldable pub copy_round : M → ℕ → ℕ → ℕ → Bool × M
  copy_round m dst src n =
      let (done, chunk) = read_exact m src (replicate n 0) in
      if done then write_all m dst chunk else (false, m)

  -- forwards from `offset`, in rounds of at most `size` bytes
  unfoldable pub copy_forward : ℕ → ℕ → M → ℕ → ℕ → ℕ → ℕ → Bool × M
  unfolding copy_round
  copy_forward size zero m dst src n offset = (false, m)
  copy_forward size (suc f) m dst src n offset = elim (ltb offset n) [
    | false ↦ (true, m)
    | true ↦
        let chunk_len : ℕ = min (n - offset) size in
        let (done, m') = copy_round m (dst + offset) (src + offset) chunk_len in
        elim done [
          | true ↦ copy_forward size f m' dst src n (offset + chunk_len)
          | false ↦ (false, m')
        ]
  ]

  -- backwards, with `remaining` bytes to go
  unfoldable pub copy_backward : ℕ → ℕ → M → ℕ → ℕ → ℕ → Bool × M
  unfolding copy_round
  copy_backward size zero m dst src remaining = (false, m)
  copy_backward size (suc f) m dst src remaining = elim (ltb 0 remaining) [
    | false ↦ (true, m)
    | true ↦
        let chunk_len : ℕ = min remaining size in
        let start : ℕ = remaining - chunk_len in
        let (done, m') = copy_round m (dst + start) (src + start) chunk_len in
        elim done [ true ↦ copy_backward size f m' dst src start | false ↦ (false, m') ]
  ]

  -- The direction that reads each byte before it is overwritten.
  unfoldable pub copy_overlapping : ℕ → M → ℕ → ℕ → ℕ → Bool × M
  copy_overlapping size m dst src n =
      if ltb dst src || leb (src + n) dst
      then copy_forward size (suc n) m dst src n 0
      else copy_backward size (suc n) m dst src n

  module _ (len : M → ℕ) where
    unfoldable pub copy_within : M → ℕ → ℕ → ℕ → Bool × M
    unfolding range_fits
    copy_within m dst src n =
        if range_fits (len m) src n
        then (if range_fits (len m) dst n
            then (if n == 0 || (dst == src) then (true, m) else copy_overlapping 1024 m dst src n)
            else (false, m))
        else (false, m)
