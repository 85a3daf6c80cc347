-- ===== src/Memory/MemValue.antt =====
-- crates/tinywasm/src/store/memory/mod.rs: `MemValue`, numbers in memory. The value of a type with
-- `width` bytes is the number of its bits.
use native.Mathlib.Nat.{pow-suc, div-add-mod', div-lt_iff_lt-mul}
use tinywasm.Prelude.{
  ℕ, zero, suc, ◌+◌, ◌*◌, ◌/◌, ◌%◌, ◌^◌, ◌≤◌, ◌<◌, ◌≡◌, refl, sym, ap, ◌∙◌, true, List, [], ◌∷◌,
  length, slice, overwrite, overwrite_front, slice-append_left, slice-all, length-overwrite, drop,
  leb→le, arith,
}
use tinywasm.Trap.{Result, ok, ◌>>=◌}
use tinywasm.Memory.Interface.{LinearMemory}
use tinywasm.Memory.Laws.{within, Laws}

-- `to_mem_bytes`, Rust's `to_le_bytes`
unfoldable pub to_mem_bytes : ℕ → ℕ → List ℕ
to_mem_bytes zero value = []
to_mem_bytes (suc width) value = value % 256 ∷ to_mem_bytes width (value / 256)

-- `from_mem_bytes`, Rust's `from_le_bytes`
unfoldable pub from_mem_bytes : List ℕ → ℕ
from_mem_bytes [] = 0
from_mem_bytes (b ∷ bytes) = from_mem_bytes bytes * 256 + b

module _ {M : Type 0} (ops : LinearMemory M) where
  unfoldable pub load_at : ℕ → M → ℕ → Result ℕ
  load_at width mem addr = ops.read_fixed width mem addr >>= λ bytes. ok (from_mem_bytes bytes)

  unfoldable pub store_at : ℕ → ℕ → M → ℕ → Result (Unit {0}) × M
  store_at width value mem addr = ops.write_fixed width mem addr (to_mem_bytes width value)

length-to_mem_bytes : (width value : ℕ) → length (to_mem_bytes width value) ≡ width
unfolding to_mem_bytes
length-to_mem_bytes zero value = refl
length-to_mem_bytes (suc width) value = omega (arith, length-to_mem_bytes width (value / 256))

-- The bytes of a number are those of its width, and give the number back when it fits.
from_mem_bytes-to_mem_bytes :
    (width value : ℕ) → value < 256 ^ width → from_mem_bytes (to_mem_bytes width value) ≡ value
unfolding from_mem_bytes to_mem_bytes
from_mem_bytes-to_mem_bytes zero value h = omega arith
from_mem_bytes-to_mem_bytes (suc width) value h =
    let part : value / 256 < 256 ^ width =
      (div-lt_iff_lt-mul (omega arith)).1 (omega (arith, h, pow-suc 256 width)) in
    omega (arith, from_mem_bytes-to_mem_bytes width (value / 256) part, div-add-mod' value 256)

slice-overwrite_self :
    (xs : List ℕ) (a : ℕ) (ys : List ℕ)
    → a + length ys ≤ length xs
    → slice (overwrite xs a ys) a (length ys) ≡ ys
slice-overwrite_self xs zero ys h = rw (overwrite_front xs ys (omega arith)) (
    slice-append_left ys (drop (length ys) xs) 0 (length ys) (omega arith)
    ∙ slice-all ys (length ys) refl)
slice-overwrite_self [] (suc a) ys h = absurd (omega arith)
slice-overwrite_self (x ∷ xs) (suc a) ys h = slice-overwrite_self xs a ys (omega arith)

module _ {M : Type 0} (ops : LinearMemory M) (Models : M → List ℕ → Type 0)
    (laws : Laws ops Models) where
  -- On a memory that keeps the contract, what is stored at an address inside the memory is loaded
  -- again, for every width that is not zero and every value of that width.
  pub load_at-store_at :
      (m : M) (bs : List ℕ) (width value addr : ℕ)
      → Models m bs
      → 0 < width
      → value < 256 ^ width
      → within bs addr width ≡ true
      → ((store_at ops width value m addr).0 ≡ ok tt)
        × (load_at ops width (store_at ops width value m addr).1 addr ≡ ok value)
  unfolding load_at store_at
  load_at-store_at m bs width value addr v p h inside =
      let bytes : List ℕ = to_mem_bytes width value in
      let n : length bytes ≡ width = length-to_mem_bytes width value in
      let stored = rw inside at (laws.writes_fixed m bs width addr bytes v p n) in
      let still : within (overwrite bs addr bytes) addr width ≡ true =
        rw (length-overwrite bs addr bytes) inside in
      let read : slice (overwrite bs addr bytes) addr width ≡ bytes =
        ap (λ (t : ℕ). slice (overwrite bs addr bytes) addr t) (sym n)
        ∙ slice-overwrite_self bs addr bytes (omega (arith, n, leb→le _ _ inside)) in
      let loaded : ops.read_fixed width (store_at ops width value m addr).1 addr ≡ ok bytes =
        rw (still, read) at
          (laws.reads_fixed (store_at ops width value m addr).1 (overwrite bs addr bytes) width addr
            stored.1 p) in
      (stored.0, rw (load_at, loaded) (ap ok (from_mem_bytes-to_mem_bytes width value h)))
