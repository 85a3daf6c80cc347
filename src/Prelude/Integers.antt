-- ===== src/Prelude/Integers.antt =====
-- Signed integers over the native numbers, and Rust's casts between `iN` and `uN`.
use Prim.Native.Nat.{ℕ, ◌-◌, ◌^◌, ◌%◌, ◌<◌}
use mathlib.Core.Path.{◌≡◌, refl, ap}
use mathlib.Core.Bool.{true, false}
use native.Mathlib.Nat.{mod-eq_of_lt}
use native.Mathlib.Omega.{arith}
use tinywasm.Prelude.Tests.{ltb, lt→ltb, le→ltb, if◌then◌else◌}

-- `negsuc n` is `- (n + 1)`.
pub data ℤ : Type 0 where
  pos : ℕ → ℤ
  negsuc : ℕ → ℤ

-- `as u32` and `as u64`, for a number of bits
abbrev pub to_unsigned : ℕ → ℤ → ℕ
to_unsigned bits (pos n) = n % 2 ^ bits
to_unsigned bits (negsuc n) = 2 ^ bits - 1 - n % 2 ^ bits

-- `as i32` and `as i64`, of a `u32` and a `u64`
abbrev pub to_signed : ℕ → ℕ → ℤ
to_signed bits n = if ltb n (2 ^ (bits - 1)) then pos n else negsuc (2 ^ bits - 1 - n)

-- The values of `i32` and `i64`.
abbrev pub Fits : ℕ → ℤ → Type 0
Fits bits (pos n) = n < 2 ^ (bits - 1)
Fits bits (negsuc n) = n < 2 ^ (bits - 1)

-- A value survives the cast to the unsigned type and back.
pub to_signed-to_unsigned_32 : (z : ℤ) → Fits 32 z → to_signed 32 (to_unsigned 32 z) ≡ z
to_signed-to_unsigned_32 (pos n) h =
    let e : n % 2 ^ 32 ≡ n = mod-eq_of_lt (omega arith) in
    let low : ltb n (2 ^ 31) ≡ true = lt→ltb n (2 ^ 31) h in rw (e, low) refl
to_signed-to_unsigned_32 (negsuc n) h =
    let e : n % 2 ^ 32 ≡ n = mod-eq_of_lt (omega arith) in
    let high : ltb (2 ^ 32 - 1 - n) (2 ^ 31) ≡ false =
      le→ltb (2 ^ 32 - 1 - n) (2 ^ 31) (omega arith) in
    rw (e, high) (ap negsuc (omega arith))

pub to_signed-to_unsigned_64 : (z : ℤ) → Fits 64 z → to_signed 64 (to_unsigned 64 z) ≡ z
to_signed-to_unsigned_64 (pos n) h =
    let e : n % 2 ^ 64 ≡ n = mod-eq_of_lt (omega arith) in
    let low : ltb n (2 ^ 63) ≡ true = lt→ltb n (2 ^ 63) h in rw (e, low) refl
to_signed-to_unsigned_64 (negsuc n) h =
    let e : n % 2 ^ 64 ≡ n = mod-eq_of_lt (omega arith) in
    let high : ltb (2 ^ 64 - 1 - n) (2 ^ 63) ≡ false =
      le→ltb (2 ^ 64 - 1 - n) (2 ^ 63) (omega arith) in
    rw (e, high) (ap negsuc (omega arith))
