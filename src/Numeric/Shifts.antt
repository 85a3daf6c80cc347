-- ===== src/Numeric/Shifts.antt =====
-- crates/tinywasm/src/interpreter/executor.rs: shifts and rotations.
use tinywasm.Prelude.{
  ℕ, ◌*◌, ◌%◌, ◌^◌, ◌≤◌, ◌<◌, ◌≡◌, Bool-cases, inl, inr, ltb, ltb→lt, ltb→le, lt→ltb, le→ltb, true,
  false, arith,
}
use tinywasm.Numeric.{shl, shr_s, extend}

-- The low half of a value, shifted to the top of the word and back.
pub shr_s-shl_32_16 : (x : ℕ) → shr_s 32 (shl 32 x 16) 16 ≡ extend 16 32 x
shr_s-shl_32_16 x = elim (Bool-cases (ltb (x % 2 ^ 16) (2 ^ 15))) [
  | inl e ↦
      let low : x % 2 ^ 16 < 2 ^ 15 = ltb→lt _ _ e in
      let f : ltb (x * 2 ^ 16 % 2 ^ 32) (2 ^ 31) ≡ true =
        lt→ltb (x * 2 ^ 16 % 2 ^ 32) (2 ^ 31) (omega (arith, low)) in
      rw (e, f) (omega (arith, low))
  | inr e ↦
      let high : 2 ^ 15 ≤ x % 2 ^ 16 = ltb→le _ _ e in
      let f : ltb (x * 2 ^ 16 % 2 ^ 32) (2 ^ 31) ≡ false =
        le→ltb (x * 2 ^ 16 % 2 ^ 32) (2 ^ 31) (omega (arith, high)) in
      rw (e, f) (omega (arith, high))
]

pub shr_s-shl_64_32 : (x : ℕ) → shr_s 64 (shl 64 x 32) 32 ≡ extend 32 64 x
shr_s-shl_64_32 x = elim (Bool-cases (ltb (x % 2 ^ 32) (2 ^ 31))) [
  | inl e ↦
      let low : x % 2 ^ 32 < 2 ^ 31 = ltb→lt _ _ e in
      let f : ltb (x * 2 ^ 32 % 2 ^ 64) (2 ^ 63) ≡ true =
        lt→ltb (x * 2 ^ 32 % 2 ^ 64) (2 ^ 63) (omega (arith, low)) in
      rw (e, f) (omega (arith, low))
  | inr e ↦
      let high : 2 ^ 31 ≤ x % 2 ^ 32 = ltb→le _ _ e in
      let f : ltb (x * 2 ^ 32 % 2 ^ 64) (2 ^ 63) ≡ false =
        le→ltb (x * 2 ^ 32 % 2 ^ 64) (2 ^ 63) (omega (arith, high)) in
      rw (e, f) (omega (arith, high))
]
