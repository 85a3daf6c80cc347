-- ===== src/Numeric/Wide.antt =====
-- crates/tinywasm/src/interpreter/executor.rs: the 128-bit arithmetic on pairs of 64-bit values is
-- that of the numbers they stand for.
use tinywasm.Prelude.{
  ℕ, ◌+◌, ◌-◌, ◌*◌, ◌%◌, ◌^◌, ◌≤◌, ◌<◌, ◌≡◌, Bool-cases, inl, inr, ltb, ltb→lt, ltb→le, arith,
}
use tinywasm.Numeric.{add, add_128, sub_128}

-- The number of a pair, its low half first.
abbrev pub whole : ℕ × ℕ → ℕ
whole p = p.0 + p.1 * 2 ^ 64

-- `I64Add128` adds modulo `2 ^ 128`: the carry goes from the low half to the high one. The halves
-- are below `2 ^ 64`.
pub add_128_lem :
    (a_lo a_hi b_lo b_hi : ℕ)
    → a_lo < 2 ^ 64
    → a_hi < 2 ^ 64
    → b_lo < 2 ^ 64
    → b_hi < 2 ^ 64
    → whole (add_128 a_lo a_hi b_lo b_hi) ≡ (whole (a_lo, a_hi) + whole (b_lo, b_hi)) % 2 ^ 128
unfolding add_128
add_128_lem a_lo a_hi b_lo b_hi h i j k = elim (Bool-cases (ltb (add 64 a_lo b_lo) a_lo)) [
  | inl e ↦ let lt : add 64 a_lo b_lo < a_lo = ltb→lt _ _ e in rw (add_128, e) (omega (arith, lt))
  | inr e ↦ let le : a_lo ≤ add 64 a_lo b_lo = ltb→le _ _ e in rw (add_128, e) (omega (arith, le))
]

-- `I64Sub128` subtracts modulo `2 ^ 128`: the borrow goes from the low half to the high one. The
-- halves are below `2 ^ 64`.
pub sub_128_lem :
    (a_lo a_hi b_lo b_hi : ℕ)
    → a_lo < 2 ^ 64
    → a_hi < 2 ^ 64
    → b_lo < 2 ^ 64
    → b_hi < 2 ^ 64
    → whole (sub_128 a_lo a_hi b_lo b_hi)
      ≡ (whole (a_lo, a_hi) + 2 ^ 128 - whole (b_lo, b_hi)) % 2 ^ 128
unfolding sub_128
sub_128_lem a_lo a_hi b_lo b_hi h i j k = elim (Bool-cases (ltb a_lo b_lo)) [
  | inl e ↦ let lt : a_lo < b_lo = ltb→lt _ _ e in rw (sub_128, e) (omega (arith, lt))
  | inr e ↦ let le : b_lo ≤ a_lo = ltb→le _ _ e in rw (sub_128, e) (omega (arith, le))
]
