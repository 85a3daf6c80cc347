-- ===== src/Numeric.antt =====
-- crates/tinywasm/src/interpreter/num_helpers.rs, and the arithmetic that
-- crates/tinywasm/src/interpreter/executor.rs takes from Rust's integers. A value is the number of
-- its bits, and `bits` is 32 or 64; the signed view is `to_signed bits`.
pub mod Shifts
pub mod Wide
mod Tests
use Prim.Native.Nat.{Ordering}
use tinywasm.Prelude.{
  ℕ, zero, suc, ◌+◌, ◌-◌, ◌*◌, ◌/◌, ◌%◌, ◌^◌, bit_and, bit_or, bit_xor, Bool, true, false, not, ltb,
  leb, ◌==◌, ◌&&◌, ◌||◌, if◌then◌else◌, Option, none, some, ℤ, pos, negsuc, to_unsigned, to_signed,
}
use tinywasm.Trap.{Result, ok, err, division_by_zero, integer_overflow}
use tinywasm.Instructions.{
  CmpOp, eq, ne, lt_s, lt_u, gt_s, gt_u, le_s, le_u, ge_s, ge_u, BinOp, i_add, i_sub, i_mul, i_and,
  i_or, i_xor, i_shl, i_shr_s, i_shr_u, i_rotl, i_rotr, f_add, f_sub, f_mul, f_div, f_min, f_max,
  f_copysign,
}

-- The float arithmetic of the target machine, on bits: what `+`, `-`, `*`, `/` and `partial_cmp` of
-- `f32` and `f64` give.
pub record Floats : Type 0 where
  pub add : (bits lhs rhs : ℕ) → ℕ
  pub sub : (bits lhs rhs : ℕ) → ℕ
  pub mul : (bits lhs rhs : ℕ) → ℕ
  pub div : (bits lhs rhs : ℕ) → ℕ
  pub partial_cmp : (bits lhs rhs : ℕ) → Option Ordering

-- `wrapping_add`, `wrapping_sub`, `wrapping_mul`, `wrapping_neg`
abbrev pub add : (bits lhs rhs : ℕ) → ℕ
add bits lhs rhs = (lhs + rhs) % 2 ^ bits

abbrev pub sub : (bits lhs rhs : ℕ) → ℕ
sub bits lhs rhs = (lhs + 2 ^ bits - rhs) % 2 ^ bits

abbrev pub mul : (bits lhs rhs : ℕ) → ℕ
mul bits lhs rhs = lhs * rhs % 2 ^ bits

abbrev pub neg : (bits value : ℕ) → ℕ
neg bits value = (2 ^ bits - value) % 2 ^ bits

-- `wrapping_shl`, `wrapping_shr`, `rotate_left`, `rotate_right` by the low bits of the count
abbrev pub shl : (bits value count : ℕ) → ℕ
shl bits value count = value * 2 ^ (count % bits) % 2 ^ bits

abbrev pub shr_u : (bits value count : ℕ) → ℕ
shr_u bits value count = value / 2 ^ (count % bits)

-- An arithmetic shift rounds down.
abbrev pub halve : ℤ → ℕ → ℤ
halve (pos n) k = pos (n / 2 ^ k)
halve (negsuc n) k = negsuc (n / 2 ^ k)

abbrev pub shr_s : (bits value count : ℕ) → ℕ
shr_s bits value count = to_unsigned bits (halve (to_signed bits value) (count % bits))

abbrev pub rotl : (bits value count : ℕ) → ℕ
rotl bits value count =
    let k : ℕ = count % bits in value * 2 ^ k % 2 ^ bits + value / 2 ^ (bits - k)

abbrev pub rotr : (bits value count : ℕ) → ℕ
rotr bits value count =
    let k : ℕ = count % bits in value / 2 ^ k + value * 2 ^ (bits - k) % 2 ^ bits

-- The comparisons of signed integers.
abbrev pub lt_z : ℤ → ℤ → Bool
lt_z (pos m) (pos n) = ltb m n
lt_z (pos m) (negsuc n) = false
lt_z (negsuc m) (pos n) = true
lt_z (negsuc m) (negsuc n) = ltb n m

abbrev pub le_z : ℤ → ℤ → Bool
le_z (pos m) (pos n) = leb m n
le_z (pos m) (negsuc n) = false
le_z (negsuc m) (pos n) = true
le_z (negsuc m) (negsuc n) = leb n m

-- `cmp_i32` and `cmp_i64`
unfoldable pub cmp : (bits lhs rhs : ℕ) → CmpOp → Bool
cmp bits lhs rhs eq = lhs == rhs
cmp bits lhs rhs ne = not (lhs == rhs)
cmp bits lhs rhs lt_s = lt_z (to_signed bits lhs) (to_signed bits rhs)
cmp bits lhs rhs lt_u = ltb lhs rhs
cmp bits lhs rhs gt_s = lt_z (to_signed bits rhs) (to_signed bits lhs)
cmp bits lhs rhs gt_u = ltb rhs lhs
cmp bits lhs rhs le_s = le_z (to_signed bits lhs) (to_signed bits rhs)
cmp bits lhs rhs le_u = leb lhs rhs
cmp bits lhs rhs ge_s = le_z (to_signed bits rhs) (to_signed bits lhs)
cmp bits lhs rhs ge_u = leb rhs lhs

-- The quotient rounds towards zero, and the remainder has the sign of the dividend.
unfoldable pub quot : ℤ → ℤ → ℤ
quot (pos m) (pos n) = pos (m / n)
quot (pos m) (negsuc n) = elim (m / suc n) [ zero ↦ pos 0 | suc q ↦ negsuc q ]
quot (negsuc m) (pos n) = elim (suc m / n) [ zero ↦ pos 0 | suc q ↦ negsuc q ]
quot (negsuc m) (negsuc n) = pos (suc m / suc n)

unfoldable pub rem : ℤ → ℤ → ℤ
rem (pos m) (pos n) = pos (m % n)
rem (pos m) (negsuc n) = pos (m % suc n)
rem (negsuc m) (pos n) = elim (suc m % n) [ zero ↦ pos 0 | suc r ↦ negsuc r ]
rem (negsuc m) (negsuc n) = elim (suc m % suc n) [ zero ↦ pos 0 | suc r ↦ negsuc r ]

-- `tw_checked_div` of a signed type; only the least value over -1 does not fit.
unfoldable pub div_s : (bits lhs rhs : ℕ) → Result ℕ
unfolding quot
div_s bits lhs rhs =
    if rhs == 0
    then err division_by_zero
    else (if (lhs == 2 ^ (bits - 1)) && (rhs == (2 ^ bits - 1))
        then err integer_overflow
        else ok (to_unsigned bits (quot (to_signed bits lhs) (to_signed bits rhs))))

-- `checked_div(b).ok_or(Trap::DivisionByZero)` of an unsigned type
unfoldable pub div_u : (lhs rhs : ℕ) → Result ℕ
div_u lhs rhs = if rhs == 0 then err division_by_zero else ok (lhs / rhs)

-- `tw_checked_wrapping_rem` of a signed and of an unsigned type
unfoldable pub rem_s : (bits lhs rhs : ℕ) → Result ℕ
unfolding rem
rem_s bits lhs rhs =
    if rhs == 0
    then err division_by_zero
    else ok (to_unsigned bits (rem (to_signed bits lhs) (to_signed bits rhs)))

unfoldable pub rem_u : (lhs rhs : ℕ) → Result ℕ
rem_u lhs rhs = if rhs == 0 then err division_by_zero else ok (lhs % rhs)

-- `leading_zeros`, `trailing_zeros` and `count_ones` of the low `bits` bits
unfoldable pub clz : (bits value : ℕ) → ℕ
clz zero value = 0
clz (suc bits) value = let rest = clz bits value in if ltb value (2 ^ bits) then suc rest else 0

unfoldable pub ctz : (bits value : ℕ) → ℕ
ctz zero value = 0
ctz (suc bits) value = let rest = ctz bits (value / 2) in if (value % 2) == 0 then suc rest else 0

unfoldable pub popcnt : (bits value : ℕ) → ℕ
popcnt zero value = 0
popcnt (suc bits) value = value % 2 + popcnt bits (value / 2)

-- `i32::from(v as i8)` and its like: from the low `low` bits to `bits`
abbrev pub extend : (low bits value : ℕ) → ℕ
extend low bits value = to_unsigned bits (to_signed low (value % 2 ^ low))

-- `tw_minimum` and `tw_maximum`, without the feature `canonicalize-nans`
abbrev is_sign_negative : (bits value : ℕ) → Bool
is_sign_negative bits value = leb (2 ^ (bits - 1)) value

unfoldable pub minimum : Floats → (bits lhs rhs : ℕ) → ℕ
minimum floats bits lhs rhs = elim (floats.partial_cmp bits lhs rhs) [
  | some o ↦ elim o [
    | Ordering.lt ↦ lhs
    | Ordering.gt ↦ rhs
    | Ordering.eq ↦
        if is_sign_negative bits lhs && not (is_sign_negative bits rhs) then lhs else rhs
  ]
  | none ↦ floats.add bits lhs rhs
]

unfoldable pub maximum : Floats → (bits lhs rhs : ℕ) → ℕ
maximum floats bits lhs rhs = elim (floats.partial_cmp bits lhs rhs) [
  | some o ↦ elim o [
    | Ordering.gt ↦ lhs
    | Ordering.lt ↦ rhs
    | Ordering.eq ↦
        if is_sign_negative bits lhs && not (is_sign_negative bits rhs) then rhs else lhs
  ]
  | none ↦ floats.add bits lhs rhs
]

-- The sign of the second, the other bits of the first.
abbrev pub copysign : (bits lhs rhs : ℕ) → ℕ
copysign bits lhs rhs = lhs % 2 ^ (bits - 1) + rhs / 2 ^ (bits - 1) * 2 ^ (bits - 1)

-- `exec_binop!`; a count is cast to `u32` before a shift.
unfoldable pub exec_binop : Floats → (bits : ℕ) → BinOp → (lhs rhs : ℕ) → ℕ
unfolding minimum maximum
exec_binop floats bits i_add lhs rhs = add bits lhs rhs
exec_binop floats bits i_sub lhs rhs = sub bits lhs rhs
exec_binop floats bits i_mul lhs rhs = mul bits lhs rhs
exec_binop floats bits i_and lhs rhs = bit_and lhs rhs
exec_binop floats bits i_or lhs rhs = bit_or lhs rhs
exec_binop floats bits i_xor lhs rhs = bit_xor lhs rhs
exec_binop floats bits i_shl lhs rhs = shl bits lhs (rhs % 2 ^ 32)
exec_binop floats bits i_shr_s lhs rhs = shr_s bits lhs (rhs % 2 ^ 32)
exec_binop floats bits i_shr_u lhs rhs = shr_u bits lhs (rhs % 2 ^ 32)
exec_binop floats bits i_rotl lhs rhs = rotl bits lhs (rhs % 2 ^ 32)
exec_binop floats bits i_rotr lhs rhs = rotr bits lhs (rhs % 2 ^ 32)
exec_binop floats bits f_add lhs rhs = floats.add bits lhs rhs
exec_binop floats bits f_sub lhs rhs = floats.sub bits lhs rhs
exec_binop floats bits f_mul lhs rhs = floats.mul bits lhs rhs
exec_binop floats bits f_div lhs rhs = floats.div bits lhs rhs
exec_binop floats bits f_min lhs rhs = minimum floats bits lhs rhs
exec_binop floats bits f_max lhs rhs = maximum floats bits lhs rhs
exec_binop floats bits f_copysign lhs rhs = copysign bits lhs rhs

-- `I64Add128`, `I64Sub128`, `I64MulWideU`, `I64MulWideS`: the low half first
unfoldable pub add_128 : (a_lo a_hi b_lo b_hi : ℕ) → ℕ × ℕ
add_128 a_lo a_hi b_lo b_hi =
    let lo : ℕ = add 64 a_lo b_lo in
    let carry : ℕ = if ltb lo a_lo then 1 else 0 in (lo, add 64 (add 64 a_hi b_hi) carry)

unfoldable pub sub_128 : (a_lo a_hi b_lo b_hi : ℕ) → ℕ × ℕ
sub_128 a_lo a_hi b_lo b_hi =
    let lo : ℕ = sub 64 a_lo b_lo in
    let borrow : ℕ = if ltb a_lo b_lo then 1 else 0 in (lo, sub 64 (sub 64 a_hi b_hi) borrow)

unfoldable pub mul_wide_u : (a b : ℕ) → ℕ × ℕ
mul_wide_u a b = let product : ℕ = a * b % 2 ^ 128 in (product % 2 ^ 64, product / 2 ^ 64)

unfoldable pub mul_wide_s : (a b : ℕ) → ℕ × ℕ
mul_wide_s a b =
    let product : ℕ = mul 128 (extend 64 128 a) (extend 64 128 b) in
    (product % 2 ^ 64, product / 2 ^ 64)
