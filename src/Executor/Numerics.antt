-- ===== src/Executor/Numerics.antt =====
-- crates/tinywasm/src/interpreter/executor.rs: the numeric instructions of `exec`.
use Prim.Native.Nat.{Ordering}
use tinywasm.Prelude.{
  ℕ, ◌%◌, ◌^◌, bit_and, bit_or, bit_xor, Bool, true, false, not, ◌==◌, if◌then◌else◌, Option, none,
  some,
}
use tinywasm.Instructions.{
  eq, ne, lt_s, lt_u, gt_s, gt_u, le_s, le_u, ge_s, ge_u, NumericOp, i32_eqz, i32_eq, i32_ne,
  i32_lt_s, i32_lt_u, i32_gt_s, i32_gt_u, i32_le_s, i32_le_u, i32_ge_s, i32_ge_u, i64_eqz, i64_eq,
  i64_ne, i64_lt_s, i64_lt_u, i64_gt_s, i64_gt_u, i64_le_s, i64_le_u, i64_ge_s, i64_ge_u, f32_eq,
  f32_ne, f32_lt, f32_gt, f32_le, f32_ge, f64_eq, f64_ne, f64_lt, f64_gt, f64_le, f64_ge, i32_clz,
  i32_ctz, i32_popcnt, i32_add, i32_sub, i32_mul, i32_div_s, i32_div_u, i32_rem_s, i32_rem_u,
  i64_clz, i64_ctz, i64_popcnt, i64_add, i64_sub, i64_mul, i64_div_s, i64_div_u, i64_rem_s,
  i64_rem_u, i32_and, i32_or, i32_xor, i32_shl, i32_shr_s, i32_shr_u, i32_rotl, i32_rotr, i64_and,
  i64_or, i64_xor, i64_shl, i64_shr_s, i64_shr_u, i64_rotl, i64_rotr, f32_add, f32_sub, f32_mul,
  f32_div, f32_min, f32_max, f32_copysign, f64_add, f64_sub, f64_mul, f64_div, f64_min, f64_max,
  f64_copysign, i32_wrap_i64, i32_extend8_s, i32_extend16_s, i64_extend8_s, i64_extend16_s,
  i64_extend32_s, i64_extend_i32_s, i64_extend_i32_u, i32_add3, i64_add3, i64_add128, i64_sub128,
  i64_mul_wide_s, i64_mul_wide_u,
}
use tinywasm.Numeric
use tinywasm.Numeric.{
  cmp, div_s, div_u, rem_s, rem_u, clz, ctz, popcnt, shl, shr_s, shr_u, rotl, rotr, extend, minimum,
  maximum, copysign, add_128, sub_128, mul_wide_s, mul_wide_u,
}
use tinywasm.Executor.State.{Context, Run}
use tinywasm.Executor.Access.{slot_32, slot_64}
use tinywasm.Executor.Operators.{unary, binary, binary_try, binary_into2, ternary, quaternary_into2}

-- `i32::from` of a Boolean
abbrev pub bit : Bool → ℕ
bit b = if b then 1 else 0

-- The comparisons of floats, on the answer of `partial_cmp`.
abbrev is_eq : Option Ordering → Bool
is_eq none = false
is_eq (some o) = elim o [ Ordering.eq ↦ true | Ordering.lt ↦ false | Ordering.gt ↦ false ]

abbrev is_ne : Option Ordering → Bool
is_ne o = not (is_eq o)

abbrev is_lt : Option Ordering → Bool
is_lt none = false
is_lt (some o) = elim o [ Ordering.eq ↦ false | Ordering.lt ↦ true | Ordering.gt ↦ false ]

abbrev is_gt : Option Ordering → Bool
is_gt none = false
is_gt (some o) = elim o [ Ordering.eq ↦ false | Ordering.lt ↦ false | Ordering.gt ↦ true ]

abbrev is_le : Option Ordering → Bool
is_le none = false
is_le (some o) = elim o [ Ordering.eq ↦ true | Ordering.lt ↦ true | Ordering.gt ↦ false ]

abbrev is_ge : Option Ordering → Bool
is_ge none = false
is_ge (some o) = elim o [ Ordering.eq ↦ true | Ordering.lt ↦ false | Ordering.gt ↦ true ]

unfoldable pub exec_numeric : Context → NumericOp → Run (Unit {0})
unfolding unary binary binary_try binary_into2 ternary quaternary_into2
exec_numeric ctx i32_eqz = unary ctx slot_32 slot_32 (λ v. bit (v == 0))
exec_numeric ctx i32_eq = binary ctx slot_32 slot_32 (λ a b. bit (cmp 32 a b eq))
exec_numeric ctx i32_ne = binary ctx slot_32 slot_32 (λ a b. bit (cmp 32 a b ne))
exec_numeric ctx i32_lt_s = binary ctx slot_32 slot_32 (λ a b. bit (cmp 32 a b lt_s))
exec_numeric ctx i32_lt_u = binary ctx slot_32 slot_32 (λ a b. bit (cmp 32 a b lt_u))
exec_numeric ctx i32_gt_s = binary ctx slot_32 slot_32 (λ a b. bit (cmp 32 a b gt_s))
exec_numeric ctx i32_gt_u = binary ctx slot_32 slot_32 (λ a b. bit (cmp 32 a b gt_u))
exec_numeric ctx i32_le_s = binary ctx slot_32 slot_32 (λ a b. bit (cmp 32 a b le_s))
exec_numeric ctx i32_le_u = binary ctx slot_32 slot_32 (λ a b. bit (cmp 32 a b le_u))
exec_numeric ctx i32_ge_s = binary ctx slot_32 slot_32 (λ a b. bit (cmp 32 a b ge_s))
exec_numeric ctx i32_ge_u = binary ctx slot_32 slot_32 (λ a b. bit (cmp 32 a b ge_u))
exec_numeric ctx f32_eq =
    binary ctx slot_32 slot_32 (λ a b. bit (is_eq (ctx.floats.partial_cmp 32 a b)))
exec_numeric ctx f32_ne =
    binary ctx slot_32 slot_32 (λ a b. bit (is_ne (ctx.floats.partial_cmp 32 a b)))
exec_numeric ctx f32_lt =
    binary ctx slot_32 slot_32 (λ a b. bit (is_lt (ctx.floats.partial_cmp 32 a b)))
exec_numeric ctx f32_gt =
    binary ctx slot_32 slot_32 (λ a b. bit (is_gt (ctx.floats.partial_cmp 32 a b)))
exec_numeric ctx f32_le =
    binary ctx slot_32 slot_32 (λ a b. bit (is_le (ctx.floats.partial_cmp 32 a b)))
exec_numeric ctx f32_ge =
    binary ctx slot_32 slot_32 (λ a b. bit (is_ge (ctx.floats.partial_cmp 32 a b)))
exec_numeric ctx i32_clz = unary ctx slot_32 slot_32 (clz 32)
exec_numeric ctx i32_ctz = unary ctx slot_32 slot_32 (ctz 32)
exec_numeric ctx i32_popcnt = unary ctx slot_32 slot_32 (popcnt 32)
exec_numeric ctx i32_add = binary ctx slot_32 slot_32 (Numeric.add 32)
exec_numeric ctx i32_sub = binary ctx slot_32 slot_32 (Numeric.sub 32)
exec_numeric ctx i32_mul = binary ctx slot_32 slot_32 (Numeric.mul 32)
exec_numeric ctx i32_div_s = binary_try ctx slot_32 (div_s 32)
exec_numeric ctx i32_div_u = binary_try ctx slot_32 div_u
exec_numeric ctx i32_rem_s = binary_try ctx slot_32 (rem_s 32)
exec_numeric ctx i32_rem_u = binary_try ctx slot_32 rem_u
exec_numeric ctx i32_and = binary ctx slot_32 slot_32 bit_and
exec_numeric ctx i32_or = binary ctx slot_32 slot_32 bit_or
exec_numeric ctx i32_xor = binary ctx slot_32 slot_32 bit_xor
exec_numeric ctx i32_shl = binary ctx slot_32 slot_32 (λ a b. shl 32 a (b % 2 ^ 32))
exec_numeric ctx i32_shr_s = binary ctx slot_32 slot_32 (λ a b. shr_s 32 a (b % 2 ^ 32))
exec_numeric ctx i32_shr_u = binary ctx slot_32 slot_32 (λ a b. shr_u 32 a (b % 2 ^ 32))
exec_numeric ctx i32_rotl = binary ctx slot_32 slot_32 (λ a b. rotl 32 a (b % 2 ^ 32))
exec_numeric ctx i32_rotr = binary ctx slot_32 slot_32 (λ a b. rotr 32 a (b % 2 ^ 32))
exec_numeric ctx f32_add = binary ctx slot_32 slot_32 (ctx.floats.add 32)
exec_numeric ctx f32_sub = binary ctx slot_32 slot_32 (ctx.floats.sub 32)
exec_numeric ctx f32_mul = binary ctx slot_32 slot_32 (ctx.floats.mul 32)
exec_numeric ctx f32_div = binary ctx slot_32 slot_32 (ctx.floats.div 32)
exec_numeric ctx f32_min = binary ctx slot_32 slot_32 (minimum ctx.floats 32)
exec_numeric ctx f32_max = binary ctx slot_32 slot_32 (maximum ctx.floats 32)
exec_numeric ctx f32_copysign = binary ctx slot_32 slot_32 (copysign 32)
exec_numeric ctx i32_add3 = ternary ctx slot_32 (λ a b c. Numeric.add 32 (Numeric.add 32 a b) c)
exec_numeric ctx i64_eqz = unary ctx slot_64 slot_32 (λ v. bit (v == 0))
exec_numeric ctx i64_eq = binary ctx slot_64 slot_32 (λ a b. bit (cmp 64 a b eq))
exec_numeric ctx i64_ne = binary ctx slot_64 slot_32 (λ a b. bit (cmp 64 a b ne))
exec_numeric ctx i64_lt_s = binary ctx slot_64 slot_32 (λ a b. bit (cmp 64 a b lt_s))
exec_numeric ctx i64_lt_u = binary ctx slot_64 slot_32 (λ a b. bit (cmp 64 a b lt_u))
exec_numeric ctx i64_gt_s = binary ctx slot_64 slot_32 (λ a b. bit (cmp 64 a b gt_s))
exec_numeric ctx i64_gt_u = binary ctx slot_64 slot_32 (λ a b. bit (cmp 64 a b gt_u))
exec_numeric ctx i64_le_s = binary ctx slot_64 slot_32 (λ a b. bit (cmp 64 a b le_s))
exec_numeric ctx i64_le_u = binary ctx slot_64 slot_32 (λ a b. bit (cmp 64 a b le_u))
exec_numeric ctx i64_ge_s = binary ctx slot_64 slot_32 (λ a b. bit (cmp 64 a b ge_s))
exec_numeric ctx i64_ge_u = binary ctx slot_64 slot_32 (λ a b. bit (cmp 64 a b ge_u))
exec_numeric ctx f64_eq =
    binary ctx slot_64 slot_32 (λ a b. bit (is_eq (ctx.floats.partial_cmp 64 a b)))
exec_numeric ctx f64_ne =
    binary ctx slot_64 slot_32 (λ a b. bit (is_ne (ctx.floats.partial_cmp 64 a b)))
exec_numeric ctx f64_lt =
    binary ctx slot_64 slot_32 (λ a b. bit (is_lt (ctx.floats.partial_cmp 64 a b)))
exec_numeric ctx f64_gt =
    binary ctx slot_64 slot_32 (λ a b. bit (is_gt (ctx.floats.partial_cmp 64 a b)))
exec_numeric ctx f64_le =
    binary ctx slot_64 slot_32 (λ a b. bit (is_le (ctx.floats.partial_cmp 64 a b)))
exec_numeric ctx f64_ge =
    binary ctx slot_64 slot_32 (λ a b. bit (is_ge (ctx.floats.partial_cmp 64 a b)))
exec_numeric ctx i64_clz = unary ctx slot_64 slot_64 (clz 64)
exec_numeric ctx i64_ctz = unary ctx slot_64 slot_64 (ctz 64)
exec_numeric ctx i64_popcnt = unary ctx slot_64 slot_64 (popcnt 64)
exec_numeric ctx i64_add = binary ctx slot_64 slot_64 (Numeric.add 64)
exec_numeric ctx i64_sub = binary ctx slot_64 slot_64 (Numeric.sub 64)
exec_numeric ctx i64_mul = binary ctx slot_64 slot_64 (Numeric.mul 64)
exec_numeric ctx i64_div_s = binary_try ctx slot_64 (div_s 64)
exec_numeric ctx i64_div_u = binary_try ctx slot_64 div_u
exec_numeric ctx i64_rem_s = binary_try ctx slot_64 (rem_s 64)
exec_numeric ctx i64_rem_u = binary_try ctx slot_64 rem_u
exec_numeric ctx i64_and = binary ctx slot_64 slot_64 bit_and
exec_numeric ctx i64_or = binary ctx slot_64 slot_64 bit_or
exec_numeric ctx i64_xor = binary ctx slot_64 slot_64 bit_xor
exec_numeric ctx i64_shl = binary ctx slot_64 slot_64 (λ a b. shl 64 a (b % 2 ^ 32))
exec_numeric ctx i64_shr_s = binary ctx slot_64 slot_64 (λ a b. shr_s 64 a (b % 2 ^ 32))
exec_numeric ctx i64_shr_u = binary ctx slot_64 slot_64 (λ a b. shr_u 64 a (b % 2 ^ 32))
exec_numeric ctx i64_rotl = binary ctx slot_64 slot_64 (λ a b. rotl 64 a (b % 2 ^ 32))
exec_numeric ctx i64_rotr = binary ctx slot_64 slot_64 (λ a b. rotr 64 a (b % 2 ^ 32))
exec_numeric ctx f64_add = binary ctx slot_64 slot_64 (ctx.floats.add 64)
exec_numeric ctx f64_sub = binary ctx slot_64 slot_64 (ctx.floats.sub 64)
exec_numeric ctx f64_mul = binary ctx slot_64 slot_64 (ctx.floats.mul 64)
exec_numeric ctx f64_div = binary ctx slot_64 slot_64 (ctx.floats.div 64)
exec_numeric ctx f64_min = binary ctx slot_64 slot_64 (minimum ctx.floats 64)
exec_numeric ctx f64_max = binary ctx slot_64 slot_64 (maximum ctx.floats 64)
exec_numeric ctx f64_copysign = binary ctx slot_64 slot_64 (copysign 64)
exec_numeric ctx i64_add3 = ternary ctx slot_64 (λ a b c. Numeric.add 64 (Numeric.add 64 a b) c)
exec_numeric ctx i32_wrap_i64 = unary ctx slot_64 slot_32 (λ v. v % 2 ^ 32)
exec_numeric ctx i32_extend8_s = unary ctx slot_32 slot_32 (extend 8 32)
exec_numeric ctx i32_extend16_s = unary ctx slot_32 slot_32 (extend 16 32)
exec_numeric ctx i64_extend8_s = unary ctx slot_64 slot_64 (extend 8 64)
exec_numeric ctx i64_extend16_s = unary ctx slot_64 slot_64 (extend 16 64)
exec_numeric ctx i64_extend32_s = unary ctx slot_64 slot_64 (extend 32 64)
exec_numeric ctx i64_extend_i32_s = unary ctx slot_32 slot_64 (extend 32 64)
exec_numeric ctx i64_extend_i32_u = unary ctx slot_32 slot_64 (λ v. v)
exec_numeric ctx i64_add128 = quaternary_into2 ctx add_128
exec_numeric ctx i64_sub128 = quaternary_into2 ctx sub_128
exec_numeric ctx i64_mul_wide_s = binary_into2 ctx mul_wide_s
exec_numeric ctx i64_mul_wide_u = binary_into2 ctx mul_wide_u
