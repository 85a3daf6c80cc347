-- ===== src/Executor/Quiet/Numerics.antt =====
-- crates/tinywasm/src/interpreter/executor.rs: the numeric instructions leave the function, its
-- module and the fuel as they were.
use tinywasm.Instructions.{
  NumericOp, i32_eqz, i32_eq, i32_ne, i32_lt_s, i32_lt_u, i32_gt_s, i32_gt_u, i32_le_s, i32_le_u,
  i32_ge_s, i32_ge_u, i64_eqz, i64_eq, i64_ne, i64_lt_s, i64_lt_u, i64_gt_s, i64_gt_u, i64_le_s,
  i64_le_u, i64_ge_s, i64_ge_u, f32_eq, f32_ne, f32_lt, f32_gt, f32_le, f32_ge, f64_eq, f64_ne,
  f64_lt, f64_gt, f64_le, f64_ge, i32_clz, i32_ctz, i32_popcnt, i32_add, i32_sub, i32_mul,
  i32_div_s, i32_div_u, i32_rem_s, i32_rem_u, i64_clz, i64_ctz, i64_popcnt, i64_add, i64_sub,
  i64_mul, i64_div_s, i64_div_u, i64_rem_s, i64_rem_u, i32_and, i32_or, i32_xor, i32_shl, i32_shr_s,
  i32_shr_u, i32_rotl, i32_rotr, i64_and, i64_or, i64_xor, i64_shl, i64_shr_s, i64_shr_u, i64_rotl,
  i64_rotr, f32_add, f32_sub, f32_mul, f32_div, f32_min, f32_max, f32_copysign, f64_add, f64_sub,
  f64_mul, f64_div, f64_min, f64_max, f64_copysign, i32_wrap_i64, i32_extend8_s, i32_extend16_s,
  i64_extend8_s, i64_extend16_s, i64_extend32_s, i64_extend_i32_s, i64_extend_i32_u, i32_add3,
  i64_add3, i64_add128, i64_sub128, i64_mul_wide_s, i64_mul_wide_u,
}
use tinywasm.Executor.State.{Context}
use tinywasm.Executor.Access.{slot_32, slot_64}
use tinywasm.Executor.Numerics.{exec_numeric}
use tinywasm.Executor.Calm.{Calm}
use tinywasm.Executor.Quiet.{
  unary-Calm, binary-Calm, binary_try-Calm, binary_into2-Calm, ternary-Calm, quaternary_into2-Calm,
}

pub exec_numeric-Calm : (ctx : Context) (op : NumericOp) → Calm (exec_numeric ctx op)
unfolding exec_numeric
exec_numeric-Calm ctx i32_eqz = unary-Calm ctx slot_32 slot_32 _
exec_numeric-Calm ctx i32_eq = binary-Calm ctx slot_32 slot_32 _
exec_numeric-Calm ctx i32_ne = binary-Calm ctx slot_32 slot_32 _
exec_numeric-Calm ctx i32_lt_s = binary-Calm ctx slot_32 slot_32 _
exec_numeric-Calm ctx i32_lt_u = binary-Calm ctx slot_32 slot_32 _
exec_numeric-Calm ctx i32_gt_s = binary-Calm ctx slot_32 slot_32 _
exec_numeric-Calm ctx i32_gt_u = binary-Calm ctx slot_32 slot_32 _
exec_numeric-Calm ctx i32_le_s = binary-Calm ctx slot_32 slot_32 _
exec_numeric-Calm ctx i32_le_u = binary-Calm ctx slot_32 slot_32 _
exec_numeric-Calm ctx i32_ge_s = binary-Calm ctx slot_32 slot_32 _
exec_numeric-Calm ctx i32_ge_u = binary-Calm ctx slot_32 slot_32 _
exec_numeric-Calm ctx f32_eq = binary-Calm ctx slot_32 slot_32 _
exec_numeric-Calm ctx f32_ne = binary-Calm ctx slot_32 slot_32 _
exec_numeric-Calm ctx f32_lt = binary-Calm ctx slot_32 slot_32 _
exec_numeric-Calm ctx f32_gt = binary-Calm ctx slot_32 slot_32 _
exec_numeric-Calm ctx f32_le = binary-Calm ctx slot_32 slot_32 _
exec_numeric-Calm ctx f32_ge = binary-Calm ctx slot_32 slot_32 _
exec_numeric-Calm ctx i32_clz = unary-Calm ctx slot_32 slot_32 _
exec_numeric-Calm ctx i32_ctz = unary-Calm ctx slot_32 slot_32 _
exec_numeric-Calm ctx i32_popcnt = unary-Calm ctx slot_32 slot_32 _
exec_numeric-Calm ctx i32_add = binary-Calm ctx slot_32 slot_32 _
exec_numeric-Calm ctx i32_sub = binary-Calm ctx slot_32 slot_32 _
exec_numeric-Calm ctx i32_mul = binary-Calm ctx slot_32 slot_32 _
exec_numeric-Calm ctx i32_div_s = binary_try-Calm ctx slot_32 _
exec_numeric-Calm ctx i32_div_u = binary_try-Calm ctx slot_32 _
exec_numeric-Calm ctx i32_rem_s = binary_try-Calm ctx slot_32 _
exec_numeric-Calm ctx i32_rem_u = binary_try-Calm ctx slot_32 _
exec_numeric-Calm ctx i32_and = binary-Calm ctx slot_32 slot_32 _
exec_numeric-Calm ctx i32_or = binary-Calm ctx slot_32 slot_32 _
exec_numeric-Calm ctx i32_xor = binary-Calm ctx slot_32 slot_32 _
exec_numeric-Calm ctx i32_shl = binary-Calm ctx slot_32 slot_32 _
exec_numeric-Calm ctx i32_shr_s = binary-Calm ctx slot_32 slot_32 _
exec_numeric-Calm ctx i32_shr_u = binary-Calm ctx slot_32 slot_32 _
exec_numeric-Calm ctx i32_rotl = binary-Calm ctx slot_32 slot_32 _
exec_numeric-Calm ctx i32_rotr = binary-Calm ctx slot_32 slot_32 _
exec_numeric-Calm ctx f32_add = binary-Calm ctx slot_32 slot_32 _
exec_numeric-Calm ctx f32_sub = binary-Calm ctx slot_32 slot_32 _
exec_numeric-Calm ctx f32_mul = binary-Calm ctx slot_32 slot_32 _
exec_numeric-Calm ctx f32_div = binary-Calm ctx slot_32 slot_32 _
exec_numeric-Calm ctx f32_min = binary-Calm ctx slot_32 slot_32 _
exec_numeric-Calm ctx f32_max = binary-Calm ctx slot_32 slot_32 _
exec_numeric-Calm ctx f32_copysign = binary-Calm ctx slot_32 slot_32 _
exec_numeric-Calm ctx i32_add3 = ternary-Calm ctx slot_32 _
exec_numeric-Calm ctx i64_eqz = unary-Calm ctx slot_64 slot_32 _
exec_numeric-Calm ctx i64_eq = binary-Calm ctx slot_64 slot_32 _
exec_numeric-Calm ctx i64_ne = binary-Calm ctx slot_64 slot_32 _
exec_numeric-Calm ctx i64_lt_s = binary-Calm ctx slot_64 slot_32 _
exec_numeric-Calm ctx i64_lt_u = binary-Calm ctx slot_64 slot_32 _
exec_numeric-Calm ctx i64_gt_s = binary-Calm ctx slot_64 slot_32 _
exec_numeric-Calm ctx i64_gt_u = binary-Calm ctx slot_64 slot_32 _
exec_numeric-Calm ctx i64_le_s = binary-Calm ctx slot_64 slot_32 _
exec_numeric-Calm ctx i64_le_u = binary-Calm ctx slot_64 slot_32 _
exec_numeric-Calm ctx i64_ge_s = binary-Calm ctx slot_64 slot_32 _
exec_numeric-Calm ctx i64_ge_u = binary-Calm ctx slot_64 slot_32 _
exec_numeric-Calm ctx f64_eq = binary-Calm ctx slot_64 slot_32 _
exec_numeric-Calm ctx f64_ne = binary-Calm ctx slot_64 slot_32 _
exec_numeric-Calm ctx f64_lt = binary-Calm ctx slot_64 slot_32 _
exec_numeric-Calm ctx f64_gt = binary-Calm ctx slot_64 slot_32 _
exec_numeric-Calm ctx f64_le = binary-Calm ctx slot_64 slot_32 _
exec_numeric-Calm ctx f64_ge = binary-Calm ctx slot_64 slot_32 _
exec_numeric-Calm ctx i64_clz = unary-Calm ctx slot_64 slot_64 _
exec_numeric-Calm ctx i64_ctz = unary-Calm ctx slot_64 slot_64 _
exec_numeric-Calm ctx i64_popcnt = unary-Calm ctx slot_64 slot_64 _
exec_numeric-Calm ctx i64_add = binary-Calm ctx slot_64 slot_64 _
exec_numeric-Calm ctx i64_sub = binary-Calm ctx slot_64 slot_64 _
exec_numeric-Calm ctx i64_mul = binary-Calm ctx slot_64 slot_64 _
exec_numeric-Calm ctx i64_div_s = binary_try-Calm ctx slot_64 _
exec_numeric-Calm ctx i64_div_u = binary_try-Calm ctx slot_64 _
exec_numeric-Calm ctx i64_rem_s = binary_try-Calm ctx slot_64 _
exec_numeric-Calm ctx i64_rem_u = binary_try-Calm ctx slot_64 _
exec_numeric-Calm ctx i64_and = binary-Calm ctx slot_64 slot_64 _
exec_numeric-Calm ctx i64_or = binary-Calm ctx slot_64 slot_64 _
exec_numeric-Calm ctx i64_xor = binary-Calm ctx slot_64 slot_64 _
exec_numeric-Calm ctx i64_shl = binary-Calm ctx slot_64 slot_64 _
exec_numeric-Calm ctx i64_shr_s = binary-Calm ctx slot_64 slot_64 _
exec_numeric-Calm ctx i64_shr_u = binary-Calm ctx slot_64 slot_64 _
exec_numeric-Calm ctx i64_rotl = binary-Calm ctx slot_64 slot_64 _
exec_numeric-Calm ctx i64_rotr = binary-Calm ctx slot_64 slot_64 _
exec_numeric-Calm ctx f64_add = binary-Calm ctx slot_64 slot_64 _
exec_numeric-Calm ctx f64_sub = binary-Calm ctx slot_64 slot_64 _
exec_numeric-Calm ctx f64_mul = binary-Calm ctx slot_64 slot_64 _
exec_numeric-Calm ctx f64_div = binary-Calm ctx slot_64 slot_64 _
exec_numeric-Calm ctx f64_min = binary-Calm ctx slot_64 slot_64 _
exec_numeric-Calm ctx f64_max = binary-Calm ctx slot_64 slot_64 _
exec_numeric-Calm ctx f64_copysign = binary-Calm ctx slot_64 slot_64 _
exec_numeric-Calm ctx i64_add3 = ternary-Calm ctx slot_64 _
exec_numeric-Calm ctx i32_wrap_i64 = unary-Calm ctx slot_64 slot_32 _
exec_numeric-Calm ctx i32_extend8_s = unary-Calm ctx slot_32 slot_32 _
exec_numeric-Calm ctx i32_extend16_s = unary-Calm ctx slot_32 slot_32 _
exec_numeric-Calm ctx i64_extend8_s = unary-Calm ctx slot_64 slot_64 _
exec_numeric-Calm ctx i64_extend16_s = unary-Calm ctx slot_64 slot_64 _
exec_numeric-Calm ctx i64_extend32_s = unary-Calm ctx slot_64 slot_64 _
exec_numeric-Calm ctx i64_extend_i32_s = unary-Calm ctx slot_32 slot_64 _
exec_numeric-Calm ctx i64_extend_i32_u = unary-Calm ctx slot_32 slot_64 _
exec_numeric-Calm ctx i64_add128 = quaternary_into2-Calm ctx _
exec_numeric-Calm ctx i64_sub128 = quaternary_into2-Calm ctx _
exec_numeric-Calm ctx i64_mul_wide_s = binary_into2-Calm ctx _
exec_numeric-Calm ctx i64_mul_wide_u = binary_into2-Calm ctx _
