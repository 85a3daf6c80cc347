-- ===== src/Optimizer/Operators.antt =====
-- crates/parser/src/optimize.rs: the views of instructions that the rules share.
use tinywasm.Prelude.{ℕ, Option, none, some}
use tinywasm.Instructions.{
  CmpOp, eq, ne, lt_s, lt_u, gt_s, gt_u, le_s, le_u, ge_s, ge_u, BinOp, i_add, i_sub, i_mul, i_and,
  i_or, i_xor, i_shl, i_shr_s, i_shr_u, i_rotl, i_rotr, f_add, f_sub, f_mul, f_div, f_min, f_max,
  f_copysign, i32_eq, i32_ne, i32_lt_s, i32_lt_u, i32_gt_s, i32_gt_u, i32_le_s, i32_le_u, i32_ge_s,
  i32_ge_u, i64_eq, i64_ne, i64_lt_s, i64_lt_u, i64_gt_s, i64_gt_u, i64_le_s, i64_le_u, i64_ge_s,
  i64_ge_u, i32_add, i32_sub, i32_mul, i64_add, i64_sub, i64_mul, i32_and, i32_or, i32_xor, i32_shl,
  i32_shr_s, i32_shr_u, i32_rotl, i32_rotr, i64_and, i64_or, i64_xor, i64_shl, i64_shr_s, i64_shr_u,
  i64_rotl, i64_rotr, f32_add, f32_sub, f32_mul, f32_div, f32_min, f32_max, f32_copysign, f64_add,
  f64_sub, f64_mul, f64_div, f64_min, f64_max, f64_copysign, Instruction, bin_op_local_local_set_32,
  bin_op_local_local_set_64, bin_op_local_local_tee_32, bin_op_local_local_tee_64,
  bin_op_local_const_set_32, bin_op_local_const_set_64, bin_op_local_const_tee_32,
  bin_op_local_const_tee_64, local_get_32, local_set_32, local_tee_32, local_get_64, local_set_64,
  local_tee_64, const_32, const_64, numeric,
}

-- `cmp_op`
unfoldable pub cmp_op : Instruction → Option CmpOp
cmp_op (numeric i32_eq) = some eq
cmp_op (numeric i64_eq) = some eq
cmp_op (numeric i32_ne) = some ne
cmp_op (numeric i64_ne) = some ne
cmp_op (numeric i32_lt_s) = some lt_s
cmp_op (numeric i64_lt_s) = some lt_s
cmp_op (numeric i32_lt_u) = some lt_u
cmp_op (numeric i64_lt_u) = some lt_u
cmp_op (numeric i32_gt_s) = some gt_s
cmp_op (numeric i64_gt_s) = some gt_s
cmp_op (numeric i32_gt_u) = some gt_u
cmp_op (numeric i64_gt_u) = some gt_u
cmp_op (numeric i32_le_s) = some le_s
cmp_op (numeric i64_le_s) = some le_s
cmp_op (numeric i32_le_u) = some le_u
cmp_op (numeric i64_le_u) = some le_u
cmp_op (numeric i32_ge_s) = some ge_s
cmp_op (numeric i64_ge_s) = some ge_s
cmp_op (numeric i32_ge_u) = some ge_u
cmp_op (numeric i64_ge_u) = some ge_u
cmp_op _ = none

-- `int_bin_op`
unfoldable pub int_bin_op : Instruction → Option BinOp
int_bin_op (numeric i32_add) = some i_add
int_bin_op (numeric i64_add) = some i_add
int_bin_op (numeric i32_sub) = some i_sub
int_bin_op (numeric i64_sub) = some i_sub
int_bin_op (numeric i32_mul) = some i_mul
int_bin_op (numeric i64_mul) = some i_mul
int_bin_op (numeric i32_and) = some i_and
int_bin_op (numeric i64_and) = some i_and
int_bin_op (numeric i32_or) = some i_or
int_bin_op (numeric i64_or) = some i_or
int_bin_op (numeric i32_xor) = some i_xor
int_bin_op (numeric i64_xor) = some i_xor
int_bin_op (numeric i32_shl) = some i_shl
int_bin_op (numeric i64_shl) = some i_shl
int_bin_op (numeric i32_shr_s) = some i_shr_s
int_bin_op (numeric i64_shr_s) = some i_shr_s
int_bin_op (numeric i32_shr_u) = some i_shr_u
int_bin_op (numeric i64_shr_u) = some i_shr_u
int_bin_op (numeric i32_rotl) = some i_rotl
int_bin_op (numeric i64_rotl) = some i_rotl
int_bin_op (numeric i32_rotr) = some i_rotr
int_bin_op (numeric i64_rotr) = some i_rotr
int_bin_op _ = none

-- `float_bin_op`
unfoldable pub float_bin_op : Instruction → Option BinOp
float_bin_op (numeric f32_add) = some f_add
float_bin_op (numeric f64_add) = some f_add
float_bin_op (numeric f32_sub) = some f_sub
float_bin_op (numeric f64_sub) = some f_sub
float_bin_op (numeric f32_mul) = some f_mul
float_bin_op (numeric f64_mul) = some f_mul
float_bin_op (numeric f32_div) = some f_div
float_bin_op (numeric f64_div) = some f_div
float_bin_op (numeric f32_min) = some f_min
float_bin_op (numeric f64_min) = some f_min
float_bin_op (numeric f32_max) = some f_max
float_bin_op (numeric f64_max) = some f_max
float_bin_op (numeric f32_copysign) = some f_copysign
float_bin_op (numeric f64_copysign) = some f_copysign
float_bin_op _ = none

-- `scalar_bin_op`
unfoldable pub scalar_bin_op : Instruction → Option BinOp
unfolding int_bin_op float_bin_op
scalar_bin_op instr = elim (int_bin_op instr) [ some op ↦ some op | none ↦ float_bin_op instr ]

-- `scalar_const_32`, `scalar_const_64`
abbrev when : Option BinOp → ℕ → Option ℕ
when none c = none
when (some op) c = some c

unfoldable pub scalar_const_32 : (instr op_instr : Instruction) → Option ℕ
unfolding scalar_bin_op
scalar_const_32 (const_32 c) op_instr = when (scalar_bin_op op_instr) c
scalar_const_32 _ op_instr = none

unfoldable pub scalar_const_64 : (instr op_instr : Instruction) → Option ℕ
unfolding scalar_bin_op
scalar_const_64 (const_64 c) op_instr = when (scalar_bin_op op_instr) c
scalar_const_64 _ op_instr = none

-- `define_local_source_resolver!`: what stays of the instruction that pushes a local, and the local
unfoldable pub resolve_local_source_32 : Instruction → Option (Option Instruction × ℕ)
resolve_local_source_32 (local_get_32 local) = some (none, local)
resolve_local_source_32 (local_tee_32 local) = some (some (local_set_32 local), local)
resolve_local_source_32 (bin_op_local_local_tee_32 op a b local) =
    some (some (bin_op_local_local_set_32 op a b local), local)
resolve_local_source_32 (bin_op_local_const_tee_32 op src c local) =
    some (some (bin_op_local_const_set_32 op src c local), local)
resolve_local_source_32 _ = none

unfoldable pub resolve_local_source_64 : Instruction → Option (Option Instruction × ℕ)
resolve_local_source_64 (local_get_64 local) = some (none, local)
resolve_local_source_64 (local_tee_64 local) = some (some (local_set_64 local), local)
resolve_local_source_64 (bin_op_local_local_tee_64 op a b local) =
    some (some (bin_op_local_local_set_64 op a b local), local)
resolve_local_source_64 (bin_op_local_const_tee_64 op src c local) =
    some (some (bin_op_local_const_set_64 op src c local), local)
resolve_local_source_64 _ = none

-- `inverse_cmp_op`
unfoldable pub inverse_cmp_op : CmpOp → CmpOp
inverse_cmp_op eq = ne
inverse_cmp_op ne = eq
inverse_cmp_op lt_s = ge_s
inverse_cmp_op lt_u = ge_u
inverse_cmp_op gt_s = le_s
inverse_cmp_op gt_u = le_u
inverse_cmp_op le_s = gt_s
inverse_cmp_op le_u = gt_u
inverse_cmp_op ge_s = lt_s
inverse_cmp_op ge_u = lt_u
