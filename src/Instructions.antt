-- ===== src/Instructions.antt =====
-- crates/types/src/instructions.rs: the instructions of the interpreter, without those of memories,
-- tables, references and SIMD, the unary operations of floats and the conversions of floats.
-- An immediate of type `i32` or `i64` is the number of its bits, as the executor casts it.
use tinywasm.Prelude.{ℕ}
use tinywasm.Stack.Counts.{ValueCounts}

pub data CmpOp : Type 0 where
  eq ne lt_s lt_u gt_s gt_u le_s le_u ge_s ge_u : CmpOp

pub data BinOp : Type 0 where
  i_add i_sub i_mul i_and i_or i_xor i_shl i_shr_s i_shr_u i_rotl i_rotr : BinOp
  f_add f_sub f_mul f_div f_min f_max f_copysign : BinOp

pub record DropKeep : Type 0 where
  pub base : ValueCounts
  pub keep : ValueCounts

-- The instructions with no immediate that compute on the stack.
pub data NumericOp : Type 0 where
  i32_eqz i32_eq i32_ne i32_lt_s i32_lt_u i32_gt_s i32_gt_u i32_le_s i32_le_u i32_ge_s i32_ge_u :
      NumericOp
  i64_eqz i64_eq i64_ne i64_lt_s i64_lt_u i64_gt_s i64_gt_u i64_le_s i64_le_u i64_ge_s i64_ge_u :
      NumericOp
  f32_eq f32_ne f32_lt f32_gt f32_le f32_ge : NumericOp
  f64_eq f64_ne f64_lt f64_gt f64_le f64_ge : NumericOp
  i32_clz i32_ctz i32_popcnt i32_add i32_sub i32_mul i32_div_s i32_div_u i32_rem_s i32_rem_u :
      NumericOp
  i64_clz i64_ctz i64_popcnt i64_add i64_sub i64_mul i64_div_s i64_div_u i64_rem_s i64_rem_u :
      NumericOp
  i32_and i32_or i32_xor i32_shl i32_shr_s i32_shr_u i32_rotl i32_rotr : NumericOp
  i64_and i64_or i64_xor i64_shl i64_shr_s i64_shr_u i64_rotl i64_rotr : NumericOp
  f32_add f32_sub f32_mul f32_div f32_min f32_max f32_copysign : NumericOp
  f64_add f64_sub f64_mul f64_div f64_min f64_max f64_copysign : NumericOp
  i32_wrap_i64 i32_extend8_s i32_extend16_s : NumericOp
  i64_extend8_s i64_extend16_s i64_extend32_s i64_extend_i32_s i64_extend_i32_u : NumericOp
  i32_add3 i64_add3 : NumericOp
  i64_add128 i64_sub128 i64_mul_wide_s i64_mul_wide_u : NumericOp

pub data Instruction : Type 0 where
  local_copy_32 local_copy_64 local_copy_128 : (from to : ℕ) → Instruction
  add_const_32 add_const_64 : (c : ℕ) → Instruction
  inc_local_32 inc_local_64 : (local delta : ℕ) → Instruction
  bin_op_local_local_32 bin_op_local_local_64 : BinOp → (a b : ℕ) → Instruction
  bin_op_local_local_set_32 bin_op_local_local_set_64 : BinOp → (a b dst : ℕ) → Instruction
  bin_op_local_local_tee_32 bin_op_local_local_tee_64 : BinOp → (a b dst : ℕ) → Instruction
  bin_op_local_const_32 bin_op_local_const_64 : BinOp → (local c : ℕ) → Instruction
  bin_op_local_const_set_32 bin_op_local_const_set_64 : BinOp → (local c dst : ℕ) → Instruction
  bin_op_local_const_tee_32 bin_op_local_const_tee_64 : BinOp → (local c dst : ℕ) → Instruction
  bin_op_stack_global_32 bin_op_stack_global_64 : BinOp → (global : ℕ) → Instruction
  set_local_const_32 set_local_const_64 set_local_const_128 : (local c : ℕ) → Instruction
  and_const_tee_32 sub_const_tee_32 and_const_tee_64 sub_const_tee_64 : (c local : ℕ) → Instruction
  mul_acc_local_32 mul_acc_local_64 f_mul_acc_local_32 f_mul_acc_local_64 : (acc : ℕ) → Instruction
  unreachable : Instruction
  jump jump_if_zero_32 jump_if_non_zero_32 jump_if_zero_64 jump_if_non_zero_64 :
      (ip : ℕ) → Instruction
  jump_if_local_zero_32 jump_if_local_non_zero_32 jump_if_local_zero_64 jump_if_local_non_zero_64 :
      (target_ip local : ℕ) → Instruction
  jump_cmp_stack_const_32 jump_cmp_stack_const_64 : (target_ip imm : ℕ) → CmpOp → Instruction
  jump_cmp_local_const_32 jump_cmp_local_const_64 : (target_ip local imm : ℕ) → CmpOp → Instruction
  jump_cmp_local_local_32 jump_cmp_local_local_64 : (target_ip left right : ℕ) → CmpOp → Instruction
  drop_keep : DropKeep → Instruction
  branch_table : (default_ip start len : ℕ) → Instruction
  return return_void return_32 return_64 return_128 : Instruction
  call : (func_addr : ℕ) → Instruction
  call_self : Instruction
  return_call : (func_addr : ℕ) → Instruction
  return_call_self : Instruction
  drop_32 drop_64 drop_128 select_32 select_64 select_128 : Instruction
  select_multi : ValueCounts → Instruction
  global_get global_set_32 global_set_64 global_set_128 : (global : ℕ) → Instruction
  local_get_32 local_set_32 local_tee_32 : (local : ℕ) → Instruction
  local_get_64 local_set_64 local_tee_64 : (local : ℕ) → Instruction
  local_get_128 local_set_128 local_tee_128 : (local : ℕ) → Instruction
  const_32 const_64 const_128 : (c : ℕ) → Instruction
  numeric : NumericOp → Instruction
