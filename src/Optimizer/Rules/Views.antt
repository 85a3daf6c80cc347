-- ===== src/Optimizer/Rules/Views.antt =====
-- crates/parser/src/optimize.rs: the patterns of the rules, as views of one instruction.
use tinywasm.Prelude.{ℕ, Option, none, some}
use tinywasm.Instructions.{
  BinOp, NumericOp, i32_eqz, i64_eqz, i32_add, i32_sub, i32_mul, i64_add, i64_sub, i64_mul, i32_and,
  i64_and, f32_add, f32_mul, f64_add, f64_mul, Instruction, bin_op_local_local_32,
  bin_op_local_local_64, bin_op_local_local_tee_32, bin_op_local_local_tee_64,
  bin_op_local_const_32, bin_op_local_const_64, bin_op_local_const_tee_32,
  bin_op_local_const_tee_64, global_get, local_get_32, local_set_32, local_tee_32, local_get_64,
  local_set_64, local_tee_64, local_get_128, local_set_128, local_tee_128, const_32, const_64,
  const_128, numeric,
}

abbrev pub get_32 : Instruction → Option ℕ
get_32 (local_get_32 local) = some local
get_32 _ = none

abbrev pub set_32 : Instruction → Option ℕ
set_32 (local_set_32 local) = some local
set_32 _ = none

abbrev pub tee_32 : Instruction → Option ℕ
tee_32 (local_tee_32 local) = some local
tee_32 _ = none

abbrev pub constant_32 : Instruction → Option ℕ
constant_32 (const_32 c) = some c
constant_32 _ = none

abbrev pub get_64 : Instruction → Option ℕ
get_64 (local_get_64 local) = some local
get_64 _ = none

abbrev pub set_64 : Instruction → Option ℕ
set_64 (local_set_64 local) = some local
set_64 _ = none

abbrev pub tee_64 : Instruction → Option ℕ
tee_64 (local_tee_64 local) = some local
tee_64 _ = none

abbrev pub constant_64 : Instruction → Option ℕ
constant_64 (const_64 c) = some c
constant_64 _ = none

abbrev pub get_128 : Instruction → Option ℕ
get_128 (local_get_128 local) = some local
get_128 _ = none

abbrev pub set_128 : Instruction → Option ℕ
set_128 (local_set_128 local) = some local
set_128 _ = none

abbrev pub tee_128 : Instruction → Option ℕ
tee_128 (local_tee_128 local) = some local
tee_128 _ = none

abbrev pub constant_128 : Instruction → Option ℕ
constant_128 (const_128 c) = some c
constant_128 _ = none

abbrev pub from_global : Instruction → Option ℕ
from_global (global_get g) = some g
from_global _ = none

abbrev pub local_local_of_32 : Instruction → Option (BinOp × ℕ × ℕ)
local_local_of_32 (bin_op_local_local_32 op a b) = some (op, a, b)
local_local_of_32 _ = none

abbrev pub local_const_of_32 : Instruction → Option (BinOp × ℕ × ℕ)
local_const_of_32 (bin_op_local_const_32 op a b) = some (op, a, b)
local_const_of_32 _ = none

abbrev pub local_local_tee_of_32 : Instruction → Option (BinOp × ℕ × ℕ × ℕ)
local_local_tee_of_32 (bin_op_local_local_tee_32 op a b dst) = some (op, a, b, dst)
local_local_tee_of_32 _ = none

abbrev pub local_const_tee_of_32 : Instruction → Option (BinOp × ℕ × ℕ × ℕ)
local_const_tee_of_32 (bin_op_local_const_tee_32 op a b dst) = some (op, a, b, dst)
local_const_tee_of_32 _ = none

abbrev pub local_local_of_64 : Instruction → Option (BinOp × ℕ × ℕ)
local_local_of_64 (bin_op_local_local_64 op a b) = some (op, a, b)
local_local_of_64 _ = none

abbrev pub local_const_of_64 : Instruction → Option (BinOp × ℕ × ℕ)
local_const_of_64 (bin_op_local_const_64 op a b) = some (op, a, b)
local_const_of_64 _ = none

abbrev pub local_local_tee_of_64 : Instruction → Option (BinOp × ℕ × ℕ × ℕ)
local_local_tee_of_64 (bin_op_local_local_tee_64 op a b dst) = some (op, a, b, dst)
local_local_tee_of_64 _ = none

abbrev pub local_const_tee_of_64 : Instruction → Option (BinOp × ℕ × ℕ × ℕ)
local_const_tee_of_64 (bin_op_local_const_tee_64 op a b dst) = some (op, a, b, dst)
local_const_tee_of_64 _ = none

abbrev pub operation : Instruction → Option NumericOp
operation (numeric op) = some op
operation _ = none

abbrev pub is_i32_add : Instruction → Option (Unit {0})
is_i32_add (numeric i32_add) = some tt
is_i32_add _ = none

abbrev pub is_i64_add : Instruction → Option (Unit {0})
is_i64_add (numeric i64_add) = some tt
is_i64_add _ = none

abbrev pub is_i32_mul : Instruction → Option (Unit {0})
is_i32_mul (numeric i32_mul) = some tt
is_i32_mul _ = none

abbrev pub is_i64_mul : Instruction → Option (Unit {0})
is_i64_mul (numeric i64_mul) = some tt
is_i64_mul _ = none

abbrev pub is_f32_add : Instruction → Option (Unit {0})
is_f32_add (numeric f32_add) = some tt
is_f32_add _ = none

abbrev pub is_f64_add : Instruction → Option (Unit {0})
is_f64_add (numeric f64_add) = some tt
is_f64_add _ = none

abbrev pub is_f32_mul : Instruction → Option (Unit {0})
is_f32_mul (numeric f32_mul) = some tt
is_f32_mul _ = none

abbrev pub is_f64_mul : Instruction → Option (Unit {0})
is_f64_mul (numeric f64_mul) = some tt
is_f64_mul _ = none

abbrev pub is_i32_and : Instruction → Option (Unit {0})
is_i32_and (numeric i32_and) = some tt
is_i32_and _ = none

abbrev pub is_i64_and : Instruction → Option (Unit {0})
is_i64_and (numeric i64_and) = some tt
is_i64_and _ = none

abbrev pub is_i32_sub : Instruction → Option (Unit {0})
is_i32_sub (numeric i32_sub) = some tt
is_i32_sub _ = none

abbrev pub is_i64_sub : Instruction → Option (Unit {0})
is_i64_sub (numeric i64_sub) = some tt
is_i64_sub _ = none

abbrev pub is_i32_eqz : Instruction → Option (Unit {0})
is_i32_eqz (numeric i32_eqz) = some tt
is_i32_eqz _ = none

abbrev pub is_i64_eqz : Instruction → Option (Unit {0})
is_i64_eqz (numeric i64_eqz) = some tt
is_i64_eqz _ = none
