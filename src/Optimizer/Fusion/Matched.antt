-- ===== src/Optimizer/Fusion/Matched.antt =====
-- crates/parser/src/optimize.rs: which instruction the rules for two operands put in place of those
-- they consume.
use tinywasm.Prelude.{[], Option, some, true, false, ◌++◌, ℕ, ◌≡◌, refl, List, ◌∷◌}
use tinywasm.Instructions.{
  BinOp, i_add, i_sub, i_mul, i_and, i_or, i_xor, i_shl, i_shr_s, i_shr_u, i_rotl, i_rotr, f_add,
  f_sub, f_mul, f_div, f_min, f_max, f_copysign, Instruction, bin_op_local_local_32,
  bin_op_local_local_64, bin_op_local_local_set_32, bin_op_local_local_set_64,
  bin_op_local_const_32, bin_op_local_const_64, local_get_32, local_set_32, local_get_64,
  local_set_64, const_32, const_64, numeric,
}
use tinywasm.Optimizer.Operators
use tinywasm.Optimizer.Jumps
use tinywasm.Optimizer.Rules
use tinywasm.Optimizer.Rules.Locals
use tinywasm.Optimizer.Rules.Locals64
use tinywasm.Optimizer.Rewrite
use tinywasm.Stack.ValueStack.RoundTrip.{reverse}
use tinywasm.Optimizer.Rewrite.{Setting, rewrite_instruction, Output, rewrite_rounds}
use tinywasm.Optimizer.Fusion.Width32.{numeric_32}
use tinywasm.Optimizer.Fusion.Width64.{numeric_64}

-- Rounds from the start of a block end, behind what stood before, with this block.
abbrev pub Block : Output → Option Output → List Instruction → Type 0
Block out result block =
    (o : Output) × (result ≡ some o)
    × (o.before ≡ out.before ++ reverse out.block)
    × (o.block ≡ block)

pub local_local-rewritten_32 :
    (op : BinOp) (s : Setting) (idx a b : ℕ) (rest : List Instruction)
    → rewrite_instruction s idx (numeric (numeric_32 op)) (local_get_32 b ∷ local_get_32 a ∷ rest)
      ≡ bin_op_local_local_32 op a b ∷ rest
unfolding rewrite_instruction Rewrite.numeric_rules Rules.two
local_local-rewritten_32 i_add s idx a b rest = refl
local_local-rewritten_32 i_sub s idx a b rest = refl
local_local-rewritten_32 i_mul s idx a b rest = refl
local_local-rewritten_32 i_and s idx a b rest = refl
local_local-rewritten_32 i_or s idx a b rest = refl
local_local-rewritten_32 i_xor s idx a b rest = refl
local_local-rewritten_32 i_shl s idx a b rest = refl
local_local-rewritten_32 i_shr_s s idx a b rest = refl
local_local-rewritten_32 i_shr_u s idx a b rest = refl
local_local-rewritten_32 i_rotl s idx a b rest = refl
local_local-rewritten_32 i_rotr s idx a b rest = refl
local_local-rewritten_32 f_add s idx a b rest = refl
local_local-rewritten_32 f_sub s idx a b rest = refl
local_local-rewritten_32 f_mul s idx a b rest = refl
local_local-rewritten_32 f_div s idx a b rest = refl
local_local-rewritten_32 f_min s idx a b rest = refl
local_local-rewritten_32 f_max s idx a b rest = refl
local_local-rewritten_32 f_copysign s idx a b rest = refl

pub local_const-rewritten_32 :
    (op : BinOp) (s : Setting) (idx a b : ℕ) (rest : List Instruction)
    → rewrite_instruction s idx (numeric (numeric_32 op)) (const_32 b ∷ local_get_32 a ∷ rest)
      ≡ bin_op_local_const_32 op a b ∷ rest
unfolding rewrite_instruction Rewrite.numeric_rules Rules.two
local_const-rewritten_32 i_add s idx a b rest = refl
local_const-rewritten_32 i_sub s idx a b rest = refl
local_const-rewritten_32 i_mul s idx a b rest = refl
local_const-rewritten_32 i_and s idx a b rest = refl
local_const-rewritten_32 i_or s idx a b rest = refl
local_const-rewritten_32 i_xor s idx a b rest = refl
local_const-rewritten_32 i_shl s idx a b rest = refl
local_const-rewritten_32 i_shr_s s idx a b rest = refl
local_const-rewritten_32 i_shr_u s idx a b rest = refl
local_const-rewritten_32 i_rotl s idx a b rest = refl
local_const-rewritten_32 i_rotr s idx a b rest = refl
local_const-rewritten_32 f_add s idx a b rest = refl
local_const-rewritten_32 f_sub s idx a b rest = refl
local_const-rewritten_32 f_mul s idx a b rest = refl
local_const-rewritten_32 f_div s idx a b rest = refl
local_const-rewritten_32 f_min s idx a b rest = refl
local_const-rewritten_32 f_max s idx a b rest = refl
local_const-rewritten_32 f_copysign s idx a b rest = refl

-- The four instructions at the start of a block, which is all that the block holds after them.
pub local_local_set-rewritten_32 :
    (op : BinOp) (s : Setting) (idx a b dst : ℕ) (out : Output)
    → Block out
        (rewrite_rounds s idx
          (local_get_32 a ∷ local_get_32 b ∷ numeric (numeric_32 op) ∷ local_set_32 dst ∷ [])
          (true ∷ false ∷ false ∷ false ∷ [])
          out)
        (bin_op_local_local_set_32 op a b dst ∷ [])
unfolding rewrite_rounds Rewrite.numeric_rules Rules.two Locals.set_rules_32
    Operators.resolve_local_source_32 Operators.scalar_bin_op Jumps.is_unconditional_terminator
    Locals.tee_again_32 Rules.three Locals.copied_32 Rules.one
local_local_set-rewritten_32 i_add s idx a b dst out = (_, refl, refl, refl)
local_local_set-rewritten_32 i_sub s idx a b dst out = (_, refl, refl, refl)
local_local_set-rewritten_32 i_mul s idx a b dst out = (_, refl, refl, refl)
local_local_set-rewritten_32 i_and s idx a b dst out = (_, refl, refl, refl)
local_local_set-rewritten_32 i_or s idx a b dst out = (_, refl, refl, refl)
local_local_set-rewritten_32 i_xor s idx a b dst out = (_, refl, refl, refl)
local_local_set-rewritten_32 i_shl s idx a b dst out = (_, refl, refl, refl)
local_local_set-rewritten_32 i_shr_s s idx a b dst out = (_, refl, refl, refl)
local_local_set-rewritten_32 i_shr_u s idx a b dst out = (_, refl, refl, refl)
local_local_set-rewritten_32 i_rotl s idx a b dst out = (_, refl, refl, refl)
local_local_set-rewritten_32 i_rotr s idx a b dst out = (_, refl, refl, refl)
local_local_set-rewritten_32 f_add s idx a b dst out = (_, refl, refl, refl)
local_local_set-rewritten_32 f_sub s idx a b dst out = (_, refl, refl, refl)
local_local_set-rewritten_32 f_mul s idx a b dst out = (_, refl, refl, refl)
local_local_set-rewritten_32 f_div s idx a b dst out = (_, refl, refl, refl)
local_local_set-rewritten_32 f_min s idx a b dst out = (_, refl, refl, refl)
local_local_set-rewritten_32 f_max s idx a b dst out = (_, refl, refl, refl)
local_local_set-rewritten_32 f_copysign s idx a b dst out = (_, refl, refl, refl)

pub local_local-rewritten_64 :
    (op : BinOp) (s : Setting) (idx a b : ℕ) (rest : List Instruction)
    → rewrite_instruction s idx (numeric (numeric_64 op)) (local_get_64 b ∷ local_get_64 a ∷ rest)
      ≡ bin_op_local_local_64 op a b ∷ rest
unfolding rewrite_instruction Rewrite.numeric_rules Rules.two
local_local-rewritten_64 i_add s idx a b rest = refl
local_local-rewritten_64 i_sub s idx a b rest = refl
local_local-rewritten_64 i_mul s idx a b rest = refl
local_local-rewritten_64 i_and s idx a b rest = refl
local_local-rewritten_64 i_or s idx a b rest = refl
local_local-rewritten_64 i_xor s idx a b rest = refl
local_local-rewritten_64 i_shl s idx a b rest = refl
local_local-rewritten_64 i_shr_s s idx a b rest = refl
local_local-rewritten_64 i_shr_u s idx a b rest = refl
local_local-rewritten_64 i_rotl s idx a b rest = refl
local_local-rewritten_64 i_rotr s idx a b rest = refl
local_local-rewritten_64 f_add s idx a b rest = refl
local_local-rewritten_64 f_sub s idx a b rest = refl
local_local-rewritten_64 f_mul s idx a b rest = refl
local_local-rewritten_64 f_div s idx a b rest = refl
local_local-rewritten_64 f_min s idx a b rest = refl
local_local-rewritten_64 f_max s idx a b rest = refl
local_local-rewritten_64 f_copysign s idx a b rest = refl

pub local_const-rewritten_64 :
    (op : BinOp) (s : Setting) (idx a b : ℕ) (rest : List Instruction)
    → rewrite_instruction s idx (numeric (numeric_64 op)) (const_64 b ∷ local_get_64 a ∷ rest)
      ≡ bin_op_local_const_64 op a b ∷ rest
unfolding rewrite_instruction Rewrite.numeric_rules Rules.two
local_const-rewritten_64 i_add s idx a b rest = refl
local_const-rewritten_64 i_sub s idx a b rest = refl
local_const-rewritten_64 i_mul s idx a b rest = refl
local_const-rewritten_64 i_and s idx a b rest = refl
local_const-rewritten_64 i_or s idx a b rest = refl
local_const-rewritten_64 i_xor s idx a b rest = refl
local_const-rewritten_64 i_shl s idx a b rest = refl
local_const-rewritten_64 i_shr_s s idx a b rest = refl
local_const-rewritten_64 i_shr_u s idx a b rest = refl
local_const-rewritten_64 i_rotl s idx a b rest = refl
local_const-rewritten_64 i_rotr s idx a b rest = refl
local_const-rewritten_64 f_add s idx a b rest = refl
local_const-rewritten_64 f_sub s idx a b rest = refl
local_const-rewritten_64 f_mul s idx a b rest = refl
local_const-rewritten_64 f_div s idx a b rest = refl
local_const-rewritten_64 f_min s idx a b rest = refl
local_const-rewritten_64 f_max s idx a b rest = refl
local_const-rewritten_64 f_copysign s idx a b rest = refl

-- The four instructions at the start of a block, which is all that the block holds after them.
pub local_local_set-rewritten_64 :
    (op : BinOp) (s : Setting) (idx a b dst : ℕ) (out : Output)
    → Block out
        (rewrite_rounds s idx
          (local_get_64 a ∷ local_get_64 b ∷ numeric (numeric_64 op) ∷ local_set_64 dst ∷ [])
          (true ∷ false ∷ false ∷ false ∷ [])
          out)
        (bin_op_local_local_set_64 op a b dst ∷ [])
unfolding rewrite_rounds Rewrite.numeric_rules Rules.two Locals64.set_rules_64
    Operators.resolve_local_source_64 Operators.scalar_bin_op Jumps.is_unconditional_terminator
    Locals.tee_again_64 Rules.three Locals.copied_64 Rules.one
local_local_set-rewritten_64 i_add s idx a b dst out = (_, refl, refl, refl)
local_local_set-rewritten_64 i_sub s idx a b dst out = (_, refl, refl, refl)
local_local_set-rewritten_64 i_mul s idx a b dst out = (_, refl, refl, refl)
local_local_set-rewritten_64 i_and s idx a b dst out = (_, refl, refl, refl)
local_local_set-rewritten_64 i_or s idx a b dst out = (_, refl, refl, refl)
local_local_set-rewritten_64 i_xor s idx a b dst out = (_, refl, refl, refl)
local_local_set-rewritten_64 i_shl s idx a b dst out = (_, refl, refl, refl)
local_local_set-rewritten_64 i_shr_s s idx a b dst out = (_, refl, refl, refl)
local_local_set-rewritten_64 i_shr_u s idx a b dst out = (_, refl, refl, refl)
local_local_set-rewritten_64 i_rotl s idx a b dst out = (_, refl, refl, refl)
local_local_set-rewritten_64 i_rotr s idx a b dst out = (_, refl, refl, refl)
local_local_set-rewritten_64 f_add s idx a b dst out = (_, refl, refl, refl)
local_local_set-rewritten_64 f_sub s idx a b dst out = (_, refl, refl, refl)
local_local_set-rewritten_64 f_mul s idx a b dst out = (_, refl, refl, refl)
local_local_set-rewritten_64 f_div s idx a b dst out = (_, refl, refl, refl)
local_local_set-rewritten_64 f_min s idx a b dst out = (_, refl, refl, refl)
local_local_set-rewritten_64 f_max s idx a b dst out = (_, refl, refl, refl)
local_local_set-rewritten_64 f_copysign s idx a b dst out = (_, refl, refl, refl)
