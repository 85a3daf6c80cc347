-- ===== src/Optimizer/Rules/Locals64.antt =====
-- crates/parser/src/optimize.rs: the arms of the match of `rewrite` on 64-bit numeric
-- instructions and on accesses to 64-bit locals. Patterns with instructions that are not modelled are left out.
use tinywasm.Prelude.{ℕ, ◌==◌, if◌then◌else◌, Option, none, some, List, [], ◌∷◌}
use tinywasm.Instructions.{
  BinOp, i_shl, NumericOp, i64_extend8_s, i64_extend16_s, i64_extend32_s, i64_add3, Instruction,
  add_const_64, inc_local_64, bin_op_local_local_64, bin_op_local_local_set_64,
  bin_op_local_local_tee_64, bin_op_local_const_64, bin_op_local_const_set_64,
  bin_op_local_const_tee_64, bin_op_stack_global_64, set_local_const_64, and_const_tee_64,
  sub_const_tee_64, mul_acc_local_64, f_mul_acc_local_64, local_get_64, local_set_64, numeric,
}
use tinywasm.Numeric.{neg}
use tinywasm.Optimizer.Operators.{scalar_bin_op, scalar_const_64, resolve_local_source_64}
use tinywasm.Optimizer.Rules.{
  Rule, ◌>>=◌, one, two, three, only_if, Fold, fold_local_binop, drop_self_set, inc_or,
}
use tinywasm.Optimizer.Rules.Views.{
  get_64, tee_64, constant_64, from_global, local_local_of_64, local_const_of_64,
  local_local_tee_of_64, local_const_tee_of_64, is_i64_add, is_i64_mul, is_f64_add, is_f64_mul,
  is_i64_and, is_i64_sub,
}
use tinywasm.Optimizer.Rules.Locals.{is_add, is_shr_s, copied_64, kept_64}

-- the rules of the integer operations of 64 bits; those of `commuting` ones may swap their operands
abbrev local_local_64 : BinOp → Rule
local_local_64 op = two get_64 get_64 λ a b. some (bin_op_local_local_64 op a b)

abbrev local_const_64 : BinOp → Rule
local_const_64 op = two get_64 constant_64 λ local c. some (bin_op_local_const_64 op local c)

abbrev const_local_64 : BinOp → Rule
const_local_64 op = two constant_64 get_64 λ c local. some (bin_op_local_const_64 op local c)

unfoldable pub commuting_64 : BinOp → List Rule
commuting_64 op =
    local_local_64 op
    ∷ local_const_64 op
    ∷ const_local_64 op
    ∷ one from_global (λ g. bin_op_stack_global_64 op g)
    ∷ only_if (is_add op) (one constant_64 add_const_64)
    ∷ only_if (is_add op) (one is_i64_add (λ _. numeric i64_add3))
    ∷ []

-- A shift of a local to the left and back; the guards compare the two counts with `count`.
abbrev shl_local_64 : ℕ → Instruction → Option ℕ
shl_local_64 count (bin_op_local_const_64 i_shl local c) = if c == count then some local else none
shl_local_64 count _ = none

unfoldable pub shifted_back_64 : ℕ → NumericOp → Rule
shifted_back_64 count extend (y ∷ x ∷ rest) = shl_local_64 count x >>= λ local.
    constant_64 y >>= λ c.
    if c == count then some (numeric extend ∷ local_get_64 local ∷ rest) else none
shifted_back_64 count extend (y ∷ []) = none
shifted_back_64 count extend [] = none

unfoldable pub ordered_64 : BinOp → List Rule
unfolding shifted_back_64
ordered_64 op =
    local_local_64 op
    ∷ local_const_64 op
    ∷ one from_global (λ g. bin_op_stack_global_64 op g)
    ∷ only_if (is_shr_s op) (shifted_back_64 8 i64_extend8_s)
    ∷ only_if (is_shr_s op) (shifted_back_64 16 i64_extend16_s)
    ∷ only_if (is_shr_s op) (shifted_back_64 32 i64_extend32_s)
    ∷ []

-- the rules of the float operations
unfoldable pub float_commuting_64 : BinOp → List Rule
float_commuting_64 op = local_local_64 op ∷ local_const_64 op ∷ const_local_64 op ∷ []

unfoldable pub float_ordered_64 : BinOp → List Rule
float_ordered_64 op = local_local_64 op ∷ local_const_64 op ∷ []

-- the arms of `LocalSet64` and `LocalTee64`
abbrev set_const_64 : (dst src : ℕ) → BinOp → ℕ → Instruction
set_const_64 = inc_or inc_local_64 (neg 64) bin_op_local_const_set_64

abbrev pub fold_set_64 : Fold
fold_set_64 = record {
  source = resolve_local_source_64;
  const = scalar_const_64;
  local_local = bin_op_local_local_set_64;
  local_const = set_const_64;
}

abbrev fold_tee_64 : Fold
fold_tee_64 = record {
  source = resolve_local_source_64;
  const = scalar_const_64;
  local_local = bin_op_local_local_tee_64;
  local_const = λ dst lhs op imm. bin_op_local_const_tee_64 op lhs imm dst;
}

unfoldable pub set_rules_64 : (dst : ℕ) → List Rule
unfolding fold_local_binop drop_self_set
set_rules_64 dst =
    fold_local_binop scalar_bin_op fold_set_64 dst
    ∷ three is_i64_mul get_64 is_i64_add
        (λ _ acc _. if acc == dst then some (mul_acc_local_64 dst) else none)
    ∷ three is_f64_mul get_64 is_f64_add
        (λ _ acc _. if acc == dst then some (f_mul_acc_local_64 dst) else none)
    ∷ copied_64 dst
    ∷ drop_self_set get_64 dst
    ∷ one constant_64 (set_local_const_64 dst)
    ∷ one local_local_of_64 (λ t. bin_op_local_local_set_64 t.0 t.1 t.2 dst)
    ∷ one local_const_of_64 (λ t. set_const_64 dst t.1 t.0 t.2)
    ∷ []

unfoldable pub tee_rules_64 : (dst : ℕ) → List Rule
unfolding fold_local_binop
tee_rules_64 dst =
    fold_local_binop scalar_bin_op fold_tee_64 dst
    ∷ kept_64 dst
    ∷ one local_local_of_64 (λ t. bin_op_local_local_tee_64 t.0 t.1 t.2 dst)
    ∷ one local_const_of_64 (λ t. bin_op_local_const_tee_64 t.0 t.1 t.2 dst)
    ∷ two constant_64 is_i64_and (λ c _. some (and_const_tee_64 c dst))
    ∷ two constant_64 is_i64_sub (λ c _. some (sub_const_tee_64 c dst))
    ∷ []

-- the arm of `Drop64`: a `tee` becomes a `set`
unfoldable pub drop_rules_64 : List Rule
drop_rules_64 =
    one tee_64 local_set_64
    ∷ one local_local_tee_of_64 (λ t. bin_op_local_local_set_64 t.0 t.1 t.2 t.3)
    ∷ one local_const_tee_of_64 (λ t. bin_op_local_const_set_64 t.0 t.1 t.2 t.3)
    ∷ []
