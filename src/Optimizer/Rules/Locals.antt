-- ===== src/Optimizer/Rules/Locals.antt =====
-- crates/parser/src/optimize.rs: the arms of the match of `rewrite` on numeric instructions and on
-- accesses to locals. Patterns with instructions that are not modelled are left out.
use tinywasm.Prelude.{ℕ, Bool, true, false, ◌==◌, if◌then◌else◌, Option, none, some, List, [], ◌∷◌}
use tinywasm.Instructions.{
  BinOp, i_add, i_shl, i_shr_s, NumericOp, i32_extend8_s, i32_extend16_s, i32_add3, Instruction,
  local_copy_32, local_copy_64, local_copy_128, add_const_32, inc_local_32, bin_op_local_local_32,
  bin_op_local_local_set_32, bin_op_local_local_tee_32, bin_op_local_const_32,
  bin_op_local_const_set_32, bin_op_local_const_tee_32, bin_op_stack_global_32, set_local_const_32,
  set_local_const_128, and_const_tee_32, sub_const_tee_32, mul_acc_local_32, f_mul_acc_local_32,
  local_get_32, local_set_32, local_tee_32, local_get_64, local_tee_64, local_get_128,
  local_tee_128, local_set_128, numeric,
}
use tinywasm.Numeric.{neg}
use tinywasm.Optimizer.Operators.{scalar_bin_op, scalar_const_32, resolve_local_source_32}
use tinywasm.Optimizer.Rules.{
  Rule, ◌>>=◌, one, two, three, only_if, Fold, fold_local_binop, drop_self_set, inc_or,
}
use tinywasm.Optimizer.Rules.Views.{
  tee_128, get_32, set_32, tee_32, constant_32, get_64, set_64, get_128, set_128, constant_128,
  from_global, local_local_of_32, local_const_of_32, local_local_tee_of_32, local_const_tee_of_32,
  is_i32_add, is_i32_mul, is_f32_add, is_f32_mul, is_i32_and, is_i32_sub,
}

abbrev pub is_add : BinOp → Bool
is_add i_add = true
is_add _ = false

abbrev pub is_shr_s : BinOp → Bool
is_shr_s i_shr_s = true
is_shr_s _ = false

-- `[get(src)] if src != dst`, and `[get(src)] if src == dst` before a `tee`
unfoldable pub copied_32 : (dst : ℕ) → Rule
copied_32 dst [] = none
copied_32 dst (x ∷ rest) =
    get_32 x >>= λ src. if src == dst then none else some (local_copy_32 src dst ∷ rest)

unfoldable pub kept_32 : (dst : ℕ) → Rule
kept_32 dst [] = none
kept_32 dst (x ∷ rest) =
    get_32 x >>= λ src. if src == dst then some (local_get_32 src ∷ rest) else none

-- the arm of `LocalGet32`
unfoldable pub tee_again_32 : (dst : ℕ) → Rule
tee_again_32 dst [] = none
tee_again_32 dst (x ∷ rest) =
    set_32 x >>= λ src. if src == dst then some (local_tee_32 src ∷ rest) else none

-- `[get(src)] if src != dst`, and `[get(src)] if src == dst` before a `tee`
unfoldable pub copied_64 : (dst : ℕ) → Rule
copied_64 dst [] = none
copied_64 dst (x ∷ rest) =
    get_64 x >>= λ src. if src == dst then none else some (local_copy_64 src dst ∷ rest)

unfoldable pub kept_64 : (dst : ℕ) → Rule
kept_64 dst [] = none
kept_64 dst (x ∷ rest) =
    get_64 x >>= λ src. if src == dst then some (local_get_64 src ∷ rest) else none

-- the arm of `LocalGet64`
unfoldable pub tee_again_64 : (dst : ℕ) → Rule
tee_again_64 dst [] = none
tee_again_64 dst (x ∷ rest) =
    set_64 x >>= λ src. if src == dst then some (local_tee_64 src ∷ rest) else none

-- `[get(src)] if src != dst`, and `[get(src)] if src == dst` before a `tee`
unfoldable pub copied_128 : (dst : ℕ) → Rule
copied_128 dst [] = none
copied_128 dst (x ∷ rest) =
    get_128 x >>= λ src. if src == dst then none else some (local_copy_128 src dst ∷ rest)

unfoldable pub kept_128 : (dst : ℕ) → Rule
kept_128 dst [] = none
kept_128 dst (x ∷ rest) =
    get_128 x >>= λ src. if src == dst then some (local_get_128 src ∷ rest) else none

-- the arm of `LocalGet128`
unfoldable pub tee_again_128 : (dst : ℕ) → Rule
tee_again_128 dst [] = none
tee_again_128 dst (x ∷ rest) =
    set_128 x >>= λ src. if src == dst then some (local_tee_128 src ∷ rest) else none

-- the rules of the integer operations of 32 bits; those of `commuting` ones may swap their operands
abbrev local_local_32 : BinOp → Rule
local_local_32 op = two get_32 get_32 λ a b. some (bin_op_local_local_32 op a b)

abbrev local_const_32 : BinOp → Rule
local_const_32 op = two get_32 constant_32 λ local c. some (bin_op_local_const_32 op local c)

abbrev const_local_32 : BinOp → Rule
const_local_32 op = two constant_32 get_32 λ c local. some (bin_op_local_const_32 op local c)

unfoldable pub commuting_32 : BinOp → List Rule
commuting_32 op =
    local_local_32 op
    ∷ local_const_32 op
    ∷ const_local_32 op
    ∷ one from_global (λ g. bin_op_stack_global_32 op g)
    ∷ only_if (is_add op) (one constant_32 add_const_32)
    ∷ only_if (is_add op) (one is_i32_add (λ _. numeric i32_add3))
    ∷ []

-- A shift of a local to the left and back; the guards compare the two counts with `count`.
abbrev shl_local_32 : ℕ → Instruction → Option ℕ
shl_local_32 count (bin_op_local_const_32 i_shl local c) = if c == count then some local else none
shl_local_32 count _ = none

unfoldable pub shifted_back_32 : ℕ → NumericOp → Rule
shifted_back_32 count extend (y ∷ x ∷ rest) = shl_local_32 count x >>= λ local.
    constant_32 y >>= λ c.
    if c == count then some (numeric extend ∷ local_get_32 local ∷ rest) else none
shifted_back_32 count extend (y ∷ []) = none
shifted_back_32 count extend [] = none

unfoldable pub ordered_32 : BinOp → List Rule
unfolding shifted_back_32
ordered_32 op =
    local_local_32 op
    ∷ local_const_32 op
    ∷ one from_global (λ g. bin_op_stack_global_32 op g)
    ∷ only_if (is_shr_s op) (shifted_back_32 8 i32_extend8_s)
    ∷ only_if (is_shr_s op) (shifted_back_32 16 i32_extend16_s)
    ∷ []

-- the rules of the float operations
unfoldable pub float_commuting_32 : BinOp → List Rule
float_commuting_32 op = local_local_32 op ∷ local_const_32 op ∷ const_local_32 op ∷ []

unfoldable pub float_ordered_32 : BinOp → List Rule
float_ordered_32 op = local_local_32 op ∷ local_const_32 op ∷ []

-- the arms of `LocalSet32` and `LocalTee32`
abbrev set_const_32 : (dst src : ℕ) → BinOp → ℕ → Instruction
set_const_32 = inc_or inc_local_32 (neg 32) bin_op_local_const_set_32

abbrev pub fold_set_32 : Fold
fold_set_32 = record {
  source = resolve_local_source_32;
  const = scalar_const_32;
  local_local = bin_op_local_local_set_32;
  local_const = set_const_32;
}

abbrev fold_tee_32 : Fold
fold_tee_32 = record {
  source = resolve_local_source_32;
  const = scalar_const_32;
  local_local = bin_op_local_local_tee_32;
  local_const = λ dst lhs op imm. bin_op_local_const_tee_32 op lhs imm dst;
}

unfoldable pub set_rules_32 : (dst : ℕ) → List Rule
unfolding fold_local_binop drop_self_set
set_rules_32 dst =
    fold_local_binop scalar_bin_op fold_set_32 dst
    ∷ three is_i32_mul get_32 is_i32_add
        (λ _ acc _. if acc == dst then some (mul_acc_local_32 dst) else none)
    ∷ three is_f32_mul get_32 is_f32_add
        (λ _ acc _. if acc == dst then some (f_mul_acc_local_32 dst) else none)
    ∷ copied_32 dst
    ∷ drop_self_set get_32 dst
    ∷ one constant_32 (set_local_const_32 dst)
    ∷ one local_local_of_32 (λ t. bin_op_local_local_set_32 t.0 t.1 t.2 dst)
    ∷ one local_const_of_32 (λ t. set_const_32 dst t.1 t.0 t.2)
    ∷ []

unfoldable pub tee_rules_32 : (dst : ℕ) → List Rule
unfolding fold_local_binop
tee_rules_32 dst =
    fold_local_binop scalar_bin_op fold_tee_32 dst
    ∷ kept_32 dst
    ∷ one local_local_of_32 (λ t. bin_op_local_local_tee_32 t.0 t.1 t.2 dst)
    ∷ one local_const_of_32 (λ t. bin_op_local_const_tee_32 t.0 t.1 t.2 dst)
    ∷ two constant_32 is_i32_and (λ c _. some (and_const_tee_32 c dst))
    ∷ two constant_32 is_i32_sub (λ c _. some (sub_const_tee_32 c dst))
    ∷ []

-- the arm of `Drop32`: a `tee` becomes a `set`
unfoldable pub drop_rules_32 : List Rule
drop_rules_32 =
    one tee_32 local_set_32
    ∷ one local_local_tee_of_32 (λ t. bin_op_local_local_set_32 t.0 t.1 t.2 t.3)
    ∷ one local_const_tee_of_32 (λ t. bin_op_local_const_set_32 t.0 t.1 t.2 t.3)
    ∷ []

-- the arms of 128 bits, without the binary operations
unfoldable pub set_rules_128 : (dst : ℕ) → List Rule
unfolding drop_self_set
set_rules_128 dst =
    copied_128 dst ∷ drop_self_set get_128 dst ∷ one constant_128 (set_local_const_128 dst) ∷ []

unfoldable pub drop_rules_128 : List Rule
drop_rules_128 = one tee_128 local_set_128 ∷ []
