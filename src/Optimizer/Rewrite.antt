-- ===== src/Optimizer/Rewrite.antt =====
-- crates/parser/src/optimize.rs: `rewrite`, which goes through the instructions once.
pub mod Boundaries
use tinywasm.Prelude.{
  ℕ, zero, suc, ◌+◌, ◌%◌, ◌^◌, Bool, true, false, ◌==◌, ◌&&◌, ◌||◌, if◌then◌else◌, Option, none,
  some, List, [], ◌∷◌, ◌++◌, length, get_elem?,
}
use tinywasm.Stack.Counts.{ValueCounts}
use tinywasm.Stack.ValueStack.RoundTrip.{reverse}
use tinywasm.Instructions.{
  i_add, i_sub, i_mul, i_and, i_or, i_xor, i_shl, i_shr_s, i_shr_u, i_rotl, i_rotr, f_add, f_sub,
  f_mul, f_div, f_min, f_max, f_copysign, NumericOp, i32_add, i32_sub, i32_mul, i64_add, i64_sub,
  i64_mul, i32_and, i32_or, i32_xor, i32_shl, i32_shr_s, i32_shr_u, i32_rotl, i32_rotr, i64_and,
  i64_or, i64_xor, i64_shl, i64_shr_s, i64_shr_u, i64_rotl, i64_rotr, f32_add, f32_sub, f32_mul,
  f32_div, f32_min, f32_max, f32_copysign, f64_add, f64_sub, f64_mul, f64_div, f64_min, f64_max,
  f64_copysign, Instruction, local_copy_32, local_copy_64, local_copy_128, jump, jump_if_zero_32,
  jump_if_non_zero_32, jump_if_zero_64, jump_if_non_zero_64, jump_if_local_zero_32,
  jump_if_local_non_zero_32, jump_if_local_zero_64, jump_if_local_non_zero_64,
  jump_cmp_stack_const_32, jump_cmp_stack_const_64, jump_cmp_local_const_32,
  jump_cmp_local_const_64, jump_cmp_local_local_32, jump_cmp_local_local_64, return, return_void,
  return_32, return_64, return_128, call, call_self, return_call, return_call_self, drop_32,
  drop_64, drop_128, local_get_32, local_set_32, local_tee_32, local_get_64, local_set_64,
  local_tee_64, local_get_128, local_set_128, local_tee_128, numeric,
}
use tinywasm.Optimizer.Operators.{int_bin_op, float_bin_op}
use tinywasm.Optimizer.Jumps.{resolve_jump_target, is_unconditional_terminator}
use tinywasm.Optimizer.Rules.{Rule, rewritten}
use tinywasm.Optimizer.Rules.Locals.{
  tee_again_32, tee_again_64, kept_128, tee_again_128, commuting_32, ordered_32, float_commuting_32,
  float_ordered_32, set_rules_32, tee_rules_32, drop_rules_32, set_rules_128, drop_rules_128,
}
use tinywasm.Optimizer.Rules.Locals64.{
  commuting_64, ordered_64, float_commuting_64, float_ordered_64, set_rules_64, tee_rules_64,
  drop_rules_64,
}
use tinywasm.Optimizer.Rules.Branches.{
  zero_rules_32, non_zero_rules_32, zero_rules_64, non_zero_rules_64, shorter,
  canonicalize_with_target, canonicalize, rewrite_jump,
}

-- What a rewrite is given beside the instructions and their boundaries.
pub record Setting : Type 0 where
  pub source : List Instruction
  pub return_instr : Option Instruction
  pub self_func_addr : ℕ

-- The shorter `return` of a function with at most one result.
unfoldable pub return_instr_for : ValueCounts → Option Instruction
return_instr_for results =
    let only_32 : Bool = (results.c_64 == 0) && (results.c_128 == 0) in
    if only_32 && (results.c_32 == 0)
    then some return_void
    else (if only_32 && (results.c_32 == 1)
        then some return_32
        else (if (results.c_32 == 0) && (results.c_64 == 1) && (results.c_128 == 0)
            then some return_64
            else (if (results.c_32 == 0) && (results.c_64 == 0) && (results.c_128 == 1)
                then some return_128
                else none)))

abbrev unwrap_or : Option Instruction → Instruction → Instruction
unwrap_or none instr = instr
unwrap_or (some other) instr = other

-- The arms of the numeric instructions, by the views that give their operations.
unfoldable pub numeric_rules : NumericOp → List Rule
unfolding commuting_32 ordered_32 commuting_64 ordered_64 float_commuting_32 float_ordered_32
    float_commuting_64 float_ordered_64
numeric_rules i32_add = commuting_32 i_add
numeric_rules i32_mul = commuting_32 i_mul
numeric_rules i32_and = commuting_32 i_and
numeric_rules i32_or = commuting_32 i_or
numeric_rules i32_xor = commuting_32 i_xor
numeric_rules i32_sub = ordered_32 i_sub
numeric_rules i32_shl = ordered_32 i_shl
numeric_rules i32_shr_s = ordered_32 i_shr_s
numeric_rules i32_shr_u = ordered_32 i_shr_u
numeric_rules i32_rotl = ordered_32 i_rotl
numeric_rules i32_rotr = ordered_32 i_rotr
numeric_rules i64_add = commuting_64 i_add
numeric_rules i64_mul = commuting_64 i_mul
numeric_rules i64_and = commuting_64 i_and
numeric_rules i64_or = commuting_64 i_or
numeric_rules i64_xor = commuting_64 i_xor
numeric_rules i64_sub = ordered_64 i_sub
numeric_rules i64_shl = ordered_64 i_shl
numeric_rules i64_shr_s = ordered_64 i_shr_s
numeric_rules i64_shr_u = ordered_64 i_shr_u
numeric_rules i64_rotl = ordered_64 i_rotl
numeric_rules i64_rotr = ordered_64 i_rotr
numeric_rules f32_add = float_commuting_32 f_add
numeric_rules f32_mul = float_commuting_32 f_mul
numeric_rules f32_min = float_commuting_32 f_min
numeric_rules f32_max = float_commuting_32 f_max
numeric_rules f32_sub = float_ordered_32 f_sub
numeric_rules f32_div = float_ordered_32 f_div
numeric_rules f32_copysign = float_ordered_32 f_copysign
numeric_rules f64_add = float_commuting_64 f_add
numeric_rules f64_mul = float_commuting_64 f_mul
numeric_rules f64_min = float_commuting_64 f_min
numeric_rules f64_max = float_commuting_64 f_max
numeric_rules f64_sub = float_ordered_64 f_sub
numeric_rules f64_div = float_ordered_64 f_div
numeric_rules f64_copysign = float_ordered_64 f_copysign
numeric_rules _ = []

-- The match on an instruction, and the block that it leaves. `continue` only skips a
-- canonicalization that changes nothing, and an assignment to `after_terminator` of the value that
-- it has.
unfoldable pub rewrite_instruction :
    Setting → (old_idx : ℕ) → Instruction → List Instruction → List Instruction
unfolding rewritten
rewrite_instruction s old_idx (local_copy_32 a b) block =
    if a == b then block else local_copy_32 a b ∷ block
rewrite_instruction s old_idx (local_copy_64 a b) block =
    if a == b then block else local_copy_64 a b ∷ block
rewrite_instruction s old_idx (local_copy_128 a b) block =
    if a == b then block else local_copy_128 a b ∷ block
rewrite_instruction s old_idx (call addr) block =
    (if addr == s.self_func_addr then call_self else call addr) ∷ block
rewrite_instruction s old_idx (return_call addr) block =
    (if addr == s.self_func_addr then return_call_self else return_call addr) ∷ block
rewrite_instruction s old_idx return block = unwrap_or s.return_instr return ∷ block
rewrite_instruction s old_idx (numeric op) block = rewritten (numeric_rules op) (numeric op) block
rewrite_instruction s old_idx (local_get_32 dst) block =
    rewritten (tee_again_32 dst ∷ []) (local_get_32 dst) block
rewrite_instruction s old_idx (local_get_64 dst) block =
    rewritten (tee_again_64 dst ∷ []) (local_get_64 dst) block
rewrite_instruction s old_idx (local_get_128 dst) block =
    rewritten (tee_again_128 dst ∷ []) (local_get_128 dst) block
rewrite_instruction s old_idx (local_set_32 dst) block =
    rewritten (set_rules_32 dst) (local_set_32 dst) block
rewrite_instruction s old_idx (local_set_64 dst) block =
    rewritten (set_rules_64 dst) (local_set_64 dst) block
rewrite_instruction s old_idx (local_set_128 dst) block =
    rewritten (set_rules_128 dst) (local_set_128 dst) block
rewrite_instruction s old_idx (local_tee_32 dst) block =
    rewritten (tee_rules_32 dst) (local_tee_32 dst) block
rewrite_instruction s old_idx (local_tee_64 dst) block =
    rewritten (tee_rules_64 dst) (local_tee_64 dst) block
rewrite_instruction s old_idx (local_tee_128 dst) block =
    rewritten (kept_128 dst ∷ []) (local_tee_128 dst) block
rewrite_instruction s old_idx drop_32 block = rewritten drop_rules_32 drop_32 block
rewrite_instruction s old_idx drop_64 block = rewritten drop_rules_64 drop_64 block
rewrite_instruction s old_idx drop_128 block = rewritten drop_rules_128 drop_128 block
rewrite_instruction s old_idx (jump ip) block = rewrite_jump s.source ip (old_idx + 1) block
rewrite_instruction s old_idx (jump_if_zero_32 ip) block =
    let target : ℕ = resolve_jump_target s.source ip in
    canonicalize_with_target target (old_idx + 1)
      (rewritten (zero_rules_32 target) (jump_if_zero_32 ip) block)
rewrite_instruction s old_idx (jump_if_non_zero_32 ip) block =
    let target : ℕ = resolve_jump_target s.source ip in
    canonicalize_with_target target (old_idx + 1)
      (rewritten (non_zero_rules_32 target) (jump_if_non_zero_32 ip) block)
rewrite_instruction s old_idx (jump_if_zero_64 ip) block =
    let target : ℕ = resolve_jump_target s.source ip in
    canonicalize_with_target target (old_idx + 1)
      (rewritten (zero_rules_64 target) (jump_if_zero_64 ip) block)
rewrite_instruction s old_idx (jump_if_non_zero_64 ip) block =
    let target : ℕ = resolve_jump_target s.source ip in
    canonicalize_with_target target (old_idx + 1)
      (rewritten (non_zero_rules_64 target) (jump_if_non_zero_64 ip) block)
rewrite_instruction s old_idx (jump_cmp_stack_const_32 target imm op) block =
    canonicalize s.source (old_idx + 1) (shorter (jump_cmp_stack_const_32 target imm op) ∷ block)
rewrite_instruction s old_idx (jump_cmp_stack_const_64 target imm op) block =
    canonicalize s.source (old_idx + 1) (shorter (jump_cmp_stack_const_64 target imm op) ∷ block)
rewrite_instruction s old_idx (jump_cmp_local_const_32 target local imm op) block =
    canonicalize s.source (old_idx + 1)
      (shorter (jump_cmp_local_const_32 target local imm op) ∷ block)
rewrite_instruction s old_idx (jump_cmp_local_const_64 target local imm op) block =
    canonicalize s.source (old_idx + 1)
      (shorter (jump_cmp_local_const_64 target local imm op) ∷ block)
rewrite_instruction s old_idx (jump_cmp_local_local_32 target left right op) block =
    canonicalize s.source (old_idx + 1) (jump_cmp_local_local_32 target left right op ∷ block)
rewrite_instruction s old_idx (jump_cmp_local_local_64 target left right op) block =
    canonicalize s.source (old_idx + 1) (jump_cmp_local_local_64 target left right op ∷ block)
rewrite_instruction s old_idx (jump_if_local_zero_32 target local) block =
    canonicalize s.source (old_idx + 1) (jump_if_local_zero_32 target local ∷ block)
rewrite_instruction s old_idx (jump_if_local_zero_64 target local) block =
    canonicalize s.source (old_idx + 1) (jump_if_local_zero_64 target local ∷ block)
rewrite_instruction s old_idx (jump_if_local_non_zero_32 target local) block =
    canonicalize s.source (old_idx + 1) (jump_if_local_non_zero_32 target local ∷ block)
rewrite_instruction s old_idx (jump_if_local_non_zero_64 target local) block =
    canonicalize s.source (old_idx + 1) (jump_if_local_non_zero_64 target local ∷ block)
rewrite_instruction s old_idx instr block = instr ∷ block

-- The output: what stands before the block, the block, and the positions of the old instructions.
pub record Output : Type 0 where
  pub before : List Instruction
  pub block : List Instruction
  pub after_terminator : Bool
  pub old_to_new : List ℕ

abbrev pub instructions : Output → List Instruction
instructions out = out.before ++ reverse out.block

-- A boundary, and an instruction behind a terminator, start a block.
abbrev pub start_block : Bool → Output → Output
start_block true out = record out { before = instructions out; block = [] }
start_block false out = out

-- One round of the loop; a position is a `u32`.
unfoldable pub rewrite_round :
    Setting → (old_idx : ℕ) → (boundary : Bool) → Instruction → Output → Output
unfolding rewrite_instruction
rewrite_round s old_idx boundary instr out =
    let o : Output = start_block (boundary || out.after_terminator) out in
    record o {
      block = rewrite_instruction s old_idx instr o.block;
      after_terminator = is_unconditional_terminator instr;
      old_to_new = o.old_to_new ++ length (instructions o) % 2 ^ 32 ∷ [];
    }

-- The rounds of the loop; `none` is the panic for a boundary that is missing.
unfoldable pub rewrite_rounds :
    Setting → (old_idx : ℕ) → List Instruction → (boundaries : List Bool) → Output → Option Output
unfolding rewrite_round
rewrite_rounds s old_idx [] boundaries out = some out
rewrite_rounds s old_idx (instr ∷ instrs) [] out = none
rewrite_rounds s old_idx (instr ∷ instrs) (b ∷ bs) out =
    rewrite_rounds s (old_idx + 1) instrs bs (rewrite_round s old_idx b instr out)

abbrev pub no_output : Output
no_output = record { before = []; block = []; after_terminator = false; old_to_new = [] }

abbrev pub finished : Output → List Instruction × List ℕ
finished out = (instructions out, out.old_to_new ++ length (instructions out) % 2 ^ 32 ∷ [])

unfoldable pub rewrite :
    List Instruction → List Bool → ValueCounts → ℕ → Option (List Instruction × List ℕ)
unfolding rewrite_rounds return_instr_for
rewrite source boundaries function_results self_func_addr =
    elim (rewrite_rounds
      (record {
        source = source;
        return_instr = return_instr_for function_results;
        self_func_addr = self_func_addr;
      })
      0 source boundaries no_output) [ none ↦ none | some out ↦ some (finished out) ]
