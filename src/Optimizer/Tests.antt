-- ===== src/Optimizer/Tests.antt =====
-- crates/parser/src/optimize.rs: runs of the optimizer.
use tinywasm.Prelude.{
  ℕ, ◌+◌, length, ◌-◌, ◌^◌, not, arith, ◌≡◌, refl, true, false, none, some, List, [], ◌∷◌,
  replicate,
}
use tinywasm.Stack.Counts.{ValueCounts}
use tinywasm.Instructions.{
  Instruction, numeric, local_get_32, local_set_32, local_tee_32, const_32, i32_shl, i32_shr_s,
  i32_extend8_s, i32_extend16_s, i64_extend32_s, i32_sub, i32_add, jump, inc_local_32, local_get_64,
  local_set_64, i64_sub, bin_op_local_local_32, bin_op_local_local_set_64, lt_s,
  bin_op_local_local_set_32, i_sub,
}
use tinywasm.Optimizer.Jumps
use tinywasm.Optimizer.Operators
use tinywasm.Optimizer.Rules
use tinywasm.Optimizer.Rules.Locals
use tinywasm.Optimizer.Rules.Branches
use tinywasm.Optimizer.Rewrite
use tinywasm.Numeric.{cmp}
use tinywasm.Executor.State.{Executor}
use tinywasm.Executor.Sample.{store, sum, context, inside, inside_64}
use tinywasm.Executor.Jumps.{set_ip}
use tinywasm.Executor.Run.Budget.{Reaches}
use tinywasm.Optimizer.Operators.{inverse_cmp_op}
use tinywasm.Optimizer.Inverse.{inverse_cmp_op_lem}
use tinywasm.Optimizer.Jumps.{resolve_jump_target}
use tinywasm.Optimizer.Jumps.Chains.{resolve_jump_target-Reaches}
use tinywasm.Optimizer.Finalize.Bounds.{Fine}
use tinywasm.Optimizer.Rewrite.{
  Setting, Output, no_output, rewrite_rounds, rewrite_instruction, rewrite,
}
use tinywasm.Optimizer.Fusion.{Same}
use tinywasm.Optimizer.Fusion.Matched.{Block}
use tinywasm.Optimizer.Fusion.Halves.{
  shifted_32, shifted_64, rewrite_rounds-shifted_32, rewrite_rounds-shifted_64,
}
use tinywasm.Optimizer.Fusion.Replaced.{
  rewrite_instruction-local_local_32, rewrite_rounds-local_local_set_64,
}
use tinywasm.Optimizer.Whole
use tinywasm.Optimizer.Whole.{target_boundaries, optimize_instructions}
use tinywasm.Optimizer.Whole.Targets.{Targets, HasPlace, rewrite-target_boundaries}
use tinywasm.Optimizer.Finalize.{fine}
use tinywasm.Optimizer.Finalize.Bounds.{All}
use tinywasm.Optimizer.Whole.Checks.{Present, Accepted, optimize_instructions-Accepted}

abbrev no_results : ValueCounts
no_results = record { c_32 = 0; c_64 = 0; c_128 = 0 }

abbrev shift_back : List Instruction
shift_back = local_get_32 0 ∷ const_32 8 ∷ numeric i32_shl ∷ const_32 8 ∷ numeric i32_shr_s ∷ []

-- A sign extension from 24 bits is rewritten to one from 8 bits.
rewrite-shift_back :
    rewrite shift_back (replicate 6 false) no_results 9
    ≡ some (local_get_32 0 ∷ numeric i32_extend8_s ∷ [], 0 ∷ 1 ∷ 2 ∷ 1 ∷ 2 ∷ 2 ∷ [])
unfolding rewrite Jumps.is_unconditional_terminator Rewrite.numeric_rules Locals.tee_again_32
    Rules.two Rules.one Rules.only_if
rewrite-shift_back = refl

abbrev sub_tee : List Instruction
sub_tee = local_get_32 0 ∷ local_get_32 1 ∷ local_tee_32 2 ∷ numeric i32_sub ∷ local_set_32 3 ∷ []

-- The difference of locals 0 and 1 is rewritten to that of locals 1 and 2, with local 0 in local 2.
rewrite-sub_tee :
    rewrite sub_tee (replicate 6 false) no_results 9
    ≡ some (
      local_get_32 0 ∷ local_set_32 2 ∷ bin_op_local_local_set_32 i_sub 1 2 3 ∷ [],
      0 ∷ 1 ∷ 2 ∷ 3 ∷ 4 ∷ 3 ∷ [],
    )
unfolding rewrite Jumps.is_unconditional_terminator Locals.set_rules_32 Locals.tee_again_32
    Locals.tee_rules_32 Rewrite.numeric_rules Rules.two Locals.kept_32 Rules.one Rules.only_if
    Operators.resolve_local_source_32 Operators.scalar_bin_op
rewrite-sub_tee = refl

-- A loop that counts local 0 up, from a target at its start.
abbrev counter : List Instruction
counter = local_get_32 0 ∷ const_32 1 ∷ numeric i32_add ∷ local_set_32 0 ∷ jump 0 ∷ []

rewrite-counter :
    rewrite counter (true ∷ replicate 5 false) no_results 9
    ≡ some (inc_local_32 0 1 ∷ jump 0 ∷ [], 0 ∷ 1 ∷ 2 ∷ 1 ∷ 1 ∷ 2 ∷ [])
unfolding rewrite Jumps.is_unconditional_terminator Locals.set_rules_32 Locals.tee_again_32
    Locals.tee_rules_32 Rewrite.numeric_rules Rules.two Locals.kept_32 Rules.one Rules.only_if
    Operators.resolve_local_source_32 Operators.scalar_bin_op Branches.rewrite_jump Rules.three
    Locals.copied_32
rewrite-counter = refl

abbrev counter_positions : List ℕ
counter_positions = 0 ∷ 1 ∷ 2 ∷ 1 ∷ 1 ∷ 2 ∷ []

target_boundaries-counter : target_boundaries counter [] ≡ fine (true ∷ replicate 5 false)
unfolding target_boundaries Whole.mark
target_boundaries-counter = refl

rewrite-target_boundaries_example :
    (length counter_positions ≡ length counter + 1)
    × All (Targets (HasPlace 2 counter_positions) []) counter
rewrite-target_boundaries_example =
    rewrite-target_boundaries counter (inc_local_32 0 1 ∷ jump 0 ∷ []) [] (true ∷ replicate 5 false)
      no_results 9 counter_positions target_boundaries-counter rewrite-counter

optimize_instructions-Accepted_example :
    Present (Fine Accepted) (optimize_instructions counter [] true no_results 9)
optimize_instructions-Accepted_example = optimize_instructions-Accepted counter [] true no_results 9

inverse_cmp_op_lem_example :
    cmp 32 (2 ^ 32 - 1) 0 (inverse_cmp_op lt_s) ≡ not (cmp 32 (2 ^ 32 - 1) 0 lt_s)
inverse_cmp_op_lem_example = inverse_cmp_op_lem 32 (2 ^ 32 - 1) 0 lt_s

-- Two jumps that lead to each other.
abbrev circle : Executor
circle = record inside { func = record sum { instructions = jump 1 ∷ jump 0 ∷ [] } }

resolve_jump_target-Reaches_example :
    Reaches context circle (set_ip (resolve_jump_target (jump 1 ∷ jump 0 ∷ []) 0) circle)
resolve_jump_target-Reaches_example = resolve_jump_target-Reaches context circle

abbrev setting : Setting
setting = record { source = []; return_instr = none; self_func_addr = 1 }

rewrite_instruction-local_local_32_example :
    (rewrite_instruction setting 2 (numeric i32_sub) (local_get_32 1 ∷ local_get_32 0 ∷ [])
      ≡ bin_op_local_local_32 i_sub 0 1 ∷ [])
    × Same context inside
        (local_get_32 0 ∷ local_get_32 1 ∷ numeric i32_sub ∷ [])
        (bin_op_local_local_32 i_sub 0 1 ∷ [])
rewrite_instruction-local_local_32_example =
    rewrite_instruction-local_local_32 context setting 2 [] inside i_sub 0 1 3 0 refl refl
      (omega arith)

-- What stands before the block, which starts behind it.
abbrev behind : Output
behind = record no_output { block = local_set_64 7 ∷ [] }

rewrite_rounds-local_local_set_64_example :
    Block behind
      (rewrite_rounds setting 0
        (local_get_64 0 ∷ local_get_64 1 ∷ numeric i64_sub ∷ local_set_64 2 ∷ [])
        (true ∷ false ∷ false ∷ false ∷ [])
        behind)
      (bin_op_local_local_set_64 i_sub 0 1 2 ∷ [])
    × Same context inside_64
        (local_get_64 0 ∷ local_get_64 1 ∷ numeric i64_sub ∷ local_set_64 2 ∷ [])
        (bin_op_local_local_set_64 i_sub 0 1 2 ∷ [])
rewrite_rounds-local_local_set_64_example =
    rewrite_rounds-local_local_set_64 context setting 0 behind inside_64 i_sub 0 1 2 7 5 refl refl
      (omega arith) (omega arith)

-- Three 32-bit locals, the first of them 40000: its low 16 bits are negative.
abbrev narrow : Executor
narrow = record inside { store = store (40000 ∷ 40000 ∷ 0 ∷ []) [] }

rewrite_rounds-shifted_32_example :
    Block behind
      (rewrite_rounds setting 0 (shifted_32 0) (true ∷ false ∷ false ∷ false ∷ false ∷ []) behind)
      (numeric i32_extend16_s ∷ local_get_32 0 ∷ [])
    × Same context narrow (shifted_32 0) (local_get_32 0 ∷ numeric i32_extend16_s ∷ [])
rewrite_rounds-shifted_32_example =
    rewrite_rounds-shifted_32 context setting 0 behind narrow 0 40000 refl (omega arith)

rewrite_rounds-shifted_64_example :
    Block behind
      (rewrite_rounds setting 0 (shifted_64 1) (true ∷ false ∷ false ∷ false ∷ false ∷ []) behind)
      (numeric i64_extend32_s ∷ local_get_64 1 ∷ [])
    × Same context inside_64 (shifted_64 1) (local_get_64 1 ∷ numeric i64_extend32_s ∷ [])
rewrite_rounds-shifted_64_example =
    rewrite_rounds-shifted_64 context setting 0 behind inside_64 1 5 refl (omega arith)
