-- ===== src/Optimizer/Rules/Branches.antt =====
-- crates/parser/src/optimize.rs: the arms of the match of `rewrite` on jumps.
use tinywasm.Prelude.{
  ℕ, ◌+◌, ◌-◌, ◌%◌, ◌^◌, Bool, true, false, ltb, leb, ◌==◌, ◌&&◌, if◌then◌else◌, Option, none, some,
  List, [], ◌∷◌, get_elem?,
}
use tinywasm.Instructions.{
  CmpOp, eq, ne, Instruction, jump, jump_if_zero_32, jump_if_non_zero_32, jump_if_zero_64,
  jump_if_non_zero_64, jump_if_local_zero_32, jump_if_local_non_zero_32, jump_if_local_zero_64,
  jump_if_local_non_zero_64, jump_cmp_stack_const_32, jump_cmp_stack_const_64,
  jump_cmp_local_const_32, jump_cmp_local_const_64, jump_cmp_local_local_32,
  jump_cmp_local_local_64,
}
use tinywasm.Optimizer.Operators.{cmp_op, inverse_cmp_op}
use tinywasm.Optimizer.Jumps.{instruction_target, set_target, resolve_jump_target}
use tinywasm.Optimizer.Rules.{Rule, one, two, three}
use tinywasm.Optimizer.Rules.Views.{
  get_32, constant_32, get_64, constant_64, is_i32_eqz, is_i64_eqz,
}

-- `i32::try_from` of an `i64`, both as their bits
abbrev pub narrow : ℕ → Option ℕ
narrow imm =
    if ltb imm (2 ^ 31)
    then some imm
    else (if leb (2 ^ 64 - 2 ^ 31) imm then some (imm % 2 ^ 32) else none)

abbrev narrowed : Option ℕ → (ℕ → Instruction) → Option Instruction
narrowed none make = none
narrowed (some imm) make = some (make imm)

-- A jump on a comparison with a constant, with the shorter forms for zero.
abbrev against :
    (zero_form non_zero_form : Instruction) → (ℕ → CmpOp → Instruction) → ℕ → CmpOp → Instruction
against zero_form non_zero_form general imm eq = if imm == 0 then zero_form else general imm eq
against zero_form non_zero_form general imm ne = if imm == 0 then non_zero_form else general imm ne
against zero_form non_zero_form general imm op = general imm op

abbrev local_against_32 : (target local imm : ℕ) → CmpOp → Instruction
local_against_32 target local imm op =
    against (jump_if_local_zero_32 target local) (jump_if_local_non_zero_32 target local)
      (λ imm op. jump_cmp_local_const_32 target local imm op) imm op

abbrev stack_against_32 : (target imm : ℕ) → CmpOp → Instruction
stack_against_32 target imm op =
    against (jump_if_zero_32 target) (jump_if_non_zero_32 target)
      (λ imm op. jump_cmp_stack_const_32 target imm op) imm op

abbrev local_against_64 : (target local imm : ℕ) → CmpOp → Instruction
local_against_64 target local imm op =
    against (jump_if_local_zero_64 target local) (jump_if_local_non_zero_64 target local)
      (λ imm op. jump_cmp_local_const_64 target local imm op) imm op

abbrev stack_against_64 : (target imm : ℕ) → CmpOp → Instruction
stack_against_64 target imm op =
    against (jump_if_zero_64 target) (jump_if_non_zero_64 target)
      (λ imm op. jump_cmp_stack_const_64 target imm op) imm op

-- The rules of `JumpIfZero32` and `JumpIfNonZero32` on comparisons; `adjust` is `inverse_cmp_op` or
-- nothing.
unfoldable pub compare_rules : (adjust : CmpOp → CmpOp) (target : ℕ) → List Rule
compare_rules adjust target =
    three get_32 constant_32 cmp_op
      (λ local imm op. some (local_against_32 target local imm (adjust op)))
    ∷ three get_64 constant_64 cmp_op
        (λ local imm op. narrowed (narrow imm) λ imm. local_against_64 target local imm (adjust op))
    ∷ three get_32 get_32 cmp_op
        (λ left right op. some (jump_cmp_local_local_32 target left right (adjust op)))
    ∷ three get_64 get_64 cmp_op
        (λ left right op. some (jump_cmp_local_local_64 target left right (adjust op)))
    ∷ two constant_32 cmp_op (λ imm op. some (stack_against_32 target imm (adjust op)))
    ∷ two constant_64 cmp_op (λ imm op. some (stack_against_64 target imm (adjust op)))
    ∷ []

abbrev same_op : CmpOp → CmpOp
same_op op = op

unfoldable pub zero_rules_32 : (target : ℕ) → List Rule
unfolding compare_rules inverse_cmp_op
zero_rules_32 target =
    two get_32 is_i32_eqz (λ local _. some (jump_if_local_non_zero_32 target local))
    ∷ one is_i32_eqz (λ _. jump_if_non_zero_32 target)
    ∷ one get_32 (λ local. jump_if_local_zero_32 target local)
    ∷ two get_64 is_i64_eqz (λ local _. some (jump_if_local_non_zero_64 target local))
    ∷ one is_i64_eqz (λ _. jump_if_non_zero_64 target)
    ∷ compare_rules inverse_cmp_op target

unfoldable pub non_zero_rules_32 : (target : ℕ) → List Rule
unfolding compare_rules
non_zero_rules_32 target =
    two get_32 is_i32_eqz (λ local _. some (jump_if_local_zero_32 target local))
    ∷ one is_i32_eqz (λ _. jump_if_zero_32 target)
    ∷ one get_32 (λ local. jump_if_local_non_zero_32 target local)
    ∷ two get_64 is_i64_eqz (λ local _. some (jump_if_local_zero_64 target local))
    ∷ one is_i64_eqz (λ _. jump_if_zero_64 target)
    ∷ compare_rules same_op target

unfoldable pub zero_rules_64 : (target : ℕ) → List Rule
zero_rules_64 target = one get_64 (λ local. jump_if_local_zero_64 target local) ∷ []

unfoldable pub non_zero_rules_64 : (target : ℕ) → List Rule
non_zero_rules_64 target = one get_64 (λ local. jump_if_local_non_zero_64 target local) ∷ []

-- A comparison with zero, before it is canonicalized.
unfoldable pub shorter : Instruction → Instruction
shorter (jump_cmp_stack_const_32 target imm op) = stack_against_32 target imm op
shorter (jump_cmp_local_const_32 target local imm op) = local_against_32 target local imm op
shorter (jump_cmp_stack_const_64 target imm op) = stack_against_64 target imm op
shorter (jump_cmp_local_const_64 target local imm op) = local_against_64 target local imm op
shorter instr = instr

-- `canonicalize_jump_like_with_target`, on the last instruction of the block
abbrev is_jump : Instruction → Bool
is_jump (jump ip) = true
is_jump _ = false

unfoldable pub canonicalize_with_target :
    (target fallthrough : ℕ) → List Instruction → List Instruction
unfolding set_target
canonicalize_with_target target fallthrough [] = []
canonicalize_with_target target fallthrough (last ∷ rest) =
    if is_jump last && (target == fallthrough) then rest else set_target target last ∷ rest

-- `canonicalize_jump_like`
unfoldable pub canonicalize :
    List Instruction → (fallthrough : ℕ) → List Instruction → List Instruction
unfolding instruction_target resolve_jump_target canonicalize_with_target
canonicalize source fallthrough [] = []
canonicalize source fallthrough (last ∷ rest) = elim (instruction_target last) [
  | none ↦ last ∷ rest
  | some target ↦
      canonicalize_with_target (resolve_jump_target source target) fallthrough (last ∷ rest)
]

-- The arm of `Jump`: a jump to a comparison that leaves the loop becomes the comparison itself,
-- inverted, with the body of the loop as its target.
abbrev inverted :
    (source : List Instruction) (target exit body : ℕ) → Option Instruction → Option Instruction
inverted source target exit body (some (jump_cmp_local_local_32 target_ip left right op)) =
    if (resolve_jump_target source target_ip == exit) && ltb target body
    then some (jump_cmp_local_local_32 body left right (inverse_cmp_op op))
    else none
inverted source target exit body (some (jump_cmp_local_local_64 target_ip left right op)) =
    if (resolve_jump_target source target_ip == exit) && ltb target body
    then some (jump_cmp_local_local_64 body left right (inverse_cmp_op op))
    else none
inverted source target exit body (some _) = none
inverted source target exit body none = none

-- `target + 1` is a `u32`.
unfoldable pub rewrite_jump :
    (source : List Instruction) (ip exit : ℕ) (block : List Instruction) → List Instruction
unfolding resolve_jump_target canonicalize_with_target inverse_cmp_op
rewrite_jump source ip exit block =
    let target : ℕ = resolve_jump_target source ip in
    let body : ℕ = (target + 1) % 2 ^ 32 in
    elim (inverted source target exit body (get_elem? source target)) [
      | some instr ↦ instr ∷ block
      | none ↦ canonicalize_with_target target exit (jump ip ∷ block)
    ]
