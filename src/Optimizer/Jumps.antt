-- ===== src/Optimizer/Jumps.antt =====
-- crates/parser/src/optimize.rs: the targets of jumps.
pub mod Chains
use tinywasm.Prelude.{
  ℕ, zero, suc, ◌+◌, ◌==◌, Bool, true, false, if◌then◌else◌, Option, none, some, List, ◌∷◌, [],
  length, get_elem?,
}
use tinywasm.Instructions.{
  Instruction, unreachable, jump, jump_if_zero_32, jump_if_non_zero_32, jump_if_zero_64,
  jump_if_non_zero_64, jump_if_local_zero_32, jump_if_local_non_zero_32, jump_if_local_zero_64,
  jump_if_local_non_zero_64, jump_cmp_stack_const_32, jump_cmp_stack_const_64,
  jump_cmp_local_const_32, jump_cmp_local_const_64, jump_cmp_local_local_32,
  jump_cmp_local_local_64, branch_table, return, return_void, return_32, return_64, return_128,
  return_call, return_call_self,
}

-- `instruction_target`
unfoldable pub instruction_target : Instruction → Option ℕ
instruction_target (jump ip) = some ip
instruction_target (jump_if_zero_32 ip) = some ip
instruction_target (jump_if_non_zero_32 ip) = some ip
instruction_target (jump_if_zero_64 ip) = some ip
instruction_target (jump_if_non_zero_64 ip) = some ip
instruction_target (jump_if_local_zero_32 ip local) = some ip
instruction_target (jump_if_local_zero_64 ip local) = some ip
instruction_target (jump_if_local_non_zero_32 ip local) = some ip
instruction_target (jump_if_local_non_zero_64 ip local) = some ip
instruction_target (jump_cmp_stack_const_32 ip imm op) = some ip
instruction_target (jump_cmp_local_const_32 ip local imm op) = some ip
instruction_target (jump_cmp_local_local_32 ip left right op) = some ip
instruction_target (jump_cmp_stack_const_64 ip imm op) = some ip
instruction_target (jump_cmp_local_const_64 ip local imm op) = some ip
instruction_target (jump_cmp_local_local_64 ip left right op) = some ip
instruction_target (branch_table ip start len) = some ip
instruction_target _ = none

-- The instruction with another target, through `instruction_target_mut`.
unfoldable pub set_target : ℕ → Instruction → Instruction
set_target target (jump ip) = jump target
set_target target (jump_if_zero_32 ip) = jump_if_zero_32 target
set_target target (jump_if_non_zero_32 ip) = jump_if_non_zero_32 target
set_target target (jump_if_zero_64 ip) = jump_if_zero_64 target
set_target target (jump_if_non_zero_64 ip) = jump_if_non_zero_64 target
set_target target (jump_if_local_zero_32 ip local) = jump_if_local_zero_32 target local
set_target target (jump_if_local_zero_64 ip local) = jump_if_local_zero_64 target local
set_target target (jump_if_local_non_zero_32 ip local) = jump_if_local_non_zero_32 target local
set_target target (jump_if_local_non_zero_64 ip local) = jump_if_local_non_zero_64 target local
set_target target (jump_cmp_stack_const_32 ip imm op) = jump_cmp_stack_const_32 target imm op
set_target target (jump_cmp_local_const_32 ip local imm op) =
    jump_cmp_local_const_32 target local imm op
set_target target (jump_cmp_local_local_32 ip left right op) =
    jump_cmp_local_local_32 target left right op
set_target target (jump_cmp_stack_const_64 ip imm op) = jump_cmp_stack_const_64 target imm op
set_target target (jump_cmp_local_const_64 ip local imm op) =
    jump_cmp_local_const_64 target local imm op
set_target target (jump_cmp_local_local_64 ip left right op) =
    jump_cmp_local_local_64 target left right op
set_target target (branch_table ip start len) = branch_table target start len
set_target target instr = instr

-- `resolve_jump_target`: at most so many jumps are followed.
abbrev pub as_jump : Option Instruction → Option ℕ
as_jump (some (jump next)) = some next
as_jump (some _) = none
as_jump none = none

unfoldable pub follow : List Instruction → (steps idx : ℕ) → ℕ
follow instrs zero idx = idx
follow instrs (suc steps) idx = elim (as_jump (get_elem? instrs idx)) [
  | none ↦ idx
  | some next ↦ follow instrs steps next
]

unfoldable pub resolve_jump_target : List Instruction → ℕ → ℕ
unfolding follow
resolve_jump_target instrs target = follow instrs (length instrs) target

-- `is_unconditional_terminator`
unfoldable pub is_unconditional_terminator : Instruction → Bool
is_unconditional_terminator unreachable = true
is_unconditional_terminator (jump ip) = true
is_unconditional_terminator (branch_table ip start len) = true
is_unconditional_terminator return = true
is_unconditional_terminator return_void = true
is_unconditional_terminator return_32 = true
is_unconditional_terminator return_64 = true
is_unconditional_terminator return_128 = true
is_unconditional_terminator (return_call v) = true
is_unconditional_terminator return_call_self = true
is_unconditional_terminator _ = false
