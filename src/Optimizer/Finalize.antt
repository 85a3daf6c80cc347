-- ===== src/Optimizer/Finalize.antt =====
-- crates/parser/src/optimize.rs: `finalize`, which checks and remaps the targets, and
-- `target_boundaries`. The instructions modelled here use no memory, so the flag
-- `uses_local_memory` has no part in them.
pub mod Bounds
use tinywasm.Prelude.{
  ℕ, ◌+◌, ◌%◌, ◌^◌, Bool, true, false, ◌||◌, if◌then◌else◌, ltb, leb, Option, none, some, List, [],
  ◌∷◌, length, get_elem?, set, replicate, map,
}
use tinywasm.Instructions.{Instruction, branch_table}
use tinywasm.Optimizer.Jumps.{instruction_target, set_target}

-- The messages of `ParseError::Other`.
pub data ParseError : Type 0 where
  instruction_target_out_of_bounds : (target : ℕ) → ParseError
  branch_table_target_out_of_bounds : (target : ℕ) → ParseError
  branch_table_range_overflow : ParseError
  branch_table_range_out_of_bounds : ParseError

pub data Checked (A : Type 0) : Type 0 where
  fine : A → Checked A
  bad : ParseError → Checked A

infixl 5 ◌>>=◌
abbrev pub ◌>>=◌ : {A B : Type 0} → Checked A → (A → Checked B) → Checked B
fine a >>= f = f a
bad e >>= f = bad e

abbrev pub or_bad : {A : Type 0} → Option A → ParseError → Checked A
or_bad none e = bad e
or_bad (some a) e = fine a

-- `*target = old_to_new.get(target)`, when there has been a rewrite
abbrev pub remap : Option (List ℕ) → ℕ → Checked ℕ
remap none target = fine target
remap (some old_to_new) target =
    or_bad (get_elem? old_to_new target) (instruction_target_out_of_bounds target)

unfoldable pub finalize_target : Option (List ℕ) → ℕ → (ℕ → ParseError) → ℕ → Checked ℕ
finalize_target old_to_new len error target = do
  new ← remap old_to_new target
  if leb len new then bad (error new) else fine new

unfoldable pub finalize_targets : Option (List ℕ) → ℕ → List ℕ → Checked (List ℕ)
unfolding finalize_target
finalize_targets old_to_new len [] = fine []
finalize_targets old_to_new len (target ∷ targets) = do
  new ← finalize_target old_to_new len branch_table_target_out_of_bounds target
  rest ← finalize_targets old_to_new len targets
  fine (new ∷ rest)

-- The range of a branch table lies in the targets: `checked_add` of a `u32`, and `get` of a range.
abbrev pub table_range : (start count len : ℕ) → Checked (Unit {0})
table_range start count len =
    if leb (2 ^ 32) (start + count)
    then bad branch_table_range_overflow
    else (if ltb len (start + count) then bad branch_table_range_out_of_bounds else fine tt)

abbrev pub check_table : ℕ → Instruction → Checked (Unit {0})
check_table targets (branch_table default_ip start count) = table_range start count targets
check_table targets _ = fine tt

-- One round of the second loop.
unfoldable pub finalize_instruction :
    Option (List ℕ) → (len targets : ℕ) → Instruction → Checked Instruction
unfolding instruction_target set_target finalize_target
finalize_instruction old_to_new len targets instr = do
  new ← elim (instruction_target instr) [
    | none ↦ fine instr
    | some target ↦ finalize_target old_to_new len instruction_target_out_of_bounds target >>= λ t.
        fine (set_target t instr)
  ]
  u ← check_table targets new
  fine new

unfoldable pub finalize_instructions :
    Option (List ℕ) → (len targets : ℕ) → List Instruction → Checked (List Instruction)
unfolding finalize_instruction
finalize_instructions old_to_new len targets [] = fine []
finalize_instructions old_to_new len targets (instr ∷ instrs) = do
  new ← finalize_instruction old_to_new len targets instr
  rest ← finalize_instructions old_to_new len targets instrs
  fine (new ∷ rest)

-- The instructions and the targets of the branch tables.
unfoldable pub finalize :
    List Instruction → List ℕ → Option (List ℕ) → Checked (List Instruction × List ℕ)
unfolding finalize_targets finalize_instructions
finalize instructions branch_table_targets old_to_new = do
  let len : ℕ = length instructions % 2 ^ 32
  targets ← finalize_targets old_to_new len branch_table_targets
  new ← finalize_instructions old_to_new len (length targets) instructions
  fine (new, targets)
