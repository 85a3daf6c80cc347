-- ===== src/Optimizer/Whole.antt =====
-- crates/parser/src/optimize.rs: `target_boundaries`, and `optimize_instructions`, which composes it
-- with `rewrite` and `finalize`.
pub mod Checks
pub mod Targets
use tinywasm.Prelude.{
  ℕ, ◌+◌, Bool, true, false, ltb, if◌then◌else◌, Option, none, some, List, [], ◌∷◌, length, set,
  replicate, slice,
}
use tinywasm.Stack.Counts.{ValueCounts}
use tinywasm.Instructions.{Instruction, branch_table}
use tinywasm.Optimizer.Jumps.{instruction_target}
use tinywasm.Optimizer.Finalize.{
  ParseError, instruction_target_out_of_bounds, branch_table_target_out_of_bounds, Checked, fine,
  bad, ◌>>=◌, table_range, finalize,
}
use tinywasm.Optimizer.Rewrite.{rewrite}

-- `*boundaries.get_mut(target) = true`
unfoldable pub mark : (ℕ → ParseError) → List Bool → ℕ → Checked (List Bool)
mark error boundaries target =
    if ltb target (length boundaries) then fine (set boundaries target true) else bad (error target)

unfoldable pub mark_all : List Bool → List ℕ → Checked (List Bool)
unfolding mark
mark_all boundaries [] = fine boundaries
mark_all boundaries (target ∷ targets) = do
  marked ← mark branch_table_target_out_of_bounds boundaries target
  mark_all marked targets

abbrev pub mark_target : Option ℕ → List Bool → Checked (List Bool)
mark_target none boundaries = fine boundaries
mark_target (some target) boundaries = mark instruction_target_out_of_bounds boundaries target

abbrev pub mark_table : Instruction → List ℕ → List Bool → Checked (List Bool)
mark_table (branch_table default_ip start count) targets boundaries = do
  u ← table_range start count (length targets)
  mark_all boundaries (slice targets start count)
mark_table _ targets boundaries = fine boundaries

-- The rounds of `target_boundaries`.
unfoldable pub mark_instructions : List ℕ → List Instruction → List Bool → Checked (List Bool)
unfolding mark_all instruction_target
mark_instructions targets [] boundaries = fine boundaries
mark_instructions targets (instr ∷ instrs) boundaries = do
  marked ← mark_target (instruction_target instr) boundaries
  tabled ← mark_table instr targets marked
  mark_instructions targets instrs tabled

unfoldable pub target_boundaries : List Instruction → List ℕ → Checked (List Bool)
unfolding mark_instructions
target_boundaries instrs targets =
    mark_instructions targets instrs (replicate (length instrs + 1) false)

-- `none` is a panic of `rewrite`.
abbrev pub finalize_rewritten :
    List ℕ → Option (List Instruction × List ℕ) → Option (Checked (List Instruction × List ℕ))
finalize_rewritten targets none = none
finalize_rewritten targets (some r) = some (finalize r.0 targets (some r.1))

abbrev pub rewrite_within :
    List Instruction
    → List ℕ
    → ValueCounts
    → ℕ
    → Checked (List Bool)
    → Option (Checked (List Instruction × List ℕ))
rewrite_within instrs targets results self (bad e) = some (bad e)
rewrite_within instrs targets results self (fine boundaries) =
    finalize_rewritten targets (rewrite instrs boundaries results self)

-- The flag is `options.optimize_rewrite()`.
unfoldable pub optimize_instructions :
    List Instruction
    → List ℕ
    → (optimize_rewrite : Bool) → ValueCounts
    → (self_func_addr : ℕ) → Option (Checked (List Instruction × List ℕ))
unfolding target_boundaries rewrite finalize
optimize_instructions instrs targets true results self =
    rewrite_within instrs targets results self (target_boundaries instrs targets)
optimize_instructions instrs targets false results self = some (finalize instrs targets none)
