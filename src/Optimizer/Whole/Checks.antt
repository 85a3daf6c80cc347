-- ===== src/Optimizer/Whole/Checks.antt =====
-- crates/parser/src/optimize.rs: what `optimize_instructions` gives.
use tinywasm.Prelude.{
  ℕ, ◌+◌, ◌≤◌, ◌<◌, ◌≡◌, refl, ◌∙◌, Bool, true, false, ltb, Option, none, some, List, [], ◌∷◌,
  length, replicate, slice, length-set, length-replicate, Bool-cases, inl, inr, arith,
}
use tinywasm.Stack.Counts.{ValueCounts}
use tinywasm.Instructions.{Instruction, branch_table}
use tinywasm.Optimizer.Jumps.{instruction_target}
use tinywasm.Optimizer.Finalize.{
  ParseError, Checked, fine, bad, table_range, finalize, branch_table_target_out_of_bounds,
  instruction_target_out_of_bounds,
}
use tinywasm.Optimizer.Finalize.Bounds.{Fine, Fine-bind, All, InBounds, finalize-InBounds}
use tinywasm.Optimizer.Rewrite.{
  Setting, Output, rewrite_rounds, rewrite_round, rewrite, no_output, finished, return_instr_for,
}
use tinywasm.Optimizer.Whole.{
  mark, mark_all, mark_target, mark_table, mark_instructions, target_boundaries, finalize_rewritten,
  rewrite_within, optimize_instructions,
}

-- As many boundaries.
abbrev Sized : ℕ → List Bool → Type 0
Sized n bs = length bs ≡ n

module _ (n : ℕ) where
  mark-Sized :
      (error : ℕ → ParseError) (bs : List Bool) (target : ℕ)
      → Sized n bs
      → Fine (Sized n) (mark error bs target)
  unfolding mark
  mark-Sized error bs target h = elim (Bool-cases (ltb target (length bs))) [
    | inl e ↦ rw (mark, e) (length-set bs target true ∙ h)
    | inr e ↦ rw (mark, e) tt
  ]

  mark_all-Sized :
      (bs : List Bool) (targets : List ℕ) → Sized n bs → Fine (Sized n) (mark_all bs targets)
  unfolding mark_all
  mark_all-Sized bs [] h = h
  mark_all-Sized bs (t ∷ ts) h =
      Fine-bind _ _ (mark branch_table_target_out_of_bounds bs t) _
        (mark-Sized branch_table_target_out_of_bounds bs t h) λ marked k. mark_all-Sized marked ts k

  mark_target-Sized :
      (o : Option ℕ) (bs : List Bool) → Sized n bs → Fine (Sized n) (mark_target o bs)
  mark_target-Sized none bs h = h
  mark_target-Sized (some t) bs h = mark-Sized instruction_target_out_of_bounds bs t h

  anything : {A : Type 0} (m : Checked A) → Fine (λ _. Unit {0}) m
  anything (fine a) = tt
  anything (bad e) = tt

  mark_table-Sized :
      (instr : Instruction) (targets : List ℕ) (bs : List Bool)
      → Sized n bs
      → Fine (Sized n) (mark_table instr targets bs)
  mark_table-Sized (branch_table default_ip start count) targets bs h =
      Fine-bind (λ _. Unit {0}) _ (table_range start count (length targets)) _
        (anything (table_range start count (length targets)))
        λ u _. mark_all-Sized bs (slice targets start count) h
  mark_table-Sized _ targets bs h = h

  pub mark_instructions-Sized :
      (targets : List ℕ) (instrs : List Instruction) (bs : List Bool)
      → Sized n bs
      → Fine (Sized n) (mark_instructions targets instrs bs)
  unfolding mark_instructions
  mark_instructions-Sized targets [] bs h = h
  mark_instructions-Sized targets (i ∷ is) bs h =
      Fine-bind _ _ (mark_target (instruction_target i) bs) _
        (mark_target-Sized (instruction_target i) bs h)
        λ marked k.
          Fine-bind _ _ (mark_table i targets marked) _ (mark_table-Sized i targets marked k)
            λ tabled j. mark_instructions-Sized targets is tabled j

-- There is something.
abbrev pub Present : {A : Type 0} → (A → Type 0) → Option A → Type 0
Present P none = ⊥
Present P (some a) = P a

rewrite_rounds-Present :
    (s : Setting) (idx : ℕ) (instrs : List Instruction) (bs : List Bool) (out : Output)
    → length instrs ≤ length bs
    → Present (λ _. Unit {0}) (rewrite_rounds s idx instrs bs out)
unfolding rewrite_rounds
rewrite_rounds-Present s idx [] bs out h = tt
rewrite_rounds-Present s idx (i ∷ is) [] out h = absurd (omega arith)
rewrite_rounds-Present s idx (i ∷ is) (b ∷ bs) out h =
    rewrite_rounds-Present s (idx + 1) is bs (rewrite_round s idx b i out) (omega (arith, h))

-- What a fine result has.
abbrev pub Accepted : List Instruction × List ℕ → Type 0
Accepted r = All (InBounds (length r.0) (length r.1)) r.0 × All (λ t. t < length r.0) r.1

finalize-Accepted :
    (instrs : List Instruction) (targets : List ℕ) (map : Option (List ℕ))
    → Fine Accepted (finalize instrs targets map)
finalize-Accepted instrs targets map = accepted (finalize instrs targets map) refl
  where
    accepted :
        (m : Checked (List Instruction × List ℕ))
        → finalize instrs targets map ≡ m
        → Fine Accepted m
    accepted (bad e) h = tt
    accepted (fine r) h =
        let all : (length r.0 ≡ length instrs)
            × All (InBounds (length r.0) (length r.1)) r.0
            × All (λ t. t < length r.0) r.1 =
          finalize-InBounds instrs r.0 targets r.1 map h in
        (all.1, all.2)

-- `optimize_instructions` never panics: it rejects the function, or gives instructions in which the
-- target of every jump and every default of a branch table is one of them, and the range of every
-- branch table lies in the list of targets, which are all among the instructions too. It does so
-- with rewrites and without.
pub optimize_instructions-Accepted :
    (instrs : List Instruction) (targets : List ℕ) (optimize_rewrite : Bool) (results : ValueCounts)
    (self : ℕ)
    → Present (Fine Accepted) (optimize_instructions instrs targets optimize_rewrite results self)
unfolding optimize_instructions target_boundaries rewrite
optimize_instructions-Accepted instrs targets false results self =
    finalize-Accepted instrs targets none
optimize_instructions-Accepted instrs targets true results self =
    within (mark_instructions targets instrs (replicate (length instrs + 1) false)) (
      mark_instructions-Sized (length instrs + 1) targets instrs _
        (length-replicate (length instrs + 1) false))
  where
    setting : Setting
    setting = record {
      source = instrs;
      return_instr = return_instr_for results;
      self_func_addr = self;
    }

    ended :
        (o : Option Output)
        → Present (λ _. Unit {0}) o
        → Present
            (Fine Accepted)
            (finalize_rewritten targets (elim o [ none ↦ none | some out ↦ some (finished out) ]))
    ended none h = absurd h
    ended (some out) h = finalize-Accepted (finished out).0 targets (some (finished out).1)

    within :
        (m : Checked (List Bool))
        → Fine (Sized (length instrs + 1)) m
        → Present (Fine Accepted) (rewrite_within instrs targets results self m)
    within (bad e) h = tt
    within (fine bs) h =
        ended (rewrite_rounds setting 0 instrs bs no_output)
          (rewrite_rounds-Present setting 0 instrs bs no_output (omega (arith, h)))
