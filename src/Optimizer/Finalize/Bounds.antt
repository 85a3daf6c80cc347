-- ===== src/Optimizer/Finalize/Bounds.antt =====
-- crates/parser/src/optimize.rs: `finalize` leaves no target out of bounds.
use tinywasm.Prelude.{
  ℕ, suc, ◌+◌, ◌%◌, ◌^◌, ◌≤◌, ◌<◌, ◌≡◌, refl, if◌then◌else◌, ltb, leb, leb→lt, ltb→le, Option, none,
  some, List, [], ◌∷◌, length, Bool-cases, inl, inr, ap, subst, arith,
}
use tinywasm.Instructions.{
  Instruction, jump, jump_if_zero_32, jump_if_non_zero_32, jump_if_zero_64, jump_if_non_zero_64,
  jump_if_local_zero_32, jump_if_local_non_zero_32, jump_if_local_zero_64,
  jump_if_local_non_zero_64, jump_cmp_stack_const_32, jump_cmp_stack_const_64,
  jump_cmp_local_const_32, jump_cmp_local_const_64, jump_cmp_local_local_32,
  jump_cmp_local_local_64, branch_table,
}
use tinywasm.Optimizer.Jumps.{instruction_target, set_target}
use tinywasm.Optimizer.Finalize.{
  ParseError, instruction_target_out_of_bounds, branch_table_target_out_of_bounds, Checked, fine,
  bad, remap, finalize_target, finalize_targets, table_range, check_table, finalize_instruction,
  finalize_instructions, finalize, ◌>>=◌,
}

-- What holds of a result that is fine.
abbrev pub Fine : {A : Type 0} → (A → Type 0) → Checked A → Type 0
Fine P (fine a) = P a
Fine P (bad e) = Unit {0}

pub Fine-bind :
    {A B : Type 0} (P : A → Type 0) (Q : B → Type 0) (m : Checked A) (f : A → Checked B)
    → Fine P m
    → ((a : A) → P a → Fine Q (f a))
    → Fine Q (m >>= f)
Fine-bind P Q (fine a) f h k = k a h
Fine-bind P Q (bad e) f h k = tt

abbrev pub All : {A : Type 0} → (A → Type 0) → List A → Type 0
All P [] = Unit {0}
All P (x ∷ xs) = P x × All P xs

-- A target, if there is one, is below the bound.
abbrev pub Below : ℕ → Option ℕ → Type 0
Below len none = Unit {0}
Below len (some target) = target < len

-- The range of a branch table ends within so many targets.
abbrev pub RangeWithin : ℕ → Instruction → Type 0
RangeWithin targets (branch_table default_ip start count) = start + count ≤ targets
RangeWithin targets _ = Unit {0}

abbrev pub InBounds : (len targets : ℕ) → Instruction → Type 0
InBounds len targets instr = Below len (instruction_target instr) × RangeWithin targets instr

finalize_target-Fine :
    (map : Option (List ℕ)) (len : ℕ) (error : ℕ → ParseError) (target : ℕ)
    → Fine (λ t. t < len) (finalize_target map len error target)
unfolding finalize_target
finalize_target-Fine map len error target =
    Fine-bind (λ _. Unit {0}) _ (remap map target) _ (any (remap map target)) λ t _. below t
  where
    any : (m : Checked ℕ) → Fine (λ _. Unit {0}) m
    any (fine a) = tt
    any (bad e) = tt

    below : (t : ℕ) → Fine (λ t. t < len) (if leb len t then bad (error t) else fine t)
    below t = elim (Bool-cases (leb len t)) [ inl e ↦ rw e tt | inr e ↦ rw e (leb→lt len t e) ]

finalize_targets-Fine :
    (map : Option (List ℕ)) (len : ℕ) (targets : List ℕ)
    → Fine (All λ t. t < len) (finalize_targets map len targets)
unfolding finalize_targets
finalize_targets-Fine map len [] = tt
finalize_targets-Fine map len (t ∷ ts) =
    Fine-bind _ _ (finalize_target map len branch_table_target_out_of_bounds t) _
      (finalize_target-Fine map len branch_table_target_out_of_bounds t)
      λ new h.
        Fine-bind _ _ (finalize_targets map len ts) _ (finalize_targets-Fine map len ts)
          λ rest hs. (h, hs)

set_target-Below :
    (len t : ℕ) (instr : Instruction)
    → t < len
    → Below len (instruction_target (set_target t instr))
unfolding instruction_target set_target
set_target-Below len t (jump ip) h = h
set_target-Below len t (jump_if_zero_32 ip) h = h
set_target-Below len t (jump_if_non_zero_32 ip) h = h
set_target-Below len t (jump_if_zero_64 ip) h = h
set_target-Below len t (jump_if_non_zero_64 ip) h = h
set_target-Below len t (jump_if_local_zero_32 ip local) h = h
set_target-Below len t (jump_if_local_zero_64 ip local) h = h
set_target-Below len t (jump_if_local_non_zero_32 ip local) h = h
set_target-Below len t (jump_if_local_non_zero_64 ip local) h = h
set_target-Below len t (jump_cmp_stack_const_32 ip imm op) h = h
set_target-Below len t (jump_cmp_local_const_32 ip local imm op) h = h
set_target-Below len t (jump_cmp_local_local_32 ip left right op) h = h
set_target-Below len t (jump_cmp_stack_const_64 ip imm op) h = h
set_target-Below len t (jump_cmp_local_const_64 ip local imm op) h = h
set_target-Below len t (jump_cmp_local_local_64 ip left right op) h = h
set_target-Below len t (branch_table ip start count) h = h
set_target-Below len t _ h = tt

table_range-Fine :
    (start count targets : ℕ)
    → Fine (λ _. start + count ≤ targets) (table_range start count targets)
table_range-Fine start count targets = elim (Bool-cases (leb (2 ^ 32) (start + count))) [
  | inl e ↦ rw e tt
  | inr e ↦ elim (Bool-cases (ltb targets (start + count))) [
    | inl f ↦ rw (e, f) tt
    | inr f ↦ rw (e, f) (ltb→le targets (start + count) f)
  ]
]

check_table-Fine :
    (targets : ℕ) (instr : Instruction)
    → Fine (λ _. RangeWithin targets instr) (check_table targets instr)
check_table-Fine targets (branch_table default_ip start count) =
    table_range-Fine start count targets
check_table-Fine targets _ = tt

finalize_instruction-Fine :
    (map : Option (List ℕ)) (len targets : ℕ) (instr : Instruction)
    → Fine (InBounds len targets) (finalize_instruction map len targets instr)
unfolding finalize_instruction
finalize_instruction-Fine map len targets instr =
    Fine-bind (λ new. Below len (instruction_target new)) _ _ _
      (retargeted (instruction_target instr) refl)
      λ new h.
        Fine-bind _ _ (check_table targets new) _ (check_table-Fine targets new) λ u r. (h, r)
  where
    retargeted :
        (o : Option ℕ)
        → instruction_target instr ≡ o
        → Fine
            (λ new. Below len (instruction_target new))
            (elim o [
              | none ↦ fine instr
              | some target ↦
                  finalize_target map len instruction_target_out_of_bounds target >>= λ t.
                  fine (set_target t instr)
            ])
    retargeted none e = rw e tt
    retargeted (some target) e =
        Fine-bind _ _ (finalize_target map len instruction_target_out_of_bounds target) _
          (finalize_target-Fine map len instruction_target_out_of_bounds target)
          λ t h. set_target-Below len t instr h

-- As many instructions, each in bounds.
abbrev Whole : (len targets n : ℕ) → List Instruction → Type 0
Whole len targets n instrs = (length instrs ≡ n) × All (InBounds len targets) instrs

finalize_instructions-Fine :
    (map : Option (List ℕ)) (len targets : ℕ) (instrs : List Instruction)
    → Fine (Whole len targets (length instrs)) (finalize_instructions map len targets instrs)
unfolding finalize_instructions
finalize_instructions-Fine map len targets [] = (refl, tt)
finalize_instructions-Fine map len targets (instr ∷ instrs) =
    Fine-bind _ _ (finalize_instruction map len targets instr) _
      (finalize_instruction-Fine map len targets instr)
      λ new h.
        Fine-bind _ _ (finalize_instructions map len targets instrs) _
          (finalize_instructions-Fine map len targets instrs) λ rest hs. (ap suc hs.0, (h, hs.1))

finalize-Fine :
    (instrs : List Instruction) (branch_table_targets : List ℕ) (map : Option (List ℕ))
    → Fine
        (λ out.
          Whole (length instrs % 2 ^ 32) (length out.1) (length instrs) out.0
          × All (λ t. t < length instrs % 2 ^ 32) out.1)
        (finalize instrs branch_table_targets map)
unfolding finalize
finalize-Fine instrs branch_table_targets map =
    let len : ℕ = length instrs % 2 ^ 32 in
    Fine-bind _ _ (finalize_targets map len branch_table_targets) _
      (finalize_targets-Fine map len branch_table_targets)
      λ targets h.
        Fine-bind _ _ (finalize_instructions map len (length targets) instrs) _
          (finalize_instructions-Fine map len (length targets) instrs) λ new hs. (hs, h)

Below-le : (m n : ℕ) (o : Option ℕ) → m ≤ n → Below m o → Below n o
Below-le m n none h b = tt
Below-le m n (some t) h b = omega (arith, h, b)

widen :
    (m n targets : ℕ) (instrs : List Instruction)
    → m ≤ n
    → All (InBounds m targets) instrs
    → All (InBounds n targets) instrs
widen m n targets [] h a = tt
widen m n targets (i ∷ is) h a =
    ((Below-le m n (instruction_target i) h a.0.0, a.0.1), widen m n targets is h a.1)

widen_targets : (m n : ℕ) (ts : List ℕ) → m ≤ n → All (λ t. t < m) ts → All (λ t. t < n) ts
widen_targets m n [] h a = tt
widen_targets m n (t ∷ ts) h a = (omega (arith, h, a.0), widen_targets m n ts h a.1)

-- When `finalize` accepts a function, with or without a rewrite before it, there are as many
-- instructions as before; the target of every jump and every default of a branch table is one of
-- them, and so is every target of a branch table; and the range of every branch table lies in the
-- list of targets.
pub finalize-InBounds :
    (instrs new : List Instruction) (branch_table_targets targets : List ℕ) (map : Option (List ℕ))
    → finalize instrs branch_table_targets map ≡ fine (new, targets)
    → (length new ≡ length instrs)
      × All (InBounds (length new) (length targets)) new
      × All (λ t. t < length new) targets
finalize-InBounds instrs new branch_table_targets targets map e =
    let h : Whole (length instrs % 2 ^ 32) (length targets) (length instrs) new
        × All (λ t. t < length instrs % 2 ^ 32) targets =
      subst
        (Fine (λ out.
          Whole (length instrs % 2 ^ 32) (length out.1) (length instrs) out.0
          × All (λ t. t < length instrs % 2 ^ 32) out.1))
        e (finalize-Fine instrs branch_table_targets map) in
    let le : length instrs % 2 ^ 32 ≤ length new = omega (arith, h.0.0) in
    (
      h.0.0,
      widen (length instrs % 2 ^ 32) (length new) (length targets) new le h.0.1,
      widen_targets (length instrs % 2 ^ 32) (length new) targets le h.1,
    )
