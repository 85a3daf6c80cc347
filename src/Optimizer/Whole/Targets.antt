-- ===== src/Optimizer/Whole/Targets.antt =====
-- crates/parser/src/optimize.rs: the boundaries that `target_boundaries` gives to `rewrite` are those
-- of all targets, so that every target has a place in what is rewritten.
use tinywasm.Prelude.{
  ℕ, zero, suc, ◌+◌, ◌≤◌, ◌<◌, ◌≡◌, refl, ◌∙◌, sym, Bool, true, false, ltb, ltb→lt, Option, none,
  some, List, [], ◌∷◌, length, get_elem?, set, slice, replicate, length-replicate, Bool-cases, inl,
  inr, arith, subst,
}
use tinywasm.Stack.Counts.{ValueCounts}
use tinywasm.Instructions.{Instruction, branch_table}
use tinywasm.Optimizer.Jumps.{instruction_target}
use tinywasm.Optimizer.Finalize.{
  ParseError, Checked, fine, bad, table_range, branch_table_target_out_of_bounds,
  instruction_target_out_of_bounds,
}
use tinywasm.Optimizer.Finalize.Bounds.{Fine, Fine-bind, All}
use tinywasm.Optimizer.Rewrite.{rewrite}
use tinywasm.Optimizer.Rewrite.Boundaries.{Placed, rewrite-Placed}
use tinywasm.Optimizer.Whole.{
  mark, mark_all, mark_target, mark_table, mark_instructions, target_boundaries,
}
use tinywasm.Optimizer.Whole.Checks.{mark_instructions-Sized}

-- There is a boundary at the position.
abbrev Marked : List Bool → ℕ → Type 0
Marked bs t = get_elem? bs t ≡ some true

abbrev Keeps : List Bool → List Bool → Type 0
Keeps bs bs' = (u : ℕ) → Marked bs u → Marked bs' u

set-Keeps : (bs : List Bool) (t : ℕ) → Keeps bs (set bs t true)
set-Keeps [] t u h = h
set-Keeps (b ∷ bs) zero zero h = refl
set-Keeps (b ∷ bs) zero (suc u) h = h
set-Keeps (b ∷ bs) (suc t) zero h = h
set-Keeps (b ∷ bs) (suc t) (suc u) h = set-Keeps bs t u h

set-Marked : (bs : List Bool) (t : ℕ) → t < length bs → Marked (set bs t true) t
set-Marked [] t h = absurd (omega (arith, h))
set-Marked (b ∷ bs) zero h = refl
set-Marked (b ∷ bs) (suc t) h = set-Marked bs t (omega (arith, h))

All-map :
    {A : Type 0} {P Q : A → Type 0} (xs : List A) → ((x : A) → P x → Q x) → All P xs → All Q xs
All-map [] f h = tt
All-map (x ∷ xs) f h = (f x h.0, All-map xs f h.1)

Fine-map :
    {A : Type 0} {P Q : A → Type 0} (m : Checked A) → ((a : A) → P a → Q a) → Fine P m → Fine Q m
Fine-map (fine a) f h = f a h
Fine-map (bad e) f h = tt

-- The target, if there is one, has the property.
abbrev pub AtTarget : (ℕ → Type 0) → Option ℕ → Type 0
AtTarget P none = Unit {0}
AtTarget P (some t) = P t

AtTarget-map :
    {P Q : ℕ → Type 0} (o : Option ℕ) → ((t : ℕ) → P t → Q t) → AtTarget P o → AtTarget Q o
AtTarget-map none f h = tt
AtTarget-map (some t) f h = f t h

-- The targets of a branch table but its default.
abbrev pub entries : List ℕ → Instruction → List ℕ
entries targets (branch_table default_ip start count) = slice targets start count
entries targets _ = []

-- All targets of an instruction have the property.
abbrev pub Targets : (ℕ → Type 0) → List ℕ → Instruction → Type 0
Targets P targets instr = AtTarget P (instruction_target instr) × All P (entries targets instr)

Targets-map :
    {P Q : ℕ → Type 0} (targets : List ℕ) (instr : Instruction)
    → ((t : ℕ) → P t → Q t)
    → Targets P targets instr
    → Targets Q targets instr
Targets-map targets instr f h =
    (AtTarget-map (instruction_target instr) f h.0, All-map (entries targets instr) f h.1)

mark-Marked :
    (error : ℕ → ParseError) (bs : List Bool) (t : ℕ)
    → Fine (λ bs'. Keeps bs bs' × Marked bs' t) (mark error bs t)
unfolding mark
mark-Marked error bs t = elim (Bool-cases (ltb t (length bs))) [
  | inl e ↦ rw e (set-Keeps bs t, set-Marked bs t (ltb→lt _ _ e))
  | inr e ↦ rw e tt
]

mark_all-Marked :
    (bs : List Bool) (ts : List ℕ)
    → Fine (λ bs'. Keeps bs bs' × All (Marked bs') ts) (mark_all bs ts)
unfolding mark_all
mark_all-Marked bs [] = ((λ u h. h), tt)
mark_all-Marked bs (t ∷ ts) =
    Fine-bind _ _ (mark branch_table_target_out_of_bounds bs t) _
      (mark-Marked branch_table_target_out_of_bounds bs t)
      λ marked k.
        Fine-map (mark_all marked ts) (λ bs' j. ((λ u h. j.0 u (k.0 u h)), (j.0 t k.1, j.1)))
          (mark_all-Marked marked ts)

mark_target-Marked :
    (o : Option ℕ) (bs : List Bool)
    → Fine (λ bs'. Keeps bs bs' × AtTarget (Marked bs') o) (mark_target o bs)
mark_target-Marked none bs = ((λ u h. h), tt)
mark_target-Marked (some t) bs = mark-Marked instruction_target_out_of_bounds bs t

anything : {A : Type 0} (m : Checked A) → Fine (λ _. Unit {0}) m
anything (fine a) = tt
anything (bad e) = tt

mark_table-Marked :
    (instr : Instruction) (targets : List ℕ) (bs : List Bool)
    → Fine
        (λ bs'. Keeps bs bs' × All (Marked bs') (entries targets instr))
        (mark_table instr targets bs)
mark_table-Marked (branch_table default_ip start count) targets bs =
    Fine-bind (λ _. Unit {0}) _ (table_range start count (length targets)) _
      (anything (table_range start count (length targets)))
      λ u _. mark_all-Marked bs (slice targets start count)
mark_table-Marked _ targets bs = ((λ u h. h), tt)

mark_instructions-Marked :
    (targets : List ℕ) (instrs : List Instruction) (bs : List Bool)
    → Fine
        (λ bs'. Keeps bs bs' × All (Targets (Marked bs') targets) instrs)
        (mark_instructions targets instrs bs)
unfolding mark_instructions
mark_instructions-Marked targets [] bs = ((λ u h. h), tt)
mark_instructions-Marked targets (i ∷ is) bs =
    Fine-bind _ _ (mark_target (instruction_target i) bs) _
      (mark_target-Marked (instruction_target i) bs)
      λ marked k.
        Fine-bind _ _ (mark_table i targets marked) _ (mark_table-Marked i targets marked)
          λ tabled j.
            Fine-map (mark_instructions targets is tabled)
              (λ bs' l. (
                (λ u h. l.0 u (j.0 u (k.0 u h))),
                (
                  (
                    AtTarget-map (instruction_target i) (λ t h. l.0 t (j.0 t h)) k.1,
                    All-map (entries targets i) l.0 j.1,
                  ),
                  l.1,
                ),
              ))
              (mark_instructions-Marked targets is tabled)

-- The old position has a new one, among `len` instructions or at their end.
abbrev pub HasPlace : (len : ℕ) → List ℕ → ℕ → Type 0
HasPlace len old_to_new t = (p : ℕ) × (get_elem? old_to_new t ≡ some p) × (p ≤ len)

Placed-HasPlace :
    (len : ℕ) (bs : List Bool) (ps : List ℕ)
    → length bs ≡ length ps
    → Placed len bs ps
    → (t : ℕ) → Marked bs t
    → HasPlace len ps t
Placed-HasPlace len [] ps e h t m = absurd cc
Placed-HasPlace len (b ∷ bs) [] e h t m = absurd (omega (arith, e))
Placed-HasPlace len (true ∷ bs) (p ∷ ps) e h zero m = (p, refl, h.0)
Placed-HasPlace len (false ∷ bs) (p ∷ ps) e h zero m = absurd cc
Placed-HasPlace len (true ∷ bs) (p ∷ ps) e h (suc t) m =
    Placed-HasPlace len bs ps (omega (arith, e)) h.1 t m
Placed-HasPlace len (false ∷ bs) (p ∷ ps) e h (suc t) m =
    Placed-HasPlace len bs ps (omega (arith, e)) h t m

-- With the boundaries that `target_boundaries` finds, `rewrite` gives a position for every target:
-- the target of each jump, the default of each branch table and each entry of its range. It is that
-- of one of the new instructions or their end, however many instructions the rules have removed; and
-- there is a position for each old instruction and one for the end.
pub rewrite-target_boundaries :
    (source new : List Instruction) (targets : List ℕ) (boundaries : List Bool)
    (results : ValueCounts) (self : ℕ) (old_to_new : List ℕ)
    → target_boundaries source targets ≡ fine boundaries
    → rewrite source boundaries results self ≡ some (new, old_to_new)
    → (length old_to_new ≡ length source + 1)
      × All (Targets (HasPlace (length new) old_to_new) targets) source
unfolding target_boundaries
rewrite-target_boundaries source new targets boundaries results self old_to_new found rewritten =
    let n : ℕ = length source + 1 in
    let marked : All (Targets (Marked boundaries) targets) source =
      (subst
        (Fine (λ bs'. Keeps (replicate n false) bs' × All (Targets (Marked bs') targets) source))
        found (mark_instructions-Marked targets source (replicate n false))).1 in
    let sized : length boundaries ≡ n =
      subst (Fine (λ bs'. length bs' ≡ n)) found
        (mark_instructions-Sized n targets source (replicate n false) (length-replicate n false)) in
    let placed : (length old_to_new ≡ n) × Placed (length new) boundaries old_to_new =
      rewrite-Placed source new boundaries results self old_to_new rewritten in
    (
      placed.0,
      All-map source
          (λ i.
            Targets-map targets i
              (Placed-HasPlace (length new) boundaries old_to_new (sized ∙ sym placed.0) placed.1))
          marked,
    )
