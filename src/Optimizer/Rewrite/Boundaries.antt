-- ===== src/Optimizer/Rewrite/Boundaries.antt =====
-- crates/parser/src/optimize.rs: where `rewrite` puts the targets of jumps.
use tinywasm.Prelude.{
  ℕ, suc, ◌+◌, ◌%◌, ◌^◌, ◌≤◌, ◌≡◌, refl, sym, ◌∙◌, ap, Bool, true, false, ◌||◌, Option, none, some,
  List, [], ◌∷◌, ◌++◌, length, append_assoc, append_nil, length-append, subst, arith,
}
use tinywasm.Stack.Counts.{ValueCounts}
use tinywasm.Stack.ValueStack.RoundTrip.{reverse}
use tinywasm.Instructions.{Instruction}
use tinywasm.Optimizer.Rewrite.{
  Setting, Output, instructions, start_block, rewrite_round, rewrite_rounds, no_output, finished,
  rewrite, return_instr_for,
}

-- The positions at the boundaries are at most `n`.
abbrev pub Placed : ℕ → List Bool → List ℕ → Type 0
Placed n [] positions = Unit {0}
Placed n (b ∷ bs) [] = Unit {0}
Placed n (true ∷ bs) (p ∷ ps) = (p ≤ n) × Placed n bs ps
Placed n (false ∷ bs) (p ∷ ps) = Placed n bs ps

-- What the rounds add: a position for each instruction, those of boundaries within what stands
-- before the last block.
record Added (count : ℕ) (bs : List Bool) (out out' : Output) : Type 0 where
  positions : List ℕ
  appended : out'.old_to_new ≡ out.old_to_new ++ positions
  counted : length positions ≡ count
  placed : Placed (length out'.before) bs positions
  grown : length out.before ≤ length out'.before

abbrev Given : {A : Type 0} → (A → Type 0) → Option A → Type 0
Given P none = Unit {0}
Given P (some a) = P a

Given-map :
    {A : Type 0} {P Q : A → Type 0} (o : Option A) → ((a : A) → P a → Q a) → Given P o → Given Q o
Given-map none f g = tt
Given-map (some a) f g = f a g

-- The head of the positions, at a boundary or not.
Placed-cons :
    (n p : ℕ) (b : Bool) (bs : List Bool) (ps : List ℕ)
    → Placed (n) (b ∷ []) (p ∷ [])
    → Placed n bs ps
    → Placed n (b ∷ bs) (p ∷ ps)
Placed-cons n p true bs ps h hs = (h.0, hs)
Placed-cons n p false bs ps h hs = hs

-- A block that starts keeps what is there.
start_block-grows :
    (b : Bool) (out : Output) → length out.before ≤ length (start_block b out).before
start_block-grows true out =
    let size : length (out.before ++ reverse out.block)
        ≡ length out.before + length (reverse out.block) =
      length-append out.before (reverse out.block) in
    omega (arith, size)
start_block-grows false out = omega arith

position :
    (n : ℕ) (b t : Bool) (out : Output)
    → length (start_block (b || t) out).before ≤ n
    → Placed n (b ∷ []) (length (instructions (start_block (b || t) out)) % 2 ^ 32 ∷ [])
position n true t out h =
    let size : length ((out.before ++ reverse out.block) ++ [])
        ≡ length (out.before ++ reverse out.block) + 0 =
      length-append (out.before ++ reverse out.block) [] in
    (omega (arith, size, h), tt)
position n false t out h = tt

rewrite_rounds-Added :
    (s : Setting) (idx : ℕ) (instrs : List Instruction) (bs : List Bool) (out : Output)
    → Given (Added (length instrs) bs out) (rewrite_rounds s idx instrs bs out)
unfolding rewrite_rounds rewrite_round
rewrite_rounds-Added s idx [] bs out = record {
  positions = [];
  appended = sym (append_nil out.old_to_new);
  counted = refl;
  placed = none_placed _ bs;
  grown = omega arith;
}
  where
    none_placed : (n : ℕ) (bs : List Bool) → Placed n bs []
    none_placed n [] = tt
    none_placed n (b ∷ bs) = tt
rewrite_rounds-Added s idx (instr ∷ instrs) [] out = tt
rewrite_rounds-Added s idx (instr ∷ instrs) (b ∷ bs) out =
    let o : Output = start_block (b || out.after_terminator) out in
    let p : ℕ = length (instructions o) % 2 ^ 32 in
    let next : Output = rewrite_round s idx b instr out in
    let old : o.old_to_new ≡ out.old_to_new = kept (b || out.after_terminator) in
    Given-map (rewrite_rounds s (idx + 1) instrs bs next)
      (λ out' a.
        let more : length out.before ≤ length o.before = start_block-grows _ out in
        let within : length o.before ≤ length out'.before = a.grown in
        record {
          positions = p ∷ a.positions;
          appended =
              a.appended
              ∙ ap (λ (l : List ℕ). (l ++ p ∷ []) ++ a.positions) old
              ∙ append_assoc out.old_to_new (p ∷ []) a.positions;
          counted = ap suc a.counted;
          placed =
              Placed-cons _ p b bs a.positions
                (position (length out'.before) b out.after_terminator out a.grown) a.placed;
          grown = omega (arith, more, within);
        })
      (rewrite_rounds-Added s (idx + 1) instrs bs next)
  where
    kept : (c : Bool) → (start_block c out).old_to_new ≡ out.old_to_new
    kept true = refl
    kept false = refl

-- One more position, behind the others.
Placed-snoc :
    (m n e : ℕ) (bs : List Bool) (ps : List ℕ)
    → m ≤ n
    → e ≤ n
    → Placed m bs ps
    → Placed n bs (ps ++ e ∷ [])
Placed-snoc m n e [] ps h k p = tt
Placed-snoc m n e (true ∷ []) [] h k p = (k, tt)
Placed-snoc m n e (true ∷ b ∷ bs) [] h k p = (k, tt)
Placed-snoc m n e (false ∷ []) [] h k p = tt
Placed-snoc m n e (false ∷ b ∷ bs) [] h k p = tt
Placed-snoc m n e (true ∷ bs) (q ∷ ps) h k p =
    (omega (arith, h, p.0), Placed-snoc m n e bs ps h k p.1)
Placed-snoc m n e (false ∷ bs) (q ∷ ps) h k p = Placed-snoc m n e bs ps h k p

-- What `rewrite` gives for each instruction, and for the end.
abbrev Mapped : List Instruction → List Bool → List Instruction × List ℕ → Type 0
Mapped source bs r = (length r.1 ≡ length source + 1) × Placed (length r.0) bs r.1

finished-Mapped :
    (source : List Instruction) (bs : List Bool) (out : Output)
    → Added (length source) bs no_output out
    → Mapped source bs (finished out)
finished-Mapped source bs out a =
    let n : ℕ = length (instructions out) in
    let size : n ≡ length out.before + length (reverse out.block) =
      length-append out.before (reverse out.block) in
    let all : length (out.old_to_new ++ n % 2 ^ 32 ∷ []) ≡ length out.old_to_new + 1 =
      length-append out.old_to_new (n % 2 ^ 32 ∷ []) in
    let many : length out.old_to_new ≡ length source = ap length a.appended ∙ a.counted in
    (
      omega (arith, all, many),
      subst (λ l. Placed n bs (l ++ n % 2 ^ 32 ∷ [])) (sym a.appended)
          (Placed-snoc (length out.before) n (n % 2 ^ 32) bs a.positions (omega (arith, size))
            (omega arith) a.placed),
    )

rewrite-Given :
    (source : List Instruction) (bs : List Bool) (results : ValueCounts) (self : ℕ)
    → Given (Mapped source bs) (rewrite source bs results self)
unfolding rewrite
rewrite-Given source bs results self =
    ended (rewrite_rounds setting 0 source bs no_output)
      (rewrite_rounds-Added setting 0 source bs no_output)
  where
    setting : Setting
    setting = record {
      source = source;
      return_instr = return_instr_for results;
      self_func_addr = self;
    }

    ended :
        (o : Option Output)
        → Given (Added (length source) bs no_output) o
        → Given (Mapped source bs) (elim o [ none ↦ none | some out ↦ some (finished out) ])
    ended none h = tt
    ended (some out) h = finished-Mapped source bs out h

-- `rewrite` gives a position for each old instruction and one for the end, and the position of
-- every boundary is one of the new instructions or their end.
pub rewrite-Placed :
    (source new : List Instruction) (boundaries : List Bool) (results : ValueCounts) (self : ℕ)
    (old_to_new : List ℕ)
    → rewrite source boundaries results self ≡ some (new, old_to_new)
    → (length old_to_new ≡ length source + 1) × Placed (length new) boundaries old_to_new
rewrite-Placed source new boundaries results self old_to_new e =
    subst (Given (Mapped source boundaries)) e (rewrite-Given source boundaries results self)
