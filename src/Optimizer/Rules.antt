-- ===== src/Optimizer/Rules.antt =====
-- crates/parser/src/macros.rs: `rewrite!`, `replace!` and the rules on locals. A block is the output
-- from `block_start` on, its last instruction first; a rule finds what it consumes at its end, in
-- front of the instruction that is being added, and gives the block that replaces both.
pub mod Views
pub mod Locals
pub mod Locals64
pub mod Branches
use tinywasm.Prelude.{
  ℕ, Bool, true, false, not, ◌==◌, ◌||◌, ◌&&◌, if◌then◌else◌, Option, none, some, List, [], ◌∷◌,
}
use tinywasm.Instructions.{Instruction, BinOp, i_add, i_sub}

abbrev pub Rule : Type 0
Rule = List Instruction → Option (List Instruction)

infixl 5 ◌>>=◌
abbrev pub ◌>>=◌ {ℓ κ} : {A : Type ℓ} {B : Type κ} → Option A → (A → Option B) → Option B
none >>= f = none
some a >>= f = f a

-- The rules are tried in order until one has rewritten the tail; else the instruction is added.
unfoldable pub rewritten : List Rule → Instruction → List Instruction → List Instruction
rewritten [] instr block = instr ∷ block
rewritten (rule ∷ rules) instr block = elim (rule block) [
  | some out ↦ out
  | none ↦ rewritten rules instr block
]

-- `[p] => out` and `[p, q] => out`, for views that give what the patterns bind
unfoldable pub one : {A : Type 0} → (Instruction → Option A) → (A → Instruction) → Rule
one view make [] = none
one view make (x ∷ rest) = view x >>= λ a. some (make a ∷ rest)

unfoldable pub two :
    {A B : Type 0}
    → (Instruction → Option A)
    → (Instruction → Option B)
    → (A → B → Option Instruction)
    → Rule
two first second make [] = none
two first second make (y ∷ []) = none
two first second make (y ∷ x ∷ rest) =
    first x >>= λ a. second y >>= λ b. make a b >>= λ out. some (out ∷ rest)

unfoldable pub three :
    {A B C : Type 0}
    → (Instruction → Option A)
    → (Instruction → Option B)
    → (Instruction → Option C)
    → (A → B → C → Option Instruction)
    → Rule
three first second third make [] = none
three first second third make (z ∷ []) = none
three first second third make (z ∷ y ∷ []) = none
three first second third make (z ∷ y ∷ x ∷ rest) =
    first x >>= λ a. second y >>= λ b. third z >>= λ c. make a b c >>= λ out. some (out ∷ rest)

-- A rule of a set of rules that needs a condition on the operation.
unfoldable pub only_if : Bool → Rule → Rule
only_if condition rule block = if condition then rule block else none

-- `instrs.extend(instr)`
abbrev pub extended : Option Instruction → List Instruction → List Instruction
extended none block = block
extended (some i) block = i ∷ block

abbrev is_none : {A : Type 0} → Option A → Bool
is_none none = true
is_none (some a) = false

-- What `fold_local_binop!` is given.
pub record Fold : Type 0 where
  pub source : Instruction → Option (Option Instruction × ℕ)
  pub const : (instr op_instr : Instruction) → Option ℕ
  pub local_local : BinOp → (lhs rhs dst : ℕ) → Instruction
  pub local_const : (dst lhs : ℕ) → BinOp → (imm : ℕ) → Instruction

-- `fold_local_binop!`, with `scalar_bin_op` as the operations
unfoldable pub fold_local_binop : (Instruction → Option BinOp) → Fold → (dst : ℕ) → Rule
fold_local_binop op_of f dst (raw_op ∷ rhs_src ∷ lhs_src ∷ rest) = do
  lhs ← f.source lhs_src
  op ← op_of raw_op
  elim (f.source rhs_src) [
    | some rhs ↦
        if is_none rhs.0 || not (rhs.1 == lhs.1)
        then some (f.local_local op lhs.1 rhs.1 dst ∷ extended rhs.0 (extended lhs.0 rest))
        else none
    | none ↦ f.const rhs_src raw_op >>= λ imm.
        some (f.local_const dst lhs.1 op imm ∷ extended lhs.0 rest)
  ]
fold_local_binop op_of f dst (raw_op ∷ rhs_src ∷ []) = none
fold_local_binop op_of f dst (raw_op ∷ []) = none
fold_local_binop op_of f dst [] = none

-- `[get(src)] if src == dst` in front of `set(dst)`: both go.
unfoldable pub drop_self_set : (Instruction → Option ℕ) → (dst : ℕ) → Rule
drop_self_set get dst [] = none
drop_self_set get dst (x ∷ rest) = get x >>= λ src. if src == dst then some rest else none

-- An increment when the local is its own destination.
abbrev pub inc_or :
    (inc : ℕ → ℕ → Instruction) (neg : ℕ → ℕ) (set : BinOp → ℕ → ℕ → ℕ → Instruction)
    → (dst src : ℕ) → BinOp
    → ℕ
    → Instruction
inc_or inc neg set dst src i_add c = if dst == src then inc dst c else set i_add src c dst
inc_or inc neg set dst src i_sub c = if dst == src then inc dst (neg c) else set i_sub src c dst
inc_or inc neg set dst src op c = set op src c dst
