-- ===== src/Optimizer/Fusion.antt =====
-- crates/parser/src/optimize.rs and crates/tinywasm/src/interpreter/executor.rs: the fused
-- instructions do what the instructions do that the optimizer replaces by them.
pub mod Width32
pub mod Width64
pub mod Matched
pub mod Replaced
pub mod Halves
use tinywasm.Prelude.{
  ℕ, zero, suc, ◌+◌, ◌≤◌, ◌≡◌, refl, ap, ◌∙◌, Bool, true, false, ltb, le→ltb, Option, none, some,
  List, [], ◌∷◌, ◌++◌, length, get_elem?, length-append, arith,
}
use tinywasm.Trap.{Result, ok}
use tinywasm.Stack.Lane
use tinywasm.Stack.Lane.Moving.{pop_lem}
use tinywasm.Instructions.{Instruction}
use tinywasm.Numeric.{exec_binop}
use tinywasm.Executor.State.{
  Context, Executor, Run, ◌>>=◌, ◌>>◌, expect, read, change, return, set_stack,
}
use tinywasm.Executor.Access.{slot_32, slot_64, stack_push, stack_pop, local_get}
use tinywasm.Executor.Operators.{binary, local_local, local_const}
use tinywasm.Executor.Numerics.{exec_numeric}
use tinywasm.Executor.Jumps.{set_ip}
use tinywasm.Executor.Step.{exec_instruction, advance}
use tinywasm.Optimizer.Rules.{rewritten}
use tinywasm.Optimizer.Rewrite.{Setting, rewrite_instruction}

-- Instructions without a jump, one after another.
unfoldable pub straight : Context → List Instruction → Run (Unit {0})
unfolding exec_instruction
straight ctx [] = return tt
straight ctx (instr ∷ instrs) = exec_instruction ctx instr >> straight ctx instrs

-- Two pieces of code do the same, apart from where the counter stands after them.
abbrev pub Same : Context → Executor → (before after : List Instruction) → Type 0
Same ctx x before after =
    (straight ctx before >> change (set_ip 0)) x ≡ (straight ctx after >> change (set_ip 0)) x

pub get-append :
    (xs : List ℕ) (i v w : ℕ) → get_elem? xs i ≡ some v → get_elem? (xs ++ w ∷ []) i ≡ some v
get-append [] i v w e = absurd (none_some e)
  where
    none_some : none ≡ some v → ⊥
    none_some e = cc
get-append (x ∷ xs) zero v w e = e
get-append (x ∷ xs) (suc i) v w e = get-append xs i v w e

module _ (ctx : Context) where
  pub run_cons :
      (instr : Instruction) (instrs : List Instruction) (x y : Executor)
      → exec_instruction ctx instr x ≡ some (ok none, y)
      → straight ctx (instr ∷ instrs) x ≡ straight ctx instrs y
  unfolding straight ◌>>◌
  run_cons instr instrs x y e = rw (straight, e) refl

  pub run_nil : (x : Executor) → straight ctx [] x ≡ some (ok tt, x)
  unfolding straight return
  run_nil x = refl

  -- Two pieces of code that end at the same place of the same executor.
  pub both :
      (before after : List Instruction) (x y z : Executor)
      → straight ctx before x ≡ some (ok tt, y)
      → straight ctx after x ≡ some (ok tt, z)
      → set_ip 0 y ≡ set_ip 0 z
      → Same ctx x before after
  unfolding ◌>>◌ change
  both before after x y z e f g = rw (e, f) (ap (λ t. some (ok tt, t)) g)
