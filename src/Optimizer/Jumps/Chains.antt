-- ===== src/Optimizer/Jumps/Chains.antt =====
-- crates/parser/src/optimize.rs: `resolve_jump_target` follows the jumps that the interpreter
-- would run.
use tinywasm.Prelude.{ℕ, zero, suc, ◌≡◌, refl, Option, none, some, length, get_elem?, inl, inr, ◌⊎◌}
use tinywasm.Trap.{ok}
use tinywasm.Instructions.{Instruction, jump}
use tinywasm.Executor.State.{Context, Executor, ◌>>=◌, ◌>>◌, expect, read, change, return}
use tinywasm.Executor.Jumps.{set_ip}
use tinywasm.Executor.Step.{exec, exec_instruction}
use tinywasm.Executor.Run.Budget.{Reaches, start, after}
use tinywasm.Optimizer.Jumps.{as_jump, follow, resolve_jump_target}

-- An instruction is a jump or not.
jump_or_not : (o : Option Instruction) → (as_jump o ≡ none) ⊎ ((next : ℕ) × (o ≡ some (jump next)))
jump_or_not (some (jump next)) = inr (next, refl)
jump_or_not (some _) = inl refl
jump_or_not none = inl refl

exec-jump :
    (ctx : Context) (x : Executor) (next : ℕ)
    → get_elem? x.func.instructions x.cf.instr_ptr ≡ some (jump next)
    → exec ctx x ≡ some (ok none, set_ip next x)
unfolding exec exec_instruction ◌>>=◌ ◌>>◌ expect read change return
exec-jump ctx x next e = rw e refl

Reaches-trans :
    {ctx : Context} {x y z : Executor} → Reaches ctx x y → Reaches ctx y z → Reaches ctx x z
Reaches-trans r start = r
Reaches-trans r (after s e) = after (Reaches-trans r s) e

follow-Reaches :
    (ctx : Context) (steps : ℕ) (x : Executor)
    → Reaches ctx x (set_ip (follow x.func.instructions steps x.cf.instr_ptr) x)
unfolding follow
follow-Reaches ctx zero x = start
follow-Reaches ctx (suc steps) x =
    elim (jump_or_not (get_elem? x.func.instructions x.cf.instr_ptr)) [
      | inl e ↦ rw (follow, e) start
      | inr found ↦
          rw (follow, found.1)
            (Reaches-trans (after start (exec-jump ctx x found.0 found.1))
              (follow-Reaches ctx steps (set_ip found.0 x)))
    ]

-- Where `resolve_jump_target` leads, the interpreter gets by its own jumps: from a counter at the
-- target it reaches the same executor with the counter at the resolved target, with nothing else
-- changed, also when the jumps go in a circle.
pub resolve_jump_target-Reaches :
    (ctx : Context) (x : Executor)
    → Reaches ctx x (set_ip (resolve_jump_target x.func.instructions x.cf.instr_ptr) x)
unfolding resolve_jump_target
resolve_jump_target-Reaches ctx x = follow-Reaches ctx (length x.func.instructions) x
