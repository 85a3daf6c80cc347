-- ===== src/Executor/Quiet/Fused.antt =====
-- crates/tinywasm/src/interpreter/executor.rs: the instructions on locals leave the function, its
-- module and the fuel as they were.
use tinywasm.Prelude.{ℕ, List}
use tinywasm.Executor.State.{Context, Run}
use tinywasm.Executor.Access.{Slot}
use tinywasm.Executor.Operators.{then_push, then_set, then_tee}
use tinywasm.Executor.Step.{drop, get_push, constant, unary_tee, exec_binop_acc_local}
use tinywasm.Executor.Calm.{
  Calm, bind-Calm, seq-Calm, return-Calm, read-Calm, expect-Calm, stack_pop-Calm, stack_push-Calm,
  local_get-Calm, local_set-Calm, local_update-Calm,
}
use tinywasm.Executor.Quiet.{unary-Calm, local_tee-Calm}

pub drop-Calm : {T : Type 0} (slot : Slot T) → Calm (drop slot)
drop-Calm slot = bind-Calm _ _ (stack_pop-Calm slot) λ _. return-Calm tt

pub exec_binop_acc_local-Calm :
    (slot : Slot ℕ) (acc : ℕ) (mul add : ℕ → ℕ → ℕ) → Calm (exec_binop_acc_local slot acc mul add)
unfolding exec_binop_acc_local
exec_binop_acc_local-Calm slot acc mul add =
    bind-Calm _ _ (stack_pop-Calm slot)
      λ r. bind-Calm _ _ (stack_pop-Calm slot) λ l. local_update-Calm slot acc _

pub constant-Calm :
    (c : ℕ) (use_it : List ℕ → Run (Unit {0}))
    → ((v : List ℕ) → Calm (use_it v))
    → Calm (constant c use_it)
constant-Calm c use_it calm =
    bind-Calm _ _ (read-Calm _) λ found. bind-Calm _ _ (expect-Calm found) calm

module _ (ctx : Context) where
  pub get_push-Calm : {T : Type 0} (slot : Slot T) (i : ℕ) → Calm (get_push ctx slot i)
  get_push-Calm slot i = bind-Calm _ _ (local_get-Calm slot i) λ v. stack_push-Calm slot ctx v

  pub unary_tee-Calm : (slot : Slot ℕ) (local : ℕ) (f : ℕ → ℕ) → Calm (unary_tee ctx slot local f)
  unary_tee-Calm slot local f =
      seq-Calm _ _ (unary-Calm ctx slot slot f) (local_tee-Calm ctx slot local)

  pub then_push-Calm :
      (slot : Slot ℕ) (value : Run ℕ) → Calm value → Calm (then_push ctx slot value)
  then_push-Calm slot value c = bind-Calm _ _ c λ v. stack_push-Calm slot ctx v

  pub then_set-Calm :
      (slot : Slot ℕ) (dst : ℕ) (value : Run ℕ) → Calm value → Calm (then_set slot dst value)
  then_set-Calm slot dst value c = bind-Calm _ _ c λ v. local_set-Calm slot dst v

  pub then_tee-Calm :
      (slot : Slot ℕ) (dst : ℕ) (value : Run ℕ) → Calm value → Calm (then_tee ctx slot dst value)
  then_tee-Calm slot dst value c =
      bind-Calm _ _ c λ v. seq-Calm _ _ (local_set-Calm slot dst v) (stack_push-Calm slot ctx v)
