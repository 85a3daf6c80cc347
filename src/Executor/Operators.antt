-- ===== src/Executor/Operators.antt =====
-- crates/tinywasm/src/interpreter/executor.rs: the macros `stack_op!` and `binop!` of `exec`.
use tinywasm.Prelude.{ℕ, Option}
use tinywasm.Trap.{Result}
use tinywasm.Stack.Values.{TinyWasmValue}
use tinywasm.Instructions.{BinOp}
use tinywasm.Numeric.{exec_binop}
use tinywasm.Executor.State.{Context, Run, ◌>>=◌, ◌>>◌, return, lift, expect}
use tinywasm.Executor.Access.{
  Slot, slot_64, stack_push, stack_pop, stack_peek, local_get, local_set, get_global,
}

-- `stack_op!`: `unary`, `binary`, `binary try`, `ternary`, `local_set_pop`, `local_tee`
unfoldable pub unary : Context → (from to : Slot ℕ) → (ℕ → ℕ) → Run (Unit {0})
unfolding stack_pop stack_push
unary ctx from to f = do v ← stack_pop from; stack_push ctx to (f v)

unfoldable pub binary : Context → (from to : Slot ℕ) → (ℕ → ℕ → ℕ) → Run (Unit {0})
unfolding stack_pop stack_push
binary ctx from to f = do rhs ← stack_pop from; lhs ← stack_pop from; stack_push ctx to (f lhs rhs)

unfoldable pub binary_try : Context → Slot ℕ → (ℕ → ℕ → Result ℕ) → Run (Unit {0})
unfolding stack_pop stack_push
binary_try ctx slot f = do
  rhs ← stack_pop slot
  lhs ← stack_pop slot
  value ← lift (f lhs rhs)
  stack_push ctx slot value

unfoldable pub binary_into2 : Context → (ℕ → ℕ → ℕ × ℕ) → Run (Unit {0})
unfolding stack_pop stack_push
binary_into2 ctx f = do
  rhs ← stack_pop slot_64
  lhs ← stack_pop slot_64
  let out : ℕ × ℕ = f lhs rhs
  stack_push ctx slot_64 out.0
  stack_push ctx slot_64 out.1

unfoldable pub ternary : Context → Slot ℕ → (ℕ → ℕ → ℕ → ℕ) → Run (Unit {0})
unfolding stack_pop stack_push
ternary ctx slot f = do
  c ← stack_pop slot
  b ← stack_pop slot
  a ← stack_pop slot
  stack_push ctx slot (f a b c)

unfoldable pub quaternary_into2 : Context → (ℕ → ℕ → ℕ → ℕ → ℕ × ℕ) → Run (Unit {0})
unfolding stack_pop stack_push
quaternary_into2 ctx f = do
  d ← stack_pop slot_64
  c ← stack_pop slot_64
  b ← stack_pop slot_64
  a ← stack_pop slot_64
  let out : ℕ × ℕ = f a b c d
  stack_push ctx slot_64 out.0
  stack_push ctx slot_64 out.1

unfoldable pub local_set_pop : {T : Type 0} → Slot T → ℕ → Run (Unit {0})
unfolding stack_pop local_set
local_set_pop slot index = do val ← stack_pop slot; local_set slot index val

unfoldable pub local_tee : {T : Type 0} → Slot T → ℕ → Run (Unit {0})
unfolding stack_peek local_set
local_tee slot index = do val ← stack_peek slot; local_set slot index val

-- `binop!`: the operands and the place of the result
unfoldable pub local_local : Context → Slot ℕ → ℕ → BinOp → (a b : ℕ) → Run ℕ
unfolding local_get exec_binop
local_local ctx slot bits op a b = do
  lhs ← local_get slot a
  rhs ← local_get slot b
  return (exec_binop ctx.floats bits op lhs rhs)

unfoldable pub local_const : Context → Slot ℕ → ℕ → BinOp → (local c : ℕ) → Run ℕ
unfolding local_get exec_binop
local_const ctx slot bits op local c = do
  lhs ← local_get slot local
  return (exec_binop ctx.floats bits op lhs c)

abbrev pub then_push : Context → Slot ℕ → Run ℕ → Run (Unit {0})
then_push ctx slot value = do v ← value; stack_push ctx slot v

abbrev pub then_set : Slot ℕ → ℕ → Run ℕ → Run (Unit {0})
then_set slot dst value = do v ← value; local_set slot dst v

abbrev pub then_tee : Context → Slot ℕ → ℕ → Run ℕ → Run (Unit {0})
then_tee ctx slot dst value = do v ← value; local_set slot dst v; stack_push ctx slot v

-- The global is read before the operand is popped; its value has the size of the lane.
unfoldable pub stack_global :
    Context → Slot ℕ → ℕ → (TinyWasmValue → Option ℕ) → BinOp → (global : ℕ) → Run (Unit {0})
unfolding get_global stack_pop stack_push exec_binop
stack_global ctx slot bits as_bits op global = do
  found ← get_global global
  global_val ← expect (as_bits found.value)
  stack_val ← stack_pop slot
  stack_push ctx slot (exec_binop ctx.floats bits op stack_val global_val)
