-- ===== src/Executor/Step.antt =====
-- crates/tinywasm/src/interpreter/executor.rs: `exec`, one instruction. The answer is `some` when
-- the run is over.
use tinywasm.Prelude.{ℕ, ◌+◌, bit_and, Bool, if◌then◌else◌, Option, none, some, List, get_elem?}
use tinywasm.Trap
use tinywasm.Trap.{Result, ok}
use tinywasm.Stack.Counts.{ValueCounts}
use tinywasm.Stack.Values.{value_64, value_128, as_32, as_64}
use tinywasm.Stack.ValueStack
use tinywasm.Stack.ValueStack.{ValueStack}
use tinywasm.Instructions.{
  Instruction, local_copy_32, local_copy_64, local_copy_128, add_const_32, add_const_64,
  inc_local_32, inc_local_64, bin_op_local_local_32, bin_op_local_local_64,
  bin_op_local_local_set_32, bin_op_local_local_set_64, bin_op_local_local_tee_32,
  bin_op_local_local_tee_64, bin_op_local_const_32, bin_op_local_const_64,
  bin_op_local_const_set_32, bin_op_local_const_set_64, bin_op_local_const_tee_32,
  bin_op_local_const_tee_64, bin_op_stack_global_32, bin_op_stack_global_64, set_local_const_32,
  set_local_const_64, set_local_const_128, and_const_tee_32, sub_const_tee_32, and_const_tee_64,
  sub_const_tee_64, mul_acc_local_32, mul_acc_local_64, f_mul_acc_local_32, f_mul_acc_local_64,
  unreachable, jump, jump_if_zero_32, jump_if_non_zero_32, jump_if_zero_64, jump_if_non_zero_64,
  jump_if_local_zero_32, jump_if_local_non_zero_32, jump_if_local_zero_64,
  jump_if_local_non_zero_64, jump_cmp_stack_const_32, jump_cmp_stack_const_64,
  jump_cmp_local_const_32, jump_cmp_local_const_64, jump_cmp_local_local_32,
  jump_cmp_local_local_64, drop_keep, branch_table, return, return_void, return_32, return_64,
  return_128, call, call_self, return_call, return_call_self, drop_32, drop_64, drop_128, select_32,
  select_64, select_128, select_multi, global_get, global_set_32, global_set_64, global_set_128,
  local_get_32, local_set_32, local_tee_32, local_get_64, local_set_64, local_tee_64, local_get_128,
  local_set_128, local_tee_128, const_32, const_64, const_128, numeric,
}
use tinywasm.Numeric
use tinywasm.Numeric.{extend}
use tinywasm.Executor.State
use tinywasm.Executor.State.{Context, Executor, Run, ◌>>=◌, ◌>>◌, trap, expect, read, change}
use tinywasm.Executor.Access.{
  Slot, slot_32, slot_64, slot_128, stack_push, stack_pop, local_get, local_set, local_update,
  local_copy, on_stack, exec_global_get, exec_global_set, exec_global_set_32,
}
use tinywasm.Executor.Operators.{
  unary, local_set_pop, local_tee, local_local, local_const, then_push, then_set, then_tee,
  stack_global,
}
use tinywasm.Executor.Numerics.{exec_numeric}
use tinywasm.Executor.Jumps.{
  set_ip, exec_jump_zero, exec_jump_non_zero, exec_jump_local_zero, exec_jump_local_non_zero,
  exec_jump_cmp_stack_const, exec_jump_cmp_local_const, exec_jump_cmp_local_local,
  exec_branch_table, exec_drop_keep,
}
use tinywasm.Executor.Calls.{
  exec_call_direct, exec_return_call_direct, exec_call_self, exec_return_call_self, exec_return,
  exec_return_void, exec_return_32, exec_return_64, exec_return_128,
}

-- After the match, the counter moves to the next instruction.
abbrev pub advance : Executor → Executor
advance x = set_ip (x.cf.instr_ptr + 1) x

abbrev pub next : Run (Unit {0}) → Run (Option (Unit {0}))
next run = do run; change advance; State.return none

-- `return Ok(None)` without that
abbrev pub here : Run (Unit {0}) → Run (Option (Unit {0}))
here run = do run; State.return none

-- ... when the jump is taken
abbrev pub unless : Run Bool → Run (Option (Unit {0}))
unless jumped = do taken ← jumped; change (λ x. if taken then x else advance x); State.return none

-- `return Ok(Some(()))` when the run is over
abbrev pub ending : Run Bool → Run (Option (Unit {0}))
ending over = do is_over ← over; State.return (if is_over then some tt else none)

abbrev pub drop : {T : Type 0} → Slot T → Run (Unit {0})
drop slot = do _ ← stack_pop slot; State.return tt

abbrev pub quiet : ValueCounts → ValueStack → Option (Result (Unit {0}) × ValueStack)
quiet counts s = elim (ValueStack.select_multi s counts) [
  | none ↦ none
  | some s' ↦ some (ok tt, s')
]

abbrev pub get_push : {T : Type 0} → Context → Slot T → ℕ → Run (Unit {0})
get_push ctx slot index = do value ← local_get slot index; stack_push ctx slot value

-- `v128_const`
abbrev pub constant : ℕ → (List ℕ → Run (Unit {0})) → Run (Unit {0})
constant c use_it = do
  found ← read (λ x. get_elem? x.func.v128_constants c)
  v ← expect found
  use_it v

abbrev pub unary_tee : Context → Slot ℕ → ℕ → (ℕ → ℕ) → Run (Unit {0})
unary_tee ctx slot local f = do unary ctx slot slot f; local_tee slot local

unfoldable pub exec_binop_acc_local : Slot ℕ → (acc : ℕ) → (mul add : ℕ → ℕ → ℕ) → Run (Unit {0})
unfolding stack_pop local_update
exec_binop_acc_local slot acc mul add = do
  rhs ← stack_pop slot
  lhs ← stack_pop slot
  local_update slot acc (λ v. add (mul lhs rhs) v)

unfoldable pub exec_instruction : Context → Instruction → Run (Option (Unit {0}))
unfolding exec_numeric
exec_instruction ctx unreachable = trap Trap.unreachable
exec_instruction ctx drop_32 = next (drop slot_32)
exec_instruction ctx drop_64 = next (drop slot_64)
exec_instruction ctx drop_128 = next (drop slot_128)
exec_instruction ctx select_32 = next (on_stack (ValueStack.select_32 ctx.host))
exec_instruction ctx select_64 = next (on_stack (ValueStack.select_64 ctx.host))
exec_instruction ctx select_128 = next (on_stack (ValueStack.select_128 ctx.host))
exec_instruction ctx (select_multi counts) = next (on_stack (quiet counts))
exec_instruction ctx (call v) = here (exec_call_direct ctx v)
exec_instruction ctx call_self = here (exec_call_self ctx)
exec_instruction ctx (return_call v) = here (exec_return_call_direct ctx v)
exec_instruction ctx return_call_self = here (exec_return_call_self ctx)
exec_instruction ctx (jump ip) = here (change (set_ip ip))
exec_instruction ctx (jump_if_zero_32 ip) = unless (exec_jump_zero slot_32 ip)
exec_instruction ctx (jump_if_non_zero_32 ip) = unless (exec_jump_non_zero slot_32 ip)
exec_instruction ctx (jump_if_zero_64 ip) = unless (exec_jump_zero slot_64 ip)
exec_instruction ctx (jump_if_non_zero_64 ip) = unless (exec_jump_non_zero slot_64 ip)
exec_instruction ctx (jump_if_local_zero_32 target_ip local) =
    unless (exec_jump_local_zero slot_32 target_ip local)
exec_instruction ctx (jump_if_local_non_zero_32 target_ip local) =
    unless (exec_jump_local_non_zero slot_32 target_ip local)
exec_instruction ctx (jump_if_local_zero_64 target_ip local) =
    unless (exec_jump_local_zero slot_64 target_ip local)
exec_instruction ctx (jump_if_local_non_zero_64 target_ip local) =
    unless (exec_jump_local_non_zero slot_64 target_ip local)
exec_instruction ctx (jump_cmp_stack_const_32 target_ip imm op) =
    unless (exec_jump_cmp_stack_const slot_32 32 target_ip imm op)
exec_instruction ctx (jump_cmp_stack_const_64 target_ip imm op) =
    unless (exec_jump_cmp_stack_const slot_64 64 target_ip imm op)
exec_instruction ctx (jump_cmp_local_const_32 target_ip local imm op) =
    unless (exec_jump_cmp_local_const slot_32 32 target_ip local imm op)
exec_instruction ctx (jump_cmp_local_const_64 target_ip local imm op) =
    unless (exec_jump_cmp_local_const slot_64 64 target_ip local (extend 32 64 imm) op)
exec_instruction ctx (jump_cmp_local_local_32 target_ip left right op) =
    unless (exec_jump_cmp_local_local slot_32 32 target_ip left right op)
exec_instruction ctx (jump_cmp_local_local_64 target_ip left right op) =
    unless (exec_jump_cmp_local_local slot_64 64 target_ip left right op)
exec_instruction ctx (drop_keep d) = next (exec_drop_keep d)
exec_instruction ctx (branch_table default_ip start len) =
    here (exec_branch_table default_ip start len)
exec_instruction ctx return = ending (exec_return ctx)
exec_instruction ctx return_void = ending (exec_return_void ctx)
exec_instruction ctx return_32 = ending (exec_return_32 ctx)
exec_instruction ctx return_64 = ending (exec_return_64 ctx)
exec_instruction ctx return_128 = ending (exec_return_128 ctx)
exec_instruction ctx (local_get_32 index) = next (get_push ctx slot_32 index)
exec_instruction ctx (local_get_64 index) = next (get_push ctx slot_64 index)
exec_instruction ctx (local_get_128 index) = next (get_push ctx slot_128 index)
exec_instruction ctx (local_set_32 index) = next (local_set_pop slot_32 index)
exec_instruction ctx (local_set_64 index) = next (local_set_pop slot_64 index)
exec_instruction ctx (local_set_128 index) = next (local_set_pop slot_128 index)
exec_instruction ctx (local_copy_32 from to) = next (local_copy slot_32 from to)
exec_instruction ctx (local_copy_64 from to) = next (local_copy slot_64 from to)
exec_instruction ctx (local_copy_128 from to) = next (local_copy slot_128 from to)
exec_instruction ctx (add_const_32 c) = next (unary ctx slot_32 slot_32 (λ v. Numeric.add 32 v c))
exec_instruction ctx (add_const_64 c) = next (unary ctx slot_64 slot_64 (λ v. Numeric.add 64 v c))
exec_instruction ctx (inc_local_32 local delta) =
    next (local_update slot_32 local (λ v. Numeric.add 32 v delta))
exec_instruction ctx (inc_local_64 local delta) =
    next (local_update slot_64 local (λ v. Numeric.add 64 v delta))
exec_instruction ctx (mul_acc_local_32 acc) =
    next (exec_binop_acc_local slot_32 acc (Numeric.mul 32) (Numeric.add 32))
exec_instruction ctx (mul_acc_local_64 acc) =
    next (exec_binop_acc_local slot_64 acc (Numeric.mul 64) (Numeric.add 64))
exec_instruction ctx (f_mul_acc_local_32 acc) =
    next (exec_binop_acc_local slot_32 acc (ctx.floats.mul 32) (ctx.floats.add 32))
exec_instruction ctx (f_mul_acc_local_64 acc) =
    next (exec_binop_acc_local slot_64 acc (ctx.floats.mul 64) (ctx.floats.add 64))
exec_instruction ctx (bin_op_local_local_32 op a b) =
    next (then_push ctx slot_32 (local_local ctx slot_32 32 op a b))
exec_instruction ctx (bin_op_local_local_64 op a b) =
    next (then_push ctx slot_64 (local_local ctx slot_64 64 op a b))
exec_instruction ctx (bin_op_local_local_set_32 op a b dst) =
    next (then_set slot_32 dst (local_local ctx slot_32 32 op a b))
exec_instruction ctx (bin_op_local_local_set_64 op a b dst) =
    next (then_set slot_64 dst (local_local ctx slot_64 64 op a b))
exec_instruction ctx (bin_op_local_local_tee_32 op a b dst) =
    next (then_tee ctx slot_32 dst (local_local ctx slot_32 32 op a b))
exec_instruction ctx (bin_op_local_local_tee_64 op a b dst) =
    next (then_tee ctx slot_64 dst (local_local ctx slot_64 64 op a b))
exec_instruction ctx (bin_op_local_const_32 op local c) =
    next (then_push ctx slot_32 (local_const ctx slot_32 32 op local c))
exec_instruction ctx (bin_op_local_const_64 op local c) =
    next (then_push ctx slot_64 (local_const ctx slot_64 64 op local c))
exec_instruction ctx (bin_op_local_const_set_32 op local c dst) =
    next (then_set slot_32 dst (local_const ctx slot_32 32 op local c))
exec_instruction ctx (bin_op_local_const_set_64 op local c dst) =
    next (then_set slot_64 dst (local_const ctx slot_64 64 op local c))
exec_instruction ctx (bin_op_local_const_tee_32 op local c dst) =
    next (then_tee ctx slot_32 dst (local_const ctx slot_32 32 op local c))
exec_instruction ctx (bin_op_local_const_tee_64 op local c dst) =
    next (then_tee ctx slot_64 dst (local_const ctx slot_64 64 op local c))
exec_instruction ctx (bin_op_stack_global_32 op global) =
    next (stack_global ctx slot_32 32 as_32 op global)
exec_instruction ctx (bin_op_stack_global_64 op global) =
    next (stack_global ctx slot_64 64 as_64 op global)
exec_instruction ctx (set_local_const_32 local c) = next (local_set slot_32 local c)
exec_instruction ctx (set_local_const_64 local c) = next (local_set slot_64 local c)
exec_instruction ctx (set_local_const_128 local c) =
    next (constant c λ v. local_set slot_128 local v)
exec_instruction ctx (and_const_tee_32 c local) =
    next (unary_tee ctx slot_32 local (λ v. bit_and v c))
exec_instruction ctx (sub_const_tee_32 c local) =
    next (unary_tee ctx slot_32 local (λ v. Numeric.sub 32 v c))
exec_instruction ctx (and_const_tee_64 c local) =
    next (unary_tee ctx slot_64 local (λ v. bit_and v c))
exec_instruction ctx (sub_const_tee_64 c local) =
    next (unary_tee ctx slot_64 local (λ v. Numeric.sub 64 v c))
exec_instruction ctx (local_tee_32 index) = next (local_tee slot_32 index)
exec_instruction ctx (local_tee_64 index) = next (local_tee slot_64 index)
exec_instruction ctx (local_tee_128 index) = next (local_tee slot_128 index)
exec_instruction ctx (global_get global) = next (exec_global_get ctx global)
exec_instruction ctx (global_set_32 global) = next (exec_global_set_32 global)
exec_instruction ctx (global_set_64 global) = next (exec_global_set slot_64 value_64 global)
exec_instruction ctx (global_set_128 global) = next (exec_global_set slot_128 value_128 global)
exec_instruction ctx (const_32 c) = next (stack_push ctx slot_32 c)
exec_instruction ctx (const_64 c) = next (stack_push ctx slot_64 c)
exec_instruction ctx (const_128 c) = next (constant c λ v. stack_push ctx slot_128 v)
exec_instruction ctx (numeric op) = next (exec_numeric ctx op)

-- A counter outside the instructions is a panic.
unfoldable pub exec : Context → Run (Option (Unit {0}))
unfolding exec_instruction
exec ctx = do
  found ← read (λ x. get_elem? x.func.instructions x.cf.instr_ptr)
  instr ← expect found
  exec_instruction ctx instr
