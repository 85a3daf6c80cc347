-- ===== src/Executor/Preserved.antt =====
-- crates/tinywasm/src/interpreter/executor.rs: every instruction keeps the executor coherent and
-- adds no fuel.
use tinywasm.Prelude.{
  ℕ, Bool, true, false, ◌≡◌, refl, Option, none, some, ◌≤◌, subst, arith, if◌then◌else◌,
}
use tinywasm.Trap
use tinywasm.Trap.{Result, ok}
use tinywasm.Instructions.{
  Instruction, local_copy_32, local_copy_64, local_copy_128, add_const_32, add_const_64,
  inc_local_32, inc_local_64, bin_op_local_local_32, bin_op_local_local_64,
  bin_op_local_local_set_32, bin_op_local_local_set_64, bin_op_local_local_tee_32,
  bin_op_local_local_tee_64, bin_op_local_const_32, bin_op_local_const_64,
  bin_op_local_const_set_32, bin_op_local_const_set_64, bin_op_local_const_tee_32,
  bin_op_local_const_tee_64, bin_op_stack_global_32, bin_op_stack_global_64, set_local_const_32,
  set_local_const_64, set_local_const_128, and_const_tee_32, sub_const_tee_32, and_const_tee_64,
  sub_const_tee_64, mul_acc_local_32, mul_acc_local_64, f_mul_acc_local_32, f_mul_acc_local_64,
  unreachable, jump, jump_if_zero_32, jump_if_non_zero_32, jump_if_zero_64, jump_if_non_zero_64,
  jump_if_local_zero_32, jump_if_local_non_zero_32, jump_if_local_zero_64,
  jump_if_local_non_zero_64, jump_cmp_stack_const_32, jump_cmp_stack_const_64,
  jump_cmp_local_const_32, jump_cmp_local_const_64, jump_cmp_local_local_32,
  jump_cmp_local_local_64, drop_keep, branch_table, return, return_void, return_32, return_64,
  return_128, call, call_self, return_call, return_call_self, drop_32, drop_64, drop_128, select_32,
  select_64, select_128, select_multi, global_get, global_set_32, global_set_64, global_set_128,
  local_get_32, local_set_32, local_tee_32, local_get_64, local_set_64, local_tee_64, local_get_128,
  local_set_128, local_tee_128, const_32, const_64, const_128, numeric,
}
use tinywasm.Numeric.{extend}
use tinywasm.Executor.State.{Context, Executor, Run, change}
use tinywasm.Executor.Access.{slot_32, slot_64, slot_128}
use tinywasm.Executor.Step.{advance, next, here, unless, ending, exec_instruction, exec}
use tinywasm.Executor.Calm.{
  Calm, still, read-Calm, change-Calm, expect-Calm, stack_push-Calm, local_set-Calm,
  local_update-Calm, local_copy-Calm, on_stack-Calm, exec_global_get-Calm, exec_global_set-Calm,
  exec_global_set_32-Calm,
}
use tinywasm.Executor.Quiet.{
  unary-Calm, local_set_pop-Calm, local_tee-Calm, local_local-Calm, local_const-Calm,
  stack_global-Calm, exec_jump_zero-Calm, exec_jump_non_zero-Calm, exec_jump_local_zero-Calm,
  exec_jump_local_non_zero-Calm, exec_jump_cmp_stack_const-Calm, exec_jump_cmp_local_const-Calm,
  exec_jump_cmp_local_local-Calm, exec_branch_table-Calm, exec_drop_keep-Calm,
}
use tinywasm.Executor.Quiet.Numerics.{exec_numeric-Calm}
use tinywasm.Executor.Quiet.Fused.{
  drop-Calm, get_push-Calm, unary_tee-Calm, then_push-Calm, then_set-Calm, then_tee-Calm,
  constant-Calm, exec_binop_acc_local-Calm,
}
use tinywasm.Executor.Hoare.{Ends, Triple, bind-Triple, seq-Triple, return-Triple, trap-Triple}
use tinywasm.Executor.Coherent.{Coherent, Behaved, Fuel, Kept}
use tinywasm.Executor.Coherent.Calls.{
  calm, exec_call_direct-Triple, exec_return_call_direct-Triple, exec_call_self-Triple,
  exec_return_call_self-Triple,
}
use tinywasm.Executor.Coherent.Returns.{
  exec_return-Triple, exec_return_void-Triple, exec_return_32-Triple, exec_return_64-Triple,
  exec_return_128-Triple,
}

module _ (ctx : Context) (behaved : Behaved ctx) (n : ℕ) where
  advanced : Triple (Kept ctx n) (change advance) (λ _. Kept ctx n)
  advanced = calm ctx behaved n _ (
      change-Calm _
        λ x. record { same_addr = refl; same_func = refl; same_module = refl; same_fuel = refl })

  next-Triple : (run : Run (Unit {0})) → Calm run → Triple (Kept ctx n) (next run) (λ _. Kept ctx n)
  next-Triple run c =
      seq-Triple _ (calm ctx behaved n run c) λ _. seq-Triple _ advanced λ _. return-Triple none

  here-Triple :
      {run : Run (Unit {0})}
      → Triple (Kept ctx n) run (λ _. Kept ctx n)
      → Triple (Kept ctx n) (here run) (λ _. Kept ctx n)
  here-Triple t = seq-Triple _ t λ _. return-Triple none

  landed : (taken : Bool) → Calm (change (λ x. if taken then x else advance x))
  landed true = change-Calm _ λ x. still
  landed false =
      change-Calm _
        λ x. record { same_addr = refl; same_func = refl; same_module = refl; same_fuel = refl }

  unless-Triple : (run : Run Bool) → Calm run → Triple (Kept ctx n) (unless run) (λ _. Kept ctx n)
  unless-Triple run c =
      bind-Triple _ (calm ctx behaved n run c)
        λ taken. seq-Triple _ (calm ctx behaved n _ (landed taken)) λ _. return-Triple none

  ending-Triple :
      {run : Run Bool}
      → Triple (Kept ctx n) run (λ _. Kept ctx n)
      → Triple (Kept ctx n) (ending run) (λ _. Kept ctx n)
  ending-Triple t = bind-Triple _ t λ over. return-Triple _

  pub exec_instruction-Triple :
      (instr : Instruction) → Triple (Kept ctx n) (exec_instruction ctx instr) (λ _. Kept ctx n)
  unfolding exec_instruction
  exec_instruction-Triple unreachable = trap-Triple Trap.unreachable
  exec_instruction-Triple drop_32 = next-Triple _ (drop-Calm slot_32)
  exec_instruction-Triple drop_64 = next-Triple _ (drop-Calm slot_64)
  exec_instruction-Triple drop_128 = next-Triple _ (drop-Calm slot_128)
  exec_instruction-Triple select_32 = next-Triple _ (on_stack-Calm _)
  exec_instruction-Triple select_64 = next-Triple _ (on_stack-Calm _)
  exec_instruction-Triple select_128 = next-Triple _ (on_stack-Calm _)
  exec_instruction-Triple (select_multi counts) = next-Triple _ (on_stack-Calm _)
  exec_instruction-Triple (call v) = here-Triple (exec_call_direct-Triple ctx behaved n v)
  exec_instruction-Triple call_self = here-Triple (exec_call_self-Triple ctx behaved n)
  exec_instruction-Triple (return_call v) =
      here-Triple (exec_return_call_direct-Triple ctx behaved n v)
  exec_instruction-Triple return_call_self =
      here-Triple (exec_return_call_self-Triple ctx behaved n)
  exec_instruction-Triple (jump ip) = here-Triple (
      calm ctx behaved n _ (
        change-Calm _
          λ x. record { same_addr = refl; same_func = refl; same_module = refl; same_fuel = refl }))
  exec_instruction-Triple (jump_if_zero_32 ip) = unless-Triple _ (exec_jump_zero-Calm slot_32 ip)
  exec_instruction-Triple (jump_if_non_zero_32 ip) =
      unless-Triple _ (exec_jump_non_zero-Calm slot_32 ip)
  exec_instruction-Triple (jump_if_zero_64 ip) = unless-Triple _ (exec_jump_zero-Calm slot_64 ip)
  exec_instruction-Triple (jump_if_non_zero_64 ip) =
      unless-Triple _ (exec_jump_non_zero-Calm slot_64 ip)
  exec_instruction-Triple (jump_if_local_zero_32 target_ip local) =
      unless-Triple _ (exec_jump_local_zero-Calm slot_32 target_ip local)
  exec_instruction-Triple (jump_if_local_non_zero_32 target_ip local) =
      unless-Triple _ (exec_jump_local_non_zero-Calm slot_32 target_ip local)
  exec_instruction-Triple (jump_if_local_zero_64 target_ip local) =
      unless-Triple _ (exec_jump_local_zero-Calm slot_64 target_ip local)
  exec_instruction-Triple (jump_if_local_non_zero_64 target_ip local) =
      unless-Triple _ (exec_jump_local_non_zero-Calm slot_64 target_ip local)
  exec_instruction-Triple (jump_cmp_stack_const_32 target_ip imm op) =
      unless-Triple _ (exec_jump_cmp_stack_const-Calm slot_32 32 target_ip imm op)
  exec_instruction-Triple (jump_cmp_stack_const_64 target_ip imm op) =
      unless-Triple _ (exec_jump_cmp_stack_const-Calm slot_64 64 target_ip imm op)
  exec_instruction-Triple (jump_cmp_local_const_32 target_ip local imm op) =
      unless-Triple _ (exec_jump_cmp_local_const-Calm slot_32 32 target_ip local imm op)
  exec_instruction-Triple (jump_cmp_local_const_64 target_ip local imm op) =
      unless-Triple _
        (exec_jump_cmp_local_const-Calm slot_64 64 target_ip local (extend 32 64 imm) op)
  exec_instruction-Triple (jump_cmp_local_local_32 target_ip left right op) =
      unless-Triple _ (exec_jump_cmp_local_local-Calm slot_32 32 target_ip left right op)
  exec_instruction-Triple (jump_cmp_local_local_64 target_ip left right op) =
      unless-Triple _ (exec_jump_cmp_local_local-Calm slot_64 64 target_ip left right op)
  exec_instruction-Triple (drop_keep d) = next-Triple _ (exec_drop_keep-Calm d)
  exec_instruction-Triple (branch_table default_ip start len) =
      here-Triple (calm ctx behaved n _ (exec_branch_table-Calm default_ip start len))
  exec_instruction-Triple return = ending-Triple (exec_return-Triple ctx behaved n)
  exec_instruction-Triple return_void = ending-Triple (exec_return_void-Triple ctx behaved n)
  exec_instruction-Triple return_32 = ending-Triple (exec_return_32-Triple ctx behaved n)
  exec_instruction-Triple return_64 = ending-Triple (exec_return_64-Triple ctx behaved n)
  exec_instruction-Triple return_128 = ending-Triple (exec_return_128-Triple ctx behaved n)
  exec_instruction-Triple (local_get_32 index) = next-Triple _ (get_push-Calm ctx slot_32 index)
  exec_instruction-Triple (local_get_64 index) = next-Triple _ (get_push-Calm ctx slot_64 index)
  exec_instruction-Triple (local_get_128 index) = next-Triple _ (get_push-Calm ctx slot_128 index)
  exec_instruction-Triple (local_set_32 index) =
      next-Triple _ (local_set_pop-Calm ctx slot_32 index)
  exec_instruction-Triple (local_set_64 index) =
      next-Triple _ (local_set_pop-Calm ctx slot_64 index)
  exec_instruction-Triple (local_set_128 index) =
      next-Triple _ (local_set_pop-Calm ctx slot_128 index)
  exec_instruction-Triple (local_copy_32 from to) = next-Triple _ (local_copy-Calm slot_32 from to)
  exec_instruction-Triple (local_copy_64 from to) = next-Triple _ (local_copy-Calm slot_64 from to)
  exec_instruction-Triple (local_copy_128 from to) =
      next-Triple _ (local_copy-Calm slot_128 from to)
  exec_instruction-Triple (add_const_32 c) = next-Triple _ (unary-Calm ctx slot_32 slot_32 _)
  exec_instruction-Triple (add_const_64 c) = next-Triple _ (unary-Calm ctx slot_64 slot_64 _)
  exec_instruction-Triple (inc_local_32 local delta) =
      next-Triple _ (local_update-Calm slot_32 local _)
  exec_instruction-Triple (inc_local_64 local delta) =
      next-Triple _ (local_update-Calm slot_64 local _)
  exec_instruction-Triple (mul_acc_local_32 acc) =
      next-Triple _ (exec_binop_acc_local-Calm slot_32 acc _ _)
  exec_instruction-Triple (mul_acc_local_64 acc) =
      next-Triple _ (exec_binop_acc_local-Calm slot_64 acc _ _)
  exec_instruction-Triple (f_mul_acc_local_32 acc) =
      next-Triple _ (exec_binop_acc_local-Calm slot_32 acc _ _)
  exec_instruction-Triple (f_mul_acc_local_64 acc) =
      next-Triple _ (exec_binop_acc_local-Calm slot_64 acc _ _)
  exec_instruction-Triple (bin_op_local_local_32 op a b) =
      next-Triple _ (then_push-Calm ctx slot_32 _ (local_local-Calm ctx slot_32 32 op a b))
  exec_instruction-Triple (bin_op_local_local_64 op a b) =
      next-Triple _ (then_push-Calm ctx slot_64 _ (local_local-Calm ctx slot_64 64 op a b))
  exec_instruction-Triple (bin_op_local_local_set_32 op a b dst) =
      next-Triple _ (then_set-Calm ctx slot_32 dst _ (local_local-Calm ctx slot_32 32 op a b))
  exec_instruction-Triple (bin_op_local_local_set_64 op a b dst) =
      next-Triple _ (then_set-Calm ctx slot_64 dst _ (local_local-Calm ctx slot_64 64 op a b))
  exec_instruction-Triple (bin_op_local_local_tee_32 op a b dst) =
      next-Triple _ (then_tee-Calm ctx slot_32 dst _ (local_local-Calm ctx slot_32 32 op a b))
  exec_instruction-Triple (bin_op_local_local_tee_64 op a b dst) =
      next-Triple _ (then_tee-Calm ctx slot_64 dst _ (local_local-Calm ctx slot_64 64 op a b))
  exec_instruction-Triple (bin_op_local_const_32 op local c) =
      next-Triple _ (then_push-Calm ctx slot_32 _ (local_const-Calm ctx slot_32 32 op local c))
  exec_instruction-Triple (bin_op_local_const_64 op local c) =
      next-Triple _ (then_push-Calm ctx slot_64 _ (local_const-Calm ctx slot_64 64 op local c))
  exec_instruction-Triple (bin_op_local_const_set_32 op local c dst) =
      next-Triple _ (then_set-Calm ctx slot_32 dst _ (local_const-Calm ctx slot_32 32 op local c))
  exec_instruction-Triple (bin_op_local_const_set_64 op local c dst) =
      next-Triple _ (then_set-Calm ctx slot_64 dst _ (local_const-Calm ctx slot_64 64 op local c))
  exec_instruction-Triple (bin_op_local_const_tee_32 op local c dst) =
      next-Triple _ (then_tee-Calm ctx slot_32 dst _ (local_const-Calm ctx slot_32 32 op local c))
  exec_instruction-Triple (bin_op_local_const_tee_64 op local c dst) =
      next-Triple _ (then_tee-Calm ctx slot_64 dst _ (local_const-Calm ctx slot_64 64 op local c))
  exec_instruction-Triple (bin_op_stack_global_32 op global) =
      next-Triple _ (stack_global-Calm ctx slot_32 _ _ op global)
  exec_instruction-Triple (bin_op_stack_global_64 op global) =
      next-Triple _ (stack_global-Calm ctx slot_64 _ _ op global)
  exec_instruction-Triple (set_local_const_32 local c) =
      next-Triple _ (local_set-Calm slot_32 local c)
  exec_instruction-Triple (set_local_const_64 local c) =
      next-Triple _ (local_set-Calm slot_64 local c)
  exec_instruction-Triple (set_local_const_128 local c) =
      next-Triple _ (constant-Calm c _ λ v. local_set-Calm slot_128 local v)
  exec_instruction-Triple (and_const_tee_32 c local) =
      next-Triple _ (unary_tee-Calm ctx slot_32 local _)
  exec_instruction-Triple (sub_const_tee_32 c local) =
      next-Triple _ (unary_tee-Calm ctx slot_32 local _)
  exec_instruction-Triple (and_const_tee_64 c local) =
      next-Triple _ (unary_tee-Calm ctx slot_64 local _)
  exec_instruction-Triple (sub_const_tee_64 c local) =
      next-Triple _ (unary_tee-Calm ctx slot_64 local _)
  exec_instruction-Triple (local_tee_32 index) = next-Triple _ (local_tee-Calm ctx slot_32 index)
  exec_instruction-Triple (local_tee_64 index) = next-Triple _ (local_tee-Calm ctx slot_64 index)
  exec_instruction-Triple (local_tee_128 index) = next-Triple _ (local_tee-Calm ctx slot_128 index)
  exec_instruction-Triple (global_get global) = next-Triple _ (exec_global_get-Calm ctx global)
  exec_instruction-Triple (global_set_32 global) = next-Triple _ (exec_global_set_32-Calm global)
  exec_instruction-Triple (global_set_64 global) =
      next-Triple _ (exec_global_set-Calm slot_64 _ global)
  exec_instruction-Triple (global_set_128 global) =
      next-Triple _ (exec_global_set-Calm slot_128 _ global)
  exec_instruction-Triple (const_32 c) = next-Triple _ (stack_push-Calm slot_32 ctx c)
  exec_instruction-Triple (const_64 c) = next-Triple _ (stack_push-Calm slot_64 ctx c)
  exec_instruction-Triple (const_128 c) =
      next-Triple _ (constant-Calm c _ λ v. stack_push-Calm slot_128 ctx v)
  exec_instruction-Triple (numeric op) = next-Triple _ (exec_numeric-Calm ctx op)

  pub exec-Triple : Triple (Kept ctx n) (exec ctx) (λ _. Kept ctx n)
  unfolding exec
  exec-Triple = bind-Triple _ (calm ctx behaved n _ (read-Calm _)) λ found.
      bind-Triple _ (calm ctx behaved n _ (expect-Calm found))
        λ instr. exec_instruction-Triple instr

-- An instruction that ends well leaves the function and the module that the executor holds those
-- of its frame, through calls, tail calls, calls of host functions and returns; and the fuel is no
-- more than before. The store lists its modules under their index, and host functions add no fuel.
pub exec-Coherent :
    (ctx : Context) (x y : Executor) (over : Option (Unit {0}))
    → Behaved ctx
    → Coherent ctx x
    → exec ctx x ≡ some (ok over, y)
    → Coherent ctx y × (y.store.execution_fuel ≤ x.store.execution_fuel)
exec-Coherent ctx x y over behaved c e =
    subst (Ends {A = Option (Unit {0})} λ _ z. Coherent ctx z × Fuel x.store.execution_fuel z) e
      ((exec-Triple ctx behaved x.store.execution_fuel).holds x (c, omega arith))
