-- ===== src/Executor/Quiet.antt =====
-- crates/tinywasm/src/interpreter/executor.rs: the instructions that are no calls leave the function,
-- its module and the fuel as they were.
pub mod Numerics
pub mod Fused
use tinywasm.Prelude.{ℕ, Bool, true, false, Option, refl}
use tinywasm.Trap.{Result}
use tinywasm.Stack.Values.{TinyWasmValue}
use tinywasm.Instructions.{BinOp, CmpOp, DropKeep}
use tinywasm.Executor.State.{Context, Run, ◌>>=◌, ◌>>◌}
use tinywasm.Executor.Access.{Slot, slot_32, slot_64, stack_push, stack_pop, local_get, local_set}
use tinywasm.Executor.Operators.{
  unary, binary, binary_try, binary_into2, ternary, quaternary_into2, local_set_pop, local_tee,
  local_local, local_const, stack_global,
}
use tinywasm.Executor.Jumps.{
  jump_if, exec_jump_zero, exec_jump_non_zero, exec_jump_local_zero, exec_jump_local_non_zero,
  exec_jump_cmp_stack_const, exec_jump_cmp_local_const, exec_jump_cmp_local_local,
  exec_branch_table, exec_drop_keep,
}
use tinywasm.Executor.Calm.{
  Calm, Quiet, still, moved, bind-Calm, seq-Calm, expect-Calm, read-Calm, change-Calm, lift-Calm,
  return-Calm, stack_push-Calm, stack_pop-Calm, stack_peek-Calm, local_get-Calm, local_set-Calm,
  get_global-Calm,
}

module _ (ctx : Context) where
  pub unary-Calm : (from to : Slot ℕ) (f : ℕ → ℕ) → Calm (unary ctx from to f)
  unfolding unary
  unary-Calm from to f = bind-Calm _ _ (stack_pop-Calm from) λ v. stack_push-Calm to ctx (f v)

  pub binary-Calm : (from to : Slot ℕ) (f : ℕ → ℕ → ℕ) → Calm (binary ctx from to f)
  unfolding binary
  binary-Calm from to f =
      bind-Calm _ _ (stack_pop-Calm from)
        λ b. bind-Calm _ _ (stack_pop-Calm from) λ a. stack_push-Calm to ctx (f a b)

  pub binary_try-Calm : (slot : Slot ℕ) (f : ℕ → ℕ → Result ℕ) → Calm (binary_try ctx slot f)
  unfolding binary_try
  binary_try-Calm slot f = bind-Calm _ _ (stack_pop-Calm slot) λ b.
      bind-Calm _ _ (stack_pop-Calm slot)
        λ a. bind-Calm _ _ (lift-Calm (f a b)) λ v. stack_push-Calm slot ctx v

  pub binary_into2-Calm : (f : ℕ → ℕ → ℕ × ℕ) → Calm (binary_into2 ctx f)
  unfolding binary_into2
  binary_into2-Calm f = bind-Calm _ _ (stack_pop-Calm slot_64) λ b.
      bind-Calm _ _ (stack_pop-Calm slot_64)
        λ a. seq-Calm _ _ (stack_push-Calm slot_64 ctx _) (stack_push-Calm slot_64 ctx _)

  pub ternary-Calm : (slot : Slot ℕ) (f : ℕ → ℕ → ℕ → ℕ) → Calm (ternary ctx slot f)
  unfolding ternary
  ternary-Calm slot f = bind-Calm _ _ (stack_pop-Calm slot) λ c.
      bind-Calm _ _ (stack_pop-Calm slot)
        λ b. bind-Calm _ _ (stack_pop-Calm slot) λ a. stack_push-Calm slot ctx _

  pub quaternary_into2-Calm : (f : ℕ → ℕ → ℕ → ℕ → ℕ × ℕ) → Calm (quaternary_into2 ctx f)
  unfolding quaternary_into2
  quaternary_into2-Calm f = bind-Calm _ _ (stack_pop-Calm slot_64) λ d.
      bind-Calm _ _ (stack_pop-Calm slot_64) λ c. bind-Calm _ _ (stack_pop-Calm slot_64) λ b.
        bind-Calm _ _ (stack_pop-Calm slot_64)
          λ a. seq-Calm _ _ (stack_push-Calm slot_64 ctx _) (stack_push-Calm slot_64 ctx _)

  pub local_set_pop-Calm : {T : Type 0} (slot : Slot T) (i : ℕ) → Calm (local_set_pop slot i)
  unfolding local_set_pop
  local_set_pop-Calm slot i = bind-Calm _ _ (stack_pop-Calm slot) λ v. local_set-Calm slot i v

  pub local_tee-Calm : {T : Type 0} (slot : Slot T) (i : ℕ) → Calm (local_tee slot i)
  unfolding local_tee
  local_tee-Calm slot i = bind-Calm _ _ (stack_peek-Calm slot) λ v. local_set-Calm slot i v

  pub local_local-Calm :
      (slot : Slot ℕ) (bits : ℕ) (op : BinOp) (a b : ℕ) → Calm (local_local ctx slot bits op a b)
  unfolding local_local
  local_local-Calm slot bits op a b =
      bind-Calm _ _ (local_get-Calm slot a)
        λ l. bind-Calm _ _ (local_get-Calm slot b) λ r. return-Calm _

  pub local_const-Calm :
      (slot : Slot ℕ) (bits : ℕ) (op : BinOp) (a c : ℕ) → Calm (local_const ctx slot bits op a c)
  unfolding local_const
  local_const-Calm slot bits op a c = bind-Calm _ _ (local_get-Calm slot a) λ l. return-Calm _

  pub stack_global-Calm :
      (slot : Slot ℕ) (bits : ℕ) (as_bits : TinyWasmValue → Option ℕ) (op : BinOp) (g : ℕ)
      → Calm (stack_global ctx slot bits as_bits op g)
  unfolding stack_global
  stack_global-Calm slot bits as_bits op g = bind-Calm _ _ (get_global-Calm g) λ found.
      bind-Calm _ _ (expect-Calm _)
        λ v. bind-Calm _ _ (stack_pop-Calm slot) λ w. stack_push-Calm slot ctx _

jump_if-Calm : (condition : Bool) (ip : ℕ) → Calm (jump_if condition ip)
unfolding jump_if
jump_if-Calm true ip =
    seq-Calm _ _
      (change-Calm _
        λ x. record { same_addr = refl; same_func = refl; same_module = refl; same_fuel = refl })
      (return-Calm true)
jump_if-Calm false ip = seq-Calm _ _ (change-Calm _ λ x. still) (return-Calm false)

pub exec_jump_zero-Calm : (slot : Slot ℕ) (ip : ℕ) → Calm (exec_jump_zero slot ip)
unfolding exec_jump_zero
exec_jump_zero-Calm slot ip = bind-Calm _ _ (stack_pop-Calm slot) λ v. jump_if-Calm _ ip

pub exec_jump_non_zero-Calm : (slot : Slot ℕ) (ip : ℕ) → Calm (exec_jump_non_zero slot ip)
unfolding exec_jump_non_zero
exec_jump_non_zero-Calm slot ip = bind-Calm _ _ (stack_pop-Calm slot) λ v. jump_if-Calm _ ip

pub exec_jump_local_zero-Calm : (slot : Slot ℕ) (ip l : ℕ) → Calm (exec_jump_local_zero slot ip l)
unfolding exec_jump_local_zero
exec_jump_local_zero-Calm slot ip l = bind-Calm _ _ (local_get-Calm slot l) λ v. jump_if-Calm _ ip

pub exec_jump_local_non_zero-Calm :
    (slot : Slot ℕ) (ip l : ℕ) → Calm (exec_jump_local_non_zero slot ip l)
unfolding exec_jump_local_non_zero
exec_jump_local_non_zero-Calm slot ip l =
    bind-Calm _ _ (local_get-Calm slot l) λ v. jump_if-Calm _ ip

pub exec_jump_cmp_stack_const-Calm :
    (slot : Slot ℕ) (bits ip imm : ℕ) (op : CmpOp)
    → Calm (exec_jump_cmp_stack_const slot bits ip imm op)
unfolding exec_jump_cmp_stack_const
exec_jump_cmp_stack_const-Calm slot bits ip imm op =
    bind-Calm _ _ (stack_pop-Calm slot) λ v. jump_if-Calm _ ip

pub exec_jump_cmp_local_const-Calm :
    (slot : Slot ℕ) (bits ip l imm : ℕ) (op : CmpOp)
    → Calm (exec_jump_cmp_local_const slot bits ip l imm op)
unfolding exec_jump_cmp_local_const
exec_jump_cmp_local_const-Calm slot bits ip l imm op =
    bind-Calm _ _ (local_get-Calm slot l) λ v. jump_if-Calm _ ip

pub exec_jump_cmp_local_local-Calm :
    (slot : Slot ℕ) (bits ip l r : ℕ) (op : CmpOp)
    → Calm (exec_jump_cmp_local_local slot bits ip l r op)
unfolding exec_jump_cmp_local_local
exec_jump_cmp_local_local-Calm slot bits ip l r op =
    bind-Calm _ _ (local_get-Calm slot l)
      λ v. bind-Calm _ _ (local_get-Calm slot r) λ w. jump_if-Calm _ ip

pub exec_branch_table-Calm :
    (default_ip start len : ℕ) → Calm (exec_branch_table default_ip start len)
unfolding exec_branch_table
exec_branch_table-Calm default_ip start len = bind-Calm _ _ (stack_pop-Calm slot_32) λ v.
    change-Calm _
      λ x. record { same_addr = refl; same_func = refl; same_module = refl; same_fuel = refl }

pub exec_drop_keep-Calm : (d : DropKeep) → Calm (exec_drop_keep d)
unfolding exec_drop_keep
exec_drop_keep-Calm d = change-Calm _ λ x. moved
