-- ===== src/Executor/Jumps.antt =====
-- crates/tinywasm/src/interpreter/executor.rs: the jumps. The answer is whether the jump is taken.
use tinywasm.Prelude.{
  ℕ, ◌+◌, ◌%◌, ◌^◌, Bool, not, ltb, ◌==◌, ◌&&◌, if◌then◌else◌, Option, none, some, get_elem?,
}
use tinywasm.Stack.Counts.{StackBase}
use tinywasm.Stack.CallStack.{stack_base}
use tinywasm.Stack.ValueStack.{truncate_keep_counts}
use tinywasm.Instructions.{CmpOp, DropKeep}
use tinywasm.Numeric.{cmp}
use tinywasm.Executor.State.{Executor, Run, ◌>>=◌, ◌>>◌, return, change, set_stack}
use tinywasm.Executor.Access.{Slot, slot_32, stack_pop, local_get}

abbrev pub set_ip : ℕ → Executor → Executor
set_ip ip x = record x { cf = record x.cf { instr_ptr = ip } }

unfoldable pub jump_if : Bool → ℕ → Run Bool
jump_if condition ip = do change (λ x. if condition then set_ip ip x else x); return condition

-- `exec_jump_zero_32`, `exec_jump_non_zero_32` and those of 64 bits
unfoldable pub exec_jump_zero : Slot ℕ → ℕ → Run Bool
unfolding stack_pop jump_if
exec_jump_zero slot target_ip = do value ← stack_pop slot; jump_if (value == 0) target_ip

unfoldable pub exec_jump_non_zero : Slot ℕ → ℕ → Run Bool
unfolding stack_pop jump_if
exec_jump_non_zero slot target_ip = do value ← stack_pop slot; jump_if (not (value == 0)) target_ip

unfoldable pub exec_jump_local_zero : Slot ℕ → (target_ip local : ℕ) → Run Bool
unfolding local_get jump_if
exec_jump_local_zero slot target_ip local = do
  value ← local_get slot local
  jump_if (value == 0) target_ip

unfoldable pub exec_jump_local_non_zero : Slot ℕ → (target_ip local : ℕ) → Run Bool
unfolding local_get jump_if
exec_jump_local_non_zero slot target_ip local = do
  value ← local_get slot local
  jump_if (not (value == 0)) target_ip

unfoldable pub exec_jump_cmp_stack_const : Slot ℕ → (bits target_ip imm : ℕ) → CmpOp → Run Bool
unfolding stack_pop jump_if
exec_jump_cmp_stack_const slot bits target_ip imm op = do
  value ← stack_pop slot
  jump_if (cmp bits value imm op) target_ip

-- The immediate of the 64-bit one is cast from an `i32` by the caller.
unfoldable pub exec_jump_cmp_local_const :
    Slot ℕ → (bits target_ip local imm : ℕ) → CmpOp → Run Bool
unfolding local_get jump_if
exec_jump_cmp_local_const slot bits target_ip local imm op = do
  value ← local_get slot local
  jump_if (cmp bits value imm op) target_ip

unfoldable pub exec_jump_cmp_local_local :
    Slot ℕ → (bits target_ip left right : ℕ) → CmpOp → Run Bool
unfolding local_get jump_if
exec_jump_cmp_local_local slot bits target_ip left right op = do
  lhs ← local_get slot left
  rhs ← local_get slot right
  jump_if (cmp bits lhs rhs op) target_ip

abbrev unwrap_or : Option ℕ → ℕ → ℕ
unwrap_or none default = default
unwrap_or (some a) default = a

-- The index is an `i32`, negative from `2 ^ 31` on; the sum is a `u32`, as a release build adds.
unfoldable pub exec_branch_table : (default_ip start len : ℕ) → Run (Unit {0})
unfolding stack_pop
exec_branch_table default_ip start len = do
  idx ← stack_pop slot_32
  change (λ x.
      set_ip
        (if ltb idx (2 ^ 31) && ltb idx len
          then unwrap_or (get_elem? x.func.branch_table_targets ((start + idx) % 2 ^ 32)) default_ip
          else default_ip)
        x)

-- `u32` sums of a release build
unfoldable pub exec_drop_keep : DropKeep → Run (Unit {0})
unfolding stack_base truncate_keep_counts
exec_drop_keep d = change (λ x.
    let b : StackBase = stack_base x.cf in
    set_stack
      (truncate_keep_counts x.store.value_stack
        (record {
          s_32 = (b.s_32 + d.base.c_32) % 2 ^ 32;
          s_64 = (b.s_64 + d.base.c_64) % 2 ^ 32;
          s_128 = (b.s_128 + d.base.c_128) % 2 ^ 32;
        })
        d.keep)
      x)
