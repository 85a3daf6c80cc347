-- ===== src/Optimizer/Fusion/Replaced.antt =====
-- crates/parser/src/optimize.rs: what the rules for two operands put in place of the instructions
-- they consume does the same.
use tinywasm.Prelude.{true, false, ℕ, ◌+◌, ◌≤◌, ◌<◌, ◌≡◌, some, List, [], ◌∷◌, length, get_elem?}
use tinywasm.Instructions.{
  BinOp, Instruction, bin_op_local_local_32, bin_op_local_local_64, bin_op_local_local_set_32,
  bin_op_local_local_set_64, bin_op_local_const_32, bin_op_local_const_64, local_get_32,
  local_set_32, local_get_64, local_set_64, const_32, const_64, numeric,
}
use tinywasm.Executor.State.{Context, Executor}
use tinywasm.Optimizer.Rewrite.{Setting, rewrite_instruction, Output, rewrite_rounds}
use tinywasm.Optimizer.Fusion.{Same}
use tinywasm.Optimizer.Fusion.Width32.{
  numeric_32, local_local-Same_32, local_const-Same_32, local_local_set-Same_32,
}
use tinywasm.Optimizer.Fusion.Width64.{
  numeric_64, local_local-Same_64, local_const-Same_64, local_local_set-Same_64,
}
use tinywasm.Optimizer.Fusion.Matched.{
  Block, local_local-rewritten_32, local_const-rewritten_32, local_local_set-rewritten_32,
  local_local-rewritten_64, local_const-rewritten_64, local_local_set-rewritten_64,
}

-- A 32-bit operation behind operands that are two locals is rewritten to one fused instruction,
-- which does what the three do, apart from where the counter stands after them. The operation is
-- any that can be fused; the locals are on the stack, and it has room for two more values.
pub rewrite_instruction-local_local_32 :
    (ctx : Context) (s : Setting) (idx : ℕ) (rest : List Instruction) (x : Executor) (op : BinOp)
    (a b l r : ℕ)
    → get_elem? x.store.value_stack.stack_32.slots (x.cf.locals_base.s_32 + a) ≡ some l
    → get_elem? x.store.value_stack.stack_32.slots (x.cf.locals_base.s_32 + b) ≡ some r
    → length x.store.value_stack.stack_32.slots + 2 ≤ x.store.value_stack.stack_32.capacity
    → (rewrite_instruction s idx (numeric (numeric_32 op)) (local_get_32 b ∷ local_get_32 a ∷ rest)
        ≡ bin_op_local_local_32 op a b ∷ rest)
      × Same ctx x
          (local_get_32 a ∷ local_get_32 b ∷ numeric (numeric_32 op) ∷ [])
          (bin_op_local_local_32 op a b ∷ [])
rewrite_instruction-local_local_32 ctx s idx rest x op a b l r e f h =
    (local_local-rewritten_32 op s idx a b rest, local_local-Same_32 ctx x op a b l r e f h)

-- A 32-bit operation behind operands that are a local and a constant is rewritten to one fused
-- instruction, which does what the three do, apart from where the counter stands after them. The
-- operation is any that can be fused; the locals are on the stack, and it has room for two more
-- values.
pub rewrite_instruction-local_const_32 :
    (ctx : Context) (s : Setting) (idx : ℕ) (rest : List Instruction) (x : Executor) (op : BinOp)
    (a b l : ℕ)
    → get_elem? x.store.value_stack.stack_32.slots (x.cf.locals_base.s_32 + a) ≡ some l
    → length x.store.value_stack.stack_32.slots + 2 ≤ x.store.value_stack.stack_32.capacity
    → (rewrite_instruction s idx (numeric (numeric_32 op)) (const_32 b ∷ local_get_32 a ∷ rest)
        ≡ bin_op_local_const_32 op a b ∷ rest)
      × Same ctx x
          (local_get_32 a ∷ const_32 b ∷ numeric (numeric_32 op) ∷ [])
          (bin_op_local_const_32 op a b ∷ [])
rewrite_instruction-local_const_32 ctx s idx rest x op a b l e h =
    (local_const-rewritten_32 op s idx a b rest, local_const-Same_32 ctx x op a b l e h)

-- Two locals, a 32-bit operation on them and a `local.set` of its result, at the start of any block
-- of the code, are rewritten step by step to one fused instruction, which is all that the block then
-- holds. It does what the four do, apart from the counter, also when the result goes to one of the
-- two. The operation is any that can be fused; the three locals are on the stack, and it has room for
-- two more values.
pub rewrite_rounds-local_local_set_32 :
    (ctx : Context) (s : Setting) (idx : ℕ) (out : Output) (x : Executor) (op : BinOp)
    (a b dst l r : ℕ)
    → get_elem? x.store.value_stack.stack_32.slots (x.cf.locals_base.s_32 + a) ≡ some l
    → get_elem? x.store.value_stack.stack_32.slots (x.cf.locals_base.s_32 + b) ≡ some r
    → x.cf.locals_base.s_32 + dst < length x.store.value_stack.stack_32.slots
    → length x.store.value_stack.stack_32.slots + 2 ≤ x.store.value_stack.stack_32.capacity
    → Block out
        (rewrite_rounds s idx
          (local_get_32 a ∷ local_get_32 b ∷ numeric (numeric_32 op) ∷ local_set_32 dst ∷ [])
          (true ∷ false ∷ false ∷ false ∷ [])
          out)
        (bin_op_local_local_set_32 op a b dst ∷ [])
      × Same ctx x
          (local_get_32 a ∷ local_get_32 b ∷ numeric (numeric_32 op) ∷ local_set_32 dst ∷ [])
          (bin_op_local_local_set_32 op a b dst ∷ [])
rewrite_rounds-local_local_set_32 ctx s idx out x op a b dst l r e f k h = (
  local_local_set-rewritten_32 op s idx a b dst out,
  local_local_set-Same_32 ctx x op a b dst l r e f k h,
)

-- A 64-bit operation behind operands that are two locals is rewritten to one fused instruction,
-- which does what the three do, apart from where the counter stands after them. The operation is
-- any that can be fused; the locals are on the stack, and it has room for two more values.
pub rewrite_instruction-local_local_64 :
    (ctx : Context) (s : Setting) (idx : ℕ) (rest : List Instruction) (x : Executor) (op : BinOp)
    (a b l r : ℕ)
    → get_elem? x.store.value_stack.stack_64.slots (x.cf.locals_base.s_64 + a) ≡ some l
    → get_elem? x.store.value_stack.stack_64.slots (x.cf.locals_base.s_64 + b) ≡ some r
    → length x.store.value_stack.stack_64.slots + 2 ≤ x.store.value_stack.stack_64.capacity
    → (rewrite_instruction s idx (numeric (numeric_64 op)) (local_get_64 b ∷ local_get_64 a ∷ rest)
        ≡ bin_op_local_local_64 op a b ∷ rest)
      × Same ctx x
          (local_get_64 a ∷ local_get_64 b ∷ numeric (numeric_64 op) ∷ [])
          (bin_op_local_local_64 op a b ∷ [])
rewrite_instruction-local_local_64 ctx s idx rest x op a b l r e f h =
    (local_local-rewritten_64 op s idx a b rest, local_local-Same_64 ctx x op a b l r e f h)

-- A 64-bit operation behind operands that are a local and a constant is rewritten to one fused
-- instruction, which does what the three do, apart from where the counter stands after them. The
-- operation is any that can be fused; the locals are on the stack, and it has room for two more
-- values.
pub rewrite_instruction-local_const_64 :
    (ctx : Context) (s : Setting) (idx : ℕ) (rest : List Instruction) (x : Executor) (op : BinOp)
    (a b l : ℕ)
    → get_elem? x.store.value_stack.stack_64.slots (x.cf.locals_base.s_64 + a) ≡ some l
    → length x.store.value_stack.stack_64.slots + 2 ≤ x.store.value_stack.stack_64.capacity
    → (rewrite_instruction s idx (numeric (numeric_64 op)) (const_64 b ∷ local_get_64 a ∷ rest)
        ≡ bin_op_local_const_64 op a b ∷ rest)
      × Same ctx x
          (local_get_64 a ∷ const_64 b ∷ numeric (numeric_64 op) ∷ [])
          (bin_op_local_const_64 op a b ∷ [])
rewrite_instruction-local_const_64 ctx s idx rest x op a b l e h =
    (local_const-rewritten_64 op s idx a b rest, local_const-Same_64 ctx x op a b l e h)

-- Two locals, a 64-bit operation on them and a `local.set` of its result, at the start of any block
-- of the code, are rewritten step by step to one fused instruction, which is all that the block then
-- holds. It does what the four do, apart from the counter, also when the result goes to one of the
-- two. The operation is any that can be fused; the three locals are on the stack, and it has room for
-- two more values.
pub rewrite_rounds-local_local_set_64 :
    (ctx : Context) (s : Setting) (idx : ℕ) (out : Output) (x : Executor) (op : BinOp)
    (a b dst l r : ℕ)
    → get_elem? x.store.value_stack.stack_64.slots (x.cf.locals_base.s_64 + a) ≡ some l
    → get_elem? x.store.value_stack.stack_64.slots (x.cf.locals_base.s_64 + b) ≡ some r
    → x.cf.locals_base.s_64 + dst < length x.store.value_stack.stack_64.slots
    → length x.store.value_stack.stack_64.slots + 2 ≤ x.store.value_stack.stack_64.capacity
    → Block out
        (rewrite_rounds s idx
          (local_get_64 a ∷ local_get_64 b ∷ numeric (numeric_64 op) ∷ local_set_64 dst ∷ [])
          (true ∷ false ∷ false ∷ false ∷ [])
          out)
        (bin_op_local_local_set_64 op a b dst ∷ [])
      × Same ctx x
          (local_get_64 a ∷ local_get_64 b ∷ numeric (numeric_64 op) ∷ local_set_64 dst ∷ [])
          (bin_op_local_local_set_64 op a b dst ∷ [])
rewrite_rounds-local_local_set_64 ctx s idx out x op a b dst l r e f k h = (
  local_local_set-rewritten_64 op s idx a b dst out,
  local_local_set-Same_64 ctx x op a b dst l r e f k h,
)
