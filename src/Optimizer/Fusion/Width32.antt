-- ===== src/Optimizer/Fusion/Width32.antt =====
-- crates/tinywasm/src/interpreter/executor.rs: fused instructions of 32 bits and what they replace.
use tinywasm.Prelude.{
  ℕ, ◌+◌, ◌≤◌, ◌≡◌, refl, ◌∙◌, true, false, ltb, le→ltb, lt→ltb, set, ◌<◌, none, some, List, [],
  ◌∷◌, ◌++◌, length, get_elem?, length-append, arith,
}
use tinywasm.Trap.{ok}
use tinywasm.Stack.Lane
use tinywasm.Stack.Lane.Moving.{pop_lem}
use tinywasm.Instructions.{
  BinOp, i_add, i_sub, i_mul, i_and, i_or, i_xor, i_shl, i_shr_s, i_shr_u, i_rotl, i_rotr, f_add,
  f_sub, f_mul, f_div, f_min, f_max, f_copysign, NumericOp, i32_add, i32_sub, i32_mul, i32_and,
  i32_or, i32_xor, i32_shl, i32_shr_s, i32_shr_u, i32_rotl, i32_rotr, f32_add, f32_sub, f32_mul,
  f32_div, f32_min, f32_max, f32_copysign, bin_op_local_local_32, bin_op_local_const_32,
  local_get_32, local_set_32, bin_op_local_local_set_32, const_32, numeric,
}
use tinywasm.Numeric.{exec_binop}
use tinywasm.Executor.State.{Context, Executor, ◌>>=◌, ◌>>◌, expect, change, return, set_stack}
use tinywasm.Executor.Access.{slot_32, stack_push, stack_pop, local_get, local_set}
use tinywasm.Executor.Operators.{binary, local_local, local_const, local_set_pop}
use tinywasm.Executor.Numerics.{exec_numeric}
use tinywasm.Executor.Step.{exec_instruction, advance}
use tinywasm.Optimizer.Fusion.{Same, get-append, run_cons, run_nil, both}

-- The numeric instruction of an operation of the fused instructions.
abbrev pub numeric_32 : BinOp → NumericOp
numeric_32 i_add = i32_add
numeric_32 i_sub = i32_sub
numeric_32 i_mul = i32_mul
numeric_32 i_and = i32_and
numeric_32 i_or = i32_or
numeric_32 i_xor = i32_xor
numeric_32 i_shl = i32_shl
numeric_32 i_shr_s = i32_shr_s
numeric_32 i_shr_u = i32_shr_u
numeric_32 i_rotl = i32_rotl
numeric_32 i_rotr = i32_rotr
numeric_32 f_add = f32_add
numeric_32 f_sub = f32_sub
numeric_32 f_mul = f32_mul
numeric_32 f_div = f32_div
numeric_32 f_min = f32_min
numeric_32 f_max = f32_max
numeric_32 f_copysign = f32_copysign

module _ (ctx : Context) where
  -- The lane of 32 bits with other values.
  abbrev pub put_32 : List ℕ → Executor → Executor
  put_32 xs x =
      set_stack
        (record x.store.value_stack {
          stack_32 = record x.store.value_stack.stack_32 { slots = xs };
        })
        x

  pub push_32 :
      (x : Executor) (xs : List ℕ) (v : ℕ)
      → length xs + 1 ≤ x.store.value_stack.stack_32.capacity
      → stack_push ctx slot_32 v (put_32 xs x) ≡ some (ok tt, put_32 (xs ++ v ∷ []) x)
  unfolding stack_push Lane.push Lane.ensure_capacity_for
  push_32 x xs v h =
      let room : ltb x.store.value_stack.stack_32.capacity (length xs + 1) ≡ false = le→ltb _ _ h in
      rw (stack_push, Lane.push, Lane.ensure_capacity_for, room) refl

  pub pop_32 :
      (x : Executor) (xs : List ℕ) (v : ℕ)
      → stack_pop slot_32 (put_32 (xs ++ v ∷ []) x) ≡ some (ok v, put_32 xs x)
  unfolding stack_pop
  pop_32 x xs v =
      let back : Lane.pop (record x.store.value_stack.stack_32 { slots = xs ++ v ∷ [] })
          ≡ some (v, record x.store.value_stack.stack_32 { slots = xs }) =
        pop_lem (record x.store.value_stack.stack_32 { slots = xs ++ v ∷ [] }) xs v refl in
      rw (stack_pop, back) refl

  get_32 :
      (x : Executor) (xs : List ℕ) (i v : ℕ)
      → get_elem? xs (x.cf.locals_base.s_32 + i) ≡ some v
      → local_get slot_32 i (put_32 xs x) ≡ some (ok v, put_32 xs x)
  unfolding local_get Lane.get expect
  get_32 x xs i v e = rw (local_get, Lane.get, e) refl

  -- The two operands on the stack, and the operation on them.
  binary_32 :
      (x : Executor) (xs : List ℕ) (l r : ℕ) (f : ℕ → ℕ → ℕ)
      → length xs + 1 ≤ x.store.value_stack.stack_32.capacity
      → binary ctx slot_32 slot_32 f (put_32 ((xs ++ l ∷ []) ++ r ∷ []) x)
        ≡ some (ok tt, put_32 (xs ++ f l r ∷ []) x)
  unfolding binary ◌>>=◌
  binary_32 x xs l r f h =
      rw (binary, pop_32 x (xs ++ l ∷ []) r, pop_32 x xs l) (push_32 x xs (f l r) h)

  exec_numeric-binary_32 :
      (op : BinOp)
      → exec_numeric ctx (numeric_32 op) ≡ binary ctx slot_32 slot_32 (exec_binop ctx.floats 32 op)
  unfolding exec_numeric exec_binop
  exec_numeric-binary_32 i_add = refl
  exec_numeric-binary_32 i_sub = refl
  exec_numeric-binary_32 i_mul = refl
  exec_numeric-binary_32 i_and = refl
  exec_numeric-binary_32 i_or = refl
  exec_numeric-binary_32 i_xor = refl
  exec_numeric-binary_32 i_shl = refl
  exec_numeric-binary_32 i_shr_s = refl
  exec_numeric-binary_32 i_shr_u = refl
  exec_numeric-binary_32 i_rotl = refl
  exec_numeric-binary_32 i_rotr = refl
  exec_numeric-binary_32 f_add = refl
  exec_numeric-binary_32 f_sub = refl
  exec_numeric-binary_32 f_mul = refl
  exec_numeric-binary_32 f_div = refl
  exec_numeric-binary_32 f_min = refl
  exec_numeric-binary_32 f_max = refl
  exec_numeric-binary_32 f_copysign = refl

  -- The executor behind one more instruction.
  pub exec-get_32 :
      (x : Executor) (xs : List ℕ) (i v : ℕ)
      → get_elem? xs (x.cf.locals_base.s_32 + i) ≡ some v
      → length xs + 1 ≤ x.store.value_stack.stack_32.capacity
      → exec_instruction ctx (local_get_32 i) (put_32 xs x)
        ≡ some (ok none, put_32 (xs ++ v ∷ []) (advance x))
  unfolding exec_instruction ◌>>=◌ ◌>>◌ change return
  exec-get_32 x xs i v e h = rw (get_32 x xs i v e, push_32 x xs v h) refl

  pub exec-const_32 :
      (x : Executor) (xs : List ℕ) (c : ℕ)
      → length xs + 1 ≤ x.store.value_stack.stack_32.capacity
      → exec_instruction ctx (const_32 c) (put_32 xs x)
        ≡ some (ok none, put_32 (xs ++ c ∷ []) (advance x))
  unfolding exec_instruction ◌>>=◌ ◌>>◌ change return
  exec-const_32 x xs c h = rw (push_32 x xs c h) refl

  pub exec-op_32 :
      (x : Executor) (xs : List ℕ) (op : BinOp) (l r : ℕ)
      → length xs + 1 ≤ x.store.value_stack.stack_32.capacity
      → exec_instruction ctx (numeric (numeric_32 op)) (put_32 ((xs ++ l ∷ []) ++ r ∷ []) x)
        ≡ some (ok none, put_32 (xs ++ exec_binop ctx.floats 32 op l r ∷ []) (advance x))
  unfolding exec_instruction ◌>>◌ change return
  exec-op_32 x xs op l r h =
      rw (exec_numeric-binary_32 op, binary_32 x xs l r (exec_binop ctx.floats 32 op) h) refl

  exec-local_local_32 :
      (x : Executor) (xs : List ℕ) (op : BinOp) (a b l r : ℕ)
      → get_elem? xs (x.cf.locals_base.s_32 + a) ≡ some l
      → get_elem? xs (x.cf.locals_base.s_32 + b) ≡ some r
      → length xs + 1 ≤ x.store.value_stack.stack_32.capacity
      → exec_instruction ctx (bin_op_local_local_32 op a b) (put_32 xs x)
        ≡ some (ok none, put_32 (xs ++ exec_binop ctx.floats 32 op l r ∷ []) (advance x))
  unfolding exec_instruction local_local ◌>>=◌ ◌>>◌ change return
  exec-local_local_32 x xs op a b l r e f h =
      rw (get_32 x xs a l e, get_32 x xs b r f, push_32 x xs (exec_binop ctx.floats 32 op l r) h)
        refl

  exec-local_const_32 :
      (x : Executor) (xs : List ℕ) (op : BinOp) (a c l : ℕ)
      → get_elem? xs (x.cf.locals_base.s_32 + a) ≡ some l
      → length xs + 1 ≤ x.store.value_stack.stack_32.capacity
      → exec_instruction ctx (bin_op_local_const_32 op a c) (put_32 xs x)
        ≡ some (ok none, put_32 (xs ++ exec_binop ctx.floats 32 op l c ∷ []) (advance x))
  unfolding exec_instruction local_const ◌>>=◌ ◌>>◌ change return
  exec-local_const_32 x xs op a c l e h =
      rw (get_32 x xs a l e, push_32 x xs (exec_binop ctx.floats 32 op l c) h) refl

  pub local_local-Same_32 :
      (x : Executor) (op : BinOp) (a b l r : ℕ)
      → get_elem? x.store.value_stack.stack_32.slots (x.cf.locals_base.s_32 + a) ≡ some l
      → get_elem? x.store.value_stack.stack_32.slots (x.cf.locals_base.s_32 + b) ≡ some r
      → length x.store.value_stack.stack_32.slots + 2 ≤ x.store.value_stack.stack_32.capacity
      → Same ctx x
          (local_get_32 a ∷ local_get_32 b ∷ numeric (numeric_32 op) ∷ [])
          (bin_op_local_local_32 op a b ∷ [])
  local_local-Same_32 x op a b l r e f h =
      let xs : List ℕ = x.store.value_stack.stack_32.slots in
      let size : length (xs ++ l ∷ []) ≡ length xs + 1 = length-append xs (l ∷ []) in
      let x₁ : Executor = advance x in
      let x₂ : Executor = advance x₁ in
      let v : ℕ = exec_binop ctx.floats 32 op l r in
      both ctx _ _ x (put_32 (xs ++ v ∷ []) (advance x₂)) (put_32 (xs ++ v ∷ []) x₁)
        (run_cons ctx _ _ _ _ (exec-get_32 x xs a l e (omega (arith, h)))
          ∙ run_cons ctx _ _ _ _
              (exec-get_32 x₁ (xs ++ l ∷ []) b r (get-append xs _ r l f) (omega (arith, h, size)))
          ∙ run_cons ctx _ _ _ _ (exec-op_32 x₂ xs op l r (omega (arith, h)))
          ∙ run_nil ctx _)
        (run_cons ctx _ _ _ _ (exec-local_local_32 x xs op a b l r e f (omega (arith, h)))
          ∙ run_nil ctx _)
        refl

  pub local_const-Same_32 :
      (x : Executor) (op : BinOp) (a c l : ℕ)
      → get_elem? x.store.value_stack.stack_32.slots (x.cf.locals_base.s_32 + a) ≡ some l
      → length x.store.value_stack.stack_32.slots + 2 ≤ x.store.value_stack.stack_32.capacity
      → Same ctx x
          (local_get_32 a ∷ const_32 c ∷ numeric (numeric_32 op) ∷ [])
          (bin_op_local_const_32 op a c ∷ [])
  local_const-Same_32 x op a c l e h =
      let xs : List ℕ = x.store.value_stack.stack_32.slots in
      let size : length (xs ++ l ∷ []) ≡ length xs + 1 = length-append xs (l ∷ []) in
      let x₁ : Executor = advance x in
      let x₂ : Executor = advance x₁ in
      let v : ℕ = exec_binop ctx.floats 32 op l c in
      both ctx _ _ x (put_32 (xs ++ v ∷ []) (advance x₂)) (put_32 (xs ++ v ∷ []) x₁)
        (run_cons ctx _ _ _ _ (exec-get_32 x xs a l e (omega (arith, h)))
          ∙ run_cons ctx _ _ _ _ (exec-const_32 x₁ (xs ++ l ∷ []) c (omega (arith, h, size)))
          ∙ run_cons ctx _ _ _ _ (exec-op_32 x₂ xs op l c (omega (arith, h)))
          ∙ run_nil ctx _)
        (run_cons ctx _ _ _ _ (exec-local_const_32 x xs op a c l e (omega (arith, h)))
          ∙ run_nil ctx _)
        refl

  set_32 :
      (x : Executor) (xs : List ℕ) (i v : ℕ)
      → x.cf.locals_base.s_32 + i < length xs
      → local_set slot_32 i v (put_32 xs x)
        ≡ some (ok tt, put_32 (set xs (x.cf.locals_base.s_32 + i) v) x)
  unfolding local_set Lane.set_at
  set_32 x xs i v h =
      let there : ltb (x.cf.locals_base.s_32 + i) (length xs) ≡ true = lt→ltb _ _ h in
      rw (local_set, Lane.set_at, there) refl

  exec-set_32 :
      (x : Executor) (xs : List ℕ) (i v : ℕ)
      → x.cf.locals_base.s_32 + i < length xs
      → exec_instruction ctx (local_set_32 i) (put_32 (xs ++ v ∷ []) x)
        ≡ some (ok none, put_32 (set xs (x.cf.locals_base.s_32 + i) v) (advance x))
  unfolding exec_instruction local_set_pop ◌>>=◌ ◌>>◌ change return
  exec-set_32 x xs i v h = rw (local_set_pop, pop_32 x xs v, set_32 x xs i v h) refl

  exec-local_local_set_32 :
      (x : Executor) (xs : List ℕ) (op : BinOp) (a b dst l r : ℕ)
      → get_elem? xs (x.cf.locals_base.s_32 + a) ≡ some l
      → get_elem? xs (x.cf.locals_base.s_32 + b) ≡ some r
      → x.cf.locals_base.s_32 + dst < length xs
      → exec_instruction ctx (bin_op_local_local_set_32 op a b dst) (put_32 xs x)
        ≡ some (
          ok none,
          put_32
              (set xs (x.cf.locals_base.s_32 + dst) (exec_binop ctx.floats 32 op l r))
              (advance x),
        )
  unfolding exec_instruction local_local ◌>>=◌ ◌>>◌ change return
  exec-local_local_set_32 x xs op a b dst l r e f h =
      rw (get_32 x xs a l e, get_32 x xs b r f, set_32 x xs dst (exec_binop ctx.floats 32 op l r) h)
        refl

  pub local_local_set-Same_32 :
      (x : Executor) (op : BinOp) (a b dst l r : ℕ)
      → get_elem? x.store.value_stack.stack_32.slots (x.cf.locals_base.s_32 + a) ≡ some l
      → get_elem? x.store.value_stack.stack_32.slots (x.cf.locals_base.s_32 + b) ≡ some r
      → x.cf.locals_base.s_32 + dst < length x.store.value_stack.stack_32.slots
      → length x.store.value_stack.stack_32.slots + 2 ≤ x.store.value_stack.stack_32.capacity
      → Same ctx x
          (local_get_32 a ∷ local_get_32 b ∷ numeric (numeric_32 op) ∷ local_set_32 dst ∷ [])
          (bin_op_local_local_set_32 op a b dst ∷ [])
  local_local_set-Same_32 x op a b dst l r e f k h =
      let xs : List ℕ = x.store.value_stack.stack_32.slots in
      let size : length (xs ++ l ∷ []) ≡ length xs + 1 = length-append xs (l ∷ []) in
      let x₁ : Executor = advance x in
      let x₂ : Executor = advance x₁ in
      let x₃ : Executor = advance x₂ in
      let v : ℕ = exec_binop ctx.floats 32 op l r in
      let ys : List ℕ = set xs (x.cf.locals_base.s_32 + dst) v in
      both ctx _ _ x (put_32 ys (advance x₃)) (put_32 ys x₁)
        (run_cons ctx _ _ _ _ (exec-get_32 x xs a l e (omega (arith, h)))
          ∙ run_cons ctx _ _ _ _
              (exec-get_32 x₁ (xs ++ l ∷ []) b r (get-append xs _ r l f) (omega (arith, h, size)))
          ∙ run_cons ctx _ _ _ _ (exec-op_32 x₂ xs op l r (omega (arith, h)))
          ∙ run_cons ctx _ _ _ _ (exec-set_32 x₃ xs dst v k)
          ∙ run_nil ctx _)
        (run_cons ctx _ _ _ _ (exec-local_local_set_32 x xs op a b dst l r e f k) ∙ run_nil ctx _)
        refl
