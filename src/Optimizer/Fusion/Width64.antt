-- ===== src/Optimizer/Fusion/Width64.antt =====
-- crates/tinywasm/src/interpreter/executor.rs: fused instructions of 64 bits and what they replace.
use tinywasm.Prelude.{
  ℕ, ◌+◌, ◌≤◌, ◌≡◌, refl, ◌∙◌, true, false, ltb, le→ltb, lt→ltb, set, ◌<◌, none, some, List, [],
  ◌∷◌, ◌++◌, length, get_elem?, length-append, arith,
}
use tinywasm.Trap.{ok}
use tinywasm.Stack.Lane
use tinywasm.Stack.Lane.Moving.{pop_lem}
use tinywasm.Instructions.{
  BinOp, i_add, i_sub, i_mul, i_and, i_or, i_xor, i_shl, i_shr_s, i_shr_u, i_rotl, i_rotr, f_add,
  f_sub, f_mul, f_div, f_min, f_max, f_copysign, NumericOp, i64_add, i64_sub, i64_mul, i64_and,
  i64_or, i64_xor, i64_shl, i64_shr_s, i64_shr_u, i64_rotl, i64_rotr, f64_add, f64_sub, f64_mul,
  f64_div, f64_min, f64_max, f64_copysign, bin_op_local_local_64, bin_op_local_const_64,
  local_get_64, local_set_64, bin_op_local_local_set_64, const_64, numeric,
}
use tinywasm.Numeric.{exec_binop}
use tinywasm.Executor.State.{Context, Executor, ◌>>=◌, ◌>>◌, expect, change, return, set_stack}
use tinywasm.Executor.Access.{slot_64, stack_push, stack_pop, local_get, local_set}
use tinywasm.Executor.Operators.{binary, local_local, local_const, local_set_pop}
use tinywasm.Executor.Numerics.{exec_numeric}
use tinywasm.Executor.Step.{exec_instruction, advance}
use tinywasm.Optimizer.Fusion.{Same, get-append, run_cons, run_nil, both}

-- The numeric instruction of an operation of the fused instructions.
abbrev pub numeric_64 : BinOp → NumericOp
numeric_64 i_add = i64_add
numeric_64 i_sub = i64_sub
numeric_64 i_mul = i64_mul
numeric_64 i_and = i64_and
numeric_64 i_or = i64_or
numeric_64 i_xor = i64_xor
numeric_64 i_shl = i64_shl
numeric_64 i_shr_s = i64_shr_s
numeric_64 i_shr_u = i64_shr_u
numeric_64 i_rotl = i64_rotl
numeric_64 i_rotr = i64_rotr
numeric_64 f_add = f64_add
numeric_64 f_sub = f64_sub
numeric_64 f_mul = f64_mul
numeric_64 f_div = f64_div
numeric_64 f_min = f64_min
numeric_64 f_max = f64_max
numeric_64 f_copysign = f64_copysign

module _ (ctx : Context) where
  -- The lane of 64 bits with other values.
  abbrev pub put_64 : List ℕ → Executor → Executor
  put_64 xs x =
      set_stack
        (record x.store.value_stack {
          stack_64 = record x.store.value_stack.stack_64 { slots = xs };
        })
        x

  pub push_64 :
      (x : Executor) (xs : List ℕ) (v : ℕ)
      → length xs + 1 ≤ x.store.value_stack.stack_64.capacity
      → stack_push ctx slot_64 v (put_64 xs x) ≡ some (ok tt, put_64 (xs ++ v ∷ []) x)
  unfolding stack_push Lane.push Lane.ensure_capacity_for
  push_64 x xs v h =
      let room : ltb x.store.value_stack.stack_64.capacity (length xs + 1) ≡ false = le→ltb _ _ h in
      rw (stack_push, Lane.push, Lane.ensure_capacity_for, room) refl

  pub pop_64 :
      (x : Executor) (xs : List ℕ) (v : ℕ)
      → stack_pop slot_64 (put_64 (xs ++ v ∷ []) x) ≡ some (ok v, put_64 xs x)
  unfolding stack_pop
  pop_64 x xs v =
      let back : Lane.pop (record x.store.value_stack.stack_64 { slots = xs ++ v ∷ [] })
          ≡ some (v, record x.store.value_stack.stack_64 { slots = xs }) =
        pop_lem (record x.store.value_stack.stack_64 { slots = xs ++ v ∷ [] }) xs v refl in
      rw (stack_pop, back) refl

  get_64 :
      (x : Executor) (xs : List ℕ) (i v : ℕ)
      → get_elem? xs (x.cf.locals_base.s_64 + i) ≡ some v
      → local_get slot_64 i (put_64 xs x) ≡ some (ok v, put_64 xs x)
  unfolding local_get Lane.get expect
  get_64 x xs i v e = rw (local_get, Lane.get, e) refl

  -- The two operands on the stack, and the operation on them.
  binary_64 :
      (x : Executor) (xs : List ℕ) (l r : ℕ) (f : ℕ → ℕ → ℕ)
      → length xs + 1 ≤ x.store.value_stack.stack_64.capacity
      → binary ctx slot_64 slot_64 f (put_64 ((xs ++ l ∷ []) ++ r ∷ []) x)
        ≡ some (ok tt, put_64 (xs ++ f l r ∷ []) x)
  unfolding binary ◌>>=◌
  binary_64 x xs l r f h =
      rw (binary, pop_64 x (xs ++ l ∷ []) r, pop_64 x xs l) (push_64 x xs (f l r) h)

  exec_numeric-binary_64 :
      (op : BinOp)
      → exec_numeric ctx (numeric_64 op) ≡ binary ctx slot_64 slot_64 (exec_binop ctx.floats 64 op)
  unfolding exec_numeric exec_binop
  exec_numeric-binary_64 i_add = refl
  exec_numeric-binary_64 i_sub = refl
  exec_numeric-binary_64 i_mul = refl
  exec_numeric-binary_64 i_and = refl
  exec_numeric-binary_64 i_or = refl
  exec_numeric-binary_64 i_xor = refl
  exec_numeric-binary_64 i_shl = refl
  exec_numeric-binary_64 i_shr_s = refl
  exec_numeric-binary_64 i_shr_u = refl
  exec_numeric-binary_64 i_rotl = refl
  exec_numeric-binary_64 i_rotr = refl
  exec_numeric-binary_64 f_add = refl
  exec_numeric-binary_64 f_sub = refl
  exec_numeric-binary_64 f_mul = refl
  exec_numeric-binary_64 f_div = refl
  exec_numeric-binary_64 f_min = refl
  exec_numeric-binary_64 f_max = refl
  exec_numeric-binary_64 f_copysign = refl

  -- The executor behind one more instruction.
  pub exec-get_64 :
      (x : Executor) (xs : List ℕ) (i v : ℕ)
      → get_elem? xs (x.cf.locals_base.s_64 + i) ≡ some v
      → length xs + 1 ≤ x.store.value_stack.stack_64.capacity
      → exec_instruction ctx (local_get_64 i) (put_64 xs x)
        ≡ some (ok none, put_64 (xs ++ v ∷ []) (advance x))
  unfolding exec_instruction ◌>>=◌ ◌>>◌ change return
  exec-get_64 x xs i v e h = rw (get_64 x xs i v e, push_64 x xs v h) refl

  pub exec-const_64 :
      (x : Executor) (xs : List ℕ) (c : ℕ)
      → length xs + 1 ≤ x.store.value_stack.stack_64.capacity
      → exec_instruction ctx (const_64 c) (put_64 xs x)
        ≡ some (ok none, put_64 (xs ++ c ∷ []) (advance x))
  unfolding exec_instruction ◌>>=◌ ◌>>◌ change return
  exec-const_64 x xs c h = rw (push_64 x xs c h) refl

  pub exec-op_64 :
      (x : Executor) (xs : List ℕ) (op : BinOp) (l r : ℕ)
      → length xs + 1 ≤ x.store.value_stack.stack_64.capacity
      → exec_instruction ctx (numeric (numeric_64 op)) (put_64 ((xs ++ l ∷ []) ++ r ∷ []) x)
        ≡ some (ok none, put_64 (xs ++ exec_binop ctx.floats 64 op l r ∷ []) (advance x))
  unfolding exec_instruction ◌>>◌ change return
  exec-op_64 x xs op l r h =
      rw (exec_numeric-binary_64 op, binary_64 x xs l r (exec_binop ctx.floats 64 op) h) refl

  exec-local_local_64 :
      (x : Executor) (xs : List ℕ) (op : BinOp) (a b l r : ℕ)
      → get_elem? xs (x.cf.locals_base.s_64 + a) ≡ some l
      → get_elem? xs (x.cf.locals_base.s_64 + b) ≡ some r
      → length xs + 1 ≤ x.store.value_stack.stack_64.capacity
      → exec_instruction ctx (bin_op_local_local_64 op a b) (put_64 xs x)
        ≡ some (ok none, put_64 (xs ++ exec_binop ctx.floats 64 op l r ∷ []) (advance x))
  unfolding exec_instruction local_local ◌>>=◌ ◌>>◌ change return
  exec-local_local_64 x xs op a b l r e f h =
      rw (get_64 x xs a l e, get_64 x xs b r f, push_64 x xs (exec_binop ctx.floats 64 op l r) h)
        refl

  exec-local_const_64 :
      (x : Executor) (xs : List ℕ) (op : BinOp) (a c l : ℕ)
      → get_elem? xs (x.cf.locals_base.s_64 + a) ≡ some l
      → length xs + 1 ≤ x.store.value_stack.stack_64.capacity
      → exec_instruction ctx (bin_op_local_const_64 op a c) (put_64 xs x)
        ≡ some (ok none, put_64 (xs ++ exec_binop ctx.floats 64 op l c ∷ []) (advance x))
  unfolding exec_instruction local_const ◌>>=◌ ◌>>◌ change return
  exec-local_const_64 x xs op a c l e h =
      rw (get_64 x xs a l e, push_64 x xs (exec_binop ctx.floats 64 op l c) h) refl

  pub local_local-Same_64 :
      (x : Executor) (op : BinOp) (a b l r : ℕ)
      → get_elem? x.store.value_stack.stack_64.slots (x.cf.locals_base.s_64 + a) ≡ some l
      → get_elem? x.store.value_stack.stack_64.slots (x.cf.locals_base.s_64 + b) ≡ some r
      → length x.store.value_stack.stack_64.slots + 2 ≤ x.store.value_stack.stack_64.capacity
      → Same ctx x
          (local_get_64 a ∷ local_get_64 b ∷ numeric (numeric_64 op) ∷ [])
          (bin_op_local_local_64 op a b ∷ [])
  local_local-Same_64 x op a b l r e f h =
      let xs : List ℕ = x.store.value_stack.stack_64.slots in
      let size : length (xs ++ l ∷ []) ≡ length xs + 1 = length-append xs (l ∷ []) in
      let x₁ : Executor = advance x in
      let x₂ : Executor = advance x₁ in
      let v : ℕ = exec_binop ctx.floats 64 op l r in
      both ctx _ _ x (put_64 (xs ++ v ∷ []) (advance x₂)) (put_64 (xs ++ v ∷ []) x₁)
        (run_cons ctx _ _ _ _ (exec-get_64 x xs a l e (omega (arith, h)))
          ∙ run_cons ctx _ _ _ _
              (exec-get_64 x₁ (xs ++ l ∷ []) b r (get-append xs _ r l f) (omega (arith, h, size)))
          ∙ run_cons ctx _ _ _ _ (exec-op_64 x₂ xs op l r (omega (arith, h)))
          ∙ run_nil ctx _)
        (run_cons ctx _ _ _ _ (exec-local_local_64 x xs op a b l r e f (omega (arith, h)))
          ∙ run_nil ctx _)
        refl

  pub local_const-Same_64 :
      (x : Executor) (op : BinOp) (a c l : ℕ)
      → get_elem? x.store.value_stack.stack_64.slots (x.cf.locals_base.s_64 + a) ≡ some l
      → length x.store.value_stack.stack_64.slots + 2 ≤ x.store.value_stack.stack_64.capacity
      → Same ctx x
          (local_get_64 a ∷ const_64 c ∷ numeric (numeric_64 op) ∷ [])
          (bin_op_local_const_64 op a c ∷ [])
  local_const-Same_64 x op a c l e h =
      let xs : List ℕ = x.store.value_stack.stack_64.slots in
      let size : length (xs ++ l ∷ []) ≡ length xs + 1 = length-append xs (l ∷ []) in
      let x₁ : Executor = advance x in
      let x₂ : Executor = advance x₁ in
      let v : ℕ = exec_binop ctx.floats 64 op l c in
      both ctx _ _ x (put_64 (xs ++ v ∷ []) (advance x₂)) (put_64 (xs ++ v ∷ []) x₁)
        (run_cons ctx _ _ _ _ (exec-get_64 x xs a l e (omega (arith, h)))
          ∙ run_cons ctx _ _ _ _ (exec-const_64 x₁ (xs ++ l ∷ []) c (omega (arith, h, size)))
          ∙ run_cons ctx _ _ _ _ (exec-op_64 x₂ xs op l c (omega (arith, h)))
          ∙ run_nil ctx _)
        (run_cons ctx _ _ _ _ (exec-local_const_64 x xs op a c l e (omega (arith, h)))
          ∙ run_nil ctx _)
        refl

  set_64 :
      (x : Executor) (xs : List ℕ) (i v : ℕ)
      → x.cf.locals_base.s_64 + i < length xs
      → local_set slot_64 i v (put_64 xs x)
        ≡ some (ok tt, put_64 (set xs (x.cf.locals_base.s_64 + i) v) x)
  unfolding local_set Lane.set_at
  set_64 x xs i v h =
      let there : ltb (x.cf.locals_base.s_64 + i) (length xs) ≡ true = lt→ltb _ _ h in
      rw (local_set, Lane.set_at, there) refl

  exec-set_64 :
      (x : Executor) (xs : List ℕ) (i v : ℕ)
      → x.cf.locals_base.s_64 + i < length xs
      → exec_instruction ctx (local_set_64 i) (put_64 (xs ++ v ∷ []) x)
        ≡ some (ok none, put_64 (set xs (x.cf.locals_base.s_64 + i) v) (advance x))
  unfolding exec_instruction local_set_pop ◌>>=◌ ◌>>◌ change return
  exec-set_64 x xs i v h = rw (local_set_pop, pop_64 x xs v, set_64 x xs i v h) refl

  exec-local_local_set_64 :
      (x : Executor) (xs : List ℕ) (op : BinOp) (a b dst l r : ℕ)
      → get_elem? xs (x.cf.locals_base.s_64 + a) ≡ some l
      → get_elem? xs (x.cf.locals_base.s_64 + b) ≡ some r
      → x.cf.locals_base.s_64 + dst < length xs
      → exec_instruction ctx (bin_op_local_local_set_64 op a b dst) (put_64 xs x)
        ≡ some (
          ok none,
          put_64
              (set xs (x.cf.locals_base.s_64 + dst) (exec_binop ctx.floats 64 op l r))
              (advance x),
        )
  unfolding exec_instruction local_local ◌>>=◌ ◌>>◌ change return
  exec-local_local_set_64 x xs op a b dst l r e f h =
      rw (get_64 x xs a l e, get_64 x xs b r f, set_64 x xs dst (exec_binop ctx.floats 64 op l r) h)
        refl

  pub local_local_set-Same_64 :
      (x : Executor) (op : BinOp) (a b dst l r : ℕ)
      → get_elem? x.store.value_stack.stack_64.slots (x.cf.locals_base.s_64 + a) ≡ some l
      → get_elem? x.store.value_stack.stack_64.slots (x.cf.locals_base.s_64 + b) ≡ some r
      → x.cf.locals_base.s_64 + dst < length x.store.value_stack.stack_64.slots
      → length x.store.value_stack.stack_64.slots + 2 ≤ x.store.value_stack.stack_64.capacity
      → Same ctx x
          (local_get_64 a ∷ local_get_64 b ∷ numeric (numeric_64 op) ∷ local_set_64 dst ∷ [])
          (bin_op_local_local_set_64 op a b dst ∷ [])
  local_local_set-Same_64 x op a b dst l r e f k h =
      let xs : List ℕ = x.store.value_stack.stack_64.slots in
      let size : length (xs ++ l ∷ []) ≡ length xs + 1 = length-append xs (l ∷ []) in
      let x₁ : Executor = advance x in
      let x₂ : Executor = advance x₁ in
      let x₃ : Executor = advance x₂ in
      let v : ℕ = exec_binop ctx.floats 64 op l r in
      let ys : List ℕ = set xs (x.cf.locals_base.s_64 + dst) v in
      both ctx _ _ x (put_64 ys (advance x₃)) (put_64 ys x₁)
        (run_cons ctx _ _ _ _ (exec-get_64 x xs a l e (omega (arith, h)))
          ∙ run_cons ctx _ _ _ _
              (exec-get_64 x₁ (xs ++ l ∷ []) b r (get-append xs _ r l f) (omega (arith, h, size)))
          ∙ run_cons ctx _ _ _ _ (exec-op_64 x₂ xs op l r (omega (arith, h)))
          ∙ run_cons ctx _ _ _ _ (exec-set_64 x₃ xs dst v k)
          ∙ run_nil ctx _)
        (run_cons ctx _ _ _ _ (exec-local_local_set_64 x xs op a b dst l r e f k) ∙ run_nil ctx _)
        refl
