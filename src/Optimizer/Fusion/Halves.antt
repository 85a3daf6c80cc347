-- ===== src/Optimizer/Fusion/Halves.antt =====
-- crates/parser/src/optimize.rs: the rules for a shift to the left and back, where they are right: by
-- half the width. Those by 8, and by 16 of a 64-bit value, extend too few bits.
use tinywasm.Prelude.{
  ℕ, ◌+◌, ◌≤◌, ◌≡◌, refl, ap, ◌∙◌, true, false, none, some, List, [], ◌∷◌, ◌++◌, length, get_elem?,
  length-append, arith,
}
use tinywasm.Trap.{ok}
use tinywasm.Instructions.{
  Instruction, i_shl, i_shr_s, local_get_32, local_get_64, const_32, const_64, numeric, i32_shl,
  i32_shr_s, i32_extend16_s, i64_shl, i64_shr_s, i64_extend32_s,
}
use tinywasm.Numeric.{shl, shr_s, extend, exec_binop}
use tinywasm.Numeric.Shifts.{shr_s-shl_32_16, shr_s-shl_64_32}
use tinywasm.Executor.State.{Context, Executor, ◌>>=◌, ◌>>◌, change, return}
use tinywasm.Executor.Operators.{unary}
use tinywasm.Executor.Numerics.{exec_numeric}
use tinywasm.Executor.Jumps.{set_ip}
use tinywasm.Executor.Step.{exec_instruction, advance}
use tinywasm.Optimizer.Jumps
use tinywasm.Optimizer.Rules
use tinywasm.Optimizer.Rules.Locals
use tinywasm.Optimizer.Rewrite
use tinywasm.Optimizer.Rewrite.{Setting, Output, rewrite_rounds}
use tinywasm.Optimizer.Fusion.{Same, run_cons, run_nil, both}
use tinywasm.Optimizer.Fusion.Matched.{Block}
use tinywasm.Optimizer.Fusion.Width32.{
  put_32, push_32, pop_32, exec-get_32, exec-const_32, exec-op_32,
}
use tinywasm.Optimizer.Fusion.Width64.{
  put_64, push_64, pop_64, exec-get_64, exec-const_64, exec-op_64,
}

-- A shift of a local to the left by 16 and back, of 32 bits.
abbrev pub shifted_32 : ℕ → List Instruction
shifted_32 a = local_get_32 a ∷ const_32 16 ∷ numeric i32_shl ∷ const_32 16 ∷ numeric i32_shr_s ∷ []

-- A shift of a local to the left by 32 and back, of 64 bits.
abbrev pub shifted_64 : ℕ → List Instruction
shifted_64 a = local_get_64 a ∷ const_64 32 ∷ numeric i64_shl ∷ const_64 32 ∷ numeric i64_shr_s ∷ []

module _ (ctx : Context) where
  shifted-rewritten_32 :
      (s : Setting) (idx a : ℕ) (out : Output)
      → Block out
          (rewrite_rounds s idx (shifted_32 a) (true ∷ false ∷ false ∷ false ∷ false ∷ []) out)
          (numeric i32_extend16_s ∷ local_get_32 a ∷ [])
  unfolding rewrite_rounds Jumps.is_unconditional_terminator Rewrite.numeric_rules Rules.two
      Locals.tee_again_32 Rules.one Rules.only_if
  shifted-rewritten_32 s idx a out = (_, refl, refl, refl)

  exec-extend_32 :
      (x : Executor) (xs : List ℕ) (v : ℕ)
      → length xs + 1 ≤ x.store.value_stack.stack_32.capacity
      → exec_instruction ctx (numeric i32_extend16_s) (put_32 ctx (xs ++ v ∷ []) x)
        ≡ some (ok none, put_32 ctx (xs ++ extend 16 32 v ∷ []) (advance x))
  unfolding exec_instruction exec_numeric unary ◌>>=◌ ◌>>◌ change return
  exec-extend_32 x xs v h = rw (unary, pop_32 ctx x xs v, push_32 ctx x xs (extend 16 32 v) h) refl

  shifted-Same_32 :
      (x : Executor) (a v : ℕ)
      → get_elem? x.store.value_stack.stack_32.slots (x.cf.locals_base.s_32 + a) ≡ some v
      → length x.store.value_stack.stack_32.slots + 2 ≤ x.store.value_stack.stack_32.capacity
      → Same ctx x (shifted_32 a) (local_get_32 a ∷ numeric i32_extend16_s ∷ [])
  unfolding exec_binop
  shifted-Same_32 x a v e h =
      let xs : List ℕ = x.store.value_stack.stack_32.slots in
      let u : ℕ = shl 32 v 16 in
      let size : length (xs ++ v ∷ []) ≡ length xs + 1 = length-append xs (v ∷ []) in
      let size' : length (xs ++ u ∷ []) ≡ length xs + 1 = length-append xs (u ∷ []) in
      let x₁ : Executor = advance x in
      let x₂ : Executor = advance x₁ in
      let x₃ : Executor = advance x₂ in
      let x₄ : Executor = advance x₃ in
      both ctx _ _ x (put_32 ctx (xs ++ shr_s 32 u 16 ∷ []) (advance x₄))
        (put_32 ctx (xs ++ extend 16 32 v ∷ []) x₂)
        (run_cons ctx _ _ _ _ (exec-get_32 ctx x xs a v e (omega (arith, h)))
          ∙ run_cons ctx _ _ _ _ (exec-const_32 ctx x₁ (xs ++ v ∷ []) 16 (omega (arith, h, size)))
          ∙ run_cons ctx _ _ _ _ (exec-op_32 ctx x₂ xs i_shl v 16 (omega (arith, h)))
          ∙ run_cons ctx _ _ _ _ (exec-const_32 ctx x₃ (xs ++ u ∷ []) 16 (omega (arith, h, size')))
          ∙ run_cons ctx _ _ _ _ (exec-op_32 ctx x₄ xs i_shr_s u 16 (omega (arith, h)))
          ∙ run_nil ctx _)
        (run_cons ctx _ _ _ _ (exec-get_32 ctx x xs a v e (omega (arith, h)))
          ∙ run_cons ctx _ _ _ _ (exec-extend_32 x₁ xs v (omega (arith, h)))
          ∙ run_nil ctx _)
        (ap (λ t. set_ip 0 (put_32 ctx (xs ++ t ∷ []) x)) (shr_s-shl_32_16 v))

  -- A shift of a 32-bit local to the left by 16 and an arithmetic one back, at the start of any block
  -- of the code, are rewritten step by step to the local and one extension of its sign from 16 bits,
  -- which is all that the block then holds. They do the same, apart from the counter. The local is on
  -- the stack, and it has room for two more values.
  pub rewrite_rounds-shifted_32 :
      (s : Setting) (idx : ℕ) (out : Output) (x : Executor) (a v : ℕ)
      → get_elem? x.store.value_stack.stack_32.slots (x.cf.locals_base.s_32 + a) ≡ some v
      → length x.store.value_stack.stack_32.slots + 2 ≤ x.store.value_stack.stack_32.capacity
      → Block out
          (rewrite_rounds s idx (shifted_32 a) (true ∷ false ∷ false ∷ false ∷ false ∷ []) out)
          (numeric i32_extend16_s ∷ local_get_32 a ∷ [])
        × Same ctx x (shifted_32 a) (local_get_32 a ∷ numeric i32_extend16_s ∷ [])
  rewrite_rounds-shifted_32 s idx out x a v e h =
      (shifted-rewritten_32 s idx a out, shifted-Same_32 x a v e h)

  shifted-rewritten_64 :
      (s : Setting) (idx a : ℕ) (out : Output)
      → Block out
          (rewrite_rounds s idx (shifted_64 a) (true ∷ false ∷ false ∷ false ∷ false ∷ []) out)
          (numeric i64_extend32_s ∷ local_get_64 a ∷ [])
  unfolding rewrite_rounds Jumps.is_unconditional_terminator Rewrite.numeric_rules Rules.two
      Locals.tee_again_64 Rules.one Rules.only_if
  shifted-rewritten_64 s idx a out = (_, refl, refl, refl)

  exec-extend_64 :
      (x : Executor) (xs : List ℕ) (v : ℕ)
      → length xs + 1 ≤ x.store.value_stack.stack_64.capacity
      → exec_instruction ctx (numeric i64_extend32_s) (put_64 ctx (xs ++ v ∷ []) x)
        ≡ some (ok none, put_64 ctx (xs ++ extend 32 64 v ∷ []) (advance x))
  unfolding exec_instruction exec_numeric unary ◌>>=◌ ◌>>◌ change return
  exec-extend_64 x xs v h = rw (unary, pop_64 ctx x xs v, push_64 ctx x xs (extend 32 64 v) h) refl

  shifted-Same_64 :
      (x : Executor) (a v : ℕ)
      → get_elem? x.store.value_stack.stack_64.slots (x.cf.locals_base.s_64 + a) ≡ some v
      → length x.store.value_stack.stack_64.slots + 2 ≤ x.store.value_stack.stack_64.capacity
      → Same ctx x (shifted_64 a) (local_get_64 a ∷ numeric i64_extend32_s ∷ [])
  unfolding exec_binop
  shifted-Same_64 x a v e h =
      let xs : List ℕ = x.store.value_stack.stack_64.slots in
      let u : ℕ = shl 64 v 32 in
      let size : length (xs ++ v ∷ []) ≡ length xs + 1 = length-append xs (v ∷ []) in
      let size' : length (xs ++ u ∷ []) ≡ length xs + 1 = length-append xs (u ∷ []) in
      let x₁ : Executor = advance x in
      let x₂ : Executor = advance x₁ in
      let x₃ : Executor = advance x₂ in
      let x₄ : Executor = advance x₃ in
      both ctx _ _ x (put_64 ctx (xs ++ shr_s 64 u 32 ∷ []) (advance x₄))
        (put_64 ctx (xs ++ extend 32 64 v ∷ []) x₂)
        (run_cons ctx _ _ _ _ (exec-get_64 ctx x xs a v e (omega (arith, h)))
          ∙ run_cons ctx _ _ _ _ (exec-const_64 ctx x₁ (xs ++ v ∷ []) 32 (omega (arith, h, size)))
          ∙ run_cons ctx _ _ _ _ (exec-op_64 ctx x₂ xs i_shl v 32 (omega (arith, h)))
          ∙ run_cons ctx _ _ _ _ (exec-const_64 ctx x₃ (xs ++ u ∷ []) 32 (omega (arith, h, size')))
          ∙ run_cons ctx _ _ _ _ (exec-op_64 ctx x₄ xs i_shr_s u 32 (omega (arith, h)))
          ∙ run_nil ctx _)
        (run_cons ctx _ _ _ _ (exec-get_64 ctx x xs a v e (omega (arith, h)))
          ∙ run_cons ctx _ _ _ _ (exec-extend_64 x₁ xs v (omega (arith, h)))
          ∙ run_nil ctx _)
        (ap (λ t. set_ip 0 (put_64 ctx (xs ++ t ∷ []) x)) (shr_s-shl_64_32 v))

  -- A shift of a 64-bit local to the left by 32 and an arithmetic one back, at the start of any block
  -- of the code, are rewritten step by step to the local and one extension of its sign from 32 bits,
  -- which is all that the block then holds. They do the same, apart from the counter. The local is on
  -- the stack, and it has room for two more values.
  pub rewrite_rounds-shifted_64 :
      (s : Setting) (idx : ℕ) (out : Output) (x : Executor) (a v : ℕ)
      → get_elem? x.store.value_stack.stack_64.slots (x.cf.locals_base.s_64 + a) ≡ some v
      → length x.store.value_stack.stack_64.slots + 2 ≤ x.store.value_stack.stack_64.capacity
      → Block out
          (rewrite_rounds s idx (shifted_64 a) (true ∷ false ∷ false ∷ false ∷ false ∷ []) out)
          (numeric i64_extend32_s ∷ local_get_64 a ∷ [])
        × Same ctx x (shifted_64 a) (local_get_64 a ∷ numeric i64_extend32_s ∷ [])
  rewrite_rounds-shifted_64 s idx out x a v e h =
      (shifted-rewritten_64 s idx a out, shifted-Same_64 x a v e h)
