-- ===== src/Executor/Coherent/Returns.antt =====
-- crates/tinywasm/src/interpreter/executor.rs: returns keep the executor coherent.
use tinywasm.Prelude.{
  ℕ, ◌≡◌, false, ◌==◌, Option, none, some, Bool-cases, Option-cases, arith, inl, inr,
}
use tinywasm.Stack.Counts.{StackBase}
use tinywasm.Stack.ValueStack.{ValueStack}
use tinywasm.Stack.CallStack
use tinywasm.Stack.CallStack.{CallFrame, CallStack}
use tinywasm.Executor.State.{
  WasmFunctionInstance, Context, Executor, ◌>>◌, get_wasm_func, change, return,
}
use tinywasm.Executor.Calls.{
  set_func, set_frame, switch_module, resume, resumed, finish_return, return_one, exec_return,
  exec_return_void, exec_return_32, exec_return_64, exec_return_128,
}
use tinywasm.Executor.Calm.{moved, read-Calm, change-Calm, expect-Calm}
use tinywasm.Executor.Hoare.{Ends, Triple, bind-Triple, seq-Triple, change-Triple, return-Triple}
use tinywasm.Executor.Coherent.{Behaved, Kept}
use tinywasm.Executor.Coherent.Calls.{switch_module-Triple, start-Triple, calm}

module _ (ctx : Context) (behaved : Behaved ctx) (n : ℕ) where
  -- The caller is another function, which the store has.
  back :
      (caller : CallFrame) (f : WasmFunctionInstance)
      → get_wasm_func ctx caller.func_addr ≡ some f
      → Triple
          (Kept ctx n)
          (do
            change (set_func f.func)
            switch_module ctx f.owner
            change (set_frame caller)
            return false)
          (λ _. Kept ctx n)
  back caller f found = seq-Triple _ (start-Triple ctx behaved n f.func) λ _.
      seq-Triple _ (switch_module-Triple ctx behaved n f (λ _. Unit {0})) λ _.
        seq-Triple (λ _. Kept ctx n)
          (change-Triple (set_frame caller) λ x p.
            (record { owner = f.owner; runs = rw p.0.1 found; owned = p.1; listed = p.0.0 }, p.0.2))
          λ _. return-Triple false

  resume-Triple : (caller : CallFrame) → Triple (Kept ctx n) (resume ctx caller) (λ _. Kept ctx n)
  resume-Triple caller = record {
    holds = λ x p. elim (Bool-cases (caller.func_addr == x.cf.func_addr)) [
      | inl e ↦
          let same : caller.func_addr ≡ x.cf.func_addr = ground arith in
          rw e (
            record {
              owner = p.0.owner;
              runs = rw same p.0.runs;
              owned = p.0.owned;
              listed = p.0.listed;
            },
            p.1,
          )
      | inr e ↦ elim (Option-cases (get_wasm_func ctx caller.func_addr)) [
        | inl g ↦ rw (e, g) tt
        | inr f ↦ rw (e, f.1) ((back caller f.0 f.1).holds x p)
      ]
    ];
  }

  resumed-Ends :
      (o : Option CallFrame) (x : Executor)
      → Kept ctx n x
      → Ends (λ _. Kept ctx n) (resumed ctx o x)
  resumed-Ends none x p = p
  resumed-Ends (some frame) x p = (resume-Triple frame).holds x p

  finish_return-Triple : Triple (Kept ctx n) (finish_return ctx) (λ _. Kept ctx n)
  unfolding finish_return
  finish_return-Triple = record {
    holds = λ x p.
        let o : Option CallFrame × CallStack =
          CallStack.pop_frame x.store.call_stack ctx.call_stack_base in
        resumed-Ends o.0 (record x { store = record x.store { call_stack = o.1 } })
          (
            record { owner = p.0.owner; runs = p.0.runs; owned = p.0.owned; listed = p.0.listed },
            p.1,
          );
  }

  pub exec_return-Triple : Triple (Kept ctx n) (exec_return ctx) (λ _. Kept ctx n)
  unfolding exec_return
  exec_return-Triple =
      seq-Triple _ (calm ctx behaved n _ (change-Calm _ λ x. moved)) λ _. finish_return-Triple

  pub exec_return_void-Triple : Triple (Kept ctx n) (exec_return_void ctx) (λ _. Kept ctx n)
  unfolding exec_return_void
  exec_return_void-Triple =
      seq-Triple _ (calm ctx behaved n _ (change-Calm _ λ x. moved)) λ _. finish_return-Triple

  return_one-Triple :
      (one : ValueStack → StackBase → Option ValueStack)
      → Triple (Kept ctx n) (return_one one ctx) (λ _. Kept ctx n)
  return_one-Triple one = bind-Triple _ (calm ctx behaved n _ (read-Calm _)) λ left.
      bind-Triple _ (calm ctx behaved n _ (expect-Calm left)) λ s.
        seq-Triple _ (calm ctx behaved n _ (change-Calm _ λ x. moved)) λ _. finish_return-Triple

  pub exec_return_32-Triple : Triple (Kept ctx n) (exec_return_32 ctx) (λ _. Kept ctx n)
  unfolding exec_return_32
  exec_return_32-Triple = return_one-Triple _

  pub exec_return_64-Triple : Triple (Kept ctx n) (exec_return_64 ctx) (λ _. Kept ctx n)
  unfolding exec_return_64
  exec_return_64-Triple = return_one-Triple _

  pub exec_return_128-Triple : Triple (Kept ctx n) (exec_return_128 ctx) (λ _. Kept ctx n)
  unfolding exec_return_128
  exec_return_128-Triple = return_one-Triple _
