-- ===== src/Executor/Coherent/Calls.antt =====
-- crates/tinywasm/src/interpreter/executor.rs: calls keep the executor coherent.
use tinywasm.Prelude.{
  ℕ, ◌-◌, ◌≤◌, ◌≡◌, refl, sym, ◌∙◌, ap, Bool, true, false, ◌==◌, if◌then◌else◌, Option, none, some,
  List, get_elem?, Bool-cases, Option-cases, arith, subst, inl, inr,
}
use tinywasm.Trap.{Result, ok, err, call_stack_overflow}
use tinywasm.Stack.Counts.{StackBase}
use tinywasm.Stack.Values.{WasmType}
use tinywasm.Stack.ValueStack
use tinywasm.Stack.ValueStack.{ValueStack}
use tinywasm.Stack.ValueStack.RoundTrip.{reverse}
use tinywasm.Stack.CallStack.{CallFrame, new_frame}
use tinywasm.Executor.State.{
  WasmFunction, WasmFunctionInstance, FunctionInstance, wasm, host_func, Store, Context, Executor,
  Run, get_wasm_func, change, set_stack,
}
use tinywasm.Executor.Calls.{
  set_func, set_frame, charge_call_fuel, enter, push_frame, switch_module, exec_call,
  exec_return_call, exec_call_host, resolve_func_addr, exec_call_direct, exec_return_call_direct,
  call_instance, return_call_instance, exec_call_self, exec_return_call_self, fuel_cost_call_total,
}
use tinywasm.Executor.Calm.{
  Quiet, Calm, Post, moved, bind-Calm, read-Calm, change-Calm, expect-Calm, lift-Calm,
}
use tinywasm.Executor.Hoare.{
  Ends, Triple, Stable, bind-Triple, seq-Triple, change-Triple, read-Triple, expect-Triple,
  Calm-Triple,
}
use tinywasm.Executor.Coherent.{Listed, Behaved, Fuel, Kept, Kept-Stable}

module _ (ctx : Context) (behaved : Behaved ctx) where
  -- What is left of the invariant while a call is under way, for a condition on the frame.
  abbrev pub Calling : ℕ → WasmFunction → (CallFrame → Type 0) → Executor → Type 0
  Calling n f C x = Listed ctx x × (x.func ≡ f) × Fuel n x × C x.cf

  enter-Calm : (g : WasmFunction) → Calm (enter ctx g)
  unfolding enter Calm
  enter-Calm g x = entered (ValueStack.enter_locals ctx.host x.store.value_stack g.params g.locals)
    where
      entered :
          (o : Result StackBase × ValueStack)
          → Post {A = StackBase} (Quiet x) (elim o.0 [
            | err e ↦ some (err call_stack_overflow, set_stack o.1 x)
            | ok base ↦ some (ok base, set_stack o.1 x)
          ])
      entered (err e, s) = moved
      entered (ok base, s) = moved

  push_frame-Calm : Calm (push_frame ctx)
  unfolding push_frame Calm
  push_frame-Calm x = record {
    same_addr = refl;
    same_func = refl;
    same_module = refl;
    same_fuel = refl;
  }

  -- The steps of a call before the frame changes.
  through :
      {A : Type 0} (n : ℕ) (f : WasmFunction) (run : Run A)
      → Calm run
      → Triple (Calling n f (λ _. Unit {0})) run (λ _. Calling n f (λ _. Unit {0}))
  through n f run =
      Calm-Triple (λ x y q p. (rw q.same_module p.0, q.same_func ∙ p.1, rw q.same_fuel p.2, tt)) run

  pub switch_module-Triple :
      (n : ℕ) (f : WasmFunctionInstance) (C : CallFrame → Type 0)
      → Triple
          (Calling n f.func C)
          (switch_module ctx f.owner)
          (λ _ x. Calling n f.func C x × (f.owner ≡ x.module_instance.idx))
  unfolding switch_module
  switch_module-Triple n f C = record {
    holds = λ x p. elim (Bool-cases (f.owner == x.module_instance.idx)) [
      | inl e ↦
          let same : f.owner ≡ x.module_instance.idx = ground arith in
          rw (switch_module, e) (p, same)
      | inr e ↦ elim (Option-cases (get_elem? ctx.modules f.owner)) [
        | inl g ↦ rw (switch_module, e, g) tt
        | inr m ↦
            let idx : m.0.idx ≡ f.owner = behaved.indexed f.owner m.0 m.1 in
            rw (switch_module, e, m.1)
              (
                (subst (λ i. get_elem? ctx.modules i ≡ some m.0) (sym idx) m.1, p.1, p.2, p.3),
                sym idx,
              )
      ]
    ];
  }

  -- The frame of the function that is entered.
  abbrev At : ℕ → CallFrame → Type 0
  At addr cf = cf.func_addr ≡ addr

  arrived :
      (n : ℕ) (f : WasmFunctionInstance) (addr : ℕ)
      → get_wasm_func ctx addr ≡ some f
      → Triple (Calling n f.func (At addr)) (switch_module ctx f.owner) (λ _. Kept ctx n)
  arrived n f addr found = record {
    holds = λ x p.
        settle (switch_module ctx f.owner x) ((switch_module-Triple n f (At addr)).holds x p);
  }
    where
      settle :
          (o : Option (Result (Unit {0}) × Executor))
          → Ends (λ _ x. Calling n f.func (At addr) x × (f.owner ≡ x.module_instance.idx)) o
          → Ends (λ _. Kept ctx n) o
      settle none h = tt
      settle (some (err e, x)) h = tt
      settle (some (ok u, x)) h = (
        record { owner = f.owner; runs = rw (h.0.3, h.0.1) found; owned = h.1; listed = h.0.0 },
        h.0.2,
      )

  -- A call from a coherent executor, to the function found at the address.
  pub start-Triple :
      (n : ℕ) (f : WasmFunction)
      → Triple (Kept ctx n) (change (set_func f)) (λ _. Calling n f (λ _. Unit {0}))
  start-Triple n f = change-Triple (set_func f) λ x p. (p.0.listed, refl, p.1, tt)

  enter_frame :
      (n : ℕ) (f : WasmFunctionInstance) (addr : ℕ) (cf : CallFrame)
      → cf.func_addr ≡ addr
      → Triple
          (Calling n f.func (λ _. Unit {0}))
          (change (set_frame cf))
          (λ _. Calling n f.func (At addr))
  enter_frame n f addr cf e = change-Triple (set_frame cf) λ x p. (p.0, p.1, p.2, e)

  exec_call-Triple :
      (n : ℕ) (f : WasmFunctionInstance) (addr : ℕ)
      → get_wasm_func ctx addr ≡ some f
      → Triple (Kept ctx n) (exec_call ctx f addr) (λ _. Kept ctx n)
  unfolding exec_call new_frame
  exec_call-Triple n f addr found = seq-Triple _ (start-Triple n f.func) λ _.
      bind-Triple _ (through n f.func _ (enter-Calm f.func)) λ base.
        seq-Triple _ (through n f.func _ push_frame-Calm) λ _.
          seq-Triple _ (enter_frame n f addr (new_frame addr base f.func.locals) refl)
            λ _. arrived n f addr found

  exec_return_call-Triple :
      (n : ℕ) (f : WasmFunctionInstance) (addr : ℕ)
      → get_wasm_func ctx addr ≡ some f
      → Triple (Kept ctx n) (exec_return_call ctx f addr) (λ _. Kept ctx n)
  unfolding exec_return_call new_frame
  exec_return_call-Triple n f addr found = seq-Triple _ (start-Triple n f.func) λ _.
      seq-Triple _ (through n f.func _ (change-Calm _ λ x. moved)) λ _.
        bind-Triple _ (through n f.func _ (enter-Calm f.func)) λ base.
          seq-Triple _ (enter_frame n f addr (new_frame addr base f.func.locals) refl)
            λ _. arrived n f addr found

  -- The fuel after a charge of `extra`.
  abbrev burn : ℕ → Executor → Executor
  burn extra x = record x {
    store = record x.store { execution_fuel = x.store.execution_fuel - extra };
  }

  charged :
      (n extra : ℕ) (b : Bool) (x : Executor)
      → Kept ctx n x
      → Kept ctx n (if b then burn extra x else x)
  charged n extra false x p = p
  charged n extra true x p = (
    record { owner = p.0.owner; runs = p.0.runs; owned = p.0.owned; listed = p.0.listed },
    omega (arith, p.1),
  )

  charge_call_fuel-Triple :
      (n cost : ℕ) → Triple (Kept ctx n) (charge_call_fuel ctx cost) (λ _. Kept ctx n)
  unfolding charge_call_fuel
  charge_call_fuel-Triple n cost =
      change-Triple _ (charged n (if ctx.weighted then cost - 1 else 0) ctx.budgeted)

  -- Another store of no more fuel, and another place in the same function.
  other_store :
      (n : ℕ) (x : Executor) (s : Store)
      → s.execution_fuel ≤ n
      → Kept ctx n x
      → Kept ctx n (record x { store = s })
  other_store n x s h p =
      (record { owner = p.0.owner; runs = p.0.runs; owned = p.0.owned; listed = p.0.listed }, h)

  exec_call_host-Triple :
      (n index : ℕ) (params : List WasmType)
      → Triple (Kept ctx n) (exec_call_host ctx index params) (λ _. Kept ctx n)
  unfolding exec_call_host
  exec_call_host-Triple n index params = bind-Triple _ (Calm-Triple stable _ (read-Calm _)) λ s.
      bind-Triple _ (Calm-Triple stable _ (expect-Calm _)) λ popped.
        seq-Triple _ (Calm-Triple stable _ (change-Calm _ λ x. moved)) λ _.
          bind-Triple _ read-Triple λ answer.
            seq-Triple (λ _. Kept ctx n)
              (change-Triple _ λ x p.
                other_store n x answer.1
                  (let frugal : (ctx.call_host index x.module_instance.idx (reverse popped.0)
                          x.store).1.execution_fuel
                        ≤ x.store.execution_fuel =
                      behaved.frugal index x.module_instance.idx (reverse popped.0) x.store in
                    let same : (ctx.call_host index x.module_instance.idx (reverse popped.0)
                          x.store).1.execution_fuel
                        ≡ answer.1.execution_fuel =
                      ap (λ a. a.1.execution_fuel) p.0 in
                    omega (arith, frugal, same, p.1.1))
                  p.1)
              λ _. bind-Triple _ (Calm-Triple stable _ (lift-Calm _)) λ res.
                bind-Triple _ (Calm-Triple stable _ (read-Calm _)) λ stack.
                  seq-Triple _ (Calm-Triple stable _ (change-Calm _ λ x. moved)) λ _.
                    seq-Triple _ (Calm-Triple stable _ (lift-Calm _)) λ _. Calm-Triple stable _ (
                      change-Calm _ λ x. record {
                        same_addr = refl;
                        same_func = refl;
                        same_module = refl;
                        same_fuel = refl;
                      })
    where
      stable : Stable (Kept ctx n)
      stable = Kept-Stable ctx n

  -- An access to the stack, as a step of a call.
  pub calm :
      {A : Type 0} (n : ℕ) (run : Run A) → Calm run → Triple (Kept ctx n) run (λ _. Kept ctx n)
  calm n run = Calm-Triple (Kept-Stable ctx n) run

  resolve_func_addr-Calm : (v : ℕ) → Calm (resolve_func_addr v)
  unfolding resolve_func_addr
  resolve_func_addr-Calm v = bind-Calm _ _ (read-Calm _) λ o. expect-Calm o

  get_wasm_func-found :
      (f : WasmFunctionInstance) (addr : ℕ)
      → get_elem? ctx.funcs addr ≡ some (wasm f)
      → get_wasm_func ctx addr ≡ some f
  unfolding get_wasm_func
  get_wasm_func-found f addr e = rw (get_wasm_func, e) refl

  called-Triple :
      (n : ℕ) (o : FunctionInstance) (addr : ℕ)
      → get_elem? ctx.funcs addr ≡ some o
      → Triple (Kept ctx n) (call_instance ctx o addr) (λ _. Kept ctx n)
  called-Triple n (wasm f) addr e = exec_call-Triple n f addr (get_wasm_func-found f addr e)
  called-Triple n (host_func index params) addr e = exec_call_host-Triple n index params

  return_called-Triple :
      (n : ℕ) (o : FunctionInstance) (addr : ℕ)
      → get_elem? ctx.funcs addr ≡ some o
      → Triple (Kept ctx n) (return_call_instance ctx o addr) (λ _. Kept ctx n)
  return_called-Triple n (wasm f) addr e =
      exec_return_call-Triple n f addr (get_wasm_func-found f addr e)
  return_called-Triple n (host_func index params) addr e = exec_call_host-Triple n index params

  -- A condition on the answer that does not depend on the executor.
  given :
      {B : Type 0} {n : ℕ} {E : Type 0} {run : Run B} {Q : B → Executor → Type 0}
      → (E → Triple (Kept ctx n) run Q)
      → Triple (λ x. E × Kept ctx n x) run Q
  given t = record { holds = λ x p. (t p.0).holds x p.1 }

  pub exec_call_direct-Triple :
      (n v : ℕ) → Triple (Kept ctx n) (exec_call_direct ctx v) (λ _. Kept ctx n)
  unfolding exec_call_direct
  exec_call_direct-Triple n v = seq-Triple _ (charge_call_fuel-Triple n fuel_cost_call_total) λ _.
      bind-Triple _ (calm n _ (resolve_func_addr-Calm v))
        λ addr. bind-Triple _ (expect-Triple _) λ f. given λ e. called-Triple n f addr e

  pub exec_return_call_direct-Triple :
      (n v : ℕ) → Triple (Kept ctx n) (exec_return_call_direct ctx v) (λ _. Kept ctx n)
  unfolding exec_return_call_direct
  exec_return_call_direct-Triple n v =
      seq-Triple _ (charge_call_fuel-Triple n fuel_cost_call_total) λ _.
        bind-Triple _ (calm n _ (resolve_func_addr-Calm v))
          λ addr. bind-Triple _ (expect-Triple _) λ f. given λ e. return_called-Triple n f addr e

  -- The frame of the function that runs, entered again.
  again :
      (n : ℕ) (base : StackBase) (f : WasmFunction)
      → Triple
          (Kept ctx n)
          (change (λ x. set_frame (new_frame x.cf.func_addr base f.locals) x))
          (λ _. Kept ctx n)
  unfolding new_frame
  again n base f = calm n _ (
      change-Calm _
        λ x. record { same_addr = refl; same_func = refl; same_module = refl; same_fuel = refl })

  pub exec_call_self-Triple : (n : ℕ) → Triple (Kept ctx n) (exec_call_self ctx) (λ _. Kept ctx n)
  unfolding exec_call_self
  exec_call_self-Triple n = seq-Triple _ (charge_call_fuel-Triple n fuel_cost_call_total) λ _.
      seq-Triple _ (calm n _ push_frame-Calm) λ _.
        bind-Triple _ (calm n _ (read-Calm _))
          λ f. bind-Triple _ (calm n _ (enter-Calm f)) λ base. again n base f

  pub exec_return_call_self-Triple :
      (n : ℕ) → Triple (Kept ctx n) (exec_return_call_self ctx) (λ _. Kept ctx n)
  unfolding exec_return_call_self
  exec_return_call_self-Triple n =
      seq-Triple _ (charge_call_fuel-Triple n fuel_cost_call_total) λ _.
        bind-Triple _ (calm n _ (read-Calm _)) λ f.
          seq-Triple _ (calm n _ (change-Calm _ λ x. moved))
            λ _. bind-Triple _ (calm n _ (enter-Calm f)) λ base. again n base f
