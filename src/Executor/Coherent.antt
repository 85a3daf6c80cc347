-- ===== src/Executor/Coherent.antt =====
-- crates/tinywasm/src/interpreter/executor.rs: the function and the module that the executor keeps
-- beside its frame are those of the frame, and running code adds no fuel.
pub mod Calls
pub mod Returns
use tinywasm.Prelude.{ℕ, ◌≤◌, ◌≡◌, some, List, get_elem?}
use tinywasm.Stack.Values.{WasmValue}
use tinywasm.Executor.State.{ModuleInstance, Store, Context, Executor, get_wasm_func}
use tinywasm.Executor.Calm.{Quiet}
use tinywasm.Executor.Hoare.{Stable}

-- The module instance that the executor holds is the one that the store lists under its index.
abbrev pub Listed : Context → Executor → Type 0
Listed ctx x = get_elem? ctx.modules x.module_instance.idx ≡ some x.module_instance

-- The frame's address is that of the function that runs, in the module that runs.
pub record Coherent (ctx : Context) (x : Executor) : Type 0 where
  pub owner : ℕ
  pub runs : get_wasm_func ctx x.cf.func_addr ≡ some (record { func = x.func; owner = owner })
  pub owned : owner ≡ x.module_instance.idx
  pub listed : Listed ctx x

-- The store lists a module under its own index, and a host function adds no fuel to the run.
pub record Behaved (ctx : Context) : Type 0 where
  pub indexed : (i : ℕ) (m : ModuleInstance) → get_elem? ctx.modules i ≡ some m → m.idx ≡ i
  pub frugal :
      (index module_addr : ℕ) (params : List WasmValue) (s : Store)
      → (ctx.call_host index module_addr params s).1.execution_fuel ≤ s.execution_fuel

abbrev pub Fuel : ℕ → Executor → Type 0
Fuel n x = x.store.execution_fuel ≤ n

-- What every instruction keeps.
abbrev pub Kept : Context → ℕ → Executor → Type 0
Kept ctx n x = Coherent ctx x × Fuel n x

pub Kept-Stable : (ctx : Context) (n : ℕ) → Stable (Kept ctx n)
Kept-Stable ctx n x y q p = (
  record {
    owner = p.0.owner;
    runs = rw (q.same_addr, q.same_func) p.0.runs;
    owned = rw q.same_module p.0.owned;
    listed = rw q.same_module p.0.listed;
  },
  rw q.same_fuel p.1,
)
