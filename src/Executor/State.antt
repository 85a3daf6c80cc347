-- ===== src/Executor/State.antt =====
-- crates/tinywasm/src/interpreter/executor.rs: `Executor` and the parts of the store that it
-- changes. crates/types/src/lib.rs: `WasmFunction`. `none` is a panic.
use tinywasm.Prelude.{ℕ, Bool, Option, none, some, List, get_elem?}
use tinywasm.Host.{Host}
use tinywasm.Trap.{Trap, Result, ok, err, host_function}
use tinywasm.Stack.Counts.{ValueCounts}
use tinywasm.Stack.Values.{WasmType, WasmValue, TinyWasmValue}
use tinywasm.Stack.ValueStack.{ValueStack}
use tinywasm.Stack.CallStack.{CallStack, CallFrame}
use tinywasm.Instructions.{Instruction}
use tinywasm.Numeric.{Floats}

-- The data of a function is the targets of its branch tables and its 128-bit constants.
pub record WasmFunction : Type 0 where
  pub instructions : List Instruction
  pub params : ValueCounts
  pub locals : ValueCounts
  pub results : ValueCounts
  pub branch_table_targets : List ℕ
  pub v128_constants : List (List ℕ)

pub record WasmFunctionInstance : Type 0 where
  pub func : WasmFunction
  pub owner : ℕ

-- A host function is known by a number, and by the types of its parameters.
pub data FunctionInstance : Type 0 where
  wasm : WasmFunctionInstance → FunctionInstance
  host_func : (index : ℕ) (params : List WasmType) → FunctionInstance

-- Where the functions and the globals of a module stand in the store.
pub record ModuleInstance : Type 0 where
  pub idx : ℕ
  pub func_addrs : List ℕ
  pub global_addrs : List ℕ

pub record GlobalInstance : Type 0 where
  pub ty : WasmType
  pub value : TinyWasmValue

pub record Store : Type 0 where
  pub value_stack : ValueStack
  pub call_stack : CallStack
  pub globals : List GlobalInstance
  pub execution_fuel : ℕ

-- The results of a host function, or the number of its error.
pub data HostAnswer : Type 0 where
  answers : List WasmValue → HostAnswer
  fails : ℕ → HostAnswer

abbrev pub as_result : HostAnswer → Result (List WasmValue)
as_result (answers res) = ok res
as_result (fails e) = err (host_function e)

-- What stays during a run: a host function may change the stacks, the globals and the fuel of the
-- store, but no function and no module. `call_host` is the embedder's code; it is given the number
-- of the function, the address of the module that calls it (that of `FuncContext`), the arguments
-- and the store.
pub record Context : Type 0 where
  pub host : Host
  pub floats : Floats
  pub funcs : List FunctionInstance
  pub modules : List ModuleInstance
  pub call_host : (index module_addr : ℕ) → List WasmValue → Store → HostAnswer × Store
  pub weighted : Bool
  pub budgeted : Bool
  pub call_stack_base : ℕ

pub record Executor : Type 0 where
  pub cf : CallFrame
  pub func : WasmFunction
  pub module_instance : ModuleInstance
  pub store : Store

-- A computation that reads and changes the executor, and may trap or panic.
abbrev pub Run : Type 0 → Type 0
Run A = Executor → Option (Result A × Executor)

abbrev pub after :
    {A B : Type 0} → Option (Result A × Executor) → (A → Run B) → Option (Result B × Executor)
after none k = none
after (some (err e, x)) k = some (err e, x)
after (some (ok a, x)) k = k a x

infixl 5 ◌>>=◌ ◌>>◌
unfoldable pub ◌>>=◌ : {A B : Type 0} → Run A → (A → Run B) → Run B
(run >>= k) x = after (run x) k

unfoldable pub ◌>>◌ : {A B : Type 0} → Run A → Run B → Run B
(run >> k) x = after (run x) λ _. k

unfoldable pub return : {A : Type 0} → A → Run A
return a x = some (ok a, x)

unfoldable pub trap : {A : Type 0} → Trap → Run A
trap e x = some (err e, x)

unfoldable pub lift : {A : Type 0} → Result A → Run A
lift r x = some (r, x)

-- An access that panics when there is nothing.
unfoldable pub expect : {A : Type 0} → Option A → Run A
expect none x = none
expect (some a) x = some (ok a, x)

unfoldable pub read : {A : Type 0} → (Executor → A) → Run A
read f x = some (ok (f x), x)

unfoldable pub change : (Executor → Executor) → Run (Unit {0})
change f x = some (ok tt, f x)

abbrev pub set_stack : ValueStack → Executor → Executor
set_stack s x = record x { store = record x.store { value_stack = s } }

-- `get_wasm_func`
abbrev pub as_wasm : FunctionInstance → Option WasmFunctionInstance
as_wasm (wasm f) = some f
as_wasm (host_func index params) = none

unfoldable pub get_wasm_func : Context → ℕ → Option WasmFunctionInstance
get_wasm_func ctx addr = elim (get_elem? ctx.funcs addr) [ none ↦ none | some f ↦ as_wasm f ]
