-- ===== src/Executor/Run.antt =====
-- crates/tinywasm/src/interpreter/executor.rs: `new`, `run_to_completion` and `run_with_fuel`.
pub mod Budget
use tinywasm.Prelude.{
  ℕ, zero, suc, ◌+◌, ◌-◌, ◌/◌, ◌==◌, Bool, true, false, if◌then◌else◌, Option, none, some,
  get_elem?,
}
use tinywasm.Trap.{Result, ok, err}
use tinywasm.Stack.CallStack.{CallFrame}
use tinywasm.Executor.State
use tinywasm.Executor.State.{
  Context, Executor, Store, Run, ◌>>=◌, ◌>>◌, read, change, get_wasm_func,
}
use tinywasm.Executor.Step.{exec}

-- `out_of_rounds` is no answer of the source: the recursion's bound is too small.
pub data ExecState : Type 0 where
  completed : ExecState
  suspended : CallFrame → ExecState
  out_of_rounds : ExecState

-- `new`; `none` is the panic for a function or a module that the store does not have.
unfoldable pub new : Context → Store → CallFrame → Option Executor
unfolding get_wasm_func
new ctx store cf = elim (get_wasm_func ctx cf.func_addr) [
  | none ↦ none
  | some f ↦ elim (get_elem? ctx.modules f.owner) [
    | none ↦ none
    | some m ↦ some (record { cf = cf; func = f.func; module_instance = m; store = store })
  ]
]

abbrev pub is_over : Option (Unit {0}) → Bool
is_over none = false
is_over (some u) = true

-- At most so many instructions, and whether the run is over.
unfoldable pub batch : Context → ℕ → Run Bool
unfolding exec
batch ctx zero = State.return false
batch ctx (suc k) = exec ctx >>= λ over. if is_over over then State.return true else batch ctx k

abbrev pub spend : Executor → Executor
spend x = record x { store = record x.store { execution_fuel = x.store.execution_fuel - 128 } }

-- The rounds of `run_with_fuel`; the first number bounds them.
unfoldable pub run_rounds : Context → ℕ → Run ExecState
unfolding batch
run_rounds ctx zero = State.return out_of_rounds
run_rounds ctx (suc rounds) = batch ctx 128 >>= λ over.
    if over
    then State.return completed
    else (change spend
        >> (read (λ x. x) >>= λ x.
            if x.store.execution_fuel == 0
            then State.return (suspended x.cf)
            else run_rounds ctx rounds))

abbrev pub refuel : ℕ → Executor → Executor
refuel fuel x = record x { store = record x.store { execution_fuel = fuel } }

unfoldable pub run_with_fuel : Context → ℕ → Run ExecState
unfolding run_rounds
run_with_fuel ctx fuel =
    change (refuel fuel)
    >> (read (λ x. x) >>= λ x.
        if fuel == 0 then State.return (suspended x.cf) else run_rounds ctx (fuel / 128 + 1))
