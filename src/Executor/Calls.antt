-- ===== src/Executor/Calls.antt =====
-- crates/tinywasm/src/interpreter/executor.rs: calls and returns.
use tinywasm.Prelude.{
  ℕ, ◌+◌, ◌-◌, Bool, true, false, ◌==◌, if◌then◌else◌, Option, none, some, List, get_elem?,
}
use tinywasm.Trap.{Result, ok, err, call_stack_overflow}
use tinywasm.Stack.Counts.{StackBase}
use tinywasm.Stack.Lane
use tinywasm.Stack.Values.{WasmType}
use tinywasm.Stack.ValueStack
use tinywasm.Stack.ValueStack.{ValueStack}
use tinywasm.Stack.ValueStack.RoundTrip.{reverse}
use tinywasm.Stack.CallStack
use tinywasm.Stack.CallStack.{CallFrame, CallStack, new_frame}
use tinywasm.Executor.State.{
  WasmFunction, WasmFunctionInstance, FunctionInstance, wasm, host_func, Context, Executor, Run,
  ◌>>=◌, ◌>>◌, return, lift, expect, read, change, set_stack, as_result, get_wasm_func,
}
use tinywasm.Executor.Jumps.{set_ip}

abbrev pub fuel_cost_call_total : ℕ
fuel_cost_call_total = 5

unfoldable pub charge_call_fuel : Context → ℕ → Run (Unit {0})
charge_call_fuel ctx total_fuel_cost = change (λ x.
    let extra : ℕ = if ctx.weighted then total_fuel_cost - 1 else 0 in
    if ctx.budgeted
    then record x { store = record x.store { execution_fuel = x.store.execution_fuel - extra } }
    else x)

abbrev pub set_func : WasmFunction → Executor → Executor
set_func f x = record x { func = f }

-- `enter_locals`, whose error becomes `CallStackOverflow`
unfoldable pub enter : Context → WasmFunction → Run StackBase
enter ctx f x =
    let (r, s) = ValueStack.enter_locals ctx.host x.store.value_stack f.params f.locals in
    elim r [
      | err e ↦ some (err call_stack_overflow, set_stack s x)
      | ok base ↦ some (ok base, set_stack s x)
    ]

-- `self.store.call_stack.push(self.cf)`
unfoldable pub push_frame : Context → Run (Unit {0})
push_frame ctx x =
    let (r, s) = CallStack.push ctx.host x.store.call_stack x.cf in
    some (r, record x { store = record x.store { call_stack = s } })

abbrev pub set_frame : CallFrame → Executor → Executor
set_frame cf x = record x { cf = cf }

-- `get_module_instance_internal`, when the owner is another module
unfoldable pub switch_module : Context → ℕ → Run (Unit {0})
switch_module ctx owner x =
    if owner == x.module_instance.idx then some (ok tt, x) else elim (get_elem? ctx.modules owner) [
      | none ↦ none
      | some m ↦ some (ok tt, record x { module_instance = m })
    ]

unfoldable pub exec_call : Context → WasmFunctionInstance → ℕ → Run (Unit {0})
unfolding enter push_frame switch_module new_frame
exec_call ctx wasm_func func_addr = do
  change (set_func wasm_func.func)
  locals_base ← enter ctx wasm_func.func
  push_frame ctx
  change (set_frame (new_frame func_addr locals_base wasm_func.func.locals))
  switch_module ctx wasm_func.owner

unfoldable pub exec_return_call : Context → WasmFunctionInstance → ℕ → Run (Unit {0})
unfolding enter switch_module new_frame
exec_return_call ctx wasm_func func_addr = do
  change (set_func wasm_func.func)
  change (λ x.
      set_stack
        (ValueStack.truncate_keep_counts x.store.value_stack x.cf.locals_base wasm_func.func.params)
        x)
  locals_base ← enter ctx wasm_func.func
  change (set_frame (new_frame func_addr locals_base wasm_func.func.locals))
  switch_module ctx wasm_func.owner

-- The parameters are popped last first; the results are the host's.
unfoldable pub exec_call_host : Context → ℕ → List WasmType → Run (Unit {0})
exec_call_host ctx index params = do
  s ← read (λ x. x.store.value_stack)
  popped ← expect (ValueStack.pop_types s (reverse params))
  change (set_stack popped.1)
  answer ← read (λ x. ctx.call_host index x.module_instance.idx (reverse popped.0) x.store)
  change (λ x. record x { store = answer.1 })
  res ← lift (as_result answer.0)
  stack ← read (λ x. x.store.value_stack)
  let pushed : Result (Unit {0}) × ValueStack = ValueStack.extend_from_wasmvalues ctx.host stack res
  change (set_stack pushed.1)
  lift pushed.0
  change (λ x. set_ip (x.cf.instr_ptr + 1) x)

-- `resolve_func_addr`
unfoldable pub resolve_func_addr : ℕ → Run ℕ
resolve_func_addr v = do found ← read (λ x. get_elem? x.module_instance.func_addrs v); expect found

abbrev pub call_instance : Context → FunctionInstance → ℕ → Run (Unit {0})
call_instance ctx (wasm f) addr = exec_call ctx f addr
call_instance ctx (host_func index params) addr = exec_call_host ctx index params

abbrev pub return_call_instance : Context → FunctionInstance → ℕ → Run (Unit {0})
return_call_instance ctx (wasm f) addr = exec_return_call ctx f addr
return_call_instance ctx (host_func index params) addr = exec_call_host ctx index params

unfoldable pub exec_call_direct : Context → ℕ → Run (Unit {0})
unfolding exec_call exec_call_host charge_call_fuel resolve_func_addr
exec_call_direct ctx v = do
  charge_call_fuel ctx fuel_cost_call_total
  addr ← resolve_func_addr v
  func ← expect (get_elem? ctx.funcs addr)
  call_instance ctx func addr

unfoldable pub exec_return_call_direct : Context → ℕ → Run (Unit {0})
unfolding exec_return_call exec_call_host charge_call_fuel resolve_func_addr
exec_return_call_direct ctx v = do
  charge_call_fuel ctx fuel_cost_call_total
  addr ← resolve_func_addr v
  func ← expect (get_elem? ctx.funcs addr)
  return_call_instance ctx func addr

unfoldable pub exec_call_self : Context → Run (Unit {0})
unfolding enter push_frame new_frame charge_call_fuel
exec_call_self ctx = do
  charge_call_fuel ctx fuel_cost_call_total
  push_frame ctx
  func ← read (λ x. x.func)
  locals_base ← enter ctx func
  change (λ x. set_frame (new_frame x.cf.func_addr locals_base func.locals) x)

unfoldable pub exec_return_call_self : Context → Run (Unit {0})
unfolding enter new_frame charge_call_fuel
exec_return_call_self ctx = do
  charge_call_fuel ctx fuel_cost_call_total
  func ← read (λ x. x.func)
  change (λ x.
      set_stack (ValueStack.truncate_keep_counts x.store.value_stack x.cf.locals_base func.params)
        x)
  locals_base ← enter ctx func
  change (λ x. set_frame (new_frame x.cf.func_addr locals_base func.locals) x)

-- The caller's function and module come back with its frame, unless it is the function itself.
abbrev pub resume : Context → CallFrame → Run Bool
resume ctx caller x =
    if caller.func_addr == x.cf.func_addr
    then some (ok false, set_frame caller x)
    else elim (get_wasm_func ctx caller.func_addr) [
      | none ↦ none
      | some f ↦
          (do
            change (set_func f.func)
            switch_module ctx f.owner
            change (set_frame caller)
            return false)
            x
    ]

-- What is done with the frame that `pop_frame` gives.
abbrev pub resumed : Context → Option CallFrame → Run Bool
resumed ctx none x = some (ok true, x)
resumed ctx (some frame) x = resume ctx frame x

-- `true` when the frames of this run are used up
unfoldable pub finish_return : Context → Run Bool
unfolding get_wasm_func switch_module
finish_return ctx x =
    let (caller, s) = CallStack.pop_frame x.store.call_stack ctx.call_stack_base in
    resumed ctx caller (record x { store = record x.store { call_stack = s } })

unfoldable pub exec_return : Context → Run Bool
unfolding finish_return
exec_return ctx = do
  change (λ x.
      set_stack
        (ValueStack.truncate_keep_counts x.store.value_stack x.cf.locals_base x.func.results) x)
  finish_return ctx

unfoldable pub exec_return_void : Context → Run Bool
unfolding finish_return
exec_return_void ctx = do
  change (λ x. set_stack (ValueStack.truncate_to_base x.store.value_stack x.cf.locals_base) x)
  finish_return ctx

-- One value of the lane stays, behind the base.
abbrev one_32 : ValueStack → StackBase → Option ValueStack
one_32 s b = elim (Lane.truncate_to_one_tail s.stack_32 b.s_32) [
  | none ↦ none
  | some l ↦ some (record (ValueStack.truncate_to_base s b) { stack_32 = l })
]

abbrev one_64 : ValueStack → StackBase → Option ValueStack
one_64 s b = elim (Lane.truncate_to_one_tail s.stack_64 b.s_64) [
  | none ↦ none
  | some l ↦ some (record (ValueStack.truncate_to_base s b) { stack_64 = l })
]

abbrev one_128 : ValueStack → StackBase → Option ValueStack
one_128 s b = elim (Lane.truncate_to_one_tail s.stack_128 b.s_128) [
  | none ↦ none
  | some l ↦ some (record (ValueStack.truncate_to_base s b) { stack_128 = l })
]

abbrev pub return_one : (ValueStack → StackBase → Option ValueStack) → Context → Run Bool
return_one one ctx = do
  left ← read (λ x. one x.store.value_stack x.cf.locals_base)
  s ← expect left
  change (set_stack s)
  finish_return ctx

unfoldable pub exec_return_32 : Context → Run Bool
unfolding finish_return
exec_return_32 ctx = return_one one_32 ctx

unfoldable pub exec_return_64 : Context → Run Bool
unfolding finish_return
exec_return_64 ctx = return_one one_64 ctx

unfoldable pub exec_return_128 : Context → Run Bool
unfolding finish_return
exec_return_128 ctx = return_one one_128 ctx
