-- ===== src/Executor/Tests.antt =====
-- crates/tinywasm/src/interpreter/executor.rs: runs, and instances of the theorems.
use tinywasm.Prelude.{
  ℕ, zero, suc, ◌≤◌, ◌≡◌, refl, sym, ap, none, some, List, [], ◌∷◌, get_elem?, arith,
}
use tinywasm.Trap.{ok}
use tinywasm.Stack.Lane.{Stack}
use tinywasm.Stack.CallStack
use tinywasm.Stack.ValueStack
use tinywasm.Stack.Lane
use tinywasm.Stack.CallStack.{CallFrame, CallStack}
use tinywasm.Executor.State
use tinywasm.Executor.Run
use tinywasm.Executor.Step
use tinywasm.Executor.Operators
use tinywasm.Executor.Calls
use tinywasm.Executor.Jumps
use tinywasm.Executor.State.{
  WasmFunction, FunctionInstance, wasm, ModuleInstance, Store, answers, Context, Executor,
}
use tinywasm.Executor.Sample.{
  first_module, second_module, context, called_with, inside, store, frame,
}
use tinywasm.Executor.Step.{exec}
use tinywasm.Executor.Run.{completed, suspended, new, run_with_fuel}
use tinywasm.Executor.Hoare.{Ends}
use tinywasm.Executor.Coherent.{Coherent, Behaved}
use tinywasm.Executor.Preserved.{exec-Coherent}
use tinywasm.Executor.Run.Budget.{Finished, run_with_fuel_lem, new-run_with_fuel}

context-Behaved : Behaved context
context-Behaved = record { indexed = indexed; frugal = λ index module_addr params s. omega arith }
  where
    indexed : (i : ℕ) (m : ModuleInstance) → get_elem? context.modules i ≡ some m → m.idx ≡ i
    indexed zero m e =
        let same : first_module ≡ m = cc in ap (λ (n : ModuleInstance). n.idx) (sym same)
    indexed (suc zero) m e =
        let same : second_module ≡ m = cc in ap (λ (n : ModuleInstance). n.idx) (sym same)
    indexed (suc (suc i)) m e = absurd cc

called_with-Coherent : (ip : ℕ) (slots : List ℕ) → Coherent context (called_with ip slots)
unfolding State.get_wasm_func
called_with-Coherent ip slots = record { owner = 0; runs = refl; owned = refl; listed = refl }

-- A call to another module: the caller's frame goes on the call stack, behind the call, and the
-- executor takes over the callee and its module.
exec-call : exec context (called_with 1 (3 ∷ 3 ∷ [])) ≡ some (ok none, inside)
unfolding State.◌>>=◌ State.◌>>◌ State.return State.expect State.read State.change
    Calls.exec_call_direct Step.exec CallStack.push ValueStack.enter_locals Lane.enter_locals
exec-call = refl

-- With fuel, the caller gets the sum of 3, 2 and 1, and is over at its own return.
run_with_fuel-sum :
    run_with_fuel context 5 (called_with 0 (3 ∷ [])) ≡ some (ok completed, called_with 2 (6 ∷ []))
unfolding State.◌>>=◌ State.◌>>◌ State.return State.expect State.read State.change
    Jumps.exec_jump_local_zero Calls.exec_call_direct Calls.exec_return_32 Operators.local_tee
    Operators.local_local Operators.local_const Run.run_with_fuel CallStack.pop_frame CallStack.push
    ValueStack.truncate_to_base ValueStack.enter_locals Lane.push Lane.get Lane.copy
    Lane.truncate_to Lane.truncate_to_one_tail Lane.enter_locals
run_with_fuel-sum = refl

exec-Coherent_example : Coherent context inside × (5 ≤ 5)
exec-Coherent_example =
    exec-Coherent context (called_with 1 (3 ∷ 3 ∷ [])) inside none context-Behaved
      (called_with-Coherent 1 (3 ∷ 3 ∷ [])) exec-call

run_with_fuel_lem_example :
    Ends (Finished context) (run_with_fuel context 5 (called_with 0 (3 ∷ [])))
run_with_fuel_lem_example =
    run_with_fuel_lem context context-Behaved 5 (called_with 0 (3 ∷ []))
      (called_with-Coherent 0 (3 ∷ []))

-- The sum of the numbers up to 100, which is under way in the other module when the fuel is used up.
abbrev stopped : Executor
stopped = record inside {
  cf = record inside.cf { instr_ptr = 2 };
  store = record (store (100 ∷ 69 ∷ 2704 ∷ []) (frame 2 ∷ [])) { execution_fuel = 0 };
}

new-caller : new context (store (100 ∷ []) []) (frame 0) ≡ some (called_with 0 (100 ∷ []))
unfolding Run.new State.get_wasm_func
new-caller = refl

run_with_fuel-stopped :
    run_with_fuel context 128 (called_with 0 (100 ∷ [])) ≡ some (ok (suspended stopped.cf), stopped)
unfolding State.◌>>=◌ State.◌>>◌ State.return State.expect State.read State.change
    Jumps.exec_jump_local_zero Calls.exec_call_direct Calls.exec_return_32 Operators.local_tee
    Operators.local_local Operators.local_const Run.run_with_fuel CallStack.pop_frame CallStack.push
    ValueStack.truncate_to_base ValueStack.enter_locals Lane.push Lane.get Lane.copy
    Lane.truncate_to Lane.truncate_to_one_tail Lane.enter_locals
run_with_fuel-stopped = refl

new-run_with_fuel_example : new context stopped.store stopped.cf ≡ some stopped
new-run_with_fuel_example =
    new-run_with_fuel context (store (100 ∷ []) []) (frame 0) stopped.cf 128
      (called_with 0 (100 ∷ [])) stopped context-Behaved new-caller run_with_fuel-stopped
