-- ===== src/Executor/Sample.antt =====
-- crates/tinywasm/src/interpreter/executor.rs: two functions in two modules, and executors that run
-- them.
use tinywasm.Prelude.{ℕ, true, false, none, List, [], ◌∷◌}
use tinywasm.Host.{generous}
use tinywasm.Stack.Counts.{ValueCounts}
use tinywasm.Stack.Lane.{Stack}
use tinywasm.Stack.CallStack.{CallFrame}
use tinywasm.Instructions.{
  Instruction, jump_if_local_zero_32, bin_op_local_local_set_32, bin_op_local_const_set_32, i_add,
  i_sub, jump, local_get_32, return_32, call,
}
use tinywasm.Executor.State.{WasmFunction, wasm, ModuleInstance, Store, answers, Context, Executor}

abbrev pub one_value : ValueCounts
one_value = record { c_32 = 1; c_64 = 0; c_128 = 0 }

-- The sum of the numbers up to local 0.
abbrev pub sum_code : List Instruction
sum_code =
    jump_if_local_zero_32 4 0
    ∷ bin_op_local_local_set_32 i_add 1 0 1
    ∷ bin_op_local_const_set_32 i_sub 0 1 0
    ∷ jump 0
    ∷ local_get_32 1
    ∷ return_32
    ∷ []

abbrev pub sum : WasmFunction
sum = record {
  instructions = sum_code;
  params = one_value;
  locals = record { c_32 = 2; c_64 = 0; c_128 = 0 };
  results = one_value;
  branch_table_targets = [];
  v128_constants = [];
}

-- Calls `sum`, which is in another module.
abbrev pub caller : WasmFunction
caller = record {
  instructions = local_get_32 0 ∷ call 1 ∷ return_32 ∷ [];
  params = one_value;
  locals = one_value;
  results = one_value;
  branch_table_targets = [];
  v128_constants = [];
}

abbrev pub first_module : ModuleInstance
first_module = record { idx = 0; func_addrs = 0 ∷ 1 ∷ []; global_addrs = [] }

abbrev pub second_module : ModuleInstance
second_module = record { idx = 1; func_addrs = 1 ∷ []; global_addrs = [] }

abbrev pub context : Context
context = record {
  host = generous;
  floats = record {
    add = λ bits lhs rhs. 0;
    sub = λ bits lhs rhs. 0;
    mul = λ bits lhs rhs. 0;
    div = λ bits lhs rhs. 0;
    partial_cmp = λ bits lhs rhs. none;
  };
  funcs = wasm (record { func = caller; owner = 0 }) ∷ wasm (record { func = sum; owner = 1 }) ∷ [];
  modules = first_module ∷ second_module ∷ [];
  call_host = λ index module_addr params store. (answers [], store);
  weighted = false;
  budgeted = true;
  call_stack_base = 0;
}

abbrev pub frame : (instr_ptr : ℕ) → CallFrame
frame instr_ptr = record {
  instr_ptr = instr_ptr;
  func_addr = 0;
  locals_base = record { s_32 = 0; s_64 = 0; s_128 = 0 };
  stack_offset = one_value;
}

abbrev pub lane : List ℕ → Stack ℕ
lane slots = record { slots = slots; capacity = 8; max_size = 8; dynamic = false }

abbrev pub store : List ℕ → List CallFrame → Store
store slots frames = record {
  value_stack = record {
    stack_32 = lane slots;
    stack_64 = lane [];
    stack_128 = record { slots = []; capacity = 8; max_size = 8; dynamic = false };
  };
  call_stack = record { stack = frames; capacity = 4; max_size = 4; dynamic = false };
  globals = [];
  execution_fuel = 5;
}

-- The caller of `sum` with argument 3, before and after it has pushed the argument.
abbrev pub called_with : (instr_ptr : ℕ) → List ℕ → Executor
called_with instr_ptr slots = record {
  cf = frame instr_ptr;
  func = caller;
  module_instance = first_module;
  store = store slots [];
}

-- At the start of `sum`.
abbrev pub inside : Executor
inside = record {
  cf = record {
    instr_ptr = 0;
    func_addr = 1;
    locals_base = record { s_32 = 1; s_64 = 0; s_128 = 0 };
    stack_offset = record { c_32 = 2; c_64 = 0; c_128 = 0 };
  };
  func = sum;
  module_instance = second_module;
  store = store (3 ∷ 3 ∷ 0 ∷ []) (frame 2 ∷ []);
}

-- With values in the 64-bit lane.
abbrev pub inside_64 : Executor
inside_64 = record inside {
  store = record (store [] []) {
    value_stack = record {
      stack_32 = lane [];
      stack_64 = lane (7 ∷ 5 ∷ 0 ∷ []);
      stack_128 = inside.store.value_stack.stack_128;
    };
  };
}
