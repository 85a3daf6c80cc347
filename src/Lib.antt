-- ===== src/Lib.antt =====
-- TinyWasm, a WebAssembly interpreter: the parts of the runtime that hold state, the
-- interpreter's loop, and the optimizer of the code that it runs.
--
-- A function that is being run keeps its operands and locals on the value stack, its frame on the
-- call stack, and reaches the memories of its module through memory instances. The executor runs its
-- instructions on these stacks, one at a time. The optimizer has rewritten those instructions before,
-- when the module was parsed: it fuses several into one, and moves the targets of the jumps.
--
-- - Prelude, Prelude/: Boolean tests, lists with slices and overwriting, and the arithmetic of
--   `usize`, with the lemmas on them.
-- - Trap: `Trap` of crates/tinywasm/src/error.rs, and results.
-- - Host: the allocator, as a record of its answers; the theorems hold for every host or name what
--   they assume of it.
-- - Memory/Interface: the trait `LinearMemory` of crates/tinywasm/src/store/memory/mod.rs with its
--   default methods; Memory/Laws: its contract, against the flat list of the memory's bytes;
--   Memory/Defaults, Memory/Derived and Memory/Copying: the default methods keep it.
-- - Memory/VecMemory: store/memory/vec.rs, and Memory/VecMemory/Contract: it keeps the contract.
-- - Memory/PagedMemory: store/memory/paged.rs. Below it, Flat and Models say which bytes a table of
--   chunks stands for; Access, Zeroing, Loops, Ranges, Moving and Growth prove the methods; Contract
--   puts them together, and Creation is `try_new`.
-- - Memory/LazyMemory: store/memory/lazy.rs, over any storage and any backend that makes it;
--   Memory/LazyMemory/Contract: it changes as that storage would.
-- - Memory/MemValue: typed loads and stores, over any storage that keeps the contract.
-- - MemoryType: the memory types of crates/types/src/lib.rs.
-- - Memory/MemoryInstance: store/memory/instance.rs, over any storage that keeps the contract;
--   Growing is `grow`, Copies the copies in and between memories.
-- - Config: the stack sizes of crates/tinywasm/src/engine.rs.
-- - Stack/Lane: `Stack` of crates/tinywasm/src/interpreter/stack/value_stack.rs, one lane of the
--   value stack; Pushing and Moving prove its operations, with the tests for room in Stack/Room.
-- - Stack/Values: the typed and untyped values of crates/types/src/value.rs and
--   crates/tinywasm/src/interpreter/values.rs; Stack/ValueStack: the three lanes together, with the
--   arguments of calls in RoundTrip and the ends of blocks in Blocks.
-- - Stack/CallStack: interpreter/stack/call_stack.rs, and its theorems in Frames.
-- - Table: the tables of crates/tinywasm/src/store/table.rs and the segments of store/element.rs and
--   store/data.rs; Table/Ranges proves their bounds.
-- - Instructions: crates/types/src/instructions.rs.
-- - Numeric: crates/tinywasm/src/interpreter/num_helpers.rs and the integer operations that
--   interpreter/executor.rs takes from Rust; Numeric/Shifts and Numeric/Wide prove some of them.
-- - Executor: interpreter/executor.rs. State holds the executor and its monad, with the parts of the
--   store (store/mod.rs, store/function.rs, instance.rs) that it uses; Access the values in the stacks
--   and globals, Jumps, Calls and Operators the helpers and the macros `stack_op!` and `binop!`,
--   Numerics and Step the match of `exec`, and Run `new` and `run_with_fuel`. Calm and Quiet say which
--   instructions leave the frame, the module and the fuel alone, Hoare is a logic for the monad,
--   Coherent the invariant of calls and returns; Preserved puts them together, and Run/Budget is the
--   run on fuel. Sample holds two small functions, which the tests run.
-- - Optimizer: crates/parser/src/optimize.rs and its macros in crates/parser/src/macros.rs.
--   Operators, Jumps and Finalize are the functions of these names; Rules holds the macros, Rules/Views
--   what the patterns select, Rules/Locals, Rules/Locals64 and Rules/Branches the arms of the match of
--   `rewrite`, and Rewrite its loop. Whole composes them as `optimize_instructions`. Inverse, Jumps/Chains,
--   Finalize/Bounds, Rewrite/Boundaries, Fusion, Whole/Checks and Whole/Targets hold the proofs.
-- - The modules called Tests run the definitions and hold an instance of each theorem.
--
-- A method with `&mut self` returns the changed value beside its result. A `usize` is a number, and
-- its operations wrap at `2 ^ 64` where the source lets them; the host is a 64-bit one. A slice is a
-- list; a panic is `none`. Each loop of a memory runs on fuel that is one more than the number of bytes
-- it has to move, which is enough because every round moves at least one; the theorems give that fuel.
-- `run_with_fuel` has `fuel / 128 + 1` rounds, since a round spends 128 and no instruction adds fuel;
-- `resolve_jump_target` follows as many jumps as there are instructions, as its own counter does.
--
-- The functions of the host are a parameter of the executor: they may change the stacks, the globals
-- and the fuel of the store, but not its functions and modules, which stay as they are during a run; a
-- theorem that needs it assumes that they add no fuel. The arithmetic of floats is a parameter too. A
-- list of instructions that is rewritten is kept as what stands before the last block and the block in
-- reverse, so that the rules match its end.
--
-- Not modelled: the instructions of memories, tables, references and SIMD, indirect calls, the unary
-- operations and the conversions of floats, with the rules of the optimizer for them;
-- `run_to_completion`, which need not end, and the run on a time budget, which needs a clock; the
-- parser, linking, `MemoryBackend` and the constructors of a memory instance, and the command line.
pub mod Numeric
pub mod Prelude
pub mod Trap
pub mod Host
pub mod MemoryType
pub mod Instructions
pub mod Memory
pub mod Config
pub mod Stack
pub mod Table
pub mod Executor
pub mod Optimizer
