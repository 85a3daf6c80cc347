-- ===== src/Executor.antt =====
-- crates/tinywasm/src/interpreter/executor.rs: the interpreter's loop over the instructions.
pub mod State
pub mod Access
pub mod Jumps
pub mod Calls
pub mod Operators
pub mod Numerics
pub mod Step
pub mod Run
pub mod Calm
pub mod Quiet
pub mod Hoare
pub mod Coherent
pub mod Preserved
pub mod Sample
mod Tests
