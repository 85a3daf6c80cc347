-- ===== src/Optimizer.antt =====
-- crates/parser/src/optimize.rs: the peephole optimizer of a function's instructions.
pub mod Operators
pub mod Inverse
pub mod Jumps
pub mod Finalize
pub mod Rules
pub mod Rewrite
pub mod Fusion
pub mod Whole
mod Tests
