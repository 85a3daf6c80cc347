-- ===== src/Stack.antt =====
-- crates/tinywasm/src/interpreter/stack: the value stack, in three lanes, and the call stack.
mod Room
pub mod Counts
pub mod Lane
pub mod Values
pub mod ValueStack
pub mod CallStack
mod Tests
