-- ===== src/Memory.antt =====
-- crates/tinywasm/src/store/memory: linear memories.
pub mod Interface
pub mod Laws
mod Defaults
mod Derived
mod Copying
pub mod VecMemory
pub mod PagedMemory
pub mod LazyMemory
pub mod MemValue
pub mod MemoryInstance
mod Tests
