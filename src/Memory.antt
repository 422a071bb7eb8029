-- ===== src/Memory.antt =====
-- The memory manager (vm/MemoryManager.cpp and vm/MemoryManager.hpp).
pub mod ClassTable
pub mod VmHeap
pub mod References
pub mod Collector
pub mod Compaction
pub mod Collection
mod Tests
