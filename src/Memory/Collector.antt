-- ===== src/Memory/Collector.antt =====
-- `GarbageCollector` of vm/MemoryManager.cpp.
pub mod Objects
pub mod Marking
pub mod Reachable
pub mod Marked
pub mod Correct
pub mod Roots
