-- ===== src/Memory/Compaction.antt =====
-- `compact` of vm/MemoryManager.cpp: the objects of the heap slide to its front.
pub mod Blocks
pub mod Passes
pub mod Small
pub mod Big
pub mod Forwarding
pub mod Sliding
pub mod Moves
pub mod Isomorphism
pub mod Bytes
