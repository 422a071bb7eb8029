-- ===== src/Stack.antt =====
-- The stack of vm/StackMemory.hpp, and how vm/StackInterpreter.cpp enters and leaves a method.
pub mod Frames
pub mod Metadata
pub mod Elements
pub mod Calls
pub mod Marriage
mod Tests
