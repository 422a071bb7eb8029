-- ===== src/Interpreter.antt =====
-- vm/StackInterpreter.cpp: the stack interpreter.
pub mod Operation
pub mod Handlers
pub mod Decode
pub mod Fetch
pub mod Meaning
pub mod Operands
pub mod RoundTrip
pub mod Special
pub mod Jumps
pub mod Closures
mod Tests
