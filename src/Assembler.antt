-- ===== src/Assembler.antt =====
-- vm/MethodBuilder.hpp and vm/MethodBuilder.cpp: the assembler of compiled methods.
pub mod Instruction
pub mod Sizes
pub mod Layout
pub mod Encode
pub mod Generate
pub mod Relaxation
pub mod Builder
pub mod Emission
mod Tests
