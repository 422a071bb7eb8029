-- ===== src/Assembler/Relaxation.antt =====
-- What `Assembler::computeInstructionsSize` (vm/MethodBuilder.cpp) computes.
pub mod Sizes
pub mod Labels
pub mod Monotone
pub mod Pass
pub mod Loop
pub mod Placed
pub mod Start
