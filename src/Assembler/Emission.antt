-- ===== src/Assembler/Emission.antt =====
-- What `Assembler::generate` (vm/MethodBuilder.cpp) writes: as many bytes as the layout says.
pub mod Lengths
pub mod Stream
pub mod Method
pub mod Success
pub mod Returns
