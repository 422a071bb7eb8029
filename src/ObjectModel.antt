-- ===== src/ObjectModel.antt =====
-- include/Lodtalk/ObjectModel.hpp under OBJECT_MODEL_SPUR_64: tagged words and method headers.
pub mod Oop
pub mod SmallIntegers
pub mod SmallFloat
pub mod MethodHeader
pub mod HeaderFields
pub mod Characters
mod Tests
