-- ===== src/Decoder.antt =====
-- The decoder, include/core/decoder.hpp and src/core/decoder.cpp.
pub mod Names
pub mod Pattern
pub mod Table
pub mod Operands
pub mod Decode
pub mod Unique
pub mod Immediates
pub mod Total
pub mod Origin
