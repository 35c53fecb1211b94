-- ===== src/Decoder/Table.antt =====
-- The tables of `Decoder::decode`, src/core/decoder.cpp, in the order in which they are tried.
pub mod Integer
pub mod Float
pub mod Compressed
