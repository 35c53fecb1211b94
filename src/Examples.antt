-- ===== src/Examples.antt =====
-- Runs of the modelled code on concrete states, and the theorems at concrete inputs.
pub mod Hart
pub mod Instructions
pub mod Devices
pub mod Translation
pub mod Decoding
pub mod Running
