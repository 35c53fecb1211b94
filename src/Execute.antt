-- ===== src/Execute.antt =====
-- Execution of instructions: src/core/execute.cpp.
pub mod System
pub mod Return
pub mod SupervisorReturn
pub mod Invariant
pub mod Reachable
pub mod Multiply
pub mod Integer
pub mod Atomic
pub mod Float
pub mod Compressed
pub mod Blame
