-- ===== src/Core.antt =====
-- The simulated hart: registers, control and status registers, traps and interrupts.
pub mod Mstatus
pub mod Mip
pub mod Menvcfg
pub mod Trap
pub mod Monad
pub mod State
pub mod Memory
pub mod Blame
pub mod Clint
pub mod Csr
pub mod Interrupts
