-- ===== src/Device.antt =====
-- The devices of the bus: src/device and include/device.
pub mod Clint
pub mod Plic
pub mod GoldfishEvents
pub mod GoldfishRtc
