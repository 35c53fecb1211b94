-- ===== src/Core/Menvcfg.antt =====
-- The fields of MENVCFG that are implemented, include/core/hart.hpp.
use uotan_riscv_emu_ng.Base.{ℕ, ◌+◌, ◌^◌}

abbrev pub fiom : ℕ
fiom = 2 ^ 0

abbrev pub adue : ℕ
adue = 2 ^ 61

abbrev pub stce : ℕ
stce = 2 ^ 63

abbrev pub mask : ℕ
mask = fiom + adue + stce
