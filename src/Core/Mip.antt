-- ===== src/Core/Mip.antt =====
-- The interrupt bits that MIP, MIE and MIDELEG share, include/core/hart.hpp.
use uotan_riscv_emu_ng.Base.{ℕ, ◌+◌, ◌^◌}

abbrev pub ssip : ℕ
ssip = 2 ^ 1

abbrev pub msip : ℕ
msip = 2 ^ 3

abbrev pub stip : ℕ
stip = 2 ^ 5

abbrev pub mtip : ℕ
mtip = 2 ^ 7

abbrev pub seip : ℕ
seip = 2 ^ 9

abbrev pub meip : ℕ
meip = 2 ^ 11

abbrev pub all_interrupts : ℕ
all_interrupts = ssip + msip + stip + mtip + seip + meip

-- What S-mode sees of them.
abbrev pub supervisor : ℕ
supervisor = ssip + stip + seip

-- What a CSR instruction may write of MIP, apart from STIP.
abbrev pub mip_write_mask : ℕ
mip_write_mask = ssip + seip
