-- ===== src/Core/Mstatus.antt =====
-- The fields of MSTATUS, include/core/hart.hpp, and the masks that src/core/hart.cpp builds of them.
use uotan_riscv_emu_ng.Base.{ℕ, ◌+◌, ◌*◌, ◌^◌}

abbrev pub sie : ℕ
sie = 2 ^ 1

abbrev pub mie : ℕ
mie = 2 ^ 3

abbrev pub spie : ℕ
spie = 2 ^ 5

abbrev pub mpie : ℕ
mpie = 2 ^ 7

abbrev pub spp : ℕ
spp = 2 ^ 8

abbrev pub mpp : ℕ
mpp = 3 * 2 ^ 11

abbrev pub fs : ℕ
fs = 3 * 2 ^ 13

abbrev pub mprv : ℕ
mprv = 2 ^ 17

abbrev pub sum : ℕ
sum = 2 ^ 18

abbrev pub mxr : ℕ
mxr = 2 ^ 19

abbrev pub tvm : ℕ
tvm = 2 ^ 20

abbrev pub tw : ℕ
tw = 2 ^ 21

abbrev pub tsr : ℕ
tsr = 2 ^ 22

abbrev pub uxl : ℕ
uxl = 3 * 2 ^ 32

abbrev pub sxl : ℕ
sxl = 3 * 2 ^ 34

abbrev pub sd : ℕ
sd = 2 ^ 63

-- The masks are unions of disjoint fields, so a sum is their `|`.
abbrev pub read_mask : ℕ
read_mask =
    sie + mie + spie + mpie + spp + mpp + fs + mprv + sum + mxr + tvm + tw + tsr + uxl + sxl + sd

abbrev pub write_mask : ℕ
write_mask = mie + mpie + mprv + mpp + fs + sie + spie + spp + sum + mxr + tvm + tw + tsr

abbrev pub sstatus_read_mask : ℕ
sstatus_read_mask = sie + spie + spp + fs + sum + mxr + uxl + sd

abbrev pub sstatus_write_mask : ℕ
sstatus_write_mask = sie + spie + spp + fs + sum + mxr

-- The value that the constructor gives: SXL and UXL say 64 bits, and MPP is U.
abbrev pub initial : ℕ
initial = 2 * 2 ^ 34 + 2 * 2 ^ 32
