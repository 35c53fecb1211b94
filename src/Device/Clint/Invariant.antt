-- ===== src/Device/Clint/Invariant.antt =====
-- The CSRs through writes to the registers of src/device/clint.cpp.
use uotan_riscv_emu_ng.Base.{
  ℕ, ◌-◌, Bool, true, false, leb, ltb, truthy, bit_and, if◌then◌else◌, some,
}
use uotan_riscv_emu_ng.Core.Mip
use uotan_riscv_emu_ng.Core.State.{Clint, Hart}
use uotan_riscv_emu_ng.Core.Clint.{handle_mtimecmp, set_interrupt_pending}
use uotan_riscv_emu_ng.Core.Csr.Invariant.{IsValid}
use uotan_riscv_emu_ng.Core.Csr.Preservation.{
  pending-IsValid, stimecmp-IsValid, tick_internal-IsValid,
}
use uotan_riscv_emu_ng.Device.Clint.{
  write_internal, set_mtime, set_mtimecmp, write_little_endian, within, mtimecmp_offset,
  mtime_offset,
}

set_mtime-IsValid : (v : ℕ) (c : Clint) (h : Hart) → IsValid h.csrs → IsValid (set_mtime v c h).csrs
unfolding set_mtime handle_mtimecmp
set_mtime-IsValid v c h i =
    stimecmp-IsValid c' _
      (pending-IsValid Mip.mtip (leb c'.mtimecmp c'.mtime) (record h { clint = some c' }) i)
  where
    c' : Clint
    c' = record c { mtime = v; start_time = c.base.start_for c.now v }

set_mtimecmp-IsValid :
    (v : ℕ) (c : Clint) (h : Hart) → IsValid h.csrs → IsValid (set_mtimecmp v c h).csrs
unfolding set_mtimecmp
set_mtimecmp-IsValid v c h i = tick_internal-IsValid (record c { mtimecmp = v }) h i

if-IsValid :
    (b : Bool) (x y : Bool × Hart)
    → IsValid (x.1).csrs
    → IsValid (y.1).csrs
    → IsValid ((if b then x else y).1).csrs
if-IsValid true x y p q = p
if-IsValid false x y p q = q

-- A write to the registers of the CLINT keeps what always holds of the CSRs.
pub write_internal-IsValid :
    (offset size value : ℕ) (c : Clint) (h : Hart)
    → IsValid h.csrs
    → IsValid (write_internal offset size value c h).1.csrs
unfolding write_internal
write_internal-IsValid offset size value c h i =
    if-IsValid (ltb offset 4) (true, set_interrupt_pending Mip.msip on h) _
      (pending-IsValid Mip.msip on h i)
      (if-IsValid (within mtimecmp_offset 8 offset) (true, set_mtimecmp cmp c h) _
        (set_mtimecmp-IsValid cmp c h i)
        (if-IsValid (within mtime_offset 8 offset) (true, set_mtime time c h) (false, h)
          (set_mtime-IsValid time c h i) i))
  where
    on : Bool
    on = truthy (bit_and (write_little_endian 0 offset size value) 1)

    cmp : ℕ
    cmp = write_little_endian c.mtimecmp (offset - mtimecmp_offset) size value

    time : ℕ
    time = write_little_endian c.mtime (offset - mtime_offset) size value
