-- ===== src/Device/Clint.antt =====
-- The registers of src/device/clint.cpp, and the little-endian accesses of include/device/device.hpp on
-- a little-endian host. The timer itself is Core.Clint. The CLINT stands in the hart.
pub mod Words
pub mod Timer
pub mod Invariant
use uotan_riscv_emu_ng.Base.{
  ℕ, ◌+◌, ◌-◌, ◌*◌, ◌/◌, ◌%◌, ◌^◌, Bool, true, false, ◌||◌, ◌&&◌, ◌==◌, ltb, leb, truthy, bit_and,
  if◌then◌else◌, Option, none, some,
}
use uotan_riscv_emu_ng.Memory.Bytes.{load, store}
use uotan_riscv_emu_ng.Core.Mip
use uotan_riscv_emu_ng.Core.State.{Clint, Hart}
use uotan_riscv_emu_ng.Core.Csr.{mip_read}
use uotan_riscv_emu_ng.Core.Clint.{
  set_interrupt_pending, handle_mtimecmp, handle_stimecmp, tick_internal,
}

-- Byte `j` of an object of type `uint64_t`.
abbrev pub byte_of : ℕ → ℕ → ℕ
byte_of x j = x / 256 ^ j % 256

-- The value that `read_little_endian` leaves in `*out_val`, which is 0 before.
unfoldable pub read_little_endian : ℕ → ℕ → ℕ → ℕ
read_little_endian src offset size =
    if size == 0 || ltb 8 (offset + size) then 0 else load size (byte_of src) offset

-- The object `dst` after `write_little_endian`.
unfoldable pub write_little_endian : ℕ → ℕ → ℕ → ℕ → ℕ
write_little_endian dst offset size value =
    if size == 0 || ltb 8 (offset + size)
    then dst
    else load 8 (store size (byte_of dst) offset value) 0

abbrev pub within : ℕ → ℕ → ℕ → Bool
within base len offset = leb base offset && ltb offset (base + len)

abbrev pub mtimecmp_offset : ℕ
mtimecmp_offset = 0x4000

abbrev pub mtime_offset : ℕ
mtime_offset = 0xBFF8

abbrev pub msip_value : Hart → ℕ
msip_value h = if truthy (bit_and (mip_read h.csrs) Mip.msip) then 1 else 0

unfoldable pub read_internal : ℕ → ℕ → Clint → Hart → Option ℕ × Hart
unfolding read_little_endian tick_internal
read_internal offset size c h =
    if ltb 8 size
    then (none, h)
    else if ltb offset 4
    then (some (read_little_endian (msip_value h) offset size), h)
    else if within mtimecmp_offset 8 offset
    then (some (read_little_endian c.mtimecmp (offset - mtimecmp_offset) size), h)
    else if within mtime_offset 8 offset
    then (
      some (
          read_little_endian (c.base.elapsed_ticks c.now c.start_time) (offset - mtime_offset)
            size),
      tick_internal c h,
    )
    else (none, h)

-- A write to MTIME: the start time moves so that the clock reads the new value now.
unfoldable pub set_mtime : ℕ → Clint → Hart → Hart
unfolding handle_mtimecmp handle_stimecmp
set_mtime v c h =
    let c' = record c { mtime = v; start_time = c.base.start_for c.now v } in
    handle_stimecmp c' (handle_mtimecmp c' (record h { clint = some c' }))

unfoldable pub set_mtimecmp : ℕ → Clint → Hart → Hart
unfolding tick_internal
set_mtimecmp v c h = tick_internal (record c { mtimecmp = v }) h

unfoldable pub write_internal : ℕ → ℕ → ℕ → Clint → Hart → Bool × Hart
unfolding write_little_endian set_interrupt_pending set_mtime set_mtimecmp
write_internal offset size value c h =
    if ltb offset 4
    then (
      true,
      set_interrupt_pending Mip.msip (truthy (bit_and (write_little_endian 0 offset size value) 1))
          h,
    )
    else if within mtimecmp_offset 8 offset
    then (
      true,
      set_mtimecmp (write_little_endian c.mtimecmp (offset - mtimecmp_offset) size value) c h,
    )
    else if within mtime_offset 8 offset
    then (true, set_mtime (write_little_endian c.mtime (offset - mtime_offset) size value) c h)
    else (false, h)
