-- ===== src/Device/Clint/Timer.antt =====
-- The interrupt lines after writes to the registers of src/device/clint.cpp.
use uotan_riscv_emu_ng.Base.{
  ℕ, ◌+◌, ◌<◌, ◌≡◌, refl, ◌∙◌, arith, Bool, true, false, of_bool, leb, truthy, Bool-cases, inl, inr,
  bit_and, some,
}
use uotan_riscv_emu_ng.Base.Digits.{digit, digit-set, digit-reset}
use uotan_riscv_emu_ng.Core.Mip
use uotan_riscv_emu_ng.Core.Menvcfg
use uotan_riscv_emu_ng.Core.State.{Clint, Hart}
use uotan_riscv_emu_ng.Core.Clint.{
  set_interrupt_pending, set_pending, clear_pending, handle_mtimecmp, handle_stimecmp,
  tick_internal, menvcfg_read,
}
use uotan_riscv_emu_ng.Device.Clint.{write_internal, set_mtime, set_mtimecmp, write_little_endian}

timer_line :
    (on : Bool) (h : Hart) → digit (set_interrupt_pending Mip.mtip on h).csrs.mip 7 ≡ of_bool on
unfolding set_interrupt_pending set_pending clear_pending
timer_line true h = digit-set 7 7 h.csrs.mip
timer_line false h = digit-reset 7 7 h.csrs.mip (omega arith) (omega arith)

other_line :
    (on : Bool) (h : Hart)
    → digit (set_interrupt_pending Mip.stip on h).csrs.mip 7 ≡ digit h.csrs.mip 7
unfolding set_interrupt_pending set_pending clear_pending
other_line true h = digit-set 5 7 h.csrs.mip
other_line false h = digit-reset 5 7 h.csrs.mip (omega arith) (omega arith)

handle_stimecmp-line :
    (c : Clint) (h : Hart) → digit (handle_stimecmp c h).csrs.mip 7 ≡ digit h.csrs.mip 7
unfolding handle_stimecmp
handle_stimecmp-line c h = elim (Bool-cases (truthy (bit_and (menvcfg_read h.csrs) Menvcfg.stce))) [
  | inl e ↦ rw e (other_line (leb h.csrs.stimecmp c.mtime) h)
  | inr e ↦ rw e refl
]

handlers-line :
    (c : Clint) (h : Hart)
    → digit (handle_stimecmp c (handle_mtimecmp c h)).csrs.mip 7 ≡ of_bool (leb c.mtimecmp c.mtime)
unfolding handle_mtimecmp
handlers-line c h =
    handle_stimecmp-line c (set_interrupt_pending Mip.mtip (leb c.mtimecmp c.mtime) h)
    ∙ timer_line (leb c.mtimecmp c.mtime) h

set_mtimecmp-line :
    (v : ℕ) (c : Clint) (h : Hart)
    → digit (set_mtimecmp v c h).csrs.mip 7
      ≡ of_bool (leb v (c.base.elapsed_ticks c.now c.start_time))
unfolding set_mtimecmp tick_internal
set_mtimecmp-line v c h = handlers-line c' (record h { clint = some c' })
  where
    c' : Clint
    c' = record c { mtimecmp = v; mtime = c.base.elapsed_ticks c.now c.start_time }

set_mtime-line :
    (v : ℕ) (c : Clint) (h : Hart) → digit (set_mtime v c h).csrs.mip 7 ≡ of_bool (leb c.mtimecmp v)
unfolding set_mtime
set_mtime-line v c h = handlers-line c' (record h { clint = some c' })
  where
    c' : Clint
    c' = record c { mtime = v; start_time = c.base.start_for c.now v }

at_mtimecmp :
    (k size value : ℕ) (c : Clint) (h : Hart)
    → k < 8
    → write_internal (0x4000 + k) size value c h
      ≡ (true, set_mtimecmp (write_little_endian c.mtimecmp k size value) c h)
unfolding write_internal
at_mtimecmp k size value c h l = ground arith

at_mtime :
    (k size value : ℕ) (c : Clint) (h : Hart)
    → k < 8
    → write_internal (0xBFF8 + k) size value c h
      ≡ (true, set_mtime (write_little_endian c.mtime k size value) c h)
unfolding write_internal
at_mtime k size value c h l = ground arith

-- A write to MTIMECMP or MTIME is accepted and sets the machine timer line, bit 7 of MIP, exactly if
-- the counter has reached the comparator. The counter is the clock's, or the new value of MTIME.
pub write_internal-line :
    (k size value : ℕ) (c : Clint) (h : Hart)
    → k < 8
    → ((write_internal (0x4000 + k) size value c h).0 ≡ true)
      × ((write_internal (0xBFF8 + k) size value c h).0 ≡ true)
      × (digit (write_internal (0x4000 + k) size value c h).1.csrs.mip 7
          ≡ of_bool (
              leb
                (write_little_endian c.mtimecmp k size value)
                (c.base.elapsed_ticks c.now c.start_time)))
      × (digit (write_internal (0xBFF8 + k) size value c h).1.csrs.mip 7
          ≡ of_bool (leb c.mtimecmp (write_little_endian c.mtime k size value)))
write_internal-line k size value c h l =
    rw (at_mtimecmp k size value c h l, at_mtime k size value c h l)
      (
        refl,
        refl,
        set_mtimecmp-line (write_little_endian c.mtimecmp k size value) c h,
        set_mtime-line (write_little_endian c.mtime k size value) c h,
      )
