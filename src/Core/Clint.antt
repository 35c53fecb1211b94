-- ===== src/Core/Clint.antt =====
-- Pending interrupts (`Hart::set_interrupt_pending`, the MIP class) and the timer part of
-- src/device/clint.cpp, which the STIMECMP and TIME registers call.
use uotan_riscv_emu_ng.Base.{ℕ, Bool, none, some}
use uotan_riscv_emu_ng.Base.{bit_and, bit_or, leb, truthy, if◌then◌else◌}
use uotan_riscv_emu_ng.Base.Word.{not64}
use uotan_riscv_emu_ng.Core.Mip
use uotan_riscv_emu_ng.Core.Menvcfg
use uotan_riscv_emu_ng.Core.State.{Csrs, Clint, Hart}

-- `MENVCFG::read_unchecked`
unfoldable pub menvcfg_read : Csrs → ℕ
menvcfg_read c = bit_and c.menvcfg Menvcfg.mask

-- `MIP::set_pending` and `MIP::clear_pending`
unfoldable pub set_pending : ℕ → Csrs → Csrs
set_pending mask c = record c { mip = bit_or c.mip (bit_and mask Mip.all_interrupts) }

unfoldable pub clear_pending : ℕ → Csrs → Csrs
clear_pending mask c = record c { mip = bit_and c.mip (not64 mask) }

unfoldable pub set_interrupt_pending : ℕ → Bool → Hart → Hart
unfolding set_pending clear_pending
set_interrupt_pending mask pending h = record h {
  csrs = if pending then set_pending mask h.csrs else clear_pending mask h.csrs;
}

unfoldable pub handle_mtimecmp : Clint → Hart → Hart
handle_mtimecmp c h = set_interrupt_pending Mip.mtip (leb c.mtimecmp c.mtime) h

unfoldable pub handle_stimecmp : Clint → Hart → Hart
handle_stimecmp c h =
    if truthy (bit_and (menvcfg_read h.csrs) Menvcfg.stce)
    then set_interrupt_pending Mip.stip (leb h.csrs.stimecmp c.mtime) h
    else h

-- `Clint::tick_internal`: the counter is read off the clock, then both comparators are tested.
unfoldable pub tick_internal : Clint → Hart → Hart
unfolding handle_mtimecmp handle_stimecmp
tick_internal c h =
    let c' = record c { mtime = c.base.elapsed_ticks c.now c.start_time } in
    handle_stimecmp c' (handle_mtimecmp c' (record h { clint = some c' }))

-- `clint->tick()`, if there is a CLINT.
unfoldable pub tick : Hart → Hart
tick h = elim h.clint [ none ↦ h | some c ↦ tick_internal c h ]

-- `clint->get_mtime()` for `TIME::read_unchecked`: the counter after a tick, 0 without a CLINT.
unfoldable pub get_mtime : Hart → ℕ × Hart
get_mtime h = elim h.clint [
  | none ↦ (0, h)
  | some c ↦ (c.base.elapsed_ticks c.now c.start_time, tick_internal c h)
]
