-- ===== src/Device/Plic/Line.antt =====
-- The interrupt lines of the hart follow what the contexts offer: `context_update` of
-- src/device/plic.cpp over `Hart::set_interrupt_pending` of src/core/hart.cpp.
use uotan_riscv_emu_ng.Base.{
  ℕ, ◌≡◌, ◌<◌, Bool, true, false, of_bool, not, ◌==◌, arith, if◌then◌else◌,
}
use uotan_riscv_emu_ng.Base.Digits.{digit, digit-set, digit-reset}
use uotan_riscv_emu_ng.Core.Mip
use uotan_riscv_emu_ng.Core.State.{Hart}
use uotan_riscv_emu_ng.Core.Clint.{set_interrupt_pending, set_pending, clear_pending}
use uotan_riscv_emu_ng.Device.Plic.{Context, context_update, context_best_pending}

driven_line :
    (m : Bool) (on : Bool) (h : Hart) (k : ℕ)
    → k < 64
    → digit (set_interrupt_pending (if m then Mip.meip else Mip.seip) on h).csrs.mip k
      ≡ (if k == (if m then 11 else 9) then of_bool on else digit h.csrs.mip k)
unfolding set_interrupt_pending set_pending clear_pending
driven_line true true h k l = digit-set 11 k h.csrs.mip
driven_line true false h k l = digit-reset 11 k h.csrs.mip l (omega arith)
driven_line false true h k l = digit-set 9 k h.csrs.mip
driven_line false false h k l = digit-reset 9 k h.csrs.mip l (omega arith)

-- After an update of a context, the line of its mode says whether the context offers a source, and
-- no other digit of MIP has changed.
pub context_update-line :
    (num_ids words : ℕ) (c : Context) (h : Hart) (k : ℕ)
    → k < 64
    → digit (context_update num_ids words c h).csrs.mip k ≡ (
        if k == (if c.mmode then 11 else 9)
        then of_bool (not (context_best_pending num_ids words c == 0))
        else digit h.csrs.mip k)
unfolding context_update
context_update-line num_ids words c h k l =
    driven_line c.mmode (not (context_best_pending num_ids words c == 0)) h k l
