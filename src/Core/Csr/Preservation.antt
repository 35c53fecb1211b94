-- ===== src/Core/Csr/Preservation.antt =====
-- The hart's reads and writes of CSRs keep what always holds of them: `read_unchecked`,
-- `write_unchecked` and `Clint::tick` of src/core/hart.cpp and src/device/clint.cpp.
use uotan_riscv_emu_ng.Base.{ℕ, ◌≡◌, ◌⊎◌, inl, inr}
use uotan_riscv_emu_ng.Base.{bit_and, arith, Bool, true, false}
use uotan_riscv_emu_ng.Core.Mip
use uotan_riscv_emu_ng.Core.State.{Csrs, Hart, Clint}
use uotan_riscv_emu_ng.Core.Csr.{
  Csr, satp, stimecmp, time, read_unchecked, write_unchecked, satp_write,
}
use uotan_riscv_emu_ng.Core.Menvcfg
use uotan_riscv_emu_ng.Core.Clint.{
  set_interrupt_pending, set_pending, clear_pending, handle_stimecmp, handle_mtimecmp,
  tick_internal, tick, get_mtime, menvcfg_read,
}
use uotan_riscv_emu_ng.Base.{Option, Bool-cases, none, some, truthy, leb}
use uotan_riscv_emu_ng.Core.Csr.Invariant.{IsValid, SatpIsValid, with_value-IsValid}

with_satp : (v : ℕ) (c : Csrs) → IsValid c → SatpIsValid v → IsValid (record c { satp = v })
with_satp v c i s = record {
  status = i.status;
  mtvec_mode = i.mtvec_mode;
  stvec_mode = i.stvec_mode;
  medeleg_bits = i.medeleg_bits;
  mideleg_bits = i.mideleg_bits;
  satp_known = s;
  fflags_range = i.fflags_range;
  frm_range = i.frm_range;
}

-- A new value of SATP is stored only with a known mode.
satp_write-csrs :
    (v : ℕ) (h : Hart)
    → ((satp_write v h).csrs ≡ h.csrs)
      ⊎ (SatpIsValid v × ((satp_write v h).csrs ≡ record (h.csrs) { satp = v }))
unfolding satp_write
satp_write-csrs v h = ground arith

satp_write-IsValid : (v : ℕ) (h : Hart) → IsValid h.csrs → IsValid (satp_write v h).csrs
satp_write-IsValid v h i = elim (satp_write-csrs v h) [
  | inl e ↦ rw e i
  | inr p ↦ rw (p.1) (with_satp v h.csrs i p.0)
]

-- The words that the invariant speaks of are not those of the interrupts that are pending.
pub mip-IsValid : (m : ℕ) (c : Csrs) → IsValid c → IsValid (record c { mip = m })
mip-IsValid m c i = record {
  status = i.status;
  mtvec_mode = i.mtvec_mode;
  stvec_mode = i.stvec_mode;
  medeleg_bits = i.medeleg_bits;
  mideleg_bits = i.mideleg_bits;
  satp_known = i.satp_known;
  fflags_range = i.fflags_range;
  frm_range = i.frm_range;
}

pub suppressed-IsValid :
    (b : Bool) (c : Csrs) → IsValid c → IsValid (record c { minstret_increase_suppressed = b })
suppressed-IsValid b c i = record {
  status = i.status;
  mtvec_mode = i.mtvec_mode;
  stvec_mode = i.stvec_mode;
  medeleg_bits = i.medeleg_bits;
  mideleg_bits = i.mideleg_bits;
  satp_known = i.satp_known;
  fflags_range = i.fflags_range;
  frm_range = i.frm_range;
}

pub pending-IsValid :
    (mask : ℕ) (on : Bool) (h : Hart)
    → IsValid h.csrs
    → IsValid (set_interrupt_pending mask on h).csrs
unfolding set_interrupt_pending set_pending clear_pending
pending-IsValid mask true h i = mip-IsValid _ h.csrs i
pending-IsValid mask false h i = mip-IsValid _ h.csrs i

pub stimecmp-IsValid : (c : Clint) (h : Hart) → IsValid h.csrs → IsValid (handle_stimecmp c h).csrs
unfolding handle_stimecmp
stimecmp-IsValid c h i = elim (Bool-cases (truthy (bit_and (menvcfg_read h.csrs) Menvcfg.stce))) [
  | inl e ↦ rw e (pending-IsValid Mip.stip (leb h.csrs.stimecmp c.mtime) h i)
  | inr e ↦ rw e i
]

pub tick_internal-IsValid :
    (c : Clint) (h : Hart) → IsValid h.csrs → IsValid (tick_internal c h).csrs
unfolding tick_internal handle_mtimecmp
tick_internal-IsValid c h i =
    stimecmp-IsValid c' _
      (pending-IsValid Mip.mtip (leb c'.mtimecmp c'.mtime) (record h { clint = some c' }) i)
  where
    c' : Clint
    c' = record c { mtime = c.base.elapsed_ticks c.now c.start_time }

pub tick-IsValid : (h : Hart) → IsValid h.csrs → IsValid (tick h).csrs
unfolding tick
tick-IsValid h i = ticked h.clint
  where
    ticked :
        (o : Option Clint)
        → IsValid (elim o as (λ _. Hart) [ none ↦ h | some c ↦ tick_internal c h ]).csrs
    ticked none = i
    ticked (some c) = tick_internal-IsValid c h i

get_mtime-IsValid : (h : Hart) → IsValid h.csrs → IsValid (get_mtime h).1.csrs
unfolding get_mtime
get_mtime-IsValid h i = read h.clint
  where
    read :
        (o : Option Clint)
        → IsValid
            (elim o as (λ _. ℕ × Hart) [
              | none ↦ (0, h)
              | some c ↦ (c.base.elapsed_ticks c.now c.start_time, tick_internal c h)
            ]).1.csrs
    read none = i
    read (some c) = tick_internal-IsValid c h i

pub read_unchecked-IsValid :
    (r : Csr) (h : Hart) → IsValid h.csrs → IsValid (read_unchecked r h).1.csrs
unfolding read_unchecked
read_unchecked-IsValid time h i = get_mtime-IsValid h i
read_unchecked-IsValid r h i = i

pub write_unchecked-IsValid :
    (r : Csr) (v : ℕ) (h : Hart) → IsValid h.csrs → IsValid (write_unchecked r v h).csrs
unfolding write_unchecked
write_unchecked-IsValid satp v h i = satp_write-IsValid v h i
write_unchecked-IsValid stimecmp v h i = tick-IsValid _ (with_value-IsValid stimecmp v h.csrs i)
write_unchecked-IsValid r v h i = with_value-IsValid r v h.csrs i
