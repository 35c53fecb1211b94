-- ===== src/Core/State.antt =====
-- The state of a hart: `Hart` and its registers (include/core/hart.hpp), the part of the MMU that
-- changes (include/core/mmu.hpp) and the CLINT that it points to (include/device/clint.hpp).
use uotan_riscv_emu_ng.Base.{ℕ, Bool, false, Option, none, List, replicate}
use uotan_riscv_emu_ng.Base.{get_or, set, ◌==◌, if◌then◌else◌}
use uotan_riscv_emu_ng.Core.Mstatus
use uotan_riscv_emu_ng.Core.Trap.{priv_m}

-- The stored words of the CSRs that have state. SSTATUS, SIP, SIE and FCSR are views of these.
pub record Csrs : Type 0 where
  pub menvcfg : ℕ
  pub mstatus : ℕ
  pub mtvec : ℕ
  pub medeleg : ℕ
  pub mideleg : ℕ
  pub mip : ℕ
  pub mie : ℕ
  pub mscratch : ℕ
  pub mepc : ℕ
  pub mcause : ℕ
  pub mtval : ℕ
  pub mcounteren : ℕ
  pub mcountinhibit : ℕ
  pub mcycle : ℕ
  pub minstret : ℕ
  pub minstret_increase_suppressed : Bool
  pub pmpaddr : List ℕ
  pub stvec : ℕ
  pub sscratch : ℕ
  pub sepc : ℕ
  pub scause : ℕ
  pub stval : ℕ
  pub scounteren : ℕ
  pub senvcfg : ℕ
  pub satp : ℕ
  pub stimecmp : ℕ
  pub fflags : ℕ
  pub frm : ℕ

pub record TlbEntry : Type 0 where
  pub vpn : ℕ
  pub ppn : ℕ
  pub perm : ℕ
  pub valid : Bool
  pub dirty : Bool

pub record Mmu : Type 0 where
  pub itlb : List TlbEntry
  pub dtlb : List TlbEntry
  pub reservation_address : ℕ
  pub reservation_valid : Bool

-- What the CLINT asks of the host's clock and of floating point: the ticks that passed between two
-- readings of the clock, and the start time from which a counter value would be read now.
pub record TimeBase : Type 0 where
  pub elapsed_ticks : ℕ → ℕ → ℕ
  pub start_for : ℕ → ℕ → ℕ

-- `now` is the reading of the steady clock. Only the host changes it.
pub record Clint : Type 0 where
  pub mtime : ℕ
  pub mtimecmp : ℕ
  pub start_time : ℕ
  pub now : ℕ
  pub base : TimeBase

pub record Hart : Type 0 where
  pub pc : ℕ
  pub gprs : List ℕ
  pub fprs : List ℕ
  pub csrs : Csrs
  pub priv : ℕ
  pub mmu : Mmu
  pub interrupt_check_pending : Bool
  pub clint : Option Clint

-- `RegisterFile::read` and `RegisterFile::write`
unfoldable pub read_gpr : ℕ → Hart → ℕ
read_gpr i h = if i == 0 then 0 else get_or h.gprs i 0

unfoldable pub write_gpr : ℕ → ℕ → Hart → Hart
write_gpr i v h = if i == 0 then h else record h { gprs = set h.gprs i v }

abbrev pub empty_entry : TlbEntry
empty_entry = record { vpn = 0; ppn = 0; perm = 0; valid = false; dirty = false }

abbrev pub tlb_entries : ℕ
tlb_entries = 128

-- `MMU::tlb_flush_all`
unfoldable pub tlb_flush_all : Mmu → Mmu
tlb_flush_all m = record m {
  itlb = replicate tlb_entries empty_entry;
  dtlb = replicate tlb_entries empty_entry;
}

unfoldable pub initial_csrs : Csrs
initial_csrs = record {
  menvcfg = 0;
  mstatus = Mstatus.initial;
  mtvec = 0;
  medeleg = 0;
  mideleg = 0;
  mip = 0;
  mie = 0;
  mscratch = 0;
  mepc = 0;
  mcause = 0;
  mtval = 0;
  mcounteren = 0;
  mcountinhibit = 0;
  mcycle = 0;
  minstret = 0;
  minstret_increase_suppressed = false;
  pmpaddr = replicate 64 0;
  stvec = 0;
  sscratch = 0;
  sepc = 0;
  scause = 0;
  stval = 0;
  scounteren = 0;
  senvcfg = 0;
  satp = 0;
  stimecmp = 0;
  fflags = 0;
  frm = 0;
}

-- The state that the constructors of the hart and of the MMU leave.
unfoldable pub reset : ℕ → Hart
unfolding initial_csrs
reset reset_pc = record {
  pc = reset_pc;
  gprs = replicate 32 0;
  fprs = replicate 32 0;
  csrs = initial_csrs;
  priv = priv_m;
  mmu = record {
    itlb = replicate tlb_entries empty_entry;
    dtlb = replicate tlb_entries empty_entry;
    reservation_address = 0;
    reservation_valid = false;
  };
  interrupt_check_pending = false;
  clint = none;
}
