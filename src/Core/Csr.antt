-- ===== src/Core/Csr.antt =====
-- The CSR classes of include/core/hart.hpp, and their members in src/core/hart.cpp: what an
-- unchecked read or write of each register does.
pub mod Access
pub mod Protection
pub mod Invariant
pub mod Preservation
pub mod Status
pub mod Writable
pub mod Epc
use uotan_riscv_emu_ng.Base.{ℕ, ◌+◌, ◌-◌, ◌*◌, ◌/◌, ◌^◌, Bool, ◌&&◌, ◌||◌}
use uotan_riscv_emu_ng.Base.{bit_and, bit_or, ◌==◌, truthy, get_or, set, if◌then◌else◌, not}
use uotan_riscv_emu_ng.Base.Word.{not64}
use uotan_riscv_emu_ng.Core.Mstatus
use uotan_riscv_emu_ng.Core.Mip
use uotan_riscv_emu_ng.Core.Menvcfg
use uotan_riscv_emu_ng.Core.State.{Csrs, Hart, tlb_flush_all}
use uotan_riscv_emu_ng.Core.Clint.{menvcfg_read, tick, get_mtime}

-- The class of a CSR object; `pmpaddr` and `hpmcounter` carry what tells their objects apart.
pub data Csr : Type 0 where
  misa mvendorid marchid mimpid mhartid mconfigptr menvcfg mstatus mtvec medeleg mideleg : Csr
  mip mie mscratch mepc mcause mtval mcounteren mcountinhibit mcycle minstret : Csr
  mhpmcounter mhpmevent pmpcfg tselect tdata : Csr
  pmpaddr : ℕ → Csr
  sstatus stvec sip sie sscratch sepc scause stval scounteren senvcfg satp stimecmp : Csr
  cycle time instret fflags frm fcsr : Csr
  hpmcounter : ℕ → Csr
  unimplemented : Csr

unfoldable pub mstatus_read : Csrs → ℕ
mstatus_read c = bit_and c.mstatus Mstatus.read_mask

-- SD follows FS: it says that the floating-point state is dirty.
unfoldable pub with_sd : ℕ → ℕ
with_sd v =
    if bit_and v Mstatus.fs / 2 ^ 13 == 3 then bit_or v Mstatus.sd else bit_and v (not64 Mstatus.sd)

unfoldable pub mstatus_write : ℕ → Csrs → Csrs
unfolding with_sd
mstatus_write v c =
    let v' = bit_or (bit_and c.mstatus (not64 Mstatus.write_mask)) (bit_and v Mstatus.write_mask) in
    record c { mstatus = with_sd v' }

unfoldable pub sstatus_read : Csrs → ℕ
unfolding mstatus_read
sstatus_read c = bit_and (mstatus_read c) Mstatus.sstatus_read_mask

unfoldable pub sstatus_write : ℕ → Csrs → Csrs
unfolding mstatus_read mstatus_write
sstatus_write v c =
    mstatus_write
      (bit_or (bit_and (mstatus_read c) (not64 Mstatus.sstatus_write_mask))
        (bit_and v Mstatus.sstatus_write_mask))
      c

-- `TVECCSR::write_unchecked`
unfoldable pub tvec_value : ℕ → ℕ
tvec_value v = bit_and v (not64 2)

abbrev pub medeleg_mask : ℕ
medeleg_mask = not64 (2 ^ 11 + 2 ^ 16)

abbrev pub countinhibit_mask : ℕ
countinhibit_mask = not64 2

abbrev pub counteren_mask : ℕ
counteren_mask = 7

unfoldable pub mip_read : Csrs → ℕ
mip_read c = bit_and c.mip Mip.all_interrupts

-- The loop on the atomic word ends with one exchange, which is what is modelled.
unfoldable pub mip_write : ℕ → Csrs → Csrs
unfolding menvcfg_read
mip_write v c =
    let write_mask =
      if truthy (bit_and (menvcfg_read c) Menvcfg.stce)
      then Mip.mip_write_mask
      else bit_or Mip.mip_write_mask Mip.stip in
    record c { mip = bit_or (bit_and c.mip (not64 write_mask)) (bit_and v write_mask) }

unfoldable pub mie_read : Csrs → ℕ
mie_read c = bit_and c.mie Mip.all_interrupts

unfoldable pub mie_write : ℕ → Csrs → Csrs
mie_write v c = record c { mie = bit_and v Mip.all_interrupts }

unfoldable pub sip_read : Csrs → ℕ
unfolding mip_read
sip_read c = bit_and (bit_and (mip_read c) Mip.supervisor) c.mideleg

unfoldable pub sip_write : ℕ → Csrs → Csrs
unfolding mip_write
sip_write v c = mip_write (bit_and (bit_and v Mip.ssip) c.mideleg) c

unfoldable pub sie_read : Csrs → ℕ
unfolding mie_read
sie_read c = bit_and (mie_read c) Mip.supervisor

unfoldable pub sie_write : ℕ → Csrs → Csrs
unfolding mie_write
sie_write v c = mie_write (bit_and v Mip.supervisor) c

-- `EPCCSR`: bit 0 reads as 0 and is never written.
abbrev pub epc_mask : ℕ
epc_mask = not64 1

unfoldable pub epc_read : ℕ → ℕ
epc_read value = bit_and value epc_mask

unfoldable pub epc_write : ℕ → ℕ → ℕ
epc_write value v = bit_or (bit_and value (not64 epc_mask)) (bit_and v epc_mask)

unfoldable pub fflags_read : Csrs → ℕ
fflags_read c = bit_and c.fflags 0b11111

unfoldable pub frm_read : Csrs → ℕ
frm_read c = bit_and c.frm 0b111

abbrev pub satp_mode : ℕ → ℕ
satp_mode v = bit_and v (15 * 2 ^ 60) / 2 ^ 60

-- A value with an unsupported mode leaves SATP alone; a new value flushes the TLBs.
unfoldable pub satp_write : ℕ → Hart → Hart
unfolding tlb_flush_all
satp_write v h =
    if not (h.csrs.satp == v) && (satp_mode v == 0 || satp_mode v == 8)
    then record h { csrs = record (h.csrs) { satp = v }; mmu = tlb_flush_all h.mmu }
    else h

-- `read_unchecked` of each class, but for TIME, which `read_unchecked` adds.
unfoldable pub value_of : Csr → Csrs → ℕ
unfolding mstatus_read sstatus_read mip_read mie_read sip_read sie_read menvcfg_read epc_read
    fflags_read frm_read
value_of misa c = 2 ^ 0 + 2 ^ 2 + 2 ^ 3 + 2 ^ 5 + 2 ^ 8 + 2 ^ 12 + 2 ^ 18 + 2 ^ 20 + 2 ^ 63
value_of mvendorid c = 0
value_of marchid c = 0
value_of mimpid c = 0x10
value_of mhartid c = 0
value_of mconfigptr c = 0
value_of menvcfg c = menvcfg_read c
value_of mstatus c = mstatus_read c
value_of mtvec c = c.mtvec
value_of medeleg c = bit_and c.medeleg medeleg_mask
value_of mideleg c = c.mideleg
value_of mip c = mip_read c
value_of mie c = mie_read c
value_of mscratch c = c.mscratch
value_of mepc c = epc_read c.mepc
value_of mcause c = c.mcause
value_of mtval c = c.mtval
value_of mcounteren c = c.mcounteren
value_of mcountinhibit c = bit_and c.mcountinhibit countinhibit_mask
value_of mcycle c = c.mcycle
value_of minstret c = c.minstret
value_of mhpmcounter c = 0
value_of mhpmevent c = 0
value_of pmpcfg c = 0
value_of tselect c = 0
value_of tdata c = 0
value_of (pmpaddr i) c = get_or c.pmpaddr i 0
value_of sstatus c = sstatus_read c
value_of stvec c = c.stvec
value_of sip c = sip_read c
value_of sie c = sie_read c
value_of sscratch c = c.sscratch
value_of sepc c = epc_read c.sepc
value_of scause c = c.scause
value_of stval c = c.stval
value_of scounteren c = bit_and c.scounteren counteren_mask
value_of senvcfg c = bit_and c.senvcfg Menvcfg.fiom
value_of satp c = c.satp
value_of stimecmp c = c.stimecmp
value_of cycle c = c.mcycle
value_of time c = 0
value_of instret c = c.minstret
value_of fflags c = fflags_read c
value_of frm c = frm_read c
value_of fcsr c = bit_or (fflags_read c) (frm_read c * 2 ^ 5)
value_of (hpmcounter address) c = 0
value_of unimplemented c = 0

-- `read_unchecked`: the read of TIME ticks the CLINT.
unfoldable pub read_unchecked : Csr → Hart → ℕ × Hart
unfolding get_mtime value_of
read_unchecked time h = get_mtime h
read_unchecked r h = (value_of r h.csrs, h)

-- `write_unchecked` of the classes that change no more than the stored words.
unfoldable pub with_value : Csr → ℕ → Csrs → Csrs
unfolding mstatus_write sstatus_write mip_write mie_write sip_write sie_write epc_write tvec_value
with_value menvcfg v c = record c { menvcfg = bit_and v Menvcfg.mask }
with_value mstatus v c = mstatus_write v c
with_value mtvec v c = record c { mtvec = tvec_value v }
with_value medeleg v c = record c { medeleg = bit_and v medeleg_mask }
with_value mideleg v c = record c { mideleg = bit_and v Mip.supervisor }
with_value mip v c = mip_write v c
with_value mie v c = mie_write v c
with_value mscratch v c = record c { mscratch = v }
with_value mepc v c = record c { mepc = epc_write c.mepc v }
with_value mcause v c = record c { mcause = v }
with_value mtval v c = record c { mtval = v }
with_value mcounteren v c = record c { mcounteren = v }
with_value mcountinhibit v c = record c { mcountinhibit = bit_and v countinhibit_mask }
with_value mcycle v c = record c { mcycle = v }
with_value minstret v c = record c { minstret = v }
with_value (pmpaddr i) v c = record c { pmpaddr = set c.pmpaddr i v }
with_value sstatus v c = sstatus_write v c
with_value stvec v c = record c { stvec = tvec_value v }
with_value sip v c = sip_write v c
with_value sie v c = sie_write v c
with_value sscratch v c = record c { sscratch = v }
with_value sepc v c = record c { sepc = epc_write c.sepc v }
with_value scause v c = record c { scause = v }
with_value stval v c = record c { stval = v }
with_value scounteren v c = record c { scounteren = bit_and v counteren_mask }
with_value senvcfg v c = record c { senvcfg = bit_and v Menvcfg.fiom }
with_value stimecmp v c = record c { stimecmp = v }
with_value fflags v c = record c { fflags = bit_and v 0b11111 }
with_value frm v c = record c { frm = bit_and v 0b111 }
with_value fcsr v c = record c {
  fflags = bit_and (bit_and v 0b11111) 0b11111;
  frm = bit_and (bit_and (v / 2 ^ 5) 0b111) 0b111;
}
with_value _ v c = c

-- `write_unchecked`: SATP also flushes the TLBs, and STIMECMP ticks the CLINT.
unfoldable pub write_unchecked : Csr → ℕ → Hart → Hart
unfolding satp_write with_value tick
write_unchecked satp v h = satp_write v h
write_unchecked stimecmp v h = tick (record h { csrs = with_value stimecmp v h.csrs })
write_unchecked r v h = record h { csrs = with_value r v h.csrs }
