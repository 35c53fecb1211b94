-- ===== src/Core/Csr/Access.antt =====
-- Checked access to the CSRs: the table of addresses that `Hart::Hart` fills (src/core/hart.cpp),
-- `check_permissions` of each class (include/core/hart.hpp), `read_checked` and `write_checked`.
use uotan_riscv_emu_ng.Base.{ℕ, ◌-◌, ◌%◌, ◌^◌, Bool, true, false, List, [], ◌∷◌}
use uotan_riscv_emu_ng.Base.{bit_and, bit_or, ◌==◌, leb, truthy, if◌then◌else◌, not, ◌&&◌}
use uotan_riscv_emu_ng.Core.Mstatus
use uotan_riscv_emu_ng.Core.Menvcfg
use uotan_riscv_emu_ng.Core.Trap.{priv_u, priv_s, priv_m, illegal_instruction, Result, ok, trap}
use uotan_riscv_emu_ng.Core.State.{Hart}
use uotan_riscv_emu_ng.Core.Clint.{menvcfg_read}
use uotan_riscv_emu_ng.Core.Csr.{
  Csr, misa, mvendorid, marchid, mimpid, mhartid, mconfigptr, menvcfg, mstatus, mtvec, medeleg,
  mideleg, mip, mie, mscratch, mepc, mcause, mtval, mcounteren, mcountinhibit, mcycle, minstret,
  mhpmcounter, mhpmevent, pmpcfg, tselect, tdata, pmpaddr, sstatus, stvec, sip, sie, sscratch, sepc,
  scause, stval, scounteren, senvcfg, satp, stimecmp, cycle, time, instret, fflags, frm, fcsr,
  hpmcounter, unimplemented, mstatus_read, mstatus_write, read_unchecked, write_unchecked,
}

-- The objects at single addresses.
abbrev pub single_csrs : List (ℕ × Csr)
single_csrs =
    (0x301, misa)
    ∷ (0xF11, mvendorid)
    ∷ (0xF12, marchid)
    ∷ (0xF13, mimpid)
    ∷ (0xF14, mhartid)
    ∷ (0x30A, menvcfg)
    ∷ (0x300, mstatus)
    ∷ (0x305, mtvec)
    ∷ (0x302, medeleg)
    ∷ (0x303, mideleg)
    ∷ (0x344, mip)
    ∷ (0x304, mie)
    ∷ (0x340, mscratch)
    ∷ (0x341, mepc)
    ∷ (0x342, mcause)
    ∷ (0x343, mtval)
    ∷ (0x306, mcounteren)
    ∷ (0x320, mcountinhibit)
    ∷ (0xB00, mcycle)
    ∷ (0xB02, minstret)
    ∷ (0xF15, mconfigptr)
    ∷ (0x7A0, tselect)
    ∷ (0x100, sstatus)
    ∷ (0x105, stvec)
    ∷ (0x144, sip)
    ∷ (0x104, sie)
    ∷ (0x140, sscratch)
    ∷ (0x141, sepc)
    ∷ (0x142, scause)
    ∷ (0x143, stval)
    ∷ (0x106, scounteren)
    ∷ (0x10A, senvcfg)
    ∷ (0x180, satp)
    ∷ (0x14D, stimecmp)
    ∷ (0xC00, cycle)
    ∷ (0xC01, time)
    ∷ (0xC02, instret)
    ∷ (0x001, fflags)
    ∷ (0x002, frm)
    ∷ (0x003, fcsr)
    ∷ []

abbrev between : ℕ → ℕ → ℕ → Bool
between lo hi a = leb lo a && leb a hi

-- The objects at ranges of addresses, and the unimplemented ones everywhere else.
unfoldable pub ranged_csr : ℕ → Csr
ranged_csr a =
    if between 0xB03 0xB1F a
    then mhpmcounter
    else if between 0x323 0x33F a
    then mhpmevent
    else if between 0x3A0 0x3AF a && a % 2 == 0
    then pmpcfg
    else if between 0x3B0 0x3EF a
    then pmpaddr (a - 0x3B0)
    else if between 0x7A1 0x7A3 a
    then tdata
    else if between 0xC03 0xC1F a
    then hpmcounter a
    else unimplemented

unfoldable pub find_csr : ℕ → List (ℕ × Csr) → Csr
find_csr a [] = ranged_csr a
find_csr a ((b, r) ∷ rest) = if b == a then r else find_csr a rest

-- `csrs[address]`
unfoldable pub csr_at : ℕ → Csr
unfolding find_csr ranged_csr
csr_at a = find_csr a single_csrs

-- The privilege that a class passes to the constructor of `CSR`.
unfoldable pub min_priv : Csr → ℕ
min_priv sstatus = priv_s
min_priv stvec = priv_s
min_priv sip = priv_s
min_priv sie = priv_s
min_priv sscratch = priv_s
min_priv sepc = priv_s
min_priv scause = priv_s
min_priv stval = priv_s
min_priv scounteren = priv_s
min_priv senvcfg = priv_s
min_priv satp = priv_s
min_priv stimecmp = priv_s
min_priv cycle = priv_u
min_priv time = priv_u
min_priv instret = priv_u
min_priv fflags = priv_u
min_priv frm = priv_u
min_priv fcsr = priv_u
min_priv (hpmcounter address) = priv_u
min_priv _ = priv_m

abbrev pub counteren_tm : ℕ
counteren_tm = 2 ^ 1

-- `UserCounterCSR::check_permissions` at the counter number `address - 0xC00`.
unfoldable pub counter_permitted : ℕ → Hart → Bool
counter_permitted n h =
    if h.priv == priv_m
    then true
    else if not (truthy (bit_and h.csrs.mcounteren (2 ^ n)))
    then false
    else if h.priv == priv_u && not (truthy (bit_and h.csrs.scounteren (2 ^ n)))
    then false
    else true

unfoldable pub stimecmp_permitted : Hart → Bool
unfolding menvcfg_read
stimecmp_permitted h =
    if h.priv == priv_m
    then true
    else if h.priv == priv_u
    then false
    else if not (truthy (bit_and h.csrs.mcounteren counteren_tm))
    then false
    else if not (truthy (bit_and (menvcfg_read h.csrs) Menvcfg.stce))
    then false
    else true

-- FFLAGS, FRM and FCSR are there only if the floating-point state is on.
unfoldable pub fp_permitted : Hart → Bool
unfolding mstatus_read
fp_permitted h =
    if not (truthy (bit_and (mstatus_read h.csrs) Mstatus.fs)) then false else leb priv_u h.priv

unfoldable pub satp_permitted : Hart → Bool
unfolding mstatus_read
satp_permitted h =
    if h.priv == priv_s && truthy (bit_and (mstatus_read h.csrs) Mstatus.tvm)
    then false
    else leb priv_s h.priv

unfoldable pub check_permissions : Csr → Hart → Bool
unfolding counter_permitted stimecmp_permitted fp_permitted satp_permitted min_priv
check_permissions satp h = satp_permitted h
check_permissions stimecmp h = stimecmp_permitted h
check_permissions cycle h = counter_permitted 0 h
check_permissions time h = counter_permitted 1 h
check_permissions instret h = counter_permitted 2 h
check_permissions (hpmcounter address) h = counter_permitted (address - 0xC00) h
check_permissions fflags h = fp_permitted h
check_permissions frm h = fp_permitted h
check_permissions fcsr h = fp_permitted h
check_permissions r h = leb (min_priv r) h.priv

-- The instruction that accesses a CSR: its address and its bits.
module _ (pc insn : ℕ) where
  abbrev pub illegal : {A : Type 0} → Hart → Result A × Hart
  illegal h = (trap (record { pc = pc; cause = illegal_instruction; tval = insn }), h)

  unfoldable pub read_checked : Csr → Hart → Result ℕ × Hart
  unfolding check_permissions read_unchecked
  read_checked unimplemented h = illegal h
  read_checked r h =
      if not (check_permissions r h)
      then illegal h
      else let (v, h') = read_unchecked r h in (ok v, h')

  -- `CSR::write_checked`
  unfoldable pub base_write_checked : Csr → ℕ → Hart → Result (Unit {0}) × Hart
  unfolding check_permissions write_unchecked
  base_write_checked r v h =
      if not (check_permissions r h) then illegal h else (ok tt, write_unchecked r v h)

  -- A write of a floating-point CSR also sets FS to dirty.
  unfoldable pub fp_write_checked : Csr → ℕ → Hart → Result (Unit {0}) × Hart
  unfolding base_write_checked mstatus_read mstatus_write
  fp_write_checked r v h =
      if not (check_permissions r h)
      then illegal h
      else let h' = write_unchecked r v h in
        (
          ok tt,
          record h' { csrs = mstatus_write (bit_or (mstatus_read h'.csrs) Mstatus.fs) h'.csrs },
        )

  -- `write_checked`: a read-only or unimplemented register is an illegal instruction.
  unfoldable pub write_checked : Csr → ℕ → Hart → Result (Unit {0}) × Hart
  unfolding base_write_checked fp_write_checked
  write_checked unimplemented v h = illegal h
  write_checked mvendorid v h = illegal h
  write_checked marchid v h = illegal h
  write_checked mimpid v h = illegal h
  write_checked mhartid v h = illegal h
  write_checked mconfigptr v h = illegal h
  write_checked cycle v h = illegal h
  write_checked time v h = illegal h
  write_checked instret v h = illegal h
  write_checked (hpmcounter address) v h = illegal h
  write_checked minstret v h =
      if not (check_permissions minstret h)
      then illegal h
      else let h' = write_unchecked minstret v h in
        (ok tt, record h' { csrs = record (h'.csrs) { minstret_increase_suppressed = true } })
  write_checked fflags v h = fp_write_checked fflags v h
  write_checked frm v h = fp_write_checked frm v h
  write_checked fcsr v h = fp_write_checked fcsr v h
  write_checked r v h = base_write_checked r v h
