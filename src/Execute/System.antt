-- ===== src/Execute/System.antt =====
-- The CSR and privileged instructions of src/core/execute.cpp.
use uotan_riscv_emu_ng.Base.{ℕ, ◌/◌, ◌%◌, ◌^◌, Bool, true, false, not, ◌&&◌, ◌||◌}
use uotan_riscv_emu_ng.Base.{bit_and, bit_or, ◌==◌, ltb, truthy, if◌then◌else◌, List, get_or, set}
use uotan_riscv_emu_ng.Base.Word.{not64}
use uotan_riscv_emu_ng.BitOps.{bits}
use uotan_riscv_emu_ng.Core.Mstatus
use uotan_riscv_emu_ng.Core.Trap.{
  priv_u, priv_s, priv_m, TrapCause, illegal_instruction, breakpoint, environment_call_from_u,
  environment_call_from_s, environment_call_from_m, Trap, Result, trap, wfi_wait, terminate,
}
use uotan_riscv_emu_ng.Core.Monad.{M, ◌>>=◌, ◌>>◌, get, modify, raise, raise_if, skip, when}
use uotan_riscv_emu_ng.Core.State.{
  Hart, Mmu, TlbEntry, read_gpr, write_gpr, tlb_flush_all, tlb_entries, empty_entry,
}
use uotan_riscv_emu_ng.Core.Csr.{
  mstatus_read, mstatus_write, sstatus_read, sstatus_write, mie_read, epc_read,
}
use uotan_riscv_emu_ng.Core.Csr.Access.{csr_at, read_checked, write_checked}
use uotan_riscv_emu_ng.Core.Interrupts.{put_bit, has_pending_enabled_interrupt}
use uotan_riscv_emu_ng.Decoder.Names.{
  DecodedInsn, Zicsr, csrrc, csrrci, csrrs, csrrsi, csrrw, csrrwi, Privileged, ebreak, ecall, mret,
  sret, wfi, sfence_vma,
}

abbrev request_check : M Hart (Unit {0})
request_check = modify (λ h. record h { interrupt_check_pending = true })

abbrev pub exception_at : DecodedInsn → TrapCause → ℕ → Trap
exception_at d cause tval = record { pc = d.pc; cause = cause; tval = tval }

-- `Trap::raise_exception(pc, TrapCause::IllegalInstruction, d->insn)`
abbrev pub illegal_insn : DecodedInsn → Trap
illegal_insn d = exception_at d illegal_instruction d.insn

abbrev pub csr_of : DecodedInsn → ℕ
csr_of d = bit_and d.imm 0xFFF

abbrev pub zimm_of : DecodedInsn → ℕ
zimm_of d = bits 32 d.insn 19 15

module _ (d : DecodedInsn) where
  -- `csrs[csr]->read_checked(*d)` and `csrs[csr]->write_checked(*d, v)`
  abbrev pub read_csr : M Hart ℕ
  read_csr = read_checked d.pc d.insn (csr_at (csr_of d))

  abbrev pub write_csr : ℕ → M Hart (Unit {0})
  write_csr v = write_checked d.pc d.insn (csr_at (csr_of d)) v

  unfoldable pub exec_zicsr : Zicsr → M Hart (Unit {0})
  exec_zicsr csrrc = do
    request_check
    t ← read_csr
    h ← get
    when (truthy d.rs1) (write_csr (bit_and t (not64 (read_gpr d.rs1 h))))
    modify (write_gpr d.rd t)
  exec_zicsr csrrci = do
    request_check
    t ← read_csr
    when (truthy (zimm_of d)) (write_csr (bit_and t (not64 (zimm_of d))))
    modify (write_gpr d.rd t)
  exec_zicsr csrrs = do
    request_check
    t ← read_csr
    h ← get
    when (truthy d.rs1) (write_csr (bit_or t (read_gpr d.rs1 h)))
    modify (write_gpr d.rd t)
  exec_zicsr csrrsi = do
    request_check
    t ← read_csr
    when (truthy (zimm_of d)) (write_csr (bit_or t (zimm_of d)))
    modify (write_gpr d.rd t)
  exec_zicsr csrrw =
      request_check
      >> (if truthy d.rd
          then (read_csr >>= λ t.
              get >>= λ h. write_csr (read_gpr d.rs1 h) >> modify (write_gpr d.rd t))
          else (get >>= λ h. write_csr (read_gpr d.rs1 h)))
  exec_zicsr csrrwi = do
    request_check
    when (truthy d.rd) (read_csr >>= λ t. modify (write_gpr d.rd t))
    write_csr (zimm_of d)

unfoldable pub drop_entry : ℕ → ℕ → List TlbEntry → List TlbEntry
drop_entry vpn idx tlb =
    let e = get_or tlb idx empty_entry in
    if e.valid && e.vpn == vpn then set tlb idx (record e { valid = false }) else tlb

-- `tlb_flush_vaddr`: an entry for the page is made invalid in both TLBs.
unfoldable pub tlb_flush_vaddr : ℕ → Mmu → Mmu
unfolding drop_entry
tlb_flush_vaddr vaddr m =
    let vpn = vaddr / 2 ^ 12 in
    let idx = vpn % tlb_entries in
    record m { dtlb = drop_entry vpn idx m.dtlb; itlb = drop_entry vpn idx m.itlb }

-- MSTATUS after MRET to a privilege.
unfoldable pub mstatus_on_mret : ℕ → ℕ → ℕ
mstatus_on_mret priv mstatus =
    let m1 = if not (priv == priv_m) then bit_and mstatus (not64 Mstatus.mprv) else mstatus in
    let m2 = put_bit Mstatus.mie (truthy (bit_and m1 Mstatus.mpie)) m1 in
    bit_and (bit_or m2 Mstatus.mpie) (not64 Mstatus.mpp)

unfoldable pub return_m : Hart → Hart
unfolding mstatus_on_mret mstatus_read mstatus_write epc_read
return_m h =
    let mstatus = mstatus_read h.csrs in
    let priv = bit_and mstatus Mstatus.mpp / 2 ^ 11 in
    record h {
      pc = epc_read h.csrs.mepc;
      priv = priv;
      csrs = mstatus_write (mstatus_on_mret priv mstatus) h.csrs;
    }

-- SSTATUS after SRET.
unfoldable pub sstatus_on_sret : ℕ → ℕ
sstatus_on_sret sstatus =
    let s1 = put_bit Mstatus.sie (truthy (bit_and sstatus Mstatus.spie)) sstatus in
    bit_and (bit_or s1 Mstatus.spie) (not64 Mstatus.spp)

unfoldable pub return_s : Hart → Hart
unfolding sstatus_on_sret sstatus_read sstatus_write mstatus_read mstatus_write epc_read
return_s h =
    let sstatus = sstatus_read h.csrs in
    let priv = bit_and sstatus Mstatus.spp / 2 ^ 8 in
    let c = sstatus_write (sstatus_on_sret sstatus) h.csrs in
    let c' =
      if not (priv == priv_m)
      then mstatus_write (bit_and (mstatus_read c) (not64 Mstatus.mprv)) c
      else c in
    record h { pc = epc_read h.csrs.sepc; priv = priv; csrs = c' }

-- `static_cast<PrivilegeLevel>` of 2 falls to `std::unreachable`.
abbrev environment_call : DecodedInsn → Hart → Result (Unit {0}) × Hart
environment_call d h =
    if h.priv == priv_m
    then (trap (exception_at d environment_call_from_m 0), h)
    else if h.priv == priv_s
    then (trap (exception_at d environment_call_from_s 0), h)
    else if h.priv == priv_u
    then (trap (exception_at d environment_call_from_u 0), h)
    else (terminate, h)

-- U-mode is refused, and S-mode where MSTATUS has the bit.
abbrev pub refused : ℕ → Hart → Bool
refused bit h = h.priv == priv_u || (h.priv == priv_s && truthy (bit_and (mstatus_read h.csrs) bit))

module _ (d : DecodedInsn) where
  unfoldable pub exec_privileged : Privileged → M Hart (Unit {0})
  unfolding return_m return_s mstatus_read mie_read has_pending_enabled_interrupt tlb_flush_all
      tlb_flush_vaddr
  exec_privileged ebreak = raise (exception_at d breakpoint d.pc)
  exec_privileged ecall = environment_call d
  exec_privileged mret = do
    request_check
    h ← get
    raise_if (not (h.priv == priv_m)) (illegal_insn d)
    modify return_m
  exec_privileged sfence_vma = do
    h ← get
    raise_if (refused Mstatus.tvm h) (illegal_insn d)
    modify λ h'. record h' {
      mmu = if d.rs1 == 0 then tlb_flush_all h.mmu else tlb_flush_vaddr (read_gpr d.rs1 h) h.mmu;
    }
  exec_privileged sret = do
    request_check
    h ← get
    raise_if (refused Mstatus.tsr h) (illegal_insn d)
    modify return_s
  exec_privileged wfi = do
    request_check
    h ← get
    raise_if
        (h.priv == priv_u
          || (ltb h.priv priv_m && truthy (bit_and (mstatus_read h.csrs) Mstatus.tw)))
        (illegal_insn d)
    (if has_pending_enabled_interrupt h || mie_read h.csrs == 0 then skip else (λ s. (wfi_wait, s)))
