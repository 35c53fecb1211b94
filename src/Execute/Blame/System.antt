-- ===== src/Execute/Blame/System.antt =====
-- The pc of the traps that the CSR and privileged instructions of src/core/execute.cpp throw.
use uotan_riscv_emu_ng.Base.{
  ℕ, refl, Bool, true, not, truthy, ◌==◌, ◌||◌, ◌&&◌, ltb, bit_and, bit_or, if◌then◌else◌,
}
use uotan_riscv_emu_ng.Base.Word.{not64}
use uotan_riscv_emu_ng.Core.Mstatus
use uotan_riscv_emu_ng.Core.Monad.{◌>>=◌, ◌>>◌, modify, get, when, skip}
use uotan_riscv_emu_ng.Core.Trap.{priv_u, priv_s, priv_m, terminate, wfi_wait}
use uotan_riscv_emu_ng.Decoder.Names.{
  DecodedInsn, Zicsr, csrrc, csrrci, csrrs, csrrsi, csrrw, csrrwi, Privileged, ebreak, ecall, mret,
  sret, wfi, sfence_vma,
}
use uotan_riscv_emu_ng.Execute.System.{
  exec_zicsr, exec_privileged, return_m, return_s, refused, tlb_flush_vaddr, illegal_insn, read_csr,
  write_csr, csr_of, zimm_of,
}
use uotan_riscv_emu_ng.Core.Blame.{
  Blames, after-IsAt, when-Blames, if-Blames, guard-Blames, choose-IsAt,
}
use uotan_riscv_emu_ng.Core.State.{Hart, read_gpr, write_gpr, tlb_flush_all}
use uotan_riscv_emu_ng.Core.Csr.{
  mstatus_read, mie_read, Csr, unimplemented, mvendorid, marchid, mimpid, mhartid, mconfigptr,
  cycle, time, instret, hpmcounter, minstret, fflags, frm, fcsr,
}
use uotan_riscv_emu_ng.Core.Interrupts.{has_pending_enabled_interrupt}
use uotan_riscv_emu_ng.Core.Csr.Access.{
  csr_at, read_checked, write_checked, base_write_checked, fp_write_checked, check_permissions,
}

module _ (at insn : ℕ) where
  pub read_checked-Blames : (r : Csr) → Blames at (read_checked at insn r)
  unfolding read_checked
  read_checked-Blames unimplemented h = refl
  read_checked-Blames r h = choose-IsAt at (not (check_permissions r h)) _ _ refl tt

  base_write-Blames : (r : Csr) (v : ℕ) → Blames at (base_write_checked at insn r v)
  unfolding base_write_checked
  base_write-Blames r v h = choose-IsAt at (not (check_permissions r h)) _ _ refl tt

  fp_write-Blames : (r : Csr) (v : ℕ) → Blames at (fp_write_checked at insn r v)
  unfolding fp_write_checked
  fp_write-Blames r v h = choose-IsAt at (not (check_permissions r h)) _ _ refl tt

  pub write_checked-Blames : (r : Csr) (v : ℕ) → Blames at (write_checked at insn r v)
  unfolding write_checked
  write_checked-Blames unimplemented v h = refl
  write_checked-Blames mvendorid v h = refl
  write_checked-Blames marchid v h = refl
  write_checked-Blames mimpid v h = refl
  write_checked-Blames mhartid v h = refl
  write_checked-Blames mconfigptr v h = refl
  write_checked-Blames cycle v h = refl
  write_checked-Blames time v h = refl
  write_checked-Blames instret v h = refl
  write_checked-Blames (hpmcounter address) v h = refl
  write_checked-Blames minstret v h =
      choose-IsAt at (not (check_permissions minstret h)) _ _ refl tt
  write_checked-Blames fflags v h = fp_write-Blames fflags v h
  write_checked-Blames frm v h = fp_write-Blames frm v h
  write_checked-Blames fcsr v h = fp_write-Blames fcsr v h
  write_checked-Blames r v h = base_write-Blames r v h

module _ (d : DecodedInsn) where
  read_csr-Blames : Blames d.pc (read_csr d)
  read_csr-Blames = read_checked-Blames d.pc d.insn (csr_at (csr_of d))

  write_csr-Blames : (v : ℕ) → Blames d.pc (write_csr d v)
  write_csr-Blames v = write_checked-Blames d.pc d.insn (csr_at (csr_of d)) v

  -- A read, a write if the test holds, and the register.
  updated-Blames :
      (b : Hart → Bool) (v : ℕ → Hart → ℕ) (f : ℕ → Hart → Hart)
      → Blames d.pc
          (read_csr d >>= λ t. get >>= λ h. when (b h) (write_csr d (v t h)) >> modify (f t))
  updated-Blames b v f h = after-IsAt d.pc _ _ _ (read_csr-Blames h) (λ t h'.
      after-IsAt d.pc _ _ _ (when-Blames d.pc (b h') (write_csr d (v t h')) (write_csr-Blames _) h')
        (λ u h2. tt))

  abbrev asked : Hart → Hart
  asked h = record h { interrupt_check_pending = true }

  pub exec_zicsr-Blames : (i : Zicsr) → Blames d.pc (exec_zicsr d i)
  unfolding exec_zicsr
  exec_zicsr-Blames csrrc h =
      updated-Blames (λ h'. truthy d.rs1) (λ t h'. bit_and t (not64 (read_gpr d.rs1 h')))
        (write_gpr d.rd) (asked h)
  exec_zicsr-Blames csrrci h =
      updated-Blames (λ h'. truthy (zimm_of d)) (λ t h'. bit_and t (not64 (zimm_of d)))
        (write_gpr d.rd) (asked h)
  exec_zicsr-Blames csrrs h =
      updated-Blames (λ h'. truthy d.rs1) (λ t h'. bit_or t (read_gpr d.rs1 h')) (write_gpr d.rd)
        (asked h)
  exec_zicsr-Blames csrrsi h =
      updated-Blames (λ h'. truthy (zimm_of d)) (λ t h'. bit_or t (zimm_of d)) (write_gpr d.rd)
        (asked h)
  exec_zicsr-Blames csrrw h =
      if-Blames d.pc (truthy d.rd)
        (read_csr d >>= λ t.
          get >>= λ h'. write_csr d (read_gpr d.rs1 h') >> modify (write_gpr d.rd t))
        (get >>= λ h'. write_csr d (read_gpr d.rs1 h'))
        (updated-Blames (λ h'. true) (λ t. read_gpr d.rs1) (write_gpr d.rd))
        (λ h'. write_csr-Blames (read_gpr d.rs1 h') h') (asked h)
  exec_zicsr-Blames csrrwi h =
      after-IsAt d.pc _ _ _
        (when-Blames d.pc (truthy d.rd) (read_csr d >>= λ t. modify (write_gpr d.rd t))
          (λ h'. after-IsAt d.pc _ _ _ (read_csr-Blames h') (λ t h2. tt)) (asked h))
        (λ u. write_csr-Blames (zimm_of d))

  pub exec_privileged-Blames : (i : Privileged) → Blames d.pc (exec_privileged d i)
  unfolding exec_privileged
  exec_privileged-Blames ebreak h = refl
  exec_privileged-Blames ecall h = choose-IsAt d.pc (h.priv == priv_m) _ _ refl (
      choose-IsAt d.pc (h.priv == priv_s) _ _ refl
        (choose-IsAt d.pc (h.priv == priv_u) _ (terminate, h) refl tt))
  exec_privileged-Blames mret h =
      guard-Blames d.pc (not (h.priv == priv_m)) (illegal_insn d) (modify return_m) refl (λ h'. tt)
        (asked h)
  exec_privileged-Blames sret h =
      guard-Blames d.pc (refused Mstatus.tsr h) (illegal_insn d) (modify return_s) refl (λ h'. tt)
        (asked h)
  exec_privileged-Blames sfence_vma h =
      guard-Blames d.pc (refused Mstatus.tvm h) (illegal_insn d)
        (modify (λ h'. record h' {
          mmu =
              if d.rs1 == 0 then tlb_flush_all h.mmu else tlb_flush_vaddr (read_gpr d.rs1 h) h.mmu;
        }))
        refl (λ h'. tt) h
  exec_privileged-Blames wfi h =
      guard-Blames d.pc
        (h.priv == priv_u
          || (ltb h.priv priv_m && truthy (bit_and (mstatus_read h.csrs) Mstatus.tw)))
        (illegal_insn d)
        (if has_pending_enabled_interrupt h || mie_read h.csrs == 0
          then skip
          else (λ s. (wfi_wait, s)))
        refl
        (if-Blames d.pc (has_pending_enabled_interrupt h || mie_read h.csrs == 0) skip
          (λ s. (wfi_wait, s)) (λ h'. tt) (λ h'. tt))
        (asked h)
