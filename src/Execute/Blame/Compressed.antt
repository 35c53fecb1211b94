-- ===== src/Execute/Blame/Compressed.antt =====
-- The pc of the traps that the compressed instructions of src/core/execute.cpp throw.
use uotan_riscv_emu_ng.Base.{ℕ, refl, Bool, ◌==◌, ◌||◌}
use uotan_riscv_emu_ng.Core.Monad.{M, ◌>>◌, raise_if}
use uotan_riscv_emu_ng.Core.Blame.{Blames, after-IsAt, guard-Blames}
use uotan_riscv_emu_ng.Core.Memory.{Machine, Memory}
use uotan_riscv_emu_ng.Decoder.Names.{
  DecodedInsn, Rv64c, c_addi16sp, c_lui, c_addi4spn, c_fld, c_lw, c_ld, c_fsd, c_sw, c_sd, c_fldsp,
  c_lwsp, c_ldsp, c_jr, c_mv, c_ebreak, c_jalr, c_fsdsp, c_swsp, c_sdsp,
}
use uotan_riscv_emu_ng.Execute.System.{illegal_insn, exec_privileged}
use uotan_riscv_emu_ng.Execute.Compressed.{exec_rv64c}
use uotan_riscv_emu_ng.Execute.Blame.Float.{prepared}

-- A memory whose accesses trap at the pc that they are given, for the pc of the instruction.
module _ {W : Type 0} (mem : Memory W) (d : DecodedInsn)
    (reads : (size addr : ℕ) (amo : Bool) → Blames d.pc (mem.read_mem size d.pc addr amo))
    (writes : (size addr v : ℕ) → Blames d.pc (mem.write_mem size d.pc addr v)) where
  refused_if :
      (c : M (Machine W) (Unit {0})) (b : Bool)
      → Blames d.pc c
      → Blames d.pc (raise_if b (illegal_insn d) >> c)
  refused_if c b p = guard-Blames d.pc b (illegal_insn d) c refl p

  pub exec_rv64c-Blames : (i : Rv64c) → Blames d.pc (exec_rv64c mem d i)
  unfolding exec_rv64c exec_privileged
  exec_rv64c-Blames c_addi16sp = refused_if _ (d.imm == 0) (λ m. tt)
  exec_rv64c-Blames c_lui = refused_if _ (d.rd == 2 || d.imm == 0) (λ m. tt)
  exec_rv64c-Blames c_addi4spn = refused_if _ (d.imm == 0) (λ m. tt)
  exec_rv64c-Blames c_fld =
      prepared mem d _ (λ m. after-IsAt d.pc _ _ _ (reads _ _ _ m) (λ v m'. tt))
  exec_rv64c-Blames c_lw = λ m. after-IsAt d.pc _ _ _ (reads _ _ _ m) (λ v m'. tt)
  exec_rv64c-Blames c_ld = λ m. after-IsAt d.pc _ _ _ (reads _ _ _ m) (λ v m'. tt)
  exec_rv64c-Blames c_fsd = prepared mem d _ (λ m. writes _ _ _ m)
  exec_rv64c-Blames c_sw = λ m. writes _ _ _ m
  exec_rv64c-Blames c_sd = λ m. writes _ _ _ m
  exec_rv64c-Blames c_fldsp =
      prepared mem d _ (λ m. after-IsAt d.pc _ _ _ (reads _ _ _ m) (λ v m'. tt))
  exec_rv64c-Blames c_lwsp =
      refused_if _ (d.rd == 0) (λ m. after-IsAt d.pc _ _ _ (reads _ _ _ m) (λ v m'. tt))
  exec_rv64c-Blames c_ldsp =
      refused_if _ (d.rd == 0) (λ m. after-IsAt d.pc _ _ _ (reads _ _ _ m) (λ v m'. tt))
  exec_rv64c-Blames c_jr = refused_if _ (d.rs1 == 0) (λ m. tt)
  exec_rv64c-Blames c_mv = refused_if _ (d.rs2 == 0) (λ m. tt)
  exec_rv64c-Blames c_ebreak = λ m. refl
  exec_rv64c-Blames c_jalr = refused_if _ (d.rs1 == 0) (λ m. tt)
  exec_rv64c-Blames c_fsdsp = prepared mem d _ (λ m. writes _ _ _ m)
  exec_rv64c-Blames c_swsp = λ m. writes _ _ _ m
  exec_rv64c-Blames c_sdsp = λ m. writes _ _ _ m
  exec_rv64c-Blames i = λ m. tt
