-- ===== src/Execute/Compressed.antt =====
-- The instructions of the C extension, src/core/execute.cpp.
pub mod Manual
pub mod Expansion
use uotan_riscv_emu_ng.Base.{
  ℕ, ◌+◌, ◌-◌, ◌*◌, ◌/◌, ◌%◌, ◌^◌, Bool, true, false, not, ◌||◌, ◌==◌, bit_and, bit_or, bit_xor,
  if◌then◌else◌,
}
use uotan_riscv_emu_ng.Base.Word.{add64, sub64, not64, shl64, sra64}
use uotan_riscv_emu_ng.BitOps.{bits, sext}
use uotan_riscv_emu_ng.Core.Trap.{Trap, breakpoint}
use uotan_riscv_emu_ng.Core.Monad.{M, ◌>>=◌, ◌>>◌, get, modify, skip, raise_if}
use uotan_riscv_emu_ng.Core.State.{Hart, read_gpr, write_gpr}
use uotan_riscv_emu_ng.Core.Memory.{Machine, Memory}
use uotan_riscv_emu_ng.Decoder.Names.{
  DecodedInsn, Rv64c, ebreak, c_nop, c_addi, c_addiw, c_li, c_addi16sp, c_lui, c_srli, c_srai,
  c_andi, c_sub, c_xor, c_or, c_and, c_subw, c_addw, c_j, c_beqz, c_bnez, c_addi4spn, c_fld, c_lw,
  c_ld, c_fsd, c_sw, c_sd, c_slli, c_fldsp, c_lwsp, c_ldsp, c_jr, c_mv, c_ebreak, c_jalr, c_add,
  c_fsdsp, c_swsp, c_sdsp,
}
use uotan_riscv_emu_ng.Execute.System.{illegal_insn, exec_privileged}
use uotan_riscv_emu_ng.Execute.Integer.{r1, r2, set_rd, set_pc, result, branch, address}
use uotan_riscv_emu_ng.Execute.Float.{fp_inst_prep, set_fd, read_fpr}

-- An instruction of the hart alone, on the machine.
abbrev pub on_hart : {W A : Type 0} → M Hart A → M (Machine W) A
on_hart c m = let r = c m.hart in (r.0, record m { hart = r.1 })

module _ {W : Type 0} (mem : Memory W) (d : DecodedInsn) where
  -- `R[rd]` and `R[2]`
  abbrev pub rd_value : Machine W → ℕ
  rd_value m = read_gpr d.rd m.hart

  abbrev pub sp : Machine W → ℕ
  sp m = read_gpr 2 m.hart

  abbrev pub set_reg : ℕ → ℕ → Machine W → Machine W
  set_reg i v m = record m { hart = write_gpr i v m.hart }

  abbrev pub sp_address : Machine W → ℕ
  sp_address m = add64 (sp m) d.imm

  -- What is illegal if the test holds.
  abbrev pub unless : Bool → M (Machine W) (Unit {0}) → M (Machine W) (Unit {0})
  unless test c = raise_if test (illegal_insn d) >> c

  abbrev pub load_from : ℕ → (Machine W → ℕ) → (ℕ → ℕ) → M (Machine W) (Unit {0})
  load_from size at extend = do
    m ← get
    v ← mem.read_mem size d.pc (at m) false
    modify (set_rd mem d (extend v))

  abbrev pub store_to : ℕ → (Machine W → ℕ) → (Machine W → ℕ) → M (Machine W) (Unit {0})
  store_to size at value = do m ← get; mem.write_mem size d.pc (at m) (value m)

  -- C.FLD and C.FLDSP, which do not set FS to dirty.
  abbrev pub load_double : (Machine W → ℕ) → M (Machine W) (Unit {0})
  load_double at = do
    fp_inst_prep mem d
    m ← get
    v ← mem.read_mem 8 d.pc (at m) false
    modify (set_fd mem d v)

  abbrev pub store_double : (Machine W → ℕ) → M (Machine W) (Unit {0})
  store_double at = do fp_inst_prep mem d; m ← get; mem.write_mem 8 d.pc (at m) (read_fpr d.rs2 m)

  abbrev low_word : ℕ → ℕ
  low_word x = bits 64 x 31 0

  unfoldable pub exec_rv64c : Rv64c → M (Machine W) (Unit {0})
  unfolding exec_privileged
  exec_rv64c c_nop = skip
  exec_rv64c c_addi = result mem d (λ m. add64 (rd_value m) d.imm)
  exec_rv64c c_addiw = result mem d (λ m. sext (low_word (add64 (rd_value m) d.imm)) 32)
  exec_rv64c c_li = result mem d (λ m. d.imm)
  exec_rv64c c_addi16sp = unless (d.imm == 0) (modify (λ m. set_reg 2 (add64 (sp m) d.imm) m))
  exec_rv64c c_lui = unless (d.rd == 2 || d.imm == 0) (result mem d (λ m. d.imm))
  exec_rv64c c_srli = result mem d (λ m. rd_value m / 2 ^ d.imm)
  exec_rv64c c_srai = result mem d (λ m. sra64 (rd_value m) d.imm)
  exec_rv64c c_andi = result mem d (λ m. bit_and (rd_value m) d.imm)
  exec_rv64c c_sub = result mem d (λ m. sub64 (rd_value m) (r2 mem d m))
  exec_rv64c c_xor = result mem d (λ m. bit_xor (rd_value m) (r2 mem d m))
  exec_rv64c c_or = result mem d (λ m. bit_or (rd_value m) (r2 mem d m))
  exec_rv64c c_and = result mem d (λ m. bit_and (rd_value m) (r2 mem d m))
  exec_rv64c c_subw = result mem d (λ m. sext (low_word (sub64 (rd_value m) (r2 mem d m))) 32)
  exec_rv64c c_addw = result mem d (λ m. sext (low_word (add64 (rd_value m) (r2 mem d m))) 32)
  exec_rv64c c_j = modify (set_pc mem d (add64 d.pc d.imm))
  exec_rv64c c_beqz = branch mem d (λ m. r1 mem d m == 0)
  exec_rv64c c_bnez = branch mem d (λ m. not (r1 mem d m == 0))
  exec_rv64c c_addi4spn = unless (d.imm == 0) (result mem d (λ m. add64 (sp m) d.imm))
  exec_rv64c c_fld = load_double (address mem d)
  exec_rv64c c_lw = load_from 4 (address mem d) (λ v. sext v 32)
  exec_rv64c c_ld = load_from 8 (address mem d) (λ v. v)
  exec_rv64c c_fsd = store_double (address mem d)
  exec_rv64c c_sw = store_to 4 (address mem d) (λ m. low_word (r2 mem d m))
  exec_rv64c c_sd = store_to 8 (address mem d) (r2 mem d)
  exec_rv64c c_slli = result mem d (λ m. shl64 (rd_value m) d.imm)
  exec_rv64c c_fldsp = load_double sp_address
  exec_rv64c c_lwsp = unless (d.rd == 0) (load_from 4 sp_address (λ v. sext v 32))
  exec_rv64c c_ldsp = unless (d.rd == 0) (load_from 8 sp_address (λ v. v))
  exec_rv64c c_jr =
      unless (d.rs1 == 0) (modify (λ m. set_pc mem d (bit_and (r1 mem d m) (not64 1)) m))
  exec_rv64c c_mv = unless (d.rs2 == 0) (result mem d (r2 mem d))
  exec_rv64c c_ebreak = on_hart (exec_privileged d ebreak)
  exec_rv64c c_jalr =
      unless (d.rs1 == 0)
        (modify (λ m. set_reg 1 (add64 d.pc 2) (set_pc mem d (bit_and (r1 mem d m) (not64 1)) m)))
  exec_rv64c c_add = result mem d (λ m. add64 (rd_value m) (r2 mem d m))
  exec_rv64c c_fsdsp = store_double sp_address
  exec_rv64c c_swsp = store_to 4 sp_address (λ m. low_word (r2 mem d m))
  exec_rv64c c_sdsp = store_to 8 sp_address (r2 mem d)
