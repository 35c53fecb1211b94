-- ===== src/Execute/Integer.antt =====
-- The instructions of RV64I, src/core/execute.cpp.
pub mod Frame
use uotan_riscv_emu_ng.Base.{
  ℕ, ◌+◌, ◌-◌, ◌*◌, ◌/◌, ◌%◌, ◌^◌, ◌==◌, Bool, true, false, not, ltb, leb, of_bool, if◌then◌else◌,
  bit_and, bit_or, bit_xor,
}
use uotan_riscv_emu_ng.Base.Word.{add64, sub64, not64, shl64, shl32, slt64, sra64, sra32}
use uotan_riscv_emu_ng.BitOps.{bits, sext}
use uotan_riscv_emu_ng.Core.Monad.{M, ◌>>=◌, ◌>>◌, get, modify, skip}
use uotan_riscv_emu_ng.Core.State.{Hart, read_gpr, write_gpr}
use uotan_riscv_emu_ng.Core.Memory.{Machine, Memory}
use uotan_riscv_emu_ng.Decoder.Names.{
  DecodedInsn, Rv64i, add, addi, addiw, addw, and, andi, auipc, beq, bge, bgeu, blt, bltu, bne,
  fence, fence_i, jal, jalr, lb, lbu, ld, lh, lhu, lui, lw, lwu, or, ori, sb, sd, sh, sw, sll, slli,
  slliw, sllw, slt, slti, sltiu, sltu, sra, srai, sraiw, sraw, srl, srli, srliw, srlw, sub, subw,
  xor, xori,
}

module _ {W : Type 0} (mem : Memory W) (d : DecodedInsn) where
  abbrev pub r1 : Machine W → ℕ
  r1 m = read_gpr d.rs1 m.hart

  abbrev pub r2 : Machine W → ℕ
  r2 m = read_gpr d.rs2 m.hart

  -- `R.write(rd, v)`
  abbrev pub set_rd : ℕ → Machine W → Machine W
  set_rd v m = record m { hart = write_gpr d.rd v m.hart }

  abbrev pub set_pc : ℕ → Machine W → Machine W
  set_pc v m = record m { hart = record (m.hart) { pc = v } }

  -- An instruction that writes a value of the state to `rd`.
  abbrev pub result : (Machine W → ℕ) → M (Machine W) (Unit {0})
  result f = modify (λ m. set_rd (f m) m)

  abbrev pub branch : (Machine W → Bool) → M (Machine W) (Unit {0})
  branch test = modify (λ m. if test m then set_pc (add64 d.pc d.imm) m else m)

  abbrev pub address : Machine W → ℕ
  address m = add64 (r1 m) d.imm

  -- A load of some bytes, and what becomes of them.
  abbrev pub load : ℕ → (ℕ → ℕ) → M (Machine W) (Unit {0})
  load size extend = do
    m ← get
    v ← mem.read_mem size d.pc (address m) false
    modify (set_rd (extend v))

  abbrev pub store : ℕ → (ℕ → ℕ) → M (Machine W) (Unit {0})
  store size shorten = do m ← get; mem.write_mem size d.pc (address m) (shorten (r2 m))

  abbrev low6 : ℕ → ℕ
  low6 x = bits 64 x 5 0

  abbrev low5 : ℕ → ℕ
  low5 x = bits 64 x 4 0

  abbrev low_word : ℕ → ℕ
  low_word x = bits 64 x 31 0

  -- An `int32_t` converted to `uint64_t`.
  abbrev int32 : ℕ → ℕ
  int32 x = sext x 32

  unfoldable pub exec_rv64i : Rv64i → M (Machine W) (Unit {0})
  exec_rv64i add = result (λ m. add64 (r1 m) (r2 m))
  exec_rv64i addi = result (λ m. add64 (r1 m) d.imm)
  exec_rv64i addiw = result (λ m. sext (low_word (add64 (r1 m) d.imm)) 32)
  exec_rv64i addw = result (λ m. sext (low_word (add64 (r1 m) (r2 m))) 32)
  exec_rv64i and = result (λ m. bit_and (r1 m) (r2 m))
  exec_rv64i andi = result (λ m. bit_and (r1 m) d.imm)
  exec_rv64i auipc = result (λ m. add64 d.pc d.imm)
  exec_rv64i beq = branch (λ m. r1 m == r2 m)
  exec_rv64i bge = branch (λ m. not (slt64 (r1 m) (r2 m)))
  exec_rv64i bgeu = branch (λ m. leb (r2 m) (r1 m))
  exec_rv64i blt = branch (λ m. slt64 (r1 m) (r2 m))
  exec_rv64i bltu = branch (λ m. ltb (r1 m) (r2 m))
  exec_rv64i bne = branch (λ m. not (r1 m == r2 m))
  exec_rv64i fence = skip
  exec_rv64i fence_i = skip
  exec_rv64i jal = modify (λ m. set_pc (add64 d.pc d.imm) (set_rd (add64 d.pc 4) m))
  exec_rv64i jalr = modify (λ m. set_rd (add64 d.pc 4) (set_pc (bit_and (address m) (not64 1)) m))
  exec_rv64i lb = load 1 (λ v. sext v 8)
  exec_rv64i lbu = load 1 (λ v. v)
  exec_rv64i ld = load 8 (λ v. v)
  exec_rv64i lh = load 2 (λ v. sext v 16)
  exec_rv64i lhu = load 2 (λ v. v)
  exec_rv64i lui = result (λ m. sext (shl64 (bits 64 d.imm 31 12) 12) 32)
  exec_rv64i lw = load 4 (λ v. sext v 32)
  exec_rv64i lwu = load 4 (λ v. v)
  exec_rv64i or = result (λ m. bit_or (r1 m) (r2 m))
  exec_rv64i ori = result (λ m. bit_or (r1 m) d.imm)
  exec_rv64i sb = store 1 (λ v. v % 2 ^ 8)
  exec_rv64i sd = store 8 (λ v. v)
  exec_rv64i sh = store 2 (λ v. v % 2 ^ 16)
  exec_rv64i sll = result (λ m. shl64 (r1 m) (low6 (r2 m)))
  exec_rv64i slli = result (λ m. shl64 (r1 m) (low6 d.imm))
  exec_rv64i slliw = result (λ m. sext (shl64 (low_word (r1 m)) (low5 d.imm)) 32)
  exec_rv64i sllw = result (λ m. sext (shl32 (low_word (r1 m)) (low5 (r2 m))) 32)
  exec_rv64i slt = result (λ m. of_bool (slt64 (r1 m) (r2 m)))
  exec_rv64i slti = result (λ m. of_bool (slt64 (r1 m) d.imm))
  exec_rv64i sltiu = result (λ m. of_bool (ltb (r1 m) d.imm))
  exec_rv64i sltu = result (λ m. of_bool (ltb (r1 m) (r2 m)))
  exec_rv64i sra = result (λ m. sra64 (r1 m) (low6 (r2 m)))
  exec_rv64i srai = result (λ m. sra64 (r1 m) (low6 d.imm))
  exec_rv64i sraiw = result (λ m. sext (int32 (sra32 (low_word (r1 m)) (low5 d.imm))) 32)
  exec_rv64i sraw = result (λ m. sext (int32 (sra32 (low_word (r1 m)) (low5 (r2 m)))) 32)
  exec_rv64i srl = result (λ m. r1 m / 2 ^ low6 (r2 m))
  exec_rv64i srli = result (λ m. r1 m / 2 ^ low6 d.imm)
  exec_rv64i srliw = result (λ m. sext (low_word (r1 m) / 2 ^ low5 d.imm) 32)
  exec_rv64i srlw = result (λ m. sext (low_word (r1 m) / 2 ^ low5 (r2 m)) 32)
  exec_rv64i sub = result (λ m. sub64 (r1 m) (r2 m))
  exec_rv64i subw = result (λ m. sext (low_word (sub64 (r1 m) (r2 m))) 32)
  exec_rv64i sw = store 4 (λ v. low_word v)
  exec_rv64i xor = result (λ m. bit_xor (r1 m) (r2 m))
  exec_rv64i xori = result (λ m. bit_xor (r1 m) d.imm)
