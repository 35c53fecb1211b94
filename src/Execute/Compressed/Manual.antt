-- ===== src/Execute/Compressed/Manual.antt =====
-- What the manual says of the compressed instructions: which encodings it reserves, and the
-- instructions that the others stand for. Beside it stand those of src/core/execute.cpp.
use uotan_riscv_emu_ng.Base.{◌-◌, ◌%◌, ◌^◌, ◌<◌, ◌≤◌, ◌≡◌, ◌⊎◌, Bool, false, ◌==◌, ◌||◌}
use uotan_riscv_emu_ng.Base.Word.{sub64}
use uotan_riscv_emu_ng.Decoder.Names.{
  DecodedInsn, Rv64i, addi, addiw, addw, add, and, andi, beq, bne, jal, jalr, ld, lui, lw, or, sd,
  slli, srai, srli, sub, subw, sw, xor, Rv64d, fld, fsd, Privileged, ebreak, Rv64c, c_nop, c_addi,
  c_addiw, c_andi, c_sub, c_xor, c_or, c_and, c_subw, c_addw, c_j, c_beqz, c_bnez, c_addi16sp,
  c_addi4spn, c_lw, c_ld, c_sw, c_sd, c_lwsp, c_ldsp, c_add, c_swsp, c_sdsp, c_li, c_lui, c_srli,
  c_srai, c_fld, c_fsd, c_slli, c_fldsp, c_jr, c_mv, c_ebreak, c_jalr, c_fsdsp,
}

-- The instructions that compressed ones stand for.
pub data Target : Type 0 where
  integer : Rv64i → Target
  double : Rv64d → Target
  system : Privileged → Target

abbrev onto_rd : DecodedInsn → DecodedInsn
onto_rd d = record d { rs1 = d.rd }

abbrev from_sp : DecodedInsn → DecodedInsn
from_sp d = record d { rs1 = 2 }

abbrev from_zero : DecodedInsn → DecodedInsn
from_zero d = record d { rs1 = 0 }

-- The encodings that the manual reserves; C.LUI with rd = 2 is C.ADDI16SP, and C.JALR with rs1 = 0 is
-- C.EBREAK. C.ADDIW with rd = 0, which it reserves too, is an ADDIW here.
abbrev pub is_reserved : Rv64c → DecodedInsn → Bool
is_reserved c_addi16sp d = d.imm == 0
is_reserved c_addi4spn d = d.imm == 0
is_reserved c_lwsp d = d.rd == 0
is_reserved c_ldsp d = d.rd == 0
is_reserved c_lui d = d.rd == 2 || d.imm == 0
is_reserved c_jr d = d.rs1 == 0
is_reserved c_jalr d = d.rs1 == 0
is_reserved c_mv d = d.rs2 == 0
is_reserved _ d = false

-- The instruction that the manual gives as the expansion, with its operands. C.JALR links the address
-- two bytes on, as a JALR two bytes earlier would.
abbrev pub expansion : Rv64c → DecodedInsn → Target × DecodedInsn
expansion c_nop d = (integer addi, record d { rd = 0; rs1 = 0; imm = 0 })
expansion c_addi d = (integer addi, onto_rd d)
expansion c_addiw d = (integer addiw, onto_rd d)
expansion c_li d = (integer addi, from_zero d)
expansion c_addi16sp d = (integer addi, record d { rd = 2; rs1 = 2 })
expansion c_lui d = (integer lui, d)
expansion c_srli d = (integer srli, onto_rd d)
expansion c_srai d = (integer srai, onto_rd d)
expansion c_andi d = (integer andi, onto_rd d)
expansion c_sub d = (integer sub, onto_rd d)
expansion c_xor d = (integer xor, onto_rd d)
expansion c_or d = (integer or, onto_rd d)
expansion c_and d = (integer and, onto_rd d)
expansion c_subw d = (integer subw, onto_rd d)
expansion c_addw d = (integer addw, onto_rd d)
expansion c_j d = (integer jal, record d { rd = 0 })
expansion c_beqz d = (integer beq, record d { rs2 = 0 })
expansion c_bnez d = (integer bne, record d { rs2 = 0 })
expansion c_addi4spn d = (integer addi, from_sp d)
expansion c_fld d = (double fld, d)
expansion c_lw d = (integer lw, d)
expansion c_ld d = (integer ld, d)
expansion c_fsd d = (double fsd, d)
expansion c_sw d = (integer sw, d)
expansion c_sd d = (integer sd, d)
expansion c_slli d = (integer slli, onto_rd d)
expansion c_fldsp d = (double fld, from_sp d)
expansion c_lwsp d = (integer lw, from_sp d)
expansion c_ldsp d = (integer ld, from_sp d)
expansion c_jr d = (integer jalr, record d { rd = 0; imm = 0 })
expansion c_mv d = (integer add, from_zero d)
expansion c_ebreak d = (system ebreak, d)
expansion c_jalr d = (integer jalr, record d { rd = 1; imm = 0; pc = sub64 d.pc 2 })
expansion c_add d = (integer add, onto_rd d)
expansion c_fsdsp d = (double fsd, from_sp d)
expansion c_swsp d = (integer sw, from_sp d)
expansion c_sdsp d = (integer sd, from_sp d)

-- Which immediates the fields of the encoding can give, where it matters: a word, a shift amount, and
-- a sign-extended multiple of 2 ^ 12 of 32 bits, if C.LUI writes a register at all.
abbrev pub IsOperand : Rv64c → DecodedInsn → Type 0
IsOperand c_li d = d.imm < 2 ^ 64
IsOperand c_srli d = d.imm < 64
IsOperand c_srai d = d.imm < 64
IsOperand c_slli d = d.imm < 64
IsOperand c_lui d =
    (d.rd ≡ 0)
    ⊎ ((d.imm % 2 ^ 12 ≡ 0) × ((d.imm < 2 ^ 31) ⊎ ((2 ^ 64 - 2 ^ 31 ≤ d.imm) × (d.imm < 2 ^ 64))))
IsOperand _ d = Unit {0}
