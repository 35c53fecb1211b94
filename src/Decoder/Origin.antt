-- ===== src/Decoder/Origin.antt =====
-- The address that `Decoder::decode` of src/core/decoder.cpp notes in what it decodes.
use uotan_riscv_emu_ng.Base.{ℕ, ◌+◌, ◌≡◌, refl, Option, none, some}
use uotan_riscv_emu_ng.BitOps.{bits}
use uotan_riscv_emu_ng.Decoder.Names.{
  DecodedInsn, Ilen, normal, compressed, Itype, type_cr, type_ci, type_css, type_ciw, type_cl,
  type_cs, type_ca, type_cb, type_cj, type_n,
}
use uotan_riscv_emu_ng.Decoder.Pattern.{Entry}
use uotan_riscv_emu_ng.Decoder.Operands.{
  imm_memory, with_imm, operand_16, decode_operand_16, decode_operand_32,
}
use uotan_riscv_emu_ng.Decoder.Decode.{decode, decoded, find, table}

-- What is decoded, if anything, stands at `pc`.
abbrev pub StandsAt : ℕ → Option DecodedInsn → Type 0
StandsAt pc none = Unit {0}
StandsAt pc (some d) = d.pc ≡ pc

with_imm-StandsAt : (s : DecodedInsn) (o : Option ℕ) → StandsAt s.pc (with_imm s o)
with_imm-StandsAt s none = tt
with_imm-StandsAt s (some imm) = refl

operand_16-StandsAt : (t : Itype) (s : DecodedInsn) → StandsAt s.pc (operand_16 t s)
unfolding operand_16
operand_16-StandsAt type_cr s = refl
operand_16-StandsAt type_ci s = refl
operand_16-StandsAt type_css s = refl
operand_16-StandsAt type_ciw s = refl
operand_16-StandsAt type_cl s =
    with_imm-StandsAt (record s { rd = bits 32 s.insn 4 2 + 8; rs1 = bits 32 s.insn 9 7 + 8 })
      (imm_memory 2 1 3 s.insn)
operand_16-StandsAt type_cs s =
    with_imm-StandsAt (record s { rs1 = bits 32 s.insn 9 7 + 8; rs2 = bits 32 s.insn 4 2 + 8 })
      (imm_memory 6 5 7 s.insn)
operand_16-StandsAt type_ca s = refl
operand_16-StandsAt type_cb s = refl
operand_16-StandsAt type_cj s = refl
operand_16-StandsAt type_n s = refl
operand_16-StandsAt _ s = tt

decoded-StandsAt :
    (len : Ilen) (s : DecodedInsn) (o : Option Entry) → StandsAt s.pc (decoded len s o)
unfolding decode_operand_16 decode_operand_32
decoded-StandsAt len s none = tt
decoded-StandsAt normal s (some e) = refl
decoded-StandsAt compressed s (some e) =
    operand_16-StandsAt e.type (record s { iname = e.iname; type = e.type })

pub decode-StandsAt :
    (s : DecodedInsn) (insn : ℕ) (len : Ilen) (pc : ℕ) → StandsAt pc (decode s insn len pc)
unfolding decode
decode-StandsAt s insn len pc =
    decoded-StandsAt len (record s { insn = insn; len = len; pc = pc }) (find (table len) insn)
