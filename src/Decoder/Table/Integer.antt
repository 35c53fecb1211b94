-- ===== src/Decoder/Table/Integer.antt =====
-- The patterns of the integer, privileged, M and A instructions, src/core/decoder.cpp.
use uotan_riscv_emu_ng.Base.{List, [], ◌∷◌}
use uotan_riscv_emu_ng.Decoder.Pattern.{Entry, instpat}
use uotan_riscv_emu_ng.Decoder.Names.{
  rv64i, add, addi, addiw, addw, and, andi, auipc, beq, bge, bgeu, blt, bltu, bne, fence, fence_i,
  jal, jalr, lb, lbu, ld, lh, lhu, lui, lw, lwu, or, ori, sb, sd, sh, sll, slli, slliw, sllw, slt,
  slti, sltiu, sltu, sra, srai, sraiw, sraw, srl, srli, srliw, srlw, sub, subw, sw, xor, xori,
  zicsr, csrrc, csrrci, csrrs, csrrsi, csrrw, csrrwi, privileged, ebreak, ecall, mret, sfence_vma,
  sret, wfi, rv64m, div, divu, divuw, divw, mul, mulh, mulhsu, mulhu, mulw, rem, remu, remuw, remw,
  rv64a, lr_d, lr_w, sc_d, sc_w, amoadd_d, amoadd_w, amoand_d, amoand_w, amoor_d, amoor_w, amoxor_d,
  amoxor_w, amomax_d, amomax_w, amomaxu_d, amomaxu_w, amomin_d, amomin_w, amominu_d, amominu_w,
  amoswap_d, amoswap_w, type_b, type_i, type_j, type_n, type_r, type_s, type_u,
}

unfoldable pub integer_patterns : List Entry
integer_patterns =
    instpat "0000000 ????? ????? 000 ????? 01100 11" (rv64i add) type_r
    ∷ instpat "??????? ????? ????? 000 ????? 00100 11" (rv64i addi) type_i
    ∷ instpat "??????? ????? ????? 000 ????? 00110 11" (rv64i addiw) type_i
    ∷ instpat "0000000 ????? ????? 000 ????? 01110 11" (rv64i addw) type_r
    ∷ instpat "0000000 ????? ????? 111 ????? 01100 11" (rv64i and) type_r
    ∷ instpat "??????? ????? ????? 111 ????? 00100 11" (rv64i andi) type_i
    ∷ instpat "??????? ????? ????? ??? ????? 00101 11" (rv64i auipc) type_u
    ∷ instpat "??????? ????? ????? 000 ????? 11000 11" (rv64i beq) type_b
    ∷ instpat "??????? ????? ????? 101 ????? 11000 11" (rv64i bge) type_b
    ∷ instpat "??????? ????? ????? 111 ????? 11000 11" (rv64i bgeu) type_b
    ∷ instpat "??????? ????? ????? 100 ????? 11000 11" (rv64i blt) type_b
    ∷ instpat "??????? ????? ????? 110 ????? 11000 11" (rv64i bltu) type_b
    ∷ instpat "??????? ????? ????? 001 ????? 11000 11" (rv64i bne) type_b
    ∷ instpat "??????? ????? ????? 000 ????? 00011 11" (rv64i fence) type_i
    ∷ instpat "??????? ????? ????? 001 ????? 00011 11" (rv64i fence_i) type_i
    ∷ instpat "??????? ????? ????? ??? ????? 11011 11" (rv64i jal) type_j
    ∷ instpat "??????? ????? ????? 000 ????? 11001 11" (rv64i jalr) type_i
    ∷ instpat "??????? ????? ????? 000 ????? 00000 11" (rv64i lb) type_i
    ∷ instpat "??????? ????? ????? 100 ????? 00000 11" (rv64i lbu) type_i
    ∷ instpat "??????? ????? ????? 011 ????? 00000 11" (rv64i ld) type_i
    ∷ instpat "??????? ????? ????? 001 ????? 00000 11" (rv64i lh) type_i
    ∷ instpat "??????? ????? ????? 101 ????? 00000 11" (rv64i lhu) type_i
    ∷ instpat "??????? ????? ????? ??? ????? 01101 11" (rv64i lui) type_u
    ∷ instpat "??????? ????? ????? 010 ????? 00000 11" (rv64i lw) type_i
    ∷ instpat "??????? ????? ????? 110 ????? 00000 11" (rv64i lwu) type_i
    ∷ instpat "0000000 ????? ????? 110 ????? 01100 11" (rv64i or) type_r
    ∷ instpat "??????? ????? ????? 110 ????? 00100 11" (rv64i ori) type_i
    ∷ instpat "??????? ????? ????? 000 ????? 01000 11" (rv64i sb) type_s
    ∷ instpat "??????? ????? ????? 011 ????? 01000 11" (rv64i sd) type_s
    ∷ instpat "??????? ????? ????? 001 ????? 01000 11" (rv64i sh) type_s
    ∷ instpat "0000000 ????? ????? 001 ????? 01100 11" (rv64i sll) type_r
    ∷ instpat "000000? ????? ????? 001 ????? 00100 11" (rv64i slli) type_i
    ∷ instpat "0000000 ????? ????? 001 ????? 00110 11" (rv64i slliw) type_i
    ∷ instpat "0000000 ????? ????? 001 ????? 01110 11" (rv64i sllw) type_r
    ∷ instpat "0000000 ????? ????? 010 ????? 01100 11" (rv64i slt) type_r
    ∷ instpat "??????? ????? ????? 010 ????? 00100 11" (rv64i slti) type_i
    ∷ instpat "??????? ????? ????? 011 ????? 00100 11" (rv64i sltiu) type_i
    ∷ instpat "0000000 ????? ????? 011 ????? 01100 11" (rv64i sltu) type_r
    ∷ instpat "0100000 ????? ????? 101 ????? 01100 11" (rv64i sra) type_r
    ∷ instpat "010000? ????? ????? 101 ????? 00100 11" (rv64i srai) type_i
    ∷ instpat "0100000 ????? ????? 101 ????? 00110 11" (rv64i sraiw) type_i
    ∷ instpat "0100000 ????? ????? 101 ????? 01110 11" (rv64i sraw) type_r
    ∷ instpat "0000000 ????? ????? 101 ????? 01100 11" (rv64i srl) type_r
    ∷ instpat "000000? ????? ????? 101 ????? 00100 11" (rv64i srli) type_i
    ∷ instpat "0000000 ????? ????? 101 ????? 00110 11" (rv64i srliw) type_i
    ∷ instpat "0000000 ????? ????? 101 ????? 01110 11" (rv64i srlw) type_r
    ∷ instpat "0100000 ????? ????? 000 ????? 01100 11" (rv64i sub) type_r
    ∷ instpat "0100000 ????? ????? 000 ????? 01110 11" (rv64i subw) type_r
    ∷ instpat "??????? ????? ????? 010 ????? 01000 11" (rv64i sw) type_s
    ∷ instpat "0000000 ????? ????? 100 ????? 01100 11" (rv64i xor) type_r
    ∷ instpat "??????? ????? ????? 100 ????? 00100 11" (rv64i xori) type_i
    ∷ instpat "??????? ????? ????? 011 ????? 11100 11" (zicsr csrrc) type_i
    ∷ instpat "??????? ????? ????? 111 ????? 11100 11" (zicsr csrrci) type_i
    ∷ instpat "??????? ????? ????? 010 ????? 11100 11" (zicsr csrrs) type_i
    ∷ instpat "??????? ????? ????? 110 ????? 11100 11" (zicsr csrrsi) type_i
    ∷ instpat "??????? ????? ????? 001 ????? 11100 11" (zicsr csrrw) type_i
    ∷ instpat "??????? ????? ????? 101 ????? 11100 11" (zicsr csrrwi) type_i
    ∷ instpat "0000000 00001 00000 000 00000 11100 11" (privileged ebreak) type_n
    ∷ instpat "0000000 00000 00000 000 00000 11100 11" (privileged ecall) type_n
    ∷ instpat "0011000 00010 00000 000 00000 11100 11" (privileged mret) type_n
    ∷ instpat "0001001 ????? ????? 000 00000 11100 11" (privileged sfence_vma) type_r
    ∷ instpat "0001000 00010 00000 000 00000 11100 11" (privileged sret) type_n
    ∷ instpat "0001000 00101 00000 000 00000 11100 11" (privileged wfi) type_n
    ∷ instpat "0000001 ????? ????? 100 ????? 01100 11" (rv64m div) type_r
    ∷ instpat "0000001 ????? ????? 101 ????? 01100 11" (rv64m divu) type_r
    ∷ instpat "0000001 ????? ????? 101 ????? 01110 11" (rv64m divuw) type_r
    ∷ instpat "0000001 ????? ????? 100 ????? 01110 11" (rv64m divw) type_r
    ∷ instpat "0000001 ????? ????? 000 ????? 01100 11" (rv64m mul) type_r
    ∷ instpat "0000001 ????? ????? 001 ????? 01100 11" (rv64m mulh) type_r
    ∷ instpat "0000001 ????? ????? 010 ????? 01100 11" (rv64m mulhsu) type_r
    ∷ instpat "0000001 ????? ????? 011 ????? 01100 11" (rv64m mulhu) type_r
    ∷ instpat "0000001 ????? ????? 000 ????? 01110 11" (rv64m mulw) type_r
    ∷ instpat "0000001 ????? ????? 110 ????? 01100 11" (rv64m rem) type_r
    ∷ instpat "0000001 ????? ????? 111 ????? 01100 11" (rv64m remu) type_r
    ∷ instpat "0000001 ????? ????? 111 ????? 01110 11" (rv64m remuw) type_r
    ∷ instpat "0000001 ????? ????? 110 ????? 01110 11" (rv64m remw) type_r
    ∷ instpat "00010?? 00000 ????? 011 ????? 01011 11" (rv64a lr_d) type_r
    ∷ instpat "00010?? 00000 ????? 010 ????? 01011 11" (rv64a lr_w) type_r
    ∷ instpat "00011?? ????? ????? 011 ????? 01011 11" (rv64a sc_d) type_r
    ∷ instpat "00011?? ????? ????? 010 ????? 01011 11" (rv64a sc_w) type_r
    ∷ instpat "00000?? ????? ????? 011 ????? 01011 11" (rv64a amoadd_d) type_r
    ∷ instpat "00000?? ????? ????? 010 ????? 01011 11" (rv64a amoadd_w) type_r
    ∷ instpat "01100?? ????? ????? 011 ????? 01011 11" (rv64a amoand_d) type_r
    ∷ instpat "01100?? ????? ????? 010 ????? 01011 11" (rv64a amoand_w) type_r
    ∷ instpat "01000?? ????? ????? 011 ????? 01011 11" (rv64a amoor_d) type_r
    ∷ instpat "01000?? ????? ????? 010 ????? 01011 11" (rv64a amoor_w) type_r
    ∷ instpat "00100?? ????? ????? 011 ????? 01011 11" (rv64a amoxor_d) type_r
    ∷ instpat "00100?? ????? ????? 010 ????? 01011 11" (rv64a amoxor_w) type_r
    ∷ instpat "10100?? ????? ????? 011 ????? 01011 11" (rv64a amomax_d) type_r
    ∷ instpat "10100?? ????? ????? 010 ????? 01011 11" (rv64a amomax_w) type_r
    ∷ instpat "11100?? ????? ????? 011 ????? 01011 11" (rv64a amomaxu_d) type_r
    ∷ instpat "11100?? ????? ????? 010 ????? 01011 11" (rv64a amomaxu_w) type_r
    ∷ instpat "10000?? ????? ????? 011 ????? 01011 11" (rv64a amomin_d) type_r
    ∷ instpat "10000?? ????? ????? 010 ????? 01011 11" (rv64a amomin_w) type_r
    ∷ instpat "11000?? ????? ????? 011 ????? 01011 11" (rv64a amominu_d) type_r
    ∷ instpat "11000?? ????? ????? 010 ????? 01011 11" (rv64a amominu_w) type_r
    ∷ instpat "00001?? ????? ????? 011 ????? 01011 11" (rv64a amoswap_d) type_r
    ∷ instpat "00001?? ????? ????? 010 ????? 01011 11" (rv64a amoswap_w) type_r
    ∷ []
