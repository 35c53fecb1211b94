-- ===== src/Decoder/Operands.antt =====
-- `decode_operand_32` and `decode_operand_16` of src/core/decoder.cpp. A field that the source does not
-- set keeps what it was; `std::unreachable()` is `none`.
use uotan_riscv_emu_ng.Base.{
  ℕ, ◌+◌, ◌*◌, ◌^◌, ◌||◌, ◌==◌, Option, none, some, bit_or, if◌then◌else◌,
}
use uotan_riscv_emu_ng.Base.Word.{shl64}
use uotan_riscv_emu_ng.BitOps.{bits, sext}
use uotan_riscv_emu_ng.Decoder.Names.{
  DecodedInsn, Itype, type_i, type_u, type_s, type_j, type_b, type_cr, type_ci, type_css, type_ciw,
  type_cl, type_cs, type_ca, type_cb, type_cj, type_n,
}

-- `bits(i, hi, lo) << place` of an instruction word.
unfoldable pub part : ℕ → ℕ → ℕ → ℕ → ℕ
unfolding bits
part i hi lo place = bits 32 i hi lo * 2 ^ place

unfoldable pub imm_i : ℕ → ℕ
unfolding bits sext
imm_i i = sext (bits 32 i 31 20) 12

unfoldable pub imm_u : ℕ → ℕ
unfolding bits sext
imm_u i = shl64 (sext (bits 32 i 31 12) 20) 12

unfoldable pub imm_s : ℕ → ℕ
unfolding bits sext
imm_s i = bit_or (shl64 (sext (bits 32 i 31 25) 7) 5) (bits 32 i 11 7)

unfoldable pub imm_j : ℕ → ℕ
unfolding part sext
imm_j i =
    sext
      (bit_or (bit_or (bit_or (part i 31 31 20) (part i 19 12 12)) (part i 20 20 11))
        (part i 30 21 1))
      21

unfoldable pub imm_b : ℕ → ℕ
unfolding part sext
imm_b i =
    sext
      (bit_or (bit_or (bit_or (part i 31 31 12) (part i 7 7 11)) (part i 30 25 5)) (part i 11 8 1))
      13

-- The `switch`, with the old immediate for a type without one.
unfoldable pub imm_32 : Itype → ℕ → ℕ → ℕ
unfolding imm_i imm_u imm_s imm_j imm_b
imm_32 type_i i old = imm_i i
imm_32 type_u i old = imm_u i
imm_32 type_s i old = imm_s i
imm_32 type_j i old = imm_j i
imm_32 type_b i old = imm_b i
imm_32 _ i old = old

unfoldable pub decode_operand_32 : DecodedInsn → DecodedInsn
unfolding imm_32 bits
decode_operand_32 s = record s {
  rs1 = bits 32 s.insn 19 15;
  rs2 = bits 32 s.insn 24 20;
  rs3 = bits 32 s.insn 31 27;
  rd = bits 32 s.insn 11 7;
  imm = imm_32 s.type s.insn s.imm;
}

-- `REG_C`
abbrev reg_c : ℕ → ℕ
reg_c x = x + 8

-- Six bits, signed.
abbrev ci_signed : ℕ → ℕ
ci_signed i = sext (bit_or (part i 12 12 5) (bits 32 i 6 2)) 6

abbrev addi16sp_imm : ℕ → ℕ
addi16sp_imm i =
    sext
      (bit_or
        (bit_or (bit_or (bit_or (part i 12 12 9) (part i 4 3 7)) (part i 5 5 6)) (part i 2 2 5))
        (part i 6 6 4))
      10

unfoldable pub imm_ci : ℕ → ℕ → ℕ
unfolding part bits sext
imm_ci i rd =
    let funct3 = bits 32 i 15 13 in
    let opcode = bits 32 i 1 0 in
    if opcode == 1
    then (if funct3 == 0 || funct3 == 1 || funct3 == 2
        then ci_signed i
        else if funct3 == 3
        then (if rd == 2
            then addi16sp_imm i
            else if rd == 0
            then ci_signed i
            else sext (bit_or (part i 12 12 17) (part i 6 2 12)) 18)
        else ci_signed i)
    else if opcode == 2
    then (if funct3 == 0
        then bit_or (part i 12 12 5) (bits 32 i 6 2)
        else if funct3 == 2
        then bit_or (bit_or (part i 3 2 6) (part i 12 12 5)) (part i 6 4 2)
        else if funct3 == 3 || funct3 == 1
        then bit_or (bit_or (part i 4 2 6) (part i 12 12 5)) (part i 6 5 3)
        else ci_signed i)
    else ci_signed i

unfoldable pub imm_css : ℕ → ℕ → ℕ
unfolding part bits
imm_css i old =
    let funct3 = bits 32 i 15 13 in
    if funct3 == 6
    then bit_or (part i 8 7 6) (part i 12 9 2)
    else if funct3 == 7 || funct3 == 5
    then bit_or (part i 9 7 6) (part i 12 10 3)
    else old

unfoldable pub imm_ciw : ℕ → ℕ
unfolding part
imm_ciw i = bit_or (bit_or (bit_or (part i 10 7 6) (part i 12 11 4)) (part i 5 5 3)) (part i 6 6 2)

-- The offset of a word or a double word in CL and CS; `w` and `d`, `d'` are the values of funct3.
unfoldable pub imm_memory : ℕ → ℕ → ℕ → ℕ → Option ℕ
unfolding part bits
imm_memory w d d' i =
    let funct3 = bits 32 i 15 13 in
    if funct3 == w
    then some (bit_or (bit_or (part i 5 5 6) (part i 12 10 3)) (part i 6 6 2))
    else if funct3 == d || funct3 == d'
    then some (bit_or (part i 6 5 6) (part i 12 10 3))
    else none

unfoldable pub imm_cb : ℕ → ℕ
unfolding part bits sext
imm_cb i =
    if bits 32 i 15 13 == 4
    then (let raw = bit_or (part i 12 12 5) (bits 32 i 6 2) in
        if bits 32 i 11 10 == 2 then sext raw 6 else raw)
    else sext
        (bit_or
          (bit_or (bit_or (bit_or (part i 12 12 8) (part i 6 5 6)) (part i 2 2 5)) (part i 11 10 3))
          (part i 4 3 1))
        9

abbrev cj_high : ℕ → ℕ
cj_high i =
    bit_or (bit_or (bit_or (part i 12 12 11) (part i 11 11 4)) (part i 10 9 8)) (part i 8 8 10)

unfoldable pub imm_cj : ℕ → ℕ
unfolding part sext
imm_cj i =
    sext
      (bit_or (bit_or (bit_or (bit_or (cj_high i) (part i 7 7 6)) (part i 6 6 7)) (part i 5 3 1))
        (part i 2 2 5))
      12

abbrev pub with_imm : DecodedInsn → Option ℕ → Option DecodedInsn
with_imm s none = none
with_imm s (some imm) = some (record s { imm = imm })

unfoldable pub operand_16 : Itype → DecodedInsn → Option DecodedInsn
unfolding bits imm_ci imm_css imm_ciw imm_memory imm_cb imm_cj
operand_16 type_cr s =
    some
      (record s { rd = bits 32 s.insn 11 7; rs1 = bits 32 s.insn 11 7; rs2 = bits 32 s.insn 6 2 })
operand_16 type_ci s = some (record s {
  rd = bits 32 s.insn 11 7;
  rs1 = bits 32 s.insn 11 7;
  imm = imm_ci s.insn (bits 32 s.insn 11 7);
})
operand_16 type_css s =
    some (record s { rs1 = 2; rs2 = bits 32 s.insn 6 2; imm = imm_css s.insn s.imm })
operand_16 type_ciw s =
    some (record s { rd = reg_c (bits 32 s.insn 4 2); rs1 = 2; imm = imm_ciw s.insn })
operand_16 type_cl s =
    with_imm (record s { rd = reg_c (bits 32 s.insn 4 2); rs1 = reg_c (bits 32 s.insn 9 7) })
      (imm_memory 2 1 3 s.insn)
operand_16 type_cs s =
    with_imm (record s { rs1 = reg_c (bits 32 s.insn 9 7); rs2 = reg_c (bits 32 s.insn 4 2) })
      (imm_memory 6 5 7 s.insn)
operand_16 type_ca s = some (record s {
  rd = reg_c (bits 32 s.insn 9 7);
  rs1 = reg_c (bits 32 s.insn 9 7);
  rs2 = reg_c (bits 32 s.insn 4 2);
})
operand_16 type_cb s = some (record s {
  rd = reg_c (bits 32 s.insn 9 7);
  rs1 = reg_c (bits 32 s.insn 9 7);
  imm = imm_cb s.insn;
})
operand_16 type_cj s = some (record s { imm = imm_cj s.insn })
operand_16 type_n s = some s
operand_16 _ s = none

unfoldable pub decode_operand_16 : DecodedInsn → Option DecodedInsn
unfolding operand_16
decode_operand_16 s = operand_16 s.type s
