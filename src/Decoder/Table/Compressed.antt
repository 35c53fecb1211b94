-- ===== src/Decoder/Table/Compressed.antt =====
-- The patterns of the compressed instructions, src/core/decoder.cpp.
use uotan_riscv_emu_ng.Base.{List, [], ◌∷◌}
use uotan_riscv_emu_ng.Decoder.Pattern.{Entry, instpat}
use uotan_riscv_emu_ng.Decoder.Names.{
  rv64c, c_nop, c_addi, c_addiw, c_li, c_addi16sp, c_lui, c_srli, c_srai, c_andi, c_sub, c_xor,
  c_or, c_and, c_subw, c_addw, c_j, c_beqz, c_bnez, c_inv, c_addi4spn, c_fld, c_lw, c_ld, c_fsd,
  c_sw, c_sd, c_slli, c_fldsp, c_lwsp, c_ldsp, c_jr, c_mv, c_ebreak, c_jalr, c_add, c_fsdsp, c_swsp,
  c_sdsp, type_ca, type_cb, type_ci, type_ciw, type_cj, type_cl, type_cr, type_cs, type_css, type_n,
}

unfoldable pub compressed_patterns : List Entry
compressed_patterns =
    instpat "000 ?00000????? 01" (rv64c c_nop) type_ci
    ∷ instpat "000 ??????????? 01" (rv64c c_addi) type_ci
    ∷ instpat "001 ??????????? 01" (rv64c c_addiw) type_ci
    ∷ instpat "010 ??????????? 01" (rv64c c_li) type_ci
    ∷ instpat "011 ?00010????? 01" (rv64c c_addi16sp) type_ci
    ∷ instpat "011 ??????????? 01" (rv64c c_lui) type_ci
    ∷ instpat "100 ?00???????? 01" (rv64c c_srli) type_cb
    ∷ instpat "100 ?01???????? 01" (rv64c c_srai) type_cb
    ∷ instpat "100 ?10???????? 01" (rv64c c_andi) type_cb
    ∷ instpat "100 011???00??? 01" (rv64c c_sub) type_ca
    ∷ instpat "100 011???01??? 01" (rv64c c_xor) type_ca
    ∷ instpat "100 011???10??? 01" (rv64c c_or) type_ca
    ∷ instpat "100 011???11??? 01" (rv64c c_and) type_ca
    ∷ instpat "100 111???00??? 01" (rv64c c_subw) type_ca
    ∷ instpat "100 111???01??? 01" (rv64c c_addw) type_ca
    ∷ instpat "101 ??????????? 01" (rv64c c_j) type_cj
    ∷ instpat "110 ??????????? 01" (rv64c c_beqz) type_cb
    ∷ instpat "111 ??????????? 01" (rv64c c_bnez) type_cb
    ∷ instpat "000 00000000000 00" c_inv type_n
    ∷ instpat "000 ??????????? 00" (rv64c c_addi4spn) type_ciw
    ∷ instpat "001 ??????????? 00" (rv64c c_fld) type_cl
    ∷ instpat "010 ??????????? 00" (rv64c c_lw) type_cl
    ∷ instpat "011 ??????????? 00" (rv64c c_ld) type_cl
    ∷ instpat "101 ??????????? 00" (rv64c c_fsd) type_cs
    ∷ instpat "110 ??????????? 00" (rv64c c_sw) type_cs
    ∷ instpat "111 ??????????? 00" (rv64c c_sd) type_cs
    ∷ instpat "000 ??????????? 10" (rv64c c_slli) type_ci
    ∷ instpat "001 ??????????? 10" (rv64c c_fldsp) type_ci
    ∷ instpat "010 ??????????? 10" (rv64c c_lwsp) type_ci
    ∷ instpat "011 ??????????? 10" (rv64c c_ldsp) type_ci
    ∷ instpat "100 0?????00000 10" (rv64c c_jr) type_cr
    ∷ instpat "100 0?????????? 10" (rv64c c_mv) type_cr
    ∷ instpat "100 10000000000 10" (rv64c c_ebreak) type_cr
    ∷ instpat "100 1?????00000 10" (rv64c c_jalr) type_cr
    ∷ instpat "100 1?????????? 10" (rv64c c_add) type_cr
    ∷ instpat "101 ??????????? 10" (rv64c c_fsdsp) type_css
    ∷ instpat "110 ??????????? 10" (rv64c c_swsp) type_css
    ∷ instpat "111 ??????????? 10" (rv64c c_sdsp) type_css
    ∷ []
