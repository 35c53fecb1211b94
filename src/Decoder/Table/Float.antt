-- ===== src/Decoder/Table/Float.antt =====
-- The patterns of the F and D instructions, src/core/decoder.cpp.
use uotan_riscv_emu_ng.Base.{List, [], ◌∷◌}
use uotan_riscv_emu_ng.Decoder.Pattern.{Entry, instpat}
use uotan_riscv_emu_ng.Decoder.Names.{
  rv64f, flw, fsw, fadd_s, fsub_s, fmul_s, fdiv_s, fsqrt_s, fsgnj_s, fsgnjn_s, fsgnjx_s, fmin_s,
  fmax_s, fcvt_w_s, fcvt_wu_s, fcvt_l_s, fcvt_lu_s, fcvt_s_w, fcvt_s_wu, fcvt_s_l, fcvt_s_lu,
  fmv_x_w, fmv_w_x, fclass_s, feq_s, flt_s, fle_s, fmadd_s, fmsub_s, fnmsub_s, fnmadd_s, rv64d, fld,
  fsd, fadd_d, fsub_d, fmul_d, fdiv_d, fsqrt_d, fsgnj_d, fsgnjn_d, fsgnjx_d, fmin_d, fmax_d,
  fcvt_w_d, fcvt_wu_d, fcvt_l_d, fcvt_lu_d, fcvt_d_w, fcvt_d_wu, fcvt_d_l, fcvt_d_lu, fcvt_s_d,
  fcvt_d_s, fmv_x_d, fmv_d_x, fclass_d, feq_d, flt_d, fle_d, fmadd_d, fmsub_d, fnmsub_d, fnmadd_d,
  type_i, type_r, type_r4, type_s,
}

unfoldable pub float_patterns : List Entry
float_patterns =
    instpat "??????? ????? ????? 010 ????? 00001 11" (rv64f flw) type_i
    ∷ instpat "??????? ????? ????? 010 ????? 01001 11" (rv64f fsw) type_s
    ∷ instpat "0000000 ????? ????? ??? ????? 10100 11" (rv64f fadd_s) type_r
    ∷ instpat "0000100 ????? ????? ??? ????? 10100 11" (rv64f fsub_s) type_r
    ∷ instpat "0001000 ????? ????? ??? ????? 10100 11" (rv64f fmul_s) type_r
    ∷ instpat "0001100 ????? ????? ??? ????? 10100 11" (rv64f fdiv_s) type_r
    ∷ instpat "0101100 00000 ????? ??? ????? 10100 11" (rv64f fsqrt_s) type_r
    ∷ instpat "0010000 ????? ????? 000 ????? 10100 11" (rv64f fsgnj_s) type_r
    ∷ instpat "0010000 ????? ????? 001 ????? 10100 11" (rv64f fsgnjn_s) type_r
    ∷ instpat "0010000 ????? ????? 010 ????? 10100 11" (rv64f fsgnjx_s) type_r
    ∷ instpat "0010100 ????? ????? 000 ????? 10100 11" (rv64f fmin_s) type_r
    ∷ instpat "0010100 ????? ????? 001 ????? 10100 11" (rv64f fmax_s) type_r
    ∷ instpat "1100000 00000 ????? ??? ????? 10100 11" (rv64f fcvt_w_s) type_r
    ∷ instpat "1100000 00001 ????? ??? ????? 10100 11" (rv64f fcvt_wu_s) type_r
    ∷ instpat "1100000 00010 ????? ??? ????? 10100 11" (rv64f fcvt_l_s) type_r
    ∷ instpat "1100000 00011 ????? ??? ????? 10100 11" (rv64f fcvt_lu_s) type_r
    ∷ instpat "1101000 00000 ????? ??? ????? 10100 11" (rv64f fcvt_s_w) type_r
    ∷ instpat "1101000 00001 ????? ??? ????? 10100 11" (rv64f fcvt_s_wu) type_r
    ∷ instpat "1101000 00010 ????? ??? ????? 10100 11" (rv64f fcvt_s_l) type_r
    ∷ instpat "1101000 00011 ????? ??? ????? 10100 11" (rv64f fcvt_s_lu) type_r
    ∷ instpat "1110000 00000 ????? 000 ????? 10100 11" (rv64f fmv_x_w) type_r
    ∷ instpat "1111000 00000 ????? 000 ????? 10100 11" (rv64f fmv_w_x) type_r
    ∷ instpat "1110000 00000 ????? 001 ????? 10100 11" (rv64f fclass_s) type_r
    ∷ instpat "1010000 ????? ????? 010 ????? 10100 11" (rv64f feq_s) type_r
    ∷ instpat "1010000 ????? ????? 001 ????? 10100 11" (rv64f flt_s) type_r
    ∷ instpat "1010000 ????? ????? 000 ????? 10100 11" (rv64f fle_s) type_r
    ∷ instpat "?????00 ????? ????? ??? ????? 10000 11" (rv64f fmadd_s) type_r4
    ∷ instpat "?????00 ????? ????? ??? ????? 10001 11" (rv64f fmsub_s) type_r4
    ∷ instpat "?????00 ????? ????? ??? ????? 10010 11" (rv64f fnmsub_s) type_r4
    ∷ instpat "?????00 ????? ????? ??? ????? 10011 11" (rv64f fnmadd_s) type_r4
    ∷ instpat "??????? ????? ????? 011 ????? 00001 11" (rv64d fld) type_i
    ∷ instpat "??????? ????? ????? 011 ????? 01001 11" (rv64d fsd) type_s
    ∷ instpat "0000001 ????? ????? ??? ????? 10100 11" (rv64d fadd_d) type_r
    ∷ instpat "0000101 ????? ????? ??? ????? 10100 11" (rv64d fsub_d) type_r
    ∷ instpat "0001001 ????? ????? ??? ????? 10100 11" (rv64d fmul_d) type_r
    ∷ instpat "0001101 ????? ????? ??? ????? 10100 11" (rv64d fdiv_d) type_r
    ∷ instpat "0101101 00000 ????? ??? ????? 10100 11" (rv64d fsqrt_d) type_r
    ∷ instpat "0010001 ????? ????? 000 ????? 10100 11" (rv64d fsgnj_d) type_r
    ∷ instpat "0010001 ????? ????? 001 ????? 10100 11" (rv64d fsgnjn_d) type_r
    ∷ instpat "0010001 ????? ????? 010 ????? 10100 11" (rv64d fsgnjx_d) type_r
    ∷ instpat "0010101 ????? ????? 000 ????? 10100 11" (rv64d fmin_d) type_r
    ∷ instpat "0010101 ????? ????? 001 ????? 10100 11" (rv64d fmax_d) type_r
    ∷ instpat "1100001 00000 ????? ??? ????? 10100 11" (rv64d fcvt_w_d) type_r
    ∷ instpat "1100001 00001 ????? ??? ????? 10100 11" (rv64d fcvt_wu_d) type_r
    ∷ instpat "1100001 00010 ????? ??? ????? 10100 11" (rv64d fcvt_l_d) type_r
    ∷ instpat "1100001 00011 ????? ??? ????? 10100 11" (rv64d fcvt_lu_d) type_r
    ∷ instpat "1101001 00000 ????? ??? ????? 10100 11" (rv64d fcvt_d_w) type_r
    ∷ instpat "1101001 00001 ????? ??? ????? 10100 11" (rv64d fcvt_d_wu) type_r
    ∷ instpat "1101001 00010 ????? ??? ????? 10100 11" (rv64d fcvt_d_l) type_r
    ∷ instpat "1101001 00011 ????? ??? ????? 10100 11" (rv64d fcvt_d_lu) type_r
    ∷ instpat "0100000 00001 ????? ??? ????? 10100 11" (rv64d fcvt_s_d) type_r
    ∷ instpat "0100001 00000 ????? ??? ????? 10100 11" (rv64d fcvt_d_s) type_r
    ∷ instpat "1110001 00000 ????? 000 ????? 10100 11" (rv64d fmv_x_d) type_r
    ∷ instpat "1111001 00000 ????? 000 ????? 10100 11" (rv64d fmv_d_x) type_r
    ∷ instpat "1110001 00000 ????? 001 ????? 10100 11" (rv64d fclass_d) type_r
    ∷ instpat "1010001 ????? ????? 010 ????? 10100 11" (rv64d feq_d) type_r
    ∷ instpat "1010001 ????? ????? 001 ????? 10100 11" (rv64d flt_d) type_r
    ∷ instpat "1010001 ????? ????? 000 ????? 10100 11" (rv64d fle_d) type_r
    ∷ instpat "?????01 ????? ????? ??? ????? 10000 11" (rv64d fmadd_d) type_r4
    ∷ instpat "?????01 ????? ????? ??? ????? 10001 11" (rv64d fmsub_d) type_r4
    ∷ instpat "?????01 ????? ????? ??? ????? 10010 11" (rv64d fnmsub_d) type_r4
    ∷ instpat "?????01 ????? ????? ??? ????? 10011 11" (rv64d fnmadd_d) type_r4
    ∷ []
