-- ===== src/Execute/Float/Double.antt =====
-- The instructions of the D extension, src/core/execute.cpp.
use uotan_riscv_emu_ng.Base.{◌%◌, ◌^◌, true, false, bit_and, bit_xor}
use uotan_riscv_emu_ng.BitOps.{sext}
use uotan_riscv_emu_ng.Core.Monad.{M, ◌>>◌}
use uotan_riscv_emu_ng.Core.Memory.{Machine, Memory}
use uotan_riscv_emu_ng.Decoder.Names.{
  DecodedInsn, Rv64d, fld, fsd, fadd_d, fsub_d, fmul_d, fdiv_d, fsqrt_d, fsgnj_d, fsgnjn_d,
  fsgnjx_d, fmin_d, fmax_d, fclass_d, feq_d, flt_d, fle_d, fmadd_d, fmsub_d, fnmsub_d, fnmadd_d,
  fcvt_w_d, fcvt_wu_d, fcvt_l_d, fcvt_lu_d, fcvt_d_w, fcvt_d_wu, fcvt_d_l, fcvt_d_lu, fcvt_s_d,
  fcvt_d_s, fmv_x_d, fmv_d_x,
}
use uotan_riscv_emu_ng.Execute.Integer.{r1, result}
use uotan_riscv_emu_ng.Float.{Softfloat, box_f32, sign_bit, complement, classify, is_nan}
use uotan_riscv_emu_ng.Execute.Float.{
  View, double_view, read_32, read_fpr, fp_inst_prep, rounded, converted, moved, fp_load, fp_store,
  f1, f2, binary, with_sign, compared, before, picked, fused,
}

module _ {W : Type 0} (mem : Memory W) (sf : Softfloat) (d : DecodedInsn) where
  abbrev view : View
  view = double_view sf

  unfoldable pub exec_rv64d : Rv64d → M (Machine W) (Unit {0})
  unfolding box_f32 classify is_nan
  exec_rv64d fld = fp_load mem d 8 view.box
  exec_rv64d fsd = fp_store mem d 8 (λ x. x)
  exec_rv64d fadd_d = binary mem d view view.ops.f_add
  exec_rv64d fsub_d = binary mem d view view.ops.f_sub
  exec_rv64d fmul_d = binary mem d view view.ops.f_mul
  exec_rv64d fdiv_d = binary mem d view view.ops.f_div
  exec_rv64d fsqrt_d = rounded mem d view.box (λ rm m. view.ops.f_sqrt rm (f1 mem d view m))
  exec_rv64d fsgnj_d = with_sign mem d view (f2 mem d view)
  exec_rv64d fsgnjn_d = with_sign mem d view (λ m. complement view.format (f2 mem d view m))
  exec_rv64d fsgnjx_d =
      moved mem d (λ m.
        view.box (bit_xor (f1 mem d view m) (bit_and (f2 mem d view m) (sign_bit view.format))))
  exec_rv64d fmin_d = picked mem d view (before mem d view)
  exec_rv64d fmax_d = picked mem d view (λ a b. before mem d view b a)
  exec_rv64d fclass_d =
      fp_inst_prep mem d >> result mem d (λ m. classify view.format view.ops (f1 mem d view m))
  exec_rv64d feq_d = compared mem d view view.ops.f_eq
  exec_rv64d flt_d = compared mem d view view.ops.f_lt
  exec_rv64d fle_d = compared mem d view view.ops.f_le
  exec_rv64d fmadd_d = fused mem d view false false
  exec_rv64d fmsub_d = fused mem d view false true
  exec_rv64d fnmsub_d = fused mem d view true false
  exec_rv64d fnmadd_d = fused mem d view true true
  exec_rv64d fcvt_w_d =
      converted mem d (λ x. sext x 32) (λ rm m. view.ops.to_i32 rm (f1 mem d view m))
  exec_rv64d fcvt_wu_d =
      converted mem d (λ x. sext x 32) (λ rm m. view.ops.to_ui32 rm (f1 mem d view m))
  exec_rv64d fcvt_l_d = converted mem d (λ x. x) (λ rm m. view.ops.to_i64 rm (f1 mem d view m))
  exec_rv64d fcvt_lu_d = converted mem d (λ x. x) (λ rm m. view.ops.to_ui64 rm (f1 mem d view m))
  exec_rv64d fcvt_d_w = rounded mem d view.box (λ rm m. view.ops.of_i32 rm (r1 mem d m % 2 ^ 32))
  exec_rv64d fcvt_d_wu = rounded mem d view.box (λ rm m. view.ops.of_ui32 rm (r1 mem d m % 2 ^ 32))
  exec_rv64d fcvt_d_l = rounded mem d view.box (λ rm m. view.ops.of_i64 rm (r1 mem d m))
  exec_rv64d fcvt_d_lu = rounded mem d view.box (λ rm m. view.ops.of_ui64 rm (r1 mem d m))
  exec_rv64d fcvt_s_d = rounded mem d box_f32 (λ rm m. sf.f64_to_f32 rm (read_fpr d.rs1 m))
  exec_rv64d fcvt_d_s =
      rounded mem d view.box (λ rm m. sf.f32_to_f64 rm (read_32 (read_fpr d.rs1 m)))
  exec_rv64d fmv_x_d = fp_inst_prep mem d >> result mem d (λ m. read_fpr d.rs1 m)
  exec_rv64d fmv_d_x = moved mem d (λ m. r1 mem d m)
