-- ===== src/Execute/Float/Single.antt =====
-- The instructions of the F extension, src/core/execute.cpp.
use uotan_riscv_emu_ng.Base.{◌%◌, ◌^◌, true, false, bit_and, bit_xor}
use uotan_riscv_emu_ng.BitOps.{sext}
use uotan_riscv_emu_ng.Core.Monad.{M, ◌>>◌}
use uotan_riscv_emu_ng.Core.Memory.{Machine, Memory}
use uotan_riscv_emu_ng.Decoder.Names.{
  DecodedInsn, Rv64f, flw, fsw, fadd_s, fsub_s, fmul_s, fdiv_s, fsqrt_s, fsgnj_s, fsgnjn_s,
  fsgnjx_s, fmin_s, fmax_s, fclass_s, feq_s, flt_s, fle_s, fmadd_s, fmsub_s, fnmsub_s, fnmadd_s,
  fcvt_w_s, fcvt_wu_s, fcvt_l_s, fcvt_lu_s, fcvt_s_w, fcvt_s_wu, fcvt_s_l, fcvt_s_lu, fmv_x_w,
  fmv_w_x,
}
use uotan_riscv_emu_ng.Execute.Integer.{r1, result}
use uotan_riscv_emu_ng.Float.{Softfloat, box_f32, sign_bit, complement, classify, is_nan}
use uotan_riscv_emu_ng.Execute.Float.{
  View, single_view, read_fpr, fp_inst_prep, rounded, converted, moved, fp_load, fp_store, f1, f2,
  binary, with_sign, compared, before, picked, fused,
}

module _ {W : Type 0} (mem : Memory W) (sf : Softfloat) (d : DecodedInsn) where
  abbrev view : View
  view = single_view sf

  unfoldable pub exec_rv64f : Rv64f → M (Machine W) (Unit {0})
  unfolding box_f32 classify is_nan
  exec_rv64f flw = fp_load mem d 4 view.box
  exec_rv64f fsw = fp_store mem d 4 (λ x. x % 2 ^ 32)
  exec_rv64f fadd_s = binary mem d view view.ops.f_add
  exec_rv64f fsub_s = binary mem d view view.ops.f_sub
  exec_rv64f fmul_s = binary mem d view view.ops.f_mul
  exec_rv64f fdiv_s = binary mem d view view.ops.f_div
  exec_rv64f fsqrt_s = rounded mem d view.box (λ rm m. view.ops.f_sqrt rm (f1 mem d view m))
  exec_rv64f fsgnj_s = with_sign mem d view (f2 mem d view)
  exec_rv64f fsgnjn_s = with_sign mem d view (λ m. complement view.format (f2 mem d view m))
  exec_rv64f fsgnjx_s =
      moved mem d (λ m.
        view.box (bit_xor (f1 mem d view m) (bit_and (f2 mem d view m) (sign_bit view.format))))
  exec_rv64f fmin_s = picked mem d view (before mem d view)
  exec_rv64f fmax_s = picked mem d view (λ a b. before mem d view b a)
  exec_rv64f fclass_s =
      fp_inst_prep mem d
      >> result mem d (λ m. sext (classify view.format view.ops (f1 mem d view m)) 32)
  exec_rv64f feq_s = compared mem d view view.ops.f_eq
  exec_rv64f flt_s = compared mem d view view.ops.f_lt
  exec_rv64f fle_s = compared mem d view view.ops.f_le
  exec_rv64f fmadd_s = fused mem d view false false
  exec_rv64f fmsub_s = fused mem d view false true
  exec_rv64f fnmsub_s = fused mem d view true false
  exec_rv64f fnmadd_s = fused mem d view true true
  exec_rv64f fcvt_w_s =
      converted mem d (λ x. sext x 32) (λ rm m. view.ops.to_i32 rm (f1 mem d view m))
  exec_rv64f fcvt_wu_s =
      converted mem d (λ x. sext x 32) (λ rm m. view.ops.to_ui32 rm (f1 mem d view m))
  exec_rv64f fcvt_l_s = converted mem d (λ x. x) (λ rm m. view.ops.to_i64 rm (f1 mem d view m))
  exec_rv64f fcvt_lu_s = converted mem d (λ x. x) (λ rm m. view.ops.to_ui64 rm (f1 mem d view m))
  exec_rv64f fcvt_s_w = rounded mem d view.box (λ rm m. view.ops.of_i32 rm (r1 mem d m % 2 ^ 32))
  exec_rv64f fcvt_s_wu = rounded mem d view.box (λ rm m. view.ops.of_ui32 rm (r1 mem d m % 2 ^ 32))
  exec_rv64f fcvt_s_l = rounded mem d view.box (λ rm m. view.ops.of_i64 rm (r1 mem d m))
  exec_rv64f fcvt_s_lu = rounded mem d view.box (λ rm m. view.ops.of_ui64 rm (r1 mem d m))
  exec_rv64f fmv_x_w = fp_inst_prep mem d >> result mem d (λ m. sext (read_fpr d.rs1 m % 2 ^ 32) 32)
  exec_rv64f fmv_w_x = moved mem d (λ m. box_f32 (r1 mem d m % 2 ^ 32))
