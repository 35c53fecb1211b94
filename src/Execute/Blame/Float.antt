-- ===== src/Execute/Blame/Float.antt =====
-- The pc of the traps that the floating-point instructions of src/core/execute.cpp throw.
use uotan_riscv_emu_ng.Base.{ℕ, refl, Bool, not, ltb}
use uotan_riscv_emu_ng.Core.Monad.{M, ◌>>=◌, ◌>>◌}
use uotan_riscv_emu_ng.Core.Blame.{Blames, after-IsAt, raise_if-Blames}
use uotan_riscv_emu_ng.Core.Memory.{Machine, Memory}
use uotan_riscv_emu_ng.Decoder.Names.{
  DecodedInsn, Rv64f, flw, fsw, fadd_s, fsub_s, fmul_s, fdiv_s, fsqrt_s, fsgnj_s, fsgnjn_s,
  fsgnjx_s, fmin_s, fmax_s, fclass_s, feq_s, flt_s, fle_s, fmadd_s, fmsub_s, fnmsub_s, fnmadd_s,
  fcvt_w_s, fcvt_wu_s, fcvt_l_s, fcvt_lu_s, fcvt_s_w, fcvt_s_wu, fcvt_s_l, fcvt_s_lu, fmv_x_w,
  fmv_w_x, Rv64d, fld, fsd, fadd_d, fsub_d, fmul_d, fdiv_d, fsqrt_d, fsgnj_d, fsgnjn_d, fsgnjx_d,
  fmin_d, fmax_d, fclass_d, feq_d, flt_d, fle_d, fmadd_d, fmsub_d, fnmsub_d, fnmadd_d, fcvt_w_d,
  fcvt_wu_d, fcvt_l_d, fcvt_lu_d, fcvt_d_w, fcvt_d_wu, fcvt_d_l, fcvt_d_lu, fcvt_s_d, fcvt_d_s,
  fmv_x_d, fmv_d_x,
}
use uotan_riscv_emu_ng.Execute.System.{illegal_insn}
use uotan_riscv_emu_ng.Execute.Float.{fp_enabled, fp_inst_prep, fp_setup_rm, rounding_mode}
use uotan_riscv_emu_ng.Execute.Float.Single.{exec_rv64f}
use uotan_riscv_emu_ng.Execute.Float.Double.{exec_rv64d}
use uotan_riscv_emu_ng.Float.{Softfloat}

module _ {W : Type 0} (mem : Memory W) (d : DecodedInsn) where
  pub fp_inst_prep-Blames : Blames d.pc (fp_inst_prep mem d)
  fp_inst_prep-Blames m = raise_if-Blames d.pc (not (fp_enabled m)) (illegal_insn d) refl m

  fp_setup_rm-Blames : Blames d.pc (fp_setup_rm mem d)
  fp_setup_rm-Blames m =
      after-IsAt d.pc _ _ _
        (raise_if-Blames d.pc (ltb 4 (rounding_mode mem d m)) (illegal_insn d) refl m) (λ u m'. tt)

  pub prepared :
      (c : M (Machine W) (Unit {0})) → Blames d.pc c → Blames d.pc (fp_inst_prep mem d >> c)
  prepared c p m = after-IsAt d.pc _ _ _ (fp_inst_prep-Blames m) (λ u. p)

  rounding :
      (f : ℕ → M (Machine W) (Unit {0}))
      → ((rm : ℕ) → Blames d.pc (f rm))
      → Blames d.pc (fp_inst_prep mem d >> (fp_setup_rm mem d >>= f))
  rounding f p m =
      after-IsAt d.pc _ _ _ (fp_inst_prep-Blames m)
        (λ u m'. after-IsAt d.pc _ _ _ (fp_setup_rm-Blames m') p)

-- A memory whose accesses trap at the pc that they are given, for the pc of the instruction.
module _ {W : Type 0} (mem : Memory W) (sf : Softfloat) (d : DecodedInsn)
    (reads : (size addr : ℕ) (amo : Bool) → Blames d.pc (mem.read_mem size d.pc addr amo))
    (writes : (size addr v : ℕ) → Blames d.pc (mem.write_mem size d.pc addr v)) where
  pub exec_rv64f-Blames : (i : Rv64f) → Blames d.pc (exec_rv64f mem sf d i)
  unfolding exec_rv64f
  exec_rv64f-Blames flw = prepared mem d _ (λ m. after-IsAt d.pc _ _ _ (reads _ _ _ m) (λ v m'. tt))
  exec_rv64f-Blames fsw = prepared mem d _ (λ m. writes _ _ _ m)
  exec_rv64f-Blames fadd_s = rounding mem d _ (λ rm m. tt)
  exec_rv64f-Blames fsub_s = rounding mem d _ (λ rm m. tt)
  exec_rv64f-Blames fmul_s = rounding mem d _ (λ rm m. tt)
  exec_rv64f-Blames fdiv_s = rounding mem d _ (λ rm m. tt)
  exec_rv64f-Blames fsqrt_s = rounding mem d _ (λ rm m. tt)
  exec_rv64f-Blames fsgnj_s = prepared mem d _ (λ m. tt)
  exec_rv64f-Blames fsgnjn_s = prepared mem d _ (λ m. tt)
  exec_rv64f-Blames fsgnjx_s = prepared mem d _ (λ m. tt)
  exec_rv64f-Blames fmin_s = prepared mem d _ (λ m. tt)
  exec_rv64f-Blames fmax_s = prepared mem d _ (λ m. tt)
  exec_rv64f-Blames fclass_s = prepared mem d _ (λ m. tt)
  exec_rv64f-Blames feq_s = prepared mem d _ (λ m. tt)
  exec_rv64f-Blames flt_s = prepared mem d _ (λ m. tt)
  exec_rv64f-Blames fle_s = prepared mem d _ (λ m. tt)
  exec_rv64f-Blames fmadd_s = rounding mem d _ (λ rm m. tt)
  exec_rv64f-Blames fmsub_s = rounding mem d _ (λ rm m. tt)
  exec_rv64f-Blames fnmsub_s = rounding mem d _ (λ rm m. tt)
  exec_rv64f-Blames fnmadd_s = rounding mem d _ (λ rm m. tt)
  exec_rv64f-Blames fcvt_w_s = rounding mem d _ (λ rm m. tt)
  exec_rv64f-Blames fcvt_wu_s = rounding mem d _ (λ rm m. tt)
  exec_rv64f-Blames fcvt_l_s = rounding mem d _ (λ rm m. tt)
  exec_rv64f-Blames fcvt_lu_s = rounding mem d _ (λ rm m. tt)
  exec_rv64f-Blames fcvt_s_w = rounding mem d _ (λ rm m. tt)
  exec_rv64f-Blames fcvt_s_wu = rounding mem d _ (λ rm m. tt)
  exec_rv64f-Blames fcvt_s_l = rounding mem d _ (λ rm m. tt)
  exec_rv64f-Blames fcvt_s_lu = rounding mem d _ (λ rm m. tt)
  exec_rv64f-Blames fmv_x_w = prepared mem d _ (λ m. tt)
  exec_rv64f-Blames fmv_w_x = prepared mem d _ (λ m. tt)

  pub exec_rv64d-Blames : (i : Rv64d) → Blames d.pc (exec_rv64d mem sf d i)
  unfolding exec_rv64d
  exec_rv64d-Blames fld = prepared mem d _ (λ m. after-IsAt d.pc _ _ _ (reads _ _ _ m) (λ v m'. tt))
  exec_rv64d-Blames fsd = prepared mem d _ (λ m. writes _ _ _ m)
  exec_rv64d-Blames fadd_d = rounding mem d _ (λ rm m. tt)
  exec_rv64d-Blames fsub_d = rounding mem d _ (λ rm m. tt)
  exec_rv64d-Blames fmul_d = rounding mem d _ (λ rm m. tt)
  exec_rv64d-Blames fdiv_d = rounding mem d _ (λ rm m. tt)
  exec_rv64d-Blames fsqrt_d = rounding mem d _ (λ rm m. tt)
  exec_rv64d-Blames fsgnj_d = prepared mem d _ (λ m. tt)
  exec_rv64d-Blames fsgnjn_d = prepared mem d _ (λ m. tt)
  exec_rv64d-Blames fsgnjx_d = prepared mem d _ (λ m. tt)
  exec_rv64d-Blames fmin_d = prepared mem d _ (λ m. tt)
  exec_rv64d-Blames fmax_d = prepared mem d _ (λ m. tt)
  exec_rv64d-Blames fclass_d = prepared mem d _ (λ m. tt)
  exec_rv64d-Blames feq_d = prepared mem d _ (λ m. tt)
  exec_rv64d-Blames flt_d = prepared mem d _ (λ m. tt)
  exec_rv64d-Blames fle_d = prepared mem d _ (λ m. tt)
  exec_rv64d-Blames fmadd_d = rounding mem d _ (λ rm m. tt)
  exec_rv64d-Blames fmsub_d = rounding mem d _ (λ rm m. tt)
  exec_rv64d-Blames fnmsub_d = rounding mem d _ (λ rm m. tt)
  exec_rv64d-Blames fnmadd_d = rounding mem d _ (λ rm m. tt)
  exec_rv64d-Blames fcvt_w_d = rounding mem d _ (λ rm m. tt)
  exec_rv64d-Blames fcvt_wu_d = rounding mem d _ (λ rm m. tt)
  exec_rv64d-Blames fcvt_l_d = rounding mem d _ (λ rm m. tt)
  exec_rv64d-Blames fcvt_lu_d = rounding mem d _ (λ rm m. tt)
  exec_rv64d-Blames fcvt_d_w = rounding mem d _ (λ rm m. tt)
  exec_rv64d-Blames fcvt_d_wu = rounding mem d _ (λ rm m. tt)
  exec_rv64d-Blames fcvt_d_l = rounding mem d _ (λ rm m. tt)
  exec_rv64d-Blames fcvt_d_lu = rounding mem d _ (λ rm m. tt)
  exec_rv64d-Blames fcvt_s_d = rounding mem d _ (λ rm m. tt)
  exec_rv64d-Blames fcvt_d_s = rounding mem d _ (λ rm m. tt)
  exec_rv64d-Blames fmv_x_d = prepared mem d _ (λ m. tt)
  exec_rv64d-Blames fmv_d_x = prepared mem d _ (λ m. tt)
