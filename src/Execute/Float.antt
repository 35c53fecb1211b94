-- ===== src/Execute/Float.antt =====
-- What the floating-point instructions of src/core/execute.cpp share: `fp_inst_prep`, `fp_setup_rm`,
-- `fp_set_dirty`, `fp_update_exception_flags`, `fp_inst_end`, and the registers `F`.
pub mod Single
pub mod Double
pub mod Disabled
use uotan_riscv_emu_ng.Base.{
  ℕ, ◌+◌, ◌-◌, ◌*◌, ◌/◌, ◌%◌, ◌^◌, Bool, true, false, not, ◌&&◌, ◌||◌, ◌==◌, ltb, truthy, of_bool,
  bit_and, bit_or, bit_xor, if◌then◌else◌, get_or, set,
}
use uotan_riscv_emu_ng.Base.Word.{add64}
use uotan_riscv_emu_ng.BitOps.{bits, sext}
use uotan_riscv_emu_ng.Core.Mstatus
use uotan_riscv_emu_ng.Core.Monad.{M, ◌>>=◌, ◌>>◌, pure, get, modify, raise_if}
use uotan_riscv_emu_ng.Core.State.{Hart, read_gpr, write_gpr}
use uotan_riscv_emu_ng.Core.Csr.{
  fflags, with_value, mstatus_read, mstatus_write, fflags_read, frm_read,
}
use uotan_riscv_emu_ng.Core.Memory.{Machine, Memory}
use uotan_riscv_emu_ng.Decoder.Names.{DecodedInsn}
use uotan_riscv_emu_ng.Execute.System.{illegal_insn}
use uotan_riscv_emu_ng.Execute.Integer.{set_rd, r1}
use uotan_riscv_emu_ng.Float.{
  Format, Operations, Softfloat, single, double, is_boxed_f32, unbox_f32, box_f32, f32_default_nan,
  sign_bit, is_negative, neg, complement, is_nan, classify,
}

-- A format with its operations, and how its values stand in an `FPR`: `read_32`, `write_32` or
-- `read_64`, `write_64`.
pub record View : Type 0 where
  pub format : Format
  pub ops : Operations
  pub unbox : ℕ → ℕ
  pub box : ℕ → ℕ

abbrev pub read_32 : ℕ → ℕ
read_32 x = if is_boxed_f32 x then unbox_f32 x else f32_default_nan

abbrev pub single_view : Softfloat → View
unfolding box_f32
single_view sf = record { format = single; ops = sf.f32; unbox = read_32; box = box_f32 }

abbrev pub double_view : Softfloat → View
double_view sf = record { format = double; ops = sf.f64; unbox = λ x. x; box = λ x. x }

module _ {W : Type 0} where
  abbrev pub fp_enabled : Machine W → Bool
  fp_enabled m = truthy (bit_and (mstatus_read m.hart.csrs) Mstatus.fs)

  abbrev pub set_dirty : Machine W → Machine W
  set_dirty m = record m {
    hart = record (m.hart) {
      csrs = mstatus_write (bit_or (mstatus_read m.hart.csrs) Mstatus.fs) m.hart.csrs;
    };
  }

  abbrev pub add_flags : ℕ → Machine W → Machine W
  add_flags flags m = record m {
    hart = record (m.hart) {
      csrs = with_value fflags (bit_or (fflags_read m.hart.csrs) flags) m.hart.csrs;
    };
  }

  -- `fp_update_exception_flags`, with `softfloat_exceptionFlags` as its argument.
  abbrev pub update_flags : ℕ → Machine W → Machine W
  update_flags flags m = if truthy flags then add_flags flags (set_dirty m) else m

  abbrev pub inst_end : ℕ → Machine W → Machine W
  inst_end flags m = update_flags flags (set_dirty m)

  abbrev pub read_fpr : ℕ → Machine W → ℕ
  read_fpr i m = get_or m.hart.fprs i 0

module _ {W : Type 0} (mem : Memory W) (d : DecodedInsn) where
  abbrev pub set_fd : ℕ → Machine W → Machine W
  set_fd v m = record m { hart = record (m.hart) { fprs = set m.hart.fprs d.rd v } }

  abbrev pub fp_inst_prep : M (Machine W) (Unit {0})
  fp_inst_prep m = raise_if (not (fp_enabled m)) (illegal_insn d) m

  -- The mode in the instruction, or that of FRM.
  abbrev pub rounding_mode : Machine W → ℕ
  rounding_mode m = let rm = bits 32 d.insn 14 12 in if rm == 7 then frm_read m.hart.csrs else rm

  -- `fp_setup_rm`, which returns the new `softfloat_roundingMode`.
  abbrev pub fp_setup_rm : M (Machine W) ℕ
  fp_setup_rm = do
    m ← get
    raise_if (ltb 4 (rounding_mode m)) (illegal_insn d)
    pure (rounding_mode m)

  -- An instruction that computes a value for `F[rd]`, with rounding.
  abbrev pub rounded : (ℕ → ℕ) → (ℕ → Machine W → ℕ × ℕ) → M (Machine W) (Unit {0})
  rounded box op = do
    fp_inst_prep
    rm ← fp_setup_rm
    modify (λ m. inst_end (op rm m).1 (set_fd (box (op rm m).0) m))

  -- One that computes a value for `R[rd]`, with rounding.
  abbrev pub converted : (ℕ → ℕ) → (ℕ → Machine W → ℕ × ℕ) → M (Machine W) (Unit {0})
  converted extend op = do
    fp_inst_prep
    rm ← fp_setup_rm
    modify (λ m. update_flags (op rm m).1 (set_rd mem d (extend (op rm m).0) m))

  -- One that moves bits to `F[rd]`.
  abbrev pub moved : (Machine W → ℕ) → M (Machine W) (Unit {0})
  moved f = fp_inst_prep >> modify (λ m. set_dirty (set_fd (f m) m))

  -- One that writes what it finds to `R[rd]`.
  abbrev pub found : (Machine W → ℕ × ℕ) → M (Machine W) (Unit {0})
  found f = fp_inst_prep >> modify (λ m. update_flags (f m).1 (set_rd mem d (f m).0 m))

  abbrev pub fp_address : Machine W → ℕ
  fp_address m = add64 (r1 mem d m) d.imm

  abbrev pub fp_load : ℕ → (ℕ → ℕ) → M (Machine W) (Unit {0})
  fp_load size box = do
    fp_inst_prep
    m ← get
    v ← mem.read_mem size d.pc (fp_address m) false
    modify (λ m'. set_dirty (set_fd (box v) m'))

  abbrev pub fp_store : ℕ → (ℕ → ℕ) → M (Machine W) (Unit {0})
  fp_store size shorten = do
    fp_inst_prep
    m ← get
    mem.write_mem size d.pc (fp_address m) (shorten (read_fpr d.rs2 m))

  -- The operations of one format.
  module _ (v : View) where
    abbrev pub f1 : Machine W → ℕ
    f1 m = v.unbox (read_fpr d.rs1 m)

    abbrev pub f2 : Machine W → ℕ
    f2 m = v.unbox (read_fpr d.rs2 m)

    abbrev pub f3 : Machine W → ℕ
    f3 m = v.unbox (read_fpr d.rs3 m)

    abbrev pub binary : (ℕ → ℕ → ℕ → ℕ × ℕ) → M (Machine W) (Unit {0})
    binary op = rounded v.box (λ rm m. op rm (f1 m) (f2 m))

    -- The sign of `s` on the magnitude of the first operand.
    abbrev pub with_sign : (Machine W → ℕ) → M (Machine W) (Unit {0})
    with_sign s = moved (λ m. v.box (
        bit_or (bit_and (f1 m) (complement v.format (sign_bit v.format)))
          (bit_and (s m) (sign_bit v.format))))

    abbrev pub compared : (ℕ → ℕ → Bool × ℕ) → M (Machine W) (Unit {0})
    compared op = found (λ m. let r = op (f1 m) (f2 m) in (of_bool (r.0), r.1))

    -- `a < b`, or equal and `a` negative: the test of FMIN on (f1, f2) and of FMAX on (f2, f1).
    abbrev pub before : ℕ → ℕ → Bool × ℕ
    before a b =
        let l = v.ops.f_lt_quiet a b in
        let e = v.ops.f_eq a b in
        if l.0 then (true, l.1) else ((e.0 && is_negative v.format a), bit_or (l.1) (e.1))

    abbrev pub chosen : Bool → ℕ → ℕ → ℕ
    chosen first a b =
        if is_nan v.format a && is_nan v.format b
        then v.format.default_nan
        else if first || is_nan v.format b
        then a
        else b

    -- NV is set at once for a signalling operand, the other flags at the end.
    abbrev pub picked : (ℕ → ℕ → Bool × ℕ) → M (Machine W) (Unit {0})
    picked test =
        fp_inst_prep
        >> modify (λ m.
          let m' =
            if v.ops.f_is_signaling (f1 m) || v.ops.f_is_signaling (f2 m)
            then add_flags 16 m
            else m in
          let r = test (f1 m) (f2 m) in
          inst_end (r.1) (set_fd (v.box (chosen (r.0) (f1 m) (f2 m))) m'))

    -- FMADD and its variants, by the signs of the product and of the third operand.
    abbrev pub fused : Bool → Bool → M (Machine W) (Unit {0})
    fused minus_product minus_third = rounded v.box (λ rm m.
        v.ops.f_mul_add rm (if minus_product then neg v.format (f1 m) else f1 m) (f2 m)
          (if minus_third then neg v.format (f3 m) else f3 m))
