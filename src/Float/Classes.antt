-- ===== src/Float/Classes.antt =====
-- The classes of src/common/float.cpp.
use uotan_riscv_emu_ng.Base.{
  ℕ, ◌+◌, ◌-◌, ◌*◌, ◌^◌, ◌<◌, ◌≡◌, refl, Bool, true, false, not, ◌&&◌, ◌==◌, of_bool, arith,
}
use uotan_riscv_emu_ng.Float.{Format, Operations, classify}

one_class :
    (sign inf_or_nan subnormal frac_zero snan : Bool)
    → (inf_or_nan && subnormal) ≡ false
    → (k : ℕ) × (k < 10)
      × (of_bool (sign && inf_or_nan && frac_zero) * 2 ^ 0
            + of_bool (sign && not inf_or_nan && not subnormal) * 2 ^ 1
            + of_bool (sign && subnormal && not frac_zero) * 2 ^ 2
            + of_bool (sign && subnormal && frac_zero) * 2 ^ 3
            + of_bool (not sign && inf_or_nan && frac_zero) * 2 ^ 7
            + of_bool (not sign && not inf_or_nan && not subnormal) * 2 ^ 6
            + of_bool (not sign && subnormal && not frac_zero) * 2 ^ 5
            + of_bool (not sign && subnormal && frac_zero) * 2 ^ 4
            + of_bool ((inf_or_nan && not frac_zero) && snan) * 2 ^ 8
            + of_bool ((inf_or_nan && not frac_zero) && not snan) * 2 ^ 9
          ≡ 2 ^ k)
one_class true true true f s h = cc
one_class false true true f s h = cc
one_class true true false true s h = (0, omega arith, refl)
one_class false true false true s h = (7, omega arith, refl)
one_class true true false false true h = (8, omega arith, refl)
one_class true true false false false h = (9, omega arith, refl)
one_class false true false false true h = (8, omega arith, refl)
one_class false true false false false h = (9, omega arith, refl)
one_class true false false f s h = (1, omega arith, refl)
one_class false false false f s h = (6, omega arith, refl)
one_class true false true false s h = (2, omega arith, refl)
one_class true false true true s h = (3, omega arith, refl)
one_class false false true false s h = (5, omega arith, refl)
one_class false false true true s h = (4, omega arith, refl)

-- If a NaN is told by its exponent and its fraction, FCLASS sets exactly one of its ten bits.
pub classify-one :
    (f : Format) (ops : Operations) (x : ℕ)
    → 0 < 2 ^ f.exp_bits - 1
    → ops.is_nan_ui x ≡ (ops.exp_ui x == 2 ^ f.exp_bits - 1 && not (ops.frac_ui x == 0))
    → (k : ℕ) × (k < 10) × (classify f ops x ≡ 2 ^ k)
unfolding classify
classify-one f ops x wide nan = rw nan (
    one_class (ops.sign_ui x) (ops.exp_ui x == 2 ^ f.exp_bits - 1) (ops.exp_ui x == 0)
      (ops.frac_ui x == 0) (ops.is_sig_nan_ui x) (ground arith))
