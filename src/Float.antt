-- ===== src/Float.antt =====
-- Floating-point values as bit patterns: include/common/float.hpp and src/common/float.cpp, and what
-- the instructions call of the Berkeley SoftFloat library, which is a parameter.
pub mod Classes
use uotan_riscv_emu_ng.Base.{
  ℕ, ◌+◌, ◌-◌, ◌*◌, ◌/◌, ◌%◌, ◌^◌, Bool, true, false, not, ◌&&◌, ◌==◌, truthy, of_bool, bit_and,
  bit_or, bit_xor, if◌then◌else◌,
}

abbrev pub f32_default_nan : ℕ
f32_default_nan = 0x7FC00000

abbrev pub f64_default_nan : ℕ
f64_default_nan = 0x7FF8000000000000

-- A format: its width, the widths of its exponent and fraction, and its default NaN.
pub record Format : Type 0 where
  pub width : ℕ
  pub exp_bits : ℕ
  pub frac_bits : ℕ
  pub default_nan : ℕ

abbrev pub single : Format
single = record { width = 32; exp_bits = 8; frac_bits = 23; default_nan = f32_default_nan }

abbrev pub double : Format
double = record { width = 64; exp_bits = 11; frac_bits = 52; default_nan = f64_default_nan }

-- `is_boxed_f32`, `unbox_f32` and `box_f32`
abbrev pub is_boxed_f32 : ℕ → Bool
is_boxed_f32 x = x / 2 ^ 32 == 0xFFFFFFFF

abbrev pub unbox_f32 : ℕ → ℕ
unbox_f32 x = x % 2 ^ 32

unfoldable pub box_f32 : ℕ → ℕ
box_f32 x = bit_or x 0xFFFFFFFF00000000

module _ (f : Format) where
  -- `F32_SIGN` and `F64_SIGN`
  abbrev pub sign_bit : ℕ
  sign_bit = 2 ^ (f.width - 1)

  abbrev pub is_negative : ℕ → Bool
  is_negative x = truthy (bit_and x sign_bit)

  abbrev pub neg : ℕ → ℕ
  neg x = bit_xor x sign_bit

  -- `~x`
  abbrev pub complement : ℕ → ℕ
  complement x = 2 ^ f.width - 1 - x

  abbrev pub exp_mask : ℕ
  exp_mask = (2 ^ f.exp_bits - 1) * 2 ^ f.frac_bits

  abbrev pub frac_mask : ℕ
  frac_mask = 2 ^ f.frac_bits - 1

  unfoldable pub is_nan : ℕ → Bool
  is_nan x = bit_and (complement x) exp_mask == 0 && truthy (bit_and x frac_mask)

-- What the instructions of one format call. The first argument of an operation that rounds is
-- `softfloat_roundingMode`; beside its value an operation gives the flags that it raises.
pub record Operations : Type 0 where
  pub f_add : ℕ → ℕ → ℕ → ℕ × ℕ
  pub f_sub : ℕ → ℕ → ℕ → ℕ × ℕ
  pub f_mul : ℕ → ℕ → ℕ → ℕ × ℕ
  pub f_div : ℕ → ℕ → ℕ → ℕ × ℕ
  pub f_sqrt : ℕ → ℕ → ℕ × ℕ
  pub f_mul_add : ℕ → ℕ → ℕ → ℕ → ℕ × ℕ
  pub to_i32 : ℕ → ℕ → ℕ × ℕ
  pub to_ui32 : ℕ → ℕ → ℕ × ℕ
  pub to_i64 : ℕ → ℕ → ℕ × ℕ
  pub to_ui64 : ℕ → ℕ → ℕ × ℕ
  pub of_i32 : ℕ → ℕ → ℕ × ℕ
  pub of_ui32 : ℕ → ℕ → ℕ × ℕ
  pub of_i64 : ℕ → ℕ → ℕ × ℕ
  pub of_ui64 : ℕ → ℕ → ℕ × ℕ
  pub f_eq : ℕ → ℕ → Bool × ℕ
  pub f_lt : ℕ → ℕ → Bool × ℕ
  pub f_le : ℕ → ℕ → Bool × ℕ
  pub f_lt_quiet : ℕ → ℕ → Bool × ℕ
  pub f_is_signaling : ℕ → Bool
  pub exp_ui : ℕ → ℕ
  pub frac_ui : ℕ → ℕ
  pub sign_ui : ℕ → Bool
  pub is_nan_ui : ℕ → Bool
  pub is_sig_nan_ui : ℕ → Bool

pub record Softfloat : Type 0 where
  pub f32 : Operations
  pub f64 : Operations
  pub f64_to_f32 : ℕ → ℕ → ℕ × ℕ
  pub f32_to_f64 : ℕ → ℕ → ℕ × ℕ

abbrev at_place : Bool → ℕ → ℕ
at_place b n = of_bool b * 2 ^ n

-- `f32_classify` and `f64_classify`. The bits are distinct, so that their `|` is a sum.
unfoldable pub classify : Format → Operations → ℕ → ℕ
classify f ops x =
    let inf_or_nan = ops.exp_ui x == 2 ^ f.exp_bits - 1 in
    let subnormal_or_zero = ops.exp_ui x == 0 in
    let sign = ops.sign_ui x in
    let frac_zero = ops.frac_ui x == 0 in
    let is_nan' = ops.is_nan_ui x in
    let is_snan = ops.is_sig_nan_ui x in
    at_place (sign && inf_or_nan && frac_zero) 0
    + at_place (sign && not inf_or_nan && not subnormal_or_zero) 1
    + at_place (sign && subnormal_or_zero && not frac_zero) 2
    + at_place (sign && subnormal_or_zero && frac_zero) 3
    + at_place (not sign && inf_or_nan && frac_zero) 7
    + at_place (not sign && not inf_or_nan && not subnormal_or_zero) 6
    + at_place (not sign && subnormal_or_zero && not frac_zero) 5
    + at_place (not sign && subnormal_or_zero && frac_zero) 4
    + at_place (is_nan' && is_snan) 8
    + at_place (is_nan' && not is_snan) 9
