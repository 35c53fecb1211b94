-- ===== src/BitOps/Fields.antt =====
-- What the helpers of include/common/bit.hpp compute, digit by digit and as arithmetic.
use uotan_riscv_emu_ng.Base.{ℕ, zero, suc, ◌+◌, ◌-◌, ◌*◌, ◌/◌, ◌%◌, ◌^◌, ◌≤◌, ◌<◌}
use uotan_riscv_emu_ng.Base.{bit_and, ◌≡◌, sym, ◌∙◌, ap, arith}
use native.Mathlib.Nat.{
  mod-lt, one-le-pow, pow-suc, zero-add, mul-div_cancel, div-eq_of_lt-le, mul-add-mod_self_right,
  mod-eq_of_lt, add-mul-div_right, mul-sub, div-eq_of_lt, mul-le-mul_left,
}
use uotan_riscv_emu_ng.Base.{
  Bool, of_bool, false, Bool-cases, inl, inr, ltb, leb, ◌&&◌, if◌then◌else◌,
}
use uotan_riscv_emu_ng.Base.Bits
use uotan_riscv_emu_ng.Base.Digits.{digit, digit-mod, digit-div, digit-mask, digit-ge}
use uotan_riscv_emu_ng.Base.{min}
use uotan_riscv_emu_ng.Base.Bits.{bit_at}
use uotan_riscv_emu_ng.BitOps.{bitmask, bits, sext, deposit}

bitmask_lem : (w n : ℕ) → n ≤ w → bitmask w n ≡ 2 ^ n - 1
unfolding bitmask
bitmask_lem w n h = elim (Bool-cases (leb w n)) [
  | inl full ↦ let e : w ≡ n = ground arith in rw e (ground arith)
  | inr part ↦ ground arith
]

-- `bits` takes the digits from `lo` to `hi` as a number.
pub bits-eq-mod :
    (w x hi lo : ℕ) → lo ≤ hi → hi < w → bits w x hi lo ≡ x / 2 ^ lo % 2 ^ (hi + 1 - lo)
unfolding bits
bits-eq-mod w x hi lo h k =
    ap (bit_and (x / 2 ^ lo)) (bitmask_lem w (hi + 1 - lo) (omega arith))
    ∙ Bits.bit_and_mask (hi + 1 - lo) (x / 2 ^ lo)

-- The mask of `deposit` and its shifted field, digit by digit.
module _ (w start length fieldval k : ℕ) (fits : start + length ≤ w) where
  abbrev inside : Bool
  inside = leb start k && ltb k (start + length)

  abbrev low : ℕ
  low = bitmask w length

  abbrev mask : ℕ
  mask = low * 2 ^ start % 2 ^ w

  abbrev field : ℕ
  field = bit_and (fieldval % 2 ^ w) low * 2 ^ start % 2 ^ w

  low-bit_at : (j : ℕ) → bit_at low j ≡ of_bool (ltb j length)
  low-bit_at j =
      ap (λ (t : ℕ). bit_at t j) (bitmask_lem w length (omega arith)) ∙ Bits.bit_at-mask length j

  mask-bit_at : bit_at mask k ≡ of_bool inside
  mask-bit_at = ground (
    arith,
    Bits.bit_at-mod w (low * 2 ^ start) k,
    Bits.bit_at-mul start k low,
    low-bit_at (k - start),
  )

  field-bit_at : bit_at field k ≡ (if inside then bit_at fieldval (k - start) else 0)
  field-bit_at = ground (
    arith,
    Bits.bit_at-mod w (bit_and (fieldval % 2 ^ w) low * 2 ^ start) k,
    Bits.bit_at-mul start k (bit_and (fieldval % 2 ^ w) low),
    Bits.bit_at-bit_and (fieldval % 2 ^ w) low (k - start),
    Bits.bit_at-mod w fieldval (k - start),
    low-bit_at (k - start),
    Bits.bit_at-le fieldval (k - start),
  )

  -- If the field fits in the width and the value does too, digit `k` of a deposit is that of the
  -- field inside it, and that of the old value outside.
  pub deposit-bit_at :
      (value : ℕ)
      → value < 2 ^ w
      → bit_at (deposit w value start length fieldval) k
        ≡ (if inside then bit_at fieldval (k - start) else bit_at value k)
  unfolding deposit
  deposit-bit_at value h = ground (
    arith,
    Bits.bit_at-bit_or (bit_and value (2 ^ w - 1 - mask)) (bit_and field mask) k,
    Bits.bit_at-bit_and value (2 ^ w - 1 - mask) k,
    Bits.bit_at-bit_and field mask k,
    Bits.bit_at-not w mask k (mod-lt (low * 2 ^ start) (one-le-pow w 2 (omega arith))),
    mask-bit_at,
    field-bit_at,
    Bits.bit_at-ge w value k h,
    Bits.bit_at-le value k,
    Bits.bit_at-le fieldval (k - start),
  )

pow_add : (a b : ℕ) → 2 ^ (a + b) ≡ 2 ^ a * 2 ^ b
pow_add zero b = rw (zero-add) (omega arith)
pow_add (suc a) b =
    ap (λ (t : ℕ). 2 ^ t) {y = suc (a + b)} (omega arith)
    ∙ omega (
      arith,
      pow-suc 2 (a + b),
      pow_add a b,
      pow-suc 2 a,
      ap (λ (t : ℕ). t * 2 ^ b) (pow-suc 2 a),
    )

-- One copy of the sign digit for each place that the two shifts vacate.
module _ (p half s x : ℕ) (even : p ≡ 2 * half) (whole : p * s ≡ 2 ^ 64) (pos : 0 < s)
    (fits : x < p) where
  scaled : (y z : ℕ) → y ≤ z → y * s ≤ z * s
  scaled y z h = grind arith

  halves_scaled : half * s ≡ 2 ^ 63
  halves_scaled = omega (arith, ap (λ (t : ℕ). t * s) even)

  no_wrap : x * s % 2 ^ 64 ≡ x * s
  no_wrap = omega (arith, scaled (x + 1) p (omega arith))

  complement : (2 ^ 64 - 1 - x * s) / s ≡ p - 1 - x
  complement = div-eq_of_lt-le s (omega (arith, split)) (omega (arith, split))
    where
      split : p * s ≡ (x + 1 + (p - 1 - x)) * s
      split = ap (λ (t : ℕ). t * s) (omega arith)

  double_shift :
      (if ltb (x * s % 2 ^ 64) (2 ^ 63)
        then x * s % 2 ^ 64 / s
        else 2 ^ 64 - 1 - (2 ^ 64 - 1 - x * s % 2 ^ 64) / s)
      ≡ (if ltb x half then x else x + (2 ^ 64 - p))
  double_shift = rw no_wrap (
      ground (
        arith,
        complement,
        mul-div_cancel x pos,
        halves_scaled,
        scaled (x + 1) half,
        scaled half x,
        p_le,
      ))
    where
      p_le : p ≤ 2 ^ 64
      p_le = omega (arith, mul-le-mul_left p pos)

-- For a length of 1 to 63 digits and a value that has that many, `sext` adds the digits above it if
-- its digit `len - 1` is set.
pub sext-eq :
    (x len : ℕ)
    → 0 < len
    → len < 64
    → x < 2 ^ len
    → sext x len ≡ (if ltb x (2 ^ (len - 1)) then x else x + (2 ^ 64 - 2 ^ len))
unfolding sext
sext-eq x len h k hx = ground (
  arith,
  double_shift (2 ^ len) (2 ^ (len - 1)) (2 ^ (64 - len)) x even whole
      (one-le-pow (64 - len) 2 (omega arith)) hx,
)
  where
    even : 2 ^ len ≡ 2 * 2 ^ (len - 1)
    even =
        ap (λ (t : ℕ). 2 ^ t) {y = suc (len - 1)} (omega arith) ∙ omega (arith, pow-suc 2 (len - 1))

    whole : 2 ^ len * 2 ^ (64 - len) ≡ 2 ^ 64
    whole = sym (pow_add len (64 - len)) ∙ ap (λ (t : ℕ). 2 ^ t) {y = 64} (omega arith)

-- Digits below `n` and above.
digit-append :
    (n x y k : ℕ)
    → x < 2 ^ n
    → digit (x + y * 2 ^ n) k ≡ (if ltb k n then digit x k else digit y (k - n))
digit-append n x y k h = elim (Bool-cases (ltb k n)) [
  | inl l ↦ rw l (ground (arith, digit-mod n k (x + y * 2 ^ n), ap (λ (t : ℕ). digit t k) low_part))
  | inr g ↦ rw g (
      ap (λ (t : ℕ). digit (x + y * 2 ^ n) t) {y = n + (k - n)} (ground arith)
      ∙ sym (digit-div n (k - n) (x + y * 2 ^ n))
      ∙ ap (λ (t : ℕ). digit t (k - n)) high_part)
]
  where
    low_part : (x + y * 2 ^ n) % 2 ^ n ≡ x
    low_part =
        ap (λ (t : ℕ). t % 2 ^ n) {y = y * 2 ^ n + x} (omega arith)
        ∙ mul-add-mod_self_right y (2 ^ n) x
        ∙ mod-eq_of_lt h

    high_part : (x + y * 2 ^ n) / 2 ^ n ≡ y
    high_part = omega (arith, add-mul-div_right x y (one-le-pow n 2 (omega arith)), div-eq_of_lt h)

-- `sext` repeats the digit below `n`.
pub sext-digit :
    (n x k : ℕ) → 0 < n → n < 64 → x < 2 ^ n → k < 64 → digit (sext x n) k ≡ digit x (min k (n - 1))
sext-digit n x k p q h l = elim (Bool-cases (ltb x (2 ^ (n - 1)))) [
  | inl small ↦
      ground (arith, sext-eq x n p q h, small, digit-ge (n - 1) x k, digit-ge (n - 1) x (n - 1))
  | inr large ↦
      ap (λ (t : ℕ). digit t k) (extended large)
      ∙ ground (
        arith,
        digit-append n x (2 ^ (64 - n) - 1) k h,
        digit-mask (64 - n) (k - n),
        top_digit large,
      )
]
  where
    double : 2 ^ n ≡ 2 * 2 ^ (n - 1)
    double =
        ap (λ (t : ℕ). 2 ^ t) {y = suc (n - 1)} (omega arith) ∙ omega (arith, pow-suc 2 (n - 1))

    top_digit : ltb x (2 ^ (n - 1)) ≡ false → digit x (n - 1) ≡ 1
    top_digit g = omega (arith, top)
      where
        top : x / 2 ^ (n - 1) ≡ 1
        top = div-eq_of_lt-le (2 ^ (n - 1)) (ground arith) (omega (arith, double))

    whole : (2 ^ (64 - n) - 1) * 2 ^ n ≡ 2 ^ 64 - 2 ^ n
    whole = omega (
      arith,
      mul-sub (2 ^ n) (2 ^ (64 - n)) 1,
      pow_add n (64 - n),
      ap (λ (t : ℕ). 2 ^ t) {x = n + (64 - n)} {y = 64} (omega arith),
    )

    extended : ltb x (2 ^ (n - 1)) ≡ false → sext x n ≡ x + (2 ^ (64 - n) - 1) * 2 ^ n
    extended g = sext-eq x n p q h ∙ ground (arith, whole, g)
