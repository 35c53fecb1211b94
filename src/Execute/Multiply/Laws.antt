-- ===== src/Execute/Multiply/Laws.antt =====
-- Division with remainder and the halves of a product: the M extension of src/core/execute.cpp.
use uotan_riscv_emu_ng.Base.{
  ℕ, zero, suc, ◌+◌, ◌-◌, ◌*◌, ◌/◌, ◌%◌, ◌^◌, ◌<◌, ◌≤◌, ◌≡◌, refl, ap, sym, ◌∙◌, ◌==◌, ◌&&◌, arith,
  leb, Bool, Bool-cases, if◌then◌else◌, ◌⊎◌, ◌≢◌, inl, inr, true, false,
}
use uotan_riscv_emu_ng.Base.Word.{add64, mul64, sdiv, srem, magnitude, negative, differ_sign}
use uotan_riscv_emu_ng.Decoder.Names.{mul, mulhu, div, divu, rem, remu}
use uotan_riscv_emu_ng.Execute.Multiply.{product_value}
use native.Mathlib.Nat.{div-add-mod', mod-lt}
use native.Mathlib.Nat.{add-mul, mul_comm, mul-le-mul, div-le_self}

product_lt : (a b : ℕ) → a < 2 ^ 64 → b < 2 ^ 64 → a * b < 2 ^ 128
product_lt a b h l = omega (
  arith,
  mul-le-mul {n₁ = a} {m₁ = b} {n₂ = 2 ^ 64 - 1} {m₂ = 2 ^ 64 - 1} (omega arith) (omega arith),
)

halves : (p : ℕ) → p < 2 ^ 128 → p % 2 ^ 128 / 2 ^ 64 * 2 ^ 64 + p % 2 ^ 64 ≡ p
halves p h = omega arith

-- For two words, MULHU and MUL give the halves of the product.
pub mulhu-mul :
    (a b : ℕ)
    → a < 2 ^ 64
    → b < 2 ^ 64
    → product_value mulhu a b * 2 ^ 64 + product_value mul a b ≡ a * b
unfolding product_value
mulhu-mul a b h l = halves (a * b) (product_lt a b h l)

-- `-x` of a word.
abbrev neg : ℕ → ℕ
neg x = (2 ^ 64 - x) % 2 ^ 64

neg-mul : (x y : ℕ) → x < 2 ^ 64 → neg x * y % 2 ^ 64 ≡ neg (x * y % 2 ^ 64)
neg-mul zero y h = omega arith
neg-mul (suc x) y h = omega (
  arith,
  ap (λ (t : ℕ). t * y % 2 ^ 64) {x = neg (suc x)} {y = 2 ^ 64 - suc x} (omega arith),
  whole,
)
  where
    whole : (2 ^ 64 - suc x) * y + suc x * y ≡ 2 ^ 64 * y
    whole =
        sym (add-mul (2 ^ 64 - suc x) (suc x) y) ∙ ap (λ (t : ℕ). t * y) {y = 2 ^ 64} (omega arith)

mul-neg : (x y : ℕ) → y < 2 ^ 64 → x * neg y % 2 ^ 64 ≡ neg (x * y % 2 ^ 64)
mul-neg x y h =
    ap (λ (t : ℕ). t % 2 ^ 64) (mul_comm x (neg y))
    ∙ neg-mul y x h
    ∙ ap (λ (t : ℕ). neg (t % 2 ^ 64)) (mul_comm y x)

-- DIVU and REMU divide any word by any number with remainder, also by 0.
pub divu-remu :
    (a b : ℕ) → a < 2 ^ 64 → add64 (mul64 (product_value divu a b) b) (product_value remu a b) ≡ a
unfolding product_value
divu-remu a zero h = omega arith
divu-remu a (suc b) h = ground (arith, div-add-mod' a (suc b))

-- The four signs of a division with remainder, by magnitudes.
module _ (m n : ℕ) (small : m ≤ 2 ^ 63) (positive : 0 < n) (word : n < 2 ^ 64) where
  whole_lem : m / n * n + m % n ≡ m
  whole_lem = div-add-mod' m n

  q_lt : m / n < 2 ^ 64
  q_lt = omega (arith, div-le_self m n)

  plus_minus : add64 (mul64 (neg (m / n)) (neg n)) (m % n) ≡ m
  plus_minus = omega (arith, whole_lem, neg-mul (m / n) (neg n) q_lt, mul-neg (m / n) n word)

  minus_plus : add64 (mul64 (neg (m / n)) n) (neg (m % n)) ≡ neg m
  minus_plus = omega (arith, whole_lem, neg-mul (m / n) n q_lt)

  minus_minus : add64 (mul64 (m / n) (neg n)) (neg (m % n)) ≡ neg m
  minus_minus = omega (arith, whole_lem, mul-neg (m / n) n word)

neg-neg : (x : ℕ) → 0 < x → x < 2 ^ 64 → neg (2 ^ 64 - x) ≡ x
neg-neg x h l = omega arith

sdiv-srem :
    (a b : ℕ) → a < 2 ^ 64 → b < 2 ^ 64 → 0 < b → add64 (mul64 (sdiv 64 a b) b) (srem 64 a b) ≡ a
sdiv-srem a b h l p = elim (Bool-cases (leb (2 ^ 63) a)) [
  | inl e ↦ elim (Bool-cases (leb (2 ^ 63) b)) [
    | inl f ↦
        rw (e, f)
          (rw (neg-neg b p l, neg-neg a (ground arith) h) at
            (minus_minus (2 ^ 64 - a) (2 ^ 64 - b) (ground arith) (ground arith) (ground arith)))
    | inr f ↦
        rw (e, f)
          (rw (neg-neg a (ground arith) h) at (minus_plus (2 ^ 64 - a) b (ground arith) p l))
  ]
  | inr e ↦ elim (Bool-cases (leb (2 ^ 63) b)) [
    | inl f ↦
        rw (e, f)
          (rw (neg-neg b p l) at
            (plus_minus a (2 ^ 64 - b) (ground arith) (ground arith) (ground arith)))
    | inr f ↦ rw (e, f) (ground (arith, div-add-mod' a b))
  ]
]

-- A magnitude `n` under the sign `s`, as a word: 2 ^ 63 has one pattern, whatever the sign.
module _ (s : Bool) (n : ℕ) (small : n ≤ 2 ^ 63) where
  abbrev signed : ℕ
  signed = if s then (2 ^ 64 - n) % 2 ^ 64 else n

  magnitude-signed : magnitude 64 signed ≡ n
  magnitude-signed = ground arith

  negative-signed : (signed ≡ 0) ⊎ ((magnitude 64 signed ≡ 2 ^ 63) ⊎ (negative 64 signed ≡ s))
  negative-signed = ground arith

magnitude_bounds : (x : ℕ) → x < 2 ^ 64 → magnitude 64 x ≤ 2 ^ 63
magnitude_bounds x h = ground arith

magnitude_positive : (x : ℕ) → 0 < x → x < 2 ^ 64 → 0 < magnitude 64 x
magnitude_positive x p h = ground arith

-- The quotient `q` and the remainder `r` of a signed division of `a` by `b`: by 0 all ones and the
-- dividend, by any other divisor the division of the magnitudes with its remainder, the remainder
-- under the sign of the dividend and the quotient under the product of the two signs, as far as the
-- quotient of a sign and a magnitude has a pattern of its own.
abbrev pub IsSignedDivision : ℕ → ℕ → ℕ → ℕ → Type 0
IsSignedDivision a b q r =
    ((b ≡ 0) × (q ≡ 2 ^ 64 - 1) × (r ≡ a))
    ⊎ ((b ≢ 0)
        × (magnitude 64 a ≡ magnitude 64 q * magnitude 64 b + magnitude 64 r)
        × (magnitude 64 r < magnitude 64 b)
        × ((r ≡ 0) ⊎ (negative 64 r ≡ negative 64 a))
        × ((q ≡ 0)
            ⊎ ((magnitude 64 q ≡ 2 ^ 63)
                ⊎ (negative 64 q ≡ differ_sign (negative 64 a) (negative 64 b)))))

module _ (a b : ℕ) (overflow : (a == 2 ^ 63 && b == 2 ^ 64 - 1) ≡ true) where
  overflow_dividend : a ≡ 2 ^ 63
  overflow_dividend = ground arith

  overflow_divisor : b ≡ 2 ^ 64 - 1
  overflow_divisor = ground arith

-- Where the quotient overflows, the wrapped quotient of the magnitudes is what DIV gives.
div-sdiv : (a b : ℕ) → 0 < b → product_value div a b ≡ sdiv 64 a b
unfolding product_value
div-sdiv a b p = elim (Bool-cases (a == 2 ^ 63 && b == 2 ^ 64 - 1)) [
  | inl e ↦ rw (overflow_dividend a b e, overflow_divisor a b e) refl
  | inr e ↦ rw (nonzero, e) refl
]
  where
    nonzero : b == 0 ≡ false
    nonzero = ground arith

rem-srem : (a b : ℕ) → 0 < b → product_value rem a b ≡ srem 64 a b
unfolding product_value
rem-srem a b p = elim (Bool-cases (a == 2 ^ 63 && b == 2 ^ 64 - 1)) [
  | inl e ↦ rw (overflow_dividend a b e, overflow_divisor a b e) refl
  | inr e ↦ rw (nonzero, e) refl
]
  where
    nonzero : b == 0 ≡ false
    nonzero = ground arith

module _ (a b : ℕ) (dividend : a < 2 ^ 64) (divisor : b < 2 ^ 64) (positive : 0 < b) where
  quotient_small : magnitude 64 a / magnitude 64 b ≤ 2 ^ 63
  quotient_small =
      omega (arith, magnitude_bounds a dividend, div-le_self (magnitude 64 a) (magnitude 64 b))

  remainder_lt : magnitude 64 a % magnitude 64 b < magnitude 64 b
  remainder_lt = mod-lt (magnitude 64 a) (magnitude_positive b positive divisor)

  remainder_small : magnitude 64 a % magnitude 64 b ≤ 2 ^ 63
  remainder_small = omega (arith, remainder_lt, magnitude_bounds b divisor)

  quotient_magnitude : magnitude 64 (sdiv 64 a b) ≡ magnitude 64 a / magnitude 64 b
  quotient_magnitude =
      magnitude-signed (differ_sign (negative 64 a) (negative 64 b)) _ quotient_small

  remainder_magnitude : magnitude 64 (srem 64 a b) ≡ magnitude 64 a % magnitude 64 b
  remainder_magnitude = magnitude-signed (negative 64 a) _ remainder_small

  remainder_sign : (srem 64 a b ≡ 0) ⊎ (negative 64 (srem 64 a b) ≡ negative 64 a)
  remainder_sign = elim (negative-signed (negative 64 a) _ remainder_small) [
    | inl e ↦ inl e
    | inr (inl e) ↦
        absurd (omega (arith, e, remainder_magnitude, remainder_lt, magnitude_bounds b divisor))
    | inr (inr e) ↦ inr e
  ]

  sdiv-IsSignedDivision : IsSignedDivision a b (sdiv 64 a b) (srem 64 a b)
  sdiv-IsSignedDivision = inr (
    (λ e. absurd (omega arith)),
    rw (quotient_magnitude, remainder_magnitude)
        (sym (div-add-mod' (magnitude 64 a) (magnitude 64 b))),
    rw remainder_magnitude remainder_lt,
    remainder_sign,
    negative-signed (differ_sign (negative 64 a) (negative 64 b)) _ quotient_small,
  )

-- DIV and REM divide any two words as signed numbers, rounding to 0, with what is prescribed for a
-- divisor 0 and for an overflow; and the quotient times the divisor plus the remainder is the
-- dividend in wrapped arithmetic.
pub div-rem :
    (a b : ℕ)
    → a < 2 ^ 64
    → b < 2 ^ 64
    → IsSignedDivision a b (product_value div a b) (product_value rem a b)
      × (add64 (mul64 (product_value div a b) b) (product_value rem a b) ≡ a)
unfolding product_value
div-rem a zero h l = (inl (refl, refl, refl), omega arith)
div-rem a (suc b) h l =
    rw (div-sdiv a (suc b) (omega arith), rem-srem a (suc b) (omega arith))
      (sdiv-IsSignedDivision a (suc b) h l (omega arith), sdiv-srem a (suc b) h l (omega arith))
