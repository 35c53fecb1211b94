-- ===== src/Base/Digits.antt =====
-- Binary digits in the form `x / 2 ^ k % 2`, which computes at numerals and which the arithmetic
-- tactics read: the bit operations on one digit, and the tests and masks of C code.
use uotan_riscv_emu_ng.Base.Tests.{ltb, ◌==◌, of_bool, truthy, if◌then◌else◌}
use uotan_riscv_emu_ng.Base.Bits
use uotan_riscv_emu_ng.Base.Word.{not64}
use Prim.Native.Nat.{ℕ, ◌+◌, ◌-◌, ◌*◌, ◌/◌, ◌%◌, ◌^◌, ◌≤◌, ◌<◌, min, max, bit_and, bit_or, bit_xor}
use mathlib.Core.Path.{◌≡◌, ap, ◌∙◌}
use native.Mathlib.Omega.{arith}
use native.Mathlib.Nat.{one-le-pow, pow-le-pow_right, div-mul-le_self}

abbrev pub digit : ℕ → ℕ → ℕ
digit x k = x / 2 ^ k % 2

pub digit-and : (k a b : ℕ) → digit (bit_and a b) k ≡ min (digit a k) (digit b k)
digit-and k a b = omega (
  arith,
  Bits.bit_at-div-mod (bit_and a b) k,
  Bits.bit_at-div-mod a k,
  Bits.bit_at-div-mod b k,
  Bits.bit_at-bit_and a b k,
)

pub digit-or : (k a b : ℕ) → digit (bit_or a b) k ≡ max (digit a k) (digit b k)
digit-or k a b = omega (
  arith,
  Bits.bit_at-div-mod (bit_or a b) k,
  Bits.bit_at-div-mod a k,
  Bits.bit_at-div-mod b k,
  Bits.bit_at-bit_or a b k,
)

pub digit-xor : (k a b : ℕ) → digit (bit_xor a b) k ≡ (digit a k + digit b k) % 2
digit-xor k a b = omega (
  arith,
  Bits.bit_at-div-mod (bit_xor a b) k,
  Bits.bit_at-div-mod a k,
  Bits.bit_at-div-mod b k,
  Bits.bit_at-bit_xor a b k,
)

pub digit-not : (k a : ℕ) → k < 64 → a < 2 ^ 64 → digit (not64 a) k ≡ 1 - digit a k
digit-not k a h l =
    omega
      (arith, Bits.bit_at-div-mod (not64 a) k, Bits.bit_at-div-mod a k, Bits.bit_at-not 64 a k l h)

-- `if (v & (1 << k))`
pub truthy-digit : (k v : ℕ) → truthy (bit_and v (2 ^ k)) ≡ truthy (digit v k)
truthy-digit k v =
    ground
      (arith, Bits.bit_and_pow k v, Bits.bit_at-div-mod v k, Bits.bit_at-le v k, one-le-pow k 2)

-- Two numbers with the same digits below `w`, and no others, are equal.
pub digits_ext :
    (w a b : ℕ) → a < 2 ^ w → b < 2 ^ w → ((k : ℕ) → k < w → digit a k ≡ digit b k) → a ≡ b
digits_ext w a b p q h = Bits.bit_at_ext a b λ k. ground (
  arith,
  h k,
  Bits.bit_at-div-mod a k,
  Bits.bit_at-div-mod b k,
  Bits.bit_at-ge w a k p,
  Bits.bit_at-ge w b k q,
)

pub digit-mask : (n k : ℕ) → digit (2 ^ n - 1) k ≡ of_bool (ltb k n)
digit-mask n k = omega (arith, Bits.bit_at-div-mod (2 ^ n - 1) k, Bits.bit_at-mask n k)

pub digit-pow : (n k : ℕ) → digit (2 ^ n) k ≡ of_bool (k == n)
digit-pow n k = ground (
  arith,
  Bits.bit_at-div-mod (2 ^ n) k,
  Bits.bit_at-mul n k 1,
  ap (λ (t : ℕ). Bits.bit_at t k) (one_mul (2 ^ n)),
  one-bit_at (k - n),
)
  where
    one_mul : (a : ℕ) → 1 * a ≡ a
    one_mul a = omega arith

    one-bit_at : (j : ℕ) → Bits.bit_at 1 j ≡ of_bool (j == 0)
    one-bit_at j = ground (arith, Bits.bit_at-ge 1 1 j, Bits.bit_at-div-mod 1 j)

-- `v &= ~mask`
pub digit-clear :
    (k v mask : ℕ)
    → k < 64
    → mask < 2 ^ 64
    → digit (bit_and v (not64 mask)) k ≡ min (digit v k) (1 - digit mask k)
digit-clear k v mask h l = omega (arith, digit-and k v (not64 mask), digit-not k mask h l)

pub digit-mul : (n k a : ℕ) → digit (a * 2 ^ n) k ≡ (if ltb k n then 0 else digit a (k - n))
digit-mul n k a =
    ground (
      arith,
      Bits.bit_at-div-mod (a * 2 ^ n) k,
      Bits.bit_at-mul n k a,
      Bits.bit_at-div-mod a (k - n),
    )

pub digit-ge : (n a k : ℕ) → a < 2 ^ n → n ≤ k → digit a k ≡ 0
digit-ge n a k h l = omega (arith, Bits.bit_at-div-mod a k, Bits.bit_at-ge n a k h l)

-- `v |= bit` and `v &= ~bit`
pub digit-set : (n k v : ℕ) → digit (bit_or v (2 ^ n)) k ≡ (if k == n then 1 else digit v k)
digit-set n k v = ground (arith, digit-or k v (2 ^ n), digit-pow n k)

pub digit-reset :
    (n k v : ℕ)
    → k < 64
    → n < 64
    → digit (bit_and v (not64 (2 ^ n))) k ≡ (if k == n then 0 else digit v k)
digit-reset n k v h l = ground (arith, digit-clear k v (2 ^ n) h (pow_lt n l), digit-pow n k)
  where
    pow_lt : (m : ℕ) → m < 64 → 2 ^ m < 2 ^ 64
    pow_lt m q =
        omega (arith, pow-le-pow_right {n = 2} (omega arith) {i = m} {j = 63} (omega arith))

pub digit-div : (n k a : ℕ) → digit (a / 2 ^ n) k ≡ digit a (n + k)
digit-div n k a =
    omega (
      arith,
      Bits.bit_at-div-mod (a / 2 ^ n) k,
      Bits.bit_at-div n k a,
      Bits.bit_at-div-mod a (n + k),
    )

-- `v & ~(2^n - 1)` rounds down to a multiple of `2^n`.
pub clear_low : (n v : ℕ) → n < 64 → v < 2 ^ 64 → bit_and v (not64 (2 ^ n - 1)) ≡ v / 2 ^ n * 2 ^ n
clear_low n v h l =
    digits_ext 64 _ _ (Bits.bit_and-lt 64 v (not64 (2 ^ n - 1)) (omega arith))
      (omega (arith, div-mul-le_self v (2 ^ n)))
      λ k g. ground (
        arith,
        digit-clear k v (2 ^ n - 1) g mask_lt,
        digit-mask n k,
        digit-mul n k (v / 2 ^ n),
        shifted k,
      )
  where
    mask_lt : 2 ^ n - 1 < 2 ^ 64
    mask_lt = omega (arith, pow-le-pow_right {n = 2} (omega arith) {i = n} {j = 63} (omega arith))

    shifted : (k : ℕ) → n ≤ k → digit (v / 2 ^ n) (k - n) ≡ digit v k
    shifted k le = digit-div n (k - n) v ∙ ap (λ (t : ℕ). digit v t) {y = k} (omega arith)

pub digit-mod : (n k a : ℕ) → digit (a % 2 ^ n) k ≡ (if ltb k n then digit a k else 0)
digit-mod n k a =
    ground
      (arith, Bits.bit_at-div-mod (a % 2 ^ n) k, Bits.bit_at-mod n a k, Bits.bit_at-div-mod a k)
