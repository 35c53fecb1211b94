-- ===== src/Base/Bits.antt =====
-- The binary digits of a number, and the bit operations digit by digit.
use Prim.Native.Nat.{ℕ, zero, suc, ◌+◌, ◌-◌, ◌*◌, ◌/◌, ◌%◌, ◌^◌, ◌≤◌, ◌<◌, min, max}
use Prim.Native.Nat.{bit_and, bit_or, bit_xor, digits, bitwise, differ}
use Prim.Native.Nat.{bit_and-bitwise, bit_or-bitwise, bit_xor-bitwise}
use mathlib.Core.Path.{◌≡◌, refl, sym, ap, ◌∙◌}
use native.Mathlib.Nat.{
  pow-suc, one-le-pow, zero-add, div-div-eq-div-mul, mul-add-mod_self_right, mod-eq_of_lt, mod-lt,
  div-add-mod',
}
use native.Mathlib.Omega.{arith}
use uotan_riscv_emu_ng.Base.Tests.{ltb, of_bool, if◌then◌else◌}

-- Digit `k`, 0 or 1.
pub bit_at : ℕ → ℕ → ℕ
bit_at x zero = x % 2
bit_at x (suc k) = bit_at (x / 2) k

pub bit_at-le : (x k : ℕ) → bit_at x k ≤ 1
unfolding bit_at
bit_at-le x zero = omega arith
bit_at-le x (suc k) = bit_at-le (x / 2) k

pub zero-bit_at : (k : ℕ) → bit_at 0 k ≡ 0
unfolding bit_at
zero-bit_at zero = refl
zero-bit_at (suc k) = zero-bit_at k

-- The recursion behind a bit operation needs no more fuel than its first argument.
module _ (on_zero : ℕ → ℕ) (op : ℕ → ℕ → ℕ) where
  enough_digits : (i j x y : ℕ) → x ≤ i → x ≤ j → digits on_zero op i x y ≡ digits on_zero op j x y
  enough_digits zero zero x y h g = refl
  enough_digits zero (suc j) zero y h g = refl
  enough_digits (suc i) zero zero y h g = refl
  enough_digits zero (suc j) (suc x) y h g = absurd (omega arith)
  enough_digits (suc i) zero (suc x) y h g = absurd (omega arith)
  enough_digits (suc i) (suc j) zero y h g = refl
  enough_digits (suc i) (suc j) (suc x) y h g =
      ap (λ (t : ℕ). t * 2 + op (suc x % 2) (y % 2))
        (enough_digits i j (suc x / 2) (y / 2) (omega arith) (omega arith))

  lowest_digit :
      (x y : ℕ)
      → bitwise on_zero op (suc x) y
        ≡ 2 * bitwise on_zero op (suc x / 2) (y / 2) + op (suc x % 2) (y % 2)
  lowest_digit x y =
      omega (arith, enough_digits x (suc x / 2) (suc x / 2) (y / 2) (omega arith) (omega arith))

bit_and_halves : (x y : ℕ) → bit_and x y ≡ 2 * bit_and (x / 2) (y / 2) + min (x % 2) (y % 2)
bit_and_halves zero y = simp bit_and-bitwise (omega arith)
bit_and_halves (suc x) y = simp bit_and-bitwise (lowest_digit (λ _. 0) min x y)

bit_or_halves : (x y : ℕ) → bit_or x y ≡ 2 * bit_or (x / 2) (y / 2) + max (x % 2) (y % 2)
bit_or_halves zero y = simp bit_or-bitwise (omega arith)
bit_or_halves (suc x) y = simp bit_or-bitwise (lowest_digit (λ t. t) max x y)

pub bit_at-bit_and : (a b k : ℕ) → bit_at (bit_and a b) k ≡ min (bit_at a k) (bit_at b k)
unfolding bit_at
bit_at-bit_and a b zero = omega (arith, bit_and_halves a b)
bit_at-bit_and a b (suc k) =
    ap (λ (t : ℕ). bit_at t k) (omega (arith, bit_and_halves a b))
    ∙ bit_at-bit_and (a / 2) (b / 2) k

pub bit_at-bit_or : (a b k : ℕ) → bit_at (bit_or a b) k ≡ max (bit_at a k) (bit_at b k)
unfolding bit_at
bit_at-bit_or a b zero = omega (arith, bit_or_halves a b)
bit_at-bit_or a b (suc k) =
    ap (λ (t : ℕ). bit_at t k) (omega (arith, bit_or_halves a b)) ∙ bit_at-bit_or (a / 2) (b / 2) k

differ_digits : (x y : ℕ) → x < 2 → y < 2 → differ x y ≡ (x + y) % 2
differ_digits zero zero p q = refl
differ_digits zero (suc zero) p q = refl
differ_digits (suc zero) zero p q = refl
differ_digits (suc zero) (suc zero) p q = refl
differ_digits zero (suc (suc y)) p q = absurd (omega arith)
differ_digits (suc zero) (suc (suc y)) p q = absurd (omega arith)
differ_digits (suc (suc x)) y p q = absurd (omega arith)

bit_xor_halves : (a b : ℕ) → bit_xor a b ≡ 2 * bit_xor (a / 2) (b / 2) + (a % 2 + b % 2) % 2
bit_xor_halves zero b = simp bit_xor-bitwise (omega arith)
bit_xor_halves (suc a) b =
    omega (arith, bit_xor_sum a b, differ_digits (suc a % 2) (b % 2) (omega arith) (omega arith))
  where
    bit_xor_sum :
        (m n : ℕ) → bit_xor (suc m) n ≡ 2 * bit_xor (suc m / 2) (n / 2) + differ (suc m % 2) (n % 2)
    bit_xor_sum m n = simp bit_xor-bitwise (lowest_digit (λ y. y) differ m n)

pub bit_at-bit_xor : (a b k : ℕ) → bit_at (bit_xor a b) k ≡ (bit_at a k + bit_at b k) % 2
unfolding bit_at
bit_at-bit_xor a b zero = omega (arith, bit_xor_halves a b)
bit_at-bit_xor a b (suc k) =
    ap (λ (t : ℕ). bit_at t k) (omega (arith, bit_xor_halves a b))
    ∙ bit_at-bit_xor (a / 2) (b / 2) k

-- Two numbers with the same digits are equal.
bit_at_ext_fuel : (n a b : ℕ) → a ≤ n → b ≤ n → ((k : ℕ) → bit_at a k ≡ bit_at b k) → a ≡ b
unfolding bit_at
bit_at_ext_fuel zero a b p q h = omega arith
bit_at_ext_fuel (suc n) a b p q h =
    omega
      (arith, h 0, bit_at_ext_fuel n (a / 2) (b / 2) (omega arith) (omega arith) (λ k. h (suc k)))

pub bit_at_ext : (a b : ℕ) → ((k : ℕ) → bit_at a k ≡ bit_at b k) → a ≡ b
bit_at_ext a b h = bit_at_ext_fuel (max a b) a b (omega arith) (omega arith) h

bit_and_zero : (a : ℕ) → bit_and a 0 ≡ 0
bit_and_zero a = bit_at_ext _ 0 (λ k. omega (arith, bit_at-bit_and a 0 k, zero-bit_at k))

double_scaled : (n c : ℕ) → 2 * (c * 2 ^ n) ≡ c * 2 ^ suc n
double_scaled n c = omega (arith, ap (λ (u : ℕ). c * u) (pow-suc 2 n))

pub bit_and-lt : (w a b : ℕ) → b < 2 ^ w → bit_and a b < 2 ^ w
bit_and-lt zero a b h = let e : b ≡ 0 = omega arith in rw (e, bit_and_zero) (omega arith)
bit_and-lt (suc w) a b h = omega (
  arith,
  bit_and_halves a b,
  pow-suc 2 w,
  bit_and-lt w (a / 2) (b / 2) (omega (arith, pow-suc 2 w)),
)

pub bit_or-lt : (w a b : ℕ) → a < 2 ^ w → b < 2 ^ w → bit_or a b < 2 ^ w
bit_or-lt zero a b h k =
    let e : a ≡ 0 = omega arith in let e' : b ≡ 0 = omega arith in rw (e, e') (omega arith)
bit_or-lt (suc w) a b h k = omega (
  arith,
  bit_or_halves a b,
  pow-suc 2 w,
  bit_or-lt w (a / 2) (b / 2) (omega (arith, pow-suc 2 w)) (omega (arith, pow-suc 2 w)),
)

-- A mask with the single digit `k`.
pub bit_and_pow : (k a : ℕ) → bit_and a (2 ^ k) ≡ bit_at a k * 2 ^ k
unfolding bit_at
bit_and_pow zero a = omega (arith, bit_and_halves a 1, bit_and_zero (a / 2))
bit_and_pow (suc k) a = omega (
  arith,
  bit_and_halves a (2 ^ suc k),
  pow-suc 2 k,
  double_scaled k (bit_at (a / 2) k),
  bit_and_pow k (a / 2),
  ap (λ (t : ℕ). bit_and (a / 2) t) (half_pow k),
)
  where
    half_pow : (j : ℕ) → 2 ^ suc j / 2 ≡ 2 ^ j
    half_pow j = omega (arith, pow-suc 2 j)

mod_halves : (k a : ℕ) → a % 2 ^ suc k ≡ a / 2 % 2 ^ k * 2 + a % 2
mod_halves k a =
    ap (λ (t : ℕ). t % 2 ^ suc k) split
    ∙ mul-add-mod_self_right (a / 2 / 2 ^ k) (2 ^ suc k) _
    ∙ mod-eq_of_lt (omega (arith, pow-suc 2 k, small))
  where
    small : a / 2 % 2 ^ k < 2 ^ k
    small = mod-lt (a / 2) (one-le-pow k 2 (omega arith))

    split : a ≡ a / 2 / 2 ^ k * 2 ^ suc k + (a / 2 % 2 ^ k * 2 + a % 2)
    split = omega (arith, div-add-mod' (a / 2) (2 ^ k), double_scaled k (a / 2 / 2 ^ k))

-- A mask of the `k` lowest digits.
pub bit_and_mask : (k a : ℕ) → bit_and a (2 ^ k - 1) ≡ a % 2 ^ k
bit_and_mask zero a = omega (arith, bit_and_zero a)
bit_and_mask (suc k) a = omega (
  arith,
  bit_and_halves a (2 ^ suc k - 1),
  ap (λ (t : ℕ). bit_and (a / 2) t) (half_mask k),
  pow-suc 2 k,
  one-le-pow k 2,
  bit_and_mask k (a / 2),
  mod_halves k a,
)
  where
    half_mask : (j : ℕ) → (2 ^ suc j - 1) / 2 ≡ 2 ^ j - 1
    half_mask j = omega (arith, pow-suc 2 j, one-le-pow j 2)

mul_one : (a : ℕ) → a * 1 ≡ a
mul_one a = omega arith

mod_one : (a : ℕ) → a % 1 ≡ 0
mod_one a = omega arith

halves : (k a : ℕ) → a / 2 ^ suc k ≡ a / 2 / 2 ^ k
halves k a =
    ap (λ (t : ℕ). a / t) (omega (arith, pow-suc 2 k)) ∙ sym (div-div-eq-div-mul a 2 (2 ^ k))

div_one : (a : ℕ) → a / 1 ≡ a
div_one a = omega arith

add_shift : (k j : ℕ) → suc (k + j) ≡ suc k + j
add_shift k j = omega arith

-- Shifts move digits.
pub bit_at-div : (k j a : ℕ) → bit_at (a / 2 ^ k) j ≡ bit_at a (k + j)
bit_at-div zero j a = rw (div_one, zero-add)
bit_at-div (suc k) j a =
    ap (λ (t : ℕ). bit_at t j) (halves k a)
    ∙ bit_at-div k j (a / 2)
    ∙ unfold bit_at in ap (bit_at a) (add_shift k j)

pub bit_at-mul : (k j a : ℕ) → bit_at (a * 2 ^ k) j ≡ (if ltb j k then 0 else bit_at a (j - k))
unfolding bit_at
bit_at-mul zero j a = ground (arith, ap (λ (t : ℕ). bit_at t j) (mul_one a))
bit_at-mul (suc k) zero a = ground (arith, double_scaled k a)
bit_at-mul (suc k) (suc j) a =
    ap (λ (t : ℕ). bit_at t j) (omega (arith, double_scaled k a)) ∙ bit_at-mul k j a ∙ ground arith

pub bit_at-mod : (n a k : ℕ) → bit_at (a % 2 ^ n) k ≡ (if ltb k n then bit_at a k else 0)
unfolding bit_at
bit_at-mod zero a k = ground (arith, ap (λ (t : ℕ). bit_at t k) (mod_one a), zero-bit_at k)
bit_at-mod (suc n) a zero = ground (arith, mod_halves n a)
bit_at-mod (suc n) a (suc k) =
    ap (λ (t : ℕ). bit_at t k) (omega (arith, mod_halves n a))
    ∙ bit_at-mod n (a / 2) k
    ∙ ground arith

-- The complement within `n` digits.
pub bit_at-not : (n a k : ℕ) → a < 2 ^ n → k < n → bit_at (2 ^ n - 1 - a) k ≡ 1 - bit_at a k
unfolding bit_at
bit_at-not zero a k h l = absurd (omega arith)
bit_at-not (suc n) a zero h l = omega (arith, pow-suc 2 n, one-le-pow n 2)
bit_at-not (suc n) a (suc k) h l =
    ap (λ (t : ℕ). bit_at t k) (omega (arith, pow-suc 2 n, one-le-pow n 2))
    ∙ bit_at-not n (a / 2) k (omega (arith, pow-suc 2 n)) (omega arith)

pub bit_at-mask : (n k : ℕ) → bit_at (2 ^ n - 1) k ≡ of_bool (ltb k n)
unfolding bit_at
bit_at-mask zero k = ground (arith, zero-bit_at k)
bit_at-mask (suc n) zero = ground (arith, pow-suc 2 n, one-le-pow n 2)
bit_at-mask (suc n) (suc k) =
    ap (λ (t : ℕ). bit_at t k) (omega (arith, pow-suc 2 n, one-le-pow n 2))
    ∙ bit_at-mask n k
    ∙ ground arith

pub bit_at-ge : (n a k : ℕ) → a < 2 ^ n → n ≤ k → bit_at a k ≡ 0
bit_at-ge n a k h l =
    ap (λ (t : ℕ). bit_at t k) (sym (mod-eq_of_lt h)) ∙ bit_at-mod n a k ∙ ground arith

-- The low digit alone, and the digits as a shift followed by a mask of one.
pub bit_at-div-mod : (a k : ℕ) → a / 2 ^ k % 2 ≡ bit_at a k
bit_at-div-mod a k = sym (bit_at_zero (a / 2 ^ k)) ∙ bit_at-div k 0 a ∙ ap (bit_at a) (omega arith)
  where
    bit_at_zero : (n : ℕ) → bit_at n 0 ≡ n % 2
    bit_at_zero n = unfold bit_at in refl
