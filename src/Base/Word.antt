-- ===== src/Base/Word.antt =====
-- `uint64_t` values as native numbers below 2 ^ 64, with the wrap-around written out, and the
-- integers that the bit patterns stand for.
use Prim.Native.Nat.{ℕ, ◌+◌, ◌-◌, ◌*◌, ◌/◌, ◌%◌, ◌^◌}
use mathlib.Core.Bool.{Bool, true, false}
use uotan_riscv_emu_ng.Base.Tests.{ltb, leb, if◌then◌else◌}

abbrev pub w64 : ℕ
w64 = 2 ^ 64

abbrev pub add64 : ℕ → ℕ → ℕ
add64 a b = (a + b) % 2 ^ 64

-- `-` on ℕ stops at 0, so the modulus is added first.
abbrev pub sub64 : ℕ → ℕ → ℕ
sub64 a b = (a + 2 ^ 64 - b) % 2 ^ 64

abbrev pub mul64 : ℕ → ℕ → ℕ
mul64 a b = a * b % 2 ^ 64

-- `~x`
abbrev pub not64 : ℕ → ℕ
not64 x = 2 ^ 64 - 1 - x

abbrev pub not32 : ℕ → ℕ
not32 x = 2 ^ 32 - 1 - x

-- `x << k` and `x >> k`
abbrev pub shl64 : ℕ → ℕ → ℕ
shl64 x k = x * 2 ^ k % 2 ^ 64

abbrev pub shl32 : ℕ → ℕ → ℕ
shl32 x k = x * 2 ^ k % 2 ^ 32

abbrev pub shr : ℕ → ℕ → ℕ
shr x k = x / 2 ^ k

abbrev pub u8 : ℕ → ℕ
u8 x = x % 2 ^ 8

abbrev pub u16 : ℕ → ℕ
u16 x = x % 2 ^ 16

abbrev pub u32 : ℕ → ℕ
u32 x = x % 2 ^ 32

-- `static_cast<int64_t>(a) < static_cast<int64_t>(b)`: the sign bit is flipped, so that the order
-- of the patterns is that of the integers.
abbrev pub slt64 : ℕ → ℕ → Bool
slt64 a b = ltb ((a + 2 ^ 63) % 2 ^ 64) ((b + 2 ^ 63) % 2 ^ 64)

-- `static_cast<int64_t>(x) >> k`: the vacated places take the sign bit.
abbrev pub sra64 : ℕ → ℕ → ℕ
sra64 x k = if ltb x (2 ^ 63) then x / 2 ^ k else 2 ^ 64 - 1 - (2 ^ 64 - 1 - x) / 2 ^ k

-- The magnitude and the sign of a `w`-bit pattern read as a signed integer.
abbrev pub negative : ℕ → ℕ → Bool
negative w x = leb (2 ^ (w - 1)) x

abbrev pub magnitude : ℕ → ℕ → ℕ
magnitude w x = if leb (2 ^ (w - 1)) x then 2 ^ w - x else x

abbrev pub differ_sign : Bool → Bool → Bool
differ_sign true true = false
differ_sign false false = false
differ_sign _ _ = true

-- Signed `/` and `%`: the quotient is rounded to 0, the remainder has the dividend's sign.
abbrev pub sdiv : ℕ → ℕ → ℕ → ℕ
sdiv w a b =
    let q = magnitude w a / magnitude w b in
    if differ_sign (negative w a) (negative w b) then (2 ^ w - q) % 2 ^ w else q

abbrev pub srem : ℕ → ℕ → ℕ → ℕ
srem w a b =
    let r = magnitude w a % magnitude w b in if negative w a then (2 ^ w - r) % 2 ^ w else r

-- `static_cast<int32_t>(x) >> k`
abbrev pub sra32 : ℕ → ℕ → ℕ
sra32 x k = if ltb x (2 ^ 31) then x / 2 ^ k else 2 ^ 32 - 1 - (2 ^ 32 - 1 - x) / 2 ^ k

-- A 64-bit pattern converted to `__int128_t`, as a 128-bit pattern.
abbrev pub widen : ℕ → ℕ
widen x = if ltb x (2 ^ 63) then x else x + (2 ^ 128 - 2 ^ 64)
