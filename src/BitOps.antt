-- ===== src/BitOps.antt =====
-- include/common/bit.hpp: masks, bit fields, sign extension and field deposit. A template's type
-- parameter is its width `w` in bits.
pub mod Fields
use uotan_riscv_emu_ng.Base.{ℕ, zero, suc, ◌+◌, ◌-◌, ◌*◌, ◌/◌, ◌%◌, ◌^◌, bit_and, bit_or}
use uotan_riscv_emu_ng.Base.{◌==◌, leb, if◌then◌else◌, ◌||◌}
use uotan_riscv_emu_ng.Base.Word.{shl64, shr, sra64}

-- `bitmask<T>(bits)`; a count that is negative in the source is 0 here.
unfoldable pub bitmask : ℕ → ℕ → ℕ
bitmask w n = if n == 0 then 0 else if leb w n then 2 ^ w - 1 else 2 ^ n - 1

-- `bits(x, hi, lo)`
unfoldable pub bits : ℕ → ℕ → ℕ → ℕ → ℕ
unfolding bitmask
bits w x hi lo = bit_and (shr x lo) (bitmask w (hi + 1 - lo))

-- `sext(x, len)`
unfoldable pub sext : ℕ → ℕ → ℕ
sext x len =
    if len == 0 || leb 64 len then x else let shift = 64 - len in sra64 (shl64 x shift) shift

-- `ctz(val)`: the trailing zero digits, `w` for 0.
unfoldable pub ctz : ℕ → ℕ → ℕ
ctz zero x = 0
ctz (suc w) x = let rest = suc (ctz w (x / 2)) in if x % 2 == 1 then 0 else rest

-- `deposit(value, start, length, fieldval)`, where `start + length <= w`.
unfoldable pub deposit : ℕ → ℕ → ℕ → ℕ → ℕ → ℕ
deposit w value start length fieldval =
    if length == 0
    then value
    else let low_mask = bitmask w length in
      let mask = low_mask * 2 ^ start % 2 ^ w in
      let field_shifted = bit_and (fieldval % 2 ^ w) low_mask * 2 ^ start % 2 ^ w in
      bit_or (bit_and value (2 ^ w - 1 - mask)) (bit_and field_shifted mask)
