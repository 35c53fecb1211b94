-- ===== src/Decoder/Immediates.antt =====
-- Where the immediates of 32-bit instructions come from: `decode_operand_32` of src/core/decoder.cpp.
use uotan_riscv_emu_ng.Base.{
  ℕ, ◌+◌, ◌-◌, ◌*◌, ◌/◌, ◌%◌, ◌^◌, ◌≤◌, ◌<◌, ◌≡◌, ap, ◌∙◌, ◌&&◌, ◌==◌, min, bit_or, if◌then◌else◌,
  arith, ltb, leb, Option, none, some,
}
use uotan_riscv_emu_ng.Base.Digits.{digit, digit-or, digit-mul, digit-div, digit-mod}
use uotan_riscv_emu_ng.Decoder.Names.{type_i, type_s, type_b, type_u, type_j}
use native.Mathlib.Nat.{mod-lt, one-le-pow}
use uotan_riscv_emu_ng.Base.Bits.{bit_or-lt}
use uotan_riscv_emu_ng.BitOps.{bits, sext}
use uotan_riscv_emu_ng.BitOps.Fields.{bits-eq-mod, sext-digit}
use uotan_riscv_emu_ng.Decoder.Operands.{part, imm_i, imm_u, imm_s, imm_j, imm_b, imm_32}

module _ (i hi lo place k : ℕ) (o : lo ≤ hi) (w : hi < 32) where
  part-digit :
      digit (part i hi lo place) k
      ≡ (if leb place k && ltb k (place + (hi + 1 - lo)) then digit i (lo + (k - place)) else 0)
  unfolding part
  part-digit = ground (
    arith,
    digit-mul place k (bits 32 i hi lo),
    ap (λ (t : ℕ). digit t (k - place)) (bits-eq-mod 32 i hi lo o w),
    digit-mod (hi + 1 - lo) (k - place) (i / 2 ^ lo),
    digit-div lo (k - place) i,
  )

-- The bit of the instruction word that gives bit `k` of its immediate, by the format; a bit without
-- a source is 0.
abbrev pub source_i : ℕ → Option ℕ
source_i k = some (if ltb k 11 then 20 + k else 31)

abbrev pub source_s : ℕ → Option ℕ
source_s k = some (if ltb k 5 then 7 + k else if ltb k 11 then 20 + k else 31)

abbrev pub source_b : ℕ → Option ℕ
source_b k =
    if k == 0
    then none
    else some (if ltb k 5 then 7 + k else if ltb k 11 then 20 + k else if k == 11 then 7 else 31)

abbrev pub source_u : ℕ → Option ℕ
source_u k = if ltb k 12 then none else some (min k 31)

abbrev pub source_j : ℕ → Option ℕ
source_j k =
    if k == 0
    then none
    else some (if ltb k 11 then 20 + k else if k == 11 then 20 else if ltb k 20 then k else 31)

abbrev pub bit_from : ℕ → Option ℕ → ℕ
bit_from i none = 0
bit_from i (some place) = digit i place

sext-bits :
    (n i hi lo k : ℕ)
    → lo ≤ hi
    → hi < 32
    → n ≡ hi + 1 - lo
    → k < 64
    → digit (sext (bits 32 i hi lo) n) k ≡ digit i (lo + min k (n - 1))
sext-bits n i hi lo k o w e l =
    sext-digit n x k (omega arith) (omega arith) small l
    ∙ rw (bits-eq-mod 32 i hi lo o w, ← e)
        (low_digit (min k (n - 1)) (omega arith) ∙ digit-div lo (min k (n - 1)) i)
  where
    x : ℕ
    x = bits 32 i hi lo

    small : bits 32 i hi lo < 2 ^ n
    small =
        rw (bits-eq-mod 32 i hi lo o w, ← e) (mod-lt (i / 2 ^ lo) (one-le-pow n 2 (omega arith)))

    low_digit : (j : ℕ) → j < n → digit (i / 2 ^ lo % 2 ^ n) j ≡ digit (i / 2 ^ lo) j
    low_digit j g = ground (arith, digit-mod n j (i / 2 ^ lo))

imm_i-digit : (i k : ℕ) → k < 64 → digit (imm_i i) k ≡ bit_from i (source_i k)
unfolding imm_i
imm_i-digit i k l = ground (arith, sext-bits 12 i 31 20 k)

imm_u-digit : (i k : ℕ) → k < 64 → digit (imm_u i) k ≡ bit_from i (source_u k)
unfolding imm_u
imm_u-digit i k l = ground (
  arith,
  digit-mod 64 k (sext (bits 32 i 31 12) 20 * 2 ^ 12),
  digit-mul 12 k (sext (bits 32 i 31 12) 20),
  sext-bits 20 i 31 12 (k - 12),
)

imm_s_high :
    (i k : ℕ)
    → k < 64
    → digit (sext (bits 32 i 31 25) 7 * 2 ^ 5 % 2 ^ 64) k
      ≡ (if ltb k 5 then 0 else digit i (25 + min (k - 5) 6))
imm_s_high i k l = ground (
  arith,
  digit-mod 64 k (sext (bits 32 i 31 25) 7 * 2 ^ 5),
  digit-mul 5 k (sext (bits 32 i 31 25) 7),
  sext-bits 7 i 31 25 (k - 5),
)

imm_s_low : (i k : ℕ) → digit (bits 32 i 11 7) k ≡ (if ltb k 5 then digit i (7 + k) else 0)
imm_s_low i k =
    ap (λ (t : ℕ). digit t k) (bits-eq-mod 32 i 11 7 (omega arith) (omega arith))
    ∙ digit-mod 5 k (i / 2 ^ 7)
    ∙ ap (λ (t : ℕ). if ltb k 5 then t else 0) (digit-div 7 k i)

imm_s-digit : (i k : ℕ) → k < 64 → digit (imm_s i) k ≡ bit_from i (source_s k)
unfolding imm_s
imm_s-digit i k l =
    digit-or k (sext (bits 32 i 31 25) 7 * 2 ^ 5 % 2 ^ 64) (bits 32 i 11 7)
    ∙ rw (imm_s_high i k l, imm_s_low i k) (ground arith)

abbrev raw_j : ℕ → ℕ
raw_j i =
    bit_or (bit_or (bit_or (part i 31 31 20) (part i 19 12 12)) (part i 20 20 11)) (part i 30 21 1)

raw_j-digit : (i k : ℕ) → k < 21 → digit (raw_j i) k ≡ bit_from i (source_j k)
raw_j-digit i k l =
    digit-or k (bit_or (bit_or (part i 31 31 20) (part i 19 12 12)) (part i 20 20 11))
      (part i 30 21 1)
    ∙ rw
        (
          digit-or k (bit_or (part i 31 31 20) (part i 19 12 12)) (part i 20 20 11),
          digit-or k (part i 31 31 20) (part i 19 12 12),
          part-digit i 31 31 20 k (omega arith) (omega arith),
          part-digit i 19 12 12 k (omega arith) (omega arith),
          part-digit i 20 20 11 k (omega arith) (omega arith),
          part-digit i 30 21 1 k (omega arith) (omega arith),
        )
        (ground arith)

raw_j-lt : (i : ℕ) → raw_j i < 2 ^ 21
unfolding part
raw_j-lt i =
    bit_or-lt 21 _ _
      (bit_or-lt 21 _ _
        (bit_or-lt 21 _ _ (omega (arith, bits-eq-mod 32 i 31 31 (omega arith) (omega arith)))
          (omega (arith, bits-eq-mod 32 i 19 12 (omega arith) (omega arith))))
        (omega (arith, bits-eq-mod 32 i 20 20 (omega arith) (omega arith))))
      (omega (arith, bits-eq-mod 32 i 30 21 (omega arith) (omega arith)))

imm_j-digit : (i k : ℕ) → k < 64 → digit (imm_j i) k ≡ bit_from i (source_j k)
unfolding imm_j
imm_j-digit i k l =
    sext-digit 21 (raw_j i) k (omega arith) (omega arith) (raw_j-lt i) l
    ∙ raw_j-digit i (min k 20) (omega arith)
    ∙ ap (bit_from i) (ground arith)

abbrev raw_b : ℕ → ℕ
raw_b i =
    bit_or (bit_or (bit_or (part i 31 31 12) (part i 7 7 11)) (part i 30 25 5)) (part i 11 8 1)

raw_b-digit : (i k : ℕ) → k < 13 → digit (raw_b i) k ≡ bit_from i (source_b k)
raw_b-digit i k l =
    digit-or k (bit_or (bit_or (part i 31 31 12) (part i 7 7 11)) (part i 30 25 5)) (part i 11 8 1)
    ∙ rw
        (
          digit-or k (bit_or (part i 31 31 12) (part i 7 7 11)) (part i 30 25 5),
          digit-or k (part i 31 31 12) (part i 7 7 11),
          part-digit i 31 31 12 k (omega arith) (omega arith),
          part-digit i 7 7 11 k (omega arith) (omega arith),
          part-digit i 30 25 5 k (omega arith) (omega arith),
          part-digit i 11 8 1 k (omega arith) (omega arith),
        )
        (ground arith)

raw_b-lt : (i : ℕ) → raw_b i < 2 ^ 13
unfolding part
raw_b-lt i =
    bit_or-lt 13 _ _
      (bit_or-lt 13 _ _
        (bit_or-lt 13 _ _ (omega (arith, bits-eq-mod 32 i 31 31 (omega arith) (omega arith)))
          (omega (arith, bits-eq-mod 32 i 7 7 (omega arith) (omega arith))))
        (omega (arith, bits-eq-mod 32 i 30 25 (omega arith) (omega arith))))
      (omega (arith, bits-eq-mod 32 i 11 8 (omega arith) (omega arith)))

imm_b-digit : (i k : ℕ) → k < 64 → digit (imm_b i) k ≡ bit_from i (source_b k)
unfolding imm_b
imm_b-digit i k l =
    sext-digit 13 (raw_b i) k (omega arith) (omega arith) (raw_b-lt i) l
    ∙ raw_b-digit i (min k 12) (omega arith)
    ∙ ap (bit_from i) (ground arith)

-- In each of the five formats, bit `k` of the immediate is the bit of the word at the place that the
-- encoding of the format says, the sign bit 31 repeated above the field, and 0 where it says none.
pub imm_32-digit :
    (i k old : ℕ)
    → k < 64
    → (digit (imm_32 type_i i old) k ≡ bit_from i (source_i k))
      × (digit (imm_32 type_s i old) k ≡ bit_from i (source_s k))
      × (digit (imm_32 type_b i old) k ≡ bit_from i (source_b k))
      × (digit (imm_32 type_u i old) k ≡ bit_from i (source_u k))
      × (digit (imm_32 type_j i old) k ≡ bit_from i (source_j k))
unfolding imm_32
imm_32-digit i k old l =
    (imm_i-digit i k l, imm_s-digit i k l, imm_b-digit i k l, imm_u-digit i k l, imm_j-digit i k l)
