-- ===== src/Decoder/Unique.antt =====
-- Whether two 32-bit patterns of src/core/decoder.cpp can fit one word.
use uotan_riscv_emu_ng.Base.{
  ℕ, ◌+◌, ◌-◌, ◌*◌, ◌/◌, ◌^◌, ◌≤◌, ◌≡◌, refl, sym, ap, Bool, true, false, ◌&&◌, ==_iff, min,
  bit_and, bit_xor, truthy, List, [], ◌∷◌, arith, of_bool, Bool-cases, inl, inr,
}
use uotan_riscv_emu_ng.Base.Bits
use uotan_riscv_emu_ng.Base.Digits.{digit, digit-and, digit-xor, digit-mul, digit-div}
use uotan_riscv_emu_ng.Decoder.Pattern.{PatternData, Entry, fits, instpat}
use uotan_riscv_emu_ng.Decoder.Decode.{instructions_32}
use uotan_riscv_emu_ng.Decoder.Table.Integer.{integer_patterns}
use uotan_riscv_emu_ng.Decoder.Table.Float.{float_patterns}

abbrev pub key_bits : PatternData → ℕ
key_bits p = p.key * 2 ^ p.shift

abbrev pub mask_bits : PatternData → ℕ
mask_bits p = p.mask * 2 ^ p.shift

-- Some digit is fixed by both patterns, to different values.
abbrev differ_at : PatternData → PatternData → ℕ
differ_at p q = bit_and (bit_and (mask_bits p) (mask_bits q)) (bit_xor (key_bits p) (key_bits q))

-- A pattern that fits has the digits of the word where its mask has 1, and 0 elsewhere.
pub fits-digit :
    (p : PatternData) (insn k : ℕ)
    → fits p insn ≡ true
    → digit (key_bits p) k ≡ min (digit insn k) (digit (mask_bits p) k)
fits-digit p insn k h = ground (
  arith,
  digit-mul p.shift k p.key,
  digit-mul p.shift k p.mask,
  ap (λ (t : ℕ). digit t (k - p.shift)) (sym ((==_iff _ _).0 h)),
  digit-and (k - p.shift) (insn / 2 ^ p.shift) p.mask,
  digit-div p.shift (k - p.shift) insn,
  ap (λ (t : ℕ). digit insn t) {x = p.shift + (k - p.shift)} {y = k},
)

and_left : (a b : Bool) → (a && b) ≡ true → a ≡ true
and_left true b h = refl
and_left false b h = h

and_right : (a b : Bool) → (a && b) ≡ true → b ≡ true
and_right true b h = h
and_right false b h = cc

same_digits :
    (p q : PatternData) (insn k : ℕ)
    → fits p insn ≡ true
    → fits q insn ≡ true
    → digit (differ_at p q) k ≡ 0
same_digits p q insn k hp hq = omega (
  arith,
  digit-and k (bit_and (mask_bits p) (mask_bits q)) (bit_xor (key_bits p) (key_bits q)),
  digit-and k (mask_bits p) (mask_bits q),
  digit-xor k (key_bits p) (key_bits q),
  fits-digit p insn k hp,
  fits-digit q insn k hq,
)

never_both :
    (p q : PatternData) (insn : ℕ)
    → truthy (differ_at p q) ≡ true
    → fits p insn ≡ true
    → fits q insn ≡ true
    → ⊥
never_both p q insn d hp hq = ground (arith, d, nothing)
  where
    nothing : differ_at p q ≡ 0
    nothing = Bits.bit_at_ext (differ_at p q) 0 λ k. omega (
      arith,
      Bits.bit_at-div-mod (differ_at p q) k,
      same_digits p q insn k hp hq,
      Bits.zero-bit_at k,
    )

-- How many of the patterns fit.
unfoldable pub count_fits : ℕ → List Entry → ℕ
count_fits insn [] = 0
count_fits insn (e ∷ es) = of_bool (fits e.pattern insn) + count_fits insn es

abbrev apart_from : PatternData → List Entry → Bool
apart_from p [] = true
apart_from p (e ∷ es) = truthy (differ_at p e.pattern) && apart_from p es

all_apart : List Entry → Bool
all_apart [] = true
all_apart (e ∷ es) = apart_from e.pattern es && all_apart es

none_fits :
    (insn : ℕ) (p : PatternData) (es : List Entry)
    → apart_from p es ≡ true
    → fits p insn ≡ true
    → count_fits insn es ≡ 0
unfolding count_fits
none_fits insn p [] a h = refl
none_fits insn p (e ∷ es) a h = elim (Bool-cases (fits e.pattern insn)) [
  | inl g ↦ absurd (never_both p e.pattern insn (and_left _ _ a) h g)
  | inr g ↦ rw g (omega (arith, none_fits insn p es (and_right _ _ a) h))
]

one_fits : (insn : ℕ) (es : List Entry) → all_apart es ≡ true → count_fits insn es ≤ 1
unfolding all_apart count_fits
one_fits insn [] a = omega arith
one_fits insn (e ∷ es) a = elim (Bool-cases (fits e.pattern insn)) [
  | inl g ↦ rw g (omega (arith, none_fits insn e.pattern es (and_left _ _ a) g))
  | inr g ↦ rw g (omega (arith, one_fits insn es (and_right _ _ a)))
]

instructions_apart : all_apart instructions_32 ≡ true
unfolding all_apart instructions_32 integer_patterns float_patterns instpat
instructions_apart = refl

-- No word fits two of the 32-bit patterns, so their order in the table does not matter.
pub count_fits-le : (insn : ℕ) → count_fits insn instructions_32 ≤ 1
count_fits-le insn = one_fits insn instructions_32 instructions_apart
