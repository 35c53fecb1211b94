-- ===== src/Decoder/Total.antt =====
-- Whether `Decoder::decode` of src/core/decoder.cpp can reach `std::unreachable()`.
use uotan_riscv_emu_ng.Base.{
  ℕ, ◌/◌, ◌%◌, ◌^◌, ◌≡◌, ◌≢◌, refl, ap, ◌∙◌, Bool, true, false, ◌||◌, ◌==◌, Bool-cases, inl, inr,
  Option, none, some, List, [], ◌∷◌, ◌++◌, arith,
}
use mathlib.Core.Path.{subst}
use uotan_riscv_emu_ng.Base.Bits
use uotan_riscv_emu_ng.Base.{bit_and}
use uotan_riscv_emu_ng.Base.Digits.{digit}
use uotan_riscv_emu_ng.BitOps.{bits}
use uotan_riscv_emu_ng.BitOps.Fields.{bits-eq-mod}
use uotan_riscv_emu_ng.Decoder.Names.{
  DecodedInsn, Ilen, normal, compressed, Itype, type_cl, type_cs, type_cr, type_ci, type_css,
  type_ciw, type_ca, type_cb, type_cj, type_n, type_i, type_u, type_s, type_j, type_r, type_b,
  type_r4,
}
use uotan_riscv_emu_ng.Decoder.Pattern.{PatternData, Entry, fits, instpat, parse_pattern}
use uotan_riscv_emu_ng.Decoder.Table.Compressed.{compressed_patterns}
use uotan_riscv_emu_ng.Decoder.Operands.{operand_16, imm_memory, decode_operand_16}
use uotan_riscv_emu_ng.Decoder.Decode.{
  find, decoded, table, invalid_16, invalid_32, instructions_32, decode,
}
use uotan_riscv_emu_ng.Decoder.Unique.{fits-digit, key_bits, mask_bits}

find_last :
    (es : List Entry) (e : Entry) (insn : ℕ)
    → fits e.pattern insn ≡ true
    → find (es ++ e ∷ []) insn ≢ none
unfolding find
find_last [] e insn h = rw h (λ k. cc)
find_last (x ∷ es) e insn h = elim (Bool-cases (fits x.pattern insn)) [
  | inl f ↦ rw f (λ k. cc)
  | inr f ↦ rw f (find_last es e insn h)
]

abbrev Each : (Entry → Type 0) → List Entry → Type 0
Each P [] = Unit {0}
Each P (e ∷ es) = P e × Each P es

-- What holds of every entry that fits holds of the one that is found.
find-each :
    (P : Entry → Type 0) (es : List Entry) (insn : ℕ) (found : Entry)
    → Each (λ e. fits e.pattern insn ≡ true → P e) es
    → find es insn ≡ some found
    → P found
unfolding find
find-each P [] insn found h e = absurd (ground arith)
find-each P (x ∷ es) insn found h e = elim (Bool-cases (fits x.pattern insn)) [
  | inl f ↦ subst P (cc (rw f at e)) (h.0 f)
  | inr f ↦ find-each P es insn found h.1 (rw f at e)
]

-- The operands of a compressed format are all given.
abbrev is_complete : ℕ → Itype → Bool
is_complete f3 type_cl = f3 == 1 || f3 == 2 || f3 == 3
is_complete f3 type_cs = f3 == 5 || f3 == 6 || f3 == 7
is_complete f3 type_i = false
is_complete f3 type_u = false
is_complete f3 type_s = false
is_complete f3 type_j = false
is_complete f3 type_r = false
is_complete f3 type_b = false
is_complete f3 type_r4 = false
is_complete f3 _ = true

operand_16-ne-none :
    (t : Itype) (s : DecodedInsn)
    → is_complete (bits 32 s.insn 15 13) t ≡ true
    → operand_16 t s ≢ none
unfolding operand_16 imm_memory
operand_16-ne-none type_cr s h = λ k. cc
operand_16-ne-none type_ci s h = λ k. cc
operand_16-ne-none type_css s h = λ k. cc
operand_16-ne-none type_ciw s h = λ k. cc
operand_16-ne-none type_ca s h = λ k. cc
operand_16-ne-none type_cb s h = λ k. cc
operand_16-ne-none type_cj s h = λ k. cc
operand_16-ne-none type_n s h = λ k. cc
operand_16-ne-none type_cl s h = λ k. ground arith
operand_16-ne-none type_cs s h = λ k. ground arith
operand_16-ne-none type_i s h = absurd (ground arith)
operand_16-ne-none type_u s h = absurd (ground arith)
operand_16-ne-none type_s s h = absurd (ground arith)
operand_16-ne-none type_j s h = absurd (ground arith)
operand_16-ne-none type_r s h = absurd (ground arith)
operand_16-ne-none type_b s h = absurd (ground arith)
operand_16-ne-none type_r4 s h = absurd (ground arith)

-- The value of the bits 13 to 15 that a pattern fixes.
funct3_lem :
    (p : PatternData) (insn : ℕ)
    → digit (mask_bits p) 13 ≡ 1
    → digit (mask_bits p) 14 ≡ 1
    → digit (mask_bits p) 15 ≡ 1
    → fits p insn ≡ true
    → bits 32 insn 15 13 ≡ key_bits p / 2 ^ 13 % 8
funct3_lem p insn a b c h = omega (
  arith,
  bits-eq-mod 32 insn 15 13 (omega arith) (omega arith),
  a,
  b,
  c,
  fits-digit p insn 13 h,
  fits-digit p insn 14 h,
  fits-digit p insn 15 h,
)

-- An entry that fixes the function code to one that its format knows.
memory_entry :
    (p : PatternData) (insn : ℕ) (t : Itype)
    → digit (mask_bits p) 13 ≡ 1
    → digit (mask_bits p) 14 ≡ 1
    → digit (mask_bits p) 15 ≡ 1
    → is_complete (key_bits p / 2 ^ 13 % 8) t ≡ true
    → fits p insn ≡ true
    → is_complete (bits 32 insn 15 13) t ≡ true
memory_entry p insn t a b c k h = ap (λ (f3 : ℕ). is_complete f3 t) (funct3_lem p insn a b c h) ∙ k

-- A list of proofs, one for each entry.
infixr 60 ◌&◌
abbrev ◌&◌ : {A B : Type 0} → A → B → A × B
a & b = (a, b)

bit_and_zero : (a : ℕ) → bit_and a 0 ≡ 0
bit_and_zero a = Bits.bit_and_mask 0 a ∙ omega arith

fits_any_32 : (insn : ℕ) → fits invalid_32.pattern insn ≡ true
unfolding invalid_32 instpat
fits_any_32 insn = rw (bit_and_zero) refl

fits_any_16 : (insn : ℕ) → fits invalid_16.pattern insn ≡ true
unfolding invalid_16 instpat
fits_any_16 insn = rw (bit_and_zero) refl

compressed_complete :
    (insn : ℕ)
    → Each
        (λ e. fits e.pattern insn ≡ true → is_complete (bits 32 insn 15 13) e.type ≡ true)
        (table compressed)
unfolding table compressed_patterns invalid_16 instpat
compressed_complete insn =
    (λ _. refl)
    & (λ _. refl)
    & (λ _. refl)
    & (λ _. refl)
    & (λ _. refl)
    & (λ _. refl)
    & (λ _. refl)
    & (λ _. refl)
    & (λ _. refl)
    & (λ _. refl)
    & (λ _. refl)
    & (λ _. refl)
    & (λ _. refl)
    & (λ _. refl)
    & (λ _. refl)
    & (λ _. refl)
    & (λ _. refl)
    & (λ _. refl)
    & (λ _. refl)
    & (λ _. refl)
    & memory_entry (parse_pattern "001 ??????????? 00") insn type_cl refl refl refl refl
    & memory_entry (parse_pattern "010 ??????????? 00") insn type_cl refl refl refl refl
    & memory_entry (parse_pattern "011 ??????????? 00") insn type_cl refl refl refl refl
    & memory_entry (parse_pattern "101 ??????????? 00") insn type_cs refl refl refl refl
    & memory_entry (parse_pattern "110 ??????????? 00") insn type_cs refl refl refl refl
    & memory_entry (parse_pattern "111 ??????????? 00") insn type_cs refl refl refl refl
    & (λ _. refl)
    & (λ _. refl)
    & (λ _. refl)
    & (λ _. refl)
    & (λ _. refl)
    & (λ _. refl)
    & (λ _. refl)
    & (λ _. refl)
    & (λ _. refl)
    & (λ _. refl)
    & (λ _. refl)
    & (λ _. refl)
    & (λ _. refl)
    & tt

decoded_lem :
    (s : DecodedInsn) (insn pc : ℕ) (o : Option Entry)
    → o ≢ none
    → ((e : Entry) → o ≡ some e → is_complete (bits 32 insn 15 13) e.type ≡ true)
    → decoded compressed (record s { insn = insn; len = compressed; pc = pc }) o ≢ none
unfolding decode_operand_16
decoded_lem s insn pc none h c = absurd (h refl)
decoded_lem s insn pc (some e) h c =
    operand_16-ne-none e.type
      (record s { insn = insn; len = compressed; pc = pc; iname = e.iname; type = e.type })
      (c e refl)

normal_lem : (s : DecodedInsn) (o : Option Entry) → o ≢ none → decoded normal s o ≢ none
normal_lem s none h = absurd (h refl)
normal_lem s (some e) h = λ k. cc

-- Decoding gives an instruction for every word of either length: some pattern fits, and of a
-- compressed format that reads an offset, the function code is one that has an offset.
pub decode-ne-none :
    (s : DecodedInsn) (insn : ℕ) (len : Ilen) (pc : ℕ) → decode s insn len pc ≢ none
unfolding decode
decode-ne-none s insn normal pc =
    normal_lem (record s { insn = insn; len = normal; pc = pc }) (find (table normal) insn) found
  where
    found : find (table normal) insn ≢ none
    found = unfold table in find_last instructions_32 invalid_32 insn (fits_any_32 insn)
decode-ne-none s insn compressed pc =
    decoded_lem s insn pc (find (table compressed) insn) found λ e.
      find-each (λ x. is_complete (bits 32 insn 15 13) x.type ≡ true) (table compressed) insn e
        (compressed_complete insn)
  where
    found : find (table compressed) insn ≢ none
    found = unfold table in find_last compressed_patterns invalid_16 insn (fits_any_16 insn)
