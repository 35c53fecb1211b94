-- ===== src/Decoder/Decode.antt =====
-- `Decoder::decode` of src/core/decoder.cpp: the first pattern that fits.
use uotan_riscv_emu_ng.Base.{ℕ, Option, none, some, List, [], ◌∷◌, ◌++◌, if◌then◌else◌}
use uotan_riscv_emu_ng.Decoder.Names.{DecodedInsn, Ilen, normal, compressed, inv, type_n}
use uotan_riscv_emu_ng.Decoder.Pattern.{Entry, instpat, fits}
use uotan_riscv_emu_ng.Decoder.Table.Integer.{integer_patterns}
use uotan_riscv_emu_ng.Decoder.Table.Float.{float_patterns}
use uotan_riscv_emu_ng.Decoder.Table.Compressed.{compressed_patterns}
use uotan_riscv_emu_ng.Decoder.Operands.{decode_operand_32, decode_operand_16}

unfoldable pub find : List Entry → ℕ → Option Entry
find [] insn = none
find (e ∷ es) insn = let rest = find es insn in if fits e.pattern insn then some e else rest

-- The last entry of either table, which fits any word.
unfoldable pub invalid_32 : Entry
unfolding instpat
invalid_32 = instpat "??????? ????? ????? ??? ????? ????? ??" inv type_n

unfoldable pub invalid_16 : Entry
unfolding instpat
invalid_16 = instpat "??? ??????????? ??" inv type_n

unfoldable pub instructions_32 : List Entry
instructions_32 = integer_patterns ++ float_patterns

unfoldable pub table : Ilen → List Entry
table normal = instructions_32 ++ invalid_32 ∷ []
table compressed = compressed_patterns ++ invalid_16 ∷ []

abbrev operands : Ilen → DecodedInsn → Option DecodedInsn
operands normal s = some (decode_operand_32 s)
operands compressed s = decode_operand_16 s

abbrev pub decoded : Ilen → DecodedInsn → Option Entry → Option DecodedInsn
decoded len s none = none
decoded len s (some e) = operands len (record s { iname = e.iname; type = e.type })

-- `s` is the local object, whose operands are not initialised.
unfoldable pub decode : DecodedInsn → ℕ → Ilen → ℕ → Option DecodedInsn
unfolding find table decode_operand_32 decode_operand_16
decode s insn len pc =
    decoded len (record s { insn = insn; len = len; pc = pc }) (find (table len) insn)
