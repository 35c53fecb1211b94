-- ===== src/Decoder/Pattern.antt =====
-- The patterns of src/core/decoder.cpp: `parse_pattern`, and the test that `INSTPAT` expands to.
use Prim.Native.Char.{code}
use Prim.Native.String.{String}
use uotan_riscv_emu_ng.Base.{
  ℕ, ◌+◌, ◌*◌, ◌/◌, ◌%◌, ◌^◌, Bool, ◌==◌, of_bool, not, if◌then◌else◌, bit_and, List, [], ◌∷◌,
}
use uotan_riscv_emu_ng.Decoder.Names.{Iname, Itype}

-- The characters of a pattern, as their codes.
abbrev pub codes : String → List ℕ
codes String.[] = []
codes (String.◌∷◌ c s) = code c ∷ codes s

pub record PatternData : Type 0 where
  pub key : ℕ
  pub mask : ℕ
  pub shift : ℕ

-- One round of the loop.
abbrev pub parse_char : ℕ → PatternData → PatternData
parse_char c d = if c == b' ' then d else record {
  key = (d.key * 2 + of_bool (c == b'1')) % 2 ^ 64;
  mask = (d.mask * 2 + of_bool (not (c == b'?'))) % 2 ^ 64;
  shift = if c == b'?' then d.shift + 1 else 0;
}

unfoldable pub parse_loop : List ℕ → PatternData → PatternData
parse_loop [] d = d
parse_loop (c ∷ cs) d = parse_loop cs (parse_char c d)

abbrev empty_pattern : PatternData
empty_pattern = record { key = 0; mask = 0; shift = 0 }

unfoldable pub parse_pattern : String → PatternData
unfolding parse_loop
parse_pattern pattern =
    let d = parse_loop (codes pattern) empty_pattern in
    record { key = d.key / 2 ^ d.shift; mask = d.mask / 2 ^ d.shift; shift = d.shift }

-- `((uint64_t)insn >> pat.shift & pat.mask) == pat.key`
abbrev pub fits : PatternData → ℕ → Bool
fits p insn = bit_and (insn / 2 ^ p.shift) p.mask == p.key

pub record Entry : Type 0 where
  pub pattern : PatternData
  pub iname : Iname
  pub type : Itype

unfoldable pub instpat : String → Iname → Itype → Entry
unfolding parse_pattern
instpat s n t = record { pattern = parse_pattern s; iname = n; type = t }
