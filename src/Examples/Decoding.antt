-- ===== src/Examples/Decoding.antt =====
-- The decoder and the instructions that it gives, at concrete words.
use uotan_riscv_emu_ng.Base.{
  ℕ, ◌-◌, ◌*◌, ◌/◌, ◌%◌, ◌^◌, ◌<◌, ◌≤◌, ◌≡◌, ◌≢◌, refl, arith, false, not, ◌&&◌, none, some, ◌==◌,
}
use uotan_riscv_emu_ng.Base.Digits.{digit}
use uotan_riscv_emu_ng.Core.Trap.{trap}
use uotan_riscv_emu_ng.Core.State.{reset, initial_csrs}
use uotan_riscv_emu_ng.Core.Csr.{mstatus_read}
use uotan_riscv_emu_ng.Decoder.Names.{
  DecodedInsn, normal, compressed, inv, type_n, type_i, type_s, type_b, type_u, type_j, rv64i, addi,
  Rv64f, Rv64d, c_fld, c_fsd, c_fldsp, c_fsdsp,
}
use uotan_riscv_emu_ng.Decoder.Pattern.{instpat}
use uotan_riscv_emu_ng.Decoder.Table.Integer.{integer_patterns}
use uotan_riscv_emu_ng.Decoder.Operands.{imm_32}
use uotan_riscv_emu_ng.Decoder.Decode.{decode, instructions_32}
use uotan_riscv_emu_ng.Decoder.Unique.{count_fits, count_fits-le}
use uotan_riscv_emu_ng.Decoder.Immediates.{
  bit_from, source_i, source_s, source_b, source_u, source_j, imm_32-digit,
}
use uotan_riscv_emu_ng.Decoder.Total.{decode-ne-none}
use uotan_riscv_emu_ng.Float.{Operations, Softfloat, single, classify}
use uotan_riscv_emu_ng.Float.Classes.{classify-one}
use uotan_riscv_emu_ng.Execute.System.{illegal_insn}
use uotan_riscv_emu_ng.Execute.Float.Single.{exec_rv64f}
use uotan_riscv_emu_ng.Execute.Float.Double.{exec_rv64d}
use uotan_riscv_emu_ng.Execute.Float.Disabled.{fp-off}
use uotan_riscv_emu_ng.Execute.Compressed.{exec_rv64c}
use uotan_riscv_emu_ng.Examples.Instructions.{flat, machine}

abbrev pub blank : DecodedInsn
blank = record {
  insn = 0;
  len = normal;
  iname = inv;
  type = type_n;
  rd = 0;
  rs1 = 0;
  rs2 = 0;
  rs3 = 0;
  imm = 0;
  pc = 0;
}

-- `addi x5, x6, -1`
decode_test :
    decode blank 0xFFF30293 normal 0x1000
    ≡ some (record {
      insn = 0xFFF30293;
      len = normal;
      iname = rv64i addi;
      type = type_i;
      rd = 5;
      rs1 = 6;
      rs2 = 31;
      rs3 = 31;
      imm = 2 ^ 64 - 1;
      pc = 0x1000;
    })
unfolding decode instructions_32 integer_patterns instpat
decode_test = refl

count_fits-le_example : count_fits 0xFFF30293 instructions_32 ≤ 1
count_fits-le_example = count_fits-le 0xFFF30293

-- Bit 11 of the offset of a jump is bit 20 of the word.
imm_32-digit_example :
    (digit (imm_32 type_i 0x100000 0) 11 ≡ bit_from 0x100000 (source_i 11))
    × (digit (imm_32 type_s 0x100000 0) 11 ≡ bit_from 0x100000 (source_s 11))
    × (digit (imm_32 type_b 0x100000 0) 11 ≡ bit_from 0x100000 (source_b 11))
    × (digit (imm_32 type_u 0x100000 0) 11 ≡ bit_from 0x100000 (source_u 11))
    × (digit (imm_32 type_j 0x100000 0) 11 ≡ bit_from 0x100000 (source_j 11))
imm_32-digit_example = imm_32-digit 0x100000 11 0 (omega arith)

decode-ne-none_example : decode blank 0x6000 compressed 0x1000 ≢ none
decode-ne-none_example = decode-ne-none blank 0x6000 compressed 0x1000

-- Rounding, comparison and conversion that give 0, over the fields of a single word.
abbrev plain : Operations
plain = record {
  f_add = λ m a b. (0, 0);
  f_sub = λ m a b. (0, 0);
  f_mul = λ m a b. (0, 0);
  f_div = λ m a b. (0, 0);
  f_sqrt = λ m a. (0, 0);
  f_mul_add = λ m a b c. (0, 0);
  to_i32 = λ m a. (0, 0);
  to_ui32 = λ m a. (0, 0);
  to_i64 = λ m a. (0, 0);
  to_ui64 = λ m a. (0, 0);
  of_i32 = λ m a. (0, 0);
  of_ui32 = λ m a. (0, 0);
  of_i64 = λ m a. (0, 0);
  of_ui64 = λ m a. (0, 0);
  f_eq = λ a b. (false, 0);
  f_lt = λ a b. (false, 0);
  f_le = λ a b. (false, 0);
  f_lt_quiet = λ a b. (false, 0);
  f_is_signaling = λ a. false;
  exp_ui = λ a. a / 2 ^ 23 % 2 ^ 8;
  frac_ui = λ a. a % 2 ^ 23;
  sign_ui = λ a. a / 2 ^ 31 == 1;
  is_nan_ui = λ a. a / 2 ^ 23 % 2 ^ 8 == 255 && not (a % 2 ^ 23 == 0);
  is_sig_nan_ui = λ a. false;
}

-- The default NaN.
classify-one_example : (k : ℕ) × (k < 10) × (classify single plain 0x7FC00000 ≡ 2 ^ k)
classify-one_example = classify-one single plain 0x7FC00000 (omega arith) refl

abbrev pub no_float : Softfloat
no_float = record {
  f32 = plain;
  f64 = plain;
  f64_to_f32 = λ m a. (0, 0);
  f32_to_f64 = λ m a. (0, 0);
}

-- FS is off after reset.
fp-off_example :
    ((i : Rv64f) → exec_rv64f flat no_float blank i machine ≡ (trap (illegal_insn blank), machine))
    × ((i : Rv64d)
        → exec_rv64d flat no_float blank i machine ≡ (trap (illegal_insn blank), machine))
    × (exec_rv64c flat blank c_fld machine ≡ (trap (illegal_insn blank), machine))
    × (exec_rv64c flat blank c_fsd machine ≡ (trap (illegal_insn blank), machine))
    × (exec_rv64c flat blank c_fldsp machine ≡ (trap (illegal_insn blank), machine))
    × (exec_rv64c flat blank c_fsdsp machine ≡ (trap (illegal_insn blank), machine))
unfolding reset initial_csrs mstatus_read
fp-off_example = fp-off flat no_float blank machine refl

-- `c.lui x5, 5`
abbrev lui_insn : DecodedInsn
lui_insn = record blank { rd = 5; imm = 5 * 2 ^ 12 }
