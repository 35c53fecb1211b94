-- ===== src/Execute/Multiply.antt =====
-- The instructions of the M extension, src/core/execute.cpp.
pub mod Laws
use uotan_riscv_emu_ng.Base.{ℕ, ◌+◌, ◌-◌, ◌*◌, ◌/◌, ◌%◌, ◌^◌, ◌==◌, ◌&&◌, if◌then◌else◌}
use uotan_riscv_emu_ng.Base.Word.{mul64, sdiv, srem, widen}
use uotan_riscv_emu_ng.BitOps.{bits, sext}
use uotan_riscv_emu_ng.Core.Monad.{M, modify}
use uotan_riscv_emu_ng.Core.State.{Hart, read_gpr, write_gpr}
use uotan_riscv_emu_ng.Decoder.Names.{
  DecodedInsn, Rv64m, mul, mulh, mulhsu, mulhu, mulw, div, divu, divuw, divw, rem, remu, remuw,
  remw,
}

-- `~0ULL`
abbrev all_ones : ℕ
all_ones = 2 ^ 64 - 1

abbrev int64_min : ℕ
int64_min = 2 ^ 63

abbrev int32_min : ℕ
int32_min = 2 ^ 31

-- What an instruction writes for the values of its operands.
unfoldable pub product_value : Rv64m → ℕ → ℕ → ℕ
product_value mul a b = mul64 a b
product_value mulh a b = widen a * widen b % 2 ^ 128 / 2 ^ 64
product_value mulhsu a b = widen a * b % 2 ^ 128 / 2 ^ 64
product_value mulhu a b = a * b % 2 ^ 128 / 2 ^ 64
product_value mulw a b = sext (bits 64 (mul64 a b) 31 0) 32
product_value div a b =
    if b == 0 then all_ones else if a == int64_min && b == all_ones then a else sdiv 64 a b
product_value divu a b = if b == 0 then all_ones else a / b
product_value divuw a b =
    let v1 = bits 64 a 31 0 in
    let v2 = bits 64 b 31 0 in if v2 == 0 then all_ones else sext (v1 / v2) 32
product_value divw a b =
    let v1 = bits 64 a 31 0 in
    let v2 = bits 64 b 31 0 in
    if v2 == 0
    then all_ones
    else if v1 == int32_min && v2 == 2 ^ 32 - 1
    then sext v1 32
    else sext (sdiv 32 v1 v2) 32
product_value rem a b =
    if b == 0 then a else if a == int64_min && b == all_ones then 0 else srem 64 a b
product_value remu a b = if b == 0 then a else a % b
product_value remuw a b =
    let v1 = bits 64 a 31 0 in
    let v2 = bits 64 b 31 0 in if v2 == 0 then sext v1 32 else sext (v1 % v2) 32
product_value remw a b =
    let v1 = bits 64 a 31 0 in
    let v2 = bits 64 b 31 0 in
    if v2 == 0
    then sext v1 32
    else if v1 == int32_min && v2 == 2 ^ 32 - 1
    then 0
    else sext (srem 32 v1 v2) 32

unfoldable pub exec_rv64m : DecodedInsn → Rv64m → M Hart (Unit {0})
unfolding product_value
exec_rv64m d i =
    modify (λ h. write_gpr d.rd (product_value i (read_gpr d.rs1 h) (read_gpr d.rs2 h)) h)
