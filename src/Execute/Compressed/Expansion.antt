-- ===== src/Execute/Compressed/Expansion.antt =====
-- Compressed instructions of src/core/execute.cpp beside the instructions that they stand for.
use uotan_riscv_emu_ng.Base.{◌≡◌, if◌then◌else◌}
use uotan_riscv_emu_ng.Core.Trap.{trap}
use uotan_riscv_emu_ng.Core.Monad.{M, ◌>>◌, modify}
use uotan_riscv_emu_ng.Core.Memory.{Machine, Memory}
use uotan_riscv_emu_ng.Decoder.Names.{DecodedInsn, Rv64c, c_fld, c_fldsp}
use uotan_riscv_emu_ng.Float.{Softfloat}
use uotan_riscv_emu_ng.Execute.System.{illegal_insn, exec_privileged}
use uotan_riscv_emu_ng.Execute.Integer.{exec_rv64i}
use uotan_riscv_emu_ng.Execute.Float.{set_dirty}
use uotan_riscv_emu_ng.Execute.Float.Double.{exec_rv64d}
use uotan_riscv_emu_ng.Execute.Compressed.{exec_rv64c, on_hart}
use uotan_riscv_emu_ng.Execute.Compressed.Manual.{
  Target, integer, double, system, is_reserved, expansion,
}

module _ {W : Type 0} (mem : Memory W) (sf : Softfloat) where
  abbrev pub exec_target : Target × DecodedInsn → M (Machine W) (Unit {0})
  exec_target (integer i, d) = exec_rv64i mem d i
  exec_target (double i, d) = exec_rv64d mem sf d i
  exec_target (system i, d) = on_hart (exec_privileged d i)

  -- FLD ends by setting FS to dirty, which C.FLD and C.FLDSP do not.
  abbrev pub dirtying : Rv64c → M (Machine W) (Unit {0}) → M (Machine W) (Unit {0})
  dirtying c_fld c = c >> modify set_dirty
  dirtying c_fldsp c = c >> modify set_dirty
  dirtying _ c = c

  abbrev Expands : Machine W → Rv64c → DecodedInsn → Type 0
  Expands m i d =
      dirtying i (exec_rv64c mem d i) m
      ≡ (if is_reserved i d then (trap (illegal_insn d), m) else exec_target (expansion i d) m)
