-- ===== src/Execute/Float/Disabled.antt =====
-- Floating-point instructions while MSTATUS.FS is off: `fp_inst_prep` of src/core/execute.cpp.
use uotan_riscv_emu_ng.Base.{◌≡◌, refl, false}
use uotan_riscv_emu_ng.Core.Trap.{trap}
use uotan_riscv_emu_ng.Core.Memory.{Machine, Memory}
use uotan_riscv_emu_ng.Decoder.Names.{
  DecodedInsn, Rv64f, Rv64d, flw, fld, c_fld, c_fsd, c_fldsp, c_fsdsp,
}
use uotan_riscv_emu_ng.Float.{Softfloat}
use uotan_riscv_emu_ng.Execute.System.{illegal_insn}
use uotan_riscv_emu_ng.Execute.Float.{fp_enabled}
use uotan_riscv_emu_ng.Execute.Float.Single.{exec_rv64f}
use uotan_riscv_emu_ng.Execute.Float.Double.{exec_rv64d}
use uotan_riscv_emu_ng.Execute.Compressed.{exec_rv64c}

module _ {W : Type 0} (mem : Memory W) (sf : Softfloat) (d : DecodedInsn) (m : Machine W)
    (off : fp_enabled m ≡ false) where
  exec_rv64f-off : (i : Rv64f) → exec_rv64f mem sf d i m ≡ (trap (illegal_insn d), m)
  unfolding exec_rv64f
  exec_rv64f-off flw = rw off refl
  exec_rv64f-off i = rw off refl

  exec_rv64d-off : (i : Rv64d) → exec_rv64d mem sf d i m ≡ (trap (illegal_insn d), m)
  unfolding exec_rv64d
  exec_rv64d-off fld = rw off refl
  exec_rv64d-off i = rw off refl

  -- The compressed loads and stores of doubles.
  exec_rv64c-off :
      (exec_rv64c mem d c_fld m ≡ (trap (illegal_insn d), m))
      × (exec_rv64c mem d c_fsd m ≡ (trap (illegal_insn d), m))
      × (exec_rv64c mem d c_fldsp m ≡ (trap (illegal_insn d), m))
      × (exec_rv64c mem d c_fsdsp m ≡ (trap (illegal_insn d), m))
  unfolding exec_rv64c
  exec_rv64c-off = (rw off refl, rw off refl, rw off refl, rw off refl)

-- While FS is off, every instruction of the F and D extensions and C.FLD, C.FSD, C.FLDSP and C.FSDSP
-- are illegal, whatever the operands, the rounding mode and the address, and change nothing: no
-- register, no flag and no memory.
pub fp-off :
    {W : Type 0} (mem : Memory W) (sf : Softfloat) (d : DecodedInsn) (m : Machine W)
    → fp_enabled m ≡ false
    → ((i : Rv64f) → exec_rv64f mem sf d i m ≡ (trap (illegal_insn d), m))
      × ((i : Rv64d) → exec_rv64d mem sf d i m ≡ (trap (illegal_insn d), m))
      × (exec_rv64c mem d c_fld m ≡ (trap (illegal_insn d), m))
      × (exec_rv64c mem d c_fsd m ≡ (trap (illegal_insn d), m))
      × (exec_rv64c mem d c_fldsp m ≡ (trap (illegal_insn d), m))
      × (exec_rv64c mem d c_fsdsp m ≡ (trap (illegal_insn d), m))
fp-off mem sf d m off =
    let (load, store, load_sp, store_sp) = exec_rv64c-off mem sf d m off in
    (exec_rv64f-off mem sf d m off, exec_rv64d-off mem sf d m off, load, store, load_sp, store_sp)
