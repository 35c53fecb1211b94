-- ===== src/Examples/Instructions.antt =====
-- Instructions and memory at concrete inputs.
use uotan_riscv_emu_ng.Base.{
  ◌∷◌, false, ℕ, ◌-◌, ◌^◌, ◌≡◌, refl, arith, true, leb, if◌then◌else◌, [], some,
}
use uotan_riscv_emu_ng.Base.Word.{add64, mul64}
use uotan_riscv_emu_ng.Core.Trap.{load_access_fault, ok, trap}
use uotan_riscv_emu_ng.Core.State.{read_gpr, reset}
use uotan_riscv_emu_ng.Core.Memory.{Machine, Memory}
use uotan_riscv_emu_ng.Decoder.Names.{
  amoadd_w, rv64a, DecodedInsn, rv64i, lw, div, rem, normal, type_i,
}
use uotan_riscv_emu_ng.Execute.Integer.{exec_rv64i}
use uotan_riscv_emu_ng.Execute.Integer.Frame.{exec_rv64i-read_gpr, exec_rv64i-traps}
use uotan_riscv_emu_ng.Execute.Integer.{r1}
use uotan_riscv_emu_ng.Execute.Atomic.{exec_rv64a, store_conditional}
use uotan_riscv_emu_ng.Execute.Atomic.Precise.{exec_rv64a-traps}
use uotan_riscv_emu_ng.Execute.Atomic.Reservation.{
  store_conditional-FailsOrStores, FailsOrStores, store_conditional-reservation_valid,
}
use uotan_riscv_emu_ng.Execute.Multiply.{product_value}
use uotan_riscv_emu_ng.Execute.Multiply.Laws.{div-rem, IsSignedDivision}
use uotan_riscv_emu_ng.Memory.{Bus, is_valid_addr, bus_read, bus_write}
use uotan_riscv_emu_ng.Memory.Laws.{bus_read-bus_write}

-- A memory of 4096 words that read as 7; every other access traps.
pub flat : Memory ℕ
flat = record {
  read_mem = λ size pc addr amo m. (
    if leb addr 4095
        then ok 7
        else trap (record { pc = pc; cause = load_access_fault; tval = addr }),
    m,
  );
  write_mem = λ size pc addr v m. (ok tt, m);
  probe_store = λ size pc addr m. (ok tt, m);
  read_gprs = λ size pc addr amo m. refl;
  read_pc = λ size pc addr amo m. refl;
  write_gprs = λ size pc addr v m. refl;
  write_pc = λ size pc addr v m. refl;
  probe_gprs = λ size pc addr m. refl;
  probe_pc = λ size pc addr m. refl;
}

-- `lw x5, imm(x0)`
abbrev load_insn : ℕ → DecodedInsn
load_insn imm = record {
  insn = 0x2283;
  len = normal;
  iname = rv64i lw;
  type = type_i;
  rd = 5;
  rs1 = 0;
  rs2 = 0;
  rs3 = 0;
  imm = imm;
  pc = 0x1000;
}

abbrev pub machine : Machine ℕ
machine = record { hart = reset 0x1000; world = 0 }

exec_rv64i-read_gpr_example :
    read_gpr 6 (exec_rv64i flat (load_insn 16) lw machine).1.hart ≡ read_gpr 6 machine.hart
exec_rv64i-read_gpr_example =
    exec_rv64i-read_gpr flat (load_insn 16) lw machine 6 (λ e. absurd (omega arith))

exec_rv64i-traps_example :
    ((exec_rv64i flat (load_insn 8192) lw machine).1.hart.gprs ≡ machine.hart.gprs)
    × ((exec_rv64i flat (load_insn 8192) lw machine).1.hart.pc ≡ machine.hart.pc)
unfolding exec_rv64i flat read_gpr
exec_rv64i-traps_example = exec_rv64i-traps flat (load_insn 8192) lw machine refl

-- `x1` points behind the memory.
abbrev far_machine : Machine ℕ
far_machine = record { hart = record (reset 0x1000) { gprs = 0 ∷ 8192 ∷ [] }; world = 0 }

abbrev atomic_insn : DecodedInsn
atomic_insn = record (load_insn 0) { rs1 = 1; iname = rv64a amoadd_w }

exec_rv64a-traps_example :
    ((exec_rv64a flat atomic_insn amoadd_w far_machine).1.hart.gprs ≡ far_machine.hart.gprs)
    × ((exec_rv64a flat atomic_insn amoadd_w far_machine).1.hart.pc ≡ far_machine.hart.pc)
unfolding exec_rv64a flat read_gpr
exec_rv64a-traps_example = exec_rv64a-traps flat atomic_insn amoadd_w far_machine refl

-- After reset nothing is reserved, so an SC fails.
store_conditional-FailsOrStores_example :
    FailsOrStores flat
      (load_insn 0)
      8
      (r1 flat (load_insn 0) machine)
      machine
      (store_conditional flat (load_insn 0) 8 machine)
unfolding flat read_gpr reset
store_conditional-FailsOrStores_example =
    store_conditional-FailsOrStores flat (load_insn 0) 8 machine machine refl refl

store_conditional-reservation_valid_example :
    (store_conditional flat (load_insn 0) 8 machine).1.hart.mmu.reservation_valid ≡ false
unfolding flat read_gpr reset
store_conditional-reservation_valid_example =
    store_conditional-reservation_valid flat (load_insn 0) 8 machine refl

-- -7 divided by 2 is -3, and the remainder is -1.
div_test : product_value div (2 ^ 64 - 7) 2 ≡ 2 ^ 64 - 3
unfolding product_value
div_test = refl

div-rem_example :
    IsSignedDivision
      (2 ^ 64 - 7)
      2
      (product_value div (2 ^ 64 - 7) 2)
      (product_value rem (2 ^ 64 - 7) 2)
    × (add64 (mul64 (product_value div (2 ^ 64 - 7) 2) 2) (product_value rem (2 ^ 64 - 7) 2)
        ≡ 2 ^ 64 - 7)
div-rem_example = div-rem (2 ^ 64 - 7) 2 (omega arith) (omega arith)

-- A bus with one page of memory and no device.
abbrev page_bus : Bus ℕ
page_bus = record { dram = record { mem = λ _. 0; size = 4096 }; devices = []; world = 0 }

bus_read-bus_write_example :
    ((bus_write 4 0x80000010 0x1234 page_bus).0 ≡ true)
    × ((bus_read 4 0x80000010 (bus_write 4 0x80000010 0x1234 page_bus).1).0 ≡ some 0x1234)
unfolding is_valid_addr
bus_read-bus_write_example = bus_read-bus_write page_bus 4 0x80000010 0x1234 refl
