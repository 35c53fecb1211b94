-- ===== src/Examples/Running.antt =====
-- Rounds of the execution loop at concrete states.
use uotan_riscv_emu_ng.Base.{ℕ, ◌^◌, ◌-◌, ◌≡◌, refl, arith, true, false, [], ◌==◌, if◌then◌else◌}
use uotan_riscv_emu_ng.Core.Trap.{Trap, illegal_instruction, trap, TrapCause}
use uotan_riscv_emu_ng.Core.State.{reset, initial_csrs, read_gpr, write_gpr}
use uotan_riscv_emu_ng.Core.Interrupts.{is_none}
use uotan_riscv_emu_ng.Core.Interrupts.Pending.{IsFirst, takeable, order, checked}
use uotan_riscv_emu_ng.Core.Memory.{Machine}
use uotan_riscv_emu_ng.Memory.{Bus, bus_read}
use uotan_riscv_emu_ng.Memory.Bytes
use uotan_riscv_emu_ng.Decoder.Pattern.{instpat}
use uotan_riscv_emu_ng.Decoder.Table.Integer.{integer_patterns}
use uotan_riscv_emu_ng.Decoder.Decode.{instructions_32}
use uotan_riscv_emu_ng.Engine.{attempt, ThreadState, running, waiting, handle, round}
use uotan_riscv_emu_ng.Engine.Shutdown.{is_over, rounds, rounds-stops}
use uotan_riscv_emu_ng.Engine.Blame.{attempt-pc}
use uotan_riscv_emu_ng.Decoder.Table.Compressed.{compressed_patterns}
use uotan_riscv_emu_ng.Decoder.Decode.{invalid_16}
use uotan_riscv_emu_ng.Engine.Interrupt.{cycled, round-takes}
use uotan_riscv_emu_ng.Examples.Decoding.{blank, no_float}

-- A memory that holds `addi x5, x6, -1` at its start.
abbrev program : Bus ℕ
program = record {
  dram = record {
    mem = λ i. if i == 0 then 0x93 else if i == 1 then 0x02 else if i == 2 then 0xF3 else 0xFF;
    size = 4096;
  };
  devices = [];
  world = 0;
}

abbrev started : Machine (Bus ℕ)
started = record { hart = reset 0x80000000; world = program }

-- A timer interrupt of M-mode is pending and enabled.
abbrev interrupted : Machine (Bus ℕ)
interrupted = record started {
  hart = record (reset 0x80000000) {
    interrupt_check_pending = true;
    csrs = record initial_csrs { mip = 2 ^ 7; mie = 2 ^ 7; mstatus = 2 ^ 3; mtvec = 0x80000100 };
  };
}

rounds-stops_example :
    is_over (rounds no_float blank (λ n. false) (2 ^ 17) (waiting 7 started)) ≡ true
rounds-stops_example = rounds-stops no_float blank (λ n. false) (waiting 7 started) (omega arith)

round-takes_example :
    (c : TrapCause) × IsFirst (takeable interrupted.hart) order c
    × (is_none c ≡ false
        → round no_float blank false true (running 3 interrupted)
          ≡ handle 4
              (record { pc = 0x80000000; cause = c; tval = 0 })
              (record interrupted { hart = checked (cycled interrupted.hart) }))
unfolding reset
round-takes_example = round-takes no_float blank true 3 interrupted refl refl

abbrev register_of : ThreadState (Bus ℕ) → ℕ
register_of (running i m) = read_gpr 5 m.hart
register_of _ = 0

round_test : register_of (round no_float blank false false (running 1 started)) ≡ 2 ^ 64 - 1
unfolding round reset bus_read Bytes.load instructions_32 integer_patterns instpat read_gpr
    write_gpr
round_test = refl

-- A memory of zeros, which are no instruction.
abbrev erased : Machine (Bus ℕ)
erased = record started { world = record program { dram = record { mem = λ i. 0; size = 4096 } } }

abbrev illegal_trap : Trap
illegal_trap = record { pc = 0x80000000; cause = illegal_instruction; tval = 0 }

illegal_test : (attempt no_float blank 1 erased).0 ≡ trap illegal_trap
unfolding attempt reset bus_read Bytes.load compressed_patterns invalid_16 instpat
illegal_test = refl

attempt-pc_example : illegal_trap.pc ≡ erased.hart.pc
attempt-pc_example = attempt-pc no_float blank 1 erased illegal_trap illegal_test
