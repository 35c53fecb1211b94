-- ===== src/Examples/Hart.antt =====
-- The hart at concrete states: traps, returns, interrupts and CSR accesses.
use uotan_riscv_emu_ng.Base.{◌+◌, ◌*◌, ◌-◌, ◌^◌, ◌≤◌, ◌≡◌, refl, arith}
use uotan_riscv_emu_ng.Base.Bits.{bit_at}
use uotan_riscv_emu_ng.Base.Digits.{digit}
use uotan_riscv_emu_ng.BitOps.{deposit, sext}
use uotan_riscv_emu_ng.BitOps.Fields.{deposit-bit_at, sext-eq}
use uotan_riscv_emu_ng.Core.Trap.{
  TrapCause, cause_value, illegal_instruction, load_page_fault, machine_timer_interrupt, Trap,
}
use uotan_riscv_emu_ng.Core.State.{Hart, initial_csrs, reset}
use uotan_riscv_emu_ng.Core.Csr.{mstatus_write, sstatus_write}
use uotan_riscv_emu_ng.Core.Csr.Access.{csr_at, read_checked, write_checked, illegal}
use uotan_riscv_emu_ng.Core.Csr.Invariant.{IsValid}
use uotan_riscv_emu_ng.Core.Csr.Protection.{checked-privilege, write_checked-read_only}
use uotan_riscv_emu_ng.Core.Csr.Status
use uotan_riscv_emu_ng.Core.Csr.Writable
use uotan_riscv_emu_ng.Core.Interrupts.{
  handle_trap, trap_to_m, trap_to_s, check_interrupts, throw_interrupt,
}
use uotan_riscv_emu_ng.Core.Interrupts.Delegation.{handle_trap-pc, handle_trap-priv}
use uotan_riscv_emu_ng.Core.Interrupts.Pending.{
  check_interrupts-IsFirst, IsFirst, takeable, order, checked,
}
use uotan_riscv_emu_ng.Execute.System.{return_m, return_s}
use uotan_riscv_emu_ng.Execute.Return.{return_m-trap_to_m-digit}
use uotan_riscv_emu_ng.Execute.SupervisorReturn.{return_s-trap_to_s-digit}
use uotan_riscv_emu_ng.Execute.Reachable.{at_reset, one_more, takes_trap, Reachable-IsValid}

-- A user program with both interrupt enables set; page faults are delegated, the vectors are
-- vectored.
user_hart : Hart
unfolding reset initial_csrs
user_hart = record (reset 0x80000000) {
  priv = 0;
  pc = 0x1004;
  csrs = record (initial_csrs) {
    mstatus = 10 * 2 ^ 32 + 2 ^ 3 + 2 ^ 1;
    medeleg = 2 ^ 13;
    mtvec = 0x80000101;
    stvec = 0x80200001;
    mip = 2 ^ 7 + 2 ^ 5;
    mie = 2 ^ 7 + 2 ^ 5;
  };
}

abbrev illegal_trap : Trap
illegal_trap = record { pc = 0x1004; cause = illegal_instruction; tval = 0 }

abbrev page_fault : Trap
page_fault = record { pc = 0x1004; cause = load_page_fault; tval = 0xdead }

abbrev timer_trap : Trap
timer_trap = record { pc = 0x1004; cause = machine_timer_interrupt; tval = 0 }

-- A user program that faults goes to S-mode, at the base of its vector.
page_fault-pc : (handle_trap page_fault user_hart).1.pc ≡ 0x80200000
unfolding user_hart cause_value
page_fault-pc = handle_trap-pc page_fault user_hart refl (omega arith) (omega arith)

timer_trap-pc : (handle_trap timer_trap user_hart).1.pc ≡ 0x80000100 + 4 * 7
unfolding user_hart cause_value
timer_trap-pc = handle_trap-pc timer_trap user_hart refl (omega arith) (omega arith)

handle_trap-priv_example : user_hart.priv ≤ (handle_trap page_fault user_hart).1.priv
unfolding user_hart
handle_trap-priv_example = handle_trap-priv page_fault user_hart (omega arith)

return_m-trap_to_m-digit_example :
    digit (return_m (trap_to_m illegal_trap user_hart)).csrs.mstatus 3 ≡ 1
unfolding user_hart
return_m-trap_to_m-digit_example =
    return_m-trap_to_m-digit illegal_trap user_hart 3 (omega arith) (omega arith)

return_s-trap_to_s-digit_example :
    digit (return_s (trap_to_s page_fault user_hart)).csrs.mstatus 1 ≡ 1
unfolding user_hart
return_s-trap_to_s-digit_example = return_s-trap_to_s-digit page_fault user_hart 1 (omega arith)

-- The pending machine timer comes before the supervisor timer.
check_interrupts-IsFirst_example :
    (c : TrapCause) × IsFirst (takeable (checked user_hart)) order c
    × (check_interrupts user_hart ≡ throw_interrupt c (checked user_hart))
check_interrupts-IsFirst_example = check_interrupts-IsFirst user_hart

-- MSTATUS is not there for a user program, and MVENDORID cannot be written.
checked-privilege_example :
    (read_checked 0x1004 0x30002573 (csr_at 0x300) user_hart ≡ illegal 0x1004 0x30002573 user_hart)
    × (write_checked 0x1004 0x30002573 (csr_at 0x300) 1 user_hart
        ≡ illegal 0x1004 0x30002573 user_hart)
unfolding user_hart
checked-privilege_example = checked-privilege 0x1004 0x30002573 0x300 1 user_hart (omega arith)

write_checked-read_only_example :
    write_checked 0 0 (csr_at 0xF11) 1 (reset 0) ≡ illegal 0 0 (reset 0)
write_checked-read_only_example = write_checked-read_only 0 0 0xF11 1 (reset 0) refl

mstatus_write-digit_example : digit (mstatus_write (2 ^ 3) initial_csrs).mstatus 3 ≡ 1
mstatus_write-digit_example = Writable.mstatus_write-digit 3 (2 ^ 3) initial_csrs (omega arith)

sstatus_write-digit_example : digit (sstatus_write (2 ^ 18) initial_csrs).mstatus 18 ≡ 1
sstatus_write-digit_example = Writable.sstatus_write-digit 18 (2 ^ 18) initial_csrs (omega arith)

deposit-bit_at_example : bit_at (deposit 32 0xF0 4 4 5) 6 ≡ bit_at 5 2
deposit-bit_at_example = deposit-bit_at 32 4 4 5 6 (omega arith) 0xF0 (omega arith)

sext-eq_example : sext 0x80 8 ≡ 2 ^ 64 - 128
sext-eq_example = sext-eq 0x80 8 (omega arith) (omega arith) (omega arith)

-- A hart that took a trap right after reset.
Reachable-IsValid_example : IsValid (handle_trap illegal_trap (reset 0x80000000)).1.csrs
Reachable-IsValid_example =
    Reachable-IsValid 0x80000000 (handle_trap illegal_trap (reset 0x80000000)).1
      (one_more at_reset (takes_trap illegal_trap))
