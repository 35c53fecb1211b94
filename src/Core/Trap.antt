-- ===== src/Core/Trap.antt =====
-- Privilege levels, trap causes, and how an instruction ends, include/core/hart.hpp.
use uotan_riscv_emu_ng.Base.{ℕ, ◌+◌, ◌-◌, ◌^◌}

-- `PrivilegeLevel` is an enumeration over `uint8_t`, and the code casts numbers to it.
abbrev pub priv_u : ℕ
priv_u = 0

abbrev pub priv_s : ℕ
priv_s = 1

abbrev pub priv_m : ℕ
priv_m = 3

pub data TrapCause : Type 0 where
  instruction_address_misaligned instruction_access_fault illegal_instruction breakpoint : TrapCause
  load_address_misaligned load_access_fault : TrapCause
  store_amo_address_misaligned store_amo_access_fault : TrapCause
  environment_call_from_u environment_call_from_s environment_call_from_m : TrapCause
  instruction_page_fault load_page_fault store_amo_page_fault : TrapCause
  supervisor_software_interrupt machine_software_interrupt : TrapCause
  supervisor_timer_interrupt machine_timer_interrupt : TrapCause
  supervisor_external_interrupt machine_external_interrupt : TrapCause
  no_cause : TrapCause

-- The value of the enumerator.
unfoldable pub cause_value : TrapCause → ℕ
cause_value instruction_address_misaligned = 0
cause_value instruction_access_fault = 1
cause_value illegal_instruction = 2
cause_value breakpoint = 3
cause_value load_address_misaligned = 4
cause_value load_access_fault = 5
cause_value store_amo_address_misaligned = 6
cause_value store_amo_access_fault = 7
cause_value environment_call_from_u = 8
cause_value environment_call_from_s = 9
cause_value environment_call_from_m = 11
cause_value instruction_page_fault = 12
cause_value load_page_fault = 13
cause_value store_amo_page_fault = 15
cause_value supervisor_software_interrupt = 2 ^ 63 + 1
cause_value machine_software_interrupt = 2 ^ 63 + 3
cause_value supervisor_timer_interrupt = 2 ^ 63 + 5
cause_value machine_timer_interrupt = 2 ^ 63 + 7
cause_value supervisor_external_interrupt = 2 ^ 63 + 9
cause_value machine_external_interrupt = 2 ^ 63 + 11
cause_value no_cause = 2 ^ 64 - 1

pub record Trap : Type 0 where
  pub pc : ℕ
  pub cause : TrapCause
  pub tval : ℕ

-- How a call ends: it returns, throws a `Trap` or `WfiWait`, or ends the emulator
-- (`std::terminate`).
pub data Result (A : Type 0) : Type 0 where
  ok : A → Result A
  trap : Trap → Result A
  wfi_wait : Result A
  terminate : Result A
