-- ===== src/Core/Interrupts.antt =====
-- src/core/hart.cpp: `handle_trap`, `check_interrupts` and `has_pending_enabled_interrupt`.
pub mod Entry
pub mod Pending
pub mod Delegation
use uotan_riscv_emu_ng.Base.{ℕ, ◌+◌, ◌-◌, ◌*◌, ◌/◌, ◌%◌, ◌^◌, Bool, true, false, List, [], ◌∷◌}
use uotan_riscv_emu_ng.Base.{
  bit_and, bit_or, ◌==◌, ltb, leb, truthy, if◌then◌else◌, not, ◌&&◌, ◌||◌,
}
use uotan_riscv_emu_ng.Base.Word.{not64, add64}
use uotan_riscv_emu_ng.Core.Mstatus
use uotan_riscv_emu_ng.Core.Mip
use uotan_riscv_emu_ng.Core.Trap.{
  priv_u, priv_s, priv_m, TrapCause, cause_value, no_cause, Trap, Result, ok, trap, terminate,
  machine_external_interrupt, machine_software_interrupt, machine_timer_interrupt,
  supervisor_external_interrupt, supervisor_software_interrupt, supervisor_timer_interrupt,
}
use uotan_riscv_emu_ng.Core.State.{Csrs, Hart}
use uotan_riscv_emu_ng.Core.Csr.{
  mstatus_read, mstatus_write, sstatus_read, sstatus_write, mip_read, mie_read, epc_write,
  medeleg_mask,
}

-- `v |= bit` or `v &= ~bit`, as a condition says.
abbrev pub put_bit : ℕ → Bool → ℕ → ℕ
put_bit bit on v = if on then bit_or v bit else bit_and v (not64 bit)

abbrev pub is_interrupt : ℕ → Bool
is_interrupt cause_val = truthy (bit_and (cause_val / 2 ^ 63) 1)

abbrev pub cause_code : ℕ → ℕ
cause_code cause_val = bit_and cause_val (not64 (2 ^ 63))

-- The address that a trap vector register gives for a cause.
unfoldable pub vector_target : ℕ → ℕ → ℕ
vector_target tvec cause_val =
    let vector_base = bit_and tvec (not64 3) in
    let vector_mode = bit_and tvec 3 in
    if is_interrupt cause_val && vector_mode == 1
    then add64 vector_base (cause_code cause_val * 2 ^ 2 % 2 ^ 64)
    else vector_base

-- Whether the trap goes to S-mode: never from M-mode, else as MIDELEG or MEDELEG says.
unfoldable pub delegated : ℕ → Hart → Bool
delegated cause_val h =
    let deleg_mask =
      if is_interrupt cause_val then h.csrs.mideleg else bit_and h.csrs.medeleg medeleg_mask in
    leb h.priv priv_s && truthy (bit_and (deleg_mask / 2 ^ cause_code cause_val) 1)

-- SPIE takes SIE, SPP the old privilege, and SIE is cleared.
unfoldable pub sstatus_on_entry : ℕ → ℕ → ℕ
sstatus_on_entry priv sstatus =
    let s1 = put_bit Mstatus.spie (truthy (bit_and sstatus Mstatus.sie)) sstatus in
    let s2 = put_bit Mstatus.spp (leb priv_s priv) s1 in bit_and s2 (not64 Mstatus.sie)

-- MPIE takes MIE, MPP the old privilege, and MIE is cleared.
unfoldable pub mstatus_on_entry : ℕ → ℕ → ℕ
mstatus_on_entry priv mstatus =
    let m1 = put_bit Mstatus.mpie (truthy (bit_and mstatus Mstatus.mie)) mstatus in
    let m2 = bit_and m1 (not64 Mstatus.mpp) in
    let m3 = bit_or m2 (priv * 2 ^ 11) in bit_and m3 (not64 Mstatus.mie)

unfoldable pub trap_to_s : Trap → Hart → Hart
unfolding sstatus_on_entry sstatus_read sstatus_write epc_write vector_target
trap_to_s t h =
    let cause_val = cause_value t.cause in
    let c = record (h.csrs) {
      sepc = epc_write h.csrs.sepc t.pc;
      scause = cause_val;
      stval = t.tval;
    } in
    let c' = sstatus_write (sstatus_on_entry h.priv (sstatus_read c)) c in
    record h { csrs = c'; pc = vector_target c'.stvec cause_val; priv = priv_s }

unfoldable pub trap_to_m : Trap → Hart → Hart
unfolding mstatus_on_entry mstatus_read mstatus_write epc_write vector_target
trap_to_m t h =
    let cause_val = cause_value t.cause in
    let c = record (h.csrs) {
      mepc = epc_write h.csrs.mepc t.pc;
      mcause = cause_val;
      mtval = t.tval;
    } in
    let c' = mstatus_write (mstatus_on_entry h.priv (mstatus_read c)) c in
    record h { csrs = c'; pc = vector_target c'.mtvec cause_val; priv = priv_m }

abbrev pub is_none : TrapCause → Bool
is_none no_cause = true
is_none _ = false

-- `Hart::handle_trap`
unfoldable pub handle_trap : Trap → Hart → Result (Unit {0}) × Hart
unfolding trap_to_s trap_to_m delegated
handle_trap t h =
    if is_none t.cause
    then (terminate, h)
    else if delegated (cause_value t.cause) h
    then (ok tt, trap_to_s t h)
    else (ok tt, trap_to_m t h)

-- The interrupts, the first that may be taken first.
abbrev pub prio : List (ℕ × TrapCause)
prio =
    (Mip.meip, machine_external_interrupt)
    ∷ (Mip.msip, machine_software_interrupt)
    ∷ (Mip.mtip, machine_timer_interrupt)
    ∷ (Mip.seip, supervisor_external_interrupt)
    ∷ (Mip.ssip, supervisor_software_interrupt)
    ∷ (Mip.stip, supervisor_timer_interrupt)
    ∷ []

-- The loop over them: the cause that is thrown, none if it runs to its end.
unfoldable pub first_interrupt : ℕ → ℕ → Bool → Bool → List (ℕ × TrapCause) → TrapCause
first_interrupt pending mideleg m_enabled s_enabled [] = no_cause
first_interrupt pending mideleg m_enabled s_enabled ((bit, cause) ∷ rest) =
    let later = first_interrupt pending mideleg m_enabled s_enabled rest in
    if not (truthy (bit_and pending bit))
    then later
    else if truthy (bit_and mideleg bit)
    then (if s_enabled then cause else later)
    else (if m_enabled then cause else later)

-- Whether interrupts for M-mode and for S-mode may be taken at a privilege.
unfoldable pub m_enabled : Hart → Bool
unfolding mstatus_read
m_enabled h =
    ltb h.priv priv_m || (h.priv == priv_m && truthy (bit_and (mstatus_read h.csrs) Mstatus.mie))

unfoldable pub s_enabled : Hart → Bool
unfolding mstatus_read
s_enabled h =
    ltb h.priv priv_s || (h.priv == priv_s && truthy (bit_and (mstatus_read h.csrs) Mstatus.sie))

unfoldable pub pending_interrupts : Hart → ℕ
unfolding mip_read mie_read
pending_interrupts h = bit_and (mip_read h.csrs) (mie_read h.csrs)

-- The cause that the loop finds for a hart.
unfoldable pub selected_interrupt : Hart → TrapCause
unfolding first_interrupt m_enabled s_enabled pending_interrupts
selected_interrupt h =
    first_interrupt (pending_interrupts h) h.csrs.mideleg (m_enabled h) (s_enabled h) prio

-- A cause that is found is thrown.
abbrev pub throw_interrupt : TrapCause → Hart → Result (Unit {0}) × Hart
throw_interrupt cause h =
    if is_none cause then (ok tt, h) else (trap (record { pc = h.pc; cause = cause; tval = 0 }), h)

-- `Hart::check_interrupts`: it clears the request for a check, and may throw.
unfoldable pub check_interrupts : Hart → Result (Unit {0}) × Hart
unfolding selected_interrupt pending_interrupts
check_interrupts h =
    let h' = record h { interrupt_check_pending = false } in
    if pending_interrupts h' == 0 then (ok tt, h') else throw_interrupt (selected_interrupt h') h'

unfoldable pub has_pending_enabled_interrupt : Hart → Bool
unfolding pending_interrupts
has_pending_enabled_interrupt h = truthy (pending_interrupts h)
