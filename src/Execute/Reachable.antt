-- ===== src/Execute/Reachable.antt =====
-- The hart's steps keep what always holds of the CSRs, in any order, from reset on: traps and
-- interrupts of src/core/hart.cpp, CSR and privileged instructions of src/core/execute.cpp, and
-- the ticks of src/device/clint.cpp.
use uotan_riscv_emu_ng.Device.Clint
use uotan_riscv_emu_ng.Device.Clint.Invariant.{write_internal-IsValid}
use uotan_riscv_emu_ng.Base.{
  ℕ, Bool, true, false, ◌==◌, not, if◌then◌else◌, ◌||◌, ◌&&◌, truthy, bit_and, ltb,
}
use uotan_riscv_emu_ng.Core.Mstatus
use uotan_riscv_emu_ng.Core.Trap.{
  TrapCause, environment_call_from_m, environment_call_from_s, environment_call_from_u, cause_value,
  Trap, ok, trap, wfi_wait, terminate, priv_u, priv_s, priv_m,
}
use uotan_riscv_emu_ng.Core.Monad.{M, ◌>>◌, modify, raise, raise_if, skip}
use uotan_riscv_emu_ng.Core.State.{Clint, tlb_flush_all, Csrs, Hart, reset, read_gpr}
use uotan_riscv_emu_ng.Core.Csr.{
  sstatus_read, mstatus_read, sstatus_write, mcause, scause, mepc, sepc, mtval, stval, mstatus,
  sstatus, with_value, mie_read,
}
use uotan_riscv_emu_ng.Core.Csr.Invariant.{IsValid, reset-IsValid, with_value-IsValid}
use uotan_riscv_emu_ng.Core.Csr.Preservation.{pending-IsValid, tick-IsValid}
use uotan_riscv_emu_ng.Core.Clint.{tick, set_interrupt_pending}
use uotan_riscv_emu_ng.Core.Interrupts.{
  handle_trap, trap_to_m, trap_to_s, delegated, check_interrupts, throw_interrupt, is_none,
  pending_interrupts, selected_interrupt, has_pending_enabled_interrupt,
}
use uotan_riscv_emu_ng.Execute.System.{
  refused, exception_at, illegal_insn, tlb_flush_vaddr, sstatus_on_sret, exec_zicsr,
  exec_privileged, return_m, return_s,
}
use uotan_riscv_emu_ng.Decoder.Names.{
  DecodedInsn, Zicsr, Privileged, ebreak, ecall, mret, sret, wfi, sfence_vma,
}
use uotan_riscv_emu_ng.Execute.Invariant.{
  Keeps, then-Keeps, if-Keeps, raise_if-Keeps, choose-IsValid, exec_zicsr-Keeps,
}

trap_to_m-IsValid : (t : Trap) (h : Hart) → IsValid h.csrs → IsValid (trap_to_m t h).csrs
unfolding trap_to_m with_value
trap_to_m-IsValid t h i = with_value-IsValid mstatus _ _ (
    with_value-IsValid mtval t.tval _
      (with_value-IsValid mcause (cause_value t.cause) _ (with_value-IsValid mepc t.pc h.csrs i)))

trap_to_s-IsValid : (t : Trap) (h : Hart) → IsValid h.csrs → IsValid (trap_to_s t h).csrs
unfolding trap_to_s with_value
trap_to_s-IsValid t h i = with_value-IsValid sstatus _ _ (
    with_value-IsValid stval t.tval _
      (with_value-IsValid scause (cause_value t.cause) _ (with_value-IsValid sepc t.pc h.csrs i)))

handle_trap-Keeps : (t : Trap) → Keeps (handle_trap t)
unfolding handle_trap
handle_trap-Keeps t h i = choose-IsValid (is_none t.cause) _ _ i (
    choose-IsValid (delegated (cause_value t.cause) h) _ _ (trap_to_s-IsValid t h i)
      (trap_to_m-IsValid t h i))

throw_interrupt-Keeps : (c : TrapCause) → Keeps (throw_interrupt c)
throw_interrupt-Keeps c h i = choose-IsValid (is_none c) (ok tt, h) _ i i

check_interrupts-Keeps : Keeps check_interrupts
unfolding check_interrupts
check_interrupts-Keeps h i =
    choose-IsValid (pending_interrupts h' == 0) (ok tt, h')
      (throw_interrupt (selected_interrupt h') h') i
      (throw_interrupt-Keeps (selected_interrupt h') h' i)
  where
    h' : Hart
    h' = record h { interrupt_check_pending = false }

return_m-IsValid : (h : Hart) → IsValid h.csrs → IsValid (return_m h).csrs
unfolding return_m with_value
return_m-IsValid h i = with_value-IsValid mstatus _ h.csrs i

either-IsValid : (b : Bool) (x y : Csrs) → IsValid x → IsValid y → IsValid (if b then x else y)
either-IsValid true x y i j = i
either-IsValid false x y i j = j

return_s-IsValid : (h : Hart) → IsValid h.csrs → IsValid (return_s h).csrs
unfolding return_s with_value
return_s-IsValid h i = either-IsValid _ _ c (with_value-IsValid mstatus _ c restored) restored
  where
    c : Csrs
    c = sstatus_write (sstatus_on_sret (sstatus_read h.csrs)) h.csrs

    restored : IsValid c
    restored = with_value-IsValid sstatus _ h.csrs i

guard-Keeps : (b : Bool) (t : Trap) (m : M Hart (Unit {0})) → Keeps m → Keeps (raise_if b t >> m)
guard-Keeps b t m k = then-Keeps (raise_if b t) m (raise_if-Keeps b t) k

module _ (d : DecodedInsn) where
  call-Keeps :
      (b : Bool) (c : TrapCause) (m : M Hart (Unit {0}))
      → Keeps m
      → Keeps (if b then raise (exception_at d c 0) else m)
  call-Keeps b c m k = if-Keeps b (raise (exception_at d c 0)) m (λ h i. i) k

  exec_privileged-Keeps : (p : Privileged) → Keeps (exec_privileged d p)
  unfolding exec_privileged
  exec_privileged-Keeps ebreak h i = i
  exec_privileged-Keeps ecall h i =
      choose-IsValid (h.priv == priv_m) (trap (exception_at d environment_call_from_m 0), h)
        (if h.priv == priv_s
          then (trap (exception_at d environment_call_from_s 0), h)
          else if h.priv == priv_u
          then (trap (exception_at d environment_call_from_u 0), h)
          else (terminate, h))
        i
        (choose-IsValid (h.priv == priv_s) (trap (exception_at d environment_call_from_s 0), h)
          (if h.priv == priv_u
            then (trap (exception_at d environment_call_from_u 0), h)
            else (terminate, h))
          i
          (choose-IsValid (h.priv == priv_u) (trap (exception_at d environment_call_from_u 0), h)
            (terminate, h) i i))
  exec_privileged-Keeps mret h i =
      guard-Keeps (not (h.priv == priv_m)) (illegal_insn d) (modify return_m) return_m-IsValid
        (record h { interrupt_check_pending = true }) i
  exec_privileged-Keeps sfence_vma h i =
      guard-Keeps (refused Mstatus.tvm h) (illegal_insn d)
        (modify (λ h'. record h' {
          mmu =
              if d.rs1 == 0 then tlb_flush_all h.mmu else tlb_flush_vaddr (read_gpr d.rs1 h) h.mmu;
        }))
        (λ h' j. j) h i
  exec_privileged-Keeps sret h i =
      guard-Keeps (refused Mstatus.tsr h) (illegal_insn d) (modify return_s) return_s-IsValid
        (record h { interrupt_check_pending = true }) i
  exec_privileged-Keeps wfi h i =
      guard-Keeps
        (h.priv == priv_u
          || (ltb h.priv priv_m && truthy (bit_and (mstatus_read h.csrs) Mstatus.tw)))
        (illegal_insn d)
        (if has_pending_enabled_interrupt h || mie_read h.csrs == 0
          then skip
          else (λ s. (wfi_wait, s)))
        (if-Keeps (has_pending_enabled_interrupt h || mie_read h.csrs == 0) skip
          (λ s. (wfi_wait, s)) (λ h' j. j) (λ h' j. j))
        (record h { interrupt_check_pending = true }) i

-- A step of the hart on its own state.
pub data Step : Hart → Hart → Type 0 where
  csr_insn : (d : DecodedInsn) (z : Zicsr) {h : Hart} → Step h (exec_zicsr d z h).1
  privileged_insn : (d : DecodedInsn) (p : Privileged) {h : Hart} → Step h (exec_privileged d p h).1
  takes_trap : (t : Trap) {h : Hart} → Step h (handle_trap t h).1
  looks_for_interrupt : {h : Hart} → Step h (check_interrupts h).1
  clint_tick : {h : Hart} → Step h (tick h)
  clint_write :
      (offset size value : ℕ) (c : Clint) {h : Hart}
      → Step h (Clint.write_internal offset size value c h).1
  device_interrupt :
      (mask : ℕ) (pending : Bool) {h : Hart} → Step h (set_interrupt_pending mask pending h)

Step-IsValid : {h h' : Hart} → Step h h' → IsValid h.csrs → IsValid h'.csrs
Step-IsValid (csr_insn d z {h = h}) i = exec_zicsr-Keeps d z h i
Step-IsValid (privileged_insn d p {h = h}) i = exec_privileged-Keeps d p h i
Step-IsValid (takes_trap t {h = h}) i = handle_trap-Keeps t h i
Step-IsValid (looks_for_interrupt {h = h}) i = check_interrupts-Keeps h i
Step-IsValid (clint_tick {h = h}) i = tick-IsValid h i
Step-IsValid (clint_write offset size value c {h = h}) i =
    write_internal-IsValid offset size value c h i
Step-IsValid (device_interrupt mask pending {h = h}) i = pending-IsValid mask pending h i

-- What is reached from the reset state by such steps.
pub data Reachable (pc : ℕ) : Hart → Type 0 where
  at_reset : Reachable pc (reset pc)
  one_more : {h h' : Hart} → Reachable pc h → Step h h' → Reachable pc h'

-- Whatever CSR and privileged instructions a hart has run since reset, whatever traps and interrupts
-- it took, ticks and writes to the CLINT it saw and interrupt lines were driven, in any order: UXL and
-- SXL say 64 bits, SD says whether FS is dirty, no vector has bit 1 set, no environment call from
-- M-mode, double trap or M-mode interrupt is delegated, SATP has mode Bare or Sv39, and FFLAGS and FRM
-- are in range.
pub Reachable-IsValid : (pc : ℕ) (h : Hart) → Reachable pc h → IsValid h.csrs
Reachable-IsValid pc h at_reset = reset-IsValid pc
Reachable-IsValid pc h (one_more {h = h0} r s) = Step-IsValid s (Reachable-IsValid pc h0 r)
