-- ===== src/Execute/SupervisorReturn.antt =====
-- SRET as the inverse of a trap to S-mode: `handle_trap` of src/core/hart.cpp and `exec_sret` of
-- src/core/execute.cpp.
use uotan_riscv_emu_ng.Base.{ℕ, ◌*◌, ◌/◌, ◌^◌, ◌<◌, ◌≡◌, refl, ap, ◌∙◌}
use uotan_riscv_emu_ng.Base.{bit_and, bit_or, ◌==◌, if◌then◌else◌, arith, truthy, Bool, not}
use uotan_riscv_emu_ng.Base.{◌||◌}
use uotan_riscv_emu_ng.Base.Bits
use uotan_riscv_emu_ng.Base.Word.{not64}
use uotan_riscv_emu_ng.Base.Digits.{digit, digit-and, digit-set, digit-reset, truthy-digit}
use uotan_riscv_emu_ng.Core.Mstatus
use uotan_riscv_emu_ng.Core.Trap.{Trap, priv_m}
use uotan_riscv_emu_ng.Core.State.{Csrs, Hart}
use uotan_riscv_emu_ng.Core.Csr.{
  mstatus_read, mstatus_write, sstatus_read, sstatus_write, epc_read, epc_write,
}
use uotan_riscv_emu_ng.Core.Csr.Status
use uotan_riscv_emu_ng.Core.Csr.Epc
use uotan_riscv_emu_ng.Core.Interrupts.{trap_to_s, put_bit}
use uotan_riscv_emu_ng.Core.Interrupts.Entry.{put_bit-digit, trap_to_s-digit}
use uotan_riscv_emu_ng.Execute.System.{sstatus_on_sret, return_s}
use uotan_riscv_emu_ng.Core.Interrupts.Entry.{entry_writable}

abbrev changed_by_sret : ℕ → Bool
changed_by_sret k = k == 1 || k == 5 || k == 8

-- What the digits SIE, SPIE and SPP become on SRET.
abbrev returned_s : ℕ → ℕ → ℕ
returned_s s k = if k == 1 then digit s 5 else if k == 5 then 1 else 0

sstatus_on_sret-digit :
    (k s : ℕ)
    → k < 64
    → digit (sstatus_on_sret s) k ≡ (if changed_by_sret k then returned_s s k else digit s k)
unfolding sstatus_on_sret
sstatus_on_sret-digit k s h = ground (
  arith,
  digit-reset 8 k (bit_or s1 Mstatus.spie) h (omega arith),
  digit-set 5 k s1,
  put_bit-digit 1 k s spie_on h (omega arith),
  truthy-digit 5 s,
)
  where
    spie_on : Bool
    spie_on = truthy (bit_and s Mstatus.spie)

    s1 : ℕ
    s1 = put_bit Mstatus.sie spie_on s

-- The CSRs after the write of SSTATUS, before MPRV is cleared.
abbrev restored : Hart → Csrs
restored h = sstatus_write (sstatus_on_sret (sstatus_read h.csrs)) h.csrs

restored-digit :
    (k : ℕ) (h : Hart)
    → k < 63
    → digit (restored h).mstatus k
      ≡ (if changed_by_sret k then returned_s h.csrs.mstatus k else digit h.csrs.mstatus k)
restored-digit k h l =
    Status.sstatus_update k (sstatus_on_sret (sstatus_read h.csrs)) (returned_s h.csrs.mstatus k)
      (changed_by_sret k) h.csrs l
      (rw (sstatus_on_sret-digit k (sstatus_read h.csrs) (omega arith))
        (ground (arith, Status.sstatus_read-digit 5 h.csrs, Status.mstatus_read-digit 5 h.csrs)))
      (entry_writable k l).1

spp_field : (h : Hart) → bit_and (sstatus_read h.csrs) Mstatus.spp / 2 ^ 8 ≡ digit h.csrs.mstatus 8
spp_field h = omega (
  arith,
  digit-and 8 (sstatus_read h.csrs) Mstatus.spp,
  Bits.bit_and-lt 9 (sstatus_read h.csrs) Mstatus.spp (omega arith),
  Status.sstatus_read-digit 8 h.csrs,
  Status.mstatus_read-digit 8 h.csrs,
)

-- SRET goes to the privilege in SPP.
pub return_s-priv : (h : Hart) → (return_s h).priv ≡ digit h.csrs.mstatus 8
unfolding return_s
return_s-priv h = spp_field h

abbrev mprv_cleared : Csrs → Csrs
mprv_cleared c = mstatus_write (bit_and (mstatus_read c) (not64 Mstatus.mprv)) c

mprv_cleared-digit :
    (k : ℕ) (c : Csrs)
    → k < 63
    → digit (mprv_cleared c).mstatus k ≡ (if k == 17 then 0 else digit c.mstatus k)
mprv_cleared-digit k c l =
    Status.mstatus_update k _ 0 (k == 17) c l
      (digit-reset 17 k (mstatus_read c) (omega arith) (omega arith))
      (ground (arith, Status.masks_nested 17 (omega arith)))

return_s-csrs :
    (h : Hart)
    → (return_s h).csrs
      ≡ (if not ((return_s h).priv == priv_m) then mprv_cleared (restored h) else restored h)
unfolding return_s
return_s-csrs h = refl

return_s-mprv : (h : Hart) → (return_s h).csrs ≡ mprv_cleared (restored h)
return_s-mprv h = return_s-csrs h ∙ ground (arith, return_s-priv h)

pub return_s-digit :
    (k : ℕ) (h : Hart)
    → k < 63
    → digit (return_s h).csrs.mstatus k ≡ (
        if k == 17
        then 0
        else if changed_by_sret k
        then returned_s h.csrs.mstatus k
        else digit h.csrs.mstatus k)
return_s-digit k h l =
    ap (λ (c : Csrs). digit c.mstatus k) (return_s-mprv h)
    ∙ ground (arith, mprv_cleared-digit k (restored h) l, restored-digit k h l)

trap_to_s-pc : (t : Trap) (h : Hart) → (trap_to_s t h).csrs.sepc ≡ epc_write h.csrs.sepc t.pc
unfolding trap_to_s
trap_to_s-pc t h = refl

return_s-pc : (h : Hart) → (return_s h).pc ≡ epc_read h.csrs.sepc
unfolding return_s
return_s-pc h = refl

-- For a trap whose pc is a 64-bit word, SRET after the trap to S-mode goes on at the half-word of
-- that pc.
pub return_s-trap_to_s-pc :
    (t : Trap) (h : Hart) → t.pc < 2 ^ 64 → (return_s (trap_to_s t h)).pc ≡ t.pc / 2 * 2
return_s-trap_to_s-pc t h l =
    return_s-pc (trap_to_s t h)
    ∙ ap epc_read (trap_to_s-pc t h)
    ∙ Epc.epc_read-epc_write h.csrs.sepc t.pc
    ∙ Epc.epc_read_lem t.pc l

-- SRET after a trap to S-mode from U-mode or S-mode goes back to the privilege that trapped.
pub return_s-trap_to_s-priv :
    (t : Trap) (h : Hart) → h.priv < 2 → (return_s (trap_to_s t h)).priv ≡ h.priv
return_s-trap_to_s-priv t h p =
    return_s-priv (trap_to_s t h) ∙ ground (arith, trap_to_s-digit 8 t h (omega arith))

-- What MSTATUS is after the round trip.
abbrev pub resumed_s : ℕ → ℕ → ℕ
resumed_s m k = if k == 5 then 1 else if k == 8 || k == 17 then 0 else digit m k

-- SRET after a trap to S-mode gives back every digit of MSTATUS below SD, but that SPIE is set, and
-- SPP and MPRV are cleared.
pub return_s-trap_to_s-digit :
    (t : Trap) (h : Hart) (k : ℕ)
    → k < 63
    → digit (return_s (trap_to_s t h)).csrs.mstatus k ≡ resumed_s h.csrs.mstatus k
return_s-trap_to_s-digit t h k l =
    return_s-digit k (trap_to_s t h) l
    ∙ ground (arith, trap_to_s-digit k t h l, trap_to_s-digit 5 t h (omega arith))
