-- ===== src/Execute/Return.antt =====
-- MRET as the inverse of a trap to M-mode: `handle_trap` of src/core/hart.cpp and `exec_mret` of
-- src/core/execute.cpp.
use uotan_riscv_emu_ng.Base.{ℕ, ◌*◌, ◌/◌, ◌%◌, ◌^◌, ◌≤◌, ◌<◌, ◌≡◌, refl, ap, ◌∙◌}
use uotan_riscv_emu_ng.Base.{
  bit_and, bit_or, ◌==◌, if◌then◌else◌, of_bool, arith, truthy, Bool, not,
}
use uotan_riscv_emu_ng.Base.{◌||◌, ◌&&◌, true, leb, all_below, all_below-elim}
use uotan_riscv_emu_ng.Base.Bits
use uotan_riscv_emu_ng.Base.Word.{not64}
use uotan_riscv_emu_ng.Base.Digits.{
  digit, digit-and, digit-clear, digit-set, digit-reset, truthy-digit,
}
use uotan_riscv_emu_ng.Core.Mstatus
use uotan_riscv_emu_ng.Core.Trap.{Trap, priv_m}
use uotan_riscv_emu_ng.Core.State.{Csrs, Hart}
use uotan_riscv_emu_ng.Core.Csr.{mstatus_read, mstatus_write, epc_read, epc_write}
use uotan_riscv_emu_ng.Core.Csr.Status
use uotan_riscv_emu_ng.Core.Csr.Epc
use uotan_riscv_emu_ng.Core.Interrupts.{trap_to_m, put_bit}
use uotan_riscv_emu_ng.Core.Interrupts.Entry.{put_bit-digit, mpp_mask-digit, trap_to_m-digit}
use uotan_riscv_emu_ng.Execute.System.{mstatus_on_mret, return_m}

-- What the digits MIE, MPIE, MPP and MPRV become on MRET to a privilege.
abbrev pub returned_m : ℕ → ℕ → ℕ
returned_m m k = if k == 3 then digit m 7 else if k == 7 then 1 else 0

abbrev pub changed_by_mret : ℕ → ℕ → Bool
changed_by_mret priv k = k == 3 || k == 7 || k == 11 || k == 12 || (k == 17 && not (priv == priv_m))

mstatus_on_mret-digit :
    (k priv m : ℕ)
    → k < 64
    → digit (mstatus_on_mret priv m) k
      ≡ (if changed_by_mret priv k then returned_m m k else digit m k)
unfolding mstatus_on_mret
mstatus_on_mret-digit k priv m h = ground (
  arith,
  digit-clear k (bit_or m2 Mstatus.mpie) Mstatus.mpp h (omega arith),
  mpp_mask-digit k,
  digit-set 7 k m2,
  put_bit-digit 3 k m1 mpie_on h (omega arith),
  truthy-digit 7 m1,
  digit-reset 17 k m h (omega arith),
  digit-reset 17 7 m (omega arith) (omega arith),
)
  where
    m1 : ℕ
    m1 = if not (priv == priv_m) then bit_and m (not64 Mstatus.mprv) else m

    mpie_on : Bool
    mpie_on = truthy (bit_and m1 Mstatus.mpie)

    m2 : ℕ
    m2 = put_bit Mstatus.mie mpie_on m1

writable_table :
    all_below 63 (λ k.
      leb (of_bool (k == 3 || k == 7 || k == 11 || k == 12 || k == 17)) (digit Mstatus.write_mask k)
      && leb (of_bool (k == 1 || k == 5 || k == 8)) (digit Mstatus.sstatus_write_mask k))
    ≡ true
unfolding all_below
writable_table = refl

return_writable :
    (k : ℕ)
    → k < 63
    → (of_bool (k == 3 || k == 7 || k == 11 || k == 12 || k == 17) ≤ digit Mstatus.write_mask k)
      × (of_bool (k == 1 || k == 5 || k == 8) ≤ digit Mstatus.sstatus_write_mask k)
return_writable k h = ground (arith, all_below-elim 63 _ k writable_table h)

-- The privilege in MPP.
abbrev pub mpp_of : ℕ → ℕ
mpp_of m = m / 2 ^ 11 % 4

mpp_field : (m : ℕ) → bit_and m Mstatus.mpp / 2 ^ 11 ≡ mpp_of m
mpp_field m = omega (
  arith,
  digit-and 11 m Mstatus.mpp,
  digit-and 12 m Mstatus.mpp,
  Bits.bit_and-lt 13 m Mstatus.mpp (omega arith),
)

mpp_read : (c : Csrs) → mpp_of (mstatus_read c) ≡ mpp_of c.mstatus
mpp_read c = omega (arith, Status.mstatus_read-digit 11 c, Status.mstatus_read-digit 12 c)

-- MRET goes to the privilege in MPP.
pub return_m-priv : (h : Hart) → (return_m h).priv ≡ mpp_of h.csrs.mstatus
unfolding return_m
return_m-priv h = mpp_field (mstatus_read h.csrs) ∙ mpp_read h.csrs

return_m-mstatus :
    (h : Hart)
    → (return_m h).csrs.mstatus
      ≡ (mstatus_write (mstatus_on_mret (return_m h).priv (mstatus_read h.csrs)) h.csrs).mstatus
unfolding return_m
return_m-mstatus h = refl

return_m-digit :
    (k : ℕ) (h : Hart)
    → k < 63
    → digit (return_m h).csrs.mstatus k ≡ (
        if changed_by_mret (mpp_of h.csrs.mstatus) k
        then returned_m h.csrs.mstatus k
        else digit h.csrs.mstatus k)
return_m-digit k h l =
    ap (λ (t : ℕ). digit t k) (return_m-mstatus h)
    ∙ rw (return_m-priv h) (
        Status.mstatus_update k (mstatus_on_mret priv m) (returned_m h.csrs.mstatus k)
          (changed_by_mret priv k) h.csrs l
          (rw (mstatus_on_mret-digit k priv m (omega arith))
            (ground (arith, Status.mstatus_read-digit 7 h.csrs)))
          (ground (arith, return_writable k l)))
  where
    m : ℕ
    m = mstatus_read h.csrs

    priv : ℕ
    priv = mpp_of h.csrs.mstatus

trap_to_m-pc : (t : Trap) (h : Hart) → (trap_to_m t h).csrs.mepc ≡ epc_write h.csrs.mepc t.pc
unfolding trap_to_m
trap_to_m-pc t h = refl

return_m-pc : (h : Hart) → (return_m h).pc ≡ epc_read h.csrs.mepc
unfolding return_m
return_m-pc h = refl

stacked_mpp : (t : Trap) (h : Hart) → h.priv < 4 → mpp_of (trap_to_m t h).csrs.mstatus ≡ h.priv
stacked_mpp t h p =
    ground (arith, trap_to_m-digit 11 t h (omega arith) p, trap_to_m-digit 12 t h (omega arith) p)

-- For a trap whose pc is a 64-bit word, MRET after the trap to M-mode goes on at the half-word of
-- that pc.
pub return_m-trap_to_m-pc :
    (t : Trap) (h : Hart) → t.pc < 2 ^ 64 → (return_m (trap_to_m t h)).pc ≡ t.pc / 2 * 2
return_m-trap_to_m-pc t h l =
    return_m-pc (trap_to_m t h)
    ∙ ap epc_read (trap_to_m-pc t h)
    ∙ Epc.epc_read-epc_write h.csrs.mepc t.pc
    ∙ Epc.epc_read_lem t.pc l

-- If the privilege is a number below 4, MRET after a trap to M-mode goes back to the privilege that
-- trapped.
pub return_m-trap_to_m-priv :
    (t : Trap) (h : Hart) → h.priv < 4 → (return_m (trap_to_m t h)).priv ≡ h.priv
return_m-trap_to_m-priv t h p = return_m-priv (trap_to_m t h) ∙ stacked_mpp t h p

-- What MSTATUS is after the round trip: MPIE is set, MPP cleared, MPRV cleared if the trap did not
-- come from M-mode, and every other digit is as before the trap.
abbrev pub resumed_m : ℕ → ℕ → ℕ → ℕ
resumed_m priv m k =
    if k == 7
    then 1
    else if k == 11 || k == 12
    then 0
    else if k == 17 && not (priv == priv_m)
    then 0
    else digit m k

-- If the privilege is below 4, MRET after a trap to M-mode gives back every digit of MSTATUS below
-- SD, but that MPIE is set, MPP is cleared, and MPRV is cleared if the trap was not from M-mode.
pub return_m-trap_to_m-digit :
    (t : Trap) (h : Hart) (k : ℕ)
    → k < 63
    → h.priv < 4
    → digit (return_m (trap_to_m t h)).csrs.mstatus k ≡ resumed_m h.priv h.csrs.mstatus k
return_m-trap_to_m-digit t h k l p =
    return_m-digit k (trap_to_m t h) l
    ∙ rw (stacked_mpp t h p)
        (ground (arith, trap_to_m-digit k t h l p, trap_to_m-digit 7 t h (omega arith) p))
