-- ===== src/Core/Interrupts/Entry.antt =====
-- What a trap does to MSTATUS and to the program counter, and how MRET and SRET undo it.
use uotan_riscv_emu_ng.Base.{ℕ, ◌-◌, ◌*◌, ◌/◌, ◌%◌, ◌^◌, ◌≤◌, ◌<◌, ◌≡◌, refl, ap, ◌∙◌}
use uotan_riscv_emu_ng.Base.{
  bit_and, bit_or, ◌==◌, if◌then◌else◌, of_bool, arith, truthy, Bool, ◌||◌, ◌&&◌, true, leb,
  all_below, all_below-elim,
}
use uotan_riscv_emu_ng.Core.Trap.{Trap, priv_s}
use uotan_riscv_emu_ng.Base.Word.{not64}
use uotan_riscv_emu_ng.Base.Digits.{
  digit, digit-or, digit-clear, digit-mul, digit-ge, digit-set, digit-reset, truthy-digit,
}
use uotan_riscv_emu_ng.Core.Mstatus
use uotan_riscv_emu_ng.Core.State.{Hart}
use uotan_riscv_emu_ng.Core.Csr.{mstatus_read, mstatus_write, sstatus_read, sstatus_write}
use uotan_riscv_emu_ng.Core.Csr.Status
use uotan_riscv_emu_ng.Core.Interrupts.{
  put_bit, mstatus_on_entry, sstatus_on_entry, trap_to_m, trap_to_s,
}

pub put_bit-digit :
    (n k v : ℕ) (on : Bool)
    → k < 64
    → n < 64
    → digit (put_bit (2 ^ n) on v) k ≡ (if k == n then of_bool on else digit v k)
put_bit-digit n k v on h l = ground (arith, digit-set n k v, digit-reset n k v h l)

pub mpp_mask-digit : (k : ℕ) → digit Mstatus.mpp k ≡ of_bool (k == 11 || k == 12)
mpp_mask-digit k = ground (arith, digit-mul 11 k 3, digit-ge 2 3 (k - 11) (omega arith))

mpp_value-digit :
    (k priv : ℕ)
    → priv < 4
    → digit (priv * 2 ^ 11) k ≡ (if k == 11 then priv % 2 else if k == 12 then priv / 2 else 0)
mpp_value-digit k priv p = ground (arith, digit-mul 11 k priv, digit-ge 2 priv (k - 11) p)

-- MPP is replaced by a privilege.
mpp_put-digit :
    (k priv m : ℕ)
    → k < 64
    → priv < 4
    → digit (bit_or (bit_and m (not64 Mstatus.mpp)) (priv * 2 ^ 11)) k
      ≡ (if k == 11 then priv % 2 else if k == 12 then priv / 2 else digit m k)
mpp_put-digit k priv m h p = ground (
  arith,
  digit-or k (bit_and m (not64 Mstatus.mpp)) (priv * 2 ^ 11),
  mpp_value-digit k priv p,
  digit-clear k m Mstatus.mpp h (omega arith),
  mpp_mask-digit k,
)

-- What the digits MIE, MPIE and MPP become.
abbrev pub entered_m : ℕ → ℕ → ℕ → ℕ
entered_m priv m k =
    if k == 3 then 0 else if k == 7 then digit m 3 else if k == 11 then priv % 2 else priv / 2

-- The digits of MSTATUS on entry to M-mode.
pub mstatus_on_entry-digit :
    (k priv m : ℕ)
    → k < 64
    → priv < 4
    → digit (mstatus_on_entry priv m) k
      ≡ (if k == 3 || k == 7 || k == 11 || k == 12 then entered_m priv m k else digit m k)
unfolding mstatus_on_entry
mstatus_on_entry-digit k priv m h p = ground (
  arith,
  digit-reset 3 k (bit_or (bit_and m1 (not64 Mstatus.mpp)) (priv * 2 ^ 11)) h (omega arith),
  mpp_put-digit k priv m1 h p,
  put_bit-digit 7 k m mie_on h (omega arith),
  truthy-digit 3 m,
)
  where
    mie_on : Bool
    mie_on = truthy (bit_and m Mstatus.mie)

    m1 : ℕ
    m1 = put_bit Mstatus.mpie mie_on m

trap_to_m-mstatus :
    (t : Trap) (h : Hart)
    → (trap_to_m t h).csrs.mstatus
      ≡ (mstatus_write (mstatus_on_entry h.priv (mstatus_read h.csrs)) h.csrs).mstatus
unfolding trap_to_m
trap_to_m-mstatus t h = refl

entry_table :
    all_below 63 (λ k.
      leb (of_bool (k == 3 || k == 7 || k == 11 || k == 12)) (digit Mstatus.write_mask k)
      && leb (of_bool (k == 1 || k == 5 || k == 8)) (digit Mstatus.sstatus_write_mask k))
    ≡ true
unfolding all_below
entry_table = refl

-- The fields that an entry sets are writable.
pub entry_writable :
    (k : ℕ)
    → k < 63
    → (of_bool (k == 3 || k == 7 || k == 11 || k == 12) ≤ digit Mstatus.write_mask k)
      × (of_bool (k == 1 || k == 5 || k == 8) ≤ digit Mstatus.sstatus_write_mask k)
entry_writable k h = ground (arith, all_below-elim 63 _ k entry_table h)

-- From a privilege below 4, a trap to M-mode stacks MIE in MPIE and the old privilege in MPP, clears
-- MIE, and leaves the other digits of MSTATUS below SD as they were.
pub trap_to_m-digit :
    (k : ℕ) (t : Trap) (h : Hart)
    → k < 63
    → h.priv < 4
    → digit (trap_to_m t h).csrs.mstatus k ≡ (
        if k == 3 || k == 7 || k == 11 || k == 12
        then entered_m h.priv h.csrs.mstatus k
        else digit h.csrs.mstatus k)
trap_to_m-digit k t h l p =
    ap (λ (t : ℕ). digit t k) (trap_to_m-mstatus t h)
    ∙ Status.mstatus_update k (mstatus_on_entry h.priv (mstatus_read h.csrs)) _ _ h.csrs l
        (rw (mstatus_on_entry-digit k h.priv (mstatus_read h.csrs) (omega arith) p)
          (ground (arith, Status.mstatus_read-digit 3 h.csrs)))
        (entry_writable k l).0

-- What the digits SIE, SPIE and SPP become.
abbrev pub entered_s : ℕ → ℕ → ℕ → ℕ
entered_s priv s k = if k == 1 then 0 else if k == 5 then digit s 1 else of_bool (leb priv_s priv)

-- The digits of SSTATUS on entry to S-mode.
sstatus_on_entry-digit :
    (k priv s : ℕ)
    → k < 64
    → digit (sstatus_on_entry priv s) k
      ≡ (if k == 1 || k == 5 || k == 8 then entered_s priv s k else digit s k)
unfolding sstatus_on_entry
sstatus_on_entry-digit k priv s h = ground (
  arith,
  digit-reset 1 k s2 h (omega arith),
  put_bit-digit 8 k s1 (leb priv_s priv) h (omega arith),
  put_bit-digit 5 k s sie_on h (omega arith),
  truthy-digit 1 s,
)
  where
    sie_on : Bool
    sie_on = truthy (bit_and s Mstatus.sie)

    s1 : ℕ
    s1 = put_bit Mstatus.spie sie_on s

    s2 : ℕ
    s2 = put_bit Mstatus.spp (leb priv_s priv) s1

trap_to_s-mstatus :
    (t : Trap) (h : Hart)
    → (trap_to_s t h).csrs.mstatus
      ≡ (sstatus_write (sstatus_on_entry h.priv (sstatus_read h.csrs)) h.csrs).mstatus
unfolding trap_to_s
trap_to_s-mstatus t h = refl

-- A trap to S-mode stacks SIE in SPIE and in SPP whether it came from U-mode, clears SIE, and
-- leaves the other digits of MSTATUS below SD as they were.
pub trap_to_s-digit :
    (k : ℕ) (t : Trap) (h : Hart)
    → k < 63
    → digit (trap_to_s t h).csrs.mstatus k ≡ (
        if k == 1 || k == 5 || k == 8
        then entered_s h.priv h.csrs.mstatus k
        else digit h.csrs.mstatus k)
trap_to_s-digit k t h l =
    ap (λ (t : ℕ). digit t k) (trap_to_s-mstatus t h)
    ∙ Status.sstatus_update k (sstatus_on_entry h.priv (sstatus_read h.csrs)) _ _ h.csrs l
        (rw (sstatus_on_entry-digit k h.priv (sstatus_read h.csrs) (omega arith))
          (ground (arith, Status.sstatus_read-digit 1 h.csrs, Status.mstatus_read-digit 1 h.csrs)))
        (entry_writable k l).1
