-- ===== src/Core/Csr/Status.antt =====
-- What a write of MSTATUS or SSTATUS changes, digit by digit: `MSTATUS::write_unchecked` and
-- `SSTATUS::write_unchecked` of include/core/hart.hpp.
use uotan_riscv_emu_ng.Base.{Bool, leb→le, ℕ, ◌/◌, ◌%◌, ◌^◌, ◌≤◌, ◌<◌, min, ◌≡◌, refl, ◌∙◌}
use uotan_riscv_emu_ng.Base.{
  bit_and, bit_or, ◌==◌, if◌then◌else◌, of_bool, arith, true, ◌&&◌, leb, all_below, all_below-elim,
}
use uotan_riscv_emu_ng.Base.Bits
use uotan_riscv_emu_ng.Base.Word.{not64}
use uotan_riscv_emu_ng.Base.Digits.{digit, digit-and, digit-or, digit-clear, digit-pow}
use uotan_riscv_emu_ng.Core.Mstatus
use uotan_riscv_emu_ng.Core.State.{Csrs}
use uotan_riscv_emu_ng.Core.Csr.{with_sd, mstatus_read, mstatus_write, sstatus_read, sstatus_write}

-- `(v & ~mask) | (w & mask)` takes the digits of the mask from `w`.
pub digit-merge :
    (k v w mask : ℕ)
    → k < 64
    → mask < 2 ^ 64
    → digit (bit_or (bit_and v (not64 mask)) (bit_and w mask)) k
      ≡ (if digit mask k == 1 then digit w k else digit v k)
digit-merge k v w mask h l = ground (
  arith,
  digit-or k (bit_and v (not64 mask)) (bit_and w mask),
  digit-clear k v mask h l,
  digit-and k w mask,
)

with_sd-digit : (k v : ℕ) → k < 63 → digit (with_sd v) k ≡ digit v k
unfolding with_sd
with_sd-digit k v h = ground (
  arith,
  digit-or k v Mstatus.sd,
  digit-clear k v Mstatus.sd (omega arith) (omega arith),
  digit-pow 63 k,
)

-- Of the digits below SD, a write of MSTATUS changes the writable ones, and only those.
pub mstatus_write-masked :
    (k v : ℕ) (c : Csrs)
    → k < 63
    → digit (mstatus_write v c).mstatus k
      ≡ (if digit Mstatus.write_mask k == 1 then digit v k else digit c.mstatus k)
unfolding mstatus_write
mstatus_write-masked k v c h =
    with_sd-digit k _ h ∙ digit-merge k c.mstatus v Mstatus.write_mask (omega arith) (omega arith)

-- The FS field of a number.
abbrev pub fs_of : ℕ → ℕ
fs_of v = v / 2 ^ 13 % 4

fs_field : (v : ℕ) → bit_and v Mstatus.fs / 2 ^ 13 ≡ fs_of v
fs_field v = omega (
  arith,
  digit-and 13 v Mstatus.fs,
  digit-and 14 v Mstatus.fs,
  Bits.bit_and-lt 15 v Mstatus.fs (omega arith),
)

sd_from_fs : (v : ℕ) → digit (with_sd v) 63 ≡ of_bool (fs_of v == 3)
unfolding with_sd
sd_from_fs v = ground (
  arith,
  fs_field v,
  digit-or 63 v Mstatus.sd,
  digit-clear 63 v Mstatus.sd (omega arith) (omega arith),
)

fs_of-with_sd : (v : ℕ) → fs_of (with_sd v) ≡ fs_of v
fs_of-with_sd v = omega (arith, with_sd-digit 13 v (omega arith), with_sd-digit 14 v (omega arith))

-- SD is set exactly if FS says dirty.
pub with_sd-sd : (v : ℕ) → digit (with_sd v) 63 ≡ of_bool (fs_of (with_sd v) == 3)
with_sd-sd v = rw (fs_of-with_sd v) (sd_from_fs v)

-- A read of MSTATUS gives the stored digits that the read mask lets through.
pub mstatus_read-digit :
    (k : ℕ) (c : Csrs)
    → digit (mstatus_read c) k ≡ min (digit c.mstatus k) (digit Mstatus.read_mask k)
unfolding mstatus_read
mstatus_read-digit k c = digit-and k c.mstatus Mstatus.read_mask

mask_table :
    all_below 63 (λ k.
      leb (digit Mstatus.sstatus_write_mask k) (digit Mstatus.write_mask k)
      && leb (digit Mstatus.write_mask k) (digit Mstatus.read_mask k))
    ≡ true
unfolding all_below
mask_table = refl

-- What S-mode may write M-mode may write, and what may be written may be read.
pub masks_nested :
    (k : ℕ)
    → k < 63
    → (digit Mstatus.sstatus_write_mask k ≤ digit Mstatus.write_mask k)
      × (digit Mstatus.write_mask k ≤ digit Mstatus.read_mask k)
masks_nested k h = ground (arith, all_below-elim 63 _ k mask_table h)

-- What `SSTATUS::write_unchecked` hands to MSTATUS.
abbrev pub sstatus_merged : ℕ → Csrs → ℕ
sstatus_merged v c =
    bit_or (bit_and (mstatus_read c) (not64 Mstatus.sstatus_write_mask))
      (bit_and v Mstatus.sstatus_write_mask)

pub sstatus_write_lem :
    (v : ℕ) (c : Csrs) → sstatus_write v c ≡ mstatus_write (sstatus_merged v c) c
unfolding sstatus_write
sstatus_write_lem v c = refl

-- A write of SSTATUS changes the digits of MSTATUS that S-mode may write, and no other below SD.
pub sstatus_write-masked :
    (k v : ℕ) (c : Csrs)
    → k < 63
    → digit (sstatus_write v c).mstatus k
      ≡ (if digit Mstatus.sstatus_write_mask k == 1 then digit v k else digit c.mstatus k)
sstatus_write-masked k v c h = ground (
  arith,
  sstatus_write_lem v c,
  mstatus_write-masked k (sstatus_merged v c) c h,
  digit-merge k (mstatus_read c) v Mstatus.sstatus_write_mask (omega arith) (omega arith),
  mstatus_read-digit k c,
  masks_nested k h,
)

pub mstatus_write-sd :
    (v : ℕ) (c : Csrs)
    → digit (mstatus_write v c).mstatus 63 ≡ of_bool (fs_of (mstatus_write v c).mstatus == 3)
unfolding mstatus_write
mstatus_write-sd v c = with_sd-sd _

-- A value read from MSTATUS, changed at writable digits and written back, changes just those.
pub mstatus_update :
    (k v x : ℕ) (changed : Bool) (c : Csrs)
    → k < 63
    → digit v k ≡ (if changed then x else digit (mstatus_read c) k)
    → of_bool changed ≤ digit Mstatus.write_mask k
    → digit (mstatus_write v c).mstatus k ≡ (if changed then x else digit c.mstatus k)
mstatus_update k v x changed c h e w =
    ground (arith, mstatus_write-masked k v c h, mstatus_read-digit k c, masks_nested k h)

pub sstatus_read-digit :
    (k : ℕ) (c : Csrs)
    → digit (sstatus_read c) k ≡ min (digit (mstatus_read c) k) (digit Mstatus.sstatus_read_mask k)
unfolding sstatus_read
sstatus_read-digit k c = digit-and k (mstatus_read c) Mstatus.sstatus_read_mask

sstatus_table :
    all_below 63 (λ k. leb (digit Mstatus.sstatus_write_mask k) (digit Mstatus.sstatus_read_mask k))
    ≡ true
unfolding all_below
sstatus_table = refl

sstatus_readable :
    (k : ℕ) → k < 63 → digit Mstatus.sstatus_write_mask k ≤ digit Mstatus.sstatus_read_mask k
sstatus_readable k h = leb→le _ _ (all_below-elim 63 _ k sstatus_table h)

-- The same for SSTATUS.
pub sstatus_update :
    (k v x : ℕ) (changed : Bool) (c : Csrs)
    → k < 63
    → digit v k ≡ (if changed then x else digit (sstatus_read c) k)
    → of_bool changed ≤ digit Mstatus.sstatus_write_mask k
    → digit (sstatus_write v c).mstatus k ≡ (if changed then x else digit c.mstatus k)
sstatus_update k v x changed c h e w = ground (
  arith,
  sstatus_write-masked k v c h,
  sstatus_read-digit k c,
  mstatus_read-digit k c,
  masks_nested k h,
  sstatus_readable k h,
)
