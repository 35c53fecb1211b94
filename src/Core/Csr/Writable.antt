-- ===== src/Core/Csr/Writable.antt =====
-- Every digit of MSTATUS after a write of MSTATUS or SSTATUS, by the layout that the manual gives:
-- `MSTATUS::write_unchecked` and `SSTATUS::write_unchecked` of include/core/hart.hpp.
use uotan_riscv_emu_ng.Base.{
  ℕ, ◌<◌, ◌≡◌, refl, List, [], ◌∷◌, Bool, true, false, ◌||◌, ◌==◌, if◌then◌else◌, of_bool, arith,
  all_below, all_below-elim, Bool-cases, inl, inr,
}
use uotan_riscv_emu_ng.Base.Digits.{digit}
use uotan_riscv_emu_ng.Core.Mstatus
use uotan_riscv_emu_ng.Core.State.{Csrs}
use uotan_riscv_emu_ng.Core.Csr.{mstatus_write, sstatus_write}
use uotan_riscv_emu_ng.Core.Csr.Status.{
  fs_of, mstatus_write-masked, sstatus_write-masked, mstatus_write-sd, sstatus_merged,
  sstatus_write_lem,
}

abbrev pub is_among : ℕ → List ℕ → Bool
is_among k [] = false
is_among k (x ∷ xs) = k == x || is_among k xs

-- SIE, MIE, SPIE, MPIE, SPP, MPP, FS, MPRV, SUM, MXR, TVM, TW and TSR.
abbrev pub machine_places : List ℕ
machine_places = 1 ∷ 3 ∷ 5 ∷ 7 ∷ 8 ∷ 11 ∷ 12 ∷ 13 ∷ 14 ∷ 17 ∷ 18 ∷ 19 ∷ 20 ∷ 21 ∷ 22 ∷ []

-- SIE, SPIE, SPP, FS, SUM and MXR.
abbrev pub supervisor_places : List ℕ
supervisor_places = 1 ∷ 5 ∷ 8 ∷ 13 ∷ 14 ∷ 18 ∷ 19 ∷ []

machine_table :
    all_below 63 (λ k. digit Mstatus.write_mask k == of_bool (is_among k machine_places)) ≡ true
unfolding all_below
machine_table = refl

supervisor_table :
    all_below 63 (λ k. digit Mstatus.sstatus_write_mask k == of_bool (is_among k supervisor_places))
    ≡ true
unfolding all_below
supervisor_table = refl

mstatus_write_lower :
    (k v : ℕ) (c : Csrs)
    → k < 63
    → digit (mstatus_write v c).mstatus k
      ≡ (if is_among k machine_places then digit v k else digit c.mstatus k)
mstatus_write_lower k v c h = ground (
  arith,
  mstatus_write-masked k v c h,
  all_below-elim 63 (λ (j : ℕ). digit Mstatus.write_mask j == of_bool (is_among j machine_places)) k
      machine_table h,
)

sstatus_write_lower :
    (k v : ℕ) (c : Csrs)
    → k < 63
    → digit (sstatus_write v c).mstatus k
      ≡ (if is_among k supervisor_places then digit v k else digit c.mstatus k)
sstatus_write_lower k v c h = ground (
  arith,
  sstatus_write-masked k v c h,
  all_below-elim 63
      (λ (j : ℕ). digit Mstatus.sstatus_write_mask j == of_bool (is_among j supervisor_places)) k
      supervisor_table h,
)

mstatus_write-fs_of : (v : ℕ) (c : Csrs) → fs_of (mstatus_write v c).mstatus ≡ fs_of v
mstatus_write-fs_of v c =
    omega
      (arith, mstatus_write_lower 13 v c (omega arith), mstatus_write_lower 14 v c (omega arith))

sstatus_write-fs_of : (v : ℕ) (c : Csrs) → fs_of (sstatus_write v c).mstatus ≡ fs_of v
sstatus_write-fs_of v c =
    omega
      (arith, sstatus_write_lower 13 v c (omega arith), sstatus_write_lower 14 v c (omega arith))

sstatus_write-sd :
    (v : ℕ) (c : Csrs)
    → digit (sstatus_write v c).mstatus 63 ≡ of_bool (fs_of (sstatus_write v c).mstatus == 3)
sstatus_write-sd v c = rw (sstatus_write_lem v c) (mstatus_write-sd (sstatus_merged v c) c)

-- After a write of MSTATUS, the digits of the fields that M-mode may write are those of the value, SD
-- says whether the value's FS is dirty, and every other digit of the 64 is as before.
pub mstatus_write-digit :
    (k v : ℕ) (c : Csrs)
    → k < 64
    → digit (mstatus_write v c).mstatus k ≡ (
        if k == 63
        then of_bool (fs_of v == 3)
        else if is_among k machine_places
        then digit v k
        else digit c.mstatus k)
mstatus_write-digit k v c h = elim (Bool-cases (k == 63)) [
  | inl e ↦
      let top : k ≡ 63 = ground arith in
      rw (top, mstatus_write-sd v c, mstatus_write-fs_of v c) refl
  | inr e ↦ rw e (mstatus_write_lower k v c (ground arith))
]

-- After a write of SSTATUS, the digits of the fields of MSTATUS that S-mode may write are those of the
-- value, SD says whether the value's FS is dirty, and every other digit of the 64 is as before.
pub sstatus_write-digit :
    (k v : ℕ) (c : Csrs)
    → k < 64
    → digit (sstatus_write v c).mstatus k ≡ (
        if k == 63
        then of_bool (fs_of v == 3)
        else if is_among k supervisor_places
        then digit v k
        else digit c.mstatus k)
sstatus_write-digit k v c h = elim (Bool-cases (k == 63)) [
  | inl e ↦
      let top : k ≡ 63 = ground arith in
      rw (top, sstatus_write-sd v c, sstatus_write-fs_of v c) refl
  | inr e ↦ rw e (sstatus_write_lower k v c (ground arith))
]
