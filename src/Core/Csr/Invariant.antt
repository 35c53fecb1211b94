-- ===== src/Core/Csr/Invariant.antt =====
-- What always holds of the stored CSRs, and that every write keeps it: the `write_unchecked`
-- members of include/core/hart.hpp and src/core/hart.cpp.
use uotan_riscv_emu_ng.Base.{ℕ, ◌/◌, ◌%◌, ◌^◌, ◌<◌, ◌≡◌, refl, ◌⊎◌, inl}
use uotan_riscv_emu_ng.Base.{bit_and, ◌==◌, of_bool, arith}
use uotan_riscv_emu_ng.Base.Bits
use uotan_riscv_emu_ng.Base.Digits.{digit, digit-and, digit-reset}
use uotan_riscv_emu_ng.Core.Mip
use uotan_riscv_emu_ng.Core.State.{Csrs, reset, initial_csrs}
use uotan_riscv_emu_ng.Core.Csr.{
  Csr, misa, sstatus, mtvec, stvec, medeleg, mideleg, fflags, frm, fcsr, mstatus_write,
  sstatus_write, tvec_value, medeleg_mask, satp_mode, with_value,
}
use uotan_riscv_emu_ng.Core.Csr.Status

-- UXL and SXL say 64 bits, and SD says whether FS is dirty.
abbrev pub StatusIsValid : ℕ → Type 0
StatusIsValid m = (m / 2 ^ 32 % 16 ≡ 10) × (digit m 63 ≡ of_bool (Status.fs_of m == 3))

abbrev pub TvecIsValid : ℕ → Type 0
TvecIsValid v = digit v 1 ≡ 0

-- An environment call from M-mode and the reserved double trap are never delegated.
abbrev pub MedelegIsValid : ℕ → Type 0
MedelegIsValid v = (digit v 11 ≡ 0) × (digit v 16 ≡ 0)

-- No interrupt of M-mode is delegated.
abbrev pub MidelegIsValid : ℕ → Type 0
MidelegIsValid v = (digit v 3 ≡ 0) × (digit v 7 ≡ 0) × (digit v 11 ≡ 0)

-- The translation mode is Bare or Sv39.
abbrev pub SatpIsValid : ℕ → Type 0
SatpIsValid v = (satp_mode v ≡ 0) ⊎ (satp_mode v ≡ 8)

pub record IsValid (c : Csrs) : Type 0 where
  pub status : StatusIsValid c.mstatus
  pub mtvec_mode : TvecIsValid c.mtvec
  pub stvec_mode : TvecIsValid c.stvec
  pub medeleg_bits : MedelegIsValid c.medeleg
  pub mideleg_bits : MidelegIsValid c.mideleg
  pub satp_known : SatpIsValid c.satp
  pub fflags_range : c.fflags < 2 ^ 5
  pub frm_range : c.frm < 2 ^ 3

pub reset-IsValid : (pc : ℕ) → IsValid (reset pc).csrs
unfolding reset initial_csrs
reset-IsValid pc = record {
  status = (refl, refl);
  mtvec_mode = refl;
  stvec_mode = refl;
  medeleg_bits = (refl, refl);
  mideleg_bits = (refl, refl, refl);
  satp_known = inl refl;
  fflags_range = omega arith;
  frm_range = omega arith;
}

status_write :
    (v : ℕ) (c : Csrs) → StatusIsValid c.mstatus → StatusIsValid (mstatus_write v c).mstatus
status_write v c s = (lengths, Status.mstatus_write-sd v c)
  where
    lengths : (mstatus_write v c).mstatus / 2 ^ 32 % 16 ≡ 10
    lengths = omega (
      arith,
      s.0,
      Status.mstatus_write-masked 32 v c (omega arith),
      Status.mstatus_write-masked 33 v c (omega arith),
      Status.mstatus_write-masked 34 v c (omega arith),
      Status.mstatus_write-masked 35 v c (omega arith),
    )

status_kept :
    (r : Csr) (v : ℕ) (c : Csrs)
    → StatusIsValid c.mstatus
    → StatusIsValid (with_value r v c).mstatus
unfolding with_value sstatus_write
status_kept Csr.mstatus v c s = status_write v c s
status_kept sstatus v c s = status_write _ c s
status_kept r v c s = s

tvec_clear : (v : ℕ) → TvecIsValid (tvec_value v)
unfolding tvec_value
tvec_clear v = digit-reset 1 1 v (omega arith) (omega arith)

mtvec_kept :
    (r : Csr) (v : ℕ) (c : Csrs) → TvecIsValid c.mtvec → TvecIsValid (with_value r v c).mtvec
unfolding with_value
mtvec_kept mtvec v c s = tvec_clear v
mtvec_kept r v c s = s

stvec_kept :
    (r : Csr) (v : ℕ) (c : Csrs) → TvecIsValid c.stvec → TvecIsValid (with_value r v c).stvec
unfolding with_value
stvec_kept stvec v c s = tvec_clear v
stvec_kept r v c s = s

medeleg_kept :
    (r : Csr) (v : ℕ) (c : Csrs)
    → MedelegIsValid c.medeleg
    → MedelegIsValid (with_value r v c).medeleg
unfolding with_value
medeleg_kept medeleg v c s =
    (omega (arith, digit-and 11 v medeleg_mask), omega (arith, digit-and 16 v medeleg_mask))
medeleg_kept r v c s = s

mideleg_kept :
    (r : Csr) (v : ℕ) (c : Csrs)
    → MidelegIsValid c.mideleg
    → MidelegIsValid (with_value r v c).mideleg
unfolding with_value
mideleg_kept mideleg v c s = (
  omega (arith, digit-and 3 v Mip.supervisor),
  omega (arith, digit-and 7 v Mip.supervisor),
  omega (arith, digit-and 11 v Mip.supervisor),
)
mideleg_kept r v c s = s

satp_kept : (r : Csr) (v : ℕ) (c : Csrs) → SatpIsValid c.satp → SatpIsValid (with_value r v c).satp
unfolding with_value
satp_kept misa v c s = s
satp_kept r v c s = s

fflags_kept : (r : Csr) (v : ℕ) (c : Csrs) → c.fflags < 2 ^ 5 → (with_value r v c).fflags < 2 ^ 5
unfolding with_value
fflags_kept fflags v c s = Bits.bit_and-lt 5 v 0b11111 (omega arith)
fflags_kept fcsr v c s = Bits.bit_and-lt 5 (bit_and v 0b11111) 0b11111 (omega arith)
fflags_kept r v c s = s

frm_kept : (r : Csr) (v : ℕ) (c : Csrs) → c.frm < 2 ^ 3 → (with_value r v c).frm < 2 ^ 3
unfolding with_value
frm_kept frm v c s = Bits.bit_and-lt 3 v 0b111 (omega arith)
frm_kept fcsr v c s = Bits.bit_and-lt 3 (bit_and (v / 2 ^ 5) 0b111) 0b111 (omega arith)
frm_kept r v c s = s

pub with_value-IsValid : (r : Csr) (v : ℕ) (c : Csrs) → IsValid c → IsValid (with_value r v c)
with_value-IsValid r v c i = record {
  status = status_kept r v c i.status;
  mtvec_mode = mtvec_kept r v c i.mtvec_mode;
  stvec_mode = stvec_kept r v c i.stvec_mode;
  medeleg_bits = medeleg_kept r v c i.medeleg_bits;
  mideleg_bits = mideleg_kept r v c i.mideleg_bits;
  satp_known = satp_kept r v c i.satp_known;
  fflags_range = fflags_kept r v c i.fflags_range;
  frm_range = frm_kept r v c i.frm_range;
}
