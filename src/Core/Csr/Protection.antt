-- ===== src/Core/Csr/Protection.antt =====
-- What the address of a CSR says about its access: `csrs` and the `check_permissions`,
-- `read_checked` and `write_checked` members of include/core/hart.hpp and src/core/hart.cpp.
use uotan_riscv_emu_ng.Base.{ℕ, ◌%◌, ◌/◌, ◌<◌, ◌≡◌, refl, Bool, true, false, List, [], ◌∷◌}
use uotan_riscv_emu_ng.Base.{◌==◌, if◌then◌else◌, not, ◌&&◌, ◌||◌, arith}
use uotan_riscv_emu_ng.Core.Trap.{ok}
use uotan_riscv_emu_ng.Core.State.{Hart}
use uotan_riscv_emu_ng.Core.Csr.{
  Csr, unimplemented, mvendorid, marchid, mimpid, mhartid, mconfigptr, cycle, time, instret,
  hpmcounter,
}
use uotan_riscv_emu_ng.Core.Csr.Access.{
  single_csrs, ranged_csr, find_csr, csr_at, min_priv, check_permissions, satp_permitted,
  stimecmp_permitted, illegal, read_checked, write_checked,
}

all_entries : (ℕ → Csr → Bool) → List (ℕ × Csr) → Bool
all_entries p [] = true
all_entries p ((a, r) ∷ rest) = p a r && all_entries p rest

find_csr-all :
    (p : ℕ → Csr → Bool) (a : ℕ) (l : List (ℕ × Csr))
    → all_entries p l ≡ true
    → p a (ranged_csr a) ≡ true
    → p a (find_csr a l) ≡ true
unfolding all_entries find_csr
find_csr-all p a [] h r = r
find_csr-all p a ((b, c) ∷ rest) h r = ground (arith, find_csr-all p a rest)

abbrev is_unimplemented : Csr → Bool
is_unimplemented unimplemented = true
is_unimplemented _ = false

-- The classes whose writes always trap.
abbrev is_read_only : Csr → Bool
is_read_only unimplemented = true
is_read_only mvendorid = true
is_read_only marchid = true
is_read_only mimpid = true
is_read_only mhartid = true
is_read_only mconfigptr = true
is_read_only cycle = true
is_read_only time = true
is_read_only instret = true
is_read_only (hpmcounter address) = true
is_read_only _ = false

-- What the address says: bits 8 and 9 the lowest privilege, bits 10 and 11 whether it is read-only.
fits_address : ℕ → Csr → Bool
unfolding min_priv
fits_address a r =
    is_unimplemented r
    || (min_priv r == a / 256 % 4
        && (if a / 1024 % 4 == 3 then is_read_only r else not (is_read_only r)))

singles_fit : all_entries fits_address single_csrs ≡ true
unfolding all_entries fits_address
singles_fit = refl

ranged_fits : (a : ℕ) → fits_address a (ranged_csr a) ≡ true
unfolding ranged_csr fits_address
ranged_fits a = ground arith

csr_at-fits_address : (a : ℕ) → fits_address a (csr_at a) ≡ true
unfolding csr_at
csr_at-fits_address a = find_csr-all fits_address a single_csrs singles_fit (ranged_fits a)

fits-priv :
    (a : ℕ) (r : Csr)
    → fits_address a r ≡ true
    → is_unimplemented r ≡ false
    → min_priv r ≡ a / 256 % 4
unfolding fits_address
fits-priv a r f e = ground arith

fits-read_only :
    (a : ℕ) (r : Csr) → fits_address a r ≡ true → a / 1024 % 4 ≡ 3 → is_read_only r ≡ true
unfolding fits_address
fits-read_only a r f e = ground arith

unimplemented-read_only : (r : Csr) → is_unimplemented r ≡ true → is_read_only r ≡ true
unimplemented-read_only r e = ground arith

check_permissions-min_priv :
    (r : Csr) (h : Hart) → h.priv < min_priv r → check_permissions r h ≡ false
unfolding check_permissions min_priv stimecmp_permitted satp_permitted
check_permissions-min_priv r h l = ground arith

module _ (pc insn : ℕ) where
  read_checked_lem :
      (r : Csr) (h : Hart)
      → is_unimplemented r || not (check_permissions r h) ≡ true
      → read_checked pc insn r h ≡ illegal pc insn h
  unfolding read_checked
  read_checked_lem r h e = ground arith

  write_checked_lem :
      (r : Csr) (v : ℕ) (h : Hart)
      → is_read_only r || not (check_permissions r h) ≡ true
      → write_checked pc insn r v h ≡ illegal pc insn h
  unfolding write_checked
  write_checked_lem r v h e = ground arith

  write_checked_ok :
      (r : Csr) (v : ℕ) (h : Hart)
      → is_read_only r || not (check_permissions r h) ≡ false
      → (write_checked pc insn r v h).0 ≡ ok tt
  unfolding write_checked
  write_checked_ok r v h e = ground arith

  -- At an address whose bits 8 and 9 are above the hart's privilege, a read and a write both raise
  -- an illegal instruction and leave the hart as it was.
  pub checked-privilege :
      (a v : ℕ) (h : Hart)
      → h.priv < a / 256 % 4
      → (read_checked pc insn (csr_at a) h ≡ illegal pc insn h)
        × (write_checked pc insn (csr_at a) v h ≡ illegal pc insn h)
  checked-privilege a v h l = (
    read_checked_lem r h (ground (arith, refused)),
    write_checked_lem r v h (ground (arith, refused, unimplemented-read_only r)),
  )
    where
      r : Csr
      r = csr_at a

      refused : is_unimplemented r ≡ false → check_permissions r h ≡ false
      refused e = check_permissions-min_priv r h (rw (fits-priv a r (csr_at-fits_address a) e) l)

  -- A write at an address whose bits 10 and 11 are set raises an illegal instruction and leaves the
  -- hart as it was, at every privilege.
  pub write_checked-read_only :
      (a v : ℕ) (h : Hart)
      → a / 1024 % 4 ≡ 3
      → write_checked pc insn (csr_at a) v h ≡ illegal pc insn h
  write_checked-read_only a v h e = write_checked_lem (csr_at a) v h (ground (arith, read_only))
    where
      read_only : is_read_only (csr_at a) ≡ true
      read_only = fits-read_only a (csr_at a) (csr_at-fits_address a) e
