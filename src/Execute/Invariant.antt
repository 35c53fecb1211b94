-- ===== src/Execute/Invariant.antt =====
-- The CSR instructions keep what always holds of the CSRs, however they end: `exec_csrrw` and its
-- kin of src/core/execute.cpp, over the checked accesses of include/core/hart.hpp.
use uotan_riscv_emu_ng.Base.{ℕ, Bool, true, false, ◌==◌, if◌then◌else◌, truthy, bit_and, bit_or}
use uotan_riscv_emu_ng.Base.Word.{not64}
use uotan_riscv_emu_ng.Core.Mstatus
use uotan_riscv_emu_ng.Core.Trap.{Trap, Result, ok, trap, wfi_wait, terminate}
use uotan_riscv_emu_ng.Core.Monad.{M, after, ◌>>=◌, ◌>>◌, get, modify, raise_if, when}
use uotan_riscv_emu_ng.Core.State.{Hart, write_gpr, read_gpr}
use uotan_riscv_emu_ng.Core.Csr.{
  Csr, mstatus_read, fflags, minstret, unimplemented, mvendorid, marchid, mimpid, mhartid,
  mconfigptr, cycle, time, instret, hpmcounter, frm, fcsr, write_unchecked, with_value,
}
use uotan_riscv_emu_ng.Core.Csr.Access.{
  csr_at, read_checked, write_checked, base_write_checked, fp_write_checked,
}
use uotan_riscv_emu_ng.Core.Csr.Invariant.{IsValid, with_value-IsValid}
use uotan_riscv_emu_ng.Core.Csr.Preservation.{
  suppressed-IsValid, read_unchecked-IsValid, write_unchecked-IsValid,
}
use uotan_riscv_emu_ng.Execute.System.{zimm_of, exec_zicsr}
use uotan_riscv_emu_ng.Decoder.Names.{
  DecodedInsn, Zicsr, csrrc, csrrci, csrrs, csrrsi, csrrw, csrrwi,
}

-- A computation keeps the invariant, however it ends.
abbrev pub Keeps : {A : Type 0} → M Hart A → Type 0
Keeps m = (h : Hart) → IsValid h.csrs → IsValid (m h).1.csrs

after-Keeps :
    {A B : Type 0} (f : A → M Hart B) (r : Result A) (h : Hart)
    → ((a : A) → Keeps (f a))
    → IsValid h.csrs
    → IsValid (after f r h).1.csrs
after-Keeps f (ok a) h k i = k a h i
after-Keeps f (trap t) h k i = i
after-Keeps f wfi_wait h k i = i
after-Keeps f terminate h k i = i

pub bind-Keeps :
    {A B : Type 0} (m : M Hart A) (f : A → M Hart B)
    → Keeps m
    → ((a : A) → Keeps (f a))
    → Keeps (m >>= f)
bind-Keeps m f k l h i = after-Keeps f (m h).0 (m h).1 l (k h i)

when-Keeps : (b : Bool) (m : M Hart (Unit {0})) → Keeps m → Keeps (when b m)
when-Keeps true m k h i = k h i
when-Keeps false m k h i = i

pub raise_if-Keeps : (b : Bool) (t : Trap) → Keeps (raise_if b t)
raise_if-Keeps true t h i = i
raise_if-Keeps false t h i = i

pub if-Keeps :
    {A : Type 0} (b : Bool) (m n : M Hart A) → Keeps m → Keeps n → Keeps (if b then m else n)
if-Keeps true m n k l = k
if-Keeps false m n k l = l

pub choose-IsValid :
    {A : Type 0} (b : Bool) (x y : Result A × Hart)
    → IsValid x.1.csrs
    → IsValid y.1.csrs
    → IsValid (if b then x else y).1.csrs
choose-IsValid true x y i j = i
choose-IsValid false x y i j = j

module _ (pc insn : ℕ) where
  read_checked-Keeps : (r : Csr) → Keeps (read_checked pc insn r)
  unfolding read_checked
  read_checked-Keeps unimplemented h i = i
  read_checked-Keeps r h i = choose-IsValid _ _ _ i (read_unchecked-IsValid r h i)

  base_write-Keeps : (r : Csr) (v : ℕ) → Keeps (base_write_checked pc insn r v)
  unfolding base_write_checked
  base_write-Keeps r v h i = choose-IsValid _ _ _ i (write_unchecked-IsValid r v h i)

  fp_write-Keeps : (r : Csr) (v : ℕ) → Keeps (fp_write_checked pc insn r v)
  unfolding fp_write_checked with_value
  fp_write-Keeps r v h i = choose-IsValid _ _ _ i (
      with_value-IsValid Csr.mstatus (bit_or (mstatus_read h'.csrs) Mstatus.fs) h'.csrs
        (write_unchecked-IsValid r v h i))
    where
      h' : Hart
      h' = write_unchecked r v h

  write_checked-Keeps : (r : Csr) (v : ℕ) → Keeps (write_checked pc insn r v)
  unfolding write_checked
  write_checked-Keeps unimplemented v h i = i
  write_checked-Keeps mvendorid v h i = i
  write_checked-Keeps marchid v h i = i
  write_checked-Keeps mimpid v h i = i
  write_checked-Keeps mhartid v h i = i
  write_checked-Keeps mconfigptr v h i = i
  write_checked-Keeps cycle v h i = i
  write_checked-Keeps time v h i = i
  write_checked-Keeps instret v h i = i
  write_checked-Keeps (hpmcounter address) v h i = i
  write_checked-Keeps minstret v h i =
      choose-IsValid _ _ _ i (suppressed-IsValid true _ (write_unchecked-IsValid minstret v h i))
  write_checked-Keeps fflags v h i = fp_write-Keeps fflags v h i
  write_checked-Keeps frm v h i = fp_write-Keeps frm v h i
  write_checked-Keeps fcsr v h i = fp_write-Keeps fcsr v h i
  write_checked-Keeps r v h i = base_write-Keeps r v h i

write_gpr-Keeps : (r v : ℕ) → Keeps (modify (write_gpr r v))
unfolding write_gpr
write_gpr-Keeps r v h i = if-Keeps' (r == 0) h _ i i
  where
    if-Keeps' :
        (b : Bool) (x y : Hart)
        → IsValid x.csrs
        → IsValid y.csrs
        → IsValid (if b then x else y).csrs
    if-Keeps' true x y i j = i
    if-Keeps' false x y i j = j

pub then-Keeps :
    {B : Type 0} (m : M Hart (Unit {0})) (n : M Hart B) → Keeps m → Keeps n → Keeps (m >> n)
then-Keeps m n k l = bind-Keeps m (λ _. n) k (λ _. l)

module _ (d : DecodedInsn) where
  abbrev reads : M Hart ℕ
  reads = read_checked d.pc d.insn (csr_at (bit_and d.imm 0xFFF))

  abbrev writes : ℕ → M Hart (Unit {0})
  writes v = write_checked d.pc d.insn (csr_at (bit_and d.imm 0xFFF)) v

  reads-Keeps : Keeps reads
  reads-Keeps = read_checked-Keeps d.pc d.insn (csr_at (bit_and d.imm 0xFFF))

  writes-Keeps : (v : ℕ) → Keeps (writes v)
  writes-Keeps v = write_checked-Keeps d.pc d.insn (csr_at (bit_and d.imm 0xFFF)) v

  -- A CSR instruction that writes what it read, changed, if its operand is not 0.
  update-Keeps :
      (b : Bool) (f : Hart → ℕ → ℕ)
      → Keeps (reads >>= λ t. get >>= λ h. when b (writes (f h t)) >> modify (write_gpr d.rd t))
  update-Keeps b f =
      bind-Keeps reads (λ t. get >>= λ h. when b (writes (f h t)) >> modify (write_gpr d.rd t))
        reads-Keeps
        λ t h.
          then-Keeps (when b (writes (f h t))) (modify (write_gpr d.rd t))
            (when-Keeps b (writes (f h t)) (writes-Keeps (f h t))) (write_gpr-Keeps d.rd t) h

  -- CSRRW: the register is read only for a destination.
  exchange-Keeps :
      Keeps (reads >>= λ t. get >>= λ h. writes (read_gpr d.rs1 h) >> modify (write_gpr d.rd t))
  exchange-Keeps =
      bind-Keeps reads (λ t. get >>= λ h. writes (read_gpr d.rs1 h) >> modify (write_gpr d.rd t))
        reads-Keeps
        λ t h.
          then-Keeps (writes (read_gpr d.rs1 h)) (modify (write_gpr d.rd t))
            (writes-Keeps (read_gpr d.rs1 h)) (write_gpr-Keeps d.rd t) h

  read_only-Keeps : Keeps (reads >>= λ t. modify (write_gpr d.rd t))
  read_only-Keeps =
      bind-Keeps reads (λ t. modify (write_gpr d.rd t)) reads-Keeps (write_gpr-Keeps d.rd)

  pub exec_zicsr-Keeps : (z : Zicsr) → Keeps (exec_zicsr d z)
  unfolding exec_zicsr
  exec_zicsr-Keeps csrrc h i =
      update-Keeps (truthy d.rs1) (λ h t. bit_and t (not64 (read_gpr d.rs1 h))) _ i
  exec_zicsr-Keeps csrrci h i =
      update-Keeps (truthy (zimm_of d)) (λ h t. bit_and t (not64 (zimm_of d))) _ i
  exec_zicsr-Keeps csrrs h i = update-Keeps (truthy d.rs1) (λ h t. bit_or t (read_gpr d.rs1 h)) _ i
  exec_zicsr-Keeps csrrsi h i = update-Keeps (truthy (zimm_of d)) (λ h t. bit_or t (zimm_of d)) _ i
  exec_zicsr-Keeps csrrw h i =
      if-Keeps (truthy d.rd)
        (reads >>= λ t. get >>= λ h. writes (read_gpr d.rs1 h) >> modify (write_gpr d.rd t))
        (get >>= λ h. writes (read_gpr d.rs1 h)) exchange-Keeps
        (λ h. writes-Keeps (read_gpr d.rs1 h) h) _ i
  exec_zicsr-Keeps csrrwi h i =
      then-Keeps (when (truthy d.rd) (reads >>= λ t. modify (write_gpr d.rd t)))
        (writes (zimm_of d))
        (when-Keeps (truthy d.rd) (reads >>= λ t. modify (write_gpr d.rd t)) read_only-Keeps)
        (writes-Keeps (zimm_of d)) _ i
