-- ===== src/Execute/Integer/Frame.antt =====
-- What an instruction of RV64I may change, and that it changes nothing when it traps:
-- src/core/execute.cpp.
use uotan_riscv_emu_ng.Base.{
  ℕ, List, ◌==◌, Bool, true, false, if◌then◌else◌, ◌≡◌, ◌≢◌, refl, ap, ◌∙◌, arith, get_or,
  get_or-set_ne, Bool-cases, inl, inr, ◌%◌, ◌^◌, bit_and, not, ltb, leb,
}
use uotan_riscv_emu_ng.Base.Word.{add64, not64, slt64}
use uotan_riscv_emu_ng.BitOps.{bits, sext}
use uotan_riscv_emu_ng.Core.Trap.{Result, ok, trap, wfi_wait, terminate}
use uotan_riscv_emu_ng.Core.Monad.{M, after, modify}
use uotan_riscv_emu_ng.Core.State.{Hart, read_gpr, write_gpr}
use uotan_riscv_emu_ng.Core.Memory.{Machine, Memory}
use uotan_riscv_emu_ng.Decoder.Names.{
  DecodedInsn, Rv64i, beq, bge, bgeu, blt, bltu, bne, fence, fence_i, jal, jalr, lb, lbu, ld, lh,
  lhu, lw, lwu, sb, sd, sh, sw,
}
use uotan_riscv_emu_ng.Execute.Integer.{
  exec_rv64i, set_rd, result, branch, load, store, address, r1, r2,
}

pub read_gpr-write_gpr_ne :
    (r s v : ℕ) (h : Hart) → r ≢ s → read_gpr s (write_gpr r v h) ≡ read_gpr s h
unfolding read_gpr write_gpr
read_gpr-write_gpr_ne r s v h n = elim (Bool-cases (r == 0)) [
  | inl e ↦ rw e refl
  | inr e ↦ rw e (ap (λ (t : ℕ). if s == 0 then 0 else t) (get_or-set_ne h.gprs r s v 0 n))
]

-- An instruction leaves the registers but `rd` alone.
abbrev pub FramesRegisters : {W : Type 0} → ℕ → M (Machine W) (Unit {0}) → Type 0
FramesRegisters rd c =
    (m : Machine _) (r : ℕ) → rd ≢ r → read_gpr r (c m).1.hart ≡ read_gpr r m.hart

abbrev pub traps : {A : Type 0} → Result A → Bool
traps (trap t) = true
traps _ = false

-- If it traps, it leaves the pc and every register alone.
abbrev pub IsPrecise : {W : Type 0} → M (Machine W) (Unit {0}) → Type 0
IsPrecise c =
    (m : Machine _)
    → traps (c m).0 ≡ true
    → ((c m).1.hart.gprs ≡ m.hart.gprs) × ((c m).1.hart.pc ≡ m.hart.pc)

same_gprs : (r : ℕ) (h h' : Hart) → h'.gprs ≡ h.gprs → read_gpr r h' ≡ read_gpr r h
unfolding read_gpr
same_gprs r h h' e = ap (λ (t : List ℕ). if r == 0 then 0 else get_or t r 0) e

module _ {W : Type 0} (mem : Memory W) (d : DecodedInsn) where
  result_frames : (f : Machine W → ℕ) → FramesRegisters d.rd (result mem d f)
  result_frames f m r n = read_gpr-write_gpr_ne d.rd r (f m) m.hart n

  branch_frames : (test : Machine W → Bool) → FramesRegisters d.rd (branch mem d test)
  branch_frames test m r n = elim (Bool-cases (test m)) [
    | inl e ↦ rw e (same_gprs r m.hart (record (m.hart) { pc = add64 d.pc d.imm }) refl)
    | inr e ↦ rw e refl
  ]

  loaded :
      (extend : ℕ → ℕ) (r : Result ℕ) (m' : Machine W) (s : ℕ)
      → d.rd ≢ s
      → read_gpr s (after (λ v. modify (set_rd mem d (extend v))) r m').1.hart ≡ read_gpr s m'.hart
  loaded extend (ok v) m' s n = read_gpr-write_gpr_ne d.rd s (extend v) m'.hart n
  loaded extend (trap t) m' s n = refl
  loaded extend wfi_wait m' s n = refl
  loaded extend terminate m' s n = refl

  load_frames : (size : ℕ) (extend : ℕ → ℕ) → FramesRegisters d.rd (load mem d size extend)
  load_frames size extend m r n =
      loaded extend read.0 read.1 r n
      ∙ same_gprs r m.hart read.1.hart (mem.read_gprs size d.pc (address mem d m) false m)
    where
      read : Result ℕ × Machine W
      read = mem.read_mem size d.pc (address mem d m) false m

  store_frames : (size : ℕ) (shorten : ℕ → ℕ) → FramesRegisters d.rd (store mem d size shorten)
  store_frames size shorten m r n =
      same_gprs r m.hart (mem.write_mem size d.pc (address mem d m) (shorten (r2 mem d m)) m).1.hart
        (mem.write_gprs size d.pc (address mem d m) (shorten (r2 mem d m)) m)

  no_trap : (f : Machine W → Machine W) → IsPrecise (modify f)
  no_trap f m e = absurd (ground arith)

  loaded_trap :
      (extend : ℕ → ℕ) (r : Result ℕ) (m' : Machine W)
      → traps (after (λ v. modify (set_rd mem d (extend v))) r m').0 ≡ true
      → (after (λ v. modify (set_rd mem d (extend v))) r m').1 ≡ m'
  loaded_trap extend (ok v) m' e = absurd (ground arith)
  loaded_trap extend (trap t) m' e = refl
  loaded_trap extend wfi_wait m' e = refl
  loaded_trap extend terminate m' e = refl

  load-IsPrecise : (size : ℕ) (extend : ℕ → ℕ) → IsPrecise (load mem d size extend)
  load-IsPrecise size extend m e = (
    ap (λ (t : Machine W). t.hart.gprs) unchanged
        ∙ mem.read_gprs size d.pc (address mem d m) false m,
    ap (λ (t : Machine W). t.hart.pc) unchanged ∙ mem.read_pc size d.pc (address mem d m) false m,
  )
    where
      read : Result ℕ × Machine W
      read = mem.read_mem size d.pc (address mem d m) false m

      unchanged : (load mem d size extend m).1 ≡ read.1
      unchanged = loaded_trap extend read.0 read.1 e

  store-IsPrecise : (size : ℕ) (shorten : ℕ → ℕ) → IsPrecise (store mem d size shorten)
  store-IsPrecise size shorten m e = (
    mem.write_gprs size d.pc (address mem d m) (shorten (r2 mem d m)) m,
    mem.write_pc size d.pc (address mem d m) (shorten (r2 mem d m)) m,
  )

  jump_frames :
      (v npc : ℕ) (h : Hart) (r : ℕ)
      → d.rd ≢ r
      → read_gpr r (record (write_gpr d.rd v h) { pc = npc }) ≡ read_gpr r h
  jump_frames v npc h r n =
      same_gprs r (write_gpr d.rd v h) (record (write_gpr d.rd v h) { pc = npc }) refl
      ∙ read_gpr-write_gpr_ne d.rd r v h n

  link_frames :
      (v npc : ℕ) (h : Hart) (r : ℕ)
      → d.rd ≢ r
      → read_gpr r (write_gpr d.rd v (record h { pc = npc })) ≡ read_gpr r h
  link_frames v npc h r n =
      read_gpr-write_gpr_ne d.rd r v (record h { pc = npc }) n
      ∙ same_gprs r h (record h { pc = npc }) refl

  exec_rv64i-FramesRegisters : (i : Rv64i) → FramesRegisters d.rd (exec_rv64i mem d i)
  unfolding exec_rv64i
  exec_rv64i-FramesRegisters beq = branch_frames (λ m. r1 mem d m == r2 mem d m)
  exec_rv64i-FramesRegisters bge = branch_frames (λ m. not (slt64 (r1 mem d m) (r2 mem d m)))
  exec_rv64i-FramesRegisters bgeu = branch_frames (λ m. leb (r2 mem d m) (r1 mem d m))
  exec_rv64i-FramesRegisters blt = branch_frames (λ m. slt64 (r1 mem d m) (r2 mem d m))
  exec_rv64i-FramesRegisters bltu = branch_frames (λ m. ltb (r1 mem d m) (r2 mem d m))
  exec_rv64i-FramesRegisters bne = branch_frames (λ m. not (r1 mem d m == r2 mem d m))
  exec_rv64i-FramesRegisters fence = λ m r n. refl
  exec_rv64i-FramesRegisters fence_i = λ m r n. refl
  exec_rv64i-FramesRegisters jal = λ m r n. jump_frames (add64 d.pc 4) (add64 d.pc d.imm) m.hart r n
  exec_rv64i-FramesRegisters jalr =
      λ m r n. link_frames (add64 d.pc 4) (bit_and (address mem d m) (not64 1)) m.hart r n
  exec_rv64i-FramesRegisters lb = load_frames 1 (λ v. sext v 8)
  exec_rv64i-FramesRegisters lbu = load_frames 1 (λ v. v)
  exec_rv64i-FramesRegisters ld = load_frames 8 (λ v. v)
  exec_rv64i-FramesRegisters lh = load_frames 2 (λ v. sext v 16)
  exec_rv64i-FramesRegisters lhu = load_frames 2 (λ v. v)
  exec_rv64i-FramesRegisters lw = load_frames 4 (λ v. sext v 32)
  exec_rv64i-FramesRegisters lwu = load_frames 4 (λ v. v)
  exec_rv64i-FramesRegisters sb = store_frames 1 (λ v. v % 2 ^ 8)
  exec_rv64i-FramesRegisters sd = store_frames 8 (λ v. v)
  exec_rv64i-FramesRegisters sh = store_frames 2 (λ v. v % 2 ^ 16)
  exec_rv64i-FramesRegisters sw = store_frames 4 (λ v. bits 64 v 31 0)
  exec_rv64i-FramesRegisters i = λ m r n. read_gpr-write_gpr_ne d.rd r _ m.hart n

  exec_rv64i-IsPrecise : (i : Rv64i) → IsPrecise (exec_rv64i mem d i)
  unfolding exec_rv64i
  exec_rv64i-IsPrecise lb = load-IsPrecise 1 (λ v. sext v 8)
  exec_rv64i-IsPrecise lbu = load-IsPrecise 1 (λ v. v)
  exec_rv64i-IsPrecise ld = load-IsPrecise 8 (λ v. v)
  exec_rv64i-IsPrecise lh = load-IsPrecise 2 (λ v. sext v 16)
  exec_rv64i-IsPrecise lhu = load-IsPrecise 2 (λ v. v)
  exec_rv64i-IsPrecise lw = load-IsPrecise 4 (λ v. sext v 32)
  exec_rv64i-IsPrecise lwu = load-IsPrecise 4 (λ v. v)
  exec_rv64i-IsPrecise sb = store-IsPrecise 1 (λ v. v % 2 ^ 8)
  exec_rv64i-IsPrecise sd = store-IsPrecise 8 (λ v. v)
  exec_rv64i-IsPrecise sh = store-IsPrecise 2 (λ v. v % 2 ^ 16)
  exec_rv64i-IsPrecise sw = store-IsPrecise 4 (λ v. bits 64 v 31 0)
  exec_rv64i-IsPrecise i = λ m e. absurd (ground arith)

  -- Over a memory that leaves the registers alone, and however an instruction of RV64I ends, a
  -- register other than `rd` reads as before.
  pub exec_rv64i-read_gpr :
      (i : Rv64i) (m : Machine W) (r : ℕ)
      → d.rd ≢ r
      → read_gpr r (exec_rv64i mem d i m).1.hart ≡ read_gpr r m.hart
  exec_rv64i-read_gpr i m r n = exec_rv64i-FramesRegisters i m r n

  -- Over a memory that leaves the registers and the pc alone, an instruction of RV64I that traps
  -- leaves every register and the pc as they were.
  pub exec_rv64i-traps :
      (i : Rv64i) (m : Machine W)
      → traps (exec_rv64i mem d i m).0 ≡ true
      → ((exec_rv64i mem d i m).1.hart.gprs ≡ m.hart.gprs)
        × ((exec_rv64i mem d i m).1.hart.pc ≡ m.hart.pc)
  exec_rv64i-traps i m e = exec_rv64i-IsPrecise i m e
