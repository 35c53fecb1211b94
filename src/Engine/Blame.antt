-- ===== src/Engine/Blame.antt =====
-- The pc of the traps in a round of `cpu_thread` of src/execution_engine.cpp.
use uotan_riscv_emu_ng.Base.{
  ℕ, ◌%◌, ◌≡◌, refl, sym, ap, Bool, true, false, ◌==◌, ◌||◌, Option, none, some,
}
use mathlib.Core.Path.{subst}
use uotan_riscv_emu_ng.Core.Trap.{Trap, Result, ok, trap, wfi_wait, terminate}
use uotan_riscv_emu_ng.Core.Monad.{M, after, when}
use uotan_riscv_emu_ng.Core.Blame.{Blames, IsAt, after-IsAt}
use uotan_riscv_emu_ng.Core.State.{Hart}
use uotan_riscv_emu_ng.Core.Interrupts.{
  is_none, check_interrupts, pending_interrupts, selected_interrupt,
}
use uotan_riscv_emu_ng.Core.Interrupts.Pending.{checked}
use uotan_riscv_emu_ng.Core.Memory.{Machine}
use uotan_riscv_emu_ng.Decoder.Names.{
  DecodedInsn, Iname, rv64i, zicsr, privileged, rv64m, rv64a, rv64f, rv64d, rv64c, c_inv, inv,
}
use uotan_riscv_emu_ng.Decoder.Decode.{decode}
use uotan_riscv_emu_ng.Decoder.Origin.{StandsAt, decode-StandsAt}
use uotan_riscv_emu_ng.Float.{Softfloat}
use uotan_riscv_emu_ng.Execute.Multiply.{exec_rv64m}
use uotan_riscv_emu_ng.Execute.Compressed.{on_hart}
use uotan_riscv_emu_ng.Execute.Blame.{exec_rv64i-Blames, exec_rv64a-Blames}
use uotan_riscv_emu_ng.Execute.Blame.Float.{exec_rv64f-Blames, exec_rv64d-Blames}
use uotan_riscv_emu_ng.Execute.Blame.Compressed.{exec_rv64c-Blames}
use uotan_riscv_emu_ng.Execute.Blame.System.{exec_zicsr-Blames, exec_privileged-Blames}
use uotan_riscv_emu_ng.Memory.{Bus}
use uotan_riscv_emu_ng.Mmu.Frame.{mmu_memory, ifetch-OnlyMmu}
use uotan_riscv_emu_ng.Mmu.Cases.{if-cases}
use uotan_riscv_emu_ng.Mmu.Blame.{read-Blames, write-Blames, probe_store-Blames, ifetch-Blames}
use uotan_riscv_emu_ng.Engine.{execute, execute_decoded, run_insn, attempt}

-- A call on the hart blames its pc, and leaves it alone.
abbrev Stays : {W A : Type 0} → ℕ → Result A × Machine W → Type 0
Stays pc r = IsAt pc (r.0) × (r.1.hart.pc ≡ pc)

check_interrupts-Stays : {W : Type 0} (m : Machine W) → Stays m.hart.pc (on_hart check_interrupts m)
unfolding check_interrupts
check_interrupts-Stays m =
    if-cases Q (pending_interrupts (checked m.hart) == 0) (ok tt, checked m.hart) _
      (λ _. (tt, refl))
      (λ _.
        if-cases Q (is_none (selected_interrupt (checked m.hart))) (ok tt, checked m.hart) _
          (λ _. (tt, refl)) (λ _. (refl, refl)))
  where
    Q : Result (Unit {0}) × Hart → Type 0
    Q r = IsAt m.hart.pc (r.0) × (r.1.pc ≡ m.hart.pc)

checks-Stays :
    {W : Type 0} (b : Bool) (m : Machine W) → Stays m.hart.pc (when b (on_hart check_interrupts) m)
checks-Stays true m = check_interrupts-Stays m
checks-Stays false m = (tt, refl)

module _ {W : Type 0} (sf : Softfloat) (s : DecodedInsn) where
  execute-Blames : (d : DecodedInsn) (i : Iname) → Blames d.pc (execute {W = W} sf s d i)
  unfolding execute exec_rv64m
  execute-Blames d (rv64i i) =
      exec_rv64i-Blames mmu_memory d (read-Blames d.pc) (write-Blames d.pc)
        (λ size. probe_store-Blames d.pc) i
  execute-Blames d (zicsr i) = λ m. exec_zicsr-Blames d i m.hart
  execute-Blames d (privileged i) = λ m. exec_privileged-Blames d i m.hart
  execute-Blames d (rv64m i) = λ m. tt
  execute-Blames d (rv64a i) =
      exec_rv64a-Blames mmu_memory d (read-Blames d.pc) (write-Blames d.pc)
        (λ size. probe_store-Blames d.pc) i
  execute-Blames d (rv64f i) =
      exec_rv64f-Blames mmu_memory sf d (read-Blames d.pc) (write-Blames d.pc) i
  execute-Blames d (rv64d i) =
      exec_rv64d-Blames mmu_memory sf d (read-Blames d.pc) (write-Blames d.pc) i
  execute-Blames d (rv64c i) =
      exec_rv64c-Blames mmu_memory d (read-Blames d.pc) (write-Blames d.pc) i
  execute-Blames d c_inv = λ m. refl
  execute-Blames d inv = λ m. refl

  execute_decoded-Blames :
      (pc : ℕ) (o : Option DecodedInsn) → StandsAt pc o → Blames pc (execute_decoded {W = W} sf s o)
  execute_decoded-Blames pc none e m = tt
  execute_decoded-Blames pc (some d) e m = rw (sym e) (execute-Blames d d.iname m)

  -- What follows a call that left the pc alone.
  then-IsAt :
      {A B : Type 0} (pc : ℕ) (f : A → M (Machine (Bus W)) B) (r : Result A) (m : Machine (Bus W))
      → IsAt pc r
      → m.hart.pc ≡ pc
      → ((a : A) (m' : Machine (Bus W)) → m'.hart.pc ≡ pc → IsAt pc (f a m').0)
      → IsAt pc (after f r m).0
  then-IsAt pc f (ok a) m p e q = q a m e
  then-IsAt pc f (trap t) m p e q = p
  then-IsAt pc f wfi_wait m p e q = tt
  then-IsAt pc f terminate m p e q = tt

  run_insn-IsAt : (m : Machine (Bus W)) → IsAt m.hart.pc (run_insn sf s m).0
  unfolding run_insn
  run_insn-IsAt m =
      then-IsAt m.hart.pc _ _ _ (ifetch-Blames m) (ap Hart.pc (ifetch-OnlyMmu m)) (λ f m' e.
        after-IsAt m.hart.pc _ _ _
          (execute_decoded-Blames m.hart.pc (decode s f.0 f.1 m'.hart.pc)
            (rw e (decode-StandsAt s f.0 f.1 m.hart.pc)) _)
          (λ u m2. tt))

  attempt-IsAt : (i : ℕ) (m : Machine (Bus W)) → IsAt m.hart.pc (attempt sf s i m).0
  unfolding attempt
  attempt-IsAt i m =
      let look = i % 256 == 0 || m.hart.interrupt_check_pending in
      then-IsAt m.hart.pc (λ _. run_insn sf s) _ _ (checks-Stays look m).0 (checks-Stays look m).1
        (λ u m' e. subst (λ (pc : ℕ). IsAt pc (run_insn sf s m').0) e (run_insn-IsAt m'))

  -- If a round traps, by an interrupt, in the fetch, as an illegal instruction or in the execution of
  -- any instruction, then the trap has the pc at which the round began, although the pc may have been
  -- advanced when it is thrown: the handler finds the instruction that was not completed.
  pub attempt-pc :
      (i : ℕ) (m : Machine (Bus W)) (t : Trap) → (attempt sf s i m).0 ≡ trap t → t.pc ≡ m.hart.pc
  attempt-pc i m t e = rw e at (attempt-IsAt i m)
