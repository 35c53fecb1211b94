-- ===== src/Engine.antt =====
-- The execution loop: `ExecutionEngine::cpu_thread` of src/execution_engine.cpp, and
-- `MCYCLE::advance` and `MINSTRET::advance` of include/core/hart.hpp.
pub mod Shutdown
pub mod Blame
pub mod Interrupt
use uotan_riscv_emu_ng.Base.{
  ℕ, zero, suc, ◌+◌, ◌%◌, ◌^◌, Bool, true, false, not, ◌&&◌, ◌||◌, Option, none, some, bit_and,
  ◌==◌, truthy, if◌then◌else◌,
}
use uotan_riscv_emu_ng.Base.Word.{add64}
use uotan_riscv_emu_ng.Core.Trap.{Trap, Result, ok, trap, wfi_wait, terminate}
use uotan_riscv_emu_ng.Core.Monad.{M, after, ◌>>=◌, ◌>>◌, get, modify, raise, skip, when}
use uotan_riscv_emu_ng.Core.State.{Csrs, Hart}
use uotan_riscv_emu_ng.Core.Csr.{countinhibit_mask}
use uotan_riscv_emu_ng.Core.Interrupts.{
  handle_trap, check_interrupts, has_pending_enabled_interrupt,
}
use uotan_riscv_emu_ng.Core.Memory.{Machine, Memory}
use uotan_riscv_emu_ng.Decoder.Names.{
  DecodedInsn, Ilen, compressed, normal, Iname, rv64i, zicsr, privileged, rv64m, rv64a, rv64f,
  rv64d, rv64c, c_inv, inv,
}
use uotan_riscv_emu_ng.Decoder.Decode.{decode}
use uotan_riscv_emu_ng.Float.{Softfloat}
use uotan_riscv_emu_ng.Execute.System.{illegal_insn, exec_zicsr, exec_privileged}
use uotan_riscv_emu_ng.Execute.Integer.{exec_rv64i}
use uotan_riscv_emu_ng.Execute.Multiply.{exec_rv64m}
use uotan_riscv_emu_ng.Execute.Atomic.{exec_rv64a}
use uotan_riscv_emu_ng.Execute.Float.Single.{exec_rv64f}
use uotan_riscv_emu_ng.Execute.Float.Double.{exec_rv64d}
use uotan_riscv_emu_ng.Execute.Compressed.{on_hart, exec_rv64c}
use uotan_riscv_emu_ng.Memory.{Bus}
use uotan_riscv_emu_ng.Mmu.Access.{ifetch}
use uotan_riscv_emu_ng.Mmu.Frame.{mmu_memory}

-- `MCYCLE::advance`, unless MCOUNTINHIBIT has bit CY.
unfoldable pub advance_mcycle : Csrs → Csrs
advance_mcycle c =
    if truthy (bit_and (bit_and c.mcountinhibit countinhibit_mask) (2 ^ 0))
    then c
    else record c { mcycle = add64 c.mcycle 1 }

-- `MINSTRET::advance`, unless a write suppressed it or MCOUNTINHIBIT has bit IR.
unfoldable pub advance_minstret : Csrs → Csrs
advance_minstret c =
    let c' = record c { minstret_increase_suppressed = false } in
    if not c.minstret_increase_suppressed
      && not (truthy (bit_and (bit_and c.mcountinhibit countinhibit_mask) (2 ^ 2)))
    then record c' { minstret = add64 c.minstret 1 }
    else c'

abbrev ilen_value : Ilen → ℕ
ilen_value compressed = 2
ilen_value normal = 4

abbrev pub on_csrs : {W : Type 0} → (Csrs → Csrs) → Machine W → Machine W
on_csrs f m = record m { hart = record (m.hart) { csrs = f m.hart.csrs } }

-- `s` is the object of `Decoder::decode` before its fields are set.
module _ {W : Type 0} (sf : Softfloat) (s : DecodedInsn) where
  -- `decoded_insn(*hart_, *mmu_)`: the function that the decoder stored for the name.
  unfoldable pub execute : DecodedInsn → Iname → M (Machine (Bus W)) (Unit {0})
  unfolding exec_rv64i exec_zicsr exec_privileged exec_rv64m exec_rv64a exec_rv64f exec_rv64d
      exec_rv64c
  execute d (rv64i i) = exec_rv64i mmu_memory d i
  execute d (zicsr i) = on_hart (exec_zicsr d i)
  execute d (privileged i) = on_hart (exec_privileged d i)
  execute d (rv64m i) = on_hart (exec_rv64m d i)
  execute d (rv64a i) = exec_rv64a mmu_memory d i
  execute d (rv64f i) = exec_rv64f mmu_memory sf d i
  execute d (rv64d i) = exec_rv64d mmu_memory sf d i
  execute d (rv64c i) = exec_rv64c mmu_memory d i
  execute d c_inv = raise (illegal_insn d)
  execute d inv = raise (illegal_insn d)

  abbrev pub execute_decoded : Option DecodedInsn → M (Machine (Bus W)) (Unit {0})
  execute_decoded none m = (terminate, m)
  execute_decoded (some d) m = execute d d.iname m

  abbrev pub advance_pc : Ilen → Machine (Bus W) → Machine (Bus W)
  advance_pc len m = record m { hart = record (m.hart) { pc = add64 m.hart.pc (ilen_value len) } }

  -- Fetch, decode, execute and retire.
  unfoldable pub run_insn : M (Machine (Bus W)) (Unit {0})
  unfolding ifetch decode execute
  run_insn = do
    f ← ifetch
    m ← get
    modify (advance_pc (f.1))
    execute_decoded (decode s f.0 f.1 m.hart.pc)
    modify (on_csrs advance_minstret)

  -- The `try` block of a round: every 256th looks for interrupts, and one that was asked to.
  unfoldable pub attempt : ℕ → M (Machine (Bus W)) (Unit {0})
  unfolding run_insn check_interrupts
  attempt i m =
      (when (i % 256 == 0 || m.hart.interrupt_check_pending) (on_hart check_interrupts) >> run_insn)
        m

-- Where `cpu_thread` stands: at the head of its loop, with the counter of the round; in the loop that
-- waits after WFI, with the counter of the next round; behind its loop; or the process has ended.
pub data ThreadState (W : Type 0) : Type 0 where
  running : ℕ → Machine W → ThreadState W
  waiting : ℕ → Machine W → ThreadState W
  stopped : Machine W → ThreadState W
  terminated : ThreadState W

abbrev pub next_round : ℕ → ℕ
next_round i = (i + 1) % 2 ^ 16

-- `hart_->handle_trap(trap)`, after which the loop goes on.
abbrev pub after_trap : {W : Type 0} → ℕ → Machine W → Result (Unit {0}) × Hart → ThreadState W
after_trap i m (ok u, h) = running i (record m { hart = h })
after_trap i m (_, h) = terminated

abbrev pub handle : {W : Type 0} → ℕ → Trap → Machine W → ThreadState W
handle i t m = after_trap i m (handle_trap t m.hart)

-- The `catch` clauses; `i` is the counter of the next round.
abbrev pub settle : {W : Type 0} → ℕ → Result (Unit {0}) × Machine W → ThreadState W
settle i (ok u, m) = running i m
settle i (trap t, m) = handle i t m
settle i (wfi_wait, m) = waiting i (on_csrs advance_minstret m)
settle i (terminate, m) = terminated

-- A round of the loop that waits finds an interrupt: it is taken if it may be.
abbrev pub woken : {W : Type 0} → ℕ → Machine W → Result (Unit {0}) × Hart → ThreadState W
woken i m (trap t, h) = handle i t (record m { hart = h })
woken i m (terminate, h) = terminated
woken i m (_, h) = running i (record m { hart = h })

module _ {W : Type 0} (sf : Softfloat) (s : DecodedInsn) where
  -- A round, with what it reads of `shutdown_from_guest_` and `shutdown_from_host_`.
  unfoldable pub round : Bool → Bool → ThreadState (Bus W) → ThreadState (Bus W)
  unfolding attempt advance_mcycle advance_minstret handle_trap check_interrupts
      has_pending_enabled_interrupt
  round guest host (running i m) =
      if guest || (i == 0 && host)
      then stopped m
      else settle (next_round i) (attempt sf s i (on_csrs advance_mcycle m))
  round guest host (waiting i m) =
      if guest || host
      then running i m
      else if has_pending_enabled_interrupt m.hart
      then woken i m (check_interrupts m.hart)
      else waiting i m
  round guest host (stopped m) = stopped m
  round guest host terminated = terminated
