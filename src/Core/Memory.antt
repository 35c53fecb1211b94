-- ===== src/Core/Memory.antt =====
-- What an instruction sees of memory: the members of `MMU` (include/core/mmu.hpp) that
-- src/core/execute.cpp calls, as an interface, and what the instructions rely on.
use uotan_riscv_emu_ng.Base.{ℕ, Bool, ◌≡◌}
use uotan_riscv_emu_ng.Core.Monad.{M}
use uotan_riscv_emu_ng.Core.State.{Hart}

-- A hart and the world it runs in.
pub record Machine (W : Type 0) : Type 0 where
  pub hart : Hart
  pub world : W

-- `read<T>(pc, addr, is_amo)`, `write<T>(pc, addr, value)` and `probe_store<T>(pc, addr)`, with the
-- size of `T` in bytes first. However they end, they leave the registers and the pc alone.
pub record Memory (W : Type 0) : Type 0 where
  pub read_mem : ℕ → ℕ → ℕ → Bool → M (Machine W) ℕ
  pub write_mem : ℕ → ℕ → ℕ → ℕ → M (Machine W) (Unit {0})
  pub probe_store : ℕ → ℕ → ℕ → M (Machine W) (Unit {0})
  pub read_gprs :
      (size pc addr : ℕ) (amo : Bool) (m : Machine W)
      → (read_mem size pc addr amo m).1.hart.gprs ≡ m.hart.gprs
  pub read_pc :
      (size pc addr : ℕ) (amo : Bool) (m : Machine W)
      → (read_mem size pc addr amo m).1.hart.pc ≡ m.hart.pc
  pub write_gprs :
      (size pc addr v : ℕ) (m : Machine W) → (write_mem size pc addr v m).1.hart.gprs ≡ m.hart.gprs
  pub write_pc :
      (size pc addr v : ℕ) (m : Machine W) → (write_mem size pc addr v m).1.hart.pc ≡ m.hart.pc
  pub probe_gprs :
      (size pc addr : ℕ) (m : Machine W) → (probe_store size pc addr m).1.hart.gprs ≡ m.hart.gprs
  pub probe_pc :
      (size pc addr : ℕ) (m : Machine W) → (probe_store size pc addr m).1.hart.pc ≡ m.hart.pc
