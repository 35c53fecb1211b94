-- ===== src/Execute/Atomic.antt =====
-- The instructions of the A extension, src/core/execute.cpp. Signed sums of the source are taken to
-- wrap around.
pub mod Precise
pub mod Reservation
use uotan_riscv_emu_ng.Base.{
  ℕ, ◌+◌, ◌-◌, ◌*◌, ◌/◌, ◌%◌, ◌^◌, ◌==◌, ◌&&◌, Bool, true, false, not, ltb, truthy, if◌then◌else◌,
  bit_and, bit_or, bit_xor,
}
use uotan_riscv_emu_ng.Base.Word.{add64, slt64}
use uotan_riscv_emu_ng.BitOps.{sext}
use uotan_riscv_emu_ng.Core.Trap.{load_access_fault, store_amo_access_fault, TrapCause, Trap}
use uotan_riscv_emu_ng.Core.Monad.{M, ◌>>=◌, ◌>>◌, get, modify, raise_if}
use uotan_riscv_emu_ng.Core.State.{Hart, Mmu, read_gpr, write_gpr}
use uotan_riscv_emu_ng.Core.Memory.{Machine, Memory}
use uotan_riscv_emu_ng.Decoder.Names.{
  DecodedInsn, Rv64a, lr_d, lr_w, sc_d, sc_w, amoadd_d, amoadd_w, amoand_d, amoand_w, amoor_d,
  amoor_w, amoxor_d, amoxor_w, amomax_d, amomax_w, amomaxu_d, amomaxu_w, amomin_d, amomin_w,
  amominu_d, amominu_w, amoswap_d, amoswap_w,
}
use uotan_riscv_emu_ng.Execute.Integer.{set_rd, r1, r2}
use uotan_riscv_emu_ng.Execute.System.{exception_at}

-- The low word of a register.
abbrev w : ℕ → ℕ
w x = x % 2 ^ 32

-- `static_cast<int32_t>(a) < static_cast<int32_t>(b)` of 32-bit patterns.
abbrev pub slt32 : ℕ → ℕ → Bool
slt32 a b = ltb ((a + 2 ^ 31) % 2 ^ 32) ((b + 2 ^ 31) % 2 ^ 32)

abbrev pub reserve : {W : Type 0} → ℕ → Bool → Machine W → Machine W
reserve addr valid m = record m {
  hart = record (m.hart) {
    mmu = record (m.hart.mmu) { reservation_address = addr; reservation_valid = valid };
  };
}

-- `mmu->reservation_valid = false`
abbrev pub release : {W : Type 0} → Machine W → Machine W
release m = reserve m.hart.mmu.reservation_address false m

abbrev pub reserved : {W : Type 0} → ℕ → Machine W → Bool
reserved addr m = m.hart.mmu.reservation_valid && m.hart.mmu.reservation_address == addr

module _ {W : Type 0} (mem : Memory W) (d : DecodedInsn) where
  -- `addr & (size - 1)` is not 0.
  abbrev pub misaligned : ℕ → ℕ → Bool
  misaligned size addr = truthy (bit_and addr (size - 1))

  abbrev pub load_reserved : ℕ → (ℕ → ℕ) → M (Machine W) (Unit {0})
  load_reserved size extend = do
    m ← get
    raise_if (misaligned size (r1 mem d m)) (exception_at d load_access_fault (r1 mem d m))
    v ← mem.read_mem size d.pc (r1 mem d m) false
    modify (λ m'. reserve (r1 mem d m) true (set_rd mem d (extend v) m'))

  -- The store of SC, once its address is probed.
  abbrev pub conditional : ℕ → ℕ → M (Machine W) (Unit {0})
  conditional size addr m =
      (if reserved addr m
          then mem.write_mem size d.pc addr (r2 mem d m % 2 ^ (8 * size))
            >> modify (λ m'. release (set_rd mem d 0 m'))
          else modify (λ m'. release (set_rd mem d 1 m')))
        m

  abbrev pub store_conditional : ℕ → M (Machine W) (Unit {0})
  store_conditional size = do
    m ← get
    raise_if (misaligned size (r1 mem d m)) (exception_at d store_amo_access_fault (r1 mem d m))
    mem.probe_store size d.pc (r1 mem d m)
    conditional size (r1 mem d m)

  -- The store of an AMO, once the old value is read.
  abbrev pub exchange : ℕ → (ℕ → ℕ) → (ℕ → ℕ → ℕ) → ℕ → ℕ → M (Machine W) (Unit {0})
  exchange size extend op addr t = do
    m ← get
    mem.write_mem size d.pc addr (op t (r2 mem d m))
    modify (set_rd mem d (extend t))

  abbrev pub amo : ℕ → (ℕ → ℕ) → (ℕ → ℕ → ℕ) → M (Machine W) (Unit {0})
  amo size extend op = do
    m ← get
    raise_if (misaligned size (r1 mem d m)) (exception_at d store_amo_access_fault (r1 mem d m))
    t ← mem.read_mem size d.pc (r1 mem d m) true
    exchange size extend op (r1 mem d m) t

  abbrev pub double : ℕ → ℕ
  double v = v

  abbrev pub word : ℕ → ℕ
  word v = sext v 32

  unfoldable pub exec_rv64a : Rv64a → M (Machine W) (Unit {0})
  exec_rv64a lr_d = load_reserved 8 double
  exec_rv64a lr_w = load_reserved 4 word
  exec_rv64a sc_d = store_conditional 8
  exec_rv64a sc_w = store_conditional 4
  exec_rv64a amoadd_d = amo 8 double (λ t r. add64 t r)
  exec_rv64a amoadd_w = amo 4 word (λ t r. (t + w r) % 2 ^ 32)
  exec_rv64a amoand_d = amo 8 double (λ t r. bit_and t r)
  exec_rv64a amoand_w = amo 4 word (λ t r. bit_and t (w r))
  exec_rv64a amoor_d = amo 8 double (λ t r. bit_or t r)
  exec_rv64a amoor_w = amo 4 word (λ t r. bit_or t (w r))
  exec_rv64a amoxor_d = amo 8 double (λ t r. bit_xor t r)
  exec_rv64a amoxor_w = amo 4 word (λ t r. bit_xor t (w r))
  exec_rv64a amomax_d = amo 8 double (λ t r. if slt64 t r then r else t)
  exec_rv64a amomax_w = amo 4 word (λ t r. if slt32 t (w r) then w r else t)
  exec_rv64a amomaxu_d = amo 8 double (λ t r. if ltb t r then r else t)
  exec_rv64a amomaxu_w = amo 4 word (λ t r. if ltb t (w r) then w r else t)
  exec_rv64a amomin_d = amo 8 double (λ t r. if slt64 r t then r else t)
  exec_rv64a amomin_w = amo 4 word (λ t r. if slt32 (w r) t then w r else t)
  exec_rv64a amominu_d = amo 8 double (λ t r. if ltb r t then r else t)
  exec_rv64a amominu_w = amo 4 word (λ t r. if ltb (w r) t then w r else t)
  exec_rv64a amoswap_d = amo 8 double (λ t r. r)
  exec_rv64a amoswap_w = amo 4 word (λ t r. w r)
