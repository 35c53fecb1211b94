-- ===== src/Execute/Atomic/Precise.antt =====
-- The registers and the pc through the atomic instructions of src/core/execute.cpp, when one traps.
use uotan_riscv_emu_ng.Base.{
  ℕ, ◌+◌, ◌*◌, ◌%◌, ◌^◌, ◌≡◌, refl, ◌∙◌, Bool, true, false, ltb, if◌then◌else◌, bit_and, bit_or,
  bit_xor, arith,
}
use uotan_riscv_emu_ng.Base.Word.{add64, slt64}
use uotan_riscv_emu_ng.Core.Trap.{
  load_access_fault, store_amo_access_fault, Trap, Result, ok, trap, wfi_wait, terminate,
}
use uotan_riscv_emu_ng.Core.Monad.{M, after, ◌>>=◌, ◌>>◌, modify, raise_if}
use uotan_riscv_emu_ng.Core.Memory.{Machine, Memory}
use uotan_riscv_emu_ng.Decoder.Names.{
  DecodedInsn, Rv64a, lr_d, lr_w, sc_d, sc_w, amoadd_d, amoadd_w, amoand_d, amoand_w, amoor_d,
  amoor_w, amoxor_d, amoxor_w, amomax_d, amomax_w, amomaxu_d, amomaxu_w, amomin_d, amomin_w,
  amominu_d, amominu_w, amoswap_d, amoswap_w,
}
use uotan_riscv_emu_ng.Execute.Integer.{set_rd, r1, r2}
use uotan_riscv_emu_ng.Execute.Integer.Frame.{IsPrecise, traps}
use uotan_riscv_emu_ng.Execute.System.{exception_at}
use uotan_riscv_emu_ng.Execute.Atomic.{
  slt32, exec_rv64a, reserve, release, reserved, misaligned, load_reserved, conditional,
  store_conditional, exchange, amo, double, word,
}

module _ {W : Type 0} where
  -- A computation that leaves the registers and the pc alone.
  abbrev IsQuiet : {A : Type 0} → M (Machine W) A → Type 0
  IsQuiet c = (m : Machine W) → ((c m).1.hart.gprs ≡ m.hart.gprs) × ((c m).1.hart.pc ≡ m.hart.pc)

  after_precise :
      {A : Type 0} (f : A → M (Machine W) (Unit {0})) (r : Result A) (m m' : Machine W)
      → ((a : A) → IsPrecise (f a))
      → (m'.hart.gprs ≡ m.hart.gprs) × (m'.hart.pc ≡ m.hart.pc)
      → traps (after f r m').0 ≡ true
      → ((after f r m').1.hart.gprs ≡ m.hart.gprs) × ((after f r m').1.hart.pc ≡ m.hart.pc)
  after_precise f (ok a) m m' p q e = ((p a m' e).0 ∙ q.0, (p a m' e).1 ∙ q.1)
  after_precise f (trap t) m m' p q e = q
  after_precise f wfi_wait m m' p q e = q
  after_precise f terminate m m' p q e = q

  bind-IsPrecise :
      {A : Type 0} (c : M (Machine W) A) (f : A → M (Machine W) (Unit {0}))
      → IsQuiet c
      → ((a : A) → IsPrecise (f a))
      → IsPrecise (c >>= f)
  bind-IsPrecise c f q p m e = after_precise f (c m).0 m (c m).1 p (q m) e

  modify-IsPrecise : (f : Machine W → Machine W) → IsPrecise (modify f)
  modify-IsPrecise f m e = absurd (ground arith)

  raise_if-IsQuiet : (b : Bool) (t : Trap) → IsQuiet (raise_if b t)
  raise_if-IsQuiet true t m = (refl, refl)
  raise_if-IsQuiet false t m = (refl, refl)

  if-IsPrecise :
      (b : Bool) (c c' : M (Machine W) (Unit {0}))
      → IsPrecise c
      → IsPrecise c'
      → IsPrecise (if b then c else c')
  if-IsPrecise true c c' p q = p
  if-IsPrecise false c c' p q = q

module _ {W : Type 0} (mem : Memory W) (d : DecodedInsn) where
  read-IsQuiet : (size addr : ℕ) (a : Bool) → IsQuiet (mem.read_mem size d.pc addr a)
  read-IsQuiet size addr a m = (mem.read_gprs size d.pc addr a m, mem.read_pc size d.pc addr a m)

  write-IsQuiet : (size addr v : ℕ) → IsQuiet (mem.write_mem size d.pc addr v)
  write-IsQuiet size addr v m = (mem.write_gprs size d.pc addr v m, mem.write_pc size d.pc addr v m)

  probe-IsQuiet : (size addr : ℕ) → IsQuiet (mem.probe_store size d.pc addr)
  probe-IsQuiet size addr m = (mem.probe_gprs size d.pc addr m, mem.probe_pc size d.pc addr m)

  load_reserved-IsPrecise :
      (size : ℕ) (extend : ℕ → ℕ) → IsPrecise (load_reserved mem d size extend)
  load_reserved-IsPrecise size extend m e =
      bind-IsPrecise (raise_if (misaligned mem d size a) (exception_at d load_access_fault a))
        (λ _. mem.read_mem size d.pc a false >>= finish) (raise_if-IsQuiet _ _)
        (λ _.
          bind-IsPrecise (mem.read_mem size d.pc a false) finish (read-IsQuiet size a false)
            λ v. modify-IsPrecise (λ m'. reserve (r1 mem d m) true (set_rd mem d (extend v) m')))
        m e
    where
      a : ℕ
      a = r1 mem d m

      finish : ℕ → M (Machine W) (Unit {0})
      finish v = modify (λ m'. reserve (r1 mem d m) true (set_rd mem d (extend v) m'))

  exchange-IsPrecise :
      (size : ℕ) (extend : ℕ → ℕ) (op : ℕ → ℕ → ℕ) (addr t : ℕ)
      → IsPrecise (exchange mem d size extend op addr t)
  exchange-IsPrecise size extend op addr t m e =
      bind-IsPrecise (mem.write_mem size d.pc addr (op t (r2 mem d m)))
        (λ _. modify (set_rd mem d (extend t))) (write-IsQuiet size addr (op t (r2 mem d m)))
        (λ _. modify-IsPrecise (set_rd mem d (extend t))) m e

  amo-IsPrecise :
      (size : ℕ) (extend : ℕ → ℕ) (op : ℕ → ℕ → ℕ) → IsPrecise (amo mem d size extend op)
  amo-IsPrecise size extend op m e =
      bind-IsPrecise (raise_if (misaligned mem d size a) (exception_at d store_amo_access_fault a))
        (λ _. mem.read_mem size d.pc a true >>= exchange mem d size extend op a)
        (raise_if-IsQuiet _ _)
        (λ _.
          bind-IsPrecise (mem.read_mem size d.pc a true) (exchange mem d size extend op a)
            (read-IsQuiet size a true) (exchange-IsPrecise size extend op a))
        m e
    where
      a : ℕ
      a = r1 mem d m

  conditional-IsPrecise : (size addr : ℕ) → IsPrecise (conditional mem d size addr)
  conditional-IsPrecise size addr m e =
      if-IsPrecise (reserved addr m) (mem.write_mem size d.pc addr v >> modify done) (modify failed)
        (bind-IsPrecise (mem.write_mem size d.pc addr v) (λ _. modify done)
          (write-IsQuiet size addr v) (λ _. modify-IsPrecise done))
        (modify-IsPrecise failed) m e
    where
      v : ℕ
      v = r2 mem d m % 2 ^ (8 * size)

      done : Machine W → Machine W
      done m' = release (set_rd mem d 0 m')

      failed : Machine W → Machine W
      failed m' = release (set_rd mem d 1 m')

  store_conditional-IsPrecise : (size : ℕ) → IsPrecise (store_conditional mem d size)
  store_conditional-IsPrecise size m e =
      bind-IsPrecise (raise_if (misaligned mem d size a) (exception_at d store_amo_access_fault a))
        (λ _. mem.probe_store size d.pc a >> conditional mem d size a) (raise_if-IsQuiet _ _)
        (λ _.
          bind-IsPrecise (mem.probe_store size d.pc a) (λ _. conditional mem d size a)
            (probe-IsQuiet size a) (λ _. conditional-IsPrecise size a))
        m e
    where
      a : ℕ
      a = r1 mem d m

  exec_rv64a-IsPrecise : (i : Rv64a) → IsPrecise (exec_rv64a mem d i)
  unfolding exec_rv64a
  exec_rv64a-IsPrecise lr_d = load_reserved-IsPrecise 8 (double mem d)
  exec_rv64a-IsPrecise lr_w = load_reserved-IsPrecise 4 (word mem d)
  exec_rv64a-IsPrecise sc_d = store_conditional-IsPrecise 8
  exec_rv64a-IsPrecise sc_w = store_conditional-IsPrecise 4
  exec_rv64a-IsPrecise amoadd_d = amo-IsPrecise 8 (double mem d) (λ t r. add64 t r)
  exec_rv64a-IsPrecise amoadd_w = amo-IsPrecise 4 (word mem d) (λ t r. (t + r % 2 ^ 32) % 2 ^ 32)
  exec_rv64a-IsPrecise amoand_d = amo-IsPrecise 8 (double mem d) (λ t r. bit_and t r)
  exec_rv64a-IsPrecise amoand_w = amo-IsPrecise 4 (word mem d) (λ t r. bit_and t (r % 2 ^ 32))
  exec_rv64a-IsPrecise amoor_d = amo-IsPrecise 8 (double mem d) (λ t r. bit_or t r)
  exec_rv64a-IsPrecise amoor_w = amo-IsPrecise 4 (word mem d) (λ t r. bit_or t (r % 2 ^ 32))
  exec_rv64a-IsPrecise amoxor_d = amo-IsPrecise 8 (double mem d) (λ t r. bit_xor t r)
  exec_rv64a-IsPrecise amoxor_w = amo-IsPrecise 4 (word mem d) (λ t r. bit_xor t (r % 2 ^ 32))
  exec_rv64a-IsPrecise amomax_d = amo-IsPrecise 8 (double mem d) (λ t r. if slt64 t r then r else t)
  exec_rv64a-IsPrecise amomax_w =
      amo-IsPrecise 4 (word mem d) (λ t r. if slt32 t (r % 2 ^ 32) then r % 2 ^ 32 else t)
  exec_rv64a-IsPrecise amomaxu_d = amo-IsPrecise 8 (double mem d) (λ t r. if ltb t r then r else t)
  exec_rv64a-IsPrecise amomaxu_w =
      amo-IsPrecise 4 (word mem d) (λ t r. if ltb t (r % 2 ^ 32) then r % 2 ^ 32 else t)
  exec_rv64a-IsPrecise amomin_d = amo-IsPrecise 8 (double mem d) (λ t r. if slt64 r t then r else t)
  exec_rv64a-IsPrecise amomin_w =
      amo-IsPrecise 4 (word mem d) (λ t r. if slt32 (r % 2 ^ 32) t then r % 2 ^ 32 else t)
  exec_rv64a-IsPrecise amominu_d = amo-IsPrecise 8 (double mem d) (λ t r. if ltb r t then r else t)
  exec_rv64a-IsPrecise amominu_w =
      amo-IsPrecise 4 (word mem d) (λ t r. if ltb (r % 2 ^ 32) t then r % 2 ^ 32 else t)
  exec_rv64a-IsPrecise amoswap_d = amo-IsPrecise 8 (double mem d) (λ t r. r)
  exec_rv64a-IsPrecise amoswap_w = amo-IsPrecise 4 (word mem d) (λ t r. r % 2 ^ 32)

  -- Over a memory that leaves the registers and the pc alone, an atomic instruction that traps leaves
  -- every register and the pc as they were, whether the read, the probe or the store traps.
  pub exec_rv64a-traps :
      (i : Rv64a) (m : Machine W)
      → traps (exec_rv64a mem d i m).0 ≡ true
      → ((exec_rv64a mem d i m).1.hart.gprs ≡ m.hart.gprs)
        × ((exec_rv64a mem d i m).1.hart.pc ≡ m.hart.pc)
  exec_rv64a-traps i m e = exec_rv64a-IsPrecise i m e
