-- ===== src/Execute/Blame.antt =====
-- The pc of the traps that the integer and atomic instructions of src/core/execute.cpp throw.
pub mod Float
pub mod Compressed
pub mod System
use uotan_riscv_emu_ng.Base.{
  ℕ, ◌≡◌, refl, Bool, true, false, if◌then◌else◌, ◌*◌, ◌^◌, ◌%◌, ltb, not, ◌+◌, bit_and, bit_or,
  bit_xor,
}
use uotan_riscv_emu_ng.Base.Word.{add64, slt64}
use uotan_riscv_emu_ng.BitOps.{sext}
use uotan_riscv_emu_ng.Core.Monad.{M, ◌>>=◌, ◌>>◌, raise_if, modify}
use uotan_riscv_emu_ng.Core.Blame.{Blames, IsAt, after-IsAt, raise_if-Blames, if-Blames}
use uotan_riscv_emu_ng.Core.Trap.{load_access_fault, store_amo_access_fault}
use uotan_riscv_emu_ng.Core.Memory.{Machine, Memory}
use uotan_riscv_emu_ng.Decoder.Names.{
  DecodedInsn, Rv64i, lb, lbu, ld, lh, lhu, lw, lwu, sb, sd, sh, sw, Rv64a, lr_d, lr_w, sc_d, sc_w,
  amoadd_d, amoadd_w, amoand_d, amoand_w, amoor_d, amoor_w, amoxor_d, amoxor_w, amomax_d, amomax_w,
  amomaxu_d, amomaxu_w, amomin_d, amomin_w, amominu_d, amominu_w, amoswap_d, amoswap_w,
}
use uotan_riscv_emu_ng.Execute.System.{exception_at}
use uotan_riscv_emu_ng.Execute.Integer.{exec_rv64i, r1, r2, set_rd}
use uotan_riscv_emu_ng.Execute.Atomic.{
  exec_rv64a, load_reserved, conditional, store_conditional, exchange, amo, misaligned, reserved,
  release, slt32,
}

-- A memory whose accesses trap at the pc that they are given, for the pc of the instruction.
module _ {W : Type 0} (mem : Memory W) (d : DecodedInsn)
    (reads : (size addr : ℕ) (amo : Bool) → Blames d.pc (mem.read_mem size d.pc addr amo))
    (writes : (size addr v : ℕ) → Blames d.pc (mem.write_mem size d.pc addr v))
    (probes : (size addr : ℕ) → Blames d.pc (mem.probe_store size d.pc addr)) where
  load_ends :
      (f : ℕ → M (Machine W) (Unit {0})) (size addr : ℕ) (is_amo : Bool) (m : Machine W)
      → ((v : ℕ) → Blames d.pc (f v))
      → IsAt d.pc ((mem.read_mem size d.pc addr is_amo >>= f) m).0
  load_ends f size addr is_amo m p = after-IsAt d.pc f _ _ (reads size addr is_amo m) p

  pub exec_rv64i-Blames : (i : Rv64i) → Blames d.pc (exec_rv64i mem d i)
  unfolding exec_rv64i
  exec_rv64i-Blames lb = λ m. load_ends _ _ _ false m (λ v m'. tt)
  exec_rv64i-Blames lbu = λ m. load_ends _ _ _ false m (λ v m'. tt)
  exec_rv64i-Blames ld = λ m. load_ends _ _ _ false m (λ v m'. tt)
  exec_rv64i-Blames lh = λ m. load_ends _ _ _ false m (λ v m'. tt)
  exec_rv64i-Blames lhu = λ m. load_ends _ _ _ false m (λ v m'. tt)
  exec_rv64i-Blames lw = λ m. load_ends _ _ _ false m (λ v m'. tt)
  exec_rv64i-Blames lwu = λ m. load_ends _ _ _ false m (λ v m'. tt)
  exec_rv64i-Blames sb = λ m. writes _ _ _ m
  exec_rv64i-Blames sd = λ m. writes _ _ _ m
  exec_rv64i-Blames sh = λ m. writes _ _ _ m
  exec_rv64i-Blames sw = λ m. writes _ _ _ m
  exec_rv64i-Blames i = λ m. tt

  load_reserved-Blames : (size : ℕ) (extend : ℕ → ℕ) → Blames d.pc (load_reserved mem d size extend)
  load_reserved-Blames size extend m =
      after-IsAt d.pc _ _ _
        (raise_if-Blames d.pc (misaligned mem d size (r1 mem d m))
          (exception_at d load_access_fault (r1 mem d m)) refl m)
        (λ u m'. load_ends _ size (r1 mem d m) false m' (λ v m2. tt))

  conditional-Blames : (size addr : ℕ) → Blames d.pc (conditional mem d size addr)
  conditional-Blames size addr m =
      if-Blames d.pc (reserved addr m) _ (modify (λ m'. release (set_rd mem d 1 m')))
        (λ m'.
          after-IsAt d.pc _ _ _ (writes size addr (r2 mem d m % 2 ^ (8 * size)) m') (λ u m2. tt))
        (λ m'. tt) m

  store_conditional-Blames : (size : ℕ) → Blames d.pc (store_conditional mem d size)
  store_conditional-Blames size m =
      after-IsAt d.pc _ _ _
        (raise_if-Blames d.pc (misaligned mem d size (r1 mem d m))
          (exception_at d store_amo_access_fault (r1 mem d m)) refl m)
        (λ u m'.
          after-IsAt d.pc _ _ _ (probes size (r1 mem d m) m')
            (λ v. conditional-Blames size (r1 mem d m)))

  amo-Blames : (size : ℕ) (extend : ℕ → ℕ) (op : ℕ → ℕ → ℕ) → Blames d.pc (amo mem d size extend op)
  amo-Blames size extend op m =
      after-IsAt d.pc _ _ _
        (raise_if-Blames d.pc (misaligned mem d size (r1 mem d m))
          (exception_at d store_amo_access_fault (r1 mem d m)) refl m)
        (λ u m'.
          load_ends _ size (r1 mem d m) true m'
            (λ t m2. after-IsAt d.pc _ _ _ (writes _ _ _ m2) (λ w m3. tt)))

  pub exec_rv64a-Blames : (i : Rv64a) → Blames d.pc (exec_rv64a mem d i)
  unfolding exec_rv64a
  exec_rv64a-Blames lr_d = load_reserved-Blames 8 (λ v. v)
  exec_rv64a-Blames lr_w = load_reserved-Blames 4 (λ v. sext v 32)
  exec_rv64a-Blames sc_d = store_conditional-Blames 8
  exec_rv64a-Blames sc_w = store_conditional-Blames 4
  exec_rv64a-Blames amoadd_d = amo-Blames 8 (λ v. v) (λ t r. add64 t r)
  exec_rv64a-Blames amoadd_w = amo-Blames 4 (λ v. sext v 32) (λ t r. (t + r % 2 ^ 32) % 2 ^ 32)
  exec_rv64a-Blames amoand_d = amo-Blames 8 (λ v. v) (λ t r. bit_and t r)
  exec_rv64a-Blames amoand_w = amo-Blames 4 (λ v. sext v 32) (λ t r. bit_and t (r % 2 ^ 32))
  exec_rv64a-Blames amoor_d = amo-Blames 8 (λ v. v) (λ t r. bit_or t r)
  exec_rv64a-Blames amoor_w = amo-Blames 4 (λ v. sext v 32) (λ t r. bit_or t (r % 2 ^ 32))
  exec_rv64a-Blames amoxor_d = amo-Blames 8 (λ v. v) (λ t r. bit_xor t r)
  exec_rv64a-Blames amoxor_w = amo-Blames 4 (λ v. sext v 32) (λ t r. bit_xor t (r % 2 ^ 32))
  exec_rv64a-Blames amomax_d = amo-Blames 8 (λ v. v) (λ t r. if slt64 t r then r else t)
  exec_rv64a-Blames amomax_w =
      amo-Blames 4 (λ v. sext v 32) (λ t r. if slt32 t (r % 2 ^ 32) then r % 2 ^ 32 else t)
  exec_rv64a-Blames amomaxu_d = amo-Blames 8 (λ v. v) (λ t r. if ltb t r then r else t)
  exec_rv64a-Blames amomaxu_w =
      amo-Blames 4 (λ v. sext v 32) (λ t r. if ltb t (r % 2 ^ 32) then r % 2 ^ 32 else t)
  exec_rv64a-Blames amomin_d = amo-Blames 8 (λ v. v) (λ t r. if slt64 r t then r else t)
  exec_rv64a-Blames amomin_w =
      amo-Blames 4 (λ v. sext v 32) (λ t r. if slt32 (r % 2 ^ 32) t then r % 2 ^ 32 else t)
  exec_rv64a-Blames amominu_d = amo-Blames 8 (λ v. v) (λ t r. if ltb r t then r else t)
  exec_rv64a-Blames amominu_w =
      amo-Blames 4 (λ v. sext v 32) (λ t r. if ltb (r % 2 ^ 32) t then r % 2 ^ 32 else t)
  exec_rv64a-Blames amoswap_d = amo-Blames 8 (λ v. v) (λ t r. r)
  exec_rv64a-Blames amoswap_w = amo-Blames 4 (λ v. sext v 32) (λ t r. r % 2 ^ 32)
