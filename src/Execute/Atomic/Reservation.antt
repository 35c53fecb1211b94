-- ===== src/Execute/Atomic/Reservation.antt =====
-- The reservation of LR and SC: `exec_sc_d` and `exec_sc_w` of src/core/execute.cpp.
use uotan_riscv_emu_ng.Base.{
  ℕ, ◌-◌, ◌*◌, ◌%◌, ◌^◌, ◌≡◌, ◌≢◌, ◌⊎◌, inl, inr, refl, Bool, true, false, Bool-cases,
  if◌then◌else◌, bit_and, arith,
}
use uotan_riscv_emu_ng.Core.State.{write_gpr}
use uotan_riscv_emu_ng.Core.Trap.{
  store_amo_access_fault, Trap, Result, ok, trap, wfi_wait, terminate,
}
use uotan_riscv_emu_ng.Core.Monad.{after, ◌>>◌, modify, raise_if}
use uotan_riscv_emu_ng.Core.Memory.{Machine, Memory}
use uotan_riscv_emu_ng.Decoder.Names.{DecodedInsn}
use uotan_riscv_emu_ng.Execute.Integer.{set_rd, r1, r2}
use uotan_riscv_emu_ng.Execute.System.{exception_at}
use uotan_riscv_emu_ng.Execute.Atomic.{
  release, reserved, misaligned, conditional, store_conditional,
}

module _ {W : Type 0} (mem : Memory W) (d : DecodedInsn) where
  abbrev GivesUp : Result (Unit {0}) × Machine W → Type 0
  GivesUp r = r.0 ≡ ok tt → r.1.hart.mmu.reservation_valid ≡ false

  stored-GivesUp :
      (r : Result (Unit {0})) (m' : Machine W)
      → GivesUp (after (λ _. modify (λ m''. release (set_rd mem d 0 m''))) r m')
  stored-GivesUp (ok t) m' e = refl
  stored-GivesUp (trap t) m' e = absurd (ground arith)
  stored-GivesUp wfi_wait m' e = absurd (ground arith)
  stored-GivesUp terminate m' e = absurd (ground arith)

  either-GivesUp :
      (b : Bool) (x y : Result (Unit {0}) × Machine W)
      → GivesUp x
      → GivesUp y
      → GivesUp (if b then x else y)
  either-GivesUp true x y p q = p
  either-GivesUp false x y p q = q

  conditional_lem :
      (size addr : ℕ) (m : Machine W)
      → conditional mem d size addr m ≡ (
          if reserved addr m
          then (mem.write_mem size d.pc addr (r2 mem d m % 2 ^ (8 * size))
                >> modify (λ m'. release (set_rd mem d 0 m')))
              m
          else (ok tt, release (set_rd mem d 1 m)))
  conditional_lem size addr m = ground arith

  conditional-GivesUp : (size addr : ℕ) (m : Machine W) → GivesUp (conditional mem d size addr m)
  conditional-GivesUp size addr m = rw (conditional_lem size addr m) (
      either-GivesUp (reserved addr m)
        ((mem.write_mem size d.pc addr v >> modify (λ m'. release (set_rd mem d 0 m'))) m)
        (ok tt, release (set_rd mem d 1 m))
        (stored-GivesUp (mem.write_mem size d.pc addr v m).0 (mem.write_mem size d.pc addr v m).1)
        (λ e. refl))
    where
      v : ℕ
      v = r2 mem d m % 2 ^ (8 * size)

  probed-GivesUp :
      (size addr : ℕ) (r : Result (Unit {0})) (m' : Machine W)
      → GivesUp (after (λ _. conditional mem d size addr) r m')
  probed-GivesUp size addr (ok t) m' = conditional-GivesUp size addr m'
  probed-GivesUp size addr (trap t) m' = λ e. absurd (ground arith)
  probed-GivesUp size addr wfi_wait m' = λ e. absurd (ground arith)
  probed-GivesUp size addr terminate m' = λ e. absurd (ground arith)

  aligned-GivesUp :
      (b : Bool) (t : Trap) (size addr : ℕ) (m : Machine W)
      → GivesUp
          ((raise_if b t >> (mem.probe_store size d.pc addr >> conditional mem d size addr)) m)
  aligned-GivesUp true t size addr m = λ e. absurd (ground arith)
  aligned-GivesUp false t size addr m =
      probed-GivesUp size addr (mem.probe_store size d.pc addr m).0
        (mem.probe_store size d.pc addr m).1

  -- An SC that completes, whether it stored or not, leaves no reservation.
  pub store_conditional-reservation_valid :
      (size : ℕ) (m : Machine W)
      → (store_conditional mem d size m).0 ≡ ok tt
      → (store_conditional mem d size m).1.hart.mmu.reservation_valid ≡ false
  store_conditional-reservation_valid size m =
      aligned-GivesUp (misaligned mem d size a) (exception_at d store_amo_access_fault a) size a m
    where
      a : ℕ
      a = r1 mem d m

  -- The end `r` of an SC to `addr` on `m`: with no reservation of `addr`, nothing is stored and `rd`
  -- becomes 1; with one, it is the end of the write, and `rd` becomes 0 if that succeeds.
  abbrev pub FailsOrStores : ℕ → ℕ → Machine W → Result (Unit {0}) × Machine W → Type 0
  FailsOrStores size addr m r =
      let w = mem.write_mem size d.pc addr (r2 mem d m % 2 ^ (8 * size)) m in
      (((m.hart.mmu.reservation_valid ≡ false) ⊎ (m.hart.mmu.reservation_address ≢ addr))
        × (r.0 ≡ ok tt)
        × (r.1.world ≡ m.world)
        × (r.1.hart.gprs ≡ (write_gpr d.rd 1 m.hart).gprs))
      ⊎ ((m.hart.mmu.reservation_valid ≡ true)
          × (m.hart.mmu.reservation_address ≡ addr)
          × (r.0 ≡ w.0)
          × (r.1.world ≡ w.1.world)
          × ((r.0 ≢ ok tt) ⊎ (r.1.hart.gprs ≡ (write_gpr d.rd 0 w.1.hart).gprs)))

  stored :
      (r : Result (Unit {0})) (m : Machine W)
      → let e = after (λ _. modify (λ m'. release (set_rd mem d 0 m'))) r m in
        (e.0 ≡ r)
        × (e.1.world ≡ m.world)
        × ((e.0 ≢ ok tt) ⊎ (e.1.hart.gprs ≡ (write_gpr d.rd 0 m.hart).gprs))
  stored (ok t) m = (refl, refl, inr refl)
  stored (trap t) m = (refl, refl, inl (λ e. absurd (ground arith)))
  stored wfi_wait m = (refl, refl, inl (λ e. absurd (ground arith)))
  stored terminate m = (refl, refl, inl (λ e. absurd (ground arith)))

  reserved-true :
      (addr : ℕ) (m : Machine W)
      → reserved addr m ≡ true
      → (m.hart.mmu.reservation_valid ≡ true) × (m.hart.mmu.reservation_address ≡ addr)
  reserved-true addr m e = ground arith

  reserved-false :
      (addr : ℕ) (m : Machine W)
      → reserved addr m ≡ false
      → (m.hart.mmu.reservation_valid ≡ false) ⊎ (m.hart.mmu.reservation_address ≢ addr)
  reserved-false addr m e = elim (Bool-cases (m.hart.mmu.reservation_valid)) [
    | inl v ↦ inr (λ a. absurd (ground arith))
    | inr v ↦ inl v
  ]

  conditional-FailsOrStores :
      (size addr : ℕ) (m : Machine W) → FailsOrStores size addr m (conditional mem d size addr m)
  conditional-FailsOrStores size addr m = elim (Bool-cases (reserved addr m)) [
    | inl e ↦
        rw (conditional_lem size addr m, e)
          (let w = mem.write_mem size d.pc addr (r2 mem d m % 2 ^ (8 * size)) m in
            let (v, a) = reserved-true addr m e in
            let (result, world, rd) = stored w.0 w.1 in inr (v, a, result, world, rd))
    | inr e ↦ rw (conditional_lem size addr m, e) (inl (reserved-false addr m e, refl, refl, refl))
  ]

  -- An SC to an aligned address that may be stored to fails without a reservation of just that
  -- address, when it stores nothing, and else stores the low bytes of `rs2` there.
  pub store_conditional-FailsOrStores :
      (size : ℕ) (m m' : Machine W)
      → bit_and (r1 mem d m) (size - 1) ≡ 0
      → mem.probe_store size d.pc (r1 mem d m) m ≡ (ok tt, m')
      → FailsOrStores size (r1 mem d m) m' (store_conditional mem d size m)
  store_conditional-FailsOrStores size m m' aligned probed =
      rw (aligned, probed) (conditional-FailsOrStores size (r1 mem d m) m')
