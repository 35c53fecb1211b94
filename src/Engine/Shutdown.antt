-- ===== src/Engine/Shutdown.antt =====
-- How long `ExecutionEngine::cpu_thread` of src/execution_engine.cpp runs on once the host asked it to
-- stop: it reads `shutdown_from_host_` when its 16-bit counter is 0, and while it waits after WFI.
use uotan_riscv_emu_ng.Base.{
  ℕ, zero, suc, ◌+◌, ◌-◌, ◌*◌, ◌%◌, ◌^◌, ◌<◌, ◌≤◌, ◌≡◌, refl, Bool, true, false, ◌&&◌, ◌||◌, ◌==◌,
  if◌then◌else◌, arith, Bool-cases, inl, inr,
}
use uotan_riscv_emu_ng.Core.Trap.{Result, ok, trap, wfi_wait, terminate}
use uotan_riscv_emu_ng.Core.State.{Hart}
use uotan_riscv_emu_ng.Core.Interrupts.{handle_trap}
use uotan_riscv_emu_ng.Core.Memory.{Machine}
use uotan_riscv_emu_ng.Decoder.Names.{DecodedInsn}
use uotan_riscv_emu_ng.Float.{Softfloat}
use uotan_riscv_emu_ng.Memory.{Bus}
use uotan_riscv_emu_ng.Engine.{
  ThreadState, running, waiting, stopped, terminated, next_round, after_trap, settle, round,
  attempt, on_csrs, advance_mcycle,
}

-- How far the counter is from the next 0.
abbrev to_zero : ℕ → ℕ
to_zero i = (2 ^ 16 - i) % 2 ^ 16

-- How many rounds are left at most.
left : {W : Type 0} → ThreadState W → ℕ
left (running i m) = 1 + 2 * to_zero i
left (waiting i m) = 2 + 2 * to_zero i
left (stopped m) = 0
left terminated = 0

-- The counter is a `uint16_t`.
abbrev pub InRange : {W : Type 0} → ThreadState W → Type 0
InRange (running i m) = i < 2 ^ 16
InRange (waiting i m) = i < 2 ^ 16
InRange (stopped m) = Unit {0}
InRange terminated = Unit {0}

-- The thread has left its loop, or the process has ended.
abbrev pub is_over : {W : Type 0} → ThreadState W → Bool
is_over (running i m) = false
is_over (waiting i m) = false
is_over (stopped m) = true
is_over terminated = true

-- A state with the counter `i` that takes no more rounds than waiting would, or one.
abbrev Near : {W : Type 0} → ℕ → ThreadState W → Type 0
Near i st = InRange st × (left st ≤ 2 + 2 * to_zero i)

module _ {W : Type 0} (i : ℕ) (l : i < 2 ^ 16) where
  after_trap-Near : (m : Machine W) (r : Result (Unit {0}) × Hart) → Near i (after_trap i m r)
  unfolding left
  after_trap-Near m (ok u, h) = (l, omega arith)
  after_trap-Near m (trap t, h) = (tt, omega arith)
  after_trap-Near m (wfi_wait, h) = (tt, omega arith)
  after_trap-Near m (terminate, h) = (tt, omega arith)

  settle-Near : (r : Result (Unit {0}) × Machine W) → Near i (settle i r)
  unfolding left
  settle-Near (ok u, m) = (l, omega arith)
  settle-Near (trap t, m) = after_trap-Near m (handle_trap t m.hart)
  settle-Near (wfi_wait, m) = (l, omega arith)
  settle-Near (terminate, m) = (tt, omega arith)

left-le : {W : Type 0} (st : ThreadState W) → left st ≤ 2 ^ 17
unfolding left
left-le (running i m) = omega arith
left-le (waiting i m) = omega arith
left-le (stopped m) = omega arith
left-le terminated = omega arith

-- A round is progress if the counter stays in range and less is left.
abbrev Progress : {W : Type 0} → ℕ → ThreadState W → Type 0
Progress n st = InRange st × (suc (left st) ≤ n)

module _ {W : Type 0} (sf : Softfloat) (s : DecodedInsn) (guest : ℕ → Bool) where
  -- `n` rounds under a request of the host, with what each reads of the guest's.
  unfoldable pub rounds : ℕ → ThreadState (Bus W) → ThreadState (Bus W)
  unfolding round
  rounds zero st = st
  rounds (suc n) st = rounds n (round sf s (guest n) true st)

  halves :
      (b : Bool) (i n : ℕ) (x : Machine (Bus W)) (y : ThreadState (Bus W))
      → suc 0 ≤ n
      → Progress n y
      → Progress n (if b then stopped x else y)
  unfolding left
  halves true i n x y p q = (tt, p)
  halves false i n x y p q = q

  run_on :
      (i : ℕ) (g : Bool) (m : Machine (Bus W)) (r : Result (Unit {0}) × Machine (Bus W))
      → i < 2 ^ 16
      → Progress
          (1 + 2 * to_zero i)
          (if g || (i == 0 && true) then stopped m else settle (next_round i) r)
  unfolding left
  run_on i g m r l = elim (Bool-cases (g || (i == 0 && true))) [
    | inl e ↦ rw e (tt, omega arith)
    | inr e ↦ rw e (near.0, ground (arith, near.1))
  ]
    where
      near : Near (next_round i) (settle (next_round i) r)
      near = settle-Near (next_round i) (omega arith) r

  round-Progress :
      (g : Bool) (st : ThreadState (Bus W))
      → InRange st
      → is_over st ≡ false
      → Progress (left st) (round sf s g true st)
  unfolding left round
  round-Progress g (running i m) l e = run_on i g m (attempt sf s i (on_csrs advance_mcycle m)) l
  round-Progress true (waiting i m) l e = (l, omega arith)
  round-Progress false (waiting i m) l e = (l, omega arith)
  round-Progress g (stopped m) l e = absurd (ground arith)
  round-Progress g terminated l e = absurd (ground arith)

  over-stays : (n : ℕ) (st : ThreadState (Bus W)) → is_over st ≡ true → is_over (rounds n st) ≡ true
  unfolding rounds round
  over-stays zero st e = e
  over-stays (suc n) (running i m) e = absurd (ground arith)
  over-stays (suc n) (waiting i m) e = absurd (ground arith)
  over-stays (suc n) (stopped m) e = over-stays n (stopped m) refl
  over-stays (suc n) terminated e = over-stays n terminated refl

  rounds-over :
      (n : ℕ) (st : ThreadState (Bus W)) → InRange st → left st ≤ n → is_over (rounds n st) ≡ true
  unfolding rounds left
  rounds-over zero (running i m) l b = absurd (omega (arith, b))
  rounds-over zero (waiting i m) l b = absurd (omega (arith, b))
  rounds-over zero (stopped m) l b = refl
  rounds-over zero terminated l b = refl
  rounds-over (suc n) st l b = elim (Bool-cases (is_over st)) [
    | inl e ↦ over-stays (suc n) st e
    | inr e ↦
        let p = round-Progress (guest n) st l e in
        rounds-over n (round sf s (guest n) true st) p.0 (omega (arith, p.1, b))
  ]

  -- Once the host has asked it to stop, the thread leaves its loop within 2 ^ 17 rounds, whatever the
  -- guest does: from any state whose counter is in range, running or waiting after WFI, and with any
  -- requests of the guest.
  pub rounds-stops : (st : ThreadState (Bus W)) → InRange st → is_over (rounds (2 ^ 17) st) ≡ true
  rounds-stops st l = rounds-over (2 ^ 17) st l (left-le st)
