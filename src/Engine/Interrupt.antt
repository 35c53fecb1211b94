-- ===== src/Engine/Interrupt.antt =====
-- When `ExecutionEngine::cpu_thread` of src/execution_engine.cpp takes an interrupt.
use uotan_riscv_emu_ng.Base.{
  ℕ, ◌%◌, ◌^◌, ◌≡◌, refl, ap, ◌∙◌, Bool, true, false, ◌&&◌, ◌||◌, ◌==◌, bit_and, truthy, Bool-cases,
  inl, inr,
}
use mathlib.Core.Path.{subst, fun_ext}
use uotan_riscv_emu_ng.Core.Trap.{TrapCause, Trap, trap}
use uotan_riscv_emu_ng.Core.Monad.{◌>>◌}
use uotan_riscv_emu_ng.Core.State.{Hart}
use uotan_riscv_emu_ng.Core.Csr.{countinhibit_mask}
use uotan_riscv_emu_ng.Core.Interrupts.{is_none, check_interrupts, throw_interrupt}
use uotan_riscv_emu_ng.Core.Interrupts.Pending.{
  IsFirst, takeable, order, checked, check_interrupts-IsFirst,
}
use uotan_riscv_emu_ng.Core.Memory.{Machine}
use uotan_riscv_emu_ng.Decoder.Names.{DecodedInsn}
use uotan_riscv_emu_ng.Execute.Compressed.{on_hart}
use uotan_riscv_emu_ng.Float.{Softfloat}
use uotan_riscv_emu_ng.Memory.{Bus}
use uotan_riscv_emu_ng.Engine.{
  running, next_round, handle, settle, round, attempt, run_insn, on_csrs, advance_mcycle,
}

-- The hart of a round after its count of the cycle.
abbrev pub cycled : Hart → Hart
cycled h = record h { csrs = advance_mcycle h.csrs }

takeable-cycled : (h : Hart) (n : ℕ) → takeable (cycled h) n ≡ takeable h n
unfolding advance_mcycle
takeable-cycled h n =
    elim (Bool-cases (truthy (bit_and (bit_and h.csrs.mcountinhibit countinhibit_mask) (2 ^ 0)))) [
      | inl e ↦ rw e refl
      | inr e ↦ rw e refl
    ]

thrown :
    (c : TrapCause) (h : Hart)
    → is_none c ≡ false
    → throw_interrupt c h ≡ (trap (record { pc = h.pc; cause = c; tval = 0 }), h)
thrown c h e = rw e refl

module _ {W : Type 0} (sf : Softfloat) (s : DecodedInsn) where
  attempt_lem :
      (i : ℕ) (m : Machine (Bus W))
      → (i % 256 == 0 || m.hart.interrupt_check_pending) ≡ true
      → attempt sf s i m ≡ (on_hart check_interrupts >> run_insn sf s) m
  unfolding attempt
  attempt_lem i m look = rw look refl

  caught :
      (j : ℕ) (m : Machine (Bus W)) (t : Trap) (h : Hart)
      → check_interrupts m.hart ≡ (trap t, h)
      → settle j ((on_hart check_interrupts >> run_insn sf s) m)
        ≡ handle j t (record m { hart = h })
  caught j m t h e = rw e refl

  entered :
      (host : Bool) (i : ℕ) (m : Machine (Bus W))
      → (i == 0 && host) ≡ false
      → round sf s false host (running i m)
        ≡ settle (next_round i) (attempt sf s i (on_csrs advance_mcycle m))
  unfolding round
  entered host i m go = rw go refl

  -- A round that looks for interrupts and finds that the first which may be taken has the cause `c`
  -- goes to its handler, with the pc at which the round began; it fetches and executes nothing.
  pub round-takes :
      (host : Bool) (i : ℕ) (m : Machine (Bus W))
      → (i == 0 && host) ≡ false
      → (i % 256 == 0 || m.hart.interrupt_check_pending) ≡ true
      → (c : TrapCause) × IsFirst (takeable m.hart) order c
        × (is_none c ≡ false
            → round sf s false host (running i m)
              ≡ handle
                  (next_round i)
                  (record { pc = m.hart.pc; cause = c; tval = 0 })
                  (record m { hart = checked (cycled m.hart) }))
  round-takes host i m go look =
      let (c, first, e) = check_interrupts-IsFirst (cycled m.hart) in
      (
        c,
        subst (λ (f : ℕ → Bool). IsFirst f order c) (fun_ext (takeable-cycled m.hart)) first,
        λ some_cause.
            entered host i m go
            ∙ ap (settle (next_round i)) (attempt_lem i (on_csrs advance_mcycle m) look)
            ∙ caught (next_round i) (on_csrs advance_mcycle m) _ _
                (e ∙ thrown c (checked (cycled m.hart)) some_cause),
      )
