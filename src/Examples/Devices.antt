-- ===== src/Examples/Devices.antt =====
-- Devices at concrete states.
use uotan_riscv_emu_ng.Base.{
  ℕ, ◌<◌, ◌≡◌, ◌≢◌, refl, arith, true, false, some, [], ◌∷◌, ◌++◌, replicate, length-replicate, not,
  ◌&&◌, of_bool, ◌==◌, ◌-◌, leb,
}
use uotan_riscv_emu_ng.Base.Digits.{digit}
use uotan_riscv_emu_ng.Core.State.{reset, Clint, TimeBase}
use uotan_riscv_emu_ng.Core.Clint.{menvcfg_read}
use uotan_riscv_emu_ng.Memory.Bytes.{load, store}
use uotan_riscv_emu_ng.Device.Clint
use uotan_riscv_emu_ng.Device.Clint.{read_little_endian, write_little_endian}
use uotan_riscv_emu_ng.Device.Clint.Words.{read_little_endian-write_little_endian}
use uotan_riscv_emu_ng.Device.Clint.Timer.{write_internal-line}
use uotan_riscv_emu_ng.Device.Plic.{
  Context, context_best_pending, context_claim, context_update, word_loop, bit_loop, consider,
}
use uotan_riscv_emu_ng.Device.Plic.Claim.{offered, IsOffer, context_best_pending-IsOffer}
use uotan_riscv_emu_ng.Device.Plic.Exclusive.{claim_id, after_claim, context_claim-offered}
use uotan_riscv_emu_ng.Device.Plic.Line.{context_update-line}
use uotan_riscv_emu_ng.Device.GoldfishEvents.{
  GoldfishEvents, state_live, enqueue_event, dequeue_event,
}
use uotan_riscv_emu_ng.Device.GoldfishEvents.Queue.{
  IsValid, queue, enqueue_event-queue, dequeue_event-queue,
}
use uotan_riscv_emu_ng.Device.GoldfishRtc.{
  GoldfishRtc, new_rtc, rtc_read, rtc_write, write_register, set_alarm, trigger_interrupt,
  update_irq, with_low,
}
use uotan_riscv_emu_ng.Device.GoldfishRtc.Time.{rtc_read-rtc_write}
use uotan_riscv_emu_ng.Device.GoldfishEvents.Overflow.{enqueue_event-overflow}

-- Sources 1 and 2 are pending, with priorities 1 and 3.
two_pending : Context
two_pending = record {
  mmode = true;
  priority_threshold = 0;
  enable = 6 ∷ [];
  pending = 6 ∷ [];
  pending_priority = 0 ∷ 1 ∷ 3 ∷ [];
  claimed = 0 ∷ [];
}

best_test : context_best_pending 3 1 two_pending ≡ 2
unfolding two_pending context_best_pending word_loop bit_loop consider
best_test = refl

context_best_pending-IsOffer_example : IsOffer 3 two_pending (context_best_pending 3 1 two_pending)
unfolding two_pending
context_best_pending-IsOffer_example =
    context_best_pending-IsOffer 3 two_pending 1 refl (omega arith)

claim_test : claim_id 3 1 two_pending (reset 0) ≢ 0
unfolding context_claim
claim_test e = absurd (omega (arith, best_test, e))

-- Source 2 is not offered after its claim.
context_claim-offered_example :
    offered 3 (after_claim 3 1 two_pending (reset 0)) 2
    ≡ (offered 3 two_pending 2 && not (2 == claim_id 3 1 two_pending (reset 0)))
unfolding two_pending
context_claim-offered_example =
    context_claim-offered 3 1 two_pending (reset 0) 2 refl (omega arith) (omega arith) claim_test

context_update-line_example :
    digit (context_update 3 1 two_pending (reset 0)).csrs.mip 11
    ≡ of_bool (not (context_best_pending 3 1 two_pending == 0))
unfolding two_pending
context_update-line_example = context_update-line 3 1 two_pending (reset 0) 11 (omega arith)

abbrev ring : ℕ → ℕ → GoldfishEvents
ring first last = record {
  device_name = [];
  page = 0;
  state = state_live;
  events = replicate 1024 9;
  first = first;
  last = last;
  ev_bits = [];
  irq_calls = [];
}

ring-IsValid : (first last : ℕ) → first < 1024 → last < 1024 → IsValid (ring first last)
ring-IsValid first last h l = record {
  room = length-replicate {A = ℕ} 1024 9;
  first_range = h;
  last_range = l;
}

enqueue_event-queue_example :
    queue (enqueue_event 1 30 1 (ring 1022 1023)) ≡ queue (ring 1022 1023) ++ (1 ∷ 30 ∷ 1 ∷ [])
enqueue_event-queue_example =
    enqueue_event-queue 1 30 1 (ring 1022 1023) (ring-IsValid 1022 1023 (omega arith) (omega arith))
      (omega arith)

dequeue_event-queue_example :
    queue (ring 1023 1) ≡ (dequeue_event (ring 1023 1)).0 ∷ queue (dequeue_event (ring 1023 1)).1
dequeue_event-queue_example =
    dequeue_event-queue (ring 1023 1) (ring-IsValid 1023 1 (omega arith) (omega arith))
      (λ e. absurd (omega (arith, e)))

enqueue_event-overflow_example : queue (enqueue_event 1 30 1 (ring 0 1021)) ≡ []
enqueue_event-overflow_example =
    enqueue_event-overflow 1 30 1 (ring 0 1021) (ring-IsValid 0 1021 (omega arith) (omega arith))
      refl

-- A clock of one tick per reading.
abbrev ticks : TimeBase
ticks = record { elapsed_ticks = λ now start. now - start; start_for = λ now v. now - v }

-- The clock stands at 100, and the timer waits for 50.
abbrev timer : Clint
timer = record { mtime = 0; mtimecmp = 50; start_time = 0; now = 100; base = ticks }

reached_test : digit (Clint.write_internal 0xBFF8 8 60 timer (reset 0)).1.csrs.mip 7 ≡ 1
unfolding Clint.write_internal Clint.set_mtime write_little_endian load store menvcfg_read reset
reached_test = refl

write_internal-line_example :
    ((Clint.write_internal 0x4004 4 1 timer (reset 0)).0 ≡ true)
    × ((Clint.write_internal 0xBFFC 4 1 timer (reset 0)).0 ≡ true)
    × (digit (Clint.write_internal 0x4004 4 1 timer (reset 0)).1.csrs.mip 7
        ≡ of_bool (leb (write_little_endian 50 4 4 1) 100))
    × (digit (Clint.write_internal 0xBFFC 4 1 timer (reset 0)).1.csrs.mip 7
        ≡ of_bool (leb 50 (write_little_endian 0 4 4 1)))
write_internal-line_example = write_internal-line 4 4 1 timer (reset 0) (omega arith)

read_little_endian-write_little_endian_example :
    read_little_endian (write_little_endian 0x1122334455667788 2 2 0x1ABCD) 2 2 ≡ 0xABCD
read_little_endian-write_little_endian_example =
    read_little_endian-write_little_endian 0x1122334455667788 2 2 0x1ABCD (omega arith)
      (omega arith)

-- A clock that was set up at second 1000000 when the host's clock showed 5.
abbrev clock : GoldfishRtc
clock = new_rtc 1000000 5

rtc_read-rtc_write_example :
    ((rtc_write 0 8 0x123456789ABCDEF clock).0 ≡ true)
    × ((rtc_read 0 8 (rtc_write 0 8 0x123456789ABCDEF clock).1).0 ≡ some 0x123456789ABCDEF)
rtc_read-rtc_write_example = rtc_read-rtc_write 0x123456789ABCDEF clock (omega arith)

-- An alarm that has passed raises the line.
alarm_test : (rtc_write 8 4 1 (rtc_write 16 4 1 clock).1).1.irq_calls ≡ true ∷ false ∷ []
unfolding rtc_write write_register set_alarm trigger_interrupt update_irq with_low new_rtc
alarm_test = refl
