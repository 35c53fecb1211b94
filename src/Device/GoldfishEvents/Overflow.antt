-- ===== src/Device/GoldfishEvents/Overflow.antt =====
-- A ring that is filled to its last word reads as empty: `enqueue_event` of
-- src/device/goldfish_events.cpp.
use uotan_riscv_emu_ng.Base.{ℕ, ◌+◌, ◌%◌, ◌^◌, ◌≡◌, refl, ap, ◌∙◌, arith, []}
use uotan_riscv_emu_ng.Device.GoldfishEvents.{
  GoldfishEvents, enqueued, push_word, announce, enqueue_event,
}
use uotan_riscv_emu_ng.Device.GoldfishEvents.Queue.{
  IsValid, contents, queue, next_index_lem, announce-ring, enqueue_event_lem,
}

push_word-ends :
    (v : ℕ) (g : GoldfishEvents)
    → ((push_word v g).first ≡ g.first) × ((push_word v g).last ≡ (g.last + 1) % 1024)
unfolding push_word
push_word-ends v g = (refl, next_index_lem g.last)

-- If the ring is valid and holds 1021 words, as a read of some but not all words of an event can
-- leave it, the next event is accepted and the ring then reads as empty: every event is lost.
pub enqueue_event-overflow :
    (type code value : ℕ) (g : GoldfishEvents)
    → IsValid g
    → enqueued g ≡ 1021
    → queue (enqueue_event type code value g) ≡ []
unfolding contents
enqueue_event-overflow type code value g i e =
    ap queue (enqueue_event_lem type code value g (omega arith))
    ∙ ap (λ (n : ℕ). contents n g3.first g3.events) empty
  where
    g0 : GoldfishEvents
    g0 = announce g

    g1 : GoldfishEvents
    g1 = push_word type g0

    g2 : GoldfishEvents
    g2 = push_word code g1

    g3 : GoldfishEvents
    g3 = push_word (value % 2 ^ 32) g2

    first3 : g3.first ≡ g.first
    first3 =
        (push_word-ends (value % 2 ^ 32) g2).0
        ∙ (push_word-ends code g1).0
        ∙ (push_word-ends type g0).0
        ∙ (announce-ring g).0

    full : (g.last + 3) % 1024 ≡ g.first
    full = ground (arith, i.first_range, i.last_range)

    last3 : g3.last ≡ g.first
    last3 = omega (
      arith,
      full,
      i.last_range,
      (push_word-ends (value % 2 ^ 32) g2).1,
      (push_word-ends code g1).1,
      (push_word-ends type g0).1,
      (announce-ring g).1,
    )

    empty : enqueued g3 ≡ 0
    empty = ground (arith, first3, last3)
