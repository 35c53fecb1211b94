-- ===== src/Device/GoldfishEvents/Queue.antt =====
-- The ring of the event device as a queue of words: `enqueue_event` and `dequeue_event` of
-- src/device/goldfish_events.cpp.
use uotan_riscv_emu_ng.Base.{
  ℕ, zero, suc, ◌+◌, ◌-◌, ◌%◌, ◌^◌, ◌≤◌, ◌<◌, ◌≡◌, ◌≢◌, refl, ap, ap₂, sym, ◌∙◌, false, List, [],
  ◌∷◌, ◌++◌,
}
use uotan_riscv_emu_ng.Base.{
  ltb, leb, if◌then◌else◌, get_or, set, length, length-set, get_or-set_self, get_or-set_ne, arith,
}
use uotan_riscv_emu_ng.Base.Bits
use uotan_riscv_emu_ng.Device.GoldfishEvents.{
  GoldfishEvents, enqueued, next_index, push_word, announce, enqueue_event, dequeue_event,
  max_events,
}

pub record IsValid (g : GoldfishEvents) : Type 0 where
  pub room : length g.events ≡ 1024
  pub first_range : g.first < 1024
  pub last_range : g.last < 1024

-- `n` words of the ring from index `i` on.
unfoldable pub contents : ℕ → ℕ → List ℕ → List ℕ
contents zero i events = []
contents (suc n) i events = get_or events i 0 ∷ contents n ((i + 1) % 1024) events

-- The queue that the ring stands for.
abbrev pub queue : GoldfishEvents → List ℕ
queue g = contents (enqueued g) g.first g.events

pub next_index_lem : (i : ℕ) → next_index i ≡ (i + 1) % 1024
next_index_lem i = Bits.bit_and_mask 10 (i + 1)

pub contents-snoc :
    (n i : ℕ) (events : List ℕ) (v : ℕ)
    → length events ≡ 1024
    → i < 1024
    → n < 1024
    → contents (suc n) i (set events ((i + n) % 1024) v) ≡ contents n i events ++ (v ∷ [])
unfolding contents
contents-snoc zero i events v r h l =
    ap (λ (j : ℕ). get_or (set events j v) i 0 ∷ []) {y = i} (omega arith)
    ∙ ap (λ (x : ℕ). x ∷ []) (get_or-set_self events i v 0 (omega arith))
contents-snoc (suc n) i events v r h l =
    ap₂ ◌∷◌ (get_or-set_ne events ((i + suc n) % 1024) i v 0 (λ e. absurd (omega arith))) (
      ap (λ (j : ℕ). contents (suc n) i' (set events j v)) {y = (i' + n) % 1024} (omega arith)
      ∙ contents-snoc n i' events v r (omega arith) (omega arith))
  where
    i' : ℕ
    i' = (i + 1) % 1024

pub push_word-enqueued :
    (v : ℕ) (g : GoldfishEvents)
    → IsValid g
    → enqueued g < 1023
    → enqueued (push_word v g) ≡ suc (enqueued g)
unfolding push_word
push_word-enqueued v g i l = ground (arith, i.first_range, i.last_range, next_index_lem g.last)

pub push_word-IsValid : (v : ℕ) (g : GoldfishEvents) → IsValid g → IsValid (push_word v g)
unfolding push_word
push_word-IsValid v g i = record {
  room = length-set g.events g.last v ∙ i.room;
  first_range = i.first_range;
  last_range = omega (arith, next_index_lem g.last);
}

push_word-contents :
    (n v : ℕ) (g : GoldfishEvents)
    → contents n (push_word v g).first (push_word v g).events
      ≡ contents n g.first (set g.events g.last v)
unfolding push_word
push_word-contents n v g = refl

last_index : (g : GoldfishEvents) → IsValid g → g.last ≡ (g.first + enqueued g) % 1024
last_index g i = ground (arith, i.first_range, i.last_range)

-- If the ring is valid and has room for more than one word, a word that is pushed is the last of
-- the queue.
pub push_word-queue :
    (v : ℕ) (g : GoldfishEvents)
    → IsValid g
    → enqueued g < 1023
    → queue (push_word v g) ≡ queue g ++ (v ∷ [])
push_word-queue v g i l =
    push_word-contents (enqueued (push_word v g)) v g
    ∙ ap (λ (n : ℕ). contents n g.first (set g.events g.last v)) (push_word-enqueued v g i l)
    ∙ ap (λ (j : ℕ). contents (suc (enqueued g)) g.first (set g.events j v)) (last_index g i)
    ∙ contents-snoc (enqueued g) g.first g.events v i.room i.first_range (omega arith)

-- The interrupt is raised without a change of the ring.
pub announce-ring :
    (g : GoldfishEvents)
    → ((announce g).first ≡ g.first)
      × ((announce g).last ≡ g.last)
      × ((announce g).events ≡ g.events)
unfolding announce
announce-ring g = (ground arith, ground arith, ground arith)

pub announce-enqueued : (g : GoldfishEvents) → enqueued (announce g) ≡ enqueued g
announce-enqueued g =
    ap₂ (λ (f l : ℕ). if leb f l then l - f else 1024 + l - f) (announce-ring g).0
      (announce-ring g).1

pub announce-IsValid : (g : GoldfishEvents) → IsValid g → IsValid (announce g)
announce-IsValid g i = record {
  room = ap length (announce-ring g).2 ∙ i.room;
  first_range = omega (arith, i.first_range, (announce-ring g).0);
  last_range = omega (arith, i.last_range, (announce-ring g).1);
}

announce-queue : (g : GoldfishEvents) → queue (announce g) ≡ queue g
announce-queue g =
    ap (λ (n : ℕ). contents n (announce g).first (announce g).events) (announce-enqueued g)
    ∙ ap₂ (contents (enqueued g)) (announce-ring g).0 (announce-ring g).2

-- The three words of an event.
pub enqueue_event_lem :
    (type code value : ℕ) (g : GoldfishEvents)
    → enqueued g ≤ 1021
    → enqueue_event type code value g
      ≡ push_word (value % 2 ^ 32) (push_word code (push_word type (announce g)))
unfolding enqueue_event
enqueue_event_lem type code value g l = rw has_room refl
  where
    has_room : ltb max_events (enqueued g + 3) ≡ false
    has_room = ground arith

snoc3 :
    (xs : List ℕ) (a b c : ℕ) → ((xs ++ (a ∷ [])) ++ (b ∷ [])) ++ (c ∷ []) ≡ xs ++ (a ∷ b ∷ c ∷ [])
snoc3 [] a b c = refl
snoc3 (x ∷ xs) a b c = ap (λ (t : List ℕ). x ∷ t) (snoc3 xs a b c)

-- If the ring is valid and holds at most 1020 words, an event's three words are added at the end of
-- the queue.
pub enqueue_event-queue :
    (type code value : ℕ) (g : GoldfishEvents)
    → IsValid g
    → enqueued g ≤ 1020
    → queue (enqueue_event type code value g) ≡ queue g ++ (type ∷ code ∷ value % 2 ^ 32 ∷ [])
enqueue_event-queue type code value g i l =
    ap queue (enqueue_event_lem type code value g (omega arith))
    ∙ push_word-queue (value % 2 ^ 32) g2 i2 (omega (arith, e0, e1, e2))
    ∙ ap (λ (q : List ℕ). q ++ (value % 2 ^ 32 ∷ []))
        (push_word-queue code g1 i1 (omega (arith, e0, e1))
          ∙ ap (λ (q : List ℕ). q ++ (code ∷ []))
              (push_word-queue type (announce g) i0 (omega (arith, e0))
                ∙ ap (λ (q : List ℕ). q ++ (type ∷ [])) (announce-queue g)))
    ∙ snoc3 (queue g) type code (value % 2 ^ 32)
  where
    i0 : IsValid (announce g)
    i0 = announce-IsValid g i

    g1 : GoldfishEvents
    g1 = push_word type (announce g)

    i1 : IsValid g1
    i1 = push_word-IsValid type (announce g) i0

    g2 : GoldfishEvents
    g2 = push_word code g1

    i2 : IsValid g2
    i2 = push_word-IsValid code g1 i1

    e0 : enqueued (announce g) ≡ enqueued g
    e0 = announce-enqueued g

    e1 : enqueued g1 ≡ suc (enqueued (announce g))
    e1 = push_word-enqueued type (announce g) i0 (omega (arith, e0))

    e2 : enqueued g2 ≡ suc (enqueued g1)
    e2 = push_word-enqueued code g1 i1 (omega (arith, e0, e1))

dequeue_event-ring :
    (g : GoldfishEvents)
    → g.first ≢ g.last
    → ((dequeue_event g).0 ≡ get_or g.events g.first 0)
      × ((dequeue_event g).1.first ≡ next_index g.first)
      × ((dequeue_event g).1.last ≡ g.last)
      × ((dequeue_event g).1.events ≡ g.events)
unfolding dequeue_event
dequeue_event-ring g n = (ground arith, ground arith, ground arith, ground arith)

-- If the ring is valid and not empty, a read takes the first word of the queue and leaves the rest.
pub dequeue_event-queue :
    (g : GoldfishEvents)
    → IsValid g
    → g.first ≢ g.last
    → queue g ≡ (dequeue_event g).0 ∷ queue (dequeue_event g).1
unfolding contents
dequeue_event-queue g i n =
    ap (λ (k : ℕ). contents k g.first g.events) one_less
    ∙ ap₂ ◌∷◌ (sym (dequeue_event-ring g n).0)
        (ap₂ (contents (enqueued g')) (sym first') (sym (dequeue_event-ring g n).3))
  where
    g' : GoldfishEvents
    g' = (dequeue_event g).1

    first' : g'.first ≡ (g.first + 1) % 1024
    first' = (dequeue_event-ring g n).1 ∙ next_index_lem g.first

    one_less : enqueued g ≡ suc (enqueued g')
    one_less = ground (arith, i.first_range, i.last_range, first', (dequeue_event-ring g n).2)
