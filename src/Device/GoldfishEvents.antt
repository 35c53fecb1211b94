-- ===== src/Device/GoldfishEvents.antt =====
-- The event device: include/device/goldfish_events.hpp and src/device/goldfish_events.cpp. Its
-- mutex makes each operation one step. The calls of `update_irq` are a list, the last first.
pub mod Queue
pub mod Overflow
use uotan_riscv_emu_ng.Base.{
  ℕ, zero, suc, ◌+◌, ◌-◌, ◌*◌, ◌/◌, ◌%◌, ◌^◌, Bool, true, false, not, ◌&&◌, ◌||◌, Option, some,
  List, [], ◌∷◌,
}
use uotan_riscv_emu_ng.Base.{
  bit_and, bit_or, ◌==◌, ltb, leb, if◌then◌else◌, get_or, set, replicate, length,
}

pub data State : Type 0 where
  state_init state_buffered state_live : State

abbrev pub max_events : ℕ
max_events = 1024

-- `name` is `device_name_` as character codes.
pub record GoldfishEvents : Type 0 where
  pub device_name : List ℕ
  pub page : ℕ
  pub state : State
  pub events : List ℕ
  pub first : ℕ
  pub last : ℕ
  pub ev_bits : List (List ℕ)
  pub irq_calls : List Bool

abbrev pub is_live : State → Bool
is_live state_live = true
is_live _ = false

abbrev is_buffered : State → Bool
is_buffered state_buffered = true
is_buffered _ = false

abbrev pub update_irq : Bool → GoldfishEvents → GoldfishEvents
update_irq lvl g = record g { irq_calls = lvl ∷ g.irq_calls }

-- `(i + 1) & (MAX_EVENTS - 1)`
abbrev pub next_index : ℕ → ℕ
next_index i = bit_and (i + 1) (max_events - 1)

-- How many words the queue holds.
abbrev pub enqueued : GoldfishEvents → ℕ
enqueued g = if leb g.first g.last then g.last - g.first else max_events + g.last - g.first

-- `events_[last_] = v; last_ = (last_ + 1) & (MAX_EVENTS - 1);`
unfoldable pub push_word : ℕ → GoldfishEvents → GoldfishEvents
push_word v g = record g { events = set g.events g.last v; last = next_index g.last }

-- The first word of an empty queue raises the interrupt, or is kept for the driver.
unfoldable pub announce : GoldfishEvents → GoldfishEvents
announce g =
    if g.first == g.last
    then (if is_live g.state then update_irq true g else record g { state = state_buffered })
    else g

-- `enqueue_event`
unfoldable pub enqueue_event : ℕ → ℕ → ℕ → GoldfishEvents → GoldfishEvents
unfolding push_word announce
enqueue_event type code value g =
    if ltb max_events (enqueued g + 3)
    then g
    else push_word (value % 2 ^ 32) (push_word code (push_word type (announce g)))

-- `dequeue_event`
unfoldable pub dequeue_event : GoldfishEvents → ℕ × GoldfishEvents
dequeue_event g =
    let event = get_or g.events g.first 0 in
    let g' = record g { first = next_index g.first } in
    if g.first == g.last
    then (0, g)
    else if g'.first == g'.last
    then (event, update_irq false g')
    else if ltb (bit_and (g'.first + 2) (max_events - 1)) g'.last
        || ltb g'.last (bit_and g'.first (max_events - 1))
    then (event, update_irq true (update_irq false g'))
    else (event, g')

-- `push_key_event`: `EV_KEY` is 1.
unfoldable pub push_key_event : ℕ → Bool → GoldfishEvents → GoldfishEvents
unfolding enqueue_event
push_key_event keycode press g = enqueue_event 1 keycode (if press then 1 else 0) g

abbrev page_evbits : ℕ
page_evbits = 0x10000

abbrev ev_max : ℕ
ev_max = 0x1f

-- `PAGE_ABSDATA`: `EV_ABS` is 3.
abbrev page_absdata : ℕ
page_absdata = 0x20000 + 3

abbrev bits_of : ℕ → GoldfishEvents → List ℕ
bits_of type g = get_or g.ev_bits type []

unfoldable pub get_page_len : GoldfishEvents → ℕ
get_page_len g =
    if g.page == 0
    then length g.device_name
    else if leb page_evbits g.page && leb g.page (page_evbits + ev_max)
    then length (bits_of (g.page - page_evbits) g)
    else 0

unfoldable pub get_page_data : ℕ → GoldfishEvents → ℕ
unfolding get_page_len
get_page_data offset g =
    if leb (get_page_len g) offset
    then 0
    else if g.page == 0
    then get_or g.device_name offset 0
    else if leb page_evbits g.page && leb g.page (page_evbits + ev_max)
    then get_or (bits_of (g.page - page_evbits) g) offset 0
    else 0

-- A read of the length of the axis page says that the driver is ready.
unfoldable pub driver_ready : ℕ → GoldfishEvents → GoldfishEvents
driver_ready offset g =
    if offset == 4 && g.page == page_absdata
    then record (if is_buffered g.state then update_irq true g else g) { state = state_live }
    else g

unfoldable pub read_internal : ℕ → GoldfishEvents → Option ℕ × GoldfishEvents
unfolding driver_ready dequeue_event get_page_len get_page_data
read_internal offset g =
    let g' = driver_ready offset g in
    let taken = dequeue_event g' in
    if offset == 0
    then (some taken.0, taken.1)
    else if offset == 4
    then (some (get_page_len g'), g')
    else if leb 8 offset
    then (some (get_page_data (offset - 8) g'), g')
    else (some 0, g')

unfoldable pub write_internal : ℕ → ℕ → GoldfishEvents → Bool × GoldfishEvents
write_internal offset value g =
    (true, if offset == 0 then record g { page = value % 2 ^ 32 } else g)

-- The bytes from `i` on that are set whole.
fill_bytes : ℕ → ℕ → List ℕ → List ℕ
fill_bytes zero i bits = bits
fill_bytes (suc n) i bits = fill_bytes n (suc i) (set bits i 0xFF)

abbrev or_byte : ℕ → ℕ → List ℕ → List ℕ
or_byte i mask bits = set bits i (bit_or (get_or bits i 0) mask)

grow : ℕ → List ℕ → List ℕ
grow zero bits = bits
grow (suc n) [] = 0 ∷ grow n []
grow (suc n) (b ∷ bits) = b ∷ grow n bits

-- `set_event_bits` on the bits of one type.
unfoldable pub set_event_bits : ℕ → ℕ → ℕ → GoldfishEvents → GoldfishEvents
unfolding fill_bytes grow
set_event_bits type bitl bith g =
    let il = bitl / 8 in
    let ih = bith / 8 in
    let bits = grow (ih + 1) (bits_of type g) in
    let maskl = 0xFF * 2 ^ (bitl % 8) % 2 ^ 8 in
    let maskh = 0xFF / 2 ^ (7 - bith % 8) in
    let bits' =
      if leb ih il
      then or_byte ih (bit_and maskh maskl) bits
      else or_byte ih maskh (fill_bytes (ih - (il + 1)) (il + 1) (or_byte il maskl bits)) in
    if ltb ev_max type then g else record g { ev_bits = set g.ev_bits type bits' }

-- The constructor: `EV_SYN` is 0 and `EV_KEY` is 1.
unfoldable pub new_events : List ℕ → GoldfishEvents
unfolding set_event_bits
new_events name = set_event_bits 1 0x160 0x1ff (
    set_event_bits 1 1 0xff (
      set_event_bits 0 1 1 (record {
        device_name = name;
        page = 0;
        state = state_init;
        events = replicate max_events 0;
        first = 0;
        last = 0;
        ev_bits = replicate (ev_max + 1) [];
        irq_calls = [];
      })))
