-- ===== src/Device/GoldfishRtc.antt =====
-- The clock: include/device/goldfish_rtc.hpp and src/device/goldfish_rtc.cpp. Its mutex makes each
-- operation one step. The calls of `update_irq` are a list, the last first.
pub mod Time
use uotan_riscv_emu_ng.Base.{
  ℕ, ◌+◌, ◌*◌, ◌/◌, ◌%◌, ◌^◌, Bool, true, false, not, ◌&&◌, Option, none, some, List, ◌∷◌, [],
}
use uotan_riscv_emu_ng.Base.{bit_and, bit_or, ◌==◌, leb, truthy, if◌then◌else◌}
use uotan_riscv_emu_ng.Base.Word.{add64, sub64}

-- `host_time` is the host's clock in nanoseconds, `get_host_time_ns()`. Only the host changes it.
pub record GoldfishRtc : Type 0 where
  pub tick_offset : ℕ
  pub alarm_next : ℕ
  pub alarm_running : ℕ
  pub irq_pending : ℕ
  pub irq_enabled : ℕ
  pub time_high : ℕ
  pub host_time : ℕ
  pub irq_calls : List Bool

-- The constructor, at a time of the host's calendar in seconds.
unfoldable pub new_rtc : ℕ → ℕ → GoldfishRtc
new_rtc unix_time host_time = record {
  tick_offset = sub64 (unix_time * 1000000000 % 2 ^ 64) host_time;
  alarm_next = 0;
  alarm_running = 0;
  irq_pending = 0;
  irq_enabled = 0;
  time_high = 0;
  host_time = host_time;
  irq_calls = [];
}

abbrev pub get_count : GoldfishRtc → ℕ
get_count r = add64 r.host_time r.tick_offset

unfoldable pub update_irq : GoldfishRtc → GoldfishRtc
update_irq r = record r { irq_calls = (truthy r.irq_pending && truthy r.irq_enabled) ∷ r.irq_calls }

unfoldable pub trigger_interrupt : GoldfishRtc → GoldfishRtc
unfolding update_irq
trigger_interrupt r = update_irq (record r { alarm_running = 0; irq_pending = 1 })

abbrev pub clear_alarm : GoldfishRtc → GoldfishRtc
clear_alarm r = record r { alarm_running = 0 }

unfoldable pub set_alarm : GoldfishRtc → GoldfishRtc
unfolding trigger_interrupt
set_alarm r =
    if leb r.alarm_next (get_count r)
    then trigger_interrupt (clear_alarm r)
    else record r { alarm_running = 1 }

unfoldable pub rtc_tick : GoldfishRtc → GoldfishRtc
unfolding trigger_interrupt
rtc_tick r =
    if truthy r.alarm_running && leb r.alarm_next (get_count r) then trigger_interrupt r else r

-- The `switch` of a read of four bytes.
unfoldable pub read_register : ℕ → GoldfishRtc → Option ℕ × GoldfishRtc
read_register offset r =
    if offset == 0x00
    then (some (bit_and (get_count r) 0xFFFFFFFF), record r { time_high = get_count r / 2 ^ 32 })
    else if offset == 0x04
    then (some r.time_high, r)
    else if offset == 0x08
    then (some (bit_and r.alarm_next 0xFFFFFFFF), r)
    else if offset == 0x0c
    then (some (r.alarm_next / 2 ^ 32), r)
    else if offset == 0x10
    then (some r.irq_enabled, r)
    else if offset == 0x18
    then (some r.alarm_running, r)
    else (none, r)

abbrev joined : ℕ → Option ℕ × GoldfishRtc → Option ℕ × GoldfishRtc
joined lo (none, r) = (none, r)
joined lo (some hi, r) = (some (bit_or lo (hi * 2 ^ 32)), r)

abbrev then_high : ℕ → Option ℕ × GoldfishRtc → Option ℕ × GoldfishRtc
then_high offset (none, r) = (none, r)
then_high offset (some lo, r) = joined lo (read_register (offset + 4) r)

-- `read_internal`
unfoldable pub rtc_read : ℕ → ℕ → GoldfishRtc → Option ℕ × GoldfishRtc
unfolding read_register
rtc_read offset size r =
    if size == 8
    then then_high offset (read_register offset r)
    else if not (size == 4)
    then (none, r)
    else read_register offset r

-- `(x & 0xFFFFFFFF00000000) | v` and `(x & 0xFFFFFFFF) | (v << 32)`
unfoldable pub with_low : ℕ → ℕ → ℕ
with_low x v = bit_or (bit_and x 0xFFFFFFFF00000000) v

unfoldable pub with_high : ℕ → ℕ → ℕ
with_high x v = bit_or (bit_and x 0xFFFFFFFF) (v * 2 ^ 32)

-- `tick_offset_ += new_tick - current_tick`
abbrev pub shift_to : ℕ → GoldfishRtc → GoldfishRtc
shift_to new_tick r = record r { tick_offset = add64 r.tick_offset (sub64 new_tick (get_count r)) }

-- The `switch` of a write of four bytes, once the value is cut to them.
unfoldable pub write_register : ℕ → ℕ → GoldfishRtc → Bool × GoldfishRtc
unfolding with_low with_high set_alarm update_irq
write_register offset v r =
    if offset == 0x00
    then (true, shift_to (with_low (get_count r) v) r)
    else if offset == 0x04
    then (true, shift_to (with_high (get_count r) v) r)
    else if offset == 0x08
    then (true, set_alarm (record r { alarm_next = with_low r.alarm_next v }))
    else if offset == 0x0c
    then (true, record r { alarm_next = with_high r.alarm_next v })
    else if offset == 0x10
    then (true, update_irq (record r { irq_enabled = bit_and v 1 }))
    else if offset == 0x14
    then (true, clear_alarm r)
    else if offset == 0x1c
    then (true, update_irq (record r { irq_pending = 0 }))
    else (false, r)

-- `write_internal(..) && write_internal(..)`
abbrev and_high : ℕ → ℕ → Bool × GoldfishRtc → Bool × GoldfishRtc
and_high offset v (true, r) = write_register offset v r
and_high offset v (false, r) = (false, r)

-- `write_internal`
unfoldable pub rtc_write : ℕ → ℕ → ℕ → GoldfishRtc → Bool × GoldfishRtc
unfolding write_register
rtc_write offset size value r =
    if size == 8
    then and_high (offset + 4) (bit_and (value / 2 ^ 32) 0xFFFFFFFF)
        (write_register offset (bit_and value 0xFFFFFFFF) r)
    else if not (size == 4)
    then (false, r)
    else write_register offset (bit_and value 0xFFFFFFFF) r
