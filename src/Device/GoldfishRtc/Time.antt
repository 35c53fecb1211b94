-- ===== src/Device/GoldfishRtc/Time.antt =====
-- The time of src/device/goldfish_rtc.cpp, written and read.
use uotan_riscv_emu_ng.Base.{
  ℕ, ◌+◌, ◌-◌, ◌*◌, ◌/◌, ◌%◌, ◌^◌, ◌<◌, ◌≡◌, refl, ap, ◌∙◌, Bool, true, some, arith, bit_or,
}
use uotan_riscv_emu_ng.Base.Bits.{bit_and_mask, bit_or-lt}
use uotan_riscv_emu_ng.Base.Digits.{
  digit, digits_ext, digit-or, digit-mul, digit-mod, digit-div, clear_low,
}
use uotan_riscv_emu_ng.Device.GoldfishRtc.{
  GoldfishRtc, get_count, with_low, with_high, shift_to, read_register, write_register, rtc_read,
  rtc_write,
}

parts_or : (x : ℕ) → x < 2 ^ 64 → bit_or (x % 2 ^ 32) (x / 2 ^ 32 * 2 ^ 32) ≡ x
parts_or x l =
    digits_ext 64 _ _ (bit_or-lt 64 (x % 2 ^ 32) (x / 2 ^ 32 * 2 ^ 32) (omega arith) (omega arith))
      l
      λ k s. ground (
        arith,
        digit-or k (x % 2 ^ 32) (x / 2 ^ 32 * 2 ^ 32),
        digit-mul 32 k (x / 2 ^ 32),
        digit-mod 32 k x,
        digit-div 32 (k - 32) x,
        ap (digit x) {x = 32 + (k - 32)} {y = k},
      )

or_parts : (x : ℕ) → x < 2 ^ 64 → bit_or (x / 2 ^ 32 * 2 ^ 32) (x % 2 ^ 32) ≡ x
or_parts x l =
    digits_ext 64 _ _ (bit_or-lt 64 (x / 2 ^ 32 * 2 ^ 32) (x % 2 ^ 32) (omega arith) (omega arith))
      l
      λ k s.
        digit-or k (x / 2 ^ 32 * 2 ^ 32) (x % 2 ^ 32)
        ∙ omega (arith, digit-or k (x % 2 ^ 32) (x / 2 ^ 32 * 2 ^ 32))
        ∙ ap (λ (y : ℕ). digit y k) (parts_or x l)

-- A word of two halves.
halves-or : (hi lo : ℕ) → hi < 2 ^ 32 → lo < 2 ^ 32 → bit_or (hi * 2 ^ 32) lo ≡ hi * 2 ^ 32 + lo
halves-or hi lo h l = rw (upper, lower) at (or_parts (hi * 2 ^ 32 + lo) (omega arith))
  where
    upper : (hi * 2 ^ 32 + lo) / 2 ^ 32 ≡ hi
    upper = omega arith

    lower : (hi * 2 ^ 32 + lo) % 2 ^ 32 ≡ lo
    lower = omega arith

or-halves : (lo hi : ℕ) → lo < 2 ^ 32 → hi < 2 ^ 32 → bit_or lo (hi * 2 ^ 32) ≡ hi * 2 ^ 32 + lo
or-halves lo hi l h = rw (upper, lower) at (parts_or (hi * 2 ^ 32 + lo) (omega arith))
  where
    upper : (hi * 2 ^ 32 + lo) / 2 ^ 32 ≡ hi
    upper = omega arith

    lower : (hi * 2 ^ 32 + lo) % 2 ^ 32 ≡ lo
    lower = omega arith

with_low_lem : (x v : ℕ) → x < 2 ^ 64 → v < 2 ^ 32 → with_low x v ≡ x / 2 ^ 32 * 2 ^ 32 + v
unfolding with_low
with_low_lem x v l h =
    ap (λ (t : ℕ). bit_or t v) (clear_low 32 x (omega arith) l)
    ∙ halves-or (x / 2 ^ 32) v (omega arith) h

with_high_lem : (x v : ℕ) → v < 2 ^ 32 → with_high x v ≡ v * 2 ^ 32 + x % 2 ^ 32
unfolding with_high
with_high_lem x v h =
    ap (λ (t : ℕ). bit_or t (v * 2 ^ 32)) (bit_and_mask 32 x)
    ∙ or-halves (x % 2 ^ 32) v (omega arith) h

get_count-shift_to : (t : ℕ) (r : GoldfishRtc) → t < 2 ^ 64 → get_count (shift_to t r) ≡ t
get_count-shift_to t r l = omega arith

read_time : (r : GoldfishRtc) → (rtc_read 0 8 r).0 ≡ some (get_count r)
unfolding rtc_read read_register
read_time r = ap some (
    ap (λ (t : ℕ). bit_or t (get_count r / 2 ^ 32 * 2 ^ 32)) (bit_and_mask 32 (get_count r))
    ∙ parts_or (get_count r) (omega arith))

-- The clock after the two halves of a time are written, low half first.
set_time : ℕ → GoldfishRtc → GoldfishRtc
set_time v r =
    let r' = shift_to (with_low (get_count r) (v % 2 ^ 32)) r in
    shift_to (with_high (get_count r') (v / 2 ^ 32 % 2 ^ 32)) r'

set_time-count : (v : ℕ) (r : GoldfishRtc) → v < 2 ^ 64 → get_count (set_time v r) ≡ v
unfolding set_time
set_time-count v r l = get_count-shift_to _ r' (omega (arith, high)) ∙ omega (arith, high, low)
  where
    r' : GoldfishRtc
    r' = shift_to (with_low (get_count r) (v % 2 ^ 32)) r

    low : get_count r' ≡ get_count r / 2 ^ 32 * 2 ^ 32 + v % 2 ^ 32
    low =
        get_count-shift_to (with_low (get_count r) (v % 2 ^ 32)) r
          (omega (arith, with_low_lem (get_count r) (v % 2 ^ 32) (omega arith) (omega arith)))
        ∙ with_low_lem (get_count r) (v % 2 ^ 32) (omega arith) (omega arith)

    high :
        with_high (get_count r') (v / 2 ^ 32 % 2 ^ 32)
        ≡ v / 2 ^ 32 % 2 ^ 32 * 2 ^ 32 + get_count r' % 2 ^ 32
    high = with_high_lem (get_count r') (v / 2 ^ 32 % 2 ^ 32) (omega arith)

write_time : (v : ℕ) (r : GoldfishRtc) → rtc_write 0 8 v r ≡ (true, set_time v r)
unfolding rtc_write write_register set_time
write_time v r = rw (bit_and_mask 32 v, bit_and_mask 32 (v / 2 ^ 32)) refl

-- A time that is written in eight bytes is accepted and, as long as the host's clock does not move,
-- read back in eight bytes, whatever the clock showed before.
pub rtc_read-rtc_write :
    (v : ℕ) (r : GoldfishRtc)
    → v < 2 ^ 64
    → ((rtc_write 0 8 v r).0 ≡ true) × ((rtc_read 0 8 (rtc_write 0 8 v r).1).0 ≡ some v)
rtc_read-rtc_write v r l = (
  ap (λ (p : Bool × GoldfishRtc). p.0) (write_time v r),
  ap (λ (p : Bool × GoldfishRtc). (rtc_read 0 8 p.1).0) (write_time v r)
      ∙ read_time (set_time v r)
      ∙ ap some (set_time-count v r l),
)
