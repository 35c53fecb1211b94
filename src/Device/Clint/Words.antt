-- ===== src/Device/Clint/Words.antt =====
-- `read_little_endian` after `write_little_endian` of include/device/device.hpp.
use uotan_riscv_emu_ng.Base.{
  ℕ, zero, suc, ◌+◌, ◌*◌, ◌/◌, ◌%◌, ◌^◌, ◌<◌, ◌≤◌, ◌≡◌, sym, ap, ◌∙◌, arith, ◌==◌, ◌||◌, ltb, false,
}
use uotan_riscv_emu_ng.Memory.Bytes.{load, store, load-store, load-agree, put_byte}
use uotan_riscv_emu_ng.Device.Clint.{byte_of, read_little_endian, write_little_endian}
use native.Mathlib.Nat.{pow-succ', div-div-eq-div-mul, mod-lt}

above_low : (a l : ℕ) → a < 256 → (a + 256 * l) / 256 ≡ l
above_low a l h = omega arith

low_byte : (a l : ℕ) → a < 256 → (a + 256 * l) / 1 % 256 ≡ a
low_byte a l h = omega arith

-- Byte `j` of the number that bytes make up.
byte_of-load :
    (n : ℕ) (f : ℕ → ℕ) (i j : ℕ)
    → ((k : ℕ) → f k < 256)
    → j < n
    → byte_of (load n f i) j ≡ f (i + j)
unfolding load
byte_of-load zero f i j h l = absurd (omega arith)
byte_of-load (suc n) f i zero h l = low_byte (f i) (load n f (i + 1)) (h i) ∙ ap f (omega arith)
byte_of-load (suc n) f i (suc j) h l =
    ap (λ (t : ℕ). x / t % 256) (pow-succ' 256 j)
    ∙ ap (λ (t : ℕ). t % 256) (sym (div-div-eq-div-mul x 256 (256 ^ j)))
    ∙ ap (λ (t : ℕ). t / 256 ^ j % 256) (above_low (f i) (load n f (i + 1)) (h i))
    ∙ byte_of-load n f (i + 1) j h (omega arith)
    ∙ ap f (omega arith)
  where
    x : ℕ
    x = f i + 256 * load n f (i + 1)

store-byte : (n : ℕ) (f : ℕ → ℕ) (i v : ℕ) → ((k : ℕ) → f k < 256) → (k : ℕ) → store n f i v k < 256
unfolding store
store-byte zero f i v h k = h k
store-byte (suc n) f i v h k =
    store-byte n (put_byte i (v % 256) f) (i + 1) (v / 256) (λ j. ground (arith, h j)) k

-- A number of at most eight bytes that is written within the eight bytes of a word is read back, cut to
-- its bytes.
pub read_little_endian-write_little_endian :
    (dst offset size value : ℕ)
    → 0 < size
    → offset + size ≤ 8
    → read_little_endian (write_little_endian dst offset size value) offset size
      ≡ value % 256 ^ size
unfolding read_little_endian write_little_endian
read_little_endian-write_little_endian dst offset size value p q = rw fits (
    load-agree size (byte_of (load 8 stored 0)) stored offset
      (λ j l k. byte_of-load 8 stored 0 j bytes (omega arith) ∙ ap stored (omega arith))
    ∙ load-store size (byte_of dst) offset value)
  where
    stored : ℕ → ℕ
    stored = store size (byte_of dst) offset value

    bytes : (k : ℕ) → stored k < 256
    bytes = store-byte size (byte_of dst) offset value (λ k. mod-lt (dst / 256 ^ k) (omega arith))

    fits : (size == 0 || ltb 8 (offset + size)) ≡ false
    fits = ground arith
