-- ===== src/Core/Csr/Epc.antt =====
-- The exception program counters never show bit 0: `EPCCSR` of include/core/hart.hpp.
use uotan_riscv_emu_ng.Base.{ℕ, ◌+◌, ◌-◌, ◌*◌, ◌/◌, ◌^◌, ◌<◌, max, ◌≡◌, ap}
use uotan_riscv_emu_ng.Base.{◌==◌, if◌then◌else◌, arith}
use uotan_riscv_emu_ng.Base.Bits
use uotan_riscv_emu_ng.Base.Digits.{
  digit, digit-not, digit-pow, digit-div, digit-reset, digit-mul, digits_ext,
}
use uotan_riscv_emu_ng.Core.Csr.{epc_read, epc_write, epc_mask}
use uotan_riscv_emu_ng.Core.Csr.Status.{digit-merge}

epc_read-digit : (k v : ℕ) → k < 64 → digit (epc_read v) k ≡ (if k == 0 then 0 else digit v k)
unfolding epc_read
epc_read-digit k v h = digit-reset 0 k v h (omega arith)

epc_read-lt : (v : ℕ) → epc_read v < 2 ^ 64
unfolding epc_read
epc_read-lt v = Bits.bit_and-lt 64 v epc_mask (omega arith)

epc_write-digit :
    (k value v : ℕ)
    → k < 64
    → digit (epc_write value v) k ≡ (if k == 0 then digit value k else digit v k)
unfolding epc_write
epc_write-digit k value v h = ground (
  arith,
  digit-merge k value v epc_mask h (omega arith),
  digit-not k 1 h (omega arith),
  digit-pow 0 k,
)

-- A written counter reads back as the address of its half-word.
pub epc_read-epc_write : (value v : ℕ) → epc_read (epc_write value v) ≡ epc_read v
epc_read-epc_write value v =
    digits_ext 64 _ _ (epc_read-lt (epc_write value v)) (epc_read-lt v) λ k h. ground (
      arith,
      epc_read-digit k (epc_write value v) h,
      epc_write-digit k value v h,
      epc_read-digit k v h,
    )

prev : (k : ℕ) → 1 + (k - 1) ≡ max 1 k
prev k = omega arith

pub epc_read_lem : (v : ℕ) → v < 2 ^ 64 → epc_read v ≡ v / 2 * 2
epc_read_lem v h = digits_ext 64 _ _ (epc_read-lt v) (omega arith) λ k l. ground (
  arith,
  epc_read-digit k v l,
  digit-mul 1 k (v / 2),
  digit-div 1 (k - 1) v,
  ap (λ (t : ℕ). digit v t) (prev k),
)
