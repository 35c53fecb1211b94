-- ===== src/Core/Interrupts/Delegation.antt =====
-- Where a trap goes: `Hart::handle_trap` of src/core/hart.cpp.
use uotan_riscv_emu_ng.Base.{ℕ, ◌+◌, ◌*◌, ◌/◌, ◌%◌, ◌^◌, ◌≤◌, ◌<◌, ◌≡◌, refl, ap, ◌∙◌}
use uotan_riscv_emu_ng.Base.{Bool, true, false, ◌&&◌, all_below, all_below-elim, ◌⊎◌, inl, inr}
use uotan_riscv_emu_ng.Base.{bit_and, ◌==◌, leb, not, if◌then◌else◌, arith, Bool-cases}
use uotan_riscv_emu_ng.Base.Bits
use uotan_riscv_emu_ng.Base.Word.{not64}
use uotan_riscv_emu_ng.Base.Digits.{digit, digit-and, digits_ext, digit-reset, digit-mod, clear_low}
use uotan_riscv_emu_ng.Core.Trap.{
  priv_s, priv_m, TrapCause, cause_value, Trap, ok, terminate, Result,
}
use uotan_riscv_emu_ng.Core.State.{Hart}
use uotan_riscv_emu_ng.Core.Csr.{medeleg_mask}
use uotan_riscv_emu_ng.Core.Interrupts.{
  delegated, handle_trap, trap_to_s, trap_to_m, is_none, is_interrupt, cause_code, vector_target,
}

trap_to_s-priv : (t : Trap) (h : Hart) → (trap_to_s t h).priv ≡ priv_s
unfolding trap_to_s
trap_to_s-priv t h = refl

trap_to_m-priv : (t : Trap) (h : Hart) → (trap_to_m t h).priv ≡ priv_m
unfolding trap_to_m
trap_to_m-priv t h = refl

delegated_low : (c : ℕ) (h : Hart) → delegated c h ≡ true → h.priv ≤ priv_s
unfolding delegated
delegated_low c h e = ground arith

handle_trap_lem :
    (t : Trap) (h : Hart)
    → handle_trap t h ≡ (
        if is_none t.cause
        then (terminate, h)
        else if delegated (cause_value t.cause) h
        then (ok tt, trap_to_s t h)
        else (ok tt, trap_to_m t h))
unfolding handle_trap
handle_trap_lem t h = refl

target-priv :
    (t : Trap) (h : Hart)
    → (handle_trap t h).1.priv ≡ (
        if is_none t.cause
        then h.priv
        else if delegated (cause_value t.cause) h
        then priv_s
        else priv_m)
target-priv t h =
    ap (λ (r : Result (Unit {0}) × Hart). r.1.priv) (handle_trap_lem t h)
    ∙ ground (arith, trap_to_s-priv t h, trap_to_m-priv t h)

-- From a privilege below 4, no trap lowers the privilege.
pub handle_trap-priv : (t : Trap) (h : Hart) → h.priv < 4 → h.priv ≤ (handle_trap t h).1.priv
handle_trap-priv t h p = ground (arith, target-priv t h, delegated_low (cause_value t.cause) h)

-- The delegation word that a cause is looked up in, and its bit there.
abbrev pub deleg_bit : TrapCause → Hart → ℕ
deleg_bit c h =
    if is_interrupt (cause_value c)
    then digit h.csrs.mideleg (cause_code (cause_value c))
    else digit h.csrs.medeleg (cause_code (cause_value c))

-- The number of a cause, and whether it is an interrupt, by arithmetic.
abbrev pub cause_number : TrapCause → ℕ
cause_number c = cause_value c % 2 ^ 63

cause_code_lem : (v : ℕ) → v < 2 ^ 64 → cause_code v ≡ v % 2 ^ 63
cause_code_lem v h =
    digits_ext 64 _ _ (Bits.bit_and-lt 64 v (not64 (2 ^ 63)) (omega arith)) (omega arith)
      λ k g. ground (arith, digit-reset 63 k v g (omega arith), digit-mod 63 k v)

is_interrupt_lem : (v : ℕ) → v < 2 ^ 64 → is_interrupt v ≡ leb (2 ^ 63) v
is_interrupt_lem v h = ground (arith, Bits.bit_and_mask 1 (v / 2 ^ 63))

-- What a vector register promises for a cause value.
abbrev pub vectored : ℕ → ℕ → ℕ
vectored tvec v =
    (tvec / 4 * 4 + (if leb (2 ^ 63) v && tvec % 4 == 1 then v % 2 ^ 63 * 4 else 0)) % 2 ^ 64

vector_target_lem :
    (tvec v : ℕ) → tvec < 2 ^ 64 → v < 2 ^ 64 → vector_target tvec v ≡ vectored tvec v
unfolding vector_target
vector_target_lem tvec v h l = ground (
  arith,
  clear_low 2 tvec (omega arith) h,
  Bits.bit_and_mask 2 tvec,
  is_interrupt_lem v l,
  cause_code_lem v l,
)

cause_value-range :
    (c : TrapCause) → (cause_value c < 16) ⊎ ((2 ^ 63 ≤ cause_value c) × (cause_value c < 2 ^ 64))
unfolding cause_value
cause_value-range c = ground arith

exception_table : all_below 16 (λ n. digit medeleg_mask n == (if n == 11 then 0 else 1)) ≡ true
unfolding all_below
exception_table = refl

exception_bit :
    (v n : ℕ) → n < 16 → digit (bit_and v medeleg_mask) n ≡ (if n == 11 then 0 else digit v n)
exception_bit v n l =
    ground (arith, digit-and n v medeleg_mask, all_below-elim 16 _ n exception_table l)

-- When the delegation registers send a cause to S-mode: the trap is not from M-mode, and the bit of
-- the cause is set. An environment call from M-mode has no such bit.
abbrev pub goes_to_s : TrapCause → Hart → Bool
goes_to_s c h =
    let v = cause_value c in
    leb h.priv priv_s
    && (if leb (2 ^ 63) v
        then digit h.csrs.mideleg (v % 2 ^ 63) == 1
        else not (v == 11) && digit h.csrs.medeleg v == 1)

delegated_lem :
    (v : ℕ) (h : Hart)
    → v < 2 ^ 64
    → delegated v h ≡ (
        leb h.priv priv_s
        && digit
            (if leb (2 ^ 63) v then h.csrs.mideleg else bit_and h.csrs.medeleg medeleg_mask)
            (v % 2 ^ 63)
          == 1)
unfolding delegated
delegated_lem v h l =
    rw (cause_code_lem v l, is_interrupt_lem v l)
      (ground (arith, Bits.bit_and_mask 1 (word / 2 ^ (v % 2 ^ 63))))
  where
    word : ℕ
    word = if leb (2 ^ 63) v then h.csrs.mideleg else bit_and h.csrs.medeleg medeleg_mask

delegated_low_cause :
    (v : ℕ) (h : Hart)
    → v < 16
    → delegated v h ≡ (leb h.priv priv_s && (if v == 11 then 0 else digit h.csrs.medeleg v) == 1)
delegated_low_cause v h l =
    delegated_lem v h (omega arith)
    ∙ rw (no_interrupt, whole) (ground (arith, exception_bit h.csrs.medeleg v l))
  where
    whole : v % 2 ^ 63 ≡ v
    whole = omega arith

    no_interrupt : leb (2 ^ 63) v ≡ false
    no_interrupt = ground arith

delegated-goes_to_s : (c : TrapCause) (h : Hart) → delegated (cause_value c) h ≡ goes_to_s c h
delegated-goes_to_s c h = elim (cause_value-range c) [
  | inl l ↦ delegated_low_cause (cause_value c) h l ∙ ground arith
  | inr r ↦ delegated_lem (cause_value c) h r.1 ∙ ground arith
]

trap_to_s-pc :
    (t : Trap) (h : Hart) → (trap_to_s t h).pc ≡ vector_target h.csrs.stvec (cause_value t.cause)
unfolding trap_to_s
trap_to_s-pc t h = refl

trap_to_m-pc :
    (t : Trap) (h : Hart) → (trap_to_m t h).pc ≡ vector_target h.csrs.mtvec (cause_value t.cause)
unfolding trap_to_m
trap_to_m-pc t h = refl

-- The hart after a trap.
trapped :
    (t : Trap) (h : Hart)
    → is_none t.cause ≡ false
    → (handle_trap t h).1 ≡ (if goes_to_s t.cause h then trap_to_s t h else trap_to_m t h)
trapped t h e =
    ap (λ (r : Result (Unit {0}) × Hart). r.1) (handle_trap_lem t h)
    ∙ rw (e, delegated-goes_to_s t.cause h) (ground arith)

-- If both vectors are 64-bit words, a trap with a cause goes on at the base of the vector of S-mode
-- if the delegation registers say so, and of M-mode otherwise; an interrupt under a vectored mode
-- goes on 4 bytes per cause number further.
pub handle_trap-pc :
    (t : Trap) (h : Hart)
    → is_none t.cause ≡ false
    → h.csrs.stvec < 2 ^ 64
    → h.csrs.mtvec < 2 ^ 64
    → (handle_trap t h).1.pc
      ≡ vectored (if goes_to_s t.cause h then h.csrs.stvec else h.csrs.mtvec) (cause_value t.cause)
handle_trap-pc t h e s m =
    ap (λ (h' : Hart). h'.pc) (trapped t h e) ∙ (elim (Bool-cases (goes_to_s t.cause h)) [
      | inl d ↦ rw d (trap_to_s-pc t h ∙ vector_target_lem _ _ s cause_lt)
      | inr d ↦ rw d (trap_to_m-pc t h ∙ vector_target_lem _ _ m cause_lt)
    ])
  where
    cause_lt : cause_value t.cause < 2 ^ 64
    cause_lt = ground (arith, cause_value-range t.cause)
