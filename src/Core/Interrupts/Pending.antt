-- ===== src/Core/Interrupts/Pending.antt =====
-- Which interrupt is taken: `Hart::check_interrupts` of src/core/hart.cpp.
use uotan_riscv_emu_ng.Base.{ℕ, ◌^◌, ◌≡◌, refl, sym, ◌∙◌, min}
use uotan_riscv_emu_ng.Base.{Bool, true, false, ◌&&◌, ◌||◌, List, [], ◌∷◌, inl, inr}
use uotan_riscv_emu_ng.Base.{◌==◌, ltb, if◌then◌else◌, arith, Bool-cases}
use uotan_riscv_emu_ng.Base.Digits.{digit, digit-and, truthy-digit}
use uotan_riscv_emu_ng.Core.Mip
use uotan_riscv_emu_ng.Core.Trap.{
  priv_s, priv_m, TrapCause, no_cause, ok, machine_external_interrupt, machine_software_interrupt,
  machine_timer_interrupt, supervisor_external_interrupt, supervisor_software_interrupt,
  supervisor_timer_interrupt,
}
use uotan_riscv_emu_ng.Core.State.{Hart}
use uotan_riscv_emu_ng.Core.Csr.{mstatus_read, mip_read, mie_read}
use uotan_riscv_emu_ng.Core.Csr.Status
use uotan_riscv_emu_ng.Core.Interrupts.{
  selected_interrupt, throw_interrupt, first_interrupt, m_enabled, s_enabled, pending_interrupts,
  check_interrupts,
}

-- The order of the interrupts, as bit numbers of MIP: MEI, MSI, MTI, SEI, SSI, STI.
abbrev pub order : List (ℕ × TrapCause)
order =
    (11, machine_external_interrupt)
    ∷ (3, machine_software_interrupt)
    ∷ (7, machine_timer_interrupt)
    ∷ (9, supervisor_external_interrupt)
    ∷ (1, supervisor_software_interrupt)
    ∷ (5, supervisor_timer_interrupt)
    ∷ []

-- A cause is that of the first entry of a list that a test accepts, or none is accepted.
pub data IsFirst (test : ℕ → Bool) : List (ℕ × TrapCause) → TrapCause → Type 0 where
  nothing : IsFirst test [] no_cause
  here :
      {n : ℕ} {c : TrapCause} {rest : List (ℕ × TrapCause)}
      → test n ≡ true
      → IsFirst test ((n, c) ∷ rest) c
  later :
      {n : ℕ} {c d : TrapCause} {rest : List (ℕ × TrapCause)}
      → test n ≡ false
      → IsFirst test rest d
      → IsFirst test ((n, c) ∷ rest) d

marked : List (ℕ × TrapCause) → List (ℕ × TrapCause)
marked [] = []
marked ((n, c) ∷ rest) = (2 ^ n, c) ∷ marked rest

-- The test of the loop.
abbrev loop_test : ℕ → ℕ → Bool → Bool → ℕ → Bool
loop_test pending mideleg me se n =
    digit pending n == 1 && (if digit mideleg n == 1 then se else me)

first_interrupt-cons :
    (p d : ℕ) (me se : Bool) (n : ℕ) (c : TrapCause) (rest : List (ℕ × TrapCause))
    → first_interrupt p d me se ((2 ^ n, c) ∷ rest)
      ≡ (if loop_test p d me se n then c else first_interrupt p d me se rest)
unfolding first_interrupt
first_interrupt-cons p d me se n c rest = ground (arith, truthy-digit n p, truthy-digit n d)

first_interrupt-IsFirst :
    (p d : ℕ) (me se : Bool) (l : List (ℕ × TrapCause))
    → IsFirst (loop_test p d me se) l (first_interrupt p d me se (marked l))
unfolding first_interrupt marked
first_interrupt-IsFirst p d me se [] = nothing
first_interrupt-IsFirst p d me se ((n, c) ∷ rest) = elim (Bool-cases (loop_test p d me se n)) [
  | inl e ↦ rw (first_interrupt-cons p d me se n c (marked rest), e) (here e)
  | inr e ↦
      rw (first_interrupt-cons p d me se n c (marked rest), e)
        (later e (first_interrupt-IsFirst p d me se rest))
]

-- When an interrupt may be taken: it is pending and enabled, and interrupts for the mode that it
-- goes to are on, which they are in a lower mode and, with the mode's enable bit, in that mode.
abbrev pub takeable : Hart → ℕ → Bool
takeable h n =
    digit h.csrs.mip n == 1
    && digit h.csrs.mie n == 1
    && (if digit h.csrs.mideleg n == 1
        then ltb h.priv priv_s || (h.priv == priv_s && digit h.csrs.mstatus 1 == 1)
        else ltb h.priv priv_m || (h.priv == priv_m && digit h.csrs.mstatus 3 == 1))

pending-digit :
    (n : ℕ) (h : Hart)
    → digit Mip.all_interrupts n ≡ 1
    → digit (pending_interrupts h) n ≡ min (digit h.csrs.mip n) (digit h.csrs.mie n)
unfolding pending_interrupts mip_read mie_read
pending-digit n h e = ground (
  arith,
  digit-and n (mip_read h.csrs) (mie_read h.csrs),
  digit-and n h.csrs.mip Mip.all_interrupts,
  digit-and n h.csrs.mie Mip.all_interrupts,
)

m_enabled_lem :
    (h : Hart)
    → m_enabled h ≡ (ltb h.priv priv_m || (h.priv == priv_m && digit h.csrs.mstatus 3 == 1))
unfolding m_enabled
m_enabled_lem h =
    ground (arith, truthy-digit 3 (mstatus_read h.csrs), Status.mstatus_read-digit 3 h.csrs)

s_enabled_lem :
    (h : Hart)
    → s_enabled h ≡ (ltb h.priv priv_s || (h.priv == priv_s && digit h.csrs.mstatus 1 == 1))
unfolding s_enabled
s_enabled_lem h =
    ground (arith, truthy-digit 1 (mstatus_read h.csrs), Status.mstatus_read-digit 1 h.csrs)

abbrev test_of : Hart → ℕ → Bool
test_of h = loop_test (pending_interrupts h) h.csrs.mideleg (m_enabled h) (s_enabled h)

test_of-takeable : (n : ℕ) (h : Hart) → digit Mip.all_interrupts n ≡ 1 → test_of h n ≡ takeable h n
test_of-takeable n h e = ground (arith, pending-digit n h e, m_enabled_lem h, s_enabled_lem h)

-- Two tests agree on the entries of a list.
AgreeOn : (ℕ → Bool) → (ℕ → Bool) → List (ℕ × TrapCause) → Type 0
AgreeOn f g [] = Unit
AgreeOn f g ((n, c) ∷ rest) = (f n ≡ g n) × AgreeOn f g rest

IsFirst-agree :
    (f g : ℕ → Bool) (l : List (ℕ × TrapCause)) (c : TrapCause)
    → IsFirst f l c
    → AgreeOn f g l
    → IsFirst g l c
unfolding AgreeOn
IsFirst-agree f g [] c nothing a = nothing
IsFirst-agree f g ((n, d) ∷ rest) c (here t) a = here (sym a.0 ∙ t)
IsFirst-agree f g ((n, d) ∷ rest) c (later t r) a =
    later (sym a.0 ∙ t) (IsFirst-agree f g rest c r a.1)

order-AgreeOn : (h : Hart) → AgreeOn (test_of h) (takeable h) order
unfolding AgreeOn
order-AgreeOn h = (at 11 refl, (at 3 refl, (at 7 refl, (at 9 refl, (at 1 refl, (at 5 refl, tt))))))
  where
    at : (n : ℕ) → digit Mip.all_interrupts n ≡ 1 → test_of h n ≡ takeable h n
    at n e = test_of-takeable n h e

none_pending :
    (d : ℕ) (me se : Bool) (l : List (ℕ × TrapCause)) → IsFirst (loop_test 0 d me se) l no_cause
none_pending d me se [] = nothing
none_pending d me se ((n, c) ∷ rest) = later (ground arith) (none_pending d me se rest)

abbrev pub checked : Hart → Hart
checked h = record h { interrupt_check_pending = false }

-- The cause that a check answers with.
abbrev answered : Hart → TrapCause
answered h = if pending_interrupts h == 0 then no_cause else selected_interrupt h

answered_lem :
    (p : ℕ) (c : TrapCause) (h : Hart)
    → (if p == 0 then (ok tt, h) else throw_interrupt c h)
      ≡ throw_interrupt (if p == 0 then no_cause else c) h
answered_lem p c h = ground arith

check_interrupts_lem :
    (h : Hart) → check_interrupts h ≡ throw_interrupt (answered (checked h)) (checked h)
unfolding check_interrupts
check_interrupts_lem h =
    answered_lem (pending_interrupts (checked h)) (selected_interrupt (checked h)) (checked h)

selected_interrupt-IsFirst : (h : Hart) → IsFirst (test_of h) order (selected_interrupt h)
unfolding selected_interrupt marked
selected_interrupt-IsFirst h =
    first_interrupt-IsFirst (pending_interrupts h) h.csrs.mideleg (m_enabled h) (s_enabled h) order

none_answered : (h : Hart) → pending_interrupts h == 0 ≡ true → IsFirst (test_of h) order no_cause
none_answered h e =
    rw (pending_none) (none_pending h.csrs.mideleg (m_enabled h) (s_enabled h) order)
  where
    pending_none : pending_interrupts h ≡ 0
    pending_none = ground arith

answered-IsFirst : (h : Hart) → IsFirst (takeable h) order (answered h)
answered-IsFirst h =
    IsFirst-agree (test_of h) (takeable h) order (answered h)
      (elim (Bool-cases (pending_interrupts h == 0)) [
        | inl e ↦ rw e (none_answered h e)
        | inr e ↦ rw e (selected_interrupt-IsFirst h)
      ])
      (order-AgreeOn h)

-- The check for interrupts clears its request and changes nothing else; it throws the first cause of
-- the order MEI, MSI, MTI, SEI, SSI, STI whose interrupt may be taken, at the hart's pc and with the
-- value 0, and returns if there is none.
pub check_interrupts-IsFirst :
    (h : Hart)
    → (c : TrapCause) × IsFirst (takeable h) order c
      × (check_interrupts h ≡ throw_interrupt c (checked h))
check_interrupts-IsFirst h =
    (answered (checked h), answered-IsFirst (checked h), check_interrupts_lem h)
