-- ===== src/Core/Blame.antt =====
-- The pc of the traps that a call throws: `Trap::raise_exception` of include/core/hart.hpp takes it from
-- the caller.
use uotan_riscv_emu_ng.Base.{ℕ, ◌≡◌, Bool, true, false, if◌then◌else◌}
use uotan_riscv_emu_ng.Core.Trap.{Trap, Result, ok, trap, wfi_wait, terminate}
use uotan_riscv_emu_ng.Core.Monad.{M, after, ◌>>◌, raise_if, when}

-- If it is a trap, it is one at `at`.
abbrev pub IsAt : {A : Type 0} → ℕ → Result A → Type 0
IsAt at (trap t) = t.pc ≡ at
IsAt at _ = Unit {0}

abbrev pub Blames : {S A : Type 0} → ℕ → M S A → Type 0
Blames at c = (s : _) → IsAt at (c s).0

module _ {S : Type 0} (at : ℕ) where
  pub after-IsAt :
      {A B : Type 0} (f : A → M S B) (r : Result A) (s : S)
      → IsAt at r
      → ((a : A) → Blames at (f a))
      → IsAt at (after f r s).0
  after-IsAt f (ok a) s p q = q a s
  after-IsAt f (trap t) s p q = p
  after-IsAt f wfi_wait s p q = tt
  after-IsAt f terminate s p q = tt

  pub raise_if-Blames : (b : Bool) (t : Trap) → t.pc ≡ at → Blames at (raise_if {S = S} b t)
  raise_if-Blames true t e s = e
  raise_if-Blames false t e s = tt

  -- A guard, and what comes after it.
  pub guard-Blames :
      {B : Type 0} (b : Bool) (t : Trap) (c : M S B)
      → t.pc ≡ at
      → Blames at c
      → Blames at (raise_if b t >> c)
  guard-Blames true t c e p s = e
  guard-Blames false t c e p s = p s

  pub if-Blames :
      {A : Type 0} (b : Bool) (c c' : M S A)
      → Blames at c
      → Blames at c'
      → Blames at (if b then c else c')
  if-Blames true c c' p q = p
  if-Blames false c c' p q = q

  pub choose-IsAt :
      {A : Type 0} (b : Bool) (r r' : Result A × S)
      → IsAt at (r.0)
      → IsAt at (r'.0)
      → IsAt at (if b then r else r').0
  choose-IsAt true r r' p q = p
  choose-IsAt false r r' p q = q

  pub when-Blames : (b : Bool) (c : M S (Unit {0})) → Blames at c → Blames at (when b c)
  when-Blames true c p s = p s
  when-Blames false c p s = tt
