-- ===== src/Core/Monad.antt =====
-- State passing with the ways in which a call can end: the C++ code changes the hart in place and
-- throws, so what was changed before a throw stays changed.
use uotan_riscv_emu_ng.Base.{Bool, true, false}
use uotan_riscv_emu_ng.Core.Trap.{Result, ok, trap, wfi_wait, terminate, Trap}

abbrev pub M : Type 0 → Type 0 → Type 0
M S A = S → Result A × S

module _ {S : Type 0} where
  abbrev pub after : {A B : Type 0} → (A → M S B) → Result A → S → Result B × S
  after f (ok a) s = f a s
  after f (trap t) s = (trap t, s)
  after f wfi_wait s = (wfi_wait, s)
  after f terminate s = (terminate, s)

  infixl 5 ◌>>=◌ ◌>>◌
  abbrev pub ◌>>=◌ : {A B : Type 0} → M S A → (A → M S B) → M S B
  ◌>>=◌ m f s = let (r, s') = m s in after f r s'

  abbrev pub ◌>>◌ : {B : Type 0} → M S (Unit {0}) → M S B → M S B
  m >> k = m >>= λ _. k

  abbrev pub pure : {A : Type 0} → A → M S A
  pure a s = (ok a, s)

  abbrev pub get : M S S
  get s = (ok s, s)

  abbrev pub modify : (S → S) → M S (Unit {0})
  modify f s = (ok tt, f s)

  abbrev pub raise : {A : Type 0} → Trap → M S A
  raise t s = (trap t, s)

  abbrev pub skip : M S (Unit {0})
  skip s = (ok tt, s)

  -- `if (b) m`
  abbrev pub when : Bool → M S (Unit {0}) → M S (Unit {0})
  when true m s = m s
  when false m s = (ok tt, s)

  -- `m` for one that may not go on: it throws if the test holds.
  abbrev pub raise_if : Bool → Trap → M S (Unit {0})
  raise_if true t s = (trap t, s)
  raise_if false t s = (ok tt, s)
