-- ===== src/Mmu/Access.antt =====
-- `read`, `write`, `probe_store` and `ifetch` of include/core/mmu.hpp.
use uotan_riscv_emu_ng.Base.{
  ℕ, zero, suc, ◌+◌, ◌*◌, ◌/◌, ◌%◌, ◌^◌, Bool, true, false, not, Option, none, some, List, [], ◌∷◌,
  ◌==◌, ltb, bit_and, bit_or, if◌then◌else◌,
}
use uotan_riscv_emu_ng.Core.Monad.{M, ◌>>=◌, ◌>>◌, pure, raise, skip, raise_if}
use uotan_riscv_emu_ng.Core.Memory.{Machine}
use uotan_riscv_emu_ng.Memory.{Bus, accessible}
use uotan_riscv_emu_ng.Decoder.Names.{Ilen, compressed, normal}
use uotan_riscv_emu_ng.Mmu.{
  AccessType, fetch, load, store, access_fault, translate, read_bus, write_bus,
}

abbrev pub read_type : Bool → AccessType
read_type true = store
read_type false = load

-- `(insn & 0x3) < 3`
abbrev pub is_compressed : ℕ → Bool
is_compressed insn = ltb (bit_and insn 3) 3

abbrev pub may_cross_page : ℕ → Bool
may_cross_page pc = bit_and pc 0xFFF == 0xFFE

abbrev pub fetched : ℕ → ℕ × Ilen
fetched insn = if is_compressed insn then (bit_and insn 0xFFFF, compressed) else (insn, normal)

module _ {W : Type 0} where
  -- A value that the bus returns, or the access fault of `addr`.
  abbrev pub value_or : ℕ → ℕ → AccessType → Option ℕ → M (Machine (Bus W)) ℕ
  value_or at addr t (some v) = pure v
  value_or at addr t none = raise (access_fault at addr t)

  abbrev pub check_accessible : ℕ → ℕ → AccessType → ℕ → M (Machine (Bus W)) (Unit {0})
  check_accessible at addr t paddr m =
      raise_if (not (accessible paddr m.world)) (access_fault at addr t) m

  -- The first loop of an unaligned access: the physical addresses of `n` bytes from `vaddr` on.
  unfoldable pub locate : ℕ → ℕ → AccessType → ℕ → ℕ → M (Machine (Bus W)) (List ℕ)
  unfolding translate
  locate at addr t vaddr zero = pure []
  locate at addr t vaddr (suc n) = do
    paddr ← translate at (vaddr % 2 ^ 64) t
    check_accessible at addr t paddr
    rest ← locate at addr t (vaddr + 1) n
    pure (paddr ∷ rest)

  -- The second loop of a read: the bytes, lowest first.
  unfoldable pub gather : ℕ → ℕ → AccessType → List ℕ → M (Machine (Bus W)) ℕ
  gather at addr t [] = pure 0
  gather at addr t (paddr ∷ rest) = do
    o ← read_bus 1 paddr
    b ← value_or at addr t o
    high ← gather at addr t rest
    pure (b + 256 * high)

  -- The second loop of a write.
  unfoldable pub scatter : ℕ → ℕ → List ℕ → ℕ → M (Machine (Bus W)) (Unit {0})
  scatter at addr [] value = skip
  scatter at addr (paddr ∷ rest) value = do
    done ← write_bus 1 paddr (value % 256)
    raise_if (not done) (access_fault at addr store)
    scatter at addr rest (value / 256)

  unfoldable pub read_aligned : ℕ → ℕ → ℕ → AccessType → M (Machine (Bus W)) ℕ
  unfolding translate
  read_aligned size at addr t = do
    paddr ← translate at addr t
    o ← read_bus size paddr
    value_or at addr t o

  unfoldable pub read_unaligned : ℕ → ℕ → ℕ → AccessType → M (Machine (Bus W)) ℕ
  unfolding locate gather
  read_unaligned size at addr t = locate at addr t addr size >>= gather at addr t

  unfoldable pub read : ℕ → ℕ → ℕ → Bool → M (Machine (Bus W)) ℕ
  unfolding read_aligned read_unaligned
  read size at addr amo =
      if addr % size == 0
      then read_aligned size at addr (read_type amo)
      else read_unaligned size at addr (read_type amo)

  unfoldable pub write_aligned : ℕ → ℕ → ℕ → ℕ → M (Machine (Bus W)) (Unit {0})
  unfolding translate
  write_aligned size at addr value = do
    paddr ← translate at addr store
    done ← write_bus size paddr value
    raise_if (not done) (access_fault at addr store)

  unfoldable pub write_unaligned : ℕ → ℕ → ℕ → ℕ → M (Machine (Bus W)) (Unit {0})
  unfolding locate scatter
  write_unaligned size at addr value =
      locate at addr store addr size >>= λ paddrs. scatter at addr paddrs value

  unfoldable pub write : ℕ → ℕ → ℕ → ℕ → M (Machine (Bus W)) (Unit {0})
  unfolding write_aligned write_unaligned
  write size at addr value =
      if addr % size == 0
      then write_aligned size at addr value
      else write_unaligned size at addr value

  unfoldable pub probe_store : ℕ → ℕ → M (Machine (Bus W)) (Unit {0})
  unfolding translate
  probe_store at addr = translate at addr store >>= check_accessible at addr store

  -- The second half of an instruction that crosses a page.
  unfoldable pub fetch_rest : ℕ → ℕ → M (Machine (Bus W)) (ℕ × Ilen)
  unfolding translate
  fetch_rest pc insn = do
    paddr ← translate pc ((pc + 2) % 2 ^ 64) fetch
    o ← read_bus 2 paddr
    v ← value_or pc ((pc + 2) % 2 ^ 64) fetch o
    pure (bit_or (bit_and insn 0xFFFF) (v * 2 ^ 16), normal)

  unfoldable pub ifetch : M (Machine (Bus W)) (ℕ × Ilen)
  unfolding fetch_rest
  ifetch m =
      let pc = m.hart.pc in
      if may_cross_page pc
      then (do
        paddr ← translate pc pc fetch
        o ← read_bus 2 paddr
        insn ← value_or pc pc fetch o
        if is_compressed insn then pure (insn, compressed) else fetch_rest pc insn)
          m
      else (do
        paddr ← translate pc pc fetch
        o ← read_bus 4 paddr
        insn ← value_or pc pc fetch o
        pure (fetched insn))
          m
