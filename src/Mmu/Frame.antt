-- ===== src/Mmu/Frame.antt =====
-- What a memory access of include/core/mmu.hpp may change of the hart, and the MMU as the memory of
-- the instructions.
use uotan_riscv_emu_ng.Base.{bit_and, bit_or}
use uotan_riscv_emu_ng.Base.{
  ℕ, zero, suc, ◌+◌, ◌*◌, ◌/◌, ◌%◌, ◌^◌, ◌≡◌, refl, sym, ap, ◌∙◌, Bool, true, false, not, Option,
  none, some, List, [], ◌∷◌, ◌==◌, if◌then◌else◌,
}
use uotan_riscv_emu_ng.Core.Trap.{Trap, Result, ok, trap, wfi_wait, terminate}
use uotan_riscv_emu_ng.Core.Monad.{M, after, ◌>>=◌, pure, raise_if}
use uotan_riscv_emu_ng.Core.State.{Hart}
use uotan_riscv_emu_ng.Core.Memory.{Machine, Memory}
use uotan_riscv_emu_ng.Memory.{Bus, accessible}
use uotan_riscv_emu_ng.Mmu.{
  AccessType, fetch, store, request, translate, fill, filled, read_bus, write_bus, access_fault,
}
use uotan_riscv_emu_ng.Decoder.Names.{Ilen, compressed, normal}
use uotan_riscv_emu_ng.Mmu.Access.{
  may_cross_page, is_compressed, fetched, fetch_rest, ifetch, value_or, locate, gather, scatter,
  check_accessible, read_aligned, read_unaligned, read_type, read, write_aligned, write_unaligned,
  write, probe_store,
}
use uotan_riscv_emu_ng.Mmu.Cases.{if-cases, translate-cases, walk-cases}

module _ {W : Type 0} where
  -- The hart after `c` is the hart before it, but for the MMU.
  abbrev pub OnlyMmu : {A : Type 0} → M (Machine (Bus W)) A → Type 0
  OnlyMmu c = (m : Machine (Bus W)) → (c m).1.hart ≡ record (m.hart) { mmu = (c m).1.hart.mmu }

  after_only :
      {A B : Type 0} (f : A → M (Machine (Bus W)) B) (r : Result A) (m m' : Machine (Bus W))
      → ((a : A) → OnlyMmu (f a))
      → m'.hart ≡ record (m.hart) { mmu = m'.hart.mmu }
      → (after f r m').1.hart ≡ record (m.hart) { mmu = (after f r m').1.hart.mmu }
  after_only f (ok a) m m' p e =
      p a m' ∙ ap (λ (h : Hart). record h { mmu = (f a m').1.hart.mmu }) e
  after_only f (trap t) m m' p e = e
  after_only f wfi_wait m m' p e = e
  after_only f terminate m m' p e = e

  bind-OnlyMmu :
      {A B : Type 0} (c : M (Machine (Bus W)) A) (f : A → M (Machine (Bus W)) B)
      → OnlyMmu c
      → ((a : A) → OnlyMmu (f a))
      → OnlyMmu (c >>= f)
  bind-OnlyMmu c f p q m = after_only f (c m).0 m (c m).1 q (p m)

  pub translate-OnlyMmu : (at vaddr : ℕ) (t : AccessType) → OnlyMmu (translate at vaddr t)
  translate-OnlyMmu at vaddr t m =
      translate-cases at vaddr t m Same (λ _. refl) refl same (λ _. refl)
        (λ _.
          walk-cases (request at vaddr t m.hart) m.hart Same same
            (λ l pte m' e _ _.
              ap
                (λ (h : Hart). record h {
                  mmu =
                      (fill (request at vaddr t m.hart) (filled (request at vaddr t m.hart) l pte)
                        m').hart.mmu;
                })
                e)
            2 _ m refl)
    where
      Same : Result ℕ × Machine (Bus W) → Type 0
      Same p = p.1.hart ≡ record (m.hart) { mmu = p.1.hart.mmu }

      same : (tr : Trap) (m' : Machine (Bus W)) → m'.hart ≡ m.hart → Same (trap tr, m')
      same tr m' e = e ∙ ap (λ (h : Hart). record (m.hart) { mmu = h.mmu }) (sym e)

  raise_if-OnlyMmu : (b : Bool) (t : Trap) → OnlyMmu (raise_if b t)
  raise_if-OnlyMmu true t m = refl
  raise_if-OnlyMmu false t m = refl

  value_or-OnlyMmu : (at addr : ℕ) (t : AccessType) (o : Option ℕ) → OnlyMmu (value_or at addr t o)
  value_or-OnlyMmu at addr t none m = refl
  value_or-OnlyMmu at addr t (some v) m = refl

  check-OnlyMmu : (at addr : ℕ) (t : AccessType) (p : ℕ) → OnlyMmu (check_accessible at addr t p)
  check-OnlyMmu at addr t p m =
      raise_if-OnlyMmu (not (accessible p m.world)) (access_fault at addr t) m

  read_value-OnlyMmu :
      (size paddr at addr : ℕ) (t : AccessType)
      → OnlyMmu (read_bus size paddr >>= value_or at addr t)
  read_value-OnlyMmu size paddr at addr t =
      bind-OnlyMmu (read_bus size paddr) (value_or at addr t) (λ _. refl)
        (value_or-OnlyMmu at addr t)

  write_value-OnlyMmu :
      (size paddr v : ℕ) (t : Trap)
      → OnlyMmu (write_bus size paddr v >>= λ done. raise_if (not done) t)
  write_value-OnlyMmu size paddr v t =
      bind-OnlyMmu (write_bus size paddr v) (λ done. raise_if (not done) t) (λ _. refl)
        (λ done. raise_if-OnlyMmu (not done) t)

  cons_after : ℕ → M (Machine (Bus W)) (List ℕ) → M (Machine (Bus W)) (List ℕ)
  cons_after p c = c >>= λ rest. pure (p ∷ rest)

  cons_after-OnlyMmu :
      (p : ℕ) (c : M (Machine (Bus W)) (List ℕ)) → OnlyMmu c → OnlyMmu (cons_after p c)
  unfolding cons_after
  cons_after-OnlyMmu p c h = bind-OnlyMmu c (λ rest. pure (p ∷ rest)) h (λ _ _. refl)

  locate-OnlyMmu : (at addr : ℕ) (t : AccessType) (v n : ℕ) → OnlyMmu (locate at addr t v n)
  unfolding locate cons_after
  locate-OnlyMmu at addr t v zero m = refl
  locate-OnlyMmu at addr t v (suc n) m =
      bind-OnlyMmu (translate at (v % 2 ^ 64) t)
        (λ p. check_accessible at addr t p >>= λ _. cons_after p (locate at addr t (v + 1) n))
        (translate-OnlyMmu at (v % 2 ^ 64) t)
        (λ p.
          bind-OnlyMmu (check_accessible at addr t p)
            (λ _. cons_after p (locate at addr t (v + 1) n)) (check-OnlyMmu at addr t p)
            λ _.
              cons_after-OnlyMmu p (locate at addr t (v + 1) n)
                (locate-OnlyMmu at addr t (v + 1) n))
        m

  gather-OnlyMmu : (at addr : ℕ) (t : AccessType) (ps : List ℕ) → OnlyMmu (gather at addr t ps)
  unfolding gather
  gather-OnlyMmu at addr t [] m = refl
  gather-OnlyMmu at addr t (p ∷ ps) m =
      bind-OnlyMmu (read_bus 1 p)
        (λ o. value_or at addr t o >>= λ b. gather at addr t ps >>= λ high. pure (b + 256 * high))
        (λ _. refl)
        (λ o.
          bind-OnlyMmu (value_or at addr t o)
            (λ b. gather at addr t ps >>= λ high. pure (b + 256 * high))
            (value_or-OnlyMmu at addr t o)
            λ b.
              bind-OnlyMmu (gather at addr t ps) (λ high. pure (b + 256 * high))
                (gather-OnlyMmu at addr t ps) (λ _ _. refl))
        m

  scatter-OnlyMmu : (at addr : ℕ) (ps : List ℕ) (v : ℕ) → OnlyMmu (scatter at addr ps v)
  unfolding scatter
  scatter-OnlyMmu at addr [] v m = refl
  scatter-OnlyMmu at addr (p ∷ ps) v m =
      bind-OnlyMmu (write_bus 1 p (v % 256))
        (λ done.
          raise_if (not done) (access_fault at addr store) >>= λ _. scatter at addr ps (v / 256))
        (λ _. refl)
        (λ done.
          bind-OnlyMmu (raise_if (not done) (access_fault at addr store))
            (λ _. scatter at addr ps (v / 256))
            (raise_if-OnlyMmu (not done) (access_fault at addr store))
            (λ _. scatter-OnlyMmu at addr ps (v / 256)))
        m

  if-OnlyMmu :
      {A : Type 0} (b : Bool) (c c' : M (Machine (Bus W)) A)
      → OnlyMmu c
      → OnlyMmu c'
      → OnlyMmu (if b then c else c')
  if-OnlyMmu true c c' p q = p
  if-OnlyMmu false c c' p q = q

  pub read-OnlyMmu : (size at addr : ℕ) (amo : Bool) → OnlyMmu (read size at addr amo)
  unfolding read read_aligned read_unaligned
  read-OnlyMmu size at addr amo m =
      if-OnlyMmu (addr % size == 0) (read_aligned size at addr t) (read_unaligned size at addr t)
        (bind-OnlyMmu (translate at addr t) (λ p. read_bus size p >>= value_or at addr t)
          (translate-OnlyMmu at addr t) (λ p. read_value-OnlyMmu size p at addr t))
        (bind-OnlyMmu (locate at addr t addr size) (gather at addr t)
          (locate-OnlyMmu at addr t addr size) (gather-OnlyMmu at addr t))
        m
    where
      t : AccessType
      t = read_type amo

  pub write-OnlyMmu : (size at addr v : ℕ) → OnlyMmu (write size at addr v)
  unfolding write write_aligned write_unaligned
  write-OnlyMmu size at addr v m =
      if-OnlyMmu (addr % size == 0) (write_aligned size at addr v) (write_unaligned size at addr v)
        (bind-OnlyMmu (translate at addr store)
          (λ p. write_bus size p v >>= λ done. raise_if (not done) (access_fault at addr store))
          (translate-OnlyMmu at addr store)
          (λ p. write_value-OnlyMmu size p v (access_fault at addr store)))
        (bind-OnlyMmu (locate at addr store addr size) (λ ps. scatter at addr ps v)
          (locate-OnlyMmu at addr store addr size) (λ ps. scatter-OnlyMmu at addr ps v))
        m

  pub probe_store-OnlyMmu : (at addr : ℕ) → OnlyMmu (probe_store at addr)
  unfolding probe_store
  probe_store-OnlyMmu at addr m =
      bind-OnlyMmu (translate at addr store) (check_accessible at addr store)
        (translate-OnlyMmu at addr store) (check-OnlyMmu at addr store) m

  fetched-OnlyMmu :
      (size pc vaddr : ℕ) (f : ℕ → M (Machine (Bus W)) (ℕ × Ilen))
      → ((v : ℕ) → OnlyMmu (f v))
      → OnlyMmu (
          translate pc vaddr fetch >>= λ p.
          read_bus size p >>= λ o. value_or pc vaddr fetch o >>= f)
  fetched-OnlyMmu size pc vaddr f q =
      bind-OnlyMmu (translate pc vaddr fetch)
        (λ p. read_bus size p >>= λ o. value_or pc vaddr fetch o >>= f)
        (translate-OnlyMmu pc vaddr fetch)
        (λ p.
          bind-OnlyMmu (read_bus size p) (λ o. value_or pc vaddr fetch o >>= f) (λ _. refl)
            (λ o. bind-OnlyMmu (value_or pc vaddr fetch o) f (value_or-OnlyMmu pc vaddr fetch o) q))

  fetch_rest-OnlyMmu : (pc insn : ℕ) → OnlyMmu (fetch_rest pc insn)
  unfolding fetch_rest
  fetch_rest-OnlyMmu pc insn =
      fetched-OnlyMmu 2 pc ((pc + 2) % 2 ^ 64)
        (λ v. pure (bit_or (bit_and insn 0xFFFF) (v * 2 ^ 16), normal)) (λ v m. refl)

  pub ifetch-OnlyMmu : OnlyMmu ifetch
  unfolding ifetch
  ifetch-OnlyMmu m =
      if-cases
        (λ (r : Result (ℕ × Ilen) × Machine (Bus W)).
          r.1.hart ≡ record (m.hart) { mmu = r.1.hart.mmu })
        (may_cross_page m.hart.pc) _ _
        (λ _.
          fetched-OnlyMmu 2 m.hart.pc m.hart.pc
            (λ insn.
              if is_compressed insn then pure (insn, compressed) else fetch_rest m.hart.pc insn)
            (λ insn.
              if-OnlyMmu (is_compressed insn) (pure (insn, compressed)) (fetch_rest m.hart.pc insn)
                (λ m'. refl) (fetch_rest-OnlyMmu m.hart.pc insn))
            m)
        (λ _.
          fetched-OnlyMmu 4 m.hart.pc m.hart.pc (λ insn. pure (fetched insn)) (λ insn m'. refl) m)

  -- The MMU over the bus is a memory for the instructions.
  abbrev pub mmu_memory : Memory (Bus W)
  mmu_memory = record {
    read_mem = read;
    write_mem = write;
    probe_store = λ size. probe_store;
    read_gprs = λ size at addr amo m. ap Hart.gprs (read-OnlyMmu size at addr amo m);
    read_pc = λ size at addr amo m. ap Hart.pc (read-OnlyMmu size at addr amo m);
    write_gprs = λ size at addr v m. ap Hart.gprs (write-OnlyMmu size at addr v m);
    write_pc = λ size at addr v m. ap Hart.pc (write-OnlyMmu size at addr v m);
    probe_gprs = λ size at addr m. ap Hart.gprs (probe_store-OnlyMmu at addr m);
    probe_pc = λ size at addr m. ap Hart.pc (probe_store-OnlyMmu at addr m);
  }
