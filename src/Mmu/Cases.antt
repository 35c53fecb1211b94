-- ===== src/Mmu/Cases.antt =====
-- The ways in which a translation of include/core/mmu.hpp can end, as rules for a property of its end.
use uotan_riscv_emu_ng.Base.{
  ℕ, zero, suc, ◌+◌, ◌-◌, ◌/◌, ◌^◌, ◌≡◌, ◌⊎◌, refl, Bool, true, false, not, ◌&&◌, Option, none,
  some, bit_and, ◌==◌, truthy, if◌then◌else◌, ==_iff, inl, inr, arith,
}
use uotan_riscv_emu_ng.Base.Word.{shl64}
use uotan_riscv_emu_ng.Core.Trap.{Trap, Result, ok, trap, terminate, priv_m}
use uotan_riscv_emu_ng.Core.Monad.{M, after, ◌>>=◌, ◌>>◌, pure, modify, raise, raise_if}
use uotan_riscv_emu_ng.Core.State.{Hart}
use uotan_riscv_emu_ng.Core.Csr.{satp_mode}
use uotan_riscv_emu_ng.Core.Memory.{Machine}
use uotan_riscv_emu_ng.Memory.{Bus, bus_read, bus_write}
use uotan_riscv_emu_ng.Mmu.{
  AccessType, Request, request, effective_priv, page_trap, access_trap, pte_address, update_pte,
  leaf, examine, walk, translate, hits, entry_at, tlb_index, physical, final_ppn, filled, fill,
  user_refused, permits, misaligned_superpage, pte_invalid, is_leaf, pte_ppn, pte_d, pte_a, pte_u,
  stale, updated_pte, write_bus, is_canonical, with_bus,
}

module _ {ℓ} {S : Type 0} {B : Type 0} (Q : Result B × S → Type ℓ) where
  pub raise_if-cases :
      (b : Bool) (t : Trap) (k : M S B) (s : S)
      → (b ≡ true → Q (trap t, s))
      → (b ≡ false → Q (k s))
      → Q ((raise_if b t >> k) s)
  raise_if-cases true t k s p q = p refl
  raise_if-cases false t k s p q = q refl

  pub if-cases :
      (b : Bool) (x y : Result B × S)
      → (b ≡ true → Q x)
      → (b ≡ false → Q y)
      → Q (if b then x else y)
  if-cases true x y p q = p refl
  if-cases false x y p q = q refl

  pub if_do-cases :
      (b : Bool) (x y : M S B) (s : S)
      → (b ≡ true → Q (x s))
      → (b ≡ false → Q (y s))
      → Q ((if b then x else y) s)
  if_do-cases true x y s p q = p refl
  if_do-cases false x y s p q = q refl

module _ {ℓ} {S : Type 0} (P : Result (Unit {0}) × S → Type ℓ) where
  pub last_raise_if-cases :
      (b : Bool) (t : Trap) (s : S) → P (trap t, s) → P (ok tt, s) → P (raise_if b t s)
  last_raise_if-cases true t s p q = p
  last_raise_if-cases false t s p q = q

module _ {ℓ} {W : Type 0} (r : Request) (h : Hart) (Q : Result ℕ × Machine (Bus W) → Type ℓ)
    (traps : (t : Trap) (m : Machine (Bus W)) → m.hart ≡ h → Q (trap t, m)) where
  update_pte-cases :
      (pte_addr pte : ℕ) (k : M (Machine (Bus W)) ℕ) (m : Machine (Bus W))
      → m.hart ≡ h
      → ((m' : Machine (Bus W)) → m'.hart ≡ h → Q (k m'))
      → Q ((update_pte r pte_addr pte >> k) m)
  unfolding update_pte
  update_pte-cases pte_addr pte k m e q =
      if-cases then_k (stale r.type pte) _ (ok tt, m)
        (λ _.
          raise_if-cases then_k (not r.adue) (page_trap r) store_pte m (λ _. traps _ m e)
            (λ _. last_raise_if-cases then_k (not w.0) (access_trap r) m' (traps _ m' e) (q m' e)))
        (λ _. q m e)
    where
      w : Bool × Bus W
      w = bus_write 8 pte_addr (updated_pte r.type pte) m.world

      m' : Machine (Bus W)
      m' = with_bus (w.1) m

      then_k : Result (Unit {0}) × Machine (Bus W) → Type ℓ
      then_k p = Q (after (λ _. k) p.0 p.1)

      store_pte : M (Machine (Bus W)) (Unit {0})
      store_pte = write_bus 8 pte_addr (updated_pte r.type pte) >>= λ done.
          raise_if (not done) (access_trap r)

  -- At a leaf, or nowhere, the walk returns.
  module _
      (leaves : (l pte : ℕ) (m : Machine (Bus W))
        → m.hart ≡ h
        → user_refused r pte ≡ false
        → permits r.type r.mxr pte ≡ true
        → Q (ok (physical (final_ppn l pte r.vaddr) r.vaddr), fill r (filled r l pte) m)) where
    leaf-cases :
        (i pte_addr pte : ℕ) (m : Machine (Bus W)) → m.hart ≡ h → Q (leaf r i pte_addr pte m)
    unfolding leaf
    leaf-cases i pte_addr pte m e =
        raise_if-cases Q (misaligned_superpage i pte) (page_trap r) _ m (λ _. traps _ m e)
          (λ _.
            raise_if-cases Q (user_refused r pte) (page_trap r) _ m (λ _. traps _ m e)
              (λ u.
                raise_if-cases Q (not (permits r.type r.mxr pte)) (page_trap r) _ m
                  (λ _. traps _ m e)
                  (λ p.
                    update_pte-cases pte_addr pte
                      (modify (fill r (filled r i pte))
                        >> pure (physical (final_ppn i pte r.vaddr) r.vaddr))
                      m e (λ m' e'. leaves i pte m' e' u (ground (arith, p))))))

    examine-cases :
        (i : ℕ) (next : ℕ → M (Machine (Bus W)) ℕ) (pte_addr : ℕ) (o : Option ℕ)
        (m : Machine (Bus W))
        → m.hart ≡ h
        → ((a : ℕ) (m' : Machine (Bus W)) → m'.hart ≡ h → Q (next a m'))
        → Q (examine r i next pte_addr o m)
    examine-cases i next pte_addr none m e q = traps (access_trap r) m e
    examine-cases i next pte_addr (some pte) m e q =
        raise_if-cases Q (pte_invalid pte) (page_trap r) _ m (λ _. traps _ m e)
          (λ _.
            raise_if-cases Q (truthy (pte / 2 ^ 54)) (page_trap r) _ m (λ _. traps _ m e)
              (λ _.
                if_do-cases Q (is_leaf pte) _ _ m (λ _. leaf-cases i pte_addr pte m e)
                  (λ _.
                    raise_if-cases Q (truthy (bit_and pte (pte_d + pte_a + pte_u))) (page_trap r) _
                      m (λ _. traps _ m e) (λ _. q (shl64 (pte_ppn pte) 12) m e))))

    pub walk-cases : (i a : ℕ) (m : Machine (Bus W)) → m.hart ≡ h → Q (walk r i a m)
    unfolding walk
    walk-cases zero a m e =
        examine-cases 0 (λ _. raise (page_trap r)) (pte_address r 0 a) (b 0).0 (with_bus (b 0).1 m)
          e (λ a' m' e'. traps (page_trap r) m' e')
      where
        b : ℕ → Option ℕ × Bus W
        b j = bus_read 8 (pte_address r j a) m.world
    walk-cases (suc i) a m e =
        examine-cases (suc i) (walk r i) (pte_address r (suc i) a) (b (suc i)).0
          (with_bus (b (suc i)).1 m) e (walk-cases i)
      where
        b : ℕ → Option ℕ × Bus W
        b j = bus_read 8 (pte_address r j a) m.world

-- Whether an address goes through the TLB and the page table.
abbrev pub is_translated : ℕ → AccessType → Hart → Bool
is_translated vaddr t h =
    not (effective_priv t h == priv_m)
    && not (satp_mode h.csrs.satp == 0)
    && satp_mode h.csrs.satp == 8
    && is_canonical vaddr

module _ {ℓ} {W : Type 0} (at vaddr : ℕ) (t : AccessType) (m : Machine (Bus W))
    (Q : Result ℕ × Machine (Bus W) → Type ℓ) where
  abbrev pub asked : Request
  asked = request at vaddr t m.hart

  -- Where `translate` ends: untranslated, stopped, trapped, by a hit, or by the walk.
  pub translate-cases :
      (translated_by_none : (asked.priv ≡ priv_m) ⊎ (satp_mode m.hart.csrs.satp ≡ 0)
        → Q (ok vaddr, m))
      → Q (terminate, m)
      → ((tr : Trap) (m' : Machine (Bus W)) → m'.hart ≡ m.hart → Q (trap tr, m'))
      → (hits asked (entry_at t (tlb_index vaddr) m.hart.mmu) ≡ true
          → Q (ok (physical (entry_at t (tlb_index vaddr) m.hart.mmu).ppn vaddr), m))
      → (is_translated vaddr t m.hart ≡ true
          → Q (walk asked 2 (shl64 (bit_and m.hart.csrs.satp (2 ^ 44 - 1)) 12) m))
      → Q (translate at vaddr t m)
  unfolding translate
  translate-cases direct stopped traps hit walked =
      if-cases Q (asked.priv == priv_m) _ _ (λ e. direct (inl ((==_iff _ _).0 e)))
        (λ user.
          if-cases Q (satp_mode satp == 0) _ _ (λ e. direct (inr ((==_iff _ _).0 e)))
            (λ paged.
              if-cases Q (not (satp_mode satp == 8)) _ _ (λ _. stopped)
                (λ sv39.
                  if-cases Q (not (is_canonical vaddr)) _ _ (λ _. traps _ m refl)
                    (λ canon.
                      if-cases Q (hits asked (entry_at t (tlb_index vaddr) m.hart.mmu)) _ _ hit
                        (λ _. walked (ground (arith, user, paged, sv39, canon)))))))
    where
      satp : ℕ
      satp = m.hart.csrs.satp
