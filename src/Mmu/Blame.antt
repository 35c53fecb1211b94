-- ===== src/Mmu/Blame.antt =====
-- The pc of the traps that the accesses of include/core/mmu.hpp throw.
use uotan_riscv_emu_ng.Base.{
  ℕ, zero, suc, ◌+◌, ◌/◌, ◌%◌, ◌^◌, refl, Bool, not, ◌==◌, truthy, bit_and, Option, none, some,
  List, [], ◌∷◌,
}
use uotan_riscv_emu_ng.Core.Trap.{ok, terminate, priv_m}
use uotan_riscv_emu_ng.Core.Monad.{M, pure, raise}
use uotan_riscv_emu_ng.Core.Blame.{
  Blames, IsAt, after-IsAt, raise_if-Blames, guard-Blames, if-Blames, choose-IsAt,
}
use uotan_riscv_emu_ng.Core.Csr.{satp_mode}
use uotan_riscv_emu_ng.Core.Memory.{Machine}
use uotan_riscv_emu_ng.Decoder.Names.{compressed}
use uotan_riscv_emu_ng.Memory.{Bus, bus_read, bus_write, accessible}
use uotan_riscv_emu_ng.Mmu.{
  AccessType, fetch, store, Request, request, page_trap, access_trap, access_fault,
  misaligned_superpage, user_refused, permits, stale, updated_pte, update_pte, leaf, pte_invalid,
  is_leaf, pte_d, pte_a, pte_u, examine, level, walk, is_canonical, hits, entry_at, tlb_index,
  translate, pte_address, with_bus,
}
use uotan_riscv_emu_ng.Mmu.Access.{
  value_or, check_accessible, locate, gather, scatter, read_type, read_aligned, read_unaligned,
  read, write_aligned, write_unaligned, write, probe_store, may_cross_page, is_compressed,
  fetch_rest, ifetch,
}

module _ {W : Type 0} (r : Request) where
  update_pte-Blames : (a pte : ℕ) → Blames r.at (update_pte {W = W} r a pte)
  unfolding update_pte
  update_pte-Blames a pte m =
      choose-IsAt r.at (stale r.type pte) _ (ok tt, m)
        (after-IsAt r.at _ _ _ (raise_if-Blames r.at (not r.adue) (page_trap r) refl m) (λ u m'.
          raise_if-Blames r.at (not (bus_write 8 a (updated_pte r.type pte) m'.world).0)
            (access_trap r) refl _))
        tt

  leaf-Blames : (i a pte : ℕ) → Blames r.at (leaf {W = W} r i a pte)
  unfolding leaf
  leaf-Blames i a pte = guard-Blames r.at (misaligned_superpage i pte) (page_trap r) _ refl (
      guard-Blames r.at (user_refused r pte) (page_trap r) _ refl (
        guard-Blames r.at (not (permits r.type r.mxr pte)) (page_trap r) _ refl
          (λ m. after-IsAt r.at _ _ _ (update_pte-Blames a pte m) (λ u m'. tt))))

  examine-Blames :
      (i : ℕ) (next : ℕ → M (Machine (Bus W)) ℕ) (a : ℕ) (o : Option ℕ)
      → ((b : ℕ) → Blames r.at (next b))
      → Blames r.at (examine r i next a o)
  examine-Blames i next a none p m = refl
  examine-Blames i next a (some pte) p m =
      guard-Blames r.at (pte_invalid pte) (page_trap r) _ refl
        (guard-Blames r.at (truthy (pte / 2 ^ 54)) (page_trap r) _ refl (
          if-Blames r.at (is_leaf pte) (leaf r i a pte) _ (leaf-Blames i a pte) (
            guard-Blames r.at (truthy (bit_and pte (pte_d + pte_a + pte_u))) (page_trap r) _ refl
              (p _))))
        m

  level-Blames :
      (i : ℕ) (next : ℕ → M (Machine (Bus W)) ℕ) (a : ℕ)
      → ((b : ℕ) → Blames r.at (next b))
      → Blames r.at (level r i next a)
  level-Blames i next a p m =
      let b = bus_read 8 (pte_address r i a) m.world in
      examine-Blames i next (pte_address r i a) b.0 p (with_bus b.1 m)

  walk-Blames : (i a : ℕ) → Blames r.at (walk {W = W} r i a)
  unfolding walk
  walk-Blames zero a = level-Blames 0 (λ b. raise (page_trap r)) a (λ b m'. refl)
  walk-Blames (suc i) a = level-Blames (suc i) (walk r i) a (walk-Blames i)

module _ {W : Type 0} (at : ℕ) where
  translate-Blames : (vaddr : ℕ) (t : AccessType) → Blames at (translate {W = W} at vaddr t)
  unfolding translate
  translate-Blames vaddr t m =
      let satp = m.hart.csrs.satp in
      let r = request at vaddr t m.hart in
      choose-IsAt at (r.priv == priv_m) _ _ tt (
        choose-IsAt at (satp_mode satp == 0) _ _ tt (
          choose-IsAt at (not (satp_mode satp == 8)) (terminate, m) _ tt
            (choose-IsAt at (not (is_canonical vaddr)) _ _ refl (
              choose-IsAt at (hits r (entry_at t (tlb_index vaddr) m.hart.mmu)) _ _ tt
                (walk-Blames r 2 _ m)))))

  value_or-Blames :
      (addr : ℕ) (t : AccessType) (o : Option ℕ) → Blames at (value_or {W = W} at addr t o)
  value_or-Blames addr t none m = refl
  value_or-Blames addr t (some v) m = tt

  check-Blames :
      (addr : ℕ) (t : AccessType) (p : ℕ) → Blames at (check_accessible {W = W} at addr t p)
  check-Blames addr t p m =
      raise_if-Blames at (not (accessible p m.world)) (access_fault at addr t) refl m

  locate-Blames : (addr : ℕ) (t : AccessType) (v n : ℕ) → Blames at (locate {W = W} at addr t v n)
  unfolding locate
  locate-Blames addr t v zero m = tt
  locate-Blames addr t v (suc n) m =
      after-IsAt at _ _ _ (translate-Blames (v % 2 ^ 64) t m) (λ p m1.
        after-IsAt at _ _ _ (check-Blames addr t p m1)
          (λ u m2. after-IsAt at _ _ _ (locate-Blames addr t (v + 1) n m2) (λ ps m3. tt)))

  gather-Blames :
      (addr : ℕ) (t : AccessType) (ps : List ℕ) → Blames at (gather {W = W} at addr t ps)
  unfolding gather
  gather-Blames addr t [] m = tt
  gather-Blames addr t (p ∷ ps) m =
      after-IsAt at _ _ _ (value_or-Blames addr t (bus_read 1 p m.world).0 _)
        (λ b m1. after-IsAt at _ _ _ (gather-Blames addr t ps m1) (λ high m2. tt))

  scatter-Blames : (addr : ℕ) (ps : List ℕ) (v : ℕ) → Blames at (scatter {W = W} at addr ps v)
  unfolding scatter
  scatter-Blames addr [] v m = tt
  scatter-Blames addr (p ∷ ps) v m =
      after-IsAt at _ _ _
        (raise_if-Blames at (not (bus_write 1 p (v % 256) m.world).0) (access_fault at addr store)
          refl _)
        (λ u. scatter-Blames addr ps (v / 256))

  pub read-Blames : (size addr : ℕ) (amo : Bool) → Blames at (read {W = W} size at addr amo)
  unfolding read read_aligned read_unaligned
  read-Blames size addr amo =
      if-Blames at (addr % size == 0) (read_aligned size at addr (read_type amo))
        (read_unaligned size at addr (read_type amo))
        (λ m.
          after-IsAt at _ _ _ (translate-Blames addr (read_type amo) m)
            (λ p m'. value_or-Blames addr (read_type amo) (bus_read size p m'.world).0 _))
        (λ m.
          after-IsAt at _ _ _ (locate-Blames addr (read_type amo) addr size m)
            (gather-Blames addr (read_type amo)))

  pub write-Blames : (size addr v : ℕ) → Blames at (write {W = W} size at addr v)
  unfolding write write_aligned write_unaligned
  write-Blames size addr v =
      if-Blames at (addr % size == 0) (write_aligned size at addr v)
        (write_unaligned size at addr v)
        (λ m. after-IsAt at _ _ _ (translate-Blames addr store m) (λ p m'.
          raise_if-Blames at (not (bus_write size p v m'.world).0) (access_fault at addr store) refl
            _))
        (λ m.
          after-IsAt at _ _ _ (locate-Blames addr store addr size m)
            (λ ps. scatter-Blames addr ps v))

  pub probe_store-Blames : (addr : ℕ) → Blames at (probe_store {W = W} at addr)
  unfolding probe_store
  probe_store-Blames addr m =
      after-IsAt at _ _ _ (translate-Blames addr store m) (check-Blames addr store)

  fetch_rest-Blames : (insn : ℕ) → Blames at (fetch_rest {W = W} at insn)
  unfolding fetch_rest
  fetch_rest-Blames insn m =
      after-IsAt at _ _ _ (translate-Blames ((at + 2) % 2 ^ 64) fetch m) (λ p m1.
        after-IsAt at _ _ _ (value_or-Blames ((at + 2) % 2 ^ 64) fetch (bus_read 2 p m1.world).0 _)
          (λ v m2. tt))

module _ {W : Type 0} where
  -- A fetch that traps blames the pc of the hart.
  pub ifetch-Blames : (m : Machine (Bus W)) → IsAt m.hart.pc (ifetch m).0
  unfolding ifetch
  ifetch-Blames m =
      choose-IsAt m.hart.pc (may_cross_page m.hart.pc) _ _
        (after-IsAt m.hart.pc _ _ _ (translate-Blames m.hart.pc m.hart.pc fetch m) (λ p m1.
          after-IsAt m.hart.pc _ _ _
            (value_or-Blames m.hart.pc m.hart.pc fetch (bus_read 2 p m1.world).0 _)
            (λ insn.
              if-Blames m.hart.pc (is_compressed insn) (pure (insn, compressed))
                (fetch_rest m.hart.pc insn) (λ m2. tt) (fetch_rest-Blames m.hart.pc insn))))
        (after-IsAt m.hart.pc _ _ _ (translate-Blames m.hart.pc m.hart.pc fetch m) (λ p m1.
          after-IsAt m.hart.pc _ _ _
            (value_or-Blames m.hart.pc m.hart.pc fetch (bus_read 4 p m1.world).0 _)
            (λ insn m2. tt)))
