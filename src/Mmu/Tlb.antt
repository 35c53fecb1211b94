-- ===== src/Mmu/Tlb.antt =====
-- The TLBs of include/core/mmu.hpp, and the offset within a page.
use uotan_riscv_emu_ng.Base.{
  ℕ, ◌-◌, ◌*◌, ◌%◌, ◌^◌, ◌<◌, ◌≡◌, refl, sym, ap, ◌∙◌, Bool, true, false, not, ◌&&◌, bit_and, ◌==◌,
  truthy, if◌then◌else◌, length, arith, get_or-set_self,
}
use native.Mathlib.Nat.{mod-lt}
use uotan_riscv_emu_ng.Base.Bits.{bit_and-lt}
use uotan_riscv_emu_ng.Base.Digits.{
  digit, digit-and, digit-or, digit-mul, digit-mod, digits_ext, truthy-digit, digit-mask,
}
use uotan_riscv_emu_ng.Base.Word.{shl64}
use uotan_riscv_emu_ng.Core.Csr.{satp_mode}
use uotan_riscv_emu_ng.Core.Trap.{Result, ok, trap, terminate, priv_m}
use uotan_riscv_emu_ng.Core.State.{Hart, Mmu, TlbEntry, empty_entry}
use uotan_riscv_emu_ng.Core.Memory.{Machine}
use uotan_riscv_emu_ng.Memory.{Bus}
use uotan_riscv_emu_ng.Mmu.{
  effective_priv, is_canonical, page_fault, walk, AccessType, fetch, load, store, Request, request,
  translate, physical, fill, filled, hits, entry_at, put_entry, tlb_index, vpn_of, user_refused,
  permits, is_store, pte_perm_mask, final_ppn,
}
use uotan_riscv_emu_ng.Mmu.Cases.{translate-cases, walk-cases, is_translated}

page_digit : (ppn k : ℕ) → k < 12 → digit (ppn * 2 ^ 12 % 2 ^ 64) k ≡ 0
page_digit ppn k l = ground (arith, digit-mod 64 k (ppn * 2 ^ 12), digit-mul 12 k ppn)

offset_digit : (vaddr k : ℕ) → k < 12 → digit (bit_and vaddr (2 ^ 12 - 1)) k ≡ digit vaddr k
offset_digit vaddr k l = ground (arith, digit-and k vaddr (2 ^ 12 - 1), digit-mask 12 k)

low_digit : (x k : ℕ) → k < 12 → digit (x % 2 ^ 12) k ≡ digit x k
low_digit x k l = ground (arith, digit-mod 12 k x)

physical-mod : (ppn vaddr : ℕ) → physical ppn vaddr % 2 ^ 12 ≡ vaddr % 2 ^ 12
unfolding physical
physical-mod ppn vaddr =
    digits_ext 12 _ _ (mod-lt (physical ppn vaddr) (omega arith)) (mod-lt vaddr (omega arith))
      λ k l.
        low_digit (physical ppn vaddr) k l
        ∙ digit-or k (ppn * 2 ^ 12 % 2 ^ 64) (bit_and vaddr 0xFFF)
        ∙ omega (arith, page_digit ppn k l, offset_digit vaddr k l)
        ∙ sym (low_digit vaddr k l)

-- A translation that returns keeps the offset in the page, whether it is direct, by the TLB, or by
-- the page table.
pub translate-offset :
    {W : Type 0} (at vaddr : ℕ) (t : AccessType) (m : Machine (Bus W)) (paddr : ℕ)
    → (translate at vaddr t m).0 ≡ ok paddr
    → paddr % 2 ^ 12 ≡ vaddr % 2 ^ 12
translate-offset {W} at vaddr t m paddr =
    translate-cases at vaddr t m Kept (λ _ e. ground arith) (λ e. absurd (ground arith))
      (λ tr m' _ e. absurd (ground arith))
      (λ _ e. kept (entry_at t (tlb_index vaddr) m.hart.mmu).ppn e)
      (λ _.
        walk-cases (request at vaddr t m.hart) m.hart Kept (λ tr m' _ e. absurd (ground arith))
          (λ l pte m' _ _ _ e. kept (final_ppn l pte vaddr) e) 2 _ m refl)
  where
    Kept : Result ℕ × Machine (Bus W) → Type 0
    Kept p = p.0 ≡ ok paddr → paddr % 2 ^ 12 ≡ vaddr % 2 ^ 12

    kept : (ppn : ℕ) → ok (physical ppn vaddr) ≡ ok paddr → paddr % 2 ^ 12 ≡ vaddr % 2 ^ 12
    kept ppn e = ground (arith, physical-mod ppn vaddr)

-- The permission bits survive the mask with which an entry is filled.
perm_kept :
    (k pte : ℕ)
    → digit pte_perm_mask k ≡ 1
    → truthy (bit_and (bit_and pte pte_perm_mask) (2 ^ k)) ≡ truthy (bit_and pte (2 ^ k))
perm_kept k pte e =
    truthy-digit k (bit_and pte pte_perm_mask)
    ∙ ap truthy (omega (arith, digit-and k pte pte_perm_mask, e))
    ∙ sym (truthy-digit k pte)

user_refused-mask :
    (r : Request) (pte : ℕ) → user_refused r (bit_and pte pte_perm_mask) ≡ user_refused r pte
user_refused-mask r pte = rw (perm_kept 4 pte refl) refl

permits-mask :
    (t : AccessType) (mxr : Bool) (pte : ℕ)
    → permits t mxr (bit_and pte pte_perm_mask) ≡ permits t mxr pte
permits-mask fetch mxr pte = perm_kept 3 pte refl
permits-mask load mxr pte = rw (perm_kept 1 pte refl, perm_kept 3 pte refl) refl
permits-mask store mxr pte = perm_kept 2 pte refl

-- The entry that a walk leaves answers a request like its own, but for a store to a clean page.
filled-hits :
    (r : Request) (l pte : ℕ)
    → is_store r.type ≡ false
    → user_refused r pte ≡ false
    → permits r.type r.mxr pte ≡ true
    → hits r (filled r l pte) ≡ true
unfolding hits
filled-hits r l pte s u p =
    ground (arith, s, u, p, user_refused-mask r pte, permits-mask r.type r.mxr pte)

-- Both TLBs are arrays of 128 entries.
abbrev pub IsSized : Mmu → Type 0
IsSized u = (length u.itlb ≡ 128) × (length u.dtlb ≡ 128)

tlb_index-lt : (vaddr : ℕ) → tlb_index vaddr < 128
tlb_index-lt vaddr = bit_and-lt 7 (vpn_of vaddr) 127 (omega arith)

entry_at-put_entry :
    (t : AccessType) (i : ℕ) (e : TlbEntry) (u : Mmu)
    → IsSized u
    → i < 128
    → entry_at t i (put_entry t i e u) ≡ e
entry_at-put_entry fetch i e u s l = get_or-set_self u.itlb i e empty_entry (omega (arith, s.0))
entry_at-put_entry load i e u s l = get_or-set_self u.dtlb i e empty_entry (omega (arith, s.1))
entry_at-put_entry store i e u s l = get_or-set_self u.dtlb i e empty_entry (omega (arith, s.1))

answered :
    {A : Type 0} (direct bare sv39 canonical hit : Bool) (x y z w v u : A)
    → (not direct && not bare && sv39 && canonical) ≡ true
    → hit ≡ true
    → (if direct
        then x
        else if bare
        then y
        else if not sv39
        then z
        else if not canonical
        then v
        else if hit
        then w
        else u)
      ≡ w
answered direct bare sv39 canonical hit x y z w v u h k = ground (arith, h, k)

module _ {W : Type 0} (at vaddr : ℕ) (t : AccessType) where
  translate_hit :
      (m : Machine (Bus W))
      → is_translated vaddr t m.hart ≡ true
      → hits (request at vaddr t m.hart) (entry_at t (tlb_index vaddr) m.hart.mmu) ≡ true
      → translate at vaddr t m
        ≡ (ok (physical (entry_at t (tlb_index vaddr) m.hart.mmu).ppn vaddr), m)
  unfolding translate
  translate_hit m tr h =
      answered (effective_priv t m.hart == priv_m) (satp_mode satp == 0) (satp_mode satp == 8)
        (is_canonical vaddr) (hits (request at vaddr t m.hart) e) (ok vaddr, m) (ok vaddr, m)
        (terminate, m) (ok (physical e.ppn vaddr), m) (trap (page_fault at vaddr t), m)
        (walk (request at vaddr t m.hart) 2 (shl64 (bit_and satp (2 ^ 44 - 1)) 12) m) tr h
    where
      satp : ℕ
      satp = m.hart.csrs.satp

      e : TlbEntry
      e = entry_at t (tlb_index vaddr) m.hart.mmu

  refilled :
      (h : Hart) (b : Bus W) (l pte : ℕ)
      → IsSized h.mmu
      → is_store t ≡ false
      → is_translated vaddr t h ≡ true
      → user_refused (request at vaddr t h) pte ≡ false
      → permits t (request at vaddr t h).mxr pte ≡ true
      → translate at vaddr t (
          fill
            (request at vaddr t h)
            (filled (request at vaddr t h) l pte)
            (record { hart = h; world = b }))
        ≡ (
          ok (physical (final_ppn l pte vaddr) vaddr),
          fill
              (request at vaddr t h)
              (filled (request at vaddr t h) l pte)
              (record { hart = h; world = b }),
        )
  refilled h b l pte s st tr u p =
      translate_hit m' tr (ap (hits r) stored ∙ filled-hits r l pte st u p)
      ∙ ap (λ (e : TlbEntry). (ok (physical e.ppn vaddr), m')) stored
    where
      r : Request
      r = request at vaddr t h

      m' : Machine (Bus W)
      m' = fill r (filled r l pte) (record { hart = h; world = b })

      stored : entry_at t (tlb_index vaddr) m'.hart.mmu ≡ filled r l pte
      stored = entry_at-put_entry t (tlb_index vaddr) (filled r l pte) h.mmu s (tlb_index-lt vaddr)

  -- A fetch or a load that was translated is translated in the same way again, and the second time
  -- nothing changes: the entry that the walk left answers.
  pub translate-translate :
      (m : Machine (Bus W)) (paddr : ℕ)
      → IsSized m.hart.mmu
      → is_store t ≡ false
      → (translate at vaddr t m).0 ≡ ok paddr
      → translate at vaddr t (translate at vaddr t m).1 ≡ (ok paddr, (translate at vaddr t m).1)
  translate-translate m paddr s st =
      translate-cases at vaddr t m Repeats (λ _. unchanged vaddr) (λ _ e. absurd (ground arith))
        (λ tr m' _ _ e. absurd (ground arith))
        (λ _. unchanged (physical (entry_at t (tlb_index vaddr) m.hart.mmu).ppn vaddr))
        (λ tr.
          walk-cases r m.hart Repeats (λ tr m' _ _ e. absurd (ground arith))
            (λ l pte m' same u p _ e.
              found l pte m' same (refilled m.hart m'.world l pte s st tr u p) e)
            2 _ m refl)
        refl
    where
      r : Request
      r = request at vaddr t m.hart

      Repeats : Result ℕ × Machine (Bus W) → Type 0
      Repeats p =
          translate at vaddr t m ≡ p → p.0 ≡ ok paddr → translate at vaddr t p.1 ≡ (ok paddr, p.1)

      unchanged : (a : ℕ) → Repeats (ok a, m)
      unchanged a e k = e ∙ ap (λ (o : Result ℕ). (o, m)) k

      found :
          (l pte : ℕ) (m' : Machine (Bus W))
          → m'.hart ≡ m.hart
          → translate at vaddr t
              (fill r (filled r l pte) (record { hart = m.hart; world = m'.world }))
            ≡ (
              ok (physical (final_ppn l pte vaddr) vaddr),
              fill r (filled r l pte) (record { hart = m.hart; world = m'.world }),
            )
          → ok (physical (final_ppn l pte vaddr) vaddr) ≡ ok paddr
          → translate at vaddr t (fill r (filled r l pte) m')
            ≡ (ok paddr, fill r (filled r l pte) m')
      found l pte m' same again e = rw same (
          again
          ∙ ap
              (λ (o : Result ℕ).
                (o, fill r (filled r l pte) (record { hart = m.hart; world = m'.world })))
              e)
