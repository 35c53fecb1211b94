-- ===== src/Mmu.antt =====
-- Address translation and memory access: include/core/mmu.hpp. The machine is the hart with its TLBs
-- and the bus as its world; a `T` is its size in bytes.
pub mod Blame
pub mod Access
pub mod Frame
pub mod Tlb
pub mod Cases
use uotan_riscv_emu_ng.Base.{
  ℕ, zero, suc, ◌+◌, ◌-◌, ◌*◌, ◌/◌, ◌%◌, ◌^◌, Bool, true, false, not, ◌&&◌, ◌||◌, Option, none,
  some,
}
use uotan_riscv_emu_ng.Base.{bit_and, bit_or, ◌==◌, ltb, truthy, if◌then◌else◌, get_or, set}
use uotan_riscv_emu_ng.Base.Word.{shl64, shr, sra64, not64}
use uotan_riscv_emu_ng.Core.Trap.{
  Trap, TrapCause, priv_u, priv_s, priv_m, instruction_page_fault, load_page_fault,
  store_amo_page_fault, instruction_access_fault, load_access_fault, store_amo_access_fault, Result,
  ok, trap, wfi_wait, terminate,
}
use uotan_riscv_emu_ng.Core.Mstatus
use uotan_riscv_emu_ng.Core.Menvcfg
use uotan_riscv_emu_ng.Core.Monad.{M, after, ◌>>=◌, ◌>>◌, pure, get, modify, raise, skip, raise_if}
use uotan_riscv_emu_ng.Core.State.{Hart, Mmu, TlbEntry, empty_entry, tlb_entries}
use uotan_riscv_emu_ng.Core.Csr.{mstatus_read, satp_mode}
use uotan_riscv_emu_ng.Core.Clint.{menvcfg_read}
use uotan_riscv_emu_ng.Core.Memory.{Machine}
use uotan_riscv_emu_ng.Memory.{Bus, bus_read, bus_write}

pub data AccessType : Type 0 where
  fetch load store : AccessType

abbrev pub pte_v : ℕ
pte_v = 2 ^ 0

abbrev pub pte_r : ℕ
pte_r = 2 ^ 1

abbrev pub pte_w : ℕ
pte_w = 2 ^ 2

abbrev pub pte_x : ℕ
pte_x = 2 ^ 3

abbrev pub pte_u : ℕ
pte_u = 2 ^ 4

abbrev pub pte_a : ℕ
pte_a = 2 ^ 6

abbrev pub pte_d : ℕ
pte_d = 2 ^ 7

abbrev pub pte_perm_mask : ℕ
pte_perm_mask = pte_r + pte_w + pte_x + pte_u

abbrev pub is_fetch : AccessType → Bool
is_fetch fetch = true
is_fetch _ = false

abbrev pub is_store : AccessType → Bool
is_store store = true
is_store _ = false

-- `raise_page_fault` and `raise_access_fault`
abbrev pub page_fault_cause : AccessType → TrapCause
page_fault_cause fetch = instruction_page_fault
page_fault_cause load = load_page_fault
page_fault_cause store = store_amo_page_fault

abbrev pub access_fault_cause : AccessType → TrapCause
access_fault_cause fetch = instruction_access_fault
access_fault_cause load = load_access_fault
access_fault_cause store = store_amo_access_fault

abbrev pub page_fault : ℕ → ℕ → AccessType → Trap
page_fault at vaddr t = record { pc = at; cause = page_fault_cause t; tval = vaddr }

abbrev pub access_fault : ℕ → ℕ → AccessType → Trap
access_fault at vaddr t = record { pc = at; cause = access_fault_cause t; tval = vaddr }

-- The locals of `translate`: its arguments, the effective privilege, and the status bits it reads.
pub record Request : Type 0 where
  pub at : ℕ
  pub vaddr : ℕ
  pub type : AccessType
  pub priv : ℕ
  pub sum : Bool
  pub mxr : Bool
  pub adue : Bool

-- The privilege of an access: MPRV replaces that of the hart, but not for a fetch.
abbrev pub effective_priv : AccessType → Hart → ℕ
effective_priv t h =
    let mstatus = mstatus_read h.csrs in
    if not (is_fetch t) && truthy (bit_and mstatus Mstatus.mprv)
    then bit_and mstatus Mstatus.mpp / 2 ^ 11
    else h.priv

abbrev pub request : ℕ → ℕ → AccessType → Hart → Request
request at vaddr t h = record {
  at = at;
  vaddr = vaddr;
  type = t;
  priv = effective_priv t h;
  sum = truthy (bit_and (mstatus_read h.csrs) Mstatus.sum);
  mxr = truthy (bit_and (mstatus_read h.csrs) Mstatus.mxr);
  adue = truthy (bit_and (menvcfg_read h.csrs) Menvcfg.adue);
}

-- Whether the U bit of `perm` keeps the privilege out.
abbrev pub user_refused : Request → ℕ → Bool
user_refused r perm =
    if truthy (bit_and perm pte_u)
    then r.priv == priv_s && (is_fetch r.type || not r.sum)
    else r.priv == priv_u

-- The `switch` on the access type.
abbrev pub permits : AccessType → Bool → ℕ → Bool
permits fetch mxr perm = truthy (bit_and perm pte_x)
permits load mxr perm = truthy (bit_and perm pte_r) || (mxr && truthy (bit_and perm pte_x))
permits store mxr perm = truthy (bit_and perm pte_w)

abbrev pub vpn_of : ℕ → ℕ
vpn_of vaddr = vaddr / 2 ^ 12

abbrev pub tlb_index : ℕ → ℕ
tlb_index vaddr = bit_and (vpn_of vaddr) 127

-- `(ppn << PGSHIFT) | (vaddr & PGMASK)`
unfoldable pub physical : ℕ → ℕ → ℕ
physical ppn vaddr = bit_or (shl64 ppn 12) (bit_and vaddr 0xFFF)

-- Whether the TLB entry answers: no `goto miss` is taken.
unfoldable pub hits : Request → TlbEntry → Bool
hits r e =
    (e.valid && e.vpn == vpn_of r.vaddr)
    && not (user_refused r e.perm)
    && permits r.type r.mxr e.perm
    && not (is_store r.type && not e.dirty)

abbrev pub entry_at : AccessType → ℕ → Mmu → TlbEntry
entry_at t i u = if is_fetch t then get_or u.itlb i empty_entry else get_or u.dtlb i empty_entry

abbrev pub put_entry : AccessType → ℕ → TlbEntry → Mmu → Mmu
put_entry t i e u =
    if is_fetch t then record u { itlb = set u.itlb i e } else record u { dtlb = set u.dtlb i e }

module _ {W : Type 0} where
  abbrev pub with_bus : Bus W → Machine (Bus W) → Machine (Bus W)
  with_bus b m = record m { world = b }

  -- `bus_->read<T>(paddr)` and `bus_->write<T>(paddr, v)`
  abbrev pub read_bus : ℕ → ℕ → M (Machine (Bus W)) (Option ℕ)
  read_bus size paddr m = let r = bus_read size paddr m.world in (ok (r.0), with_bus (r.1) m)

  abbrev pub write_bus : ℕ → ℕ → ℕ → M (Machine (Bus W)) Bool
  write_bus size paddr v m = let r = bus_write size paddr v m.world in (ok (r.0), with_bus (r.1) m)

  abbrev pub fill : Request → TlbEntry → Machine (Bus W) → Machine (Bus W)
  fill r e m = record m {
    hart = record (m.hart) { mmu = put_entry r.type (tlb_index r.vaddr) e m.hart.mmu };
  }

-- `(pte >> 10) & ((1ULL << 44) - 1)`
abbrev pub pte_ppn : ℕ → ℕ
pte_ppn pte = bit_and (pte / 2 ^ 10) (2 ^ 44 - 1)

-- The page of a leaf at level `i`: of a superpage, the low part comes from the address.
abbrev pub final_ppn : ℕ → ℕ → ℕ → ℕ
final_ppn i pte vaddr =
    if ltb 0 i
    then (let vpn_mask = 2 ^ (i * 9) - 1 in
        bit_or (bit_and (pte_ppn pte) (not64 vpn_mask)) (bit_and (vpn_of vaddr) vpn_mask))
    else pte_ppn pte

abbrev pub filled : Request → ℕ → ℕ → TlbEntry
filled r i pte = record {
  vpn = vpn_of r.vaddr;
  ppn = final_ppn i pte r.vaddr;
  perm = bit_and pte pte_perm_mask;
  valid = true;
  dirty = truthy (bit_and pte pte_d);
}

-- Whether A is to be set, or D for a store.
abbrev pub stale : AccessType → ℕ → Bool
stale t pte = not (truthy (bit_and pte pte_a)) || (is_store t && not (truthy (bit_and pte pte_d)))

abbrev pub updated_pte : AccessType → ℕ → ℕ
updated_pte t pte = if is_store t then bit_or (bit_or pte pte_a) pte_d else bit_or pte pte_a

-- A superpage whose page number is not a multiple of its size.
abbrev pub misaligned_superpage : ℕ → ℕ → Bool
misaligned_superpage i pte = ltb 0 i && truthy (bit_and (pte_ppn pte) (2 ^ (i * 9) - 1))

abbrev pub pte_invalid : ℕ → Bool
pte_invalid pte =
    not (truthy (bit_and pte pte_v))
    || (not (truthy (bit_and pte pte_r)) && truthy (bit_and pte pte_w))

abbrev pub is_leaf : ℕ → Bool
is_leaf pte = truthy (bit_and pte pte_r) || truthy (bit_and pte pte_x)

module _ (r : Request) where
  abbrev pub page_trap : Trap
  page_trap = page_fault r.at r.vaddr r.type

  abbrev pub access_trap : Trap
  access_trap = access_fault r.at r.vaddr r.type

  abbrev pub pte_address : ℕ → ℕ → ℕ
  pte_address i a = (a + bit_and (r.vaddr / 2 ^ (12 + i * 9)) 511 * 8) % 2 ^ 64

module _ {W : Type 0} (r : Request) where
  -- The update of the A and D bits in memory.
  unfoldable pub update_pte : ℕ → ℕ → M (Machine (Bus W)) (Unit {0})
  update_pte pte_addr pte m =
      if stale r.type pte
      then (do
        raise_if (not r.adue) (page_trap r)
        done ← write_bus 8 pte_addr (updated_pte r.type pte)
        raise_if (not done) (access_trap r))
          m
      else (ok tt, m)

  -- The end of the walk at a leaf of level `i`.
  unfoldable pub leaf : ℕ → ℕ → ℕ → M (Machine (Bus W)) ℕ
  unfolding update_pte
  leaf i pte_addr pte = do
    raise_if (misaligned_superpage i pte) (page_trap r)
    raise_if (user_refused r pte) (page_trap r)
    raise_if (not (permits r.type r.mxr pte)) (page_trap r)
    update_pte pte_addr pte
    modify (fill r (filled r i pte))
    pure (physical (final_ppn i pte r.vaddr) r.vaddr)

  -- What a level does with the entry it read; `next` is the walk of the level below.
  abbrev pub examine : ℕ → (ℕ → M (Machine (Bus W)) ℕ) → ℕ → Option ℕ → M (Machine (Bus W)) ℕ
  examine i next pte_addr none = raise (access_trap r)
  examine i next pte_addr (some pte) = do
    raise_if (pte_invalid pte) (page_trap r)
    raise_if (truthy (pte / 2 ^ 54)) (page_trap r)
    if is_leaf pte
        then leaf i pte_addr pte
        else (raise_if (truthy (bit_and pte (pte_d + pte_a + pte_u))) (page_trap r)
            >> next (shl64 (pte_ppn pte) 12))

  abbrev pub level : ℕ → (ℕ → M (Machine (Bus W)) ℕ) → ℕ → M (Machine (Bus W)) ℕ
  level i next a = read_bus 8 (pte_address r i a) >>= examine i next (pte_address r i a)

  -- The `while` loop from level `i` on, with the table at `a`.
  unfoldable pub walk : ℕ → ℕ → M (Machine (Bus W)) ℕ
  unfolding leaf
  walk zero a = level 0 (λ _. raise (page_trap r)) a
  walk (suc i) a = level (suc i) (walk i) a

-- `vaddr` is the sign extension of its 39 low bits.
abbrev pub is_canonical : ℕ → Bool
is_canonical vaddr = sra64 (shl64 vaddr 25) 25 == vaddr

module _ {W : Type 0} where
  -- `translate`
  unfoldable pub translate : ℕ → ℕ → AccessType → M (Machine (Bus W)) ℕ
  unfolding hits physical walk
  translate at vaddr t m =
      let r = request at vaddr t m.hart in
      let satp = m.hart.csrs.satp in
      let e = entry_at t (tlb_index vaddr) m.hart.mmu in
      if r.priv == priv_m
      then (ok vaddr, m)
      else if satp_mode satp == 0
      then (ok vaddr, m)
      else if not (satp_mode satp == 8)
      then (terminate, m)
      else if not (is_canonical vaddr)
      then (trap (page_fault at vaddr t), m)
      else if hits r e
      then (ok (physical e.ppn vaddr), m)
      else walk r 2 (shl64 (bit_and satp (2 ^ 44 - 1)) 12) m
