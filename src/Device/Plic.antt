-- ===== src/Device/Plic.antt =====
-- The interrupt controller: include/device/plic.hpp and src/device/plic.cpp. Its mutex makes each
-- operation one step, and a context's pointer to the hart is the hart that every operation takes
-- and gives back.
pub mod Registers
pub mod Claim
pub mod Exclusive
pub mod Line
use uotan_riscv_emu_ng.Base.{
  ℕ, zero, suc, ◌+◌, ◌-◌, ◌*◌, ◌/◌, ◌%◌, ◌^◌, Bool, true, false, not, ◌&&◌, ◌||◌, List, [], ◌∷◌,
}
use uotan_riscv_emu_ng.Base.{
  bit_and, bit_or, ◌==◌, ltb, leb, truthy, if◌then◌else◌, get_or, set, replicate,
}
use uotan_riscv_emu_ng.Base.Word.{not32}
use uotan_riscv_emu_ng.Core.Mip
use uotan_riscv_emu_ng.Core.State.{Hart}
use uotan_riscv_emu_ng.Core.Clint.{set_interrupt_pending}

-- `Plic::Context`: the words of its bit vectors, and a priority for every source.
pub record Context : Type 0 where
  pub mmode : Bool
  pub priority_threshold : ℕ
  pub enable : List ℕ
  pub pending : List ℕ
  pub pending_priority : List ℕ
  pub claimed : List ℕ

pub record Plic : Type 0 where
  pub contexts : List Context
  pub num_ids : ℕ
  pub num_ids_word : ℕ
  pub max_prio : ℕ
  pub priority : List ℕ
  pub level : List ℕ

abbrev max_devices : ℕ
max_devices = 1024

abbrev new_context : Bool → Context
new_context mmode = record {
  mmode = mmode;
  priority_threshold = 0;
  enable = replicate 32 0;
  pending = replicate 32 0;
  pending_priority = replicate max_devices 0;
  claimed = replicate 32 0;
}

-- `Plic::Plic`
unfoldable pub new_plic : ℕ → Plic
new_plic ndev = record {
  contexts = new_context true ∷ new_context false ∷ [];
  num_ids = ndev + 1;
  num_ids_word = (ndev + 1 + (32 - 1)) / 32;
  max_prio = 2 ^ 4 - 1;
  priority = replicate max_devices 0;
  level = replicate 32 0;
}

-- `words[i] & mask`, `words[i] |= mask` and `words[i] &= ~mask`
abbrev pub test_bit : List ℕ → ℕ → ℕ → Bool
test_bit words i mask = truthy (bit_and (get_or words i 0) mask)

abbrev pub set_bit : List ℕ → ℕ → ℕ → List ℕ
set_bit words i mask = set words i (bit_or (get_or words i 0) mask)

abbrev pub clear_bit : List ℕ → ℕ → ℕ → List ℕ
clear_bit words i mask = set words i (bit_and (get_or words i 0) (not32 mask))

-- What the two loops of `context_best_pending` carry: `best_id` and `best_id_prio`.
pub record Best : Type 0 where
  pub id : ℕ
  pub prio : ℕ

-- Whether the source of bit `j` of word `i` is pending and not claimed.
abbrev pub eligible : ℕ → Context → ℕ → ℕ → Bool
eligible num_ids c i j =
    not (
      leb num_ids (i * 32 + j)
      || not (test_bit c.pending i (2 ^ j))
      || test_bit c.claimed i (2 ^ j))

unfoldable pub consider : ℕ → Context → ℕ → ℕ → Best → Best
consider num_ids c i j b =
    let id = i * 32 + j in
    let p = get_or c.pending_priority id 0 in
    if eligible num_ids c i j && (b.id == 0 || ltb b.prio p)
    then record { id = id; prio = p }
    else b

-- The loop over the bits of a word from `j` on.
unfoldable pub bit_loop : ℕ → Context → ℕ → ℕ → ℕ → Best → Best
unfolding consider
bit_loop num_ids c i zero j b = b
bit_loop num_ids c i (suc n) j b = bit_loop num_ids c i n (suc j) (consider num_ids c i j b)

-- The loop over the words from `i` on: a word without a bit is passed over.
unfoldable pub word_loop : ℕ → Context → ℕ → ℕ → Best → Best
unfolding bit_loop
word_loop num_ids c zero i b = b
word_loop num_ids c (suc n) i b =
    word_loop num_ids c n (suc i)
      (if get_or c.pending i 0 == 0 then b else bit_loop num_ids c i 32 0 b)

-- The members of a context that read `num_ids_` and `num_ids_word_`.
module _ (num_ids num_ids_word : ℕ) where
  unfoldable pub context_best_pending : Context → ℕ
  unfolding word_loop
  context_best_pending c =
      let b = word_loop num_ids c num_ids_word 0 (record { id = 0; prio = 0 }) in
      if leb b.prio c.priority_threshold then 0 else b.id

  unfoldable pub context_update : Context → Hart → Hart
  unfolding context_best_pending set_interrupt_pending
  context_update c h =
      set_interrupt_pending (if c.mmode then Mip.meip else Mip.seip)
        (not (context_best_pending c == 0)) h

  -- The id that is claimed, the context and the hart.
  unfoldable pub context_claim : Context → Hart → ℕ × Context × Hart
  unfolding context_best_pending context_update
  context_claim c h =
      let best = context_best_pending c in
      let c' =
        if truthy best
        then record c { claimed = set_bit c.claimed (best / 32) (2 ^ (best % 32)) }
        else c in
      (best, c', context_update c' h)

-- An interrupt line goes up or down in a context.
abbrev pub drive : ℕ → ℕ → Bool → Context → Context
drive id prio lvl c =
    let w = id / 32 in
    let mask = 2 ^ (id % 32) in
    if lvl
    then record c {
      pending = set_bit c.pending w mask;
      pending_priority = set c.pending_priority id prio;
    }
    else record c {
      pending = clear_bit c.pending w mask;
      pending_priority = set c.pending_priority id 0;
      claimed = clear_bit c.claimed w mask;
    }

-- The loop over the contexts: it stops at the first that has the source enabled.
unfoldable pub drive_first : ℕ → ℕ → ℕ → ℕ → Bool → List Context → Hart → List Context × Hart
unfolding context_update
drive_first num_ids words id prio lvl [] h = ([], h)
drive_first num_ids words id prio lvl (c ∷ cs) h =
    let rest = drive_first num_ids words id prio lvl cs h in
    if test_bit c.enable (id / 32) (2 ^ (id % 32))
    then (drive id prio lvl c ∷ cs, context_update num_ids words (drive id prio lvl c) h)
    else (c ∷ rest.0, rest.1)

-- `Plic::set_interrupt_level`
unfoldable pub set_interrupt_level : ℕ → Bool → Plic → Hart → Plic × Hart
unfolding drive_first
set_interrupt_level id lvl p h =
    if id == 0 || leb p.num_ids id
    then (p, h)
    else let w = id / 32 in
      let mask = 2 ^ (id % 32) in
      let level = if lvl then set_bit p.level w mask else clear_bit p.level w mask in
      let driven =
        drive_first p.num_ids p.num_ids_word id (get_or p.priority id 0) lvl p.contexts h in
      (record p { level = level; contexts = driven.0 }, driven.1)
