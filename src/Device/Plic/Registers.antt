-- ===== src/Device/Plic/Registers.antt =====
-- The registers of the interrupt controller: `read_internal` and `write_internal` of
-- src/device/plic.cpp, and the members that they call.
use uotan_riscv_emu_ng.Base.{
  ℕ, zero, suc, ◌+◌, ◌-◌, ◌*◌, ◌/◌, ◌%◌, ◌^◌, Bool, true, false, not, ◌&&◌, Option, none, some,
  List, [], ◌∷◌,
}
use uotan_riscv_emu_ng.Base.{
  bit_and, bit_or, bit_xor, ◌==◌, ltb, leb, truthy, if◌then◌else◌, get_or, set, length,
}
use uotan_riscv_emu_ng.Base.Word.{not32}
use uotan_riscv_emu_ng.Core.State.{Hart}
use uotan_riscv_emu_ng.Device.Plic.{
  Context, Plic, new_context, test_bit, clear_bit, drive, context_update, context_claim,
}

unfoldable pub priority_read : ℕ → Plic → ℕ
priority_read offset p =
    let id = offset / 4 in if ltb 0 id && ltb id p.num_ids then get_or p.priority id 0 else 0

unfoldable pub priority_write : ℕ → ℕ → Plic → Plic
priority_write offset val p =
    let id = offset / 4 in
    if ltb 0 id && ltb id p.num_ids
    then record p { priority = set p.priority id (bit_and val (2 ^ 4 - 1)) }
    else p

pending_word : ℕ → List Context → ℕ
pending_word w [] = 0
pending_word w (c ∷ cs) = bit_or (get_or c.pending w 0) (pending_word w cs)

unfoldable pub pending_read : ℕ → Plic → ℕ
unfolding pending_word
pending_read offset p =
    let w = offset / 4 in if ltb w p.num_ids_word then pending_word w p.contexts else 0

unfoldable pub context_enable_read : ℕ → ℕ → Context → ℕ
context_enable_read words offset c =
    let w = offset / 4 in if ltb w words then get_or c.enable w 0 else 0

-- What the new enable bit `i` of a word does to the source.
abbrev enable_bit : Plic → ℕ → ℕ → ℕ → ℕ → Context → Context
enable_bit p w old_val new_val i c =
    let id = w * 32 + i in
    let mask = 2 ^ i in
    if not (truthy (bit_and (bit_xor old_val new_val) mask))
    then c
    else if truthy (bit_and new_val mask) && test_bit p.level w mask
    then drive id (get_or p.priority id 0) true c
    else if not (truthy (bit_and new_val mask))
    then drive id 0 false c
    else c

unfoldable pub enable_loop : Plic → ℕ → ℕ → ℕ → ℕ → ℕ → Context → Context
enable_loop p w old_val new_val zero i c = c
enable_loop p w old_val new_val (suc n) i c =
    enable_loop p w old_val new_val n (suc i) (enable_bit p w old_val new_val i c)

unfoldable pub context_enable_write : Plic → ℕ → ℕ → Context → Hart → Context × Hart
unfolding enable_loop context_update
context_enable_write p offset val c h =
    let w = offset / 4 in
    if leb p.num_ids_word w
    then (c, h)
    else let new_val = if w == 0 then bit_and val (not32 1) else val in
      let c' =
        enable_loop p w (get_or c.enable w 0) new_val 32 0
          (record c { enable = set c.enable w new_val }) in
      (c', context_update p.num_ids p.num_ids_word c' h)

-- THRESHOLD is at offset 0, CLAIM at 4.
unfoldable pub context_read : Plic → ℕ → Context → Hart → ℕ × Context × Hart
unfolding context_claim
context_read p offset c h =
    if offset == 0
    then (c.priority_threshold, c, h)
    else if offset == 4
    then context_claim p.num_ids p.num_ids_word c h
    else (0, c, h)

unfoldable pub context_write : Plic → ℕ → ℕ → Context → Hart → Bool × Context × Hart
unfolding context_update
context_write p offset val c h =
    if offset == 0
    then (let v = bit_and val (2 ^ 4 - 1) in
        let c' = record c { priority_threshold = v } in
        if leb v p.max_prio
        then (true, c', context_update p.num_ids p.num_ids_word c' h)
        else (false, c, h))
    else if offset == 4
    then (let w = val / 32 in
        let mask = 2 ^ (val % 32) in
        let c' = record c { claimed = clear_bit c.claimed w mask } in
        if ltb val p.num_ids && test_bit c.enable w mask
        then (true, c', context_update p.num_ids p.num_ids_word c' h)
        else (true, c, h))
    else (false, c, h)

abbrev put_context : ℕ → Context → Plic → Plic
put_context i c p = record p { contexts = set p.contexts i c }

abbrev context_at : ℕ → Plic → Context
context_at i p = get_or p.contexts i (new_context true)

-- `read_internal` of four bytes.
unfoldable pub read_word : ℕ → Plic → Hart → Option ℕ × Plic × Hart
unfolding priority_read pending_read context_enable_read context_read
read_word offset p h =
    if ltb offset 0x1000
    then (some (priority_read offset p), p, h)
    else if ltb offset 0x2000
    then (some (pending_read (offset - 0x1000) p), p, h)
    else if ltb offset 0x200000
    then (let i = (offset - 0x2000) / 0x80 in
        if ltb i (length p.contexts)
        then (
          some (context_enable_read p.num_ids_word ((offset - 0x2000) % 0x80) (context_at i p)),
          p,
          h,
        )
        else (none, p, h))
    else if ltb offset 0x1000000
    then (let i = (offset - 0x200000) / 0x1000 in
        let r = context_read p ((offset - 0x200000) % 0x1000) (context_at i p) h in
        if ltb i (length p.contexts) then (some (r.0), put_context i r.1 p, r.2) else (none, p, h))
    else (none, p, h)

-- `write_internal` of four bytes, whose value is cut to 32 bits by the members that it calls.
unfoldable pub write_word : ℕ → ℕ → Plic → Hart → Bool × Plic × Hart
unfolding priority_write context_enable_write context_write
write_word offset value p h =
    let val = value % 2 ^ 32 in
    if ltb offset 0x2000
    then (true, priority_write offset val p, h)
    else if ltb offset 0x200000
    then (let i = (offset - 0x2000) / 0x80 in
        let r = context_enable_write p ((offset - 0x2000) % 0x80) val (context_at i p) h in
        if ltb i (length p.contexts) then (true, put_context i r.0 p, r.1) else (false, p, h))
    else if ltb offset 0x1000000
    then (let i = (offset - 0x200000) / 0x1000 in
        let r = context_write p ((offset - 0x200000) % 0x1000) val (context_at i p) h in
        if ltb i (length p.contexts) then (r.0, put_context i r.1 p, r.2) else (false, p, h))
    else (false, p, h)

-- `read_internal`: eight bytes are two reads, the second only if the first succeeds.
unfoldable pub read_internal : ℕ → ℕ → Plic → Hart → Option ℕ × Plic × Hart
unfolding read_word
read_internal offset size p h =
    if size == 8
    then (let lo = read_word offset p h in
        elim lo.0 [
          | none ↦ (none, lo.1, lo.2)
          | some l ↦
              let hi = read_word (offset + 4) lo.1 lo.2 in
              elim hi.0 [
                | none ↦ (none, hi.1, hi.2)
                | some v ↦ (some (bit_or l (v * 2 ^ 32)), hi.1, hi.2)
              ]
        ])
    else if size == 4
    then read_word offset p h
    else (none, p, h)

unfoldable pub write_internal : ℕ → ℕ → ℕ → Plic → Hart → Bool × Plic × Hart
unfolding write_word
write_internal offset size value p h =
    if size == 8
    then (let lo = write_word offset (bit_and value 0xFFFFFFFF) p h in
        if lo.0 then write_word (offset + 4) (value / 2 ^ 32) lo.1 lo.2 else lo)
    else if size == 4
    then write_word offset value p h
    else (false, p, h)
