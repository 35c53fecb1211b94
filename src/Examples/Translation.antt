-- ===== src/Examples/Translation.antt =====
-- Address translation at a concrete page table.
use uotan_riscv_emu_ng.Base.{ℕ, ◌+◌, ◌*◌, ◌%◌, ◌^◌, ◌≡◌, refl, [], ◌==◌, if◌then◌else◌}
use uotan_riscv_emu_ng.Core.Trap.{priv_s, ok}
use uotan_riscv_emu_ng.Core.State.{Hart, reset, initial_csrs}
use uotan_riscv_emu_ng.Core.Csr.{mstatus_read}
use uotan_riscv_emu_ng.Core.Clint.{menvcfg_read}
use uotan_riscv_emu_ng.Core.Memory.{Machine}
use uotan_riscv_emu_ng.Memory.{Bus, is_valid_addr, bus_read}
use uotan_riscv_emu_ng.Memory.Bytes
use uotan_riscv_emu_ng.Mmu.{translate, walk, load}
use uotan_riscv_emu_ng.Mmu.Tlb.{translate-offset, translate-translate}

-- A page table at the start of the memory, whose first entry maps the first gigabyte to the memory.
abbrev table_bus : Bus ℕ
table_bus = record {
  dram = record { mem = λ i. if i == 0 then 0xCF else if i == 3 then 0x20 else 0; size = 4096 };
  devices = [];
  world = 0;
}

abbrev sv39_hart : Hart
sv39_hart = record (reset 0x1000) {
  priv = priv_s;
  csrs = record initial_csrs { satp = 8 * 2 ^ 60 + 0x80000 };
}

abbrev sv39 : Machine (Bus ℕ)
sv39 = record { hart = sv39_hart; world = table_bus }

walk_test : (translate 0x1000 0x234 load sv39).0 ≡ ok 0x80000234
unfolding translate walk reset initial_csrs is_valid_addr mstatus_read menvcfg_read bus_read
    Bytes.load
walk_test = refl

translate-offset_example : 0x80000234 % 2 ^ 12 ≡ 0x234 % 2 ^ 12
translate-offset_example = translate-offset 0x1000 0x234 load sv39 0x80000234 walk_test

translate-translate_example :
    translate 0x1000 0x234 load (translate 0x1000 0x234 load sv39).1
    ≡ (ok 0x80000234, (translate 0x1000 0x234 load sv39).1)
unfolding reset
translate-translate_example =
    translate-translate 0x1000 0x234 load sv39 0x80000234 (refl, refl) refl walk_test
