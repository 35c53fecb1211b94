-- ===== src/Memory/Laws.antt =====
-- A read of memory gives what was written: `Bus::read` and `Bus::write` of include/core/bus.hpp over
-- include/core/dram.hpp.
use uotan_riscv_emu_ng.Base.{ℕ, ◌+◌, ◌-◌, ◌%◌, ◌^◌, ◌≤◌, ◌≡◌, refl, ap, ◌∙◌, ◌⊎◌, arith, true, some}
use uotan_riscv_emu_ng.Memory.{
  Dram, dram_base, is_valid_addr, dram_read, dram_write, Bus, bus_read, bus_write,
}
use uotan_riscv_emu_ng.Memory.Bytes.{store, load-store, load-agree, store-outside}

valid_lem :
    (addr len : ℕ) (d : Dram)
    → is_valid_addr addr len d ≡ true
    → (dram_base ≤ addr) × (addr + len ≤ dram_base + d.size)
unfolding is_valid_addr
valid_lem addr len d h = ground arith

valid_write :
    (addr len n a v : ℕ) (d : Dram)
    → is_valid_addr addr len (dram_write n a v d) ≡ is_valid_addr addr len d
unfolding is_valid_addr dram_write
valid_write addr len n a v d = refl

module _ {W : Type 0} (n m addr value : ℕ) (b : Bus W) where
  written_lem :
      is_valid_addr addr n b.dram ≡ true
      → bus_write n addr value b ≡ (true, record b { dram = dram_write n addr value b.dram })
  unfolding bus_write
  written_lem h = rw h refl

  read_lem :
      (a : ℕ) → is_valid_addr a m b.dram ≡ true → bus_read m a b ≡ (some (dram_read m a b.dram), b)
  unfolding bus_read
  read_lem a h = rw h refl

dram_read-dram_write :
    (n addr value : ℕ) (d : Dram) → dram_read n addr (dram_write n addr value d) ≡ value % 256 ^ n
unfolding dram_read dram_write
dram_read-dram_write n addr value d = load-store n d.mem (addr - dram_base) value

apart :
    (n m addr a value : ℕ) (d : Dram)
    → dram_base ≤ addr
    → dram_base ≤ a
    → (a + m ≤ addr) ⊎ (addr + n ≤ a)
    → dram_read m a (dram_write n addr value d) ≡ dram_read m a d
unfolding dram_read dram_write
apart n m addr a value d h l o =
    load-agree m (store n d.mem (addr - dram_base) value) d.mem (a - dram_base)
      λ j p q. store-outside n d.mem (addr - dram_base) value j (ground (arith, o))

module _ {W : Type 0} (b : Bus W) (n addr value : ℕ)
    (valid : is_valid_addr addr n b.dram ≡ true) where
  after : Bus W
  after = record b { dram = dram_write n addr value b.dram }

  still_valid : (a m : ℕ) → is_valid_addr a m b.dram ≡ true → is_valid_addr a m after.dram ≡ true
  unfolding after
  still_valid a m l = valid_write a m n addr value b.dram ∙ l

  written : bus_write n addr value b ≡ (true, after)
  unfolding after
  written = written_lem n n addr value b valid

  -- A write to valid memory succeeds, and a read of the same size and address then gives the value,
  -- cut to the size.
  pub bus_read-bus_write :
      ((bus_write n addr value b).0 ≡ true)
      × ((bus_read n addr (bus_write n addr value b).1).0 ≡ some (value % 256 ^ n))
  bus_read-bus_write =
      rw written
        (refl, rw (read_lem n n addr value after addr (still_valid addr n valid)) value_read)
    where
      value_read : some (dram_read n addr after.dram) ≡ some (value % 256 ^ n)
      value_read = unfold after in ap some (dram_read-dram_write n addr value b.dram)

  -- A write to valid memory does not change what a read of other valid bytes gives.
  pub bus_read-bus_write_apart :
      (m a : ℕ)
      → is_valid_addr a m b.dram ≡ true
      → (a + m ≤ addr) ⊎ (addr + n ≤ a)
      → (bus_read m a (bus_write n addr value b).1).0 ≡ (bus_read m a b).0
  bus_read-bus_write_apart m a l o =
      rw
        (
          written,
          read_lem n m addr value b a l,
          read_lem n m addr value after a (still_valid a m l),
        )
        other_read
    where
      other_read : some (dram_read m a after.dram) ≡ some (dram_read m a b.dram)
      other_read =
          unfold after in
          ap some (
            apart n m addr a value b.dram (valid_lem addr n b.dram valid).0
              (valid_lem a m b.dram l).0 o)
