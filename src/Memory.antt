-- ===== src/Memory.antt =====
-- Guest memory and the bus: include/core/dram.hpp, include/core/bus.hpp and the members of
-- include/device/device.hpp that the bus calls.
pub mod Bytes
pub mod Laws
use uotan_riscv_emu_ng.Base.{
  ℕ, zero, suc, ◌+◌, ◌-◌, ◌*◌, ◌/◌, ◌%◌, ◌^◌, Bool, true, false, not, ◌&&◌, ◌||◌, Option, none,
  some, List, [], ◌∷◌,
}
use uotan_riscv_emu_ng.Base.{◌==◌, ltb, leb, if◌then◌else◌, max, min}
use uotan_riscv_emu_ng.Memory.Bytes.{load, store}

abbrev pub dram_base : ℕ
dram_base = 0x80000000

-- `mem_`, a byte for each offset, and `size_`.
pub record Dram : Type 0 where
  pub mem : ℕ → ℕ
  pub size : ℕ

unfoldable pub is_valid_addr : ℕ → ℕ → Dram → Bool
is_valid_addr addr len d =
    if ltb addr dram_base
    then false
    else if ltb d.size len || ltb (d.size - len) (addr - dram_base)
    then false
    else true

-- `Dram::read<T>` and `Dram::write<T>` of a `T` of `n` bytes.
unfoldable pub dram_read : ℕ → ℕ → Dram → ℕ
dram_read n addr d = load n d.mem (addr - dram_base)

unfoldable pub dram_write : ℕ → ℕ → ℕ → Dram → Dram
dram_write n addr value d = record d { mem = store n d.mem (addr - dram_base) value }

-- A device: its address range and its virtual members, over the state of all devices.
pub record Device (W : Type 0) : Type 0 where
  pub start : ℕ
  pub last : ℕ
  pub read_internal : ℕ → ℕ → W → Option ℕ × W
  pub write_internal : ℕ → ℕ → ℕ → W → Bool × W
  pub tick : W → W

module _ {W : Type 0} where
  -- `Device::contains`, whose sum wraps around.
  unfoldable pub contains : ℕ → ℕ → Device W → Bool
  contains addr len d =
      if ltb addr d.start || ltb d.last addr
      then false
      else if ltb 0 len && ltb d.last ((addr + len + 2 ^ 64 - 1) % 2 ^ 64)
      then false
      else true

  -- `Device::read<T>`: what the device answers is cut to `T`.
  unfoldable pub device_read : ℕ → ℕ → Device W → W → Option ℕ × W
  device_read n addr d w =
      let r = d.read_internal (addr - d.start) n w in
      elim r.0 [ none ↦ (none, r.1) | some v ↦ (some (v % 2 ^ (8 * n)), r.1) ]

  unfoldable pub device_write : ℕ → ℕ → ℕ → Device W → W → Bool × W
  device_write n addr value d w = d.write_internal (addr - d.start) n value w

abbrev pub check_overlap : ℕ → ℕ → ℕ → ℕ → Bool
check_overlap s1 e1 s2 e2 = leb (max s1 s2) (min e1 e2)

-- The memory, and the devices with their state.
pub record Bus (W : Type 0) : Type 0 where
  pub dram : Dram
  pub devices : List (Device W)
  pub world : W

module _ {W : Type 0} where
  -- The loops over the devices: the first that has the address answers.
  unfoldable pub read_device : ℕ → ℕ → List (Device W) → W → Option ℕ × W
  unfolding contains device_read
  read_device n addr [] w = (none, w)
  read_device n addr (d ∷ ds) w =
      let rest = read_device n addr ds w in
      if contains addr n d then device_read n addr d w else rest

  unfoldable pub write_device : ℕ → ℕ → ℕ → List (Device W) → W → Bool × W
  unfolding contains device_write
  write_device n addr value [] w = (false, w)
  write_device n addr value (d ∷ ds) w =
      let rest = write_device n addr value ds w in
      if contains addr n d then device_write n addr value d w else rest

  -- `Bus::read<T>` and `Bus::write<T>`
  unfoldable pub bus_read : ℕ → ℕ → Bus W → Option ℕ × Bus W
  unfolding is_valid_addr dram_read read_device
  bus_read n addr b =
      let r = read_device n addr b.devices b.world in
      if is_valid_addr addr n b.dram
      then (some (dram_read n addr b.dram), b)
      else (r.0, record b { world = r.1 })

  unfoldable pub bus_write : ℕ → ℕ → ℕ → Bus W → Bool × Bus W
  unfolding is_valid_addr dram_write write_device
  bus_write n addr value b =
      let r = write_device n addr value b.devices b.world in
      if is_valid_addr addr n b.dram
      then (true, record b { dram = dram_write n addr value b.dram })
      else (r.0, record b { world = r.1 })

  any_contains : ℕ → List (Device W) → Bool
  any_contains addr [] = false
  any_contains addr (d ∷ ds) = contains addr 1 d || any_contains addr ds

  unfoldable pub accessible : ℕ → Bus W → Bool
  unfolding is_valid_addr any_contains
  accessible addr b = if is_valid_addr addr 1 b.dram then true else any_contains addr b.devices

  tick_all : List (Device W) → W → W
  tick_all [] w = w
  tick_all (d ∷ ds) w = tick_all ds (d.tick w)

  unfoldable pub tick_devices : Bus W → Bus W
  unfolding tick_all
  tick_devices b = record b { world = tick_all b.devices b.world }

  -- Whether a new device overlaps one that is there.
  unfoldable pub overlaps_any : Device W → List (Device W) → Bool
  overlaps_any dev [] = false
  overlaps_any dev (d ∷ ds) = check_overlap dev.start dev.last d.start d.last || overlaps_any dev ds

  snoc : List (Device W) → Device W → List (Device W)
  snoc [] d = d ∷ []
  snoc (x ∷ xs) d = x ∷ snoc xs d

  -- `Bus::add_device`, with nothing where the source throws; a device is never null here.
  unfoldable pub add_device : Device W → Bus W → Option (Bus W)
  unfolding overlaps_any snoc
  add_device dev b =
      if check_overlap dev.start dev.last dram_base (dram_base + b.dram.size - 1)
      then none
      else if overlaps_any dev b.devices
      then none
      else some (record b { devices = snoc b.devices dev })
