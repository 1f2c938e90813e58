-- ===== src/Bus.antt =====
-- src/bus.cpp, include/aarchvm/bus_fast_path.hpp and the memory map of src/soc.cpp: which part answers an
-- access. The three memories are the model of src/ram.cpp, the tracker of the frame buffer that of
-- its header; a device behind its registers is a pair of functions on the whole machine, since the
-- block device also reads and writes guest memory. The counters of accesses are left out.
pub mod FastPath
pub mod Find
pub mod Agree
pub mod Image
pub mod Loads
pub mod Tests
use aarchvm.Base.{
  ℕ, ◌+◌, ◌-◌, ◌*◌, ◌%◌, ◌^◌, Bool, true, false, ◌&&◌, ltb, leb, ◌==◌, if◌then◌else◌, u64_mod,
  Option, none, some, List, [], ◌∷◌,
}
use aarchvm.Ram
use aarchvm.Ram.{Ram}
use aarchvm.Framebuffer.{Tracker, on_ram_write}

-- The devices behind registers, and what a mapping leads to.
pub data Mmio : Type 0 where
  uart : Mmio
  kmi : Mmio
  perf_mailbox : Mmio
  rtc : Mmio
  virtio_blk_mmio : Mmio
  virtio_net_mmio : Mmio
  gic : Mmio
  timer : Mmio

pub data Device : Type 0 where
  boot_ram : Device
  framebuffer_ram : Device
  sdram : Device
  mmio : Mmio → Device

pub record Mapping : Type 0 where
  pub base : ℕ
  pub size : ℕ
  pub device : Device

-- The map that the constructor of `SoC` makes, in its order.
abbrev pub mappings : List Mapping
mappings =
    record { base = 0; size = 0x8000000; device = boot_ram }
    ∷ record { base = 0x10000000; size = 0x400000; device = framebuffer_ram }
    ∷ record { base = 0x40000000; size = 0x40000000; device = sdram }
    ∷ record { base = 0x9000000; size = 0x1000; device = mmio uart }
    ∷ record { base = 0x9010000; size = 0x1000; device = mmio kmi }
    ∷ record { base = 0x9020000; size = 0x1000; device = mmio perf_mailbox }
    ∷ record { base = 0x9030000; size = 0x1000; device = mmio rtc }
    ∷ record { base = 0x9040000; size = 0x1000; device = mmio virtio_blk_mmio }
    ∷ record { base = 0x9050000; size = 0x1000; device = mmio virtio_net_mmio }
    ∷ record { base = 0x8000000; size = 0x100000; device = mmio gic }
    ∷ record { base = 0xA000000; size = 0x1000; device = mmio timer }
    ∷ []

-- The first mapping that the access lies in; its end is a 64-bit sum.
unfoldable pub find : List Mapping → ℕ → ℕ → Option Mapping
find [] addr size = none
find (m ∷ ms) addr size =
    let rest = find ms addr size in
    if leb m.base addr && leb ((addr + size) % u64_mod) (m.base + m.size) then some m else rest

-- The device found, and the offset in it.
unfoldable pub reached : ℕ → ℕ → Option (Device × ℕ)
reached addr size = elim (find mappings addr size) [
  | none ↦ none
  | some m ↦ some (m.device, addr - m.base)
]

-- What the bus reaches: the memories, the tracker, and `S`, the state of all else.
pub record Machine {ℓ} (S : Type ℓ) : Type ℓ where
  pub boot_bytes : Ram
  pub framebuffer_bytes : Ram
  pub sdram_bytes : Ram
  pub tracker : Tracker
  pub rest : S

-- The virtual functions `read` and `write` of the devices.
pub record Devices {ℓ} (S : Type ℓ) : Type ℓ where
  pub read_device : Mmio → ℕ → ℕ → Machine S → Machine S × ℕ
  pub write_device : Mmio → ℕ → ℕ → ℕ → Machine S → Machine S

-- `Ram::write`, whose observer is the tracker for the frame buffer.
unfoldable pub write_framebuffer {ℓ} : {S : Type ℓ} → ℕ → ℕ → ℕ → Machine S → Machine S
write_framebuffer offset value size m =
    elim (Ram.write_fast m.framebuffer_bytes offset value size) [
      | none ↦ m
      | some r ↦ record m { framebuffer_bytes = r; tracker = on_ram_write m.tracker offset size }
    ]

module _ {ℓ} {S : Type ℓ} (devices : Devices S) where
  unfoldable pub device_read : Device → ℕ → ℕ → Machine S → Machine S × ℕ
  device_read boot_ram offset size m = (m, Ram.read m.boot_bytes offset size)
  device_read framebuffer_ram offset size m = (m, Ram.read m.framebuffer_bytes offset size)
  device_read sdram offset size m = (m, Ram.read m.sdram_bytes offset size)
  device_read (mmio d) offset size m = devices.read_device d offset size m

  unfoldable pub device_write : Device → ℕ → ℕ → ℕ → Machine S → Machine S
  device_write boot_ram offset value size m = record m {
    boot_bytes = Ram.write m.boot_bytes offset value size;
  }
  device_write framebuffer_ram offset value size m = write_framebuffer offset value size m
  device_write sdram offset value size m = record m {
    sdram_bytes = Ram.write m.sdram_bytes offset value size;
  }
  device_write (mmio d) offset value size m = devices.write_device d offset value size m

  -- `Bus::read` and `Bus::write` where the fast path does not answer: the machine, and the value
  -- or whether there is a mapping.
  unfoldable pub mapped_read : ℕ → ℕ → Machine S → Machine S × Option ℕ
  mapped_read addr size m = elim (reached addr size) [
    | none ↦ (m, none)
    | some (d, offset) ↦ let answer = device_read d offset size m in (answer.0, some (answer.1))
  ]

  unfoldable pub mapped_write : ℕ → ℕ → ℕ → Machine S → Machine S × Bool
  mapped_write addr value size m = elim (reached addr size) [
    | none ↦ (m, false)
    | some (d, offset) ↦ (device_write d offset value size m, true)
  ]
