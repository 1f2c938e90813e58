-- ===== src/Bus/FastPath.antt =====
-- include/aarchvm/bus_fast_path.hpp: the accesses answered without the list of mappings, and src/bus.cpp
-- with them. A pointer into a memory is the memory's name and the offset.
use aarchvm.Base.{ℕ, ◌+◌, ◌-◌, Bool, true, ◌&&◌, ltb, leb, if◌then◌else◌, Option, none, some}
use aarchvm.Ram.{Ram, get_bytes, put_bytes, is_access_size}
use aarchvm.Framebuffer.{on_ram_write}
use aarchvm.Bus.{
  Mmio, uart, perf_mailbox, virtio_blk_mmio, virtio_net_mmio, gic, timer, Device, boot_ram,
  framebuffer_ram, sdram, mmio, Machine, Devices, mapped_read, mapped_write,
}

-- `base <= addr && addr < base + size`, and then `size <= span - offset`.
abbrev pub starts_in : ℕ → ℕ → ℕ → Bool
starts_in base span addr = leb base addr && ltb addr (base + span)

abbrev pub lies_in : ℕ → ℕ → ℕ → ℕ → Bool
lies_in base span addr size = starts_in base span addr && leb size (span - (addr - base))

unfoldable pub ram_ptr : ℕ → ℕ → Option (Device × ℕ)
ram_ptr addr size =
    if starts_in 0x40000000 0x40000000 addr
    then if leb size (0x40000000 - (addr - 0x40000000))
      then some (sdram, addr - 0x40000000)
      else none
    else if starts_in 0 0x8000000 addr
    then if leb size (0x8000000 - addr) then some (boot_ram, addr) else none
    else if starts_in 0x10000000 0x400000 addr
    then if leb size (0x400000 - (addr - 0x10000000))
      then some (framebuffer_ram, addr - 0x10000000)
      else none
    else none

unfoldable pub ram_mut_ptr : ℕ → ℕ → Option (Device × ℕ)
ram_mut_ptr addr size =
    if starts_in 0 0x8000000 addr
    then if leb size (0x8000000 - addr) then some (boot_ram, addr) else none
    else if starts_in 0x40000000 0x40000000 addr
    then if leb size (0x40000000 - (addr - 0x40000000))
      then some (sdram, addr - 0x40000000)
      else none
    else if starts_in 0x10000000 0x400000 addr
    then if leb size (0x400000 - (addr - 0x10000000))
      then some (framebuffer_ram, addr - 0x10000000)
      else none
    else none

unfoldable pub load_ram : Ram → ℕ → ℕ → Option ℕ
load_ram r offset size = if is_access_size size then some (get_bytes r.bytes offset size) else none

unfoldable pub store_ram : Ram → ℕ → ℕ → ℕ → Option Ram
store_ram r offset value size =
    if is_access_size size
    then some (record r { bytes = put_bytes r.bytes offset value size })
    else none

-- The device behind its registers that the chain of ranges finds; the keyboard and the clock have
-- no range.
unfoldable pub fast_device : ℕ → ℕ → Option (Mmio × ℕ)
fast_device addr size =
    if lies_in 0x9000000 0x1000 addr size
    then some (uart, addr - 0x9000000)
    else if lies_in 0x9020000 0x1000 addr size
    then some (perf_mailbox, addr - 0x9020000)
    else if lies_in 0x9040000 0x1000 addr size
    then some (virtio_blk_mmio, addr - 0x9040000)
    else if lies_in 0x9050000 0x1000 addr size
    then some (virtio_net_mmio, addr - 0x9050000)
    else if lies_in 0x8000000 0x100000 addr size
    then some (gic, addr - 0x8000000)
    else if lies_in 0xA000000 0x1000 addr size
    then some (timer, addr - 0xA000000)
    else none

module _ {ℓ} {S : Type ℓ} where
  -- The bytes behind a pointer, and the machine with them changed.
  unfoldable pub load_at : Machine S → Device → ℕ → ℕ → Option ℕ
  load_at m boot_ram offset size = load_ram m.boot_bytes offset size
  load_at m framebuffer_ram offset size = load_ram m.framebuffer_bytes offset size
  load_at m sdram offset size = load_ram m.sdram_bytes offset size
  load_at m (mmio d) offset size = none

  unfoldable pub store_at : Machine S → Device → ℕ → ℕ → ℕ → Option (Machine S)
  store_at m boot_ram offset value size = elim (store_ram m.boot_bytes offset value size) [
    | none ↦ none
    | some r ↦ some (record m { boot_bytes = r })
  ]
  store_at m framebuffer_ram offset value size =
      elim (store_ram m.framebuffer_bytes offset value size) [
        | none ↦ none
        | some r ↦ some (record m { framebuffer_bytes = r })
      ]
  store_at m sdram offset value size = elim (store_ram m.sdram_bytes offset value size) [
    | none ↦ none
    | some r ↦ some (record m { sdram_bytes = r })
  ]
  store_at m (mmio d) offset value size = none

  unfoldable pub read_ram_only : Machine S → ℕ → ℕ → Option ℕ
  read_ram_only m addr size = elim (ram_ptr addr size) [
    | none ↦ none
    | some (device, offset) ↦ load_at m device offset size
  ]

  -- A store in the frame buffer reports to the tracker.
  unfoldable pub store_framebuffer : Machine S → ℕ → ℕ → ℕ → Option (Machine S)
  store_framebuffer m offset value size = elim (store_ram m.framebuffer_bytes offset value size) [
    | none ↦ none
    | some r ↦
        some (record m { framebuffer_bytes = r; tracker = on_ram_write m.tracker offset size })
  ]

  unfoldable pub store_ptr : Machine S → ℕ → ℕ → ℕ → Option (Machine S)
  store_ptr m addr value size = elim (ram_mut_ptr addr size) [
    | none ↦ none
    | some (device, offset) ↦ store_at m device offset value size
  ]

  unfoldable pub write_ram_only : Machine S → ℕ → ℕ → ℕ → Option (Machine S)
  write_ram_only m addr value size =
      if lies_in 0x10000000 0x400000 addr size
      then store_framebuffer m (addr - 0x10000000) value size
      else store_ptr m addr value size

  module _ (devices : Devices S) where
    -- `BusFastPath::read` and `BusFastPath::write`: none where they do not answer.
    unfoldable pub fast_read : ℕ → ℕ → Machine S → Option (Machine S × ℕ)
    fast_read addr size m = elim (read_ram_only m addr size) [
      | some value ↦ some (m, value)
      | none ↦ elim (fast_device addr size) [
        | none ↦ none
        | some (d, offset) ↦ some (devices.read_device d offset size m)
      ]
    ]

    unfoldable pub fast_write : ℕ → ℕ → ℕ → Machine S → Option (Machine S)
    fast_write addr value size m = elim (write_ram_only m addr value size) [
      | some m' ↦ some m'
      | none ↦ elim (fast_device addr size) [
        | none ↦ none
        | some (d, offset) ↦ some (devices.write_device d offset value size m)
      ]
    ]

    -- `Bus::read` and `Bus::write` on a bus with the fast path.
    unfoldable pub read : ℕ → ℕ → Machine S → Machine S × Option ℕ
    read addr size m = elim (fast_read addr size m) [
      | none ↦ mapped_read devices addr size m
      | some (m', value) ↦ (m', some value)
    ]

    unfoldable pub write : ℕ → ℕ → ℕ → Machine S → Machine S × Bool
    write addr value size m = elim (fast_write addr value size m) [
      | none ↦ mapped_write devices addr value size m
      | some m' ↦ (m', true)
    ]
