-- ===== src/Bus/Find.antt =====
-- src/bus.cpp: what the list of mappings finds in each range of the fast path.
use aarchvm.Base.{ℕ, ◌+◌, ◌-◌, ◌≤◌, ◌≡◌, true, false, ◌≢◌, some, arith}
use aarchvm.Bus.{
  Mmio, uart, perf_mailbox, virtio_blk_mmio, virtio_net_mmio, gic, timer, find, reached, Device,
  boot_ram, framebuffer_ram, sdram, mmio,
}
use aarchvm.Bus.FastPath.{lies_in, ram_ptr, ram_mut_ptr, fast_device}

-- One range of a device at a time.
reached-uart :
    (addr size : ℕ)
    → 1 ≤ size
    → lies_in 0x9000000 0x1000 addr size ≡ true
    → reached addr size ≡ some (mmio uart, addr - 0x9000000)
unfolding find reached
reached-uart addr size hs h = ground (arith, hs, h)

reached-perf_mailbox :
    (addr size : ℕ)
    → 1 ≤ size
    → lies_in 0x9020000 0x1000 addr size ≡ true
    → reached addr size ≡ some (mmio perf_mailbox, addr - 0x9020000)
unfolding find reached
reached-perf_mailbox addr size hs h = ground (arith, hs, h)

reached-virtio_blk_mmio :
    (addr size : ℕ)
    → 1 ≤ size
    → lies_in 0x9040000 0x1000 addr size ≡ true
    → reached addr size ≡ some (mmio virtio_blk_mmio, addr - 0x9040000)
unfolding find reached
reached-virtio_blk_mmio addr size hs h = ground (arith, hs, h)

reached-virtio_net_mmio :
    (addr size : ℕ)
    → 1 ≤ size
    → lies_in 0x9050000 0x1000 addr size ≡ true
    → reached addr size ≡ some (mmio virtio_net_mmio, addr - 0x9050000)
unfolding find reached
reached-virtio_net_mmio addr size hs h = ground (arith, hs, h)

reached-gic :
    (addr size : ℕ)
    → 1 ≤ size
    → lies_in 0x8000000 0x100000 addr size ≡ true
    → reached addr size ≡ some (mmio gic, addr - 0x8000000)
unfolding find reached
reached-gic addr size hs h = ground (arith, hs, h)

reached-timer :
    (addr size : ℕ)
    → 1 ≤ size
    → lies_in 0xA000000 0x1000 addr size ≡ true
    → reached addr size ≡ some (mmio timer, addr - 0xA000000)
unfolding find reached
reached-timer addr size hs h = ground (arith, hs, h)

pub fast_device-reached :
    (addr size : ℕ) (d : Mmio) (offset : ℕ)
    → 1 ≤ size
    → fast_device addr size ≡ some (d, offset)
    → reached addr size ≡ some (mmio d, offset)
unfolding fast_device
fast_device-reached addr size d offset hs h = ground (
  arith,
  h,
  reached-uart addr size hs,
  reached-perf_mailbox addr size hs,
  reached-virtio_blk_mmio addr size hs,
  reached-virtio_net_mmio addr size hs,
  reached-gic addr size hs,
  reached-timer addr size hs,
)

pub ram_ptr-reached :
    (addr size : ℕ) (d : Device) (offset : ℕ)
    → 1 ≤ size
    → ram_ptr addr size ≡ some (d, offset)
    → reached addr size ≡ some (d, offset)
unfolding find reached ram_ptr
ram_ptr-reached addr size d offset hs h = ground (arith, hs, h)

-- The bytes that a pointer may reach in each memory.
unfoldable pub memory_size : Device → ℕ
memory_size boot_ram = 0x8000000
memory_size framebuffer_ram = 0x400000
memory_size sdram = 0x40000000
memory_size (mmio d) = 0

pub ram_ptr-bound :
    (addr size : ℕ) (d : Device) (offset : ℕ)
    → ram_ptr addr size ≡ some (d, offset)
    → offset + size ≤ memory_size d
unfolding ram_ptr memory_size
ram_ptr-bound addr size d offset h = ground (arith, h)

-- The two orders of the ranges find the same pointer.
pub ram_ptr-ram_mut_ptr : (addr size : ℕ) → ram_mut_ptr addr size ≡ ram_ptr addr size
unfolding ram_ptr ram_mut_ptr
ram_ptr-ram_mut_ptr addr size = ground arith

pub framebuffer-ram_mut_ptr :
    (addr size : ℕ)
    → lies_in 0x10000000 0x400000 addr size ≡ true
    → ram_mut_ptr addr size ≡ some (framebuffer_ram, addr - 0x10000000)
unfolding ram_mut_ptr
framebuffer-ram_mut_ptr addr size h = ground (arith, h)

pub ram_ptr-outside :
    (addr size : ℕ) (d : Device) (offset : ℕ)
    → lies_in 0x10000000 0x400000 addr size ≡ false
    → ram_ptr addr size ≡ some (d, offset)
    → d ≢ framebuffer_ram
unfolding ram_ptr
ram_ptr-outside addr size d offset out h = ground (arith, out, h)
