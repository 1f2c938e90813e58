-- ===== src/Bus/Image.antt =====
-- src/bus.cpp, the pointers into guest memory and the copy of a buffer there, and the images that
-- src/soc.cpp loads. The source is never null here; the observer of a copy is a function on the machine,
-- and what a load does to the processors' decoded instructions is left out.
use aarchvm.Base.{
  ℕ, ◌+◌, ◌-◌, ◌%◌, Bool, true, false, ltb, leb, ◌&&◌, ◌==◌, if◌then◌else◌, u64_mod, Option, none,
  some, List,
}
use aarchvm.Ram
use aarchvm.Ram.{Ram, copy_bytes, count}
use aarchvm.Framebuffer.{on_ram_write}
use aarchvm.Bus.{Device, boot_ram, framebuffer_ram, sdram, mmio, reached, Machine}
use aarchvm.Bus.FastPath.{ram_ptr, ram_mut_ptr}

-- The test of `in_range`, whose offset is `addr - base`.
abbrev pub in_range : ℕ → ℕ → ℕ → Bool
in_range addr base size = leb base addr && ltb addr (base + size)

module _ {ℓ} {S : Type ℓ} where
  -- `dynamic_cast<Ram*>` of a mapping's device.
  unfoldable pub memory : Machine S → Device → Option Ram
  memory m boot_ram = some m.boot_bytes
  memory m framebuffer_ram = some m.framebuffer_bytes
  memory m sdram = some m.sdram_bytes
  memory m (mmio d) = none

  unfoldable pub with_bytes : Machine S → Device → (ℕ → ℕ) → Machine S
  with_bytes m boot_ram bytes = record m {
    boot_bytes = record { bytes = bytes; size_bytes = m.boot_bytes.size_bytes };
  }
  with_bytes m framebuffer_ram bytes = record m {
    framebuffer_bytes = record { bytes = bytes; size_bytes = m.framebuffer_bytes.size_bytes };
  }
  with_bytes m sdram bytes = record m {
    sdram_bytes = record { bytes = bytes; size_bytes = m.sdram_bytes.size_bytes };
  }
  with_bytes m (mmio d) bytes = m

  -- The pointer by the list of mappings.
  unfoldable pub pointer_of : Machine S → ℕ → Device × ℕ → Option (Device × ℕ)
  pointer_of m size (device, offset) = elim (memory m device) [
    | none ↦ none
    | some r ↦ if leb ((offset + size) % u64_mod) r.size_bytes then some (device, offset) else none
  ]

  unfoldable pub mapped_ptr : Machine S → ℕ → ℕ → Option (Device × ℕ)
  mapped_ptr m addr size = elim (reached addr size) [
    | none ↦ none
    | some target ↦ pointer_of m size target
  ]

  unfoldable pub bus_ram_ptr : Machine S → ℕ → ℕ → Option (Device × ℕ)
  bus_ram_ptr m addr size = elim (ram_ptr addr size) [
    | some pointer ↦ some pointer
    | none ↦ mapped_ptr m addr size
  ]

  unfoldable pub bus_ram_mut_ptr : Machine S → ℕ → ℕ → Option (Device × ℕ)
  bus_ram_mut_ptr m addr size = elim (ram_mut_ptr addr size) [
    | some pointer ↦ some pointer
    | none ↦ mapped_ptr m addr size
  ]

  unfoldable pub copy_at : Machine S → Device × ℕ → List ℕ → Machine S
  copy_at m (device, offset) source = elim (memory m device) [
    | none ↦ m
    | some r ↦ with_bytes m device (copy_bytes r.bytes offset source)
  ]

  unfoldable pub write_ram_buffer :
      (ℕ → ℕ → Machine S → Machine S) → Machine S → ℕ → List ℕ → Machine S × Bool
  write_ram_buffer observer m addr source =
      let copied = elim (bus_ram_mut_ptr m addr (count source)) as (λ x. Machine S × Bool) [
        | none ↦ (m, false)
        | some pointer ↦ (observer addr (count source) (copy_at m pointer source), true)
      ] in
      if count source == 0 then (m, true) else copied

  -- Each memory with the result of a load, which fails or succeeds.
  unfoldable pub loaded_boot : Machine S → Option Ram → Option (Machine S)
  loaded_boot m none = none
  loaded_boot m (some r) = some (record m { boot_bytes = r })

  unfoldable pub loaded_sdram : Machine S → Option Ram → Option (Machine S)
  loaded_sdram m none = none
  loaded_sdram m (some r) = some (record m { sdram_bytes = r })

  -- The tracker hears of the bytes, unless there are none.
  unfoldable pub loaded_framebuffer : Machine S → ℕ → ℕ → Option Ram → Option (Machine S)
  loaded_framebuffer m offset size none = none
  loaded_framebuffer m offset size (some r) = some (record m {
    framebuffer_bytes = r;
    tracker = if size == 0 then m.tracker else on_ram_write m.tracker offset size;
  })

  unfoldable pub load_image : ℕ → List ℕ → Machine S → Option (Machine S)
  load_image addr words m =
      if in_range addr 0 0x8000000
      then loaded_boot m (Ram.load m.boot_bytes addr words)
      else if in_range addr 0x40000000 0x40000000
      then loaded_sdram m (Ram.load m.sdram_bytes (addr - 0x40000000) words)
      else none

  unfoldable pub load_binary : ℕ → List ℕ → Machine S → Option (Machine S)
  load_binary addr source m =
      let offset = addr - 0x10000000 in
      if in_range addr 0 0x8000000
      then loaded_boot m (Ram.load_bytes m.boot_bytes addr source)
      else if in_range addr 0x10000000 0x400000
      then loaded_framebuffer m offset (count source)
          (Ram.load_bytes m.framebuffer_bytes offset source)
      else if in_range addr 0x40000000 0x40000000
      then loaded_sdram m (Ram.load_bytes m.sdram_bytes (addr - 0x40000000) source)
      else none
