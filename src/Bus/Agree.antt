-- ===== src/Bus/Agree.antt =====
-- src/bus.cpp and include/aarchvm/bus_fast_path.hpp: a bus with the fast path and one without.
use aarchvm.Base.{
  ◌≢◌, ℕ, ◌+◌, ◌-◌, ◌≤◌, ◌≡◌, refl, sym, ap, ◌∙◌, true, false, Bool-cases, some, Option-cases, inl,
  inr, arith,
}
use aarchvm.Ram
use aarchvm.Ram.{Ram, is_access_size, read_fast, write_fast, fits}
use aarchvm.Bus.{
  Mmio, Device, boot_ram, framebuffer_ram, sdram, mmio, Machine, Devices, write_framebuffer,
  device_read, device_write, mapped_read, mapped_write,
}
use aarchvm.Bus.FastPath.{
  lies_in, ram_ptr, load_ram, store_ram, fast_device, load_at, store_at, read_ram_only,
  store_framebuffer, store_ptr, write_ram_only, fast_read, fast_write, read, write,
}
use aarchvm.Bus.Find.{
  fast_device-reached, ram_ptr-reached, ram_ptr-bound, ram_ptr-ram_mut_ptr, memory_size,
  framebuffer-ram_mut_ptr, ram_ptr-outside,
}

-- The memories have the sizes of the map.
unfoldable pub IsSized {ℓ} : {S : Type ℓ} → Machine S → Type 0
IsSized m =
    (m.boot_bytes.size_bytes ≡ 0x8000000)
    × (m.framebuffer_bytes.size_bytes ≡ 0x400000)
    × (m.sdram_bytes.size_bytes ≡ 0x40000000)

-- Within the array, a memory answers as the pointer does.
read-load_ram :
    (r : Ram) (offset size limit v : ℕ)
    → r.size_bytes ≡ limit
    → limit ≤ 0x40000000
    → offset + size ≤ limit
    → load_ram r offset size ≡ some v
    → Ram.read r offset size ≡ v
unfolding Ram.read read_fast fits load_ram
read-load_ram r offset size limit v e hl hb h = ground (arith, e, hl, hb, h)

write_fast-store_ram :
    (r : Ram) (offset value size limit : ℕ)
    → r.size_bytes ≡ limit
    → limit ≤ 0x40000000
    → offset + size ≤ limit
    → store_ram r offset value size ≡ write_fast r offset value size
unfolding write_fast fits store_ram
write_fast-store_ram r offset value size limit e hl hb = ground (arith, e, hl, hb)

module _ {ℓ} {S : Type ℓ} (devices : Devices S) where
  device_read-load_at :
      (m : Machine S) (d : Device) (offset size v : ℕ)
      → IsSized m
      → offset + size ≤ memory_size d
      → load_at m d offset size ≡ some v
      → device_read devices d offset size m ≡ (m, v)
  unfolding device_read load_at IsSized memory_size
  device_read-load_at m boot_ram offset size v s b h =
      ap (λ w. (m, w)) (read-load_ram m.boot_bytes offset size 0x8000000 v (s.0) (omega arith) b h)
  device_read-load_at m framebuffer_ram offset size v s b h =
      ap (λ w. (m, w))
        (read-load_ram m.framebuffer_bytes offset size 0x400000 v (s.1) (omega arith) b h)
  device_read-load_at m sdram offset size v s b h =
      ap (λ w. (m, w))
        (read-load_ram m.sdram_bytes offset size 0x40000000 v (s.2) (omega arith) b h)
  device_read-load_at m (mmio d) offset size v s b h = absurd (ground (arith, h))

  device_write-store_at :
      (m m' : Machine S) (d : Device) (offset value size : ℕ)
      → IsSized m
      → offset + size ≤ memory_size d
      → d ≢ framebuffer_ram
      → store_at m d offset value size ≡ some m'
      → device_write devices d offset value size m ≡ m'
  unfolding device_write store_at IsSized memory_size Ram.write
  device_write-store_at m m' boot_ram offset value size s b n h = ground (
    arith,
    h,
    write_fast-store_ram m.boot_bytes offset value size 0x8000000 (s.0) (omega arith) b,
  )
  device_write-store_at m m' framebuffer_ram offset value size s b n h = absurd (n refl)
  device_write-store_at m m' sdram offset value size s b n h = ground (
    arith,
    h,
    write_fast-store_ram m.sdram_bytes offset value size 0x40000000 (s.2) (omega arith) b,
  )
  device_write-store_at m m' (mmio d) offset value size s b n h = absurd (ground (arith, h))

  -- What the fast path answers, the mappings answer too.
  read_ram_only-mapped_read :
      (addr size : ℕ) (m : Machine S) (v : ℕ)
      → 1 ≤ size
      → IsSized m
      → read_ram_only m addr size ≡ some v
      → mapped_read devices addr size m ≡ (m, some v)
  unfolding read_ram_only mapped_read
  read_ram_only-mapped_read addr size m v hs s h = elim (Option-cases (ram_ptr addr size)) [
    | inl n ↦ absurd (ground (arith, h, n))
    | inr ((d, offset), e) ↦
        let loaded =
          device_read-load_at m d offset size v s (ram_ptr-bound addr size d offset e)
            (sym (rw (read_ram_only, e) refl) ∙ h) in
        rw (mapped_read, ram_ptr-reached addr size d offset hs e, loaded) refl
  ]

  fast_device-mapped_read :
      (addr size : ℕ) (m : Machine S) (d : Mmio) (offset : ℕ)
      → 1 ≤ size
      → fast_device addr size ≡ some (d, offset)
      → mapped_read devices addr size m
        ≡ ((devices.read_device d offset size m).0, some ((devices.read_device d offset size m).1))
  unfolding mapped_read device_read
  fast_device-mapped_read addr size m d offset hs h =
      rw (mapped_read, fast_device-reached addr size d offset hs h) refl

  -- A bus with the fast path reads the value, and leaves the machine, that the list of mappings
  -- gives.
  pub read-mapped_read :
      (addr size : ℕ) (m : Machine S)
      → 1 ≤ size
      → IsSized m
      → read devices addr size m ≡ mapped_read devices addr size m
  unfolding read fast_read
  read-mapped_read addr size m hs s = elim (Option-cases (read_ram_only m addr size)) [
    | inr (v, l) ↦ rw (read, fast_read, l) (sym (read_ram_only-mapped_read addr size m v hs s l))
    | inl n ↦ elim (Option-cases (fast_device addr size)) [
      | inl n' ↦ rw (read, fast_read, n, n') refl
      | inr ((d, offset), e) ↦
          rw (read, fast_read, n, e) (sym (fast_device-mapped_read addr size m d offset hs e))
    ]
  ]

  -- The same for the stores.
  store_ptr-mapped_write :
      (addr value size : ℕ) (m m' : Machine S)
      → 1 ≤ size
      → IsSized m
      → lies_in 0x10000000 0x400000 addr size ≡ false
      → store_ptr m addr value size ≡ some m'
      → mapped_write devices addr value size m ≡ (m', true)
  unfolding store_ptr mapped_write
  store_ptr-mapped_write addr value size m m' hs s out h = elim (Option-cases (ram_ptr addr size)) [
    | inl n ↦ absurd (ground (arith, h, n, ram_ptr-ram_mut_ptr addr size))
    | inr ((d, offset), e) ↦
        let stored =
          device_write-store_at m m' d offset value size s (ram_ptr-bound addr size d offset e)
            (ram_ptr-outside addr size d offset out e)
            (sym (rw (store_ptr, ram_ptr-ram_mut_ptr addr size, e) refl) ∙ h) in
        rw (mapped_write, ram_ptr-reached addr size d offset hs e, stored) refl
  ]

  store_framebuffer-mapped_write :
      (addr value size : ℕ) (m m' : Machine S)
      → 1 ≤ size
      → IsSized m
      → lies_in 0x10000000 0x400000 addr size ≡ true
      → store_framebuffer m (addr - 0x10000000) value size ≡ some m'
      → mapped_write devices addr value size m ≡ (m', true)
  unfolding store_framebuffer mapped_write device_write write_framebuffer IsSized memory_size
  store_framebuffer-mapped_write addr value size m m' hs s inside h =
      let found = sym (ram_ptr-ram_mut_ptr addr size) ∙ framebuffer-ram_mut_ptr addr size inside in
      let bound = ram_ptr-bound addr size framebuffer_ram (addr - 0x10000000) found in
      let stored : write_framebuffer (addr - 0x10000000) value size m ≡ m' = ground (
        arith,
        h,
        write_fast-store_ram m.framebuffer_bytes (addr - 0x10000000) value size 0x400000 (s.1)
            (omega arith) bound,
      ) in
      rw
        (
          mapped_write,
          ram_ptr-reached addr size framebuffer_ram (addr - 0x10000000) hs found,
          stored,
        )
        refl

  write_ram_only-mapped_write :
      (addr value size : ℕ) (m m' : Machine S)
      → 1 ≤ size
      → IsSized m
      → write_ram_only m addr value size ≡ some m'
      → mapped_write devices addr value size m ≡ (m', true)
  unfolding write_ram_only
  write_ram_only-mapped_write addr value size m m' hs s h =
      elim (Bool-cases (lies_in 0x10000000 0x400000 addr size)) [
        | inl e ↦
            store_framebuffer-mapped_write addr value size m m' hs s e
              (sym (rw (write_ram_only, e) refl) ∙ h)
        | inr e ↦
            store_ptr-mapped_write addr value size m m' hs s e
              (sym (rw (write_ram_only, e) refl) ∙ h)
      ]

  fast_device-mapped_write :
      (addr value size : ℕ) (m : Machine S) (d : Mmio) (offset : ℕ)
      → 1 ≤ size
      → fast_device addr size ≡ some (d, offset)
      → mapped_write devices addr value size m ≡ (devices.write_device d offset value size m, true)
  unfolding mapped_write device_write
  fast_device-mapped_write addr value size m d offset hs h =
      rw (mapped_write, fast_device-reached addr size d offset hs h) refl

  -- A bus with the fast path leaves the machine that the list of mappings leaves, and accepts the
  -- same stores.
  pub write-mapped_write :
      (addr value size : ℕ) (m : Machine S)
      → 1 ≤ size
      → IsSized m
      → write devices addr value size m ≡ mapped_write devices addr value size m
  unfolding write fast_write
  write-mapped_write addr value size m hs s =
      elim (Option-cases (write_ram_only m addr value size)) [
        | inr (m', e) ↦
            rw (write, fast_write, e)
              (sym (write_ram_only-mapped_write addr value size m m' hs s e))
        | inl n ↦ elim (Option-cases (fast_device addr size)) [
          | inl n' ↦ rw (write, fast_write, n, n') refl
          | inr ((d, offset), e) ↦
              rw (write, fast_write, n, e)
                (sym (fast_device-mapped_write addr value size m d offset hs e))
        ]
      ]
