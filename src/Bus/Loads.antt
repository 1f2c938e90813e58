-- ===== src/Bus/Loads.antt =====
-- src/bus.cpp and src/soc.cpp: a processor that reads what was loaded or copied to memory.
use aarchvm.Base.{
  ℕ, ◌+◌, ◌-◌, ◌*◌, ◌%◌, ◌^◌, ◌≤◌, ◌<◌, ◌≡◌, refl, sym, ap, ◌∙◌, Bool-cases, some, Option-cases,
  inl, inr, List, ◌∷◌, ◌++◌, arith,
}
use aarchvm.Ram
use aarchvm.Ram.{Ram, count, is_access_size, get_bytes}
use aarchvm.Ram.Copy.{load-word}
use aarchvm.Bus.{Device, boot_ram, sdram, Machine, Devices}
use aarchvm.Bus.FastPath.{load_ram, ram_ptr, load_at, read_ram_only, fast_read, read}
use aarchvm.Bus.Agree.{IsSized}
use aarchvm.Bus.Image.{in_range, loaded_boot, loaded_sdram, load_image}

ram_ptr-boot :
    (addr size : ℕ) → addr + size ≤ 0x8000000 → 1 ≤ size → ram_ptr addr size ≡ some (boot_ram, addr)
unfolding ram_ptr
ram_ptr-boot addr size h hs = ground (arith, h, hs)

ram_ptr-sdram :
    (addr offset size : ℕ)
    → addr ≡ 0x40000000 + offset
    → offset + size ≤ 0x40000000
    → 1 ≤ size
    → ram_ptr addr size ≡ some (sdram, offset)
unfolding ram_ptr
ram_ptr-sdram addr offset size e h hs = ground (arith, e, h, hs)

module _ {ℓ} {S : Type ℓ} (devices : Devices S) where
  read-ram_ptr :
      (addr size : ℕ) (m : Machine S) (d : Device) (offset v : ℕ)
      → ram_ptr addr size ≡ some (d, offset)
      → load_at m d offset size ≡ some v
      → read devices addr size m ≡ (m, some v)
  unfolding read fast_read read_ram_only
  read-ram_ptr addr size m d offset v e h = rw (read, fast_read, read_ram_only, e, h) refl

  load_boot-read :
      (addr : ℕ) (before : List ℕ) (w : ℕ) (after : List ℕ) (m m' : Machine S)
      → IsSized m
      → count (before ++ w ∷ after) < 2 ^ 61
      → addr < 0x8000000
      → loaded_boot m (Ram.load m.boot_bytes addr (before ++ w ∷ after)) ≡ some m'
      → read devices (addr + count before * 4) 4 m' ≡ (m', some (w % 2 ^ 32))
  unfolding loaded_boot IsSized load_at load_ram
  load_boot-read addr before w after m m' s hc ha h =
      elim (Option-cases (Ram.load m.boot_bytes addr (before ++ w ∷ after))) [
        | inl n ↦ absurd (ground (arith, h, n))
        | inr (r, e) ↦
            let held = load-word m.boot_bytes r addr before w after hc (omega (arith, ha)) e in
            let same : m'.boot_bytes ≡ r = ground (arith, h, e) in
            read-ram_ptr (addr + count before * 4) 4 m' boot_ram (addr + count before * 4)
              (w % 2 ^ 32)
              (ram_ptr-boot (addr + count before * 4) 4 (omega (arith, held.0, s.0)) (omega arith))
              (ap some (ap (λ r'. get_bytes r'.bytes (addr + count before * 4) 4) same ∙ held.1))
      ]

  load_sdram-read :
      (addr : ℕ) (before : List ℕ) (w : ℕ) (after : List ℕ) (m m' : Machine S)
      → IsSized m
      → count (before ++ w ∷ after) < 2 ^ 61
      → 0x40000000 ≤ addr
      → addr < 0x80000000
      → loaded_sdram m (Ram.load m.sdram_bytes (addr - 0x40000000) (before ++ w ∷ after)) ≡ some m'
      → read devices (addr + count before * 4) 4 m' ≡ (m', some (w % 2 ^ 32))
  unfolding loaded_sdram IsSized load_at load_ram
  load_sdram-read addr before w after m m' s hc hl ha h =
      elim (Option-cases (Ram.load m.sdram_bytes (addr - 0x40000000) (before ++ w ∷ after))) [
        | inl n ↦ absurd (ground (arith, h, n))
        | inr (r, e) ↦
            let offset = addr - 0x40000000 in
            let held = load-word m.sdram_bytes r offset before w after hc (omega (arith, ha)) e in
            let same : m'.sdram_bytes ≡ r = ground (arith, h, e) in
            read-ram_ptr (addr + count before * 4) 4 m' sdram (offset + count before * 4)
              (w % 2 ^ 32)
              (ram_ptr-sdram (addr + count before * 4) (offset + count before * 4) 4
                (omega (arith, hl)) (omega (arith, held.0, s.2)) (omega arith))
              (ap some (ap (λ r'. get_bytes r'.bytes (offset + count before * 4) 4) same ∙ held.1))
      ]

  -- After an image is loaded, a processor reads each of its words at its place, and the read
  -- changes nothing. The image has fewer than 2^61 words.
  pub load_image-read :
      (addr : ℕ) (before : List ℕ) (w : ℕ) (after : List ℕ) (m m' : Machine S)
      → IsSized m
      → count (before ++ w ∷ after) < 2 ^ 61
      → load_image addr (before ++ w ∷ after) m ≡ some m'
      → read devices (addr + count before * 4) 4 m' ≡ (m', some (w % 2 ^ 32))
  unfolding load_image
  load_image-read addr before w after m m' s hc h = elim (Bool-cases (in_range addr 0 0x8000000)) [
    | inl e ↦
        load_boot-read addr before w after m m' s hc (ground (arith, e))
          (sym (rw (load_image, e) refl) ∙ h)
    | inr n ↦ elim (Bool-cases (in_range addr 0x40000000 0x40000000)) [
      | inl e ↦
          load_sdram-read addr before w after m m' s hc (ground (arith, e)) (ground (arith, e))
            (sym (rw (load_image, n, e) refl) ∙ h)
      | inr n' ↦ absurd (ground (arith, h, n, n'))
    ]
  ]
