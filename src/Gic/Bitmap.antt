-- ===== src/Gic/Bitmap.antt =====
-- src/gicv3.cpp: the enable and priority registers of the shared interrupts.
use aarchvm.Base.{
  ℕ, zero, suc, ◌+◌, ◌-◌, ◌*◌, ◌/◌, ◌%◌, ◌^◌, ◌≤◌, ◌<◌, ◌≡◌, ap, ◌∙◌, Bool, true, false, not, ◌&&◌,
  ◌||◌, ltb, leb, ◌==◌, if◌then◌else◌, arith, Bool-cases, inl, inr, bit, bit_or, bit-bit_or,
  bit-pow, bit_of_zero, ==_iff, u32_mod,
}
use aarchvm.Gic.{Gic, is_spi, spi_index, set_spi_enabled_bit}
use aarchvm.Gic.Ranges.{set_spi_enable_loop, set_spi_enable_range, gather, get_spi_enable_range}
use aarchvm.Gic.Mmio.{read, read_part, read32, read_dist_reg32, write, write32, write_dist_reg32}

bit-gather_round :
    (test : ℕ → Bool) (k value j : ℕ)
    → bit (if test k then bit_or value (2 ^ k) else value) j ≡ (bit value j || (test j && k == j))
bit-gather_round test k value j = elim (Bool-cases (k == j)) [
  | inl here ↦
      let at : k ≡ j = (==_iff k j).0 here in
      ground (arith, bit-bit_or j value (2 ^ k), bit-pow k j, ap test at)
  | inr elsewhere ↦ ground (arith, bit-bit_or j value (2 ^ k), bit-pow k j)
]

-- Bit `j` of what a loop gathers.
pub bit-gather :
    (test : ℕ → Bool) (left k value j : ℕ)
    → bit (gather test left k value) j ≡ (bit value j || (test j && (leb k j && ltb j (k + left))))
unfolding gather
bit-gather test zero k value j = ground arith
bit-gather test (suc left) k value j =
    bit-gather test left (k + 1) _ j ∙ (ground (arith, bit-gather_round test k value j))

-- Whether interrupt `intid` is enabled, in the register's terms.
abbrev pub spi_on : Gic → ℕ → Bool
spi_on g intid = is_spi intid && g.spi_enabled (spi_index intid)

set_spi_enabled_bit-on :
    (g : Gic) (intid at : ℕ) (enable : Bool)
    → spi_on (set_spi_enabled_bit g intid enable) at
      ≡ (if is_spi intid && intid == at then enable else spi_on g at)
unfolding set_spi_enabled_bit
set_spi_enabled_bit-on g intid at enable = ground arith

enable_round-on :
    (g : Gic) (intid at : ℕ) (named enable : Bool)
    → spi_on (if named && is_spi intid then set_spi_enabled_bit g intid enable else g) at
      ≡ (if named && (is_spi at && intid == at) then enable else spi_on g at)
enable_round-on g intid at named enable = ground (arith, set_spi_enabled_bit-on g intid at enable)

set_spi_enable_loop-on :
    (left k : ℕ) (g : Gic) (first bits at : ℕ) (enable : Bool)
    → spi_on (set_spi_enable_loop left k g first bits enable) at ≡ (
        if is_spi at
          && (leb (first + k) at && (ltb at (first + (k + left)) && bit bits (at - first)))
        then enable
        else spi_on g at)
unfolding set_spi_enable_loop
set_spi_enable_loop-on zero k g first bits at enable = ground arith
set_spi_enable_loop-on (suc left) k g first bits at enable =
    set_spi_enable_loop-on left (k + 1) _ first bits at enable
    ∙ (elim (Bool-cases (first + k == at)) [
      | inl here ↦
          let e : at - first ≡ k = ground arith in
          ground (arith, enable_round-on g (first + k) at (bit bits k) enable, ap (bit bits) e)
      | inr elsewhere ↦ ground (arith, enable_round-on g (first + k) at (bit bits k) enable)
    ])

-- A word read of a block of 32 enable bits.
enable_bit :
    (g : Gic) (m j : ℕ)
    → 1 ≤ m
    → m < 32
    → j < 32
    → bit (read g (0x100 + 4 * m) 4) j ≡ spi_on g (m * 32 + j)
unfolding read read_part read32 read_dist_reg32 get_spi_enable_range
enable_bit g m j lo hi hj =
    let aligned : 0x100 + 4 * m - (0x100 + 4 * m) % 4 ≡ 0x100 + 4 * m = omega arith in
    let block : (0x100 + 4 * m - 0x100) / 4 ≡ m = omega arith in
    rw (aligned, block)
      (ground (arith, bit-gather (λ k. spi_on g (m * 32 + k)) 32 0 0 j, bit_of_zero j))

module _ (g : Gic) (n value : ℕ) (lo : 1 ≤ n) (hi : n < 32) (fits : value < u32_mod) where
  write_isenabler : write g (0x100 + 4 * n) value 4 ≡ set_spi_enable_range g (n * 32) value true
  unfolding write write32 write_dist_reg32
  write_isenabler =
      let block : (0x100 + 4 * n - 0x100) / 4 ≡ n = omega arith in
      let whole : value % u32_mod ≡ value = omega arith in rw (block, whole) (ground arith)

  write_icenabler : write g (0x180 + 4 * n) value 4 ≡ set_spi_enable_range g (n * 32) value false
  unfolding write write32 write_dist_reg32
  write_icenabler =
      let block : (0x180 + 4 * n - 0x180) / 4 ≡ n = omega arith in
      let whole : value % u32_mod ≡ value = omega arith in rw (block, whole) (ground arith)

  range-on :
      (m j : ℕ) (enable : Bool)
      → 1 ≤ m
      → m < 32
      → j < 32
      → spi_on (set_spi_enable_range g (n * 32) value enable) (m * 32 + j)
        ≡ (if n == m && bit value j then enable else spi_on g (m * 32 + j))
  unfolding set_spi_enable_range
  range-on m j enable mlo mhi hj =
      set_spi_enable_loop-on 32 0 g (n * 32) value (m * 32 + j) enable
      ∙ (elim (Bool-cases (n == m)) [
        | inl here ↦
            let e : m * 32 + j - n * 32 ≡ j = ground arith in ground (arith, ap (bit value) e)
        | inr elsewhere ↦ ground arith
      ])

  -- A word written to GICD_ISENABLER<n> sets, and one written to GICD_ICENABLER<n> clears, the
  -- enables of the 32 shared interrupts of block `n` that the word names. Read back, each bit of each
  -- block has this value, so that no other interrupt's enable changes.
  pub enable_registers :
      (m j : ℕ)
      → 1 ≤ m
      → m < 32
      → j < 32
      → (bit (read (write g (0x100 + 4 * n) value 4) (0x100 + 4 * m) 4) j
          ≡ (bit (read g (0x100 + 4 * m) 4) j || (n == m && bit value j)))
        × (bit (read (write g (0x180 + 4 * n) value 4) (0x100 + 4 * m) 4) j
            ≡ (bit (read g (0x100 + 4 * m) 4) j && not (n == m && bit value j)))
  enable_registers m j mlo mhi hj =
      let old = enable_bit g m j mlo mhi hj in
      let set_to =
        λ (on : Bool). enable_bit (set_spi_enable_range g (n * 32) value on) m j mlo mhi hj in
      (
        rw write_isenabler (ground (arith, old, set_to true, range-on m j true mlo mhi hj)),
        rw write_icenabler (ground (arith, old, set_to false, range-on m j false mlo mhi hj)),
      )
