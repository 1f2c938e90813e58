-- ===== src/Gic/Mmio.antt =====
-- src/gicv3.cpp: the register interface. `read`, `write` and the 32-bit registers behind them.
use aarchvm.Base.{
  ℕ, zero, suc, ◌+◌, ◌-◌, ◌*◌, ◌/◌, ◌%◌, ◌^◌, Bool, true, false, not, ◌&&◌, ◌||◌, ltb, leb, ◌==◌,
  if◌then◌else◌, bit, field, bit_or, bit_and, u32_mod,
}
use aarchvm.Gic.{
  Gic, LocalCpu, num_int_ids, local_int_ids, local_cpu, put_local, set_local_pending_bit,
  set_local_enabled_bit, set_local_active_bit,
}
use aarchvm.Gic.Ranges.{
  set_spi_enable_range, set_spi_active_range, gather, get_spi_enable_range, get_spi_active_range,
  get_priority_range, set_priority_range,
}

abbrev pub dist_size : ℕ
dist_size = 0x10000

abbrev pub redist_base : ℕ
redist_base = 0x0A0000

abbrev pub redist_frame_size : ℕ
redist_frame_size = 0x20000

-- `lo <= offset && offset < lo + size`.
abbrev pub within : ℕ → ℕ → ℕ → Bool
within offset lo size = leb lo offset && ltb offset (lo + size)

unfoldable pub is_write1_bitmap_register : ℕ → Bool
is_write1_bitmap_register offset =
    within offset 0x100 0x80
    || (within offset 0x180 0x80
        || (within offset 0x300 0x80
            || (within offset 0x380 0x80
                || (within offset (redist_base + 0x10100) 4
                    || (within offset (redist_base + 0x10180) 4
                        || (within offset (redist_base + 0x10200) 4
                            || (within offset (redist_base + 0x10280) 4
                                || (within offset (redist_base + 0x10300) 4
                                    || within offset (redist_base + 0x10380) 4))))))))

unfoldable pub read_part : ℕ → ℕ → ℕ → ℕ
read_part value offset size =
    let shift = (offset % 4) * 8 in
    if size == 1 then field value shift 8 else if size == 2 then field value shift 16 else value

unfoldable pub gicr_affinity_value : ℕ → ℕ
gicr_affinity_value mpidr =
    bit_or (field mpidr 32 8 * 2 ^ 24)
      (bit_or (field mpidr 16 8 * 2 ^ 16) (bit_or (field mpidr 8 8 * 2 ^ 8) (field mpidr 0 8)))

-- A register that stands for one bit of each interrupt of a block of 32; block 0 reads as 0.
abbrev pub block_or_zero : ℕ → (ℕ → ℕ) → ℕ
block_or_zero offset get = let n = offset / 4 in if n == 0 then 0 else get (n * 32)

unfoldable pub read_dist_reg32 : Gic → ℕ → ℕ
read_dist_reg32 g offset =
    if offset == 0
    then g.gicd_ctlr
    else if offset == 4
    then 1
    else if offset == 8
    then 0x0102043B
    else if within offset 0x100 0x80
    then block_or_zero (offset - 0x100) (get_spi_enable_range g)
    else if within offset 0x180 0x80
    then block_or_zero (offset - 0x180) (get_spi_enable_range g)
    else if within offset 0x300 0x80
    then block_or_zero (offset - 0x300) (get_spi_active_range g)
    else if within offset 0x380 0x80
    then block_or_zero (offset - 0x380) (get_spi_active_range g)
    else if within offset 0x400 num_int_ids
    then get_priority_range g (offset - 0x400)
    else if within offset 0x6000 (8 * 988)
    then 0
    else if offset == 0xFFE8
    then 0x30
    else 0

-- The priority bytes of a redistributor, up to the last local interrupt.
unfoldable pub local_priority_loop : LocalCpu → ℕ → ℕ → ℕ → ℕ → ℕ
local_priority_loop l first zero i out = out
local_priority_loop l first (suc left) i out =
    let rest =
      local_priority_loop l first left (i + 1)
        (bit_or out (l.priorities (first + i) * 2 ^ (i * 8))) in
    if leb local_int_ids (first + i) then out else rest

-- The registers of the frame of CPU `frame`.
unfoldable pub read_frame : Gic → ℕ → ℕ → ℕ
read_frame g frame inner =
    let l = local_cpu g frame in
    if inner == 0x8
    then bit_or (if frame + 1 == g.cpu_count then 0x10 else 0) ((frame * 2 ^ 8) % u32_mod)
    else if inner == 0xC
    then gicr_affinity_value l.mpidr
    else if inner == 0x14
    then bit_and l.gicr_waker 0xFFFF_FFFB
    else if inner == 0xFFE8
    then 0x30
    else if inner == 0x10080
    then l.gicr_igroupr0
    else if inner == 0x10100 || inner == 0x10180
    then gather l.enabled local_int_ids 0 0
    else if inner == 0x10200 || inner == 0x10280
    then gather l.pending local_int_ids 0 0
    else if inner == 0x10300 || inner == 0x10380
    then gather l.active local_int_ids 0 0
    else if within inner 0x10400 local_int_ids
    then local_priority_loop l (inner - 0x10400) 4 0 0
    else if inner == 0x10C00
    then l.gicr_icfgr0
    else if inner == 0x10C04
    then l.gicr_icfgr1
    else 0

unfoldable pub read_redist_reg32 : Gic → ℕ → ℕ
read_redist_reg32 g offset =
    if ltb offset redist_base
    then 0
    else (let frame = (offset - redist_base) / redist_frame_size in
        if leb g.cpu_count frame
        then 0
        else read_frame g frame ((offset - redist_base) % redist_frame_size))

abbrev pub write_block : ℕ → Gic → (ℕ → Gic) → Gic
write_block offset g put = let n = offset / 4 in if n == 0 then g else put (n * 32)

unfoldable pub write_dist_reg32 : Gic → ℕ → ℕ → Gic
write_dist_reg32 g offset value =
    if offset == 0
    then record g { gicd_ctlr = bit_and value 0x13 }
    else if within offset 0x100 0x80
    then write_block (offset - 0x100) g (λ first. set_spi_enable_range g first value true)
    else if within offset 0x180 0x80
    then write_block (offset - 0x180) g (λ first. set_spi_enable_range g first value false)
    else if within offset 0x300 0x80
    then write_block (offset - 0x300) g (λ first. set_spi_active_range g first value true)
    else if within offset 0x380 0x80
    then write_block (offset - 0x380) g (λ first. set_spi_active_range g first value false)
    else if within offset 0x400 num_int_ids
    then set_priority_range g (offset - 0x400) value 0 false
    else g

-- The write-one loops of a redistributor: `put` for each bit of `value` that is set.
unfoldable pub each_bit : (Gic → ℕ → Gic) → ℕ → ℕ → ℕ → Gic → Gic
each_bit put value zero intid g = g
each_bit put value (suc left) intid g =
    each_bit put value left (intid + 1) (if bit value intid then put g intid else g)

unfoldable pub write_frame : Gic → ℕ → ℕ → ℕ → Gic
write_frame g frame inner value =
    let l = local_cpu g frame in
    let bits = λ (put : Gic → ℕ → Gic). each_bit put value local_int_ids 0 g in
    if inner == 0x14
    then put_local g frame (record l { gicr_waker = bit_and value 2 })
    else if inner == 0x10080
    then put_local g frame (record l { gicr_igroupr0 = value })
    else if inner == 0x10100
    then bits (λ h i. set_local_enabled_bit h frame i true)
    else if inner == 0x10180
    then bits (λ h i. set_local_enabled_bit h frame i false)
    else if inner == 0x10200
    then bits (λ h i. set_local_pending_bit h frame i true)
    else if inner == 0x10280
    then bits (λ h i. set_local_pending_bit h frame i false)
    else if inner == 0x10300
    then bits (λ h i. set_local_active_bit h frame i true)
    else if inner == 0x10380
    then bits (λ h i. set_local_active_bit h frame i false)
    else if within inner 0x10400 local_int_ids
    then set_priority_range g (inner - 0x10400) value frame true
    else if inner == 0x10C00
    then put_local g frame (record l { gicr_icfgr0 = value })
    else if inner == 0x10C04
    then put_local g frame (record l { gicr_icfgr1 = value })
    else g

unfoldable pub write_redist_reg32 : Gic → ℕ → ℕ → Gic
write_redist_reg32 g offset value =
    if ltb offset redist_base
    then g
    else (let frame = (offset - redist_base) / redist_frame_size in
        if leb g.cpu_count frame
        then g
        else write_frame g frame ((offset - redist_base) % redist_frame_size) value)

abbrev pub is_mmio_size : ℕ → Bool
is_mmio_size size = size == 1 || (size == 2 || (size == 4 || size == 8))

abbrev pub align4 : ℕ → ℕ
align4 offset = offset - offset % 4

abbrev pub align8 : ℕ → ℕ
align8 offset = offset - offset % 8

unfoldable pub read32 : Gic → ℕ → ℕ
read32 g offset =
    if ltb offset dist_size
    then read_dist_reg32 g (align4 offset)
    else read_redist_reg32 g (align4 offset)

unfoldable pub read : Gic → ℕ → ℕ → ℕ
read g offset size =
    if not (is_mmio_size size)
    then 0
    else if size == 8
    then bit_or (read32 g offset) (read32 g (align8 offset + 4) * 2 ^ 32)
    else read_part (read32 g offset) offset size

unfoldable pub write32 : Gic → ℕ → ℕ → Gic
write32 g offset value =
    if ltb offset dist_size
    then write_dist_reg32 g offset value
    else write_redist_reg32 g offset value

-- The register that `write` reads back to merge a part into it, at an aligned offset.
abbrev pub current32 : Gic → ℕ → ℕ
current32 g aligned =
    if ltb aligned dist_size then read_dist_reg32 g aligned else read_redist_reg32 g aligned

-- A write of one or two bytes. The part may run over the word's end; 32 bits of it count.
unfoldable pub write_narrow : Gic → ℕ → ℕ → ℕ → Gic
write_narrow g offset value size =
    let aligned = align4 offset in
    let shift = (offset % 4) * 8 in
    let mask = if size == 1 then 0xFF else 0xFFFF in
    let part = (bit_and value mask * 2 ^ shift) % u32_mod in
    let cleared = u32_mod - 1 - (mask * 2 ^ shift) % u32_mod in
    if is_write1_bitmap_register aligned
    then write32 g aligned part
    else if not (offset % 4 == 0)
    then write32 g aligned (bit_or (bit_and (current32 g aligned) cleared) part)
    else write32 g offset (value % u32_mod)

unfoldable pub write : Gic → ℕ → ℕ → ℕ → Gic
write g offset value size =
    if not (is_mmio_size size)
    then g
    else if size == 8
    then write32 (write32 g (align8 offset) (value % u32_mod)) (align8 offset + 4)
        (field value 32 32)
    else if size == 4
    then write32 g offset (value % u32_mod)
    else write_narrow g offset value size
