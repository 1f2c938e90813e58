-- ===== src/Gic/Cache/Registers.antt =====
-- src/gicv3.cpp: a write through the register interface, as a step of bounded length.
use aarchvm.Base.{
  ℕ, ◌+◌, ◌-◌, ◌*◌, ◌/◌, ◌%◌, ◌<◌, refl, Bool, true, false, not, ◌==◌, ltb, leb, if◌then◌else◌,
  arith, u64_mod, bit_and,
}
use aarchvm.Gic.{Gic}
use aarchvm.Gic.Mmio.{
  dist_size, redist_base, redist_frame_size, align4, is_mmio_size, is_write1_bitmap_register,
  within, write_dist_reg32, write_frame, write_redist_reg32, write32, write_narrow, write,
}
use aarchvm.Gic.Ranges.{set_spi_enable_range, set_spi_active_range, set_priority_range}
use aarchvm.Gic.Cache.Steps.{
  Step, stay, widen, branch, seq, set_local_pending_bit-Step, set_local_enabled_bit-Step,
  set_local_active_bit-Step,
}
use aarchvm.Gic.Cache.Quiet.{quiet_local, quiet_ctlr}
use aarchvm.Gic.Cache.Writes.{
  each_bit-Step, set_spi_enable_loop-Step, set_spi_active_loop-Step, set_priority_range-Step,
}

module _ (g : Gic) (room : g.state_epoch + 32 < u64_mod) where
  enable_block :
      (n value : ℕ) (on : Bool)
      → Step 32 g (if n == 0 then g else set_spi_enable_range g (n * 32) value on)
  unfolding set_spi_enable_range
  enable_block n value on =
      branch (n == 0) _ _ (stay 32 g) (set_spi_enable_loop-Step 32 0 g (n * 32) value on room)

  active_block :
      (n value : ℕ) (on : Bool)
      → Step 32 g (if n == 0 then g else set_spi_active_range g (n * 32) value on)
  unfolding set_spi_active_range
  active_block n value on =
      branch (n == 0) _ _ (stay 32 g) (set_spi_active_loop-Step 32 0 g (n * 32) value on room)

  priority_block :
      (first value cpu : ℕ) (is_local : Bool)
      → Step 32 g (set_priority_range g first value cpu is_local)
  priority_block first value cpu is_local =
      widen (omega arith) (set_priority_range-Step g (omega arith) first value cpu is_local)

  pub write_dist_reg32-Step : (offset value : ℕ) → Step 32 g (write_dist_reg32 g offset value)
  unfolding write_dist_reg32
  write_dist_reg32-Step offset value =
      branch (offset == 0) _ _ (widen (omega arith) (quiet_ctlr g (bit_and value 0x13))) (
        branch (within offset 0x100 0x80) _ _ (enable_block ((offset - 0x100) / 4) value true) (
          branch (within offset 0x180 0x80) _ _ (enable_block ((offset - 0x180) / 4) value false) (
            branch (within offset 0x300 0x80) _ _ (active_block ((offset - 0x300) / 4) value true) (
              branch (within offset 0x380 0x80) _ _
                (active_block ((offset - 0x380) / 4) value false)
                (branch (within offset 0x400 1024) _ _
                  (priority_block (offset - 0x400) value 0 false) (stay 32 g))))))

  quiet : (h : Gic) → Step 0 g h → Step 32 g h
  quiet h s = widen (omega arith) s

  pub write_frame-Step : (frame inner value : ℕ) → Step 32 g (write_frame g frame inner value)
  unfolding write_frame
  write_frame-Step frame inner value =
      branch (inner == 0x14) _ _ (quiet _ (quiet_local g frame _ refl refl refl)) (
        branch (inner == 0x10080) _ _ (quiet _ (quiet_local g frame _ refl refl refl)) (
          branch (inner == 0x10100) _ _
            (each_bit-Step _ (λ h i r. set_local_enabled_bit-Step h r frame i true) value 32 0 g
              room)
            (branch (inner == 0x10180) _ _
              (each_bit-Step _ (λ h i r. set_local_enabled_bit-Step h r frame i false) value 32 0 g
                room)
              (branch (inner == 0x10200) _ _
                (each_bit-Step _ (λ h i r. set_local_pending_bit-Step h r frame i true) value 32 0 g
                  room)
                (branch (inner == 0x10280) _ _
                  (each_bit-Step _ (λ h i r. set_local_pending_bit-Step h r frame i false) value 32
                    0 g room)
                  (branch (inner == 0x10300) _ _
                    (each_bit-Step _ (λ h i r. set_local_active_bit-Step h r frame i true) value 32
                      0 g room)
                    (branch (inner == 0x10380) _ _
                      (each_bit-Step _ (λ h i r. set_local_active_bit-Step h r frame i false) value
                        32 0 g room)
                      (branch (within inner 0x10400 32) _ _
                        (priority_block (inner - 0x10400) value frame true)
                        (branch (inner == 0x10C00) _ _
                          (quiet _ (quiet_local g frame _ refl refl refl))
                          (branch (inner == 0x10C04) _ _
                            (quiet _ (quiet_local g frame _ refl refl refl)) (stay 32 g)))))))))))

  pub write32-Step : (offset value : ℕ) → Step 32 g (write32 g offset value)
  unfolding write32 write_redist_reg32
  write32-Step offset value =
      branch (ltb offset dist_size) _ _ (write_dist_reg32-Step offset value) (
        branch (ltb offset redist_base) _ _ (stay 32 g) (
          branch (leb g.cpu_count ((offset - redist_base) / redist_frame_size)) _ _ (stay 32 g) (
            write_frame-Step ((offset - redist_base) / redist_frame_size)
              ((offset - redist_base) % redist_frame_size) value)))

  pub write_narrow-Step : (offset value size : ℕ) → Step 32 g (write_narrow g offset value size)
  unfolding write_narrow
  write_narrow-Step offset value size =
      branch (is_write1_bitmap_register (align4 offset)) _ _ (write32-Step (align4 offset) _) (
        branch (not (offset % 4 == 0)) _ _ (write32-Step (align4 offset) _) (write32-Step offset _))

pub write-Step :
    (g : Gic)
    → g.state_epoch + 64 < u64_mod
    → (offset value size : ℕ) → Step 64 g (write g offset value size)
unfolding write
write-Step g room offset value size = branch (not (is_mmio_size size)) _ _ (stay 64 g) (
    branch (size == 8) _ _
      (seq 32 32 g _ _ room (write32-Step g (omega arith) _ _) (λ r. write32-Step _ r _ _))
      (branch (size == 4) _ _ (widen (omega arith) (write32-Step g (omega arith) offset _))
        (widen (omega arith) (write_narrow-Step g (omega arith) offset value size))))
