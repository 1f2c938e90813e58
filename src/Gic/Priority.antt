-- ===== src/Gic/Priority.antt =====
-- src/gicv3.cpp: writes to the priority bytes of the shared interrupts.
use aarchvm.Base.{
  ℕ, ◌+◌, ◌-◌, ◌*◌, ◌/◌, ◌%◌, ◌^◌, ◌≤◌, ◌<◌, ◌≡◌, refl, false, ◌==◌, if◌then◌else◌, arith, field,
  u32_mod,
}
use aarchvm.Gic.{Gic, touch}
use aarchvm.Gic.Query.{priority}
use aarchvm.Gic.Ranges.{set_priority_loop, set_priority_range, put_priority}
use aarchvm.Gic.Mmio.{write, write32, write_narrow, write_dist_reg32, is_write1_bitmap_register}

put_priority-at :
    (g : Gic) (intid prio cpu j : ℕ)
    → 32 ≤ intid
    → intid < 1024
    → priority (put_priority g intid prio 0 false) cpu j
      ≡ (if intid == j then prio else priority g cpu j)
unfolding put_priority priority
put_priority-at g intid prio cpu j lo hi = ground arith

priority-touch : (g : Gic) (cpu j : ℕ) → priority (touch g) cpu j ≡ priority g cpu j
unfolding priority
priority-touch g cpu j = refl

write_range :
    (g : Gic) (first value : ℕ)
    → first + 4 ≤ 1024
    → write_dist_reg32 g (0x400 + first) value ≡ set_priority_range g first value 0 false
unfolding write_dist_reg32
write_range g first value hi =
    let e : 0x400 + first - 0x400 ≡ first = omega arith in rw e (ground arith)

module _ (g : Gic) (first value : ℕ) (lo : 32 ≤ first) (hi : first + 4 ≤ 1024) where
  -- The priorities that `set_priority_range` leaves.
  range-priority :
      (cpu j : ℕ)
      → priority (set_priority_range g first value 0 false) cpu j ≡ (
          if first == j
          then value % 256
          else if first + 1 == j
          then value / 2 ^ 8 % 256
          else if first + 2 == j
          then value / 2 ^ 16 % 256
          else if first + 3 == j
          then value / 2 ^ 24 % 256
          else priority g cpu j)
  unfolding set_priority_range set_priority_loop
  range-priority cpu j =
      let byte = λ (i : ℕ). field value (i * 8) 8 in
      let g1 = put_priority g (first + 0) (byte 0) 0 false in
      let g2 = put_priority g1 (first + 1) (byte 1) 0 false in
      let g3 = put_priority g2 (first + 2) (byte 2) 0 false in
      let g4 = put_priority g3 (first + 3) (byte 3) 0 false in
      ground (
        arith,
        priority-touch g4 cpu j,
        put_priority-at g3 (first + 3) (byte 3) cpu j (omega arith) (omega arith),
        put_priority-at g2 (first + 2) (byte 2) cpu j (omega arith) (omega arith),
        put_priority-at g1 (first + 1) (byte 1) cpu j (omega arith) (omega arith),
        put_priority-at g (first + 0) (byte 0) cpu j (omega arith) (omega arith),
      )

  module _ (aligned : first % 4 ≡ 0) where
    -- A word written to GICD_IPRIORITYR sets the priorities of its four interrupts to its bytes, lowest
    -- first, and changes no other interrupt's priority on any CPU.
    pub write-priority_word :
        (cpu j : ℕ)
        → value < u32_mod
        → priority (write g (0x400 + first) value 4) cpu j ≡ (
            if first == j
            then value % 256
            else if first + 1 == j
            then value / 2 ^ 8 % 256
            else if first + 2 == j
            then value / 2 ^ 16 % 256
            else if first + 3 == j
            then value / 2 ^ 24 % 256
            else priority g cpu j)
    unfolding write write32
    write-priority_word cpu j fits =
        let whole : value % u32_mod ≡ value = omega arith in
        rw whole (ground (arith, write_range g first value hi, range-priority cpu j))

    byte_as_word :
        value < 256 → write g (0x400 + first) value 1 ≡ set_priority_range g first value 0 false
    unfolding write write_narrow write32 is_write1_bitmap_register
    byte_as_word fits =
        let whole : value % u32_mod ≡ value = omega arith in
        let at : 0x400 + first - (0x400 + first) % 4 ≡ 0x400 + first = omega arith in
        let offset : (0x400 + first) % 4 ≡ 0 = omega arith in
        rw (whole, at, offset) (ground (arith, write_range g first value hi))

    -- A byte written to the priority of an interrupt whose number is a multiple of 4 sets that
    -- priority, and with it the priorities of the three interrupts that follow to 0.
    pub write-priority_byte :
        (cpu : ℕ)
        → value < 256
        → let h = write g (0x400 + first) value 1 in
          (priority h cpu first ≡ value)
          × (priority h cpu (first + 1) ≡ 0)
          × (priority h cpu (first + 2) ≡ 0)
          × (priority h cpu (first + 3) ≡ 0)
    write-priority_byte cpu fits =
        let range = range-priority cpu in
        rw (byte_as_word fits) (
          ground (arith, range first),
          ground (arith, range (first + 1)),
          ground (arith, range (first + 2)),
          ground (arith, range (first + 3)),
        )
