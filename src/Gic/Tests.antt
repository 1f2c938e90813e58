-- ===== src/Gic/Tests.antt =====
-- The theorems about src/gicv3.cpp at concrete states, and runs of its functions.
use aarchvm.Base.{
  ℕ, ◌≡◌, refl, true, false, not, ◌&&◌, ◌||◌, ◌==◌, ◌⊎◌, if◌then◌else◌, arith, bit, List, [], ◌∷◌,
}
use aarchvm.Gic.{Gic, blank, fresh, set_cpu_count, set_spi_enabled_bit}
use aarchvm.Gic.Query.{highest_pending, has_pending, acknowledge, priority}
use aarchvm.Gic.Mmio.{read, write, write32, write_dist_reg32}
use aarchvm.Gic.Ranges.{set_spi_enable_range, set_spi_enable_loop}
use aarchvm.Gic.Best.{IsLeast, NoneDeliverable, highest_pending-IsLeast}
use aarchvm.Gic.Lifecycle.{view, React, accept, acknowledge-React}
use aarchvm.Gic.Held.{
  AllHeld, LineCall, drive, finish, line_calls, line_calls-AllHeld, fresh-AllHeld,
}
use aarchvm.Gic.Held
use aarchvm.Gic.Bitmap.{enable_registers}
use aarchvm.Gic.Priority.{write-priority_word}
use aarchvm.Gic.Cache.Calls.{Call, HasRoom, apply, store, raise, query, run, has_pending_cached}

-- Two shared interrupts pend; 40 is the more urgent.
abbrev busy : Gic
busy = record blank {
  spi_pending = λ i. i == 8 || i == 5;
  spi_enabled = λ i. true;
  spi_line_level = λ i. i == 8;
  spi_priorities = λ i. if i == 8 then 0x10 else 0xA0;
}

highest_pending-IsLeast_example :
    let (found, intid) = highest_pending busy 0 0xFF in
    ((found ≡ true) × IsLeast busy 0 0xFF intid)
    ⊎ ((found ≡ false) × (intid ≡ 1023) × NoneDeliverable busy 0 0xFF)
highest_pending-IsLeast_example = highest_pending-IsLeast busy 0 0xFF

acknowledge-React_example :
    let (found, intid, h) = acknowledge busy 0 0xFF in
    ((found ≡ true) × IsLeast busy 0 0xFF intid × React busy h 0 intid accept)
    ⊎ ((found ≡ false)
        × (intid ≡ 1023)
        × NoneDeliverable busy 0 0xFF
        × ((on at : ℕ) → view h on at ≡ view busy on at))
acknowledge-React_example = acknowledge-React busy 0 0xFF

line_calls-AllHeld_example :
    AllHeld (line_calls fresh (drive 0 40 true ∷ Held.ack 0 0xFF ∷ finish 0 40 ∷ []))
line_calls-AllHeld_example =
    line_calls-AllHeld (drive 0 40 true ∷ Held.ack 0 0xFF ∷ finish 0 40 ∷ []) fresh fresh-AllHeld

enable_registers_example :
    (bit (read (write busy 0x104 5 4) 0x104 4) 2
      ≡ (bit (read busy 0x104 4) 2 || (1 == 1 && bit 5 2)))
    × (bit (read (write busy 0x184 5 4) 0x104 4) 2
        ≡ (bit (read busy 0x104 4) 2 && not (1 == 1 && bit 5 2)))
enable_registers_example =
    enable_registers busy 1 5 (omega arith) (omega arith) (omega arith) 1 2 (omega arith)
      (omega arith) (omega arith)

write-priority_word_example : priority (write busy 0x424 0x04030201 4) 0 38 ≡ 3
write-priority_word_example =
    write-priority_word busy 36 0x04030201 (omega arith) (omega arith) refl 0 38 (omega arith)

abbrev calls : List Call
calls = query 0 0xFF ∷ store 0x104 0x3 4 ∷ raise 0 33 ∷ []

calls-HasRoom : HasRoom fresh calls
unfolding fresh set_cpu_count apply has_pending write write32 write_dist_reg32 set_spi_enable_range
    set_spi_enable_loop set_spi_enabled_bit bit
calls-HasRoom = omega arith

has_pending_cached_example :
    (has_pending (run fresh calls) 0 0xFF).0 ≡ (highest_pending (run fresh calls) 0 0xFF).0
has_pending_cached_example = has_pending_cached calls 0 0xFF calls-HasRoom
