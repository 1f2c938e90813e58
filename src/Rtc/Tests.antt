-- ===== src/Rtc/Tests.antt =====
-- The theorem about src/rtc_pl031.cpp at a concrete clock, and runs of its functions.
use aarchvm.Base.{◌+◌, ◌%◌, ◌≡◌, refl, true, arith, u32_mod, bit}
use aarchvm.Rtc.{
  Rtc, reset, read, write, write32, current_seconds, register, refresh_alarm_state,
  update_alarm_state,
}
use aarchvm.Rtc.Seconds.{write-stopped}

abbrev clock : Rtc
clock = record (reset 1700000000) { offset_seconds = 3600 }

running : bit clock.cr 0 ≡ true
unfolding reset bit
running = refl

-- The alarm is due at once if the time that it is set for has passed.
alarm_test : (read 1700000001 0x14 4 (write 1700000001 4 5 4 clock)).0 ≡ 1
unfolding read write write32 register refresh_alarm_state update_alarm_state current_seconds reset
    bit
alarm_test = refl

write-stopped_example :
    (read (1700000500 + 7) 0 4 (write 1700000500 0xC 1 4 (write 1700000100 0xC 0 4 clock))).0
    ≡ (current_seconds 1700000100 clock + 7) % u32_mod
write-stopped_example = write-stopped 1700000100 1700000500 7 clock running (omega arith)
