-- ===== src/Rtc/Seconds.antt =====
-- src/rtc_pl031.cpp: the seconds that a guest reads.
use aarchvm.Base.{ℕ, ◌+◌, ◌%◌, ◌^◌, ◌<◌, ◌≡◌, true, if◌then◌else◌, bit, u32_mod, arith}
use aarchvm.Rtc.{
  Rtc, clock_enabled, current_seconds, update_alarm_state, refresh_alarm_state, register, read,
  write_load, write_control, write32, write,
}

-- The guest sets the clock and reads it `k` seconds of the host later: a running clock has gone on by
-- as many seconds, in 32 bits, and one that is stopped still shows the value. The host's clock stays
-- below 2^63.
pub write-read_seconds :
    (now k value : ℕ) (r : Rtc)
    → now + k < 2 ^ 63
    → (read (now + k) 0 4 (write now 8 value 4 r)).0
      ≡ (if clock_enabled r then (value + k) % u32_mod else value % u32_mod)
unfolding read register write write32 write_load refresh_alarm_state update_alarm_state
    current_seconds
write-read_seconds now k value r h = ground (arith, h)

-- A running clock that the guest stops and starts again later goes on from the second at which it
-- stopped, as a read `k` seconds after the start shows. The host's clock stays below 2^63.
pub write-stopped :
    (stop start k : ℕ) (r : Rtc)
    → clock_enabled r ≡ true
    → start + k < 2 ^ 63
    → (read (start + k) 0 4 (write start 0xC 1 4 (write stop 0xC 0 4 r))).0
      ≡ (current_seconds stop r + k) % u32_mod
unfolding read register write write32 write_control refresh_alarm_state update_alarm_state
    current_seconds bit
write-stopped stop start k r e h = ground (arith, e, h)
