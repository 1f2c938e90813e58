-- ===== src/Rtc.antt =====
-- src/rtc_pl031.cpp, include/aarchvm/rtc_pl031.hpp: the real-time clock. The host's clock is an
-- argument, in seconds; the signed difference from it is its 64-bit pattern. A read also brings the
-- alarm up to date.
pub mod Seconds
pub mod Tests
use aarchvm.Base.{
  ℕ, ◌+◌, ◌-◌, ◌%◌, ◌^◌, Bool, true, false, not, ◌&&◌, ◌||◌, leb, ◌==◌, if◌then◌else◌, bit, u32_mod,
  u64_mod,
}

pub record Rtc : Type 0 where
  pub offset_seconds : ℕ
  pub match_seconds : ℕ
  pub lr_shadow : ℕ
  pub cr : ℕ
  pub imsc : ℕ
  pub frozen_seconds : ℕ
  pub raw_pending : Bool
  pub alarm_armed : Bool

abbrev pub valid_mmio_size : ℕ → Bool
valid_mmio_size size = size == 1 || (size == 2 || (size == 4 || size == 8))

abbrev pub clock_enabled : Rtc → Bool
clock_enabled r = bit r.cr 0

unfoldable pub current_seconds : ℕ → Rtc → ℕ
current_seconds now r =
    if clock_enabled r then (now + r.offset_seconds) % u64_mod % u32_mod else r.frozen_seconds

unfoldable pub update_alarm_state : ℕ → Rtc → Rtc
update_alarm_state now_seconds r =
    let due =
      not (r.raw_pending || (not r.alarm_armed || not (clock_enabled r)))
      && leb r.match_seconds now_seconds in
    record r { raw_pending = due || r.raw_pending; alarm_armed = not due && r.alarm_armed }

unfoldable pub refresh_alarm_state : ℕ → Rtc → Rtc
refresh_alarm_state now r = update_alarm_state (current_seconds now r) r

unfoldable pub reset : ℕ → Rtc
reset now = record {
  offset_seconds = 0;
  match_seconds = 0;
  lr_shadow = now % u32_mod;
  cr = 1;
  imsc = 0;
  frozen_seconds = now % u32_mod;
  raw_pending = false;
  alarm_armed = false;
}

-- The value of a register, once the alarm is up to date.
unfoldable pub register : ℕ → ℕ → Rtc → ℕ
register now offset r =
    if offset == 0
    then current_seconds now r
    else if offset == 4
    then r.match_seconds
    else if offset == 8
    then r.lr_shadow
    else if offset == 0xC
    then r.cr % 2
    else if offset == 0x10
    then r.imsc % 2
    else if offset == 0x14
    then (if r.raw_pending then 1 else 0)
    else if offset == 0x18
    then (if r.raw_pending && bit r.imsc 0 then 1 else 0)
    else if offset == 0xFE0
    then 0x31
    else if offset == 0xFE4
    then 0x10
    else if offset == 0xFE8
    then 4
    else if offset == 0xFF0
    then 0xD
    else if offset == 0xFF4
    then 0xF0
    else if offset == 0xFF8
    then 5
    else if offset == 0xFFC
    then 0xB1
    else 0

unfoldable pub read : ℕ → ℕ → ℕ → Rtc → ℕ × Rtc
read now offset size r =
    let refreshed = refresh_alarm_state now r in
    if valid_mmio_size size then (register now offset refreshed, refreshed) else (0, r)

-- `static_cast<std::int64_t>(seconds) - host_now_seconds()`.
abbrev pub difference : ℕ → ℕ → ℕ
difference seconds now = (seconds + (u64_mod - now)) % u64_mod

unfoldable pub write_load : ℕ → ℕ → Rtc → Rtc
write_load now value32 r = refresh_alarm_state now (record r {
  lr_shadow = value32;
  offset_seconds = if clock_enabled r then difference value32 now else r.offset_seconds;
  frozen_seconds = if clock_enabled r then r.frozen_seconds else value32;
})

unfoldable pub write_control : ℕ → ℕ → Rtc → Rtc
write_control now value32 r =
    let now_enabled = bit value32 0 in
    let stops = clock_enabled r && not now_enabled in
    let starts = not (clock_enabled r) && now_enabled in
    refresh_alarm_state now (record r {
      frozen_seconds = if stops then current_seconds now r else r.frozen_seconds;
      offset_seconds = if starts then difference r.frozen_seconds now else r.offset_seconds;
      cr = value32 % 2;
    })

unfoldable pub write32 : ℕ → ℕ → ℕ → Rtc → Rtc
write32 now offset value32 r =
    if offset == 4
    then refresh_alarm_state now
        (record r { match_seconds = value32; raw_pending = false; alarm_armed = true })
    else if offset == 8
    then write_load now value32 r
    else if offset == 0xC
    then write_control now value32 r
    else if offset == 0x10
    then record r { imsc = value32 % 2 }
    else if offset == 0x1C
    then record r { raw_pending = false; alarm_armed = false }
    else r

unfoldable pub write : ℕ → ℕ → ℕ → ℕ → Rtc → Rtc
write now offset value size r =
    if valid_mmio_size size then write32 now offset (value % u32_mod) r else r
