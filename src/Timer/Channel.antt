-- ===== src/Timer/Channel.antt =====
-- src/generic_timer.cpp: one channel of a processor's timer.
use aarchvm.Base.{
  ℕ, ◌+◌, ◌-◌, ◌/◌, ◌%◌, ◌^◌, min, Bool, false, not, ◌&&◌, ◌||◌, ltb, leb, ◌==◌, if◌then◌else◌, bit,
  bit_or, u64_mod,
}

pub record TimerChannel : Type 0 where
  pub cval : ℕ
  pub enable : Bool
  pub imask : Bool
  pub fired : Bool
  pub irq_pending : Bool

abbrev pub fresh_channel : TimerChannel
fresh_channel = record {
  cval = 0;
  enable = false;
  imask = false;
  fired = false;
  irq_pending = false;
}

unfoldable pub read_ctl : TimerChannel → ℕ → ℕ
read_ctl c current =
    bit_or (bit_or (if c.enable then 1 else 0) (if c.imask then 2 else 0))
      (if c.enable && leb c.cval current then 4 else 0)

-- The low 32 bits of `cval - current`.
unfoldable pub read_tval : TimerChannel → ℕ → ℕ
read_tval c current = (c.cval + u64_mod - current) % u64_mod % 2 ^ 32

unfoldable pub write_ctl : TimerChannel → ℕ → TimerChannel
write_ctl c value = record c { enable = bit value 0; imask = bit value 1 }

unfoldable pub write_cval : TimerChannel → ℕ → TimerChannel
write_cval c value = record c { cval = value }

-- The low 32 bits of the value, as a signed number, in 64 bits.
unfoldable pub sign_extend_32 : ℕ → ℕ
sign_extend_32 value =
    if ltb (value % 2 ^ 32) (2 ^ 31) then value % 2 ^ 32 else value % 2 ^ 32 + (2 ^ 64 - 2 ^ 32)

unfoldable pub write_tval : TimerChannel → ℕ → ℕ → TimerChannel
write_tval c current value = record c { cval = (current + sign_extend_32 value) % u64_mod }

-- `(cycles + cycles_per_step - 1) / cycles_per_step`.
unfoldable pub steps_needed : ℕ → ℕ → ℕ
steps_needed cycles cycles_per_step = (cycles + cycles_per_step - 1) % u64_mod / cycles_per_step

unfoldable pub steps_until_channel_irq : TimerChannel → ℕ → ℕ → ℕ → ℕ
steps_until_channel_irq c current cycles_per_step max_steps =
    if not c.enable || (c.imask || max_steps == 0)
    then max_steps
    else if leb c.cval current
    then 0
    else if cycles_per_step == 0
    then max_steps
    else min max_steps (steps_needed (c.cval - current) cycles_per_step)

-- The channel's condition at a value of the counter.
unfoldable pub due : TimerChannel → ℕ → Bool
due c current = c.enable && (not c.imask && leb c.cval current)

unfoldable pub update_channel_irq : TimerChannel → ℕ → TimerChannel
update_channel_irq c current = record c { irq_pending = due c current }
