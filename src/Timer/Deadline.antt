-- ===== src/Timer/Deadline.antt =====
-- src/generic_timer.cpp: the number of steps that the timer gives until its next interrupt.
use aarchvm.Base.{
  ℕ, suc, ◌+◌, ◌-◌, ◌*◌, ◌/◌, ◌%◌, ◌^◌, ◌≤◌, ◌<◌, ◌≡◌, ap, ◌∙◌, min, Bool, true, false, not, ◌&&◌,
  ◌||◌, leb, u64_mod, arith,
}
use native.Mathlib.Nat.{div-lt_iff_lt-mul, le-div_iff_mul-le, suc-mul, add-mul, mul-le-mul_right}
use aarchvm.Timer.Channel.{
  TimerChannel, due, steps_needed, steps_until_channel_irq, update_channel_irq,
}
use aarchvm.Timer.{
  GenericTimer, uses_host_clock, cpu_state, counter_at_steps, sync_to_steps, update_irq_state,
  mmio_fires, update_cpu, any_pending, steps_until_mmio, steps_until_cpu_irq,
}

-- Before the steps that the quotient gives the cycles have not passed, after them they have.
steps_needed-before :
    (cycles p k : ℕ)
    → 0 < p
    → 0 < cycles
    → cycles + p ≤ 2 ^ 64
    → k < steps_needed cycles p
    → k * p < cycles
unfolding steps_needed
steps_needed-before cycles p k hp hc h lt =
    let small : (cycles + p - 1) % u64_mod ≡ cycles + p - 1 = omega arith in
    let le : suc k ≤ (cycles + p - 1) / p = omega (arith, ap (λ x. x / p) small) in
    omega (arith, (le-div_iff_mul-le {k = p} {x = suc k} {y = cycles + p - 1} hp).0 le, suc-mul k p)

steps_needed-after :
    (cycles p : ℕ) → 0 < p → 0 < cycles → cycles + p ≤ 2 ^ 64 → cycles ≤ steps_needed cycles p * p
unfolding steps_needed
steps_needed-after cycles p hp hc h =
    let n = (cycles + p - 1) / p in
    let small : (cycles + p - 1) % u64_mod ≡ cycles + p - 1 = omega arith in
    let lt = (div-lt_iff_lt-mul {k = p} {x = cycles + p - 1} {y = suc n} hp).0 (omega arith) in
    rw small (omega (arith, lt, suc-mul n p))

-- The channel comes due within the steps of its search: not before the number found, and at it where
-- that is below the bound.
channel_steps-before :
    (c : TimerChannel) (current p most k : ℕ)
    → c.cval + p ≤ 2 ^ 64
    → k < steps_until_channel_irq c current p most
    → due c (current + k * p) ≡ false
unfolding steps_until_channel_irq due
channel_steps-before c current p most k h lt =
    ground (arith, steps_needed-before (c.cval - current) p k)

channel_steps-at :
    (c : TimerChannel) (current p most : ℕ)
    → c.cval + p ≤ 2 ^ 64
    → steps_until_channel_irq c current p most < most
    → due c (current + steps_until_channel_irq c current p most * p) ≡ true
unfolding steps_until_channel_irq due
channel_steps-at c current p most h lt = ground (arith, steps_needed-after (c.cval - current) p)

-- The memory-mapped comparison at a value of the counter, where it has not fired.
unfoldable mmio_due : GenericTimer → ℕ → Bool
mmio_due t current = t.enabled && (not t.fired && leb t.compare current)

mmio_steps-before :
    (t : GenericTimer) (current most k : ℕ)
    → t.compare + t.cycles_per_step ≤ 2 ^ 64
    → k < steps_until_mmio t current most
    → mmio_due t (current + k * t.cycles_per_step) ≡ false
unfolding steps_until_mmio mmio_due
mmio_steps-before t current most k h lt =
    ground (arith, steps_needed-before (t.compare - current) t.cycles_per_step k)

mmio_steps-at :
    (t : GenericTimer) (current most : ℕ)
    → t.compare + t.cycles_per_step ≤ 2 ^ 64
    → steps_until_mmio t current most < most
    → mmio_due t (current + steps_until_mmio t current most * t.cycles_per_step) ≡ true
unfolding steps_until_mmio mmio_due
mmio_steps-at t current most h lt =
    ground (arith, steps_needed-after (t.compare - current) t.cycles_per_step)

-- In the next `most` steps from one that is not before the timer's last, neither the step number
-- nor the counter passes 2^64, and the deadlines are at least one step's cycles below it; the timer
-- has a processor.
unfoldable pub HasRoom : GenericTimer → ℕ → ℕ → ℕ → Type 0
HasRoom t cpu_index steps most =
    (0 < t.cpu_count)
    × (t.step_anchor ≤ steps)
    × (steps + most < 2 ^ 64)
    × (t.counter + (steps - t.step_anchor) * t.cycles_per_step + most * t.cycles_per_step < 2 ^ 64)
    × (t.compare + t.cycles_per_step ≤ 2 ^ 64)
    × ((cpu_state t cpu_index).cntv.cval + t.cycles_per_step ≤ 2 ^ 64)
    × ((cpu_state t cpu_index).cntp.cval + t.cycles_per_step ≤ 2 ^ 64)

counter_after :
    (t : GenericTimer) (now cpu_index steps most k : ℕ)
    → uses_host_clock t ≡ false
    → HasRoom t cpu_index steps most
    → k ≤ most
    → counter_at_steps t now (steps + k) ≡ counter_at_steps t now steps + k * t.cycles_per_step
unfolding HasRoom counter_at_steps
counter_after t now cpu_index steps most k guest h le =
    let p = t.cycles_per_step in
    let a = steps - t.step_anchor in
    let apart : (steps + k + u64_mod - t.step_anchor) % u64_mod ≡ a + k = omega (arith, h) in
    let here : (steps + u64_mod - t.step_anchor) % u64_mod ≡ a = omega (arith, h) in
    let more : k * p ≤ most * p = mul-le-mul_right p le in
    rw (guest, apart, here) (omega (arith, h, add-mul a k p, more))

any_pending-sync :
    (t : GenericTimer) (now later cpu_index steps : ℕ)
    → 0 < t.cpu_count
    → any_pending t cpu_index ≡ false
    → let current = counter_at_steps t now steps in
      any_pending (sync_to_steps now later steps t) cpu_index ≡ (
        mmio_due t current
        || (due (cpu_state t cpu_index).cntv current || due (cpu_state t cpu_index).cntp current))
unfolding any_pending sync_to_steps update_irq_state mmio_fires update_cpu update_channel_irq
    mmio_due
any_pending-sync t now later cpu_index steps h p = ground arith

-- Some interrupt of the processor is due at a value of the counter.
unfoldable some_due : GenericTimer → ℕ → ℕ → Bool
some_due t cpu_index current =
    mmio_due t current
    || (due (cpu_state t cpu_index).cntv current || due (cpu_state t cpu_index).cntp current)

search-before :
    (t : GenericTimer) (now cpu_index steps most k : ℕ)
    → uses_host_clock t ≡ false
    → HasRoom t cpu_index steps most
    → any_pending t cpu_index ≡ false
    → k < steps_until_cpu_irq t now cpu_index steps most
    → some_due t cpu_index (counter_at_steps t now steps + k * t.cycles_per_step) ≡ false
unfolding HasRoom steps_until_cpu_irq some_due
search-before t now cpu_index steps most k guest h p lt =
    let current = counter_at_steps t now steps in
    let step = t.cycles_per_step in
    let s = cpu_state t cpu_index in
    let best = steps_until_mmio t current most in
    let best_v = min best (steps_until_channel_irq s.cntv current step best) in
    ground (
      arith,
      guest,
      h,
      p,
      mmio_steps-before t current most k,
      channel_steps-before s.cntv current step best k,
      channel_steps-before s.cntp current step best_v k,
    )

search-at :
    (t : GenericTimer) (now cpu_index steps most : ℕ)
    → uses_host_clock t ≡ false
    → HasRoom t cpu_index steps most
    → any_pending t cpu_index ≡ false
    → steps_until_cpu_irq t now cpu_index steps most < most
    → some_due t cpu_index (
        counter_at_steps t now steps
        + steps_until_cpu_irq t now cpu_index steps most * t.cycles_per_step)
      ≡ true
unfolding HasRoom steps_until_cpu_irq some_due
search-at t now cpu_index steps most guest h p lt =
    let current = counter_at_steps t now steps in
    let step = t.cycles_per_step in
    let s = cpu_state t cpu_index in
    let best = steps_until_mmio t current most in
    let best_v = min best (steps_until_channel_irq s.cntv current step best) in
    ground (
      arith,
      guest,
      h,
      p,
      mmio_steps-at t current most,
      channel_steps-at s.cntv current step best,
      channel_steps-at s.cntp current step best_v,
    )

pub search_bound :
    (t : GenericTimer) (now cpu_index steps most : ℕ)
    → steps_until_cpu_irq t now cpu_index steps most ≤ most
unfolding steps_until_cpu_irq steps_until_mmio
search_bound t now cpu_index steps most = ground arith

-- In a timer that counts the guest's steps, where no interrupt of the processor is pending, the
-- step is not before the timer's last one and there is room in 64 bits, advancing the timer by
-- fewer steps than `steps_until_cpu_irq` gives leaves none pending.
pub steps_until_cpu_irq-quiet :
    (t : GenericTimer) (now later cpu_index steps most k : ℕ)
    → uses_host_clock t ≡ false
    → HasRoom t cpu_index steps most
    → any_pending t cpu_index ≡ false
    → k < steps_until_cpu_irq t now cpu_index steps most
    → any_pending (sync_to_steps now later (steps + k) t) cpu_index ≡ false
unfolding HasRoom some_due
steps_until_cpu_irq-quiet t now later cpu_index steps most k guest h p lt =
    let le : k ≤ most = omega (arith, lt, search_bound t now cpu_index steps most) in
    any_pending-sync t now later cpu_index (steps + k) h.0 p
    ∙ ap (some_due t cpu_index) (counter_after t now cpu_index steps most k guest h le)
    ∙ search-before t now cpu_index steps most k guest h p lt

-- A number below the bound is given only by a timer that counts the guest's steps.
below_bound :
    (t : GenericTimer) (now cpu_index steps most : ℕ)
    → steps_until_cpu_irq t now cpu_index steps most < most
    → any_pending t cpu_index ≡ false
    → uses_host_clock t ≡ false
unfolding steps_until_cpu_irq
below_bound t now cpu_index steps most lt p = ground (arith, lt, p)

-- Where no interrupt of the processor is pending, the step is not before the timer's last one and
-- there is room in 64 bits, and `steps_until_cpu_irq` gives a number below its bound, advancing the
-- timer by that number makes one pending.
pub steps_until_cpu_irq-raised :
    (t : GenericTimer) (now later cpu_index steps most : ℕ)
    → HasRoom t cpu_index steps most
    → any_pending t cpu_index ≡ false
    → steps_until_cpu_irq t now cpu_index steps most < most
    → any_pending
        (sync_to_steps now later (steps + steps_until_cpu_irq t now cpu_index steps most) t)
        cpu_index
      ≡ true
unfolding HasRoom some_due
steps_until_cpu_irq-raised t now later cpu_index steps most h p lt =
    let n = steps_until_cpu_irq t now cpu_index steps most in
    let guest = below_bound t now cpu_index steps most lt p in
    any_pending-sync t now later cpu_index (steps + n) h.0 p
    ∙ ap (some_due t cpu_index) (
        counter_after t now cpu_index steps most n guest h
          (search_bound t now cpu_index steps most))
    ∙ search-at t now cpu_index steps most guest h p lt
