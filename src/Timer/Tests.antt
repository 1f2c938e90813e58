-- ===== src/Timer/Tests.antt =====
-- The theorems about src/generic_timer.cpp at concrete states, and runs of its functions.
use aarchvm.Base.{ℕ, ◌<◌, ◌+◌, ◌-◌, ◌^◌, ◌≡◌, refl, true, false, arith, [], ◌∷◌}
use aarchvm.Timer.Channel.{fresh_channel, due, steps_until_channel_irq, steps_needed}
use aarchvm.Timer.{
  GenericTimer, fresh_timer, any_pending, sync_to_steps, steps_until_cpu_irq, counter_at_steps,
  steps_until_mmio, steps_until_irq, until_loop,
}
use aarchvm.Timer.Deadline.{HasRoom, steps_until_cpu_irq-quiet, steps_until_cpu_irq-raised}
use aarchvm.Timer.All.{steps_until_irq-quiet}
use aarchvm.Timer.Lines.{Settled, run, run-Settled, advance, control_virtual, value_virtual}

-- The virtual timer runs to 100, ten cycles in a step.
abbrev armed : GenericTimer
armed = record fresh_timer {
  cycles_per_step = 10;
  counter = 5;
  cpu_states = λ i. record {
    cntv = record fresh_channel { cval = 100; enable = true };
    cntp = fresh_channel;
  };
}

armed-HasRoom : HasRoom armed 0 3 50
unfolding HasRoom
armed-HasRoom =
    (omega arith, omega arith, omega arith, omega arith, omega arith, omega arith, omega arith)

search_test : steps_until_cpu_irq armed 0 0 3 50 ≡ 7
unfolding steps_until_cpu_irq steps_until_mmio steps_until_channel_irq steps_needed counter_at_steps
    any_pending
search_test = refl

search_all_test : steps_until_irq armed 0 3 50 ≡ 7
unfolding steps_until_irq until_loop steps_until_cpu_irq steps_until_mmio steps_until_channel_irq
    steps_needed counter_at_steps any_pending
search_all_test = refl

-- The rounded division overflows: the comparison is never reached, and the search says it is due.
search_overflow_test :
    steps_until_channel_irq (record fresh_channel { cval = 2 ^ 64 - 1; enable = true }) 0 2 50 ≡ 0
unfolding steps_until_channel_irq steps_needed
search_overflow_test = refl

steps_until_cpu_irq-quiet_example : any_pending (sync_to_steps 0 0 (3 + 6) armed) 0 ≡ false
unfolding any_pending steps_until_cpu_irq steps_until_mmio steps_until_channel_irq steps_needed
    counter_at_steps
steps_until_cpu_irq-quiet_example =
    steps_until_cpu_irq-quiet armed 0 0 0 3 50 6 refl armed-HasRoom refl (omega arith)

steps_until_cpu_irq-raised_example :
    any_pending (sync_to_steps 0 0 (3 + steps_until_cpu_irq armed 0 0 3 50) armed) 0 ≡ true
unfolding any_pending steps_until_cpu_irq steps_until_mmio steps_until_channel_irq steps_needed
    counter_at_steps
steps_until_cpu_irq-raised_example =
    steps_until_cpu_irq-raised armed 0 0 0 3 50 armed-HasRoom refl (omega arith)

every-HasRoom : (j : ℕ) → j < armed.cpu_count → HasRoom armed j 3 50
unfolding HasRoom
every-HasRoom j h =
    (omega arith, omega arith, omega arith, omega arith, omega arith, omega arith, omega arith)

every-idle : (j : ℕ) → j < armed.cpu_count → any_pending armed j ≡ false
unfolding any_pending
every-idle j h = refl

steps_until_irq-quiet_example : any_pending (sync_to_steps 0 0 (3 + 6) armed) 0 ≡ false
unfolding any_pending steps_until_irq until_loop steps_until_cpu_irq steps_until_mmio
    steps_until_channel_irq steps_needed counter_at_steps
steps_until_irq-quiet_example =
    steps_until_irq-quiet armed 0 0 3 50 6 0 refl every-HasRoom every-idle (omega arith)
      (omega arith)

fresh-Settled : Settled fresh_timer
unfolding Settled due
fresh-Settled i h = (refl, refl)

run-Settled_example :
    Settled
      (run (value_virtual 0 0 0 3 20 ∷ control_virtual 0 0 0 4 1 ∷ advance 0 0 50 ∷ []) fresh_timer)
run-Settled_example =
    run-Settled (value_virtual 0 0 0 3 20 ∷ control_virtual 0 0 0 4 1 ∷ advance 0 0 50 ∷ [])
      fresh_timer fresh-Settled
