-- ===== src/Timer/All.antt =====
-- src/generic_timer.cpp: the search for the next interrupt of any processor.
use aarchvm.Base.{
  ℕ, zero, suc, ◌+◌, ◌-◌, ◌*◌, ◌≤◌, ◌<◌, ◌≡◌, ◌≢◌, sym, min, false, ◌==◌, ==_iff, arith, Bool-cases,
  inl, inr,
}
use native.Mathlib.Nat.{mul-le-mul_right}
use aarchvm.Timer.{
  GenericTimer, uses_host_clock, any_pending, sync_to_steps, steps_until_cpu_irq, until_loop,
  steps_until_irq,
}
use aarchvm.Timer.Deadline.{HasRoom, steps_until_cpu_irq-quiet}

until_loop_bound :
    (t : GenericTimer) (now steps left best : ℕ) → until_loop t now steps left best ≤ best
unfolding until_loop
until_loop_bound t now steps zero best = omega arith
until_loop_bound t now steps (suc left) best =
    let best' = min best (steps_until_cpu_irq t now (t.cpu_count - suc left) steps best) in
    ground (arith, until_loop_bound t now steps left best')

until_loop-before :
    (t : GenericTimer) (now steps left best k i : ℕ)
    → k < until_loop t now steps left best
    → t.cpu_count - left ≤ i
    → i < t.cpu_count
    → left ≤ t.cpu_count
    → (b : ℕ) × (b ≤ best) × (k < steps_until_cpu_irq t now i steps b)
unfolding until_loop
until_loop-before t now steps zero best k i lt low high le = absurd (omega (arith, low, high))
until_loop-before t now steps (suc left) best k i lt low high le =
    let here = t.cpu_count - suc left in
    let found = steps_until_cpu_irq t now here steps best in
    let best' = min best found in
    let rest = until_loop_bound t now steps left best' in
    let more : k < until_loop t now steps left best' = ground (arith, lt, rest) in
    elim (Bool-cases (here == i)) [
      | inl e ↦
          let same : here ≡ i = (==_iff here i).0 e in
          (best, omega arith, rw (sym same) (omega (arith, more, rest)))
      | inr e ↦
          let other : here ≢ i = λ p. absurd (ground (arith, e, p)) in
          let (b, bound, before) =
            until_loop-before t now steps left best' k i more (omega (arith, low, other, le)) high
              (omega (arith, le)) in
          (b, omega (arith, bound), before)
    ]

fewer-HasRoom :
    (t : GenericTimer) (i steps most b : ℕ)
    → b ≤ most
    → HasRoom t i steps most
    → HasRoom t i steps b
unfolding HasRoom
fewer-HasRoom t i steps most b le h =
    let less : b * t.cycles_per_step ≤ most * t.cycles_per_step =
      mul-le-mul_right t.cycles_per_step le in
    (h.0, h.1, omega (arith, h, le), omega (arith, h, less), h.4, h.5, h.6)

-- In a timer that counts the guest's steps, where the step is not before the timer's last one,
-- every processor has room in 64 bits and none of its interrupts pends, advancing the timer by
-- fewer steps than `steps_until_irq` gives leaves no interrupt of any processor pending.
pub steps_until_irq-quiet :
    (t : GenericTimer) (now later steps most k i : ℕ)
    → uses_host_clock t ≡ false
    → ((j : ℕ) → j < t.cpu_count → HasRoom t j steps most)
    → ((j : ℕ) → j < t.cpu_count → any_pending t j ≡ false)
    → i < t.cpu_count
    → k < steps_until_irq t now steps most
    → any_pending (sync_to_steps now later (steps + k) t) i ≡ false
unfolding steps_until_irq
steps_until_irq-quiet t now later steps most k i guest room idle lt before =
    let looped : k < until_loop t now steps t.cpu_count most = ground (arith, guest, before) in
    let (b, bound, within) =
      until_loop-before t now steps t.cpu_count most k i looped (omega arith) lt (omega arith) in
    steps_until_cpu_irq-quiet t now later i steps b k guest
      (fewer-HasRoom t i steps most b bound (room i lt)) (idle i lt) within
