-- ===== src/Interrupt/Taken.antt =====
-- src/cpu.cpp: which interrupt a processor takes.
use aarchvm.Base.{
  ℕ, ◌+◌, ◌%◌, ◌<◌, ◌≡◌, refl, ◌∙◌, Bool, true, false, leb, Bool-cases, inl, inr, ◌⊎◌, update_self,
  arith,
}
use mathlib.Core.Path.{subst}
use aarchvm.Gic.{
  Gic, num_int_ids, set_local_active_bit, set_local_pending_bit, set_spi_active_bit,
  set_spi_pending_bit,
}
use aarchvm.Gic.Query.{acknowledge, take_interrupt, priority}
use aarchvm.Gic.Best.{IsLeast, deliverable, highest_pending-IsLeast}
use aarchvm.Interrupt.{
  Processor, compute_irq_threshold, run_at, save_current_sp_to_bank, load_current_sp_from_bank,
  push_frame, enter_irq, take_frame, taken, try_take_irq, exception_stack_capacity,
}

-- The threshold kept is the one of the mask and the running priority.
unfoldable pub IsCurrent : Processor → Type 0
IsCurrent c = c.irq_delivery_threshold ≡ compute_irq_threshold c

priority-take_interrupt :
    (g : Gic) (cpu intid at : ℕ) → priority (take_interrupt g cpu intid) cpu at ≡ priority g cpu at
unfolding priority take_interrupt set_local_active_bit set_local_pending_bit set_spi_active_bit
    set_spi_pending_bit
priority-take_interrupt g cpu intid at = ground arith

deliverable-priority :
    (g : Gic) (cpu pmr intid : ℕ)
    → intid < num_int_ids
    → deliverable g cpu pmr intid ≡ true
    → priority g cpu intid < pmr
unfolding priority
deliverable-priority g cpu pmr intid below h = ground (arith, below, h)

-- What an acknowledge that succeeds gives, and its priority in the controller afterwards.
Accepted : Gic → ℕ → ℕ → Bool × ℕ × Gic → Type 0
Accepted g cpu pmr (found, intid, g') =
    ((found ≡ true)
      × IsLeast g cpu pmr intid
      × (priority g' cpu intid ≡ priority g cpu intid)
      × (g'.cpu_count ≡ g.cpu_count))
    ⊎ (found ≡ false)

take_interrupt-cpu_count :
    (g : Gic) (cpu intid : ℕ) → (take_interrupt g cpu intid).cpu_count ≡ g.cpu_count
unfolding take_interrupt set_local_active_bit set_local_pending_bit set_spi_active_bit
    set_spi_pending_bit
take_interrupt-cpu_count g cpu intid = ground arith

acknowledge-Accepted : (g : Gic) (cpu pmr : ℕ) → Accepted g cpu pmr (acknowledge g cpu pmr)
unfolding acknowledge Accepted
acknowledge-Accepted g cpu pmr =
    let counted = record g {
      perf = record (g.perf) { acknowledge_calls = g.perf.acknowledge_calls + 1 };
    } in
    elim (highest_pending-IsLeast counted cpu pmr) [
      | inl (e, least) ↦ rw e (
          inl (
            refl,
            (unfold priority in least),
            priority-take_interrupt counted cpu _ _ ∙ (unfold priority in refl),
            take_interrupt-cpu_count counted cpu _,
          ))
      | inr (e, none_at, none_left) ↦ rw e (inr refl)
    ]

-- What is taken: `before` is the processor, `after` the one at the handler.
Urgent : Gic → ℕ → Processor → Bool × Gic × Processor → Type 0
Urgent g cpu c (ok, g', c') =
    ((ok ≡ true)
      × (c'.exception_depth ≡ c.exception_depth + 1)
      × IsLeast g cpu (c.irq_delivery_threshold % 256) (c'.exception_intid c.exception_depth)
      × (c'.running_priority < c.irq_delivery_threshold % 256)
      × IsCurrent c')
    ⊎ (ok ≡ false)

taken-Urgent :
    (g : Gic) (cpu : ℕ) (c : Processor) (answer : Bool × ℕ × Gic)
    → Accepted g cpu (c.irq_delivery_threshold % 256) answer
    → Urgent g cpu c (taken cpu g c answer)
unfolding Accepted Urgent taken take_frame enter_irq load_current_sp_from_bank run_at push_frame
    save_current_sp_to_bank IsCurrent
taken-Urgent g cpu c (false, intid, g') a = inr refl
taken-Urgent g cpu c (true, intid, g') (inr f) = absurd (ground (arith, f))
taken-Urgent g cpu c (true, intid, g') (inl (t, least, same, n)) =
    elim (Bool-cases (leb exception_stack_capacity c.exception_depth)) [
      | inl e ↦ rw e (inr refl)
      | inr e ↦ rw e (
          inl (
            refl,
            refl,
            rw (update_self c.exception_intid c.exception_depth intid) least,
            rw same (
                deliverable-priority g cpu (c.irq_delivery_threshold % 256) intid (least.0)
                  (least.1)),
            refl,
          ))
    ]

-- An interrupt that a processor takes is the deliverable one of the smallest priority value and the
-- lowest number, and it is recorded in the new frame. It is strictly more urgent than the mask and
-- than the interrupt that was running, and the threshold is again the one of the mask and the
-- running priority, if it was before.
pub try_take_irq-IsLeast :
    (g g' : Gic) (cpu : ℕ) (c c' : Processor)
    → IsCurrent c
    → try_take_irq cpu g c ≡ (true, g', c')
    → IsLeast g cpu c.irq_delivery_threshold (c'.exception_intid c.exception_depth)
      × (c'.running_priority < c.running_priority)
      × (c'.running_priority < c.icc_pmr_el1 % 256)
      × (c'.exception_depth ≡ c.exception_depth + 1)
      × IsCurrent c'
unfolding try_take_irq Urgent
try_take_irq-IsLeast g g' cpu c c' k h =
    elim (subst (Urgent g cpu c) h (
      taken-Urgent g cpu c (acknowledge g cpu (c.irq_delivery_threshold % 256))
        (acknowledge-Accepted g cpu (c.irq_delivery_threshold % 256)))) [
          | inl a ↦
              let small : c.irq_delivery_threshold % 256 ≡ c.irq_delivery_threshold =
                (unfold IsCurrent in omega (arith, k)) in
              let least : IsLeast g cpu c.irq_delivery_threshold
                  (c'.exception_intid c.exception_depth) =
                subst (λ t. IsLeast g cpu t (c'.exception_intid c.exception_depth)) small (a.2) in
              (
                least,
                (unfold IsCurrent in omega (arith, k, a.3)),
                (unfold IsCurrent in omega (arith, k, a.3)),
                a.1,
                a.4,
              )
          | inr f ↦ absurd (ground (arith, f))
        ]
