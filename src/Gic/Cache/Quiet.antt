-- ===== src/Gic/Cache/Quiet.antt =====
-- src/gicv3.cpp: changes that `highest_pending` does not see, and that leave `state_epoch_` alone.
use aarchvm.Base.{
  ℕ, ◌≡◌, refl, ap, Bool, ◌&&◌, ltb, if◌then◌else◌, arith, Bool-cases, inl, inr, ◌==◌,
}
use aarchvm.Gic.{Gic, LocalCpu, PerfCounters, local_cpu, put_local, cpu_slot, spi_index}
use aarchvm.Gic.Query.{no_best, scan, best_pending, highest_pending, spi_candidate}
use aarchvm.Gic.Cache.Steps.{Step}

-- `highest_pending` as a function of what it reads of one CPU.
abbrev answer : Gic → (ℕ → Bool) → (ℕ → Bool) → (ℕ → ℕ) → ℕ → Bool × ℕ
answer g pend enab prio pmr =
    let local_best = scan (λ i. pend i && (enab i && ltb (prio i) pmr)) prio 32 0 no_best in
    let best =
      scan (λ i. spi_candidate g i pmr) (λ i. g.spi_priorities (spi_index i)) 992 32 local_best in
    (best.found, if best.found then best.intid else 1023)

put_local_at :
    (g : Gic) (cpu : ℕ) (l : LocalCpu) (slot : ℕ)
    → l.pending ≡ (local_cpu g cpu).pending
    → l.enabled ≡ (local_cpu g cpu).enabled
    → l.priorities ≡ (local_cpu g cpu).priorities
    → ((local_cpu (put_local g cpu l) slot).pending ≡ (local_cpu g slot).pending)
      × ((local_cpu (put_local g cpu l) slot).enabled ≡ (local_cpu g slot).enabled)
      × ((local_cpu (put_local g cpu l) slot).priorities ≡ (local_cpu g slot).priorities)
put_local_at g cpu l slot p e q = elim (Bool-cases (cpu_slot g cpu == cpu_slot g slot)) [
  | inl here ↦
      let at : cpu_slot g cpu ≡ cpu_slot g slot = ground arith in ground (arith, ap g.locals at)
  | inr elsewhere ↦ ground arith
]

-- A register of a redistributor that holds no pending, enable or priority bit.
pub quiet_local :
    (g : Gic) (cpu : ℕ) (l : LocalCpu)
    → l.pending ≡ (local_cpu g cpu).pending
    → l.enabled ≡ (local_cpu g cpu).enabled
    → l.priorities ≡ (local_cpu g cpu).priorities
    → Step 0 g (put_local g cpu l)
unfolding highest_pending best_pending
quiet_local g cpu l p e q = record {
  grows = omega arith;
  bounded = omega arith;
  kept = λ slot v. refl;
  unseen = λ slot pmr _.
      let at = put_local_at g cpu l (cpu_slot g slot) p e q in
      λ i. answer g (at.0 i) (at.1 i) (at.2 i) pmr;
}

pub quiet_perf : (g : Gic) (c : PerfCounters) → Step 0 g (record g { perf = c })
unfolding highest_pending best_pending
quiet_perf g c = record {
  grows = omega arith;
  bounded = omega arith;
  kept = λ slot v. refl;
  unseen = λ slot pmr _. refl;
}

pub quiet_ctlr : (g : Gic) (c : ℕ) → Step 0 g (record g { gicd_ctlr = c })
unfolding highest_pending best_pending
quiet_ctlr g c = record {
  grows = omega arith;
  bounded = omega arith;
  kept = λ slot v. refl;
  unseen = λ slot pmr _. refl;
}
