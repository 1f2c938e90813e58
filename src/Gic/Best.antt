-- ===== src/Gic/Best.antt =====
-- src/gicv3.cpp: what `highest_pending` finds among all 1024 interrupts.
use aarchvm.Base.{
  ℕ, zero, suc, ◌+◌, ◌≤◌, ◌<◌, ◌≡◌, refl, ap, Bool, true, false, ltb, if◌then◌else◌, ◌⊎◌, inl, inr,
  arith, Bool-cases, ltb→lt,
}
use aarchvm.Gic.{Gic, num_int_ids, local_int_ids, cpu_slot, local_cpu}
use aarchvm.Gic.Query.{
  Best, no_best, consider, scan, best_pending, highest_pending, local_candidate, spi_candidate,
  priority,
}

-- An interrupt that may be delivered to `cpu`: pending, enabled and more urgent than the mask.
abbrev pub deliverable : Gic → ℕ → ℕ → ℕ → Bool
deliverable g cpu pmr intid =
    if ltb intid local_int_ids then local_candidate g cpu intid pmr else spi_candidate g intid pmr

-- `b` is the most urgent of the candidates below `hi`, the lowest number first.
record IsBest (candidate : ℕ → Bool) (prio : ℕ → ℕ) (hi : ℕ) (b : Best) : Type 0 where
  sound : b.found ≡ true → (b.intid < hi) × (candidate b.intid ≡ true) × (prio b.intid ≡ b.prio)
  least :
      (j : ℕ)
      → j < hi
      → candidate j ≡ true
      → (b.found ≡ true) × ((b.prio < prio j) ⊎ ((b.prio ≡ prio j) × (b.intid ≤ j)))

module _ (candidate : ℕ → Bool) (prio : ℕ → ℕ) where
  consider-IsBest :
      (hi : ℕ) (b : Best)
      → candidate hi ≡ true
      → IsBest candidate prio hi b
      → IsBest candidate prio (hi + 1) (consider b hi (prio hi))
  unfolding consider
  consider-IsBest hi b here before = record {
    sound = ground (arith, before.sound);
    least = λ j below cand. elim (Bool-cases (ltb j hi)) [
      | inl lt ↦ ground (arith, before.least j (ltb→lt j hi lt) cand)
      | inr ge ↦ let e : j ≡ hi = ground arith in ground (arith, ap prio e)
    ];
  }

  skip-IsBest :
      (hi : ℕ) (b : Best)
      → candidate hi ≡ false
      → IsBest candidate prio hi b
      → IsBest candidate prio (hi + 1) b
  skip-IsBest hi b not_here before = record {
    sound = ground (arith, before.sound);
    least = λ j below cand. elim (Bool-cases (ltb j hi)) [
      | inl lt ↦ before.least j (ltb→lt j hi lt) cand
      | inr ge ↦ let e : j ≡ hi = ground arith in ground (arith, ap candidate e)
    ];
  }

  -- A loop over interrupts on which its own tests agree with the candidates.
  scan-IsBest :
      (own : ℕ → Bool) (own_prio : ℕ → ℕ) (left lo hi : ℕ) (b : Best)
      → lo + left ≡ hi
      → ((i : ℕ) → lo ≤ i → i < hi → (own i ≡ candidate i) × (own_prio i ≡ prio i))
      → IsBest candidate prio lo b
      → IsBest candidate prio hi (scan own own_prio left lo b)
  unfolding scan
  scan-IsBest own own_prio zero lo hi b e agree before =
      let e' : lo ≡ hi = omega arith in rw (← e') before
  scan-IsBest own own_prio (suc left) lo hi b e agree before =
      let same_test : own lo ≡ candidate lo = (agree lo (omega arith) (omega arith)).0 in
      let same_prio : own_prio lo ≡ prio lo = (agree lo (omega arith) (omega arith)).1 in
      scan-IsBest own own_prio left (lo + 1) hi _ (omega arith)
        (λ i above below. agree i (omega arith) below)
        (elim (Bool-cases (candidate lo)) [
          | inl here ↦ rw (same_test, here, same_prio) (consider-IsBest lo b here before)
          | inr not_here ↦ rw (same_test, not_here) (skip-IsBest lo b not_here before)
        ])

local_cpu_slot : (g : Gic) (cpu : ℕ) → local_cpu g (cpu_slot g cpu) ≡ local_cpu g cpu
local_cpu_slot g cpu = ap g.locals (omega arith)

no_best-IsBest : (candidate : ℕ → Bool) (prio : ℕ → ℕ) → IsBest candidate prio 0 no_best
no_best-IsBest candidate prio = record {
  sound = λ e. cc;
  least = λ j below cand. absurd (omega arith);
}

-- The local loop sees the interrupts below 32, the shared one the others.
best_pending-IsBest :
    (g : Gic) (cpu pmr : ℕ)
    → IsBest
        (deliverable g cpu pmr)
        (priority g cpu)
        num_int_ids
        (best_pending g (cpu_slot g cpu) pmr)
unfolding best_pending priority
best_pending-IsBest g cpu pmr =
    scan-IsBest (deliverable g cpu pmr) (priority g cpu) _ _ 992 32 1024 _ refl
      (λ i above below. ground arith)
      (scan-IsBest (deliverable g cpu pmr) (priority g cpu) _ _ 32 0 32 no_best refl
        (λ i above below. ground (arith, local_cpu_slot g cpu))
        (no_best-IsBest (deliverable g cpu pmr) (priority g cpu)))

none_below :
    {candidate : ℕ → Bool} {prio : ℕ → ℕ} {hi : ℕ} {b : Best}
    → IsBest candidate prio hi b
    → b.found ≡ false
    → (j : ℕ) → j < hi
    → candidate j ≡ false
none_below {candidate} best e j below = elim (Bool-cases (candidate j)) [
  | inl cand ↦ cc ((best.least j below cand).0)
  | inr not_here ↦ not_here
]

-- The deliverable interrupt of the smallest priority value, and of those the lowest number.
abbrev pub IsLeast : Gic → ℕ → ℕ → ℕ → Type 0
IsLeast g cpu pmr intid =
    (intid < num_int_ids)
    × (deliverable g cpu pmr intid ≡ true)
    × ((j : ℕ)
        → j < num_int_ids
        → deliverable g cpu pmr j ≡ true
        → (priority g cpu intid < priority g cpu j)
          ⊎ ((priority g cpu intid ≡ priority g cpu j) × (intid ≤ j)))

abbrev pub NoneDeliverable : Gic → ℕ → ℕ → Type 0
NoneDeliverable g cpu pmr = (j : ℕ) → j < num_int_ids → deliverable g cpu pmr j ≡ false

-- `highest_pending` either names the interrupt that is pending, enabled and more urgent than the
-- mask, with the smallest priority value among all such below 1024 and the lowest number among those
-- of equal priority; or it reports none with the number 1023, and there is no such interrupt.
pub highest_pending-IsLeast :
    (g : Gic) (cpu pmr : ℕ)
    → let (found, intid) = highest_pending g cpu pmr in
      ((found ≡ true) × IsLeast g cpu pmr intid)
      ⊎ ((found ≡ false) × (intid ≡ 1023) × NoneDeliverable g cpu pmr)
unfolding highest_pending
highest_pending-IsLeast g cpu pmr =
    let b = best_pending g (cpu_slot g cpu) pmr in
    let best : IsBest (deliverable g cpu pmr) (priority g cpu) num_int_ids b =
      best_pending-IsBest g cpu pmr in
    elim (Bool-cases b.found) [
      | inl e ↦
          let s = best.sound e in
          rw e (inl (refl, (s.0, s.1, λ j below cand. rw s.2 (best.least j below cand).1)))
      | inr e ↦ rw e (inr (refl, refl, λ j below. none_below best e j below))
    ]
