-- ===== src/Gic/Query.antt =====
-- src/gicv3.cpp: which interrupt is delivered. `highest_pending`, `acknowledge`, the cached
-- `has_pending`, and the plain queries.
use aarchvm.Base.{
  ℕ, zero, suc, ◌+◌, ◌-◌, Bool, true, false, not, ◌&&◌, ◌||◌, ltb, ◌==◌, if◌then◌else◌, update,
}
use aarchvm.Gic.{
  Gic, PendingQueryCache, num_int_ids, local_int_ids, first_spi_int_id, default_priority, cpu_slot,
  local_cpu, is_local_intid, spi_index, set_local_pending_bit, set_local_active_bit,
  set_spi_pending_bit, set_spi_active_bit,
}

abbrev pub local_candidate : Gic → ℕ → ℕ → ℕ → Bool
local_candidate g cpu intid pmr =
    let l = local_cpu g cpu in l.pending intid && (l.enabled intid && ltb (l.priorities intid) pmr)

abbrev pub spi_candidate : Gic → ℕ → ℕ → Bool
spi_candidate g intid pmr =
    let i = spi_index intid in g.spi_pending i && (g.spi_enabled i && ltb (g.spi_priorities i) pmr)

-- The variables that `highest_pending` searches with.
pub record Best : Type 0 where
  pub found : Bool
  pub prio : ℕ
  pub intid : ℕ

abbrev pub no_best : Best
no_best = record { found = false; prio = 0xFF; intid = 1023 }

unfoldable pub consider : Best → ℕ → ℕ → Best
consider b candidate_intid candidate_prio =
    if not b.found
      || (ltb candidate_prio b.prio || (candidate_prio == b.prio && ltb candidate_intid b.intid))
    then record { found = true; prio = candidate_prio; intid = candidate_intid }
    else b

-- A loop of `highest_pending`: `left` interrupts from `intid` on.
unfoldable pub scan : (ℕ → Bool) → (ℕ → ℕ) → ℕ → ℕ → Best → Best
scan candidate prio zero intid b = b
scan candidate prio (suc left) intid b =
    scan candidate prio left (intid + 1)
      (if candidate intid then consider b intid (prio intid) else b)

unfoldable pub best_pending : Gic → ℕ → ℕ → Best
best_pending g cpu pmr =
    let after_local =
      scan (λ i. local_candidate g cpu i pmr) (λ i. (local_cpu g cpu).priorities i) local_int_ids 0
        no_best in
    scan (λ i. spi_candidate g i pmr) (λ i. g.spi_priorities (spi_index i))
      (num_int_ids - first_spi_int_id) first_spi_int_id after_local

-- The result and the `intid` that goes through the reference.
unfoldable pub highest_pending : Gic → ℕ → ℕ → Bool × ℕ
highest_pending g cpu pmr =
    let best = best_pending g (cpu_slot g cpu) pmr in
    (best.found, if best.found then best.intid else 1023)

-- The query with its cache: the answer, and the controller with the cache that was filled.
unfoldable pub has_pending : Gic → ℕ → ℕ → Bool × Gic
has_pending g cpu pmr =
    let slot = cpu_slot g cpu in
    let c = g.cache slot in
    let counted = record g {
      perf = record (g.perf) { has_pending_calls = g.perf.has_pending_calls + 1 };
    } in
    if c.valid && (c.epoch == g.state_epoch && c.pmr == pmr)
    then (c.value, counted)
    else (let pending = (highest_pending g slot pmr).0 in
        let filled : PendingQueryCache = record {
          valid = true;
          value = pending;
          pmr = pmr;
          epoch = g.state_epoch;
        } in
        (pending, record counted { cache = update g.cache slot filled }))

-- The moves of an acknowledged interrupt from pending to active.
unfoldable pub take_interrupt : Gic → ℕ → ℕ → Gic
take_interrupt g cpu intid =
    if is_local_intid intid
    then set_local_active_bit (set_local_pending_bit g cpu intid false) cpu intid true
    else set_spi_active_bit (set_spi_pending_bit g intid false) intid true

unfoldable pub acknowledge : Gic → ℕ → ℕ → Bool × ℕ × Gic
acknowledge g cpu pmr =
    let counted = record g {
      perf = record (g.perf) { acknowledge_calls = g.perf.acknowledge_calls + 1 };
    } in
    let (found, intid) = highest_pending counted cpu pmr in
    if found then (true, intid, take_interrupt counted cpu intid) else (false, 1023, counted)

unfoldable pub pending : Gic → ℕ → Bool
pending g intid =
    if ltb intid local_int_ids
    then (local_cpu g 0).pending intid
    else if ltb intid num_int_ids
    then g.spi_pending (spi_index intid)
    else false

unfoldable pub enabled : Gic → ℕ → Bool
enabled g intid =
    if ltb intid local_int_ids
    then (local_cpu g 0).enabled intid
    else if ltb intid num_int_ids
    then g.spi_enabled (spi_index intid)
    else false

unfoldable pub priority : Gic → ℕ → ℕ → ℕ
priority g cpu intid =
    if ltb intid local_int_ids
    then (local_cpu g cpu).priorities intid
    else if ltb intid num_int_ids
    then g.spi_priorities (spi_index intid)
    else default_priority
