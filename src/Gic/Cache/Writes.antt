-- ===== src/Gic/Cache/Writes.antt =====
-- src/gicv3.cpp: the operations that change a `GicV3`, as steps of bounded length.
use aarchvm.Base.{
  ℕ, zero, suc, ◌+◌, ◌*◌, ◌<◌, ◌≡◌, refl, Bool, true, false, ◌&&◌, ◌||◌, same, leb, arith,
  Bool-cases, inl, inr, u64_mod, bit, field,
}
use aarchvm.Gic.{Gic, is_local_intid, is_spi, spi_index, num_int_ids, local_cpu, set_cpu_affinity}
use aarchvm.Gic.Query.{take_interrupt, acknowledge, highest_pending}
use aarchvm.Gic.Lines.{
  set_pending, latch_spi_level, latch_local_level, set_spi_level, set_local_level, set_level,
  sgi_targets, send_sgi_loop, send_sgi, eoi,
}
use aarchvm.Gic.Ranges.{
  set_spi_enable_loop, set_spi_active_loop, put_priority, set_priority_loop, set_priority_range,
}
use aarchvm.Gic.Mmio.{each_bit}
use aarchvm.Gic.Cache.Steps.{
  Step, Moves-Step, stay, compose, widen, branch, seq, set_local_pending_bit-Step,
  set_local_active_bit-Step, set_spi_pending_bit-Step, set_spi_enabled_bit-Step,
  set_spi_active_bit-Step,
}
use aarchvm.Gic.Cache.Quiet.{quiet_local, quiet_perf}

module _ (g : Gic) (room : g.state_epoch + 2 < u64_mod) where
  pub take_interrupt-Step : (cpu intid : ℕ) → Step 2 g (take_interrupt g cpu intid)
  unfolding take_interrupt
  take_interrupt-Step cpu intid =
      branch (is_local_intid intid) _ _
        (seq 1 1 g _ _ room (set_local_pending_bit-Step g (omega arith) cpu intid false)
          (λ r. set_local_active_bit-Step _ r cpu intid true))
        (seq 1 1 g _ _ room (set_spi_pending_bit-Step g (omega arith) intid false)
          (λ r. set_spi_active_bit-Step _ r intid true))

  pub eoi-Step : (cpu intid : ℕ) → Step 2 g (eoi g cpu intid)
  unfolding eoi
  eoi-Step cpu intid =
      branch (is_local_intid intid) _ _
        (seq 1 1 g _ _ room (set_local_active_bit-Step g (omega arith) cpu intid false)
          (λ r. branch _ _ _ (set_local_pending_bit-Step _ r cpu intid true) (stay 1 _)))
        (branch (leb 1024 intid) _ _ (stay 2 g) (
          seq 1 1 g _ _ room (set_spi_active_bit-Step g (omega arith) intid false)
            (λ r. branch _ _ _ (set_spi_pending_bit-Step _ r intid true) (stay 1 _))))

  pub set_pending-Step : (cpu intid : ℕ) → Step 2 g (set_pending g cpu intid)
  unfolding set_pending
  set_pending-Step cpu intid = widen (omega arith) (
      branch (is_local_intid intid) _ _ (set_local_pending_bit-Step g (omega arith) cpu intid true)
        (set_spi_pending_bit-Step g (omega arith) intid true))

  latch_spi_level-Step : (intid : ℕ) (on : Bool) → Step 1 g (latch_spi_level g intid on)
  unfolding latch_spi_level
  latch_spi_level-Step intid on = Moves-Step g _ (omega arith) (inr (refl, refl))

  latch_local_level-Step : (cpu intid : ℕ) (on : Bool) → Step 1 g (latch_local_level g cpu intid on)
  unfolding latch_local_level
  latch_local_level-Step cpu intid on = Moves-Step g _ (omega arith) (inr (refl, refl))

  pub set_spi_level-Step : (intid : ℕ) (on : Bool) → Step 2 g (set_spi_level g intid on)
  unfolding set_spi_level
  set_spi_level-Step intid on =
      branch (leb num_int_ids intid || same (g.spi_line_level (spi_index intid)) on) _ _ (stay 2 g)
        (seq 1 1 g _ _ room (latch_spi_level-Step intid on)
          (λ r. branch _ _ _ (set_spi_pending_bit-Step _ r intid true) (stay 1 _)))

  pub set_local_level-Step : (cpu intid : ℕ) (on : Bool) → Step 2 g (set_local_level g cpu intid on)
  unfolding set_local_level
  set_local_level-Step cpu intid on =
      branch (same ((local_cpu g cpu).line_level intid) on) _ _ (stay 2 g) (
        seq 1 1 g _ _ room (latch_local_level-Step cpu intid on)
          (λ r. branch _ _ _ (set_local_pending_bit-Step _ r cpu intid true) (stay 1 _)))

pub set_level-Step :
    (g : Gic)
    → g.state_epoch + 2 < u64_mod
    → (cpu intid : ℕ) (on : Bool) → Step 2 g (set_level g cpu intid on)
unfolding set_level
set_level-Step g room cpu intid on =
    branch (is_local_intid intid) _ _
      (compose (quiet_perf g _) (set_local_level-Step _ room cpu intid on))
      (compose (quiet_perf g _) (set_spi_level-Step _ room intid on))

pub acknowledge-Step :
    (g : Gic) → g.state_epoch + 2 < u64_mod → (cpu pmr : ℕ) → Step 2 g (acknowledge g cpu pmr).2
unfolding acknowledge
acknowledge-Step g room cpu pmr =
    let counted = record g {
      perf = record (g.perf) { acknowledge_calls = g.perf.acknowledge_calls + 1 };
    } in
    let quiet : Step 0 g counted = quiet_perf g _ in
    let asked = highest_pending counted cpu pmr in
    elim (Bool-cases asked.0) [
      | inl e ↦ rw e (compose quiet (take_interrupt-Step counted room cpu asked.1))
      | inr e ↦ rw e (widen (omega arith) quiet)
    ]

-- Loops that put at most one change each round.
module _ (put : Gic → ℕ → Gic)
    (one : (g : Gic) (i : ℕ) → g.state_epoch + 1 < u64_mod → Step 1 g (put g i)) where
  pub each_bit-Step :
      (value left i : ℕ) (g : Gic)
      → g.state_epoch + left < u64_mod
      → Step left g (each_bit put value left i g)
  unfolding each_bit
  each_bit-Step value zero i g room = stay 0 g
  each_bit-Step value (suc left) i g room = widen (omega arith) (
      seq 1 left g _ _ (omega arith) (branch (bit value i) _ _ (one g i (omega arith)) (stay 1 g))
        (λ r. each_bit-Step value left (i + 1) _ r))

pub set_spi_enable_loop-Step :
    (left k : ℕ) (g : Gic) (first bits : ℕ) (enable : Bool)
    → g.state_epoch + left < u64_mod
    → Step left g (set_spi_enable_loop left k g first bits enable)
unfolding set_spi_enable_loop
set_spi_enable_loop-Step zero k g first bits enable room = stay 0 g
set_spi_enable_loop-Step (suc left) k g first bits enable room = widen (omega arith) (
    seq 1 left g _ _ (omega arith)
      (branch (bit bits k && is_spi (first + k)) _ _
        (set_spi_enabled_bit-Step g (omega arith) (first + k) enable) (stay 1 g))
      (λ r. set_spi_enable_loop-Step left (k + 1) _ first bits enable r))

pub set_spi_active_loop-Step :
    (left k : ℕ) (g : Gic) (first bits : ℕ) (value : Bool)
    → g.state_epoch + left < u64_mod
    → Step left g (set_spi_active_loop left k g first bits value)
unfolding set_spi_active_loop
set_spi_active_loop-Step zero k g first bits value room = stay 0 g
set_spi_active_loop-Step (suc left) k g first bits value room = widen (omega arith) (
    seq 1 left g _ _ (omega arith)
      (branch (bit bits k && is_spi (first + k)) _ _
        (set_spi_active_bit-Step g (omega arith) (first + k) value) (stay 1 g))
      (λ r. set_spi_active_loop-Step left (k + 1) _ first bits value r))

put_priority_keeps :
    (g : Gic) (intid prio cpu : ℕ) (is_local : Bool)
    → ((put_priority g intid prio cpu is_local).cache ≡ g.cache)
      × ((put_priority g intid prio cpu is_local).state_epoch ≡ g.state_epoch)
unfolding put_priority
put_priority_keeps g intid prio cpu is_local = ground arith

set_priority_loop_keeps :
    (left i : ℕ) (g : Gic) (first value cpu : ℕ) (is_local : Bool)
    → ((set_priority_loop left i g first value cpu is_local).cache ≡ g.cache)
      × ((set_priority_loop left i g first value cpu is_local).state_epoch ≡ g.state_epoch)
unfolding set_priority_loop
set_priority_loop_keeps zero i g first value cpu is_local = (refl, refl)
set_priority_loop_keeps (suc left) i g first value cpu is_local =
    let h = put_priority g (first + i) (field value (i * 8) 8) cpu is_local in
    ground (
      arith,
      put_priority_keeps g (first + i) (field value (i * 8) 8) cpu is_local,
      set_priority_loop_keeps left (i + 1) h first value cpu is_local,
    )

pub set_priority_range-Step :
    (g : Gic)
    → g.state_epoch + 1 < u64_mod
    → (first value cpu : ℕ) (is_local : Bool)
    → Step 1 g (set_priority_range g first value cpu is_local)
unfolding set_priority_range
set_priority_range-Step g room first value cpu is_local =
    let k = set_priority_loop_keeps 4 0 g first value cpu is_local in
    Moves-Step g _ room (inr (k.0, rw k.1))

pub send_sgi_loop-Step :
    (left cpu : ℕ) (g : Gic) (source value intid : ℕ)
    → g.state_epoch + left < u64_mod
    → Step left g (send_sgi_loop left cpu g source value intid)
unfolding send_sgi_loop
send_sgi_loop-Step zero cpu g source value intid room = stay 0 g
send_sgi_loop-Step (suc left) cpu g source value intid room = widen (omega arith) (
    seq 1 left g _ _ (omega arith)
      (branch (sgi_targets g source value cpu) _ _
        (set_local_pending_bit-Step g (omega arith) cpu intid true) (stay 1 g))
      (λ r. send_sgi_loop-Step left (cpu + 1) _ source value intid r))

pub send_sgi-Step :
    (g : Gic) (source value : ℕ)
    → g.state_epoch + g.cpu_count < u64_mod
    → Step g.cpu_count g (send_sgi g source value)
unfolding send_sgi
send_sgi-Step g source value room =
    branch (leb 16 (field value 24 4)) _ _ (stay _ g)
      (send_sgi_loop-Step g.cpu_count 0 g source value (field value 24 4) room)

pub set_cpu_affinity-Step : (g : Gic) (cpu mpidr : ℕ) → Step 0 g (set_cpu_affinity g cpu mpidr)
unfolding set_cpu_affinity
set_cpu_affinity-Step g cpu mpidr = quiet_local g cpu _ refl refl refl
