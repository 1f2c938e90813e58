-- ===== src/Gic.antt =====
-- src/gicv3.cpp and include/aarchvm/gicv3.hpp: the interrupt controller. Here: the state of a
-- `GicV3` and the accessors that every operation goes through. A fixed array is a function on its
-- index, and `locals_` is the first `cpu_count` values of one. The trace lines on stderr are left out.
pub mod Query
pub mod Lines
pub mod Ranges
pub mod Mmio
pub mod Best
pub mod Cache
pub mod Lifecycle
pub mod Held
pub mod Bitmap
pub mod Priority
pub mod Tests
use aarchvm.Base.{
  ℕ, ◌+◌, ◌-◌, ◌%◌, ◌^◌, Bool, true, false, ltb, leb, same, if◌then◌else◌, update, u64_mod, max,
  min, ◌||◌,
}

abbrev pub num_int_ids : ℕ
num_int_ids = 1024

abbrev pub local_int_ids : ℕ
local_int_ids = 32

abbrev pub first_spi_int_id : ℕ
first_spi_int_id = 32

abbrev pub default_priority : ℕ
default_priority = 0xC0

-- `LocalCpuState`.
pub record LocalCpu : Type 0 where
  pub pending : ℕ → Bool
  pub enabled : ℕ → Bool
  pub active : ℕ → Bool
  pub line_level : ℕ → Bool
  pub priorities : ℕ → ℕ
  pub gicr_waker : ℕ
  pub gicr_igroupr0 : ℕ
  pub gicr_icfgr0 : ℕ
  pub gicr_icfgr1 : ℕ
  pub mpidr : ℕ

pub record PendingQueryCache : Type 0 where
  pub valid : Bool
  pub value : Bool
  pub pmr : ℕ
  pub epoch : ℕ

pub record PerfCounters : Type 0 where
  pub has_pending_calls : ℕ
  pub acknowledge_calls : ℕ
  pub recompute_calls : ℕ
  pub set_level_calls : ℕ

pub record Gic : Type 0 where
  pub cpu_count : ℕ
  pub locals : ℕ → LocalCpu
  pub spi_pending : ℕ → Bool
  pub spi_enabled : ℕ → Bool
  pub spi_active : ℕ → Bool
  pub spi_line_level : ℕ → Bool
  pub spi_priorities : ℕ → ℕ
  pub cache : ℕ → PendingQueryCache
  pub gicd_ctlr : ℕ
  pub state_epoch : ℕ
  pub perf : PerfCounters

abbrev pub fresh_local : LocalCpu
fresh_local = record {
  pending = λ _. false;
  enabled = λ _. false;
  active = λ _. false;
  line_level = λ _. false;
  priorities = λ _. default_priority;
  gicr_waker = 0;
  gicr_igroupr0 = 0xFFFF_FFFF;
  gicr_icfgr0 = 0xAAAA_AAAA;
  gicr_icfgr1 = 0;
  mpidr = 0;
}

abbrev pub empty_cache : PendingQueryCache
empty_cache = record { valid = false; value = false; pmr = 0xFF; epoch = 0 }

-- `++state_epoch_`, on 64 bits.
abbrev pub next_epoch : ℕ → ℕ
next_epoch e = (e + 1) % u64_mod

unfoldable pub set_cpu_count : Gic → ℕ → Gic
set_cpu_count g n = record g {
  cpu_count = max 1 n;
  locals = λ _. fresh_local;
  cache = λ _. empty_cache;
  state_epoch = next_epoch g.state_epoch;
}

-- The initial values of the members.
abbrev pub blank : Gic
blank = record {
  cpu_count = 1;
  locals = λ _. fresh_local;
  spi_pending = λ _. false;
  spi_enabled = λ _. false;
  spi_active = λ _. false;
  spi_line_level = λ _. false;
  spi_priorities = λ _. default_priority;
  cache = λ _. empty_cache;
  gicd_ctlr = 0;
  state_epoch = 1;
  perf = record {
    has_pending_calls = 0;
    acknowledge_calls = 0;
    recompute_calls = 0;
    set_level_calls = 0;
  };
}

-- `GicV3()`.
unfoldable pub fresh : Gic
unfolding set_cpu_count
fresh = set_cpu_count blank 1

-- The index that `local_cpu` and `has_pending` clamp to.
abbrev pub cpu_slot : Gic → ℕ → ℕ
cpu_slot g cpu = min cpu (g.cpu_count - 1)

abbrev pub local_cpu : Gic → ℕ → LocalCpu
local_cpu g cpu = g.locals (cpu_slot g cpu)

abbrev pub put_local : Gic → ℕ → LocalCpu → Gic
put_local g cpu l = record g { locals = update g.locals (cpu_slot g cpu) l }

abbrev pub touch : Gic → Gic
touch g = record g { state_epoch = next_epoch g.state_epoch }

unfoldable pub set_cpu_affinity : Gic → ℕ → ℕ → Gic
set_cpu_affinity g cpu mpidr = put_local g cpu (record (local_cpu g cpu) { mpidr = mpidr })

abbrev pub is_local_intid : ℕ → Bool
is_local_intid intid = ltb intid local_int_ids

abbrev pub spi_index : ℕ → ℕ
spi_index intid = intid - first_spi_int_id

unfoldable pub set_local_pending_bit : Gic → ℕ → ℕ → Bool → Gic
set_local_pending_bit g cpu intid value =
    let l = local_cpu g cpu in
    if leb local_int_ids intid || same (l.pending intid) value
    then g
    else touch (put_local g cpu (record l { pending = update l.pending intid value }))

unfoldable pub set_local_enabled_bit : Gic → ℕ → ℕ → Bool → Gic
set_local_enabled_bit g cpu intid value =
    let l = local_cpu g cpu in
    if leb local_int_ids intid || same (l.enabled intid) value
    then g
    else touch (put_local g cpu (record l { enabled = update l.enabled intid value }))

unfoldable pub set_local_active_bit : Gic → ℕ → ℕ → Bool → Gic
set_local_active_bit g cpu intid value =
    let l = local_cpu g cpu in
    if leb local_int_ids intid || same (l.active intid) value
    then g
    else touch (put_local g cpu (record l { active = update l.active intid value }))

-- The range check of the `set_spi_*_bit` functions.
abbrev pub is_spi : ℕ → Bool
is_spi intid = if ltb intid first_spi_int_id || leb num_int_ids intid then false else true

unfoldable pub set_spi_pending_bit : Gic → ℕ → Bool → Gic
set_spi_pending_bit g intid value =
    if is_spi intid
    then (if same (g.spi_pending (spi_index intid)) value
        then g
        else touch (record g { spi_pending = update g.spi_pending (spi_index intid) value }))
    else g

unfoldable pub set_spi_enabled_bit : Gic → ℕ → Bool → Gic
set_spi_enabled_bit g intid value =
    if is_spi intid
    then (if same (g.spi_enabled (spi_index intid)) value
        then g
        else touch (record g { spi_enabled = update g.spi_enabled (spi_index intid) value }))
    else g

unfoldable pub set_spi_active_bit : Gic → ℕ → Bool → Gic
set_spi_active_bit g intid value =
    if is_spi intid
    then (if same (g.spi_active (spi_index intid)) value
        then g
        else touch (record g { spi_active = update g.spi_active (spi_index intid) value }))
    else g
