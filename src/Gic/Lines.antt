-- ===== src/Gic/Lines.antt =====
-- src/gicv3.cpp: interrupts that are raised and ended. `set_pending`, `set_level`, `send_sgi`, `eoi`.
use aarchvm.Base.{
  ℕ, zero, suc, ◌+◌, Bool, true, false, not, ◌&&◌, ◌||◌, ltb, leb, same, ◌==◌, if◌then◌else◌,
  update, bit, field,
}
use aarchvm.Gic.{
  Gic, num_int_ids, local_cpu, put_local, touch, is_local_intid, spi_index, set_local_pending_bit,
  set_local_active_bit, set_spi_pending_bit, set_spi_active_bit,
}

unfoldable pub set_pending : Gic → ℕ → ℕ → Gic
set_pending g cpu intid =
    if is_local_intid intid
    then set_local_pending_bit g cpu intid true
    else set_spi_pending_bit g intid true

-- `set_pending(intid)`, for the first CPU.
unfoldable pub set_pending_any : Gic → ℕ → Gic
set_pending_any g intid =
    if is_local_intid intid then set_pending g 0 intid else set_spi_pending_bit g intid true

abbrev pub count_set_level : Gic → Gic
count_set_level g = record g {
  perf = record (g.perf) { set_level_calls = g.perf.set_level_calls + 1 };
}

-- A level that has changed is recorded, and pends the interrupt if it rises while not active.
unfoldable pub latch_spi_level : Gic → ℕ → Bool → Gic
latch_spi_level g intid asserted =
    touch (record g { spi_line_level = update g.spi_line_level (spi_index intid) asserted })

unfoldable pub latch_local_level : Gic → ℕ → ℕ → Bool → Gic
latch_local_level g cpu intid asserted =
    let l = local_cpu g cpu in
    touch (put_local g cpu (record l { line_level = update l.line_level intid asserted }))

-- The part of `set_level(intid, asserted)` that is for a shared interrupt.
unfoldable pub set_spi_level : Gic → ℕ → Bool → Gic
set_spi_level g intid asserted =
    if leb num_int_ids intid || same (g.spi_line_level (spi_index intid)) asserted
    then g
    else (let g' = latch_spi_level g intid asserted in
        if asserted && not (g'.spi_active (spi_index intid))
        then set_spi_pending_bit g' intid true
        else g')

-- The part of `set_level(cpu_index, intid, asserted)` that is for an interrupt of one CPU.
unfoldable pub set_local_level : Gic → ℕ → ℕ → Bool → Gic
set_local_level g cpu intid asserted =
    if same ((local_cpu g cpu).line_level intid) asserted
    then g
    else (let g' = latch_local_level g cpu intid asserted in
        if asserted && not ((local_cpu g' cpu).active intid)
        then set_local_pending_bit g' cpu intid true
        else g')

-- `set_level(cpu_index, intid, asserted)`: a shared interrupt goes on to the other overload, which
-- counts a second call.
unfoldable pub set_level : Gic → ℕ → ℕ → Bool → Gic
set_level g cpu intid asserted =
    let counted = count_set_level g in
    if is_local_intid intid
    then set_local_level counted cpu intid asserted
    else set_spi_level (count_set_level counted) intid asserted

-- `set_level(intid, asserted)`: an interrupt of one CPU goes on to the other overload, for CPU 0.
unfoldable pub set_level_any : Gic → ℕ → Bool → Gic
set_level_any g intid asserted =
    let counted = count_set_level g in
    if is_local_intid intid
    then set_level counted 0 intid asserted
    else set_spi_level counted intid asserted

unfoldable pub match_affinity : Gic → ℕ → ℕ → ℕ → ℕ → Bool
match_affinity g cpu aff3 aff2 aff1 =
    let mpidr = (local_cpu g cpu).mpidr in
    field mpidr 32 8 == aff3 && (field mpidr 16 8 == aff2 && field mpidr 8 8 == aff1)

-- Whether the request `value` of CPU `source` is for `cpu`.
unfoldable pub sgi_targets : Gic → ℕ → ℕ → ℕ → Bool
sgi_targets g source value cpu =
    if bit value 40
    then not (cpu == source)
    else (let aff0 = field (local_cpu g cpu).mpidr 0 8 in
        match_affinity g cpu (field value 48 8) (field value 32 8) (field value 16 8)
        && (ltb aff0 16 && bit (field value 0 16) aff0))

-- The loop of `send_sgi`, `left` CPUs from `cpu` on.
unfoldable pub send_sgi_loop : ℕ → ℕ → Gic → ℕ → ℕ → ℕ → Gic
send_sgi_loop zero cpu g source value intid = g
send_sgi_loop (suc left) cpu g source value intid =
    send_sgi_loop left (cpu + 1)
      (if sgi_targets g source value cpu then set_local_pending_bit g cpu intid true else g) source
      value intid

unfoldable pub send_sgi : Gic → ℕ → ℕ → Gic
send_sgi g source value =
    let intid = field value 24 4 in
    if leb 16 intid then g else send_sgi_loop g.cpu_count 0 g source value intid

unfoldable pub eoi : Gic → ℕ → ℕ → Gic
eoi g cpu intid =
    if is_local_intid intid
    then (let g' = set_local_active_bit g cpu intid false in
        if (local_cpu g' cpu).line_level intid then set_local_pending_bit g' cpu intid true else g')
    else if leb num_int_ids intid
    then g
    else (let g' = set_spi_active_bit g intid false in
        if g'.spi_line_level (spi_index intid) then set_spi_pending_bit g' intid true else g')
