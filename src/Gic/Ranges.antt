-- ===== src/Gic/Ranges.antt =====
-- src/gicv3.cpp: the loops that read and write a register's worth of shared interrupts or priorities.
use aarchvm.Base.{
  ℕ, zero, suc, ◌+◌, ◌*◌, ◌^◌, Bool, ◌&&◌, ltb, if◌then◌else◌, update, bit, field, bit_or,
}
use aarchvm.Gic.{
  Gic, num_int_ids, local_int_ids, default_priority, local_cpu, put_local, touch, is_spi, spi_index,
  set_spi_enabled_bit, set_spi_active_bit,
}

-- The loop of `set_spi_enable_range`, `left` bits from `k` on.
unfoldable pub set_spi_enable_loop : ℕ → ℕ → Gic → ℕ → ℕ → Bool → Gic
set_spi_enable_loop zero k g first bits enable = g
set_spi_enable_loop (suc left) k g first bits enable =
    set_spi_enable_loop left (k + 1)
      (if bit bits k && is_spi (first + k) then set_spi_enabled_bit g (first + k) enable else g)
      first bits enable

unfoldable pub set_spi_enable_range : Gic → ℕ → ℕ → Bool → Gic
set_spi_enable_range g first bits enable = set_spi_enable_loop 32 0 g first bits enable

unfoldable pub set_spi_active_loop : ℕ → ℕ → Gic → ℕ → ℕ → Bool → Gic
set_spi_active_loop zero k g first bits value = g
set_spi_active_loop (suc left) k g first bits value =
    set_spi_active_loop left (k + 1)
      (if bit bits k && is_spi (first + k) then set_spi_active_bit g (first + k) value else g) first
      bits value

unfoldable pub set_spi_active_range : Gic → ℕ → ℕ → Bool → Gic
set_spi_active_range g first bits value = set_spi_active_loop 32 0 g first bits value

-- The loops that gather one bit for each of `left` interrupts from bit `k` on, into `value`.
unfoldable pub gather : (ℕ → Bool) → ℕ → ℕ → ℕ → ℕ
gather test zero k value = value
gather test (suc left) k value =
    gather test left (k + 1) (if test k then bit_or value (2 ^ k) else value)

unfoldable pub get_spi_enable_range : Gic → ℕ → ℕ
get_spi_enable_range g first =
    gather (λ k. is_spi (first + k) && g.spi_enabled (spi_index (first + k))) 32 0 0

unfoldable pub get_spi_active_range : Gic → ℕ → ℕ
get_spi_active_range g first =
    gather (λ k. is_spi (first + k) && g.spi_active (spi_index (first + k))) 32 0 0

-- `get_priority_range`: the first CPU's priorities stand for the local interrupts.
abbrev pub dist_priority : Gic → ℕ → ℕ
dist_priority g intid =
    if ltb intid local_int_ids
    then (g.locals 0).priorities intid
    else if ltb intid num_int_ids
    then g.spi_priorities (spi_index intid)
    else default_priority

unfoldable pub get_priority_loop : Gic → ℕ → ℕ → ℕ → ℕ → ℕ
get_priority_loop g first zero i value = value
get_priority_loop g first (suc left) i value =
    get_priority_loop g first left (i + 1)
      (bit_or value (dist_priority g (first + i) * 2 ^ (i * 8)))

unfoldable pub get_priority_range : Gic → ℕ → ℕ
get_priority_range g first = get_priority_loop g first 4 0 0

-- One round of `set_priority_range`.
unfoldable pub put_priority : Gic → ℕ → ℕ → ℕ → Bool → Gic
put_priority g intid prio cpu is_local =
    if is_local
    then (let l = local_cpu g cpu in
        if ltb intid local_int_ids
        then put_local g cpu (record l { priorities = update l.priorities intid prio })
        else g)
    else if is_spi intid
    then record g { spi_priorities = update g.spi_priorities (spi_index intid) prio }
    else g

unfoldable pub set_priority_loop : ℕ → ℕ → Gic → ℕ → ℕ → ℕ → Bool → Gic
set_priority_loop zero i g first value cpu is_local = g
set_priority_loop (suc left) i g first value cpu is_local =
    set_priority_loop left (i + 1) (put_priority g (first + i) (field value (i * 8) 8) cpu is_local)
      first value cpu is_local

-- `set_priority_range` as both callers use it, for the bytes 0 to 3.
unfoldable pub set_priority_range : Gic → ℕ → ℕ → ℕ → Bool → Gic
set_priority_range g first value cpu is_local =
    touch (set_priority_loop 4 0 g first value cpu is_local)
