-- ===== src/Exclusive.antt =====
-- src/cpu.cpp: the exclusive monitor of a processor. The translation of a data address is a parameter:
-- its answer for an address and whether it is for a store. The faults that it notes, and the decoded
-- instructions that an external store drops, are left out.
pub mod Pair
pub mod Writes
pub mod Tests
use aarchvm.Base.{
  ℕ, zero, suc, ◌+◌, ◌%◌, ◌^◌, min, Bool, true, false, not, ◌&&◌, ◌||◌, ltb, ◌==◌, if◌then◌else◌,
  u64_mod, Option, none, some, List, [], ◌∷◌, all_below,
}

pub record Monitor : Type 0 where
  pub exclusive_valid : Bool
  pub exclusive_addr : ℕ
  pub exclusive_size : ℕ
  pub exclusive_pa_count : ℕ
  pub exclusive_phys_addrs : ℕ → ℕ
  pub event_register : Bool

unfoldable pub ranges_overlap : ℕ → ℕ → ℕ → ℕ → Bool
ranges_overlap a_base a_size b_base b_size =
    if a_size == 0 || b_size == 0
    then false
    else ltb a_base ((b_base + b_size) % u64_mod) && ltb b_base ((a_base + a_size) % u64_mod)

unfoldable pub clear_exclusive_monitor : Monitor → Monitor
clear_exclusive_monitor m = record m {
  exclusive_valid = false;
  exclusive_addr = 0;
  exclusive_size = 0;
  exclusive_pa_count = 0;
  exclusive_phys_addrs = λ i. 0;
}

-- The loop of `exclusive_monitor_overlaps`.
unfoldable pub overlaps_from : (ℕ → ℕ) → ℕ → ℕ → ℕ → Bool
overlaps_from addrs zero pa size = false
overlaps_from addrs (suc count) pa size =
    overlaps_from addrs count pa size || ranges_overlap (addrs count) 1 pa size

unfoldable pub exclusive_monitor_overlaps : Monitor → ℕ → ℕ → Bool
exclusive_monitor_overlaps m pa size =
    if not m.exclusive_valid || size == 0
    then false
    else overlaps_from m.exclusive_phys_addrs (min m.exclusive_pa_count 16) pa size

unfoldable pub notify_external_memory_write : Monitor → ℕ → ℕ → Monitor
notify_external_memory_write m pa size =
    if exclusive_monitor_overlaps m pa size
    then clear_exclusive_monitor (record m { event_register = true })
    else m

abbrev pub set_addr : (ℕ → ℕ) → ℕ → ℕ → ℕ → ℕ
set_addr addrs i pa j = if j == i then pa else addrs j

-- What a capture leaves of a cleared monitor.
unfoldable pub reserve : Monitor → ℕ → ℕ → Option (ℕ → ℕ) → Monitor
reserve cleared va size none = cleared
reserve cleared va size (some pas) = record cleared {
  exclusive_valid = true;
  exclusive_addr = va;
  exclusive_size = size % 2 ^ 8;
  exclusive_pa_count = size % 2 ^ 8;
  exclusive_phys_addrs = pas;
}

-- `none` where the translation fails, otherwise whether the addresses are the reserved ones.
unfoldable pub matched : (ℕ → ℕ) → ℕ → Option (ℕ → ℕ) → Option Bool
matched addrs size none = none
matched addrs size (some current_pas) = some (all_below size (λ i. current_pas i == addrs i))

module _ (translate_data_address_fast : ℕ → Bool → Option ℕ) where
  -- The loop of `capture_exclusive_phys_addrs`, with the bytes left.
  unfoldable pub capture_from : ℕ → Bool → ℕ → ℕ → (ℕ → ℕ) → Option (ℕ → ℕ)
  capture_from va write zero i out_pas = some out_pas
  capture_from va write (suc left) i out_pas =
      elim (translate_data_address_fast ((va + i) % u64_mod) write) [
        | none ↦ none
        | some pa ↦ capture_from va write left (i + 1) (set_addr out_pas i pa)
      ]

  unfoldable pub capture_exclusive_phys_addrs : ℕ → ℕ → Bool → Option (ℕ → ℕ)
  capture_exclusive_phys_addrs va size write =
      if size == 0 || ltb 16 size then none else capture_from va write size 0 (λ i. 0)

  unfoldable pub set_exclusive_monitor : Monitor → ℕ → ℕ → Monitor
  set_exclusive_monitor m va size =
      reserve (clear_exclusive_monitor m) va size (capture_exclusive_phys_addrs va size false)

  unfoldable pub check_exclusive_monitor : Monitor → ℕ → ℕ → Option Bool
  check_exclusive_monitor m va size =
      if not m.exclusive_valid
        || (not (m.exclusive_size == size) || not (m.exclusive_pa_count == size))
      then some false
      else matched m.exclusive_phys_addrs size (capture_exclusive_phys_addrs va size true)
