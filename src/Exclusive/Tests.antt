-- ===== src/Exclusive/Tests.antt =====
-- A reservation of four bytes, under a translation that maps each address to itself.
use aarchvm.Base.{
  ℕ, ◌+◌, ◌%◌, ◌≡◌, refl, Bool, true, false, not, Option, some, List, [], ◌∷◌, arith,
}
use aarchvm.Exclusive.{
  Monitor, capture_from, capture_exclusive_phys_addrs, set_exclusive_monitor,
  check_exclusive_monitor, reserve,
}
use aarchvm.Exclusive.Writes.{Write, any_touches, notify_all, all_end, notify_all-exclusive_valid}
use aarchvm.Exclusive.Pair.{set_exclusive_monitor-check_exclusive_monitor}

abbrev identity : ℕ → Bool → Option ℕ
identity va write = some va

abbrev held : Monitor
held = record {
  exclusive_valid = true;
  exclusive_addr = 0x1000;
  exclusive_size = 4;
  exclusive_pa_count = 4;
  exclusive_phys_addrs = λ i. 0x1000 + i % 16;
  event_register = false;
}

abbrev two_writes : List Write
two_writes = record { pa = 0x1004; size = 8 } ∷ record { pa = 0x0FFE; size = 3 } ∷ []

notify_all-exclusive_valid_example :
    (notify_all held two_writes).exclusive_valid
    ≡ not (any_touches held.exclusive_phys_addrs held.exclusive_pa_count two_writes)
unfolding all_end
notify_all-exclusive_valid_example =
    notify_all-exclusive_valid held two_writes refl (omega arith) (λ i. omega arith) refl

set_exclusive_monitor-check_exclusive_monitor_example :
    check_exclusive_monitor identity (set_exclusive_monitor identity held 0x2000 8) 0x2000 8
    ≡ some true
unfolding set_exclusive_monitor capture_exclusive_phys_addrs capture_from reserve
set_exclusive_monitor-check_exclusive_monitor_example =
    set_exclusive_monitor-check_exclusive_monitor identity 0x2000 held 8 (λ x. refl) refl
