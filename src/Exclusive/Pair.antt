-- ===== src/Exclusive/Pair.antt =====
-- src/cpu.cpp: a reservation and the check of a store to the same address.
use aarchvm.Base.{
  ℕ, zero, suc, ◌+◌, ◌%◌, ◌^◌, ◌≤◌, ◌≡◌, refl, ap, ◌∙◌, Bool, true, false, ◌||◌, ltb, ◌==◌,
  if◌then◌else◌, u64_mod, Option, none, some, all_below, Option-cases, inl, inr, arith,
}
use aarchvm.Exclusive.{
  Monitor, clear_exclusive_monitor, set_addr, capture_from, capture_exclusive_phys_addrs,
  set_exclusive_monitor, check_exclusive_monitor, reserve, matched,
}

all_same : (f : ℕ → ℕ) (n : ℕ) → all_below n (λ i. f i == f i) ≡ true
unfolding all_below
all_same f zero = refl
all_same f (suc n) = ground (arith, all_same f n)

cleared_flag : (m : Monitor) → (clear_exclusive_monitor m).exclusive_valid ≡ false
unfolding clear_exclusive_monitor
cleared_flag m = refl

module _ (translate : ℕ → Bool → Option ℕ) (va : ℕ) where
  -- A capture for a store, where the translation answers for a store as for a load.
  capture_same :
      (left i : ℕ) (out : ℕ → ℕ)
      → ((x : ℕ) → translate x true ≡ translate x false)
      → capture_from translate va true left i out ≡ capture_from translate va false left i out
  unfolding capture_from
  capture_same zero i out h = refl
  capture_same (suc left) i out h = elim (Option-cases (translate ((va + i) % u64_mod) false)) [
    | inl fault ↦
        let store_fault = h ((va + i) % u64_mod) ∙ fault in
        rw (capture_from, fault, store_fault) refl
    | inr found ↦
        let store_found = h ((va + i) % u64_mod) ∙ found.1 in
        rw (capture_from, found.1, store_found)
          (capture_same left (i + 1) (set_addr out i (found.0)) h)
  ]

  captures_same :
      (size : ℕ)
      → ((x : ℕ) → translate x true ≡ translate x false)
      → capture_exclusive_phys_addrs translate va size true
        ≡ capture_exclusive_phys_addrs translate va size false
  unfolding capture_exclusive_phys_addrs
  captures_same size h =
      ap (λ r. if size == 0 || ltb 16 size then none else r) (capture_same size 0 (λ i. 0) h)

  captured_size :
      (size : ℕ) (pas : ℕ → ℕ)
      → capture_exclusive_phys_addrs translate va size false ≡ some pas
      → size ≤ 16
  unfolding capture_exclusive_phys_addrs
  captured_size size pas e = ground (arith, e)

  reserved :
      (m : Monitor) (size : ℕ) (o : Option (ℕ → ℕ))
      → ((x : ℕ) → translate x true ≡ translate x false)
      → capture_exclusive_phys_addrs translate va size false ≡ o
      → m.exclusive_valid ≡ false
      → (reserve m va size o).exclusive_valid ≡ true
      → check_exclusive_monitor translate (reserve m va size o) va size ≡ some true
  unfolding reserve check_exclusive_monitor matched
  reserved m size none h e cleared v = absurd (ground (arith, cleared, v))
  reserved m size (some pas) h e cleared v =
      let few = captured_size size pas e in
      let kept : (size % 2 ^ 8 == size) ≡ true = ground (arith, few) in
      rw (kept, captures_same size h ∙ e) (ap some (all_same pas size))

  -- A load-exclusive that takes a reservation lets the check of a store to its address and size
  -- succeed, where the translation answers for a store as for a load.
  pub set_exclusive_monitor-check_exclusive_monitor :
      (m : Monitor) (size : ℕ)
      → ((x : ℕ) → translate x true ≡ translate x false)
      → (set_exclusive_monitor translate m va size).exclusive_valid ≡ true
      → check_exclusive_monitor translate (set_exclusive_monitor translate m va size) va size
        ≡ some true
  unfolding set_exclusive_monitor
  set_exclusive_monitor-check_exclusive_monitor m size h v =
      reserved (clear_exclusive_monitor m) size
        (capture_exclusive_phys_addrs translate va size false) h refl (cleared_flag m) v
