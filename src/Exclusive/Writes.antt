-- ===== src/Exclusive/Writes.antt =====
-- src/cpu.cpp: a reservation and the stores of the other processors.
use aarchvm.Base.{
  ℕ, zero, suc, ◌+◌, ◌<◌, ◌≤◌, ◌≡◌, refl, sym, ap, ◌∙◌, min, Bool, true, false, not, ◌&&◌, ◌||◌,
  ltb, leb, ◌==◌, if◌then◌else◌, u64_mod, List, [], ◌∷◌, Bool-cases, inl, inr, arith,
}
use aarchvm.Exclusive.{
  Monitor, ranges_overlap, clear_exclusive_monitor, overlaps_from, exclusive_monitor_overlaps,
  notify_external_memory_write,
}

-- A store of another processor: its first address and its size.
pub record Write : Type 0 where
  pub pa : ℕ
  pub size : ℕ

-- The store touches the byte.
abbrev pub touches : Write → ℕ → Bool
touches w at = leb w.pa at && ltb at (w.pa + w.size)

-- The store touches one of the first bytes of a reservation.
unfoldable pub touches_any : (ℕ → ℕ) → ℕ → Write → Bool
touches_any addrs zero w = false
touches_any addrs (suc count) w = touches_any addrs count w || touches w (addrs count)

unfoldable pub any_touches : (ℕ → ℕ) → ℕ → List Write → Bool
any_touches addrs count [] = false
any_touches addrs count (w ∷ ws) = touches_any addrs count w || any_touches addrs count ws

unfoldable pub notify_all : Monitor → List Write → Monitor
notify_all m [] = m
notify_all m (w ∷ ws) = notify_all (notify_external_memory_write m w.pa w.size) ws

-- The stores end below the last address.
unfoldable pub all_end : List Write → Bool
all_end [] = true
all_end (w ∷ ws) = ltb (w.pa + w.size) u64_mod && all_end ws

overlap_touches :
    (at : ℕ) (w : Write)
    → at + 1 < u64_mod
    → w.pa + w.size < u64_mod
    → (w.size == 0) ≡ false
    → ranges_overlap at 1 w.pa w.size ≡ touches w at
unfolding ranges_overlap
overlap_touches at w p q r = ground arith

overlaps_touches :
    (addrs : ℕ → ℕ) (count : ℕ) (w : Write)
    → ((i : ℕ) → addrs i + 1 < u64_mod)
    → w.pa + w.size < u64_mod
    → (w.size == 0) ≡ false
    → overlaps_from addrs count w.pa w.size ≡ touches_any addrs count w
unfolding overlaps_from touches_any
overlaps_touches addrs zero w p q r = refl
overlaps_touches addrs (suc count) w p q r =
    rw (overlaps_touches addrs count w p q r, overlap_touches (addrs count) w (p count) q r) refl

empty_touches :
    (addrs : ℕ → ℕ) (count : ℕ) (w : Write)
    → (w.size == 0) ≡ true
    → touches_any addrs count w ≡ false
unfolding touches_any
empty_touches addrs zero w h = refl
empty_touches addrs (suc count) w h = ground (arith, empty_touches addrs count w h, h)

-- Of a held reservation, what one store asks.
asked :
    (m : Monitor) (w : Write)
    → m.exclusive_valid ≡ true
    → m.exclusive_pa_count ≤ 16
    → ((i : ℕ) → m.exclusive_phys_addrs i + 1 < u64_mod)
    → w.pa + w.size < u64_mod
    → exclusive_monitor_overlaps m w.pa w.size
      ≡ touches_any m.exclusive_phys_addrs m.exclusive_pa_count w
unfolding exclusive_monitor_overlaps
asked m w v c p q =
    let few : min m.exclusive_pa_count 16 ≡ m.exclusive_pa_count = omega arith in
    elim (Bool-cases (w.size == 0)) [
      | inl empty ↦
          rw (v, empty) (sym (empty_touches m.exclusive_phys_addrs m.exclusive_pa_count w empty))
      | inr some_bytes ↦
          rw (v, some_bytes, few)
            (overlaps_touches m.exclusive_phys_addrs m.exclusive_pa_count w p q some_bytes)
    ]

idle :
    (m : Monitor) (pa size : ℕ)
    → m.exclusive_valid ≡ false
    → exclusive_monitor_overlaps m pa size ≡ false
unfolding exclusive_monitor_overlaps
idle m pa size v = rw v refl

lost : Monitor → Monitor
lost m = clear_exclusive_monitor (record m { event_register = true })

notified :
    (m : Monitor) (w : Write) (hit : Bool)
    → exclusive_monitor_overlaps m w.pa w.size ≡ hit
    → notify_external_memory_write m w.pa w.size ≡ (if hit then lost m else m)
unfolding notify_external_memory_write lost
notified m w hit e = ap (λ h. if h then lost m else m) e

-- A cleared reservation stays cleared.
cleared_stays :
    (m : Monitor) (ws : List Write)
    → m.exclusive_valid ≡ false
    → (notify_all m ws).exclusive_valid ≡ false
unfolding notify_all
cleared_stays m [] v = v
cleared_stays m (w ∷ ws) v =
    ap (λ k. (notify_all k ws).exclusive_valid) (notified m w false (idle m w.pa w.size v))
    ∙ cleared_stays m ws v

cleared_flag : (m : Monitor) → (lost m).exclusive_valid ≡ false
unfolding clear_exclusive_monitor lost
cleared_flag m = refl

-- A reservation of at most 16 bytes is held after any stores of other processors exactly where none of
-- them touches one of its bytes. No byte is the last of the address space, and no store reaches it.
pub notify_all-exclusive_valid :
    (m : Monitor) (ws : List Write)
    → m.exclusive_valid ≡ true
    → m.exclusive_pa_count ≤ 16
    → ((i : ℕ) → m.exclusive_phys_addrs i + 1 < u64_mod)
    → all_end ws ≡ true
    → (notify_all m ws).exclusive_valid
      ≡ not (any_touches m.exclusive_phys_addrs m.exclusive_pa_count ws)
unfolding notify_all any_touches all_end
notify_all-exclusive_valid m [] v c p ends = v
notify_all-exclusive_valid m (w ∷ ws) v c p ends =
    let below : w.pa + w.size < u64_mod = ground (arith, ends) in
    let rest : all_end ws ≡ true = ground (arith, ends) in
    elim (Bool-cases (touches_any m.exclusive_phys_addrs m.exclusive_pa_count w)) [
      | inl hit ↦
          let gone = notified m w true (asked m w v c p below ∙ hit) in
          rw hit (
            ap (λ k. (notify_all k ws).exclusive_valid) gone
            ∙ cleared_stays (lost m) ws (cleared_flag m))
      | inr miss ↦
          let kept = notified m w false (asked m w v c p below ∙ miss) in
          rw miss (
            ap (λ k. (notify_all k ws).exclusive_valid) kept
            ∙ notify_all-exclusive_valid m ws v c p rest)
    ]
