-- ===== src/Gic/Lifecycle.antt =====
-- src/gicv3.cpp: the life of one interrupt, from the line to its end.
use aarchvm.Base.{
  ℕ, ◌+◌, ◌<◌, ◌≡◌, refl, Bool, true, false, not, ◌&&◌, ◌||◌, ◌==◌, if◌then◌else◌, arith, inl, inr,
  ◌⊎◌,
}
use aarchvm.Gic.{
  Gic, local_cpu, cpu_slot, is_local_intid, spi_index, num_int_ids, set_local_pending_bit,
  set_local_active_bit, set_spi_pending_bit, set_spi_active_bit,
}
use aarchvm.Gic.Query.{priority, take_interrupt, acknowledge}
use aarchvm.Gic.Lines.{
  latch_spi_level, latch_local_level, set_spi_level, set_local_level, set_level, eoi,
}
use aarchvm.Gic.Best.{highest_pending-IsLeast, IsLeast, NoneDeliverable}

-- What a CPU sees of one interrupt: its pending, active and line bits.
pub record View : Type 0 where
  pub is_pending : Bool
  pub is_active : Bool
  pub is_high : Bool

unfoldable pub view : Gic → ℕ → ℕ → View
view g cpu intid =
    let l = local_cpu g cpu in
    if is_local_intid intid
    then record {
      is_pending = l.pending intid;
      is_active = l.active intid;
      is_high = l.line_level intid;
    }
    else record {
      is_pending = g.spi_pending (spi_index intid);
      is_active = g.spi_active (spi_index intid);
      is_high = g.spi_line_level (spi_index intid);
    }

-- The state machine of one interrupt.
pub data Event : Type 0 where
  rise fall accept complete : Event

unfoldable pub react : View → Event → View
react v rise =
    if v.is_high
    then v
    else record v { is_pending = v.is_pending || not v.is_active; is_high = true }
react v fall = record v { is_high = false }
react v accept = record v { is_pending = false; is_active = true }
react v complete = record v { is_pending = v.is_pending || v.is_high; is_active = false }

-- Whether `at` of CPU `on` is the very interrupt `intid` of CPU `cpu`: a shared one is the same for
-- all CPUs.
abbrev pub is_same : Gic → ℕ → ℕ → ℕ → ℕ → Bool
is_same g cpu intid on at =
    intid == at && (not (is_local_intid intid) || cpu_slot g cpu == cpu_slot g on)

abbrev pub React : Gic → Gic → ℕ → ℕ → Event → Type 0
React g h cpu intid e =
    (on at : ℕ)
    → at < num_int_ids
    → view h on at ≡ (if is_same g cpu intid on at then react (view g on at) e else view g on at)

-- A change of an interrupt's line moves that interrupt as `rise` or `fall` of the state machine
-- `react`, and leaves the pending, active and line bits of every other interrupt as they are: of
-- the same number on another CPU, where it is local, too.
pub set_level-React :
    (g : Gic) (cpu intid : ℕ) (on : Bool)
    → intid < num_int_ids
    → React g (set_level g cpu intid on) cpu intid (if on then rise else fall)
unfolding set_level set_spi_level set_local_level latch_spi_level latch_local_level
    set_local_pending_bit set_spi_pending_bit view react
set_level-React g cpu intid on h = λ other at below. ground arith

-- An end of interrupt moves that interrupt as `complete`: it is no longer active, and it is pending
-- again exactly if it was pending or its line is still high. No other interrupt changes.
pub eoi-React :
    (g : Gic) (cpu intid : ℕ) → intid < num_int_ids → React g (eoi g cpu intid) cpu intid complete
unfolding eoi set_local_pending_bit set_spi_pending_bit set_local_active_bit set_spi_active_bit view
    react
eoi-React g cpu intid h = λ other at below. ground arith

pub take_interrupt-React :
    (g : Gic) (cpu intid : ℕ)
    → intid < num_int_ids
    → React g (take_interrupt g cpu intid) cpu intid accept
unfolding take_interrupt set_local_pending_bit set_spi_pending_bit set_local_active_bit
    set_spi_active_bit view react
take_interrupt-React g cpu intid h = λ other at below. ground arith

-- An acknowledge either takes the interrupt that `highest_pending` would name, which alone moves, as
-- `accept`, from pending to active; or it gives 1023 where no interrupt is deliverable, and no
-- interrupt changes.
pub acknowledge-React :
    (g : Gic) (cpu pmr : ℕ)
    → let (found, intid, h) = acknowledge g cpu pmr in
      ((found ≡ true) × IsLeast g cpu pmr intid × React g h cpu intid accept)
      ⊎ ((found ≡ false)
          × (intid ≡ 1023)
          × NoneDeliverable g cpu pmr
          × ((on at : ℕ) → view h on at ≡ view g on at))
unfolding acknowledge
acknowledge-React g cpu pmr =
    let counted = record g {
      perf = record (g.perf) { acknowledge_calls = g.perf.acknowledge_calls + 1 };
    } in
    elim (highest_pending-IsLeast counted cpu pmr) [
      | inl (e, least) ↦ rw e (
          inl (
            refl,
            (unfold priority in least),
            (unfold view in take_interrupt-React counted cpu _ least.0),
          ))
      | inr (e, none_at, none_left) ↦
          rw e (inr (refl, refl, none_left, λ on at. unfold view in refl))
    ]
