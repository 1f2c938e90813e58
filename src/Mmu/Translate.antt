-- ===== src/Mmu/Translate.antt =====
-- src/cpu.cpp: `translate_address` and `translate_cache_maintenance_address`.
use aarchvm.Base.{
  ℕ, ◌*◌, ◌/◌, ◌%◌, ◌^◌, Bool, true, false, not, ◌&&◌, ◌==◌, if◌then◌else◌, bit_or, Option, none,
  some,
}
use aarchvm.Mmu.{
  AccessType, read, permission, TranslationResult, Outcome, ok, fault, Regs, mmu_enabled, is_fetch,
  normalize_stage1_address, fill_stage1_disabled_output, current_translation_asid,
}
use aarchvm.Mmu.Access.{access_permitted}
use aarchvm.Mmu.Walk.{Request, walk_page_tables}
use aarchvm.Mmu.Tlb.{
  TlbEntry, Tlb, tlb_lookup, tlb_entry_matches_asid, tlb_insert, tlbi_operand_va_page,
}

-- The entry that answers for the page, and the buffer after it was kept at hand.
unfoldable pub hot_entry : Tlb → AccessType → TlbEntry
hot_entry t access = if is_fetch access then t.last_fetch else t.last_data

unfoldable pub set_hot : Tlb → AccessType → TlbEntry → Tlb
set_hot t access e =
    if is_fetch access then record t { last_fetch = e } else record t { last_data = e }

unfoldable pub is_hot : TlbEntry → ℕ → ℕ → Bool
is_hot e page asid = e.valid && (e.va_page == page && tlb_entry_matches_asid e asid)

unfoldable pub find_entry : Tlb → AccessType → ℕ → ℕ → Option TlbEntry × Tlb
find_entry t access page asid =
    if is_hot (hot_entry t access) page asid
    then (some (hot_entry t access), t)
    else elim (tlb_lookup t page asid) [ none ↦ (none, t) | some e ↦ (some e, set_hot t access e) ]

abbrev pub hit_result : TlbEntry → ℕ → TranslationResult
hit_result e off = record { pa = bit_or (e.pa_page * 2 ^ 12) off; attrs = e.attrs }

unfoldable pub hit_outcome : Regs → TlbEntry → ℕ → AccessType → Bool → Outcome
hit_outcome r e off access apply_pan =
    elim (access_permitted r e.attrs access e.attrs.level apply_pan) [
      | none ↦ ok (hit_result e off)
      | some f ↦ fault f
    ]

abbrev pub page_of : ℕ → ℕ
page_of effective_va = tlbi_operand_va_page (effective_va / 2 ^ 12)

module _ (memory : ℕ → Option ℕ) where
  -- The walk of a miss, and the buffer after it was filled.
  unfoldable pub walk_and_fill : Regs → ℕ → AccessType → Bool → Bool → Tlb → Outcome × Tlb
  walk_and_fill r effective_va access allow_tlb_fill apply_pan t =
      let q : Request = record {
        access = access;
        check_permissions = true;
        apply_pan = apply_pan;
        check_access_flag = true;
      } in
      elim (walk_page_tables memory r q effective_va) [
        | fault f ↦ (fault f, t)
        | ok res ↦ (ok res, if allow_tlb_fill then tlb_insert r (page_of effective_va) res t else t)
      ]

  unfoldable pub translate_address :
      Regs → ℕ → AccessType → Bool → Bool → Bool → Tlb → Outcome × Tlb
  translate_address r va access allow_tlb_fill use_tlb apply_pan t =
      let effective_va = normalize_stage1_address r va in
      let asid = current_translation_asid r in
      let page = page_of effective_va in
      let found = find_entry t access page asid in
      if not (mmu_enabled r)
      then (ok (fill_stage1_disabled_output r effective_va access), t)
      else if use_tlb
      then elim found.0 [
        | some e ↦ (hit_outcome r e (effective_va % 2 ^ 12) access apply_pan, found.1)
        | none ↦ walk_and_fill r effective_va access allow_tlb_fill apply_pan found.1
      ]
      else walk_and_fill r effective_va access allow_tlb_fill apply_pan t

  -- The check of a cache maintenance instruction that EL0 needs read permission.
  unfoldable pub no_el0_permission : Regs → Bool → TranslationResult → Bool
  no_el0_permission r fault_on_el0 res = r.in_el0 && (fault_on_el0 && not res.attrs.user_accessible)

  unfoldable pub maintenance_outcome : Regs → Bool → TranslationResult → Outcome
  maintenance_outcome r fault_on_el0 res =
      if no_el0_permission r fault_on_el0 res
      then fault (record { kind = permission; level = res.attrs.level; is_write = false })
      else ok res

  unfoldable pub maintenance_walk : Regs → ℕ → Bool → Bool → Tlb → Outcome × Tlb
  maintenance_walk r effective_va fault_on_el0 allow_tlb_fill t =
      let q : Request = record {
        access = read;
        check_permissions = false;
        apply_pan = true;
        check_access_flag = true;
      } in
      elim (walk_page_tables memory r q effective_va) [
        | fault f ↦ (fault f, t)
        | ok res ↦ (
          maintenance_outcome r fault_on_el0 res,
          if allow_tlb_fill && not (no_el0_permission r fault_on_el0 res)
              then tlb_insert r (page_of effective_va) res t
              else t,
        )
      ]

  unfoldable pub translate_cache_maintenance_address :
      Regs → ℕ → Bool → Bool → Bool → Tlb → Outcome × Tlb
  translate_cache_maintenance_address r va fault_on_el0 allow_tlb_fill use_tlb t =
      let effective_va = normalize_stage1_address r va in
      let asid = current_translation_asid r in
      let found = find_entry t read (page_of effective_va) asid in
      if not (mmu_enabled r)
      then (ok (fill_stage1_disabled_output r effective_va read), t)
      else if use_tlb
      then elim found.0 [
        | some e ↦
            (maintenance_outcome r fault_on_el0 (hit_result e (effective_va % 2 ^ 12)), found.1)
        | none ↦ maintenance_walk r effective_va fault_on_el0 allow_tlb_fill found.1
      ]
      else maintenance_walk r effective_va fault_on_el0 allow_tlb_fill t
