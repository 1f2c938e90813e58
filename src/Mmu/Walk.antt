-- ===== src/Mmu/Walk.antt =====
-- src/cpu.cpp: `walk_page_tables`.
use aarchvm.Base.{
  ℕ, zero, suc, ◌+◌, ◌-◌, ◌*◌, ◌/◌, ◌%◌, ◌^◌, Bool, false, not, ◌&&◌, ◌||◌, ltb, leb, ◌==◌,
  if◌then◌else◌, bit, field, bit_or, Option, none, some,
}
use aarchvm.Mmu.{
  AccessType, FaultKind, translation, address_size, access_flag, external_abort_on_walk, TableAttrs,
  Attrs, Outcome, ok, fault, Regs, access_is_write, normalize_stage1_address, decode_ips_bits,
  pa_within_ips, decode_walk_attributes, decode_memory_type, dirty_state_hw_update_enabled,
  current_translation_asid,
}
use aarchvm.Mmu.Access.{access_permitted}

abbrev pub walk_fault : FaultKind → ℕ → Bool → Outcome
walk_fault kind level is_write = fault (record { kind = kind; level = level; is_write = is_write })

-- `desc & 0x0000FFFFFFFFF000`.
abbrev pub output_address : ℕ → ℕ
output_address desc = field desc 12 36 * 2 ^ 12

-- What the caller asks of a walk.
pub record Request : Type 0 where
  pub access : AccessType
  pub check_permissions : Bool
  pub apply_pan : Bool
  pub check_access_flag : Bool

abbrev pub no_inherited : TableAttrs
no_inherited = record { write_protect = false; user_no_access = false; pxn = false; uxn = false }

-- The restrictions that a table descriptor adds.
unfoldable pub inherit : TableAttrs → ℕ → TableAttrs
inherit t desc = record {
  write_protect = t.write_protect || bit desc 62;
  user_no_access = t.user_no_access || bit desc 61;
  pxn = t.pxn || bit desc 59;
  uxn = t.uxn || bit desc 60;
}

-- The attributes of a page or block descriptor at `level`.
unfoldable pub leaf_attrs : Regs → Bool → TableAttrs → ℕ → ℕ → Attrs
leaf_attrs r va_upper t level desc =
    let ap = field desc 6 2 in
    let leaf_ro = bit ap 1 in
    let attr_index = field desc 2 3 in
    let mair_attr = field r.mair (attr_index * 8) 8 in
    let dbm_writeable = leaf_ro && (bit desc 51 && dirty_state_hw_update_enabled r) in
    record {
      asid = current_translation_asid r;
      level = level;
      attr_index = attr_index;
      mair_attr = mair_attr;
      global_entry = not (bit desc 11);
      writable = not (t.write_protect || (leaf_ro && not dbm_writeable));
      user_accessible = not t.user_no_access && bit ap 0;
      executable = not (bit desc 53 || t.pxn);
      pxn = bit desc 53 || t.pxn;
      uxn = bit desc 54 || t.uxn;
      memory_type = decode_memory_type mair_attr;
      leaf_shareability = field desc 8 2;
      walk_attrs = decode_walk_attributes r va_upper;
    }

-- A leaf whose address has `12 + 9 * n` offset bits: a page at level 3 (`n` is 0), else a block.
unfoldable pub walk_leaf : Regs → Request → ℕ → Bool → TableAttrs → ℕ → ℕ → Outcome
walk_leaf r q va va_upper t n desc =
    let is_write = access_is_write q.access in
    let level = 3 - n in
    let base = output_address desc / 2 ^ (12 + 9 * n) * 2 ^ (12 + 9 * n) in
    let attrs = leaf_attrs r va_upper t level desc in
    if not (pa_within_ips base (decode_ips_bits r))
    then walk_fault address_size level is_write
    else if q.check_access_flag && not (bit desc 10)
    then walk_fault access_flag level is_write
    else (let done = ok (record { pa = bit_or base (va % 2 ^ (12 + 9 * n)); attrs = attrs }) in
        if q.check_permissions
        then elim (access_permitted r attrs q.access level q.apply_pan) [
          | none ↦ done
          | some f ↦ fault f
        ]
        else done)

module _ (memory : ℕ → Option ℕ) where
  -- The loop over the levels; `suc n` levels are left, the next being level `3 - n`.
  unfoldable pub walk_levels : Regs → Request → ℕ → Bool → ℕ → ℕ → TableAttrs → Outcome
  walk_levels r q va va_upper zero table_base t = walk_fault translation 0 false
  walk_levels r q va va_upper (suc n) table_base t =
      let is_write = access_is_write q.access in
      let level = 3 - n in
      elim (memory (table_base + field va (12 + 9 * n) 9 * 8)) [
        | none ↦ walk_fault external_abort_on_walk level is_write
        | some desc ↦
            let next = walk_levels r q va va_upper n (output_address desc) (inherit t desc) in
            if not (bit desc 0)
            then walk_fault translation level is_write
            else if n == 0
            then (if bit desc 1
                then walk_leaf r q va va_upper t n desc
                else walk_fault translation level is_write)
            else if bit desc 1
            then (if pa_within_ips (output_address desc) (decode_ips_bits r)
                then next
                else walk_fault address_size level is_write)
            else if level == 0
            then walk_fault translation level is_write
            else walk_leaf r q va va_upper t n desc
      ]

  -- `va` is the address after `normalize_stage1_address`.
  unfoldable pub walk_from : Regs → Request → ℕ → Outcome
  walk_from r q va =
      let is_write = access_is_write q.access in
      let va_upper = bit va 63 in
      let txsz = if va_upper then field r.tcr 16 6 else field r.tcr 0 6 in
      let va_bits = 64 - txsz in
      let tg = if va_upper then field r.tcr 30 2 else field r.tcr 14 2 in
      let epd = if va_upper then bit r.tcr 23 else bit r.tcr 7 in
      let table_base = output_address (if va_upper then r.ttbr1 else r.ttbr0) in
      let levels = if leb va_bits 12 then 1 else (va_bits - 12 + 8) / 9 in
      if ltb 39 txsz
      then walk_fault address_size 0 is_write
      else if ltb va_bits 12 || ltb 48 va_bits
      then walk_fault address_size 0 is_write
      else if not (tg == (if va_upper then 2 else 0))
      then walk_fault translation 0 is_write
      else if epd
      then walk_fault translation 0 is_write
      else if not va_upper && leb (2 ^ va_bits) va
      then walk_fault address_size 0 is_write
      else if va_upper && not (va / 2 ^ va_bits == 2 ^ (64 - va_bits) - 1)
      then walk_fault address_size 0 is_write
      else if not (pa_within_ips table_base (decode_ips_bits r))
      then walk_fault address_size 0 is_write
      else if ltb 3 (4 - levels)
      then walk_fault translation 0 is_write
      else walk_levels r q va va_upper levels table_base no_inherited

  unfoldable pub walk_page_tables : Regs → Request → ℕ → Outcome
  walk_page_tables r q va = walk_from r q (normalize_stage1_address r va)
