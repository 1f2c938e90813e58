-- ===== src/Mmu/Tests.antt =====
-- Address translation run on one small set of tables: three levels whose last entry maps the first
-- two megabytes to 0x40000000, for address space 7.
use aarchvm.Base.{
  ℕ, ◌+◌, ◌*◌, ◌^◌, ◌≡◌, refl, true, false, ◌==◌, if◌then◌else◌, bit, Option, none, some,
}
use aarchvm.Mmu.{
  read, write, address_size, TranslationResult, Outcome, ok, fault, Regs, normalize_stage1_address,
  effective_tbi, decode_ips_bits, pa_within_ips, decode_walk_attributes, decode_memory_type,
  ttbr_asid, mask_asid, current_translation_asid,
}
use aarchvm.Mmu.Access.{access_permitted}
use aarchvm.Mmu.Walk.{
  Request, walk_page_tables, walk_from, walk_levels, walk_leaf, leaf_attrs, inherit,
}
use aarchvm.Mmu.Output.{Sound, walk_page_tables-Sound}
use aarchvm.Mmu.Tlb.{
  TlbEntry, Tlb, fresh_tlb, tlb_lookup, tlb_insert_entry, tlb_flush_va, blank_entry,
}
use aarchvm.Mmu.Tlb.Insert.{tlb_insert_entry-tlb_lookup}
use aarchvm.Mmu.Translate.{translate_address, walk_and_fill}
use aarchvm.Mmu.Flush.{tlb_flush_va-translate_address}
use aarchvm.Mmu.Cached.{translate_address-refill}

abbrev regs : Regs
regs = record {
  sctlr = 1;
  tcr = 16 + 5 * 2 ^ 32;
  ttbr0 = 0x1000 + 7 * 2 ^ 48;
  ttbr1 = 0;
  mair = 0xFF;
  id_mmfr0 = 0;
  in_el0 = false;
  pan = false;
}

abbrev tables : ℕ → Option ℕ
tables a =
    if a == 0x1000
    then some 0x2003
    else if a == 0x2000
    then some 0x3003
    else if a == 0x3000
    then some 0x40000C01
    else none

abbrev reading : Request
reading = record {
  access = read;
  check_permissions = true;
  apply_pan = true;
  check_access_flag = true;
}

abbrev pa_of : Outcome → Option ℕ
pa_of (ok res) = some res.pa
pa_of (fault f) = none

abbrev result : TranslationResult
result =
    elim (translate_address tables regs 0x1234 read true false true fresh_tlb).0
      as (λ x. TranslationResult) [
        | ok res ↦ res
        | fault f ↦ record { pa = 0; attrs = blank_entry.attrs }
      ]

abbrev filled : Tlb
filled = (translate_address tables regs 0x1234 read true false true fresh_tlb).1

walk_test : pa_of (walk_page_tables tables regs reading 0x1234) ≡ some 0x40001234
unfolding walk_page_tables walk_from walk_levels walk_leaf leaf_attrs inherit access_permitted
    normalize_stage1_address effective_tbi decode_ips_bits pa_within_ips decode_walk_attributes
    decode_memory_type bit current_translation_asid ttbr_asid mask_asid
walk_test = refl

-- An address beyond the 48 bits.
walk_above_test :
    walk_page_tables tables regs reading (0x1234 + 1 * 2 ^ 56)
    ≡ fault (record { kind = address_size; level = 0; is_write = false })
unfolding walk_page_tables walk_from walk_levels walk_leaf leaf_attrs inherit access_permitted
    normalize_stage1_address effective_tbi decode_ips_bits pa_within_ips decode_walk_attributes
    decode_memory_type bit current_translation_asid ttbr_asid mask_asid
walk_above_test = refl

translated : (translate_address tables regs 0x1234 read true false true fresh_tlb).0 ≡ ok result
unfolding translate_address walk_and_fill walk_page_tables walk_from walk_levels walk_leaf
    leaf_attrs inherit access_permitted normalize_stage1_address effective_tbi decode_ips_bits
    pa_within_ips decode_walk_attributes decode_memory_type bit current_translation_asid ttbr_asid
    mask_asid
translated = refl

walk_page_tables-Sound_example :
    Sound regs reading
      (normalize_stage1_address regs 0x1234)
      (walk_page_tables tables regs reading 0x1234)
walk_page_tables-Sound_example = walk_page_tables-Sound tables regs reading 0x1234

translate_address-refill_example :
    (translate_address tables regs 0x1008 read false true true
      (translate_address tables regs 0x1234 read true false true fresh_tlb).1).0
    ≡ (translate_address tables regs 0x1008 read false false true fresh_tlb).0
unfolding bit
translate_address-refill_example =
    translate_address-refill tables regs 0x1234 0x1008 read false true fresh_tlb result refl refl
      refl translated

tlb_flush_va-translate_address_example :
    (translate_address tables regs 0x1234 write true true true
      (tlb_flush_va regs (1 + 7 * 2 ^ 48) filled)).0
    ≡ (translate_address tables regs 0x1234 write true false true filled).0
unfolding normalize_stage1_address effective_tbi bit current_translation_asid ttbr_asid mask_asid
tlb_flush_va-translate_address_example =
    tlb_flush_va-translate_address tables regs 0x1234 (1 + 7 * 2 ^ 48) write true true filled refl
      refl

abbrev entry : TlbEntry
entry = record blank_entry { pa_page = 0x40001 }

tlb_insert_entry-tlb_lookup_example :
    tlb_lookup (tlb_insert_entry 5 entry fresh_tlb) 5 0
    ≡ some (record entry { valid = true; va_page = 5 })
tlb_insert_entry-tlb_lookup_example = tlb_insert_entry-tlb_lookup 5 entry fresh_tlb refl refl
