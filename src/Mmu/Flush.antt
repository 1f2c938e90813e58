-- ===== src/Mmu/Flush.antt =====
-- src/cpu.cpp: what a translation finds after an invalidation of the lookaside buffer.
use aarchvm.Base.{
  ℕ, ◌/◌, ◌^◌, ◌≡◌, refl, ◌∙◌, Bool, true, false, Option, none, ◌⊎◌, List, [], ◌∷◌, arith,
  Bool-cases, inl, inr,
}
use aarchvm.Mmu.{
  AccessType, Regs, mask_asid, current_translation_asid, normalize_stage1_address, mmu_enabled,
}
use aarchvm.Mmu.Tlb.{
  TlbEntry, Tlb, tlb_lookup, lookup_loop, skipped, private_hit, keep_global, drop_entry,
  drop_entries, drop_all, tlb_flush_va, tlb_invalidate_page, page_test, tlb_entry_matches_asid,
  tlb_entry_covers_va_page, tlbi_operand_asid, tlbi_operand_va_page, tlb_set_index,
}
use aarchvm.Mmu.Translate.{is_hot, hot_entry, find_entry, page_of, translate_address, walk_and_fill}

-- The test takes every entry that could answer for the page in the address space.
Takes : (TlbEntry → Bool) → ℕ → ℕ → Type 0
Takes test page asid =
    (e : TlbEntry) → e.va_page ≡ page → tlb_entry_matches_asid e asid ≡ true → test e ≡ true

drop_entry-skipped :
    (test : TlbEntry → Bool) (page asid : ℕ) (e : TlbEntry)
    → Takes test page asid
    → (skipped page (drop_entry test e) ≡ true)
      ⊎ ((private_hit asid (drop_entry test e) ≡ false)
          × ((drop_entry test e).attrs.global_entry ≡ false))
unfolding skipped drop_entry private_hit Takes tlb_entry_matches_asid
drop_entry-skipped test page asid e k = ground (arith, k e)

lookup_loop-drop_entries :
    (test : TlbEntry → Bool) (page asid : ℕ) (es : List TlbEntry)
    → Takes test page asid
    → lookup_loop page asid none (drop_entries test es) ≡ none
unfolding lookup_loop drop_entries keep_global
lookup_loop-drop_entries test page asid [] k = refl
lookup_loop-drop_entries test page asid (e ∷ es) k =
    ground
      (arith, drop_entry-skipped test page asid e k, lookup_loop-drop_entries test page asid es k)

is_hot-drop_entry :
    (test : TlbEntry → Bool) (page asid : ℕ) (e : TlbEntry)
    → Takes test page asid
    → is_hot (drop_entry test e) page asid ≡ false
unfolding is_hot drop_entry Takes tlb_entry_matches_asid
is_hot-drop_entry test page asid e k = ground (arith, k e)

find_entry-drop_all :
    (test : TlbEntry → Bool) (t : Tlb) (access : AccessType) (page asid : ℕ)
    → Takes test page asid
    → find_entry (drop_all test t) access page asid ≡ (none, drop_all test t)
unfolding find_entry drop_all hot_entry tlb_lookup
find_entry-drop_all test t access page asid k = ground (
  arith,
  is_hot-drop_entry test page asid t.last_fetch k,
  is_hot-drop_entry test page asid t.last_data k,
  lookup_loop-drop_entries test page asid (t.sets (tlb_set_index page)) k,
)

page_test-Takes :
    (page asid page' asid' : ℕ)
    → page ≡ page'
    → asid ≡ asid'
    → Takes (page_test page asid true) page' asid'
unfolding Takes page_test tlb_entry_covers_va_page tlb_entry_matches_asid
page_test-Takes page asid page' asid' p a e h m = rw (p, a, h) (ground (arith, m))

mask_asid_idem : (r : Regs) (x : ℕ) → mask_asid r (mask_asid r x) ≡ mask_asid r x
unfolding mask_asid
mask_asid_idem r x = ground arith

module _ (memory : ℕ → Option ℕ) where
  walked_outcome :
      (r : Regs) (va : ℕ) (access : AccessType) (fill pan : Bool) (t t' : Tlb)
      → (walk_and_fill memory r va access fill pan t).0
        ≡ (walk_and_fill memory r va access fill pan t').0
  unfolding walk_and_fill
  walked_outcome r va access fill pan t t' = ground arith

  translate_address-drop_all :
      (test : TlbEntry → Bool) (r : Regs) (va : ℕ) (access : AccessType) (fill pan : Bool) (t : Tlb)
      → Takes test (page_of (normalize_stage1_address r va)) (current_translation_asid r)
      → (translate_address memory r va access fill true pan (drop_all test t)).0
        ≡ (translate_address memory r va access fill false pan t).0
  unfolding translate_address
  translate_address-drop_all test r va access fill pan t k =
      let find =
        find_entry-drop_all test t access (page_of (normalize_stage1_address r va))
          (current_translation_asid r) k in
      elim (Bool-cases (mmu_enabled r)) [
        | inl m ↦
            rw (find, m) (walked_outcome r (normalize_stage1_address r va) access fill pan _ t)
        | inr m ↦ rw m refl
      ]

  -- After the page of an address was invalidated by `tlb_flush_va` for the current address space, a
  -- translation that may use the lookaside buffer has the outcome of one that walks the tables, for
  -- every access and whatever the buffer held.
  pub tlb_flush_va-translate_address :
      (r : Regs) (va operand : ℕ) (access : AccessType) (fill pan : Bool) (t : Tlb)
      → tlbi_operand_va_page operand ≡ page_of (normalize_stage1_address r va)
      → tlbi_operand_asid r operand ≡ current_translation_asid r
      → (translate_address memory r va access fill true pan (tlb_flush_va r operand t)).0
        ≡ (translate_address memory r va access fill false pan t).0
  unfolding tlb_flush_va tlb_invalidate_page
  tlb_flush_va-translate_address r va operand access fill pan t p a =
      let asid = tlbi_operand_asid r operand in
      translate_address-drop_all (page_test (tlbi_operand_va_page operand) (mask_asid r asid) true)
        r va access fill pan t
        (page_test-Takes (tlbi_operand_va_page operand) (mask_asid r asid)
          (page_of (normalize_stage1_address r va)) (current_translation_asid r) p
          (mask_asid_idem r (operand / 2 ^ 48) ∙ a))
