-- ===== src/Mmu/Cached.antt =====
-- src/cpu.cpp: a translation that the lookaside buffer answers, against the walk it stands for.
use aarchvm.Base.{
  ℕ, ◌+◌, ◌*◌, ◌/◌, ◌%◌, ◌^◌, ◌≡◌, refl, sym, ap, ap₂, ◌∙◌, Bool, true, false, bit_or, Option, none,
  some, arith, bit_or_disjoint,
}
use aarchvm.Mmu.{
  AccessType, Attrs, TranslationResult, Outcome, ok, fault, Regs, mask_asid,
  current_translation_asid, ttbr_asid, normalize_stage1_address, effective_tbi, is_fetch,
  mmu_enabled,
}
use aarchvm.Mmu.Access.{access_permitted}
use aarchvm.Mmu.Walk.{Request, walk_page_tables}
use aarchvm.Mmu.Pages.{to_page, walk_from-page, same_bit_55}
use aarchvm.Mmu.Output.{Sound, walk_page_tables-Sound}
use aarchvm.Mmu.Tlb.{TlbEntry, Tlb, entry_of, tlb_insert, tlb_insert_entry, tlb_entry_matches_asid}
use aarchvm.Mmu.Translate.{
  is_hot, hot_entry, find_entry, page_of, translate_address, walk_and_fill, hit_outcome,
}

normalize-page :
    (r : Regs) (va va' : ℕ)
    → va / 2 ^ 12 ≡ va' / 2 ^ 12
    → normalize_stage1_address r va / 2 ^ 12 ≡ normalize_stage1_address r va' / 2 ^ 12
unfolding normalize_stage1_address effective_tbi
normalize-page r va va' e = rw (same_bit_55 va va' e) (
    ground (
      arith,
      bit_or_disjoint 56 0xFF (va % 2 ^ 56) (omega arith),
      bit_or_disjoint 56 0xFF (va' % 2 ^ 56) (omega arith),
    ))

normalize-offset : (r : Regs) (va : ℕ) → normalize_stage1_address r va % 2 ^ 12 ≡ va % 2 ^ 12
unfolding normalize_stage1_address
normalize-offset r va = ground (arith, bit_or_disjoint 56 0xFF (va % 2 ^ 56) (omega arith))

mask-current : (r : Regs) → mask_asid r (current_translation_asid r) ≡ current_translation_asid r
unfolding current_translation_asid ttbr_asid mask_asid
mask-current r = ground arith

abbrev data_request : AccessType → Bool → Request
data_request access pan = record {
  access = access;
  check_permissions = true;
  apply_pan = pan;
  check_access_flag = true;
}

find_entry-tlb_insert :
    (r : Regs) (page : ℕ) (res : TranslationResult) (t : Tlb) (access : AccessType)
    → is_fetch access ≡ false
    → res.attrs.asid ≡ current_translation_asid r
    → (find_entry (tlb_insert r page res t) access page (current_translation_asid r)).0
      ≡ some (entry_of r page res)
unfolding find_entry hot_entry is_hot tlb_insert tlb_insert_entry tlb_entry_matches_asid
find_entry-tlb_insert r page res t access d a = rw (d, a) (ground (arith, mask-current r))

entry_of-attrs :
    (r : Regs) (page : ℕ) (res : TranslationResult)
    → res.attrs.asid ≡ current_translation_asid r
    → (entry_of r page res).attrs ≡ res.attrs
entry_of-attrs r page res a =
    ap (λ x. record res.attrs { asid = x }) (ap (mask_asid r) a ∙ mask-current r ∙ sym a)

hit_outcome-ok :
    (r : Regs) (e : TlbEntry) (off : ℕ) (access : AccessType) (pan : Bool) (a : Attrs) (pa : ℕ)
    → e.attrs ≡ a
    → access_permitted r a access a.level pan ≡ none
    → bit_or (e.pa_page * 2 ^ 12) off ≡ pa
    → hit_outcome r e off access pan ≡ ok (record { pa = pa; attrs = a })
unfolding hit_outcome
hit_outcome-ok r e off access pan a pa h p o =
    rw (hit_outcome, h, p, o) (ap (λ x. ok (record { pa = pa; attrs = x })) h)

Sound-asid :
    (r : Regs) (q : Request) (va : ℕ) (res : TranslationResult)
    → Sound r q va (ok res)
    → res.attrs.asid ≡ current_translation_asid r
unfolding Sound
Sound-asid r q va res s = s.2

normalize-id : (r : Regs) (va : ℕ) → effective_tbi r va ≡ false → normalize_stage1_address r va ≡ va
unfolding normalize_stage1_address
normalize-id r va h = rw h refl

result_of : TranslationResult → Outcome → TranslationResult
result_of d (ok res) = res
result_of d (fault f) = d

hit-walk :
    (r : Regs) (page nva va : ℕ) (access : AccessType) (pan : Bool) (res : TranslationResult)
    (o : Outcome)
    → to_page (ok res) ≡ to_page o
    → Sound r (data_request access pan) nva (ok res)
    → Sound r (data_request access pan) va o
    → hit_outcome r (entry_of r page res) (va % 2 ^ 12) access pan ≡ o
unfolding Sound result_of
hit-walk r page nva va access pan res (fault f) e s s' = absurd (ground (arith, e))
hit-walk r page nva va access pan res (ok res') e s s' =
    let same_pa : res.pa / 2 ^ 12 ≡ res'.pa / 2 ^ 12 = ap (λ o. (result_of res o).pa) e in
    let same_attrs : res.attrs ≡ res'.attrs = ap (λ o. (result_of res o).attrs) e in
    hit_outcome-ok r (entry_of r page res) (va % 2 ^ 12) access pan res'.attrs res'.pa
      (entry_of-attrs r page res s.2 ∙ same_attrs) s'.3
      (bit_or_disjoint 12 (res.pa / 2 ^ 12) (va % 2 ^ 12) (omega arith)
        ∙ (omega (arith, same_pa, s'.1)))

module _ (memory : ℕ → Option ℕ) where
  walk_page_tables-page :
      (r : Regs) (q : Request) (va va' : ℕ)
      → va / 2 ^ 12 ≡ va' / 2 ^ 12
      → to_page (walk_page_tables memory r q va) ≡ to_page (walk_page_tables memory r q va')
  unfolding walk_page_tables
  walk_page_tables-page r q va va' e =
      walk_from-page memory r q (normalize_stage1_address r va) (normalize_stage1_address r va')
        (normalize-page r va va' e)

  translate_address-walk :
      (r : Regs) (va : ℕ) (access : AccessType) (fill pan : Bool) (t : Tlb)
      → mmu_enabled r ≡ true
      → (translate_address memory r va access fill false pan t).0
        ≡ walk_page_tables memory r (data_request access pan) (normalize_stage1_address r va)
  unfolding translate_address walk_and_fill
  translate_address-walk r va access fill pan t m = rw m (ground arith)

  translate_address-fill :
      (r : Regs) (va : ℕ) (access : AccessType) (pan : Bool) (t : Tlb) (res : TranslationResult)
      → mmu_enabled r ≡ true
      → walk_page_tables memory r (data_request access pan) (normalize_stage1_address r va) ≡ ok res
      → (translate_address memory r va access true false pan t).1
        ≡ tlb_insert r (page_of (normalize_stage1_address r va)) res t
  unfolding translate_address walk_and_fill
  translate_address-fill r va access pan t res m w = rw m (ground (arith, w))

  translate_address-hit :
      (r : Regs) (va : ℕ) (access : AccessType) (fill pan : Bool) (t : Tlb) (e : TlbEntry)
      → mmu_enabled r ≡ true
      → (find_entry t access
          (page_of (normalize_stage1_address r va))
          (current_translation_asid r)).0
        ≡ some e
      → translate_address memory r va access fill true pan t ≡ (
        hit_outcome r e (normalize_stage1_address r va % 2 ^ 12) access pan,
        (find_entry t access
            (page_of (normalize_stage1_address r va))
            (current_translation_asid r)).1,
      )
  unfolding translate_address
  translate_address-hit r va access fill pan t e m f = rw (m, f) refl

  -- Where a walk for data gave a result and filled the lookaside buffer, a translation of any address of
  -- the page for the same access, which the buffer then answers, has the outcome of the walk for that
  -- address: physical address, attributes and permission are those of the tables.
  pub translate_address-refill :
      (r : Regs) (va va' : ℕ) (access : AccessType) (fill pan : Bool) (t : Tlb)
      (res : TranslationResult)
      → mmu_enabled r ≡ true
      → is_fetch access ≡ false
      → va / 2 ^ 12 ≡ va' / 2 ^ 12
      → (translate_address memory r va access true false pan t).0 ≡ ok res
      → (translate_address memory r va' access fill true pan
          (translate_address memory r va access true false pan t).1).0
        ≡ (translate_address memory r va' access fill false pan t).0
  translate_address-refill r va va' access fill pan t res m d e h =
      let q = data_request access pan in
      let nva = normalize_stage1_address r va in
      let nva' = normalize_stage1_address r va' in
      let w = sym (translate_address-walk r va access true pan t m) ∙ h in
      let pages = normalize-page r va va' e in
      let same_page : page_of nva ≡ page_of nva' = ap (λ x. x % 2 ^ 44) pages in
      let sound : Sound r q (normalize_stage1_address r nva) (ok res) =
        rw (sym w) (walk_page_tables-Sound memory r q nva) in
      let outcome = ap to_page (sym w) ∙ walk_page_tables-page r q nva nva' pages in
      let entry = entry_of r (page_of nva) res in
      let filled = tlb_insert r (page_of nva) res t in
      let found =
        ap (λ p. (find_entry filled access p (current_translation_asid r)).0) (sym same_page)
        ∙ find_entry-tlb_insert r (page_of nva) res t access d
            (Sound-asid r q (normalize_stage1_address r nva) res sound) in
      ap (λ x. (translate_address memory r va' access fill true pan x).0)
        (translate_address-fill r va access pan t res m w)
      ∙ ap (λ x. x.0) (translate_address-hit r va' access fill pan filled entry m found)
      ∙ ap (λ x. hit_outcome r entry x access pan) (sym (normalize-offset r nva'))
      ∙ hit-walk r (page_of nva) (normalize_stage1_address r nva) (normalize_stage1_address r nva')
          access pan res (walk_page_tables memory r q nva') outcome sound
          (walk_page_tables-Sound memory r q nva')
      ∙ sym (translate_address-walk r va' access fill pan t m)

  -- With translation on and the top byte not ignored for either address, the lookaside buffer answers an
  -- address and the address with other bits 56 to 63 alike: an entry at hand for the one gives the same
  -- outcome for the other, whatever a walk would say of it.
  pub translate_address-top_byte :
      (r : Regs) (va top : ℕ) (access : AccessType) (fill pan : Bool) (t : Tlb) (e : TlbEntry)
      → mmu_enabled r ≡ true
      → effective_tbi r va ≡ false
      → effective_tbi r (va + top * 2 ^ 56) ≡ false
      → (find_entry t access (page_of va) (current_translation_asid r)).0 ≡ some e
      → translate_address memory r (va + top * 2 ^ 56) access fill true pan t
        ≡ translate_address memory r va access fill true pan t
  translate_address-top_byte r va top access fill pan t e m b b' f =
      let asid = current_translation_asid r in
      let va' = va + top * 2 ^ 56 in
      let low : (v : ℕ) → effective_tbi r v ≡ false → normalize_stage1_address r v ≡ v =
        normalize-id r in
      let page : page_of (normalize_stage1_address r va')
          ≡ page_of (normalize_stage1_address r va) =
        ap page_of (low va' b') ∙ (omega arith) ∙ sym (ap page_of (low va b)) in
      let off : normalize_stage1_address r va' % 2 ^ 12 ≡ normalize_stage1_address r va % 2 ^ 12 =
        ap (λ x. x % 2 ^ 12) (low va' b') ∙ (omega arith) ∙ sym (ap (λ x. x % 2 ^ 12) (low va b)) in
      let found = ap (λ p. (find_entry t access p asid).0) (ap page_of (low va b)) ∙ f in
      translate_address-hit r va' access fill pan t e m
        (ap (λ p. (find_entry t access p asid).0) page ∙ found)
      ∙ ap₂ (λ o p. (hit_outcome r e o access pan, (find_entry t access p asid).1)) off page
      ∙ sym (translate_address-hit r va access fill pan t e m found)
