-- ===== src/Mmu/Tlb/Insert.antt =====
-- src/cpu.cpp: what the lookaside buffer finds after an entry was put in.
use aarchvm.Base.{
  ℕ, zero, suc, ◌+◌, ◌%◌, ◌<◌, ◌≡◌, refl, ◌∙◌, Bool, true, false, not, ◌&&◌, Option, none, some,
  List, [], ◌∷◌, arith, update_self, Bool-cases, inl, inr,
}
use aarchvm.Mmu.Tlb.{
  TlbEntry, Tlb, tlb_lookup, lookup_loop, skipped, private_hit, keep_global, replace_first, set_at,
  insert_ways, same_translation, tlb_insert_entry, tlb_set_index, updated,
}

abbrev pub ways_length : List TlbEntry → ℕ
ways_length [] = 0
ways_length (e ∷ es) = suc (ways_length es)

-- The entry answers a search for the page in the address space by itself.
unfoldable pub answers : ℕ → ℕ → TlbEntry → Bool
answers va_page asid e = not (skipped va_page e) && private_hit asid e

lookup_loop-here :
    (page asid : ℕ) (g : Option TlbEntry) (e : TlbEntry) (es : List TlbEntry)
    → answers page asid e ≡ true
    → lookup_loop page asid g (e ∷ es) ≡ some e
unfolding lookup_loop answers
lookup_loop-here page asid g e es h = ground arith

lookup_loop-past :
    (page asid : ℕ) (g : Option TlbEntry) (e : TlbEntry) (es : List TlbEntry)
    → answers page asid e ≡ false
    → lookup_loop page asid g (e ∷ es) ≡ lookup_loop page asid (keep_global page e g) es
unfolding lookup_loop answers
lookup_loop-past page asid g e es h = ground arith

-- The entries of the ways that fail the test do not answer.
Passed : (TlbEntry → Bool) → ℕ → ℕ → List TlbEntry → Type 0
Passed test page asid [] = Unit {0}
Passed test page asid (e ∷ es) =
    (test e ≡ false → answers page asid e ≡ false) × Passed test page asid es

abbrev NoneAnswers : ℕ → ℕ → List TlbEntry → Type 0
NoneAnswers = Passed (λ e. false)

-- What an attempt to put `new` into the ways ends in: it is found, or none of them answers.
abbrev Tried : ℕ → ℕ → Option TlbEntry → TlbEntry → List TlbEntry → Option (List TlbEntry) → Type 0
Tried page asid g new old none = NoneAnswers page asid old
Tried page asid g new old (some es) = lookup_loop page asid g es ≡ some new

every-Passed :
    (test : TlbEntry → Bool) (page asid : ℕ) (es : List TlbEntry)
    → ((e : TlbEntry) → test e ≡ false → answers page asid e ≡ false)
    → Passed test page asid es
unfolding Passed
every-Passed test page asid [] p = _
every-Passed test page asid (e ∷ es) p = (p e, every-Passed test page asid es p)

NoneAnswers-Passed :
    (test : TlbEntry → Bool) (page asid : ℕ) (es : List TlbEntry)
    → NoneAnswers page asid es
    → Passed test page asid es
unfolding Passed
NoneAnswers-Passed test page asid [] p = _
NoneAnswers-Passed test page asid (e ∷ es) p =
    (λ h. p.0 refl, NoneAnswers-Passed test page asid es p.1)

Tried-past :
    (page asid : ℕ) (g : Option TlbEntry) (new e : TlbEntry) (es : List TlbEntry)
    (o : Option (List TlbEntry))
    → answers page asid e ≡ false
    → Tried page asid (keep_global page e g) new es o
    → Tried page asid g new (e ∷ es) (elim o [ none ↦ none | some es' ↦ some (e ∷ es') ])
unfolding Passed
Tried-past page asid g new e es none h p = (λ x. h, p)
Tried-past page asid g new e es (some es') h p = lookup_loop-past page asid g e es' h ∙ p

replace_first-Tried :
    (test : TlbEntry → Bool) (page asid : ℕ) (new : TlbEntry) (g : Option TlbEntry)
    (es : List TlbEntry)
    → answers page asid new ≡ true
    → Passed test page asid es
    → Tried page asid g new es (replace_first test new es)
unfolding replace_first Passed
replace_first-Tried test page asid new g [] h p = _
replace_first-Tried test page asid new g (e ∷ es) h p = elim (Bool-cases (test e)) [
  | inl t ↦ rw t (lookup_loop-here page asid g new es h)
  | inr f ↦ rw f (
      Tried-past page asid g new e es (replace_first test new es) (p.0 f)
        (replace_first-Tried test page asid new (keep_global page e g) es h p.1))
]

set_at-lookup :
    (k page asid : ℕ) (new : TlbEntry) (g : Option TlbEntry) (es : List TlbEntry)
    → answers page asid new ≡ true
    → NoneAnswers page asid es
    → k < ways_length es
    → lookup_loop page asid g (set_at k new es) ≡ some new
unfolding set_at Passed
set_at-lookup k page asid new g [] h p lt = absurd (omega arith)
set_at-lookup zero page asid new g (e ∷ es) h p lt = lookup_loop-here page asid g new es h
set_at-lookup (suc k) page asid new g (e ∷ es) h p lt =
    lookup_loop-past page asid g e (set_at k new es) (p.0 refl)
    ∙ set_at-lookup k page asid new (keep_global page e g) es h p.1 (omega arith)

-- A slot that the insertion passes over as another translation does not answer.
same_translation-answers :
    (page : ℕ) (entry e : TlbEntry)
    → entry.attrs.global_entry ≡ false
    → same_translation page entry e ≡ false
    → answers page entry.attrs.asid e ≡ false
unfolding same_translation answers skipped private_hit
same_translation-answers page entry e h s = ground arith

updated-answers :
    (page : ℕ) (entry : TlbEntry)
    → entry.attrs.global_entry ≡ false
    → answers page entry.attrs.asid (updated page entry) ≡ true
unfolding answers skipped private_hit
updated-answers page entry h = ground arith

-- The three attempts of an insertion, one after the other.
attempts :
    (page asid next : ℕ) (new : TlbEntry) (es : List TlbEntry) (o o' : Option (List TlbEntry))
    → Tried page asid none new es o
    → (NoneAnswers page asid es → Tried page asid none new es o')
    → (NoneAnswers page asid es → lookup_loop page asid none (set_at (next % 4) new es) ≡ some new)
    → lookup_loop page asid none
        (elim o as (λ x. List TlbEntry × ℕ) [
          | some ways ↦ (ways, next)
          | none ↦ elim o' as (λ x. List TlbEntry × ℕ) [
            | some ways ↦ (ways, next)
            | none ↦ (set_at (next % 4) new es, (next + 1) % 4)
          ]
        ]).0
      ≡ some new
attempts page asid next new es (some ways) o' p q z = p
attempts page asid next new es none (some ways) p q z = q p
attempts page asid next new es none none p q z = z p

insert_ways-lookup :
    (page next : ℕ) (entry : TlbEntry) (es : List TlbEntry)
    → ways_length es ≡ 4
    → entry.attrs.global_entry ≡ false
    → lookup_loop page entry.attrs.asid none (insert_ways page entry (updated page entry) next es).0
      ≡ some (updated page entry)
unfolding insert_ways
insert_ways-lookup page next entry es len h =
    let new = updated page entry in
    let asid = entry.attrs.asid in
    let found = updated-answers page entry h in
    let test = same_translation page entry in
    let vacant = λ (e : TlbEntry). not e.valid in
    attempts page asid next new es (replace_first test new es) (replace_first vacant new es)
      (replace_first-Tried test page asid new none es found
        (every-Passed test page asid es (λ e. same_translation-answers page entry e h)))
      (λ p.
        replace_first-Tried vacant page asid new none es found
          (NoneAnswers-Passed vacant page asid es p))
      (λ p. set_at-lookup (next % 4) page asid new none es found p (omega (arith, len)))

-- An entry of one address space that is put in for a page is what a search for the page in that
-- address space finds, with the page as its page and valid, provided the set has its four ways.
pub tlb_insert_entry-tlb_lookup :
    (page : ℕ) (entry : TlbEntry) (t : Tlb)
    → ways_length (t.sets (tlb_set_index page)) ≡ 4
    → entry.attrs.global_entry ≡ false
    → tlb_lookup (tlb_insert_entry page entry t) page entry.attrs.asid
      ≡ some (record entry { valid = true; va_page = page })
unfolding tlb_lookup tlb_insert_entry
tlb_insert_entry-tlb_lookup page entry t len h =
    rw
      (update_self t.sets (tlb_set_index page)
        (insert_ways page entry (updated page entry) (t.next_replace (tlb_set_index page))
          (t.sets (tlb_set_index page))).0)
      (insert_ways-lookup page (t.next_replace (tlb_set_index page)) entry
        (t.sets (tlb_set_index page)) len h)
