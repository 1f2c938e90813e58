-- ===== src/Mmu/Tlb.antt =====
-- src/cpu.cpp and include/aarchvm/cpu.hpp: the translation lookaside buffer, 1024 sets (`kTlbSets`)
-- of four ways (`kTlbWays`) behind one entry kept at hand for fetches and one for data. A set is the
-- list of its ways. The performance counters are left out.
pub mod Insert
use aarchvm.Base.{
  ℕ, zero, suc, ◌+◌, ◌-◌, ◌*◌, ◌/◌, ◌%◌, ◌^◌, Bool, true, false, not, ◌&&◌, ◌||◌, ltb, leb, ◌==◌,
  if◌then◌else◌, bit, bit_or, Option, none, some, same, List, [], ◌∷◌, update,
}
use aarchvm.Mmu.{Attrs, WalkAttributes, TranslationResult, Regs, mask_asid, unknown}

pub record TlbEntry : Type 0 where
  pub valid : Bool
  pub va_page : ℕ
  pub pa_page : ℕ
  pub attrs : Attrs

pub record Tlb : Type 0 where
  pub sets : ℕ → List TlbEntry
  pub next_replace : ℕ → ℕ
  pub last_fetch : TlbEntry
  pub last_data : TlbEntry

abbrev pub blank_entry : TlbEntry
blank_entry = record {
  valid = false;
  va_page = 0;
  pa_page = 0;
  attrs = record {
    asid = 0;
    level = 3;
    attr_index = 0;
    mair_attr = 0;
    global_entry = false;
    writable = false;
    user_accessible = false;
    executable = true;
    pxn = false;
    uxn = false;
    memory_type = unknown;
    leaf_shareability = 0;
    walk_attrs = record { inner = 0; outer = 0; shareability = 0; ips_bits = 48 };
  };
}

abbrev pub fresh_tlb : Tlb
fresh_tlb = record {
  sets = λ i. blank_entry ∷ (blank_entry ∷ (blank_entry ∷ (blank_entry ∷ [])));
  next_replace = λ i. 0;
  last_fetch = blank_entry;
  last_data = blank_entry;
}

-- `x & tlb_page_mask()`.
abbrev pub tlbi_operand_va_page : ℕ → ℕ
tlbi_operand_va_page operand = operand % 2 ^ 44

abbrev pub tlbi_operand_asid : Regs → ℕ → ℕ
tlbi_operand_asid r operand = mask_asid r (operand / 2 ^ 48)

abbrev pub tlb_set_index : ℕ → ℕ
tlb_set_index va_page = va_page % 1024

unfoldable pub tlb_entry_matches_asid : TlbEntry → ℕ → Bool
tlb_entry_matches_asid e asid = e.attrs.global_entry || e.attrs.asid == asid

unfoldable pub tlb_level_page_span : ℕ → ℕ
tlb_level_page_span level = if leb 3 level then 1 else 2 ^ (9 * (3 - level))

unfoldable pub tlb_level_page_base : ℕ → ℕ → ℕ
tlb_level_page_base va_page level = va_page / tlb_level_page_span level * tlb_level_page_span level

unfoldable pub tlb_entry_covers_va_page : TlbEntry → ℕ → Bool
tlb_entry_covers_va_page e va_page =
    tlb_level_page_base e.va_page e.attrs.level == tlb_level_page_base va_page e.attrs.level

-- The entry is skipped by the search for the page.
unfoldable pub skipped : ℕ → TlbEntry → Bool
skipped va_page e = not e.valid || not (e.va_page == va_page)

unfoldable pub private_hit : ℕ → TlbEntry → Bool
private_hit asid e = not e.attrs.global_entry && e.attrs.asid == asid

-- `global_hit` after the entry, where the search goes on.
unfoldable pub keep_global : ℕ → TlbEntry → Option TlbEntry → Option TlbEntry
keep_global va_page e (some g) = some g
keep_global va_page e none =
    if skipped va_page e then none else if e.attrs.global_entry then some e else none

unfoldable pub lookup_loop : ℕ → ℕ → Option TlbEntry → List TlbEntry → Option TlbEntry
lookup_loop va_page asid global_hit [] = global_hit
lookup_loop va_page asid global_hit (e ∷ es) =
    let rest = lookup_loop va_page asid (keep_global va_page e global_hit) es in
    if skipped va_page e then rest else if private_hit asid e then some e else rest

unfoldable pub tlb_lookup : Tlb → ℕ → ℕ → Option TlbEntry
tlb_lookup t va_page asid = lookup_loop va_page asid none (t.sets (tlb_set_index va_page))

-- `valid = false` on the entries that are valid and pass the test.
unfoldable pub drop_entry : (TlbEntry → Bool) → TlbEntry → TlbEntry
drop_entry test e = if e.valid && test e then record e { valid = false } else e

unfoldable pub drop_entries : (TlbEntry → Bool) → List TlbEntry → List TlbEntry
drop_entries test [] = []
drop_entries test (e ∷ es) = drop_entry test e ∷ drop_entries test es

unfoldable pub drop_all : (TlbEntry → Bool) → Tlb → Tlb
drop_all test t = record t {
  sets = λ i. drop_entries test (t.sets i);
  last_fetch = drop_entry test t.last_fetch;
  last_data = drop_entry test t.last_data;
}

unfoldable pub tlb_flush_all : Tlb → Tlb
tlb_flush_all t = record (drop_all (λ e. true) t) { next_replace = λ i. 0 }

unfoldable pub tlb_flush_asid : Regs → ℕ → Tlb → Tlb
tlb_flush_asid r asid t =
    drop_all (λ e. not e.attrs.global_entry && e.attrs.asid == mask_asid r asid) t

-- The entries that `tlb_invalidate_page` drops.
unfoldable pub page_test : ℕ → ℕ → Bool → TlbEntry → Bool
page_test va_page asid match_asid e =
    tlb_entry_covers_va_page e va_page && (not match_asid || tlb_entry_matches_asid e asid)

unfoldable pub tlb_invalidate_page : Regs → ℕ → ℕ → Bool → Tlb → Tlb
tlb_invalidate_page r va_page asid match_asid t =
    drop_all (page_test va_page (mask_asid r asid) match_asid) t

unfoldable pub tlb_flush_va : Regs → ℕ → Tlb → Tlb
tlb_flush_va r operand t =
    tlb_invalidate_page r (tlbi_operand_va_page operand) (tlbi_operand_asid r operand) true t

-- The slot holds a translation of the same page for the same address space.
unfoldable pub same_translation : ℕ → TlbEntry → TlbEntry → Bool
same_translation va_page entry slot =
    slot.valid
    && (slot.va_page == va_page
        && (same slot.attrs.global_entry entry.attrs.global_entry
            && (slot.attrs.global_entry || slot.attrs.asid == entry.attrs.asid)))

unfoldable pub replace_first : (TlbEntry → Bool) → TlbEntry → List TlbEntry → Option (List TlbEntry)
replace_first test new [] = none
replace_first test new (e ∷ es) =
    let rest = replace_first test new es in
    if test e then some (new ∷ es) else elim rest [ none ↦ none | some es' ↦ some (e ∷ es') ]

unfoldable pub set_at : ℕ → TlbEntry → List TlbEntry → List TlbEntry
set_at k new [] = []
set_at zero new (e ∷ es) = new ∷ es
set_at (suc k) new (e ∷ es) = e ∷ set_at k new es

-- The ways of the set and its replacement pointer after `new` is put in for `entry`.
unfoldable pub insert_ways : ℕ → TlbEntry → TlbEntry → ℕ → List TlbEntry → List TlbEntry × ℕ
insert_ways va_page entry new next ways =
    elim (replace_first (same_translation va_page entry) new ways) [
      | some ways' ↦ (ways', next)
      | none ↦ elim (replace_first (λ e. not e.valid) new ways) [
        | some ways' ↦ (ways', next)
        | none ↦ (set_at (next % 4) new ways, (next + 1) % 4)
      ]
    ]

abbrev pub updated : ℕ → TlbEntry → TlbEntry
updated va_page entry = record entry { valid = true; va_page = va_page }

unfoldable pub tlb_insert_entry : ℕ → TlbEntry → Tlb → Tlb
tlb_insert_entry va_page entry t =
    let i = tlb_set_index va_page in
    let put = insert_ways va_page entry (updated va_page entry) (t.next_replace i) (t.sets i) in
    record {
      sets = update t.sets i put.0;
      next_replace = update t.next_replace i put.1;
      last_fetch = if entry.valid then record t.last_fetch { valid = false } else t.last_fetch;
      last_data = if entry.valid then entry else t.last_data;
    }

abbrev pub entry_of : Regs → ℕ → TranslationResult → TlbEntry
entry_of r va_page result = record {
  valid = true;
  va_page = va_page;
  pa_page = result.pa / 2 ^ 12;
  attrs = record result.attrs { asid = mask_asid r result.attrs.asid };
}

unfoldable pub tlb_insert : Regs → ℕ → TranslationResult → Tlb → Tlb
tlb_insert r va_page result t = tlb_insert_entry va_page (entry_of r va_page result) t
