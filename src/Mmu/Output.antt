-- ===== src/Mmu/Output.antt =====
-- src/cpu.cpp: what an address that a walk returns satisfies, and what a fault of a walk names.
use aarchvm.Base.{
  ℕ, zero, suc, ◌+◌, ◌-◌, ◌*◌, ◌/◌, ◌%◌, ◌^◌, ◌≤◌, ◌<◌, ◌≡◌, Bool, true, if◌then◌else◌, leb, bit,
  field, Option, none, some, arith, inl, inr, Option-cases,
}
use aarchvm.Mmu.{
  TableAttrs, TranslationFault, Attrs, Outcome, ok, fault, Regs, pa_within_ips, decode_ips_bits,
  current_translation_asid, normalize_stage1_address,
}
use aarchvm.Mmu.Access.{access_permitted}
use aarchvm.Mmu.Walk.{
  Request, leaf_attrs, walk_leaf, walk_levels, walk_from, walk_page_tables, output_address, inherit,
  no_inherited,
}
use aarchvm.Mmu.Pages.{leaf_pa}

-- What a walk promises of its outcome: a result is in the range of the physical addresses, has the
-- offset of the virtual address, the current address space, and the permission that was asked; a
-- fault names a level of the tables.
unfoldable pub Sound : Regs → Request → ℕ → Outcome → Type 0
Sound r q va (ok res) =
    (pa_within_ips res.pa (decode_ips_bits r) ≡ true)
    × (res.pa % 2 ^ 12 ≡ va % 2 ^ 12)
    × (res.attrs.asid ≡ current_translation_asid r)
    × ((if q.check_permissions
          then access_permitted r res.attrs q.access res.attrs.level q.apply_pan
          else none)
        ≡ none)
Sound r q va (fault f) = f.level ≤ 3

within_leaf :
    (r : Regs) (x off n : ℕ)
    → n < 3
    → pa_within_ips (x / 2 ^ (12 + 9 * n) * 2 ^ (12 + 9 * n)) (decode_ips_bits r) ≡ true
    → pa_within_ips
        (x / 2 ^ (12 + 9 * n) * 2 ^ (12 + 9 * n) + off % 2 ^ (12 + 9 * n))
        (decode_ips_bits r)
      ≡ true
unfolding pa_within_ips decode_ips_bits
within_leaf r x off zero h w = ground arith
within_leaf r x off (suc zero) h w = ground arith
within_leaf r x off (suc (suc zero)) h w = ground arith
within_leaf r x off (suc (suc (suc n))) h w = absurd (omega arith)

abbrev LowLevel : Option TranslationFault → Type 0
LowLevel none = Unit {0}
LowLevel (some f) = f.level ≤ 3

access_permitted-LowLevel :
    (r : Regs) (a : Attrs) (q : Request) (level : ℕ)
    → level ≤ 3
    → LowLevel (access_permitted r a q.access level q.apply_pan)
unfolding access_permitted
access_permitted-LowLevel r a q level h = ground arith

walk_leaf-Sound :
    (r : Regs) (q : Request) (va : ℕ) (u : Bool) (t : TableAttrs) (n desc : ℕ)
    → n < 3
    → Sound r q va (walk_leaf r q va u t n desc)
unfolding Sound walk_leaf leaf_attrs
walk_leaf-Sound r q va u t n desc h = ground (
  arith,
  leaf_pa n (output_address desc) va (omega arith),
  within_leaf r (output_address desc) va n h,
  access_permitted-LowLevel r (leaf_attrs r u t (3 - n) desc) q (3 - n) (omega arith),
)

module _ (memory : ℕ → Option ℕ) where
  walk_levels-Sound :
      (r : Regs) (q : Request) (va : ℕ) (u : Bool) (n base : ℕ) (t : TableAttrs)
      → n ≤ 4
      → Sound r q va (walk_levels memory r q va u n base t)
  unfolding Sound walk_levels
  walk_levels-Sound r q va u zero base t h = omega arith
  walk_levels-Sound r q va u (suc n) base t h =
      elim (Option-cases (memory (base + field va (12 + 9 * n) 9 * 8))) [
        | inl e ↦ rw (Sound, walk_levels, e) (omega arith)
        | inr (desc, e) ↦
            rw (Sound, walk_levels, e)
              (ground (
                arith,
                walk_leaf-Sound r q va u t n desc,
                walk_levels-Sound r q va u n (output_address desc) (inherit t desc) (omega arith),
              ))
      ]

  walk_from-Sound : (r : Regs) (q : Request) (va : ℕ) → Sound r q va (walk_from memory r q va)
  unfolding Sound walk_from
  walk_from-Sound r q va =
      let upper = bit va 63 in
      let txsz = if upper then field r.tcr 16 6 else field r.tcr 0 6 in
      let va_bits = 64 - txsz in
      let levels = if leb va_bits 12 then 1 else (va_bits - 12 + 8) / 9 in
      let table_base = output_address (if upper then r.ttbr1 else r.ttbr0) in
      ground (arith, walk_levels-Sound r q va upper levels table_base no_inherited)

  -- Every outcome of a walk is sound: a result lies in the configured physical address range, has the
  -- low 12 bits of the virtual address and the current address space identifier, and passes the
  -- permission check where one was asked; a fault names a level from 0 to 3.
  pub walk_page_tables-Sound :
      (r : Regs) (q : Request) (va : ℕ)
      → Sound r q (normalize_stage1_address r va) (walk_page_tables memory r q va)
  unfolding walk_page_tables
  walk_page_tables-Sound r q va = walk_from-Sound r q (normalize_stage1_address r va)
