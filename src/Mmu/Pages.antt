-- ===== src/Mmu/Pages.antt =====
-- src/cpu.cpp: what a walk says of one address of a page it says of the whole page, and the offset
-- in the page goes through.
use aarchvm.Base.{
  pow_pos, ℕ, zero, suc, ◌+◌, ◌-◌, ◌*◌, ◌/◌, ◌%◌, ◌^◌, ◌≤◌, ◌<◌, ◌≡◌, refl, sym, ap, ◌∙◌, Bool, leb,
  if◌then◌else◌, bit, field, bit_or, Option, arith, inl, inr, Option-cases, bit_or_disjoint,
}
use native.Mathlib.Nat.{pow-suc, div-div-eq-div-mul, div-lt_iff_lt-mul}
use aarchvm.Mmu.{TableAttrs, Outcome, ok, fault, Regs}
use aarchvm.Mmu.Walk.{
  Request, walk_leaf, walk_levels, walk_from, output_address, inherit, no_inherited,
}

-- The outcome with the physical page in place of the physical address.
abbrev pub to_page : Outcome → Outcome
to_page (ok r) = ok (record r { pa = r.pa / 2 ^ 12 })
to_page (fault f) = fault f

-- A result has the offset of the address.
abbrev pub KeepsOffset : ℕ → Outcome → Type 0
KeepsOffset va (ok r) = r.pa % 2 ^ 12 ≡ va % 2 ^ 12
KeepsOffset va (fault f) = Unit {0}

pub same_above :
    (n va va' : ℕ)
    → n < 4
    → va / 2 ^ 12 ≡ va' / 2 ^ 12
    → va / 2 ^ (12 + 9 * n) ≡ va' / 2 ^ (12 + 9 * n)
same_above zero va va' h e = e
same_above (suc zero) va va' h e = omega arith
same_above (suc (suc zero)) va va' h e = omega arith
same_above (suc (suc (suc zero))) va va' h e = omega arith
same_above (suc (suc (suc (suc n)))) va va' h e = absurd (omega arith)

-- The address of a leaf, with its page and its offset.
pub leaf_pa :
    (n x va : ℕ)
    → n < 4
    → let pa = bit_or (x / 2 ^ (12 + 9 * n) * 2 ^ (12 + 9 * n)) (va % 2 ^ (12 + 9 * n)) in
      (pa ≡ x / 2 ^ (12 + 9 * n) * 2 ^ (12 + 9 * n) + va % 2 ^ (12 + 9 * n))
      × (pa % 2 ^ 12 ≡ va % 2 ^ 12)
leaf_pa zero x va h =
    let e = bit_or_disjoint 12 (x / 2 ^ 12) (va % 2 ^ 12) (omega arith) in (e, omega (arith, e))
leaf_pa (suc zero) x va h =
    let e = bit_or_disjoint 21 (x / 2 ^ 21) (va % 2 ^ 21) (omega arith) in (e, omega (arith, e))
leaf_pa (suc (suc zero)) x va h =
    let e = bit_or_disjoint 30 (x / 2 ^ 30) (va % 2 ^ 30) (omega arith) in (e, omega (arith, e))
leaf_pa (suc (suc (suc zero))) x va h =
    let e = bit_or_disjoint 39 (x / 2 ^ 39) (va % 2 ^ 39) (omega arith) in (e, omega (arith, e))
leaf_pa (suc (suc (suc (suc n)))) x va h = absurd (omega arith)

leaf_page :
    (n x va va' : ℕ)
    → n < 4
    → va / 2 ^ 12 ≡ va' / 2 ^ 12
    → let pa = λ (v : ℕ). bit_or (x / 2 ^ (12 + 9 * n) * 2 ^ (12 + 9 * n)) (v % 2 ^ (12 + 9 * n)) in
      pa va / 2 ^ 12 ≡ pa va' / 2 ^ 12
leaf_page zero x va va' h e = omega (arith, leaf_pa zero x va h, leaf_pa zero x va' h)
leaf_page (suc zero) x va va' h e = omega (arith, leaf_pa 1 x va h, leaf_pa 1 x va' h)
leaf_page (suc (suc zero)) x va va' h e = omega (arith, leaf_pa 2 x va h, leaf_pa 2 x va' h)
leaf_page (suc (suc (suc zero))) x va va' h e = omega (arith, leaf_pa 3 x va h, leaf_pa 3 x va' h)
leaf_page (suc (suc (suc (suc n)))) x va va' h e = absurd (omega arith)

pub walk_leaf-page :
    (r : Regs) (q : Request) (va va' : ℕ) (u : Bool) (t : TableAttrs) (n desc : ℕ)
    → n < 4
    → va / 2 ^ 12 ≡ va' / 2 ^ 12
    → to_page (walk_leaf r q va u t n desc) ≡ to_page (walk_leaf r q va' u t n desc)
unfolding walk_leaf
walk_leaf-page r q va va' u t n desc h e =
    ground (arith, leaf_page n (output_address desc) va va' h e)

walk_leaf-KeepsOffset :
    (r : Regs) (q : Request) (va : ℕ) (u : Bool) (t : TableAttrs) (n desc : ℕ)
    → n < 4
    → KeepsOffset va (walk_leaf r q va u t n desc)
unfolding walk_leaf
walk_leaf-KeepsOffset r q va u t n desc h = ground (arith, (leaf_pa n (output_address desc) va h).1)

same_bit_63 : (va va' : ℕ) → va / 2 ^ 12 ≡ va' / 2 ^ 12 → bit va 63 ≡ bit va' 63
unfolding bit
same_bit_63 va va' e =
    let halves : va / 2 / 2 / 2 / 2 / 2 / 2 / 2 / 2 / 2 / 2 / 2 / 2
        ≡ va' / 2 / 2 / 2 / 2 / 2 / 2 / 2 / 2 / 2 / 2 / 2 / 2 =
      omega arith in
    ap (λ x. bit x 51) halves

pub same_bit_55 : (va va' : ℕ) → va / 2 ^ 12 ≡ va' / 2 ^ 12 → bit va 55 ≡ bit va' 55
unfolding bit
same_bit_55 va va' e =
    let halves : va / 2 / 2 / 2 / 2 / 2 / 2 / 2 / 2 / 2 / 2 / 2 / 2
        ≡ va' / 2 / 2 / 2 / 2 / 2 / 2 / 2 / 2 / 2 / 2 / 2 / 2 =
      omega arith in
    ap (λ x. bit x 43) halves

same_shift_add :
    (k va va' : ℕ) → va / 2 ^ 12 ≡ va' / 2 ^ 12 → va / 2 ^ (k + 12) ≡ va' / 2 ^ (k + 12)
same_shift_add zero va va' e = e
same_shift_add (suc k) va va' e =
    let next : suc k + 12 ≡ suc (k + 12) = omega arith in
    let half = λ (v : ℕ).
      ap (λ x. v / 2 ^ x) next
      ∙ ap (λ x. v / x) (pow-suc 2 (k + 12))
      ∙ sym (div-div-eq-div-mul v (2 ^ (k + 12)) 2) in
    half va ∙ ap (λ x. x / 2) (same_shift_add k va va' e) ∙ sym (half va')

-- Addresses of one page agree above every bit from 12 up.
same_shift : (b va va' : ℕ) → 12 ≤ b → va / 2 ^ 12 ≡ va' / 2 ^ 12 → va / 2 ^ b ≡ va' / 2 ^ b
same_shift b va va' h e =
    let split : b ≡ (b - 12) + 12 = omega arith in
    ap (λ x. va / 2 ^ x) split
    ∙ same_shift_add (b - 12) va va' e
    ∙ sym (ap (λ x. va' / 2 ^ x) split)

same_range : (b va va' : ℕ) → 12 ≤ b → va / 2 ^ 12 ≡ va' / 2 ^ 12 → leb (2 ^ b) va ≡ leb (2 ^ b) va'
same_range b va va' h e = ground (
  arith,
  same_shift b va va' h e,
  div-lt_iff_lt-mul {k = 2 ^ b} {x = va} {y = 1} (pow_pos b),
  div-lt_iff_lt-mul {k = 2 ^ b} {x = va'} {y = 1} (pow_pos b),
)

module _ (memory : ℕ → Option ℕ) where
  walk_levels-page :
      (r : Regs) (q : Request) (va va' : ℕ) (u : Bool) (n base : ℕ) (t : TableAttrs)
      → n ≤ 4
      → va / 2 ^ 12 ≡ va' / 2 ^ 12
      → to_page (walk_levels memory r q va u n base t)
        ≡ to_page (walk_levels memory r q va' u n base t)
  unfolding walk_levels
  walk_levels-page r q va va' u zero base t h e = refl
  walk_levels-page r q va va' u (suc n) base t h e =
      let above = same_above n va va' (omega (arith, h)) e in
      let index : field va (12 + 9 * n) 9 ≡ field va' (12 + 9 * n) 9 = ap (λ x. x % 2 ^ 9) above in
      let read = ap (λ x. memory (base + x * 8)) index in
      elim (Option-cases (memory (base + field va' (12 + 9 * n) 9 * 8))) [
        | inl o ↦ rw (walk_levels, read, o) refl
        | inr (desc, o) ↦
            rw (walk_levels, read, o)
              (ground (
                arith,
                walk_leaf-page r q va va' u t n desc (omega (arith, h)) e,
                walk_levels-page r q va va' u n (output_address desc) (inherit t desc)
                    (omega (arith, h)) e,
              ))
      ]

  pub walk_from-page :
      (r : Regs) (q : Request) (va va' : ℕ)
      → va / 2 ^ 12 ≡ va' / 2 ^ 12
      → to_page (walk_from memory r q va) ≡ to_page (walk_from memory r q va')
  unfolding walk_from
  walk_from-page r q va va' e =
      let upper = bit va' 63 in
      let txsz = if upper then field r.tcr 16 6 else field r.tcr 0 6 in
      let va_bits = 64 - txsz in
      let levels = if leb va_bits 12 then 1 else (va_bits - 12 + 8) / 9 in
      let table_base = output_address (if upper then r.ttbr1 else r.ttbr0) in
      rw (same_bit_63 va va' e) (
        ground (
          arith,
          same_shift va_bits va va',
          same_range va_bits va va',
          walk_levels-page r q va va' upper levels table_base no_inherited,
        ))
