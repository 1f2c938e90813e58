-- ===== src/Framebuffer/Rows.antt =====
-- include/aarchvm/framebuffer_dirty_tracker.hpp: the rows that are marked and handed out.
use aarchvm.Base.{
  ℕ, zero, suc, ◌+◌, ◌-◌, ◌/◌, ◌%◌, ◌^◌, ◌<◌, ◌≤◌, ◌≡◌, refl, ap, ◌∙◌, min, Bool, true, false, not,
  ◌&&◌, ◌||◌, ltb, leb, ◌==◌, u64_mod, u32_mod, List, [], ◌∷◌, ◌++◌, bit-bit_or, bit-pow,
  bit_of_zero, Bool-cases, inl, inr, arith,
}
use native.Mathlib.Nat.{le-div_iff_mul-le, div-mul-le_self}
use aarchvm.Framebuffer.{
  RowSpan, Tracker, row_is_dirty, mark_row, mark_from, mark_rows, on_ram_write, has_dirty, scan,
  consume_dirty_rows,
}

-- A row is in one of the spans.
unfoldable pub in_spans : List RowSpan → ℕ → Bool
in_spans [] x = false
in_spans (s ∷ rest) x = (leb s.first x && leb x s.last) || in_spans rest x

in_spans-append :
    (xs ys : List RowSpan) (x : ℕ) → in_spans (xs ++ ys) x ≡ (in_spans xs x || in_spans ys x)
unfolding in_spans
in_spans-append [] ys x = refl
in_spans-append (s ∷ rest) ys x = ground (arith, in_spans-append rest ys x)

-- What the loop gives from a row on: the spans so far, the open run, and the dirty rows left.
scan_lem :
    (d : ℕ → ℕ) (left row : ℕ) (in_run : Bool) (run_first : ℕ) (out : List RowSpan) (x : ℕ)
    → (in_run ≡ true → run_first < row)
    → in_spans (scan d left row in_run run_first out) x ≡ (
        in_spans out x
        || ((in_run && (leb run_first x && ltb x row))
            || (leb row x && (ltb x (row + left) && row_is_dirty d x))))
unfolding scan in_spans
scan_lem d zero row true run_first out x h =
    ground
      (arith, in_spans-append out (record { first = run_first; last = row - 1 } ∷ []) x, h refl)
scan_lem d zero row false run_first out x h = ground arith
scan_lem d (suc left) row true run_first out x h =
    let before : run_first < row = h refl in
    let here : x ≡ row → row_is_dirty d x ≡ row_is_dirty d row = λ e. ap (row_is_dirty d) e in
    let span : List RowSpan = record { first = run_first; last = row - 1 } ∷ [] in
    let added = in_spans-append out span x in
    elim (Bool-cases (row_is_dirty d row)) [
      | inl dirty ↦
          let rest = scan_lem d left (row + 1) true run_first out x (λ _. omega arith) in
          rw (dirty, rest) (ground (arith, here, dirty, before))
      | inr clean ↦
          let rest =
            scan_lem d left (row + 1) false run_first (out ++ span) x
              (λ e. absurd (ground (arith, e))) in
          rw (clean, rest, added) (ground (arith, here, clean, before))
    ]
scan_lem d (suc left) row false run_first out x h =
    let here : x ≡ row → row_is_dirty d x ≡ row_is_dirty d row = λ e. ap (row_is_dirty d) e in
    elim (Bool-cases (row_is_dirty d row)) [
      | inl dirty ↦
          let rest = scan_lem d left (row + 1) true row out x (λ _. omega arith) in
          rw (dirty, rest) (ground (arith, here, dirty))
      | inr clean ↦
          let rest =
            scan_lem d left (row + 1) false run_first out x (λ e. absurd (ground (arith, e))) in
          rw (clean, rest) (ground (arith, here, clean))
    ]

same_generation : (g : ℕ) → not (g == g) ≡ false
same_generation g = ground arith

-- Where rows are announced, the spans handed out hold a row exactly where it is a row of the frame and
-- marked, and afterwards no row is marked; where none are, the spans hold no row and the marks stay.
-- Either way none are announced afterwards.
pub consume_dirty_rows-in_spans :
    (t : Tracker) (x : ℕ)
    → (in_spans (consume_dirty_rows t).0 x
        ≡ (has_dirty t && (ltb x t.height && row_is_dirty t.dirty_rows x)))
      × (has_dirty (consume_dirty_rows t).1 ≡ false)
      × (row_is_dirty (consume_dirty_rows t).1.dirty_rows x
          ≡ (not (has_dirty t) && row_is_dirty t.dirty_rows x))
unfolding consume_dirty_rows in_spans has_dirty row_is_dirty
consume_dirty_rows-in_spans t x = elim (Bool-cases (has_dirty t)) [
  | inl h ↦ rw h (
    scan_lem t.dirty_rows t.height 0 false 0 [] x (λ e. absurd (ground (arith, e)))
        ∙ (ground arith),
    same_generation t.dirty_generation,
    bit_of_zero (x % 64),
  )
  | inr h ↦ rw h (refl, h, refl)
]

mark_row_lem : (r x : ℕ) (d : ℕ → ℕ) → row_is_dirty (mark_row r d) x ≡ (row_is_dirty d x || x == r)
unfolding row_is_dirty mark_row
mark_row_lem r x d = elim (Bool-cases (x / 64 == r / 64)) [
  | inl near ↦
      rw (near, bit-bit_or (x % 64) (d (x / 64)) (2 ^ (r % 64)), bit-pow (r % 64) (x % 64))
        (ground (arith, near))
  | inr far ↦ rw far (ground (arith, far))
]

mark_from_lem :
    (left row x : ℕ) (d : ℕ → ℕ)
    → row_is_dirty (mark_from left row d) x
      ≡ (row_is_dirty d x || (leb row x && ltb x (row + left)))
unfolding mark_from
mark_from_lem zero row x d = ground arith
mark_from_lem (suc left) row x d =
    ground (arith, mark_from_lem left (row + 1) x (mark_row row d), mark_row_lem row x d)

div_mono : (a b k : ℕ) → 0 < k → a ≤ b → a / k ≤ b / k
div_mono a b k pos h = (le-div_iff_mul-le pos).1 (omega (arith, h, div-mul-le_self a k))

abbrev pub last_byte : Tracker → ℕ → ℕ → ℕ
last_byte t offset size = min (t.frame_bytes - 1) ((offset + size + (u64_mod - 1)) % u64_mod)

-- A store that reaches the frame marks the rows of its first and its last byte, and those between.
stored :
    (t : Tracker) (offset size : ℕ)
    → (size == 0 || (t.stride == 0 || t.height == 0)) ≡ false
    → leb t.frame_bytes offset ≡ false
    → on_ram_write t offset size
      ≡ mark_rows t (offset / t.stride % u32_mod) (last_byte t offset size / t.stride % u32_mod)
unfolding on_ram_write
stored t offset size p q = rw (p, q) refl

mark_rows_lem :
    (t : Tracker) (first last y : ℕ)
    → first < t.height
    → first ≤ last
    → (row_is_dirty (mark_rows t first last).dirty_rows y
        ≡ (row_is_dirty t.dirty_rows y || (leb first y && leb y (min last (t.height - 1)))))
      × ((mark_rows t first last).dirty_generation ≡ (t.dirty_generation + 1) % u64_mod)
unfolding mark_rows
mark_rows_lem t first last y h le =
    let inside : leb t.height first ≡ false = ground arith in
    let left = min last (t.height - 1) + 1 - first in
    rw inside (mark_from_lem left first y t.dirty_rows ∙ (ground arith), refl)

-- A store that starts in the frame and stays below the end of the addresses marks the row of each of
-- its bytes in the frame, and no row but those from its first byte's to its last one's; the generation
-- advances. The rows fit in 32 bits.
pub on_ram_write-row_is_dirty :
    (t : Tracker) (offset size b x : ℕ)
    → t.height < u32_mod
    → t.frame_bytes / t.stride < u32_mod
    → 0 < t.stride
    → offset + size ≤ u64_mod
    → offset ≤ b
    → b < offset + size
    → b < t.frame_bytes
    → b / t.stride < t.height
    → (row_is_dirty (on_ram_write t offset size).dirty_rows (b / t.stride) ≡ true)
      × (row_is_dirty (on_ram_write t offset size).dirty_rows x ≡ (
          row_is_dirty t.dirty_rows x
          || (leb (offset / t.stride) x
              && leb x (min (last_byte t offset size / t.stride) (t.height - 1)))))
      × ((on_ram_write t offset size).dirty_generation ≡ (t.dirty_generation + 1) % u64_mod)
on_ram_write-row_is_dirty t offset size b x small rows pos ends from upto inside row =
    let k = t.stride in
    let clamped = last_byte t offset size in
    let after : b ≤ clamped = omega arith in
    let last_in : clamped ≤ t.frame_bytes = omega arith in
    let low = div_mono offset b k pos from in
    let high = div_mono b clamped k pos after in
    let top = div_mono clamped t.frame_bytes k pos last_in in
    let first_small : offset / k % u32_mod ≡ offset / k = omega (arith, low, row, small) in
    let last_small : clamped / k % u32_mod ≡ clamped / k = omega (arith, top, rows) in
    let here =
      mark_rows_lem t (offset / k) (clamped / k) (b / k) (omega (arith, low, row))
        (omega (arith, low, high)) in
    let there =
      mark_rows_lem t (offset / k) (clamped / k) x (omega (arith, low, row))
        (omega (arith, low, high)) in
    rw (stored t offset size (ground arith) (ground arith), first_small, last_small)
      (ground (arith, here.0, low, high, row), there.0, here.1)
