-- ===== src/Framebuffer.antt =====
-- include/aarchvm/framebuffer_dirty_tracker.hpp: which rows of the frame buffer have been written. The
-- words of the bitmap are a function of their index; the width, which nothing reads, is left out.
pub mod Rows
pub mod Tests
use aarchvm.Base.{
  ℕ, zero, suc, ◌+◌, ◌-◌, ◌*◌, ◌/◌, ◌%◌, ◌^◌, min, bit_or, Bool, true, false, not, ◌&&◌, ◌||◌, ltb,
  leb, ◌==◌, if◌then◌else◌, bit, u64_mod, u32_mod, List, [], ◌∷◌, ◌++◌,
}

pub record RowSpan : Type 0 where
  pub first : ℕ
  pub last : ℕ

pub record Tracker : Type 0 where
  pub height : ℕ
  pub stride : ℕ
  pub frame_bytes : ℕ
  pub dirty_rows : ℕ → ℕ
  pub dirty_generation : ℕ
  pub consumed_generation : ℕ

abbrev pub new_tracker : ℕ → ℕ → ℕ → Tracker
new_tracker height stride frame_bytes = record {
  height = height;
  stride = stride;
  frame_bytes = frame_bytes;
  dirty_rows = λ i. 0;
  dirty_generation = 0;
  consumed_generation = 0;
}

unfoldable pub row_is_dirty : (ℕ → ℕ) → ℕ → Bool
row_is_dirty dirty_rows row = bit (dirty_rows (row / 64)) (row % 64)

unfoldable pub mark_row : ℕ → (ℕ → ℕ) → ℕ → ℕ
mark_row row dirty_rows i =
    if i == row / 64 then bit_or (dirty_rows i) (2 ^ (row % 64)) else dirty_rows i

-- The loop of `mark_rows`, with the rows left.
unfoldable pub mark_from : ℕ → ℕ → (ℕ → ℕ) → ℕ → ℕ
mark_from zero row dirty_rows = dirty_rows
mark_from (suc left) row dirty_rows = mark_from left (row + 1) (mark_row row dirty_rows)

unfoldable pub mark_rows : Tracker → ℕ → ℕ → Tracker
mark_rows t first_row last_row =
    let last = min last_row (t.height - 1) in
    if leb t.height first_row then t else record t {
      dirty_rows = mark_from (last + 1 - first_row) first_row t.dirty_rows;
      dirty_generation = (t.dirty_generation + 1) % u64_mod;
    }

unfoldable pub on_ram_write : Tracker → ℕ → ℕ → Tracker
on_ram_write t offset size =
    let clamped_last = min (t.frame_bytes - 1) ((offset + size + (u64_mod - 1)) % u64_mod) in
    if size == 0 || (t.stride == 0 || t.height == 0)
    then t
    else if leb t.frame_bytes offset
    then t
    else mark_rows t (offset / t.stride % u32_mod) (clamped_last / t.stride % u32_mod)

unfoldable pub mark_all_dirty : Tracker → Tracker
mark_all_dirty t = if t.height == 0 then t else mark_rows t 0 (t.height - 1)

unfoldable pub has_dirty : Tracker → Bool
has_dirty t = not (t.dirty_generation == t.consumed_generation)

-- The loop of `consume_dirty_rows`, with the rows left, and what follows it.
unfoldable pub scan : (ℕ → ℕ) → ℕ → ℕ → Bool → ℕ → List RowSpan → List RowSpan
scan dirty_rows zero row in_run run_first out =
    if in_run then out ++ (record { first = run_first; last = row - 1 } ∷ []) else out
scan dirty_rows (suc left) row in_run run_first out =
    let opened = scan dirty_rows left (row + 1) true (if in_run then run_first else row) out in
    let closed =
      scan dirty_rows left (row + 1) false run_first
        (if in_run then out ++ (record { first = run_first; last = row - 1 } ∷ []) else out) in
    if row_is_dirty dirty_rows row then opened else closed

-- The spans, and the tracker afterwards.
unfoldable pub consume_dirty_rows : Tracker → List RowSpan × Tracker
consume_dirty_rows t =
    if has_dirty t
    then (
      scan t.dirty_rows t.height 0 false 0 [],
      record t { dirty_rows = λ i. 0; consumed_generation = t.dirty_generation },
    )
    else ([], t)
