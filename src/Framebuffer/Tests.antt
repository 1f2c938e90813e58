-- ===== src/Framebuffer/Tests.antt =====
-- A small frame: 100 rows of 400 bytes.
use aarchvm.Base.{
  ◌+◌, ◌-◌, ◌/◌, ◌%◌, ◌≡◌, refl, min, true, false, not, ◌&&◌, ◌||◌, ltb, leb, [], ◌∷◌, u64_mod, bit,
  arith,
}
use aarchvm.Framebuffer.{
  Tracker, new_tracker, on_ram_write, has_dirty, row_is_dirty, consume_dirty_rows, mark_rows,
  mark_from, mark_row, scan,
}
use aarchvm.Framebuffer.Rows.{
  in_spans, last_byte, consume_dirty_rows-in_spans, on_ram_write-row_is_dirty,
}

abbrev frame : Tracker
frame = new_tracker 100 400 40000

-- Rows 65 and 66, and row 99.
abbrev written : Tracker
written = on_ram_write (on_ram_write frame 26000 500) 39999 8

handed_out :
    (consume_dirty_rows written).0
    ≡ record { first = 65; last = 66 } ∷ record { first = 99; last = 99 } ∷ []
unfolding consume_dirty_rows has_dirty on_ram_write mark_rows mark_from mark_row scan row_is_dirty
    bit
handed_out = refl

consume_dirty_rows-in_spans_example :
    (in_spans (consume_dirty_rows written).0 66
      ≡ (has_dirty written && (ltb 66 written.height && row_is_dirty written.dirty_rows 66)))
    × (has_dirty (consume_dirty_rows written).1 ≡ false)
    × (row_is_dirty (consume_dirty_rows written).1.dirty_rows 66
        ≡ (not (has_dirty written) && row_is_dirty written.dirty_rows 66))
consume_dirty_rows-in_spans_example = consume_dirty_rows-in_spans written 66

written-has_dirty : has_dirty written ≡ true
unfolding on_ram_write mark_rows has_dirty
written-has_dirty = refl

on_ram_write-row_is_dirty_example :
    (row_is_dirty (on_ram_write frame 26000 500).dirty_rows (26400 / frame.stride) ≡ true)
    × (row_is_dirty (on_ram_write frame 26000 500).dirty_rows 12 ≡ (
        row_is_dirty frame.dirty_rows 12
        || (leb (26000 / frame.stride) 12
            && leb 12 (min (last_byte frame 26000 500 / frame.stride) (frame.height - 1)))))
    × ((on_ram_write frame 26000 500).dirty_generation ≡ (frame.dirty_generation + 1) % u64_mod)
on_ram_write-row_is_dirty_example =
    on_ram_write-row_is_dirty frame 26000 500 26400 12 (omega arith) (omega arith) (omega arith)
      (omega arith) (omega arith) (omega arith) (omega arith) (omega arith)
