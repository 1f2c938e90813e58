-- ===== src/Bus/Tests.antt =====
-- The theorems about src/bus.cpp at a concrete machine, and runs of its functions.
use aarchvm.Base.{
  ℕ, ◌+◌, ◌-◌, ◌*◌, ◌%◌, ◌^◌, ◌≡◌, refl, true, none, some, List, [], ◌∷◌, arith, bit,
}
use aarchvm.Ram
use aarchvm.Ram.{fresh_ram, count}
use aarchvm.Framebuffer.{new_tracker, row_is_dirty, on_ram_write, mark_rows, mark_from, mark_row}
use aarchvm.Bus.{
  uart, rtc, mmio, boot_ram, Machine, Devices, reached, find, mapped_read, mapped_write,
}
use aarchvm.Bus.FastPath.{
  read, write, fast_write, write_ram_only, fast_device, store_framebuffer, store_ram,
}
use aarchvm.Bus.Agree.{IsSized, read-mapped_read, write-mapped_write}
use aarchvm.Bus.Image.{load_image, loaded_sdram}
use aarchvm.Bus.Loads.{load_image-read}

-- Devices that keep the last offset read and the last value written.
abbrev echo : Devices (ℕ × ℕ)
echo = record {
  read_device = λ d offset size m. (record m { rest = (offset, m.rest.1) }, size);
  write_device = λ d offset value size m. record m { rest = (offset, value) };
}

abbrev board : Machine (ℕ × ℕ)
board = record {
  boot_bytes = fresh_ram 0x8000000;
  framebuffer_bytes = fresh_ram 0x400000;
  sdram_bytes = fresh_ram 0x40000000;
  tracker = new_tracker 600 3200 0x400000;
  rest = (0, 0);
}

board-IsSized : IsSized board
unfolding IsSized
board-IsSized = (refl, refl, refl)

uart_test : reached 0x9000018 4 ≡ some (mmio uart, 0x18)
unfolding reached find
uart_test = refl

-- The clock has a mapping and no range of the fast path.
rtc_test : (fast_device 0x9030000 4 ≡ none) × (reached 0x9030000 4 ≡ some (mmio rtc, 0))
unfolding reached find fast_device
rtc_test = (refl, refl)

-- The end of an access wraps, and the boot memory takes an address that it does not hold.
wrapped_test : reached (2 ^ 64 - 4) 8 ≡ some (boot_ram, 2 ^ 64 - 4)
unfolding reached find
wrapped_test = refl

abbrev marked : Machine (ℕ × ℕ)
marked = (write echo 0x10000C80 0xFF 4 board).0

marked_test : row_is_dirty marked.tracker.dirty_rows 1 ≡ true
unfolding write fast_write write_ram_only store_framebuffer store_ram on_ram_write mark_rows
    row_is_dirty bit mark_from mark_row
marked_test = refl

read-mapped_read_example : read echo 0x10000C80 4 board ≡ mapped_read echo 0x10000C80 4 board
read-mapped_read_example = read-mapped_read echo 0x10000C80 4 board (omega arith) board-IsSized

write-mapped_write_example :
    write echo 0x10000C80 0xFF 4 board ≡ mapped_write echo 0x10000C80 0xFF 4 board
write-mapped_write_example =
    write-mapped_write echo 0x10000C80 0xFF 4 board (omega arith) board-IsSized

abbrev image : List ℕ
image = 0x11111111 ∷ 0x22222222 ∷ 0x33333333 ∷ []

abbrev loaded : Machine (ℕ × ℕ)
loaded = record board {
  sdram_bytes = record { bytes = Ram.copy_words (λ i. 0) 0x80000 image; size_bytes = 0x40000000 };
}

load_image_test : load_image 0x40080000 image board ≡ some loaded
unfolding load_image loaded_sdram Ram.load Ram.fits
load_image_test = refl

load_image-read_example :
    read echo (0x40080000 + 1 * 4) 4 loaded ≡ (loaded, some (0x22222222 % 2 ^ 32))
load_image-read_example =
    load_image-read echo 0x40080000 (0x11111111 ∷ []) 0x22222222 (0x33333333 ∷ []) board loaded
      board-IsSized (omega arith) load_image_test
