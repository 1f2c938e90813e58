-- ===== src/Block.antt =====
-- src/block_mmio.cpp, include/aarchvm/block_mmio.hpp: the simple block device, over the model of the
-- bus. The image is a function on the offset with the number of its bytes beside it; the snapshots are
-- left out.
pub mod Commands
pub mod Tests
use aarchvm.Base.{
  ℕ, zero, suc, ◌+◌, ◌-◌, ◌*◌, ◌/◌, ◌%◌, ◌^◌, Bool, true, false, ◌&&◌, ◌||◌, ltb, leb, ◌==◌,
  if◌then◌else◌, u32_mod, Option, none, some, List, [], ◌∷◌,
}
use aarchvm.Bus.{Device, Machine}
use aarchvm.Bus.Image.{memory, bus_ram_ptr, write_ram_buffer}

pub data Status : Type 0 where
  ok bad_command range buffer count : Status

unfoldable pub status_number : Status → ℕ
status_number ok = 0
status_number bad_command = 1
status_number range = 2
status_number buffer = 3
status_number count = 4

pub record BlockMmio : Type 0 where
  pub image : ℕ → ℕ
  pub image_size : ℕ
  pub buffer_addr : ℕ
  pub lba : ℕ
  pub block_count : ℕ
  pub status : Status

abbrev pub num_blocks : BlockMmio → ℕ
num_blocks b = b.image_size / 512

abbrev access_matches : ℕ → ℕ → ℕ → ℕ → Bool
access_matches offset size reg_offset reg_size = offset == reg_offset && size == reg_size

unfoldable pub read : BlockMmio → ℕ → ℕ → ℕ
read b offset size =
    if access_matches offset size 0 4
    then 0x41424C4B
    else if access_matches offset size 4 4
    then 1
    else if access_matches offset size 8 4
    then 512
    else if access_matches offset size 0xC 4
    then 1
    else if access_matches offset size 0x10 8
    then num_blocks b
    else if access_matches offset size 0x18 8
    then b.buffer_addr
    else if access_matches offset size 0x20 8
    then b.lba
    else if access_matches offset size 0x28 4
    then b.block_count
    else if access_matches offset size 0x2C 4
    then status_number b.status
    else 0

-- An image is padded to whole blocks with zeros, and the registers start again.
unfoldable pub set_image : (ℕ → ℕ) → ℕ → BlockMmio
set_image bytes size = record {
  image = λ i. if ltb i size then bytes i else 0;
  image_size = (size + 511) / 512 * 512;
  buffer_addr = 0;
  lba = 0;
  block_count = 0;
  status = ok;
}

-- What `valid_transfer_range` reports, `ok` where it accepts.
unfoldable pub range_status : BlockMmio → Status
range_status b =
    if b.block_count == 0
    then count
    else if leb (num_blocks b) b.lba || ltb (num_blocks b - b.lba) b.block_count
    then range
    else ok

-- The bytes of a block in turn.
unfoldable pub bytes_from : (ℕ → ℕ) → ℕ → ℕ → List ℕ
bytes_from image offset zero = []
bytes_from image offset (suc n) = image offset ∷ bytes_from image (offset + 1) n

unfoldable pub copied : (ℕ → ℕ) → ℕ → (ℕ → ℕ) → ℕ → ℕ → ℕ → ℕ
copied image offset source place n i =
    if leb offset i && ltb i (offset + n) then source (place + (i - offset)) else image i

abbrev pub with_status : BlockMmio → Status → BlockMmio
with_status b s = record b { status = s }

module _ {ℓ} {S : Type ℓ} (observer : ℕ → ℕ → Machine S → Machine S) where
  unfoldable pub sent : BlockMmio → Machine S × Bool → BlockMmio × Machine S
  sent b (m, true) = (with_status b ok, m)
  sent b (m, false) = (with_status b buffer, m)

  unfoldable pub transfer_from_image : BlockMmio → Machine S → BlockMmio × Machine S
  transfer_from_image b m = sent b (
      write_ram_buffer observer m b.buffer_addr
        (bytes_from b.image (b.lba * 512) (b.block_count * 512)))

  -- The source of a store: the bytes of a memory and the place in them.
  unfoldable pub source_of : Machine S → Option (Device × ℕ) → Option ((ℕ → ℕ) × ℕ)
  source_of m none = none
  source_of m (some (device, offset)) = elim (memory m device) [
    | none ↦ none
    | some r ↦ some (r.bytes, offset)
  ]

  unfoldable pub received : BlockMmio → Option ((ℕ → ℕ) × ℕ) → BlockMmio
  received b none = with_status b buffer
  received b (some (bytes, place)) = record b {
    status = ok;
    image = copied b.image (b.lba * 512) bytes place (b.block_count * 512);
  }

  unfoldable pub transfer_to_image : BlockMmio → Machine S → BlockMmio × Machine S
  transfer_to_image b m =
      (received b (source_of m (bus_ram_ptr m b.buffer_addr (b.block_count * 512))), m)

  unfoldable pub transfer :
      (BlockMmio → Machine S → BlockMmio × Machine S)
      → Status
      → BlockMmio
      → Machine S
      → BlockMmio × Machine S
  transfer f ok b m = f b m
  transfer f bad_command b m = (with_status b bad_command, m)
  transfer f range b m = (with_status b range, m)
  transfer f buffer b m = (with_status b buffer, m)
  transfer f count b m = (with_status b count, m)

  unfoldable pub execute_command : ℕ → BlockMmio → Machine S → BlockMmio × Machine S
  execute_command command b m =
      if command == 1
      then transfer transfer_from_image (range_status b) b m
      else if command == 2
      then transfer transfer_to_image (range_status b) b m
      else (with_status b bad_command, m)

  unfoldable pub write : ℕ → ℕ → ℕ → BlockMmio → Machine S → BlockMmio × Machine S
  write offset value size b m =
      if access_matches offset size 0x18 8
      then (record b { buffer_addr = value }, m)
      else if access_matches offset size 0x20 8
      then (record b { lba = value }, m)
      else if access_matches offset size 0x28 4
      then (record b { block_count = value % u32_mod }, m)
      else if access_matches offset size 0x2C 4
      then (with_status b ok, m)
      else if access_matches offset size 0x30 4
      then execute_command (value % u32_mod) b m
      else (b, m)
