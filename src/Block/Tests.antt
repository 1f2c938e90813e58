-- ===== src/Block/Tests.antt =====
-- The theorem about src/block_mmio.cpp at a concrete device, and runs of its functions.
use aarchvm.Base.{ℕ, ◌≡◌, ◌≢◌, refl, ◌%◌, arith}
use aarchvm.Ram.{fresh_ram}
use aarchvm.Framebuffer.{new_tracker}
use aarchvm.Bus.{Machine}
use aarchvm.Block.{ok, range, BlockMmio, set_image, with_status, execute_command, read}
use aarchvm.Block.Commands.{refusal, execute_command-refused}

-- Three blocks, of which the last is padded.
abbrev disk : BlockMmio
disk = set_image (λ i. i % 256) 1100

blocks_test : read disk 0x10 8 ≡ 3
unfolding read set_image
blocks_test = refl

abbrev board : Machine ℕ
board = record {
  boot_bytes = fresh_ram 0x8000000;
  framebuffer_bytes = fresh_ram 0x400000;
  sdram_bytes = fresh_ram 0x40000000;
  tracker = new_tracker 600 3200 0x400000;
  rest = 0;
}

-- Two blocks from the last on.
abbrev beyond : BlockMmio
beyond = record disk { lba = 2; block_count = 2; buffer_addr = 0x40000000 }

range_test : refusal 1 beyond ≡ range
unfolding refusal set_image
range_test = refl

refused : refusal 1 beyond ≢ ok
unfolding refusal set_image
refused e = absurd (ground (arith, e))

execute_command-refused_example :
    execute_command (λ addr size m. m) 1 beyond board
    ≡ (with_status beyond (refusal 1 beyond), board)
execute_command-refused_example = execute_command-refused (λ addr size m. m) 1 beyond board refused
