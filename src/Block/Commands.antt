-- ===== src/Block/Commands.antt =====
-- src/block_mmio.cpp: the commands that are refused, and where the others reach.
use aarchvm.Base.{
  ℕ, ◌+◌, ◌/◌, ◌≡◌, ◌≢◌, refl, true, not, ◌||◌, leb, ◌==◌, Bool-cases, if◌then◌else◌, inl, inr,
  arith,
}
use aarchvm.Bus.{Machine}
use aarchvm.Block.{
  Status, ok, bad_command, range, buffer, count, BlockMmio, range_status, with_status, transfer,
  transfer_from_image, transfer_to_image, execute_command,
}

-- The reason to refuse a command before anything moves, told by the blocks that it asks for.
unfoldable pub refusal : ℕ → BlockMmio → Status
refusal command b =
    if not (command == 1 || command == 2)
    then bad_command
    else if b.block_count == 0
    then count
    else if leb (b.lba + b.block_count) (b.image_size / 512)
    then ok
    else range

range_status-refusal :
    (command : ℕ) (b : BlockMmio)
    → (command == 1 || command == 2) ≡ true
    → range_status b ≡ refusal command b
unfolding range_status refusal
range_status-refusal command b h = ground (arith, h)

module _ {ℓ} {S : Type ℓ} (observer : ℕ → ℕ → Machine S → Machine S) where
  transfer-refused :
      (f : BlockMmio → Machine S → BlockMmio × Machine S) (s : Status) (b : BlockMmio)
      (m : Machine S)
      → s ≢ ok
      → transfer observer f s b m ≡ (with_status b s, m)
  unfolding transfer
  transfer-refused f ok b m n = absurd (n refl)
  transfer-refused f bad_command b m n = refl
  transfer-refused f range b m n = refl
  transfer-refused f buffer b m n = refl
  transfer-refused f count b m n = refl

  -- A command that is unknown, or that asks for no block or for blocks beyond the end of the image,
  -- only reports why: neither the image nor the machine changes.
  pub execute_command-refused :
      (command : ℕ) (b : BlockMmio) (m : Machine S)
      → refusal command b ≢ ok
      → execute_command observer command b m ≡ (with_status b (refusal command b), m)
  unfolding execute_command
  execute_command-refused command b m n = elim (Bool-cases (command == 1)) [
    | inl e ↦
        let same = range_status-refusal command b (ground (arith, e)) in
        rw (execute_command, e, same)
          (transfer-refused (transfer_from_image observer) (refusal command b) b m n)
    | inr e ↦ elim (Bool-cases (command == 2)) [
      | inl e' ↦
          let same = range_status-refusal command b (ground (arith, e')) in
          rw (execute_command, e, e', same)
            (transfer-refused (transfer_to_image observer) (refusal command b) b m n)
      | inr e' ↦
          let unknown : refusal command b ≡ bad_command =
            (unfold refusal in ground (arith, e, e')) in
          rw (execute_command, e, e', unknown) refl
    ]
  ]
