-- ===== src/Cpu/Whole.antt =====
-- src/cpu.cpp: whatever the word, its decoded record runs as the word itself.
use aarchvm.Base.{
  ℕ, ◌≡◌, refl, sym, ap, ◌∙◌, true, ◌||◌, if◌then◌else◌, Option, none, some, arith, inl, inr,
  Bool-cases,
}
use aarchvm.Cpu.{Cpu}
use aarchvm.Cpu.Word.{decode_insn, decode_rest}
use aarchvm.Cpu.Decode.{
  DecodedInsn, b_imm, b_cond, cbz, tbz, mov_wide, add_sub_imm, matches, decode_mov_wide,
  decode_add_sub_imm, decode_b_imm, decode_b_cond, decode_cbz, decode_tbz, blank,
}
use aarchvm.Cpu.Exec.{exec_mov_wide, exec_decoded_add_sub_imm}
use aarchvm.Cpu.Slow.{
  exec_branch, branch_imm, branch_cond, compare_branch, test_branch, movz, movk, movn, add_imm,
  sub_imm,
}
use aarchvm.Cpu.Same.{
  b_imm_same, b_cond_same, cbz_same, tbz_same, movz_same, movk_same, movn_same, add_imm_same,
  sub_imm_same,
}
use aarchvm.Cpu.SlowRegisters.{or_else, exec_slow, exec_data_processing, exec_registers}
use aarchvm.Cpu.Kinds.{runs, split_test, some_if, three_tests, four_tests}
use aarchvm.Cpu.Cases.{run, of_kind, rest_case}

module _ (memory : Cpu → DecodedInsn → Option Cpu) (m : Cpu) (insn : ℕ) where
  mov_wide_case :
      (matches insn 0x7F800000 0x52800000
          || (matches insn 0x7F800000 0x72800000 || matches insn 0x7F800000 0x12800000))
        ≡ true
      → exec_mov_wide m (decode_mov_wide insn) ≡ (
          if matches insn 0x7F800000 0x52800000
          then movz m insn
          else if matches insn 0x7F800000 0x72800000
          then movk m insn
          else movn m insn)
  mov_wide_case h = elim (Bool-cases (matches insn 0x7F800000 0x52800000)) [
    | inl a ↦ rw a (movz_same m insn a)
    | inr a ↦ elim (Bool-cases (matches insn 0x7F800000 0x72800000)) [
      | inl b ↦ rw (a, b) (movk_same m insn b)
      | inr b ↦
          let c : matches insn 0x7F800000 0x12800000 ≡ true = ground (arith, a, b, h) in
          rw (a, b) (movn_same m insn c)
    ]
  ]

  add_sub_imm_case :
      (matches insn 0x7F000000 0x11000000
          || (matches insn 0x7F000000 0x31000000
              || (matches insn 0x7F000000 0x51000000 || matches insn 0x7F000000 0x71000000)))
        ≡ true
      → exec_decoded_add_sub_imm m (decode_add_sub_imm insn) ≡ (
          if matches insn 0x7F000000 0x11000000 || matches insn 0x7F000000 0x31000000
          then add_imm m insn
          else sub_imm m insn)
  add_sub_imm_case h =
      elim (Bool-cases (matches insn 0x7F000000 0x11000000 || matches insn 0x7F000000 0x31000000)) [
        | inl a ↦ rw a (add_imm_same m insn a)
        | inr a ↦
            let b : (matches insn 0x7F000000 0x51000000 || matches insn 0x7F000000 0x71000000)
                ≡ true =
              ground (arith, a, h) in
            rw a (sub_imm_same m insn b)
      ]

  -- The other path after the moves.
  abbrev after_moves : Option Cpu
  after_moves =
      if matches insn 0x7FC00000 0x11800000 || matches insn 0x7FC00000 0x51800000
      then none
      else if matches insn 0x7F000000 0x11000000 || matches insn 0x7F000000 0x31000000
      then some (add_imm m insn)
      else if matches insn 0x7F000000 0x51000000 || matches insn 0x7F000000 0x71000000
      then some (sub_imm m insn)
      else exec_registers m insn

  abbrev decode_after_moves : DecodedInsn
  decode_after_moves =
      if matches insn 0x7FC00000 0x11800000 || matches insn 0x7FC00000 0x51800000
      then blank
      else if matches insn 0x7F000000 0x11000000
          || (matches insn 0x7F000000 0x31000000
              || (matches insn 0x7F000000 0x51000000 || matches insn 0x7F000000 0x71000000))
      then decode_add_sub_imm insn
      else decode_rest insn

  sum_case :
      (matches insn 0x7F000000 0x11000000
          || (matches insn 0x7F000000 0x31000000
              || (matches insn 0x7F000000 0x51000000 || matches insn 0x7F000000 0x71000000)))
        ≡ true
      → run memory m (decode_add_sub_imm insn) ≡ (
          if matches insn 0x7F000000 0x11000000 || matches insn 0x7F000000 0x31000000
          then some (add_imm m insn)
          else some (sub_imm m insn))
  unfolding decode_add_sub_imm
  sum_case h =
      of_kind memory m insn (decode_add_sub_imm insn) add_sub_imm refl
      ∙ ap some (add_sub_imm_case h)
      ∙ some_if (matches insn 0x7F000000 0x11000000 || matches insn 0x7F000000 0x31000000)
          (add_imm m insn) (sub_imm m insn)

  after_moves_case : runs decode_after_moves ≡ true → run memory m decode_after_moves ≡ after_moves
  after_moves_case =
      split_test (run memory m) (λ r. r)
        (matches insn 0x7FC00000 0x11800000 || matches insn 0x7FC00000 0x51800000) blank _ none _
        (λ _ kind. absurd (ground (arith, kind)))
        (λ _ kind.
          split_test (run memory m) (λ r. r) _ (decode_add_sub_imm insn) (decode_rest insn) _
            (exec_registers m insn) (λ h _. sum_case h) (λ _. rest_case memory m insn) kind
          ∙ sym (
              four_tests (matches insn 0x7F000000 0x11000000) (matches insn 0x7F000000 0x31000000)
                (matches insn 0x7F000000 0x51000000) (matches insn 0x7F000000 0x71000000)
                (some (add_imm m insn)) (some (sub_imm m insn)) (exec_registers m insn)))

  abbrev decode_after_branches : DecodedInsn
  decode_after_branches =
      if matches insn 0x7F800000 0x52800000
        || (matches insn 0x7F800000 0x72800000 || matches insn 0x7F800000 0x12800000)
      then decode_mov_wide insn
      else decode_after_moves

  data_case :
      runs decode_after_branches ≡ true
      → run memory m decode_after_branches ≡ exec_data_processing m insn
  unfolding exec_data_processing decode_mov_wide
  data_case kind =
      split_test (run memory m) (λ r. r) _ (decode_mov_wide insn) decode_after_moves _ after_moves
        (λ h _. of_kind memory m insn (decode_mov_wide insn) mov_wide refl ∙ mov_wide_case h)
        (λ _. after_moves_case) kind
      ∙ sym (
          three_tests (matches insn 0x7F800000 0x52800000) (matches insn 0x7F800000 0x72800000)
            (matches insn 0x7F800000 0x12800000) (movz m insn) (movk m insn) (movn m insn)
            after_moves)

  -- A word whose decoded record works on registers runs as without the decoder: a branch, a wide move,
  -- an addition or subtraction, a logical instruction or a move of bits, the refusals included.
  pub exec_decoded-decode_insn :
      runs (decode_insn insn) ≡ true → run memory m (decode_insn insn) ≡ exec_slow m insn
  unfolding decode_insn exec_slow exec_branch decode_b_imm decode_b_cond decode_cbz decode_tbz
  exec_decoded-decode_insn =
      let rest = exec_data_processing m insn in
      let tests = split_test (run memory m) (λ r. or_else r rest) in
      tests (matches insn 0x7C000000 0x14000000) (decode_b_imm insn) _ (some (branch_imm m insn)) _
        (λ _ _. of_kind memory m insn (decode_b_imm insn) b_imm refl ∙ ap some (b_imm_same m insn))
        (λ _.
          tests (matches insn 0xFF000010 0x54000000) (decode_b_cond insn) _
            (some (branch_cond m insn)) _
            (λ _ _.
              of_kind memory m insn (decode_b_cond insn) b_cond refl ∙ ap some (b_cond_same m insn))
            (λ _.
              tests (matches insn 0x7F000000 0x34000000 || matches insn 0x7F000000 0x35000000)
                (decode_cbz insn) _ (some (compare_branch m insn)) _
                (λ _ _.
                  of_kind memory m insn (decode_cbz insn) cbz refl ∙ ap some (cbz_same m insn))
                (λ _.
                  tests (matches insn 0x7F000000 0x36000000 || matches insn 0x7F000000 0x37000000)
                    (decode_tbz insn) decode_after_branches (some (test_branch m insn)) none
                    (λ _ _.
                      of_kind memory m insn (decode_tbz insn) tbz refl ∙ ap some (tbz_same m insn))
                    (λ _. data_case))))
