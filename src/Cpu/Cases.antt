-- ===== src/Cpu/Cases.antt =====
-- src/cpu.cpp: what the decoder leaves after the immediate forms runs as the word itself: additions and
-- subtractions of shifted registers, logical instructions and bit fields.
use aarchvm.Base.{
  ℕ, ◌<◌, u64_mod, ◌≡◌, refl, ap, ◌∙◌, bit_and, true, false, not, ◌&&◌, ◌||◌, ltb, ◌==◌, Option,
  some, ==_iff, arith, inl, inr, Bool-cases,
}
use aarchvm.Cpu.{Cpu}
use aarchvm.Cpu.Word.{decode_rest}
use aarchvm.Cpu.Decode.{
  DecodedKind, DecodedInsn, logical_shifted, logical_imm, bitfield, add_sub_shifted, matches,
  any_of, is_sf, rd_of, rn_of, rm_of, decode_add_sub_shifted, decode_logical_shifted,
  decode_logical_imm, decode_bitfield,
}
use aarchvm.Cpu.Exec.{sized_reg, shifted_operand, exec_decoded, exec_kind}
use aarchvm.Cpu.Same.{add_same, sub_same, matched_part}
use aarchvm.Cpu.SameRegisters.{
  add_sub_shifted_run, logical_shifted_run, logical_imm_run, bitfield_run, shifted_bound,
}
use aarchvm.Cpu.SlowRegisters.{
  exec_registers, add_shifted, sub_shifted, shift_type_of, imm6_of, n_of,
}
use aarchvm.Cpu.Kinds.{runs, split_case, load_store_memory, refused}

abbrev pub run : (Cpu → DecodedInsn → Option Cpu) → Cpu → DecodedInsn → Option Cpu
run memory m d = exec_decoded memory m d

module _ (memory : Cpu → DecodedInsn → Option Cpu) (m : Cpu) (insn : ℕ) where
  -- One word under another mask: a decoded pattern leaves no other.
  other_word :
      (mask value : ℕ)
      → matches insn mask value ≡ true
      → bit_and insn (bit_and mask 0x1F000000) ≡ bit_and value 0x1F000000
  other_word mask value h = matched_part insn mask value 0x1F000000 h

  not_add :
      (word : ℕ)
      → bit_and insn 0x1F000000 ≡ word
      → (word == 0x0B000000) ≡ false
      → ((matches insn 0x7F200000 0x0B000000 || matches insn 0x7F200000 0x2B000000) ≡ false)
        × ((matches insn 0x7F200000 0x4B000000 || matches insn 0x7F200000 0x6B000000) ≡ false)
  not_add word e h =
      let at_add = other_word 0x7F200000 0x0B000000 in
      let at_adds = other_word 0x7F200000 0x2B000000 in
      let at_sub = other_word 0x7F200000 0x4B000000 in
      let at_subs = other_word 0x7F200000 0x6B000000 in
      (ground (arith, e, h, at_add, at_adds), ground (arith, e, h, at_sub, at_subs))

  logical_kind :
      runs (decode_logical_shifted insn) ≡ true
      → ((not (is_sf insn) && any_of (imm6_of insn) 0x20) ≡ false)
        × ((decode_logical_shifted insn).kind ≡ logical_shifted)
  unfolding decode_logical_shifted
  logical_kind kind =
      let good = refused (not (is_sf insn) && any_of (imm6_of insn) 0x20) _ kind in
      (good, rw good refl)

  imm_kind :
      runs (decode_logical_imm insn) ≡ true
      → ((not (is_sf insn) && not (n_of insn == 0)) ≡ false)
        × ((decode_logical_imm insn).kind ≡ logical_imm)
  unfolding decode_logical_imm
  imm_kind kind =
      let good = refused (not (is_sf insn) && not (n_of insn == 0)) _ kind in (good, rw good refl)

  bitfield_kind :
      runs (decode_bitfield insn) ≡ true
      → (((is_sf insn && not (n_of insn == 1)) || (not (is_sf insn) && not (n_of insn == 0)))
          ≡ false)
        × ((decode_bitfield insn).kind ≡ bitfield)
  unfolding decode_bitfield
  bitfield_kind kind =
      let good =
        refused ((is_sf insn && not (n_of insn == 1)) || (not (is_sf insn) && not (n_of insn == 0)))
          _ kind in
      (good, rw good refl)

  shifted_kind :
      runs (decode_add_sub_shifted insn) ≡ true
      → (ltb 2 (shift_type_of insn) ≡ false)
        × ((decode_add_sub_shifted insn).kind ≡ add_sub_shifted)
  unfolding decode_add_sub_shifted
  shifted_kind kind = let good = refused (ltb 2 (shift_type_of insn)) _ kind in (good, rw good refl)

  pub of_kind :
      (d : DecodedInsn) (k : DecodedKind) → d.kind ≡ k → run memory m d ≡ exec_kind memory k m d
  unfolding exec_decoded
  of_kind d k e = ap (λ k. exec_kind memory k m d) e

  logical_case :
      matches insn 0x1F000000 0x0A000000 ≡ true
      → runs (decode_logical_shifted insn) ≡ true
      → run memory m (decode_logical_shifted insn) ≡ exec_registers m insn
  unfolding exec_registers
  logical_case h kind =
      let others = not_add 0x0A000000 ((==_iff _ _).0 h) refl in
      let found = logical_kind kind in
      let e = of_kind (decode_logical_shifted insn) logical_shifted (found.1) in
      rw (others.0, others.1, h) (e ∙ logical_shifted_run m insn (found.0))

  imm_case :
      matches insn 0x1F000000 0x0A000000 ≡ false
      → matches insn 0x1F000000 0x12000000 ≡ true
      → runs (decode_logical_imm insn) ≡ true
      → run memory m (decode_logical_imm insn) ≡ exec_registers m insn
  unfolding exec_registers
  imm_case g h kind =
      let others = not_add 0x12000000 ((==_iff _ _).0 h) refl in
      let found = imm_kind kind in
      let e = of_kind (decode_logical_imm insn) logical_imm (found.1) in
      rw (others.0, others.1, g, h) (e ∙ logical_imm_run m insn (found.0))

  bitfield_case :
      matches insn 0x1F000000 0x0A000000 ≡ false
      → matches insn 0x1F000000 0x12000000 ≡ false
      → matches insn 0x1F800000 0x13000000 ≡ true
      → runs (decode_bitfield insn) ≡ true
      → run memory m (decode_bitfield insn) ≡ exec_registers m insn
  unfolding exec_registers
  bitfield_case f g h kind =
      let others = not_add 0x13000000 (other_word 0x1F800000 0x13000000 h) refl in
      let found = bitfield_kind kind in
      let e = of_kind (decode_bitfield insn) bitfield (found.1) in
      rw (others.0, others.1, f, g, h) (e ∙ bitfield_run m insn (found.0))

  shifted_case :
      (matches insn 0x7F200000 0x2B000000
          || (matches insn 0x7F200000 0x6B000000 || matches insn 0x7F200000 0x4B000000))
        ≡ true
      → runs (decode_add_sub_shifted insn) ≡ true
      → run memory m (decode_add_sub_shifted insn) ≡ exec_registers m insn
  unfolding exec_registers add_shifted sub_shifted
  shifted_case h kind =
      let found = shifted_kind kind in
      let sf = is_sf insn in
      let sets = any_of insn 0x20000000 in
      let lhs = sized_reg m sf (rn_of insn) in
      let rhs = shifted_operand m sf (rm_of insn) (shift_type_of insn) (imm6_of insn) in
      let started = of_kind (decode_add_sub_shifted insn) add_sub_shifted (found.1) in
      elim (Bool-cases (matches insn 0x7F200000 0x2B000000)) [
        | inl a ↦
            let bit30 : any_of insn 0x40000000 ≡ false =
              ground (arith, matched_part insn 0x7F200000 0x2B000000 0x40000000 a) in
            let add : (matches insn 0x7F200000 0x0B000000 || matches insn 0x7F200000 0x2B000000)
                ≡ true =
              ground (arith, a) in
            let sum = add_sub_shifted_run m insn false bit30 (found.0) in
            rw (add, found.0) (started ∙ ap some (sum ∙ add_same m sf sets (rd_of insn) lhs rhs))
        | inr a ↦
            let sub : (matches insn 0x7F200000 0x4B000000 || matches insn 0x7F200000 0x6B000000)
                ≡ true =
              ground (arith, a, h) in
            let add : (matches insn 0x7F200000 0x0B000000 || matches insn 0x7F200000 0x2B000000)
                ≡ false =
              ground (arith, sub) in
            let bit30 : any_of insn 0x40000000 ≡ true = ground (
              arith,
              sub,
              matched_part insn 0x7F200000 0x4B000000 0x40000000,
              matched_part insn 0x7F200000 0x6B000000 0x40000000,
            ) in
            let difference = add_sub_shifted_run m insn true bit30 (found.0) in
            let fits : sf ≡ false → rhs < u64_mod = λ narrow.
              rw narrow (shifted_bound m (rm_of insn) (shift_type_of insn) (imm6_of insn)) in
            rw (sub, add, found.0)
              (started ∙ ap some (difference ∙ sub_same m sf sets (rd_of insn) lhs rhs fits))
      ]

  pub rest_case :
      runs (decode_rest insn) ≡ true → run memory m (decode_rest insn) ≡ exec_registers m insn
  unfolding decode_rest
  rest_case =
      split_case (run memory m) (matches insn 0x1F000000 0x0A000000) _ _ (exec_registers m insn)
        logical_case
        (λ f.
          split_case (run memory m) (matches insn 0x1F000000 0x12000000) _ _ (exec_registers m insn)
            (imm_case f)
            (λ g.
              split_case (run memory m) (matches insn 0x1F800000 0x13000000) _ _
                (exec_registers m insn) (bitfield_case f g)
                (λ _.
                  split_case (run memory m)
                    (matches insn 0x7F200000 0x2B000000
                      || (matches insn 0x7F200000 0x6B000000 || matches insn 0x7F200000 0x4B000000))
                    _ _ (exec_registers m insn) shifted_case
                    (λ _ kind. absurd (ground (arith, load_store_memory insn, kind))))))
