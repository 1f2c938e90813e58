-- ===== src/Cpu/Tests.antt =====
-- Runs of instructions and arithmetic on concrete values.
use aarchvm.Base.{
  ℕ, ◌*◌, ◌+◌, ◌-◌, ◌^◌, ◌/◌, ◌%◌, ◌≡◌, refl, true, false, ltb, leb, ◌||◌, ◌&&◌, bit, Option, none,
  arith,
}
use aarchvm.Cpu.{Cpu, ones, shl64, sub64, masked, set_flags_sub, set_flags_add, condition_holds}
use aarchvm.Cpu.Decode.{DecodedInsn, decode_add_sub_imm}
use aarchvm.Cpu.Word.{decode_insn}
use aarchvm.Cpu.Exec.{exec_decoded}
use aarchvm.Cpu.SlowRegisters.{exec_slow}
use aarchvm.Cpu.Whole.{exec_decoded-decode_insn}
use aarchvm.Cpu.Compare.{
  set_flags_sub-condition_holds, set_flags_add_overflow, outcome, biased, range,
}
use aarchvm.Cpu.Multiply.{smulh64, smulh64_lem, widened}
use aarchvm.Cpu.Masks.{replicate, replicate_from}
use aarchvm.Cpu.Loops.{bit-replicate}

abbrev start : Cpu
start = record {
  regs = λ idx. idx * 1000;
  pc = 0x80004;
  pstate = record { n = false; z = false; c = false; v = false };
  uses_sp_el0 = false;
  sp_el0 = 0;
  sp_el1 = 0;
}

abbrev no_memory : Cpu → DecodedInsn → Option Cpu
no_memory m d = none

-- ADDS X0, X1, #5.
abbrev adds_word : ℕ
adds_word = 0xB1001420

exec_decoded-decode_insn_example :
    exec_decoded no_memory start (decode_insn adds_word) ≡ exec_slow start adds_word
unfolding decode_insn decode_add_sub_imm
exec_decoded-decode_insn_example = exec_decoded-decode_insn no_memory start adds_word refl

-- -1 against 1 at 32 bits: below as signed numbers.
set_flags_sub-condition_holds_example :
    condition_holds (set_flags_sub start 0xFFFFFFFF 1 (masked (sub64 0xFFFFFFFF 1) true) true) 11
    ≡ outcome 0xFFFFFFFF 1 (biased 0xFFFFFFFF true) (biased 1 true) 11
set_flags_sub-condition_holds_example =
    set_flags_sub-condition_holds start 0xFFFFFFFF 1 true 11 (omega arith) (omega arith) refl

signed_outcome : outcome 0xFFFFFFFF 1 (biased 0xFFFFFFFF true) (biased 1 true) 11 ≡ true
unfolding outcome
signed_outcome = refl

set_flags_add_overflow_example :
    let p = (set_flags_add start (2 ^ 63 - 1) 1 ((2 ^ 63 - 1 + 1) % range false) false).pstate in
    let sum = biased (2 ^ 63 - 1) false + biased 1 false in
    let half = range false / 2 in
    (p.c ≡ leb (range false) (2 ^ 63 - 1 + 1))
    × (p.v ≡ (ltb sum half || leb (range false + half) sum))
set_flags_add_overflow_example =
    set_flags_add_overflow start (2 ^ 63 - 1) 1 false (omega arith) (omega arith)

smulh64_example :
    smulh64 (2 ^ 64 - 3) (2 ^ 62) ≡ widened (2 ^ 64 - 3) * widened (2 ^ 62) % 2 ^ 128 / 2 ^ 64
smulh64_example = smulh64_lem (2 ^ 64 - 3) (2 ^ 62) (omega arith) (omega arith)

-- 0x35 in each byte of a word.
bit-replicate_example : bit (replicate 0xF35 8 (8 * 8)) 42 ≡ (ltb 42 (8 * 8) && bit 0xF35 (42 % 8))
bit-replicate_example = bit-replicate 0xF35 8 8 42 (omega arith) (omega arith) (omega arith)

replicate_test : replicate 0xF35 8 64 ≡ 0x3535353535353535
unfolding replicate replicate_from ones shl64
replicate_test = refl
