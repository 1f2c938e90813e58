-- ===== src/System/State.antt =====
-- src/system_registers.cpp: the processor state and its forms as numbers.
use aarchvm.Base.{ℕ, ◌/◌, ◌%◌, ◌^◌, bit_or, Bool, false, ◌||◌, ◌==◌, if◌then◌else◌, bit}
use aarchvm.System.{PState, SystemRegisters}

-- `static_cast<std::uint64_t>(b) << k`.
unfoldable pub flag : Bool → ℕ → ℕ
flag b k = if b then 2 ^ k else 0

abbrev pub with_pstate : SystemRegisters → PState → SystemRegisters
with_pstate s p = record s { pstate = p }

-- The exception level, and whether it uses the stack of level 0.
abbrev pub el : PState → ℕ
el p = p.mode / 4 % 4

abbrev pub uses_sp_el0 : PState → Bool
uses_sp_el0 p = p.mode == 0 || p.mode == 4

unfoldable pub nzcv_bits : PState → ℕ
nzcv_bits p = bit_or (bit_or (bit_or (flag p.n 31) (flag p.z 30)) (flag p.c 29)) (flag p.v 28)

unfoldable pub daif_bits : PState → ℕ
daif_bits p = bit_or (bit_or (bit_or (flag p.d 9) (flag p.a 8)) (flag p.i 7)) (flag p.f 6)

unfoldable pub pstate_bits : PState → ℕ
pstate_bits p =
    bit_or
      (bit_or (bit_or (bit_or (bit_or (nzcv_bits p) (flag p.ss 21)) (flag p.il 20)) (daif_bits p))
        (flag p.pan 22))
      (p.mode % 16)

unfoldable pub put_nzcv : ℕ → PState → PState
put_nzcv value p = record p {
  n = bit value 31;
  z = bit value 30;
  c = bit value 29;
  v = bit value 28;
}

unfoldable pub put_daif : ℕ → PState → PState
put_daif value p = record p { d = bit value 9; a = bit value 8; i = bit value 7; f = bit value 6 }

abbrev pub set_nzcv : ℕ → SystemRegisters → SystemRegisters
set_nzcv value s = with_pstate s (put_nzcv value s.pstate)

abbrev pub set_daif : ℕ → SystemRegisters → SystemRegisters
set_daif value s = with_pstate s (put_daif value s.pstate)

unfoldable pub put_pstate_bits : ℕ → PState → PState
put_pstate_bits value p =
    let flags = put_nzcv value p in
    let masks = put_daif value (record flags { ss = bit value 21; il = bit value 20 }) in
    record masks { pan = bit value 22; mode = value % 16 }

unfoldable pub set_pstate_bits : ℕ → SystemRegisters → SystemRegisters
set_pstate_bits value s =
    let p = put_pstate_bits value s.pstate in
    record s { pstate = p; spsel = if el p == 1 then p.mode % 2 else 0 }

unfoldable pub set_spsel : ℕ → SystemRegisters → SystemRegisters
set_spsel value s =
    let chosen = if value % 2 == 0 then 4 else 5 in
    record s {
      spsel = value % 2;
      pstate = record s.pstate { mode = if el s.pstate == 1 then chosen else s.pstate.mode };
    }

-- The mask bits of the immediate forms.
unfoldable pub daif_set : ℕ → PState → PState
daif_set imm4 p = record p {
  d = bit imm4 3 || p.d;
  a = bit imm4 2 || p.a;
  i = bit imm4 1 || p.i;
  f = bit imm4 0 || p.f;
}

unfoldable pub daif_clr : ℕ → PState → PState
daif_clr imm4 p = record p {
  d = if bit imm4 3 then false else p.d;
  a = if bit imm4 2 then false else p.a;
  i = if bit imm4 1 then false else p.i;
  f = if bit imm4 0 then false else p.f;
}
