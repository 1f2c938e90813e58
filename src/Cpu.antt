-- ===== src/Cpu.antt =====
-- src/cpu.cpp and include/aarchvm/cpu.hpp: the registers of a processor, its condition flags, and the
-- arithmetic that the instructions share. A signed number is its 64-bit pattern.
pub mod Masks
pub mod Loops
pub mod Decode
pub mod Word
pub mod Fields
pub mod Exec
pub mod Slow
pub mod SlowRegisters
pub mod Multiply
pub mod Compare
pub mod Same
pub mod SameRegisters
pub mod Kinds
pub mod Cases
pub mod Whole
pub mod Tests
use aarchvm.Base.{
  ℕ, zero, suc, ◌+◌, ◌-◌, ◌*◌, ◌/◌, ◌%◌, ◌^◌, bit_and, bit_or, bit_xor, Bool, true, false, not,
  ◌&&◌, ◌||◌, ltb, leb, ◌==◌, if◌then◌else◌, bit, same, u64_mod, u32_mod,
}

pub record PState : Type 0 where
  pub n : Bool
  pub z : Bool
  pub c : Bool
  pub v : Bool

pub record Cpu : Type 0 where
  pub regs : ℕ → ℕ
  pub pc : ℕ
  pub pstate : PState
  pub uses_sp_el0 : Bool
  pub sp_el0 : ℕ
  pub sp_el1 : ℕ

abbrev pub low32 : ℕ → ℕ
low32 value = value % u32_mod

abbrev pub low8 : ℕ → ℕ
low8 value = value % 2 ^ 8

abbrev pub sub64 : ℕ → ℕ → ℕ
sub64 a b = (a + (u64_mod - b)) % u64_mod

abbrev pub not64 : ℕ → ℕ
not64 a = u64_mod - 1 - a

unfoldable pub shl64 : ℕ → ℕ → ℕ
shl64 a places = a * 2 ^ places % u64_mod

unfoldable pub reg : Cpu → ℕ → ℕ
reg m idx = if leb 31 idx then 0 else m.regs idx

unfoldable pub reg32 : Cpu → ℕ → ℕ
reg32 m idx = low32 (reg m idx)

abbrev pub put : (ℕ → ℕ) → ℕ → ℕ → ℕ → ℕ
put regs idx value other = if other == idx then value else regs other

unfoldable pub set_reg : Cpu → ℕ → ℕ → Cpu
set_reg m idx value = if leb 31 idx then m else record m { regs = put m.regs idx value }

unfoldable pub set_reg32 : Cpu → ℕ → ℕ → Cpu
set_reg32 m idx value = set_reg m idx (low32 value)

unfoldable pub sp_or_reg : Cpu → ℕ → ℕ
sp_or_reg m idx = if idx == 31 then m.regs 31 else reg m idx

unfoldable pub set_sp : Cpu → ℕ → Cpu
set_sp m value =
    if m.uses_sp_el0
    then record m { regs = put m.regs 31 value; sp_el0 = value }
    else record m { regs = put m.regs 31 value; sp_el1 = value }

unfoldable pub set_sp_or_reg : Cpu → ℕ → ℕ → Bool → Cpu
set_sp_or_reg m idx value is_32bit =
    if idx == 31
    then set_sp m (if is_32bit then low32 value else value)
    else if is_32bit
    then set_reg32 m idx value
    else set_reg m idx value

unfoldable pub ones : ℕ → ℕ
ones bits = if bits == 0 then 0 else if leb 64 bits then u64_mod - 1 else 2 ^ bits - 1

unfoldable pub sign_extend : ℕ → ℕ → ℕ
sign_extend value bits =
    if bits == 0
    then 0
    else if leb 64 bits
    then value
    else sub64 (bit_xor (bit_and value (ones bits)) (2 ^ (bits - 1))) (2 ^ (bits - 1))

-- `int32_t` from a wider signed number, and back.
abbrev pub to_int32 : ℕ → ℕ
to_int32 value = value % u32_mod

unfoldable pub from_int32 : ℕ → ℕ
from_int32 value = if ltb value (2 ^ 31) then value else value + (u64_mod - u32_mod)

unfoldable pub condition_holds : Cpu → ℕ → Bool
condition_holds m cond =
    let p = m.pstate in
    let code = bit_and cond 0xF in
    if code == 0x0
    then p.z
    else if code == 0x1
    then not p.z
    else if code == 0x2
    then p.c
    else if code == 0x3
    then not p.c
    else if code == 0x4
    then p.n
    else if code == 0x5
    then not p.n
    else if code == 0x6
    then p.v
    else if code == 0x7
    then not p.v
    else if code == 0x8
    then p.c && not p.z
    else if code == 0x9
    then not p.c || p.z
    else if code == 0xA
    then same p.n p.v
    else if code == 0xB
    then not (same p.n p.v)
    else if code == 0xC
    then not p.z && same p.n p.v
    else if code == 0xD
    then p.z || not (same p.n p.v)
    else code == 0xE

abbrev pub masked : ℕ → Bool → ℕ
masked value is_32bit = if is_32bit then low32 value else value

abbrev pub sign_of : ℕ → Bool → Bool
sign_of value is_32bit = if is_32bit then bit value 31 else bit value 63

unfoldable pub set_flags_add : Cpu → ℕ → ℕ → ℕ → Bool → Cpu
set_flags_add m lhs rhs result is_32bit =
    let l = masked lhs is_32bit in
    let r = masked rhs is_32bit in
    let res = masked result is_32bit in
    record m {
      pstate = record {
        n = sign_of res is_32bit;
        z = res == 0;
        c = ltb res l;
        v =
            same (sign_of l is_32bit) (sign_of r is_32bit)
            && not (same (sign_of l is_32bit) (sign_of res is_32bit));
      };
    }

unfoldable pub set_flags_sub : Cpu → ℕ → ℕ → ℕ → Bool → Cpu
set_flags_sub m lhs rhs result is_32bit =
    let l = masked lhs is_32bit in
    let r = masked rhs is_32bit in
    let res = masked result is_32bit in
    record m {
      pstate = record {
        n = sign_of res is_32bit;
        z = res == 0;
        c = leb r l;
        v =
            not (same (sign_of l is_32bit) (sign_of r is_32bit))
            && not (same (sign_of l is_32bit) (sign_of res is_32bit));
      };
    }

unfoldable pub set_flags_logic : Cpu → ℕ → Bool → Cpu
set_flags_logic m result is_32bit =
    let value = masked result is_32bit in
    record m {
      pstate = record { n = sign_of value is_32bit; z = value == 0; c = false; v = false };
    }
