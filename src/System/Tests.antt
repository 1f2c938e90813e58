-- ===== src/System/Tests.antt =====
-- The theorems about src/system_registers.cpp at concrete registers, and runs of its functions.
use aarchvm.Base.{◌≡◌, refl, true, false, some, inl}
use aarchvm.System.{SystemRegisters, reset_values, reset_pstate}
use aarchvm.System.Sanitize.{
  sanitize_sctlr_el1, sctlr_writable_mask, sctlr_res1_mask, has_pauth, sanitize_vbar_el1,
}
use aarchvm.System.State.{flag, pstate_bits, nzcv_bits, daif_bits}
use aarchvm.System.Register.{register_of, lookup, make_key, vbar_el1}
use aarchvm.System.Read.{read, read_register}
use aarchvm.System.Write.{write, write_register}
use aarchvm.System.Exception.{
  reset, exception_enter_sync, exception_enter_irq, exception_return, illegal_exception_return,
  syndrome,
}
use aarchvm.System.Return.{
  IsMode, IsConsistent, stepped, exception_enter_sync-exception_return,
  exception_enter_irq-exception_return,
}
use aarchvm.System.Step.{Reachable, reset_state, then_step, write_step, sync_step}
use aarchvm.System.Kept.{IsKept, Reachable-IsKept}
use aarchvm.System.Again.{IsSameModel}
use aarchvm.System.Restore.{is_plain, write-read}

abbrev start : SystemRegisters
start = reset reset_values

-- The control register after a reset: bits 29, 28, 22, 20, 11, 8 and 7 read as one, and 23 is set.
sctlr_test : read 3 0 1 0 0 start ≡ some 0x30D00980
unfolding read reset register_of lookup make_key read_register sanitize_sctlr_el1
    sctlr_writable_mask sctlr_res1_mask has_pauth
sctlr_test = refl

-- A program at level 0 with two flags set.
abbrev user : SystemRegisters
user = record start { pstate = record reset_pstate { mode = 0; z = true; c = true }; spsel = 0 }

user-IsConsistent : IsConsistent user
unfolding IsConsistent IsMode
user-IsConsistent = (inl refl, refl)

bits_test : pstate_bits user.pstate ≡ 0x60000000
unfolding pstate_bits nzcv_bits daif_bits flag
bits_test = refl

-- A system call from there: its syndrome.
syndrome_test : syndrome 0x15 0 ≡ 0x56000000
unfolding syndrome
syndrome_test = refl

abbrev in_handler : SystemRegisters
in_handler = exception_enter_sync 0x400004 (pstate_bits user.pstate) 0x15 0 false 0 user

exception_enter_sync-exception_return_example :
    (illegal_exception_return in_handler ≡ false)
    × ((exception_return false in_handler).0 ≡ 0x400004)
    × ((exception_return false in_handler).1.spsel ≡ user.spsel)
    × ((exception_return false in_handler).1.pstate ≡ stepped user)
exception_enter_sync-exception_return_example =
    exception_enter_sync-exception_return 0x400004 0x15 0 false 0 user user-IsConsistent

abbrev interrupted : SystemRegisters
interrupted = exception_enter_irq 0x400008 (pstate_bits user.pstate) user

exception_enter_irq-exception_return_example :
    (illegal_exception_return interrupted ≡ false)
    × ((exception_return false interrupted).0 ≡ 0x400008)
    × ((exception_return false interrupted).1.spsel ≡ user.spsel)
    × ((exception_return false interrupted).1.pstate ≡ stepped user)
exception_enter_irq-exception_return_example =
    exception_enter_irq-exception_return 0x400008 user user-IsConsistent

-- The table of handlers is written with low bits that it does not have, and read back.
abbrev with_table : SystemRegisters
with_table = record start { vbar_el1 = 0xFFFF000000081800 }

table_test : write_register vbar_el1 0xFFFF000000081ABC start ≡ some with_table
unfolding write_register sanitize_vbar_el1
table_test = refl

abbrev served : SystemRegisters
served = exception_enter_sync 0x80000 0x3C5 0x15 0 false 0 with_table

served-Reachable : Reachable served
unfolding reset
served-Reachable =
    then_step
      (then_step (reset_state reset_values)
        (write_step start with_table vbar_el1 0xFFFF000000081ABC (inl refl) table_test))
      (sync_step with_table 0x80000 0x3C5 0x15 0 false 0)

Reachable-IsKept_example : IsKept served
Reachable-IsKept_example = Reachable-IsKept served-Reachable

named_test : register_of 3 0 12 0 0 ≡ some vbar_el1
unfolding register_of lookup make_key
named_test = refl

read_test : read 3 0 12 0 0 served ≡ some 0xFFFF000000081800
unfolding read register_of lookup make_key read_register exception_enter_sync sanitize_vbar_el1
read_test = refl

write_test : write 3 0 12 0 0 0xFFFF000000081800 start ≡ some with_table
unfolding write register_of lookup make_key write_register sanitize_vbar_el1
write_test = refl

same_test : IsSameModel start served
unfolding IsSameModel reset exception_enter_sync
same_test = (refl, refl, refl, refl, refl, refl, refl)

plain_test : is_plain vbar_el1 ≡ true
unfolding is_plain
plain_test = refl

write-read_example : read 3 0 12 0 0 with_table ≡ some 0xFFFF000000081800
write-read_example =
    write-read 3 0 12 0 0 vbar_el1 0xFFFF000000081800 served start with_table named_test plain_test
      same_test served-Reachable read_test write_test
