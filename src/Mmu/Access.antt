-- ===== src/Mmu/Access.antt =====
-- include/aarchvm/cpu.hpp: `access_permitted`, the permission check of a translation.
use aarchvm.Base.{ℕ, Bool, true, false, not, ◌&&◌, ◌||◌, if◌then◌else◌, bit, Option, none, some}
use aarchvm.Mmu.{
  AccessType, TranslationFault, permission, Attrs, Regs, access_is_write, access_is_unprivileged,
  is_fetch,
}

abbrev pub permission_fault : ℕ → Bool → Option TranslationFault
permission_fault level is_write =
    some (record { kind = permission; level = level; is_write = is_write })

-- `none` where the access is permitted.
unfoldable pub access_permitted : Regs → Attrs → AccessType → ℕ → Bool → Option TranslationFault
access_permitted r a access level apply_pan =
    let is_write = access_is_write access in
    let use_el0 = r.in_el0 || access_is_unprivileged access in
    let wxn = bit r.sctlr 19 in
    let execute_blocked =
      if use_el0
      then a.uxn || (wxn && (a.user_accessible && a.writable))
      else a.pxn || (wxn && a.writable) in
    if use_el0 && not a.user_accessible
    then permission_fault level is_write
    else if apply_pan && (not use_el0 && (not (is_fetch access) && (r.pan && a.user_accessible)))
    then permission_fault level is_write
    else if is_write && not a.writable
    then permission_fault level true
    else if is_fetch access && execute_blocked
    then permission_fault level false
    else none
