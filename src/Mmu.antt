-- ===== src/Mmu.antt =====
-- src/cpu.cpp and include/aarchvm/cpu.hpp: stage-1 address translation. Here: its data types, the
-- system registers that it reads and what it decodes from them. The system registers enter as a
-- record of their values, and a descriptor read of the bus as a function `memory` into Option. The
-- performance counters and the traces of a watched address are left out.
pub mod Access
pub mod Walk
pub mod Tlb
pub mod Translate
pub mod Pages
pub mod Output
pub mod Flush
pub mod Cached
pub mod Tests
use aarchvm.Base.{
  ℕ, ◌+◌, ◌-◌, ◌*◌, ◌/◌, ◌%◌, ◌^◌, Bool, true, false, not, ◌&&◌, ◌||◌, ltb, leb, ◌==◌,
  if◌then◌else◌, bit, field, bit_or, u64_mod,
}

pub data AccessType : Type 0 where
  fetch read write unprivileged_read unprivileged_write : AccessType

pub data MemoryType : Type 0 where
  device normal unknown : MemoryType

pub data FaultKind : Type 0 where
  translation address_size access_flag permission external_abort_on_walk : FaultKind

pub record TranslationFault : Type 0 where
  pub kind : FaultKind
  pub level : ℕ
  pub is_write : Bool

pub record TableAttrs : Type 0 where
  pub write_protect : Bool
  pub user_no_access : Bool
  pub pxn : Bool
  pub uxn : Bool

-- Cacheability and shareability are kept as the field's two bits.
pub record WalkAttributes : Type 0 where
  pub inner : ℕ
  pub outer : ℕ
  pub shareability : ℕ
  pub ips_bits : ℕ

-- The members that `TranslationResult` and `TlbEntry` share.
pub record Attrs : Type 0 where
  pub asid : ℕ
  pub level : ℕ
  pub attr_index : ℕ
  pub mair_attr : ℕ
  pub global_entry : Bool
  pub writable : Bool
  pub user_accessible : Bool
  pub executable : Bool
  pub pxn : Bool
  pub uxn : Bool
  pub memory_type : MemoryType
  pub leaf_shareability : ℕ
  pub walk_attrs : WalkAttributes

pub record TranslationResult : Type 0 where
  pub pa : ℕ
  pub attrs : Attrs

-- The outcome of a translation: the `bool` with what the references hold.
pub data Outcome : Type 0 where
  ok : TranslationResult → Outcome
  fault : TranslationFault → Outcome

-- The system registers and the PSTATE that translation reads.
pub record Regs : Type 0 where
  pub sctlr : ℕ
  pub tcr : ℕ
  pub ttbr0 : ℕ
  pub ttbr1 : ℕ
  pub mair : ℕ
  pub id_mmfr0 : ℕ
  pub in_el0 : Bool
  pub pan : Bool

abbrev pub mmu_enabled : Regs → Bool
mmu_enabled r = bit r.sctlr 0

abbrev pub access_is_write : AccessType → Bool
access_is_write write = true
access_is_write unprivileged_write = true
access_is_write _ = false

abbrev pub access_is_unprivileged : AccessType → Bool
access_is_unprivileged unprivileged_read = true
access_is_unprivileged unprivileged_write = true
access_is_unprivileged _ = false

abbrev pub is_fetch : AccessType → Bool
is_fetch fetch = true
is_fetch _ = false

unfoldable pub effective_tbi : Regs → ℕ → Bool
effective_tbi r va = if bit va 55 then bit r.tcr 38 else bit r.tcr 37

-- With the top byte ignored, bits 56 to 63 are those of bit 55.
unfoldable pub normalize_stage1_address : Regs → ℕ → ℕ
normalize_stage1_address r va =
    if not (effective_tbi r va)
    then va
    else (let masked = va % 2 ^ 56 in if bit va 55 then bit_or (0xFF * 2 ^ 56) masked else masked)

unfoldable pub decode_ips_bits : Regs → ℕ
decode_ips_bits r =
    let ips = field r.tcr 32 3 in
    if ips == 0
    then 32
    else if ips == 1
    then 36
    else if ips == 2
    then 40
    else if ips == 3
    then 42
    else if ips == 4
    then 44
    else if ips == 5
    then 48
    else if ips == 6
    then 52
    else 48

unfoldable pub pa_within_ips : ℕ → ℕ → Bool
pa_within_ips pa ips_bits = if leb 64 ips_bits then true else pa / 2 ^ ips_bits == 0

unfoldable pub decode_walk_attributes : Regs → Bool → WalkAttributes
decode_walk_attributes r va_upper = record {
  inner = if va_upper then field r.tcr 24 2 else field r.tcr 8 2;
  outer = if va_upper then field r.tcr 26 2 else field r.tcr 10 2;
  shareability = if va_upper then field r.tcr 28 2 else field r.tcr 12 2;
  ips_bits = decode_ips_bits r;
}

unfoldable pub decode_memory_type : ℕ → MemoryType
decode_memory_type mair_attr = if field mair_attr 4 4 == 0 then device else normal

abbrev pub dirty_state_hw_update_enabled : Regs → Bool
dirty_state_hw_update_enabled r = bit r.tcr 40

-- `x & mmu_asid_mask()`.
unfoldable pub mask_asid : Regs → ℕ → ℕ
mask_asid r x = if field r.id_mmfr0 4 4 == 2 then x % 2 ^ 16 else x % 2 ^ 8

unfoldable pub ttbr_asid : Regs → ℕ → ℕ
ttbr_asid r ttbr = mask_asid r (ttbr / 2 ^ 48)

unfoldable pub current_translation_asid : Regs → ℕ
current_translation_asid r = ttbr_asid r (if bit r.tcr 22 then r.ttbr1 else r.ttbr0)

abbrev pub stage1_disabled_output_pa : ℕ → ℕ
stage1_disabled_output_pa va = va % 2 ^ 56

unfoldable pub fill_stage1_disabled_output : Regs → ℕ → AccessType → TranslationResult
fill_stage1_disabled_output r effective_va access = record {
  pa = stage1_disabled_output_pa effective_va;
  attrs = record {
    asid = current_translation_asid r;
    level = 3;
    attr_index = 0;
    mair_attr = if is_fetch access then (if bit r.sctlr 12 then 0xAA else 0x44) else 0x00;
    global_entry = true;
    writable = true;
    user_accessible = true;
    executable = true;
    pxn = false;
    uxn = false;
    memory_type = if is_fetch access then normal else device;
    leaf_shareability = 2;
    walk_attrs = decode_walk_attributes r (bit effective_va 63);
  };
}

abbrev pub fsc_base : FaultKind → ℕ
fsc_base address_size = 0
fsc_base translation = 0x4
fsc_base access_flag = 0x8
fsc_base permission = 0xC
fsc_base external_abort_on_walk = 0x14

-- The status code of a fault, without and with the bits of a cache maintenance instruction.
unfoldable pub fault_status_code : TranslationFault → ℕ
fault_status_code f = bit_or (fsc_base f.kind + f.level % 4) (if f.is_write then 2 ^ 6 else 0)

unfoldable pub data_abort_iss : TranslationFault → Bool → ℕ
data_abort_iss f cache_maintenance_or_translation =
    let iss = fault_status_code f in
    if cache_maintenance_or_translation then bit_or (bit_or iss (2 ^ 8)) (2 ^ 6) else iss
