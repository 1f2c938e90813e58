-- ===== src/Uart.antt =====
-- src/uart_pl011.cpp and include/aarchvm/uart_pl011.hpp: the serial port. The byte that a write sends is
-- part of its result. The observers and the traces are left out.
pub mod Calls
pub mod Queue
pub mod Saved
pub mod Tests
use aarchvm.Base.{
  ℕ, zero, suc, ◌+◌, ◌-◌, ◌*◌, ◌/◌, ◌%◌, ◌^◌, bit_and, bit_or, Bool, true, false, not, ◌&&◌, ◌||◌,
  ltb, leb, ◌==◌, if◌then◌else◌, bit, u64_mod, u32_mod, Option, none, some, List, [], ◌∷◌, ◌++◌,
  length,
}
use aarchvm.Snapshot.{Stream, write_vector, read_vector, Load, go_on, ◌&&&◌, field_of}
use aarchvm.Snapshot

pub record Uart : Type 0 where
  pub rx_fifo : List ℕ
  pub ibrd : ℕ
  pub fbrd : ℕ
  pub lcrh : ℕ
  pub cr : ℕ
  pub ifls : ℕ
  pub imsc : ℕ
  pub ris : ℕ
  pub dmacr : ℕ
  pub tx_count : ℕ
  pub mmio_reads : ℕ
  pub mmio_writes : ℕ
  pub config_writes : ℕ
  pub id_reads : ℕ
  pub rx_injected_count : ℕ

abbrev pub new_uart : Uart
new_uart = record {
  rx_fifo = [];
  ibrd = 1;
  fbrd = 0;
  lcrh = 0;
  cr = 0x301;
  ifls = 0;
  imsc = 0;
  ris = 0;
  dmacr = 0;
  tx_count = 0;
  mmio_reads = 0;
  mmio_writes = 0;
  config_writes = 0;
  id_reads = 0;
  rx_injected_count = 0;
}

-- `++counter` in 64 bits.
abbrev pub inc : ℕ → ℕ
inc n = (n + 1) % u64_mod

abbrev pub is_access_size : ℕ → Bool
is_access_size size = size == 1 || (size == 2 || (size == 4 || size == 8))

abbrev pub is_empty {ℓ} : {A : Type ℓ} → List A → Bool
is_empty [] = true
is_empty (x ∷ xs) = false

-- `x &= ~mask`.
unfoldable pub clear_bits : ℕ → ℕ → ℕ
clear_bits x mask = x - bit_and x mask

-- Bytes wait, and the port and its receiver are enabled.
unfoldable pub receiving : Uart → Bool
receiving u = bit u.cr 0 && (bit u.cr 9 && not (is_empty u.rx_fifo))

unfoldable pub update_interrupt_state : Uart → Uart
update_interrupt_state u =
    let cleared = clear_bits u.ris 0x50 in
    record u { ris = if receiving u then bit_or cleared 0x50 else cleared }

unfoldable pub irq_pending : Uart → Bool
irq_pending u = not (bit_and u.ris u.imsc == 0)

unfoldable pub take_byte : Uart → List ℕ → Uart × ℕ
take_byte u [] = (u, 0)
take_byte u (ch ∷ rest) = (update_interrupt_state (record u { rx_fifo = rest }), ch)

-- The identification registers.
unfoldable pub id_value : ℕ → Option ℕ
id_value offset =
    if offset == 0xFE0
    then some 0x11
    else if offset == 0xFE4
    then some 0x10
    else if offset == 0xFE8
    then some 0x04
    else if offset == 0xFEC
    then some 0x00
    else if offset == 0xFF0
    then some 0x0D
    else if offset == 0xFF4
    then some 0xF0
    else if offset == 0xFF8
    then some 0x05
    else if offset == 0xFFC
    then some 0xB1
    else none

-- The registers whose reads count as configuration writes.
unfoldable pub config_value : Uart → ℕ → Option ℕ
config_value u offset =
    if offset == 0x24
    then some u.ibrd
    else if offset == 0x28
    then some u.fbrd
    else if offset == 0x2c
    then some u.lcrh
    else if offset == 0x30
    then some u.cr
    else if offset == 0x34
    then some u.ifls
    else if offset == 0x38
    then some u.imsc
    else if offset == 0x48
    then some u.dmacr
    else none

unfoldable pub read_register : Uart → ℕ → Uart × ℕ
read_register u offset =
    if offset == 0x00
    then take_byte u u.rx_fifo
    else if offset == 0x18
    then (u, if is_empty u.rx_fifo then 0x90 else 0x80)
    else if offset == 0x3c
    then (u, u.ris)
    else if offset == 0x40
    then (u, bit_and u.ris u.imsc)
    else elim (config_value u offset) [
      | some value ↦ (record u { config_writes = inc u.config_writes }, value)
      | none ↦ elim (id_value offset) [
        | some value ↦ (record u { id_reads = inc u.id_reads }, value)
        | none ↦ (u, 0)
      ]
    ]

unfoldable pub read : Uart → ℕ → ℕ → Uart × ℕ
read u offset size =
    if is_access_size size
    then read_register (record u { mmio_reads = inc u.mmio_reads }) offset
    else (u, 0)

abbrev pub configured : Uart → Uart
configured u = record u { config_writes = inc u.config_writes }

unfoldable pub write_register : Uart → ℕ → ℕ → Uart × Option ℕ
write_register u offset value =
    let v = value % u32_mod in
    let c = configured u in
    if offset == 0x00
    then (record u { tx_count = inc u.tx_count }, some (value % 256))
    else if offset == 0x24
    then (record c { ibrd = v }, none)
    else if offset == 0x28
    then (record c { fbrd = v }, none)
    else if offset == 0x2c
    then (record c { lcrh = v }, none)
    else if offset == 0x30
    then (update_interrupt_state (record c { cr = v }), none)
    else if offset == 0x34
    then (update_interrupt_state (record c { ifls = v }), none)
    else if offset == 0x38
    then (update_interrupt_state (record c { imsc = v }), none)
    else if offset == 0x44
    then (update_interrupt_state (record c { ris = clear_bits u.ris v }), none)
    else if offset == 0x48
    then (record c { dmacr = v }, none)
    else (u, none)

unfoldable pub write : Uart → ℕ → ℕ → ℕ → Uart × Option ℕ
write u offset value size =
    if is_access_size size
    then write_register (record u { mmio_writes = inc u.mmio_writes }) offset value
    else (u, none)

unfoldable pub inject_rx : Uart → ℕ → Uart
inject_rx u byte = update_interrupt_state (record u {
  rx_injected_count = inc u.rx_injected_count;
  rx_fifo = if ltb (length u.rx_fifo) 1024 then u.rx_fifo ++ (byte ∷ []) else u.rx_fifo;
})

unfoldable pub save_state : Uart → Stream
save_state u =
    write_vector u.rx_fifo
    ++ (Snapshot.write 4 u.ibrd
        ++ (Snapshot.write 4 u.fbrd
            ++ (Snapshot.write 4 u.lcrh
                ++ (Snapshot.write 4 u.cr
                    ++ (Snapshot.write 4 u.ifls
                        ++ (Snapshot.write 4 u.imsc
                            ++ (Snapshot.write 4 u.ris
                                ++ (Snapshot.write 4 u.dmacr
                                    ++ (Snapshot.write 8 u.tx_count
                                        ++ (Snapshot.write 8 u.mmio_reads
                                            ++ (Snapshot.write 8 u.mmio_writes
                                                ++ (Snapshot.write 8 u.config_writes
                                                    ++ (Snapshot.write 8 u.id_reads
                                                        ++ Snapshot.write 8
                                                            u.rx_injected_count)))))))))))))

-- The reads of the numbers, in their order.
unfoldable pub load_registers : Load Uart
load_registers =
    field_of 4 (λ u. u.ibrd) (λ u v. record u { ibrd = v })
    &&& field_of 4 (λ u. u.fbrd) (λ u v. record u { fbrd = v })
    &&& field_of 4 (λ u. u.lcrh) (λ u v. record u { lcrh = v })
    &&& field_of 4 (λ u. u.cr) (λ u v. record u { cr = v })
    &&& field_of 4 (λ u. u.ifls) (λ u v. record u { ifls = v })
    &&& field_of 4 (λ u. u.imsc) (λ u v. record u { imsc = v })
    &&& field_of 4 (λ u. u.ris) (λ u v. record u { ris = v })
    &&& field_of 4 (λ u. u.dmacr) (λ u v. record u { dmacr = v })
    &&& field_of 8 (λ u. u.tx_count) (λ u v. record u { tx_count = v })
    &&& field_of 8 (λ u. u.mmio_reads) (λ u v. record u { mmio_reads = v })
    &&& field_of 8 (λ u. u.mmio_writes) (λ u v. record u { mmio_writes = v })
    &&& field_of 8 (λ u. u.config_writes) (λ u v. record u { config_writes = v })
    &&& field_of 8 (λ u. u.id_reads) (λ u v. record u { id_reads = v })
    &&& field_of 8 (λ u. u.rx_injected_count) (λ u v. record u { rx_injected_count = v })

-- The end of a load: the queue is taken over only when every read has succeeded.
unfoldable pub take_over : List ℕ → Load Uart
take_over fifo u in' = (update_interrupt_state (record u { rx_fifo = fifo }), some in')

unfoldable pub load_rest : List ℕ → Load Uart
load_rest fifo = load_registers &&& take_over fifo

unfoldable pub load_state : Load Uart
load_state u in' = elim (read_vector in') [
  | none ↦ (u, none)
  | some (fifo, rest) ↦ if ltb 1024 (length fifo) then (u, none) else load_rest fifo u rest
]
