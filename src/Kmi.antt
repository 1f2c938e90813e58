-- ===== src/Kmi.antt =====
-- src/pl050_kmi.cpp and include/aarchvm/pl050_kmi.hpp: the keyboard interface and its keyboard. The
-- command whose parameter the keyboard waits for is its code, since a snapshot may hold any byte. The
-- observer of changes is left out.
pub mod Protocol
pub mod Saved
pub mod Tests
use aarchvm.Base.{
  ℕ, ◌+◌, ◌-◌, ◌*◌, ◌/◌, ◌%◌, ◌^◌, bit_or, Bool, true, false, not, ◌&&◌, ◌||◌, ltb, leb, ◌==◌,
  if◌then◌else◌, bit, Option, none, some, List, [], ◌∷◌, ◌++◌, length,
}
use aarchvm.Snapshot.{
  Stream, write_bool, write_vector, read_vector, Load, go_on, ◌&&&◌, field_of, bool_of,
}
use aarchvm.Snapshot

pub record Kmi : Type 0 where
  pub rx_fifo : List ℕ
  pub cr : ℕ
  pub clkdiv : ℕ
  pub last_tx_byte : ℕ
  pub scan_set : ℕ
  pub scanning_enabled : Bool
  pub pending_command : ℕ

abbrev pub no_command : ℕ
no_command = 0

abbrev pub set_leds : ℕ
set_leds = 1

abbrev pub set_typematic : ℕ
set_typematic = 2

abbrev pub set_scan_set : ℕ
set_scan_set = 3

abbrev pub set_all_leds : ℕ
set_all_leds = 4

abbrev pub ack : ℕ
ack = 0xFA

abbrev pub new_kmi : Kmi
new_kmi = record {
  rx_fifo = [];
  cr = 0;
  clkdiv = 0;
  last_tx_byte = 0;
  scan_set = 2;
  scanning_enabled = true;
  pending_command = no_command;
}

abbrev pub is_access_size : ℕ → Bool
is_access_size size = size == 1 || (size == 2 || (size == 4 || size == 8))

abbrev pub is_empty {ℓ} : {A : Type ℓ} → List A → Bool
is_empty [] = true
is_empty (x ∷ xs) = false

abbrev pub is_enabled : Kmi → Bool
is_enabled k = bit k.cr 2

unfoldable pub irq_pending : Kmi → Bool
irq_pending k = is_enabled k && (bit k.cr 4 && not (is_empty k.rx_fifo))

-- A disabled interface holds no bytes.
unfoldable pub update_irq_state : Kmi → Kmi
update_irq_state k = if is_enabled k then k else record k { rx_fifo = [] }

unfoldable pub push_byte : List ℕ → ℕ → List ℕ
push_byte fifo byte = if ltb (length fifo) 1024 then fifo ++ (byte ∷ []) else fifo

unfoldable pub queue_response : ℕ → Kmi → Kmi
queue_response byte k = update_irq_state (record k { rx_fifo = push_byte k.rx_fifo byte })

unfoldable pub inject_rx : ℕ → Kmi → Kmi
inject_rx byte k =
    if k.scanning_enabled
    then update_irq_state (record k { rx_fifo = push_byte k.rx_fifo byte })
    else k

unfoldable pub reset_defaults : Kmi → Kmi
reset_defaults k = record k { scan_set = 2; scanning_enabled = true; pending_command = no_command }

unfoldable pub reset : Kmi → Kmi
reset k = reset_defaults (record k { rx_fifo = []; cr = 0; clkdiv = 0; last_tx_byte = 0 })

-- The byte as the parameter of `set_scan_set`.
unfoldable pub scan_set_parameter : ℕ → Kmi → Kmi
scan_set_parameter byte k =
    let acked = queue_response ack (record k { pending_command = no_command }) in
    if byte == 0
    then queue_response acked.scan_set acked
    else if leb 1 byte && leb byte 3
    then record acked { scan_set = byte }
    else acked

-- The byte as a command.
unfoldable pub process_command : ℕ → Kmi → Kmi
process_command byte k =
    if byte == 0xED
    then queue_response ack (record k { pending_command = set_leds })
    else if byte == 0xEE
    then queue_response 0xEE k
    else if byte == 0xF0
    then queue_response ack (record k { pending_command = set_scan_set })
    else if byte == 0xF2
    then queue_response 0x83 (queue_response 0xAB (queue_response ack k))
    else if byte == 0xF3
    then queue_response ack (record k { pending_command = set_typematic })
    else if byte == 0xF4
    then queue_response ack (record k { scanning_enabled = true })
    else if byte == 0xF5
    then queue_response ack (record (reset_defaults k) { scanning_enabled = false })
    else if byte == 0xF6
    then queue_response ack (reset_defaults k)
    else if byte == 0xEA || byte == 0xE8
    then queue_response ack (record k { pending_command = set_all_leds })
    else if byte == 0xF8 || byte == 0xFA
    then queue_response ack (record k { pending_command = no_command })
    else if byte == 0xFE
    then queue_response (if k.last_tx_byte == 0 then 0xFE else k.last_tx_byte) k
    else if byte == 0xFF
    then queue_response 0xAA (queue_response ack (reset_defaults k))
    else queue_response ack k

unfoldable pub process_host_byte : ℕ → Kmi → Kmi
process_host_byte byte k =
    if not (is_enabled k)
    then k
    else if k.pending_command == set_leds
        || (k.pending_command == set_typematic || k.pending_command == set_all_leds)
    then queue_response ack (record k { pending_command = no_command })
    else if k.pending_command == set_scan_set
    then scan_set_parameter byte k
    else process_command byte k

unfoldable pub take_byte : Kmi → List ℕ → Kmi × ℕ
take_byte k [] = (k, 0)
take_byte k (byte ∷ rest) = (update_irq_state (record k { rx_fifo = rest }), byte)

unfoldable pub id_value : ℕ → ℕ
id_value offset =
    if offset == 0xFE0
    then 0x50
    else if offset == 0xFE4
    then 0x10
    else if offset == 0xFE8
    then 0x04
    else if offset == 0xFEC
    then 0x00
    else if offset == 0xFF0
    then 0x0D
    else if offset == 0xFF4
    then 0xF0
    else if offset == 0xFF8
    then 0x05
    else if offset == 0xFFC
    then 0xB1
    else 0

unfoldable pub read : Kmi → ℕ → ℕ → Kmi × ℕ
read k offset size =
    if not (is_access_size size)
    then (k, 0)
    else if offset == 0x00
    then (k, k.cr)
    else if offset == 0x04
    then (k, if is_empty k.rx_fifo then 0x43 else 0x53)
    else if offset == 0x08
    then take_byte k k.rx_fifo
    else if offset == 0x0c
    then (k, k.clkdiv)
    else if offset == 0x10
    then (k, bit_or (if bit k.cr 3 then 2 else 0) (if irq_pending k then 1 else 0))
    else (k, id_value offset)

unfoldable pub write : Kmi → ℕ → ℕ → ℕ → Kmi
write k offset value size =
    let byte = value % 256 in
    if not (is_access_size size)
    then k
    else if offset == 0x00
    then update_irq_state (record k { cr = byte })
    else if offset == 0x08
    then process_host_byte byte (record k { last_tx_byte = byte })
    else if offset == 0x0c
    then record k { clkdiv = byte % 16 }
    else k

unfoldable pub save_state : Kmi → Stream
save_state k =
    write_vector k.rx_fifo
    ++ (Snapshot.write 1 k.cr
        ++ (Snapshot.write 1 k.clkdiv
            ++ (Snapshot.write 1 k.last_tx_byte
                ++ (Snapshot.write 1 k.scan_set
                    ++ (write_bool k.scanning_enabled ++ Snapshot.write 1 k.pending_command)))))

-- The reads of the registers, in their order; the last goes to the command at once, where the code has
-- a local between.
unfoldable pub load_registers : Load Kmi
load_registers =
    field_of 1 (λ k. k.cr) (λ k v. record k { cr = v })
    &&& field_of 1 (λ k. k.clkdiv) (λ k v. record k { clkdiv = v })
    &&& field_of 1 (λ k. k.last_tx_byte) (λ k v. record k { last_tx_byte = v })
    &&& field_of 1 (λ k. k.scan_set) (λ k v. record k { scan_set = v })
    &&& bool_of (λ k. k.scanning_enabled) (λ k v. record k { scanning_enabled = v })
    &&& field_of 1 (λ k. k.pending_command) (λ k v. record k { pending_command = v })

unfoldable pub take_over : List ℕ → Load Kmi
take_over fifo k in' = (update_irq_state (record k { rx_fifo = fifo }), some in')

unfoldable pub load_rest : List ℕ → Load Kmi
load_rest fifo = load_registers &&& take_over fifo

unfoldable pub load_state : Load Kmi
load_state k in' = elim (read_vector in') [
  | none ↦ (k, none)
  | some (fifo, rest) ↦ if ltb 1024 (length fifo) then (k, none) else load_rest fifo k rest
]
