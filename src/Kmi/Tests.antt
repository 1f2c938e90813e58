-- ===== src/Kmi/Tests.antt =====
-- The theorems about src/pl050_kmi.cpp at concrete states, and runs of its functions.
use aarchvm.Base.{◌≡◌, refl, [], ◌∷◌, ◌++◌, bit, some, arith}
use aarchvm.Kmi.{
  Kmi, new_kmi, no_command, ack, write, process_host_byte, process_command, queue_response,
  update_irq_state, push_byte, save_state, load_state,
}
use aarchvm.Kmi.Protocol.{scan_set_conversation}
use aarchvm.Kmi.Saved.{IsValid, load-save_kmi}

abbrev enabled : Kmi
enabled = record new_kmi { cr = 0x14; rx_fifo = 0x1C ∷ [] }

-- The keyboard's answer to a request for its identity.
identity_test : (write enabled 0x08 0xF2 4).rx_fifo ≡ 0x1C ∷ 0xFA ∷ 0xAB ∷ 0x83 ∷ []
unfolding write process_host_byte process_command queue_response update_irq_state push_byte bit
identity_test = refl

scan_set_conversation_example :
    let talk =
      process_host_byte 0
        (process_host_byte 0xF0 (process_host_byte 3 (process_host_byte 0xF0 enabled))) in
    (talk.rx_fifo ≡ enabled.rx_fifo ++ (ack ∷ ack ∷ ack ∷ ack ∷ 3 ∷ []))
    × (talk.scan_set ≡ 3)
    × (talk.pending_command ≡ no_command)
unfolding bit
scan_set_conversation_example =
    scan_set_conversation enabled 3 refl refl (omega arith) (omega arith) (omega arith)

enabled-IsValid : IsValid enabled
unfolding bit
enabled-IsValid = record {
  cr_fits = omega arith;
  clkdiv_fits = omega arith;
  last_tx_byte_fits = omega arith;
  scan_set_fits = omega arith;
  pending_command_fits = omega arith;
  bounded = omega arith;
  silent = refl;
}

load-save_kmi_example :
    load_state new_kmi (save_state enabled ++ (9 ∷ [])) ≡ (enabled, some (9 ∷ []))
load-save_kmi_example = load-save_kmi enabled new_kmi (9 ∷ []) enabled-IsValid
