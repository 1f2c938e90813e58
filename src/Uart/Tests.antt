-- ===== src/Uart/Tests.antt =====
-- The theorems about src/uart_pl011.cpp at concrete states, and runs of its functions.
use aarchvm.Base.{
  ◌≤◌, ◌≡◌, ◌≢◌, refl, true, ◌&&◌, ◌||◌, bit, List, [], ◌∷◌, ◌++◌, length, some, none, arith,
}
use aarchvm.Snapshot.{Stream, write_vector}
use aarchvm.Snapshot as Snap
use aarchvm.Uart.{
  Uart, new_uart, irq_pending, receiving, update_interrupt_state, take_byte, read, read_register,
  write, write_register, inject_rx, clear_bits, save_state, load_state,
}
use aarchvm.Uart.Calls.{Call, load, store, receive, apply, run, Settled, run-irq_pending}
use aarchvm.Uart.Queue
use aarchvm.Uart.Queue.{all_taken, all_accepted, run_queue}
use aarchvm.Uart.Saved.{InRange, load_state-save_state, load_state-truncated}

-- Two bytes come in, one is read, and the receive interrupt is unmasked.
abbrev calls : List Call
calls = receive 65 ∷ receive 66 ∷ store 0x38 0x10 4 ∷ load 0 4 ∷ []

taken_test : all_taken calls new_uart ≡ 65 ∷ []
unfolding all_taken apply inject_rx update_interrupt_state receiving read read_register take_byte
    write write_register clear_bits bit Queue.taken
taken_test = refl

line_test : irq_pending (run calls new_uart) ≡ true
unfolding irq_pending run apply inject_rx update_interrupt_state receiving read read_register
    take_byte write write_register clear_bits bit
line_test = refl

run-irq_pending_example :
    let u = run calls new_uart in
    (length u.rx_fifo ≤ 1024) × (irq_pending u ≡ (receiving u && (bit u.imsc 4 || bit u.imsc 6)))
run-irq_pending_example = run-irq_pending calls

run_queue_example :
    all_taken calls new_uart ++ (run calls new_uart).rx_fifo
    ≡ new_uart.rx_fifo ++ all_accepted calls new_uart
run_queue_example = run_queue calls new_uart

-- A port on which two bytes wait.
abbrev waiting : Uart
waiting = record new_uart { rx_fifo = 65 ∷ 66 ∷ []; ris = 0x50; rx_injected_count = 2 }

waiting-Settled : Settled waiting
unfolding Settled receiving bit
waiting-Settled = (refl, omega arith)

waiting-InRange : InRange waiting
waiting-InRange = omega arith

load_state-save_state_example :
    load_state new_uart (save_state waiting ++ (7 ∷ [])) ≡ (waiting, some (7 ∷ []))
load_state-save_state_example =
    load_state-save_state waiting new_uart (7 ∷ []) waiting-InRange waiting-Settled

-- The first five bytes of the snapshot, and the others.
abbrev cut : Stream
cut = 2 ∷ 0 ∷ 0 ∷ 0 ∷ 0 ∷ []

abbrev drop_five : Stream → Stream
drop_five (a ∷ b ∷ c ∷ d ∷ e ∷ rest) = rest
drop_five other = []

split : save_state waiting ≡ cut ++ drop_five (save_state waiting)
unfolding save_state write_vector Snap.write
split = refl

some_left : drop_five (save_state waiting) ≢ []
unfolding save_state write_vector Snap.write
some_left = λ e. cc

load_state-truncated_example : (load_state new_uart cut).1 ≡ none
load_state-truncated_example =
    load_state-truncated waiting new_uart cut (drop_five (save_state waiting)) waiting-InRange
      waiting-Settled split some_left
