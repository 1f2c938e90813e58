-- ===== src/Uart/Queue.antt =====
-- src/uart_pl011.cpp: the receive queue as a queue.
use aarchvm.Base.{
  ℕ, ◌≡◌, refl, sym, ap, ◌∙◌, not, ◌&&◌, ltb, ◌==◌, if◌then◌else◌, List, [], ◌∷◌, ◌++◌,
  append_assoc, append-nil, length, arith, Bool-cases, inl, inr,
}
use aarchvm.Uart.{
  Uart, update_interrupt_state, take_byte, read_register, read, write_register, write, inject_rx,
  is_empty, is_access_size, inc,
}
use aarchvm.Uart.Calls.{Call, load, store, receive, apply, run}

-- The bytes that a call hands to the guest, and those that it puts into the queue: a received byte is
-- lost where 1024 wait.
unfoldable pub taken : Call → Uart → List ℕ
taken (load offset size) u =
    if is_access_size size && (offset == 0x00 && not (is_empty u.rx_fifo))
    then (read u offset size).1 ∷ []
    else []
taken (store offset value size) u = []
taken (receive byte) u = []

unfoldable pub accepted : Call → Uart → List ℕ
accepted (load offset size) u = []
accepted (store offset value size) u = []
accepted (receive byte) u = if ltb (length u.rx_fifo) 1024 then byte ∷ [] else []

unfoldable pub all_taken : List Call → Uart → List ℕ
all_taken [] u = []
all_taken (c ∷ cs) u = taken c u ++ all_taken cs (apply c u)

unfoldable pub all_accepted : List Call → Uart → List ℕ
all_accepted [] u = []
all_accepted (c ∷ cs) u = accepted c u ++ all_accepted cs (apply c u)

take_byte_queue :
    (u : Uart) (fifo : List ℕ)
    → u.rx_fifo ≡ fifo
    → ((if not (is_empty fifo) then (take_byte u fifo).1 ∷ [] else [])
        ++ (take_byte u fifo).0.rx_fifo)
      ≡ fifo
unfolding take_byte update_interrupt_state
take_byte_queue u [] e = e
take_byte_queue u (ch ∷ rest) e = refl

load_queue :
    (u : Uart) (offset size : ℕ)
    → taken (load offset size) u ++ (read u offset size).0.rx_fifo ≡ u.rx_fifo
unfolding taken read read_register
load_queue u offset size =
    ground (arith, take_byte_queue (record u { mmio_reads = inc u.mmio_reads }) u.rx_fifo refl)

store_queue :
    (u : Uart) (offset value size : ℕ)
    → taken (store offset value size) u ++ (write u offset value size).0.rx_fifo ≡ u.rx_fifo
unfolding taken write write_register update_interrupt_state
store_queue u offset value size = ground arith

receive_queue :
    (u : Uart) (byte : ℕ)
    → taken (receive byte) u ++ (inject_rx u byte).rx_fifo
      ≡ u.rx_fifo ++ (if ltb (length u.rx_fifo) 1024 then byte ∷ [] else [])
unfolding taken inject_rx update_interrupt_state
receive_queue u byte = elim (Bool-cases (ltb (length u.rx_fifo) 1024)) [
  | inl h ↦ rw h refl
  | inr h ↦ rw h (sym (append-nil u.rx_fifo))
]

apply_queue : (c : Call) (u : Uart) → taken c u ++ (apply c u).rx_fifo ≡ u.rx_fifo ++ accepted c u
unfolding apply accepted
apply_queue (load offset size) u = load_queue u offset size ∙ sym (append-nil u.rx_fifo)
apply_queue (store offset value size) u =
    store_queue u offset value size ∙ sym (append-nil u.rx_fifo)
apply_queue (receive byte) u = receive_queue u byte

-- Whatever the calls, the bytes that the guest has read followed by those that wait are the bytes that
-- waited at first followed by those that were accepted: none is lost, doubled or moved once accepted.
pub run_queue :
    (cs : List Call) (u : Uart)
    → all_taken cs u ++ (run cs u).rx_fifo ≡ u.rx_fifo ++ all_accepted cs u
unfolding all_taken all_accepted run
run_queue [] u = sym (append-nil u.rx_fifo)
run_queue (c ∷ cs) u =
    let v = apply c u in
    append_assoc (taken c u) (all_taken cs v) (run cs v).rx_fifo
    ∙ ap (λ x. taken c u ++ x) (run_queue cs v)
    ∙ sym (append_assoc (taken c u) v.rx_fifo (all_accepted cs v))
    ∙ ap (λ x. x ++ all_accepted cs v) (apply_queue c u)
    ∙ append_assoc u.rx_fifo (accepted c u) (all_accepted cs v)
