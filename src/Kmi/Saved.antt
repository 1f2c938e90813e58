-- ===== src/Kmi/Saved.antt =====
-- src/pl050_kmi.cpp: the snapshot of the interface.
use aarchvm.Base.{
  ℕ, ◌^◌, ◌≤◌, ◌<◌, ◌≡◌, refl, sym, ap, true, false, ltb, ◌||◌, some, List, [], ◌∷◌, ◌++◌,
  Bool-cases, inl, inr, append_assoc, length, arith,
}
use aarchvm.Snapshot.{Stream}
use aarchvm.Snapshot.Laws.{read-write, low_bytes_1, read_vector-write_vector, read_bool-write_bool}
use aarchvm.Kmi.{
  Kmi, is_enabled, is_empty, update_irq_state, save_state, load_state, load_registers, take_over,
  load_rest,
}

-- The registers are bytes, the queue has its bound, and a disabled interface holds no bytes.
pub record IsValid (k : Kmi) : Type 0 where
  pub cr_fits : k.cr < 2 ^ 8
  pub clkdiv_fits : k.clkdiv < 2 ^ 8
  pub last_tx_byte_fits : k.last_tx_byte < 2 ^ 8
  pub scan_set_fits : k.scan_set < 2 ^ 8
  pub pending_command_fits : k.pending_command < 2 ^ 8
  pub bounded : length k.rx_fifo ≤ 1024
  pub silent : (is_enabled k || is_empty k.rx_fifo) ≡ true

valid_queue :
    (k : Kmi) (fifo : List ℕ)
    → k.rx_fifo ≡ fifo
    → (is_enabled k || is_empty fifo) ≡ true
    → update_irq_state k ≡ k
unfolding update_irq_state
valid_queue k [] e h = elim (Bool-cases (is_enabled k)) [
  | inl on ↦ rw on refl
  | inr off ↦ rw off (ap (λ x. record k { rx_fifo = x }) (sym e))
]
valid_queue k (x ∷ xs) e h = ground arith

valid_fix : (k : Kmi) → IsValid k → update_irq_state k ≡ k
valid_fix k v = valid_queue k k.rx_fifo refl v.silent

-- A valid interface, saved, is what a load of the snapshot gives, into an interface of whatever state;
-- the load leaves what follows the snapshot in the stream.
pub load-save_kmi :
    (k old : Kmi) (rest : Stream)
    → IsValid k
    → load_state old (save_state k ++ rest) ≡ (k, some rest)
unfolding load_state save_state load_rest load_registers take_over
load-save_kmi k old rest v =
    let short : ltb 1024 (length k.rx_fifo) ≡ false = ground (arith, v.bounded) in
    rw (append_assoc, load_state, read_vector-write_vector k.rx_fifo _ (omega (arith, v.bounded)))
      (simp
        (
          append_assoc,
          read-write,
          read_bool-write_bool,
          short,
          low_bytes_1 k.cr v.cr_fits,
          low_bytes_1 k.clkdiv v.clkdiv_fits,
          low_bytes_1 k.last_tx_byte v.last_tx_byte_fits,
          low_bytes_1 k.scan_set v.scan_set_fits,
          low_bytes_1 k.pending_command v.pending_command_fits,
        )
        (ap (λ x. (x, some rest)) (valid_fix k v)))
