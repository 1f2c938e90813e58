-- ===== src/Uart/Saved.antt =====
-- src/uart_pl011.cpp: the snapshot of the port.
use aarchvm.Base.{
  ℕ, ◌^◌, ◌<◌, ◌≡◌, ◌≢◌, sym, ap, ◌∙◌, false, ltb, none, some, List, [], ◌++◌, append_assoc,
  append-nil, length, arith, Option-cases, inl, inr,
}
use aarchvm.Snapshot.{Stream, read_vector}
use aarchvm.Snapshot.Laws.{
  read-write, low_bytes_4, low_bytes_8, read_vector-write_vector, read_vector-append, Extends,
  field_of-Extends, &&&-Extends, Extends-truncated,
}
use aarchvm.Uart.{
  Uart, update_interrupt_state, save_state, load_state, load_registers, take_over, load_rest,
}
use aarchvm.Uart.Calls.{Settled, Settled-values, cleared}

-- The members are in the ranges of their C++ types.
pub record InRange (u : Uart) : Type 0 where
  pub ibrd_fits : u.ibrd < 2 ^ 32
  pub fbrd_fits : u.fbrd < 2 ^ 32
  pub lcrh_fits : u.lcrh < 2 ^ 32
  pub cr_fits : u.cr < 2 ^ 32
  pub ifls_fits : u.ifls < 2 ^ 32
  pub imsc_fits : u.imsc < 2 ^ 32
  pub dmacr_fits : u.dmacr < 2 ^ 32
  pub tx_count_fits : u.tx_count < 2 ^ 64
  pub mmio_reads_fits : u.mmio_reads < 2 ^ 64
  pub mmio_writes_fits : u.mmio_writes < 2 ^ 64
  pub config_writes_fits : u.config_writes < 2 ^ 64
  pub id_reads_fits : u.id_reads < 2 ^ 64
  pub rx_injected_count_fits : u.rx_injected_count < 2 ^ 64

ris_fits : (u : Uart) → Settled u → u.ris < 2 ^ 32
unfolding Settled
ris_fits u h = ground arith

Settled-fix : (u : Uart) → Settled u → update_interrupt_state u ≡ u
unfolding Settled update_interrupt_state
Settled-fix u h =
    let e = (cleared u.ris 0 (Settled-values u h)).0 in
    ap (λ x. record u { ris = x }) (ground (arith, h, e))

-- A port in a state that the program can be in, saved, is what a load of the snapshot gives, into a port
-- of whatever state; the load leaves what follows the snapshot in the stream.
pub load_state-save_state :
    (u v : Uart) (rest : Stream)
    → InRange u
    → Settled u
    → load_state v (save_state u ++ rest) ≡ (u, some rest)
unfolding load_state save_state load_rest load_registers take_over Settled
load_state-save_state u v rest k h =
    let short : ltb 1024 (length u.rx_fifo) ≡ false = ground (arith, h) in
    rw (append_assoc, load_state, read_vector-write_vector u.rx_fifo _ (omega (arith, h)))
      (simp
        (
          append_assoc,
          read-write,
          short,
          low_bytes_4 u.ibrd k.ibrd_fits,
          low_bytes_4 u.fbrd k.fbrd_fits,
          low_bytes_4 u.lcrh k.lcrh_fits,
          low_bytes_4 u.cr k.cr_fits,
          low_bytes_4 u.ifls k.ifls_fits,
          low_bytes_4 u.imsc k.imsc_fits,
          low_bytes_4 u.dmacr k.dmacr_fits,
          low_bytes_4 u.ris (ris_fits u h),
          low_bytes_8 u.tx_count k.tx_count_fits,
          low_bytes_8 u.mmio_reads k.mmio_reads_fits,
          low_bytes_8 u.mmio_writes k.mmio_writes_fits,
          low_bytes_8 u.config_writes k.config_writes_fits,
          low_bytes_8 u.id_reads k.id_reads_fits,
          low_bytes_8 u.rx_injected_count k.rx_injected_count_fits,
        )
        (ap (λ x. (x, some rest)) (Settled-fix u h)))

take_over-Extends : (fifo : List ℕ) → Extends (take_over fifo)
unfolding Extends take_over
take_over-Extends fifo u u' p q r h = ground (arith, h)

load_registers-Extends : Extends load_registers
unfolding load_registers
load_registers-Extends = search (&&&-Extends, field_of-Extends) depth 40

load_rest-Extends : (fifo : List ℕ) → Extends (load_rest fifo)
unfolding load_rest
load_rest-Extends fifo =
    &&&-Extends load_registers (take_over fifo) load_registers-Extends (take_over-Extends fifo)

load_rest_extends :
    (fifo : List ℕ) (u u' : Uart) (p q r : Stream)
    → load_rest fifo u p ≡ (u', some r)
    → load_rest fifo u (p ++ q) ≡ (u', some (r ++ q))
unfolding Extends
load_rest_extends fifo u u' p q r h = load_rest-Extends fifo u u' p q r h

load_state-Extends : Extends load_state
unfolding Extends load_state
load_state-Extends u u' p q r h = elim (Option-cases (read_vector p)) [
  | inl e ↦ absurd (ground (arith, h, e))
  | inr ((fifo, m), e) ↦
      ground (arith, h, e, read_vector-append fifo p q m e, load_rest_extends fifo u u' m q r)
]

-- A snapshot that is cut anywhere before its end is refused.
pub load_state-truncated :
    (u v : Uart) (p q : Stream)
    → InRange u
    → Settled u
    → save_state u ≡ p ++ q
    → q ≢ []
    → (load_state v p).1 ≡ none
load_state-truncated u v p q k h e ne =
    Extends-truncated load_state v u p q load_state-Extends
      (ap (load_state v) (sym e ∙ sym (append-nil (save_state u)))
        ∙ load_state-save_state u v [] k h)
      ne
