-- ===== src/Uart/Calls.antt =====
-- src/uart_pl011.cpp: sequences of calls, and the interrupt status after them.
use aarchvm.Base.{
  ℕ, ◌-◌, ◌%◌, ◌≤◌, ◌≡◌, refl, ap, true, not, ◌&&◌, ◌||◌, ◌==◌, same, if◌then◌else◌, bit, bit_and,
  u32_mod, bit_and_low, bit_and_zero, List, [], ◌∷◌, length, length-append, all_below,
  all_below_sound, arith, ◌⊎◌, inl, inr, Bool-cases,
}
use aarchvm.Uart.{
  Uart, new_uart, clear_bits, receiving, update_interrupt_state, irq_pending, take_byte,
  read_register, inc, configured, read, write_register, write, inject_rx,
}

pub data Call : Type 0 where
  load : ℕ → ℕ → Call
  store : ℕ → ℕ → ℕ → Call
  receive : ℕ → Call

unfoldable pub apply : Call → Uart → Uart
apply (load offset size) u = (read u offset size).0
apply (store offset value size) u = (write u offset value size).0
apply (receive byte) u = inject_rx u byte

unfoldable pub run : List Call → Uart → Uart
run [] u = u
run (c ∷ cs) u = run cs (apply c u)

-- The receive bits of the raw status tell whether the port is receiving, and the queue has its bound.
unfoldable pub Settled : Uart → Type 0
Settled u = (u.ris ≡ (if receiving u then 0x50 else 0)) × (length u.rx_fifo ≤ 1024)

-- What the two receive bits leave under a mask, checked at every mask of seven bits.
mask_table :
    all_below 128 (λ v.
      clear_bits (clear_bits 0x50 v) 0x50 == 0
      && same (bit_and 0x50 v == 0) (not (bit v 4 || bit v 6)))
    ≡ true
unfolding all_below clear_bits bit
mask_table = refl

low_bits_same : (v : ℕ) → (bit (v % 128) 4 ≡ bit v 4) × (bit (v % 128) 6 ≡ bit v 6)
unfolding bit
low_bits_same v = ground arith

mask_facts :
    (v : ℕ)
    → (clear_bits (clear_bits 0x50 v) 0x50 ≡ 0)
      × (same (bit_and 0x50 v == 0) (not (bit v 4 || bit v 6)) ≡ true)
unfolding clear_bits
mask_facts v =
    rw (bit_and_low 7 0x50 v (omega arith))
      (ground (arith, all_below_sound 128 _ (v % 128) mask_table (omega arith), low_bits_same v))

-- A value of the status that the port can have keeps no receive bit through the clearings.
pub cleared :
    (x v : ℕ)
    → (x ≡ 0) ⊎ (x ≡ 0x50)
    → (clear_bits x 0x50 ≡ 0) × (clear_bits (clear_bits x v) 0x50 ≡ 0)
unfolding clear_bits
cleared x v (inl e) = rw e (refl, ap (λ y. 0 - y - bit_and (0 - y) 0x50) (bit_and_zero v))
cleared x v (inr e) = rw e (refl, (mask_facts v).0)

update-Settled :
    (u : Uart)
    → clear_bits u.ris 0x50 ≡ 0
    → length u.rx_fifo ≤ 1024
    → Settled (update_interrupt_state u)
unfolding Settled update_interrupt_state receiving
update-Settled u e h = rw e (ground arith)

pub Settled-values : (u : Uart) → Settled u → (u.ris ≡ 0) ⊎ (u.ris ≡ 0x50)
unfolding Settled
Settled-values u h = elim (Bool-cases (receiving u)) [
  | inl r ↦ inr (ground (arith, h, r))
  | inr r ↦ inl (ground (arith, h, r))
]

bound : (u : Uart) → Settled u → length u.rx_fifo ≤ 1024
unfolding Settled
bound u h = h.1

inject_rx-Settled : (u : Uart) (byte : ℕ) → Settled u → Settled (inject_rx u byte)
unfolding inject_rx
inject_rx-Settled u byte h =
    update-Settled _ (cleared u.ris 0 (Settled-values u h)).0
      (ground (arith, length-append {0} u.rx_fifo (byte ∷ []), bound u h))

take_byte-Settled :
    (u : Uart) (fifo : List ℕ) → u.rx_fifo ≡ fifo → Settled u → Settled (take_byte u fifo).0
unfolding take_byte
take_byte-Settled u [] e h = h
take_byte-Settled u (ch ∷ rest) e h =
    update-Settled _ (cleared u.ris 0 (Settled-values u h)).0
      (omega (arith, ap length e, bound u h))

read-Settled : (u : Uart) (offset size : ℕ) → Settled u → Settled (read u offset size).0
unfolding Settled read read_register receiving
read-Settled u offset size h =
    let v = record u { mmio_reads = inc u.mmio_reads } in
    ground (arith, h, take_byte-Settled v u.rx_fifo refl h)

write-Settled :
    (u : Uart) (offset value size : ℕ) → Settled u → Settled (write u offset value size).0
unfolding Settled write write_register receiving
write-Settled u offset value size h =
    let v = record u { mmio_writes = inc u.mmio_writes } in
    let c = configured v in
    let w = value % u32_mod in
    let clear = cleared u.ris w (Settled-values u h) in
    ground (
      arith,
      h,
      update-Settled (record c { cr = w }) clear.0 h.1,
      update-Settled (record c { ifls = w }) clear.0 h.1,
      update-Settled (record c { imsc = w }) clear.0 h.1,
      update-Settled (record c { ris = clear_bits u.ris w }) clear.1 h.1,
    )

apply-Settled : (c : Call) (u : Uart) → Settled u → Settled (apply c u)
unfolding apply
apply-Settled (load offset size) u h = read-Settled u offset size h
apply-Settled (store offset value size) u h = write-Settled u offset value size h
apply-Settled (receive byte) u h = inject_rx-Settled u byte h

pub run-Settled : (cs : List Call) (u : Uart) → Settled u → Settled (run cs u)
unfolding run
run-Settled [] u h = h
run-Settled (c ∷ cs) u h = run-Settled cs (apply c u) (apply-Settled c u h)

pub new_uart-Settled : Settled new_uart
unfolding Settled receiving bit
new_uart-Settled = (refl, omega arith)

irq_of_Settled :
    (u : Uart) → Settled u → irq_pending u ≡ (receiving u && (bit u.imsc 4 || bit u.imsc 6))
unfolding Settled irq_pending receiving
irq_of_Settled u h = elim (Bool-cases (receiving u)) [
  | inl r ↦
      let e : u.ris ≡ 0x50 = ground (arith, h, r) in
      rw (e, r) (ground (arith, (mask_facts u.imsc).1))
  | inr r ↦
      let e : u.ris ≡ 0 = ground (arith, h, r) in rw (e, r) (ground (arith, bit_and_zero u.imsc))
]

-- After any sequence of loads, stores and received bytes on a new port, the queue holds at most 1024
-- bytes, and the interrupt line is up exactly where a byte waits, the port and its receiver are enabled,
-- and one of the two receive interrupts is unmasked.
pub run-irq_pending :
    (cs : List Call)
    → let u = run cs new_uart in
      (length u.rx_fifo ≤ 1024) × (irq_pending u ≡ (receiving u && (bit u.imsc 4 || bit u.imsc 6)))
run-irq_pending cs =
    let h = run-Settled cs new_uart new_uart-Settled in
    (bound (run cs new_uart) h, irq_of_Settled (run cs new_uart) h)
