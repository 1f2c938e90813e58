-- ===== src/Kmi/Protocol.antt =====
-- src/pl050_kmi.cpp: the keyboard's answers, and the bound of its queue.
use aarchvm.Base.{
  ℕ, ◌+◌, ◌≤◌, ◌<◌, ◌≡◌, refl, ap, ◌∙◌, true, List, [], ◌∷◌, ◌++◌, append_assoc, length,
  length-append, arith,
}
use aarchvm.Kmi.{
  Kmi, no_command, set_scan_set, ack, is_enabled, update_irq_state, push_byte, queue_response,
  reset_defaults, scan_set_parameter, process_command, process_host_byte,
}

-- One answer at an enabled interface with room.
queue_response-push :
    (k : Kmi) (byte : ℕ)
    → is_enabled k ≡ true
    → length k.rx_fifo < 1024
    → queue_response byte k ≡ record k { rx_fifo = k.rx_fifo ++ (byte ∷ []) }
unfolding queue_response update_irq_state push_byte
queue_response-push k byte h room = ground arith

length_snoc : (xs : List ℕ) (x : ℕ) → length (xs ++ (x ∷ [])) ≡ length xs + 1
length_snoc xs x = length-append xs (x ∷ [])

ask_scan_set :
    (k : Kmi)
    → is_enabled k ≡ true
    → k.pending_command ≡ no_command
    → length k.rx_fifo < 1024
    → process_host_byte 0xF0 k
      ≡ record k { pending_command = set_scan_set; rx_fifo = k.rx_fifo ++ (ack ∷ []) }
unfolding process_host_byte process_command
ask_scan_set k h p room =
    rw (process_host_byte, h, p)
      (queue_response-push (record k { pending_command = set_scan_set }) ack h room)

give_scan_set :
    (k : Kmi) (n : ℕ)
    → is_enabled k ≡ true
    → k.pending_command ≡ set_scan_set
    → length k.rx_fifo < 1024
    → 1 ≤ n
    → n ≤ 3
    → process_host_byte n k
      ≡ record k { pending_command = no_command; rx_fifo = k.rx_fifo ++ (ack ∷ []); scan_set = n }
unfolding process_host_byte scan_set_parameter
give_scan_set k n h p room lo hi =
    ground (arith, queue_response-push (record k { pending_command = no_command }) ack h room)

query_scan_set :
    (k : Kmi)
    → is_enabled k ≡ true
    → k.pending_command ≡ set_scan_set
    → length k.rx_fifo < 1023
    → process_host_byte 0 k ≡ record k {
      pending_command = no_command;
      rx_fifo = k.rx_fifo ++ (ack ∷ []) ++ (k.scan_set ∷ []);
    }
unfolding process_host_byte scan_set_parameter
query_scan_set k h p room =
    let acked = record k { pending_command = no_command; rx_fifo = k.rx_fifo ++ (ack ∷ []) } in
    ground (
      arith,
      queue_response-push (record k { pending_command = no_command }) ack h (omega (arith, room)),
      queue_response-push acked k.scan_set h (omega (arith, room, length_snoc k.rx_fifo ack)),
    )

-- Setting the scan code set to 1, 2 or 3 and asking for it: the keyboard acknowledges each of the four
-- bytes and answers with that set, and it is ready for a command again; this at an enabled interface
-- whose keyboard waits for no parameter and which has room for the five bytes.
pub scan_set_conversation :
    (k : Kmi) (n : ℕ)
    → is_enabled k ≡ true
    → k.pending_command ≡ no_command
    → length k.rx_fifo < 1020
    → 1 ≤ n
    → n ≤ 3
    → let talk =
        process_host_byte 0
          (process_host_byte 0xF0 (process_host_byte n (process_host_byte 0xF0 k))) in
      (talk.rx_fifo ≡ k.rx_fifo ++ (ack ∷ ack ∷ ack ∷ ack ∷ n ∷ []))
      × (talk.scan_set ≡ n)
      × (talk.pending_command ≡ no_command)
scan_set_conversation k n h p room lo hi =
    let one = k.rx_fifo ++ (ack ∷ []) in
    let two = one ++ (ack ∷ []) in
    let three = two ++ (ack ∷ []) in
    let asked = record k { pending_command = set_scan_set; rx_fifo = one } in
    let given = record k { pending_command = no_command; rx_fifo = two; scan_set = n } in
    let again = record given { pending_command = set_scan_set; rx_fifo = three } in
    let size_one = length_snoc k.rx_fifo ack in
    let size_two = length_snoc one ack in
    let size_three = length_snoc two ack in
    rw
      (
        ask_scan_set k h p (omega (arith, room)),
        give_scan_set asked n h refl (omega (arith, room, size_one)) lo hi,
        ask_scan_set given h refl (omega (arith, room, size_one, size_two)),
        query_scan_set again h refl (omega (arith, room, size_one, size_two, size_three)),
      )
      (simp append_assoc, refl, refl)

response_facts :
    (k : Kmi) (byte : ℕ)
    → is_enabled k ≡ true
    → length k.rx_fifo < 1024
    → (length (queue_response byte k).rx_fifo ≡ length k.rx_fifo + 1)
      × ((queue_response byte k).cr ≡ k.cr)
response_facts k byte h room =
    let e = queue_response-push k byte h room in
    (ap (λ x. length x.rx_fifo) e ∙ length_snoc k.rx_fifo byte, ap (λ x. x.cr) e)

-- Between one and three bytes longer.
abbrev Longer : Kmi → Kmi → Type 0
Longer k k' =
    (length k.rx_fifo + 1 ≤ length k'.rx_fifo) × (length k'.rx_fifo ≤ length k.rx_fifo + 3)

process_command-Longer :
    (k : Kmi) (byte : ℕ)
    → is_enabled k ≡ true
    → length k.rx_fifo < 1022
    → Longer k (process_command byte k)
unfolding process_command reset_defaults
process_command-Longer k byte h room = grind (arith, response_facts)

-- An enabled keyboard with room for three bytes answers every byte from the host, a command or a
-- parameter, with one to three bytes.
pub process_host_byte-Longer :
    (k : Kmi) (byte : ℕ)
    → is_enabled k ≡ true
    → length k.rx_fifo < 1022
    → (length k.rx_fifo + 1 ≤ length (process_host_byte byte k).rx_fifo)
      × (length (process_host_byte byte k).rx_fifo ≤ length k.rx_fifo + 3)
unfolding process_host_byte scan_set_parameter
process_host_byte-Longer k byte h room =
    grind (arith, response_facts, process_command-Longer k byte)
