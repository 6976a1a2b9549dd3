-- ===== src/Crtp/Tests.antt =====
-- The theorems of the protocol stack on a link that takes every packet.
use zephyr_nano_drone.Prelude.{
  ℕ, ◌≡◌, ◌<◌, ◌↔◌, refl, true, none, some, List, [], ◌∷◌, ◌++◌, arith, if◌then◌else◌, get_or,
  replicate,
}
use zephyr_nano_drone.Msgq.Lists.{list_msgq, list_msgq-Fifo}
use zephyr_nano_drone.Crtp.{ℤ, negsuc, Packet, Link, Crtp, tx_round, register_port_cb}
use zephyr_nano_drone.Crtp.Tasks.{
  Transmits, tx_round_fifo, Outside, names, register_port_cb-callbacks,
}

abbrev packet : ℕ → Packet
packet i = record { size = 1; channel = 0; port = 3; payload = i ∷ [] }

-- The link's state is the list of the packets it has taken; it receives one for port 3.
abbrev open_link : Link (List Packet)
open_link = record {
  set_enable = λ on l. l;
  send_packet = λ p l. (true, l ++ (p ∷ []));
  receive_packet = λ l. (some (packet 9), l);
  is_connected = none;
  reset = none;
}

open_link-Transmits : Transmits open_link (λ l. l) (λ l. 0)
open_link-Transmits = record {
  accepted = λ p l e. refl;
  refused = λ p l e. absurd (ground (arith, e));
}

-- Two packets to send, and the queues of the ports full.
abbrev busy : Crtp (List Packet) (List Packet) ℕ
busy = record {
  tx_queue = packet 1 ∷ packet 2 ∷ [];
  queues = λ i. replicate 16 (packet 0);
  callbacks = replicate 16 none;
  link = some open_link;
  stats = record {
    rx_count = 0;
    tx_count = 0;
    rx_rate = 0;
    tx_rate = 0;
    next_statistics_time = 500;
    previous_statistics_time = 0;
  };
}

tx_round_fifo_example :
    (c' : Crtp (List Packet) (List Packet) ℕ) × (l' : List Packet) × (tx_round
        (list_msgq 120)
        1
        (λ n t. n)
        20
        busy
        []
      ≡ some (c', l'))
    × (c'.tx_queue ≡ packet 2 ∷ [])
    × (l' ++ c'.tx_queue ≡ [] ++ busy.tx_queue)
tx_round_fifo_example =
    tx_round_fifo (list_msgq 120) (λ q. q) (list_msgq-Fifo 120) (λ n t. n) open_link (λ l. l)
      (λ l. 0) open_link-Transmits 1 20 busy [] (packet 1) (packet 2 ∷ []) refl refl (omega arith)

-- A reader empties the queue of the port meanwhile.
abbrev reader : ℕ → Crtp (List Packet) (List Packet) ℕ → ℕ → Crtp (List Packet) (List Packet) ℕ × ℕ
reader port c w = (record c { queues = λ i. [] }, w)

abbrev before_the_start : ℤ
before_the_start = negsuc 0

register_port_cb-callbacks_example :
    ((register_port_cb (list_msgq 120) before_the_start none busy ≡ none)
      ↔ Outside before_the_start)
    × ((c' : Crtp (List Packet) (List Packet) ℕ)
        → register_port_cb (list_msgq 120) before_the_start none busy ≡ some c'
        → (p : ℕ) → p < 16
        → get_or c'.callbacks p none
          ≡ (if names before_the_start p then none else get_or busy.callbacks p none))
register_port_cb-callbacks_example =
    register_port_cb-callbacks (list_msgq 120) before_the_start none busy refl
