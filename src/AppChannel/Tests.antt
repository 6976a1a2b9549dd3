-- ===== src/AppChannel/Tests.antt =====
-- The theorems of the application channel on queues that are lists.
use zephyr_nano_drone.Prelude.{
  ℕ, ◌+◌, ◌≤◌, ◌≡◌, ◌↔◌, false, none, List, [], ◌++◌, arith, ltb, length, take, replicate, ◌||◌,
}
use zephyr_nano_drone.Msgq.Lists.{list_msgq, list_msgq-Fifo}
use zephyr_nano_drone.Crtp.{Packet, Crtp}
use zephyr_nano_drone.AppChannel.{Channel, incoming_all, has_overflow_occured, send_data_packet}
use zephyr_nano_drone.AppChannel.Queue.{incoming_all-take}
use zephyr_nano_drone.AppChannel.Send.{send_data_packet-none}

abbrev packet : Packet
packet = record { size = 2; channel = 2; port = 13; payload = replicate 30 0 }

abbrev nearly_full : Channel (List Packet)
nearly_full = record { rx_queue = replicate 9 packet; overflow = false }

abbrev three : List Packet
three = replicate 3 packet

incoming_all-take_example :
    ((incoming_all (list_msgq 10) three nearly_full).rx_queue
      ≡ take 10 (nearly_full.rx_queue ++ three))
    × ((has_overflow_occured (list_msgq 10) (incoming_all (list_msgq 10) three nearly_full)).0
        ≡ (false || ltb 10 (length nearly_full.rx_queue + length three)))
    × ((has_overflow_occured
          (list_msgq 10)
          (incoming_all (list_msgq 10) three nearly_full)).1.overflow
        ≡ false)
incoming_all-take_example =
    incoming_all-take (list_msgq 10) (λ q. q) (list_msgq-Fifo 10) three nearly_full (omega arith)

abbrev stack : Crtp (List Packet) Unit Unit
stack = record {
  tx_queue = [];
  queues = λ i. [];
  callbacks = [];
  link = none;
  stats = record {
    rx_count = 0;
    tx_count = 0;
    rx_rate = 0;
    tx_rate = 0;
    next_statistics_time = 0;
    previous_statistics_time = 0;
  };
}

abbrev long_data : List ℕ
long_data = replicate 40 1

send_data_packet-none_example :
    (send_data_packet (list_msgq 120) packet long_data stack ≡ none) ↔ (31 ≤ length long_data)
send_data_packet-none_example = send_data_packet-none (list_msgq 120) packet long_data stack
