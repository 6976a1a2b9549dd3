-- ===== src/Radiolink/Tests.antt =====
-- A packet sent over queues that are lists.
use zephyr_nano_drone.Prelude.{◌≡◌, refl, true, false, none, some, List, [], ◌∷◌, ◌++◌, arith, take}
use zephyr_nano_drone.Msgq.Lists.{list_msgq, list_msgq-Fifo}
use zephyr_nano_drone.Radiolink.{
  SyslinkPacket, RawPacket, Radiolink, send_crtp_packet, syslink_dispatch,
}
use zephyr_nano_drone.Radiolink.Delivery.{send_crtp_packet-syslink_dispatch}

abbrev quiet : Radiolink (List SyslinkPacket) (List RawPacket) Unit
quiet = record {
  tx_queue = [];
  delivery = [];
  rssi = 0;
  is_connected = false;
  last_packet_tick = 0;
  p2p_callback = none;
}

abbrev blank : SyslinkPacket
blank = record { kind = 0; size = 0; content = 0 ∷ 0 ∷ 0 ∷ 0 ∷ [] }

abbrev two_bytes : RawPacket
two_bytes = record { size = 2; raw = 60 ∷ 7 ∷ 8 ∷ [] }

send_crtp_packet-syslink_dispatch_example :
    (slp : SyslinkPacket) × (sender' : Radiolink (List SyslinkPacket) (List RawPacket) Unit)
    × (receiver' : Radiolink (List SyslinkPacket) (List RawPacket) Unit) × (got : RawPacket)
    × (send_crtp_packet (list_msgq 1) (list_msgq 5) (λ t. t) blank two_bytes quiet
        ≡ some (true, slp, sender'))
    × (sender' ≡ record quiet { tx_queue = sender'.tx_queue })
    × (sender'.tx_queue ≡ slp ∷ [])
    × (((list_msgq 1).get sender'.tx_queue).0 ≡ some slp)
    × (syslink_dispatch (list_msgq 1) (list_msgq 5) (λ t. t) 40 40 slp quiet tt
        ≡ some (receiver', tt))
    × (receiver'.delivery ≡ [] ++ (got ∷ []))
    × (got.size ≡ 2)
    × (take 3 got.raw ≡ 60 ∷ 7 ∷ 8 ∷ [])
    × (receiver'.tx_queue ≡ [])
send_crtp_packet-syslink_dispatch_example =
    send_crtp_packet-syslink_dispatch (list_msgq 1) (list_msgq 5) (λ q. q) (list_msgq-Fifo 1)
      (λ q. q) (list_msgq-Fifo 5) (λ t. t) blank two_bytes quiet quiet 40 40 tt (omega arith)
      (omega arith) refl (omega arith)
