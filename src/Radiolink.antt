-- ===== src/Radiolink.antt =====
-- src/radiolink.c: the packets of the radio protocol inside those of syslink, the link to the radio's
-- processor. Its receivePacket calls a queue of another system and is not modelled.
pub mod Delivery
mod Tests
use zephyr_nano_drone.Prelude.{
  ℕ, zero, suc, ◌+◌, ◌-◌, ◌%◌, Bool, true, false, Option, none, some, List, [], ◌∷◌, ◌++◌, leb, ltb,
  ◌==◌, if◌then◌else◌, ◌>>=◌, ◌||◌, take, drop, get_or, set,
}
use zephyr_nano_drone.Msgq.{Msgq}

-- SyslinkPacket: its kind, its length, and the 64 bytes of its data.
pub record SyslinkPacket : Type 0 where
  pub kind : ℕ
  pub size : ℕ
  pub content : List ℕ

-- CRTPPacket and P2PPacket as a size and raw bytes: the header or the port, and the data.
pub record RawPacket : Type 0 where
  pub size : ℕ
  pub raw : List ℕ

pub record PeerPacket : Type 0 where
  pub rssi : ℕ
  pub packet : RawPacket

-- The module's variables, over the states of its two queues; the callback acts on `W`.
pub record Radiolink (Q D W : Type 0) : Type 0 where
  pub tx_queue : Q
  pub delivery : D
  pub rssi : ℕ
  pub is_connected : Bool
  pub last_packet_tick : ℕ
  pub p2p_callback : Option (PeerPacket → W → W)

abbrev pub radio_raw : ℕ
radio_raw = 0

abbrev pub radio_rssi : ℕ
radio_rssi = 4

abbrev pub radio_raw_broadcast : ℕ
radio_raw_broadcast = 6

abbrev pub radio_p2p_broadcast : ℕ
radio_p2p_broadcast = 10

-- The bytes from `slp->length` on that are copied to the queue of deliveries, with the length
-- decreased: the size, the header and 30 bytes.
abbrev pub delivered : SyslinkPacket → RawPacket
delivered slp = record { size = (slp.size + 255) % 256; raw = take 31 slp.content }

-- The packet of a peer: none where more bytes are copied than it holds.
unfoldable pub peer_packet : SyslinkPacket → Option PeerPacket
peer_packet slp =
    let n = (slp.size + 254) % 256 in
    if leb n 60
    then some (record {
      rssi = get_or slp.content 1 0;
      packet = record { size = n; raw = get_or slp.content 0 0 ∷ take n (drop 2 slp.content) };
    })
    else none

module _ {Q D W : Type 0} (tx : Msgq Q SyslinkPacket) (deliveries : Msgq D RawPacket)
    (ticks : ℕ → ℕ) where
  -- radiolinkIsConnected at the uptime `now`. The difference is one of 64 bits: where it is negative
  -- it stands as 0 here, which is below the time-out too.
  abbrev pub radiolink_is_connected : ℕ → Radiolink Q D W → Bool
  radiolink_is_connected now r = ltb (now - r.last_packet_tick) (ticks 1000)

  -- radiolinkSendCRTPPacket: none where the assertion fails; `static` is its static packet.
  unfoldable pub send_crtp_packet :
      SyslinkPacket → RawPacket → Radiolink Q D W → Option (Bool × SyslinkPacket × Radiolink Q D W)
  send_crtp_packet static p r =
      let slp : SyslinkPacket = record {
        kind = radio_raw;
        size = p.size + 1;
        content = take (p.size + 1) p.raw ++ drop (p.size + 1) static.content;
      } in
      let (done, q) = tx.put r.tx_queue slp in
      if leb p.size 30 then some (done, slp, record r { tx_queue = q }) else none

  -- The branches of radiolinkSyslinkDispatch: a packet, for which one is taken off the transmit queue,
  -- and a broadcast.
  unfoldable pub dispatch_raw : SyslinkPacket → Radiolink Q D W → Option (Radiolink Q D W)
  dispatch_raw slp r =
      let (done, d) = deliveries.put r.delivery (delivered slp) in
      let (taken, q) = tx.get r.tx_queue in
      if done then some (record r { delivery = d; tx_queue = q }) else none

  unfoldable pub dispatch_broadcast : SyslinkPacket → Radiolink Q D W → Radiolink Q D W
  dispatch_broadcast slp r =
      let (done, d) = deliveries.put r.delivery (delivered slp) in record r { delivery = d }

  -- radiolinkSyslinkDispatch, at the tick `tick` and the uptime `now`: none where an assertion fails
  -- or a copy is too long.
  unfoldable pub syslink_dispatch :
      ℕ → ℕ → SyslinkPacket → Radiolink Q D W → W → Option (Radiolink Q D W × W)
  unfolding dispatch_raw dispatch_broadcast peer_packet
  syslink_dispatch tick now slp r w =
      let seen = record r { last_packet_tick = tick } in
      let finish =
        (λ (r' : Radiolink Q D W). record r' { is_connected = radiolink_is_connected now r' }) in
      let raw = (do r' ← dispatch_raw slp seen; some (finish r', w)) in
      let peer = (do
        p ← peer_packet slp
        some (finish r, elim r.p2p_callback as (λ _. W) [ none ↦ w | some f ↦ f p w ])) in
      if slp.kind == radio_raw
      then raw
      else if slp.kind == radio_raw_broadcast
      then some (finish (dispatch_broadcast slp seen), w)
      else if slp.kind == radio_rssi
      then some (finish (record r { rssi = get_or slp.content 0 0 }), w)
      else if slp.kind == radio_p2p_broadcast
      then peer
      else some (finish r, w)

  -- p2pRegisterCB
  abbrev pub p2p_register_cb : Option (PeerPacket → W → W) → Radiolink Q D W → Radiolink Q D W
  p2p_register_cb f r = record r { p2p_callback = f }
