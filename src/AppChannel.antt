-- ===== src/AppChannel.antt =====
-- src/app_channel.c: packets exchanged with an application, over src/platformservice.c.
pub mod Queue
pub mod Send
mod Tests
use zephyr_nano_drone.Prelude.{
  ℕ, ◌+◌, ◌-◌, Bool, true, false, Option, none, some, List, [], ◌∷◌, ◌++◌, ltb, ◌==◌, if◌then◌else◌,
  ◌>>=◌, length, take, drop, replicate, get_or, ◌||◌, not,
}
use zephyr_nano_drone.Msgq.{Msgq}
use zephyr_nano_drone.Crtp.{Packet, Crtp, send_packet}

abbrev pub appchannel_mtu : ℕ
appchannel_mtu = 31

abbrev pub port_platform : ℕ
port_platform = 13

-- The channels of the platform port.
abbrev pub app_channel : ℕ
app_channel = 2

pub record Channel (Q : Type 0) : Type 0 where
  pub rx_queue : Q
  pub overflow : Bool

-- platformserviceSendAppchannelPacket.
abbrev pub send_appchannel_packet :
    {Q L W : Type 0} → Msgq Q Packet → Packet → Crtp Q L W → Option (Bool × Crtp Q L W)
send_appchannel_packet ops p c =
    send_packet ops (record p { port = port_platform; channel = app_channel }) c

-- sendDataPacket without blocking; `static` is its static packet as the last call left it.
unfoldable pub send_data_packet :
    {Q L W : Type 0} → Msgq Q Packet → Packet → List ℕ → Crtp Q L W → Option (Bool × Crtp Q L W)
send_data_packet ops static bs c =
    let size = if ltb appchannel_mtu (length bs) then appchannel_mtu else length bs in
    send_appchannel_packet ops
      (record static { size = size; payload = take size bs ++ drop size static.payload }) c

module _ {Q : Type 0} (ops : Msgq Q Packet) where
  -- appchannelIncomingPacket.
  unfoldable pub incoming_packet : Packet → Channel Q → Channel Q
  incoming_packet p c =
      let (done, q) = ops.put c.rx_queue p in
      record c { rx_queue = q; overflow = if done then c.overflow else true }

  -- appchannelReceiveDataPacket, with a time-out of 0: what is copied to the buffer.
  unfoldable pub receive_data_packet : ℕ → Channel Q → List ℕ × Channel Q
  receive_data_packet max_length c =
      let (p, q) = ops.get c.rx_queue in
      (
        elim p as (λ _. List ℕ) [
          | none ↦ []
          | some packet ↦
              take (if ltb max_length packet.size then max_length else packet.size) packet.payload
        ],
        record c { rx_queue = q },
      )

  -- appchannelHasOverflowOccured.
  abbrev pub has_overflow_occured : Channel Q → Bool × Channel Q
  has_overflow_occured c = (c.overflow, record c { overflow = false })

  -- The packets that come in one after the other.
  abbrev pub incoming_all : List Packet → Channel Q → Channel Q
  incoming_all [] c = c
  incoming_all (p ∷ ps) c = incoming_all ps (incoming_packet p c)
