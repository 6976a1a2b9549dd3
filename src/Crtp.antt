-- ===== src/Crtp.antt =====
-- src/crtp.c and includes/crtp.h: the radio protocol's packets, its transmit and receive tasks, the
-- queues and callbacks of its ports, and the link below it.
pub mod Tasks
mod Tests
use zephyr_nano_drone.Prelude.{
  ℕ, zero, suc, ◌+◌, ◌-◌, ◌*◌, ◌%◌, Bool, true, false, Option, none, some, List, [], ◌∷◌, leb, ltb,
  ◌==◌, if◌then◌else◌, ◌>>=◌, set, get_or, replicate, u16, u32, not, sub_u32, is_some,
}
use zephyr_nano_drone.Msgq.{Msgq}

abbrev pub max_data_size : ℕ
max_data_size = 30

abbrev pub nbr_of_ports : ℕ
nbr_of_ports = 16

abbrev pub tx_queue_size : ℕ
tx_queue_size = 120

abbrev pub rx_queue_size : ℕ
rx_queue_size = 16

-- An int of C, of either sign.
pub data ℤ : Type 0 where
  pos : ℕ → ℤ
  negsuc : ℕ → ℤ

-- CRTPPacket: the header byte as its bit fields, and the 30 bytes of data, of which `size` count.
pub record Packet : Type 0 where
  pub size : ℕ
  pub channel : ℕ
  pub port : ℕ
  pub payload : List ℕ

-- CRTP_HEADER(port, channel) written to the header byte: `channel` has four bits there, of which
-- the field takes the lower two.
abbrev pub set_header : ℕ → ℕ → Packet → Packet
set_header port channel p = record p { port = port % 16; channel = channel % 4 }

-- struct crtpLinkOperations, on the state `L` of a link; the pointers that may be null as options.
pub record Link (L : Type 0) : Type 0 where
  pub set_enable : Bool → L → L
  pub send_packet : Packet → L → Bool × L
  pub receive_packet : L → Option Packet × L
  pub is_connected : Option (L → Bool)
  pub reset : Option (L → L)

pub record Stats : Type 0 where
  pub rx_count : ℕ
  pub tx_count : ℕ
  pub rx_rate : ℕ
  pub tx_rate : ℕ
  pub next_statistics_time : ℕ
  pub previous_statistics_time : ℕ

-- `rate count interval` is `(uint16_t)(1000.0f * count / interval)`, in floating point.
abbrev pub update_stats : (ℕ → ℕ → ℕ) → ℕ → Stats → Stats
update_stats rate now s =
    if ltb s.next_statistics_time now
    then record s {
      rx_rate = rate s.rx_count (sub_u32 now s.previous_statistics_time);
      tx_rate = rate s.tx_count (sub_u32 now s.previous_statistics_time);
      rx_count = 0;
      tx_count = 0;
      previous_statistics_time = now;
      next_statistics_time = u32 (now + 500);
    }
    else s

-- The module's variables: `Q` is the state of a message queue, `L` that of the link, `W` what the
-- callbacks of the ports act on. `link` is none for `nopLink`.
pub record Crtp (Q L W : Type 0) : Type 0 where
  pub tx_queue : Q
  pub queues : ℕ → Q
  pub callbacks : List (Option (Packet → W → W))
  pub link : Option (Link L)
  pub stats : Stats

abbrev set_queue {ℓ} : {Q : Type ℓ} → (ℕ → Q) → ℕ → Q → ℕ → Q
set_queue queues port q i = if i == port then q else queues i

abbrev pub enable : {L : Type 0} → Bool → Option (Link L) → L → L
enable on none l = l
enable on (some k) l = k.set_enable on l

-- `while (link->sendPacket(&p) == false)`: the link's state after the first success, none when
-- there is none in `fuel` tries.
unfoldable pub send_until : {L : Type 0} → ℕ → Link L → Packet → L → Option L
send_until zero k p l = none
send_until (suc fuel) k p l =
    let (done, l') = k.send_packet p l in
    let rest = send_until fuel k p l' in if done then some l' else rest

module _ {Q L W : Type 0} (ops : Msgq Q Packet) where
  abbrev pub get_free_tx_queue_packets : Crtp Q L W → ℕ
  get_free_tx_queue_packets c = tx_queue_size - ops.num_used c.tx_queue

  -- none where the assertion on the size fails; the Boolean is "the call returned 0".
  unfoldable pub send_packet : Packet → Crtp Q L W → Option (Bool × Crtp Q L W)
  send_packet p c =
      if leb p.size max_data_size
      then (let (done, q) = ops.put c.tx_queue p in some (done, record c { tx_queue = q }))
      else none

  unfoldable pub receive_packet : ℕ → Crtp Q L W → Option Packet × Crtp Q L W
  receive_packet port c =
      let (p, q) = ops.get (c.queues port) in (p, record c { queues = set_queue c.queues port q })

  -- none: a write past the end of the array `callbacks`, or before its start.
  unfoldable pub register_port_cb : ℤ → Option (Packet → W → W) → Crtp Q L W → Option (Crtp Q L W)
  register_port_cb (negsuc n) cb c = none
  register_port_cb (pos port) cb c =
      if ltb nbr_of_ports port
      then some c
      else if ltb port nbr_of_ports
      then some (record c { callbacks = set c.callbacks port cb })
      else none

  unfoldable pub reset : Crtp Q L W → L → Crtp Q L W × L
  reset c l = (
    record c { tx_queue = ops.purge c.tx_queue },
    elim c.link [ none ↦ l | some k ↦ elim k.reset [ none ↦ l | some f ↦ f l ] ],
  )

  abbrev pub is_connected : Crtp Q L W → L → Bool
  is_connected c l = elim c.link [
    | none ↦ true
    | some k ↦ elim k.is_connected [ none ↦ true | some f ↦ f l ]
  ]

  unfoldable pub set_link : Option (Link L) → Crtp Q L W → L → Crtp Q L W × L
  set_link lk c l = (record c { link = lk }, enable true lk (enable false c.link l))

  -- One round of crtpTxTask. With no link, or no packet to wait for, it changes nothing.
  unfoldable pub tx_round : ℕ → (ℕ → ℕ → ℕ) → ℕ → Crtp Q L W → L → Option (Crtp Q L W × L)
  unfolding send_until
  tx_round fuel rate now c l = elim c.link [
    | none ↦ some (c, l)
    | some k ↦
        let (p, q) = ops.get c.tx_queue in
        elim p [
          | none ↦ some (c, l)
          | some packet ↦ do
            l' ← send_until fuel k packet l
            let counted = record c.stats { tx_count = u32 (c.stats.tx_count + 1) }
            some (record c { tx_queue = q; stats = update_stats rate now counted }, l')
        ]
  ]

  -- The callback of the packet's port, called if there is one.
  abbrev pub called : Packet → Crtp Q L W → W → W
  called p c w = elim (get_or c.callbacks p.port none) as (λ _. W) [ none ↦ w | some cb ↦ cb p w ]

  -- What crtpRxTask does with a packet. Only a full queue is put to, and that blocks until it has
  -- room: `wait` is what the other threads do meanwhile to the module and to what callbacks act on.
  unfoldable pub rx_packet :
      (ℕ → Crtp Q L W → W → Crtp Q L W × W)
      → (ℕ → ℕ → ℕ)
      → ℕ
      → Packet
      → Crtp Q L W
      → W
      → Crtp Q L W × W
  rx_packet wait rate now p c w =
      let (waited, w₁) = wait p.port c w in
      let stored = (ops.put (waited.queues p.port) p).1 in
      let put = record waited { queues = set_queue waited.queues p.port stored } in
      let (c', w') =
        if ops.num_used (c.queues p.port) == rx_queue_size then (put, w₁) else (c, w) in
      let counted = record c'.stats { rx_count = u32 (c'.stats.rx_count + 1) } in
      (record c' { stats = update_stats rate now counted }, called p c' w')

  -- One round of crtpRxTask.
  unfoldable pub rx_round :
      (ℕ → Crtp Q L W → W → Crtp Q L W × W)
      → (ℕ → ℕ → ℕ)
      → ℕ
      → Crtp Q L W
      → L
      → W
      → Crtp Q L W × L × W
  unfolding rx_packet
  rx_round wait rate now c l w = elim c.link [
    | none ↦ (c, l, w)
    | some k ↦
        let (p, l') = k.receive_packet l in
        elim p [
          | none ↦ (c, l', w)
          | some packet ↦ let (c', w') = rx_packet wait rate now packet c w in (c', l', w')
        ]
  ]
