-- ===== src/Commander/Packets.antt =====
-- src/crtp_commander.c: setpoints and meta-commands that come in as packets.
use zephyr_nano_drone.Prelude.{
  ℕ, ◌≤◌, ◌≡◌, refl, true, false, inl, inr, ◌⊎◌, ◌≢◌, Option, none, some, List, [], arith, leb, ltb,
  ◌==◌, if◌then◌else◌, ◌>>=◌, ◌&&◌, get_or, u32, sub_u32,
}
use zephyr_nano_drone.Msgq.{Msgq, Fifo}
use zephyr_nano_drone.Crtp.{Packet}
use zephyr_nano_drone.Commander.{
  Commander, Setpoint, HighLevel, priority_crtp, set_setpoint, stamped, relax_priority,
}
use zephyr_nano_drone.Commander.Arbitration.{Holds, set_setpoint-Holds}
use zephyr_nano_drone.Commander.Mailbox.{replace_lem}

abbrev pub port_setpoint : ℕ
port_setpoint = 3

abbrev pub port_setpoint_generic : ℕ
port_setpoint_generic = 7

abbrev pub n_meta_commands : ℕ
n_meta_commands = 1

-- The decoders crtpCommanderRpytDecodeSetpoint and crtpCommanderGenericDecodeSetpoint, which the
-- repository does not hold: what they make of the static setpoint and a packet.
pub record Decoders (F : Type 0) : Type 0 where
  pub rpyt : Setpoint F → Packet → Setpoint F
  pub generic : Setpoint F → Packet → Setpoint F

module _ {Q P H X F : Type 0} (setpoints : Msgq Q (Setpoint F)) (priorities : Msgq P ℕ)
    (hl : HighLevel H X) (decode : Decoders F) where
  -- notifySetpointsStopDecoder: none where the assertion on the length fails.
  unfoldable pub notify_setpoints_stop : ℕ → Commander Q P H X → Option (Commander Q P H X)
  notify_setpoints_stop datalen c =
      if datalen == 4 then some (relax_priority setpoints priorities hl c) else none

  -- The decoder called with the size of what follows the command byte, a size_t.
  unfoldable pub meta_command : Packet → Commander Q P H X → Option (Commander Q P H X)
  unfolding notify_setpoints_stop
  meta_command p c =
      if ltb (get_or p.payload 0 0) n_meta_commands
      then notify_setpoints_stop (sub_u32 p.size 1) c
      else some c

  -- commanderCrtpCB at time `now`; `static` is its static setpoint, which it returns as it leaves it.
  unfoldable pub commander_crtp_cb :
      ℕ → Packet → Setpoint F → Commander Q P H X → Option (Setpoint F × Commander Q P H X)
  unfolding meta_command
  commander_crtp_cb now p static c =
      let s = decode.rpyt static p in
      let g = decode.generic static p in
      let meta = (do c' ← meta_command p c; some (static, c')) in
      if (p.port == port_setpoint) && (p.channel == 0)
      then (do
        c' ← set_setpoint setpoints priorities hl now s priority_crtp c
        some (stamped setpoints priorities now s priority_crtp c, c'))
      else if p.port == port_setpoint_generic
      then (if p.channel == 0
          then (do
            c' ← set_setpoint setpoints priorities hl now g priority_crtp c
            some (stamped setpoints priorities now g priority_crtp c, c'))
          else if p.channel == 1
          then meta
          else some (static, c))
      else some (static, c)

  module _ (sent : Q → List (Setpoint F)) (ranks : P → List ℕ) (fs : Fifo setpoints sent 1)
      (fp : Fifo priorities ranks 1) where
    stamped_lem :
        (now : ℕ) (s old : Setpoint F) (current : ℕ) (c : Commander Q P H X)
        → Holds setpoints priorities sent ranks hl c old current
        → current ≤ 2
        → stamped setpoints priorities now s 2 c ≡ record s { timestamp = u32 now }
    unfolding stamped
    stamped_lem now s old current c k l =
        let rank = fp.peek_first c.priority_queue current [] k.rank in
        let above : leb current 2 ≡ true = ground arith in rw (stamped, rank, above) refl

    -- A packet on channel 0 of the setpoint port or of the generic setpoint port, on a commander
    -- whose setpoint is of the protocol's priority or lower, goes through: the commander then holds
    -- the decoded setpoint, stamped with the time, at the protocol's priority.
    pub commander_crtp_cb_setpoint :
        (now : ℕ) (p : Packet) (static old : Setpoint F) (current : ℕ) (c : Commander Q P H X)
        → Holds setpoints priorities sent ranks hl c old current
        → current ≤ 2
        → p.channel ≡ 0
        → (p.port ≡ 3) ⊎ (p.port ≡ 7)
        → (s : Setpoint F) × (c' : Commander Q P H X) × (commander_crtp_cb now p static c
            ≡ some (s, c'))
          × (s ≡ record (if p.port == 3 then decode.rpyt static p else decode.generic static p) {
            timestamp = u32 now;
          })
          × Holds setpoints priorities sent ranks hl c' s 2
    unfolding commander_crtp_cb
    commander_crtp_cb_setpoint now p static old current c k l ch (inl port) =
        let (c', e, taken, lower, planner) =
          set_setpoint-Holds setpoints priorities sent ranks hl fs fp now (decode.rpyt static p) old
            2 current c k in
        let on : (p.port == 3) ≡ true = ground (arith, port) in
        let first : (p.channel == 0) ≡ true = ground (arith, ch) in
        rw (on, first, e, stamped_lem now (decode.rpyt static p) old current c k l)
          (_, c', refl, refl, taken l)
    commander_crtp_cb_setpoint now p static old current c k l ch (inr port) =
        let (c', e, taken, lower, planner) =
          set_setpoint-Holds setpoints priorities sent ranks hl fs fp now (decode.generic static p)
            old 2 current c k in
        let other : (p.port == 3) ≡ false = ground (arith, port) in
        let on : (p.port == 7) ≡ true = ground (arith, port) in
        let first : (p.channel == 0) ≡ true = ground (arith, ch) in
        rw (other, on, first, e, stamped_lem now (decode.generic static p) old current c k l)
          (_, c', refl, refl, taken l)

    -- A notification that setpoints stop, of the right length, lowers the priority to that of the
    -- high-level commander and keeps the setpoint; of any other length it fails an assertion.
    pub commander_crtp_cb_stop :
        (now : ℕ) (p : Packet) (static old : Setpoint F) (current : ℕ) (c : Commander Q P H X)
        → Holds setpoints priorities sent ranks hl c old current
        → p.port ≡ 7
        → p.channel ≡ 1
        → get_or p.payload 0 0 ≡ 0
        → p.size ≤ 30
        → (p.size ≡ 5
            → (c' : Commander Q P H X) × (commander_crtp_cb now p static c ≡ some (static, c'))
              × Holds setpoints priorities sent ranks hl c' old 1)
          × (p.size ≢ 5 → commander_crtp_cb now p static c ≡ none)
    unfolding commander_crtp_cb meta_command notify_setpoints_stop relax_priority
    commander_crtp_cb_stop now p static old current c k port ch command small = (
      λ five.
          rw (port, ch, command, five)
            (
              _,
              refl,
              record {
                setpoint = k.setpoint;
                rank = replace_lem priorities ranks fp 1 current c.priority_queue k.rank;
              },
            ),
      λ other.
          let wrong : (sub_u32 p.size 1 == 4) ≡ false = ground (arith, other) in
          rw (port, ch, command, wrong) refl,
    )
