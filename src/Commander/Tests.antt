-- ===== src/Commander/Tests.antt =====
-- The theorems of the commander on queues that are lists, with numbers for floats.
use zephyr_nano_drone.Prelude.{
  ℕ, ◌≤◌, ◌<◌, ◌≡◌, ◌≢◌, refl, Bool, true, false, none, some, List, [], ◌∷◌, arith, leb, ltb, ◌&&◌,
  if◌then◌else◌, u32, inl,
}
use zephyr_nano_drone.Msgq.Lists.{list_msgq, list_msgq-Fifo}
use zephyr_nano_drone.Crtp.{Packet}
use zephyr_nano_drone.Commander.{
  Commander, Setpoint, HighLevel, null_setpoint, set_setpoint, get_setpoint, relax_priority,
}
use zephyr_nano_drone.Commander.Arbitration.{Holds, set_setpoint-Holds}
use zephyr_nano_drone.Commander.Watchdog.{aged, set_setpoint-get_setpoint}
use zephyr_nano_drone.Commander.Packets.{
  Decoders, commander_crtp_cb, commander_crtp_cb_setpoint, commander_crtp_cb_stop,
}

-- The planner is active or not.
abbrev planner : HighLevel Bool ℕ
planner = record { disable = λ h. false; tell_state = λ x h. h }

abbrev hover : Setpoint ℕ
hover = record (null_setpoint 0) { thrust = 40 }

abbrev climb : Setpoint ℕ
climb = record (null_setpoint 0) { thrust = 60 }

-- A setpoint of the high-level commander is in force.
abbrev flying : Commander (List (Setpoint ℕ)) (List ℕ) Bool ℕ
flying = record {
  setpoint_queue = hover ∷ [];
  priority_queue = 1 ∷ [];
  last_state = 0;
  last_update = 0;
  is_init = true;
  high_level = true;
}

abbrev InForce : Commander (List (Setpoint ℕ)) (List ℕ) Bool ℕ → Setpoint ℕ → ℕ → Type 0
InForce = Holds (list_msgq 1) (list_msgq 1) (λ q. q) (λ q. q) planner

flying-Holds : InForce flying hover 1
flying-Holds = record { setpoint = refl; rank = refl }

set_setpoint-Holds_example :
    (c' : Commander (List (Setpoint ℕ)) (List ℕ) Bool ℕ) × (set_setpoint
        (list_msgq 1)
        (list_msgq 1)
        planner
        100
        climb
        2
        flying
      ≡ some c')
    × (1 ≤ 2 → InForce c' (record climb { timestamp = u32 100 }) 2)
    × (2 < 1 → c' ≡ flying)
    × (c'.high_level ≡ (if leb 1 2 then (if ltb 1 2 then false else true) else true))
set_setpoint-Holds_example =
    set_setpoint-Holds (list_msgq 1) (list_msgq 1) (λ q. q) (λ q. q) planner (list_msgq-Fifo 1)
      (list_msgq-Fifo 1) 100 climb hover 2 1 flying flying-Holds

abbrev relaxed : Commander (List (Setpoint ℕ)) (List ℕ) Bool ℕ
relaxed = relax_priority (list_msgq 1) (list_msgq 1) planner flying

-- The readings of the two clocks differ by 700, across the turn of 32 bits.
set_setpoint-get_setpoint_example :
    (c' : Commander (List (Setpoint ℕ)) (List ℕ) Bool ℕ) × (set_setpoint
        (list_msgq 1)
        (list_msgq 1)
        planner
        4294967290
        climb
        2
        flying
      ≡ some c')
    × ((get_setpoint (list_msgq 1) (list_msgq 1) (λ ms. ms) 0 4294967990 hover 5 c').0
        ≡ aged (λ ms. ms) 0 700 (record climb { timestamp = u32 4294967290 }))
    × InForce
        (get_setpoint (list_msgq 1) (list_msgq 1) (λ ms. ms) 0 4294967990 hover 5 c').1
        (record climb { timestamp = u32 4294967290 })
        (if ltb 500 700 && leb 700 2000 then 0 else 2)
set_setpoint-get_setpoint_example =
    set_setpoint-get_setpoint (list_msgq 1) (list_msgq 1) (λ q. q) (λ q. q) planner
      (list_msgq-Fifo 1) (list_msgq-Fifo 1) (λ ms. ms) (omega arith) 0 4294967290 4294967990 hover
      climb hover 5 flying 2 1 flying-Holds (omega arith)

abbrev by_first_byte : Decoders ℕ
by_first_byte = record {
  rpyt = λ s p. record s { thrust = p.size };
  generic = λ s p. record s { thrust = p.size };
}

abbrev setpoint_packet : Packet
setpoint_packet = record { size = 14; channel = 0; port = 3; payload = [] }

commander_crtp_cb_setpoint_example :
    (s : Setpoint ℕ) × (c' : Commander (List (Setpoint ℕ)) (List ℕ) Bool ℕ) × (commander_crtp_cb
        (list_msgq 1)
        (list_msgq 1)
        planner
        by_first_byte
        100
        setpoint_packet
        hover
        flying
      ≡ some (s, c'))
    × (s ≡ record hover { thrust = 14; timestamp = 100 })
    × InForce c' s 2
commander_crtp_cb_setpoint_example =
    commander_crtp_cb_setpoint (list_msgq 1) (list_msgq 1) planner by_first_byte (λ q. q) (λ q. q)
      (list_msgq-Fifo 1) (list_msgq-Fifo 1) 100 setpoint_packet hover hover 1 flying flying-Holds
      (omega arith) refl (inl refl)

abbrev stop_packet : Packet
stop_packet = record { size = 5; channel = 1; port = 7; payload = 0 ∷ 1 ∷ 0 ∷ 0 ∷ 0 ∷ [] }

commander_crtp_cb_stop_example :
    (stop_packet.size ≡ 5
      → (c' : Commander (List (Setpoint ℕ)) (List ℕ) Bool ℕ) × (commander_crtp_cb
            (list_msgq 1)
            (list_msgq 1)
            planner
            by_first_byte
            100
            stop_packet
            hover
            flying
          ≡ some (hover, c'))
        × InForce c' hover 1)
    × (stop_packet.size ≢ 5
        → commander_crtp_cb
            (list_msgq 1)
            (list_msgq 1)
            planner
            by_first_byte
            100
            stop_packet
            hover
            flying
          ≡ none)
commander_crtp_cb_stop_example =
    commander_crtp_cb_stop (list_msgq 1) (list_msgq 1) planner by_first_byte (λ q. q) (λ q. q)
      (list_msgq-Fifo 1) (list_msgq-Fifo 1) 100 stop_packet hover hover 1 flying flying-Holds refl
      refl refl (omega arith)
