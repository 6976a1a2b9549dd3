-- ===== src/Commander/Watchdog.antt =====
-- The watchdog of commanderGetSetpoint, from the setpoint that was set to the one that is read.
use zephyr_nano_drone.Prelude.{
  ℕ, ◌≤◌, ◌≡◌, refl, ap, Bool-cases, inl, inr, some, List, [], arith, ltb, leb, sub_u32,
  if◌then◌else◌, u32, ◌&&◌, true, false,
}
use zephyr_nano_drone.Msgq.{Msgq, Fifo}
use zephyr_nano_drone.Commander.{
  Commander, Setpoint, HighLevel, set_setpoint, get_setpoint, null_setpoint, disable, abs, velocity,
}
use zephyr_nano_drone.Commander.Mailbox.{replace_lem}
use zephyr_nano_drone.Commander.Arbitration.{Holds, set_setpoint-Holds}

-- A setpoint that holds its height and levels the copter.
abbrev pub levelled : {F : Type 0} → F → Setpoint F → Setpoint F
levelled float_zero s = record s {
  mode = record {
    x = disable;
    y = disable;
    z = s.mode.z;
    roll = abs;
    pitch = abs;
    yaw = velocity;
    quat = s.mode.quat;
  };
  attitude = record {
    timestamp = s.attitude.timestamp;
    roll = float_zero;
    pitch = float_zero;
    yaw = s.attitude.yaw;
  };
  attitude_rate = record {
    timestamp = s.attitude_rate.timestamp;
    roll = s.attitude_rate.roll;
    pitch = s.attitude_rate.pitch;
    yaw = float_zero;
  };
}

-- What a reader should get of a setpoint whose age it reads as `elapsed`.
abbrev pub aged : {F : Type 0} → (ℕ → ℕ) → F → ℕ → Setpoint F → Setpoint F
aged ticks float_zero elapsed s =
    if leb elapsed (ticks 500)
    then s
    else if leb elapsed (ticks 2000)
    then levelled float_zero s
    else null_setpoint float_zero

-- The age that commanderGetSetpoint reads off a setpoint: its tick count less the stamp, of 32 bits.
abbrev pub age_read : ℕ → ℕ → ℕ
age_read tick_count uptime = sub_u32 (u32 tick_count) (u32 uptime)

module _ {Q P H X F : Type 0} (setpoints : Msgq Q (Setpoint F)) (priorities : Msgq P ℕ)
    (sent : Q → List (Setpoint F)) (ranks : P → List ℕ) (hl : HighLevel H X)
    (fs : Fifo setpoints sent 1) (fp : Fifo priorities ranks 1) (ticks : ℕ → ℕ)
    (ordered : ticks 500 ≤ ticks 2000) (float_zero : F) where
  -- Reading at the tick count `r` a setpoint stamped with the uptime `t`: what is returned, and what
  -- stays in the queues.
  get_setpoint_lem :
      (t r : ℕ) (buffer s : Setpoint F) (x : X) (c : Commander Q P H X) (priority : ℕ)
      → Holds setpoints priorities sent ranks hl c s priority
      → s.timestamp ≡ u32 t
      → let d = age_read r t in
        ((get_setpoint setpoints priorities ticks float_zero r buffer x c).0
          ≡ aged ticks float_zero d s)
        × Holds setpoints priorities sent ranks hl
            (get_setpoint setpoints priorities ticks float_zero r buffer x c).1
            s
            (if ltb (ticks 500) d && leb d (ticks 2000) then 0 else priority)
  unfolding get_setpoint
  get_setpoint_lem t r buffer s x c priority k e =
      let peeked = fs.peek_first c.setpoint_queue s [] k.setpoint in
      let d = age_read r t in
      let age : sub_u32 (u32 r) s.timestamp ≡ d = ap (λ z. sub_u32 (u32 r) z) e in
      elim (Bool-cases (leb d (ticks 500))) [
        | inl fresh ↦
            let a : ltb (ticks 2000) d ≡ false = ground (arith, fresh, ordered) in
            let b : ltb (ticks 500) d ≡ false = ground (arith, fresh) in
            rw (peeked, age, fresh, a, b) (refl, record { setpoint = k.setpoint; rank = k.rank })
        | inr old ↦
            let b : ltb (ticks 500) d ≡ true = ground (arith, old) in
            elim (Bool-cases (leb d (ticks 2000))) [
              | inl stale ↦
                  let a : ltb (ticks 2000) d ≡ false = ground (arith, stale) in
                  rw (peeked, age, old, stale, a, b)
                    (
                      refl,
                      record {
                        setpoint = k.setpoint;
                        rank = replace_lem priorities ranks fp 0 priority c.priority_queue k.rank;
                      },
                    )
              | inr dead ↦
                  let a : ltb (ticks 2000) d ≡ true = ground (arith, dead) in
                  rw (peeked, age, old, dead, a, b)
                    (refl, record { setpoint = k.setpoint; rank = k.rank })
            ]
      ]

  -- A setpoint that is taken when the uptime is `t` ticks, and read when the tick count of the other
  -- clock is `r`: by the difference of the two readings, modulo 2 ^ 32, it comes back as it was set
  -- up to the first timeout, levelled up to the second, and as the null setpoint above that. Between
  -- the two its priority is dropped. Nothing is assumed of how the clocks are related.
  pub set_setpoint-get_setpoint :
      (t r : ℕ) (buffer s old : Setpoint F) (x : X) (c : Commander Q P H X) (priority current : ℕ)
      → Holds setpoints priorities sent ranks hl c old current
      → current ≤ priority
      → let d = age_read r t in
        (c' : Commander Q P H X) × (set_setpoint setpoints priorities hl t s priority c ≡ some c')
        × ((get_setpoint setpoints priorities ticks float_zero r buffer x c').0
            ≡ aged ticks float_zero d (record s { timestamp = u32 t }))
        × Holds setpoints priorities sent ranks hl
            (get_setpoint setpoints priorities ticks float_zero r buffer x c').1
            (record s { timestamp = u32 t })
            (if ltb (ticks 500) d && leb d (ticks 2000) then 0 else priority)
  set_setpoint-get_setpoint t r buffer s old x c priority current k l =
      let (c', e, taken, lower, planner) =
        set_setpoint-Holds setpoints priorities sent ranks hl fs fp t s old priority current c k in
      let (read, held) =
        get_setpoint_lem t r buffer (record s { timestamp = u32 t }) x c' priority (taken l) refl in
      (c', e, read, held)
