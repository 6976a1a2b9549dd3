-- ===== src/Commander.antt =====
-- src/commander.c: the arbitration of setpoints by priority, and the watchdog on their age.
pub mod Mailbox
pub mod Arbitration
pub mod Watchdog
pub mod Packets
mod Tests
use zephyr_nano_drone.Prelude.{
  ℕ, ◌+◌, Bool, true, false, Option, none, some, List, [], ◌∷◌, leb, ltb, ◌==◌, if◌then◌else◌,
  ◌>>=◌, sub_u32, u32,
}
use zephyr_nano_drone.Msgq.{Msgq}

-- stab_mode_t.
pub data Mode : Type 0 where
  disable : Mode
  abs : Mode
  velocity : Mode

-- attitude_t, and the vectors and quaternions of includes/stabilizer_types.h over a type of floats.
pub record Attitude (F : Type 0) : Type 0 where
  pub timestamp : ℕ
  pub roll : F
  pub pitch : F
  pub yaw : F

pub record Vector (F : Type 0) : Type 0 where
  pub timestamp : ℕ
  pub x : F
  pub y : F
  pub z : F

pub record Quaternion (F : Type 0) : Type 0 where
  pub q0 : F
  pub q1 : F
  pub q2 : F
  pub q3 : F

pub record Modes : Type 0 where
  pub x : Mode
  pub y : Mode
  pub z : Mode
  pub roll : Mode
  pub pitch : Mode
  pub yaw : Mode
  pub quat : Mode

-- setpoint_t.
pub record Setpoint (F : Type 0) : Type 0 where
  pub timestamp : ℕ
  pub attitude : Attitude F
  pub attitude_rate : Attitude F
  pub attitude_quaternion : Quaternion F
  pub thrust : F
  pub position : Vector F
  pub velocity : Vector F
  pub acceleration : Vector F
  pub velocity_body : Bool
  pub mode : Modes

abbrev pub priority_disable : ℕ
priority_disable = 0

abbrev pub priority_lowest : ℕ
priority_lowest = 1

abbrev pub priority_highlevel : ℕ
priority_highlevel = 1

abbrev pub priority_crtp : ℕ
priority_crtp = 2

-- nullSetpoint: a static object, so every field is zero.
abbrev pub null_setpoint : {F : Type 0} → F → Setpoint F
null_setpoint {F} float_zero =
    let attitude : Attitude F = record {
      timestamp = 0;
      roll = float_zero;
      pitch = float_zero;
      yaw = float_zero;
    } in
    let vector : Vector F = record {
      timestamp = 0;
      x = float_zero;
      y = float_zero;
      z = float_zero;
    } in
    record {
      timestamp = 0;
      attitude = attitude;
      attitude_rate = attitude;
      attitude_quaternion = record {
        q0 = float_zero;
        q1 = float_zero;
        q2 = float_zero;
        q3 = float_zero;
      };
      thrust = float_zero;
      position = vector;
      velocity = vector;
      acceleration = vector;
      velocity_body = false;
      mode = record {
        x = disable;
        y = disable;
        z = disable;
        roll = disable;
        pitch = disable;
        yaw = disable;
        quat = disable;
      };
    }

-- "Leveling": what commanderGetSetpoint does to a setpoint that is getting old.
abbrev pub level : {F : Type 0} → F → Setpoint F → Setpoint F
level float_zero s = record s {
  mode = record s.mode { x = disable; y = disable; roll = abs; pitch = abs; yaw = velocity };
  attitude = record s.attitude { roll = float_zero; pitch = float_zero };
  attitude_rate = record s.attitude_rate { yaw = float_zero };
}

-- The calls of the high-level commander, on its state.
pub record HighLevel (H X : Type 0) : Type 0 where
  pub disable : H → H
  pub tell_state : X → H → H

-- The module's variables, with the high-level commander's state; `X` is the type state_t.
pub record Commander (Q P H X : Type 0) : Type 0 where
  pub setpoint_queue : Q
  pub priority_queue : P
  pub last_state : X
  pub last_update : ℕ
  pub is_init : Bool
  pub high_level : H

-- A message replaced in a queue of one: `k_msgq_get` and then `k_msgq_put`.
abbrev pub replace : {Q A : Type 0} → Msgq Q A → A → Q → Q
replace ops a q = (ops.put (ops.get q).1 a).1

module _ {Q P H X F : Type 0} (setpoints : Msgq Q (Setpoint F)) (priorities : Msgq P ℕ) where
  -- commanderSetSetpoint at the uptime `now`, in ticks: none where the assertion on the peek fails.
  unfoldable pub set_setpoint :
      HighLevel H X → ℕ → Setpoint F → ℕ → Commander Q P H X → Option (Commander Q P H X)
  set_setpoint hl now s priority c = do
    current ← priorities.peek c.priority_queue
    some (
        if leb current priority
        then record c {
          setpoint_queue = replace setpoints (record s { timestamp = u32 now }) c.setpoint_queue;
          priority_queue = replace priorities priority c.priority_queue;
          high_level =
              if ltb priority_highlevel priority then hl.disable c.high_level else c.high_level;
        }
        else c)

  -- The caller's setpoint after commanderSetSetpoint: stamped if it was taken.
  unfoldable pub stamped : ℕ → Setpoint F → ℕ → Commander Q P H X → Setpoint F
  stamped now s priority c = elim (priorities.peek c.priority_queue) as (λ _. Setpoint F) [
    | none ↦ s
    | some current ↦ if leb current priority then record s { timestamp = u32 now } else s
  ]

  -- commanderRelaxPriority.
  unfoldable pub relax_priority : HighLevel H X → Commander Q P H X → Commander Q P H X
  relax_priority hl c = record c {
    high_level = hl.tell_state c.last_state c.high_level;
    priority_queue = replace priorities priority_lowest c.priority_queue;
  }

  -- commanderGetSetpoint at the tick count `now`, of xTaskGetTickCount; `buffer` is what `*setpoint` held before, and `ticks` is
  -- k_ms_to_ticks_ceil32.
  unfoldable pub get_setpoint :
      (ℕ → ℕ) → F → ℕ → Setpoint F → X → Commander Q P H X → Setpoint F × Commander Q P H X
  get_setpoint ticks float_zero now buffer state c =
      let s = elim (setpoints.peek c.setpoint_queue) as (λ _. Setpoint F) [
        | none ↦ buffer
        | some t ↦ t
      ] in
      let age = sub_u32 (u32 now) s.timestamp in
      let seen = record c { last_update = s.timestamp; last_state = state } in
      if ltb (ticks 2000) age
      then (null_setpoint float_zero, seen)
      else if ltb (ticks 500) age
      then (
        level float_zero s,
        record seen { priority_queue = replace priorities priority_disable c.priority_queue },
      )
      else (s, seen)

  -- commanderGetInactivityTime.
  abbrev pub get_inactivity_time : ℕ → Commander Q P H X → ℕ
  get_inactivity_time now c = sub_u32 (u32 now) c.last_update

  -- commanderGetActivePriority.
  abbrev pub get_active_priority : Commander Q P H X → Option ℕ
  get_active_priority c = priorities.peek c.priority_queue

  -- commanderInit: `q` and `p` are the queues as k_msgq_init leaves them.
  unfoldable pub commander_init : F → Q → P → ℕ → Commander Q P H X → Commander Q P H X
  commander_init float_zero q p now c = record c {
    setpoint_queue = (setpoints.put q (null_setpoint float_zero)).1;
    priority_queue = (priorities.put p priority_disable).1;
    last_update = u32 now;
    is_init = true;
  }
