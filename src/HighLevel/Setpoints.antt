-- ===== src/HighLevel/Setpoints.antt =====
-- The setpoints of src/crtp_commander_high_level.c: what it gives the stabilizer, and what it remembers.
use zephyr_nano_drone.Prelude.{
  ℕ, ◌%◌, ◌≡◌, ◌⊎◌, refl, inl, inr, Bool, true, false, Bool-cases, ◌==◌, if◌then◌else◌, ◌||◌,
}
use zephyr_nano_drone.Commander.{
  Setpoint, Attitude, Vector, Quaternion, disable, abs, null_setpoint,
}
use zephyr_nano_drone.HighLevel.{Floats, Vec, Eval, Planner, HighLevel}

-- state_t.
pub record State (F : Type 0) : Type 0 where
  pub attitude : Attitude F
  pub attitude_quaternion : Quaternion F
  pub position : Vector F
  pub velocity : Vector F
  pub acc : Vector F

-- RATE_DO_EXECUTE(RATE_HL_COMMANDER, tick): 100 times in the 1000 rounds of a second.
abbrev pub rate_do_execute : ℕ → Bool
rate_do_execute tick = tick % 10 == 0

-- state2vec
abbrev pub state_to_vec : {F : Type 0} → Vector F → Vec F
state_to_vec v = record { x = v.x; y = v.y; z = v.z }

module _ {F C P : Type 0} (floats : Floats F) (planner : Planner F C P) where
  -- crtpCommanderHighLevelTellState
  unfoldable pub tell_state : State F → HighLevel F C P → HighLevel F C P
  tell_state state s = record s {
    pos = state_to_vec state.position;
    vel = state_to_vec state.velocity;
    yaw = floats.radians state.attitude.yaw;
  }

  -- crtpCommanderHighLevelDisable
  unfoldable pub disable_planner : HighLevel F C P → HighLevel F C P
  disable_planner s = record s { planner = planner.disable s.planner }

  -- The setpoint that follows a trajectory: the fields that the code sets.
  abbrev pub follow : Eval F → Setpoint F → Setpoint F
  follow ev sp = record sp {
    position = record sp.position { x = ev.pos.x; y = ev.pos.y; z = ev.pos.z };
    velocity = record sp.velocity { x = ev.vel.x; y = ev.vel.y; z = ev.vel.z };
    attitude = record sp.attitude { yaw = floats.degrees ev.yaw };
    attitude_rate = record sp.attitude_rate {
      roll = floats.degrees ev.omega.x;
      pitch = floats.degrees ev.omega.y;
      yaw = floats.degrees ev.omega.z;
    };
    mode = record {
      x = abs;
      y = abs;
      z = abs;
      roll = disable;
      pitch = disable;
      yaw = abs;
      quat = disable;
    };
    acceleration = record sp.acceleration { x = ev.acc.x; y = ev.acc.y; z = ev.acc.z };
  }

  -- crtpCommanderHighLevelGetSetpoint, at time `t`: the result, the setpoint and the state.
  unfoldable pub get_setpoint :
      F → Setpoint F → State F → ℕ → HighLevel F C P → Bool × Setpoint F × HighLevel F C P
  unfolding tell_state
  get_setpoint t sp state tick s =
      let (ev, p) = planner.current_goal s.planner s.shared t in
      let seen = record s { planner = p } in
      let told = tell_state state seen in
      if rate_do_execute tick
      then (if planner.is_disabled p || planner.is_stopped p
          then (if planner.is_stopped p
              then (true, null_setpoint floats.zero, told)
              else (false, sp, told))
          else if planner.is_eval_valid ev
          then (true, follow ev sp, record seen { pos = ev.pos; vel = ev.vel; yaw = ev.yaw })
          else (false, sp, record seen { planner = planner.disable p }))
      else (false, sp, s)

  -- The last setpoint that the module remembers is the one that it gave.
  abbrev pub Remembers : Setpoint F → HighLevel F C P → Type 0
  Remembers sp s =
      (state_to_vec sp.position ≡ s.pos)
      × (state_to_vec sp.velocity ≡ s.vel)
      × (sp.attitude.yaw ≡ floats.degrees s.yaw)

  -- What a call promises: without a setpoint, the caller's is untouched; a setpoint is the null one
  -- of a stopped planner, or is remembered.
  abbrev pub Promise : Setpoint F → Bool × Setpoint F × HighLevel F C P → Type 0
  Promise sp (false, sp', s') = sp' ≡ sp
  Promise sp (true, sp', s') =
      ((planner.is_stopped s'.planner ≡ true) × (sp' ≡ null_setpoint floats.zero))
      ⊎ ((planner.is_stopped s'.planner ≡ false) × Remembers sp' s')

  -- Every call keeps the promise, whatever the planner does.
  pub get_setpoint-Promise :
      (t : F) (sp : Setpoint F) (state : State F) (tick : ℕ) (s : HighLevel F C P)
      → Promise sp (get_setpoint t sp state tick s)
  unfolding get_setpoint
  get_setpoint-Promise t sp state tick s =
      let (ev, p) = planner.current_goal s.planner s.shared t in
      elim (Bool-cases (rate_do_execute tick)) [
        | inr e ↦ rw (e, get_setpoint) refl
        | inl e ↦ elim (Bool-cases (planner.is_stopped p)) [
          | inl stopped ↦ elim (Bool-cases (planner.is_disabled p)) [
            | inl off ↦ rw (e, off, stopped, get_setpoint) (inl (stopped, refl))
            | inr on ↦ rw (e, on, stopped, get_setpoint) (inl (stopped, refl))
          ]
          | inr moving ↦ elim (Bool-cases (planner.is_disabled p)) [
            | inl off ↦ rw (e, off, moving, get_setpoint) refl
            | inr on ↦ elim (Bool-cases (planner.is_eval_valid ev)) [
              | inl valid ↦
                  rw (e, on, moving, valid, get_setpoint) (inr (moving, (refl, refl, refl)))
              | inr invalid ↦ rw (e, on, moving, invalid, get_setpoint) refl
            ]
          ]
        ]
      ]
