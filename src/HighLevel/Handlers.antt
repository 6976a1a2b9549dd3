-- ===== src/HighLevel/Handlers.antt =====
-- The handlers of the commands of src/crtp_commander_high_level.c. Each takes the time in seconds, which the
-- code reads from the uptime, and gives its result and the new state.
use zephyr_nano_drone.Prelude.{ℕ, Bool, not, ◌==◌, ltb, if◌then◌else◌, ◌&&◌, ◌||◌}
use zephyr_nano_drone.HighLevel.{
  Floats, Vec, Eval, Description, Planner, HighLevel, DataVertical, DataVertical2, DataWithVelocity,
  DataGoTo, DataStartTrajectory, DataDefineTrajectory, Command, set_group_mask, takeoff, land, stop,
  go_to, start_trajectory, define_trajectory, takeoff_2, land_2, takeoff_with_velocity,
  land_with_velocity, unknown, shares_bit, num_trajectory_definitions, location_mem, enoexec,
}

-- isInGroup, on the module's mask.
unfoldable pub is_in_group : ℕ → ℕ → Bool
unfolding shares_bit
is_in_group group_mask g = g == 0 || shares_bit 8 g group_mask

-- A static object of the module's variables set at one index.
abbrev pub set_description : (ℕ → Description) → ℕ → Description → ℕ → Description
set_description ds i d j = if j == i then d else ds j

module _ {F C P : Type 0} (floats : Floats F) (planner : Planner F C P) where
  -- A call of the planner that has given a result and its new state.
  abbrev pub planned : HighLevel F C P → ℕ × P → ℕ × HighLevel F C P
  planned s r = (r.0, record s { planner = r.1 })

  abbrev pub when_in_group : ℕ → HighLevel F C P → ℕ × HighLevel F C P → ℕ × HighLevel F C P
  when_in_group g s done = if is_in_group s.group_mask g then done else (0, s)

  abbrev pub hover_yaw : Bool → F → HighLevel F C P → F
  hover_yaw use_current_yaw yaw s = if use_current_yaw then s.yaw else yaw

  -- takeoff
  unfoldable pub handle_takeoff : F → DataVertical F → HighLevel F C P → ℕ × HighLevel F C P
  unfolding is_in_group
  handle_takeoff t d s =
      when_in_group d.group_mask s (
        planned s
          (planner.takeoff s.planner s.shared s.pos s.yaw d.height floats.zero d.duration t))

  -- takeoff2
  unfoldable pub handle_takeoff_2 : F → DataVertical2 F → HighLevel F C P → ℕ × HighLevel F C P
  unfolding is_in_group
  handle_takeoff_2 t d s =
      let yaw = hover_yaw d.use_current_yaw d.yaw s in
      when_in_group d.group_mask s
        (planned s (planner.takeoff s.planner s.shared s.pos s.yaw d.height yaw d.duration t))

  -- takeoff_with_velocity
  unfoldable pub handle_takeoff_with_velocity :
      F → DataWithVelocity F → HighLevel F C P → ℕ × HighLevel F C P
  unfolding is_in_group
  handle_takeoff_with_velocity t d s =
      let yaw = hover_yaw d.use_current_yaw d.yaw s in
      let height = if d.height_is_relative then floats.add d.height s.pos.z else d.height in
      let velocity =
        if floats.is_positive d.velocity then d.velocity else s.default_takeoff_velocity in
      let duration = floats.div (floats.abs (floats.sub height s.pos.z)) velocity in
      when_in_group d.group_mask s
        (planned s (planner.takeoff s.planner s.shared s.pos s.yaw height yaw duration t))

  -- land
  unfoldable pub handle_land : F → DataVertical F → HighLevel F C P → ℕ × HighLevel F C P
  unfolding is_in_group
  handle_land t d s =
      when_in_group d.group_mask s
        (planned s (planner.land s.planner s.shared s.pos s.yaw d.height floats.zero d.duration t))

  -- land2
  unfoldable pub handle_land_2 : F → DataVertical2 F → HighLevel F C P → ℕ × HighLevel F C P
  unfolding is_in_group
  handle_land_2 t d s =
      let yaw = hover_yaw d.use_current_yaw d.yaw s in
      when_in_group d.group_mask s
        (planned s (planner.land s.planner s.shared s.pos s.yaw d.height yaw d.duration t))

  -- land_with_velocity
  unfoldable pub handle_land_with_velocity :
      F → DataWithVelocity F → HighLevel F C P → ℕ × HighLevel F C P
  unfolding is_in_group
  handle_land_with_velocity t d s =
      let yaw = hover_yaw d.use_current_yaw d.yaw s in
      let height = if d.height_is_relative then floats.sub s.pos.z d.height else d.height in
      let velocity =
        if floats.is_positive d.velocity then d.velocity else s.default_landing_velocity in
      let duration = floats.div (floats.abs (floats.sub height s.pos.z)) velocity in
      when_in_group d.group_mask s
        (planned s (planner.land s.planner s.shared s.pos s.yaw height yaw duration t))

  -- stop
  unfoldable pub handle_stop : ℕ → HighLevel F C P → ℕ × HighLevel F C P
  unfolding is_in_group
  handle_stop g s = when_in_group g s (0, record s { planner = planner.stop s.planner })

  -- go_to: from the last setpoint when no trajectory is followed.
  unfoldable pub handle_go_to : F → DataGoTo F → HighLevel F C P → ℕ × HighLevel F C P
  unfolding is_in_group
  handle_go_to t d s =
      let hover_pos : Vec F = record { x = d.x; y = d.y; z = d.z } in
      let nowhere : Vec F = record { x = floats.zero; y = floats.zero; z = floats.zero } in
      let ev : Eval F = record {
        pos = s.pos;
        vel = s.vel;
        acc = nowhere;
        omega = nowhere;
        yaw = s.yaw;
      } in
      let relative = not (d.relative == 0) in
      when_in_group d.group_mask s (
        planned s (
          if planner.is_disabled s.planner || planner.is_stopped s.planner
          then planner.go_to_from s.planner s.shared ev relative hover_pos d.yaw d.duration t
          else planner.go_to s.planner s.shared relative hover_pos d.yaw d.duration t))

  -- A trajectory of polynomials started, and a compressed one.
  abbrev pub start_polynomials :
      F → DataStartTrajectory F → Description → HighLevel F C P → ℕ × HighLevel F C P
  start_polynomials t d desc s =
      let shared = record s.shared {
        trajectory = record s.shared.trajectory {
          t_begin = t;
          timescale = d.timescale;
          n_pieces = desc.n_pieces;
          pieces = desc.offset;
        };
      } in
      planned (record s { shared = shared })
        (planner.start_trajectory s.planner shared (not (d.reversed == 0)) (not (d.relative == 0))
          s.pos)

  abbrev pub start_compressed :
      F → DataStartTrajectory F → Description → HighLevel F C P → ℕ × HighLevel F C P
  start_compressed t d desc s =
      let loaded = planner.compressed_load s.shared.compressed s.shared.memory desc.offset in
      let shared = record s.shared { compressed = planner.compressed_begin t loaded } in
      planned (record s { shared = shared })
        (planner.start_compressed_trajectory s.planner shared (not (d.relative == 0)) s.pos)

  -- start_trajectory: an unknown trajectory is ignored.
  unfoldable pub handle_start_trajectory :
      F → DataStartTrajectory F → HighLevel F C P → ℕ × HighLevel F C P
  unfolding is_in_group
  handle_start_trajectory t d s =
      let desc = s.descriptions d.trajectory_id in
      let compressed =
        if not (floats.equal d.timescale floats.one) || not (d.reversed == 0)
        then (enoexec, s)
        else start_compressed t d desc s in
      when_in_group d.group_mask s (
        if ltb d.trajectory_id num_trajectory_definitions
        then (if desc.trajectory_location == location_mem && desc.trajectory_type == 0
            then start_polynomials t d desc s
            else if desc.trajectory_location == location_mem && desc.trajectory_type == 1
            then compressed
            else (0, s))
        else (0, s))

  -- define_trajectory
  unfoldable pub handle_define_trajectory :
      DataDefineTrajectory → HighLevel F C P → ℕ × HighLevel F C P
  handle_define_trajectory d s =
      if ltb d.trajectory_id num_trajectory_definitions
      then (
        0,
        record s { descriptions = set_description s.descriptions d.trajectory_id d.description },
      )
      else (enoexec, s)

  -- handleCommand
  unfoldable pub handle_command : F → Command F → HighLevel F C P → ℕ × HighLevel F C P
  unfolding handle_takeoff handle_takeoff_2 handle_takeoff_with_velocity handle_land handle_land_2
      handle_land_with_velocity handle_stop handle_go_to handle_start_trajectory
      handle_define_trajectory
  handle_command t (set_group_mask m) s = (0, record s { group_mask = m })
  handle_command t (takeoff d) s = handle_takeoff t d s
  handle_command t (land d) s = handle_land t d s
  handle_command t (stop g) s = handle_stop g s
  handle_command t (go_to d) s = handle_go_to t d s
  handle_command t (start_trajectory d) s = handle_start_trajectory t d s
  handle_command t (define_trajectory d) s = handle_define_trajectory d s
  handle_command t (takeoff_2 d) s = handle_takeoff_2 t d s
  handle_command t (land_2 d) s = handle_land_2 t d s
  handle_command t (takeoff_with_velocity d) s = handle_takeoff_with_velocity t d s
  handle_command t (land_with_velocity d) s = handle_land_with_velocity t d s
  handle_command t (unknown c) s = (enoexec, s)
