-- ===== src/HighLevel/Calls.antt =====
-- The calls of the header of src/crtp_commander_high_level.c.
use zephyr_nano_drone.Prelude.{ℕ, Bool, true, false, not, ◌==◌, ltb, if◌then◌else◌, ◌&&◌}
use zephyr_nano_drone.HighLevel.{
  Floats, Vec, Planner, HighLevel, stop, go_to, start_trajectory, define_trajectory, takeoff_2,
  land_2, takeoff_with_velocity, land_with_velocity, num_trajectory_definitions, location_mem,
}
use zephyr_nano_drone.HighLevel.Handlers.{handle_command}

module _ {F C P : Type 0} (floats : Floats F) (planner : Planner F C P) where
  -- crtpCommanderHighLevelInit; the registration of the memory and the start of the task are left out.
  unfoldable pub init : HighLevel F C P → HighLevel F C P
  init s =
      let origin : Vec F = record { x = floats.zero; y = floats.zero; z = floats.zero } in
      if s.is_init then s else record s {
        planner = planner.init s.planner;
        pos = origin;
        vel = origin;
        yaw = floats.zero;
        is_init = true;
      }

  -- The calls crtpCommanderHighLevelTakeoff, ...TakeoffYaw and so on: commands to all groups.
  unfoldable pub call_takeoff : F → F → F → HighLevel F C P → ℕ × HighLevel F C P
  unfolding handle_command
  call_takeoff t height duration s =
      handle_command floats planner t
        (takeoff_2 (record {
          group_mask = 0;
          height = height;
          yaw = floats.zero;
          use_current_yaw = true;
          duration = duration;
        }))
        s

  unfoldable pub call_takeoff_yaw : F → F → F → F → HighLevel F C P → ℕ × HighLevel F C P
  unfolding handle_command
  call_takeoff_yaw t height duration yaw s =
      handle_command floats planner t
        (takeoff_2 (record {
          group_mask = 0;
          height = height;
          yaw = yaw;
          use_current_yaw = false;
          duration = duration;
        }))
        s

  unfoldable pub call_takeoff_with_velocity :
      F → F → F → Bool → HighLevel F C P → ℕ × HighLevel F C P
  unfolding handle_command
  call_takeoff_with_velocity t height velocity relative s =
      handle_command floats planner t
        (takeoff_with_velocity (record {
          group_mask = 0;
          height = height;
          height_is_relative = relative;
          yaw = floats.zero;
          use_current_yaw = true;
          velocity = velocity;
        }))
        s

  unfoldable pub call_land : F → F → F → HighLevel F C P → ℕ × HighLevel F C P
  unfolding handle_command
  call_land t height duration s =
      handle_command floats planner t
        (land_2 (record {
          group_mask = 0;
          height = height;
          yaw = floats.zero;
          use_current_yaw = true;
          duration = duration;
        }))
        s

  unfoldable pub call_land_with_velocity : F → F → F → Bool → HighLevel F C P → ℕ × HighLevel F C P
  unfolding handle_command
  call_land_with_velocity t height velocity relative s =
      handle_command floats planner t
        (land_with_velocity (record {
          group_mask = 0;
          height = height;
          height_is_relative = relative;
          yaw = floats.zero;
          use_current_yaw = true;
          velocity = velocity;
        }))
        s

  unfoldable pub call_land_yaw : F → F → F → F → HighLevel F C P → ℕ × HighLevel F C P
  unfolding handle_command
  call_land_yaw t height duration yaw s =
      handle_command floats planner t
        (land_2 (record {
          group_mask = 0;
          height = height;
          yaw = yaw;
          use_current_yaw = false;
          duration = duration;
        }))
        s

  unfoldable pub call_stop : F → HighLevel F C P → ℕ × HighLevel F C P
  unfolding handle_command
  call_stop t s = handle_command floats planner t (stop 0) s

  unfoldable pub call_go_to : F → Vec F → F → F → Bool → HighLevel F C P → ℕ × HighLevel F C P
  unfolding handle_command
  call_go_to t to yaw duration relative s =
      handle_command floats planner t
        (go_to (record {
          group_mask = 0;
          relative = if relative then 1 else 0;
          x = to.x;
          y = to.y;
          z = to.z;
          yaw = yaw;
          duration = duration;
        }))
        s

  unfoldable pub call_start_trajectory :
      F → ℕ → F → Bool → Bool → HighLevel F C P → ℕ × HighLevel F C P
  unfolding handle_command
  call_start_trajectory t id timescale relative reversed s =
      handle_command floats planner t
        (start_trajectory (record {
          group_mask = 0;
          relative = if relative then 1 else 0;
          reversed = if reversed then 1 else 0;
          trajectory_id = id;
          timescale = timescale;
        }))
        s

  unfoldable pub call_define_trajectory : F → ℕ → ℕ → ℕ → ℕ → HighLevel F C P → ℕ × HighLevel F C P
  unfolding handle_command
  call_define_trajectory t id kind offset n_pieces s =
      handle_command floats planner t
        (define_trajectory (record {
          trajectory_id = id;
          description = record {
            trajectory_location = location_mem;
            trajectory_type = kind;
            offset = offset;
            n_pieces = n_pieces;
          };
        }))
        s

  -- crtpCommanderHighLevelIsTrajectoryDefined
  unfoldable pub is_trajectory_defined : ℕ → HighLevel F C P → Bool
  is_trajectory_defined id s =
      ltb id num_trajectory_definitions && not ((s.descriptions id).trajectory_location == 0)
