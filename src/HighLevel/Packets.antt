-- ===== src/HighLevel/Packets.antt =====
-- The packets of src/crtp_commander_high_level.c: the casts of their bytes, and the task.
use zephyr_nano_drone.Prelude.{ℕ, ◌+◌, ◌*◌, ◌%◌, Bool, not, List, [], ◌∷◌, ◌==◌, if◌then◌else◌}
use zephyr_nano_drone.HighLevel.{
  Floats, Planner, HighLevel, DataVertical, DataVertical2, DataWithVelocity, DataGoTo,
  DataStartTrajectory, DataDefineTrajectory, Command, set_group_mask, takeoff, land, stop, go_to,
  start_trajectory, define_trajectory, takeoff_2, land_2, takeoff_with_velocity, land_with_velocity,
  unknown,
}
use zephyr_nano_drone.HighLevel.Handlers.{handle_command}

-- A word of four bytes, the lowest first.
abbrev pub word_at : (ℕ → ℕ) → ℕ → ℕ
word_at bytes i = bytes i + 256 * bytes (i + 1) + 65536 * bytes (i + 2) + 16777216 * bytes (i + 3)

abbrev pub is_set : ℕ → Bool
is_set byte = not (byte == 0)

module _ {F : Type 0} (floats : Floats F) where
  abbrev pub float_at : (ℕ → ℕ) → ℕ → F
  float_at bytes i = floats.of_bits (word_at bytes i)

  -- The casts of the data to the packed structs.
  abbrev pub vertical : (ℕ → ℕ) → DataVertical F
  vertical bytes = record {
    group_mask = bytes 0;
    height = float_at bytes 1;
    duration = float_at bytes 5;
  }

  abbrev pub vertical_2 : (ℕ → ℕ) → DataVertical2 F
  vertical_2 bytes = record {
    group_mask = bytes 0;
    height = float_at bytes 1;
    yaw = float_at bytes 5;
    use_current_yaw = is_set (bytes 9);
    duration = float_at bytes 10;
  }

  abbrev pub with_velocity : (ℕ → ℕ) → DataWithVelocity F
  with_velocity bytes = record {
    group_mask = bytes 0;
    height = float_at bytes 1;
    height_is_relative = is_set (bytes 5);
    yaw = float_at bytes 6;
    use_current_yaw = is_set (bytes 10);
    velocity = float_at bytes 11;
  }

  abbrev pub target : (ℕ → ℕ) → DataGoTo F
  target bytes = record {
    group_mask = bytes 0;
    relative = bytes 1;
    x = float_at bytes 2;
    y = float_at bytes 6;
    z = float_at bytes 10;
    yaw = float_at bytes 14;
    duration = float_at bytes 18;
  }

  abbrev pub trajectory_start : (ℕ → ℕ) → DataStartTrajectory F
  trajectory_start bytes = record {
    group_mask = bytes 0;
    relative = bytes 1;
    reversed = bytes 2;
    trajectory_id = bytes 3;
    timescale = float_at bytes 4;
  }

  abbrev pub definition : (ℕ → ℕ) → DataDefineTrajectory
  definition bytes = record {
    trajectory_id = bytes 0;
    description = record {
      trajectory_location = bytes 1;
      trajectory_type = bytes 2;
      offset = word_at bytes 3;
      n_pieces = bytes 7;
    };
  }

  -- The command in a packet: its first byte, and the data from the second on.
  unfoldable pub command_of : ℕ → (ℕ → ℕ) → Command F
  command_of c bytes =
      if c == 0
      then set_group_mask (bytes 0)
      else if c == 1
      then takeoff (vertical bytes)
      else if c == 2
      then land (vertical bytes)
      else if c == 3
      then stop (bytes 0)
      else if c == 4
      then go_to (target bytes)
      else if c == 5
      then start_trajectory (trajectory_start bytes)
      else if c == 6
      then define_trajectory (definition bytes)
      else if c == 7
      then takeoff_2 (vertical_2 bytes)
      else if c == 8
      then land_2 (vertical_2 bytes)
      else if c == 9
      then takeoff_with_velocity (with_velocity bytes)
      else if c == 10
      then land_with_velocity (with_velocity bytes)
      else unknown c

module _ {F C P : Type 0} (floats : Floats F) (planner : Planner F C P) where
  -- One round of crtpCommanderHighLevelTask: the four bytes of the answer, and the state.
  unfoldable pub task_round : F → (ℕ → ℕ) → HighLevel F C P → List ℕ × HighLevel F C P
  unfolding command_of handle_command
  task_round t bytes s =
      let (ret, s') =
        handle_command floats planner t (command_of floats (bytes 0) (λ i. bytes (i + 1))) s in
      (bytes 0 ∷ bytes 1 ∷ bytes 2 ∷ ret % 256 ∷ [], s')
