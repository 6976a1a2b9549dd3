-- ===== src/HighLevel.antt =====
-- The state of src/crtp_commander_high_level.c, and the commands that it takes.
pub mod Handlers
pub mod Setpoints
pub mod Memory
pub mod Packets
pub mod Calls
pub mod Groups
pub mod Trajectories
mod Tests
use zephyr_nano_drone.Prelude.{
  ℕ, zero, suc, ◌+◌, ◌*◌, ◌/◌, ◌%◌, Bool, true, false, not, Option, none, some, ◌==◌, if◌then◌else◌,
  ◌&&◌, ◌||◌,
}

-- Floats, over a type of them; `of_time` is the conversion of a time to seconds.
pub record Floats (F : Type 0) : Type 0 where
  pub zero : F
  pub one : F
  pub add : F → F → F
  pub sub : F → F → F
  pub div : F → F → F
  pub abs : F → F
  pub is_positive : F → Bool
  pub equal : F → F → Bool
  pub radians : F → F
  pub degrees : F → F
  pub of_bits : ℕ → F
  pub of_time : ℕ → F

-- struct vec.
pub record Vec (F : Type 0) : Type 0 where
  pub x : F
  pub y : F
  pub z : F

-- struct traj_eval.
pub record Eval (F : Type 0) : Type 0 where
  pub pos : Vec F
  pub vel : Vec F
  pub acc : Vec F
  pub omega : Vec F
  pub yaw : F

-- struct piecewise_traj; `pieces` is an index into the trajectory memory.
pub record Trajectory (F : Type 0) : Type 0 where
  pub t_begin : F
  pub timescale : F
  pub shift : Vec F
  pub n_pieces : ℕ
  pub pieces : ℕ

-- struct trajectoryDescription.
pub record Description : Type 0 where
  pub trajectory_location : ℕ
  pub trajectory_type : ℕ
  pub offset : ℕ
  pub n_pieces : ℕ

-- The objects that the planner has pointers to: the two trajectories, and the bytes from
-- `trajectories_memory` on, of which the first 4096 are that array. `C` is the type of compressed
-- trajectories.
pub record Shared (F C : Type 0) : Type 0 where
  pub memory : ℕ → ℕ
  pub trajectory : Trajectory F
  pub compressed : C

-- The functions of includes/planner.h, includes/pptraj.h and includes/pptraj_compressed.h, whose
-- sources are not in the repository, on a planner's state `P` and the shared objects.
pub record Planner (F C P : Type 0) : Type 0 where
  pub init : P → P
  pub stop : P → P
  pub is_stopped : P → Bool
  pub disable : P → P
  pub is_disabled : P → Bool
  pub is_finished : P → Shared F C → F → Bool
  pub current_goal : P → Shared F C → F → Eval F × P
  pub takeoff : P → Shared F C → Vec F → F → F → F → F → F → ℕ × P
  pub land : P → Shared F C → Vec F → F → F → F → F → F → ℕ × P
  pub go_to : P → Shared F C → Bool → Vec F → F → F → F → ℕ × P
  pub go_to_from : P → Shared F C → Eval F → Bool → Vec F → F → F → F → ℕ × P
  pub start_trajectory : P → Shared F C → Bool → Bool → Vec F → ℕ × P
  pub start_compressed_trajectory : P → Shared F C → Bool → Vec F → ℕ × P
  pub compressed_load : C → (ℕ → ℕ) → ℕ → C
  pub compressed_begin : F → C → C
  pub is_eval_valid : Eval F → Bool

-- The module's variables. The mutex is left out: a call is taken as one step.
pub record HighLevel (F C P : Type 0) : Type 0 where
  pub shared : Shared F C
  pub descriptions : ℕ → Description
  pub is_init : Bool
  pub planner : P
  pub group_mask : ℕ
  pub pos : Vec F
  pub vel : Vec F
  pub yaw : F
  pub default_takeoff_velocity : F
  pub default_landing_velocity : F

-- struct data_takeoff and struct data_land.
pub record DataVertical (F : Type 0) : Type 0 where
  pub group_mask : ℕ
  pub height : F
  pub duration : F

-- struct data_takeoff_2 and struct data_land_2.
pub record DataVertical2 (F : Type 0) : Type 0 where
  pub group_mask : ℕ
  pub height : F
  pub yaw : F
  pub use_current_yaw : Bool
  pub duration : F

-- struct data_takeoff_with_velocity and struct data_land_with_velocity.
pub record DataWithVelocity (F : Type 0) : Type 0 where
  pub group_mask : ℕ
  pub height : F
  pub height_is_relative : Bool
  pub yaw : F
  pub use_current_yaw : Bool
  pub velocity : F

pub record DataGoTo (F : Type 0) : Type 0 where
  pub group_mask : ℕ
  pub relative : ℕ
  pub x : F
  pub y : F
  pub z : F
  pub yaw : F
  pub duration : F

pub record DataStartTrajectory (F : Type 0) : Type 0 where
  pub group_mask : ℕ
  pub relative : ℕ
  pub reversed : ℕ
  pub trajectory_id : ℕ
  pub timescale : F

pub record DataDefineTrajectory : Type 0 where
  pub trajectory_id : ℕ
  pub description : Description

-- enum TrajectoryCommand_e, each with the struct that its handler reads; data_set_group_mask and
-- data_stop hold a mask alone.
pub data Command (F : Type 0) : Type 0 where
  set_group_mask : ℕ → Command F
  takeoff : DataVertical F → Command F
  land : DataVertical F → Command F
  stop : ℕ → Command F
  go_to : DataGoTo F → Command F
  start_trajectory : DataStartTrajectory F → Command F
  define_trajectory : DataDefineTrajectory → Command F
  takeoff_2 : DataVertical2 F → Command F
  land_2 : DataVertical2 F → Command F
  takeoff_with_velocity : DataWithVelocity F → Command F
  land_with_velocity : DataWithVelocity F → Command F
  unknown : ℕ → Command F

-- `a & b` has a bit, among the lowest `n`.
unfoldable pub shares_bit : ℕ → ℕ → ℕ → Bool
shares_bit zero a b = false
shares_bit (suc n) a b = (a % 2 == 1 && b % 2 == 1) || shares_bit n (a / 2) (b / 2)

abbrev pub trajectory_memory_size : ℕ
trajectory_memory_size = 4096

abbrev pub num_trajectory_definitions : ℕ
num_trajectory_definitions = 10

abbrev pub location_mem : ℕ
location_mem = 1

abbrev pub enoexec : ℕ
enoexec = 8
