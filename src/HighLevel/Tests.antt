-- ===== src/HighLevel/Tests.antt =====
-- The theorems on the high-level commander with a planner that is stopped, disabled or moving, and
-- numbers for floats.
use zephyr_nano_drone.Prelude.{
  ℕ, ◌+◌, ◌-◌, ◌≤◌, ◌<◌, ◌≡◌, ◌⊎◌, refl, true, false, [], ◌∷◌, ◌==◌, ltb, if◌then◌else◌, arith,
}
use zephyr_nano_drone.Commander.{null_setpoint}
use zephyr_nano_drone.HighLevel.{Floats, Vec, Eval, Planner, HighLevel, shares_bit}
use zephyr_nano_drone.HighLevel.Handlers.{is_in_group, planned}
use zephyr_nano_drone.HighLevel.Packets.{task_round}
use zephyr_nano_drone.HighLevel.Calls.{call_define_trajectory, call_start_trajectory}
use zephyr_nano_drone.HighLevel.Setpoints.{State, get_setpoint, Promise, get_setpoint-Promise}
use zephyr_nano_drone.HighLevel.Memory.{copy_in, write_trajectory, Within, write_trajectory-cases}
use zephyr_nano_drone.HighLevel.Groups.{task_round-outside}
use zephyr_nano_drone.HighLevel.Trajectories.{call_start_trajectory-Started}

abbrev numbers : Floats ℕ
numbers = record {
  zero = 0;
  one = 1;
  add = λ a b. a + b;
  sub = λ a b. a - b;
  div = λ a b. a;
  abs = λ a. a;
  is_positive = λ a. ltb 0 a;
  equal = λ a b. a == b;
  radians = λ a. a;
  degrees = λ a. a;
  of_bits = λ a. a;
  of_time = λ a. a;
}

abbrev origin : Vec ℕ
origin = record { x = 0; y = 0; z = 0 }

abbrev resting : Eval ℕ
resting = record { pos = origin; vel = origin; acc = origin; omega = origin; yaw = 0 }

-- A planner whose state is 0 when stopped, 1 when disabled and 2 when it moves.
abbrev steps : Planner ℕ Unit ℕ
steps = record {
  init = λ p. 0;
  stop = λ p. 0;
  is_stopped = λ p. p == 0;
  disable = λ p. 1;
  is_disabled = λ p. p == 1;
  is_finished = λ p s t. true;
  current_goal = λ p s t. (resting, p);
  takeoff = λ p s pos yaw h hy d t. (0, 2);
  land = λ p s pos yaw h hy d t. (0, 2);
  go_to = λ p s r pos yaw d t. (0, 2);
  go_to_from = λ p s e r pos yaw d t. (0, 2);
  start_trajectory = λ p s v r pos. (0, 2);
  start_compressed_trajectory = λ p s r pos. (0, 2);
  compressed_load = λ c m o. tt;
  compressed_begin = λ t c. tt;
  is_eval_valid = λ e. true;
}

-- Flying, in the group of the mask 4.
abbrev flying : HighLevel ℕ Unit ℕ
flying = record {
  shared = record {
    memory = λ i. 0;
    trajectory = record { t_begin = 0; timescale = 1; shift = origin; n_pieces = 0; pieces = 0 };
    compressed = tt;
  };
  descriptions =
      λ i. record { trajectory_location = 0; trajectory_type = 0; offset = 0; n_pieces = 0 };
  is_init = true;
  planner = 2;
  group_mask = 4;
  pos = origin;
  vel = origin;
  yaw = 0;
  default_takeoff_velocity = 1;
  default_landing_velocity = 1;
}

abbrev somewhere : State ℕ
somewhere = record {
  attitude = record { timestamp = 0; roll = 0; pitch = 0; yaw = 0 };
  attitude_quaternion = record { q0 = 0; q1 = 0; q2 = 0; q3 = 0 };
  position = record { timestamp = 0; x = 1; y = 2; z = 3 };
  velocity = record { timestamp = 0; x = 0; y = 0; z = 0 };
  acc = record { timestamp = 0; x = 0; y = 0; z = 0 };
}

get_setpoint-Promise_example :
    Promise numbers steps
      (null_setpoint 0)
      (get_setpoint numbers steps 5 (null_setpoint 0) somewhere 20 flying)
get_setpoint-Promise_example =
    get_setpoint-Promise numbers steps 5 (null_setpoint 0) somewhere 20 flying

-- A stop for the groups of the mask 3.
abbrev stop_others : ℕ → ℕ
stop_others i = if i == 0 then 3 else if i == 1 then 3 else 0

not_ours : is_in_group 4 3 ≡ false
unfolding is_in_group shares_bit
not_ours = refl

task_round-outside_example :
    task_round numbers steps 5 stop_others flying ≡ (3 ∷ 3 ∷ 0 ∷ 0 ∷ [], flying)
task_round-outside_example =
    task_round-outside numbers steps 5 stop_others flying (omega arith) (omega arith) (omega arith)
      not_ours

call_start_trajectory-Started_example :
    let s₁ = (call_define_trajectory numbers steps 5 3 0 100 2 flying).1 in
    let shared = record flying.shared {
      trajectory = record flying.shared.trajectory {
        t_begin = 6;
        timescale = 1;
        n_pieces = 2;
        pieces = 100;
      };
    } in
    call_start_trajectory numbers steps 6 3 1 true false s₁
    ≡ planned numbers steps
        (record s₁ { shared = shared })
        (steps.start_trajectory flying.planner shared false true flying.pos)
call_start_trajectory-Started_example =
    call_start_trajectory-Started numbers steps 5 6 1 3 100 2 true false flying (omega arith)

write_trajectory-cases_example :
    Within (λ i. 0) 4294967295 (7 ∷ 8 ∷ [])
    ⊎ ((4096 < 4294967295 + 2)
        × (4294967295 + 2 < 4294967296)
        × (write_trajectory (λ i. 0) 4294967295 (7 ∷ 8 ∷ []) ≡ (false, λ i. 0)))
    ⊎ ((4096 < 4294967295)
        × (4294967296 ≤ 4294967295 + 2)
        × (write_trajectory (λ i. 0) 4294967295 (7 ∷ 8 ∷ [])
            ≡ (true, copy_in (λ i. 0) 4294967295 (7 ∷ 8 ∷ []))))
write_trajectory-cases_example =
    write_trajectory-cases (λ i. 0) 4294967295 (7 ∷ 8 ∷ []) (omega arith) (omega arith)
