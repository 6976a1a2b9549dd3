-- ===== src/HighLevel/Groups.antt =====
-- The groups of src/crtp_commander_high_level.c, and how its commands relate.
use zephyr_nano_drone.Prelude.{
  ℕ, ◌+◌, ◌%◌, ◌≤◌, ◌≡◌, ◌≢◌, refl, ◌∙◌, ap, Bool, true, false, [], ◌∷◌, Option, none, some, ◌==◌,
  if◌then◌else◌, arith,
}
use mathlib.Core.Option.{some-injective, none-ne-some}
use zephyr_nano_drone.HighLevel.{
  Floats, Planner, HighLevel, DataVertical, DataVertical2, DataWithVelocity, Command,
  set_group_mask, takeoff, land, stop, go_to, start_trajectory, define_trajectory, takeoff_2,
  land_2, takeoff_with_velocity, land_with_velocity, unknown,
}
use zephyr_nano_drone.HighLevel.Handlers.{
  is_in_group, handle_takeoff, handle_takeoff_2, handle_takeoff_with_velocity, handle_land,
  handle_land_2, handle_land_with_velocity, handle_stop, handle_go_to, handle_start_trajectory,
  handle_command,
}
use zephyr_nano_drone.HighLevel.Packets.{command_of, task_round}

-- The mask of a command that is for a group.
abbrev mask_of : {F : Type 0} → Command F → Option ℕ
mask_of (set_group_mask m) = none
mask_of (takeoff d) = some d.group_mask
mask_of (land d) = some d.group_mask
mask_of (stop g) = some g
mask_of (go_to d) = some d.group_mask
mask_of (start_trajectory d) = some d.group_mask
mask_of (define_trajectory d) = none
mask_of (takeoff_2 d) = some d.group_mask
mask_of (land_2 d) = some d.group_mask
mask_of (takeoff_with_velocity d) = some d.group_mask
mask_of (land_with_velocity d) = some d.group_mask
mask_of (unknown c) = none

if_ind {ℓ} :
    {A : Type ℓ} (Q : A → Type 0) (b : Bool) (x y : A)
    → (b ≡ true → Q x)
    → (b ≡ false → Q y)
    → Q (if b then x else y)
if_ind Q true x y f g = f refl
if_ind Q false x y f g = g refl

same : (c k : ℕ) → (c == k) ≡ true → c ≡ k
same c k e = ground (arith, e)

none_left :
    (c : ℕ)
    → c ≤ 10
    → (c == 0) ≡ false
    → (c == 1) ≡ false
    → (c == 2) ≡ false
    → (c == 3) ≡ false
    → (c == 4) ≡ false
    → (c == 5) ≡ false
    → (c == 6) ≡ false
    → (c == 7) ≡ false
    → (c == 8) ≡ false
    → (c == 9) ≡ false
    → (c == 10) ≡ false
    → ⊥
none_left c l e₀ e₁ e₂ e₃ e₄ e₅ e₆ e₇ e₈ e₉ e = ground arith

module _ {F C P : Type 0} (floats : Floats F) (planner : Planner F C P) where
  ignored :
      (t : F) (c : Command F) (s : HighLevel F C P) (g : ℕ)
      → mask_of c ≡ some g
      → is_in_group s.group_mask g ≡ false
      → handle_command floats planner t c s ≡ (0, s)
  unfolding handle_command handle_takeoff handle_takeoff_2 handle_takeoff_with_velocity handle_land
      handle_land_2 handle_land_with_velocity handle_stop handle_go_to handle_start_trajectory
  ignored t (set_group_mask m) s g e out = absurd (none-ne-some g e)
  ignored t (takeoff d) s g e out =
      rw (ap (is_in_group s.group_mask) (some-injective _ g e) ∙ out) refl
  ignored t (land d) s g e out =
      rw (ap (is_in_group s.group_mask) (some-injective _ g e) ∙ out) refl
  ignored t (stop h) s g e out =
      rw (ap (is_in_group s.group_mask) (some-injective _ g e) ∙ out) refl
  ignored t (go_to d) s g e out =
      rw (ap (is_in_group s.group_mask) (some-injective _ g e) ∙ out) refl
  ignored t (start_trajectory d) s g e out =
      rw (ap (is_in_group s.group_mask) (some-injective _ g e) ∙ out) refl
  ignored t (define_trajectory d) s g e out = absurd (none-ne-some g e)
  ignored t (takeoff_2 d) s g e out =
      rw (ap (is_in_group s.group_mask) (some-injective _ g e) ∙ out) refl
  ignored t (land_2 d) s g e out =
      rw (ap (is_in_group s.group_mask) (some-injective _ g e) ∙ out) refl
  ignored t (takeoff_with_velocity d) s g e out =
      rw (ap (is_in_group s.group_mask) (some-injective _ g e) ∙ out) refl
  ignored t (land_with_velocity d) s g e out =
      rw (ap (is_in_group s.group_mask) (some-injective _ g e) ∙ out) refl
  ignored t (unknown c) s g e out = absurd (none-ne-some g e)

  -- The mask is the first byte of the data, for all commands but the setting of the mask and the
  -- definition of a trajectory.
  mask_of-command_of :
      (c : ℕ) (bytes : ℕ → ℕ)
      → c ≢ 0
      → c ≢ 6
      → c ≤ 10
      → mask_of (command_of floats c bytes) ≡ some (bytes 0)
  unfolding command_of
  mask_of-command_of c bytes no_mask no_definition known =
      let Q = (λ (x : Command F). mask_of x ≡ some (bytes 0)) in
      if_ind Q (c == 0) _ _ (λ e. absurd (no_mask (same c 0 e)))
        (λ e₀.
          if_ind Q (c == 1) _ _ (λ e. refl)
            (λ e₁.
              if_ind Q (c == 2) _ _ (λ e. refl)
                (λ e₂.
                  if_ind Q (c == 3) _ _ (λ e. refl)
                    (λ e₃.
                      if_ind Q (c == 4) _ _ (λ e. refl)
                        (λ e₄.
                          if_ind Q (c == 5) _ _ (λ e. refl)
                            (λ e₅.
                              if_ind Q (c == 6) _ _ (λ e. absurd (no_definition (same c 6 e)))
                                (λ e₆.
                                  if_ind Q (c == 7) _ _ (λ e. refl)
                                    (λ e₇.
                                      if_ind Q (c == 8) _ _ (λ e. refl)
                                        (λ e₈.
                                          if_ind Q (c == 9) _ _ (λ e. refl)
                                            (λ e₉.
                                              if_ind Q (c == 10) _ _ (λ e. refl)
                                                (λ e. absurd (
                                                  none_left c known e₀ e₁ e₂ e₃ e₄ e₅ e₆ e₇ e₈ e₉
                                                    e))))))))))))

  -- A packet for other groups, which the copter is not in: the state is as it was, and the answer 0.
  pub task_round-outside :
      (t : F) (bytes : ℕ → ℕ) (s : HighLevel F C P)
      → bytes 0 ≢ 0
      → bytes 0 ≢ 6
      → bytes 0 ≤ 10
      → is_in_group s.group_mask (bytes 1) ≡ false
      → task_round floats planner t bytes s ≡ (bytes 0 ∷ bytes 1 ∷ bytes 2 ∷ 0 ∷ [], s)
  unfolding task_round
  task_round-outside t bytes s a b l out =
      ap (λ z. (bytes 0 ∷ bytes 1 ∷ bytes 2 ∷ z.0 % 256 ∷ [], z.1))
        (ignored t (command_of floats (bytes 0) (λ i. bytes (i + 1))) s (bytes 1)
          (mask_of-command_of (bytes 0) (λ i. bytes (i + 1)) a b l) out)

  -- The deprecated commands are their successors with the yaw 0, and a height relative to the copter
  -- is the sum with, or the difference from, its own.
  pub handle_command-variants :
      (t : F) (d : DataVertical F) (g : ℕ) (h yaw v : F) (current : Bool) (s : HighLevel F C P)
      → let d₂ : DataVertical2 F = record {
        group_mask = d.group_mask;
        height = d.height;
        yaw = floats.zero;
        use_current_yaw = false;
        duration = d.duration;
      } in
        let with_height : Bool → F → DataWithVelocity F = (λ relative height. record {
          group_mask = g;
          height = height;
          height_is_relative = relative;
          yaw = yaw;
          use_current_yaw = current;
          velocity = v;
        }) in
        let run = handle_command floats planner t in
        (run (takeoff d) s ≡ run (takeoff_2 d₂) s)
        × (run (land d) s ≡ run (land_2 d₂) s)
        × (run (takeoff_with_velocity (with_height true h)) s
            ≡ run (takeoff_with_velocity (with_height false (floats.add h s.pos.z))) s)
        × (run (land_with_velocity (with_height true h)) s
            ≡ run (land_with_velocity (with_height false (floats.sub s.pos.z h))) s)
  unfolding handle_command handle_takeoff handle_takeoff_2 handle_takeoff_with_velocity handle_land
      handle_land_2 handle_land_with_velocity
  handle_command-variants t d g h yaw v current s = (refl, refl, refl, refl)
