-- ===== src/HighLevel/Trajectories.antt =====
-- The trajectories of src/crtp_commander_high_level.c: defined, and then started.
use zephyr_nano_drone.Prelude.{
  ℕ, ◌≤◌, ◌<◌, ◌≡◌, ◌≢◌, ◌⊎◌, inl, inr, refl, ◌∙◌, ap, Bool, true, false, Bool-cases, not, ◌==◌,
  ltb, if◌then◌else◌, arith,
}
use zephyr_nano_drone.HighLevel.{Floats, Planner, HighLevel, Description}
use zephyr_nano_drone.HighLevel.Handlers.{
  is_in_group, planned, set_description, handle_start_trajectory, handle_define_trajectory,
  handle_command,
}
use zephyr_nano_drone.HighLevel.Calls.{
  call_define_trajectory, call_start_trajectory, is_trajectory_defined,
}

flag : (b : Bool) → not ((if b then 1 else 0) == 0) ≡ b
flag true = refl
flag false = refl

module _ {F C P : Type 0} (floats : Floats F) (planner : Planner F C P) where
  -- A definition is taken for the ten identifiers, of which it changes one, and refused for others,
  -- of which none is ever defined.
  pub call_define_trajectory-Defined :
      (t : F) (id kind offset n_pieces : ℕ) (s : HighLevel F C P)
      → let r = call_define_trajectory floats planner t id kind offset n_pieces s in
        ((id < 10)
          × (r.0 ≡ 0)
          × (is_trajectory_defined floats planner id r.1 ≡ true)
          × ((j : ℕ)
              → j ≢ id
              → is_trajectory_defined floats planner j r.1
                ≡ is_trajectory_defined floats planner j s))
        ⊎ ((10 ≤ id) × (r ≡ (8, s)) × (is_trajectory_defined floats planner id s ≡ false))
  unfolding call_define_trajectory handle_command handle_define_trajectory is_trajectory_defined
  call_define_trajectory-Defined t id kind offset n_pieces s = elim (Bool-cases (ltb id 10)) [
    | inl e ↦
        let here : (id == id) ≡ true = ground arith in
        let new : Description = record {
          trajectory_location = 1;
          trajectory_type = kind;
          offset = offset;
          n_pieces = n_pieces;
        } in
        let after = record s { descriptions = set_description s.descriptions id new } in
        let taken : call_define_trajectory floats planner t id kind offset n_pieces s ≡ (0, after) =
          rw (e, handle_define_trajectory) refl in
        inl (
          ground (arith, e),
          ap (λ z. z.0) taken,
          ap (λ z. is_trajectory_defined floats planner id z.1) taken
              ∙ rw (e, here, is_trajectory_defined) refl,
          λ j d.
              let off : (j == id) ≡ false = ground (arith, d) in
              ap (λ z. is_trajectory_defined floats planner j z.1) taken
              ∙ rw (off, is_trajectory_defined) refl,
        )
    | inr e ↦ inr (
      ground (arith, e),
      rw (e, handle_define_trajectory) refl,
      rw (e, is_trajectory_defined) refl,
    )
  ]

  -- A trajectory of polynomials that was defined and is then started: the planner is given its
  -- pieces, from the time on, and its answer is the result.
  pub call_start_trajectory-Started :
      (t₀ t timescale : F) (id offset n_pieces : ℕ) (relative reversed : Bool) (s : HighLevel F C P)
      → id < 10
      → let s₁ = (call_define_trajectory floats planner t₀ id 0 offset n_pieces s).1 in
        let shared = record s.shared {
          trajectory = record s.shared.trajectory {
            t_begin = t;
            timescale = timescale;
            n_pieces = n_pieces;
            pieces = offset;
          };
        } in
        call_start_trajectory floats planner t id timescale relative reversed s₁
        ≡ planned floats planner
            (record s₁ { shared = shared })
            (planner.start_trajectory s.planner shared reversed relative s.pos)
  unfolding call_define_trajectory call_start_trajectory handle_command handle_define_trajectory
      handle_start_trajectory is_in_group
  call_start_trajectory-Started t₀ t timescale id offset n_pieces relative reversed s l =
      let e : ltb id 10 ≡ true = ground (arith, l) in
      let here : (id == id) ≡ true = ground arith in
      rw (e, here, handle_start_trajectory, handle_define_trajectory, flag reversed, flag relative)
        refl
