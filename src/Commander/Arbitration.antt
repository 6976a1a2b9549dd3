-- ===== src/Commander/Arbitration.antt =====
-- Who gets through commanderSetSetpoint.
use zephyr_nano_drone.Prelude.{
  ℕ, ◌≤◌, ◌<◌, ◌≡◌, refl, ◌∙◌, ap, length, ◌++◌, Bool-cases, inl, inr, some, List, [], ◌∷◌, arith,
  leb, ltb, if◌then◌else◌, u32,
}
use zephyr_nano_drone.Msgq.{Msgq, Fifo}
use zephyr_nano_drone.Commander.{
  Commander, Setpoint, HighLevel, set_setpoint, relax_priority, commander_init, null_setpoint,
}
use zephyr_nano_drone.Commander.Mailbox.{replace_lem}

module _ {Q P H X F : Type 0} (setpoints : Msgq Q (Setpoint F)) (priorities : Msgq P ℕ)
    (sent : Q → List (Setpoint F)) (ranks : P → List ℕ) (hl : HighLevel H X) where
  -- The queues hold one setpoint and its priority.
  pub record Holds (c : Commander Q P H X) (s : Setpoint F) (priority : ℕ) : Type 0 where
    pub setpoint : sent c.setpoint_queue ≡ s ∷ []
    pub rank : ranks c.priority_queue ≡ priority ∷ []

  module _ (fs : Fifo setpoints sent 1) (fp : Fifo priorities ranks 1) where
    -- On queues that hold a setpoint of some priority the call goes through. A setpoint of at least
    -- that priority takes its place, stamped with the time, and above the priority of the
    -- high-level commander that is disabled; a lower one leaves everything as it was.
    pub set_setpoint-Holds :
        (now : ℕ) (s t : Setpoint F) (priority current : ℕ) (c : Commander Q P H X)
        → Holds c t current
        → (c' : Commander Q P H X) × (set_setpoint setpoints priorities hl now s priority c
            ≡ some c')
          × (current ≤ priority → Holds c' (record s { timestamp = u32 now }) priority)
          × (priority < current → c' ≡ c)
          × (c'.high_level ≡ (
              if leb current priority
              then (if ltb 1 priority then hl.disable c.high_level else c.high_level)
              else c.high_level))
    unfolding set_setpoint
    set_setpoint-Holds now s t priority current c h =
        let rank = fp.peek_first c.priority_queue current [] h.rank in
        let s' = record s { timestamp = u32 now } in
        elim (Bool-cases (leb current priority)) [
          | inl above ↦
              rw (rank, above)
                (
                  _,
                  refl,
                  λ l. record {
                    setpoint = replace_lem setpoints sent fs s' t c.setpoint_queue h.setpoint;
                    rank = replace_lem priorities ranks fp priority current c.priority_queue h.rank;
                  },
                  λ l. absurd (ground (arith, above)),
                  refl,
                )
          | inr below ↦
              rw (rank, below) (c, refl, λ l. absurd (ground (arith, below)), λ l. refl, refl)
        ]

    -- commanderRelaxPriority keeps the setpoint, and then any setpoint of priority 1 or more is taken.
    pub relax_priority-Holds :
        (now : ℕ) (s t : Setpoint F) (priority current : ℕ) (c : Commander Q P H X)
        → Holds c t current
        → 1 ≤ priority
        → Holds (relax_priority setpoints priorities hl c) t 1
          × (c' : Commander Q P H X) × (set_setpoint setpoints priorities hl now s priority
                (relax_priority setpoints priorities hl c)
              ≡ some c')
          × Holds c' (record s { timestamp = u32 now }) priority
    unfolding relax_priority
    relax_priority-Holds now s t priority current c h l =
        let relaxed : Holds (relax_priority setpoints priorities hl c) t 1 = record {
          setpoint = h.setpoint;
          rank = replace_lem priorities ranks fp 1 current c.priority_queue h.rank;
        } in
        let (c', e, taken, lower, planner) = set_setpoint-Holds now s t priority 1 _ relaxed in
        (relaxed, c', e, taken l)

    -- commanderInit, with empty queues, leaves the null setpoint at the lowest of all priorities.
    pub commander_init-Holds :
        (float_zero : F) (q : Q) (p : P) (now : ℕ) (c : Commander Q P H X)
        → sent q ≡ []
        → ranks p ≡ []
        → Holds
            (commander_init setpoints priorities float_zero q p now c)
            (null_setpoint float_zero)
            0
    unfolding commander_init
    commander_init-Holds float_zero q p now c e f = record {
      setpoint =
          (fs.put_room q (null_setpoint float_zero) (omega (arith, ap (λ z. length z) e))).1
          ∙ ap (λ z. z ++ (null_setpoint float_zero ∷ [])) e;
      rank = (fp.put_room p 0 (omega (arith, ap (λ z. length z) f))).1 ∙ ap (λ z. z ++ (0 ∷ [])) f;
    }
