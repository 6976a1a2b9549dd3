-- ===== src/Log/Run/Session.antt =====
-- The log of src/log.c from its start: every control packet and every run of a block ends.
use zephyr_nano_drone.Prelude.{
  ℕ, ◌+◌, ◌%◌, ◌^◌, ◌<◌, ◌≡◌, refl, subst, Bool, true, false, Bool-cases, inl, inr, some, List, [],
  ◌∷◌, ◌>>=◌, is_some, Ends, Ends-some, Option-cases, Ends-if, Ends-bind,
}
use zephyr_nano_drone.Log.{LogEntry}
use zephyr_nano_drone.Log.Blocks.{Log, Timers, update}
use zephyr_nano_drone.Log.Blocks.Chains.{update_field}
use zephyr_nano_drone.Log.Blocks.Shape.{Shape}
use zephyr_nano_drone.Log.Blocks.Append.{Addressed, Shaped}
use zephyr_nano_drone.Log.Control.{ControlPacket, log_reset, log_control_process, log_packets}
use zephyr_nano_drone.Log.Control.Put.{Shape-same}
use zephyr_nano_drone.Log.Control.Process.{log_control_process-Shape}
use zephyr_nano_drone.Log.Control.Reset.{Emptied, log_reset-Shape, log_init-Emptied}
use zephyr_nano_drone.Log.Run.{Machine, LogPacket, Radio, log_packet, sent, log_run_block}
use zephyr_nano_drone.Log.Run.Packing.{all_encoded, all_encoded-Ends, log_packet-Values}

module _ {F T W : Type 0} (machine : Machine F) (past : ℕ → ℕ) (logs : List LogEntry)
    (timers : Timers T W) (radio : Radio W) where
  sent-Shape :
      (b : ℕ) (pk : LogPacket) (s : Log T W) (chains : ℕ → List ℕ)
      → Shape past s chains
      → Shape past (sent machine past logs timers radio b pk s) chains
  unfolding sent
  sent-Shape b pk s chains h =
      let (ok, w) = radio.send pk s.world in
      let block = s.blocks b in
      let counted = record block { dropped_packets = (block.dropped_packets + 1) % 2 ^ 32 } in
      elim (Bool-cases ok) [
        | inl e ↦ rw (e, sent) (Shape-same past s chains h s.blocks w (λ i. refl) (λ i. refl))
        | inr e ↦
            rw (e, sent)
              (Shape-same past s chains h (update s.blocks b counted) w
                (λ i. update_field (λ z. z.id) s.blocks b counted i refl)
                (λ i. update_field (λ z. z.ops) s.blocks b counted i refl))
      ]

  -- The run of a block in use ends, and leaves the blocks in a good shape.
  pub log_run_block-Shape :
      ((t a n : ℕ) → is_some (machine.acquire t a n) ≡ true)
      → (is_init : Bool) (now b id : ℕ) (s : Log T W) → Shaped past s
      → b < 16
      → (s.blocks b).id ≡ some id
      → Ends (λ s'. Shaped past s') (log_run_block machine past logs timers radio is_init now b s)
  unfolding log_run_block
  log_run_block-Shape set is_init now b id s (chains, h) l active =
      elim (Option-cases (all_encoded machine past now s.ops (chains b))) [
        | inl e ↦
            absurd
              (subst (Ends (λ _. Unit)) e (all_encoded-Ends machine past now s.ops set (chains b)))
        | inr (out, e) ↦
            let (q, _) = log_packet-Values machine past s chains h now b id out l active e in
            Ends-bind (λ pk. Unit) (λ s'. Shaped past s') (log_packet machine past now b s) _
              (Ends-some (λ pk. Unit) (log_packet machine past now b s) _ q tt)
              (λ pk u.
                Ends-if (λ s'. Shaped past s') (radio.connected s.world)
                  (some (sent machine past logs timers radio b pk s)) _
                  (chains, sent-Shape b pk s chains h)
                  (Ends-bind (Emptied past) (λ s'. Shaped past s')
                    (log_reset past logs timers is_init s) _
                    (log_reset-Shape past logs timers is_init s (chains, h))
                    (λ s' k. (
                      λ i. [],
                      Shape-same past s' (λ i. []) k.0 s'.blocks (radio.reset s'.world) (λ i. refl)
                          (λ i. refl),
                    ))))
      ]

module _ {T W : Type 0} (past : ℕ → ℕ) (logs : List LogEntry) (timers : Timers T W) where
  log_packets-Shape :
      Addressed logs
      → (address : ℕ) → 0 < address
      → (packets : List ControlPacket) (s : Log T W) → Shaped past s
      → Ends (λ s'. Shaped past s') (log_packets past logs timers address packets s)
  unfolding log_packets
  log_packets-Shape addressed address at [] s h = h
  log_packets-Shape addressed address at (p ∷ ps) s h =
      Ends-bind (λ r. Shaped past r.1) (λ s'. Shaped past s')
        (log_control_process past logs timers true address p.bytes p.size s) _
        (log_control_process-Shape past logs timers addressed true address p.bytes p.size s h at)
        (λ r k. log_packets-Shape addressed address at ps r.1 k)

  -- From the start, whatever the memory holds, every sequence of control packets is answered, and
  -- leaves the blocks in a good shape.
  pub log_packets-init :
      Addressed logs
      → (address : ℕ) → 0 < address
      → (packets : List ControlPacket) (s : Log T W)
      → Ends
          (λ s'. Shaped past s')
          (log_reset past logs timers false s >>= log_packets past logs timers address packets)
  log_packets-init addressed address at packets s =
      Ends-bind (Emptied past) (λ s'. Shaped past s') (log_reset past logs timers false s) _
        (log_init-Emptied past logs timers s)
        (λ s' k. log_packets-Shape addressed address at packets s' (λ i. [], k.0))
