-- ===== src/Log/Control/Process.antt =====
-- The control packets of src/log.c: every one is processed to its end, and keeps the shape of the
-- blocks.
use zephyr_nano_drone.Prelude.{
  ℕ, ◌+◌, ◌*◌, ◌/◌, ◌<◌, Bool, some, List, [], arith, ◌==◌, if◌then◌else◌, ◌>>=◌, sub_u32, Ends,
  Ends-if, Ends-weaken, Ends-bind,
}
use zephyr_nano_drone.Log.{LogEntry}
use zephyr_nano_drone.Log.Blocks.{Log, Setting, Code, done, enoexec, Timers, log_append}
use zephyr_nano_drone.Log.Blocks.Append.{Addressed, Shaped, log_append-Shape}
use zephyr_nano_drone.Log.Control.{
  log_create_block, log_delete_block, log_start_block, log_stop_block, log_reset,
  log_control_process, log_append_block, log_append_block_v2, settings_v1, settings_v2,
}
use zephyr_nano_drone.Log.Control.Safety.{log_create_block-Shape}
use zephyr_nano_drone.Log.Control.Reset.{
  Deleted, Emptied, log_delete_block-Shape, log_stop_block-Shape, log_start_block-Shape,
  log_reset-Shape,
}

module _ {T W : Type 0} (past : ℕ → ℕ) (logs : List LogEntry) (timers : Timers T W)
    (addressed : Addressed logs) where
  abbrev Good : Code × Log T W → Type 0
  Good r = Shaped past r.1

  append-Shape :
      (address id memory_id step : ℕ) (settings : ℕ → Setting) (len : ℕ)
      → 0 < address
      → (s : Log T W) → Shaped past s
      → Ends Good (log_append past logs memory_id step (address + 2) id settings len s)
  append-Shape address id memory_id step settings len at s (chains, h) =
      log_append-Shape past logs addressed memory_id step (address + 2) id settings len s chains h
        (omega (arith, at))

  -- The commands from the reset on.
  late_commands-Shape :
      (is_init : Bool) (c address id len : ℕ) (settings : ℕ → Setting) (s : Log T W)
      → Shaped past s
      → 0 < address
      → let append = log_append past logs 65535 3 (address + 2) id settings len in
        Ends Good (
          if c == 5
          then (do s' ← log_reset past logs timers is_init s; some (done, s'))
          else if c == 6
          then log_create_block past logs timers append id s
          else if c == 7
          then append s
          else some (enoexec, s))
  late_commands-Shape is_init c address id len settings s h at =
      let append = log_append past logs 65535 3 (address + 2) id settings len in
      let appends = append-Shape address id 65535 3 settings len at in
      let y₇ = if c == 7 then append s else some (enoexec, s) in
      let y₆ = if c == 6 then log_create_block past logs timers append id s else y₇ in
      let g₇ : Ends Good y₇ =
        Ends-if Good (c == 7) (append s) (some (enoexec, s)) (appends s h) h in
      let g₆ : Ends Good y₆ =
        Ends-if Good (c == 6) (log_create_block past logs timers append id s) y₇
          (log_create_block-Shape past logs timers append appends id s h) g₇ in
      Ends-if Good (c == 5) (log_reset past logs timers is_init s >>= (λ s'. some (done, s'))) y₆
        (Ends-bind (Emptied past) Good (log_reset past logs timers is_init s)
          (λ s'. some (done, s')) (log_reset-Shape past logs timers is_init s h)
          (λ s' k. (λ i. [], k.0)))
        g₆

  -- The answer to a control packet, whatever it holds and however long it is.
  pub log_control_process-Shape :
      (is_init : Bool) (address : ℕ) (bytes : ℕ → ℕ) (size : ℕ) (s : Log T W)
      → Shaped past s
      → 0 < address
      → Ends Good (log_control_process past logs timers is_init address bytes size s)
  unfolding log_control_process log_append_block log_append_block_v2
  log_control_process-Shape is_init address bytes size s h at =
      let c = bytes 0 in
      let id = bytes 1 in
      let n = sub_u32 size 2 / 2 in
      let n₂ = sub_u32 size 2 / 3 in
      let append = log_append past logs 255 2 (address + 2) id (settings_v1 bytes) n in
      let append₂ = log_append past logs 65535 3 (address + 2) id (settings_v2 bytes) n₂ in
      let appends = append-Shape address id 255 2 (settings_v1 bytes) n at in
      let start = some (log_start_block past logs timers id (bytes 2 * 10) s) in
      let y₅ =
        if c == 5
        then (log_reset past logs timers is_init s >>= (λ s'. some (done, s')))
        else if c == 6
        then log_create_block past logs timers append₂ id s
        else if c == 7
        then append₂ s
        else some (enoexec, s) in
      let y₄ = if c == 4 then some (log_stop_block past logs timers id s) else y₅ in
      let y₃ = if c == 3 then start else y₄ in
      let y₂ = if c == 2 then log_delete_block past logs timers id s else y₃ in
      let y₁ = if c == 1 then append s else y₂ in
      let g₄ : Ends Good y₄ =
        Ends-if Good (c == 4) (some (log_stop_block past logs timers id s)) y₅
          (log_stop_block-Shape past logs timers id s h)
          (late_commands-Shape is_init c address id n₂ (settings_v2 bytes) s h at) in
      let g₃ : Ends Good y₃ =
        Ends-if Good (c == 3) start y₄
          (log_start_block-Shape past logs timers id (bytes 2 * 10) s h) g₄ in
      let g₂ : Ends Good y₂ =
        Ends-if Good (c == 2) (log_delete_block past logs timers id s) y₃
          (Ends-weaken (Deleted past id) Good (log_delete_block past logs timers id s)
            (log_delete_block-Shape past logs timers id s h) (λ r k. k.0))
          g₃ in
      let g₁ : Ends Good y₁ = Ends-if Good (c == 1) (append s) y₂ (appends s h) g₂ in
      Ends-if Good (c == 0) (log_create_block past logs timers append id s) y₁
        (log_create_block-Shape past logs timers append appends id s h) g₁
