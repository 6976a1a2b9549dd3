-- ===== src/Log/Control.antt =====
-- The control channel of src/log.c: blocks created, appended to, deleted, started, stopped and reset.
pub mod Put
pub mod Safety
pub mod Reset
pub mod Process
use zephyr_nano_drone.Prelude.{
  ℕ, ◌+◌, ◌*◌, ◌/◌, ◌%◌, Bool, true, false, Option, none, some, List, [], ◌∷◌, ◌==◌, if◌then◌else◌,
  ◌>>=◌, not, sub_u32, is_some, ltb, zero, suc,
}
use zephyr_nano_drone.Log.{LogEntry}
use zephyr_nano_drone.Log.Blocks.{
  Code, done, eexist, enomem, enoent, enoexec, Block, Setting, LogOps, Pool, update, find_first,
  has_id, free_loop, Timers, Log, log_append, log_max_ops, log_max_blocks,
}

-- `settings[i]` of the packed arrays at `&p.data[2]`, where `bytes` is the memory from `p.data` on.
abbrev pub settings_v1 : (ℕ → ℕ) → ℕ → Setting
settings_v1 bytes i = record { log_type = bytes (2 + 2 * i); id = bytes (3 + 2 * i) }

abbrev pub settings_v2 : (ℕ → ℕ) → ℕ → Setting
settings_v2 bytes i = record {
  log_type = bytes (2 + 3 * i);
  id = bytes (3 + 3 * i) + 256 * bytes (4 + 3 * i);
}

-- A packet on the control channel: the memory from `p.data` on, once it is received, and its size.
pub record ControlPacket : Type 0 where
  pub bytes : ℕ → ℕ
  pub size : ℕ

module _ {T W : Type 0} (past : ℕ → ℕ) (logs : List LogEntry) (timers : Timers T W) where
  abbrev pub find_block : ℕ → Log T W → Option ℕ
  find_block id s = find_first log_max_blocks 0 (λ i. has_id id (s.blocks i).id)

  -- logAppendBlock and logAppendBlockV2; `address` is that of `p.data`.
  unfoldable pub log_append_block : ℕ → ℕ → (ℕ → ℕ) → ℕ → Log T W → Option (Code × Log T W)
  log_append_block address id bytes len s =
      log_append past logs 255 2 (address + 2) id (settings_v1 bytes) len s

  unfoldable pub log_append_block_v2 : ℕ → ℕ → (ℕ → ℕ) → ℕ → Log T W → Option (Code × Log T W)
  log_append_block_v2 address id bytes len s =
      log_append past logs 65535 3 (address + 2) id (settings_v2 bytes) len s

  -- The free block `i` taken for `id`: a timer, and no operations.
  unfoldable pub create_at : ℕ → ℕ → Log T W → Code × Log T W
  create_at i id s =
      let (timer, w) = timers.create i 1000 s.world in
      let block = record (s.blocks i) {
        id = if is_some timer then some id else none;
        timer = timer;
        ops = none;
      } in
      (
        if is_some timer then done else enomem,
        record s { blocks = update s.blocks i block; world = w },
      )

  -- What logCreateBlock and logCreateBlockV2 do before the settings are appended.
  unfoldable pub create_block : ℕ → Log T W → Code × Log T W
  unfolding find_first has_id create_at
  create_block id s = elim (find_block id s) as (λ _. Code × Log T W) [
    | some _ ↦ (eexist, s)
    | none ↦
        elim (find_first log_max_blocks 0 (λ i. not (is_some (s.blocks i).id)))
          as (λ _. Code × Log T W) [ none ↦ (enomem, s) | some i ↦ create_at i id s ]
  ]

  -- logCreateBlock and logCreateBlockV2, with the call that appends the settings.
  unfoldable pub log_create_block :
      (Log T W → Option (Code × Log T W)) → ℕ → Log T W → Option (Code × Log T W)
  unfolding create_block
  log_create_block append id s =
      let (code, s') = create_block id s in
      elim code as (λ _. Option (Code × Log T W)) [ done ↦ append s' | other ↦ some (other, s') ]

  abbrev on_timer : (T → W → W) → Option T → W → W
  on_timer f none w = w
  on_timer f (some t) w = f t w

  unfoldable pub delete_at : ℕ → Log T W → Option (Log T W)
  unfolding free_loop
  delete_at b s = do
    ops ← free_loop (log_max_ops + 1) s.ops (s.blocks b).ops
    some (record s {
      ops = ops;
      blocks = update s.blocks b (record (s.blocks b) { id = none; timer = none });
      world = on_timer (λ t w. timers.delete t (timers.stop t w)) (s.blocks b).timer s.world;
    })

  unfoldable pub log_delete_block : ℕ → Log T W → Option (Code × Log T W)
  unfolding delete_at find_first has_id
  log_delete_block id s = elim (find_block id s) as (λ _. Option (Code × Log T W)) [
    | none ↦ some (enoent, s)
    | some b ↦ do s' ← delete_at b s; some (done, s')
  ]

  unfoldable pub log_start_block : ℕ → ℕ → Log T W → Code × Log T W
  unfolding find_first has_id
  log_start_block id period s = elim (find_block id s) as (λ _. Code × Log T W) [
    | none ↦ (enoent, s)
    | some b ↦
        let timed =
          on_timer (λ t w. timers.start t (timers.change_period t period w)) (s.blocks b).timer
            s.world in
        (done, record s { world = if period == 0 then timers.schedule b s.world else timed })
  ]

  unfoldable pub log_stop_block : ℕ → Log T W → Code × Log T W
  unfolding find_first has_id
  log_stop_block id s = elim (find_block id s) as (λ _. Code × Log T W) [
    | none ↦ (enoent, s)
    | some b ↦ (done, record s { world = on_timer timers.stop (s.blocks b).timer s.world })
  ]

  -- The loop of `logReset` that stops and deletes the blocks, from block `i` on.
  unfoldable pub reset_loop : ℕ → ℕ → Log T W → Option (Log T W)
  unfolding log_delete_block log_stop_block
  reset_loop zero i s = some s
  reset_loop (suc n) i s = elim (s.blocks i).id as (λ _. Option (Log T W)) [
    | none ↦ reset_loop n (i + 1) s
    | some id ↦ do (code, s') ← log_delete_block id (log_stop_block id s).1; reset_loop n (i + 1) s'
  ]

  -- logReset: at last every block and every operation is freed by force.
  unfoldable pub log_reset : Bool → Log T W → Option (Log T W)
  unfolding reset_loop
  log_reset is_init s = do
    s' ← if is_init then reset_loop log_max_blocks 0 s else some s
    some (record s' {
      blocks =
          λ i. if ltb i log_max_blocks then record (s'.blocks i) { id = none } else s'.blocks i;
      ops = λ k. if ltb k log_max_ops then record (s'.ops k) { variable = 0 } else s'.ops k;
    })

  -- logControlProcess, for the packet at `address` with the given size: what it answers, and the
  -- state. The number of settings is computed on unsigned words.
  unfoldable pub log_control_process : Bool → ℕ → (ℕ → ℕ) → ℕ → Log T W → Option (Code × Log T W)
  log_control_process is_init address bytes size s =
      let id = bytes 1 in
      let len = sub_u32 size 2 / 2 in
      let len_v2 = sub_u32 size 2 / 3 in
      let reset = (do s' ← log_reset is_init s; some (done, s')) in
      let command = bytes 0 in
      if command == 0
      then log_create_block (log_append_block address id bytes len) id s
      else if command == 1
      then log_append_block address id bytes len s
      else if command == 2
      then log_delete_block id s
      else if command == 3
      then some (log_start_block id (bytes 2 * 10) s)
      else if command == 4
      then some (log_stop_block id s)
      else if command == 5
      then reset
      else if command == 6
      then log_create_block (log_append_block_v2 address id bytes len_v2) id s
      else if command == 7
      then log_append_block_v2 address id bytes len_v2 s
      else some (enoexec, s)

  -- The rounds of logTask on a sequence of control packets, each received into the buffer `p` at
  -- `address`.
  unfoldable pub log_packets : ℕ → List ControlPacket → Log T W → Option (Log T W)
  unfolding log_control_process
  log_packets address [] s = some s
  log_packets address (p ∷ ps) s = do
    (code, s') ← log_control_process true address p.bytes p.size s
    log_packets address ps s'
