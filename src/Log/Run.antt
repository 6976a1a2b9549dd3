-- ===== src/Log/Run.antt =====
-- logRunBlock of src/log.c: the packet with the values of a block.
pub mod Packing
pub mod Session
use zephyr_nano_drone.Prelude.{
  ℕ, zero, suc, ◌+◌, ◌-◌, ◌*◌, ◌/◌, ◌%◌, ◌^◌, Bool, true, false, Option, none, some, List, [], ◌∷◌,
  ◌++◌, ltb, leb, ◌==◌, if◌then◌else◌, ◌>>=◌, ◌||◌, sub_u32, length, is_some,
}
use zephyr_nano_drone.Log.{LogEntry}
use zephyr_nano_drone.Log.Blocks.{
  LogOps, Pool, Log, Block, Acquisition, memory, function, Timers, update, type_length, log_max_ops,
}
use zephyr_nano_drone.Log.Control.{log_reset}

-- What the packing uses of the machine, over a type of floats. `load t a` is the variable of storage
-- type `t` at `a`, `acquire t a now` what its function gives, or none when that is NULL; both as
-- bits. `behind` is the memory after a local variable.
pub record Machine (F : Type 0) : Type 0 where
  pub load : ℕ → ℕ → ℕ
  pub acquire : ℕ → ℕ → ℕ → Option ℕ
  pub float_of_bits : ℕ → F
  pub bits_of_float : F → ℕ
  pub float_of_int : ℕ → F
  pub int_of_float : F → ℕ
  pub single_to_half : F → ℕ
  pub behind : ℕ → ℕ

-- A signed number of `w` bits as an int of 32 bits.
abbrev pub sign_extend : ℕ → ℕ → ℕ
sign_extend w v = if ltb (v % 2 ^ w) (2 ^ (w - 1)) then v % 2 ^ w else v % 2 ^ w + 2 ^ 32 - 2 ^ w

-- The `n` bytes from the variable `v` of 32 bits on, the lowest first.
unfoldable pub copied : (ℕ → ℕ) → ℕ → ℕ → ℕ → List ℕ
copied behind zero i v = []
copied behind (suc n) i v =
    (if ltb i 4 then (v / 256 ^ i) % 256 else behind i) ∷ copied behind n (i + 1) v

-- CRTPPacket: its size is the length of `content` modulo 256.
pub record LogPacket : Type 0 where
  pub size : ℕ
  pub content : List ℕ

-- appendToPacket: none when there is no space.
unfoldable pub append_to_packet : List ℕ → ℕ → LogPacket → Option LogPacket
append_to_packet bytes n pk =
    if leb pk.size (sub_u32 30 n)
    then some (record { size = (pk.size + n) % 256; content = pk.content ++ bytes })
    else none

module _ {F : Type 0} (machine : Machine F) (past : ℕ → ℕ) where
  -- `valuei` and `valuef` after the switch on the storage type, from the bits of the value.
  unfoldable pub value_of : ℕ → ℕ → ℕ × F
  value_of storage_type v =
      let float_zero = machine.float_of_bits 0 in
      let float = machine.float_of_bits (v % 2 ^ 32) in
      if storage_type == 1
      then (v % 2 ^ 8, float_zero)
      else if storage_type == 4
      then (sign_extend 8 v, float_zero)
      else if storage_type == 2
      then (v % 2 ^ 16, float_zero)
      else if storage_type == 5
      then (sign_extend 16 v, float_zero)
      else if storage_type == 3
      then (v % 2 ^ 32, float_zero)
      else if storage_type == 6
      then (v % 2 ^ 32, float_zero)
      else if storage_type == 7
      then (machine.int_of_float float, float)
      else (0, float_zero)

  -- The bits of an operation's value; none is a failed assertion. A storage type that the switch
  -- does not know reads nothing.
  unfoldable pub acquired : ℕ → LogOps → Option ℕ
  acquired now o =
      let by_type = elim o.acquisition_type as (λ _. Option ℕ) [
        | memory ↦ some (machine.load o.storage_type o.variable)
        | function ↦ machine.acquire o.storage_type o.variable now
      ] in
      if o.storage_type == 0 then some 0 else if ltb 7 o.storage_type then some 0 else by_type

  -- The bytes of an operation's value in its log type.
  unfoldable pub encoded : ℕ → LogOps → Option (List ℕ)
  unfolding acquired value_of copied
  encoded now o = do
    v ← acquired now o
    let (valuei, valuef) = value_of o.storage_type v
    let float = if o.storage_type == 7 then valuef else machine.float_of_int valuei
    some (
        if o.log_type == 7
        then copied machine.behind 4 0 (machine.bits_of_float float)
        else if o.log_type == 8
        then copied machine.behind 2 0 (machine.single_to_half float)
        else copied machine.behind (type_length past o.log_type) 0 valuei)

  -- The number of bytes that the code appends for an operation.
  abbrev pub width : LogOps → ℕ
  width o =
      if o.log_type == 7 then 4 else if o.log_type == 8 then 2 else type_length past o.log_type

  -- The loop over the operations. A value without space ends it.
  unfoldable pub pack_loop : ℕ → ℕ → Pool → Option ℕ → LogPacket → Option LogPacket
  unfolding encoded append_to_packet
  pack_loop zero now ops o pk = none
  pack_loop (suc fuel) now ops none pk = some pk
  pack_loop (suc fuel) now ops (some k) pk = elim (encoded now (ops k)) as (λ _. Option LogPacket) [
    | none ↦ none
    | some bytes ↦ elim (append_to_packet bytes (width (ops k)) pk) as (λ _. Option LogPacket) [
      | none ↦ some pk
      | some pk' ↦ pack_loop fuel now ops (ops k).next pk'
    ]
  ]

  -- The packet of block `b`, at the time `now` in milliseconds.
  unfoldable pub log_packet : {T W : Type 0} → ℕ → ℕ → Log T W → Option LogPacket
  unfolding pack_loop
  log_packet now b s =
      let id = elim (s.blocks b).id as (λ _. ℕ) [ none ↦ 255 | some i ↦ i % 256 ] in
      let start = id ∷ now % 256 ∷ (now / 256) % 256 ∷ (now / 65536) % 256 ∷ [] in
      pack_loop (log_max_ops + 1) now s.ops (s.blocks b).ops (record { size = 4; content = start })

-- What a block's run calls beyond the log: the connection, the reset of the radio protocol, and the
-- sending of a packet, which says whether the result of crtpSendPacket is not 0.
pub record Radio (W : Type 0) : Type 0 where
  pub connected : W → Bool
  pub reset : W → W
  pub send : LogPacket → W → Bool × W

module _ {F T W : Type 0} (machine : Machine F) (past : ℕ → ℕ) (logs : List LogEntry)
    (timers : Timers T W) (radio : Radio W) where
  unfoldable pub sent : ℕ → LogPacket → Log T W → Log T W
  sent b pk s =
      let (ok, w) = radio.send pk s.world in
      let block = s.blocks b in
      let counted = record block { dropped_packets = (block.dropped_packets + 1) % 2 ^ 32 } in
      record s { world = w; blocks = if ok then s.blocks else update s.blocks b counted }

  -- logRunBlock for block `b` at the time `now`.
  unfoldable pub log_run_block : Bool → ℕ → ℕ → Log T W → Option (Log T W)
  unfolding log_packet sent
  log_run_block is_init now b s = do
    pk ← log_packet machine past now b s
    let disconnect = (do
      s' ← log_reset past logs timers is_init s
      some (record s' { world = radio.reset s'.world }))
    if radio.connected s.world then some (sent b pk s) else disconnect
