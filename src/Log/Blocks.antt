-- ===== src/Log/Blocks.antt =====
-- The blocks of src/log.c: their operations, linked in a pool of 128, and the calls on a block.
-- Pointers into the two arrays are indices, with none for NULL.
pub mod Counting
pub mod Chains
pub mod Links
pub mod Search
pub mod Append
pub mod Shape
use zephyr_nano_drone.Prelude.{
  ℕ, zero, suc, ◌+◌, ◌-◌, ◌*◌, ◌/◌, ◌%◌, Bool, true, false, Option, none, some, List, [], ◌∷◌, ltb,
  leb, ◌==◌, if◌then◌else◌, ◌>>=◌, get_or,
}
use zephyr_nano_drone.Log.{LogEntry, log_get_type, variable_get_index}

abbrev pub log_max_len : ℕ
log_max_len = 26

abbrev pub log_max_ops : ℕ
log_max_ops = 128

abbrev pub log_max_blocks : ℕ
log_max_blocks = 16

-- The results of the calls: 0, and the codes of errno.h that they return.
pub data Code : Type 0 where
  done : Code
  eexist : Code
  enomem : Code
  enoent : Code
  e2big : Code
  enoexec : Code

pub data Acquisition : Type 0 where
  memory : Acquisition
  function : Acquisition

abbrev pub acquisition_type_from_log_type : ℕ → Acquisition
acquisition_type_from_log_type t = if (t / 64) % 2 == 1 then function else memory

-- struct log_ops. A `variable` of 0 is NULL, and marks the operation as free.
pub record LogOps : Type 0 where
  pub next : Option ℕ
  pub storage_type : ℕ
  pub log_type : ℕ
  pub variable : ℕ
  pub acquisition_type : Acquisition

-- struct log_block, over the type of the timers' handles. An `id` of none is BLOCK_ID_FREE.
pub record Block (T : Type 0) : Type 0 where
  pub id : Option ℕ
  pub timer : Option T
  pub dropped_packets : ℕ
  pub ops : Option ℕ

-- One element of the array of settings in a packet: struct ops_setting or ops_setting_v2.
pub record Setting : Type 0 where
  pub log_type : ℕ
  pub id : ℕ

-- `typeLength[t]`; past the end of the table, what lies behind it.
abbrev pub type_length : (ℕ → ℕ) → ℕ → ℕ
type_length past t = if ltb t 9 then get_or (0 ∷ 1 ∷ 2 ∷ 4 ∷ 1 ∷ 2 ∷ 4 ∷ 4 ∷ 2 ∷ []) t 0 else past t

abbrev pub update {ℓ} : {A : Type ℓ} → (ℕ → A) → ℕ → A → ℕ → A
update f i a j = if j == i then a else f j

-- `for (i = 0; i < n; i++) if (test(i)) break;`, from `i` on with `n` rounds left; none when no
-- index passes.
unfoldable pub find_first : ℕ → ℕ → (ℕ → Bool) → Option ℕ
find_first zero i test = none
find_first (suc n) i test = let rest = find_first n (i + 1) test in if test i then some i else rest

unfoldable pub has_id : ℕ → Option ℕ → Bool
has_id id none = false
has_id id (some j) = j == id

abbrev pub Pool : Type 0
Pool = ℕ → LogOps

unfoldable pub ops_malloc : Pool → Option ℕ
unfolding find_first
ops_malloc ops = find_first log_max_ops 0 (λ i. (ops i).variable == 0)

abbrev pub ops_free : Pool → ℕ → Pool
ops_free ops k = update ops k (record (ops k) { variable = 0 })

-- The loop of `blockCalcLength` from `o` on.
unfoldable pub length_loop : ℕ → (ℕ → ℕ) → Pool → Option ℕ → ℕ → Option ℕ
length_loop zero past ops o len = none
length_loop (suc fuel) past ops none len = some len
length_loop (suc fuel) past ops (some k) len =
    length_loop fuel past ops (ops k).next (len + type_length past (ops k).log_type)

-- `for (o = block->ops; o->next; o = o->next);`
unfoldable pub last_loop : ℕ → Pool → ℕ → Option ℕ
last_loop zero ops o = none
last_loop (suc fuel) ops o = elim (ops o).next as (λ _. Option ℕ) [
  | none ↦ some o
  | some n ↦ last_loop fuel ops n
]

-- blockAppendOps: the head of the block's chain, and the pool.
unfoldable pub block_append_ops : Pool → Option ℕ → ℕ → Option (Option ℕ × Pool)
unfolding last_loop
block_append_ops ops head k =
    let cut = update ops k (record (ops k) { next = none }) in
    elim head as (λ _. Option (Option ℕ × Pool)) [
      | none ↦ some (some k, cut)
      | some h ↦ do
        o ← last_loop (log_max_ops + 1) cut h
        some (some h, update cut o (record (cut o) { next = some k }))
    ]

-- The loop of `logDeleteBlock` that frees a chain.
unfoldable pub free_loop : ℕ → Pool → Option ℕ → Option Pool
free_loop zero ops o = none
free_loop (suc fuel) ops none = some ops
free_loop (suc fuel) ops (some k) = free_loop fuel (ops_free ops k) (ops k).next

-- The calls of the timers and of the worker, on a world of their own.
pub record Timers (T W : Type 0) : Type 0 where
  pub create : ℕ → ℕ → W → Option T × W
  pub stop : T → W → W
  pub delete : T → W → W
  pub change_period : T → ℕ → W → W
  pub start : T → W → W
  pub schedule : ℕ → W → W

-- The module's variables.
pub record Log (T W : Type 0) : Type 0 where
  pub blocks : ℕ → Block T
  pub ops : Pool
  pub world : W

-- What a round of the loop of `logAppendBlock` comes to: its return, or the next index.
pub data Progress : Type 0 where
  stop : Code → Progress
  next : ℕ → Progress

module _ {T W : Type 0} (past : ℕ → ℕ) (logs : List LogEntry) where
  abbrev pub set_block : ℕ → Block T → Log T W → Log T W
  set_block i b s = record s { blocks = update s.blocks i b }

  -- The operation `k`, filled in and appended to the chain of block `b`.
  unfoldable pub link_ops : ℕ → ℕ → LogOps → Log T W → Option (Log T W)
  unfolding block_append_ops
  link_ops b k filled s = do
    (head, ops) ← block_append_ops (update s.ops k filled) (s.blocks b).ops k
    some (record s { ops = ops; blocks = update s.blocks b (record (s.blocks b) { ops = head }) })

  -- One round of the loop: setting `i`, at `address + size * i`. The operation of a setting whose
  -- id is `memory_id` points behind the setting, and two settings are skipped.
  unfoldable pub append_setting :
      ℕ → ℕ → ℕ → ℕ → (ℕ → Setting) → ℕ → Log T W → Option (Progress × Log T W)
  unfolding link_ops length_loop ops_malloc
  append_setting memory_id size address b settings i s = do
    len ← length_loop (log_max_ops + 1) past s.ops (s.blocks b).ops 0
    let st = settings i
    let log_type = st.log_type % 16
    elim (ops_malloc s.ops) as (λ _. Option (Progress × Log T W)) [
      | none ↦
          some
            (stop (if ltb log_max_len (len + type_length past log_type) then e2big else enomem), s)
      | some k ↦
          let from_memory = record (s.ops k) {
            variable = address + size * (i + 1);
            storage_type = (st.log_type / 16) % 16;
            log_type = log_type;
            acquisition_type = memory;
          } in
          let by_memory = (do s' ← link_ops b k from_memory s; some (next (i + 3), s')) in
          let by_toc = elim (variable_get_index logs st.id) as (λ _. Option (Progress × Log T W)) [
            | none ↦ some (stop enoent, s)
            | some v ↦
                let entry = get_or logs v (record { type = 0; name = []; address = 0 }) in
                let from_toc = record (s.ops k) {
                  variable = entry.address;
                  storage_type = log_get_type entry;
                  log_type = log_type;
                  acquisition_type = acquisition_type_from_log_type entry.type;
                } in
                (do s' ← link_ops b k from_toc s; some (next (i + 1), s'))
          ] in
          if ltb log_max_len (len + type_length past log_type)
          then some (stop e2big, s)
          else if st.id == memory_id
          then by_memory
          else by_toc
    ]

  -- The loop of `logAppendBlock`, which ends after at most `len` rounds.
  unfoldable pub append_loop :
      ℕ → ℕ → ℕ → ℕ → ℕ → (ℕ → Setting) → ℕ → ℕ → Log T W → Option (Code × Log T W)
  append_loop zero memory_id size address b settings len i s = none
  append_loop (suc fuel) memory_id size address b settings len i s =
      let round = (do
        (progress, s') ← append_setting memory_id size address b settings i s
        elim progress as (λ _. Option (Code × Log T W)) [
          | stop code ↦ some (code, s')
          | next j ↦ append_loop fuel memory_id size address b settings len j s'
        ]) in
      if ltb i len then round else some (done, s)

  -- logAppendBlock and logAppendBlockV2, which differ in the settings that they read.
  unfoldable pub log_append : ℕ → ℕ → ℕ → ℕ → (ℕ → Setting) → ℕ → Log T W → Option (Code × Log T W)
  unfolding append_loop find_first has_id
  log_append memory_id size address id settings len s =
      elim (find_first log_max_blocks 0 (λ i. has_id id (s.blocks i).id))
        as (λ _. Option (Code × Log T W)) [
          | none ↦ some (enoent, s)
          | some b ↦ append_loop (suc len) memory_id size address b settings len 0 s
        ]
