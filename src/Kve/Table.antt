-- ===== src/Kve/Table.antt =====
-- The operations of includes/kve/src/kve.c. `none` is a call that never returns. A call that writes
-- gives the new memory beside its result.
pub mod Holds
pub mod Basic
pub mod Defrag
pub mod Store
use zephyr_nano_drone.Prelude.{
  ℕ, zero, suc, ◌+◌, ◌-◌, ◌*◌, ◌/◌, Bool, true, false, Option, none, some, List, [], ◌∷◌, ltb, ◌==◌,
  if◌then◌else◌, ◌>>=◌, length, not, u16, u32, sub_u32,
}
use zephyr_nano_drone.Kve.Memory.{Memory, write}
use zephyr_nano_drone.Kve.Storage.{
  Address, at, invalid, is_valid, to_size, end_tag, header_size, min_size, Match, write_item,
  write_hole, write_end, move_memory, get_item_info, get_buffer, find_item_by_key,
  find_item_by_prefix, find_end, find_hole, find_next_item,
}

abbrev pub version_address : ℕ
version_address = 0

abbrev pub first_item_address : ℕ
first_item_address = 1

abbrev pub kve_version : ℕ
kve_version = 1

-- Where the group of items from `item_address` on ends: at the next hole, or at the end.
unfoldable pub next_boundary : Memory → ℕ → Option Address
next_boundary m item_address = do
  next ← find_hole m item_address
  if is_valid next then some next else find_end m item_address

-- One round of `kveDefrag` at a hole: the memory after it, and the next hole, or none for `break`.
unfoldable pub defrag_round : Memory → ℕ → Option (Memory × Option ℕ)
defrag_round m hole_address = do
  item ← find_next_item m hole_address
  elim item [
    | invalid ↦ some ((write_end m hole_address).1, none)
    | at item_address ↦ do
      next ← next_boundary m item_address
      let length_to_move = sub_u32 (to_size next) item_address
      let moved = move_memory m item_address hole_address length_to_move
      let next_hole = hole_address + length_to_move
      some ((write_hole moved next_hole (item_address - hole_address)).1, some next_hole)
  ]

-- Each round leaves fewer entries behind the hole, so `size` rounds are enough.
unfoldable pub defrag_loop : ℕ → Memory → ℕ → Option Memory
defrag_loop zero m hole_address = none
defrag_loop (suc fuel) m hole_address = do
  (m', next) ← defrag_round m hole_address
  elim next [ none ↦ some m' | some h ↦ defrag_loop fuel m' h ]

unfoldable pub defrag : Memory → Option Memory
unfolding defrag_loop
defrag m = do
  hole ← find_hole m first_item_address
  elim hole [ invalid ↦ some m | at h ↦ defrag_loop (m.size + 1) m h ]

-- The room test of `appendItemToEnd`, on 32-bit words.
abbrev pub has_room : Memory → ℕ → List ℕ → List ℕ → Bool
has_room m item_address key buffer =
    ltb (u32 (item_address + header_size + length key + length buffer + 2)) m.size

-- The item, and the end tag behind it.
unfoldable pub write_last : Memory → ℕ → List ℕ → List ℕ → Memory
write_last m item_address key buffer =
    let (n, m') = write_item m item_address key buffer in (write_end m' (item_address + n)).1

-- The second try of `appendItemToEnd`, after `kveDefrag`.
unfoldable pub write_if_room : Memory → ℕ → List ℕ → List ℕ → Bool × Memory
unfolding write_last
write_if_room m item_address key buffer =
    if has_room m item_address key buffer
    then (true, write_last m item_address key buffer)
    else (false, m)

unfoldable pub append_item_to_end : Memory → ℕ → List ℕ → List ℕ → Option (Bool × Memory)
unfolding write_if_room
append_item_to_end m address key buffer = do
  found ← find_end m address
  elim found [
    | invalid ↦ some (false, m)
    | at item_address ↦
        if has_room m item_address key buffer
        then some (true, write_last m item_address key buffer)
        else do
          m' ← defrag m
          found' ← find_end m' first_item_address
          some (write_if_room m' (to_size found') key buffer)
  ]

unfoldable pub store : Memory → List ℕ → List ℕ → Option (Bool × Memory)
store m key buffer = do
  found ← find_item_by_key m first_item_address key
  elim found [
    | invalid ↦ append_item_to_end m first_item_address key buffer
    | at item_address ↦
        let current = get_item_info m item_address in
        if current.full_length == u16 (length buffer + 3 + length key)
        then some (true, (write_item m item_address key buffer).1)
        else append_item_to_end (write_hole m item_address current.full_length).1 first_item_address
            key buffer
  ]

-- The bytes copied into a buffer of `buffer_length`; none where the key is not found.
unfoldable pub fetch : Memory → List ℕ → ℕ → Option (List ℕ)
fetch m key buffer_length = do
  found ← find_item_by_key m first_item_address key
  elim found [
    | invalid ↦ some []
    | at item_address ↦
        let header = get_item_info m item_address in
        let store_size = sub_u32 (sub_u32 header.full_length header.key_length) header_size in
        some (get_buffer m item_address header (min_size store_size buffer_length))
  ]

unfoldable pub delete : Memory → List ℕ → Option (Bool × Memory)
delete m key = do
  found ← find_item_by_key m first_item_address key
  elim found [
    | invalid ↦ some (false, m)
    | at item_address ↦
        some (true, (write_hole m item_address (get_item_info m item_address).full_length).1)
  ]

unfoldable pub format : Memory → Memory
format m = (write_end (write m version_address (kve_version ∷ [])) first_item_address).1

unfoldable pub check : Memory → Option Bool
check m =
    if not (m.cell version_address == kve_version)
    then some false
    else do found ← find_end m first_item_address; some (is_valid found)

-- What the callback of `kveForeach` was given, and whether the walk went through.
abbrev pub Visits : Type 0
Visits = Bool × List (List ℕ × List ℕ)

module _ (m : Memory) (prefix : List ℕ) (func : List ℕ → List ℕ → Bool) where
  unfoldable pub for_each_loop : ℕ → Option Match → Option Visits
  for_each_loop zero found = none
  for_each_loop (suc fuel) none = some (true, [])
  for_each_loop (suc fuel) (some found) =
      let header = get_item_info m found.address in
      let store_size = sub_u32 (sub_u32 header.full_length header.key_length) header_size in
      let buffer = get_buffer m found.address header (min_size store_size 8) in
      if length buffer == 0
      then some (false, [])
      else if not (func found.key buffer)
      then some (false, (found.key, buffer) ∷ [])
      else do
        next ← find_item_by_prefix m (found.address + found.item_size) prefix
        (done, visits) ← for_each_loop fuel next
        some (done, (found.key, buffer) ∷ visits)

  unfoldable pub for_each : Option Visits
  unfolding for_each_loop
  for_each = do
    first ← find_item_by_prefix m first_item_address prefix
    for_each_loop (m.size + 1) first

pub record Stats : Type 0 where
  pub total_size : ℕ
  pub total_items : ℕ
  pub item_size : ℕ
  pub key_size : ℕ
  pub data_size : ℕ
  pub metadata_size : ℕ
  pub hole_size : ℕ

abbrev pub no_stats : Stats
no_stats = record {
  total_size = 0;
  total_items = 0;
  item_size = 0;
  key_size = 0;
  data_size = 0;
  metadata_size = 0;
  hole_size = 0;
}

-- One entry of the table counted; `total_size` is the local `total_size` of the source.
abbrev pub count_entry : ℕ → ℕ → Stats → Stats
count_entry full_length key_length s =
    if key_length == 0
    then record s { total_size = s.total_size + full_length; hole_size = s.hole_size + full_length }
    else record s {
      total_size = s.total_size + full_length;
      item_size = s.item_size + full_length;
      total_items = s.total_items + 1;
      key_size = s.key_size + key_length;
      metadata_size = s.metadata_size + header_size;
      data_size = s.data_size + sub_u32 (sub_u32 full_length key_length) header_size;
    }

unfoldable pub stats_loop : ℕ → Memory → ℕ → ℕ → Stats → Option Stats
stats_loop zero m end_address item_address s = none
stats_loop (suc fuel) m end_address item_address s =
    let info = get_item_info m item_address in
    let s' = count_entry info.full_length info.key_length s in
    let rest = stats_loop fuel m end_address (item_address + info.full_length) s' in
    if ltb item_address end_address
    then if info.full_length == end_tag then some s else rest
    else some s

-- kveStats_t: what was counted, with the memory's size and what is derived from it.
pub record Report : Type 0 where
  pub counted : Stats
  pub memory_size : ℕ
  pub free_space : ℕ
  pub fragmentation : ℕ
  pub space_left_until_forced_defrag : ℕ

unfoldable pub get_stats : Memory → Option Report
unfolding stats_loop
get_stats m = do
  found ← find_end m first_item_address
  s ← stats_loop (m.size + 1) m (to_size found) first_item_address no_stats
  some (record {
    counted = s;
    memory_size = m.size;
    free_space = sub_u32 m.size s.item_size;
    fragmentation = (s.hole_size * 100) / sub_u32 m.size s.item_size;
    space_left_until_forced_defrag = sub_u32 m.size s.total_size;
  })
