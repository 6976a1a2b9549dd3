-- ===== src/Kve/Storage.antt =====
-- The functions of includes/kve/src/kve_storage.c. `none` is a search that never returns (fuel run
-- out); an address is `invalid` where the source has SIZE_MAX. `flush` is a NOP and is left out.
-- `char` is unsigned, as on the ARM target. Addresses do not wrap: memories are far below 2^32.
pub mod Layout
pub mod Find
pub mod Write
pub mod Move
pub mod Scan
use zephyr_nano_drone.Prelude.{
  ℕ, zero, suc, ◌+◌, ◌-◌, ◌*◌, ◌/◌, ◌%◌, Bool, true, false, ◌&&◌, ◌||◌, Option, none, some, List,
  [], ◌∷◌, ltb, leb, ◌==◌, if◌then◌else◌, length, take, bytes_eq, u8, u16, sub_u32,
}
use zephyr_nano_drone.Kve.Memory.{Memory, read, write}

-- The result of a search.
pub data Address : Type 0 where
  at : ℕ → Address
  invalid : Address

-- KVE_STORAGE_IS_VALID
abbrev pub is_valid : Address → Bool
is_valid (at a) = true
is_valid invalid = false

-- The `size_t` that stands for an address.
abbrev pub to_size : Address → ℕ
to_size (at a) = a
to_size invalid = 4294967295

-- kveItemHeader_t
pub record ItemHeader : Type 0 where
  pub full_length : ℕ
  pub key_length : ℕ

abbrev pub end_tag : ℕ
end_tag = 65535

abbrev pub header_size : ℕ
header_size = 3

-- The packed, little-endian bytes of a header.
abbrev pub header_bytes : ℕ → ℕ → List ℕ
header_bytes full_length key_length = full_length % 256 ∷ full_length / 256 ∷ key_length ∷ []

-- The `min` of kve_storage.c and of kve.c.
abbrev pub min_size : ℕ → ℕ → ℕ
min_size a b = if ltb a b then a else b

-- The `int` returned is the header's uint16_t length.
unfoldable pub write_item : Memory → ℕ → List ℕ → List ℕ → ℕ × Memory
write_item m address key buffer =
    let key_length = u8 (length key) in
    let full_length = u16 (2 + 1 + key_length + length buffer) in
    let m₁ = write m address (header_bytes full_length key_length) in
    let m₂ = write m₁ (address + header_size) (take key_length key) in
    (full_length, write m₂ (address + header_size + key_length) buffer)

unfoldable pub write_hole : Memory → ℕ → ℕ → ℕ × Memory
write_hole m address full_length =
    (u16 full_length, write m address (header_bytes (u16 full_length) 0))

unfoldable pub write_end : Memory → ℕ → ℕ × Memory
write_end m address = (2, write m address (255 ∷ 255 ∷ []))

-- The loop moves at most 32 bytes a round, so `length` rounds are enough.
unfoldable pub move_loop : ℕ → Memory → ℕ → ℕ → ℕ → Memory
move_loop zero m source destination left = m
move_loop (suc fuel) m source destination left =
    let moving = min_size left 32 in
    let m' = write m destination (read m source moving) in
    let rest = move_loop fuel m' (source + moving) (destination + moving) (left - moving) in
    if ltb 0 left then rest else m

unfoldable pub move_memory : Memory → ℕ → ℕ → ℕ → Memory
unfolding move_loop
move_memory m source destination length = move_loop length m source destination length

unfoldable pub get_item_info : Memory → ℕ → ItemHeader
get_item_info m a = record {
  full_length = u16 (m.cell a + m.cell (a + 1) * 256);
  key_length = u8 (m.cell (a + 2));
}

unfoldable pub find_key_loop : ℕ → Memory → List ℕ → ℕ → ℕ → Option Address
find_key_loop zero m key limit current = none
find_key_loop (suc fuel) m key limit current =
    let header = get_item_info m current in
    let rest = find_key_loop fuel m key limit (current + header.full_length) in
    let n = header.key_length in
    if ltb current limit
    then if header.full_length == end_tag
      then some invalid
      else if n == u8 (length key) && bytes_eq (take n key) (read m (current + 3) n)
      then some (at current)
      else rest
    else some invalid

-- Each round advances by a header's length, so `size` rounds are enough unless a length is 0.
unfoldable pub find_item_by_key : Memory → ℕ → List ℕ → Option Address
unfolding find_key_loop
find_item_by_key m address key = find_key_loop (m.size + 1) m key (sub_u32 m.size 3) address

-- The item's length, its key and its address, of the first item whose key starts with `prefix`.
pub record Match : Type 0 where
  pub item_size : ℕ
  pub key : List ℕ
  pub address : ℕ

unfoldable pub find_prefix_loop : ℕ → Memory → List ℕ → ℕ → ℕ → Option (Option Match)
find_prefix_loop zero m prefix limit current = none
find_prefix_loop (suc fuel) m prefix limit current =
    let header = get_item_info m current in
    let rest = find_prefix_loop fuel m prefix limit (current + header.full_length) in
    let n = header.key_length in
    let searched = u8 (length prefix) in
    let buffer = read m (current + 3) n in
    if ltb current limit
    then if header.full_length == end_tag
      then some none
      else if leb searched n && bytes_eq (take searched prefix) (take searched buffer)
      then some (some (record { item_size = header.full_length; key = buffer; address = current }))
      else rest
    else some none

unfoldable pub find_item_by_prefix : Memory → ℕ → List ℕ → Option (Option Match)
unfolding find_prefix_loop
find_item_by_prefix m address prefix =
    find_prefix_loop (m.size + 1) m prefix (sub_u32 m.size 3) address

unfoldable pub find_end_loop : ℕ → Memory → ℕ → ℕ → Option Address
find_end_loop zero m limit current = none
find_end_loop (suc fuel) m limit current =
    let header = get_item_info m current in
    let rest = find_end_loop fuel m limit (current + header.full_length) in
    if ltb current limit
    then if header.full_length == end_tag
      then some (at current)
      else if ltb header.full_length (header_size + 1)
      then some invalid
      else rest
    else some invalid

unfoldable pub find_end : Memory → ℕ → Option Address
unfolding find_end_loop
find_end m address = find_end_loop (m.size + 1) m (sub_u32 m.size 2) address

unfoldable pub find_hole_loop : ℕ → Memory → ℕ → ℕ → Option Address
find_hole_loop zero m limit current = none
find_hole_loop (suc fuel) m limit current =
    let header = get_item_info m current in
    let rest = find_hole_loop fuel m limit (current + header.full_length) in
    if ltb current limit
    then if header.key_length == 0 then some (at current) else rest
    else some invalid

unfoldable pub find_hole : Memory → ℕ → Option Address
unfolding find_hole_loop
find_hole m address = find_hole_loop (m.size + 1) m (sub_u32 m.size 2) address

unfoldable pub find_next_loop : ℕ → Memory → ℕ → ℕ → Option Address
find_next_loop zero m limit current = none
find_next_loop (suc fuel) m limit current =
    let header = get_item_info m current in
    let rest = find_next_loop fuel m limit (current + header.full_length) in
    if ltb current limit
    then if header.full_length == end_tag
      then some invalid
      else if header.key_length == 0
      then rest
      else some (at current)
    else some invalid

unfoldable pub find_next_item : Memory → ℕ → Option Address
unfolding find_next_loop
find_next_item m address =
    let header = get_item_info m address in
    if header.full_length == end_tag
    then some invalid
    else find_next_loop (m.size + 1) m (sub_u32 m.size 3) (address + header.full_length)

abbrev pub get_buffer_length : ItemHeader → ℕ
get_buffer_length header = sub_u32 (sub_u32 header.full_length header_size) header.key_length

unfoldable pub get_key : Memory → ℕ → ItemHeader → ℕ → List ℕ
get_key m address header max_length =
    read m (address + header_size) (min_size max_length header.key_length)

-- The bytes copied out; their number is what the source returns.
unfoldable pub get_buffer : Memory → ℕ → ItemHeader → ℕ → List ℕ
get_buffer m address header max_length =
    read m (address + header_size + header.key_length)
      (min_size (get_buffer_length header) max_length)
