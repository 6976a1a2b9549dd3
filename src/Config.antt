-- ===== src/Config.antt =====
-- src/configblockeeprom.c: the configuration block, as its bytes: magic (4), version, radio channel,
-- radio speed, two floats of calibration (4 each), then the checksum in version 0; in version 1 the
-- radio address (5) and the checksum.
pub mod Upgrade
pub mod Init
mod Tests
use zephyr_nano_drone.Prelude.{
  ℕ, ◌+◌, ◌-◌, Bool, true, false, Option, none, some, List, [], ◌∷◌, ◌++◌, leb, ◌==◌, if◌then◌else◌,
  ◌>>=◌, bytes_eq, take, drop, set, get_or, not, ◌&&◌, ◌||◌, u8,
}
use zephyr_nano_drone.I2cdev.{Bus}
use zephyr_nano_drone.Eeprom.{test_connection, read_buffer, write_buffer}

-- 0x43427830, the lowest byte first.
abbrev pub magic : List ℕ
magic = 48 ∷ 120 ∷ 66 ∷ 67 ∷ []

abbrev pub version : ℕ
version = 1

abbrev pub header_size : ℕ
header_size = 5

abbrev pub overhead_size : ℕ
overhead_size = 6

abbrev pub block_size : ℕ
block_size = 21

abbrev pub configblock_sizes : List ℕ
configblock_sizes = 16 ∷ 21 ∷ []

abbrev pub version_of : List ℕ → ℕ
version_of block = get_or block 4 0

-- The loop of `calculate_cksum`.
abbrev pub cksum_loop : ℕ → List ℕ → ℕ
cksum_loop cksum [] = cksum
cksum_loop cksum (b ∷ bs) = cksum_loop (u8 (cksum + b)) bs

abbrev pub calculate_cksum : List ℕ → ℕ → ℕ
calculate_cksum block len = cksum_loop 0 (take len block)

abbrev pub check_magic : List ℕ → Bool
check_magic block = bytes_eq (take 4 block) magic

abbrev pub check_version : List ℕ → Bool
check_version block = version_of block == version

abbrev pub check_checksum : List ℕ → Bool
check_checksum block = get_or block 20 0 == calculate_cksum block (block_size - 1)

unfoldable pub check_data_integrity : List ℕ → ℕ → Bool
check_data_integrity block v =
    if v == 0
    then get_or block 15 0 == calculate_cksum block 15
    else if v == 1
    then get_or block 20 0 == calculate_cksum block 20
    else false

-- configblockCopyToNewVersion: the status, and what the saved block becomes.
unfoldable pub copy_to_new_version : List ℕ → List ℕ → Bool × List ℕ
copy_to_new_version saved new =
    let size = get_or configblock_sizes (version_of saved) 0 in
    let content = size - overhead_size in
    if leb (version_of saved) version && leb size block_size
    then (
      true,
      take header_size new
          ++ (take content (drop header_size saved) ++ drop content (drop header_size new)),
    )
    else (false, saved)

-- The checksum written into a block.
abbrev pub seal : List ℕ → List ℕ
seal block = set block 20 (calculate_cksum block (block_size - 1))

pub record Config : Type 0 where
  pub configblock : List ℕ
  pub configblock_default : List ℕ
  pub is_init : Bool
  pub cb_ok : Bool

-- `dummy` and `uninit` are the values that the EEPROM driver leaves unset.
module _ {S : Type 0} (bus : Bus S) (dummy : ℕ) (uninit : Bool) where
  unfoldable pub configblock_write : List ℕ → S → Option (Bool × S)
  configblock_write block s = write_buffer bus dummy uninit s 0 (seal block)

  -- An older block that is intact: brought to the current version and written.
  unfoldable pub upgrade : Config → S → Option (Config × S)
  unfolding configblock_write
  upgrade c s =
      let (copied, block) = copy_to_new_version c.configblock c.configblock_default in
      let written = (do
        (ok, s') ← configblock_write block s
        some (record c { configblock = seal block; cb_ok = c.cb_ok || ok }, s')) in
      if copied then written else some (c, s)

  -- What configblockInit makes of a block that it has read.
  unfoldable pub verify : Config → S → Option (Config × S)
  unfolding upgrade
  verify c s =
      let block = c.configblock in
      let upgraded = upgrade c s in
      if check_magic block
      then (if check_version block
          then some (record c { cb_ok = check_checksum block }, s)
          else if leb (version_of block) version && check_data_integrity block (version_of block)
          then upgraded
          else some (record c { cb_ok = false }, s))
      else some (c, s)

  -- The block read, after a read that is discarded.
  unfoldable pub load : Config → S → Option (Config × S)
  unfolding verify
  load c s =
      let (connected, s₂) = test_connection bus true (test_connection bus true s).1 in
      let (r, s₃) = read_buffer bus s₂ 0 block_size in
      let verified = verify (record c { configblock = r.1 }) s₃ in
      if connected then (if r.0 then verified else some (c, s₃)) else some (c, s₂)

  -- The default block, where no other is in order. The result is "configblockInit returned 0".
  unfoldable pub fall_back : Config → S → Option (Bool × Config × S)
  unfolding configblock_write
  fall_back c s =
      let defaulted = (do
        (ok, s') ← configblock_write c.configblock_default s
        some (
          ok,
          record c {
            configblock = c.configblock_default;
            configblock_default = seal c.configblock_default;
            is_init = c.is_init || ok;
            cb_ok = ok;
          },
          s',
        )) in
      if c.cb_ok then some (true, record c { is_init = true }, s) else defaulted

  unfoldable pub configblock_init : Config → S → Option (Bool × Config × S)
  unfolding load fall_back
  configblock_init c s =
      let started = (do (c', s') ← load c s; fall_back c' s') in
      if c.is_init then some (true, c, s) else started

-- configblockGetRadioChannel and configblockGetRadioSpeed.
abbrev pub get_radio_channel : ℕ → Config → ℕ
get_radio_channel radio_channel c = if c.cb_ok then get_or c.configblock 5 0 else radio_channel

abbrev pub get_radio_speed : ℕ → Config → ℕ
get_radio_speed radio_datarate c = if c.cb_ok then get_or c.configblock 6 0 else radio_datarate
