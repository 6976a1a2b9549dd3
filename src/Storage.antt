-- ===== src/Storage.antt =====
-- src/storage.c: the accesses of the EEPROM that it gives to the key-value store.
pub mod Partition
mod Tests
use zephyr_nano_drone.Prelude.{
  ℕ, ◌+◌, ◌%◌, Bool, true, false, Option, none, some, List, [], ◌∷◌, ◌==◌, if◌then◌else◌, ◌>>=◌,
  length, take, u32,
}
use zephyr_nano_drone.I2cdev.{Bus}
use zephyr_nano_drone.Eeprom.{read_buffer, write_buffer}

abbrev pub kve_partition_start : ℕ
kve_partition_start = 1024

-- readEeprom and writeEeprom: the length that was read or written. `dummy` and `uninit` are the
-- values that the EEPROM driver leaves unset. Its lengths are of 16 bits.
module _ {S : Type 0} (bus : Bus S) where
  unfoldable pub read_eeprom : S → ℕ → ℕ → (ℕ × List ℕ) × S
  read_eeprom s address len =
      let ((success, bs), s') = read_buffer bus s (u32 (kve_partition_start + address)) len in
      if len == 0 then ((0, []), s) else if success then ((len, bs), s') else ((0, bs), s')

  unfoldable pub write_eeprom : ℕ → Bool → S → ℕ → List ℕ → Option (ℕ × S)
  write_eeprom dummy uninit s address bs =
      let written = (do
        let cut = take (length bs % 65536) bs
        (success, s') ← write_buffer bus dummy uninit s (u32 (kve_partition_start + address)) cut
        some (if success then length bs else 0, s')) in
      if length bs == 0 then some (0, s) else written
