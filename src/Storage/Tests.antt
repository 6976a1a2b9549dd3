-- ===== src/Storage/Tests.antt =====
-- The theorem of the storage on a bus that stores what it is given.
use zephyr_nano_drone.Prelude.{ℕ, ◌≡◌, refl, true, false, some, List, [], ◌∷◌, arith, length}
use zephyr_nano_drone.I2cdev.{Bus}
use zephyr_nano_drone.Kve.Memory.{overlay, read_cells}
use zephyr_nano_drone.Storage.{read_eeprom, write_eeprom}
use zephyr_nano_drone.Storage.Partition.{write_eeprom_last}

abbrev storing : Bus (ℕ → ℕ)
storing = record {
  i2c_write = λ s dev bs. (true, s);
  i2c_read = λ s dev n. ((true, read_cells s 0 n), s);
  i2c_burst_write = λ s dev a bs. (true, overlay s a bs);
  i2c_burst_read = λ s dev a n. ((true, read_cells s a n), s);
}

-- The end tag of a table that fills the partition.
abbrev end_tag : List ℕ
end_tag = 255 ∷ 255 ∷ []

write_eeprom_last_example :
    (write_eeprom storing 0 false (λ a. 0) 7166 end_tag ≡ some (0, λ a. 0))
    × (read_eeprom storing (λ a. 0) 7166 (length end_tag) ≡ ((0, []), λ a. 0))
write_eeprom_last_example =
    write_eeprom_last storing 0 false (λ a. 0) 7166 end_tag (omega arith) refl
