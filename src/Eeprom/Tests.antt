-- ===== src/Eeprom/Tests.antt =====
-- The theorems of the EEPROM driver on a bus that stores what it is given.
use zephyr_nano_drone.Prelude.{ℕ, ◌≡◌, refl, true, false, some, List, [], ◌∷◌, arith}
use zephyr_nano_drone.I2cdev.{Bus}
use zephyr_nano_drone.Kve.Memory.{overlay, read_cells}
use zephyr_nano_drone.Eeprom.{take_page, write_buffer, handle_mem_write}
use zephyr_nano_drone.Eeprom.Writes.{write_buffer_alias, handle_mem_write_range}

-- Every access is acknowledged.
abbrev storing : Bus (ℕ → ℕ)
storing = record {
  i2c_write = λ s dev bs. (true, s);
  i2c_read = λ s dev n. ((true, read_cells s 0 n), s);
  i2c_burst_write = λ s dev a bs. (true, overlay s a bs);
  i2c_burst_read = λ s dev a n. ((true, read_cells s a n), s);
}

abbrev blank : ℕ → ℕ
blank x = 255

abbrev three : List ℕ
three = 1 ∷ 2 ∷ 3 ∷ []

-- A page ends at 32: two pages are written.
pages : take_page 30 three ≡ (1 ∷ 2 ∷ [], 3 ∷ [])
unfolding take_page
pages = refl

write_buffer_alias_example :
    write_buffer storing 0 false blank 1054 three ≡ write_buffer storing 0 false blank 798 three
write_buffer_alias_example = write_buffer_alias storing 0 false blank 798 three (omega arith)

handle_mem_write_range_example :
    handle_mem_write storing 0 true blank 4294967294 three ≡ some (false, blank)
handle_mem_write_range_example =
    handle_mem_write_range storing 0 true blank 4294967294 three (omega arith) (omega arith)
      (omega arith)
