-- ===== src/Eeprom.antt =====
-- src/eeprom.c: the driver of the 24AA64 EEPROM, over the accesses of I2cdev.
pub mod Pages
pub mod Writes
mod Tests
use zephyr_nano_drone.Prelude.{
  ℕ, zero, suc, ◌+◌, ◌%◌, Bool, true, false, Option, none, some, List, [], ◌∷◌, ltb, leb, ◌==◌,
  if◌then◌else◌, ◌>>=◌, length, ◌||◌, u16, u32,
}
use zephyr_nano_drone.I2cdev.{Bus, i2cdev_write, i2cdev_write_reg16, i2cdev_read_reg16}

abbrev pub eeprom_size : ℕ
eeprom_size = 8191

abbrev pub dev_addr : ℕ
dev_addr = 80

-- The do-while loop that fills `pageBuffer`: at least one byte, up to the next multiple of 32; and
-- what is left to write.
unfoldable pub take_page : ℕ → List ℕ → List ℕ × List ℕ
take_page address [] = ([], [])
take_page address (b ∷ bs) =
    let (page, rest) = take_page (address + 1) bs in
    if (length bs == 0) || (u16 (address + 1) % 32 == 0) then (b ∷ [], bs) else (b ∷ page, rest)

-- `for (int retry = 0; retry < n; retry++)` around an access, left on success.
unfoldable pub retry {ℓ} : {S : Type ℓ} → ℕ → (S → Bool × S) → S → Bool × S
retry zero access s = (false, s)
retry (suc n) access s =
    let (status, s') = access s in
    let again = retry n access s' in if status then (true, s') else again

module _ {S : Type 0} (bus : Bus S) where
  -- One page: up to 10 tries to write it, then up to 30 polls until the device answers. The byte
  -- of the poll is not initialised: a parameter.
  unfoldable pub write_page : ℕ → S → ℕ → List ℕ → Bool × S
  write_page dummy s address page =
      let (status, s') = retry 10 (λ t. i2cdev_write_reg16 bus t dev_addr address page) s in
      let polled = retry 30 (λ t. i2cdev_write bus t dev_addr (dummy ∷ [])) s' in
      if status then polled else (false, s')

  -- The outer loop. Each page takes at least a byte, so `length` rounds are enough.
  unfoldable pub write_loop : ℕ → ℕ → Bool → S → ℕ → List ℕ → Option (Bool × S)
  write_loop zero dummy status s address bs = none
  write_loop (suc fuel) dummy status s address bs =
      let (page, rest) = take_page address bs in
      let (ok, s') = write_page dummy s address page in
      let next = write_loop fuel dummy ok s' (u16 (address + length page)) rest in
      if length bs == 0 then some (status, s) else if ok then next else some (false, s')

  -- eepromWriteBuffer. `uninit` is the local `status` that an empty buffer returns unset.
  unfoldable pub write_buffer : ℕ → Bool → S → ℕ → List ℕ → Option (Bool × S)
  unfolding write_loop
  write_buffer dummy uninit s write_addr bs =
      if ltb eeprom_size (u16 write_addr + length bs)
      then some (false, s)
      else write_loop (length bs + 1) dummy uninit s (u16 write_addr) bs

  -- eepromReadBuffer: the status, and what the buffer got.
  unfoldable pub read_buffer : S → ℕ → ℕ → (Bool × List ℕ) × S
  read_buffer s read_addr len =
      if ltb eeprom_size (u16 read_addr + u16 len)
      then ((false, []), s)
      else i2cdev_read_reg16 bus s dev_addr (u16 read_addr) (u16 len)

  -- handleMemWrite and handleMemRead: the bound is on 32-bit words.
  unfoldable pub handle_mem_write : ℕ → Bool → S → ℕ → List ℕ → Option (Bool × S)
  handle_mem_write dummy uninit s mem_addr bs =
      if leb (u32 (mem_addr + length bs)) eeprom_size
      then write_buffer dummy uninit s mem_addr bs
      else some (false, s)

  unfoldable pub handle_mem_read : S → ℕ → ℕ → (Bool × List ℕ) × S
  handle_mem_read s mem_addr len =
      if leb (u32 (mem_addr + len)) eeprom_size
      then read_buffer s mem_addr len
      else ((false, []), s)

  -- eepromTestConnection: one byte read from address 0.
  unfoldable pub test_connection : Bool → S → Bool × S
  test_connection is_init s =
      let (r, s') = i2cdev_read_reg16 bus s dev_addr 0 1 in
      if is_init then (r.0, s') else (false, s)
