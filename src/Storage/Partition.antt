-- ===== src/Storage/Partition.antt =====
-- The partition of the EEPROM that src/storage.c gives to the key-value store.
use zephyr_nano_drone.Prelude.{
  ℕ, zero, suc, ◌+◌, ◌%◌, ◌∷◌, take, ap, ◌≤◌, ◌≡◌, refl, Bool, true, false, some, List, [], arith,
  length, ltb, ◌==◌, u16, u32,
}
use zephyr_nano_drone.I2cdev.{Bus}
use zephyr_nano_drone.Eeprom.{eeprom_size, write_buffer, read_buffer}
use zephyr_nano_drone.Storage.{read_eeprom, write_eeprom}

take_whole : (n : ℕ) (xs : List ℕ) → n ≡ length xs → take n xs ≡ xs
take_whole zero [] e = refl
take_whole (suc n) [] e = absurd (omega (arith, e))
take_whole zero (x ∷ xs) e = absurd (omega (arith, e))
take_whole (suc n) (x ∷ xs) e = ap (λ r. x ∷ r) (take_whole n xs (omega (arith, e)))

module _ {S : Type 0} (bus : Bus S) (dummy : ℕ) (uninit : Bool) (s : S) where
  -- An access that reaches the last byte of the partition is refused, with no access to the bus.
  pub write_eeprom_last :
      (a : ℕ) (bs : List ℕ)
      → 1 ≤ length bs
      → a + length bs ≡ 7168
      → (write_eeprom bus dummy uninit s a bs ≡ some (0, s))
        × (read_eeprom bus s a (length bs) ≡ ((0, []), s))
  unfolding write_eeprom read_eeprom write_buffer read_buffer
  write_eeprom_last a bs h e =
      let start : u32 (1024 + a) ≡ 1024 + a = omega arith in
      let narrow : u16 (1024 + a) ≡ 1024 + a = omega arith in
      let len : u16 (length bs) ≡ length bs = omega arith in
      let some_bytes : (length bs == 0) ≡ false = ground arith in
      let late : ltb eeprom_size (1024 + a + length bs) ≡ true = ground arith in
      let whole : take (length bs % 65536) bs ≡ bs =
        take_whole (length bs % 65536) bs (omega arith) in
      rw (whole, some_bytes, start, narrow, len, late) (refl, refl)
