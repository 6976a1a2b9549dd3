-- ===== src/Eeprom/Writes.antt =====
-- What eepromWriteBuffer of src/eeprom.c does to the bus and to a device.
use zephyr_nano_drone.Prelude.{
  Ends, Ends-else, Ends-if, ℕ, zero, suc, ◌+◌, ◌≤◌, ◌<◌, ◌≡◌, refl, ap, Bool, true, false,
  Bool-cases, inl, inr, some, List, [], ◌∷◌, arith, length, ltb, leb, ◌==◌, if◌then◌else◌, u8, u16,
  u32,
}
use zephyr_nano_drone.I2cdev.{Bus, i2cdev_write}
use zephyr_nano_drone.Eeprom.{
  eeprom_size, dev_addr, take_page, retry, write_page, write_loop, write_buffer, handle_mem_write,
}
use zephyr_nano_drone.Eeprom.Pages.{take_page_nonempty, take_page_alias, length-take_page}

module _ {S : Type 0} (bus : Bus S) (dummy : ℕ) where
  write_page_alias :
      (s : S) (a b : ℕ) (bs : List ℕ)
      → u8 a ≡ u8 b
      → write_page bus dummy s a bs ≡ write_page bus dummy s b bs
  unfolding write_page
  write_page_alias s a b bs e =
      ap
        (λ k.
          let (status, s') = retry 10 (λ t. bus.i2c_burst_write t dev_addr k bs) s in
          let polled = retry 30 (λ t. i2cdev_write bus t dev_addr (dummy ∷ [])) s' in
          if status then polled else (false, s'))
        e

  write_loop_alias :
      (fuel : ℕ) (status : Bool) (s : S) (a b : ℕ) (bs : List ℕ)
      → a ≡ b + 256
      → a + length bs < 65536
      → write_loop bus fuel dummy status s a bs ≡ write_loop bus fuel dummy status s b bs
  unfolding write_loop
  write_loop_alias zero status s a b bs e h = refl
  write_loop_alias (suc fuel) status s a b bs e h =
      let (page, rest) = take_page b bs in
      let n = length-take_page b bs in
      let (ok, s') = write_page bus dummy s b page in
      rw
        (
          take_page_alias a b bs e h,
          write_page_alias s a b page (omega arith),
          write_loop_alias fuel ok s' (u16 (a + length page)) (u16 (b + length page)) rest
              (omega (arith, n)) (omega (arith, n)),
        )
        refl

  -- The bus sees the same of a write at two addresses that are 256 apart.
  pub write_buffer_alias :
      (uninit : Bool) (s : S) (a : ℕ) (bs : List ℕ)
      → a + 256 + length bs ≤ eeprom_size
      → write_buffer bus dummy uninit s (a + 256) bs ≡ write_buffer bus dummy uninit s a bs
  unfolding write_buffer
  write_buffer_alias uninit s a bs h =
      let e : u16 (a + 256) ≡ a + 256 = omega arith in
      let e' : u16 a ≡ a = omega arith in
      let far : ltb eeprom_size (a + 256 + length bs) ≡ false = ground arith in
      let near : ltb eeprom_size (a + length bs) ≡ false = ground arith in
      rw (e, e', far, near)
        (write_loop_alias (length bs + 1) uninit s (a + 256) a bs refl (omega arith))

  -- A write never returns but of a request whose true end is in the memory: no sum wraps past it.
  pub handle_mem_write_range :
      (uninit : Bool) (s : S) (a : ℕ) (bs : List ℕ)
      → a < 4294967296
      → length bs < 256
      → eeprom_size < a + length bs
      → handle_mem_write bus dummy uninit s a bs ≡ some (false, s)
  unfolding handle_mem_write write_buffer
  handle_mem_write_range uninit s a bs h l o =
      elim (Bool-cases (leb (u32 (a + length bs)) eeprom_size)) [
        | inl e ↦
            let late : ltb eeprom_size (u16 a + length bs) ≡ true = ground arith in
            rw (e, late) refl
        | inr e ↦ rw e refl
      ]

  write_loop_total :
      (fuel : ℕ) (status : Bool) (s : S) (a : ℕ) (bs : List ℕ)
      → length bs < fuel
      → Ends (λ r. Unit) (write_loop bus fuel dummy status s a bs)
  unfolding write_loop
  write_loop_total zero status s a bs h = absurd (omega arith)
  write_loop_total (suc fuel) status s a [] h = tt
  write_loop_total (suc fuel) status s a (b ∷ bs) h =
      let (page, rest) = take_page a (b ∷ bs) in
      let some_byte = take_page_nonempty a (b ∷ bs) (omega arith) in
      let more : (length (b ∷ bs) == 0) ≡ false = ground arith in
      let (ok, s') = write_page bus dummy s a page in
      Ends-else (λ r. Unit) (length (b ∷ bs) == 0) _ _ more
        (Ends-if (λ r. Unit) ok _ _
          (write_loop_total fuel ok s' (u16 (a + length page)) rest
            (omega (arith, length-take_page a (b ∷ bs), some_byte)))
          tt)

  -- A write returns, whatever the bus does.
  pub write_buffer_total :
      (uninit : Bool) (s : S) (a : ℕ) (bs : List ℕ)
      → Ends (λ r. Unit) (write_buffer bus dummy uninit s a bs)
  unfolding write_buffer
  write_buffer_total uninit s a bs =
      Ends-if (λ r. Unit) (ltb eeprom_size (u16 a + length bs)) _ _ tt
        (write_loop_total (length bs + 1) uninit s (u16 a) bs (omega arith))
