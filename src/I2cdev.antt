-- ===== src/I2cdev.antt =====
-- src/i2cdevInit.c: the register accesses of the I2C layer. The bus itself is the driver of the
-- real-time system, so it is a parameter: what it does to its state, and whether it returned 0.
use zephyr_nano_drone.Prelude.{ℕ, Bool, List, u8, u16}

pub record Bus (S : Type 0) : Type 0 where
  pub i2c_write : S → ℕ → List ℕ → Bool × S
  pub i2c_read : S → ℕ → ℕ → (Bool × List ℕ) × S
  pub i2c_burst_write : S → ℕ → ℕ → List ℕ → Bool × S
  pub i2c_burst_read : S → ℕ → ℕ → ℕ → (Bool × List ℕ) × S

module _ {S : Type 0} (bus : Bus S) (s : S) where
  abbrev pub i2cdev_write : ℕ → List ℕ → Bool × S
  i2cdev_write dev_address bs = bus.i2c_write s (u16 dev_address) bs

  abbrev pub i2cdev_read : ℕ → ℕ → (Bool × List ℕ) × S
  i2cdev_read dev_address len = bus.i2c_read s (u16 dev_address) len

  abbrev pub i2cdev_write_reg8 : ℕ → ℕ → List ℕ → Bool × S
  i2cdev_write_reg8 dev_address mem_address bs =
      bus.i2c_burst_write s (u16 dev_address) (u8 mem_address) bs

  abbrev pub i2cdev_read_reg8 : ℕ → ℕ → ℕ → (Bool × List ℕ) × S
  i2cdev_read_reg8 dev_address mem_address len =
      bus.i2c_burst_read s (u16 dev_address) (u8 mem_address) len

  -- The parameter `memAddress` of the 16-bit accesses is a uint8_t as well.
  abbrev pub i2cdev_write_reg16 : ℕ → ℕ → List ℕ → Bool × S
  i2cdev_write_reg16 dev_address mem_address bs =
      bus.i2c_burst_write s (u16 dev_address) (u8 mem_address) bs

  abbrev pub i2cdev_read_reg16 : ℕ → ℕ → ℕ → (Bool × List ℕ) × S
  i2cdev_read_reg16 dev_address mem_address len =
      bus.i2c_burst_read s (u16 dev_address) (u8 mem_address) len
