-- ===== src/Config/Tests.antt =====
-- The theorems of the configuration block on a memory that stores what it is given.
use zephyr_nano_drone.Prelude.{
  ℕ, ◌≡◌, refl, true, false, List, [], ◌∷◌, ◌++◌, take, drop, replicate, Ends,
}
use zephyr_nano_drone.I2cdev.{Bus}
use zephyr_nano_drone.Kve.Memory.{overlay, read_cells}
use zephyr_nano_drone.Kve.Storage.Move.{length-read}
use zephyr_nano_drone.Config.{
  Config, seal, copy_to_new_version, check_magic, check_version, check_checksum, configblock_init,
}
use zephyr_nano_drone.Config.Upgrade.{copy_to_new_version-seal}
use zephyr_nano_drone.Config.Init.{Started, configblock_init-Started}

abbrev default : List ℕ
default =
    48 ∷ 120 ∷ 66 ∷ 67 ∷ 1 ∷ 80 ∷ 2 ∷ 0 ∷ 0 ∷ 0 ∷ 0 ∷ 0 ∷ 0 ∷ 0 ∷ 0 ∷ 231 ∷ 231 ∷ 231 ∷ 231 ∷ 231
    ∷ 0 ∷ []

-- Version 0, on channel 40.
abbrev saved : List ℕ
saved = 48 ∷ 120 ∷ 66 ∷ 67 ∷ 0 ∷ 40 ∷ 1 ∷ 0 ∷ 0 ∷ 0 ∷ 63 ∷ 0 ∷ 0 ∷ 0 ∷ 63 ∷ 8 ∷ replicate 5 255

copy_to_new_version-seal_example :
    (block : List ℕ) × (copy_to_new_version saved default ≡ (true, block))
    × (take 20 (seal block)
        ≡ take 5 default ++ (take 10 (drop 5 saved) ++ take 5 (drop 10 (drop 5 default))))
    × (check_magic (seal block) ≡ true)
    × (check_version (seal block) ≡ true)
    × (check_checksum (seal block) ≡ true)
copy_to_new_version-seal_example = copy_to_new_version-seal saved default refl refl refl refl refl

abbrev storing : Bus (ℕ → ℕ)
storing = record {
  i2c_write = λ s dev bs. (true, s);
  i2c_read = λ s dev n. ((true, read_cells s 0 n), s);
  i2c_burst_write = λ s dev a bs. (true, overlay s a bs);
  i2c_burst_read = λ s dev a n. ((true, read_cells s a n), s);
}

abbrev fresh : Config
fresh = record {
  configblock = replicate 21 0;
  configblock_default = default;
  is_init = false;
  cb_ok = false;
}

configblock_init-Started_example :
    Ends (Started storing 0 false default) (configblock_init storing 0 false fresh (λ a. 255))
configblock_init-Started_example =
    configblock_init-Started storing 0 false default refl refl refl (λ s a n. length-read s a n)
      fresh (λ a. 255) refl refl refl
