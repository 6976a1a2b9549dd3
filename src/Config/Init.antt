-- ===== src/Config/Init.antt =====
-- configblockInit of src/configblockeeprom.c at start-up, on any bus.
use zephyr_nano_drone.Prelude.{
  ℕ, ◌≡◌, ◌⊎◌, refl, ◌∙◌, ap, Bool, true, false, Bool-cases, inl, inr, List, arith, leb, length,
  ◌&&◌, ◌||◌, Ends, Ends-bind, Ends-then, Ends-else, Ends-if,
}
use zephyr_nano_drone.I2cdev.{Bus}
use zephyr_nano_drone.Eeprom.{dev_addr, read_buffer, test_connection, write_buffer}
use zephyr_nano_drone.Eeprom.Writes.{write_buffer_total}
use zephyr_nano_drone.Config.{
  Config, seal, version_of, check_magic, check_version, check_checksum, check_data_integrity,
  configblock_write, upgrade, verify, load, fall_back, configblock_init,
}
use zephyr_nano_drone.Config.Upgrade.{copy_to_new_version-seal}

-- A block that passes the three checks.
pub record Accepted (block : List ℕ) : Type 0 where
  pub magic : check_magic block ≡ true
  pub version : check_version block ≡ true
  pub checksum : check_checksum block ≡ true

module _ {S : Type 0} (bus : Bus S) (dummy : ℕ) (uninit : Bool) (default : List ℕ) where
  -- After the block was read: nothing but the block and its status has changed.
  pub record Loaded (t : Config × S) : Type 0 where
    pub not_init : t.0.is_init ≡ false
    pub kept : t.0.configblock_default ≡ default
    pub accepted : t.0.cb_ok ≡ true → Accepted t.0.configblock

  -- What configblockInit leaves: its result, and the block in use.
  pub record Started (r : Bool × Config × S) : Type 0 where
    pub init : r.1.is_init ≡ r.0
    pub ok : r.1.cb_ok ≡ r.0
    pub block : r.0 ≡ true → Accepted r.1.configblock ⊎ (r.1.configblock ≡ default)

  module _ (sized : length default ≡ 21) (mg : check_magic default ≡ true)
      (vn : check_version default ≡ true)
      (reads : (s : S) (a n : ℕ) → length (bus.i2c_burst_read s dev_addr a n).0.1 ≡ n) where
    upgrade-Loaded :
        (c : Config) (s : S)
        → c.is_init ≡ false
        → c.configblock_default ≡ default
        → c.cb_ok ≡ false
        → length c.configblock ≡ 21
        → version_of c.configblock ≡ 0
        → Ends Loaded (upgrade bus dummy uninit c s)
    unfolding upgrade configblock_write
    upgrade-Loaded c s i d f l v =
        let (block, e, bytes, m', v', k') =
          copy_to_new_version-seal c.configblock c.configblock_default l
            (ap (λ z. length z) d ∙ sized) v (ap check_magic d ∙ mg) (ap check_version d ∙ vn) in
        rw e (
          Ends-bind (λ r. Unit) Loaded (write_buffer bus dummy uninit s 0 (seal block)) _
            (write_buffer_total bus dummy uninit s 0 (seal block))
            (λ r u. record {
              not_init = i;
              kept = d;
              accepted = λ z. record { magic = m'; version = v'; checksum = k' };
            }))

    verify-Loaded :
        (c : Config) (s : S)
        → c.is_init ≡ false
        → c.configblock_default ≡ default
        → c.cb_ok ≡ false
        → length c.configblock ≡ 21
        → Ends Loaded (verify bus dummy uninit c s)
    unfolding verify
    verify-Loaded c s i d f l =
        let block = c.configblock in
        let not_ok : Loaded (record c { cb_ok = false }, s) = record {
          not_init = i;
          kept = d;
          accepted = λ z. absurd (ground (arith, z));
        } in
        elim (Bool-cases (check_magic block)) [
          | inr e ↦
              Ends-else Loaded (check_magic block) _ _ e
                (record { not_init = i; kept = d; accepted = λ z. absurd (ground (arith, f, z)) })
          | inl e ↦
              Ends-then Loaded (check_magic block) _ _ e (elim (Bool-cases (check_version block)) [
                | inl v ↦ Ends-then Loaded (check_version block) _ _ v (record {
                  not_init = i;
                  kept = d;
                  accepted = λ z. record { magic = e; version = v; checksum = z };
                })
                | inr v ↦
                    Ends-else Loaded (check_version block) _ _ v
                      (elim (Bool-cases (leb (version_of block) 1)) [
                        | inl old ↦
                            Ends-if Loaded
                              (leb (version_of block) 1
                                && check_data_integrity block (version_of block))
                              _ _ (upgrade-Loaded c s i d f l (ground (arith, v, old))) not_ok
                        | inr unknown ↦
                            Ends-else Loaded
                              (leb (version_of block) 1
                                && check_data_integrity block (version_of block))
                              _ _
                              (ap (λ t. t && check_data_integrity block (version_of block)) unknown)
                              not_ok
                      ])
              ])
        ]

    load-Loaded :
        (c : Config) (s : S)
        → c.is_init ≡ false
        → c.configblock_default ≡ default
        → c.cb_ok ≡ false
        → Ends Loaded (load bus dummy uninit c s)
    unfolding load read_buffer
    load-Loaded c s i d f =
        let unread : (t : S) → Loaded (c, t) =
          λ t. record { not_init = i; kept = d; accepted = λ z. absurd (ground (arith, f, z)) } in
        let (connected, s₂) = test_connection bus true (test_connection bus true s).1 in
        let (r, s₃) = bus.i2c_burst_read s₂ dev_addr 0 21 in
        Ends-if Loaded connected _ _
          (Ends-if Loaded r.0 _ _
            (verify-Loaded (record c { configblock = r.1 }) s₃ i d f (reads s₂ 0 21)) (unread s₃))
          (unread s₂)

    -- At the first start, with a default block that has its magic number and version, and on any bus
    -- whose reads fill the buffer: configblockInit returns, the module is initialised and its block
    -- in order exactly if it returned 0, and then the block in use passes the three checks or is the
    -- default one.
    pub configblock_init-Started :
        (c : Config) (s : S)
        → c.is_init ≡ false
        → c.configblock_default ≡ default
        → c.cb_ok ≡ false
        → Ends Started (configblock_init bus dummy uninit c s)
    unfolding configblock_init fall_back configblock_write
    configblock_init-Started c s i d f = Ends-else Started c.is_init _ _ i (
        Ends-bind Loaded Started (load bus dummy uninit c s) _ (load-Loaded c s i d f) (λ t k.
          elim (Bool-cases t.0.cb_ok) [
            | inl e ↦
                Ends-then Started t.0.cb_ok _ _ e
                  (record { init = refl; ok = e; block = λ z. inl (k.accepted e) })
            | inr e ↦ Ends-else Started t.0.cb_ok _ _ e (
                Ends-bind (λ r. Unit) Started
                  (write_buffer bus dummy uninit t.1 0 (seal t.0.configblock_default)) _
                  (write_buffer_total bus dummy uninit t.1 0 (seal t.0.configblock_default))
                  (λ r u. record {
                    init = ap (λ b. b || r.0) k.not_init;
                    ok = refl;
                    block = λ z. inr k.kept;
                  }))
          ]))
