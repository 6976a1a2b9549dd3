-- ===== src/Services/Tests.antt =====
-- A request of the firmware's version.
use zephyr_nano_drone.Prelude.{◌≡◌, refl, inl, false, some, List, [], ◌∷◌}
use zephyr_nano_drone.Msgq.Lists.{list_msgq}
use zephyr_nano_drone.Crtp.{Packet}
use zephyr_nano_drone.AppChannel.{Channel}
use zephyr_nano_drone.Services.{Version, text_reply, version_command_process, platform_round}
use zephyr_nano_drone.Services.Replies.{Tells, platform_round-Tells}

abbrev build : Version
build = record { firmware_version = 49 ∷ 46 ∷ 48 ∷ []; device_type_name = 67 ∷ 70 ∷ [] }

abbrev request : Packet
request = record { size = 1; channel = 1; port = 13; payload = 1 ∷ [] }

abbrev silent : Channel (List Packet)
silent = record { rx_queue = []; overflow = false }

-- The answer: the command and the text, of four bytes in all.
answered :
    platform_round (list_msgq 10) build request silent
    ≡ (some (text_reply (49 ∷ 46 ∷ 48 ∷ []) request), silent)
unfolding platform_round version_command_process
answered = refl

platform_round-Tells_example :
    (r : Packet) × (platform_round (list_msgq 10) build request silent ≡ (some r, silent))
    × Tells (49 ∷ 46 ∷ 48 ∷ []) request r
platform_round-Tells_example =
    platform_round-Tells (list_msgq 10) build request silent (49 ∷ 46 ∷ 48 ∷ []) refl
      (inl (refl, refl))
