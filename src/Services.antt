-- ===== src/Services.antt =====
-- The services on two ports of the radio protocol: src/crtpservice.c, and src/platformservice.c with the
-- channel that it passes on to src/app_channel.c. A round of each task, on a packet that it received.
pub mod Replies
mod Tests
use zephyr_nano_drone.Prelude.{
  ℕ, zero, suc, ◌+◌, ◌*◌, ◌/◌, ◌%◌, Bool, true, false, Option, none, some, List, [], ◌∷◌, ◌++◌, ltb,
  ◌==◌, if◌then◌else◌, length, take, drop, get_or, replicate,
}
use zephyr_nano_drone.Msgq.{Msgq}
use zephyr_nano_drone.Crtp.{Packet}
use zephyr_nano_drone.AppChannel.{Channel, incoming_packet}

-- "Bitcraze Crazyflie"
abbrev pub source_text : List ℕ
source_text =
    66 ∷ 105 ∷ 116 ∷ 99 ∷ 114 ∷ 97 ∷ 122 ∷ 101 ∷ 32 ∷ 67 ∷ 114 ∷ 97 ∷ 122 ∷ 121 ∷ 102 ∷ 108 ∷ 105
    ∷ 101 ∷ []

-- A round of crtpSrvTaskFunc: the packet that it sends. The delay of an echo is left out.
unfoldable pub link_round : Packet → Option Packet
link_round p =
    if p.channel == 0
    then some p
    else if p.channel == 1
    then some (record p { size = 30; payload = source_text ++ replicate 12 0 })
    else none

-- `strncpy(to, text, n)`: what it writes.
abbrev pub strncpy : List ℕ → ℕ → List ℕ
strncpy text n = take n (text ++ replicate n 0)

-- PROTOCOL_VERSION
abbrev pub protocol_version : ℕ
protocol_version = 5

-- What the firmware tells of itself: texts of the build.
pub record Version : Type 0 where
  pub firmware_version : List ℕ
  pub device_type_name : List ℕ

-- The reply with a text of versionCommandProcess.
abbrev pub text_reply : List ℕ → Packet → Packet
text_reply text p = record p {
  size = if ltb 29 (length text) then 30 else suc (length text);
  payload = get_or p.payload 0 0 ∷ strncpy text 29;
}

-- versionCommandProcess: the packet that it sends.
unfoldable pub version_command_process : Version → Packet → Option Packet
version_command_process version p =
    let command = get_or p.payload 0 0 in
    if command == 0
    then some
        (record p { size = 5; payload = command ∷ protocol_version ∷ 0 ∷ 0 ∷ 0 ∷ drop 5 p.payload })
    else if command == 1
    then some (text_reply version.firmware_version p)
    else if command == 2
    then some (text_reply version.device_type_name p)
    else none

-- A round of platformSrvTaskFunction: the packet that it sends, and the application's channel. The
-- command for a continuous wave fills a packet that is not sent, the call being commented out.
unfoldable pub platform_round :
    {Q : Type 0} → Msgq Q Packet → Version → Packet → Channel Q → Option Packet × Channel Q
unfolding version_command_process
platform_round ops version p c =
    if p.channel == 0
    then (some p, c)
    else if p.channel == 1
    then (version_command_process version p, c)
    else if p.channel == 2
    then (none, incoming_packet ops p c)
    else (none, c)
