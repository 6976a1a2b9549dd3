-- ===== src/AppChannel/Send.antt =====
-- What src/app_channel.c sends.
use zephyr_nano_drone.Prelude.{
  ℕ, ◌≤◌, ◌≡◌, ◌↔◌, refl, Bool-cases, inl, inr, true, none, List, arith, leb, ltb, if◌then◌else◌,
  length,
}
use mathlib.Core.Option.{some-ne-none}
use zephyr_nano_drone.Msgq.{Msgq}
use zephyr_nano_drone.Crtp.{Packet, Crtp, send_packet}
use zephyr_nano_drone.AppChannel.{send_data_packet}

module _ {Q L W : Type 0} (ops : Msgq Q Packet) where
  -- Sending data fails an assertion exactly from 31 bytes on: the packet is cut to the channel's
  -- limit of 31, which is one more than a packet holds.
  pub send_data_packet-none :
      (static : Packet) (bs : List ℕ) (c : Crtp Q L W)
      → (send_data_packet ops static bs c ≡ none) ↔ (31 ≤ length bs)
  unfolding send_data_packet send_packet
  send_data_packet-none static bs c = elim (Bool-cases (leb 31 (length bs))) [
    | inl long ↦
        let cut : (if ltb 31 (length bs) then 31 else length bs) ≡ 31 = ground (arith, long) in
        rw cut ((λ e. ground (arith, long)), (λ l. refl))
    | inr short ↦
        let whole : (if ltb 31 (length bs) then 31 else length bs) ≡ length bs =
          ground (arith, short) in
        let fits : leb (length bs) 30 ≡ true = ground (arith, short) in
        rw (whole, fits) ((λ e. absurd (some-ne-none _ e)), (λ l. absurd (ground (arith, short))))
  ]
