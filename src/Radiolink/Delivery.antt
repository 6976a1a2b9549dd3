-- ===== src/Radiolink/Delivery.antt =====
-- What one radiolink sends, as src/radiolink.c of another delivers it.
use zephyr_nano_drone.Prelude.{
  ℕ, zero, suc, ◌+◌, ◌%◌, ◌≤◌, ◌<◌, ◌≡◌, refl, ◌∙◌, ap, true, some, List, [], ◌∷◌, ◌++◌, arith, leb,
  length, take, drop,
}
use zephyr_nano_drone.Msgq.{Msgq, Fifo}
use zephyr_nano_drone.Radiolink.{
  SyslinkPacket, RawPacket, Radiolink, delivered, send_crtp_packet, dispatch_raw, syslink_dispatch,
  radiolink_is_connected,
}

take_first :
    (n k : ℕ) (xs ys : List ℕ)
    → n ≤ k
    → n ≤ length xs
    → take n (take k (take n xs ++ ys)) ≡ take n xs
take_first zero k xs ys l m = refl
take_first (suc n) zero xs ys l m = absurd (omega arith)
take_first (suc n) (suc k) [] ys l m = absurd (omega arith)
take_first (suc n) (suc k) (x ∷ xs) ys l m =
    ap (λ z. x ∷ z) (take_first n k xs ys (omega arith) (omega arith))

unwrapped : (n : ℕ) → n ≤ 30 → (n + 1 + 255) % 256 ≡ n
unwrapped n l = ground (arith, l)

module _ {Q D W : Type 0} (tx : Msgq Q SyslinkPacket) (deliveries : Msgq D RawPacket)
    (queued : Q → List SyslinkPacket) (sending : Fifo tx queued 1) (contents : D → List RawPacket)
    (fifo : Fifo deliveries contents 5) (ticks : ℕ → ℕ) where
  -- A packet of the radio protocol that a link with an empty transmit queue is given to send: the
  -- call tells success, and that queue then holds one packet, which a reader takes. When another link
  -- with room in its queue dispatches that packet, it stands there last, with its size, header and
  -- data, and one packet is taken off that link's transmit queue.
  pub send_crtp_packet-syslink_dispatch :
      (static : SyslinkPacket) (p : RawPacket) (sender receiver : Radiolink Q D W) (tick now : ℕ)
      (w : W)
      → p.size ≤ 30
      → p.size + 1 ≤ length p.raw
      → queued sender.tx_queue ≡ []
      → length (contents receiver.delivery) < 5
      → (slp : SyslinkPacket) × (sender' : Radiolink Q D W) × (receiver' : Radiolink Q D W)
        × (got : RawPacket) × (send_crtp_packet tx deliveries ticks static p sender
            ≡ some (true, slp, sender'))
        × (sender' ≡ record sender { tx_queue = sender'.tx_queue })
        × (queued sender'.tx_queue ≡ slp ∷ [])
        × ((tx.get sender'.tx_queue).0 ≡ some slp)
        × (syslink_dispatch tx deliveries ticks tick now slp receiver w ≡ some (receiver', w))
        × (contents receiver'.delivery ≡ contents receiver.delivery ++ (got ∷ []))
        × (got.size ≡ p.size)
        × (take (p.size + 1) got.raw ≡ take (p.size + 1) p.raw)
        × (receiver'.tx_queue ≡ (tx.get receiver.tx_queue).1)
  unfolding send_crtp_packet syslink_dispatch dispatch_raw
  send_crtp_packet-syslink_dispatch static p sender receiver tick now w small whole idle room =
      let e : leb p.size 30 ≡ true = ground (arith, small) in
      let slp : SyslinkPacket = record {
        kind = 0;
        size = p.size + 1;
        content = take (p.size + 1) p.raw ++ drop (p.size + 1) static.content;
      } in
      let (sent, waiting) =
        sending.put_room sender.tx_queue slp (omega (arith, ap (λ z. length z) idle)) in
      let alone : queued (tx.put sender.tx_queue slp).1 ≡ slp ∷ [] =
        waiting ∙ ap (λ z. z ++ (slp ∷ [])) idle in
      let (done, stored) = fifo.put_room receiver.delivery (delivered slp) room in
      let told : Radiolink Q D W = record receiver {
        last_packet_tick = tick;
        delivery = (deliveries.put receiver.delivery (delivered slp)).1;
        tx_queue = (tx.get receiver.tx_queue).1;
      } in
      let receiver' : Radiolink Q D W = record told {
        is_connected = radiolink_is_connected tx deliveries ticks now told;
      } in
      (
        slp,
        record sender { tx_queue = (tx.put sender.tx_queue slp).1 },
        receiver',
        delivered slp,
        rw (e, sent) refl,
        refl,
        alone,
        (sending.get_first (tx.put sender.tx_queue slp).1 slp [] alone).0,
        rw done refl,
        stored,
        unwrapped p.size small,
        take_first (p.size + 1) 31 p.raw (drop (p.size + 1) static.content) (omega (arith, small))
            whole,
        refl,
      )
