-- ===== src/AppChannel/Queue.antt =====
-- The receive queue of src/app_channel.c and its overflow flag.
use zephyr_nano_drone.Prelude.{
  ℕ, zero, suc, ◌+◌, ◌≤◌, ◌<◌, ◌≡◌, refl, sym, ◌∙◌, ap, Bool-cases, inl, inr, Bool, true, false,
  List, [], ◌∷◌, ◌++◌, append_assoc, append-nil, arith, ltb, length, length-append, take, ◌||◌,
}
use zephyr_nano_drone.Msgq.{Msgq, Fifo}
use zephyr_nano_drone.Crtp.{Packet}
use zephyr_nano_drone.AppChannel.{Channel, incoming_packet, incoming_all, has_overflow_occured}

take_all : (n : ℕ) (xs : List Packet) → length xs ≤ n → take n xs ≡ xs
take_all n [] h = elim n as (λ k. take {A = Packet} k [] ≡ []) [ zero ↦ refl | suc k ↦ refl ]
take_all zero (x ∷ xs) h = absurd (omega arith)
take_all (suc n) (x ∷ xs) h = ap (λ r. x ∷ r) (take_all n xs (omega arith))

take_first : (n : ℕ) (xs ys : List Packet) → length xs ≡ n → take n (xs ++ ys) ≡ xs
take_first zero [] ys h = refl
take_first (suc n) [] ys h = absurd (omega (arith, h))
take_first zero (x ∷ xs) ys h = absurd (omega (arith, h))
take_first (suc n) (x ∷ xs) ys h = ap (λ r. x ∷ r) (take_first n xs ys (omega (arith, h)))

or_true : (b : Bool) → (b || true) ≡ true
or_true true = refl
or_true false = refl

or_false : (b : Bool) → (b || false) ≡ b
or_false true = refl
or_false false = refl

module _ {Q : Type 0} (ops : Msgq Q Packet) (contents : Q → List Packet)
    (fifo : Fifo ops contents 10) where
  incoming_room :
      (p : Packet) (c : Channel Q)
      → length (contents c.rx_queue) < 10
      → (contents (incoming_packet ops p c).rx_queue ≡ contents c.rx_queue ++ (p ∷ []))
        × ((incoming_packet ops p c).overflow ≡ c.overflow)
  unfolding incoming_packet
  incoming_room p c h = let (ok, q) = fifo.put_room c.rx_queue p h in rw ok (q, refl)

  incoming_full :
      (p : Packet) (c : Channel Q)
      → 10 ≤ length (contents c.rx_queue)
      → (contents (incoming_packet ops p c).rx_queue ≡ contents c.rx_queue)
        × ((incoming_packet ops p c).overflow ≡ true)
  unfolding incoming_packet
  incoming_full p c h = let (refused, q) = fifo.put_full c.rx_queue p h in rw refused (q, refl)

  -- Of packets that come in one after the other the queue keeps the first that fit in its ten
  -- places, in order, and the overflow flag is raised exactly if some did not fit; the flag is
  -- lowered when it is asked for.
  pub incoming_all-take :
      (ps : List Packet) (c : Channel Q)
      → length (contents c.rx_queue) ≤ 10
      → (contents (incoming_all ops ps c).rx_queue ≡ take 10 (contents c.rx_queue ++ ps))
        × ((has_overflow_occured ops (incoming_all ops ps c)).0
            ≡ (c.overflow || ltb 10 (length (contents c.rx_queue) + length ps)))
        × ((has_overflow_occured ops (incoming_all ops ps c)).1.overflow ≡ false)
  incoming_all-take [] c h =
      let within : ltb 10 (length (contents c.rx_queue) + 0) ≡ false = ground arith in
      (
        sym (
            take_all 10 (contents c.rx_queue ++ [])
              (omega (arith, length-append (contents c.rx_queue) []))
            ∙ append-nil (contents c.rx_queue)),
        sym (ap (λ b. c.overflow || b) within ∙ or_false c.overflow),
        refl,
      )
  incoming_all-take (p ∷ ps) c h =
      let cs = contents c.rx_queue in
      let next = incoming_packet ops p c in
      elim (Bool-cases (ltb (length cs) 10)) [
        | inl room ↦
            let (q, o) = incoming_room p c (ground (arith, room)) in
            let n : length (contents next.rx_queue) ≡ length cs + 1 =
              omega (arith, ap (λ z. length z) q, length-append cs (p ∷ [])) in
            let more : length (contents next.rx_queue) + length ps ≡ length cs + suc (length ps) =
              omega (arith, n) in
            let (kept, raised, lowered) = incoming_all-take ps next (ground (arith, n, room)) in
            (
              kept ∙ ap (take 10) (ap (λ z. z ++ ps) q ∙ append_assoc cs (p ∷ []) ps),
              raised
                  ∙ (ap (λ b. b || ltb 10 (length (contents next.rx_queue) + length ps)) o
                      ∙ ap (λ k. c.overflow || ltb 10 k) more),
              lowered,
            )
        | inr full ↦
            let ten : length cs ≡ 10 = ground (arith, full) in
            let (q, o) = incoming_full p c (omega (arith, ten)) in
            let (kept, raised, lowered) =
              incoming_all-take ps next (omega (arith, ap (λ z. length z) q, ten)) in
            let past : ltb 10 (length cs + suc (length ps)) ≡ true = ground (arith, ten) in
            let first : take 10 (contents next.rx_queue ++ ps) ≡ cs =
              ap (λ z. take 10 (z ++ ps)) q ∙ take_first 10 cs ps ten in
            (
              kept ∙ (first ∙ sym (take_first 10 cs (p ∷ ps) ten)),
              raised
                  ∙ (ap (λ b. b || ltb 10 (length (contents next.rx_queue) + length ps)) o
                      ∙ sym (ap (λ b. c.overflow || b) past ∙ or_true c.overflow)),
              lowered,
            )
      ]
