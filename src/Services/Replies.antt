-- ===== src/Services/Replies.antt =====
-- The replies of src/platformservice.c with a text: as much of it as a packet holds.
use zephyr_nano_drone.Prelude.{
  ℕ, zero, suc, ◌≤◌, ◌≡◌, ◌⊎◌, inl, inr, refl, ◌∙◌, ap, Bool-cases, some, List, [], ◌∷◌, ◌++◌,
  arith, ltb, length, take, get_or, replicate,
}
use zephyr_nano_drone.Msgq.{Msgq}
use zephyr_nano_drone.Crtp.{Packet}
use zephyr_nano_drone.AppChannel.{Channel}
use zephyr_nano_drone.Services.{Version, text_reply, version_command_process, platform_round}

take_padded :
    (n k : ℕ) (xs ys : List ℕ) → n ≤ k → n ≤ length xs → take n (take k (xs ++ ys)) ≡ take n xs
take_padded zero k xs ys l m = refl
take_padded (suc n) zero xs ys l m = absurd (omega arith)
take_padded (suc n) (suc k) [] ys l m = absurd (omega arith)
take_padded (suc n) (suc k) (x ∷ xs) ys l m =
    ap (λ z. x ∷ z) (take_padded n k xs ys (omega arith) (omega arith))

take_short : (n : ℕ) (xs : List ℕ) → length xs ≤ n → take (length xs) xs ≡ take n xs
take_short zero [] l = refl
take_short (suc n) [] l = refl
take_short zero (x ∷ xs) l = absurd (omega arith)
take_short (suc n) (x ∷ xs) l = ap (λ z. x ∷ z) (take_short n xs (omega arith))

-- The bytes of the packet that count: the command, and the first 29 of the text.
abbrev pub Tells : List ℕ → Packet → Packet → Type 0
Tells text p r =
    (take r.size r.payload ≡ get_or p.payload 0 0 ∷ take 29 text)
    × (r.size ≤ 30)
    × (r.port ≡ p.port)
    × (r.channel ≡ p.channel)

text_reply-Tells : (text : List ℕ) (p : Packet) → Tells text p (text_reply text p)
text_reply-Tells text p = elim (Bool-cases (ltb 29 (length text))) [
  | inl long ↦
      let m : 29 ≤ length text = ground (arith, long) in
      rw long (
        ap (λ z. get_or p.payload 0 0 ∷ z)
            (take_padded 29 29 text (replicate 29 0) (omega arith) m),
        omega arith,
        refl,
        refl,
      )
  | inr short ↦
      let m : length text ≤ 29 = ground (arith, short) in
      rw short (
        ap (λ z. get_or p.payload 0 0 ∷ z)
            (take_padded (length text) 29 text (replicate 29 0) m (omega arith)
              ∙ take_short 29 text m),
        omega (arith, m),
        refl,
        refl,
      )
]

module _ {Q : Type 0} (ops : Msgq Q Packet) (version : Version) (p : Packet) (c : Channel Q) where
  -- The requests of the firmware's version and of the type of the device: the reply, on the same port
  -- and channel, has at most 30 bytes, which are the command and the text, cut at 29 characters.
  pub platform_round-Tells :
      (text : List ℕ)
      → p.channel ≡ 1
      → ((get_or p.payload 0 0 ≡ 1) × (text ≡ version.firmware_version))
        ⊎ ((get_or p.payload 0 0 ≡ 2) × (text ≡ version.device_type_name))
      → (r : Packet) × (platform_round ops version p c ≡ (some r, c)) × Tells text p r
  unfolding platform_round version_command_process
  platform_round-Tells text on (inl (e, f)) =
      (text_reply text p, simp (on, e, f) refl, text_reply-Tells text p)
  platform_round-Tells text on (inr (e, f)) =
      (text_reply text p, simp (on, e, f) refl, text_reply-Tells text p)
