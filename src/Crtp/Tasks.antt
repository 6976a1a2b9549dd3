-- ===== src/Crtp/Tasks.antt =====
-- The transmit and receive tasks of src/crtp.c, and the registration of callbacks.
use zephyr_nano_drone.Prelude.{
  ℕ, zero, suc, ◌<◌, ◌≡◌, ◌≢◌, ◌⊎◌, ◌↔◌, Bool, refl, sym, ◌∙◌, ap, true, false, Bool-cases, inl,
  inr, Option, none, some, List, [], ◌∷◌, ◌++◌, append_assoc, arith, ltb, ◌==◌, if◌then◌else◌,
  length, set, get_or,
}
use mathlib.Core.Option.{some-injective, none-ne-some, some-ne-none}
use zephyr_nano_drone.Msgq.{Msgq, Fifo}
use zephyr_nano_drone.Crtp.{
  Packet, Link, Crtp, send_until, tx_round, ℤ, pos, negsuc, register_port_cb,
}

-- A link that transmits: `sent` lists what it has accepted, and `busy` bounds the refusals to come.
pub record Transmits {L : Type 0} (k : Link L) (sent : L → List Packet) (busy : L → ℕ)
    : Type 0 where
  pub accepted :
      (p : Packet) (l : L)
      → (k.send_packet p l).0 ≡ true
      → sent (k.send_packet p l).1 ≡ sent l ++ (p ∷ [])
  pub refused :
      (p : Packet) (l : L)
      → (k.send_packet p l).0 ≡ false
      → (sent (k.send_packet p l).1 ≡ sent l) × (busy (k.send_packet p l).1 < busy l)

send_until_lem :
    {L : Type 0} (k : Link L) (sent : L → List Packet) (busy : L → ℕ) (t : Transmits k sent busy)
    (fuel : ℕ) (p : Packet) (l : L)
    → busy l < fuel
    → (l' : L) × (send_until fuel k p l ≡ some l') × (sent l' ≡ sent l ++ (p ∷ []))
unfolding send_until
send_until_lem k sent busy t zero p l h = absurd (omega arith)
send_until_lem k sent busy t (suc fuel) p l h = elim (Bool-cases (k.send_packet p l).0) [
  | inl e ↦ rw e ((k.send_packet p l).1, refl, t.accepted p l e)
  | inr e ↦
      let (same, less) = t.refused p l e in
      let (l', q, r) =
        send_until_lem k sent busy t fuel p (k.send_packet p l).1 (omega (arith, less)) in
      rw e (l', q, r ∙ ap (λ z. z ++ (p ∷ [])) same)
]

module _ {Q L W : Type 0} (ops : Msgq Q Packet) (contents : Q → List Packet)
    (fifo : Fifo ops contents 120) (rate : ℕ → ℕ → ℕ) where
  -- A round of crtpTxTask on a link that takes the packet within `fuel` tries takes the oldest packet
  -- out of the queue and sends it: the sequence of packets sent and queued stays as it was.
  pub tx_round_fifo :
      (k : Link L) (sent : L → List Packet) (busy : L → ℕ)
      → Transmits k sent busy
      → (fuel now : ℕ) (c : Crtp Q L W) (l : L) (p : Packet) (rest : List Packet) → c.link ≡ some k
      → contents c.tx_queue ≡ p ∷ rest
      → busy l < fuel
      → (c' : Crtp Q L W) × (l' : L) × (tx_round ops fuel rate now c l ≡ some (c', l'))
        × (contents c'.tx_queue ≡ rest)
        × (sent l' ++ contents c'.tx_queue ≡ sent l ++ contents c.tx_queue)
  unfolding tx_round
  tx_round_fifo k sent busy t fuel now c l p rest linked queued h =
      let (got, left) = fifo.get_first c.tx_queue p rest queued in
      let (l', q, r) = send_until_lem k sent busy t fuel p l h in
      let q' = (ops.get c.tx_queue).1 in
      let kept : sent l' ++ contents q' ≡ sent l ++ contents c.tx_queue =
        ap (λ z. z ++ contents q') r
        ∙ (append_assoc (sent l) (p ∷ []) (contents q')
            ∙ ap (λ z. sent l ++ z) (ap (λ z. p ∷ z) left ∙ sym queued)) in
      rw (tx_round, linked, got, q) (_, l', refl, left, kept)

-- What a port's callback does to what callbacks act on.
abbrev pub run_callback : {W : Type 0} → Option (Packet → W → W) → Packet → W → W
run_callback none p w = w
run_callback (some cb) p w = cb p w

module _ {Q L W : Type 0} (ops : Msgq Q Packet) (contents : Q → List Packet)
    (fifo : Fifo ops contents 16) (rate : ℕ → ℕ → ℕ)
    (wait : ℕ → Crtp Q L W → W → Crtp Q L W × W) where
  -- The round of a packet with room in its port's queue: it reaches the callback alone.
  pub record Unqueued (p : Packet) (c : Crtp Q L W) (w : W) (c' : Crtp Q L W) (w' : W)
      : Type 0 where
    pub room : length (contents (c.queues p.port)) ≢ 16
    pub kept : (port : ℕ) → c'.queues port ≡ c.queues port
    pub transmit : c'.tx_queue ≡ c.tx_queue
    pub callback : w' ≡ run_callback (get_or c.callbacks p.port none) p w

  -- The round of a packet whose port's queue is full: once it has room, the packet is put there,
  -- behind all others, and reaches the callback.
  pub record Queued (p : Packet) (c : Crtp Q L W) (w : W) (c' : Crtp Q L W) (w' : W) : Type 0 where
    pub full : length (contents (c.queues p.port)) ≡ 16
    pub put : contents (c'.queues p.port) ≡ contents ((wait p.port c w).0.queues p.port) ++ (p ∷ [])
    pub kept : (port : ℕ) → port ≢ p.port → c'.queues port ≡ (wait p.port c w).0.queues port
    pub transmit : c'.tx_queue ≡ (wait p.port c w).0.tx_queue
    pub callback :
        w' ≡ run_callback (get_or (wait p.port c w).0.callbacks p.port none) p (wait p.port c w).1

  abbrev pub Received : Packet → Crtp Q L W → W → Crtp Q L W → W → Type 0
  Received p c w c' w' = Unqueued p c w c' w' ⊎ Queued p c w c' w'

get_or-set {ℓ} :
    {A : Type ℓ} (xs : List A) (i j : ℕ) (v d : A)
    → i < length xs
    → get_or (set xs i v) j d ≡ (if j == i then v else get_or xs j d)
get_or-set [] i j v d h = absurd (omega arith)
get_or-set (x ∷ xs) zero zero v d h = refl
get_or-set (x ∷ xs) zero (suc j) v d h = ground arith
get_or-set (x ∷ xs) (suc i) zero v d h = ground arith
get_or-set (x ∷ xs) (suc i) (suc j) v d h =
    let e : (suc j == suc i) ≡ (j == i) = ground arith in rw e (get_or-set xs i j v d (omega arith))

-- The ports whose callback lies outside of the array, and that pass the check.
abbrev pub Outside : ℤ → Type 0
Outside (pos i) = i ≡ 16
Outside (negsuc n) = Unit

-- Whether an int is the port `p`.
abbrev pub names : ℤ → ℕ → Bool
names (pos i) p = p == i
names (negsuc n) p = false

module _ {Q L W : Type 0} (ops : Msgq Q Packet) where
  -- With the 16 callbacks of the source: registering writes outside of the array exactly for port
  -- 16 and for a negative port; otherwise it goes through, and sets the callback of that port, if
  -- there is such a port, alone.
  pub register_port_cb-callbacks :
      (port : ℤ) (cb : Option (Packet → W → W)) (c : Crtp Q L W)
      → length c.callbacks ≡ 16
      → ((register_port_cb ops port cb c ≡ none) ↔ Outside port)
        × ((c' : Crtp Q L W)
            → register_port_cb ops port cb c ≡ some c'
            → (p : ℕ) → p < 16
            → get_or c'.callbacks p none ≡ (if names port p then cb else get_or c.callbacks p none))
  unfolding register_port_cb
  register_port_cb-callbacks (negsuc n) cb c h =
      ((λ e. tt, λ e. refl), λ c' e. absurd (none-ne-some _ e))
  register_port_cb-callbacks (pos port) cb c h = elim (Bool-cases (ltb 16 port)) [
    | inl above ↦ rw above (
      (λ e. absurd (some-ne-none _ e), λ e. absurd (ground arith)),
      λ c' e p l.
          let off : (p == port) ≡ false = ground arith in
          rw off (ap (λ z. get_or z.callbacks p none) (sym (some-injective _ _ e))),
    )
    | inr below ↦ elim (Bool-cases (ltb port 16)) [
      | inl inside ↦
          rw (below, inside)
            (
              (λ e. absurd (some-ne-none _ e), λ e. absurd (ground arith)),
              λ c' e p l.
                  ap (λ z. get_or z.callbacks p none) (sym (some-injective _ _ e))
                  ∙ get_or-set c.callbacks port p cb none (ground arith),
            )
      | inr last ↦
          rw (below, last) ((λ e. ground arith, λ e. refl), λ c' e. absurd (none-ne-some _ e))
    ]
  ]
