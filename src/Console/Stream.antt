-- ===== src/Console/Stream.antt =====
-- What src/console.c sends, as a stream of characters.
use zephyr_nano_drone.Prelude.{
  Ends, Ends-bind, ℕ, zero, suc, ◌+◌, ◌≤◌, ◌<◌, ◌≡◌, refl, sym, ◌∙◌, ap, true, false, Bool-cases,
  inl, inr, List, [], ◌∷◌, ◌++◌, append_assoc, append-nil, arith, leb, ltb, ◌==◌, length,
  length-append, take, set, u8, ◌||◌,
}
use zephyr_nano_drone.Msgq.{Msgq, Fifo}
use zephyr_nano_drone.Crtp.{Packet, Crtp, send_packet, get_free_tx_queue_packets}
use zephyr_nano_drone.Console.{Console, State, newline, append_char, console_send_message, add_char}
use zephyr_nano_drone.Console.Bounds.{InBounds, append_char-InBounds}

-- The characters of a packet, and of a sequence of packets.
abbrev pub text : Packet → List ℕ
text p = take p.size p.payload

abbrev pub texts : List Packet → List ℕ
texts [] = []
texts (p ∷ ps) = text p ++ texts ps

texts-++ : (ps qs : List Packet) → texts (ps ++ qs) ≡ texts ps ++ texts qs
texts-++ [] qs = refl
texts-++ (p ∷ ps) qs = rw (texts-++ ps qs) (sym (append_assoc (text p) (texts ps) (texts qs)))

take-set :
    (n : ℕ) (xs : List ℕ) (v : ℕ)
    → n < length xs
    → take (suc n) (set xs n v) ≡ take n xs ++ (v ∷ [])
take-set n [] v h = absurd (omega arith)
take-set zero (x ∷ xs) v h = refl
take-set (suc n) (x ∷ xs) v h = ap (λ r. x ∷ r) (take-set n xs v (omega arith))

append_char-text :
    (ch : ℕ) (p : Packet) → InBounds p → p.size < 30 → text (append_char ch p) ≡ text p ++ (ch ∷ [])
unfolding append_char
append_char-text ch p o h =
    let room : ltb p.size 30 ≡ true = ground arith in
    let e : p.size + 1 ≡ suc p.size = omega arith in
    rw (room, e) (take-set p.size p.payload ch (omega (arith, o.whole)))

module _ {Q L W : Type 0} (ops : Msgq Q Packet) (contents : Q → List Packet)
    (fifo : Fifo ops contents 120) where
  abbrev pub used : State Q L W → ℕ
  used t = length (contents t.1.tx_queue)

  -- What is in the transmit queue, then what is in the buffer.
  abbrev pub stream : State Q L W → List ℕ
  stream t = texts (contents t.1.tx_queue) ++ text t.0.message_to_print

  -- The console is initialised, waits for no message, and has room for a character.
  pub record Idle (t : State Q L W) : Type 0 where
    pub in_bounds : InBounds t.0.message_to_print
    pub init : t.0.is_init ≡ true
    pub not_pending : t.0.message_sending_is_pending ≡ false
    pub room : t.0.message_to_print.size < 30

  -- One step of a stream: the console is idle again, and `str` has gone into the stream.
  pub record Streamed (t : State Q L W) (n : ℕ) (str : List ℕ) (t' : State Q L W) : Type 0 where
    pub idle : Idle t'
    pub at_most : used t' ≤ used t + n
    pub streamed : stream t' ≡ stream t ++ str

  stream-console_send_message :
      (s : Console) (c : Crtp Q L W)
      → InBounds s.message_to_print
      → s.is_init ≡ true
      → length (contents c.tx_queue) < 120
      → Ends (λ r. Streamed (s, c) 1 [] r.1) (console_send_message ops (s, c))
  unfolding console_send_message send_packet
  stream-console_send_message s c o i h =
      let fits : leb s.message_to_print.size 30 ≡ true = ground (arith, o.counted) in
      let (ok, q) = fifo.put_room c.tx_queue s.message_to_print h in
      rw (fits, ok)
        (record {
          idle = record {
            in_bounds = record { whole = o.whole; counted = omega arith };
            init = i;
            not_pending = refl;
            room = omega arith;
          };
          at_most = omega (
            arith,
            ap (λ z. length z) q,
            length-append (contents c.tx_queue) (s.message_to_print ∷ []),
          );
          streamed =
              ap (λ z. texts z ++ []) q
              ∙ ap (λ z. z ++ [])
                  (texts-++ (contents c.tx_queue) (s.message_to_print ∷ [])
                    ∙ ap (λ z. texts (contents c.tx_queue) ++ z)
                        (append-nil (text s.message_to_print)));
        })

  -- What consolePutchar does with a character under its semaphore, on a console that waits for no
  -- message and has room, with a place in the transmit queue and one to spare: it goes through, the
  -- characters queued and buffered have grown by it, at the end, and the console has room again.
  pub stream-add_char :
      (ch : ℕ) (s : Console) (c : Crtp Q L W)
      → Idle (s, c)
      → length (contents c.tx_queue) < 119
      → Ends (Streamed (s, c) 1 (u8 ch ∷ [])) (add_char ops ch (s, c))
  unfolding add_char
  stream-add_char ch s c i h =
      let p = append_char (u8 ch) s.message_to_print in
      let o = append_char-InBounds (u8 ch) s.message_to_print i.in_bounds in
      let grown = append_char-text (u8 ch) s.message_to_print i.in_bounds i.room in
      let unmarked : (get_free_tx_queue_packets ops c == 1) ≡ false =
        ground (arith, fifo.used c.tx_queue) in
      let full = record s { message_to_print = p; message_sending_is_pending = true } in
      let more : stream (s, record c { tx_queue = c.tx_queue }) ++ (u8 ch ∷ [])
          ≡ texts (contents c.tx_queue) ++ text p =
        append_assoc (texts (contents c.tx_queue)) (text s.message_to_print) (u8 ch ∷ [])
        ∙ ap (λ z. texts (contents c.tx_queue) ++ z) (sym grown) in
      elim (Bool-cases ((ch == newline) || leb 30 p.size)) [
        | inl e ↦
            rw (e, unmarked)
              (Ends-bind (λ r. Streamed (full, c) 1 [] r.1) (Streamed (s, c) 1 (u8 ch ∷ []))
                (console_send_message ops (full, c)) _
                (stream-console_send_message full c o i.init (omega arith))
                (λ r z. record {
                  idle = z.idle;
                  at_most = z.at_most;
                  streamed = z.streamed ∙ (append-nil (stream (full, c)) ∙ sym more);
                }))
        | inr e ↦ rw e (record {
          idle = record {
            in_bounds = o;
            init = i.init;
            not_pending = i.not_pending;
            room = ground (arith, e);
          };
          at_most = omega arith;
          streamed = sym more;
        })
      ]
