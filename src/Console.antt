-- ===== src/Console.antt =====
-- src/console.c: text collected in a packet, which is sent when a line ends or it is full. The
-- semaphore that guards it is a count of at most 1; what stands between its taking and its giving is
-- one step.
pub mod Blocked
pub mod Bounds
pub mod Stream
mod Tests
use zephyr_nano_drone.Prelude.{
  ℕ, zero, suc, ◌+◌, ◌-◌, Bool, true, false, Option, none, some, List, [], ◌∷◌, ◌++◌, leb, ltb,
  ◌==◌, if◌then◌else◌, ◌>>=◌, set, get_or, take, drop, replicate, not, ◌||◌, ◌&&◌, u8,
}
use zephyr_nano_drone.Msgq.{Msgq}
use zephyr_nano_drone.Crtp.{
  Packet, Crtp, send_packet, get_free_tx_queue_packets, max_data_size, set_header,
}

pub record Console : Type 0 where
  pub message_to_print : Packet
  pub message_sending_is_pending : Bool
  pub is_init : Bool
  pub synch : ℕ

abbrev pub newline : ℕ
newline = 10

-- "<F>\n" and its terminator, which `sizeof` counts.
abbrev pub buffer_full_msg : List ℕ
buffer_full_msg = 60 ∷ 70 ∷ 62 ∷ 10 ∷ 0 ∷ []

unfoldable pub console_init : Console → Console
console_init s = if s.is_init then s else record {
  message_to_print = set_header 0 0 (record s.message_to_print { size = 0 });
  message_sending_is_pending = false;
  is_init = true;
  synch = 0;
}

-- `k_sem_take(&synch, K_FOREVER)`: none where it waits, as a count of 0 makes it.
abbrev pub take_forever : Console → Option Console
take_forever s = if ltb 0 s.synch then some (record s { synch = s.synch - 1 }) else none

-- `k_sem_give(&synch)`, up to the limit of 1.
abbrev pub give : Console → Console
give s = record s { synch = if ltb s.synch 1 then s.synch + 1 else s.synch }

-- `message.data[message.size] = ch; message.size++`, where there is room.
unfoldable pub append_char : ℕ → Packet → Packet
append_char ch p =
    if ltb p.size max_data_size
    then record p { payload = set p.payload p.size ch; size = p.size + 1 }
    else p

unfoldable pub find_marker_start : Packet → ℕ
find_marker_start p =
    if ltb 0 p.size && (get_or p.payload (p.size - 1) 0 == newline) then p.size - 1 else p.size

-- memcpy into the array from `i` on.
unfoldable pub copy_at : List ℕ → ℕ → List ℕ → List ℕ
copy_at bytes i [] = bytes
copy_at bytes i (b ∷ bs) = copy_at (set bytes i b) (i + 1) bs

unfoldable pub add_buffer_full_marker : Packet → Packet
unfolding find_marker_start copy_at
add_buffer_full_marker p =
    let wanted = find_marker_start p + 5 in
    let end_marker = if leb max_data_size wanted then max_data_size else wanted in
    let start_marker = end_marker - 5 in
    record p { payload = copy_at p.payload start_marker buffer_full_msg; size = start_marker + 5 }

-- The console with the protocol stack it sends through.
abbrev pub State : Type 0 → Type 0 → Type 0 → Type 0
State Q L W = Console × Crtp Q L W

module _ {Q L W : Type 0} (ops : Msgq Q Packet) where
  unfoldable pub console_send_message : State Q L W → Option (Bool × State Q L W)
  console_send_message (s, c) = do
    (done, c') ← send_packet ops s.message_to_print c
    let cleared = record s {
      message_to_print = record s.message_to_print { size = 0 };
      message_sending_is_pending = false;
    }
    some (if done then (true, (cleared, c')) else (false, (s, c')))

  -- What consolePutchar does with a character when no message is pending.
  unfoldable pub add_char : ℕ → State Q L W → Option (State Q L W)
  unfolding console_send_message
  add_char ch (s, c) =
      let p = append_char (u8 ch) s.message_to_print in
      let marked = if get_free_tx_queue_packets ops c == 1 then add_buffer_full_marker p else p in
      let sent =
        console_send_message
          (record s { message_to_print = marked; message_sending_is_pending = true }, c) in
      if (ch == newline) || leb max_data_size p.size
      then (do (done, t) ← sent; some t)
      else some (record s { message_to_print = p }, c)

  unfoldable pub retry_pending : State Q L W → Option (State Q L W)
  unfolding console_send_message
  retry_pending (s, c) =
      let sent = console_send_message (s, c) in
      if s.message_sending_is_pending then (do (done, t) ← sent; some t) else some (s, c)

  -- consolePutchar outside an interrupt: none where it does not return, be it that it waits for the
  -- semaphore or that an assertion fails.
  unfoldable pub putchar : ℕ → State Q L W → Option (ℕ × State Q L W)
  unfolding retry_pending
  putchar ch (s, c) =
      let tried = (do
        taken ← take_forever s
        t ← retry_pending (taken, c)
        (s', c') ← if t.0.message_sending_is_pending then some t else add_char ch t
        some (u8 ch, (give s', c'))) in
      if s.is_init then tried else some (0, (s, c))

  -- consolePutcharFromISR, which does not wait for the semaphore.
  unfoldable pub putchar_from_isr : ℕ → State Q L W → ℕ × State Q L W
  putchar_from_isr ch (s, c) =
      let put = (λ (taken : Console).
        give (record taken { message_to_print = append_char (u8 ch) taken.message_to_print })) in
      (
        ch,
        elim (take_forever s) as (λ _. State Q L W) [ none ↦ (s, c) | some taken ↦ (put taken, c) ],
      )

  -- consolePuts: the text of the string, without its terminator; the result is left out, the bitwise
  -- or of what the calls returned.
  unfoldable pub puts : List ℕ → State Q L W → Option (State Q L W)
  puts [] t = some t
  puts (ch ∷ str) t = do (r, t') ← putchar ch t; puts str t'

  unfoldable pub flush : State Q L W → Option (State Q L W)
  flush (s, c) = do
    taken ← take_forever s
    (done, (s', c')) ← console_send_message (taken, c)
    some (give s', c')
