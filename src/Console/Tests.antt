-- ===== src/Console/Tests.antt =====
-- The theorems of the console on a stack whose queues are lists.
use zephyr_nano_drone.Prelude.{
  Ends, ℕ, ◌≡◌, refl, true, false, none, List, [], ◌∷◌, arith, replicate,
}
use zephyr_nano_drone.Msgq.Lists.{list_msgq, list_msgq-Fifo}
use zephyr_nano_drone.Crtp.{Packet, Crtp}
use zephyr_nano_drone.Console.{State, console_init, add_char, putchar, puts, flush}
use zephyr_nano_drone.Console.Blocked.{all_from_isr, console_init-blocks}
use zephyr_nano_drone.Console.Bounds.{InBounds}
use zephyr_nano_drone.Console.Stream.{Streamed, stream-add_char}

abbrev stack : Crtp (List Packet) Unit Unit
stack = record {
  tx_queue = [];
  queues = λ i. [];
  callbacks = [];
  link = none;
  stats = record {
    rx_count = 0;
    tx_count = 0;
    rx_rate = 0;
    tx_rate = 0;
    next_statistics_time = 0;
    previous_statistics_time = 0;
  };
}

abbrev quiet : State (List Packet) Unit Unit
quiet = (
  record {
    message_to_print = record { size = 0; channel = 0; port = 0; payload = replicate 30 0 };
    message_sending_is_pending = false;
    is_init = true;
    synch = 1;
  },
  stack,
)

quiet-InBounds : InBounds quiet.0.message_to_print
quiet-InBounds = record { whole = refl; counted = omega arith }

stream-add_char_example :
    Ends
      (Streamed (list_msgq 120) (λ q. q) (list_msgq-Fifo 120) quiet 1 (72 ∷ []))
      (add_char (list_msgq 120) 72 quiet)
stream-add_char_example =
    stream-add_char (list_msgq 120) (λ q. q) (list_msgq-Fifo 120) 72 quiet.0 quiet.1
      (record { in_bounds = quiet-InBounds; init = refl; not_pending = refl; room = omega arith })
      (omega arith)

-- The console before consoleInit.
abbrev unset : State (List Packet) Unit Unit
unset = (record quiet.0 { is_init = false }, stack)

console_init-blocks_example :
    let start : State (List Packet) Unit Unit = (console_init unset.0, unset.1) in
    let t' = all_from_isr (list_msgq 120) (72 ∷ 105 ∷ []) start in
    (t' ≡ start)
    × ((ch : ℕ) → putchar (list_msgq 120) ch t' ≡ none)
    × ((ch : ℕ) (str : List ℕ) → puts (list_msgq 120) (ch ∷ str) t' ≡ none)
    × (flush (list_msgq 120) t' ≡ none)
console_init-blocks_example = console_init-blocks (list_msgq 120) unset (72 ∷ 105 ∷ []) refl
