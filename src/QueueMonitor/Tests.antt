-- ===== src/QueueMonitor/Tests.antt =====
-- The theorems of the queue monitor on one that is initialised and has no queue.
use zephyr_nano_drone.Prelude.{refl, true, [], ◌∷◌, ◌>>=◌, arith, Ends}
use zephyr_nano_drone.QueueMonitor.{Monitor, register_queue}
use zephyr_nano_drone.QueueMonitor.Counts.{Counted, trace_all, register_queue-Counted}

abbrev empty : Monitor
empty = record {
  queues = λ i. record {
    file_name = [];
    queue_name = [];
    send_count = 0;
    max_waiting = 0;
    full_count = 0;
  };
  queue_numbers = [];
  nr_of_queues = 1;
  initialized = true;
}

register_queue-Counted_example :
    Ends
      (Counted 1 (0 ∷ 4 ∷ 2 ∷ []) empty)
      (register_queue 500 (99 ∷ []) (113 ∷ []) empty >>= trace_all 500 (0 ∷ 4 ∷ 2 ∷ []))
register_queue-Counted_example =
    register_queue-Counted 500 (99 ∷ []) (113 ∷ []) (0 ∷ 4 ∷ 2 ∷ []) empty refl (omega arith)
      (omega arith) refl (omega arith) (omega arith, (omega arith, (omega arith, tt)))
