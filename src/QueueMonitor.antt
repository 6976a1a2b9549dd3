-- ===== src/QueueMonitor.antt =====
-- src/queuemonitor.c: counts of what is sent to the registered queues. A queue is its address.
pub mod Counts
mod Tests
use zephyr_nano_drone.Prelude.{
  ℕ, zero, suc, ◌+◌, ◌%◌, Bool, true, false, not, Option, none, some, List, [], ◌∷◌, ◌++◌, ltb,
  ◌==◌, if◌then◌else◌, ◌>>=◌, length, u32, map,
}

abbrev pub max_nr_of_queues : ℕ
max_nr_of_queues = 20

-- Data
pub record QueueData : Type 0 where
  pub file_name : List ℕ
  pub queue_name : List ℕ
  pub send_count : ℕ
  pub max_waiting : ℕ
  pub full_count : ℕ

-- QueueNumberEntry
pub record QueueNumberEntry : Type 0 where
  pub queue : ℕ
  pub queue_number : ℕ

-- The module's variables; `queue_numbers` holds the first `num_queues` entries of its array.
pub record Monitor : Type 0 where
  pub queues : ℕ → QueueData
  pub queue_numbers : List QueueNumberEntry
  pub nr_of_queues : ℕ
  pub initialized : Bool

abbrev pub set_queue_data : (ℕ → QueueData) → ℕ → QueueData → ℕ → QueueData
set_queue_data ds i d j = if j == i then d else ds j

-- vQueueSetQueueNumber
unfoldable pub set_queue_number : ℕ → ℕ → Monitor → Monitor
set_queue_number queue number m =
    if ltb (length m.queue_numbers) max_nr_of_queues
    then record m {
      queue_numbers = m.queue_numbers ++ (record { queue = queue; queue_number = number } ∷ []);
    }
    else m

-- uxQueueGetQueueNumber; none is the result -1.
abbrev pub get_queue_number : List QueueNumberEntry → ℕ → Option ℕ
get_queue_number [] queue = none
get_queue_number (e ∷ es) queue =
    let rest = get_queue_number es queue in if e.queue == queue then some e.queue_number else rest

-- getQueueData: the index, with -1 as an unsigned char; none where the assertion fails.
unfoldable pub get_queue_data : ℕ → Monitor → Option ℕ
get_queue_data queue m =
    let number = elim (get_queue_number m.queue_numbers queue) as (λ _. ℕ) [
      | none ↦ 255
      | some n ↦ n % 256
    ] in
    if ltb number max_nr_of_queues then some number else none

-- The largest int; a counter that would pass it overflows, which C leaves undefined.
abbrev pub int_max : ℕ
int_max = 2147483647

-- `count++` on an int: none where it overflows.
abbrev pub increment : ℕ → Option ℕ
increment count = if ltb count int_max then some (count + 1) else none

-- getMaxWaiting, on a queue with `used` messages: the sum is one of 32 bits. A result above the
-- largest int, which takes a queue of 2^31 messages, is not made negative here.
abbrev pub get_max_waiting : ℕ → ℕ → ℕ
get_max_waiting used previous = if ltb previous (u32 (used + 1)) then u32 (used + 1) else previous

-- queueMonitorInit, where the assertion fails if it has run before; the timer is left out.
unfoldable pub queue_monitor_init : List ℕ → Monitor → Option Monitor
queue_monitor_init na m =
    let first = record (m.queues 0) { file_name = na; queue_name = na } in
    if m.initialized
    then none
    else some (record m { queues = set_queue_data m.queues 0 first; initialized = true })

-- qm_traceQUEUE_SEND, on a queue with `used` messages: none where the assertion fails or the
-- counter overflows.
unfoldable pub trace_queue_send : ℕ → ℕ → Monitor → Option Monitor
unfolding get_queue_data
trace_queue_send queue used m =
    let counted = (do
      i ← get_queue_data queue m
      let d = m.queues i
      sends ← increment d.send_count
      some (record m {
        queues =
            set_queue_data m.queues i
              (record d { send_count = sends; max_waiting = get_max_waiting used d.max_waiting });
      })) in
    if m.initialized then counted else some m

-- qm_traceQUEUE_SEND_FAILED, with none as above.
unfoldable pub trace_queue_send_failed : ℕ → Monitor → Option Monitor
unfolding get_queue_data
trace_queue_send_failed queue m =
    let counted = (do
      i ← get_queue_data queue m
      let d = m.queues i
      fulls ← increment d.full_count
      some (record m { queues = set_queue_data m.queues i (record d { full_count = fulls }) })) in
    if m.initialized then counted else some m

-- qmRegisterQueue: none where an assertion fails.
unfoldable pub register_queue : ℕ → List ℕ → List ℕ → Monitor → Option Monitor
unfolding set_queue_number
register_queue queue file_name queue_name m =
    let i = m.nr_of_queues in
    let named = record (m.queues i) { file_name = file_name; queue_name = queue_name } in
    let m' = set_queue_number queue i (record m { queues = set_queue_data m.queues i named }) in
    if m.initialized
    then (if ltb i max_nr_of_queues
        then some (record m' { nr_of_queues = (i + 1) % 256 })
        else none)
    else none

-- filter, of the queues that debugPrint shows: those that overflowed.
abbrev pub displayed : QueueData → Bool
displayed d = not (d.full_count == 0)

-- The loop of debugPrint, from queue `i` on: what it prints of.
abbrev pub debug_print_loop : ℕ → ℕ → (ℕ → QueueData) → List QueueData
debug_print_loop zero i ds = []
debug_print_loop (suc n) i ds =
    let rest = debug_print_loop n (i + 1) ds in if displayed (ds i) then ds i ∷ rest else rest

-- resetCounters
abbrev pub reset_counters : Monitor → Monitor
reset_counters m = record m {
  queues = λ i.
      if ltb i m.nr_of_queues
      then record (m.queues i) { send_count = 0; max_waiting = 0; full_count = 0 }
      else m.queues i;
}

-- debugPrint, which timerHandler calls: what is printed, and the counters reset.
unfoldable pub debug_print : Monitor → List QueueData × Monitor
debug_print m = (debug_print_loop m.nr_of_queues 0 m.queues, reset_counters m)
