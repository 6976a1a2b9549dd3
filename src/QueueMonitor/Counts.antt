-- ===== src/QueueMonitor/Counts.antt =====
-- What src/queuemonitor.c counts of a queue that is registered, and that it stops at others.
use zephyr_nano_drone.Prelude.{
  ℕ, ◌+◌, ◌%◌, ◌<◌, ◌≡◌, ◌≢◌, refl, sym, ◌∙◌, ap, subst, true, false, Bool-cases, inl, inr, Option,
  none, some, List, [], ◌∷◌, ◌++◌, arith, ltb, ◌==◌, if◌then◌else◌, ◌>>=◌, length, u32, Ends,
  Ends-weaken,
}
use mathlib.Core.Option.{none-ne-some}
use zephyr_nano_drone.QueueMonitor.{
  QueueData, QueueNumberEntry, Monitor, set_queue_data, set_queue_number, get_queue_number,
  get_queue_data, get_max_waiting, trace_queue_send, register_queue,
}

number_of_new :
    (es : List QueueNumberEntry) (queue n : ℕ)
    → get_queue_number es queue ≡ none
    → get_queue_number (es ++ (record { queue = queue; queue_number = n } ∷ [])) queue ≡ some n
number_of_new [] queue n e = let h : (queue == queue) ≡ true = ground arith in rw h refl
number_of_new (x ∷ xs) queue n e = elim (Bool-cases (x.queue == queue)) [
  | inl q ↦
      let h : get_queue_number (x ∷ xs) queue ≡ some x.queue_number = rw q refl in
      absurd (none-ne-some x.queue_number (sym e ∙ h))
  | inr q ↦
      let h : get_queue_number (x ∷ xs) queue ≡ get_queue_number xs queue = rw q refl in
      rw q (number_of_new xs queue n (sym h ∙ e))
]

-- The sends to one queue, with the messages that it holds at each.
abbrev pub trace_all : ℕ → List ℕ → Monitor → Option Monitor
trace_all queue [] m = some m
trace_all queue (used ∷ us) m = trace_queue_send queue used m >>= trace_all queue us

-- The greatest number of messages, with the one that is sent.
abbrev pub peak : ℕ → List ℕ → ℕ
peak highest [] = highest
peak highest (used ∷ us) = peak (if ltb highest (used + 1) then used + 1 else highest) us

-- The counters of queue `i` after sends, and those of the others.
pub record Counted (i : ℕ) (us : List ℕ) (m m' : Monitor) : Type 0 where
  pub sends : (m'.queues i).send_count ≡ (m.queues i).send_count + length us
  pub highest : (m'.queues i).max_waiting ≡ peak (m.queues i).max_waiting us
  pub full : (m'.queues i).full_count ≡ (m.queues i).full_count
  pub others : (j : ℕ) → j ≢ i → m'.queues j ≡ m.queues j

-- Every count of messages is an int.
abbrev pub Small : List ℕ → Type 0
Small [] = Unit
Small (used ∷ us) = (used + 1 < 2147483648) × Small us

small_index : (i : ℕ) → i < 20 → i % 256 ≡ i
small_index i l = ground (arith, l)

trace_queue_send-registered :
    (queue used i : ℕ) (m : Monitor)
    → m.initialized ≡ true
    → get_queue_number m.queue_numbers queue ≡ some i
    → i < 20
    → (m.queues i).send_count < 2147483647
    → trace_queue_send queue used m
      ≡ some (record m {
        queues = set_queue_data m.queues i (record (m.queues i) {
          send_count = (m.queues i).send_count + 1;
          max_waiting = get_max_waiting used (m.queues i).max_waiting;
        });
      })
unfolding trace_queue_send get_queue_data
trace_queue_send-registered queue used i m on number l room =
    let e : ltb i 20 ≡ true = ground (arith, l) in
    let w = small_index i l in
    let c : ltb (m.queues i).send_count 2147483647 ≡ true = ground (arith, room) in
    simp (on, number, w, e, c) refl

small_word : (n : ℕ) → n < 2147483648 → u32 n ≡ n
small_word n l = ground (arith, l)

-- The monitor after one send to queue `i`.
record Stepped (i used : ℕ) (m m' : Monitor) : Type 0 where
  sends : (m'.queues i).send_count ≡ (m.queues i).send_count + 1
  highest :
      (m'.queues i).max_waiting
      ≡ (if ltb (m.queues i).max_waiting (used + 1) then used + 1 else (m.queues i).max_waiting)
  full : (m'.queues i).full_count ≡ (m.queues i).full_count
  others : (j : ℕ) → j ≢ i → m'.queues j ≡ m.queues j

after_step :
    (i used : ℕ) (us : List ℕ) (m m' m'' : Monitor)
    → Stepped i used m m'
    → Counted i us m' m''
    → Counted i (used ∷ us) m m''
after_step i used us m m' m'' s c = record {
  sends = omega (arith, c.sends, s.sends);
  highest = c.highest ∙ ap (λ z. peak z us) s.highest;
  full = c.full ∙ s.full;
  others = λ j d. c.others j d ∙ s.others j d;
}

trace_all-Counted :
    (queue i : ℕ) (us : List ℕ) (m : Monitor)
    → m.initialized ≡ true
    → get_queue_number m.queue_numbers queue ≡ some i
    → i < 20
    → (m.queues i).send_count + length us < 2147483648
    → Small us
    → Ends (Counted i us m) (trace_all queue us m)
trace_all-Counted queue i [] m on number l room small = record {
  sends = omega arith;
  highest = refl;
  full = refl;
  others = λ j d. refl;
}
trace_all-Counted queue i (used ∷ us) m on number l room (few, small) =
    let d : QueueData = record (m.queues i) {
      send_count = (m.queues i).send_count + 1;
      max_waiting = get_max_waiting used (m.queues i).max_waiting;
    } in
    let m' : Monitor = record m { queues = set_queue_data m.queues i d } in
    let here : (i == i) ≡ true = ground arith in
    let now : set_queue_data m.queues i d i ≡ d = rw here refl in
    let stepped : Stepped i used m m' = record {
      sends = ap (λ z. z.send_count) now;
      highest =
          ap (λ z. z.max_waiting) now
          ∙ ap (λ z. if ltb (m.queues i).max_waiting z then z else (m.queues i).max_waiting)
              (small_word (used + 1) few);
      full = ap (λ z. z.full_count) now;
      others = λ j n. let off : (j == i) ≡ false = ground (arith, n) in rw off refl;
    } in
    subst (λ o. Ends (Counted i (used ∷ us) m) (o >>= trace_all queue us))
      (sym (trace_queue_send-registered queue used i m on number l (omega (arith, room))))
      (Ends-weaken (Counted i us m') (Counted i (used ∷ us) m) (trace_all queue us m')
        (trace_all-Counted queue i us m' on number l (omega (arith, room, stepped.sends)) small)
        (λ m'' c. after_step i used us m m' m'' stepped c))

-- A new queue is registered while there is room: from then on, as long as the counts are ints, each send to it is counted, with the
-- greatest number of messages that it has held, and the counters of the other queues are as they were.
pub register_queue-Counted :
    (queue : ℕ) (file_name queue_name us : List ℕ) (m : Monitor)
    → m.initialized ≡ true
    → m.nr_of_queues < 20
    → length m.queue_numbers < 20
    → get_queue_number m.queue_numbers queue ≡ none
    → (m.queues m.nr_of_queues).send_count + length us < 2147483648
    → Small us
    → Ends
        (Counted m.nr_of_queues us m)
        (register_queue queue file_name queue_name m >>= trace_all queue us)
unfolding register_queue set_queue_number
register_queue-Counted queue file_name queue_name us m on l few new room small =
    let i = m.nr_of_queues in
    let d : QueueData = record (m.queues i) { file_name = file_name; queue_name = queue_name } in
    let e : ltb i 20 ≡ true = ground (arith, l) in
    let f : ltb (length m.queue_numbers) 20 ≡ true = ground (arith, few) in
    let here : (i == i) ≡ true = ground arith in
    let m' : Monitor = record m {
      queues = set_queue_data m.queues i d;
      queue_numbers = m.queue_numbers ++ (record { queue = queue; queue_number = i } ∷ []);
      nr_of_queues = (i + 1) % 256;
    } in
    let done : register_queue queue file_name queue_name m ≡ some m' = simp (on, e, f) refl in
    let now : m'.queues i ≡ d = rw here refl in
    let same : (m'.queues i).send_count ≡ (m.queues i).send_count = ap (λ z. z.send_count) now in
    subst (λ o. Ends (Counted i us m) (o >>= trace_all queue us)) (sym done)
      (Ends-weaken (Counted i us m') (Counted i us m) (trace_all queue us m')
        (trace_all-Counted queue i us m' on (number_of_new m.queue_numbers queue i new) l
          (omega (arith, room, same)) small)
        (λ m'' c. record {
          sends = omega (arith, c.sends, same);
          highest = c.highest ∙ ap (λ z. peak z us) (ap (λ z. z.max_waiting) now);
          full = c.full ∙ ap (λ z. z.full_count) now;
          others =
              λ j n. c.others j n ∙ (let off : (j == i) ≡ false = ground (arith, n) in rw off refl);
        }))
