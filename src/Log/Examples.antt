-- ===== src/Log/Examples.antt =====
-- The theorems on the blocks of src/log.c on a table of one group, and timers that do nothing.
use zephyr_nano_drone.Prelude.{
  ℕ, zero, suc, ◌≤◌, ◌≡◌, refl, sym, ◌∙◌, ap, true, false, none, some, List, [], ◌∷◌, ◌++◌, arith,
  ◌==◌, if◌then◌else◌, ◌>>=◌, is_some, Ends,
}
use mathlib.Core.Option.{some-injective, none-ne-some}
use zephyr_nano_drone.Log.{LogEntry, is_group, log_get_var_id}
use zephyr_nano_drone.Log.Readers.{log_get_group_and_name, log_get_group_and_name-log_get_var_id}
use zephyr_nano_drone.Log.Blocks.{LogOps, Log, Timers, memory, update, link_ops, block_append_ops}
use zephyr_nano_drone.Log.Blocks.Counting.{total_zero}
use zephyr_nano_drone.Log.Blocks.Shape.{Shape, link_ops-Shape}
use zephyr_nano_drone.Log.Blocks.Append.{Addressed, Shaped}
use zephyr_nano_drone.Log.Control.{ControlPacket, log_reset, log_delete_block, log_packets}
use zephyr_nano_drone.Log.Control.Reset.{Emptied, Deleted, log_delete_block-Shape, log_reset-Shape}
use zephyr_nano_drone.Log.Run.{
  encoded, acquired, value_of, copied, Machine, Radio, log_packet, log_run_block,
}
use zephyr_nano_drone.Log.Run.Packing.{all_encoded, start_of, log_packet-Values}
use zephyr_nano_drone.Log.Run.Session.{log_packets-init, log_run_block-Shape}
use zephyr_nano_drone.Log.Items.{init_loop, toc_process}
use zephyr_nano_drone.Log.Items.Process.{Fits, toc_process-Fits}

abbrev past : ℕ → ℕ
past t = 0

-- The group "g" with the variables "a" and "b", and its end.
abbrev entries : List LogEntry
entries =
    record { type = 129; name = 103 ∷ []; address = 0 }
    ∷ record { type = 1; name = 97 ∷ []; address = 100 }
    ∷ record { type = 7; name = 98 ∷ []; address = 104 }
    ∷ record { type = 128; name = 103 ∷ []; address = 0 }
    ∷ []

entries-Addressed : Addressed entries
entries-Addressed zero e q v = absurd (ground (arith, v, sym (ap is_group (some-injective _ e q))))
entries-Addressed (suc zero) e q v =
    λ z. omega (arith, z, ap (λ x. x.address) (some-injective _ e q))
entries-Addressed (suc (suc zero)) e q v =
    λ z. omega (arith, z, ap (λ x. x.address) (some-injective _ e q))
entries-Addressed (suc (suc (suc zero))) e q v =
    absurd (ground (arith, v, sym (ap is_group (some-injective _ e q))))
entries-Addressed (suc (suc (suc (suc i)))) e q v = absurd (none-ne-some e q)

abbrev quiet : Timers Unit Unit
quiet = record {
  create = λ i n w. (some tt, tt);
  stop = λ t w. tt;
  delete = λ t w. tt;
  change_period = λ t n w. tt;
  start = λ t w. tt;
  schedule = λ b w. tt;
}

-- Block 0 is in use with the id 7, and no operation is.
abbrev one_block : Log Unit Unit
one_block = record {
  blocks = λ i. record {
    id = if i == 0 then some 7 else none;
    timer = none;
    dropped_packets = 0;
    ops = none;
  };
  ops = λ k. record {
    next = none;
    storage_type = 0;
    log_type = 0;
    variable = 0;
    acquisition_type = memory;
  };
  world = tt;
}

active_zero : (i : ℕ) → is_some {A = ℕ} (if i == 0 then some 7 else none) ≡ true → i ≡ 0
active_zero i e = ground (arith, e)

one_block-Shape : Shape past one_block (λ i. [])
one_block-Shape = record {
  chained = λ i l e. refl;
  idle = λ i l e. refl;
  counted = λ k l. total_zero 16 (λ _. 0) (λ _ _. refl);
  in_pool = λ k g i l. refl;
  short = λ i l. omega arith;
  unique = λ i j l m a e. active_zero i a ∙ sym (active_zero j (sym (ap is_some e) ∙ a));
}

-- The operation of the variable "a".
abbrev byte_a : LogOps
byte_a = record {
  next = none;
  storage_type = 1;
  log_type = 1;
  variable = 100;
  acquisition_type = memory;
}

abbrev linked : Log Unit Unit
linked = record {
  ops = update (update one_block.ops 0 byte_a) 0 byte_a;
  blocks = update one_block.blocks 0 (record (one_block.blocks 0) { ops = some 0 });
  world = tt;
}

linked-Shape : Shape past linked (update (λ i. []) 0 (0 ∷ []))
unfolding link_ops block_append_ops
linked-Shape =
    (link_ops-Shape past one_block (λ i. []) one_block-Shape entries 0 0 byte_a (omega arith) refl
      (omega arith) refl (omega arith) (omega arith)).0

-- A machine whose memory holds 5 in every variable, and whose floats are their bits.
abbrev fives : Machine ℕ
fives = record {
  load = λ t a. 5;
  acquire = λ t a now. some 5;
  float_of_bits = λ v. v;
  bits_of_float = λ v. v;
  float_of_int = λ v. v;
  int_of_float = λ v. v;
  single_to_half = λ v. v;
  behind = λ i. 0;
}

abbrev offline : Radio Unit
offline = record { connected = λ w. false; reset = λ w. tt; send = λ p w. (true, tt) }

linked_values : all_encoded fives past 1000 linked.ops (0 ∷ []) ≡ some (5 ∷ [])
unfolding all_encoded encoded acquired value_of copied
linked_values = refl

log_packet-Values_example :
    (log_packet fives past 1000 0 linked
      ≡ some (record { size = 5; content = start_of 7 1000 ++ (5 ∷ []) }))
    × (5 ≤ 30)
log_packet-Values_example =
    log_packet-Values fives past linked (update (λ i. []) 0 (0 ∷ [])) linked-Shape 1000 0 7 (5 ∷ [])
      (omega arith) refl linked_values

log_run_block-Shape_example :
    Ends (λ s'. Shaped past s') (log_run_block fives past entries quiet offline true 1000 0 linked)
log_run_block-Shape_example =
    log_run_block-Shape fives past entries quiet offline (λ t a n. refl) true 1000 0 7 linked
      (update (λ i. []) 0 (0 ∷ []), linked-Shape) (omega arith) refl

log_delete_block-Shape_example :
    Ends (Deleted past 7) (log_delete_block past entries quiet 7 linked)
log_delete_block-Shape_example =
    log_delete_block-Shape past entries quiet 7 linked (update (λ i. []) 0 (0 ∷ []), linked-Shape)

log_reset-Shape_example : Ends (Emptied past) (log_reset past entries quiet true linked)
log_reset-Shape_example =
    log_reset-Shape past entries quiet true linked (update (λ i. []) 0 (0 ∷ []), linked-Shape)

-- A packet that creates block 3 with the variable "a" as a byte.
abbrev create_a : ControlPacket
create_a = record { bytes = λ i. if i == 1 then 3 else if i == 2 then 1 else 0; size = 4 }

log_packets-init_example :
    Ends
      (λ s'. Shaped past s')
      (log_reset past entries quiet false linked
        >>= log_packets past entries quiet 1000 (create_a ∷ create_a ∷ []))
log_packets-init_example =
    log_packets-init past entries quiet entries-Addressed 1000 (omega arith)
      (create_a ∷ create_a ∷ []) linked

-- A check sum that sums to 0.
abbrev no_sum : List ℕ → ℕ
no_sum xs = 0

entries_passed : init_loop no_sum entries 0 0 ≡ some 0
unfolding init_loop
entries_passed = refl

toc_process-Fits_example : Ends Fits (toc_process entries 2 0 0 (λ i. if i == 1 then 1 else 0))
toc_process-Fits_example =
    toc_process-Fits no_sum entries 0 entries_passed (omega arith) refl 2 0 0
      (λ i. if i == 1 then 1 else 0)

-- The variable "a" of the group "g".
second_entry : log_get_var_id entries (103 ∷ []) (97 ∷ []) ≡ some 1
unfolding log_get_var_id
second_entry = refl

log_get_group_and_name-log_get_var_id_example :
    log_get_group_and_name entries 1 ≡ some (103 ∷ [], 97 ∷ [])
log_get_group_and_name-log_get_var_id_example =
    log_get_group_and_name-log_get_var_id entries (103 ∷ []) (97 ∷ []) 1 (omega arith) second_entry
