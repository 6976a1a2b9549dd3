-- ===== src/Log/Tests.antt =====
-- The theorems of the table of contents on a table of one group.
use zephyr_nano_drone.Prelude.{◌≤◌, ◌<◌, ◌≡◌, ◌⊎◌, refl, none, some, List, [], ◌∷◌}
use zephyr_nano_drone.Log.{
  LogEntry, logs_count, variable_get_index, variable_loop, log_get_var_id, var_id_loop,
}
use zephyr_nano_drone.Log.Toc.{Found, variable_get_index-Found}

-- The group "g" with the variables "a" and "b", and its end.
abbrev table : List LogEntry
table =
    record { type = 129; name = 103 ∷ []; address = 0 }
    ∷ record { type = 1; name = 97 ∷ []; address = 100 }
    ∷ record { type = 7; name = 98 ∷ []; address = 104 }
    ∷ record { type = 128; name = 103 ∷ []; address = 0 }
    ∷ []

second : variable_get_index table 1 ≡ some 2
unfolding variable_get_index variable_loop
second = refl

by_name : log_get_var_id table (103 ∷ []) (98 ∷ []) ≡ some 2
unfolding log_get_var_id var_id_loop
by_name = refl

variable_get_index-Found_example :
    (Found table 1 0 0 (variable_get_index table 1) × (1 < logs_count table))
    ⊎ ((variable_get_index table 1 ≡ none) × (logs_count table ≤ 1))
variable_get_index-Found_example = variable_get_index-Found table 1
