-- ===== src/Log.antt =====
-- The table of contents of src/log.c: the variables that can be logged, in groups.
pub mod Toc
pub mod Blocks
pub mod Control
pub mod Run
pub mod Items
pub mod Readers
mod Tests
mod Examples
use zephyr_nano_drone.Prelude.{
  ℕ, ◌+◌, ◌%◌, ◌/◌, Bool, true, false, Option, none, some, List, [], ◌∷◌, ◌==◌, if◌then◌else◌,
  bytes_eq, ◌&&◌, get_elem?, get_or,
}

-- struct log_s: `type` holds the bits LOG_GROUP (128) and LOG_START (1), or a variable's type.
pub record LogEntry : Type 0 where
  pub type : ℕ
  pub name : List ℕ
  pub address : ℕ

abbrev pub is_group : LogEntry → Bool
is_group e = (e.type / 128) % 2 == 1

abbrev pub is_start : LogEntry → Bool
is_start e = e.type % 2 == 1

-- logGetType: the lower four bits.
abbrev pub log_get_type : LogEntry → ℕ
log_get_type e = e.type % 16

-- The loop of logInit that counts the variables.
abbrev pub logs_count : List LogEntry → ℕ
logs_count [] = 0
logs_count (e ∷ es) = if is_group e then logs_count es else logs_count es + 1

-- The loop of variableGetIndex from entry `i` on, with `n` variables seen.
unfoldable pub variable_loop : List LogEntry → ℕ → ℕ → ℕ → Option ℕ
variable_loop [] id n i = none
variable_loop (e ∷ es) id n i =
    let in_group = variable_loop es id n (i + 1) in
    let next = variable_loop es id (n + 1) (i + 1) in
    if is_group e then in_group else if n == id then some i else next

-- variableGetIndex; none is the result -1.
unfoldable pub variable_get_index : List LogEntry → ℕ → Option ℕ
unfolding variable_loop
variable_get_index logs id = variable_loop logs id 0 0

-- The loop of logGetVarId from entry `i` on, in the group `current`; none is the invalid id.
unfoldable pub var_id_loop : List LogEntry → List ℕ → List ℕ → List ℕ → ℕ → Option ℕ
var_id_loop [] group name current i = none
var_id_loop (e ∷ es) group name current i =
    let started = var_id_loop es group name e.name (i + 1) in
    let next = var_id_loop es group name current (i + 1) in
    if is_group e
    then (if is_start e then started else next)
    else if bytes_eq group current && bytes_eq name e.name
    then some (i % 65536)
    else next

unfoldable pub log_get_var_id : List LogEntry → List ℕ → List ℕ → Option ℕ
unfolding var_id_loop
log_get_var_id logs group name = var_id_loop logs group name [] 0
