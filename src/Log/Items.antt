-- ===== src/Log/Items.antt =====
-- The table of contents of src/log.c sent to a client, by logTOCProcess, and its check by logInit.
pub mod Replies
pub mod Process
use zephyr_nano_drone.Prelude.{
  ℕ, zero, suc, ◌+◌, ◌*◌, ◌/◌, ◌%◌, Bool, true, false, Option, none, some, List, [], ◌∷◌, ◌++◌, ltb,
  leb, ◌==◌, if◌then◌else◌, ◌>>=◌, length, get_or,
}
use zephyr_nano_drone.Log.{LogEntry, is_group, is_start, logs_count, log_get_type}

-- The four bytes of a word, the lowest first.
abbrev pub word : ℕ → List ℕ
word v = v % 256 ∷ (v / 256) % 256 ∷ (v / 65536) % 256 ∷ (v / 16777216) % 256 ∷ []

-- The first loop of logInit, over the check sum of a buffer: it chains the check sums of the
-- entries, and stops the system (none) at a variable whose names are too long for a packet.
unfoldable pub init_loop : (List ℕ → ℕ) → List LogEntry → ℕ → ℕ → Option ℕ
init_loop crc32 [] crc group_length = some crc
init_loop crc32 (e ∷ es) crc group_length =
    let crc' = crc32 (word crc ++ (e.type % 256 ∷ e.name)) in
    let group = init_loop crc32 es crc' (if is_start e then length e.name else group_length) in
    let variable = init_loop crc32 es crc' group_length in
    if is_group e
    then group
    else if ltb 26 (length e.name + group_length + 2)
    then none
    else variable

-- Where the loop over the entries ends: the index, the group and the number of variables passed.
pub record Place : Type 0 where
  pub ptr : ℕ
  pub group : List ℕ
  pub n : ℕ

-- The loop of logTOCProcess that looks for variable `id`, from entry `ptr` on.
unfoldable pub toc_loop : List LogEntry → ℕ → Place → Place
toc_loop [] id at = at
toc_loop (e ∷ es) id at =
    let in_group =
      toc_loop es id (record at { ptr = at.ptr + 1; group = if is_start e then e.name else [] }) in
    let next = toc_loop es id (record at { ptr = at.ptr + 1; n = (at.n + 1) % 65536 }) in
    if is_group e then in_group else if at.n == id then at else next

-- The reply on a variable, with `head` in front of its type and its names; none when the assertion
-- on the size fails.
unfoldable pub item_reply : List LogEntry → List ℕ → Place → Option (List ℕ)
item_reply logs head at =
    let e = get_or logs at.ptr (record { type = 0; name = []; address = 0 }) in
    let size = (length head + 1 + 2 + length at.group + length e.name) % 256 in
    if leb size 30
    then some (head ++ (log_get_type e ∷ at.group ++ (0 ∷ e.name ++ (0 ∷ []))))
    else none

-- The group that logTOCProcess starts with, "plop".
abbrev pub first_group : List ℕ
first_group = 112 ∷ 108 ∷ 111 ∷ 112 ∷ []

-- logTOCProcess, on the command and the bytes of a packet: the bytes of the reply, of which an
-- unknown command has none; none in all when an assertion fails.
unfoldable pub toc_process : List LogEntry → ℕ → ℕ → ℕ → (ℕ → ℕ) → Option (Option (List ℕ))
unfolding toc_loop item_reply
toc_process logs count crc command bytes =
    let start : Place = record { ptr = 0; group = first_group; n = 0 } in
    let short_id = bytes 1 in
    let long_id = bytes 1 + 256 * bytes 2 in
    let at = toc_loop logs short_id start in
    let at₂ = toc_loop logs long_id start in
    let item = (do reply ← item_reply logs (0 ∷ at.n % 256 ∷ []) at; some (some reply)) in
    let item₂ = (do
      reply ← item_reply logs (2 ∷ long_id % 256 ∷ long_id / 256 ∷ []) at₂
      some (some reply)) in
    if command == 1
    then some (some (1 ∷ (if ltb count 255 then count else 255) ∷ word crc ++ (16 ∷ 128 ∷ [])))
    else if command == 0
    then (if ltb at.ptr (length logs) then item else some (some (0 ∷ [])))
    else if command == 3
    then some (some (3 ∷ count % 256 ∷ count / 256 ∷ word crc ++ (16 ∷ 128 ∷ [])))
    else if command == 2
    then (if ltb at₂.ptr (length logs) then item₂ else some (some (2 ∷ [])))
    else some none
