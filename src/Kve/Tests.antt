-- ===== src/Kve/Tests.antt =====
-- The theorems of the key-value store at small memories, and runs of its operations.
use zephyr_nano_drone.Prelude.{
  ℕ, zero, suc, ◌≡◌, refl, Bool, true, false, Option, some, List, [], ◌∷◌, arith, if◌then◌else◌,
  ◌>>=◌,
}
use zephyr_nano_drone.Kve.Memory.{Memory, write, overlay, read_cells}
use zephyr_nano_drone.Kve.Storage.{
  write_end, write_item, write_hole, move_memory, find_hole, find_next_item, find_end,
  get_item_info, get_buffer, find_item_by_key,
}
use zephyr_nano_drone.Kve.Storage.Layout.{Entry, item, hole}
use zephyr_nano_drone.Kve.Table.{
  store, append_item_to_end, fetch, delete, defrag, defrag_round, next_boundary, format, check,
}
use zephyr_nano_drone.Kve.RoundTrip.{
  IsValid, store-fetch, store-fetch_other, store-IsValid, delete-fetch, defrag-fetch, format-fetch,
}

-- Version 1, the item "ab" ↦ 7 8, a hole of 5 bytes, the item "c" ↦ 9, the end tag.
abbrev bytes : List ℕ
bytes = 1 ∷ 7 ∷ 0 ∷ 2 ∷ 97 ∷ 98 ∷ 7 ∷ 8 ∷ 5 ∷ 0 ∷ 0 ∷ 1 ∷ 1 ∷ 5 ∷ 0 ∷ 1 ∷ 99 ∷ 9 ∷ 255 ∷ 255 ∷ []

abbrev byte_at : List ℕ → ℕ → ℕ
byte_at [] i = 0
byte_at (b ∷ bs) zero = b
byte_at (b ∷ bs) (suc i) = byte_at bs i

abbrev small : Memory
small = record { size = 32; cell = byte_at bytes }

abbrev entries : List Entry
entries = item (97 ∷ 98 ∷ []) (7 ∷ 8 ∷ []) ∷ hole 5 ∷ item (99 ∷ []) (9 ∷ []) ∷ []

small-IsValid : IsValid small entries
small-IsValid = record {
  holds = record { version = refl; fits = omega arith; table = omega arith };
  distinct = (refl, (refl, tt));
}

abbrev key_ab : List ℕ
key_ab = 97 ∷ 98 ∷ []

abbrev key_c : List ℕ
key_c = 99 ∷ []

fetch_ab : fetch small key_ab 8 ≡ some (7 ∷ 8 ∷ [])
unfolding fetch get_item_info get_buffer read_cells find_item_by_key
fetch_ab = refl

-- A blank memory with every byte 255, formatted and then written to.
abbrev blank : Memory
blank = record { size = 16; cell = λ a. 255 }

-- A first store, a second one of `buffer` to the same key, and what the key holds then.
abbrev store_again : List ℕ → Option (Bool × Bool × List ℕ)
store_again buffer = do
  (done, m) ← store (format blank) key_ab (1 ∷ 2 ∷ 3 ∷ [])
  (done', m') ← store m key_ab buffer
  v ← fetch m' key_ab 8
  some (done, done', v)

-- The second item finds room after defragmentation; a longer one does not, and the key is lost.
store_twice :
    (store_again (4 ∷ 5 ∷ []) ≡ some (true, true, 4 ∷ 5 ∷ []))
    × (store_again (1 ∷ 2 ∷ 3 ∷ 4 ∷ 5 ∷ 6 ∷ 7 ∷ 8 ∷ 9 ∷ []) ≡ some (true, false, []))
unfolding store append_item_to_end fetch format write write_end write_item write_hole defrag
    defrag_round next_boundary find_hole find_next_item move_memory find_end get_item_info
    get_buffer read_cells overlay find_item_by_key
store_twice = (refl, refl)

store-fetch_example :
    (done : Bool) × (m' : Memory) × (store small key_ab (1 ∷ 2 ∷ 3 ∷ []) ≡ some (done, m'))
    × (fetch m' key_ab 2 ≡ some (if done then 1 ∷ 2 ∷ [] else []))
store-fetch_example =
    store-fetch small entries key_ab (1 ∷ 2 ∷ 3 ∷ []) 2 small-IsValid (omega arith) (omega arith)

store-fetch_other_example :
    (done : Bool) × (m' : Memory) × (store small key_ab (1 ∷ 2 ∷ 3 ∷ []) ≡ some (done, m'))
    × (fetch m' key_c 4 ≡ fetch small key_c 4)
store-fetch_other_example =
    store-fetch_other small entries key_ab (1 ∷ 2 ∷ 3 ∷ []) key_c 4 small-IsValid (omega arith)
      (omega arith) (λ e. cc e) (omega arith)

store-IsValid_example :
    (done : Bool) × (m' : Memory) × (ys : List Entry) × (store small key_c (1 ∷ 2 ∷ [])
      ≡ some (done, m'))
    × IsValid m' ys
    × (m'.size ≡ 32)
store-IsValid_example =
    store-IsValid small entries key_c (1 ∷ 2 ∷ []) small-IsValid (omega arith) (omega arith)

delete-fetch_example :
    (m' : Memory) × (delete small key_ab ≡ some (true, m'))
    × IsValid m' (hole 7 ∷ hole 5 ∷ item key_c (9 ∷ []) ∷ [])
    × (fetch m' key_c 4 ≡ fetch small key_c 4)
delete-fetch_example =
    delete-fetch small entries key_ab key_c 4 small-IsValid (omega arith) (omega arith)

defrag-fetch_example :
    (m' : Memory) × (defrag small ≡ some m')
    × IsValid m' (item key_ab (7 ∷ 8 ∷ []) ∷ item key_c (9 ∷ []) ∷ [])
    × (fetch m' key_c 4 ≡ fetch small key_c 4)
defrag-fetch_example = defrag-fetch small entries key_c 4 small-IsValid (omega arith)

format-fetch_example :
    IsValid (format blank) []
    × (check (format blank) ≡ some true)
    × (fetch (format blank) key_c 4 ≡ some [])
format-fetch_example = format-fetch blank key_c 4 (omega arith) (omega arith) (omega arith)
