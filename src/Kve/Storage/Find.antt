-- ===== src/Kve/Storage/Find.antt =====
-- The searches on a well-formed table.
use zephyr_nano_drone.Prelude.{
  ℕ, zero, suc, ◌+◌, ◌≤◌, ◌<◌, ◌≡◌, some, List, [], ◌∷◌, arith, length, bytes_eq-take, sub_u32,
}
use zephyr_nano_drone.Kve.Memory.{Memory, read-Spells}
use zephyr_nano_drone.Kve.Storage.{
  at, get_item_info, find_key_loop, find_item_by_key, find_end_loop, find_end,
}
use zephyr_nano_drone.Kve.Storage.Layout.{Entry, item, hole, end_of, TableAt, locate, end_of-le}

-- The room that a table needs: its end tag is inside the memory, and addresses fit 16 bits.
abbrev pub Fits : Memory → ℕ → List Entry → Type 0
Fits m a xs = (end_of a xs + 2 < m.size) × (m.size < 65536)

pub length-le-end_of :
    (f : ℕ → ℕ) (a : ℕ) (xs : List Entry) → TableAt f a xs → length xs + a ≤ end_of a xs
length-le-end_of f a [] t = omega arith
length-le-end_of f a (item k d ∷ xs) t =
    omega (arith, length-le-end_of f (a + (3 + length k + length d)) xs t.2)
length-le-end_of f a (hole n ∷ xs) t = omega (arith, length-le-end_of f (a + n) xs t.2)

module _ (m : Memory) (limit : ℕ) (small : limit < 65534) where
  find_end_loop-TableAt :
      (fuel a : ℕ) (xs : List Entry)
      → length xs < fuel
      → end_of a xs < limit
      → TableAt m.cell a xs
      → find_end_loop fuel m limit a ≡ some (at (end_of a xs))
  unfolding find_end_loop get_item_info
  find_end_loop-TableAt zero a xs h l t = absurd (omega arith)
  find_end_loop-TableAt (suc fuel) a [] h l t = ground arith
  find_end_loop-TableAt (suc fuel) a (item k d ∷ xs) h l t =
      let next = a + (3 + length k + length d) in
      ground (arith, end_of-le next xs, find_end_loop-TableAt fuel next xs)
  find_end_loop-TableAt (suc fuel) a (hole n ∷ xs) h l t =
      ground (arith, end_of-le (a + n) xs, find_end_loop-TableAt fuel (a + n) xs)

  find_key_loop-TableAt :
      (fuel a : ℕ) (key : List ℕ) (xs : List Entry)
      → length xs < fuel
      → 1 ≤ length key
      → length key ≤ 255
      → end_of a xs ≤ limit
      → TableAt m.cell a xs
      → find_key_loop fuel m key limit a ≡ some (locate key a xs)
  unfolding find_key_loop get_item_info
  find_key_loop-TableAt zero a key xs h k₁ k₂ l t = absurd (omega arith)
  find_key_loop-TableAt (suc fuel) a key [] h k₁ k₂ l t = ground arith
  find_key_loop-TableAt (suc fuel) a key (item k d ∷ xs) h k₁ k₂ l t =
      let next = a + (3 + length k + length d) in
      ground (
        arith,
        end_of-le next xs,
        find_key_loop-TableAt fuel next key xs,
        bytes_eq-take key k,
        read-Spells m.cell (a + 3) k t.1.1,
      )
  find_key_loop-TableAt (suc fuel) a key (hole n ∷ xs) h k₁ k₂ l t =
      ground (arith, end_of-le (a + n) xs, find_key_loop-TableAt fuel (a + n) key xs)

-- On a well-formed table the search for the end returns the address behind the last entry.
pub find_end-TableAt :
    (m : Memory) (a : ℕ) (xs : List Entry)
    → Fits m a xs
    → TableAt m.cell a xs
    → find_end m a ≡ some (at (end_of a xs))
unfolding find_end
find_end-TableAt m a xs h t =
    find_end_loop-TableAt m (sub_u32 m.size 2) (omega arith) (m.size + 1) a xs
      (omega (arith, length-le-end_of m.cell a xs t)) (omega arith) t

pub find_item_by_key-TableAt :
    (m : Memory) (a : ℕ) (key : List ℕ) (xs : List Entry)
    → 1 ≤ length key
    → length key ≤ 255
    → Fits m a xs
    → TableAt m.cell a xs
    → find_item_by_key m a key ≡ some (locate key a xs)
unfolding find_item_by_key
find_item_by_key-TableAt m a key xs k₁ k₂ h t =
    find_key_loop-TableAt m (sub_u32 m.size 3) (omega arith) (m.size + 1) a key xs
      (omega (arith, length-le-end_of m.cell a xs t)) k₁ k₂ (omega arith) t
