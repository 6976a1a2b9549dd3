-- ===== src/Kve/Storage/Scan.antt =====
-- kveStorageFindHole and kveStorageFindNextItem on a well-formed table.
use zephyr_nano_drone.Prelude.{
  ℕ, zero, suc, ◌+◌, ◌≤◌, ◌<◌, ◌≡◌, ◌⊎◌, some, List, [], ◌∷◌, ◌++◌, arith, length, sub_u32,
}
use zephyr_nano_drone.Kve.Memory.{Memory}
use zephyr_nano_drone.Kve.Storage.{
  at, invalid, get_item_info, find_hole_loop, find_hole, find_next_loop, find_next_item,
}
use zephyr_nano_drone.Kve.Storage.Layout.{
  Entry, item, hole, end_of, TableAt, end_of-le, AllItems, AllHoles,
}

module _ (m : Memory) (limit : ℕ) (small : limit < 65534) where
  hole_loop-found :
      (fuel a : ℕ) (gs : List Entry) (n : ℕ) (rest : List Entry)
      → length gs < fuel
      → end_of a gs < limit
      → AllItems gs
      → TableAt m.cell a (gs ++ (hole n ∷ rest))
      → find_hole_loop fuel m limit a ≡ some (at (end_of a gs))
  unfolding find_hole_loop get_item_info
  hole_loop-found zero a gs n rest h l i t = absurd (omega arith)
  hole_loop-found (suc fuel) a [] n rest h l i t = ground arith
  hole_loop-found (suc fuel) a (item k d ∷ gs) n rest h l i t =
      let next = a + (3 + length k + length d) in
      ground (arith, end_of-le next gs, hole_loop-found fuel next gs n rest)
  hole_loop-found (suc fuel) a (hole n' ∷ gs) n rest h l i t = absurd i

  -- With no hole left the search ends in vain, or at the end tag, where the byte behind the tag
  -- happens to be 0.
  hole_loop-end :
      (fuel a : ℕ) (gs : List Entry)
      → length gs + 1 < fuel
      → end_of a gs < limit
      → AllItems gs
      → TableAt m.cell a gs
      → (find_hole_loop fuel m limit a ≡ some invalid)
        ⊎ (find_hole_loop fuel m limit a ≡ some (at (end_of a gs)))
  unfolding find_hole_loop get_item_info
  hole_loop-end zero a gs h l i t = absurd (omega arith)
  hole_loop-end (suc zero) a gs h l i t = absurd (omega arith)
  hole_loop-end (suc (suc fuel)) a [] h l i t = ground arith
  hole_loop-end (suc (suc fuel)) a (item k d ∷ gs) h l i t =
      let next = a + (3 + length k + length d) in
      ground (arith, end_of-le next gs, hole_loop-end (suc fuel) next gs)
  hole_loop-end (suc (suc fuel)) a (hole n' ∷ gs) h l i t = absurd i

  next_loop-found :
      (fuel a : ℕ) (hs : List Entry) (k d : List ℕ) (rest : List Entry)
      → length hs < fuel
      → end_of a hs < limit
      → AllHoles hs
      → TableAt m.cell a (hs ++ (item k d ∷ rest))
      → 3 + length k + length d < 65535
      → find_next_loop fuel m limit a ≡ some (at (end_of a hs))
  unfolding find_next_loop get_item_info
  next_loop-found zero a hs k d rest h l i t u = absurd (omega arith)
  next_loop-found (suc fuel) a [] k d rest h l i t u = ground arith
  next_loop-found (suc fuel) a (item k' d' ∷ hs) k d rest h l i t u = absurd i
  next_loop-found (suc fuel) a (hole n ∷ hs) k d rest h l i t u =
      ground (arith, end_of-le (a + n) hs, next_loop-found fuel (a + n) hs k d rest)

  next_loop-end :
      (fuel a : ℕ) (hs : List Entry)
      → length hs < fuel
      → end_of a hs ≤ limit + 1
      → AllHoles hs
      → TableAt m.cell a hs
      → find_next_loop fuel m limit a ≡ some invalid
  unfolding find_next_loop get_item_info
  next_loop-end zero a hs h l i t = absurd (omega arith)
  next_loop-end (suc fuel) a [] h l i t = ground arith
  next_loop-end (suc fuel) a (item k' d' ∷ hs) h l i t = absurd i
  next_loop-end (suc fuel) a (hole n ∷ hs) h l i t =
      ground (arith, end_of-le (a + n) hs, next_loop-end fuel (a + n) hs)

-- From an item on, the search finds the first hole.
pub find_hole-found :
    (m : Memory) (a : ℕ) (gs : List Entry) (n : ℕ) (rest : List Entry)
    → end_of a gs + 2 < m.size
    → length gs ≤ m.size
    → m.size < 65536
    → AllItems gs
    → TableAt m.cell a (gs ++ (hole n ∷ rest))
    → find_hole m a ≡ some (at (end_of a gs))
unfolding find_hole
find_hole-found m a gs n rest h l u i t =
    hole_loop-found m (sub_u32 m.size 2) (omega arith) (m.size + 1) a gs n rest (omega arith)
      (omega arith) i t

pub find_hole-end :
    (m : Memory) (a : ℕ) (gs : List Entry)
    → end_of a gs + 2 < m.size
    → length gs + 1 ≤ m.size
    → m.size < 65536
    → AllItems gs
    → TableAt m.cell a gs
    → (find_hole m a ≡ some invalid) ⊎ (find_hole m a ≡ some (at (end_of a gs)))
unfolding find_hole
find_hole-end m a gs h l u i t =
    hole_loop-end m (sub_u32 m.size 2) (omega arith) (m.size + 1) a gs (omega arith) (omega arith) i
      t

-- From a hole on, the search finds the next item, past any further holes.
pub find_next_item-found :
    (m : Memory) (a n : ℕ) (hs : List Entry) (k d : List ℕ) (rest : List Entry)
    → end_of (a + n) hs + 3 + length k + length d + 2 < m.size
    → length hs ≤ m.size
    → m.size < 65536
    → AllHoles hs
    → TableAt m.cell a (hole n ∷ (hs ++ (item k d ∷ rest)))
    → find_next_item m a ≡ some (at (end_of (a + n) hs))
unfolding find_next_item get_item_info
find_next_item-found m a n hs k d rest h l u i t = ground (
  arith,
  end_of-le (a + n) hs,
  next_loop-found m (sub_u32 m.size 3) (omega arith) (m.size + 1) (a + n) hs k d rest,
)

pub find_next_item-end :
    (m : Memory) (a n : ℕ) (hs : List Entry)
    → end_of (a + n) hs + 2 < m.size
    → length hs ≤ m.size
    → m.size < 65536
    → AllHoles hs
    → TableAt m.cell a (hole n ∷ hs)
    → find_next_item m a ≡ some invalid
unfolding find_next_item get_item_info
find_next_item-end m a n hs h l u i t = ground (
  arith,
  end_of-le (a + n) hs,
  next_loop-end m (sub_u32 m.size 3) (omega arith) (m.size + 1) (a + n) hs,
)

-- At the end tag there is no next item.
pub find_next_item-at_end :
    (m : Memory) (a : ℕ) → TableAt m.cell a [] → find_next_item m a ≡ some invalid
unfolding find_next_item get_item_info
find_next_item-at_end m a t = ground arith
