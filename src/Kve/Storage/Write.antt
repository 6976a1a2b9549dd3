-- ===== src/Kve/Storage/Write.antt =====
-- The writers: what they leave at the address, and that they touch nothing else.
use zephyr_nano_drone.Prelude.{ℕ, ◌+◌, ◌%◌, ◌≤◌, ◌<◌, ◌≡◌, refl, List, [], ◌∷◌, arith, length, take}
use zephyr_nano_drone.Kve.Memory.{
  Memory, write, write-Confined, write-Spells, Confined, Confined-trans, Spells-below,
}
use zephyr_nano_drone.Kve.Storage.{write_item, write_hole, write_end, header_bytes}
use zephyr_nano_drone.Kve.Storage.Layout.{Entry, item, hole, entry_length, EntryAt, TableAt}

take_all {ℓ} : {A : Type ℓ} (xs : List A) → take (length xs) xs ≡ xs
take_all [] = refl
take_all (x ∷ xs) = rw (take_all xs)

-- An entry written at `a`: the length returned, the entry there, and nothing else changed.
pub record Wrote (m : Memory) (a : ℕ) (x : Entry) (result : ℕ × Memory) : Type 0 where
  pub returned : result.0 ≡ entry_length x
  pub entry : EntryAt result.1.cell a x
  pub confined : Confined m result.1 a (a + entry_length x)

pub write_hole-Wrote :
    (m : Memory) (a n : ℕ)
    → 3 ≤ n
    → n < 65536
    → a + n ≤ m.size
    → Wrote m a (hole n) (write_hole m a n)
unfolding write_hole
write_hole-Wrote m a n h u l =
    let e : n % 65536 ≡ n = omega arith in
    rw e (record {
      returned = refl;
      entry = write-Spells m a (header_bytes n 0) (omega arith);
      confined = write-Confined m a (header_bytes n 0) (a + n) (omega arith);
    })

pub write_end-TableAt :
    (m : Memory) (a : ℕ)
    → a + 2 ≤ m.size
    → TableAt (write_end m a).1.cell a [] × Confined m (write_end m a).1 a (a + 2)
unfolding write_end
write_end-TableAt m a h =
    let s = write-Spells m a (255 ∷ 255 ∷ []) (omega arith) in
    ((s.0, s.1.0), write-Confined m a (255 ∷ 255 ∷ []) (a + 2) (omega arith))

-- The three writes of an item, with the lengths already in range.
module _ (m : Memory) (a : ℕ) (key buffer : List ℕ) where
  abbrev total : ℕ
  total = 3 + length key + length buffer

  abbrev header : List ℕ
  header = header_bytes total (length key)

  abbrev m₁ : Memory
  m₁ = write m a header

  abbrev m₂ : Memory
  m₂ = write m₁ (a + 3) key

  abbrev m₃ : Memory
  m₃ = write m₂ (a + 3 + length key) buffer

  three_writes :
      a + 3 + length key + length buffer ≤ m.size → Wrote m a (item key buffer) (total, m₃)
  three_writes l =
      let c₁ = write-Confined m a header (a + 3) (omega arith) in
      let c₂ = write-Confined m₁ (a + 3) key (a + 3 + length key) (omega arith) in
      let c₃ = write-Confined m₂ (a + 3 + length key) buffer (a + total) (omega arith) in
      record {
        returned = refl;
        entry = (
          Spells-below a header c₃ (omega arith)
              (Spells-below a header c₂ (omega arith) (write-Spells m a header (omega arith))),
          Spells-below (a + 3) key c₃ (omega arith)
              (write-Spells m₁ (a + 3) key (omega (arith, c₁.same_size))),
          write-Spells m₂ (a + 3 + length key) buffer (omega (arith, c₁.same_size, c₂.same_size)),
        );
        confined =
            Confined-trans a (a + total)
              (Confined-trans a (a + total) c₁ c₂ (omega arith) (omega arith) (omega arith)
                (omega arith))
              c₃ (omega arith) (omega arith) (omega arith) (omega arith);
      }

pub write_item-Wrote :
    (m : Memory) (a : ℕ) (key buffer : List ℕ)
    → length key ≤ 255
    → 3 + length key + length buffer < 65536
    → a + 3 + length key + length buffer ≤ m.size
    → Wrote m a (item key buffer) (write_item m a key buffer)
unfolding write_item
write_item-Wrote m a key buffer k u l =
    let e : length key % 256 ≡ length key = omega arith in
    let e' : (3 + length key + length buffer) % 65536 ≡ 3 + length key + length buffer =
      omega arith in
    rw (e, e', take_all key) (three_writes m a key buffer l)
