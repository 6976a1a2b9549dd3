-- ===== src/Kve/Table/Basic.antt =====
-- kveFormat, kveCheck, kveFetch and kveDelete of includes/kve/src/kve.c on well-formed memories.
use zephyr_nano_drone.Prelude.{
  ℕ, zero, suc, ◌+◌, ◌≤◌, ◌<◌, ◌≡◌, refl, sym, ap, ◌∙◌, inl, inr, true, Option, none, some, List,
  [], ◌∷◌, ◌++◌, arith, length, take, is_some, sub_u32,
}
use zephyr_nano_drone.Kve.Memory.{Memory, Spells, read_cells, write, write-Spells, write-Confined}
use zephyr_nano_drone.Kve.Storage.{get_buffer, write_hole, min_size}
use zephyr_nano_drone.Kve.Storage.Layout.{Entry, item, hole, end_of}
use zephyr_nano_drone.Kve.Storage.Find.{find_item_by_key-TableAt, find_end-TableAt}
use zephyr_nano_drone.Kve.Storage.Write.{write_hole-Wrote, write_end-TableAt}
use zephyr_nano_drone.Kve.Spec.{
  lookup, remove, Split-cases, locate-none, locate-split, lookup-split, remove-split, remove-none,
}
use zephyr_nano_drone.Kve.Table.{format, check, fetch, delete, kve_version}
use zephyr_nano_drone.Kve.Table.Holds.{Holds, Holds-Here, Holds-edit, info-item}

min_size-suc : (a b : ℕ) → min_size (suc a) (suc b) ≡ suc (min_size a b)
min_size-suc a b = ground arith

min_size_zero : (b : ℕ) → min_size 0 b ≡ 0
min_size_zero b = ground arith

min_size_right : (a : ℕ) → min_size (suc a) 0 ≡ 0
min_size_right a = ground arith

min_size_twice : (a b : ℕ) → min_size a (min_size a b) ≡ min_size a b
min_size_twice a b = ground arith

-- Formatting gives the empty table, whatever the memory held.
pub format-Holds : (m : Memory) → 3 < m.size → m.size < 65536 → Holds (format m) []
unfolding format
format-Holds m h u =
    let m₁ = write m 0 (kve_version ∷ []) in
    let c₁ = write-Confined m 0 (kve_version ∷ []) 1 (omega arith) in
    let (t, c₂) = write_end-TableAt m₁ 1 (omega (arith, c₁.same_size)) in
    record {
      version =
          sym (c₂.below 0 (omega arith)) ∙ (write-Spells m 0 (kve_version ∷ []) (omega arith)).0;
      fits = omega (arith, c₁.same_size, c₂.same_size);
      table = t;
    }

-- A well-formed memory passes the check.
pub check-Holds : (m : Memory) (xs : List Entry) → Holds m xs → check m ≡ some true
unfolding check
check-Holds m xs h = rw (h.version, find_end-TableAt m 1 xs h.fits h.table)

read_cells-take :
    (f : ℕ → ℕ) (a : ℕ) (d : List ℕ) (n : ℕ)
    → Spells f a d
    → read_cells f a (min_size (length d) n) ≡ take n d
unfolding read_cells
read_cells-take f a [] zero s = refl
read_cells-take f a [] (suc n) s = rw (min_size_zero (suc n))
read_cells-take f a (x ∷ d) zero s = rw (min_size_right (length d))
read_cells-take f a (x ∷ d) (suc n) s =
    rw (min_size-suc (length d) n) (rw (s.0, read_cells-take f (a + 1) d n s.1))

-- What a fetch into a buffer of `n` bytes copies out.
abbrev pub fetched : ℕ → Option (List ℕ) → List ℕ
fetched n none = []
fetched n (some d) = take n d

fetch-split :
    (m : Memory) (before after : List Entry) (key d : List ℕ) (n : ℕ)
    → length key ≤ 255
    → 1 ≤ length key
    → lookup key before ≡ none
    → Holds m (before ++ (item key d ∷ after))
    → fetch m key n ≡ some (take n d)
unfolding fetch get_buffer
fetch-split m before after key d n k₂ k₁ fresh h =
    let xs = before ++ (item key d ∷ after) in
    let a = end_of 1 before in
    let here = Holds-Here m before (item key d) after h in
    let total = 3 + length key + length d in
    let e : sub_u32 (sub_u32 total (length key)) 3 ≡ length d = omega arith in
    let e' : sub_u32 (sub_u32 total 3) (length key) ≡ length d = omega arith in
    rw
      (
        find_item_by_key-TableAt m 1 key xs k₁ k₂ h.fits h.table,
        locate-split key d after 1 before fresh,
        info-item m a key d (k₁, k₂) here.entry (omega arith),
        e,
        e',
      )
      (ap some (
        ap (read_cells m.cell (a + 3 + length key)) (min_size_twice (length d) n)
        ∙ read_cells-take m.cell (a + 3 + length key) d n here.entry.2))

-- A fetch copies out the first bytes of the data that the table has for the key, as many as the
-- buffer takes, and nothing for a key that is not there.
pub fetch-Holds :
    (m : Memory) (xs : List Entry) (key : List ℕ) (n : ℕ)
    → 1 ≤ length key
    → length key ≤ 255
    → Holds m xs
    → fetch m key n ≡ some (fetched n (lookup key xs))
fetch-Holds m xs key n k₁ k₂ h = elim (Split-cases key xs) [
  | inl missing ↦
      unfold fetch in
      rw (
        find_item_by_key-TableAt m 1 key xs k₁ k₂ h.fits h.table,
        locate-none key 1 xs missing,
        missing,
      )
  | inr s ↦
      fetch-split m s.before s.after key s.buffer n k₂ k₁ s.fresh (rw s.whole at h)
      ∙ ap (λ t. some (fetched n t))
          (sym (ap (lookup key) s.whole ∙ lookup-split key s.buffer s.after s.before s.fresh))
]

-- What a hole written over an item leaves.
pub write_hole-Holds :
    (m : Memory) (before after : List Entry) (key d : List ℕ)
    → Holds m (before ++ (item key d ∷ after))
    → let total = 3 + length key + length d in
      Holds (write_hole m (end_of 1 before) total).1 (before ++ (hole total ∷ after))
      × ((write_hole m (end_of 1 before) total).1.size ≡ m.size)
write_hole-Holds m before after key d h =
    let total = 3 + length key + length d in
    let here = Holds-Here m before (item key d) after h in
    let w = write_hole-Wrote m (end_of 1 before) total (omega arith) (omega arith) (omega arith) in
    (
      Holds-edit m (write_hole m (end_of 1 before) total).1 before (item key d) (hole total) after h
          refl (omega arith) w.entry w.confined,
      w.confined.same_size,
    )

delete-split :
    (m : Memory) (before after : List Entry) (key d : List ℕ)
    → 1 ≤ length key
    → length key ≤ 255
    → lookup key before ≡ none
    → Holds m (before ++ (item key d ∷ after))
    → (m' : Memory) × (delete m key ≡ some (true, m'))
      × Holds m' (before ++ (hole (3 + length key + length d) ∷ after))
unfolding delete
delete-split m before after key d k₁ k₂ fresh h =
    let here = Holds-Here m before (item key d) after h in
    let a = end_of 1 before in
    (
      (write_hole m a (3 + length key + length d)).1,
      rw (
        find_item_by_key-TableAt m 1 key (before ++ (item key d ∷ after)) k₁ k₂ h.fits h.table,
        locate-split key d after 1 before fresh,
        info-item m a key d (k₁, k₂) here.entry (omega arith),
      ),
      (write_hole-Holds m before after key d h).0,
    )

-- A deletion turns the first item with the key into a hole and says whether there was one.
pub delete-Holds :
    (m : Memory) (xs : List Entry) (key : List ℕ)
    → 1 ≤ length key
    → length key ≤ 255
    → Holds m xs
    → (m' : Memory) × (delete m key ≡ some (is_some (lookup key xs), m')) × Holds m' (remove key xs)
delete-Holds m xs key k₁ k₂ h = elim (Split-cases key xs) [
  | inl missing ↦ (
    m,
    unfold delete in
        rw (
          find_item_by_key-TableAt m 1 key xs k₁ k₂ h.fits h.table,
          locate-none key 1 xs missing,
          missing,
        ),
    rw (remove-none key xs missing) h,
  )
  | inr s ↦
      rw
        (
          s.whole,
          lookup-split key s.buffer s.after s.before s.fresh,
          remove-split key s.buffer s.after s.before s.fresh,
        )
        (delete-split m s.before s.after key s.buffer k₁ k₂ s.fresh (rw s.whole at h))
]
