-- ===== src/Kve/Storage/Move.antt =====
-- kveStorageMoveMemory: a block moved down by `gap` bytes, 32 at a time, in the order that keeps
-- an overlap intact.
use zephyr_nano_drone.Prelude.{
  ℕ, zero, suc, ◌+◌, ◌-◌, ◌≤◌, ◌<◌, ◌≡◌, refl, sym, ◌∙◌, inl, inr, Bool-cases, List, [], ◌∷◌, arith,
  length, ltb, dec_lt,
}
use zephyr_nano_drone.Kve.Memory.{
  Memory, write, read, read_cells, overlay, write_in_bounds, Confined, Confined-refl,
  Confined-trans, write-Confined, Spells,
}
use zephyr_nano_drone.Kve.Storage.{min_size, move_loop, move_memory, header_bytes}
use zephyr_nano_drone.Kve.Storage.Layout.{
  Entry, item, hole, entry_length, EntryOk, EntryAt, ChainAt, end_of, end_of-le,
}

pub length-read : (f : ℕ → ℕ) (a n : ℕ) → length (read_cells f a n) ≡ n
unfolding read_cells
length-read f a zero = refl
length-read f a (suc n) = omega (arith, length-read f (a + 1) n)

overlay-read :
    (f g : ℕ → ℕ) (a b gap n x : ℕ)
    → b ≡ a + gap
    → a ≤ x
    → x < a + n
    → overlay f a (read_cells g b n) x ≡ g (x + gap)
unfolding overlay read_cells
overlay-read f g a b gap zero x q l u = absurd (omega arith)
overlay-read f g a b gap (suc n) x q l u = ground (arith, overlay-read f g (a + 1) (b + 1) gap n x)

-- `n` bytes have moved from `d + gap` to `d`, and nothing else has changed.
pub record Moved (m m' : Memory) (d gap n : ℕ) : Type 0 where
  pub confined : Confined m m' d (d + n)
  pub copied : (x : ℕ) → d ≤ x → x < d + n → m'.cell x ≡ m.cell (x + gap)

chunk-Moved :
    (m : Memory) (s d gap n : ℕ)
    → s ≡ d + gap
    → s + n ≤ m.size
    → Moved m (write m d (read m s n)) d gap n
chunk-Moved m s d gap n e l = record {
  confined = write-Confined m d (read m s n) (d + n) (omega (arith, length-read m.cell s n));
  copied = λ x lo hi.
      rw (write_in_bounds m d (read m s n) (omega (arith, length-read m.cell s n)))
        (overlay-read m.cell m.cell d s gap n x e lo hi);
}

Moved-trans :
    (m₁ m₂ m₃ : Memory) (d gap k n : ℕ)
    → k ≤ n
    → Moved m₁ m₂ d gap k
    → Moved m₂ m₃ (d + k) gap (n - k)
    → Moved m₁ m₃ d gap n
Moved-trans m₁ m₂ m₃ d gap k n h p q = record {
  confined =
      Confined-trans d (d + n) p.confined q.confined (omega arith) (omega arith) (omega arith)
        (omega arith);
  copied = λ x lo hi. elim (dec_lt x (d + k)) [
    | yes near ↦ sym (q.confined.below x near) ∙ p.copied x lo near
    | no far ↦
        q.copied x (omega arith) (omega arith) ∙ sym (p.confined.above (x + gap) (omega arith))
  ];
}

move_loop-Moved :
    (fuel : ℕ) (m : Memory) (s d gap n : ℕ)
    → n ≤ fuel
    → s ≡ d + gap
    → s + n ≤ m.size
    → Moved m (move_loop fuel m s d n) d gap n
unfolding move_loop
move_loop-Moved zero m s d gap n h e l = record {
  confined = Confined-refl m d (d + n);
  copied = λ x lo hi. absurd (omega arith);
}
move_loop-Moved (suc fuel) m s d gap n h e l = elim (Bool-cases (ltb 0 n)) [
  | inl more ↦
      let k = min_size n 32 in
      let m' = write m d (read m s k) in
      let small : k ≤ n = ground arith in
      let first = chunk-Moved m s d gap k e (omega arith) in
      let smaller : n - k ≤ fuel = ground arith in
      rw more (
        Moved-trans m m' _ d gap k n small first (
          move_loop-Moved fuel m' (s + k) (d + k) gap (n - k) smaller (omega arith)
            (omega (arith, first.confined.same_size))))
  | inr done ↦
      let empty : n ≡ 0 = ground arith in
      rw done
        (record { confined = Confined-refl m d (d + n); copied = λ x lo hi. absurd (omega arith) })
]

-- `move_memory` moves the whole block, overlapping or not, when the destination is not above the
-- source and the source lies in the memory.
pub move_memory-Moved :
    (m : Memory) (s d gap n : ℕ)
    → s ≡ d + gap
    → s + n ≤ m.size
    → Moved m (move_memory m s d n) d gap n
unfolding move_memory
move_memory-Moved m s d gap n e l = move_loop-Moved n m s d gap n (omega arith) e l

Spells-shift :
    (f g : ℕ → ℕ) (a gap : ℕ) (bs : List ℕ) (b hi : ℕ)
    → b ≡ a + gap
    → ((x : ℕ) → a ≤ x → x < hi → g x ≡ f (x + gap))
    → a + length bs ≤ hi
    → Spells f b bs
    → Spells g a bs
Spells-shift f g a gap [] b hi q e h s = tt
Spells-shift f g a gap (c ∷ bs) b hi q e h s = (
  ground (arith, e a),
  Spells-shift f g (a + 1) gap bs (b + 1) hi (omega arith) (λ x l u. e x (omega arith) u)
      (omega arith) s.1,
)

EntryAt-shift :
    (f g : ℕ → ℕ) (a gap : ℕ) (x : Entry) (b hi : ℕ)
    → EntryOk x
    → b ≡ a + gap
    → ((x : ℕ) → a ≤ x → x < hi → g x ≡ f (x + gap))
    → a + entry_length x ≤ hi
    → EntryAt f b x
    → EntryAt g a x
EntryAt-shift f g a gap (item k d) b hi o q e h t = (
  Spells-shift f g a gap (header_bytes (3 + length k + length d) (length k)) b hi q e (omega arith)
      t.0,
  Spells-shift f g (a + 3) gap k (b + 3) hi (omega arith) (λ x l u. e x (omega arith) u)
      (omega arith) t.1,
  Spells-shift f g (a + 3 + length k) gap d (b + 3 + length k) hi (omega arith)
      (λ x l u. e x (omega arith) u) (omega arith) t.2,
)
EntryAt-shift f g a gap (hole n) b hi o q e h t =
    Spells-shift f g a gap (header_bytes n 0) b hi q e (omega arith) t

-- A chain of entries read at `a + gap` is found at `a` once its bytes have moved there.
pub ChainAt-shift :
    (f g : ℕ → ℕ) (a gap : ℕ) (xs : List Entry) (b hi : ℕ)
    → b ≡ a + gap
    → ((x : ℕ) → a ≤ x → x < hi → g x ≡ f (x + gap))
    → end_of a xs ≤ hi
    → ChainAt f b xs
    → ChainAt g a xs
ChainAt-shift f g a gap [] b hi q e h c = tt
ChainAt-shift f g a gap (x ∷ xs) b hi q e h c =
    let next = a + entry_length x in
    (
      c.0,
      EntryAt-shift f g a gap x b hi c.0 q e (omega (arith, end_of-le next xs)) c.1,
      ChainAt-shift f g next gap xs (b + entry_length x) hi (omega arith)
          (λ y l u. e y (omega arith) u) h c.2,
    )
