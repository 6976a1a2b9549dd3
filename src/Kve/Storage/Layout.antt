-- ===== src/Kve/Storage/Layout.antt =====
-- The table as the tools of the store see it: a chain of entries, then the end tag.
use zephyr_nano_drone.Prelude.{
  ℕ, ◌+◌, ◌≤◌, ◌≡◌, refl, List, [], ◌∷◌, ◌++◌, arith, if◌then◌else◌, length, bytes_eq,
}
use zephyr_nano_drone.Kve.Memory.{Spells, Agree, Spells-Agree}
use zephyr_nano_drone.Kve.Storage.{Address, at, invalid, header_bytes}

-- An item holds a key and its data; a hole is the room that a deleted item took.
pub data Entry : Type 0 where
  item : List ℕ → List ℕ → Entry
  hole : ℕ → Entry

abbrev pub entry_length : Entry → ℕ
entry_length (item key buffer) = 3 + length key + length buffer
entry_length (hole n) = n

-- A key has 1 to 255 characters. A hole has the 4 bytes of the smallest item, below which `find_end`
-- takes the table for corrupted.
abbrev pub EntryOk : Entry → Type 0
EntryOk (item key buffer) = (1 ≤ length key) × (length key ≤ 255)
EntryOk (hole n) = 4 ≤ n

-- What an entry looks like in the memory.
abbrev pub EntryAt : (ℕ → ℕ) → ℕ → Entry → Type 0
EntryAt f a (item key buffer) =
    Spells f a (header_bytes (3 + length key + length buffer) (length key))
    × Spells f (a + 3) key
    × Spells f (a + 3 + length key) buffer
EntryAt f a (hole n) = Spells f a (header_bytes n 0)

-- The address behind the last entry.
abbrev pub end_of : ℕ → List Entry → ℕ
end_of a [] = a
end_of a (x ∷ xs) = end_of (a + entry_length x) xs

abbrev pub TableAt : (ℕ → ℕ) → ℕ → List Entry → Type 0
TableAt f a [] = (f a ≡ 255) × (f (a + 1) ≡ 255)
TableAt f a (x ∷ xs) = EntryOk x × EntryAt f a x × TableAt f (a + entry_length x) xs

-- Where the first item with the key stands, in a table that starts at `a`.
abbrev pub locate : List ℕ → ℕ → List Entry → Address
locate key a [] = invalid
locate key a (item k d ∷ xs) =
    if bytes_eq key k then at a else locate key (a + (3 + length k + length d)) xs
locate key a (hole n ∷ xs) = locate key (a + n) xs

pub end_of-le : (a : ℕ) (xs : List Entry) → a ≤ end_of a xs
end_of-le a [] = omega arith
end_of-le a (x ∷ xs) = omega (arith, end_of-le (a + entry_length x) xs)

-- The entries alone, without the end tag.
abbrev pub ChainAt : (ℕ → ℕ) → ℕ → List Entry → Type 0
ChainAt f a [] = Unit {0}
ChainAt f a (x ∷ xs) = EntryOk x × EntryAt f a x × ChainAt f (a + entry_length x) xs

pub end_of-append : (a : ℕ) (xs ys : List Entry) → end_of a (xs ++ ys) ≡ end_of (end_of a xs) ys
end_of-append a [] ys = refl
end_of-append a (x ∷ xs) ys = end_of-append (a + entry_length x) xs ys

pub TableAt-split :
    (f : ℕ → ℕ) (a : ℕ) (xs ys : List Entry)
    → TableAt f a (xs ++ ys)
    → ChainAt f a xs × TableAt f (end_of a xs) ys
TableAt-split f a [] ys t = (tt, t)
TableAt-split f a (x ∷ xs) ys t =
    let (c, t') = TableAt-split f (a + entry_length x) xs ys t.2 in ((t.0, t.1, c), t')

pub TableAt-join :
    (f : ℕ → ℕ) (a : ℕ) (xs ys : List Entry)
    → ChainAt f a xs
    → TableAt f (end_of a xs) ys
    → TableAt f a (xs ++ ys)
TableAt-join f a [] ys c t = t
TableAt-join f a (x ∷ xs) ys c t = (c.0, c.1, TableAt-join f (a + entry_length x) xs ys c.2 t)

pub EntryAt-Agree :
    (f g : ℕ → ℕ) (a : ℕ) (x : Entry)
    → EntryOk x
    → Agree f g a (a + entry_length x)
    → EntryAt f a x
    → EntryAt g a x
EntryAt-Agree f g a (item k d) o e t =
    let hi = a + (3 + length k + length d) in
    (
      Spells-Agree f g a (header_bytes (3 + length k + length d) (length k)) hi e (omega arith) t.0,
      Spells-Agree f g (a + 3) k hi (λ x l u. e x (omega arith) u) (omega arith) t.1,
      Spells-Agree f g (a + 3 + length k) d hi (λ x l u. e x (omega arith) u) (omega arith) t.2,
    )
EntryAt-Agree f g a (hole n) o e t = Spells-Agree f g a (header_bytes n 0) (a + n) e (omega arith) t

pub ChainAt-Agree :
    (f g : ℕ → ℕ) (a : ℕ) (xs : List Entry)
    → Agree f g a (end_of a xs)
    → ChainAt f a xs
    → ChainAt g a xs
ChainAt-Agree f g a [] e c = tt
ChainAt-Agree f g a (x ∷ xs) e c =
    let next = a + entry_length x in
    (
      c.0,
      EntryAt-Agree f g a x c.0 (λ y l u. e y l (omega (arith, end_of-le next xs))) c.1,
      ChainAt-Agree f g next xs (λ y l u. e y (omega arith) u) c.2,
    )

pub TableAt-Agree :
    (f g : ℕ → ℕ) (a : ℕ) (xs : List Entry)
    → Agree f g a (end_of a xs + 2)
    → TableAt f a xs
    → TableAt g a xs
TableAt-Agree f g a [] e t = ground (arith, e a, e (a + 1))
TableAt-Agree f g a (x ∷ xs) e t =
    let next = a + entry_length x in
    (
      t.0,
      EntryAt-Agree f g a x t.0 (λ y l u. e y l (omega (arith, end_of-le next xs))) t.1,
      TableAt-Agree f g next xs (λ y l u. e y (omega arith) u) t.2,
    )

pub total_length : List Entry → ℕ
total_length [] = 0
total_length (x ∷ xs) = entry_length x + total_length xs

pub end_of-eq-add : (a : ℕ) (xs : List Entry) → end_of a xs ≡ a + total_length xs
unfolding total_length
end_of-eq-add a [] = omega arith
end_of-eq-add a (x ∷ xs) = omega (arith, end_of-eq-add (a + entry_length x) xs)

pub ChainAt-join :
    (f : ℕ → ℕ) (a : ℕ) (xs ys : List Entry)
    → ChainAt f a xs
    → ChainAt f (end_of a xs) ys
    → ChainAt f a (xs ++ ys)
ChainAt-join f a [] ys c t = t
ChainAt-join f a (x ∷ xs) ys c t = (c.0, c.1, ChainAt-join f (a + entry_length x) xs ys c.2 t)

abbrev pub AllItems : List Entry → Type 0
AllItems [] = Unit
AllItems (item k d ∷ xs) = AllItems xs
AllItems (hole n ∷ xs) = ⊥

abbrev pub AllHoles : List Entry → Type 0
AllHoles [] = Unit
AllHoles (item k d ∷ xs) = ⊥
AllHoles (hole n ∷ xs) = AllHoles xs
