-- ===== src/Kve/Spec.antt =====
-- What the store promises, over the entries of its table in order: the reference for kve.c.
pub mod Laws
use zephyr_nano_drone.Prelude.{
  ℕ, ◌+◌, ◌≡◌, refl, sym, ap, ◌⊎◌, inl, inr, Bool, true, false, Bool-cases, Option, none, some,
  List, [], ◌∷◌, ◌++◌, arith, ltb, ◌==◌, if◌then◌else◌, length, bytes_eq, bytes_eq_self,
  bytes_eq_sound,
}
use zephyr_nano_drone.Kve.Storage.{at, invalid}
use zephyr_nano_drone.Kve.Storage.Layout.{Entry, item, hole, end_of, locate}

-- The data of the first item with the key.
abbrev pub lookup : List ℕ → List Entry → Option (List ℕ)
lookup key [] = none
lookup key (item k d ∷ xs) = if bytes_eq key k then some d else lookup key xs
lookup key (hole n ∷ xs) = lookup key xs

-- The table without its holes.
abbrev pub items : List Entry → List Entry
items [] = []
items (item k d ∷ xs) = item k d ∷ items xs
items (hole n ∷ xs) = items xs

-- The first item with the key becomes a hole of its length.
abbrev pub remove : List ℕ → List Entry → List Entry
remove key [] = []
remove key (item k d ∷ xs) =
    if bytes_eq key k then hole (3 + length k + length d) ∷ xs else item k d ∷ remove key xs
remove key (hole n ∷ xs) = hole n ∷ remove key xs

-- The first item with the key has its data replaced.
abbrev pub replace : List ℕ → List ℕ → List Entry → List Entry
replace key buffer [] = []
replace key buffer (item k d ∷ xs) =
    if bytes_eq key k then item key buffer ∷ xs else item k d ∷ replace key buffer xs
replace key buffer (hole n ∷ xs) = hole n ∷ replace key buffer xs

abbrev pub room : ℕ → List ℕ → List ℕ → List Entry → Bool
room size key buffer xs = ltb (end_of 1 xs + 3 + length key + length buffer + 2) size

-- A new item goes to the end, after the holes have been squeezed out if there is no room.
unfoldable pub append : ℕ → List ℕ → List ℕ → List Entry → Bool × List Entry
append size key buffer xs =
    if room size key buffer xs
    then (true, xs ++ (item key buffer ∷ []))
    else if room size key buffer (items xs)
    then (true, items xs ++ (item key buffer ∷ []))
    else (false, items xs)

unfoldable pub put : ℕ → List ℕ → List ℕ → List Entry → Bool × List Entry
put size key buffer xs = elim (lookup key xs) [
  | none ↦ append size key buffer xs
  | some d ↦
      if length d == length buffer
      then (true, replace key buffer xs)
      else append size key buffer (remove key xs)
]

-- A table split at the first item with the key.
pub record Split (key : List ℕ) (xs : List Entry) : Type 0 where
  pub before : List Entry
  pub buffer : List ℕ
  pub after : List Entry
  pub whole : xs ≡ before ++ (item key buffer ∷ after)
  pub fresh : lookup key before ≡ none

Split-cons :
    (key : List ℕ) (x : Entry) (xs : List Entry)
    → lookup key (x ∷ []) ≡ none
    → Split key xs
    → Split key (x ∷ xs)
Split-cons key (item k d) xs h s = record {
  before = item k d ∷ s.before;
  buffer = s.buffer;
  after = s.after;
  whole = ap (λ t. item k d ∷ t) s.whole;
  fresh = ground (arith, s.fresh);
}
Split-cons key (hole n) xs h s = record {
  before = hole n ∷ s.before;
  buffer = s.buffer;
  after = s.after;
  whole = ap (λ t. hole n ∷ t) s.whole;
  fresh = s.fresh;
}

pub Split-cases : (key : List ℕ) (xs : List Entry) → (lookup key xs ≡ none) ⊎ Split key xs
Split-cases key [] = inl refl
Split-cases key (item k d ∷ xs) = elim (Bool-cases (bytes_eq key k)) [
  | inl same ↦ inr (record {
    before = [];
    buffer = d;
    after = xs;
    whole = ap (λ t. item t d ∷ xs) (sym (bytes_eq_sound key k same));
    fresh = refl;
  })
  | inr other ↦ elim (Split-cases key xs) [
    | inl h ↦ inl (rw other h)
    | inr s ↦ inr (Split-cons key (item k d) xs (rw other) s)
  ]
]
Split-cases key (hole n ∷ xs) = elim (Split-cases key xs) [
  | inl h ↦ inl h
  | inr s ↦ inr (Split-cons key (hole n) xs refl s)
]

module _ (key : List ℕ) where
  pub locate-none : (a : ℕ) (xs : List Entry) → lookup key xs ≡ none → locate key a xs ≡ invalid
  locate-none a [] h = refl
  locate-none a (item k d ∷ xs) h = ground (arith, locate-none (a + (3 + length k + length d)) xs)
  locate-none a (hole n ∷ xs) h = locate-none (a + n) xs h

  module _ (buffer : List ℕ) (after : List Entry) where
    pub locate-split :
        (a : ℕ) (xs : List Entry)
        → lookup key xs ≡ none
        → locate key a (xs ++ (item key buffer ∷ after)) ≡ at (end_of a xs)
    locate-split a [] h = rw (bytes_eq_self key)
    locate-split a (item k d ∷ xs) h =
        ground (arith, locate-split (a + (3 + length k + length d)) xs)
    locate-split a (hole n ∷ xs) h = locate-split (a + n) xs h

    pub lookup-split :
        (xs : List Entry)
        → lookup key xs ≡ none
        → lookup key (xs ++ (item key buffer ∷ after)) ≡ some buffer
    lookup-split [] h = rw (bytes_eq_self key)
    lookup-split (item k d ∷ xs) h = ground (arith, lookup-split xs)
    lookup-split (hole n ∷ xs) h = lookup-split xs h

    pub remove-split :
        (xs : List Entry)
        → lookup key xs ≡ none
        → remove key (xs ++ (item key buffer ∷ after))
          ≡ xs ++ (hole (3 + length key + length buffer) ∷ after)
    remove-split [] h = rw (bytes_eq_self key)
    remove-split (item k d ∷ xs) h = ground (arith, remove-split xs)
    remove-split (hole n ∷ xs) h = ap (λ t. hole n ∷ t) (remove-split xs h)

    pub replace-split :
        (new : List ℕ) (xs : List Entry)
        → lookup key xs ≡ none
        → replace key new (xs ++ (item key buffer ∷ after)) ≡ xs ++ (item key new ∷ after)
    replace-split new [] h = rw (bytes_eq_self key)
    replace-split new (item k d ∷ xs) h = ground (arith, replace-split new xs)
    replace-split new (hole n ∷ xs) h = ap (λ t. hole n ∷ t) (replace-split new xs h)

pub remove-none : (key : List ℕ) (xs : List Entry) → lookup key xs ≡ none → remove key xs ≡ xs
remove-none key [] h = refl
remove-none key (item k d ∷ xs) h = ground (arith, remove-none key xs)
remove-none key (hole n ∷ xs) h = ap (λ t. hole n ∷ t) (remove-none key xs h)

pub put-split :
    (size : ℕ) (key buffer d : List ℕ) (before after : List Entry)
    → lookup key before ≡ none
    → put size key buffer (before ++ (item key d ∷ after)) ≡ (
        if length d == length buffer
        then (true, before ++ (item key buffer ∷ after))
        else append size key buffer (before ++ (hole (3 + length key + length d) ∷ after)))
unfolding put
put-split size key buffer d before after h =
    rw (lookup-split key d after before h, put)
      (rw (remove-split key d after before h, replace-split key d after buffer before h))
