-- ===== src/Kve/Spec/Laws.antt =====
-- The reference store as a map from keys to data: one entry for a key, and what a put changes.
use zephyr_nano_drone.Prelude.{
  ℕ, ◌≡◌, ◌≢◌, refl, sym, ◌∙◌, inl, inr, Bool-cases, Option, Option-cases, none, some, List, [],
  ◌∷◌, ◌++◌, arith, length, bytes_eq, bytes_eq_self, bytes_eq_sound, bytes_eq_ne, ne_bytes_eq,
  if◌then◌else◌, ◌==◌,
}
use zephyr_nano_drone.Kve.Storage.Layout.{Entry, item, hole}
use zephyr_nano_drone.Kve.Spec.{lookup, items, remove, replace, append, put, room}

-- No key stands twice.
abbrev pub Distinct : List Entry → Type 0
Distinct [] = Unit
Distinct (item k d ∷ xs) = (lookup k xs ≡ none) × Distinct xs
Distinct (hole n ∷ xs) = Distinct xs

abbrev or_else {ℓ} : {A : Type ℓ} → Option A → Option A → Option A
or_else none b = b
or_else (some a) b = some a

lookup-++ :
    (j : List ℕ) (xs ys : List Entry) → lookup j (xs ++ ys) ≡ or_else (lookup j xs) (lookup j ys)
lookup-++ j [] ys = refl
lookup-++ j (item k d ∷ xs) ys = ground (arith, lookup-++ j xs ys)
lookup-++ j (hole n ∷ xs) ys = lookup-++ j xs ys

pub lookup-items : (j : List ℕ) (xs : List Entry) → lookup j (items xs) ≡ lookup j xs
lookup-items j [] = refl
lookup-items j (item k d ∷ xs) = ground (arith, lookup-items j xs)
lookup-items j (hole n ∷ xs) = lookup-items j xs

module _ (key : List ℕ) where
  lookup-remove_other :
      (j : List ℕ) (xs : List Entry) → j ≢ key → lookup j (remove key xs) ≡ lookup j xs
  lookup-remove_other j [] h = refl
  lookup-remove_other j (item k d ∷ xs) h =
      ground (arith, lookup-remove_other j xs, bytes_eq_sound j k, bytes_eq_sound key k)
  lookup-remove_other j (hole n ∷ xs) h = lookup-remove_other j xs h

  lookup-remove_self : (xs : List Entry) → Distinct xs → lookup key (remove key xs) ≡ none
  lookup-remove_self [] u = refl
  lookup-remove_self (item k d ∷ xs) u = ground (arith, lookup-remove_self xs, bytes_eq_sound key k)
  lookup-remove_self (hole n ∷ xs) u = lookup-remove_self xs u

  lookup-replace_other :
      (buffer j : List ℕ) (xs : List Entry)
      → j ≢ key
      → lookup j (replace key buffer xs) ≡ lookup j xs
  lookup-replace_other buffer j [] h = refl
  lookup-replace_other buffer j (item k d ∷ xs) h = ground (
    arith,
    lookup-replace_other buffer j xs,
    bytes_eq_sound j k,
    bytes_eq_sound key k,
    bytes_eq_sound j key,
  )
  lookup-replace_other buffer j (hole n ∷ xs) h = lookup-replace_other buffer j xs h

  lookup-replace_self :
      (buffer d : List ℕ) (xs : List Entry)
      → lookup key xs ≡ some d
      → lookup key (replace key buffer xs) ≡ some buffer
  lookup-replace_self buffer d [] h = cc
  lookup-replace_self buffer d (item k e ∷ xs) h =
      ground (arith, lookup-replace_self buffer d xs, bytes_eq_self key)
  lookup-replace_self buffer d (hole n ∷ xs) h = lookup-replace_self buffer d xs h

  pub Distinct-remove : (xs : List Entry) → Distinct xs → Distinct (remove key xs)
  Distinct-remove [] u = tt
  Distinct-remove (item k d ∷ xs) u = elim (Bool-cases (bytes_eq key k)) [
    | inl same ↦ rw same u.1
    | inr other ↦
        rw other (lookup-remove_other k xs (bytes_eq_ne key k other) ∙ u.0, Distinct-remove xs u.1)
  ]
  Distinct-remove (hole n ∷ xs) u = Distinct-remove xs u

  Distinct-replace :
      (buffer : List ℕ) (xs : List Entry) → Distinct xs → Distinct (replace key buffer xs)
  Distinct-replace buffer [] u = tt
  Distinct-replace buffer (item k d ∷ xs) u = elim (Bool-cases (bytes_eq key k)) [
    | inl same ↦ rw same (rw (bytes_eq_sound key k same) u)
    | inr other ↦ rw other (
      lookup-replace_other buffer k xs (bytes_eq_ne key k other) ∙ u.0,
      Distinct-replace buffer xs u.1,
    )
  ]
  Distinct-replace buffer (hole n ∷ xs) u = Distinct-replace buffer xs u

pub Distinct-items : (xs : List Entry) → Distinct xs → Distinct (items xs)
Distinct-items [] u = tt
Distinct-items (item k d ∷ xs) u = (lookup-items k xs ∙ u.0, Distinct-items xs u.1)
Distinct-items (hole n ∷ xs) u = Distinct-items xs u

Distinct-snoc :
    (key buffer : List ℕ) (xs : List Entry)
    → Distinct xs
    → lookup key xs ≡ none
    → Distinct (xs ++ (item key buffer ∷ []))
Distinct-snoc key buffer [] u h = (refl, tt)
Distinct-snoc key buffer (item k d ∷ xs) u h = (
  ground (arith, lookup-++ k xs (item key buffer ∷ []), bytes_eq_sound k key, bytes_eq_self key),
  Distinct-snoc key buffer xs u.1 (ground arith),
)
Distinct-snoc key buffer (hole n ∷ xs) u h = Distinct-snoc key buffer xs u h

module _ (size : ℕ) (key buffer : List ℕ) where
  -- What an append of a key that the table does not hold gives.
  append_fresh :
      (xs : List Entry)
      → lookup key xs ≡ none
      → lookup key (append size key buffer xs).1
        ≡ (if (append size key buffer xs).0 then some buffer else none)
  unfolding append
  append_fresh xs h = ground (
    arith,
    lookup-++ key xs (item key buffer ∷ []),
    lookup-++ key (items xs) (item key buffer ∷ []),
    lookup-items key xs,
    bytes_eq_self key,
  )

  append_other :
      (j : List ℕ) (xs : List Entry)
      → j ≢ key
      → lookup j (append size key buffer xs).1 ≡ lookup j xs
  unfolding append
  append_other j xs h = ground (
    arith,
    lookup-++ j xs (item key buffer ∷ []),
    lookup-++ j (items xs) (item key buffer ∷ []),
    lookup-items j xs,
    ne_bytes_eq j key h,
  )

  append-Distinct :
      (xs : List Entry)
      → Distinct xs
      → lookup key xs ≡ none
      → Distinct (append size key buffer xs).1
  unfolding append
  append-Distinct xs u h = elim (Bool-cases (room size key buffer xs)) [
    | inl wide ↦ rw wide (Distinct-snoc key buffer xs u h)
    | inr full ↦ rw full (elim (Bool-cases (room size key buffer (items xs))) [
      | inl wide ↦
          rw wide
            (Distinct-snoc key buffer (items xs) (Distinct-items xs u) (lookup-items key xs ∙ h))
      | inr full' ↦ rw full' (Distinct-items xs u)
    ])
  ]

  -- A put that succeeds sets the key. One that fails has dropped the key.
  pub lookup-put_self :
      (xs : List Entry)
      → Distinct xs
      → lookup key (put size key buffer xs).1
        ≡ (if (put size key buffer xs).0 then some buffer else none)
  unfolding put
  lookup-put_self xs u = elim (Option-cases (lookup key xs)) [
    | inl missing ↦ rw (missing, put) (append_fresh xs missing)
    | inr (d, found) ↦
        rw (found, put)
          (elim (Bool-cases (length d == length buffer)) [
            | inl same ↦ rw same (lookup-replace_self key buffer d xs found)
            | inr other ↦ rw other (append_fresh (remove key xs) (lookup-remove_self key xs u))
          ])
  ]

  -- A put leaves every other key as it was, whether it succeeds or not.
  pub lookup-put_other :
      (j : List ℕ) (xs : List Entry) → j ≢ key → lookup j (put size key buffer xs).1 ≡ lookup j xs
  unfolding put
  lookup-put_other j xs h = elim (Option-cases (lookup key xs)) [
    | inl missing ↦ rw (missing, put) (append_other j xs h)
    | inr (d, found) ↦
        rw (found, put)
          (elim (Bool-cases (length d == length buffer)) [
            | inl same ↦ rw same (lookup-replace_other key buffer j xs h)
            | inr other ↦
                rw other (append_other j (remove key xs) h ∙ lookup-remove_other key j xs h)
          ])
  ]

  pub put-Distinct : (xs : List Entry) → Distinct xs → Distinct (put size key buffer xs).1
  unfolding put
  put-Distinct xs u = elim (Option-cases (lookup key xs)) [
    | inl missing ↦ rw (missing, put) (append-Distinct xs u missing)
    | inr (d, found) ↦
        rw (found, put)
          (elim (Bool-cases (length d == length buffer)) [
            | inl same ↦ rw same (Distinct-replace key buffer xs u)
            | inr other ↦ rw other (
                append-Distinct (remove key xs) (Distinct-remove key xs u)
                  (lookup-remove_self key xs u))
          ])
  ]

-- A removal drops its key and no other.
pub lookup-remove :
    (key j : List ℕ) (xs : List Entry)
    → Distinct xs
    → lookup j (remove key xs) ≡ (if bytes_eq j key then none else lookup j xs)
lookup-remove key j xs u = elim (Bool-cases (bytes_eq j key)) [
  | inl same ↦ rw same (rw (bytes_eq_sound j key same) (lookup-remove_self key xs u))
  | inr other ↦ rw other (lookup-remove_other key j xs (λ e. bytes_eq_ne j key other (sym e)))
]
