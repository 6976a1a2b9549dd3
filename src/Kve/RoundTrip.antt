-- ===== src/Kve/RoundTrip.antt =====
-- What a client of the store (includes/kve/src/kve.c) sees: stores, fetches and deletions in turn.
use zephyr_nano_drone.Prelude.{
  ℕ, ◌+◌, ◌≤◌, ◌<◌, ◌≡◌, ◌≢◌, refl, sym, ap, ◌∙◌, Bool, true, false, none, some, List, [], length,
  take, is_some, bytes_eq, if◌then◌else◌,
}
use zephyr_nano_drone.Kve.Memory.{Memory}
use zephyr_nano_drone.Kve.Storage.Layout.{Entry}
use zephyr_nano_drone.Kve.Spec.{lookup, items, put, remove}
use zephyr_nano_drone.Kve.Spec.Laws.{
  Distinct, lookup-put_self, lookup-put_other, put-Distinct, lookup-remove, Distinct-remove,
  lookup-items, Distinct-items,
}
use zephyr_nano_drone.Kve.Table.{store, fetch, delete, defrag, format, check}
use zephyr_nano_drone.Kve.Table.Holds.{Holds}
use zephyr_nano_drone.Kve.Table.Basic.{
  fetched, fetch-Holds, delete-Holds, format-Holds, check-Holds,
}
use zephyr_nano_drone.Kve.Table.Defrag.{defrag-Squeezed}
use zephyr_nano_drone.Kve.Table.Store.{store-Refines}

-- A memory that holds a table with no key twice.
pub record IsValid (m : Memory) (xs : List Entry) : Type 0 where
  pub holds : Holds m xs
  pub distinct : Distinct xs

-- The keys that storage.h allows.
abbrev pub IsKey : List ℕ → Type 0
IsKey key = (1 ≤ length key) × (length key ≤ 255)

module _ (m : Memory) (xs : List Entry) (key buffer : List ℕ) where
  -- On a valid memory `store` returns. If it reports success, a fetch of the key then gives the
  -- stored data, cut to the size of the buffer; if it reports failure, a fetch gives nothing.
  pub store-fetch :
      (n : ℕ)
      → IsValid m xs
      → IsKey key
      → 3 + length key + length buffer < 65536
      → (done : Bool) × (m' : Memory) × (store m key buffer ≡ some (done, m'))
        × (fetch m' key n ≡ some (if done then take n buffer else []))
  store-fetch n v k s =
      let r = store-Refines key buffer k.0 k.1 s m xs v.holds in
      let spec = put m.size key buffer xs in
      (
        spec.0,
        r.after,
        r.returns,
        fetch-Holds r.after spec.1 key n k.0 k.1 r.holds
            ∙ ap (λ o. some (fetched n o)) (lookup-put_self m.size key buffer xs v.distinct)
            ∙ fetched_if n spec.0,
      )
    where
      fetched_if :
          (n : ℕ) (b : Bool)
          → some (fetched n (if b then some buffer else none))
            ≡ some (if b then take n buffer else [])
      fetched_if n true = refl
      fetched_if n false = refl

  -- A store, successful or not, leaves what a fetch of any other key gives as it was.
  pub store-fetch_other :
      (j : List ℕ) (n : ℕ)
      → IsValid m xs
      → IsKey key
      → IsKey j
      → j ≢ key
      → 3 + length key + length buffer < 65536
      → (done : Bool) × (m' : Memory) × (store m key buffer ≡ some (done, m'))
        × (fetch m' j n ≡ fetch m j n)
  store-fetch_other j n v k kj ne s =
      let r = store-Refines key buffer k.0 k.1 s m xs v.holds in
      let spec = put m.size key buffer xs in
      (
        spec.0,
        r.after,
        r.returns,
        fetch-Holds r.after spec.1 j n kj.0 kj.1 r.holds
            ∙ ap (λ o. some (fetched n o)) (lookup-put_other m.size key buffer j xs ne)
            ∙ sym (fetch-Holds m xs j n kj.0 kj.1 v.holds),
      )

  -- A store keeps the memory valid, and its size.
  pub store-IsValid :
      IsValid m xs
      → IsKey key
      → 3 + length key + length buffer < 65536
      → (done : Bool) × (m' : Memory) × (ys : List Entry) × (store m key buffer ≡ some (done, m'))
        × IsValid m' ys
        × (m'.size ≡ m.size)
  store-IsValid v k s =
      let r = store-Refines key buffer k.0 k.1 s m xs v.holds in
      let spec = put m.size key buffer xs in
      (
        spec.0,
        r.after,
        spec.1,
        r.returns,
        record { holds = r.holds; distinct = put-Distinct m.size key buffer xs v.distinct },
        r.same_size,
      )

-- A deletion returns, tells whether the key was there, and keeps the memory valid; then a fetch of
-- that key gives nothing, and of any other key what it gave before.
pub delete-fetch :
    (m : Memory) (xs : List Entry) (key j : List ℕ) (n : ℕ)
    → IsValid m xs
    → IsKey key
    → IsKey j
    → (m' : Memory) × (delete m key ≡ some (is_some (lookup key xs), m'))
      × IsValid m' (remove key xs)
      × (fetch m' j n ≡ (if bytes_eq j key then some [] else fetch m j n))
delete-fetch m xs key j n v k kj =
    let (m', e, h) = delete-Holds m xs key k.0 k.1 v.holds in
    (
      m',
      e,
      record { holds = h; distinct = Distinct-remove key xs v.distinct },
      fetch-Holds m' (remove key xs) j n kj.0 kj.1 h
          ∙ ap (λ o. some (fetched n o)) (lookup-remove key j xs v.distinct)
          ∙ fetched_if (bytes_eq j key) (fetch-Holds m xs j n kj.0 kj.1 v.holds),
    )
  where
    fetched_if :
        (b : Bool)
        → fetch m j n ≡ some (fetched n (lookup j xs))
        → some (fetched n (if b then none else lookup j xs)) ≡ (if b then some [] else fetch m j n)
    fetched_if true h = refl
    fetched_if false h = sym h

-- Defragmentation returns, with the items alone, in their order, and no fetch tells the difference.
pub defrag-fetch :
    (m : Memory) (xs : List Entry) (key : List ℕ) (n : ℕ)
    → IsValid m xs
    → IsKey key
    → (m' : Memory) × (defrag m ≡ some m')
      × IsValid m' (items xs)
      × (fetch m' key n ≡ fetch m key n)
defrag-fetch m xs key n v k =
    let d = defrag-Squeezed m xs v.holds in
    (
      d.after,
      d.returns,
      record { holds = d.holds; distinct = Distinct-items xs v.distinct },
      fetch-Holds d.after (items xs) key n k.0 k.1 d.holds
          ∙ ap (λ o. some (fetched n o)) (lookup-items key xs)
          ∙ sym (fetch-Holds m xs key n k.0 k.1 v.holds),
    )

-- Formatting makes any memory of 4 to 65535 bytes valid and empty, so that it passes the check and
-- every fetch gives nothing.
pub format-fetch :
    (m : Memory) (key : List ℕ) (n : ℕ)
    → 3 < m.size
    → m.size < 65536
    → IsKey key
    → IsValid (format m) [] × (check (format m) ≡ some true) × (fetch (format m) key n ≡ some [])
format-fetch m key n l u k =
    let h = format-Holds m l u in
    (
      record { holds = h; distinct = tt },
      check-Holds (format m) [] h,
      fetch-Holds (format m) [] key n k.0 k.1 h,
    )
