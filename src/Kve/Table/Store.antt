-- ===== src/Kve/Table/Store.antt =====
-- kveStore and appendItemToEnd of includes/kve/src/kve.c refine `Spec.put` and `Spec.append`.
use zephyr_nano_drone.Prelude.{
  ℕ, ◌+◌, ◌≤◌, ◌<◌, ◌≡◌, refl, ◌∙◌, inl, inr, subst, Bool, Bool-cases, true, false, Option, none,
  some, List, [], ◌∷◌, ◌++◌, arith, ltb→lt, ◌==◌, length, u16, u32, if◌then◌else◌,
}
use zephyr_nano_drone.Kve.Memory.{Memory}
use zephyr_nano_drone.Kve.Storage.{write_hole, write_item}
use zephyr_nano_drone.Kve.Storage.Layout.{Entry, item, hole, end_of}
use zephyr_nano_drone.Kve.Storage.Find.{find_item_by_key-TableAt, find_end-TableAt}
use zephyr_nano_drone.Kve.Storage.Write.{write_item-Wrote}
use zephyr_nano_drone.Kve.Spec.{
  lookup, items, room, append, put, Split-cases, locate-none, locate-split, put-split,
}
use zephyr_nano_drone.Kve.Table.{store, append_item_to_end, write_if_room, write_last}
use zephyr_nano_drone.Kve.Table.Holds.{Holds, Holds-Here, Holds-edit, info-item, write_last-Holds}
use zephyr_nano_drone.Kve.Table.Basic.{write_hole-Holds}
use zephyr_nano_drone.Kve.Table.Defrag.{defrag-Squeezed}

-- What a call that returns a flag and a memory has done: it refines `spec`.
pub record Refines (m : Memory) (result : Option (Bool × Memory)) (spec : Bool × List Entry)
    : Type 0 where
  pub after : Memory
  pub returns : result ≡ some (spec.0, after)
  pub holds : Holds after spec.1
  pub same_size : after.size ≡ m.size

Refines-size :
    (m m' : Memory) (result : Option (Bool × Memory)) (spec : Bool × List Entry)
    → m'.size ≡ m.size
    → Refines m' result spec
    → Refines m result spec
Refines-size m m' result spec e r = record {
  after = r.after;
  returns = r.returns;
  holds = r.holds;
  same_size = r.same_size ∙ e;
}

module _ (key buffer : List ℕ) (k₁ : 1 ≤ length key) (k₂ : length key ≤ 255)
    (small : 3 + length key + length buffer < 65536) where
  write_if_room-Refines :
      (m : Memory) (xs : List Entry)
      → Holds m xs
      → Refines m
          (some (write_if_room m (end_of 1 xs) key buffer))
          (if room m.size key buffer xs then (true, xs ++ (item key buffer ∷ [])) else (false, xs))
  unfolding write_if_room
  write_if_room-Refines m xs h =
      let e : u32 (end_of 1 xs + 3 + length key + length buffer + 2)
          ≡ end_of 1 xs + 3 + length key + length buffer + 2 =
        omega (arith, h.fits) in
      elim (Bool-cases (room m.size key buffer xs)) [
        | inl wide ↦
            let (t, s) = write_last-Holds m xs key buffer h k₁ k₂ (ltb→lt _ _ wide) in
            rw (e, wide)
              (record {
                after = write_last m (end_of 1 xs) key buffer;
                returns = refl;
                holds = t;
                same_size = s;
              })
        | inr full ↦
            rw (e, full) (record { after = m; returns = refl; holds = h; same_size = refl })
      ]

  append-Refines :
      (m : Memory) (xs : List Entry)
      → Holds m xs
      → Refines m (append_item_to_end m 1 key buffer) (append m.size key buffer xs)
  unfolding append_item_to_end append
  append-Refines m xs h =
      let e : u32 (end_of 1 xs + 3 + length key + length buffer + 2)
          ≡ end_of 1 xs + 3 + length key + length buffer + 2 =
        omega (arith, h.fits) in
      rw (find_end-TableAt m 1 xs h.fits h.table, e)
        (elim (Bool-cases (room m.size key buffer xs)) [
          | inl wide ↦
              let (t, s) = write_last-Holds m xs key buffer h k₁ k₂ (ltb→lt _ _ wide) in
              rw wide (record {
                after = write_last m (end_of 1 xs) key buffer;
                returns = refl;
                holds = t;
                same_size = s;
              })
          | inr full ↦
              let d = defrag-Squeezed m xs h in
              let r =
                subst
                  (λ n.
                    Refines d.after (some (write_if_room d.after (end_of 1 (items xs)) key buffer))
                      (if room n key buffer (items xs)
                        then (true, items xs ++ (item key buffer ∷ []))
                        else (false, items xs)))
                  d.same_size (write_if_room-Refines d.after (items xs) d.holds) in
              rw (full, d.returns, find_end-TableAt d.after 1 (items xs) d.holds.fits d.holds.table)
                (Refines-size m d.after _ _ d.same_size r)
        ])

  store-split :
      (m : Memory) (before after : List Entry) (d : List ℕ)
      → lookup key before ≡ none
      → Holds m (before ++ (item key d ∷ after))
      → Refines m (store m key buffer) (
          if length d == length buffer
          then (true, before ++ (item key buffer ∷ after))
          else append m.size key buffer (before ++ (hole (3 + length key + length d) ∷ after)))
  unfolding store
  store-split m before after d fresh h =
      let xs = before ++ (item key d ∷ after) in
      let a = end_of 1 before in
      let total = 3 + length key + length d in
      let here = Holds-Here m before (item key d) after h in
      let same : (total == u16 (length buffer + 3 + length key)) ≡ (length d == length buffer) =
        ground arith in
      rw
        (
          find_item_by_key-TableAt m 1 key xs k₁ k₂ h.fits h.table,
          locate-split key d after 1 before fresh,
          info-item m a key d (k₁, k₂) here.entry (omega arith),
          same,
        )
        (elim (Bool-cases (length d == length buffer)) [
          | inl e ↦
              let eq : length buffer ≡ length d = ground arith in
              let w = write_item-Wrote m a key buffer k₂ small (omega arith) in
              let m' = (write_item m a key buffer).1 in
              rw e (record {
                after = m';
                returns = refl;
                holds =
                    Holds-edit m m' before (item key d) (item key buffer) after h (omega arith)
                      (k₁, k₂) w.entry w.confined;
                same_size = w.confined.same_size;
              })
          | inr e ↦
              let (t, s) = write_hole-Holds m before after key d h in
              let m' = (write_hole m a total).1 in
              let ys = before ++ (hole total ∷ after) in
              rw e (
                Refines-size m m' _ _ s (
                  subst
                    (λ n. Refines m' (append_item_to_end m' 1 key buffer) (append n key buffer ys))
                    s (append-Refines m' ys t)))
        ])

  -- `kveStore` refines `put`: it returns, with the flag and the table of the specification.
  pub store-Refines :
      (m : Memory) (xs : List Entry)
      → Holds m xs
      → Refines m (store m key buffer) (put m.size key buffer xs)
  unfolding put
  store-Refines m xs h = elim (Split-cases key xs) [
    | inl missing ↦
        unfold store in
        rw
          (
            find_item_by_key-TableAt m 1 key xs k₁ k₂ h.fits h.table,
            locate-none key 1 xs missing,
            missing,
            put,
          )
          (append-Refines m xs h)
    | inr s ↦
        rw (s.whole, put-split m.size key buffer s.buffer s.before s.after s.fresh)
          (store-split m s.before s.after s.buffer s.fresh (rw s.whole at h))
  ]
