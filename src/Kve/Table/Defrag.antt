-- ===== src/Kve/Table/Defrag.antt =====
-- kveDefrag of includes/kve/src/kve.c: every hole is squeezed out, every item kept in order.
pub mod Boundary
pub mod Round
use zephyr_nano_drone.Prelude.{
  ℕ, zero, suc, ◌+◌, ◌-◌, ◌≤◌, ◌<◌, ◌≡◌, refl, sym, ap, ◌∙◌, ◌⊎◌, inl, inr, Option, none, some,
  List, [], ◌∷◌, ◌++◌, append_assoc, append-nil, arith, length, length-append, sub_u32,
}
use zephyr_nano_drone.Kve.Memory.{Memory}
use zephyr_nano_drone.Kve.Storage.{at, write_end, write_hole, move_memory}
use zephyr_nano_drone.Kve.Storage.Layout.{
  Entry, item, hole, TableAt, ChainAt, end_of, end_of-le, end_of-append, total_length,
  end_of-eq-add, TableAt-split, TableAt-join, ChainAt-join, ChainAt-Agree, TableAt-Agree, AllItems,
  AllHoles,
}
use zephyr_nano_drone.Kve.Storage.Find.{find_end-TableAt, length-le-end_of}
use zephyr_nano_drone.Kve.Storage.Write.{write_hole-Wrote, write_end-TableAt}
use zephyr_nano_drone.Kve.Storage.Move.{move_memory-Moved, ChainAt-shift}
use zephyr_nano_drone.Kve.Storage.Scan.{
  find_hole-found, find_hole-end, find_next_item-found, find_next_item-end, find_next_item-at_end,
}
use zephyr_nano_drone.Kve.Spec.{items}
use zephyr_nano_drone.Kve.Table.{defrag, defrag_loop, defrag_round, next_boundary}
use zephyr_nano_drone.Kve.Table.Holds.{Holds}
use zephyr_nano_drone.Kve.Table.Defrag.Boundary.{
  after_round, move-Holds, start, gap, moved, round-last, StartsAtHole,
}
use zephyr_nano_drone.Kve.Table.Defrag.Round.{
  Run, Group, round-move, Run-cases, Group-cases, items_of_holes, items_of_items, items-append,
  items-Group,
}

-- What the loop gives back: a memory with the items alone.
pub record Squeezed (m : Memory) (xs : List Entry) (result : Option Memory) : Type 0 where
  pub after : Memory
  pub returns : result ≡ some after
  pub holds : Holds after xs
  pub same_size : after.size ≡ m.size

defrag_loop-Squeezed :
    (fuel : ℕ) (m : Memory) (ys : List Entry) (n : ℕ) (zs : List Entry)
    → length zs < fuel
    → Holds m (ys ++ (hole n ∷ zs))
    → Squeezed m (ys ++ items zs) (defrag_loop fuel m (end_of 1 ys))
unfolding defrag_loop
defrag_loop-Squeezed zero m ys n zs l h = absurd (omega arith)
defrag_loop-Squeezed (suc fuel) m ys n zs l h = elim (Group-cases zs) [
  | inl holes ↦
      let (m', e, h', s) = round-last m ys n zs holes h in
      record {
        after = m';
        returns = rw e;
        holds = rw (items_of_holes zs holes, append-nil) h';
        same_size = s;
      }
  | inr g ↦
      let group = item g.k g.d ∷ g.gs in
      let h' = rw g.whole at h in
      let e = round-move m ys n g.hs g.k g.d g.gs g.tail g.holes g.items_only g.boundary h' in
      let (t, s) = move-Holds m ys n g.hs group g.tail h' in
      let m' = after_round m ys n g.hs group g.tail in
      let q : end_of 1 ys + total_length group ≡ end_of 1 (ys ++ group) =
        sym (end_of-append 1 ys group ∙ end_of-eq-add (end_of 1 ys) group) in
      let shorter : length g.tail < fuel = omega (
        arith,
        ap length g.whole,
        length-append g.hs (group ++ g.tail),
        length-append g.gs g.tail,
      ) in
      let rest =
        defrag_loop-Squeezed fuel m' (ys ++ group) (n + total_length g.hs) g.tail shorter t in
      rw (e, q)
        (record {
          after = rest.after;
          returns = rest.returns;
          holds = rw (items-Group zs g, ← append_assoc) rest.holds;
          same_size = rest.same_size ∙ s;
        })
]

-- The end tag, taken for a hole, is written over itself.
round-end :
    (m : Memory) (ys : List Entry)
    → Holds m ys
    → (m' : Memory) × (defrag_round m (end_of 1 ys) ≡ some (m', none))
      × Holds m' ys
      × (m'.size ≡ m.size)
unfolding defrag_round
round-end m ys h =
    let a = end_of 1 ys in
    let (c, t) = TableAt-split m.cell 1 ys [] (rw append-nil h.table) in
    let (tag, w) = write_end-TableAt m a (omega (arith, h.fits)) in
    let m' = (write_end m a).1 in
    (
      m',
      rw (find_next_item-at_end m a t),
      record {
        version = sym (w.below 0 (omega (arith, end_of-le 1 ys))) ∙ h.version;
        fits = omega (arith, h.fits, w.same_size);
        table = rw append-nil at (
            TableAt-join m'.cell 1 ys []
              (ChainAt-Agree m.cell m'.cell 1 ys (λ x l u. w.below x u) c) tag);
      },
      w.same_size,
    )

defrag_loop-end :
    (fuel : ℕ) (m : Memory) (ys : List Entry)
    → 1 ≤ fuel
    → Holds m ys
    → Squeezed m ys (defrag_loop fuel m (end_of 1 ys))
unfolding defrag_loop
defrag_loop-end zero m ys l h = absurd (omega arith)
defrag_loop-end (suc fuel) m ys l h =
    let (m', r, t, s) = round-end m ys h in
    rw r (record { after = m'; returns = refl; holds = t; same_size = s })

defrag_run :
    (m : Memory) (gs tail : List Entry)
    → AllItems gs
    → StartsAtHole tail
    → Holds m (gs ++ tail)
    → Squeezed m (gs ++ items tail) (defrag m)
unfolding defrag
defrag_run m gs [] i o h =
    let h' : Holds m gs = rw append-nil at h in
    elim (find_hole-end m 1 gs h'.fits.0
      (omega (arith, h'.fits, length-le-end_of m.cell 1 gs h'.table)) h'.fits.1 i h'.table) [
        | inl e ↦ rw e (record { after = m; returns = refl; holds = h; same_size = refl })
        | inr e ↦ rw (e, append-nil) (defrag_loop-end (m.size + 1) m gs (omega arith) h')
      ]
defrag_run m gs (item k d ∷ tail) i o h = absurd o
defrag_run m gs (hole n ∷ tail) i o h =
    let e = end_of-append 1 gs (hole n ∷ tail) in
    let l = length-le-end_of m.cell 1 (gs ++ (hole n ∷ tail)) h.table in
    let k = length-append gs (hole n ∷ tail) in
    let low = end_of-le (end_of 1 gs) (hole n ∷ tail) in
    rw
      (find_hole-found m 1 gs n tail (omega (arith, h.fits, e, low)) (omega (arith, h.fits, l, k))
        h.fits.1 i h.table)
      (defrag_loop-Squeezed (m.size + 1) m gs n tail (omega (arith, h.fits, l, k)) h)

-- Defragmentation returns, and leaves exactly the items, in their order, with every hole gone.
pub defrag-Squeezed : (m : Memory) (xs : List Entry) → Holds m xs → Squeezed m (items xs) (defrag m)
defrag-Squeezed m xs h =
    let r = Run-cases xs in
    let e =
      ap items r.whole
      ∙ items-append r.gs r.tail
      ∙ ap (λ t. t ++ items r.tail) (items_of_items r.gs r.items_only) in
    rw e (defrag_run m r.gs r.tail r.items_only r.boundary (rw r.whole at h))
