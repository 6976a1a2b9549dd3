-- ===== src/Kve/Table/Defrag/Boundary.antt =====
-- kveDefrag of includes/kve/src/kve.c: the last round, and where a group of items ends.
use zephyr_nano_drone.Prelude.{
  ℕ, ◌+◌, ◌≤◌, ◌<◌, ◌≡◌, refl, sym, ap, ◌∙◌, inl, inr, none, some, List, [], ◌∷◌, ◌++◌, append-nil,
  arith, length,
}
use zephyr_nano_drone.Kve.Memory.{Memory}
use zephyr_nano_drone.Kve.Storage.{at, write_end, write_hole, move_memory}
use zephyr_nano_drone.Kve.Storage.Layout.{
  Entry, item, hole, TableAt, ChainAt, end_of, end_of-le, end_of-append, total_length,
  end_of-eq-add, TableAt-split, TableAt-join, ChainAt-join, ChainAt-Agree, TableAt-Agree, AllItems,
  AllHoles,
}
use zephyr_nano_drone.Kve.Storage.Find.{find_end-TableAt, length-le-end_of}
use zephyr_nano_drone.Kve.Storage.Write.{write_hole-Wrote, write_end-TableAt}
use zephyr_nano_drone.Kve.Storage.Move.{move_memory-Moved, ChainAt-shift}
use zephyr_nano_drone.Kve.Storage.Scan.{find_hole-found, find_hole-end, find_next_item-end}
use zephyr_nano_drone.Kve.Table.{defrag_round, next_boundary}
use zephyr_nano_drone.Kve.Table.Holds.{Holds}

-- The last hole, with nothing but holes behind it, becomes the end of the table.
pub round-last :
    (m : Memory) (ys : List Entry) (n : ℕ) (hs : List Entry)
    → AllHoles hs
    → Holds m (ys ++ (hole n ∷ hs))
    → (m' : Memory) × (defrag_round m (end_of 1 ys) ≡ some (m', none))
      × Holds m' ys
      × (m'.size ≡ m.size)
unfolding defrag_round
round-last m ys n hs i h =
    let a = end_of 1 ys in
    let (c, t) = TableAt-split m.cell 1 ys (hole n ∷ hs) h.table in
    let e = end_of-append 1 ys (hole n ∷ hs) in
    let l = length-le-end_of m.cell a (hole n ∷ hs) t in
    let low = end_of-le (a + n) hs in
    let (tag, w) = write_end-TableAt m a (omega (arith, h.fits, e, low)) in
    let m' = (write_end m a).1 in
    (
      m',
      rw (
          find_next_item-end m a n hs (omega (arith, h.fits, e)) (omega (arith, h.fits, e, l))
            h.fits.1 i t),
      record {
        version = sym (w.below 0 (omega (arith, end_of-le 1 ys))) ∙ h.version;
        fits = omega (arith, h.fits, e, low, w.same_size);
        table = rw append-nil at (
            TableAt-join m'.cell 1 ys []
              (ChainAt-Agree m.cell m'.cell 1 ys (λ x l u. w.below x u) c) tag);
      },
      w.same_size,
    )

-- Nothing, or a hole and more.
abbrev pub StartsAtHole : List Entry → Type 0
StartsAtHole [] = Unit
StartsAtHole (item k d ∷ xs) = ⊥
StartsAtHole (hole n ∷ xs) = Unit

-- A group of items `gs` is moved down over the holes before it.
module _ (m : Memory) (ys : List Entry) (n : ℕ) (hs gs tail : List Entry) where
  -- Where the hole starts, and how much room it and the holes behind it take.
  abbrev pub start : ℕ
  start = end_of 1 ys

  abbrev pub gap : ℕ
  gap = n + total_length hs

  abbrev pub moved : Memory
  moved = move_memory m (start + gap) start (total_length gs)

  abbrev pub after_round : Memory
  after_round = (write_hole moved (start + total_length gs) gap).1

  -- The parts of the table before the round.
  pub record Parts : Type 0 where
    pub before : ChainAt m.cell 1 ys
    pub wide : 4 ≤ n
    pub first : TableAt m.cell start (hole n ∷ (hs ++ (gs ++ tail)))
    pub group : ChainAt m.cell (start + gap) gs
    pub moving : TableAt m.cell (start + gap) (gs ++ tail)
    pub rest : TableAt m.cell (start + gap + total_length gs) tail
    pub inside : end_of (start + gap + total_length gs) tail + 2 < m.size
    pub below : start + gap + total_length gs ≤ end_of (start + gap + total_length gs) tail
    pub enough : length (hs ++ (gs ++ tail)) + 1 ≤ m.size

  pub parts : Holds m (ys ++ (hole n ∷ (hs ++ (gs ++ tail)))) → Parts
  parts h =
      let (c, t) = TableAt-split m.cell 1 ys (hole n ∷ (hs ++ (gs ++ tail))) h.table in
      let (_, t₂) = TableAt-split m.cell (start + n) hs (gs ++ tail) t.2 in
      let (g, r) = TableAt-split m.cell (end_of (start + n) hs) gs tail t₂ in
      let e₁ : end_of (start + n) hs ≡ start + gap = omega (arith, end_of-eq-add (start + n) hs) in
      let e₂ : end_of (end_of (start + n) hs) gs ≡ start + gap + total_length gs =
        omega (arith, e₁, end_of-eq-add (end_of (start + n) hs) gs) in
      let e₃ : end_of 1 (ys ++ (hole n ∷ (hs ++ (gs ++ tail))))
          ≡ end_of (end_of (end_of (start + n) hs) gs) tail =
        end_of-append 1 ys (hole n ∷ (hs ++ (gs ++ tail)))
        ∙ end_of-append (start + n) hs (gs ++ tail)
        ∙ end_of-append (end_of (start + n) hs) gs tail in
      record {
        before = c;
        wide = t.0;
        first = t;
        group = rw e₁ at g;
        moving = rw e₁ at t₂;
        rest = rw e₂ at r;
        inside = omega (arith, h.fits, e₃, ap (λ a. end_of a tail) e₂);
        below = end_of-le (start + gap + total_length gs) tail;
        enough = omega (
          arith,
          h.fits,
          end_of-append 1 ys (hole n ∷ (hs ++ (gs ++ tail))),
          length-le-end_of m.cell start (hole n ∷ (hs ++ (gs ++ tail))) t,
        );
      }

  pub move-Holds :
      (h : Holds m (ys ++ (hole n ∷ (hs ++ (gs ++ tail)))))
      → Holds after_round ((ys ++ gs) ++ (hole gap ∷ tail)) × (after_round.size ≡ m.size)
  move-Holds h =
      let p = parts h in
      let total = total_length gs in
      let mv =
        move_memory-Moved m (start + gap) start gap total refl (omega (arith, p.below, p.inside)) in
      let w =
        write_hole-Wrote moved (start + total) gap (omega (arith, p.wide))
          (omega (arith, p.below, p.inside, h.fits))
          (omega (arith, p.below, p.inside, mv.confined.same_size)) in
      let c = mv.confined in
      let c' = w.confined in
      let f = after_round.cell in
      let e : end_of start gs ≡ start + total = end_of-eq-add start gs in
      let e' : end_of 1 (ys ++ gs) ≡ start + total = end_of-append 1 ys gs ∙ e in
      let swap : start + total + gap ≡ start + gap + total = omega arith in
      (
        record {
          version =
              sym (c'.below 0 (omega (arith, end_of-le 1 ys)))
              ∙ sym (c.below 0 (omega (arith, end_of-le 1 ys)))
              ∙ h.version;
          fits = omega (
            arith,
            p.inside,
            h.fits,
            c.same_size,
            c'.same_size,
            e',
            end_of-append 1 (ys ++ gs) (hole gap ∷ tail),
            ap (λ a. end_of a tail) (ap (λ a. a + gap) e' ∙ swap),
          );
          table =
              TableAt-join f 1 (ys ++ gs) (hole gap ∷ tail)
                (ChainAt-join f 1 ys gs
                  (ChainAt-Agree m.cell f 1 ys (λ x l u. c.below x u ∙ c'.below x (omega arith))
                    p.before)
                  (ChainAt-Agree moved.cell f start gs (λ x l u. c'.below x (omega (arith, e)))
                    (ChainAt-shift m.cell moved.cell start gap gs (start + gap) (start + total) refl
                      mv.copied (omega (arith, e)) p.group)))
                (rw e' (
                  omega (arith, p.wide),
                  w.entry,
                  rw swap (
                      TableAt-Agree m.cell f (start + gap + total) tail
                        (λ x l u. c.above x (omega arith) ∙ c'.above x (omega arith)) p.rest),
                ));
        },
        c'.same_size ∙ c.same_size,
      )

-- A group of items ends at the next hole, or at the end of the table.
pub next_boundary-TableAt :
    (m : Memory) (a : ℕ) (gs tail : List Entry)
    → AllItems gs
    → StartsAtHole tail
    → end_of a gs + 2 < m.size
    → length gs + 1 ≤ m.size
    → m.size < 65536
    → TableAt m.cell a (gs ++ tail)
    → next_boundary m a ≡ some (at (end_of a gs))
unfolding next_boundary
next_boundary-TableAt m a gs [] i o h l u t =
    let t' = rw append-nil at t in
    elim (find_hole-end m a gs h l u i t') [
      | inl none_left ↦ rw (none_left, find_end-TableAt m a gs (h, u) t')
      | inr at_end ↦ rw at_end
    ]
next_boundary-TableAt m a gs (item k d ∷ tail) i o h l u t = absurd o
next_boundary-TableAt m a gs (hole n ∷ tail) i o h l u t =
    rw (find_hole-found m a gs n tail h (omega arith) u i t)
