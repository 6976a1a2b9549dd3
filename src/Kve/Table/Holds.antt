-- ===== src/Kve/Table/Holds.antt =====
-- When a memory holds a table, and the edits that the operations make to it.
use zephyr_nano_drone.Prelude.{
  ℕ, ◌+◌, ◌≤◌, ◌<◌, ◌≡◌, sym, ap, ◌∙◌, List, [], ◌∷◌, ◌++◌, arith, length, append-nil,
}
use zephyr_nano_drone.Kve.Memory.{Memory, Confined}
use zephyr_nano_drone.Kve.Storage.{get_item_info, write_item, write_end}
use zephyr_nano_drone.Kve.Storage.Layout.{
  Entry, item, entry_length, EntryOk, EntryAt, ChainAt, TableAt, end_of, end_of-le, end_of-append,
  TableAt-split, TableAt-join, EntryAt-Agree, ChainAt-Agree, TableAt-Agree,
}
use zephyr_nano_drone.Kve.Storage.Find.{Fits}
use zephyr_nano_drone.Kve.Storage.Write.{write_item-Wrote, write_end-TableAt}
use zephyr_nano_drone.Kve.Table.{kve_version, write_last}

-- The memory has the version byte, and the entries `xs` with their end tag inside it.
pub record Holds (m : Memory) (xs : List Entry) : Type 0 where
  pub version : m.cell 0 ≡ kve_version
  pub fits : Fits m 1 xs
  pub table : TableAt m.cell 1 xs

-- What is known of the entry behind `before`.
pub record Here (m : Memory) (before : List Entry) (x : Entry) (after : List Entry) : Type 0 where
  pub ok : EntryOk x
  pub entry : EntryAt m.cell (end_of 1 before) x
  pub inside : end_of 1 before + entry_length x + 2 < m.size
  pub small : m.size < 65536
  pub chain : ChainAt m.cell 1 before
  pub rest : TableAt m.cell (end_of 1 before + entry_length x) after
  pub end : end_of (end_of 1 before + entry_length x) after + 2 < m.size

pub Holds-Here :
    (m : Memory) (before : List Entry) (x : Entry) (after : List Entry)
    → Holds m (before ++ (x ∷ after))
    → Here m before x after
Holds-Here m before x after h =
    let (c, t) = TableAt-split m.cell 1 before (x ∷ after) h.table in
    let a = end_of 1 before + entry_length x in
    let e = end_of-append 1 before (x ∷ after) in
    record {
      ok = t.0;
      entry = t.1;
      inside = omega (arith, h.fits, e, end_of-le a after);
      small = h.fits.1;
      chain = c;
      rest = t.2;
      end = omega (arith, h.fits, e);
    }

-- The header of an item, as the operations read it back.
pub info-item :
    (m : Memory) (a : ℕ) (k d : List ℕ)
    → EntryOk (item k d)
    → EntryAt m.cell a (item k d)
    → 3 + length k + length d < 65536
    → get_item_info m a ≡ record { full_length = 3 + length k + length d; key_length = length k }
unfolding get_item_info
info-item m a k d o e h = ground arith

-- An entry overwritten by one of the same length.
pub Holds-edit :
    (m m' : Memory) (before : List Entry) (x y : Entry) (after : List Entry)
    → Holds m (before ++ (x ∷ after))
    → entry_length y ≡ entry_length x
    → EntryOk y
    → EntryAt m'.cell (end_of 1 before) y
    → Confined m m' (end_of 1 before) (end_of 1 before + entry_length y)
    → Holds m' (before ++ (y ∷ after))
Holds-edit m m' before x y after h e o t c =
    let here = Holds-Here m before x after h in
    let a = end_of 1 before in
    record {
      version = sym (c.below 0 (omega (arith, end_of-le 1 before))) ∙ h.version;
      fits = omega (
        arith,
        h.fits,
        c.same_size,
        end_of-append 1 before (x ∷ after),
        end_of-append 1 before (y ∷ after),
        ap (λ n. end_of (a + n) after) e,
      );
      table =
          TableAt-join m'.cell 1 before (y ∷ after)
            (ChainAt-Agree m.cell m'.cell 1 before (λ x l u. c.below x u) here.chain)
            (
              o,
              t,
              TableAt-Agree m.cell m'.cell (a + entry_length y) after (λ x l u. c.above x l)
                  (rw e here.rest),
            );
    }

-- An item and the end tag written behind the last entry.
pub write_last-Holds :
    (m : Memory) (xs : List Entry) (key buffer : List ℕ)
    → Holds m xs
    → 1 ≤ length key
    → length key ≤ 255
    → end_of 1 xs + 3 + length key + length buffer + 2 < m.size
    → Holds (write_last m (end_of 1 xs) key buffer) (xs ++ (item key buffer ∷ []))
      × ((write_last m (end_of 1 xs) key buffer).size ≡ m.size)
unfolding write_last write_end
write_last-Holds m xs key buffer h k₁ k₂ room =
    let a = end_of 1 xs in
    let total = 3 + length key + length buffer in
    let w = write_item-Wrote m a key buffer k₂ (omega (arith, h.fits)) (omega (arith, h.fits)) in
    let m₁ = (write_item m a key buffer).1 in
    let (tag, c) = write_end-TableAt m₁ (a + total) (omega (arith, w.confined.same_size)) in
    let m₂ = (write_end m₁ (a + total)).1 in
    rw w.returned (
      record {
        version =
            sym (c.below 0 (omega arith))
            ∙ sym (w.confined.below 0 (omega (arith, end_of-le 1 xs)))
            ∙ h.version;
        fits = omega (
          arith,
          h.fits,
          c.same_size,
          w.confined.same_size,
          end_of-append 1 xs (item key buffer ∷ []),
        );
        table =
            TableAt-join m₂.cell 1 xs (item key buffer ∷ [])
              (ChainAt-Agree m.cell m₂.cell 1 xs
                (λ x l u. w.confined.below x u ∙ c.below x (omega arith))
                (TableAt-split m.cell 1 xs [] (rw append-nil h.table)).0)
              (
                (k₁, k₂),
                EntryAt-Agree m₁.cell m₂.cell a (item key buffer) (k₁, k₂) (λ x l u. c.below x u)
                    w.entry,
                tag,
              );
      },
      c.same_size ∙ w.confined.same_size,
    )
