-- ===== src/Kve/Table/Defrag/Round.antt =====
-- A round of kveDefrag of includes/kve/src/kve.c that moves a group of items.
use zephyr_nano_drone.Prelude.{
  ℕ, ◌+◌, ◌-◌, ◌≤◌, ◌≡◌, refl, ap, ◌∙◌, ◌⊎◌, inl, inr, some, List, [], ◌∷◌, ◌++◌, arith, length,
  length-append, sub_u32,
}
use zephyr_nano_drone.Kve.Memory.{Memory}
use zephyr_nano_drone.Kve.Storage.Layout.{
  Entry, item, hole, end_of, end_of-le, total_length, end_of-eq-add, AllItems, AllHoles,
}
use zephyr_nano_drone.Kve.Storage.Scan.{find_next_item-found}
use zephyr_nano_drone.Kve.Spec.{items}
use zephyr_nano_drone.Kve.Table.{defrag_round}
use zephyr_nano_drone.Kve.Table.Holds.{Holds}
use zephyr_nano_drone.Kve.Table.Defrag.Boundary.{
  parts, after_round, StartsAtHole, next_boundary-TableAt,
}

-- A round at a hole with an item somewhere behind it: the group of items up to the next hole, or
-- to the end, changes places with the holes before it.
pub round-move :
    (m : Memory) (ys : List Entry) (n : ℕ) (hs : List Entry) (k d : List ℕ) (gs tail : List Entry)
    → AllHoles hs
    → AllItems gs
    → StartsAtHole tail
    → Holds m (ys ++ (hole n ∷ (hs ++ (item k d ∷ (gs ++ tail)))))
    → defrag_round m (end_of 1 ys)
      ≡ some (
        after_round m ys n hs (item k d ∷ gs) tail,
        some (end_of 1 ys + total_length (item k d ∷ gs)),
      )
unfolding defrag_round
round-move m ys n hs k d gs tail i i' o h =
    let group = item k d ∷ gs in
    let p = parts m ys n hs group tail h in
    let a = end_of 1 ys in
    let g = n + total_length hs in
    let total = total_length group in
    let e₁ : end_of (a + n) hs ≡ a + g = omega (arith, end_of-eq-add (a + n) hs) in
    let e₂ : end_of (a + g) group ≡ a + g + total = end_of-eq-add (a + g) group in
    let big : 3 + length k + length d ≤ total =
      omega (arith, e₂, end_of-le (a + g + (3 + length k + length d)) gs) in
    let found =
      find_next_item-found m a n hs k d (gs ++ tail) (omega (arith, e₁, p.below, p.inside, big))
        (omega (arith, p.enough, length-append hs (group ++ tail))) h.fits.1 i p.first in
    let bound =
      next_boundary-TableAt m (a + g) group tail i' o (omega (arith, e₂, p.below, p.inside))
        (omega (arith, p.enough, length-append hs (group ++ tail), length-append group tail))
        h.fits.1 p.moving in
    let e₃ : sub_u32 (a + g + total) (a + g) ≡ total = omega (arith, p.below, p.inside, h.fits) in
    let e₄ : a + g - a ≡ g = omega arith in rw (found, e₁, bound, e₂, e₃, e₄)

-- The entries behind a hole: only holes, or holes, then a group of items up to the next hole.
pub record Group (zs : List Entry) : Type 0 where
  pub hs : List Entry
  pub k : List ℕ
  pub d : List ℕ
  pub gs : List Entry
  pub tail : List Entry
  pub whole : zs ≡ hs ++ (item k d ∷ (gs ++ tail))
  pub holes : AllHoles hs
  pub items_only : AllItems gs
  pub boundary : StartsAtHole tail

pub record Run (xs : List Entry) : Type 0 where
  pub gs : List Entry
  pub tail : List Entry
  pub whole : xs ≡ gs ++ tail
  pub items_only : AllItems gs
  pub boundary : StartsAtHole tail

pub Run-cases : (xs : List Entry) → Run xs
Run-cases [] = record { gs = []; tail = []; whole = refl; items_only = tt; boundary = tt }
Run-cases (hole n ∷ xs) = record {
  gs = [];
  tail = hole n ∷ xs;
  whole = refl;
  items_only = tt;
  boundary = tt;
}
Run-cases (item k d ∷ xs) =
    let r = Run-cases xs in
    record {
      gs = item k d ∷ r.gs;
      tail = r.tail;
      whole = ap (λ t. item k d ∷ t) r.whole;
      items_only = r.items_only;
      boundary = r.boundary;
    }

pub Group-cases : (zs : List Entry) → AllHoles zs ⊎ Group zs
Group-cases [] = inl tt
Group-cases (item k d ∷ zs) =
    let r = Run-cases zs in
    inr (record {
      hs = [];
      k = k;
      d = d;
      gs = r.gs;
      tail = r.tail;
      whole = ap (λ t. item k d ∷ t) r.whole;
      holes = tt;
      items_only = r.items_only;
      boundary = r.boundary;
    })
Group-cases (hole n ∷ zs) = elim (Group-cases zs) [
  | inl h ↦ inl h
  | inr g ↦ inr (record {
    hs = hole n ∷ g.hs;
    k = g.k;
    d = g.d;
    gs = g.gs;
    tail = g.tail;
    whole = ap (λ t. hole n ∷ t) g.whole;
    holes = g.holes;
    items_only = g.items_only;
    boundary = g.boundary;
  })
]

pub items_of_holes : (hs : List Entry) → AllHoles hs → items hs ≡ []
items_of_holes [] i = refl
items_of_holes (item k d ∷ hs) i = absurd i
items_of_holes (hole n ∷ hs) i = items_of_holes hs i

pub items_of_items : (gs : List Entry) → AllItems gs → items gs ≡ gs
items_of_items [] i = refl
items_of_items (item k d ∷ gs) i = ap (λ t. item k d ∷ t) (items_of_items gs i)
items_of_items (hole n ∷ gs) i = absurd i

pub items-append : (xs ys : List Entry) → items (xs ++ ys) ≡ items xs ++ items ys
items-append [] ys = refl
items-append (item k d ∷ xs) ys = ap (λ t. item k d ∷ t) (items-append xs ys)
items-append (hole n ∷ xs) ys = items-append xs ys

pub items-Group :
    (zs : List Entry) (g : Group zs) → items zs ≡ (item g.k g.d ∷ g.gs) ++ items g.tail
items-Group zs g =
    ap items g.whole
    ∙ items-append g.hs (item g.k g.d ∷ (g.gs ++ g.tail))
    ∙ ap (λ t. t ++ (item g.k g.d ∷ items (g.gs ++ g.tail))) (items_of_holes g.hs g.holes)
    ∙ ap (λ t. item g.k g.d ∷ t)
        (items-append g.gs g.tail ∙ ap (λ t. t ++ items g.tail) (items_of_items g.gs g.items_only))
