-- ===== src/Kve/Memory.antt =====
-- kveMemory_t of includes/kve/include/kve_common.h: a byte store of `size` bytes, behind the
-- function pointers `read`, `write` and `flush`.
use zephyr_nano_drone.Prelude.{
  ℕ, zero, suc, ◌+◌, ◌≤◌, ◌<◌, ◌≡◌, refl, sym, ◌∙◌, List, [], ◌∷◌, arith, leb, ◌==◌, if◌then◌else◌,
  length,
}

-- `cell a` is the byte at address `a`. Past the end it is what a failed read leaves in the buffer,
-- about which nothing is assumed.
pub record Memory : Type 0 where
  pub size : ℕ
  pub cell : ℕ → ℕ

-- The bytes from address `a` on, overwritten by `bs`.
unfoldable pub overlay : (ℕ → ℕ) → ℕ → List ℕ → ℕ → ℕ
overlay f a [] x = f x
overlay f a (b ∷ bs) x = if x == a then b else overlay f (a + 1) bs x

-- `kve->read(a, buffer, n)`.
unfoldable pub read_cells : (ℕ → ℕ) → ℕ → ℕ → List ℕ
read_cells f a zero = []
read_cells f a (suc n) = f a ∷ read_cells f (a + 1) n

abbrev pub read : Memory → ℕ → ℕ → List ℕ
read m a n = read_cells m.cell a n

-- `kve->write(a, buffer, n)`: all of the buffer, or nothing where it would pass the end.
unfoldable pub write : Memory → ℕ → List ℕ → Memory
write m a bs = if leb (a + length bs) m.size then record m { cell = overlay m.cell a bs } else m

-- The bytes from `a` on are `bs`.
abbrev pub Spells : (ℕ → ℕ) → ℕ → List ℕ → Type 0
Spells f a [] = Unit {0}
Spells f a (b ∷ bs) = (f a ≡ b) × Spells f (a + 1) bs

-- `f` and `g` hold the same bytes in `[lo, hi)`.
abbrev pub Agree : (ℕ → ℕ) → (ℕ → ℕ) → ℕ → ℕ → Type 0
Agree f g lo hi = (x : ℕ) → lo ≤ x → x < hi → f x ≡ g x

pub overlay_below : (f : ℕ → ℕ) (a : ℕ) (bs : List ℕ) (x : ℕ) → x < a → overlay f a bs x ≡ f x
unfolding overlay
overlay_below f a [] x h = refl
overlay_below f a (b ∷ bs) x h = ground (arith, overlay_below f (a + 1) bs x)

pub overlay_above :
    (f : ℕ → ℕ) (a : ℕ) (bs : List ℕ) (x : ℕ) → a + length bs ≤ x → overlay f a bs x ≡ f x
unfolding overlay
overlay_above f a [] x h = refl
overlay_above f a (b ∷ bs) x h = ground (arith, overlay_above f (a + 1) bs x)

pub Spells-Agree :
    (f g : ℕ → ℕ) (a : ℕ) (bs : List ℕ) (hi : ℕ)
    → Agree f g a hi
    → a + length bs ≤ hi
    → Spells f a bs
    → Spells g a bs
Spells-Agree f g a [] hi e h s = tt
Spells-Agree f g a (b ∷ bs) hi e h s = (
  ground (arith, e a),
  Spells-Agree f g (a + 1) bs hi (λ x l u. e x (omega arith) u) (omega arith) s.1,
)

pub overlay-Spells : (f : ℕ → ℕ) (a : ℕ) (bs : List ℕ) → Spells (overlay f a bs) a bs
unfolding overlay
overlay-Spells f a [] = tt
overlay-Spells f a (b ∷ bs) = (
  ground arith,
  Spells-Agree (overlay f (a + 1) bs) (overlay f a (b ∷ bs)) (a + 1) bs (a + 1 + length bs)
      (λ x l u. ground arith) (omega arith) (overlay-Spells f (a + 1) bs),
)

pub read-Spells :
    (f : ℕ → ℕ) (a : ℕ) (bs : List ℕ) → Spells f a bs → read_cells f a (length bs) ≡ bs
unfolding read_cells
read-Spells f a [] s = refl
read-Spells f a (b ∷ bs) s = ground (arith, read-Spells f (a + 1) bs s.1)

pub overlay-Agree_below :
    (f : ℕ → ℕ) (a : ℕ) (bs : List ℕ) (lo hi : ℕ) → hi ≤ a → Agree f (overlay f a bs) lo hi
overlay-Agree_below f a bs lo hi h x l u = sym (overlay_below f a bs x (omega arith))

pub overlay-Agree_above :
    (f : ℕ → ℕ) (a : ℕ) (bs : List ℕ) (lo hi : ℕ)
    → a + length bs ≤ lo
    → Agree f (overlay f a bs) lo hi
overlay-Agree_above f a bs lo hi h x l u = sym (overlay_above f a bs x (omega arith))

pub Agree-trans : (f g h : ℕ → ℕ) (lo hi : ℕ) → Agree f g lo hi → Agree g h lo hi → Agree f h lo hi
Agree-trans f g h lo hi p q x l u = p x l u ∙ q x l u

pub write_in_bounds :
    (m : Memory) (a : ℕ) (bs : List ℕ)
    → a + length bs ≤ m.size
    → write m a bs ≡ record m { cell = overlay m.cell a bs }
unfolding write
write_in_bounds m a bs h = ground arith

pub size-write : (m : Memory) (a : ℕ) (bs : List ℕ) → (write m a bs).size ≡ m.size
unfolding write
size-write m a bs = ground arith

-- Between `m` and `m'` only bytes in `[lo, hi)` may have changed.
pub record Confined (m m' : Memory) (lo hi : ℕ) : Type 0 where
  pub same_size : m'.size ≡ m.size
  pub below : (x : ℕ) → x < lo → m.cell x ≡ m'.cell x
  pub above : (x : ℕ) → hi ≤ x → m.cell x ≡ m'.cell x

pub Confined-refl : (m : Memory) (lo hi : ℕ) → Confined m m lo hi
Confined-refl m lo hi = record { same_size = refl; below = λ x h. refl; above = λ x h. refl }

pub Confined-trans :
    {m₁ m₂ m₃ : Memory} {lo lo' hi hi' : ℕ} (l h : ℕ)
    → Confined m₁ m₂ lo hi
    → Confined m₂ m₃ lo' hi'
    → l ≤ lo
    → l ≤ lo'
    → hi ≤ h
    → hi' ≤ h
    → Confined m₁ m₃ l h
Confined-trans l h c d e₁ e₂ e₃ e₄ = record {
  same_size = d.same_size ∙ c.same_size;
  below = λ x p. c.below x (omega arith) ∙ d.below x (omega arith);
  above = λ x p. c.above x (omega arith) ∙ d.above x (omega arith);
}

pub write-Confined :
    (m : Memory) (a : ℕ) (bs : List ℕ) (hi : ℕ)
    → a + length bs ≤ hi
    → Confined m (write m a bs) a hi
unfolding write
write-Confined m a bs hi h = record {
  same_size = ground arith;
  below = λ x p. ground (arith, overlay_below m.cell a bs x);
  above = λ x p. ground (arith, overlay_above m.cell a bs x);
}

pub write-Spells :
    (m : Memory) (a : ℕ) (bs : List ℕ) → a + length bs ≤ m.size → Spells (write m a bs).cell a bs
write-Spells m a bs h = rw (write_in_bounds m a bs h) (overlay-Spells m.cell a bs)

-- Bytes off the changed range still spell what they did.
pub Spells-below :
    {m m' : Memory} {lo hi : ℕ} (a : ℕ) (bs : List ℕ)
    → Confined m m' lo hi
    → a + length bs ≤ lo
    → Spells m.cell a bs
    → Spells m'.cell a bs
Spells-below {m} {m'} {lo} a bs c h s =
    Spells-Agree m.cell m'.cell a bs lo (λ x l u. c.below x u) h s
