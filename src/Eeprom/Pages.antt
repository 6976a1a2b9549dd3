-- ===== src/Eeprom/Pages.antt =====
-- take_page of Eeprom: how a buffer is cut into pages.
use zephyr_nano_drone.Prelude.{
  ℕ, ◌+◌, ◌%◌, ◌≤◌, ◌<◌, ◌≡◌, refl, Bool-cases, inl, inr, List, [], ◌∷◌, ◌++◌, arith, length, ◌==◌,
  ◌||◌, u16, ap, subst, length-append,
}
use zephyr_nano_drone.Eeprom.{take_page}

-- Cut and left parts make up the buffer.
pub take_page-++ : (a : ℕ) (bs : List ℕ) → (take_page a bs).0 ++ (take_page a bs).1 ≡ bs
unfolding take_page
take_page-++ a [] = refl
take_page-++ a (b ∷ bs) = elim (Bool-cases ((length bs == 0) || (u16 (a + 1) % 32 == 0))) [
  | inl e ↦ rw e refl
  | inr e ↦ rw e (ap (λ r. b ∷ r) (take_page-++ (a + 1) bs))
]

-- A page has a byte of a buffer that is not empty.
pub take_page_nonempty : (a : ℕ) (bs : List ℕ) → 1 ≤ length bs → 1 ≤ length (take_page a bs).0
unfolding take_page
take_page_nonempty a [] h = h
take_page_nonempty a (b ∷ bs) h = ground arith

-- A page does not cross a boundary of 32 bytes.
pub take_page_bound :
    (a : ℕ) (bs : List ℕ) → a + length bs < 65536 → a % 32 + length (take_page a bs).0 ≤ 32
unfolding take_page
take_page_bound a [] h = omega arith
take_page_bound a (b ∷ bs) h = elim (Bool-cases ((length bs == 0) || (u16 (a + 1) % 32 == 0))) [
  | inl e ↦ rw e (omega arith)
  | inr e ↦
      let inside : (a + 1) % 32 ≡ a % 32 + 1 = ground arith in
      rw e (omega (arith, inside, take_page_bound (a + 1) bs (omega arith)))
]

-- Addresses 256 apart are cut alike.
pub take_page_alias :
    (a b : ℕ) (bs : List ℕ) → a ≡ b + 256 → a + length bs < 65536 → take_page a bs ≡ take_page b bs
unfolding take_page
take_page_alias a b [] e h = refl
take_page_alias a b (x ∷ bs) e h =
    let same : u16 (a + 1) % 32 ≡ u16 (b + 1) % 32 = omega arith in
    rw (same, take_page_alias (a + 1) (b + 1) bs (omega arith) (omega arith)) refl

pub length-take_page :
    (a : ℕ) (bs : List ℕ) → length bs ≡ length (take_page a bs).0 + length (take_page a bs).1
length-take_page a bs =
    subst (λ t. length t ≡ length (take_page a bs).0 + length (take_page a bs).1)
      (take_page-++ a bs) (length-append (take_page a bs).0 (take_page a bs).1)
