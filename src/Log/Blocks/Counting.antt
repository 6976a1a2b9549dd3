-- ===== src/Log/Blocks/Counting.antt =====
-- Counting: how often a number stands in a list, and sums over the first numbers.
use zephyr_nano_drone.Prelude.{
  ℕ, zero, suc, ◌+◌, ◌≤◌, ◌<◌, ◌≡◌, ◌≢◌, refl, ap, List, [], ◌∷◌, ◌++◌, arith, ◌==◌, if◌then◌else◌,
  length, dec_lt, ℕ_discrete,
}

abbrev pub occurs : ℕ → List ℕ → ℕ
occurs k [] = 0
occurs k (x ∷ xs) = (if x == k then 1 else 0) + occurs k xs

unfoldable pub total : ℕ → (ℕ → ℕ) → ℕ
total zero f = 0
total (suc n) f = total n f + f n

pub occurs_here : (x : ℕ) (xs : List ℕ) → occurs x (x ∷ xs) ≡ 1 + occurs x xs
occurs_here x xs = ground arith

pub occurs_other : (k x : ℕ) (xs : List ℕ) → k ≢ x → occurs k (x ∷ xs) ≡ occurs k xs
occurs_other k x xs d = ground arith

pub occurs-++ : (k : ℕ) (xs ys : List ℕ) → occurs k (xs ++ ys) ≡ occurs k xs + occurs k ys
occurs-++ k [] ys = omega arith
occurs-++ k (x ∷ xs) ys = omega (arith, occurs-++ k xs ys)

pub total_ext : (n : ℕ) (f g : ℕ → ℕ) → ((i : ℕ) → i < n → f i ≡ g i) → total n f ≡ total n g
unfolding total
total_ext zero f g h = refl
total_ext (suc n) f g h =
    omega (arith, total_ext n f g (λ i l. h i (omega arith)), h n (omega arith))

-- Two functions that differ at one place.
pub total_change :
    (n : ℕ) (f g : ℕ → ℕ) (i : ℕ)
    → i < n
    → ((j : ℕ) → j < n → j ≢ i → f j ≡ g j)
    → total n f + g i ≡ total n g + f i
unfolding total
total_change zero f g i l h = absurd (omega arith)
total_change (suc n) f g i l h = elim (ℕ_discrete i n) [
  | yes e ↦
      let same = total_ext n f g (λ j m. h j (omega arith) (λ q. omega (arith, q, e))) in
      omega (arith, same, ap f e, ap g e)
  | no e ↦
      let rest = total_change n f g i (omega (arith, e)) (λ j m. h j (omega arith)) in
      omega (arith, rest, h n (omega arith) (λ q. omega (arith, q, e)))
]

pub total-le : (n : ℕ) (f : ℕ → ℕ) → ((i : ℕ) → i < n → f i ≤ 1) → total n f ≤ n
unfolding total
total-le zero f h = omega arith
total-le (suc n) f h = omega (arith, total-le n f (λ i l. h i (omega arith)), h n (omega arith))

pub total_at : (n : ℕ) (f : ℕ → ℕ) (i : ℕ) → i < n → f i ≤ total n f
unfolding total
total_at zero f i l = absurd (omega arith)
total_at (suc n) f i l = elim (ℕ_discrete i n) [
  | yes e ↦ omega (arith, ap f e)
  | no e ↦ omega (arith, total_at n f i (omega (arith, e)))
]

pub total_two : (n : ℕ) (f : ℕ → ℕ) (i j : ℕ) → i < n → j < n → i ≢ j → f i + f j ≤ total n f
unfolding total
total_two zero f i j l m d = absurd (omega arith)
total_two (suc n) f i j l m d = elim (ℕ_discrete i n) [
  | yes e ↦ omega (arith, ap f e, total_at n f j (omega (arith, e, d)))
  | no e ↦ elim (ℕ_discrete j n) [
    | yes q ↦ omega (arith, ap f q, total_at n f i (omega (arith, e)))
    | no q ↦ omega (arith, total_two n f i j (omega (arith, e)) (omega (arith, q)) d)
  ]
]

pub total_zero : (n : ℕ) (f : ℕ → ℕ) → ((i : ℕ) → i < n → f i ≡ 0) → total n f ≡ 0
unfolding total
total_zero zero f h = refl
total_zero (suc n) f h = omega (arith, total_zero n f (λ i l. h i (omega arith)), h n (omega arith))

-- Distinct numbers below `n` are at most `n`.
length-total :
    (n : ℕ) (xs : List ℕ)
    → ((k : ℕ) → n ≤ k → occurs k xs ≡ 0)
    → length xs ≡ total n (λ k. occurs k xs)
length-total n [] h = omega (arith, total_zero n (λ k. occurs k []) (λ i l. refl))
length-total n (x ∷ xs) h =
    let here = occurs_here x xs in
    let rest = length-total n xs (λ k l. omega (arith, h k l)) in
    elim (dec_lt x n) [
      | yes l ↦
          let change =
            total_change n (λ k. occurs k (x ∷ xs)) (λ k. occurs k xs) x l
              (λ j m d. occurs_other j x xs d) in
          omega (arith, rest, change, here)
      | no l ↦ absurd (omega (arith, h x (omega (arith, l)), here))
    ]

pub length_bound :
    (n : ℕ) (xs : List ℕ)
    → ((k : ℕ) → n ≤ k → occurs k xs ≡ 0)
    → ((k : ℕ) → k < n → occurs k xs ≤ 1)
    → length xs ≤ n
length_bound n xs h d = omega (arith, length-total n xs h, total-le n (λ k. occurs k xs) d)
