-- ===== src/Log/Blocks/Chains.antt =====
-- The chains of operations: what the loops of src/log.c do on a chain that spells a list of indices.
use zephyr_nano_drone.Prelude.{
  ℕ, zero, suc, ◌+◌, ◌≤◌, ◌<◌, ◌≡◌, ◌≢◌, refl, sym, ◌∙◌, ap, subst, true, false, Option, none, some,
  List, [], ◌∷◌, ◌++◌, arith, ◌==◌, length, ℕ_discrete,
}
use zephyr_nano_drone.Log.Blocks.{Pool, type_length, update, length_loop}
use zephyr_nano_drone.Log.Blocks.Counting.{occurs, occurs_here}

-- From `head` on, the pool links the operations of the list and no more.
abbrev pub Chain : Pool → Option ℕ → List ℕ → Type 0
Chain ops head [] = head ≡ none
Chain ops head (k ∷ ks) = (head ≡ some k) × Chain ops (ops k).next ks

-- The bytes of the operations in a packet.
abbrev pub lengths : (ℕ → ℕ) → Pool → List ℕ → ℕ
lengths past ops [] = 0
lengths past ops (k ∷ ks) = type_length past (ops k).log_type + lengths past ops ks

pub length_loop-Chain :
    (fuel : ℕ) (past : ℕ → ℕ) (ops : Pool) (head : Option ℕ) (xs : List ℕ) (len : ℕ)
    → length xs < fuel
    → Chain ops head xs
    → length_loop fuel past ops head len ≡ some (len + lengths past ops xs)
unfolding length_loop
length_loop-Chain zero past ops head xs len l c = absurd (omega arith)
length_loop-Chain (suc fuel) past ops head [] len l c = rw c (ap (λ z. some z) (omega arith))
length_loop-Chain (suc fuel) past ops head (k ∷ ks) len l c = rw c.0 (
    length_loop-Chain fuel past ops (ops k).next ks (len + type_length past (ops k).log_type)
      (omega arith) c.1
    ∙ ap (λ z. some z) (omega arith))

-- A pool that links the operations of the list as another does.
pub Chain-frame :
    (ops ops' : Pool) (head : Option ℕ) (xs : List ℕ)
    → ((k : ℕ) → 1 ≤ occurs k xs → (ops' k).next ≡ (ops k).next)
    → Chain ops head xs
    → Chain ops' head xs
Chain-frame ops ops' head [] h c = c
Chain-frame ops ops' head (k ∷ ks) h c = (
  c.0,
  subst (λ z. Chain ops' z ks) (sym (h k (omega (arith, occurs_here k ks))))
      (Chain-frame ops ops' (ops k).next ks (λ j l. h j (omega (arith, l))) c.1),
)

pub lengths_frame :
    (past : ℕ → ℕ) (ops ops' : Pool) (xs : List ℕ)
    → ((k : ℕ) → 1 ≤ occurs k xs → (ops' k).log_type ≡ (ops k).log_type)
    → lengths past ops' xs ≡ lengths past ops xs
lengths_frame past ops ops' [] h = refl
lengths_frame past ops ops' (k ∷ ks) h = omega (
  arith,
  ap (type_length past) (h k (omega (arith, occurs_here k ks))),
  lengths_frame past ops ops' ks (λ j l. h j (omega (arith, l))),
)

pub lengths-++ :
    (past : ℕ → ℕ) (ops : Pool) (xs ys : List ℕ)
    → lengths past ops (xs ++ ys) ≡ lengths past ops xs + lengths past ops ys
lengths-++ past ops [] ys = omega arith
lengths-++ past ops (x ∷ xs) ys = omega (arith, lengths-++ past ops xs ys)

pub update_here {ℓ} : {A : Type ℓ} (f : ℕ → A) (i : ℕ) (a : A) → update f i a i ≡ a
update_here f i a = let e : (i == i) ≡ true = ground arith in rw e refl

pub update_other {ℓ} : {A : Type ℓ} (f : ℕ → A) (i j : ℕ) (a : A) → j ≢ i → update f i a j ≡ f j
update_other f i j a d = let e : (j == i) ≡ false = ground (arith, d) in rw e refl

pub update_field {ℓ κ} :
    {A : Type ℓ} {B : Type κ} (get : A → B) (f : ℕ → A) (i : ℕ) (a : A) (j : ℕ)
    → get a ≡ get (f i)
    → get (update f i a j) ≡ get (f j)
update_field get f i a j e = elim (ℕ_discrete j i) [
  | yes q ↦
      ap (λ z. get (update f i a z)) q
      ∙ (ap get (update_here f i a) ∙ (e ∙ ap (λ z. get (f z)) (sym q)))
  | no d ↦ ap get (update_other f i j a d)
]

-- A property of each index and its values in two families, when both change at one index.
pub update_ind {ℓ κ} :
    {A : Type ℓ} {B : Type κ} (P : ℕ → A → B → Type 0) (f : ℕ → A) (g : ℕ → B) (b : ℕ) (a : A)
    (c : B)
    → P b a c
    → ((i : ℕ) → i ≢ b → P i (f i) (g i))
    → (i : ℕ) → P i (update f b a i) (update g b c i)
update_ind P f g b a c h o i = elim (ℕ_discrete i b) [
  | yes q ↦ let e : (i == b) ≡ true = ground (arith, q) in rw e (subst (λ j. P j a c) (sym q) h)
  | no d ↦ let e : (i == b) ≡ false = ground (arith, d) in rw e (o i d)
]
