-- ===== src/Log/Blocks/Links.antt =====
-- An operation linked at the end of a chain by blockAppendOps of src/log.c, and a chain freed.
use zephyr_nano_drone.Prelude.{
  ℕ, zero, suc, ◌≤◌, ◌<◌, ◌≡◌, ◌≢◌, refl, ◌∙◌, ap, Option, none, some, List, [], ◌∷◌, ◌++◌, arith,
  length, ℕ_discrete, Ends, Ends-weaken,
}
use zephyr_nano_drone.Log.Blocks.{Pool, update, last_loop, free_loop, ops_free, block_append_ops}
use zephyr_nano_drone.Log.Blocks.Counting.{occurs, occurs_here, occurs_other}
use zephyr_nano_drone.Log.Blocks.Chains.{
  Chain, Chain-frame, update_here, update_other, update_field,
}

abbrev last_of : ℕ → List ℕ → ℕ
last_of x [] = x
last_of x (y ∷ ys) = last_of y ys

occurs-last_of : (x : ℕ) (xs : List ℕ) → 1 ≤ occurs (last_of x xs) (x ∷ xs)
occurs-last_of x [] = omega (arith, occurs_here x [])
occurs-last_of x (y ∷ ys) = omega (arith, occurs-last_of y ys)

last_loop-Chain :
    (fuel : ℕ) (ops : Pool) (x : ℕ) (xs : List ℕ)
    → length xs < fuel
    → Chain ops (ops x).next xs
    → last_loop fuel ops x ≡ some (last_of x xs)
unfolding last_loop
last_loop-Chain zero ops x xs l c = absurd (omega arith)
last_loop-Chain (suc fuel) ops x [] l c = rw (c, last_loop) refl
last_loop-Chain (suc fuel) ops x (y ∷ ys) l c =
    rw (c.0, last_loop) (last_loop-Chain fuel ops y ys (omega arith) c.1)

-- The last operation linked to `k`.
relink :
    (ops : Pool) (x k : ℕ) (xs : List ℕ)
    → ((j : ℕ) → occurs j (x ∷ xs) ≤ 1)
    → occurs k (x ∷ xs) ≡ 0
    → (ops k).next ≡ none
    → Chain ops (ops x).next xs
    → Chain
        (update ops (last_of x xs) (record (ops (last_of x xs)) { next = some k }))
        (update ops (last_of x xs) (record (ops (last_of x xs)) { next = some k }) x).next
        (xs ++ (k ∷ []))
relink ops x k [] d fresh e c =
    let apart : k ≢ x =
      λ q. omega (arith, ap (λ z. occurs z (x ∷ [])) q, fresh, occurs_here x []) in
    let last = record (ops x) { next = some k } in
    (
      ap (λ z. z.next) (update_here ops x last),
      ap (λ z. z.next) (update_other ops x k last apart) ∙ e,
    )
relink ops x k (y ∷ ys) d fresh e c =
    let o = last_of y ys in
    let last = record (ops o) { next = some k } in
    let apart : x ≢ o = λ q.
      omega
        (arith, d x, occurs_here x (y ∷ ys), ap (λ z. occurs z (y ∷ ys)) q, occurs-last_of y ys) in
    let rest = relink ops y k ys (λ j. omega (arith, d j)) (omega (arith, fresh)) e c.1 in
    (ap (λ z. z.next) (update_other ops o x last apart) ∙ c.0, rest)

-- `k` linked at the end of a chain: the new chain, and what has not changed.
pub record Linked (ops : Pool) (xs : List ℕ) (k : ℕ) (r : Option ℕ × Pool) : Type 0 where
  pub chain : Chain r.1 r.0 (xs ++ (k ∷ []))
  pub variables : (j : ℕ) → (r.1 j).variable ≡ (ops j).variable
  pub log_types : (j : ℕ) → (r.1 j).log_type ≡ (ops j).log_type
  pub others : (j : ℕ) → j ≢ k → occurs j xs ≡ 0 → (r.1 j).next ≡ (ops j).next

pub block_append_ops-Linked :
    (ops : Pool) (head : Option ℕ) (xs : List ℕ) (k : ℕ)
    → length xs ≤ 128
    → ((j : ℕ) → occurs j xs ≤ 1)
    → occurs k xs ≡ 0
    → Chain ops head xs
    → Ends (Linked ops xs k) (block_append_ops ops head k)
unfolding block_append_ops
block_append_ops-Linked ops head [] k l d fresh c =
    let last = record (ops k) { next = none } in
    rw c (record {
      chain = (refl, ap (λ z. z.next) (update_here ops k last));
      variables = λ j. update_field (λ z. z.variable) ops k last j refl;
      log_types = λ j. update_field (λ z. z.log_type) ops k last j refl;
      others = λ j a b. ap (λ z. z.next) (update_other ops k j last a);
    })
block_append_ops-Linked ops head (x ∷ xs) k l d fresh c =
    let last = record (ops k) { next = none } in
    let cut = update ops k last in
    let o = last_of x xs in
    let tied = record (cut o) { next = some k } in
    let framed =
      Chain-frame ops cut (some x) (x ∷ xs)
        (λ j m.
          ap (λ z. z.next)
            (update_other ops k j last
              (λ q. omega (arith, m, fresh, ap (λ z. occurs z (x ∷ xs)) q))))
        (refl, c.1) in
    let ends_at = last_loop-Chain 129 cut x xs (omega arith) framed.1 in
    let tail = relink cut x k xs d fresh (ap (λ z. z.next) (update_here ops k last)) framed.1 in
    rw (c.0, ends_at)
      (record {
        chain = (refl, tail);
        variables = λ j.
            update_field (λ z. z.variable) cut o tied j refl
            ∙ update_field (λ z. z.variable) ops k last j refl;
        log_types = λ j.
            update_field (λ z. z.log_type) cut o tied j refl
            ∙ update_field (λ z. z.log_type) ops k last j refl;
        others = λ j a b.
            let off : j ≢ o =
              λ q. omega (arith, b, occurs-last_of x xs, ap (λ z. occurs z (x ∷ xs)) q) in
            ap (λ z. z.next) (update_other cut o j tied off ∙ update_other ops k j last a);
      })

-- A chain freed: the variables of its operations are cleared, and nothing else has changed.
pub record Freed (ops : Pool) (xs : List ℕ) (ops' : Pool) : Type 0 where
  pub cleared : (k : ℕ) → 1 ≤ occurs k xs → (ops' k).variable ≡ 0
  pub kept : (k : ℕ) → occurs k xs ≡ 0 → (ops' k).variable ≡ (ops k).variable
  pub log_types : (k : ℕ) → (ops' k).log_type ≡ (ops k).log_type
  pub nexts : (k : ℕ) → (ops' k).next ≡ (ops k).next

pub free_loop-Freed :
    (fuel : ℕ) (ops : Pool) (head : Option ℕ) (xs : List ℕ)
    → length xs < fuel
    → Chain ops head xs
    → Ends (Freed ops xs) (free_loop fuel ops head)
unfolding free_loop
free_loop-Freed zero ops head xs l c = absurd (omega arith)
free_loop-Freed (suc fuel) ops head [] l c = rw c (record {
  cleared = λ k m. absurd (omega (arith, m));
  kept = λ k m. refl;
  log_types = λ k. refl;
  nexts = λ k. refl;
})
free_loop-Freed (suc fuel) ops head (x ∷ xs) l c =
    let free = record (ops x) { variable = 0 } in
    let ops₁ = ops_free ops x in
    let same : (k : ℕ) → (ops₁ k).next ≡ (ops k).next =
      λ k. update_field (λ z. z.next) ops x free k refl in
    let rest =
      free_loop-Freed fuel ops₁ (ops x).next xs (omega arith)
        (Chain-frame ops ops₁ (ops x).next xs (λ k m. same k) c.1) in
    rw c.0 (
      Ends-weaken (Freed ops₁ xs) (Freed ops (x ∷ xs)) (free_loop fuel ops₁ (ops x).next) rest
        (λ ops' f. record {
          cleared = λ k m. elim (ℕ_discrete k x) [
            | yes q ↦ elim (ℕ_discrete (occurs k xs) 0) [
              | yes none_left ↦
                  f.kept k none_left
                  ∙ (ap (λ z. (ops₁ z).variable) q ∙ ap (λ z. z.variable) (update_here ops x free))
              | no left ↦ f.cleared k (omega (arith, left))
            ]
            | no d ↦ f.cleared k (omega (arith, m, occurs_other k x xs d))
          ];
          kept = λ k m.
              f.kept k (omega (arith, m))
              ∙ ap (λ z. z.variable)
                  (update_other ops x k free
                    (λ q. omega (arith, m, occurs_here x xs, ap (λ z. occurs z (x ∷ xs)) q)));
          log_types = λ k. f.log_types k ∙ update_field (λ z. z.log_type) ops x free k refl;
          nexts = λ k. f.nexts k ∙ same k;
        }))
