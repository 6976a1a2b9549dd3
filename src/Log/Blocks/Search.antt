-- ===== src/Log/Blocks/Search.antt =====
-- What the searches of src/log.c find, among the blocks, the operations and the variables.
use zephyr_nano_drone.Prelude.{
  ℕ, zero, suc, ◌+◌, ◌≤◌, ◌<◌, ◌≡◌, ◌⊎◌, refl, ◌∙◌, ap, Bool, true, false, Bool-cases, inl, inr,
  Option, none, some, List, [], ◌∷◌, arith, ltb, ◌==◌, dec_lt, is_some, get_elem?, get_or,
}
use mathlib.Core.Option.{some-injective, none-ne-some}
use zephyr_nano_drone.Log.{LogEntry}
use zephyr_nano_drone.Log.Blocks.{find_first, has_id}

-- What a search finds: the index with its bounds, or that no index passes.
pub find_first-cases :
    (n i : ℕ) (test : ℕ → Bool)
    → ((k : ℕ) × (find_first n i test ≡ some k) × (i ≤ k) × (k < i + n) × (test k ≡ true))
      ⊎ ((find_first n i test ≡ none) × ((k : ℕ) → i ≤ k → k < i + n → test k ≡ false))
unfolding find_first
find_first-cases zero i test = inr (refl, λ k l m. absurd (omega arith))
find_first-cases (suc n) i test = elim (Bool-cases (test i)) [
  | inl e ↦ inl (i, rw e refl, omega arith, omega arith, e)
  | inr e ↦ elim (find_first-cases n (i + 1) test) [
    | inl (k, q, l, m, t) ↦ inl (k, rw e q, omega arith, omega arith, t)
    | inr (q, f) ↦ inr (
      rw e q,
      λ k l m. elim (dec_lt i k) [
        | yes after ↦ f k (omega arith) (omega arith)
        | no here ↦ ap test (omega (arith, here, l)) ∙ e
      ],
    )
  ]
]

pub has_id-active : (id : ℕ) (o : Option ℕ) → has_id id o ≡ true → is_some o ≡ true
unfolding has_id
has_id-active id none e = e
has_id-active id (some j) e = refl

pub unused : (v : ℕ) → (v == 0) ≡ true → v ≡ 0
unused v e = ground (arith, e)

pub room_left : (n len t : ℕ) → n ≡ len → ltb 26 (n + t) ≡ false → len + t ≤ 26
room_left n len t q e = ground (arith, q, e)

get_or-get_elem? :
    (xs : List LogEntry) (i : ℕ) (e d : LogEntry) → get_elem? xs i ≡ some e → get_or xs i d ≡ e
get_or-get_elem? [] i e d q = absurd (none-ne-some e q)
get_or-get_elem? (x ∷ xs) zero e d q = some-injective x e q
get_or-get_elem? (x ∷ xs) (suc i) e d q = get_or-get_elem? xs i e d q

-- The index at which the search for a variable from the first entry on ends.
pub entry_at :
    (logs : List LogEntry) (i : ℕ) (e d : LogEntry)
    → get_elem? logs i ≡ some e
    → get_or logs (0 + i) d ≡ e
entry_at logs i e d q = ap (λ z. get_or logs z d) (omega arith) ∙ get_or-get_elem? logs i e d q
