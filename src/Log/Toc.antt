-- ===== src/Log/Toc.antt =====
-- The numbering of the variables by variableGetIndex of src/log.c.
use zephyr_nano_drone.Prelude.{
  ℕ, zero, suc, ◌+◌, ◌≤◌, ◌<◌, ◌≡◌, ◌⊎◌, refl, ◌∙◌, ap, false, Bool-cases, inl, inr, Option, none,
  some, List, [], ◌∷◌, arith, ◌==◌, get_elem?, take,
}
use mathlib.Core.Option.{some-injective, none-ne-some}
use zephyr_nano_drone.Log.{LogEntry, is_group, logs_count, variable_loop, variable_get_index}

-- What a search from entry `i` on, with `n` variables seen, should find of the variable `id`.
pub record Found (es : List LogEntry) (id n i : ℕ) (r : Option ℕ) : Type 0 where
  pub index : ℕ
  pub entry : LogEntry
  pub result : r ≡ some (i + index)
  pub there : get_elem? es index ≡ some entry
  pub variable : is_group entry ≡ false
  pub before : n + logs_count (take index es) ≡ id

variable_loop-Found :
    (es : List LogEntry) (id n i : ℕ)
    → n ≤ id
    → Found es id n i (variable_loop es id n i)
      ⊎ ((variable_loop es id n i ≡ none) × (n + logs_count es ≤ id))
unfolding variable_loop
variable_loop-Found [] id n i h = inr (refl, omega arith)
variable_loop-Found (e ∷ es) id n i h = elim (Bool-cases (is_group e)) [
  | inl g ↦ elim (variable_loop-Found es id n (i + 1) h) [
    | inl f ↦ inl (record {
      index = suc f.index;
      entry = f.entry;
      result = rw g (f.result ∙ ap (λ k. some k) (omega arith));
      there = f.there;
      variable = f.variable;
      before = rw g f.before;
    })
    | inr (none_there, few) ↦ inr (rw g (none_there, few))
  ]
  | inr v ↦ elim (Bool-cases (n == id)) [
    | inl same ↦ inl (record {
      index = 0;
      entry = e;
      result = rw (v, same) (ap (λ k. some k) (omega arith));
      there = refl;
      variable = v;
      before = ground (arith, same);
    })
    | inr other ↦ elim (variable_loop-Found es id (n + 1) (i + 1) (ground (arith, other))) [
      | inl f ↦ inl (record {
        index = suc f.index;
        entry = f.entry;
        result = rw (v, other) (f.result ∙ ap (λ k. some k) (omega arith));
        there = f.there;
        variable = f.variable;
        before = rw v (omega (arith, f.before));
      })
      | inr (none_there, few) ↦ inr (rw (v, other) (none_there, omega (arith, few)))
    ]
  ]
]

counted_before :
    (es : List LogEntry) (k : ℕ) (e : LogEntry) {id : ℕ}
    → get_elem? es k ≡ some e
    → is_group e ≡ false
    → 0 + logs_count (take k es) ≡ id
    → id < logs_count es
counted_before [] k e h v b = absurd (none-ne-some e h)
counted_before (x ∷ es) zero e h v b =
    let g : is_group x ≡ false = ap is_group (some-injective x e h) ∙ v in rw g (omega (arith, b))
counted_before (x ∷ es) (suc k) e h v b =
    let rest = counted_before es k e h v refl in
    elim (Bool-cases (is_group x)) [
      | inl g ↦ rw g (omega (arith, rest, (rw g at b)))
      | inr g ↦ rw g (omega (arith, rest, (rw g at b)))
    ]

-- variableGetIndex finds a variable for exactly the identifiers below the number of variables. What
-- it finds is an entry that is no group, with as many variables before it as the identifier says.
pub variable_get_index-Found :
    (logs : List LogEntry) (id : ℕ)
    → (Found logs id 0 0 (variable_get_index logs id) × (id < logs_count logs))
      ⊎ ((variable_get_index logs id ≡ none) × (logs_count logs ≤ id))
unfolding variable_get_index
variable_get_index-Found logs id = elim (variable_loop-Found logs id 0 0 (omega arith)) [
  | inl f ↦ inl (f, counted_before logs f.index f.entry f.there f.variable f.before)
  | inr (none_there, few) ↦ inr (none_there, omega (arith, few))
]
