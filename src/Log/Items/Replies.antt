-- ===== src/Log/Items/Replies.antt =====
-- The replies of logTOCProcess of src/log.c fit a packet once logInit has passed the table.
use zephyr_nano_drone.Prelude.{
  ℕ, suc, ◌+◌, ◌%◌, ◌≤◌, ◌<◌, ◌≡◌, ◌⊎◌, refl, sym, ◌∙◌, ap, subst, true, false, Bool-cases, inl,
  inr, none, some, List, [], ◌∷◌, ◌++◌, arith, ltb, ◌==◌, if◌then◌else◌, length, get_elem?,
}
use mathlib.Core.Option.{none-ne-some}
use zephyr_nano_drone.Log.{LogEntry, is_group, is_start, logs_count, variable_loop}
use zephyr_nano_drone.Log.Items.{word, init_loop, Place, toc_loop}

-- What the loop finds among `es`, from `at` on: the variable that variableGetIndex finds, with names
-- that fit, or the end of the table.
pub record Item (es : List LogEntry) (id : ℕ) (at r : Place) : Type 0 where
  pub index : ℕ
  pub entry : LogEntry
  pub ptr : r.ptr ≡ at.ptr + index
  pub there : get_elem? es index ≡ some entry
  pub same : variable_loop es id at.n at.ptr ≡ some r.ptr
  pub fits : length r.group + length entry.name ≤ 24
  pub number : r.n ≡ id

abbrev pub Missing : List LogEntry → ℕ → Place → Place → Type 0
Missing es id at r = (r.ptr ≡ at.ptr + length es) × (variable_loop es id at.n at.ptr ≡ none)

-- An entry in front that the search passes.
shift :
    (e : LogEntry) (es : List LogEntry) (id : ℕ) (at at' r : Place)
    → at'.ptr ≡ at.ptr + 1
    → variable_loop (e ∷ es) id at.n at.ptr ≡ variable_loop es id at'.n at'.ptr
    → Item es id at' r ⊎ Missing es id at' r
    → Item (e ∷ es) id at r ⊎ Missing (e ∷ es) id at r
shift e es id at at' r p q (inl i) = inl (record {
  index = suc i.index;
  entry = i.entry;
  ptr = omega (arith, i.ptr, p);
  there = i.there;
  same = q ∙ i.same;
  fits = i.fits;
  number = i.number;
})
shift e es id at at' r p q (inr (m, s)) = inr (omega (arith, m, p), q ∙ s)

start_length :
    (e : LogEntry) (g : ℕ)
    → length (if is_start e then e.name else []) ≤ (if is_start e then length e.name else g)
start_length e g = elim (Bool-cases (is_start e)) [
  | inl s ↦ rw s (omega arith)
  | inr s ↦ rw s (omega arith)
]

fewer_in :
    (e : LogEntry) (es : List LogEntry) (n : ℕ)
    → is_group e ≡ true
    → n + logs_count (e ∷ es) < 65536
    → n + logs_count es < 65536
fewer_in e es n g l = let q : logs_count (e ∷ es) ≡ logs_count es = rw g refl in omega (arith, l, q)

fewer_out :
    (e : LogEntry) (es : List LogEntry) (n : ℕ)
    → is_group e ≡ false
    → n + logs_count (e ∷ es) < 65536
    → n + 1 + logs_count es < 65536
fewer_out e es n g l =
    let q : logs_count (e ∷ es) ≡ logs_count es + 1 = rw g refl in omega (arith, l, q)

wrapped : (n : ℕ) → n + 1 < 65536 → (n + 1) % 65536 ≡ n + 1
wrapped n l = ground (arith, l)

short_names : (g n m : ℕ) → ltb 26 (n + g + 2) ≡ false → m ≤ g → m + n ≤ 24
short_names g n m e l = ground (arith, e, l)

-- The first entry, if there is one, starts or ends a group.
abbrev pub Opened : List LogEntry → Type 0
Opened [] = Unit
Opened (e ∷ es) = is_group e ≡ true

-- The name of the group in force is no longer than logInit took it to be, unless the next entry
-- replaces it.
known_group :
    (e : LogEntry) (es : List LogEntry) (g n : ℕ)
    → is_group e ≡ false
    → (n ≤ g) ⊎ Opened (e ∷ es)
    → n ≤ g
known_group e es g n variable (inl l) = l
known_group e es g n variable (inr opened) = absurd (ground (arith, opened, variable))

pub toc_loop-Item :
    (crc32 : List ℕ → ℕ) (es : List LogEntry) (id : ℕ) (at : Place) (crc crc' g : ℕ)
    → init_loop crc32 es crc g ≡ some crc'
    → (length at.group ≤ g) ⊎ Opened es
    → at.n + logs_count es < 65536
    → Item es id at (toc_loop es id at) ⊎ Missing es id at (toc_loop es id at)
unfolding toc_loop init_loop variable_loop
toc_loop-Item crc32 [] id at crc crc' g passed l few = inr (omega arith, refl)
toc_loop-Item crc32 (e ∷ es) id at crc crc' g passed l few =
    let crc'' = crc32 (word crc ++ (e.type % 256 ∷ e.name)) in
    elim (Bool-cases (is_group e)) [
      | inl in_group ↦
          let g' = if is_start e then length e.name else g in
          let at' : Place = record at {
            ptr = at.ptr + 1;
            group = if is_start e then e.name else [];
          } in
          let step : init_loop crc32 (e ∷ es) crc g ≡ init_loop crc32 es crc'' g' =
            rw in_group refl in
          let loop : toc_loop (e ∷ es) id at ≡ toc_loop es id at' = rw in_group refl in
          subst (λ z. Item (e ∷ es) id at z ⊎ Missing (e ∷ es) id at z) (sym loop)
            (shift e es id at at' _ refl (rw in_group refl) (
              toc_loop-Item crc32 es id at' crc'' crc' g' (sym step ∙ passed)
                (inl (start_length e g)) (fewer_in e es at.n in_group few)))
      | inr variable ↦ elim (Bool-cases (ltb 26 (length e.name + g + 2))) [
        | inl long ↦
            let step : init_loop crc32 (e ∷ es) crc g ≡ none = rw (variable, long) refl in
            absurd (none-ne-some crc' (sym step ∙ passed))
        | inr short ↦ elim (Bool-cases (at.n == id)) [
          | inl found ↦
              let loop : toc_loop (e ∷ es) id at ≡ at = rw (variable, found) refl in
              subst (λ z. Item (e ∷ es) id at z ⊎ Missing (e ∷ es) id at z) (sym loop)
                (inl (record {
                  index = 0;
                  entry = e;
                  ptr = omega arith;
                  there = refl;
                  same = rw (variable, found) refl;
                  fits =
                      short_names g (length e.name) (length at.group) short
                        (known_group e es g (length at.group) variable l);
                  number = ground (arith, found);
                }))
          | inr other ↦
              let at' : Place = record at { ptr = at.ptr + 1; n = (at.n + 1) % 65536 } in
              let step : init_loop crc32 (e ∷ es) crc g ≡ init_loop crc32 es crc'' g =
                rw (variable, short) refl in
              let loop : toc_loop (e ∷ es) id at ≡ toc_loop es id at' = rw (variable, other) refl in
              let less = fewer_out e es at.n variable few in
              let n = wrapped at.n (omega (arith, less)) in
              subst (λ z. Item (e ∷ es) id at z ⊎ Missing (e ∷ es) id at z) (sym loop)
                (shift e es id at at' _ refl
                  (rw (variable, other) (ap (λ z. variable_loop es id z (at.ptr + 1)) (sym n)))
                  (toc_loop-Item crc32 es id at' crc'' crc' g (sym step ∙ passed)
                    (inl (known_group e es g (length at.group) variable l))
                    (omega (arith, less, n))))
        ]
      ]
    ]
