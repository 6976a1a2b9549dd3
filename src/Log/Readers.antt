-- ===== src/Log/Readers.antt =====
-- The calls of src/log.c that read one variable, and that tell its group and name.
use zephyr_nano_drone.Prelude.{
  ℕ, ◌+◌, ◌%◌, ◌≤◌, ◌<◌, ◌≡◌, refl, sym, ◌∙◌, ap, Bool, true, false, Bool-cases, inl, inr, Option,
  none, some, List, [], ◌∷◌, arith, ◌==◌, if◌then◌else◌, ◌>>=◌, ◌&&◌, get_or, length, bytes_eq,
  bytes_eq_sound,
}
use mathlib.Core.Option.{some-injective, none-ne-some}
use zephyr_nano_drone.Log.{LogEntry, is_group, is_start, log_get_type, var_id_loop, log_get_var_id}
use zephyr_nano_drone.Log.Blocks.{type_length}
use zephyr_nano_drone.Log.Run.{Machine, value_of}

-- `logs[varid]`
abbrev pub entry_of : List LogEntry → ℕ → LogEntry
entry_of logs varid = get_or logs varid (record { type = 0; name = []; address = 0 })

-- logGetAddress and logVarSize.
abbrev pub log_get_address : List LogEntry → ℕ → ℕ
log_get_address logs varid = (entry_of logs varid).address

abbrev pub log_var_size : (ℕ → ℕ) → ℕ → ℕ
log_var_size past t = type_length past t

module _ {F : Type 0} (machine : Machine F) (past : ℕ → ℕ) (logs : List LogEntry) where
  -- logGetInt, as a word of 32 bits: none where the assertion fails, at the invalid identifier.
  unfoldable pub log_get_int : ℕ → Option ℕ
  unfolding value_of
  log_get_int varid =
      let e = entry_of logs varid in
      let t = log_get_type e in
      let v = (value_of machine past t (machine.load t e.address)).0 in
      if varid == 65535 then none else some v

  -- logGetFloat.
  unfoldable pub log_get_float : ℕ → Option F
  unfolding log_get_int value_of
  log_get_float varid =
      let e = entry_of logs varid in
      let float = some (value_of machine past 7 (machine.load 7 e.address)).1 in
      let int = (do v ← log_get_int varid; some (machine.float_of_int v)) in
      if varid == 65535 then none else if log_get_type e == 7 then float else int

  -- logGetUint.
  unfoldable pub log_get_uint : ℕ → Option ℕ
  unfolding log_get_int
  log_get_uint varid = log_get_int varid

-- The loop of logGetGroupAndName from entry `i` on, in the group `current`; none leaves both NULL.
unfoldable pub group_loop : List LogEntry → ℕ → ℕ → List ℕ → Option (List ℕ × List ℕ)
group_loop [] varid i current = none
group_loop (e ∷ es) varid i current =
    let seen = if is_group e && is_start e then e.name else current in
    let rest = group_loop es varid (i + 1) seen in if i == varid then some (seen, e.name) else rest

unfoldable pub log_get_group_and_name : List LogEntry → ℕ → Option (List ℕ × List ℕ)
unfolding group_loop
log_get_group_and_name logs varid = group_loop logs varid 0 []

-- The group after an entry.
abbrev after_entry : LogEntry → List ℕ → List ℕ
after_entry e current = if is_group e && is_start e then e.name else current

passed :
    (e : LogEntry) (es : List LogEntry) (group name current : List ℕ) (i k : ℕ)
    → (i + 1 ≤ k) × (group_loop es k (i + 1) (after_entry e current) ≡ some (group, name))
    → (i ≤ k) × (group_loop (e ∷ es) k i current ≡ some (group, name))
unfolding group_loop
passed e es group name current i k (l, q) =
    let off : (i == k) ≡ false = ground (arith, l) in (omega (arith, l), rw off q)

small : (i : ℕ) → i < 65536 → i % 65536 ≡ i
small i l = ground (arith, l)

both : (a b : Bool) → (a && b) ≡ true → (a ≡ true) × (b ≡ true)
both true b e = (refl, e)
both false b e = absurd (ground (arith, e))

group_loop-var_id_loop :
    (es : List LogEntry) (group name current : List ℕ) (i k : ℕ)
    → i + length es ≤ 65536
    → var_id_loop es group name current i ≡ some k
    → (i ≤ k) × (group_loop es k i current ≡ some (group, name))
unfolding var_id_loop group_loop
group_loop-var_id_loop [] group name current i k l e = absurd (none-ne-some k e)
group_loop-var_id_loop (x ∷ es) group name current i k l e =
    let onward : var_id_loop es group name (after_entry x current) (i + 1) ≡ some k
        → (i ≤ k) × (group_loop (x ∷ es) k i current ≡ some (group, name)) =
      λ q. passed x es group name current i k (
        group_loop-var_id_loop es group name (after_entry x current) (i + 1) k (omega (arith, l))
          q) in
    elim (Bool-cases (is_group x)) [
      | inl g ↦ elim (Bool-cases (is_start x)) [
        | inl s ↦
            let step : var_id_loop (x ∷ es) group name current i
                ≡ var_id_loop es group name (after_entry x current) (i + 1) =
              rw (g, s) refl in
            onward (sym step ∙ e)
        | inr s ↦
            let step : var_id_loop (x ∷ es) group name current i
                ≡ var_id_loop es group name (after_entry x current) (i + 1) =
              rw (g, s) refl in
            onward (sym step ∙ e)
      ]
      | inr v ↦ elim (Bool-cases (bytes_eq group current && bytes_eq name x.name)) [
        | inl m ↦
            let step : var_id_loop (x ∷ es) group name current i ≡ some (i % 65536) =
              rw (v, m) refl in
            let at : i ≡ k = sym (small i (omega (arith, l))) ∙ some-injective _ k (sym step ∙ e) in
            let here : (i == k) ≡ true = ground (arith, at) in
            let (in_group, named) = both (bytes_eq group current) (bytes_eq name x.name) m in
            let found : group_loop (x ∷ es) k i current ≡ some (current, x.name) =
              rw (here, v) refl in
            (
              omega (arith, at),
              found
                  ∙ (ap (λ z. some (z, x.name)) (sym (bytes_eq_sound group current in_group))
                      ∙ ap (λ z. some (group, z)) (sym (bytes_eq_sound name x.name named))),
            )
        | inr m ↦
            let step : var_id_loop (x ∷ es) group name current i
                ≡ var_id_loop es group name (after_entry x current) (i + 1) =
              rw (v, m) refl in
            onward (sym step ∙ e)
      ]
    ]

-- The identifier that a group and a name have is told to be of that group and name.
pub log_get_group_and_name-log_get_var_id :
    (logs : List LogEntry) (group name : List ℕ) (k : ℕ)
    → length logs ≤ 65536
    → log_get_var_id logs group name ≡ some k
    → log_get_group_and_name logs k ≡ some (group, name)
unfolding log_get_var_id log_get_group_and_name
log_get_group_and_name-log_get_var_id logs group name k l e =
    (group_loop-var_id_loop logs group name [] 0 k (omega (arith, l)) e).1
