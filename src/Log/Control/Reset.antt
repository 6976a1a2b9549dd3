-- ===== src/Log/Control/Reset.antt =====
-- Deletion, start, stop and reset of the blocks of src/log.c keep their shape.
use zephyr_nano_drone.Prelude.{
  ℕ, zero, suc, ◌+◌, ◌≤◌, ◌<◌, ◌≡◌, ◌≢◌, refl, sym, ◌∙◌, ap, Bool, true, false, Bool-cases, inl,
  inr, none, Option-cases, List, [], arith, ltb, ◌==◌, if◌then◌else◌, ℕ_discrete, is_some, Ends,
  Ends-if, Ends-bind,
}
use zephyr_nano_drone.Log.{LogEntry}
use zephyr_nano_drone.Log.Blocks.{LogOps, Block, Log, Code, update, find_first, has_id, Timers}
use zephyr_nano_drone.Log.Blocks.Counting.{total_zero}
use zephyr_nano_drone.Log.Blocks.Shape.{Shape}
use zephyr_nano_drone.Log.Blocks.Search.{find_first-cases}
use zephyr_nano_drone.Log.Blocks.Append.{Shaped}
use zephyr_nano_drone.Log.Control.{
  delete_at, log_delete_block, log_start_block, log_stop_block, reset_loop, log_reset,
}
use zephyr_nano_drone.Log.Control.Put.{Shape-world}
use zephyr_nano_drone.Log.Control.Safety.{has_id-some, delete_at-Shape}

find_first-none :
    (n i : ℕ) (test : ℕ → Bool)
    → ((k : ℕ) → i ≤ k → k < i + n → test k ≡ false)
    → find_first n i test ≡ none
find_first-none n i test h = elim (find_first-cases n i test) [
  | inl (k, q, l, m, t) ↦ absurd (ground (arith, h k l m, t))
  | inr (q, f) ↦ q
]

all_idle :
    {T : Type 0} (i : ℕ)
    → i < 16
    → (B : Block T) → (if ltb i 16 then record B { id = none } else B).id ≡ none
all_idle i l B = let t : ltb i 16 ≡ true = ground (arith, l) in rw t refl

none_active :
    {T : Type 0} (i : ℕ)
    → i < 16
    → (B : Block T) → is_some (if ltb i 16 then record B { id = none } else B).id ≢ true
none_active i l B e = ground (arith, sym (ap is_some (all_idle i l B)) ∙ e)

all_free :
    (k : ℕ)
    → k < 128
    → (o : LogOps) → (if ltb k 128 then record o { variable = 0 } else o).variable ≡ 0
all_free k l o = let t : ltb k 128 ≡ true = ground (arith, l) in rw t refl

-- The blocks are of a good shape, and none has the id.
abbrev pub Deleted : {T W : Type 0} → (ℕ → ℕ) → ℕ → Code × Log T W → Type 0
Deleted past id r = Shaped past r.1 × (find_first 16 0 (λ i. has_id id (r.1.blocks i).id) ≡ none)

-- No block and no operation is in use.
abbrev pub Emptied : {T W : Type 0} → (ℕ → ℕ) → Log T W → Type 0
Emptied past s =
    Shape past s (λ i. [])
    × ((i : ℕ) → i < 16 → (s.blocks i).id ≡ none)
    × ((k : ℕ) → k < 128 → (s.ops k).variable ≡ 0)

module _ {T W : Type 0} (past : ℕ → ℕ) (logs : List LogEntry) (timers : Timers T W) where
  -- Deleting a block ends, keeps the shape of the blocks, and leaves no block with its id.
  pub log_delete_block-Shape :
      (id : ℕ) (s : Log T W)
      → Shaped past s
      → Ends (Deleted past id) (log_delete_block past logs timers id s)
  unfolding log_delete_block
  log_delete_block-Shape id s (chains, h) =
      elim (find_first-cases 16 0 (λ i. has_id id (s.blocks i).id)) [
        | inr (q, missing) ↦ rw (q, Ends) ((chains, h), q)
        | inl (b, q, l, m, t) ↦
            let found = has_id-some id (s.blocks b).id t in
            let lb : b < 16 = omega (arith, m) in
            rw (q, Ends)
              (Ends-bind _ _ (delete_at past logs timers b s) _
                (delete_at-Shape past logs timers b s chains h lb (ap is_some found))
                (λ s' (shape, freed, others). (
                  (update chains b [], shape),
                  find_first-none 16 0 _ (λ k x y. elim (ℕ_discrete k b) [
                    | yes e ↦ ap (λ z. has_id id (s'.blocks z).id) e ∙ ap (has_id id) freed
                    | no d ↦ elim (Bool-cases (has_id id (s.blocks k).id)) [
                      | inl same ↦ absurd (
                          d (
                            sym (
                              h.unique b k lb (omega (arith, y)) (ap is_some found)
                                (found ∙ sym (has_id-some id (s.blocks k).id same)))))
                      | inr other ↦ ap (has_id id) (others k d) ∙ other
                    ]
                  ]),
                )))
      ]

  pub log_stop_block-Shape :
      (id : ℕ) (s : Log T W) → Shaped past s → Shaped past (log_stop_block past logs timers id s).1
  unfolding log_stop_block
  log_stop_block-Shape id s (chains, h) =
      elim (find_first-cases 16 0 (λ i. has_id id (s.blocks i).id)) [
        | inl (b, q, l, m, t) ↦ rw (q, log_stop_block) (chains, Shape-world past s chains h _)
        | inr (q, r) ↦ rw (q, log_stop_block) (chains, h)
      ]

  pub log_start_block-Shape :
      (id period : ℕ) (s : Log T W)
      → Shaped past s
      → Shaped past (log_start_block past logs timers id period s).1
  unfolding log_start_block
  log_start_block-Shape id period s (chains, h) =
      elim (find_first-cases 16 0 (λ i. has_id id (s.blocks i).id)) [
        | inl (b, q, l, m, t) ↦ rw (q, log_start_block) (chains, Shape-world past s chains h _)
        | inr (q, r) ↦ rw (q, log_start_block) (chains, h)
      ]

  reset_loop-Shape :
      (n i : ℕ) (s : Log T W)
      → Shaped past s
      → Ends (λ s'. Shaped past s') (reset_loop past logs timers n i s)
  unfolding reset_loop
  reset_loop-Shape zero i s h = h
  reset_loop-Shape (suc n) i s h = elim (Option-cases (s.blocks i).id) [
    | inl e ↦ rw (e, Ends) (reset_loop-Shape n (i + 1) s h)
    | inr (id, e) ↦
        rw (e, Ends)
          (Ends-bind (Deleted past id) (λ s'. Shaped past s')
            (log_delete_block past logs timers id (log_stop_block past logs timers id s).1) _
            (log_delete_block-Shape id (log_stop_block past logs timers id s).1
              (log_stop_block-Shape id s h))
            (λ r k. reset_loop-Shape n (i + 1) r.1 k.0))
  ]

  forced-Emptied :
      (s : Log T W)
      → Emptied past (record s {
        blocks = λ i. if ltb i 16 then record (s.blocks i) { id = none } else s.blocks i;
        ops = λ k. if ltb k 128 then record (s.ops k) { variable = 0 } else s.ops k;
      })
  forced-Emptied s = (
    record {
      chained = λ i l e. absurd (none_active i l (s.blocks i) e);
      idle = λ i l e. refl;
      counted = λ i l.
          total_zero 16 (λ _. 0) (λ _ _. refl)
          ∙ ap (λ z. if z == 0 then 0 else 1) (sym (all_free i l (s.ops i)));
      in_pool = λ i g j l. refl;
      short = λ i l. omega arith;
      unique = λ i j l m e q. absurd (none_active i l (s.blocks i) e);
    },
    λ i l. all_idle i l (s.blocks i),
    λ i l. all_free i l (s.ops i),
  )

  -- The reset of logInit, whatever the memory of the blocks holds.
  pub log_init-Emptied : (s : Log T W) → Ends (Emptied past) (log_reset past logs timers false s)
  unfolding log_reset
  log_init-Emptied s = forced-Emptied s

  -- A reset ends, and no block and no operation is left.
  pub log_reset-Shape :
      (is_init : Bool) (s : Log T W)
      → Shaped past s
      → Ends (Emptied past) (log_reset past logs timers is_init s)
  unfolding log_reset
  log_reset-Shape is_init s h =
      Ends-bind (λ s'. Shaped past s') (Emptied past) _ _
        (Ends-if (λ s'. Shaped past s') is_init _ _ (reset_loop-Shape 16 0 s h) h)
        (λ s' k. forced-Emptied s')
