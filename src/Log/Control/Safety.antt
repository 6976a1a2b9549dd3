-- ===== src/Log/Control/Safety.antt =====
-- The calls of the control channel of src/log.c keep the shape of the blocks.
use zephyr_nano_drone.Prelude.{
  ℕ, ◌<◌, ◌≡◌, ◌≢◌, refl, sym, ap, subst, Bool, true, false, inl, inr, Option, none, some, List, [],
  arith, if◌then◌else◌, is_some, not, Ends, Ends-bind,
}
use mathlib.Core.Option.{some-injective, none-ne-some}
use zephyr_nano_drone.Log.{LogEntry}
use zephyr_nano_drone.Log.Blocks.{
  Pool, Log, Code, done, eexist, enomem, enoent, e2big, enoexec, update, has_id, free_loop, Timers,
}
use zephyr_nano_drone.Log.Blocks.Chains.{update_here, update_other}
use zephyr_nano_drone.Log.Blocks.Links.{Freed, free_loop-Freed}
use zephyr_nano_drone.Log.Blocks.Shape.{Shape, fits}
use zephyr_nano_drone.Log.Blocks.Search.{find_first-cases}
use zephyr_nano_drone.Log.Blocks.Append.{Shaped}
use zephyr_nano_drone.Log.Control.{create_at, create_block, log_create_block, delete_at}
use zephyr_nano_drone.Log.Control.Put.{put_block-Shape}

not_some : (o : Option ℕ) → not (is_some o) ≡ true → o ≡ none
not_some none e = refl
not_some (some x) e = absurd (ground (arith, e))

pub has_id-some : (id : ℕ) (o : Option ℕ) → has_id id o ≡ true → o ≡ some id
unfolding has_id
has_id-some id none e = absurd (ground (arith, e))
has_id-some id (some j) e = ap (λ z. some z) (ground (arith, e))

pub has_id-none : (id : ℕ) (o : Option ℕ) → has_id id o ≡ false → o ≢ some id
unfolding has_id
has_id-none id none e q = none-ne-some id q
has_id-none id (some j) e q = ground (arith, e, some-injective j id q)

nothing-Freed : (ops : Pool) → Freed ops [] ops
nothing-Freed ops = record {
  cleared = λ k m. absurd (omega (arith, m));
  kept = λ k m. refl;
  log_types = λ k. refl;
  nexts = λ k. refl;
}

named :
    (id : ℕ) (b : Bool) (P : Option ℕ → Type 0)
    → P (some id)
    → is_some (if b then some id else none) ≡ true
    → P (if b then some id else none)
named id true P p e = p
named id false P p e = absurd (ground (arith, e))

-- What is left of the blocks by a call that answers with a code.
abbrev pub Kept : {T W : Type 0} → (ℕ → ℕ) → Code × Log T W → Type 0
Kept past r = Shaped past r.1

module _ {T W : Type 0} (past : ℕ → ℕ) (logs : List LogEntry) (timers : Timers T W) where
  create_at-Shape :
      (i id : ℕ) (s : Log T W) (chains : ℕ → List ℕ)
      → Shape past s chains
      → i < 16
      → (s.blocks i).id ≡ none
      → ((j : ℕ) → j < 16 → (s.blocks j).id ≢ some id)
      → Kept past (create_at past logs timers i id s)
  unfolding create_at
  create_at-Shape i id s chains h l free new =
      let empty : chains i ≡ [] = h.idle i l (ap is_some free) in
      let f = subst (λ z. Freed s.ops z s.ops) (sym empty) (nothing-Freed s.ops) in
      let timer = (timers.create i 1000 s.world).0 in
      let block = record (s.blocks i) {
        id = if is_some timer then some id else none;
        timer = timer;
        ops = none;
      } in
      (
        update chains i [],
        put_block-Shape past s chains h i l s.ops f block (timers.create i 1000 s.world).1
            (λ e. refl)
            (named id (is_some timer) (λ o. (j : ℕ) → j < 16 → (s.blocks j).id ≢ o) new),
      )

  create_block-Shape :
      (id : ℕ) (s : Log T W) (chains : ℕ → List ℕ)
      → Shape past s chains
      → Kept past (create_block past logs timers id s)
  unfolding create_block
  create_block-Shape id s chains h = elim (find_first-cases 16 0 (λ i. has_id id (s.blocks i).id)) [
    | inl (b, q, l, m, t) ↦ rw (q, create_block) (chains, h)
    | inr (q, missing) ↦ elim (find_first-cases 16 0 (λ i. not (is_some (s.blocks i).id))) [
      | inl (i, r, l, m, t) ↦
          rw (q, r, create_block)
            (create_at-Shape i id s chains h (omega (arith, m)) (not_some (s.blocks i).id t)
              (λ j k. has_id-none id (s.blocks j).id (missing j (omega arith) (omega (arith, k)))))
      | inr (r, full) ↦ rw (q, r, create_block) (chains, h)
    ]
  ]

  created :
      (append : Log T W → Option (Code × Log T W))
      → ((s : Log T W) → Shaped past s → Ends (Kept past) (append s))
      → (r : Code × Log T W) → Kept past r
      → Ends (Kept past) (elim r.0 as (λ _. Option (Code × Log T W)) [
        | done ↦ append r.1
        | other ↦ some (other, r.1)
      ])
  created append keeps (done, s) k = keeps s k
  created append keeps (eexist, s) k = k
  created append keeps (enomem, s) k = k
  created append keeps (enoent, s) k = k
  created append keeps (e2big, s) k = k
  created append keeps (enoexec, s) k = k

  -- A block is created, and what appends its settings keeps the shape.
  pub log_create_block-Shape :
      (append : Log T W → Option (Code × Log T W))
      → ((s : Log T W) → Shaped past s → Ends (Kept past) (append s))
      → (id : ℕ) (s : Log T W) → Shaped past s
      → Ends (Kept past) (log_create_block past logs timers append id s)
  unfolding log_create_block
  log_create_block-Shape append keeps id s (chains, h) =
      created append keeps (create_block past logs timers id s) (create_block-Shape id s chains h)

  pub delete_at-Shape :
      (b : ℕ) (s : Log T W) (chains : ℕ → List ℕ)
      → Shape past s chains
      → b < 16
      → is_some (s.blocks b).id ≡ true
      → Ends
          (λ s'.
            Shape past s' (update chains b [])
            × ((s'.blocks b).id ≡ none)
            × ((i : ℕ) → i ≢ b → (s'.blocks i).id ≡ (s.blocks i).id))
          (delete_at past logs timers b s)
  unfolding delete_at
  delete_at-Shape b s chains h l active =
      let block = record (s.blocks b) { id = none; timer = none } in
      Ends-bind (Freed s.ops (chains b)) _ (free_loop 129 s.ops (s.blocks b).ops) _
        (free_loop-Freed 129 s.ops (s.blocks b).ops (chains b)
          (omega (arith, fits past s chains h b l)) (h.chained b l active))
        (λ ops f. (
          put_block-Shape past s chains h b l ops f block _ (λ e. absurd (ground (arith, e)))
              (λ e. absurd (ground (arith, e))),
          ap (λ z. z.id) (update_here s.blocks b block),
          λ i d. ap (λ z. z.id) (update_other s.blocks b i block d),
        ))
