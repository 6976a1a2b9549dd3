-- ===== src/Log/Blocks/Append.antt =====
-- logAppendBlock of src/log.c keeps the shape of the blocks, whatever the settings are.
use zephyr_nano_drone.Prelude.{
  ℕ, zero, suc, ◌+◌, ◌%◌, ◌≤◌, ◌<◌, ◌≡◌, ◌≢◌, refl, sym, ◌∙◌, ap, true, false, Bool-cases, inl, inr,
  Option, some, List, [], ◌∷◌, ◌++◌, arith, ltb, ◌==◌, ◌>>=◌, is_some, get_elem?, Ends, Ends-some,
  Ends-if, Ends-weaken, Ends-bind, Ends-then, Ends-else,
}
use zephyr_nano_drone.Log.{LogEntry, is_group}
use zephyr_nano_drone.Log.Toc.{variable_get_index-Found}
use zephyr_nano_drone.Log.Blocks.{
  LogOps, Log, Setting, Code, Progress, stop, next, type_length, update, has_id, ops_malloc,
  length_loop, link_ops, append_setting, append_loop, log_append,
}
use zephyr_nano_drone.Log.Blocks.Chains.{lengths, length_loop-Chain, update_other}
use zephyr_nano_drone.Log.Blocks.Shape.{Shape, fits, link_ops-Shape}
use zephyr_nano_drone.Log.Blocks.Search.{
  find_first-cases, has_id-active, unused, room_left, entry_at,
}

-- The variables of the table of contents have an address: its entries are made from `&variable`.
abbrev pub Addressed : List LogEntry → Type 0
Addressed logs =
    (i : ℕ) (e : LogEntry) → get_elem? logs i ≡ some e → is_group e ≡ false → e.address ≢ 0

-- The state after operations were linked to block `b`: of a good shape, with the same ids, and with
-- the operations of the other blocks as they were.
pub record Grown {T W : Type 0} (past : ℕ → ℕ) (s : Log T W) (chains : ℕ → List ℕ) (b : ℕ)
    (s' : Log T W) : Type 0 where
  pub lists : ℕ → List ℕ
  pub shape : Shape past s' lists
  pub ids : (i : ℕ) → (s'.blocks i).id ≡ (s.blocks i).id
  pub others : (i : ℕ) → i ≢ b → lists i ≡ chains i

-- A round leads on, or returns.
abbrev pub Onward : ℕ → Progress → Type 0
Onward i (stop code) = Unit
Onward i (next j) = i < j

-- What a round leaves of the state.
abbrev pub Round :
    {T W : Type 0} → (ℕ → ℕ) → Log T W → (ℕ → List ℕ) → ℕ → ℕ → Progress × Log T W → Type 0
Round past s chains b i r = Onward i r.0 × Grown past s chains b r.1

-- The blocks are of a good shape, with some lists of operations.
abbrev pub Shaped : {T W : Type 0} → (ℕ → ℕ) → Log T W → Type 0
Shaped past s = (chains : ℕ → List ℕ) × Shape past s chains

module _ {T W : Type 0} (past : ℕ → ℕ) (logs : List LogEntry) (addressed : Addressed logs) where
  Grown-refl :
      (s : Log T W) (chains : ℕ → List ℕ) (b : ℕ) → Shape past s chains → Grown past s chains b s
  Grown-refl s chains b h = record {
    lists = chains;
    shape = h;
    ids = λ i. refl;
    others = λ i d. refl;
  }

  link_Grown :
      (s : Log T W) (chains : ℕ → List ℕ) (b k i j : ℕ) (filled : LogOps)
      → Shape past s chains
      → b < 16
      → is_some (s.blocks b).id ≡ true
      → k < 128
      → (s.ops k).variable ≡ 0
      → filled.variable ≢ 0
      → lengths past s.ops (chains b) + type_length past filled.log_type ≤ 26
      → i < j
      → Ends
          (Round past s chains b i)
          (link_ops past logs b k filled s >>= (λ s'. some (next j, s')))
  link_Grown s chains b k i j filled h lb active lk free used small l =
      Ends-bind _ (Round past s chains b i) (link_ops past logs b k filled s) _
        (link_ops-Shape past s chains h logs b k filled lb active lk free used small)
        (λ s' g. (
          l,
          record {
            lists = update chains b (chains b ++ (k ∷ []));
            shape = g.0;
            ids = g.1;
            others = λ x d. update_other chains b x (chains b ++ (k ∷ [])) d;
          },
        ))

  append_setting-Round :
      (memory_id size address b : ℕ) (settings : ℕ → Setting) (i : ℕ) (s : Log T W)
      (chains : ℕ → List ℕ)
      → Shape past s chains
      → b < 16
      → is_some (s.blocks b).id ≡ true
      → 0 < address
      → Ends
          (Round past s chains b i)
          (append_setting past logs memory_id size address b settings i s)
  unfolding append_setting ops_malloc
  append_setting-Round memory_id size address b settings i s chains h lb active at =
      let len = lengths past s.ops (chains b) in
      let st = settings i in
      let log_type = st.log_type % 16 in
      let same = Grown-refl s chains b h in
      Ends-bind (λ n. n ≡ len) (Round past s chains b i)
        (length_loop 129 past s.ops (s.blocks b).ops 0) _
        (Ends-some (λ n. n ≡ len) _ (0 + len)
          (length_loop-Chain 129 past s.ops (s.blocks b).ops (chains b) 0
            (omega (arith, fits past s chains h b lb)) (h.chained b lb active))
          (omega arith))
        (λ n e. elim (find_first-cases 128 0 (λ k. (s.ops k).variable == 0)) [
          | inr (q, f) ↦ rw q (tt, same)
          | inl (k, q, l, m, t) ↦
              let free : (s.ops k).variable ≡ 0 = unused (s.ops k).variable t in
              rw q (elim (Bool-cases (ltb 26 (n + type_length past log_type))) [
                | inl full ↦ Ends-then (Round past s chains b i) _ _ _ full (tt, same)
                | inr room ↦ Ends-else (Round past s chains b i) _ _ _ room (
                    let small : len + type_length past log_type ≤ 26 =
                      room_left n len (type_length past log_type) e room in
                    Ends-if (Round past s chains b i) (st.id == memory_id) _ _
                      (link_Grown s chains b k i (i + 3) _ h lb active (omega arith) free
                        (omega arith) small (omega arith))
                      (elim (variable_get_index-Found logs st.id) [
                        | inr (none_there, few) ↦ rw none_there (tt, same)
                        | inl (found, lt) ↦
                            let entry =
                              entry_at logs found.index found.entry
                                (record { type = 0; name = []; address = 0 }) found.there in
                            rw found.result (
                              link_Grown s chains b k i (i + 1) _ h lb active (omega arith) free
                                (λ z.
                                  addressed found.index found.entry found.there found.variable
                                    (sym (ap (λ y. y.address) entry) ∙ z))
                                small (omega arith))
                      ]))
              ])
        ])

  Grown-trans :
      (s : Log T W) (chains : ℕ → List ℕ) (b : ℕ) (s' s'' : Log T W) (g : Grown past s chains b s')
      → Grown past s' g.lists b s''
      → Grown past s chains b s''
  Grown-trans s chains b s' s'' g g' = record {
    lists = g'.lists;
    shape = g'.shape;
    ids = λ i. g'.ids i ∙ g.ids i;
    others = λ i d. g'.others i d ∙ g.others i d;
  }

  -- What follows a round that leads on.
  after_round :
      (s : Log T W) (chains : ℕ → List ℕ) (b i : ℕ) (f : ℕ → Log T W → Option (Code × Log T W))
      → ((j : ℕ) (s' : Log T W) (chains' : ℕ → List ℕ)
          → i < j
          → Shape past s' chains'
          → is_some (s'.blocks b).id ≡ true
          → Ends (λ r. Grown past s' chains' b r.1) (f j s'))
      → is_some (s.blocks b).id ≡ true
      → (r : Progress × Log T W) → Round past s chains b i r
      → Ends
          (λ q. Grown past s chains b q.1)
          (elim r.0 as (λ _. Option (Code × Log T W)) [
            | stop code ↦ some (code, r.1)
            | next j ↦ f j r.1
          ])
  after_round s chains b i f rest active (stop code, s') t = t.1
  after_round s chains b i f rest active (next j, s') (l, g) =
      Ends-weaken (λ q. Grown past s' g.lists b q.1) (λ q. Grown past s chains b q.1) (f j s')
        (rest j s' g.lists l g.shape (ap is_some (g.ids b) ∙ active))
        (λ q g'. Grown-trans s chains b s' q.1 g g')

  append_loop-Grown :
      (fuel memory_id size address b : ℕ) (settings : ℕ → Setting) (len i : ℕ) (s : Log T W)
      (chains : ℕ → List ℕ)
      → len ≤ i + fuel
      → Shape past s chains
      → b < 16
      → is_some (s.blocks b).id ≡ true
      → 0 < address
      → Ends
          (λ r. Grown past s chains b r.1)
          (append_loop past logs (suc fuel) memory_id size address b settings len i s)
  unfolding append_loop
  append_loop-Grown zero memory_id size address b settings len i s chains l h lb active at =
      let over : ltb i len ≡ false = ground (arith, l) in
      Ends-else (λ r. Grown past s chains b r.1) _ _ _ over (Grown-refl s chains b h)
  append_loop-Grown (suc fuel) memory_id size address b settings len i s chains l h lb active at =
      Ends-if (λ r. Grown past s chains b r.1) (ltb i len) _ _
        (Ends-bind (Round past s chains b i) (λ r. Grown past s chains b r.1)
          (append_setting past logs memory_id size address b settings i s) _
          (append_setting-Round memory_id size address b settings i s chains h lb active at)
          (after_round s chains b i _
            (λ j s' chains' m h' active'.
              append_loop-Grown fuel memory_id size address b settings len j s' chains'
                (omega (arith, l, m)) h' lb active' at)
            active))
        (Grown-refl s chains b h)

  -- logAppendBlock ends, and leaves the shape of the blocks good, and their ids as they were.
  pub log_append-Shape :
      (memory_id size address id : ℕ) (settings : ℕ → Setting) (len : ℕ) (s : Log T W)
      (chains : ℕ → List ℕ)
      → Shape past s chains
      → 0 < address
      → Ends (λ r. Shaped past r.1) (log_append past logs memory_id size address id settings len s)
  unfolding log_append
  log_append-Shape memory_id size address id settings len s chains h at =
      elim (find_first-cases 16 0 (λ i. has_id id (s.blocks i).id)) [
        | inr (q, f) ↦ rw (q, Ends) (chains, h)
        | inl (b, q, l, m, t) ↦
            rw (q, Ends)
              (Ends-weaken (λ r. Grown past s chains b r.1) (λ r. Shaped past r.1) _
                (append_loop-Grown len memory_id size address b settings len 0 s chains
                  (omega arith) h (omega (arith, m)) (has_id-active id (s.blocks b).id t) at)
                (λ r g. (g.lists, g.shape)))
      ]
