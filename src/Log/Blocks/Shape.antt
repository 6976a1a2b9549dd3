-- ===== src/Log/Blocks/Shape.antt =====
-- The shape of the blocks of src/log.c: which operations each block holds. What a link and a free do
-- to it.
use zephyr_nano_drone.Prelude.{
  ℕ, ◌+◌, ◌≤◌, ◌<◌, ◌≡◌, ◌≢◌, refl, sym, ◌∙◌, ap, true, false, Option, List, [], ◌∷◌, ◌++◌, arith,
  ◌==◌, if◌then◌else◌, length, is_some, ℕ_discrete, dec_lt, Ends, Ends-bind,
}
use zephyr_nano_drone.Log.{LogEntry}
use zephyr_nano_drone.Log.Blocks.{
  LogOps, Pool, Log, type_length, update, block_append_ops, link_ops,
}
use zephyr_nano_drone.Log.Blocks.Counting.{
  occurs, occurs-++, occurs_here, occurs_other, total, total_change, total_at, total_two,
  length_bound,
}
use zephyr_nano_drone.Log.Blocks.Chains.{
  Chain, Chain-frame, lengths, lengths_frame, lengths-++, update_here, update_other, update_field,
  update_ind,
}
use zephyr_nano_drone.Log.Blocks.Links.{Linked, block_append_ops-Linked}

-- `chains i` lists the operations of block `i`. The chain of a block in use spells its list; a free
-- block has none. Each operation of the pool with a variable stands in one list, once, and no other
-- does. A block has at most 26 bytes, and no two blocks in use have the same id.
pub record Shape {T W : Type 0} (past : ℕ → ℕ) (s : Log T W) (chains : ℕ → List ℕ) : Type 0 where
  pub chained :
      (i : ℕ) → i < 16 → is_some (s.blocks i).id ≡ true → Chain s.ops (s.blocks i).ops (chains i)
  pub idle : (i : ℕ) → i < 16 → is_some (s.blocks i).id ≡ false → chains i ≡ []
  pub counted :
      (k : ℕ)
      → k < 128
      → total 16 (λ i. occurs k (chains i)) ≡ (if (s.ops k).variable == 0 then 0 else 1)
  pub in_pool : (k : ℕ) → 128 ≤ k → (i : ℕ) → i < 16 → occurs k (chains i) ≡ 0
  pub short : (i : ℕ) → i < 16 → lengths past s.ops (chains i) ≤ 26
  pub unique :
      (i j : ℕ)
      → i < 16
      → j < 16
      → is_some (s.blocks i).id ≡ true
      → (s.blocks i).id ≡ (s.blocks j).id
      → i ≡ j

module _ {T W : Type 0} (past : ℕ → ℕ) (s : Log T W) (chains : ℕ → List ℕ)
    (h : Shape past s chains) where
  total_small : (k : ℕ) → k < 128 → total 16 (λ i. occurs k (chains i)) ≤ 1
  total_small k l = ground (arith, h.counted k)

  pub distinct : (i k : ℕ) → i < 16 → occurs k (chains i) ≤ 1
  distinct i k l = elim (dec_lt k 128) [
    | yes m ↦ omega (arith, total_at 16 (λ j. occurs k (chains j)) i l, total_small k m)
    | no m ↦ omega (arith, h.in_pool k (omega (arith, m)) i l)
  ]

  pub fits : (i : ℕ) → i < 16 → length (chains i) ≤ 128
  fits i l = length_bound 128 (chains i) (λ k m. h.in_pool k m i l) (λ k m. distinct i k l)

  -- An operation of one block is in no other.
  pub apart :
      (i j k : ℕ) → i < 16 → j < 16 → i ≢ j → 1 ≤ occurs k (chains i) → occurs k (chains j) ≡ 0
  apart i j k l m d o = elim (dec_lt k 128) [
    | yes q ↦ omega (arith, total_two 16 (λ z. occurs k (chains z)) i j l m d, total_small k q)
    | no q ↦ h.in_pool k (omega (arith, q)) j m
  ]

  pub fresh : (k i : ℕ) → k < 128 → i < 16 → (s.ops k).variable ≡ 0 → occurs k (chains i) ≡ 0
  fresh k i l m e =
      let none_in : total 16 (λ j. occurs k (chains j)) ≡ 0 = ground (arith, h.counted k l, e) in
      omega (arith, total_at 16 (λ j. occurs k (chains j)) i m, none_in)

  module _ (b k : ℕ) (filled : LogOps) (lb : b < 16) (active : is_some (s.blocks b).id ≡ true)
      (lk : k < 128) (free : (s.ops k).variable ≡ 0) (used : filled.variable ≢ 0)
      (small : lengths past s.ops (chains b) + type_length past filled.log_type ≤ 26) where
    off_chain : (i : ℕ) → i < 16 → (j : ℕ) → 1 ≤ occurs j (chains i) → j ≢ k
    off_chain i l j o q = omega (arith, fresh k i lk l free, o, ap (λ z. occurs z (chains i)) q)

    log_types_same :
        (r : Option ℕ × Pool)
        → Linked (update s.ops k filled) (chains b) k r
        → (i : ℕ) → i < 16
        → (j : ℕ) → 1 ≤ occurs j (chains i)
        → (r.1 j).log_type ≡ (s.ops j).log_type
    log_types_same r t i l j o =
        t.log_types j ∙ ap (λ z. z.log_type) (update_other s.ops k j filled (off_chain i l j o))

    -- How often an operation stands in the lists, with `k` added to that of block `b`.
    total_more :
        (j : ℕ)
        → total 16 (λ i. occurs j (update chains b (chains b ++ (k ∷ [])) i))
          ≡ total 16 (λ i. occurs j (chains i)) + occurs j (k ∷ [])
    total_more j =
        let xs = chains b in
        let more = xs ++ (k ∷ []) in
        let change =
          total_change 16 (λ i. occurs j (update chains b more i)) (λ i. occurs j (chains i)) b lb
            (λ i l d. ap (occurs j) (update_other chains b i more d)) in
        let at_b : occurs j (update chains b more b) ≡ occurs j xs + occurs j (k ∷ []) =
          ap (occurs j) (update_here chains b more) ∙ occurs-++ j xs (k ∷ []) in
        omega (arith, change, at_b)

    counted_more :
        (r : Option ℕ × Pool)
        → Linked (update s.ops k filled) (chains b) k r
        → (j : ℕ) → j < 128
        → total 16 (λ i. occurs j (update chains b (chains b ++ (k ∷ [])) i))
          ≡ (if (r.1 j).variable == 0 then 0 else 1)
    counted_more r t j l = elim (ℕ_discrete j k) [
      | yes q ↦
          let filled_in : (r.1 j).variable ≡ filled.variable =
            t.variables j
            ∙ (ap (λ z. (update s.ops k filled z).variable) q
                ∙ ap (λ z. z.variable) (update_here s.ops k filled)) in
          let taken : ((r.1 j).variable == 0) ≡ false = ground (arith, filled_in, used) in
          let empty : total 16 (λ i. occurs j (chains i)) ≡ 0 =
            ground (arith, h.counted j l, free, ap (λ z. (s.ops z).variable) q) in
          let one = occurs_here k [] in
          rw taken (omega (arith, total_more j, empty, one, ap (λ z. occurs z (k ∷ [])) q))
      | no d ↦
          let same : (r.1 j).variable ≡ (s.ops j).variable =
            t.variables j ∙ ap (λ z. z.variable) (update_other s.ops k j filled d) in
          omega (arith, total_more j, occurs_other j k [] d, h.counted j l)
          ∙ ap (λ z. if z == 0 then 0 else 1) (sym same)
    ]

    Linked-Shape :
        (r : Option ℕ × Pool)
        → Linked (update s.ops k filled) (chains b) k r
        → Shape past
            (record s { ops = r.1; blocks = update s.blocks b (record (s.blocks b) { ops = r.0 }) })
            (update chains b (chains b ++ (k ∷ [])))
    Linked-Shape r t =
        let xs = chains b in
        let ops = update s.ops k filled in
        let block = record (s.blocks b) { ops = r.0 } in
        let more = xs ++ (k ∷ []) in
        record {
          chained =
              update_ind (λ i B ks. i < 16 → is_some B.id ≡ true → Chain r.1 B.ops ks) s.blocks
                chains b block more (λ l e. t.chain)
                (λ i d l e.
                  Chain-frame s.ops r.1 (s.blocks i).ops (chains i)
                    (λ j o.
                      t.others j (off_chain i l j o) (apart i b j l lb d o)
                      ∙ ap (λ z. z.next) (update_other s.ops k j filled (off_chain i l j o)))
                    (h.chained i l e));
          idle =
              update_ind (λ i B ks. i < 16 → is_some B.id ≡ false → ks ≡ []) s.blocks chains b block
                more (λ l e. absurd (ground (arith, active, e))) (λ i d. h.idle i);
          counted = counted_more r t;
          in_pool = λ j g.
              update_ind (λ i B ks. i < 16 → occurs j ks ≡ 0) s.blocks chains b block more
                (λ l. omega (
                  arith,
                  occurs-++ j xs (k ∷ []),
                  h.in_pool j g b l,
                  occurs_other j k [] (λ q. omega (arith, q, g, lk)),
                ))
                (λ i d. h.in_pool j g i);
          short =
              update_ind (λ i B ks. i < 16 → lengths past r.1 ks ≤ 26) s.blocks chains b block more
                (λ l. omega (
                  arith,
                  lengths-++ past r.1 xs (k ∷ []),
                  lengths_frame past s.ops r.1 xs (log_types_same r t b lb),
                  small,
                  ap (type_length past)
                      (t.log_types k ∙ ap (λ z. z.log_type) (update_here s.ops k filled)),
                ))
                (λ i d l. omega (
                  arith,
                  h.short i l,
                  lengths_frame past s.ops r.1 (chains i) (log_types_same r t i l),
                ));
          unique = λ i j l m a e.
              let id_same = λ (x : ℕ). update_field (λ z. z.id) s.blocks b block x refl in
              h.unique i j l m (sym (ap is_some (id_same i)) ∙ a)
                (sym (id_same i) ∙ (e ∙ id_same j));
        }

  -- The operation `k`, free before, filled in and linked to block `b`.
  pub link_ops-Shape :
      (logs : List LogEntry) (b k : ℕ) (filled : LogOps)
      → b < 16
      → is_some (s.blocks b).id ≡ true
      → k < 128
      → (s.ops k).variable ≡ 0
      → filled.variable ≢ 0
      → lengths past s.ops (chains b) + type_length past filled.log_type ≤ 26
      → Ends
          (λ s'.
            Shape past s' (update chains b (chains b ++ (k ∷ [])))
            × ((i : ℕ) → (s'.blocks i).id ≡ (s.blocks i).id))
          (link_ops past logs b k filled s)
  unfolding link_ops
  link_ops-Shape logs b k filled lb active lk free used small =
      let xs = chains b in
      let ops = update s.ops k filled in
      let off : (i : ℕ) → i < 16 → (j : ℕ) → 1 ≤ occurs j (chains i) → j ≢ k =
        λ i l j o q. omega (arith, fresh k i lk l free, o, ap (λ z. occurs z (chains i)) q) in
      let framed =
        Chain-frame s.ops ops (s.blocks b).ops xs
          (λ j o. ap (λ z. z.next) (update_other s.ops k j filled (off b lb j o)))
          (h.chained b lb active) in
      Ends-bind (Linked ops xs k) _ (block_append_ops ops (s.blocks b).ops k) _
        (block_append_ops-Linked ops (s.blocks b).ops xs k (fits b lb) (λ j. distinct b j lb)
          (fresh k b lk lb free) framed)
        (λ r t. (
          Linked-Shape b k filled lb active lk free used small r t,
          λ i. update_field (λ z. z.id) s.blocks b (record (s.blocks b) { ops = r.0 }) i refl,
        ))
