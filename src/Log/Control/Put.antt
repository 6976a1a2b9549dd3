-- ===== src/Log/Control/Put.antt =====
-- A block of src/log.c put anew, with its operations freed: what logCreateBlock and logDeleteBlock do.
use zephyr_nano_drone.Prelude.{
  ℕ, ◌≤◌, ◌<◌, ◌≡◌, ◌≢◌, refl, sym, ◌∙◌, ap, subst, true, false, none, List, [], arith, ◌==◌,
  if◌then◌else◌, ℕ_discrete, is_some,
}
use zephyr_nano_drone.Log.Blocks.{Pool, Block, Log, update}
use zephyr_nano_drone.Log.Blocks.Counting.{occurs, total, total_change, total_at}
use zephyr_nano_drone.Log.Blocks.Chains.{
  Chain, Chain-frame, lengths, lengths_frame, update_here, update_other, update_ind,
}
use zephyr_nano_drone.Log.Blocks.Links.{Freed}
use zephyr_nano_drone.Log.Blocks.Shape.{Shape, distinct}

total_one : (v n : ℕ) → n ≡ (if v == 0 then 0 else 1) → n ≤ 1
total_one v n e = ground (arith, e)

module _ {T W : Type 0} (past : ℕ → ℕ) (s : Log T W) (chains : ℕ → List ℕ)
    (h : Shape past s chains) where
  -- The shape depends on the ids and the chains of the blocks alone, and on the operations.
  pub Shape-same :
      (blocks : ℕ → Block T) (w : W)
      → ((i : ℕ) → (blocks i).id ≡ (s.blocks i).id)
      → ((i : ℕ) → (blocks i).ops ≡ (s.blocks i).ops)
      → Shape past (record s { blocks = blocks; world = w }) chains
  Shape-same blocks w ids heads = record {
    chained = λ i l e.
        subst (λ z. Chain s.ops z (chains i)) (sym (heads i))
          (h.chained i l (sym (ap is_some (ids i)) ∙ e));
    idle = λ i l e. h.idle i l (sym (ap is_some (ids i)) ∙ e);
    counted = h.counted;
    in_pool = h.in_pool;
    short = h.short;
    unique =
        λ i j l m a e. h.unique i j l m (sym (ap is_some (ids i)) ∙ a) (sym (ids i) ∙ (e ∙ ids j));
  }

  pub Shape-world : (w : W) → Shape past (record s { world = w }) chains
  Shape-world w = Shape-same s.blocks w (λ i. refl) (λ i. refl)

  -- Block `b` put anew, with its operations freed.
  module _ (b : ℕ) (lb : b < 16) (ops : Pool) (f : Freed s.ops (chains b) ops) (B : Block T) (w : W)
      (ends : is_some B.id ≡ true → B.ops ≡ none)
      (new : is_some B.id ≡ true → (j : ℕ) → j < 16 → (s.blocks j).id ≢ B.id) where
    counted_less :
        (k : ℕ)
        → k < 128
        → total 16 (λ i. occurs k (update chains b [] i)) ≡ (if (ops k).variable == 0 then 0 else 1)
    counted_less k l =
        let change =
          total_change 16 (λ i. occurs k (update chains b [] i)) (λ i. occurs k (chains i)) b lb
            (λ i m d. ap (occurs k) (update_other chains b i [] d)) in
        let at_b : occurs k (update chains b [] b) ≡ 0 = ap (occurs k) (update_here chains b []) in
        let one = distinct past s chains h b k lb in
        let before = h.counted k l in
        let some_of = total_at 16 (λ i. occurs k (chains i)) b lb in
        elim (ℕ_discrete (occurs k (chains b)) 0) [
          | yes q ↦
              omega (arith, change, at_b, before, q)
              ∙ ap (λ z. if z == 0 then 0 else 1) (sym (f.kept k q))
          | no q ↦
              let free = f.cleared k (omega (arith, q)) in
              let most : total 16 (λ i. occurs k (chains i)) ≤ 1 =
                total_one (s.ops k).variable _ before in
              omega (arith, change, at_b, one, some_of, most, q)
              ∙ ap (λ z. if z == 0 then 0 else 1) (sym free)
        ]

    pub id_here : (i : ℕ) → i ≡ b → (update s.blocks b B i).id ≡ B.id
    id_here i q = ap (λ z. (update s.blocks b B z).id) q ∙ ap (λ z. z.id) (update_here s.blocks b B)

    pub id_other : (i : ℕ) → i ≢ b → (update s.blocks b B i).id ≡ (s.blocks i).id
    id_other i d = ap (λ z. z.id) (update_other s.blocks b i B d)

    pub put_block-Shape :
        Shape past
          (record s { ops = ops; blocks = update s.blocks b B; world = w })
          (update chains b [])
    put_block-Shape = record {
      chained =
          update_ind (λ i C ks. i < 16 → is_some C.id ≡ true → Chain ops C.ops ks) s.blocks chains b
            B [] (λ l e. ends e)
            (λ i d l e.
              Chain-frame s.ops ops (s.blocks i).ops (chains i) (λ j o. f.nexts j)
                (h.chained i l e));
      idle =
          update_ind (λ i C ks. i < 16 → is_some C.id ≡ false → ks ≡ []) s.blocks chains b B []
            (λ l e. refl) (λ i d. h.idle i);
      counted = counted_less;
      in_pool = λ j g.
          update_ind (λ i C ks. i < 16 → occurs j ks ≡ 0) s.blocks chains b B [] (λ l. refl)
            (λ i d. h.in_pool j g i);
      short =
          update_ind (λ i C ks. i < 16 → lengths past ops ks ≤ 26) s.blocks chains b B []
            (λ l. omega arith)
            (λ i d l.
              omega (
                arith,
                h.short i l,
                lengths_frame past s.ops ops (chains i) (λ j o. f.log_types j),
              ));
      unique = λ i j l m a e. elim (ℕ_discrete i b) [
        | yes q ↦ elim (ℕ_discrete j b) [
          | yes r ↦ q ∙ sym r
          | no r ↦ absurd (
              new (sym (ap is_some (id_here i q)) ∙ a) j m
                (sym (id_other j r) ∙ (sym e ∙ id_here i q)))
        ]
        | no q ↦ elim (ℕ_discrete j b) [
          | yes r ↦ absurd (
              new (sym (ap is_some (e ∙ id_here j r)) ∙ a) i l
                (sym (id_other i q) ∙ (e ∙ id_here j r)))
          | no r ↦
              h.unique i j l m (sym (ap is_some (id_other i q)) ∙ a)
                (sym (id_other i q) ∙ (e ∙ id_other j r))
        ]
      ];
    }
