-- ===== src/Log/Run/Packing.antt =====
-- The packet of a block of src/log.c holds every value of the block.
use zephyr_nano_drone.Prelude.{
  ℕ, zero, suc, ◌+◌, ◌/◌, ◌%◌, ◌≤◌, ◌<◌, ◌≡◌, refl, sym, ◌∙◌, ap, true, Bool-cases, inl, inr,
  Option, none, some, List, [], ◌∷◌, ◌++◌, append_assoc, append-nil, arith, ltb, leb, ◌==◌,
  if◌then◌else◌, ◌>>=◌, length, length-append, sub_u32, is_some, Ends, Ends-if, Ends-bind,
  bind_some,
}
use mathlib.Core.Option.{some-injective}
use zephyr_nano_drone.Log.Blocks.{LogOps, Pool, Log, Acquisition, memory, function, type_length}
use zephyr_nano_drone.Log.Blocks.Chains.{Chain, lengths}
use zephyr_nano_drone.Log.Blocks.Shape.{Shape, fits}
use zephyr_nano_drone.Log.Run.{
  Machine, LogPacket, copied, append_to_packet, acquired, encoded, width, pack_loop, log_packet,
}

length-copied : (behind : ℕ → ℕ) (n i v : ℕ) → length (copied behind n i v) ≡ n
unfolding copied
length-copied behind zero i v = refl
length-copied behind (suc n) i v = omega (arith, length-copied behind n (i + 1) v)

abbrev of_bytes : ℕ → List ℕ → LogPacket
of_bytes n x = record { size = n; content = x }

packet_eq : (m n : ℕ) (x y : List ℕ) → m ≡ n → x ≡ y → of_bytes m x ≡ of_bytes n y
packet_eq m n x y e f = ap (λ z. of_bytes z x) e ∙ ap (of_bytes n) f

append_fits :
    (bytes : List ℕ) (n : ℕ) (pk : LogPacket)
    → pk.size + n ≤ 30
    → append_to_packet bytes n pk
      ≡ some (record { size = pk.size + n; content = pk.content ++ bytes })
unfolding append_to_packet
append_fits bytes n pk l =
    let room : leb pk.size (sub_u32 30 n) ≡ true = ground (arith, l) in
    rw room (ap (λ z. some (record { size = z; content = pk.content ++ bytes })) (omega (arith, l)))

width-type_length :
    (past : ℕ → ℕ) (t : ℕ)
    → (if t == 7 then 4 else if t == 8 then 2 else type_length past t) ≡ type_length past t
width-type_length past t = ground arith

length-value :
    (behind : ℕ → ℕ) (past : ℕ → ℕ) (t float half int : ℕ)
    → length (
        if t == 7
        then copied behind 4 0 float
        else if t == 8
        then copied behind 2 0 half
        else copied behind (type_length past t) 0 int)
      ≡ type_length past t
length-value behind past t float half int = elim (Bool-cases (t == 7)) [
  | inl e ↦ rw e (length-copied behind 4 0 float ∙ ground (arith, e))
  | inr e ↦ elim (Bool-cases (t == 8)) [
    | inl q ↦ rw (e, q) (length-copied behind 2 0 half ∙ ground (arith, q))
    | inr q ↦ rw (e, q) (length-copied behind (type_length past t) 0 int)
  ]
]

is_some-Ends : (o : Option ℕ) → is_some o ≡ true → Ends (λ _. Unit) o
is_some-Ends none e = absurd (ground (arith, e))
is_some-Ends (some v) e = tt

module _ {F : Type 0} (machine : Machine F) (past : ℕ → ℕ) (now : ℕ) (ops : Pool) where
  -- The values of the operations of the list, one after the other.
  unfoldable pub all_encoded : List ℕ → Option (List ℕ)
  unfolding encoded
  all_encoded [] = some []
  all_encoded (k ∷ ks) = do
    bytes ← encoded machine past now (ops k)
    rest ← all_encoded ks
    some (bytes ++ rest)

  length-encoded :
      (o : LogOps) (bytes : List ℕ)
      → encoded machine past now o ≡ some bytes
      → length bytes ≡ type_length past o.log_type
  unfolding encoded
  length-encoded o bytes e =
      let (v, _, q) = bind_some (acquired machine past now o) _ bytes e in
      ap length (sym (some-injective _ bytes q)) ∙ length-value machine.behind past o.log_type _ _ _

  pack_loop-Chain :
      (fuel : ℕ) (head : Option ℕ) (xs : List ℕ) (pk : LogPacket) (out : List ℕ)
      → length xs < fuel
      → Chain ops head xs
      → pk.size + lengths past ops xs ≤ 30
      → all_encoded xs ≡ some out
      → pack_loop machine past fuel now ops head pk
        ≡ some (record { size = pk.size + lengths past ops xs; content = pk.content ++ out })
  unfolding pack_loop all_encoded
  pack_loop-Chain zero head xs pk out l c room v = absurd (omega arith)
  pack_loop-Chain (suc fuel) head [] pk out l c room v = rw c (
      ap (λ z. some z)
        (packet_eq _ _ _ _ (omega arith)
          (sym (append-nil pk.content) ∙ ap (λ z. pk.content ++ z) (some-injective [] out v))))
  pack_loop-Chain (suc fuel) head (k ∷ ks) pk out l c room v =
      let n = type_length past (ops k).log_type in
      let (bytes, e, q) = bind_some (encoded machine past now (ops k)) _ out v in
      let (rest, f, r) = bind_some (all_encoded ks) _ out q in
      let wide : width machine past (ops k) ≡ n = width-type_length past (ops k).log_type in
      let pk' : LogPacket = record { size = pk.size + n; content = pk.content ++ bytes } in
      let fits_in = append_fits bytes n pk (omega (arith, room)) in
      let tail =
        pack_loop-Chain fuel (ops k).next ks pk' rest (omega arith) c.1 (omega (arith, room)) f in
      rw (c.0, pack_loop, e, wide, fits_in)
        (tail
          ∙ ap (λ z. some z)
              (packet_eq _ _ _ _ (omega arith) (
                append_assoc pk.content bytes rest
                ∙ ap (λ z. pk.content ++ z) (some-injective (bytes ++ rest) out r))))

  length-all_encoded :
      (xs : List ℕ) (out : List ℕ) → all_encoded xs ≡ some out → length out ≡ lengths past ops xs
  unfolding all_encoded
  length-all_encoded [] out v = ap length (sym (some-injective [] out v))
  length-all_encoded (k ∷ ks) out v =
      let (bytes, e, q) = bind_some (encoded machine past now (ops k)) _ out v in
      let (rest, f, r) = bind_some (all_encoded ks) _ out q in
      omega (
        arith,
        ap length (sym (some-injective (bytes ++ rest) out r)),
        length-append bytes rest,
        length-encoded (ops k) bytes e,
        length-all_encoded ks rest f,
      )

  by_type-Ends :
      ((t a n : ℕ) → is_some (machine.acquire t a n) ≡ true)
      → (a : Acquisition) (t v : ℕ)
      → Ends
          (λ _. Unit)
          (elim a as (λ _. Option ℕ) [
            | memory ↦ some (machine.load t v)
            | function ↦ machine.acquire t v now
          ])
  by_type-Ends set memory t v = tt
  by_type-Ends set function t v = is_some-Ends (machine.acquire t v now) (set t v now)

  pub all_encoded-Ends :
      ((t a n : ℕ) → is_some (machine.acquire t a n) ≡ true)
      → (xs : List ℕ) → Ends (λ _. Unit) (all_encoded xs)
  unfolding all_encoded encoded acquired
  all_encoded-Ends set [] = tt
  all_encoded-Ends set (k ∷ ks) =
      let o = ops k in
      let got : Ends (λ _. Unit) (acquired machine past now o) =
        Ends-if (λ _. Unit) (o.storage_type == 0) (some 0) _ tt
          (Ends-if (λ _. Unit) (ltb 7 o.storage_type) (some 0) _ tt
            (by_type-Ends set o.acquisition_type o.storage_type o.variable)) in
      Ends-bind (λ _. Unit) (λ _. Unit) (encoded machine past now o) _
        (Ends-bind (λ _. Unit) (λ _. Unit) (acquired machine past now o) _ got (λ v u. tt))
        (λ bytes u.
          Ends-bind (λ _. Unit) (λ _. Unit) (all_encoded ks) _ (all_encoded-Ends set ks)
            (λ rest w. tt))

-- The four bytes in front of the values.
abbrev pub start_of : ℕ → ℕ → List ℕ
start_of id now = id % 256 ∷ now % 256 ∷ (now / 256) % 256 ∷ (now / 65536) % 256 ∷ []

-- The packet of a block in use: the values of all its operations, in the order of the chain, within 30 bytes.
pub log_packet-Values :
    {F T W : Type 0} (machine : Machine F) (past : ℕ → ℕ) (s : Log T W) (chains : ℕ → List ℕ)
    → Shape past s chains
    → (now b id : ℕ) (out : List ℕ) → b < 16
    → (s.blocks b).id ≡ some id
    → all_encoded machine past now s.ops (chains b) ≡ some out
    → (log_packet machine past now b s
        ≡ some (record { size = 4 + length out; content = start_of id now ++ out }))
      × (4 + length out ≤ 30)
unfolding log_packet
log_packet-Values machine past s chains h now b id out l active v =
    let n = length-all_encoded machine past now s.ops (chains b) out v in
    let short = h.short b l in
    let start : LogPacket = record { size = 4; content = start_of id now } in
    (
      rw active (
          pack_loop-Chain machine past now s.ops 129 (s.blocks b).ops (chains b) start out
            (omega (arith, fits past s chains h b l)) (h.chained b l (ap is_some active))
            (omega (arith, short)) v
          ∙ ap (λ z. some (of_bytes (4 + z) (start_of id now ++ out))) (sym n)),
      omega (arith, n, short),
    )
