-- ===== src/Log/Items/Process.antt =====
-- What logTOCProcess of src/log.c answers, for a table that logInit has passed.
use zephyr_nano_drone.Prelude.{
  ℕ, zero, suc, ◌+◌, ◌*◌, ◌/◌, ◌%◌, ◌≤◌, ◌<◌, ◌≡◌, ◌⊎◌, refl, sym, ◌∙◌, ap, subst, true, false, inl,
  inr, Option, none, some, List, [], ◌∷◌, ◌++◌, arith, ltb, leb, ◌==◌, if◌then◌else◌, ◌>>=◌, length,
  length-append, get_or, get_elem?, Ends, Ends-if,
}
use mathlib.Core.Option.{none-ne-some}
use zephyr_nano_drone.Log.{LogEntry, logs_count, log_get_type, variable_get_index}
use zephyr_nano_drone.Log.Blocks.Search.{entry_at}
use zephyr_nano_drone.Log.Items.{init_loop, Place, toc_loop, item_reply, first_group, toc_process}
use zephyr_nano_drone.Log.Items.Replies.{Opened, toc_loop-Item}

-- The reply on an entry.
abbrev pub item_bytes : List ℕ → LogEntry → List ℕ → List ℕ
item_bytes head e group = head ++ (log_get_type e ∷ group ++ (0 ∷ e.name ++ (0 ∷ [])))

length-item_bytes :
    (head : List ℕ) (e : LogEntry) (group : List ℕ)
    → length (item_bytes head e group) ≡ length head + 3 + length group + length e.name
length-item_bytes head e group = omega (
  arith,
  length-append head (log_get_type e ∷ group ++ (0 ∷ e.name ++ (0 ∷ []))),
  length-append group (0 ∷ e.name ++ (0 ∷ [])),
  length-append e.name (0 ∷ []),
)

size_fits : (h g n : ℕ) → h ≤ 3 → g + n ≤ 24 → leb ((h + 1 + 2 + g + n) % 256) 30 ≡ true
size_fits h g n l m = ground (arith, l, m)

get_elem?-bound :
    (xs : List LogEntry) (i : ℕ) (e : LogEntry) → get_elem? xs i ≡ some e → i < length xs
get_elem?-bound [] i e q = absurd (none-ne-some e q)
get_elem?-bound (x ∷ xs) zero e q = omega arith
get_elem?-bound (x ∷ xs) (suc i) e q = omega (arith, get_elem?-bound xs i e q)

-- A reply, if there is one, fits a packet.
abbrev pub Fits : Option (List ℕ) → Type 0
Fits none = Unit
Fits (some reply) = length reply ≤ 30

module _ (crc32 : List ℕ → ℕ) (logs : List LogEntry) (crc : ℕ)
    (passed : init_loop crc32 logs 0 0 ≡ some crc) (few : logs_count logs < 65536)
    (opened : Opened logs) where
  abbrev pub start : Place
  start = record { ptr = 0; group = first_group; n = 0 }

  -- What the request of variable `id` comes to.
  pub record Answer (head : List ℕ) (id : ℕ) (answer : Option (Option (List ℕ))) : Type 0 where
    pub index : ℕ
    pub entry : LogEntry
    pub group : List ℕ
    pub found : variable_get_index logs id ≡ some index
    pub there : get_elem? logs index ≡ some entry
    pub reply : answer ≡ some (some (item_bytes head entry group))
    pub short : length (item_bytes head entry group) ≤ 30

  abbrev pub Answered : List ℕ → ℕ → ℕ → Option (Option (List ℕ)) → Type 0
  Answered head id command answer =
      Answer head id answer
      ⊎ ((variable_get_index logs id ≡ none) × (answer ≡ some (some (command ∷ []))))

  -- Either request, with the bytes that stand in front of its reply.
  answered :
      (head : List ℕ) (id command : ℕ)
      → length head ≤ 3
      → Answered head id command (
          if ltb (toc_loop logs id start).ptr (length logs)
          then (do reply ← item_reply logs head (toc_loop logs id start); some (some reply))
          else some (some (command ∷ [])))
  unfolding item_reply variable_get_index
  answered head id command l =
      elim (toc_loop-Item crc32 logs id start 0 crc 0 passed (inr opened) (omega (arith, few))) [
        | inl i ↦
            let r = toc_loop logs id start in
            let d : LogEntry = record { type = 0; name = []; address = 0 } in
            let at : r.ptr ≡ i.index = omega (arith, i.ptr) in
            let inside : ltb r.ptr (length logs) ≡ true =
              ground (arith, at, get_elem?-bound logs i.index i.entry i.there) in
            let e : get_or logs r.ptr d ≡ i.entry =
              ap (λ z. get_or logs z d) i.ptr ∙ entry_at logs i.index i.entry d i.there in
            inl (record {
              index = i.index;
              entry = i.entry;
              group = r.group;
              found = i.same ∙ ap (λ z. some z) at;
              there = i.there;
              reply =
                  rw
                    (
                      inside,
                      e,
                      size_fits (length head) (length r.group) (length i.entry.name) l i.fits,
                    )
                    refl;
              short = omega (arith, length-item_bytes head i.entry r.group, l, i.fits);
            })
        | inr (q, m) ↦
            let out : ltb (toc_loop logs id start).ptr (length logs) ≡ false = ground (arith, q) in
            inr (m, rw out refl)
      ]

  Answered-Fits :
      (head : List ℕ) (id command : ℕ) (answer : Option (Option (List ℕ)))
      → Answered head id command answer
      → Ends Fits answer
  Answered-Fits head id command answer (inl a) = subst (Ends Fits) (sym a.reply) a.short
  Answered-Fits head id command answer (inr (m, e)) = subst (Ends Fits) (sym e) (omega arith)

  -- For a table of fewer than 65536 variables that logInit has passed and that opens with a group,
  -- every request is handled without a failed assertion, and a reply has at most 30 bytes.
  pub toc_process-Fits :
      (count check command : ℕ) (bytes : ℕ → ℕ)
      → Ends Fits (toc_process logs count check command bytes)
  unfolding toc_process
  toc_process-Fits count check command bytes =
      let id₁ = bytes 1 in
      let id₂ = bytes 1 + 256 * bytes 2 in
      let head₁ = 0 ∷ (toc_loop logs id₁ start).n % 256 ∷ [] in
      let head₂ = 2 ∷ id₂ % 256 ∷ id₂ / 256 ∷ [] in
      Ends-if Fits (command == 1) _ _ (omega arith) (
        Ends-if Fits (command == 0) _ _
          (Answered-Fits head₁ id₁ 0 _ (answered head₁ id₁ 0 (omega arith)))
          (Ends-if Fits (command == 3) _ _ (omega arith) (
            Ends-if Fits (command == 2) _ (some none)
              (Answered-Fits head₂ id₂ 2 _ (answered head₂ id₂ 2 (omega arith))) tt)))
