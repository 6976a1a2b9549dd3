-- ===== src/Config/Upgrade.antt =====
-- A configuration block of version 0 brought to version 1.
use zephyr_nano_drone.Prelude.{
  ℕ, zero, suc, ◌+◌, ◌≤◌, ◌<◌, ◌≡◌, refl, sym, ◌∙◌, ap, true, List, [], ◌∷◌, ◌++◌, arith, ◌==◌,
  bytes_eq, append-nil, length-append, length-take, length-drop, length, take, drop, set, get_or,
  ==_iff,
}
use zephyr_nano_drone.Config.{
  magic, seal, check_magic, check_version, check_checksum, calculate_cksum, cksum_loop, version_of,
  copy_to_new_version,
}

take-set_same : (n : ℕ) (xs : List ℕ) (v : ℕ) → take n (set xs n v) ≡ take n xs
take-set_same zero xs v = refl
take-set_same (suc n) [] v = refl
take-set_same (suc n) (x ∷ xs) v = ap (λ r. x ∷ r) (take-set_same n xs v)

get_or-set_same : (n : ℕ) (xs : List ℕ) (v : ℕ) → n < length xs → get_or (set xs n v) n 0 ≡ v
get_or-set_same n [] v h = absurd (omega arith)
get_or-set_same zero (x ∷ xs) v h = refl
get_or-set_same (suc n) (x ∷ xs) v h = get_or-set_same n xs v (omega arith)

-- A block with its checksum written passes the check.
pub seal-check_checksum : (block : List ℕ) → length block ≡ 21 → check_checksum (seal block) ≡ true
seal-check_checksum block h =
    let sum = calculate_cksum block 20 in
    let e = ap (λ r. cksum_loop 0 r) (take-set_same 20 block sum) in
    let f = get_or-set_same 20 block sum (omega (arith, h)) in
    (==_iff (get_or (seal block) 20 0) (calculate_cksum (seal block) 20)).1 (f ∙ sym e)

take-take : (k n : ℕ) (xs : List ℕ) → k ≤ n → take k (take n xs) ≡ take k xs
take-take zero n xs h = refl
take-take (suc k) zero xs h = absurd (omega arith)
take-take (suc k) (suc n) [] h = refl
take-take (suc k) (suc n) (x ∷ xs) h = ap (λ r. x ∷ r) (take-take k n xs (omega arith))

get_or-take : (n : ℕ) (xs : List ℕ) (i : ℕ) → i < n → get_or (take n xs) i 0 ≡ get_or xs i 0
get_or-take zero xs i h = absurd (omega arith)
get_or-take (suc n) [] i h = refl
get_or-take (suc n) (x ∷ xs) zero h = refl
get_or-take (suc n) (x ∷ xs) (suc i) h = get_or-take n xs i (omega arith)

-- `n` is the length of the first part.
take_past : (n k : ℕ) (xs ys : List ℕ) → length xs ≡ n → take (n + k) (xs ++ ys) ≡ xs ++ take k ys
take_past n k [] ys h = let e : n + k ≡ k = omega (arith, h) in rw e refl
take_past zero k (x ∷ xs) ys h = absurd (omega (arith, h))
take_past (suc n) k (x ∷ xs) ys h =
    let e : suc n + k ≡ suc (n + k) = omega arith in
    rw e (ap (λ r. x ∷ r) (take_past n k xs ys (omega (arith, h))))

-- An intact block of version 0, and a default block of version 1: the upgrade succeeds. The block
-- that is then written has the header and the radio address of the default one and the channel, the
-- speed and the calibration of the old one, and it passes all three checks of the next start.
pub copy_to_new_version-seal :
    (saved new : List ℕ)
    → length saved ≡ 21
    → length new ≡ 21
    → version_of saved ≡ 0
    → check_magic new ≡ true
    → check_version new ≡ true
    → (block : List ℕ) × (copy_to_new_version saved new ≡ (true, block))
      × (take 20 (seal block)
          ≡ take 5 new ++ (take 10 (drop 5 saved) ++ take 5 (drop 10 (drop 5 new))))
      × (check_magic (seal block) ≡ true)
      × (check_version (seal block) ≡ true)
      × (check_checksum (seal block) ≡ true)
unfolding copy_to_new_version
copy_to_new_version-seal saved new hs hn old mg vn =
    let header = take 5 new in
    let content = take 10 (drop 5 saved) in
    let rest = drop 10 (drop 5 new) in
    let block = header ++ (content ++ rest) in
    let n₁ : length header ≡ 5 = omega (arith, length-take 5 new, hn) in
    let n₂ : length content ≡ 10 =
      omega (arith, length-take 10 (drop 5 saved), length-drop 5 saved, hs) in
    let n₃ : length rest ≡ 6 = omega (arith, length-drop 10 (drop 5 new), length-drop 5 new, hn) in
    let whole : length block ≡ 21 =
      omega
        (arith, length-append header (content ++ rest), length-append content rest, n₁, n₂, n₃) in
    let same = take-set_same 20 block (calculate_cksum block 20) in
    let bytes : take 20 (seal block) ≡ header ++ (content ++ take 5 rest) =
      same
      ∙ (take_past 5 15 header (content ++ rest) n₁
          ∙ ap (λ r. header ++ r) (take_past 10 5 content rest n₂)) in
    let first : take 5 (seal block) ≡ header =
      sym (take-take 5 20 (seal block) (omega arith))
      ∙ (ap (take 5) bytes
          ∙ (take_past 5 0 header (content ++ take 5 rest) n₁ ∙ append-nil header)) in
    let four : take 4 (seal block) ≡ take 4 new =
      sym (take-take 4 5 (seal block) (omega arith))
      ∙ (ap (take 4) first ∙ take-take 4 5 new (omega arith)) in
    let fifth : get_or (seal block) 4 0 ≡ get_or new 4 0 =
      sym (get_or-take 5 (seal block) 4 (omega arith))
      ∙ (ap (λ r. get_or r 4 0) first ∙ get_or-take 5 new 4 (omega arith)) in
    rw old (
      block,
      refl,
      bytes,
      ap (λ r. bytes_eq r magic) four ∙ mg,
      ap (λ r. r == 1) fifth ∙ vn,
      seal-check_checksum block whole,
    )
