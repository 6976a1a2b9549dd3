-- ===== src/HighLevel/Memory.antt =====
-- The trajectory memory of src/crtp_commander_high_level.c, and what its bounds test lets through.
use zephyr_nano_drone.Prelude.{
  ℕ, zero, suc, ◌+◌, ◌%◌, ◌≤◌, ◌<◌, ◌≡◌, ◌⊎◌, inl, inr, refl, ◌∙◌, ap, Bool, true, false,
  Bool-cases, List, [], ◌∷◌, Option, none, some, ◌==◌, leb, if◌then◌else◌, arith, length, dec_lt,
}
use zephyr_nano_drone.HighLevel.{trajectory_memory_size}

abbrev pub ByteMemory : Type 0
ByteMemory = ℕ → ℕ

-- Pointers are of 32 bits.
abbrev pub following : ℕ → ℕ
following at = (at + 1) % 4294967296

-- `memcpy` into the bytes from `trajectories_memory` on.
abbrev pub copy_in : ByteMemory → ℕ → List ℕ → ByteMemory
copy_in m at [] = m
copy_in m at (b ∷ bs) = copy_in (λ j. if j == at then b else m j) (following at) bs

abbrev pub copy_out : ByteMemory → ℕ → ℕ → List ℕ
copy_out m at zero = []
copy_out m at (suc n) = m at ∷ copy_out m (following at) n

-- The test of both calls, whose sum is one of 32 bits.
abbrev pub accepts : ℕ → ℕ → Bool
accepts offset len = leb ((offset + len) % 4294967296) trajectory_memory_size

-- crtpCommanderHighLevelWriteTrajectory, and handleMemWrite.
unfoldable pub write_trajectory : ByteMemory → ℕ → List ℕ → Bool × ByteMemory
write_trajectory m offset bytes =
    if accepts offset (length bytes) then (true, copy_in m offset bytes) else (false, m)

-- crtpCommanderHighLevelReadTrajectory, and handleMemRead: none where the result is false.
unfoldable pub read_trajectory : ByteMemory → ℕ → ℕ → Option (List ℕ)
read_trajectory m offset len = if accepts offset len then some (copy_out m offset len) else none

following_small : (at n : ℕ) → at + suc n < 4294967296 → following at ≡ at + 1
following_small at n l = ground (arith, l)

later :
    (at n j next_at : ℕ)
    → next_at ≡ at + 1
    → (j < at) ⊎ (at + suc n ≤ j)
    → (j < next_at) ⊎ (next_at + n ≤ j)
later at n j next_at e (inl l) = inl (omega (arith, l, e))
later at n j next_at e (inr l) = inr (omega (arith, l, e))

copy_in_outside :
    (m : ByteMemory) (at : ℕ) (bs : List ℕ) (j : ℕ)
    → at + length bs < 4294967296
    → (j < at) ⊎ (at + length bs ≤ j)
    → copy_in m at bs j ≡ m j
copy_in_outside m at [] j l o = refl
copy_in_outside m at (b ∷ bs) j l o =
    let n = following_small at (length bs) l in
    let e : (j == at) ≡ false = ground (arith, o) in
    copy_in_outside (λ i. if i == at then b else m i) (following at) bs j (omega (arith, l, n))
      (later at (length bs) j (following at) n o)
    ∙ rw e refl

copy_out-copy_in :
    (m : ByteMemory) (at : ℕ) (bs : List ℕ)
    → at + length bs < 4294967296
    → copy_out (copy_in m at bs) at (length bs) ≡ bs
copy_out-copy_in m at [] l = refl
copy_out-copy_in m at (b ∷ bs) l =
    let n = following_small at (length bs) l in
    let m' = (λ (j : ℕ). if j == at then b else m j) in
    let here : (at == at) ≡ true = ground arith in
    let small : following at + length bs < 4294967296 = omega (arith, l, n) in
    ap (λ z. z ∷ copy_out (copy_in m at (b ∷ bs)) (following at) (length bs))
      (copy_in_outside m' (following at) bs at small (inl (omega (arith, n))) ∙ rw here refl)
    ∙ ap (λ z. b ∷ z) (copy_out-copy_in m' (following at) bs small)

abbrev pub Within : ByteMemory → ℕ → List ℕ → Type 0
Within m offset bytes =
    (offset + length bytes ≤ 4096)
    × (write_trajectory m offset bytes ≡ (true, copy_in m offset bytes))
    × (read_trajectory (copy_in m offset bytes) offset (length bytes) ≡ some bytes)
    × ((j : ℕ) → (j < offset) ⊎ (offset + length bytes ≤ j) → copy_in m offset bytes j ≡ m j)

without_wrap :
    (m : ByteMemory) (offset : ℕ) (bytes : List ℕ)
    → offset + length bytes < 4294967296
    → Within m offset bytes
      ⊎ ((4096 < offset + length bytes) × (write_trajectory m offset bytes ≡ (false, m)))
unfolding write_trajectory read_trajectory
without_wrap m offset bytes l = elim (Bool-cases (leb (offset + length bytes) 4096)) [
  | inl e ↦
      let a : accepts offset (length bytes) ≡ true = ground (arith, e, l) in
      inl (
        ground (arith, e),
        rw a refl,
        rw a (ap (λ z. some z) (copy_out-copy_in m offset bytes l)),
        λ j k. copy_in_outside m offset bytes j l k,
      )
  | inr e ↦
      let a : accepts offset (length bytes) ≡ false = ground (arith, e, l) in
      inr (ground (arith, e), rw a refl)
]

with_wrap :
    (m : ByteMemory) (offset : ℕ) (bytes : List ℕ)
    → offset < 4294967296
    → length bytes ≤ 4096
    → 4294967296 ≤ offset + length bytes
    → write_trajectory m offset bytes ≡ (true, copy_in m offset bytes)
unfolding write_trajectory
with_wrap m offset bytes l short wraps =
    let a : accepts offset (length bytes) ≡ true = ground (arith, l, short, wraps) in rw a refl

-- A write of at most 4096 bytes at an offset of 32 bits. Within the array it is accepted, changes
-- those bytes alone, and they are read back. Past the array it is refused, if the sum of the offset
-- and the length does not wrap; where it wraps, the write is accepted.
pub write_trajectory-cases :
    (m : ByteMemory) (offset : ℕ) (bytes : List ℕ)
    → offset < 4294967296
    → length bytes ≤ 4096
    → Within m offset bytes
      ⊎ ((4096 < offset + length bytes)
          × (offset + length bytes < 4294967296)
          × (write_trajectory m offset bytes ≡ (false, m)))
      ⊎ ((4096 < offset)
          × (4294967296 ≤ offset + length bytes)
          × (write_trajectory m offset bytes ≡ (true, copy_in m offset bytes)))
write_trajectory-cases m offset bytes l short = elim (dec_lt (offset + length bytes) 4294967296) [
  | yes small ↦ elim (without_wrap m offset bytes small) [
    | inl w ↦ inl w
    | inr (past, refused) ↦ inr (inl (past, small, refused))
  ]
  | no wraps ↦ inr (
      inr (
        omega (arith, short, wraps),
        omega (arith, wraps),
        with_wrap m offset bytes l short (omega (arith, wraps)),
      ))
]
