-- ===== src/Console/Bounds.antt =====
-- The buffer of src/console.c: what consolePutchar does under its semaphore stays in it.
use zephyr_nano_drone.Prelude.{
  ℕ, ◌+◌, ◌≤◌, ◌≡◌, refl, Bool, Bool-cases, inl, inr, List, [], ◌∷◌, arith, ltb, length, set,
  length-set,
}
use zephyr_nano_drone.Msgq.{Msgq}
use zephyr_nano_drone.Crtp.{Packet}
use zephyr_nano_drone.Console.{State, buffer_full_msg, append_char, copy_at, add_buffer_full_marker}

-- The array has its 30 bytes, and `size` counts some of them.
pub record InBounds (p : Packet) : Type 0 where
  pub whole : length p.payload ≡ 30
  pub counted : p.size ≤ 30

pub append_char-InBounds : (ch : ℕ) (p : Packet) → InBounds p → InBounds (append_char ch p)
unfolding append_char
append_char-InBounds ch p o = elim (Bool-cases (ltb p.size 30)) [
  | inl e ↦ rw e (record {
    whole = omega (arith, length-set p.payload p.size ch, o.whole);
    counted = ground arith;
  })
  | inr e ↦ rw e o
]

length-copy_at : (xs : List ℕ) (i : ℕ) (bs : List ℕ) → length (copy_at xs i bs) ≡ length xs
unfolding copy_at
length-copy_at xs i [] = refl
length-copy_at xs i (b ∷ bs) =
    omega (arith, length-copy_at (set xs i b) (i + 1) bs, length-set xs i b)

pub add_buffer_full_marker-InBounds :
    (p : Packet) → InBounds p → InBounds (add_buffer_full_marker p)
unfolding add_buffer_full_marker
add_buffer_full_marker-InBounds p o = record {
  whole = omega (arith, length-copy_at p.payload _ buffer_full_msg, o.whole);
  counted = ground arith;
}

module _ {Q L W : Type 0} (ops : Msgq Q Packet) where
  abbrev pub Kept : State Q L W → Type 0
  Kept t = InBounds t.0.message_to_print

  abbrev KeptSent : Bool × State Q L W → Type 0
  KeptSent r = Kept r.1
