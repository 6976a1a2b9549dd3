-- ===== src/Console/Blocked.antt =====
-- The semaphore of src/console.c: consoleInit leaves it at 0, and only a call that has taken it gives it.
use zephyr_nano_drone.Prelude.{ℕ, ◌≡◌, refl, ◌∙◌, ap, false, none, List, [], ◌∷◌, ◌>>=◌}
use zephyr_nano_drone.Msgq.{Msgq}
use zephyr_nano_drone.Crtp.{Packet}
use zephyr_nano_drone.Console.{State, console_init, putchar, putchar_from_isr, puts, flush}

module _ {Q L W : Type 0} (ops : Msgq Q Packet) where
  -- Interrupts that put characters one after the other.
  abbrev pub all_from_isr : List ℕ → State Q L W → State Q L W
  all_from_isr [] t = t
  all_from_isr (ch ∷ chars) t = all_from_isr chars (putchar_from_isr ops ch t).1

  dropped : (t : State Q L W) (chars : List ℕ) → t.0.synch ≡ 0 → all_from_isr chars t ≡ t
  unfolding putchar_from_isr
  dropped t [] e = refl
  dropped t (ch ∷ chars) e =
      let same : (putchar_from_isr ops ch t).1 ≡ t = simp (putchar_from_isr, e) refl in
      ap (λ z. all_from_isr chars z) same ∙ dropped t chars e

  -- From consoleInit on, every character that an interrupt puts is dropped, and no call of a task
  -- returns: not consolePutchar, not consolePuts of a string that is not empty, and not consoleFlush.
  pub console_init-blocks :
      (t : State Q L W) (chars : List ℕ)
      → t.0.is_init ≡ false
      → let start : State Q L W = (console_init t.0, t.1) in
        let t' = all_from_isr chars start in
        (t' ≡ start)
        × ((ch : ℕ) → putchar ops ch t' ≡ none)
        × ((ch : ℕ) (str : List ℕ) → puts ops (ch ∷ str) t' ≡ none)
        × (flush ops t' ≡ none)
  unfolding console_init putchar puts flush
  console_init-blocks t chars off =
      let start : State Q L W = (console_init t.0, t.1) in
      let same : all_from_isr chars start ≡ start = dropped start chars (rw off refl) in
      let putting : (ch : ℕ) → putchar ops ch start ≡ none = λ ch. rw (putchar, off) refl in
      (
        same,
        λ ch. ap (λ z. putchar ops ch z) same ∙ putting ch,
        λ ch str.
            ap (λ z. puts ops (ch ∷ str) z) same
            ∙ ap (λ z. z >>= (λ r. puts ops str r.1)) (putting ch),
        ap (λ z. flush ops z) same ∙ rw (flush, off) refl,
      )
