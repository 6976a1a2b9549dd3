-- ===== src/Msgq.antt =====
-- The message queues of the real-time system (k_msgq), which the firmware only calls: an interface,
-- with the documented laws of a first-in first-out queue of a fixed capacity.
pub mod Lists
use zephyr_nano_drone.Prelude.{
  ℕ, ◌≤◌, ◌<◌, ◌≡◌, Bool, true, false, Option, none, some, List, [], ◌∷◌, ◌++◌, length,
}

-- The calls with K_NO_WAIT; the Boolean is "the call returned 0".
pub record Msgq (Q A : Type 0) : Type 0 where
  pub put : Q → A → Bool × Q
  pub get : Q → Option A × Q
  pub peek : Q → Option A
  pub num_used : Q → ℕ
  pub purge : Q → Q

-- `contents` lists the messages, the oldest first.
pub record Fifo {Q A : Type 0} (ops : Msgq Q A) (contents : Q → List A) (max_msgs : ℕ)
    : Type 0 where
  pub put_room :
      (q : Q) (a : A)
      → length (contents q) < max_msgs
      → ((ops.put q a).0 ≡ true) × (contents (ops.put q a).1 ≡ contents q ++ (a ∷ []))
  pub put_full :
      (q : Q) (a : A)
      → max_msgs ≤ length (contents q)
      → ((ops.put q a).0 ≡ false) × (contents (ops.put q a).1 ≡ contents q)
  pub get_first :
      (q : Q) (a : A) (rest : List A)
      → contents q ≡ a ∷ rest
      → ((ops.get q).0 ≡ some a) × (contents (ops.get q).1 ≡ rest)
  pub get_empty : (q : Q) → contents q ≡ [] → ((ops.get q).0 ≡ none) × (contents (ops.get q).1 ≡ [])
  pub peek_first : (q : Q) (a : A) (rest : List A) → contents q ≡ a ∷ rest → ops.peek q ≡ some a
  pub used : (q : Q) → ops.num_used q ≡ length (contents q)
  pub purged : (q : Q) → contents (ops.purge q) ≡ []
