-- ===== src/Commander/Mailbox.antt =====
-- A message queue of one, which src/commander.c reads by peeking and writes by replacing.
use zephyr_nano_drone.Prelude.{◌≡◌, ◌∙◌, ap, ◌++◌, List, [], ◌∷◌, arith, length}
use zephyr_nano_drone.Msgq.{Msgq, Fifo}
use zephyr_nano_drone.Commander.{replace}

module _ {Q A : Type 0} (ops : Msgq Q A) (contents : Q → List A) (fifo : Fifo ops contents 1) where
  pub replace_lem : (a b : A) (q : Q) → contents q ≡ b ∷ [] → contents (replace ops a q) ≡ a ∷ []
  replace_lem a b q e =
      let empty = (fifo.get_first q b [] e).1 in
      let n = ap (λ z. length z) empty in
      (fifo.put_room (ops.get q).1 a (omega (arith, n))).1 ∙ ap (λ z. z ++ (a ∷ [])) empty
