-- ===== src/Msgq/Lists.antt =====
-- A message queue that is the list of its messages: what the tests instantiate the interface with.
use zephyr_nano_drone.Prelude.{
  ℕ, ◌≡◌, refl, true, false, Option, none, some, List, [], ◌∷◌, ◌++◌, length, ltb, if◌then◌else◌,
  arith,
}
use zephyr_nano_drone.Msgq.{Msgq, Fifo}

abbrev pop {ℓ} : {A : Type ℓ} → List A → Option A × List A
pop [] = (none, [])
pop (a ∷ q) = (some a, q)

abbrev pub list_msgq : {A : Type 0} → ℕ → Msgq (List A) A
list_msgq max_msgs = record {
  put = λ q a. if ltb (length q) max_msgs then (true, q ++ (a ∷ [])) else (false, q);
  get = pop;
  peek = λ q. (pop q).0;
  num_used = length;
  purge = λ q. [];
}

get_lem {ℓ} :
    {A : Type ℓ} (q : List A) (a : A) (rest : List A)
    → q ≡ a ∷ rest
    → ((pop q).0 ≡ some a) × ((pop q).1 ≡ rest)
get_lem q a rest e = rw e (refl, refl)

get_empty_lem {ℓ} : {A : Type ℓ} (q : List A) → q ≡ [] → ((pop q).0 ≡ none) × ((pop q).1 ≡ [])
get_empty_lem q e = rw e (refl, refl)

pub list_msgq-Fifo :
    {A : Type 0} (max_msgs : ℕ) → Fifo (list_msgq {A = A} max_msgs) (λ q. q) max_msgs
list_msgq-Fifo max_msgs = record {
  put_room = λ q a h. let e : ltb (length q) max_msgs ≡ true = ground arith in rw e (refl, refl);
  put_full = λ q a h. let e : ltb (length q) max_msgs ≡ false = ground arith in rw e (refl, refl);
  get_first = get_lem;
  get_empty = get_empty_lem;
  peek_first = λ q a rest e. (get_lem q a rest e).0;
  used = λ q. refl;
  purged = λ q. refl;
}
