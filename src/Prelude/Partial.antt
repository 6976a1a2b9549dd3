-- ===== src/Prelude/Partial.antt =====
-- Computations that may not return: `none` is a loop that has run out of fuel.
use mathlib.Core.Option.{Option, none, some, none-ne-some, some-injective}
use mathlib.Core.Path.{◌≡◌, refl, sym, subst}
use mathlib.Core.Bool.{Bool, true, false}
use native.Mathlib.Omega.{arith}
use zephyr_nano_drone.Prelude.Tests.{if◌then◌else◌}

infixl 5 ◌>>=◌
abbrev pub ◌>>=◌ {ℓ κ} : {A : Type ℓ} {B : Type κ} → Option A → (A → Option B) → Option B
none >>= f = none
some a >>= f = f a

-- A call has gone through, with a result that `Good` holds of.
abbrev pub Ends {ℓ} : {A : Type ℓ} → (A → Type 0) → Option A → Type 0
Ends Good none = ⊥
Ends Good (some a) = Good a

pub Ends-bind {ℓ κ} :
    {A : Type ℓ} {B : Type κ} (G : A → Type 0) (H : B → Type 0) (o : Option A) (f : A → Option B)
    → Ends G o
    → ((a : A) → G a → Ends H (f a))
    → Ends H (o >>= f)
Ends-bind G H none f g h = absurd g
Ends-bind G H (some a) f g h = h a g

pub Ends-weaken {ℓ} :
    {A : Type ℓ} (G H : A → Type 0) (o : Option A) → Ends G o → ((a : A) → G a → H a) → Ends H o
Ends-weaken G H none g h = g
Ends-weaken G H (some a) g h = h a g

pub Ends-if {ℓ} :
    {A : Type ℓ} (G : A → Type 0) (b : Bool) (x y : Option A)
    → Ends G x
    → Ends G y
    → Ends G (if b then x else y)
Ends-if G true x y g h = g
Ends-if G false x y g h = h

pub Ends-then {ℓ} :
    {A : Type ℓ} (G : A → Type 0) (b : Bool) (x y : Option A)
    → b ≡ true
    → Ends G x
    → Ends G (if b then x else y)
Ends-then G true x y e g = g
Ends-then G false x y e g = absurd (ground (arith, e))

pub Ends-else {ℓ} :
    {A : Type ℓ} (G : A → Type 0) (b : Bool) (x y : Option A)
    → b ≡ false
    → Ends G y
    → Ends G (if b then x else y)
Ends-else G true x y e g = absurd (ground (arith, e))
Ends-else G false x y e g = g

pub Ends-some {ℓ} :
    {A : Type ℓ} (G : A → Type 0) (o : Option A) (a : A) → o ≡ some a → G a → Ends G o
Ends-some G none a e g = absurd (none-ne-some a e)
Ends-some G (some b) a e g = subst G (sym (some-injective b a e)) g

-- A chain of two calls that has gone through.
pub bind_some {ℓ κ} :
    {A : Type ℓ} {B : Type κ} (o : Option A) (f : A → Option B) (b : B)
    → (o >>= f) ≡ some b
    → (a : A) × (o ≡ some a) × (f a ≡ some b)
bind_some none f b e = absurd (none-ne-some b e)
bind_some (some a) f b e = (a, refl, e)
