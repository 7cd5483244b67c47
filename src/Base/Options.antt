-- ===== src/Base/Options.antt =====
-- Computations that may fault.
use mathlib.Core.Path.{◌≡◌, refl}
use mathlib.Core.Option.{Option, none, some}

infixl 5 ◌>>=◌
abbrev pub ◌>>=◌ {ℓ κ} : {A : Type ℓ} {B : Type κ} → Option A → (A → Option B) → Option B
none >>= f = none
some a >>= f = f a

pub bind_some {ℓ} : {A : Type ℓ} (m : Option A) → (m >>= some) ≡ m
bind_some none = refl
bind_some (some a) = refl
