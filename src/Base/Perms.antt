-- ===== src/Base/Perms.antt =====
-- What a rearrangement keeps.
use Prim.Native.Nat.{ℕ}
use mathlib.Core.Path.{◌≡◌, refl, ◌∙◌}
use mathlib.Core.List.{List, [], ◌∷◌, Perm, Permᴰ}
use mathlib.Core.Logic.{∥∥₁_elim}
use native.Mathlib.Nat.{ℕ_set}
use native.Mathlib.Bridge.{le_prop}
use native.Mathlib.Omega.{arith}
use addnas_mldonkey.Base.Lists.{length, AllBelow}

Permᴰ-length {ℓ} : {A : Type ℓ} {xs ys : List A} → Permᴰ xs ys → length xs ≡ length ys
Permᴰ-length Permᴰ.nil = refl
Permᴰ-length (Permᴰ.cons e p) = omega (arith, Permᴰ-length p)
Permᴰ-length (Permᴰ.swap e f) = refl
Permᴰ-length (Permᴰ.trans p q) = Permᴰ-length p ∙ Permᴰ-length q

pub Perm-length {ℓ} : {A : Type ℓ} {xs ys : List A} → Perm xs ys → length xs ≡ length ys
Perm-length p = ∥∥₁_elim p (ℕ_set _ _) Permᴰ-length

Permᴰ-AllBelow : (b : ℕ) {xs ys : List ℕ} → Permᴰ xs ys → AllBelow b ys → AllBelow b xs
Permᴰ-AllBelow b Permᴰ.nil h = tt
Permᴰ-AllBelow b (Permᴰ.cons e p) h = (rw e h.0, Permᴰ-AllBelow b p h.1)
Permᴰ-AllBelow b (Permᴰ.swap e f) h = (rw e h.1.0, (rw f h.0, h.1.1))
Permᴰ-AllBelow b (Permᴰ.trans p q) h = Permᴰ-AllBelow b p (Permᴰ-AllBelow b q h)

AllBelow-prop : (b : ℕ) (xs : List ℕ) → IsProp (AllBelow b xs)
AllBelow-prop b [] = hlevel
AllBelow-prop b (x ∷ xs) = hlevel (le_prop, AllBelow-prop b xs)

pub Perm-AllBelow : (b : ℕ) (xs ys : List ℕ) → Perm xs ys → AllBelow b ys → AllBelow b xs
Perm-AllBelow b xs ys p h = ∥∥₁_elim p (AllBelow-prop b xs) (λ q. Permᴰ-AllBelow b q h)
