-- ===== src/Base/Counts.antt =====
-- How often a number stands in a list, and what a write and a swap do to it.
use Prim.Native.Nat.{ℕ, zero, suc, ◌+◌, ◌<◌}
use mathlib.Core.Path.{◌≡◌}
use mathlib.Core.Logic.{◌≢◌}
use mathlib.Core.List.{List, [], ◌∷◌}
use native.Mathlib.Omega.{arith}
use addnas_mldonkey.Base.Lists.{length, get_or, set, length-set, get_or-set_ne}
use addnas_mldonkey.Base.Tests.{◌==◌, if◌then◌else◌}

-- 1 where the two are equal
abbrev pub same : ℕ → ℕ → ℕ
same a b = if a == b then 1 else 0

unfoldable pub count : ℕ → List ℕ → ℕ
count a [] = 0
count a (x ∷ xs) = same x a + count a xs

-- A write exchanges the old element for the new one.
pub count-set :
    (a : ℕ) (xs : List ℕ) (i v : ℕ)
    → i < length xs
    → count a (set xs i v) + same (get_or xs i 0) a ≡ count a xs + same v a
unfolding count
count-set a [] i v h = absurd (omega arith)
count-set a (x ∷ xs) zero v h = omega arith
count-set a (x ∷ xs) (suc i) v h = omega (arith, count-set a xs i v (omega arith))

-- A swap changes no count.
pub count-swap :
    (a : ℕ) (xs : List ℕ) (i j : ℕ)
    → i < length xs
    → j < length xs
    → i ≢ j
    → count a (set (set xs i (get_or xs j 0)) j (get_or xs i 0)) ≡ count a xs
count-swap a xs i j hi hj ne =
    let x = get_or xs i 0 in
    let y = get_or xs j 0 in
    let kept : get_or (set xs i y) j 0 ≡ y = get_or-set_ne xs i j y 0 ne in
    let first : count a (set xs i y) + same x a ≡ count a xs + same y a = count-set a xs i y hi in
    let second = count-set a (set xs i y) j x (omega (arith, length-set xs i y)) in
    omega (arith, first, rw kept at second)
