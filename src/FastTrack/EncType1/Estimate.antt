-- ===== src/FastTrack/EncType1/Estimate.antt =====
-- The quotient that `big_mod` estimates from the two highest words.
use addnas_mldonkey.Base.{ℕ, zero, ◌+◌, ◌*◌, ◌/◌, ◌%◌, ◌^◌, ◌<◌, ◌≤◌, ◌≡◌, ap, sym, arith}
use native.Mathlib.Nat.{
  mul-le-mul_left, div-lt_iff_lt-mul, div-add-mod', mod-lt, lt_of_mul-lt-mul_left,
}

-- `u` is the two highest words of the window `w + p * u`, and `t` the highest of `v + p * t`.
module _ (p u w t v : ℕ) (hw : w < p) (hv : v < p) (high : 2 ^ 31 ≤ t)
    (fits : w + p * u < 2 ^ 32 * (v + p * t)) where
  pub quotient-lt : u / (t + 1) < 2 ^ 32
  quotient-lt =
      let below : u < 2 ^ 32 * (t + 1) = lt_of_mul-lt-mul_left p (omega (arith, fits)) in
      let pos : zero < t + 1 = omega arith in (div-lt_iff_lt-mul pos).1 below

  exact_quotient : (r : ℕ) × (r ≤ t) × (u ≡ u / (t + 1) * (t + 1) + r)
  exact_quotient =
      let pos : zero < t + 1 = omega arith in
      let small : u % (t + 1) < t + 1 = mod-lt u pos in
      (u % (t + 1), omega arith, sym (div-add-mod' u (t + 1)))

  -- It is never too large.
  pub quotient-le : u / (t + 1) * (v + p * t) ≤ w + p * u
  quotient-le =
      let k = u / (t + 1) in
      let (r, small, e) = exact_quotient in
      let scaled = ap (λ (n : ℕ). p * n) e in
      let less : k * v ≤ k * p = mul-le-mul_left k (omega arith) in omega (arith, scaled, less)

  -- It is too small by 3 at most.
  pub quotient-near : w + p * u < 4 * (v + p * t) + u / (t + 1) * (v + p * t)
  quotient-near =
      let k = u / (t + 1) in
      let (r, small, e) = exact_quotient in
      let scaled = ap (λ (n : ℕ). p * n) e in
      let left : p * r ≤ p * t = mul-le-mul_left p small in
      let twice : p * k ≤ p * (2 * t) = mul-le-mul_left p (omega (arith, quotient-lt)) in
      let once : p * 1 ≤ p * t = mul-le-mul_left p (omega arith) in
      omega (arith, scaled, left, twice, once)
