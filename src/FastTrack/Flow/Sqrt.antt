-- ===== src/FastTrack/Flow/Sqrt.antt =====
-- `my_sqrt` against the square root that the comment above it names.
use addnas_mldonkey.Base.{
  ℕ, zero, suc, ◌+◌, ◌*◌, ◌<◌, ◌≤◌, ◌≡◌, refl, arith, some, Bool-cases, inl, inr, leb, leb→le,
  leb→gt,
}
use addnas_mldonkey.FastTrack.Flow.{sqrt_loop, sqrt_of}

-- After `k` rounds `j + 1` is the square of `k + 1`, and that of `k` is at most `i + 1`.
sqrt_loop-runs :
    (fuel i j k : ℕ)
    → j + 1 ≡ suc k * suc k
    → k * k ≤ i + 1
    → i + 1 < (k + fuel) * (k + fuel)
    → (r : ℕ) × (sqrt_loop fuel i j k ≡ some r) × (r * r ≤ i + 1) × (i + 1 < suc r * suc r)
unfolding sqrt_loop
sqrt_loop-runs zero i j k at low high = absurd (omega (arith, at, low, high))
sqrt_loop-runs (suc fuel) i j k at low high = elim (Bool-cases (leb j i)) [
  | inl more ↦
      let le = leb→le j i more in
      let (r, e, lo, hi) =
        sqrt_loop-runs fuel i (j + 1 + suc k * 2) (suc k) (omega (arith, at)) (omega (arith, at))
          (omega (arith, high)) in
      (r, rw more e, lo, hi)
  | inr ends ↦ let gt = leb→gt j i ends in (k, rw ends refl, low, omega (arith, at))
]

-- For every byte `my_sqrt` ends within its rounds, and its result is the square root of the byte
-- plus 1, rounded down.
pub sqrt_of_lem :
    (i : ℕ) → i < 256 → (r : ℕ) × (sqrt_of i ≡ some r) × (r * r ≤ i + 1) × (i + 1 < suc r * suc r)
unfolding sqrt_of
sqrt_of_lem i h = sqrt_loop-runs 17 i 0 0 (omega arith) (omega arith) (omega (arith, h))
