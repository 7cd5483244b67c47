-- ===== src/FastTrack/EncType1/Lost.antt =====
-- What a subtraction of `big_mod` can lose.
use addnas_mldonkey.Base.{
  ℕ, zero, suc, ◌+◌, ◌*◌, ◌%◌, ◌^◌, ◌-◌, ◌<◌, ◌≤◌, ◌≡◌, ◌⊎◌, refl, arith, Bool-cases, inl, inr,
  ◌&&◌, List, [], ◌∷◌, ◌++◌, length, ltb, ◌==◌, ==_iff, if◌then◌else◌, AllBelow,
}
use addnas_mldonkey.FastTrack.EncType1.Value.{value, top_of}
use addnas_mldonkey.FastTrack.EncType1.Subtract.{lost}
use addnas_mldonkey.FastTrack.EncType1.Reduce.{and-true}

lost_word :
    (a l : ℕ)
    → ((a ≡ 0) × ((if a == 0 && l == 1 then 2 ^ 32 else 0) ≡ 2 ^ 32))
      ⊎ ((if a == 0 && l == 1 then 2 ^ 32 else 0) ≡ 0)
lost_word a l = elim (Bool-cases (a == 0 && l == 1)) [
  | inl t ↦ inl ((==_iff a 0).0 (and-true (a == 0) (l == 1) t).0, rw t refl)
  | inr f ↦ inr (rw f refl)
]

-- Either little is lost, or the highest word is 0 and its borrow is lost.
unfoldable pub Lost : ℕ → ℕ → ℕ → ℕ → Type 0
Lost p t v k = (k + 2 ≤ 2 * p) ⊎ ((t ≤ k) × (k + 2 ≤ t + 2 * p) × (v < p))

pub lost_lem :
    (n : ℕ) (in2 lo rest : List ℕ) (l : ℕ)
    → length in2 ≡ suc n
    → length lo ≡ suc n
    → AllBelow (2 ^ 32) lo
    → Lost (top_of n) (top_of (suc n)) (value lo) (lost in2 (lo ++ rest) l)
unfolding lost value top_of Lost
lost_lem n [] lo rest l e2 e h = absurd (omega arith)
lost_lem n (y ∷ in2) [] rest l e2 e h = absurd (omega arith)
lost_lem zero (y ∷ z ∷ in2) (a ∷ lo) rest l e2 e h = absurd (omega arith)
lost_lem zero (y ∷ []) (a ∷ b ∷ lo) rest l e2 e h = absurd (omega arith)
lost_lem zero (y ∷ []) (a ∷ []) rest l e2 e h = elim (lost_word a l) [
  | inl (empty, whole) ↦ inr (omega (arith, whole), omega (arith, whole), omega (arith, empty))
  | inr none_lost ↦ inl (omega (arith, none_lost))
]
lost_lem (suc n) (y ∷ in2) (a ∷ lo) rest l e2 e h =
    let next : ℕ = if ltb ((a + 2 ^ 32 - l) % 2 ^ 32) y then 1 else 0 in
    let at_most : (if a == 0 && l == 1 then 2 ^ 32 else 0) ≤ 2 ^ 32 = ground arith in
    elim (lost_lem n in2 lo rest next (omega arith) (omega arith) h.1) [
      | inl little ↦ inl (omega (arith, little, at_most))
      | inr (least, most, low) ↦
          inr (omega (arith, least), omega (arith, most, at_most), omega (arith, low, h.0))
    ]
