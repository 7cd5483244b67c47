-- ===== src/FastTrack/EncType1/Value.antt =====
-- The number that a list of 32-bit words stands for, the lowest word first.
use addnas_mldonkey.Base.{
  ℕ, zero, suc, ◌+◌, ◌*◌, ◌^◌, ◌<◌, ◌≡◌, refl, arith, List, [], ◌∷◌, ◌++◌, length, replicate,
  AllBelow, ap, ◌∙◌,
}

unfoldable pub value : List ℕ → ℕ
value [] = 0
value (x ∷ xs) = x + 2 ^ 32 * value xs

-- One more than the largest number of `n` words.
unfoldable pub top_of : ℕ → ℕ
top_of zero = 1
top_of (suc n) = 2 ^ 32 * top_of n

pub value-append : (xs ys : List ℕ) → value (xs ++ ys) ≡ value xs + top_of (length xs) * value ys
unfolding value top_of
value-append [] ys = omega arith
value-append (x ∷ xs) ys = omega (arith, value-append xs ys)

pub value-replicate : (n : ℕ) → value (replicate n 0) ≡ 0
unfolding value
value-replicate zero = refl
value-replicate (suc n) = omega (arith, value-replicate n)

pub value-lt : (xs : List ℕ) → AllBelow (2 ^ 32) xs → value xs < top_of (length xs)
unfolding value top_of
value-lt [] h = omega arith
value-lt (x ∷ xs) h = omega (arith, h.0, value-lt xs h.1)

pub replicate-AllBelow : (n : ℕ) → AllBelow (2 ^ 32) (replicate n 0)
replicate-AllBelow zero = tt
replicate-AllBelow (suc n) = (omega arith, replicate-AllBelow n)

module _ {ℓ} {A : Type ℓ} where
  pub replicate-add : (m n : ℕ) (a : A) → replicate (m + n) a ≡ replicate m a ++ replicate n a
  replicate-add zero n a = let e : 0 + n ≡ n = omega arith in ap (λ (t : ℕ). replicate t a) e
  replicate-add (suc m) n a =
      let e : suc m + n ≡ suc (m + n) = omega arith in
      ap (λ (t : ℕ). replicate t a) e ∙ ap (λ ys. a ∷ ys) (replicate-add m n a)

pub value-lt_top :
    (xs : List ℕ) (n : ℕ) → length xs ≡ n → AllBelow (2 ^ 32) xs → value xs < top_of n
value-lt_top xs n e h = let less : value xs < top_of (length xs) = value-lt xs h in rw e at less

pub top_of-suc : (n m : ℕ) → m ≡ suc n → top_of m ≡ 2 ^ 32 * top_of n
unfolding top_of
top_of-suc n m e = ap top_of e
