-- ===== src/FastTrack/EncType1/Compare.antt =====
-- `big_isless`, from the highest word down.
use addnas_mldonkey.Base.{
  ℕ, zero, suc, ◌+◌, ◌*◌, ◌^◌, ◌<◌, ◌≤◌, ◌≡◌, refl, ap, ◌∙◌, arith, Bool-cases, inl, inr, some,
  List, [], ◌∷◌, length, take, length-take, take-AllBelow, get_or, get_elem?-eq-get_or, AllBelow,
  ltb, ltb→lt, ltb→ge, lt→ltb, ge→ltb,
}
use native.Mathlib.Nat.{mul-le-mul_left}
use addnas_mldonkey.FastTrack.EncType1.{big_isless}
use addnas_mldonkey.FastTrack.EncType1.Value.{value, top_of, value-lt}

-- One word more at the top.
pub value-take-suc :
    (xs : List ℕ) (n : ℕ)
    → n < length xs
    → value (take (suc n) xs) ≡ value (take n xs) + top_of n * get_or xs n 0
unfolding value top_of
value-take-suc [] n h = absurd (omega arith)
value-take-suc (x ∷ xs) zero h = omega arith
value-take-suc (x ∷ xs) (suc n) h = omega (arith, value-take-suc xs n (omega arith))

-- The words at the top decide.
top_decides : (t a b v w : ℕ) → a < b → v < t → v + t * a < w + t * b
top_decides t a b v w h hv = let more : t * suc a ≤ t * b = mul-le-mul_left t h in omega arith

pub value-take-lt :
    (xs : List ℕ) (n : ℕ) → n ≤ length xs → AllBelow (2 ^ 32) xs → value (take n xs) < top_of n
value-take-lt xs n h hx =
    let size : length (take n xs) ≡ n = omega (arith, length-take n xs) in
    let less : value (take n xs) < top_of (length (take n xs)) =
      value-lt (take n xs) (take-AllBelow (2 ^ 32) n xs hx) in
    rw size at less

ltb_shift : (v w v' w' s : ℕ) → v' ≡ v + s → w' ≡ w + s → ltb v w ≡ ltb v' w'
ltb_shift v w v' w' s hv hw = ground arith

-- On two arrays of `n` or more 32-bit words `big_isless` accesses nothing outside, and tells whether
-- the number of the first `n` words of the one is below that of the other.
pub big_isless_lem :
    (n : ℕ) (xs ys : List ℕ)
    → n ≤ length xs
    → n ≤ length ys
    → AllBelow (2 ^ 32) xs
    → AllBelow (2 ^ 32) ys
    → big_isless n xs ys ≡ some (ltb (value (take n xs)) (value (take n ys)))
unfolding big_isless value
big_isless_lem zero xs ys ex ey hx hy = refl
big_isless_lem (suc n) xs ys ex ey hx hy =
    let a = get_or xs n 0 in
    let b = get_or ys n 0 in
    let tx = value-take-suc xs n ex in
    let ty = value-take-suc ys n ey in
    let lx = value-take-lt xs n (omega arith) hx in
    let ly = value-take-lt ys n (omega arith) hy in
    rw (get_elem?-eq-get_or xs n 0 ex) rw (get_elem?-eq-get_or ys n 0 ey)
      elim (Bool-cases (ltb a b)) [
        | inl t ↦
            let less =
              top_decides (top_of n) a b (value (take n xs)) (value (take n ys)) (ltb→lt a b t)
                lx in
            rw t (
              rw
                (lt→ltb (value (take (suc n) xs)) (value (take (suc n) ys))
                  (omega (arith, less, tx, ty)))
                refl)
        | inr f ↦ elim (Bool-cases (ltb b a)) [
          | inl g ↦
              let less =
                top_decides (top_of n) b a (value (take n ys)) (value (take n xs)) (ltb→lt b a g)
                  ly in
              rw f rw g rw
                (ge→ltb (value (take (suc n) xs)) (value (take (suc n) ys))
                  (omega (arith, less, tx, ty)))
                refl
          | inr g ↦
              let same : a ≡ b = omega (arith, ltb→ge a b f, ltb→ge b a g) in
              let shifted : value (take (suc n) ys) ≡ value (take n ys) + top_of n * a =
                omega (arith, ty, ap (λ (t : ℕ). top_of n * t) same) in
              rw f rw g (
                big_isless_lem n xs ys (omega arith) (omega arith) hx hy
                ∙ ap some (
                    ltb_shift (value (take n xs)) (value (take n ys)) (value (take (suc n) xs))
                      (value (take (suc n) ys)) (top_of n * a) tx shifted))
        ]
      ]
