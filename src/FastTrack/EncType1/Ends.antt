-- ===== src/FastTrack/EncType1/Ends.antt =====
-- The rounds of the inner loop of `big_mod`, also where borrows are lost.
use addnas_mldonkey.Base.{
  ℕ, zero, suc, ◌+◌, ◌-◌, ◌*◌, ◌%◌, ◌^◌, ◌<◌, ◌≤◌, ◌≡◌, refl, ap, ◌∙◌, arith, some, List, ◌∷◌, ◌++◌,
  not, ◌||◌, Bool-cases, inl, inr, length, ltb, lt→ltb, ge→ltb, ◌==◌, if◌then◌else◌, AllBelow,
  get_or,
}
use mathlib.Core.Path.{subst}
use native.Mathlib.Nat.{mul-le-mul_left, mul-le-mul_right}
use addnas_mldonkey.FastTrack.EncType1.{reduce, mod_step}
use addnas_mldonkey.FastTrack.EncType1.Value.{value, top_of, top_of-suc, value-lt, value-lt_top}
use addnas_mldonkey.FastTrack.EncType1.Compare.{value-take-lt}
use addnas_mldonkey.FastTrack.EncType1.Subtract.{lost, sub_once_lem}
use addnas_mldonkey.FastTrack.EncType1.Reduce.{
  above-le, below-lt, owed-le, is_above_lem, reduce-ends, reduce-more,
}
use addnas_mldonkey.FastTrack.EncType1.Remainder.{top_word, take_off_lem, mod_step-opens}
use addnas_mldonkey.FastTrack.EncType1.Lost.{Lost, lost_lem}

-- What a window with the highest word 0 counts in addition.
weight : ℕ → ℕ → ℕ
weight p v = if ltb v p then 2 ^ 31 * p else 0

weight-le : (p v : ℕ) → weight p v ≤ 2 ^ 31 * p
unfolding weight
weight-le p v = elim (Bool-cases (ltb v p)) [ inl t ↦ rw t omega arith | inr f ↦ rw f omega arith ]

weight-low : (p v : ℕ) → v < p → weight p v ≡ 2 ^ 31 * p
unfolding weight
weight-low p v h = rw (lt→ltb v p h) refl

weight-high : (p v : ℕ) → p ≤ v → weight p v ≡ 0
unfolding weight
weight-high p v h = rw (ge→ltb v p h) refl

-- A subtraction brings the window with its weight down by 2 ^ 29 times the unit of its highest word.
falls :
    (p m v w c o s k fuel : ℕ)
    → 0xc000_0000 * p ≤ m
    → m + p ≤ 2 ^ 32 * p
    → v + o * (2 ^ 32 * p) + k ≡ c + m
    → w + m ≡ s + k
    → Lost p (2 ^ 32 * p) v k
    → s + weight p v < suc fuel * (2 ^ 29 * p)
    → w + weight p c < fuel * (2 ^ 29 * p)
unfolding Lost
falls p m v w c o s k fuel high room exact next (inl little) fits =
    omega (arith, weight-le p c, fits, little, high, next)
falls p m v w c o s k fuel high room exact next (inr (least, most, low)) fits =
    let up : p ≤ c = omega (arith, exact, least, room) in
    omega (arith, weight-high p c up, weight-low p v low, fits, most, high, next)

module _ (in2 : List ℕ) (h2 : AllBelow (2 ^ 32) in2) (n : ℕ) (size2 : length in2 ≡ suc n)
    (high : 0xc000_0000 ≤ get_or in2 n 0) (room : get_or in2 n 0 + 2 ≤ 2 ^ 32) where
  in2-le : 0xc000_0000 * top_of n ≤ value in2
  in2-le = let least = mul-le-mul_left (top_of n) high in omega (arith, top_word in2 n size2, least)

  in2-room : value in2 + top_of n ≤ 2 ^ 32 * top_of n
  in2-room =
      let most = mul-le-mul_left (top_of n) room in
      let low = value-take-lt in2 n (omega (arith, size2)) h2 in
      omega (arith, top_word in2 n size2, most, low)

  reduce-returns :
      (rest : List ℕ)
      → AllBelow (2 ^ 32) rest
      → (fuel : ℕ) (lo : List ℕ) (h : ℕ) → length lo ≡ length in2
      → AllBelow (2 ^ 32) lo
      → h < 2 ^ 32
      → value lo + h * top_of (length in2) + weight (top_of n) (value lo)
        < fuel * (2 ^ 29 * top_of n)
      → (c : List ℕ) × (reduce fuel (length in2) in2 (lo ++ h ∷ rest) ≡ some (c ++ 0 ∷ rest))
        × (length c ≡ length in2)
        × AllBelow (2 ^ 32) c
        × (value c < value in2)
  reduce-returns rest hr zero lo h e hl hh fits = absurd (omega (arith, fits))
  reduce-returns rest hr (suc fuel) lo h e hl hh fits =
      let test = not (h == 0) || not (ltb (value lo) (value in2)) in
      let above = is_above_lem in2 h2 rest hr lo h e hl hh in
      let t = top_of (length in2) in
      elim (Bool-cases test) [
        | inl on ↦
            let (c, owed, run, size, below, le, total) =
              sub_once_lem in2 lo h rest 0 h2 hl e (omega arith) in
            let gone = lost in2 (lo ++ h ∷ rest) 0 in
            let less : value c < t = value-lt_top c (length in2) size below in
            let least : value in2 ≤ value lo + h * t =
              above-le h (value lo) (value in2) t (value-lt in2 h2) on in
            let h' = (h + 2 ^ 32 - owed) % 2 ^ 32 in
            let exact : value lo + gone + owed * t ≡ value c + value in2 = omega (arith, total) in
            let enough =
              owed-le owed h (value lo + gone) (value c) (value in2) t le exact less
                (omega (arith, least)) in
            let split : h ≡ h' + owed = omega (arith, enough) in
            let product = ap (λ (m : ℕ). m * t) split in
            let unit : t ≡ 2 ^ 32 * top_of n = top_of-suc n (length in2) size2 in
            let scaled = ap (λ (m : ℕ). owed * m) unit in
            let kinds : Lost (top_of n) (2 ^ 32 * top_of n) (value lo) gone =
              subst (λ (m : ℕ). Lost (top_of n) m (value lo) gone) (top_of-suc n (suc n) refl)
                (lost_lem n in2 lo (h ∷ rest) 0 size2 (e ∙ size2) hl) in
            let smaller =
              falls (top_of n) (value in2) (value lo) (value c + h' * t) (value c) owed
                (value lo + h * t) gone fuel in2-le in2-room (omega (arith, exact, scaled))
                (omega (arith, exact, product)) kinds fits in
            let (out, run', size', below', less') =
              reduce-returns rest hr fuel c h' size below (omega arith) smaller in
            let more : reduce (suc fuel) (length in2) in2 (lo ++ h ∷ rest)
                ≡ reduce fuel (length in2) in2 (c ++ h' ∷ rest) =
              reduce-more fuel (length in2) in2 (lo ++ h ∷ rest) (c ++ h' ∷ rest)
                (above ∙ ap some on) run in
            (out, more ∙ run', size', below', less')
        | inr off ↦
            let (empty, less) = below-lt h (value lo) (value in2) off in
            (
              lo,
              reduce-ends fuel (length in2) in2 (lo ++ h ∷ rest) (above ∙ ap some off)
                  ∙ ap (λ (m : ℕ). some (lo ++ m ∷ rest)) empty,
              e,
              hl,
              less,
            )
      ]

  pub mod_step-returns :
      (fuel : ℕ) (rest lo : List ℕ) (h : ℕ)
      → 36 ≤ fuel
      → AllBelow (2 ^ 32) rest
      → length lo ≡ length in2
      → AllBelow (2 ^ 32) lo
      → h < 2 ^ 32
      → value lo + h * top_of (length in2) < 2 ^ 32 * value in2
      → (c : List ℕ) × (mod_step fuel (length in2) in2 (lo ++ h ∷ rest) ≡ some (c ++ 0 ∷ rest))
        × (length c ≡ length in2)
        × AllBelow (2 ^ 32) c
        × (value c < value in2)
  mod_step-returns fuel rest lo h rounds hr e hl hh fits =
      let (c, h', k, run, size, below, hh', total, near) =
        take_off_lem in2 h2 n size2 (omega (arith, high)) rest lo h e hl hh fits in
      let more : 36 * (2 ^ 29 * top_of n) ≤ fuel * (2 ^ 29 * top_of n) =
        mul-le-mul_right (2 ^ 29 * top_of n) rounds in
      let (out, run', size', below', less') =
        reduce-returns rest hr fuel c h' size below hh'
          (omega (arith, near, more, weight-le (top_of n) (value c), in2-room)) in
      let opens : mod_step fuel (length in2) in2 (lo ++ h ∷ rest)
          ≡ reduce fuel (length in2) in2 (c ++ h' ∷ rest) =
        mod_step-opens fuel (length in2) in2 (lo ++ h ∷ rest) (c ++ h' ∷ rest) run in
      (out, opens ∙ run', size', below', less')
