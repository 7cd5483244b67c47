-- ===== src/FastTrack/EncType1/Remainder.antt =====
-- One step of `big_mod`, and the loop.
use addnas_mldonkey.Base.{
  ℕ, zero, suc, ◌+◌, ◌-◌, ◌*◌, ◌/◌, ◌%◌, ◌^◌, ◌<◌, ◌≤◌, ◌≡◌, refl, sym, ap, ◌∙◌, arith, none, some,
  List, [], ◌∷◌, ◌++◌, Bool, true, length, take, take_all, AllBelow, get_elem?, get_or,
  get_elem?-eq-get_or,
}
use native.Mathlib.Nat.{lt_of_mul-lt-mul_left, mul-le-mul_right}
use addnas_mldonkey.FastTrack.EncType1.{take_off, mod_step, reduce, sub_product}
use addnas_mldonkey.FastTrack.EncType1.Value.{value, top_of, top_of-suc, value-lt_top}
use addnas_mldonkey.FastTrack.EncType1.Compare.{value-take-suc, value-take-lt}
use addnas_mldonkey.FastTrack.EncType1.Subtract.{sub_product_lem}
use addnas_mldonkey.FastTrack.EncType1.Estimate.{quotient-lt, quotient-le, quotient-near}
use addnas_mldonkey.FastTrack.EncType1.Reduce.{reduce_keeps, reduce_lem, word_behind}

pub top_word :
    (xs : List ℕ) (n : ℕ)
    → length xs ≡ suc n
    → value xs ≡ value (take n xs) + top_of n * get_or xs n 0
top_word xs n e =
    let split = value-take-suc xs n (omega arith) in rw (take_all (suc n) xs (omega arith)) at split

word_before :
    (lo : List ℕ) (n : ℕ) (ys : List ℕ)
    → n < length lo
    → get_elem? (lo ++ ys) n ≡ some (get_or lo n 0)
word_before [] n ys h = absurd (omega arith)
word_before (x ∷ lo) zero ys h = refl
word_before (x ∷ lo) (suc n) ys h = word_before lo n ys (omega arith)

take_off-opens :
    (cnt : ℕ) (in2 in1 : List ℕ) (h x t : ℕ)
    → get_elem? in1 cnt ≡ some h
    → get_elem? in1 (cnt - 1) ≡ some x
    → get_elem? in2 (cnt - 1) ≡ some t
    → (h * 2 ^ 32 + x) / (t + 1) < 2 ^ 32
    → take_off cnt in2 in1 ≡ sub_product ((h * 2 ^ 32 + x) / (t + 1)) in2 in1 0
unfolding take_off
take_off-opens cnt in2 in1 h x t eh ex et small =
    let cut : (h * 2 ^ 32 + x) / (t + 1) % 2 ^ 32 ≡ (h * 2 ^ 32 + x) / (t + 1) =
      omega (arith, small) in
    rw eh rw ex rw et rw cut refl

module _ (in2 : List ℕ) (h2 : AllBelow (2 ^ 32) in2) (n : ℕ) (size2 : length in2 ≡ suc n)
    (high : 2 ^ 31 ≤ get_or in2 n 0) where
  -- Where the window is below 2 ^ 32 times `in2`, the multiple that is taken off leaves less than
  -- four times `in2`.
  pub take_off_lem :
      (rest lo : List ℕ) (h : ℕ)
      → length lo ≡ length in2
      → AllBelow (2 ^ 32) lo
      → h < 2 ^ 32
      → value lo + h * top_of (length in2) < 2 ^ 32 * value in2
      → (c : List ℕ) × (h' : ℕ) × (k : ℕ) × (take_off (length in2) in2 (lo ++ h ∷ rest)
          ≡ some (c ++ h' ∷ rest))
        × (length c ≡ length in2)
        × AllBelow (2 ^ 32) c
        × (h' < 2 ^ 32)
        × (value lo + h * top_of (length in2) ≡ value c + h' * top_of (length in2) + k * value in2)
        × (value c + h' * top_of (length in2) < 4 * value in2)
  take_off_lem rest lo h e hl hh fits =
      let t = get_or in2 n 0 in
      let x = get_or lo n 0 in
      let p = top_of n in
      let w = value (take n lo) in
      let v = value (take n in2) in
      let u = h * 2 ^ 32 + x in
      let parts2 : value in2 ≡ v + p * t = top_word in2 n size2 in
      let parts1 : value lo ≡ w + p * x = top_word lo n (omega arith) in
      let tops : top_of (length in2) ≡ 2 ^ 32 * p = top_of-suc n (length in2) size2 in
      let heads = ap (λ (m : ℕ). h * m) tops in
      let whole : value lo + h * top_of (length in2) ≡ w + p * u = omega (arith, parts1, heads) in
      let hw = value-take-lt lo n (omega arith) hl in
      let hv = value-take-lt in2 n (omega arith) h2 in
      let inside : w + p * u < 2 ^ 32 * (v + p * t) = omega (arith, whole, parts2, fits) in
      let k = u / (t + 1) in
      let small = quotient-lt p u w t v hw hv high inside in
      let le = quotient-le p u w t v hw hv high inside in
      let near = quotient-near p u w t v hw hv high inside in
      let (c, owed, run, size, below, less, total) =
        sub_product_lem k in2 lo h rest 0 small h2 hl e (omega arith) in
      let h' = (h + 2 ^ 32 - owed) % 2 ^ 32 in
      let last : length in2 - 1 ≡ n = omega arith in
      let under = value-lt_top c (length in2) size below in
      let multiple = ap (λ (m : ℕ). k * m) parts2 in
      let fewer : top_of (length in2) * owed < top_of (length in2) * suc h =
        omega (arith, total, le, under, whole, multiple) in
      let enough : owed ≤ h = omega (arith, lt_of_mul-lt-mul_left (top_of (length in2)) fewer) in
      let at_top : get_elem? (lo ++ h ∷ rest) (length in2) ≡ some h =
        ap (λ (m : ℕ). get_elem? (lo ++ h ∷ rest) m) (sym e) ∙ word_behind lo h rest in
      let at_next : get_elem? (lo ++ h ∷ rest) (length in2 - 1) ≡ some x =
        let found : get_elem? (lo ++ h ∷ rest) n ≡ some x =
          word_before lo n (h ∷ rest) (omega arith) in
        rw last found in
      let at_high : get_elem? in2 (length in2 - 1) ≡ some t =
        let found : get_elem? in2 n ≡ some t = get_elem?-eq-get_or in2 n 0 (omega arith) in
        rw last found in
      let split : h ≡ h' + owed = omega (arith, enough) in
      let product = ap (λ (m : ℕ). m * top_of (length in2)) split in
      let left : value lo + h * top_of (length in2)
          ≡ value c + h' * top_of (length in2) + k * value in2 =
        omega (arith, total, product) in
      let opens : take_off (length in2) in2 (lo ++ h ∷ rest)
          ≡ sub_product k in2 (lo ++ h ∷ rest) 0 =
        take_off-opens (length in2) in2 (lo ++ h ∷ rest) h x t at_top at_next at_high small in
      (
        c,
        h',
        k,
        opens ∙ run,
        size,
        below,
        omega arith,
        left,
        omega (arith, left, near, multiple, whole, parts2),
      )

-- A step loses no borrow.
unfoldable pub step_keeps : ℕ → ℕ → List ℕ → List ℕ → Bool
step_keeps fuel cnt in2 in1 = elim (take_off cnt in2 in1) [
  | none ↦ true
  | some next ↦ reduce_keeps fuel cnt in2 next
]

step_keeps-opens :
    (fuel cnt : ℕ) (in2 in1 next : List ℕ)
    → take_off cnt in2 in1 ≡ some next
    → step_keeps fuel cnt in2 in1 ≡ true
    → reduce_keeps fuel cnt in2 next ≡ true
unfolding step_keeps
step_keeps-opens fuel cnt in2 in1 next e keeps = rw (e, step_keeps) at keeps

pub mod_step-opens :
    (fuel cnt : ℕ) (in2 in1 next : List ℕ)
    → take_off cnt in2 in1 ≡ some next
    → mod_step fuel cnt in2 in1 ≡ reduce fuel cnt in2 next
unfolding mod_step
mod_step-opens fuel cnt in2 in1 next e = rw e refl

module _ (in2 : List ℕ) (h2 : AllBelow (2 ^ 32) in2) (n : ℕ) (size2 : length in2 ≡ suc n)
    (high : 2 ^ 31 ≤ get_or in2 n 0) (fuel : ℕ) (rounds : 4 ≤ fuel) where
  -- Four rounds are enough.
  pub mod_step_lem :
      (rest lo : List ℕ) (h : ℕ)
      → AllBelow (2 ^ 32) rest
      → length lo ≡ length in2
      → AllBelow (2 ^ 32) lo
      → h < 2 ^ 32
      → value lo + h * top_of (length in2) < 2 ^ 32 * value in2
      → step_keeps fuel (length in2) in2 (lo ++ h ∷ rest) ≡ true
      → (c : List ℕ) × (times : ℕ) × (mod_step fuel (length in2) in2 (lo ++ h ∷ rest)
          ≡ some (c ++ 0 ∷ rest))
        × (length c ≡ length in2)
        × AllBelow (2 ^ 32) c
        × (value c < value in2)
        × (value lo + h * top_of (length in2) ≡ value c + times * value in2)
  mod_step_lem rest lo h hr e hl hh fits keeps =
      let (c, h', k, run, size, below, hh', total, near) =
        take_off_lem in2 h2 n size2 high rest lo h e hl hh fits in
      let more : 4 * value in2 ≤ fuel * value in2 = mul-le-mul_right (value in2) rounds in
      let window = lo ++ h ∷ rest in
      let (out, times, run', size', below', less, total') =
        reduce_lem in2 h2 rest hr fuel c h' size below hh' (omega (arith, near, more))
          (step_keeps-opens fuel (length in2) in2 window (c ++ h' ∷ rest) run keeps) in
      let opens : mod_step fuel (length in2) in2 window
          ≡ reduce fuel (length in2) in2 (c ++ h' ∷ rest) =
        mod_step-opens fuel (length in2) in2 window (c ++ h' ∷ rest) run in
      (out, times + k, opens ∙ run', size', below', less, omega (arith, total, total'))
