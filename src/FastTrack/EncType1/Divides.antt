-- ===== src/FastTrack/EncType1/Divides.antt =====
-- `big_mod` and `big_mulmod`, also where borrows are lost.
use addnas_mldonkey.Base.{
  ℕ, zero, suc, ◌+◌, ◌-◌, ◌*◌, ◌^◌, ◌<◌, ◌≤◌, ◌≡◌, refl, sym, ap, ap₂, ◌∙◌, arith, some, List, ◌∷◌,
  ◌++◌, length, take, drop, length-append, length-take, length-drop, append-AllBelow, take-AllBelow,
  drop-AllBelow, drop-append, take-append-drop, take_all, AllBelow, get_or, get_elem?-eq-get_or,
}
use native.Mathlib.Nat.{lt_of_mul-lt-mul_left, mul-le-mul_left, mul-le-mul_right}
use addnas_mldonkey.FastTrack.EncType1.{mod_step, mod_loop, big_mod, big_mulmod}
use addnas_mldonkey.FastTrack.EncType1.Value.{value, top_of, value-append, value-lt, value-lt_top}
use addnas_mldonkey.FastTrack.EncType1.Multiply.{big_mul_lem}
use addnas_mldonkey.FastTrack.EncType1.Modulo.{
  window_of, no_more, value-window, value-drop-lt, mod_loop-more,
}
use addnas_mldonkey.FastTrack.EncType1.Mulmod.{
  IsReduced, words_of_all, value-take_all, big_mulmod-opens,
}
use addnas_mldonkey.FastTrack.EncType1.Ends.{mod_step-returns}

module _ (in2 : List ℕ) (h2 : AllBelow (2 ^ 32) in2) (n : ℕ) (size2 : length in2 ≡ suc n)
    (high : 0xc000_0000 ≤ get_or in2 n 0) (room : get_or in2 n 0 + 2 ≤ 2 ^ 32) (fuel : ℕ)
    (rounds : 36 ≤ fuel) where
  window-returns :
      (xs : List ℕ)
      → AllBelow (2 ^ 32) xs
      → length in2 < length xs
      → value xs < 2 ^ 32 * value in2
      → (window : List ℕ) × (mod_step fuel (length in2) in2 xs ≡ some window)
        × (length window ≡ length xs)
        × AllBelow (2 ^ 32) window
        × (value window < value in2)
  window-returns xs hx longer fits =
      let (lo, h, rest, parts, size, hl, hh, hr) = window_of (length in2) xs longer hx in
      let t = top_of (length in2) in
      let before : value xs ≡ value lo + t * (h + 2 ^ 32 * value rest) =
        ap value parts
        ∙ value-window lo h rest
        ∙ ap (λ (m : ℕ). value lo + top_of m * (h + 2 ^ 32 * value rest)) size in
      let none_left : value rest ≡ 0 =
        no_more t (value lo) h (value rest) (value in2) (omega (arith, before, fits))
          (value-lt in2 h2) in
      let cleared = ap (λ (m : ℕ). t * (h + 2 ^ 32 * m)) none_left in
      let (c, run, size', below, less) =
        mod_step-returns in2 h2 n size2 high room fuel rest lo h rounds hr size hl hh
          (omega (arith, before, cleared, fits)) in
      let gone = ap (λ (m : ℕ). top_of (length c) * (0 + 2 ^ 32 * m)) none_left in
      (
        c ++ 0 ∷ rest,
        ap (λ ys. mod_step fuel (length in2) in2 ys) parts ∙ run,
        omega (arith, ap length parts, length-append lo (h ∷ rest), length-append c (0 ∷ rest)),
        append-AllBelow (2 ^ 32) c (0 ∷ rest) below (omega arith, hr),
        omega (arith, value-window c 0 rest, gone, less),
      )

  mod_loop-returns :
      (i : ℕ) (in1 : List ℕ)
      → AllBelow (2 ^ 32) in1
      → i + length in2 ≤ length in1
      → value (drop i in1) < value in2
      → (out : List ℕ) × (mod_loop fuel i (length in2) in2 in1 ≡ some out)
        × (length out ≡ length in1)
        × AllBelow (2 ^ 32) out
        × (value out < value in2)
  unfolding mod_loop
  mod_loop-returns zero in1 h1 e less = (in1, refl, refl, h1, less)
  mod_loop-returns (suc i) in1 h1 e less =
      let xs = drop i in1 in
      let ahead = take i in1 in
      let size : length xs ≡ length in1 - i = length-drop i in1 in
      let more = value-drop-lt i in1 (omega arith) h1 in
      let (window, run, size', below, less') =
        window-returns xs (drop-AllBelow (2 ^ 32) i in1 h1) (omega (arith, size))
          (omega (arith, more, less)) in
      let in1' = ahead ++ window in
      let front : length ahead ≡ i = omega (arith, length-take i in1) in
      let there : value (drop i in1') ≡ value window =
        ap value (drop-append i ahead window front) in
      let whole : length in1' ≡ length in1 =
        omega (arith, length-append ahead window, size, size', front) in
      let (out, run', size'', below', less'') =
        mod_loop-returns i in1'
          (append-AllBelow (2 ^ 32) ahead window (take-AllBelow (2 ^ 32) i in1 h1) below)
          (omega (arith, whole)) (omega (arith, there, less')) in
      let opens : mod_loop fuel (suc i) (length in2) in2 in1
          ≡ mod_loop fuel i (length in2) in2 in1' =
        mod_loop-more fuel i (length in2) in2 in1 window run in
      (out, opens ∙ run', size'' ∙ whole, below', less'')

  big_mod-returns :
      (in1 : List ℕ)
      → AllBelow (2 ^ 32) in1
      → length in1 ≡ length in2 + length in2
      → value in1 < value in2 * top_of (length in2)
      → (out : List ℕ) × (big_mod fuel (length in2) in1 in2 ≡ some out)
        × (length out ≡ length in2)
        × AllBelow (2 ^ 32) out
        × (value out < value in2)
  unfolding big_mod
  big_mod-returns in1 h1 e fits =
      let cnt = length in2 in
      let front : length (take cnt in1) ≡ cnt = omega (arith, length-take cnt in1) in
      let halves : value in1 ≡ value (take cnt in1) + top_of cnt * value (drop cnt in1) =
        ap value (sym (take-append-drop cnt in1))
        ∙ value-append (take cnt in1) (drop cnt in1)
        ∙ ap (λ (m : ℕ). value (take cnt in1) + top_of m * value (drop cnt in1)) front in
      let upper : value (drop cnt in1) < value in2 =
        lt_of_mul-lt-mul_left (top_of cnt) (omega (arith, halves, fits)) in
      let (out, run, size, below, less) = mod_loop-returns cnt in1 h1 (omega arith) upper in
      let words2 = words_of_all cnt in2 (omega arith) ∙ ap some (take_all cnt in2 (omega arith)) in
      let short : value (take cnt out) ≡ value out =
        value-take_all cnt out (omega (arith, size, e)) (omega (arith, less, value-lt in2 h2)) in
      (
        take cnt out,
        rw words2 rw run (words_of_all cnt out (omega (arith, size, e))),
        omega (arith, length-take cnt out, size, e),
        take-AllBelow (2 ^ 32) cnt out below,
        omega (arith, short, less),
      )

module _ (m : List ℕ) (hm : AllBelow (2 ^ 32) m) (size : length m ≡ 64)
    (high : 0xc000_0000 ≤ get_or m 63 0) (room : get_or m 63 0 + 2 ≤ 2 ^ 32) (fuel : ℕ)
    (rounds : 36 ≤ fuel) where
  pub big_mulmod-returns :
      (num1 num2 : List ℕ)
      → IsReduced m num1
      → IsReduced m num2
      → (out : List ℕ) × (big_mulmod fuel num1 num2 m ≡ some out) × IsReduced m out
  unfolding IsReduced
  big_mulmod-returns num1 num2 (size1, below1, less1) (size2, below2, less2) =
      let (product, run, long, below, total) =
        big_mul_lem 64 num1 num2 (omega arith) (omega arith) below1 below2 in
      let all1 = ap value (take_all 64 num1 (omega arith)) in
      let all2 = ap value (take_all 64 num2 (omega arith)) in
      let exact : value product ≡ value num1 * value num2 = total ∙ ap₂ ◌*◌ all1 all2 in
      let under = value-lt_top num2 64 size2 below2 in
      let left : value num1 * value num2 ≤ value num1 * top_of 64 =
        mul-le-mul_left (value num1) (omega (arith, under)) in
      let right : suc (value num1) * top_of 64 ≤ value m * top_of 64 =
        mul-le-mul_right (top_of 64) less1 in
      let tops = ap (λ (c : ℕ). value m * top_of c) size in
      let (out, run', size', below', less') =
        big_mod-returns m hm 63 size high room fuel rounds product below (omega (arith, long, size))
          (omega (arith, exact, left, right, under, tops)) in
      let run'' : big_mod fuel 64 product m ≡ some out =
        ap (λ (c : ℕ). big_mod fuel c product m) (sym size) ∙ run' in
      (
        out,
        big_mulmod-opens fuel num1 num2 m product out (get_or m 63 0)
            (get_elem?-eq-get_or m 63 0 (omega arith)) (omega (arith, high)) run run''
            (omega arith),
        (omega (arith, size', size), below', less'),
      )
