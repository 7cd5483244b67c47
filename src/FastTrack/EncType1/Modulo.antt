-- ===== src/FastTrack/EncType1/Modulo.antt =====
-- The loop of `big_mod` over the windows of a number.
use addnas_mldonkey.Base.{
  ℕ, zero, suc, ◌+◌, ◌-◌, ◌*◌, ◌^◌, ◌<◌, ◌≤◌, ◌≡◌, refl, sym, ap, ◌∙◌, arith, none, some, List, [],
  ◌∷◌, ◌++◌, Bool, true, ◌&&◌, length, take, drop, length-append, length-take, length-drop,
  append-AllBelow, take-AllBelow, drop-AllBelow, drop-append, take-append-drop, AllBelow, get_or,
}
use addnas_mldonkey.FastTrack.EncType1.{mod_step, mod_loop}
use addnas_mldonkey.FastTrack.EncType1.Value.{value, top_of, value-append, value-lt}
use addnas_mldonkey.FastTrack.EncType1.Reduce.{and-true}
use addnas_mldonkey.FastTrack.EncType1.Remainder.{step_keeps, mod_step_lem}

-- No step of the loop loses a borrow.
unfoldable pub loop_keeps : ℕ → ℕ → ℕ → List ℕ → List ℕ → Bool
loop_keeps fuel zero cnt in2 in1 = true
loop_keeps fuel (suc i) cnt in2 in1 =
    step_keeps fuel cnt in2 (drop i in1) && elim (mod_step fuel cnt in2 (drop i in1)) [
      | none ↦ true
      | some window ↦ loop_keeps fuel i cnt in2 (take i in1 ++ window)
    ]

loop_keeps-more :
    (fuel i cnt : ℕ) (in2 in1 window : List ℕ)
    → mod_step fuel cnt in2 (drop i in1) ≡ some window
    → loop_keeps fuel (suc i) cnt in2 in1 ≡ true
    → loop_keeps fuel i cnt in2 (take i in1 ++ window) ≡ true
unfolding loop_keeps
loop_keeps-more fuel i cnt in2 in1 window e keeps =
    let kept : (step_keeps fuel cnt in2 (drop i in1)
          && loop_keeps fuel i cnt in2 (take i in1 ++ window))
        ≡ true =
      rw (e, loop_keeps) at keeps in
    (and-true (step_keeps fuel cnt in2 (drop i in1))
      (loop_keeps fuel i cnt in2 (take i in1 ++ window)) kept).1

loop_keeps-step :
    (fuel i cnt : ℕ) (in2 in1 : List ℕ)
    → loop_keeps fuel (suc i) cnt in2 in1 ≡ true
    → step_keeps fuel cnt in2 (drop i in1) ≡ true
unfolding loop_keeps
loop_keeps-step fuel i cnt in2 in1 keeps =
    (and-true (step_keeps fuel cnt in2 (drop i in1)) _ keeps).0

pub mod_loop-more :
    (fuel i cnt : ℕ) (in2 in1 window : List ℕ)
    → mod_step fuel cnt in2 (drop i in1) ≡ some window
    → mod_loop fuel (suc i) cnt in2 in1 ≡ mod_loop fuel i cnt in2 (take i in1 ++ window)
unfolding mod_loop
mod_loop-more fuel i cnt in2 in1 window e = rw e refl

-- The window: the words that `in2` covers, the one behind, and the rest.
pub window_of :
    (n : ℕ) (xs : List ℕ)
    → n < length xs
    → AllBelow (2 ^ 32) xs
    → (lo : List ℕ) × (h : ℕ) × (rest : List ℕ) × (xs ≡ lo ++ h ∷ rest)
      × (length lo ≡ n)
      × AllBelow (2 ^ 32) lo
      × (h < 2 ^ 32)
      × AllBelow (2 ^ 32) rest
window_of n [] e hx = absurd (omega arith)
window_of zero (x ∷ xs) e hx = ([], x, xs, refl, refl, tt, hx.0, hx.1)
window_of (suc n) (x ∷ xs) e hx =
    let (lo, h, rest, parts, size, hl, hh, hr) = window_of n xs (omega arith) hx.1 in
    (x ∷ lo, h, rest, ap (λ ys. x ∷ ys) parts, ap suc size, (hx.0, hl), hh, hr)

pub value-drop-lt :
    (i : ℕ) (xs : List ℕ)
    → i < length xs
    → AllBelow (2 ^ 32) xs
    → value (drop i xs) < 2 ^ 32 * suc (value (drop (suc i) xs))
unfolding value
value-drop-lt i [] h hx = absurd (omega arith)
value-drop-lt zero (x ∷ xs) h hx = omega (arith, hx.0)
value-drop-lt (suc i) (x ∷ xs) h hx = value-drop-lt i xs (omega arith) hx.1

pub no_more : (t l h m v : ℕ) → l + t * (h + 2 ^ 32 * m) < 2 ^ 32 * v → v < t → m ≡ 0
no_more t l h zero v e less = refl
no_more t l h (suc m) v e less = absurd (omega (arith, e))

pub value-window :
    (lo : List ℕ) (h : ℕ) (rest : List ℕ)
    → value (lo ++ h ∷ rest) ≡ value lo + top_of (length lo) * (h + 2 ^ 32 * value rest)
unfolding value
value-window lo h rest = value-append lo (h ∷ rest)

module _ (in2 : List ℕ) (h2 : AllBelow (2 ^ 32) in2) (n : ℕ) (size2 : length in2 ≡ suc n)
    (high : 2 ^ 31 ≤ get_or in2 n 0) (fuel : ℕ) (rounds : 4 ≤ fuel) where
  -- A step on the part of `in1` from `i` on.
  window_step :
      (xs : List ℕ)
      → AllBelow (2 ^ 32) xs
      → length in2 < length xs
      → value xs < 2 ^ 32 * value in2
      → step_keeps fuel (length in2) in2 xs ≡ true
      → (window : List ℕ) × (times : ℕ) × (mod_step fuel (length in2) in2 xs ≡ some window)
        × (length window ≡ length xs)
        × AllBelow (2 ^ 32) window
        × (value window < value in2)
        × (value xs ≡ value window + times * value in2)
  window_step xs hx longer fits keeps =
      let (lo, h, rest, parts, size, hl, hh, hr) = window_of (length in2) xs longer hx in
      let t = top_of (length in2) in
      let before : value xs ≡ value lo + t * (h + 2 ^ 32 * value rest) =
        ap value parts
        ∙ value-window lo h rest
        ∙ ap (λ (m : ℕ). value lo + top_of m * (h + 2 ^ 32 * value rest)) size in
      let none_left : value rest ≡ 0 =
        no_more t (value lo) h (value rest) (value in2) (omega (arith, before, fits))
          (value-lt in2 h2) in
      let cleared = ap (λ (m : ℕ). t * (h + 2 ^ 32 * m)) none_left in
      let whole : value lo + h * t ≡ value xs = omega (arith, before, cleared) in
      let kept : step_keeps fuel (length in2) in2 (lo ++ h ∷ rest) ≡ true =
        ap (λ ys. step_keeps fuel (length in2) in2 ys) (sym parts) ∙ keeps in
      let (c, times, run, size', below, less, total) =
        mod_step_lem in2 h2 n size2 high fuel rounds rest lo h hr size hl hh
          (omega (arith, whole, fits)) kept in
      let t' = top_of (length c) in
      let gone = ap (λ (m : ℕ). t' * (0 + 2 ^ 32 * m)) none_left in
      let after : value (c ++ 0 ∷ rest) ≡ value c = omega (arith, value-window c 0 rest, gone) in
      let lengths = ap length parts in
      (
        c ++ 0 ∷ rest,
        times,
        ap (λ ys. mod_step fuel (length in2) in2 ys) parts ∙ run,
        omega (arith, lengths, length-append lo (h ∷ rest), length-append c (0 ∷ rest)),
        append-AllBelow (2 ^ 32) c (0 ∷ rest) below (omega arith, hr),
        omega (arith, after, less),
        omega (arith, after, total, whole),
      )

  -- The rounds for `i` down to 0, on a number whose part from `i` on is below `in2`.
  pub mod_loop_lem :
      (i : ℕ) (in1 : List ℕ)
      → AllBelow (2 ^ 32) in1
      → i + length in2 ≤ length in1
      → value (drop i in1) < value in2
      → loop_keeps fuel i (length in2) in2 in1 ≡ true
      → (out : List ℕ) × (times : ℕ) × (mod_loop fuel i (length in2) in2 in1 ≡ some out)
        × (length out ≡ length in1)
        × AllBelow (2 ^ 32) out
        × (value out < value in2)
        × (value in1 ≡ value out + times * value in2)
  unfolding mod_loop
  mod_loop_lem zero in1 h1 e less keeps = (in1, 0, refl, refl, h1, less, omega arith)
  mod_loop_lem (suc i) in1 h1 e less keeps =
      let xs = drop i in1 in
      let ahead = take i in1 in
      let size : length xs ≡ length in1 - i = length-drop i in1 in
      let more = value-drop-lt i in1 (omega arith) h1 in
      let (window, times, run, size', below, less', total) =
        window_step xs (drop-AllBelow (2 ^ 32) i in1 h1) (omega (arith, size))
          (omega (arith, more, less)) (loop_keeps-step fuel i (length in2) in2 in1 keeps) in
      let in1' = ahead ++ window in
      let front : length ahead ≡ i = omega (arith, length-take i in1) in
      let there : drop i in1' ≡ window = drop-append i ahead window front in
      let value_there : value (drop i in1') ≡ value window = ap value there in
      let whole : value in1 ≡ value ahead + top_of (length ahead) * value xs =
        ap value (sym (take-append-drop i in1)) ∙ value-append ahead xs in
      let scaled = ap (λ (m : ℕ). top_of (length ahead) * m) total in
      let (out, times', run', size'', below', less'', total') =
        mod_loop_lem i in1'
          (append-AllBelow (2 ^ 32) ahead window (take-AllBelow (2 ^ 32) i in1 h1) below)
          (omega (arith, length-append ahead window, size, size', front))
          (omega (arith, value_there, less'))
          (loop_keeps-more fuel i (length in2) in2 in1 window run keeps) in
      let opens : mod_loop fuel (suc i) (length in2) in2 in1
          ≡ mod_loop fuel i (length in2) in2 in1' =
        mod_loop-more fuel i (length in2) in2 in1 window run in
      (
        out,
        top_of (length ahead) * times + times',
        opens ∙ run',
        omega (arith, size'', length-append ahead window, size, size', front),
        below',
        less'',
        omega (arith, total', whole, scaled, value-append ahead window),
      )
