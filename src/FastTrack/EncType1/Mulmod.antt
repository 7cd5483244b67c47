-- ===== src/FastTrack/EncType1/Mulmod.antt =====
-- `big_mod` and `big_mulmod` on whole numbers.
use addnas_mldonkey.Base.{
  ℕ, zero, suc, ◌+◌, ◌*◌, ◌%◌, ◌^◌, ◌<◌, ◌≤◌, ◌≡◌, refl, sym, ap, ap₂, ◌∙◌, arith, none, some, List,
  [], ◌∷◌, Bool, true, false, ◌==◌, length, take, drop, length-take, take-AllBelow,
  take-append-drop, take_all, AllBelow, get_or, get_elem?, get_elem?-eq-get_or, ge→ltb,
}
use native.Mathlib.Nat.{
  add-mul-mod_self_right, mod-eq_of_lt, lt_of_mul-lt-mul_left, mul-le-mul_left, mul-le-mul_right,
}
use mathlib.Core.List.{append-nil}
use addnas_mldonkey.FastTrack.EncType1.{big_mul, big_mod, big_mulmod, words_of}
use addnas_mldonkey.FastTrack.EncType1.Value.{value, top_of, value-append, value-lt, value-lt_top}
use addnas_mldonkey.FastTrack.EncType1.Multiply.{big_mul_lem}
use addnas_mldonkey.FastTrack.EncType1.Modulo.{loop_keeps, mod_loop_lem}

pub nothing_above : (t l m v : ℕ) → l + t * m < t → m ≡ 0
nothing_above t l zero v e = refl
nothing_above t l (suc m) v e = absurd (omega (arith, e))

pub words_of_all : (cnt : ℕ) (xs : List ℕ) → cnt ≤ length xs → words_of cnt xs ≡ some (take cnt xs)
unfolding words_of
words_of_all cnt xs h = rw (ge→ltb (length xs) cnt h) refl

pub value-take_all :
    (cnt : ℕ) (xs : List ℕ)
    → cnt ≤ length xs
    → value xs < top_of cnt
    → value (take cnt xs) ≡ value xs
value-take_all cnt xs h less =
    let size : length (take cnt xs) ≡ cnt = omega (arith, length-take cnt xs) in
    let whole : value xs ≡ value (take cnt xs) + top_of cnt * value (drop cnt xs) =
      ap value (sym (take-append-drop cnt xs))
      ∙ value-append (take cnt xs) (drop cnt xs)
      ∙ ap (λ (m : ℕ). value (take cnt xs) + top_of m * value (drop cnt xs)) size in
    let none_left =
      nothing_above (top_of cnt) (value (take cnt xs)) (value (drop cnt xs)) 0
        (omega (arith, whole, less)) in
    omega (arith, whole, ap (λ (m : ℕ). top_of cnt * m) none_left)

drop_all : (n : ℕ) (xs : List ℕ) → length xs ≤ n → drop n xs ≡ []
drop_all zero [] h = refl
drop_all zero (x ∷ xs) h = absurd (omega arith)
drop_all (suc n) [] h = refl
drop_all (suc n) (x ∷ xs) h = drop_all n xs (omega arith)

remainder_is : (a r q m : ℕ) → a ≡ r + q * m → r < m → r ≡ a % m
remainder_is a r q m e less =
    sym (ap (λ (t : ℕ). t % m) e ∙ add-mul-mod_self_right r q m ∙ mod-eq_of_lt less)

module _ (in2 : List ℕ) (h2 : AllBelow (2 ^ 32) in2) (n : ℕ) (size2 : length in2 ≡ suc n)
    (high : 2 ^ 31 ≤ get_or in2 n 0) (fuel : ℕ) (rounds : 4 ≤ fuel) where
  -- For a divisor of at least one 32-bit word whose highest bit is set, and a number of twice its
  -- length, below the divisor times 2 ^ 32 to the power of that length: with four rounds or more for
  -- the inner loop, and if no subtraction loses a borrow, `big_mod` ends, accesses nothing outside
  -- its arrays, and leaves the remainder in words of the divisor's length.
  pub big_mod_lem :
      (in1 : List ℕ)
      → AllBelow (2 ^ 32) in1
      → length in1 ≡ length in2 + length in2
      → value in1 < value in2 * top_of (length in2)
      → loop_keeps fuel (length in2) (length in2) in2 in1 ≡ true
      → (out : List ℕ) × (big_mod fuel (length in2) in1 in2 ≡ some out)
        × (length out ≡ length in2)
        × AllBelow (2 ^ 32) out
        × (value out ≡ value in1 % value in2)
        × (value out < value in2)
  unfolding big_mod
  big_mod_lem in1 h1 e fits keeps =
      let cnt = length in2 in
      let front : length (take cnt in1) ≡ cnt = omega (arith, length-take cnt in1) in
      let halves : value in1 ≡ value (take cnt in1) + top_of cnt * value (drop cnt in1) =
        ap value (sym (take-append-drop cnt in1))
        ∙ value-append (take cnt in1) (drop cnt in1)
        ∙ ap (λ (m : ℕ). value (take cnt in1) + top_of m * value (drop cnt in1)) front in
      let upper : value (drop cnt in1) < value in2 =
        lt_of_mul-lt-mul_left (top_of cnt) (omega (arith, halves, fits)) in
      let (out, times, run, size, below, less, total) =
        mod_loop_lem in2 h2 n size2 high fuel rounds cnt in1 h1 (omega arith) upper keeps in
      let words2 : words_of cnt in2 ≡ some in2 =
        words_of_all cnt in2 (omega arith) ∙ ap some (take_all cnt in2 (omega arith)) in
      let short : value (take cnt out) ≡ value out =
        value-take_all cnt out (omega (arith, size, e)) (omega (arith, less, value-lt in2 h2)) in
      (
        take cnt out,
        rw words2 rw run (words_of_all cnt out (omega (arith, size, e))),
        omega (arith, length-take cnt out, size, e),
        take-AllBelow (2 ^ 32) cnt out below,
        short ∙ remainder_is (value in1) (value out) times (value in2) total less,
        omega (arith, short, less),
      )

-- A number of 64 words below the modulus.
unfoldable pub IsReduced : List ℕ → List ℕ → Type 0
IsReduced m num = (length num ≡ 64) × AllBelow (2 ^ 32) num × (value num < value m)

-- The multiplication loses no borrow when it divides.
unfoldable pub mulmod_keeps : ℕ → List ℕ → List ℕ → List ℕ → Bool
mulmod_keeps fuel num1 num2 mod_words = elim (big_mul 64 num1 num2) [
  | none ↦ true
  | some product ↦ loop_keeps fuel 64 64 mod_words product
]

mulmod_keeps-opens :
    (fuel : ℕ) (num1 num2 mod_words product : List ℕ)
    → big_mul 64 num1 num2 ≡ some product
    → mulmod_keeps fuel num1 num2 mod_words ≡ true
    → loop_keeps fuel 64 64 mod_words product ≡ true
unfolding mulmod_keeps
mulmod_keeps-opens fuel num1 num2 mod_words product e keeps = rw (e, mulmod_keeps) at keeps

nonzero : (a : ℕ) → 0 < a → (a == 0) ≡ false
nonzero a h = ground arith

pub big_mulmod-opens :
    (fuel : ℕ) (num1 num2 mod_words product out : List ℕ) (top : ℕ)
    → get_elem? mod_words 63 ≡ some top
    → 0 < top
    → big_mul 64 num1 num2 ≡ some product
    → big_mod fuel 64 product mod_words ≡ some out
    → length num1 ≤ 64
    → big_mulmod fuel num1 num2 mod_words ≡ some out
unfolding big_mulmod
big_mulmod-opens fuel num1 num2 mod_words product out top et pos em ed short =
    rw et rw (nonzero top pos) rw em rw ed rw (drop_all 64 num1 short) (ap some (append-nil out))

module _ (m : List ℕ) (hm : AllBelow (2 ^ 32) m) (size : length m ≡ 64)
    (high : 2 ^ 31 ≤ get_or m 63 0) (fuel : ℕ) (rounds : 4 ≤ fuel) where
  big_mod_64 :
      (in1 : List ℕ)
      → AllBelow (2 ^ 32) in1
      → length in1 ≡ 128
      → value in1 < value m * top_of 64
      → loop_keeps fuel 64 64 m in1 ≡ true
      → (out : List ℕ) × (big_mod fuel 64 in1 m ≡ some out)
        × (length out ≡ 64)
        × AllBelow (2 ^ 32) out
        × (value out ≡ value in1 % value m)
        × (value out < value m)
  big_mod_64 in1 h1 e fits keeps =
      let tops = ap (λ (c : ℕ). value m * top_of c) size in
      let kept : loop_keeps fuel (length m) (length m) m in1 ≡ true =
        ap (λ (c : ℕ). loop_keeps fuel c c m in1) size ∙ keeps in
      let (out, run, size', below, total, less) =
        big_mod_lem m hm 63 size high fuel rounds in1 h1 (omega arith) (omega (arith, tops, fits))
          kept in
      let run' : big_mod fuel 64 in1 m ≡ some out =
        ap (λ (c : ℕ). big_mod fuel c in1 m) (sym size) ∙ run in
      (out, run', omega (arith, size'), below, total, less)

  pub big_mulmod_lem :
      (num1 num2 : List ℕ)
      → IsReduced m num1
      → IsReduced m num2
      → mulmod_keeps fuel num1 num2 m ≡ true
      → (out : List ℕ) × (big_mulmod fuel num1 num2 m ≡ some out)
        × IsReduced m out
        × (value out ≡ value num1 * value num2 % value m)
  unfolding IsReduced
  big_mulmod_lem num1 num2 (size1, below1, less1) (size2, below2, less2) keeps =
      let (product, run, long, below, total) =
        big_mul_lem 64 num1 num2 (omega arith) (omega arith) below1 below2 in
      let all1 = ap value (take_all 64 num1 (omega arith)) in
      let all2 = ap value (take_all 64 num2 (omega arith)) in
      let exact : value product ≡ value num1 * value num2 = total ∙ ap₂ ◌*◌ all1 all2 in
      let room = value-lt_top num2 64 size2 below2 in
      let left : value num1 * value num2 ≤ value num1 * top_of 64 =
        mul-le-mul_left (value num1) (omega (arith, room)) in
      let right : suc (value num1) * top_of 64 ≤ value m * top_of 64 =
        mul-le-mul_right (top_of 64) less1 in
      let (out, run', size', below', total', less') =
        big_mod_64 product below (omega (arith, long)) (omega (arith, exact, left, right, room))
          (mulmod_keeps-opens fuel num1 num2 m product run keeps) in
      (
        out,
        big_mulmod-opens fuel num1 num2 m product out (get_or m 63 0)
            (get_elem?-eq-get_or m 63 0 (omega arith)) (omega arith) run run' (omega arith),
        (size', below', less'),
        total' ∙ ap (λ (t : ℕ). t % value m) exact,
      )
