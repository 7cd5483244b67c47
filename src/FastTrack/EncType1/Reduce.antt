-- ===== src/FastTrack/EncType1/Reduce.antt =====
-- The inner loop of `big_mod`: `in2` goes off until the window is below it.
use addnas_mldonkey.Base.{
  ℕ, zero, suc, ◌+◌, ◌-◌, ◌*◌, ◌%◌, ◌^◌, ◌<◌, ◌≤◌, ◌≡◌, refl, sym, ap, ◌∙◌, arith, none, some, List,
  [], ◌∷◌, ◌++◌, Bool, true, false, not, ◌||◌, Bool-cases, inl, inr, ◌&&◌, length, length-append,
  append-AllBelow, take-append, take_all, ltb, ◌==◌, AllBelow, ==_iff, get_elem?,
}
use mathlib.Core.Bool.{true≢false}
use addnas_mldonkey.FastTrack.EncType1.{sub_once, is_above, reduce}
use addnas_mldonkey.FastTrack.EncType1.Value.{value, top_of, value-lt, value-lt_top}
use addnas_mldonkey.FastTrack.EncType1.Compare.{big_isless_lem}
use addnas_mldonkey.FastTrack.EncType1.Subtract.{lost, sub_once_lem}

-- No subtraction of the loop loses a borrow.
unfoldable pub reduce_keeps : ℕ → ℕ → List ℕ → List ℕ → Bool
reduce_keeps zero cnt in2 in1 = true
reduce_keeps (suc fuel) cnt in2 in1 = elim (is_above cnt in2 in1) [
  | none ↦ true
  | some false ↦ true
  | some true ↦
      (lost in2 in1 0 == 0)
      && elim (sub_once in2 in1 0) [ none ↦ true | some next ↦ reduce_keeps fuel cnt in2 next ]
]

pub word_behind :
    (lo : List ℕ) (h : ℕ) (rest : List ℕ) → get_elem? (lo ++ h ∷ rest) (length lo) ≡ some h
word_behind [] h rest = refl
word_behind (x ∷ lo) h rest = word_behind lo h rest

pub above-le : (h v m t : ℕ) → m < t → (not (h == 0) || not (ltb v m)) ≡ true → m ≤ v + h * t
above-le zero v m t less e = ground arith
above-le (suc h) v m t less e = omega arith

pub below-lt : (h v m : ℕ) → (not (h == 0) || not (ltb v m)) ≡ false → (h ≡ 0) × (v < m)
below-lt zero v m e = ground arith
below-lt (suc h) v m e = ground arith

pub owed-le :
    (owed h v c m t : ℕ) → owed ≤ 1 → v + owed * t ≡ c + m → c < t → m ≤ v + h * t → owed ≤ h
owed-le zero h v c m t le e less above = omega arith
owed-le (suc zero) zero v c m t le e less above = absurd (omega arith)
owed-le (suc zero) (suc h) v c m t le e less above = omega arith
owed-le (suc (suc owed)) h v c m t le e less above = absurd (omega arith)

module _ (in2 : List ℕ) (h2 : AllBelow (2 ^ 32) in2) (rest : List ℕ)
    (hr : AllBelow (2 ^ 32) rest) where
  pub is_above_lem :
      (lo : List ℕ) (h : ℕ)
      → length lo ≡ length in2
      → AllBelow (2 ^ 32) lo
      → h < 2 ^ 32
      → is_above (length in2) in2 (lo ++ h ∷ rest)
        ≡ some (not (h == 0) || not (ltb (value lo) (value in2)))
  unfolding is_above
  is_above_lem lo h e hl hh =
      let behind : get_elem? (lo ++ h ∷ rest) (length in2) ≡ some h =
        ap (λ (n : ℕ). get_elem? (lo ++ h ∷ rest) n) (sym e) ∙ word_behind lo h rest in
      let compared =
        big_isless_lem (length in2) (lo ++ h ∷ rest) in2
          (omega (arith, length-append lo (h ∷ rest))) (omega arith)
          (append-AllBelow (2 ^ 32) lo (h ∷ rest) hl (hh, hr)) h2 in
      rw behind rw compared rw (take-append (length in2) lo (h ∷ rest) e) rw
        (take_all (length in2) in2 (omega arith)) refl

pub reduce-ends :
    (fuel cnt : ℕ) (in2 in1 : List ℕ)
    → is_above cnt in2 in1 ≡ some false
    → reduce (suc fuel) cnt in2 in1 ≡ some in1
unfolding reduce
reduce-ends fuel cnt in2 in1 e = rw e refl

pub reduce-more :
    (fuel cnt : ℕ) (in2 in1 next : List ℕ)
    → is_above cnt in2 in1 ≡ some true
    → sub_once in2 in1 0 ≡ some next
    → reduce (suc fuel) cnt in2 in1 ≡ reduce fuel cnt in2 next
unfolding reduce
reduce-more fuel cnt in2 in1 next e s = rw e rw s refl

pub and-true : (a b : Bool) → (a && b) ≡ true → (a ≡ true) × (b ≡ true)
and-true true true e = (refl, refl)
and-true true false e = absurd (true≢false (sym e))
and-true false b e = absurd (true≢false (sym e))

reduce_keeps-more :
    (fuel cnt : ℕ) (in2 in1 next : List ℕ)
    → is_above cnt in2 in1 ≡ some true
    → sub_once in2 in1 0 ≡ some next
    → reduce_keeps (suc fuel) cnt in2 in1 ≡ true
    → (lost in2 in1 0 ≡ 0) × (reduce_keeps fuel cnt in2 next ≡ true)
unfolding reduce_keeps
reduce_keeps-more fuel cnt in2 in1 next e s keeps =
    let kept : ((lost in2 in1 0 == 0) && reduce_keeps fuel cnt in2 next) ≡ true =
      rw (s, reduce_keeps) at rw (e, reduce_keeps) at keeps in
    let (none_lost, later) = and-true (lost in2 in1 0 == 0) (reduce_keeps fuel cnt in2 next) kept in
    ((==_iff (lost in2 in1 0) 0).0 none_lost, later)

module _ (in2 : List ℕ) (h2 : AllBelow (2 ^ 32) in2) (rest : List ℕ)
    (hr : AllBelow (2 ^ 32) rest) where
  -- With no borrow lost and rounds for every time that `in2` fits into the window, the loop leaves
  -- the remainder.
  pub reduce_lem :
      (fuel : ℕ) (lo : List ℕ) (h : ℕ)
      → length lo ≡ length in2
      → AllBelow (2 ^ 32) lo
      → h < 2 ^ 32
      → value lo + h * top_of (length in2) < fuel * value in2
      → reduce_keeps fuel (length in2) in2 (lo ++ h ∷ rest) ≡ true
      → (c : List ℕ) × (times : ℕ) × (reduce fuel (length in2) in2 (lo ++ h ∷ rest)
          ≡ some (c ++ 0 ∷ rest))
        × (length c ≡ length in2)
        × AllBelow (2 ^ 32) c
        × (value c < value in2)
        × (value lo + h * top_of (length in2) ≡ value c + times * value in2)
  reduce_lem zero lo h e hl hh fits keeps = absurd (omega (arith, fits))
  reduce_lem (suc fuel) lo h e hl hh fits keeps =
      let test = not (h == 0) || not (ltb (value lo) (value in2)) in
      let above = is_above_lem in2 h2 rest hr lo h e hl hh in
      elim (Bool-cases test) [
        | inl t ↦
            let (c, owed, run, size, below, le, total) =
              sub_once_lem in2 lo h rest 0 h2 hl e (omega arith) in
            let less : value c < top_of (length in2) = value-lt_top c (length in2) size below in
            let least =
              above-le h (value lo) (value in2) (top_of (length in2)) (value-lt in2 h2) t in
            let h' = (h + 2 ^ 32 - owed) % 2 ^ 32 in
            let again = above ∙ ap some t in
            let (none_lost, later) =
              reduce_keeps-more fuel (length in2) in2 (lo ++ h ∷ rest) (c ++ h' ∷ rest) again run
                keeps in
            let exact : value lo + owed * top_of (length in2) ≡ value c + value in2 =
              omega (arith, total, none_lost) in
            let enough =
              owed-le owed h (value lo) (value c) (value in2) (top_of (length in2)) le exact less
                least in
            let split : h ≡ h' + owed = omega (arith, enough) in
            let product = ap (λ (n : ℕ). n * top_of (length in2)) split in
            let (out, times, run', size', below', less', total') =
              reduce_lem fuel c h' size below (omega arith) (omega (arith, exact, product, fits))
                later in
            let more : reduce (suc fuel) (length in2) in2 (lo ++ h ∷ rest)
                ≡ reduce fuel (length in2) in2 (c ++ h' ∷ rest) =
              reduce-more fuel (length in2) in2 (lo ++ h ∷ rest) (c ++ h' ∷ rest) again run in
            (
              out,
              suc times,
              more ∙ run',
              size',
              below',
              less',
              omega (arith, total', exact, product),
            )
        | inr f ↦
            let (empty, less) = below-lt h (value lo) (value in2) f in
            (
              lo,
              0,
              reduce-ends fuel (length in2) in2 (lo ++ h ∷ rest) (above ∙ ap some f)
                  ∙ ap (λ (n : ℕ). some (lo ++ n ∷ rest)) empty,
              e,
              hl,
              less,
              omega (arith, ap (λ (n : ℕ). n * top_of (length in2)) empty),
            )
      ]
