-- ===== src/FastTrack/EncType1/Multiply.antt =====
-- `big_mul`: a row of the product, and the rows.
use addnas_mldonkey.Base.{
  ℕ, ◌+◌, ◌*◌, ◌%◌, ◌^◌, ◌<◌, ◌≤◌, ◌≡◌, refl, sym, ap, sym, ◌∙◌, ◌∙◌, arith, some, ap, sym, ◌∙◌,
  List, [], ◌∷◌, ◌++◌, length, replicate, take, AllBelow, shr, length-replicate, ge→ltb,
  length-take, take-AllBelow,
}
use native.Mathlib.Nat.{mul-le-mul}
use mathlib.Core.List.{append-nil}
use addnas_mldonkey.FastTrack.EncType1.{mul_row, keep_first, mul_rows, words_of, big_mul}
use addnas_mldonkey.FastTrack.EncType1.Value.{
  value, value-replicate, replicate-AllBelow, replicate-add,
}

sum_fits :
    (x y o k : ℕ) → x < 2 ^ 32 → y < 2 ^ 32 → o < 2 ^ 32 → k < 2 ^ 32 → k + (o + x * y) < 2 ^ 64
sum_fits x y o k hx hy ho hk =
    let fits : x ≤ 0xffffffff → y ≤ 0xffffffff → x * y ≤ 0xffffffff * 0xffffffff = mul-le-mul in
    let top : x * y ≤ 0xffffffff * 0xffffffff = fits (omega arith) (omega arith) in omega arith

-- A row, on the part `a` of `out` under it and the word `o` behind that.
mul_row_lem :
    (x : ℕ) (in2 a : List ℕ) (o : ℕ) (rest : List ℕ) (k : ℕ)
    → x < 2 ^ 32
    → AllBelow (2 ^ 32) in2
    → AllBelow (2 ^ 32) a
    → length a ≡ length in2
    → k < 2 ^ 32
    → (c0 : ℕ) × (c : List ℕ) × (mul_row x in2 (a ++ o ∷ rest) k ≡ some (c0 ∷ c ++ rest))
      × (length c ≡ length in2)
      × AllBelow (2 ^ 32) (c0 ∷ c)
      × (value (c0 ∷ c) ≡ value a + x * value in2 + k)
unfolding mul_row value
mul_row_lem x [] [] o rest k hx h2 ha e hk =
    let whole : k % 2 ^ 32 ≡ k = omega arith in (k, [], rw whole refl, refl, (hk, tt), omega arith)
mul_row_lem x [] (b ∷ a) o rest k hx h2 ha e hk = absurd (omega arith)
mul_row_lem x (y ∷ in2) [] o rest k hx h2 ha e hk = absurd (omega arith)
mul_row_lem x (y ∷ in2) (b ∷ a) o rest k hx h2 ha e hk =
    let fits = sum_fits x y b k hx h2.0 ha.0 hk in
    let sum = (k + (b + x * y)) % 2 ^ 64 in
    let whole : sum ≡ k + (b + x * y) = omega arith in
    let (c0, c, run, size, below, total) =
      mul_row_lem x in2 a o rest (shr sum 32) hx h2.1 ha.1 (omega arith) (omega arith) in
    (
      sum % 2 ^ 32,
      c0 ∷ c,
      rw run refl,
      omega arith,
      (omega arith, below),
      omega (arith, total, whole),
    )

-- The rows for `in1`, over zeros: each row leaves its first word as it is.
mul_rows_lem :
    (in1 in2 a : List ℕ)
    → AllBelow (2 ^ 32) in1
    → AllBelow (2 ^ 32) in2
    → AllBelow (2 ^ 32) a
    → length a ≡ length in2
    → (out : List ℕ) × (mul_rows in1 in2 (a ++ replicate (length in1) 0) ≡ some out)
      × (length out ≡ length in1 + length in2)
      × AllBelow (2 ^ 32) out
      × (value out ≡ value a + value in1 * value in2)
unfolding mul_rows keep_first value
mul_rows_lem [] in2 a h1 h2 ha e = (a, ap some (append-nil a), omega arith, ha, omega arith)
mul_rows_lem (x ∷ in1) in2 a h1 h2 ha e =
    let (c0, c, run, size, below, total) =
      mul_row_lem x in2 a 0 (replicate (length in1) 0) 0 h1.0 h2 ha e (omega arith) in
    let (out, run', size', below', total') = mul_rows_lem in1 in2 c h1.1 h2 below.1 size in
    (c0 ∷ out, rw run rw run' refl, omega arith, (below.0, below'), omega (arith, total, total'))

-- On two arrays of `cnt` or more 32-bit words `big_mul` accesses nothing outside its arrays, and its
-- result is `2 * cnt` 32-bit words, the product of the numbers of the first `cnt` words.
pub big_mul_lem :
    (cnt : ℕ) (in1 in2 : List ℕ)
    → cnt ≤ length in1
    → cnt ≤ length in2
    → AllBelow (2 ^ 32) in1
    → AllBelow (2 ^ 32) in2
    → (out : List ℕ) × (big_mul cnt in1 in2 ≡ some out)
      × (length out ≡ cnt + cnt)
      × AllBelow (2 ^ 32) out
      × (value out ≡ value (take cnt in1) * value (take cnt in2))
unfolding big_mul words_of
big_mul_lem cnt in1 in2 e1 e2 h1 h2 =
    let size1 : length (take cnt in1) ≡ cnt = omega (arith, length-take cnt in1) in
    let size2 : length (take cnt in2) ≡ cnt = omega (arith, length-take cnt in2) in
    let (out, run, size, below, total) =
      mul_rows_lem (take cnt in1) (take cnt in2) (replicate cnt 0)
        (take-AllBelow (2 ^ 32) cnt in1 h1) (take-AllBelow (2 ^ 32) cnt in2 h2)
        (replicate-AllBelow cnt) (omega (arith, length-replicate {A = ℕ} cnt 0)) in
    (
      out,
      rw (ge→ltb (length in1) cnt e1) rw (ge→ltb (length in2) cnt e2) rw
          (replicate-add {A = ℕ} cnt cnt 0)
          (ap (λ (n : ℕ). mul_rows (take cnt in1) (take cnt in2) (replicate cnt 0 ++ replicate n 0))
              (sym size1)
            ∙ run),
      omega arith,
      below,
      omega (arith, total, value-replicate cnt),
    )
