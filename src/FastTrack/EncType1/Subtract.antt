-- ===== src/FastTrack/EncType1/Subtract.antt =====
-- The two subtractions of `big_mod`: a multiple of `in2`, and `in2` once.
use addnas_mldonkey.Base.{
  ℕ, ◌+◌, ◌-◌, ◌*◌, ◌%◌, ◌^◌, ◌<◌, ◌≤◌, ◌≡◌, refl, arith, some, List, [], ◌∷◌, ◌++◌, Bool, true,
  false, Bool-cases, inl, inr, ◌&&◌, length, ltb, ◌==◌, ltb→lt, ltb→ge, if◌then◌else◌, AllBelow,
  shr,
}
use native.Mathlib.Nat.{mul-le-mul}
use addnas_mldonkey.FastTrack.EncType1.{sub_product, sub_once}
use addnas_mldonkey.FastTrack.EncType1.Value.{value, top_of}

product_fits : (k y l : ℕ) → k < 2 ^ 32 → y < 2 ^ 32 → l < 2 ^ 32 → k * y + l ≤ 0xffffffff * 2 ^ 32
product_fits k y l hk hy hl =
    let fits : k ≤ 0xffffffff → y ≤ 0xffffffff → k * y ≤ 0xffffffff * 0xffffffff = mul-le-mul in
    let top : k * y ≤ 0xffffffff * 0xffffffff = fits (omega arith) (omega arith) in omega arith

-- The borrow that a word takes on.
carried-lt :
    (x a : ℕ)
    → x ≤ 0xffffffff * 2 ^ 32
    → (if ltb a (x % 2 ^ 64 % 2 ^ 32)
        then (shr (x % 2 ^ 64) 32 + 1) % 2 ^ 32
        else shr (x % 2 ^ 64) 32)
      < 2 ^ 32
carried-lt x a h = elim (Bool-cases (ltb a (x % 2 ^ 64 % 2 ^ 32))) [
  | inl t ↦ rw t omega arith
  | inr f ↦ rw f omega arith
]

carried_lem :
    (x a : ℕ)
    → x ≤ 0xffffffff * 2 ^ 32
    → a < 2 ^ 32
    → a
        + 2 ^ 32
          * (if ltb a (x % 2 ^ 64 % 2 ^ 32)
              then (shr (x % 2 ^ 64) 32 + 1) % 2 ^ 32
              else shr (x % 2 ^ 64) 32)
      ≡ (a + 2 ^ 32 - x % 2 ^ 64 % 2 ^ 32) % 2 ^ 32 + x
carried_lem x a h ha = elim (Bool-cases (ltb a (x % 2 ^ 64 % 2 ^ 32))) [
  | inl t ↦ rw t omega (arith, ltb→lt a (x % 2 ^ 64 % 2 ^ 32) t)
  | inr f ↦ rw f omega (arith, ltb→ge a (x % 2 ^ 64 % 2 ^ 32) f)
]

-- The first loop is exact, and what it still owes goes off the word behind.
pub sub_product_lem :
    (k : ℕ) (in2 a : List ℕ) (h : ℕ) (rest : List ℕ) (l : ℕ)
    → k < 2 ^ 32
    → AllBelow (2 ^ 32) in2
    → AllBelow (2 ^ 32) a
    → length a ≡ length in2
    → l < 2 ^ 32
    → (c : List ℕ) × (owed : ℕ) × (sub_product k in2 (a ++ h ∷ rest) l
        ≡ some (c ++ (h + 2 ^ 32 - owed) % 2 ^ 32 ∷ rest))
      × (length c ≡ length in2)
      × AllBelow (2 ^ 32) c
      × (owed < 2 ^ 32)
      × (value a + owed * top_of (length in2) ≡ value c + k * value in2 + l)
unfolding sub_product value top_of
sub_product_lem k [] [] h rest l hk h2 ha e hl = ([], l, refl, refl, tt, hl, omega arith)
sub_product_lem k [] (b ∷ a) h rest l hk h2 ha e hl = absurd (omega arith)
sub_product_lem k (y ∷ in2) [] h rest l hk h2 ha e hl = absurd (omega arith)
sub_product_lem k (y ∷ in2) (b ∷ a) h rest l hk h2 ha e hl =
    let fits = product_fits k y l hk h2.0 hl in
    let exact = carried_lem (k * y + l) b fits ha.0 in
    let (c, owed, run, size, below, less, total) =
      sub_product_lem k in2 a h rest _ hk h2.1 ha.1 (omega arith) (carried-lt (k * y + l) b fits) in
    (
      (b + 2 ^ 32 - (k * y + l) % 2 ^ 64 % 2 ^ 32) % 2 ^ 32 ∷ c,
      owed,
      rw run refl,
      omega arith,
      (omega arith, below),
      less,
      omega (arith, total, exact),
    )

-- What the second loop fails to take off: a word 0 turns the borrow into the largest word before the
-- comparison, so that no borrow reaches the next word.
unfoldable pub lost : List ℕ → List ℕ → ℕ → ℕ
lost [] in1 l = 0
lost (y ∷ in2) [] l = 0
lost (y ∷ in2) (a ∷ in1) l =
    (if a == 0 && l == 1 then 2 ^ 32 else 0)
    + 2 ^ 32 * lost in2 in1 (if ltb ((a + 2 ^ 32 - l) % 2 ^ 32) y then 1 else 0)

bit_le : (b : Bool) → (if b then 1 else 0) ≤ 1
bit_le true = omega arith
bit_le false = omega arith

once_lem :
    (a y l : ℕ)
    → a < 2 ^ 32
    → y < 2 ^ 32
    → l ≤ 1
    → a
        + (if a == 0 && l == 1 then 2 ^ 32 else 0)
        + 2 ^ 32 * (if ltb ((a + 2 ^ 32 - l) % 2 ^ 32) y then 1 else 0)
      ≡ ((a + 2 ^ 32 - l) % 2 ^ 32 + 2 ^ 32 - y) % 2 ^ 32 + y + l
once_lem a y l ha hy hl = ground arith

-- On an array of 32-bit words, as many as `in2` has and one behind, and from a borrow of 0 or 1, the
-- second loop faults nowhere and takes `in2` and the borrow off, except that it leaves in what
-- `lost` counts; it subtracts a borrow of 0 or 1 from the word behind.
pub sub_once_lem :
    (in2 a : List ℕ) (h : ℕ) (rest : List ℕ) (l : ℕ)
    → AllBelow (2 ^ 32) in2
    → AllBelow (2 ^ 32) a
    → length a ≡ length in2
    → l ≤ 1
    → (c : List ℕ) × (owed : ℕ) × (sub_once in2 (a ++ h ∷ rest) l
        ≡ some (c ++ (h + 2 ^ 32 - owed) % 2 ^ 32 ∷ rest))
      × (length c ≡ length in2)
      × AllBelow (2 ^ 32) c
      × (owed ≤ 1)
      × (value a + owed * top_of (length in2) + lost in2 (a ++ h ∷ rest) l
          ≡ value c + value in2 + l)
unfolding sub_once value top_of lost
sub_once_lem [] [] h rest l h2 ha e hl = ([], l, refl, refl, tt, hl, omega arith)
sub_once_lem [] (b ∷ a) h rest l h2 ha e hl = absurd (omega arith)
sub_once_lem (y ∷ in2) [] h rest l h2 ha e hl = absurd (omega arith)
sub_once_lem (y ∷ in2) (b ∷ a) h rest l h2 ha e hl =
    let exact = once_lem b y l ha.0 h2.0 hl in
    let next = ltb ((b + 2 ^ 32 - l) % 2 ^ 32) y in
    let (c, owed, run, size, below, less, total) =
      sub_once_lem in2 a h rest (if next then 1 else 0) h2.1 ha.1 (omega arith) (bit_le next) in
    (
      ((b + 2 ^ 32 - l) % 2 ^ 32 + 2 ^ 32 - y) % 2 ^ 32 ∷ c,
      owed,
      rw run refl,
      omega arith,
      (omega arith, below),
      less,
      omega (arith, total, exact),
    )
